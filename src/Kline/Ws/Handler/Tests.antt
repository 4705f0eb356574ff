-- ===== src/Kline/Ws/Handler/Tests.antt =====
-- Tests of kline/internal/ws/handler.go, and the theorems at inputs.
use fidorix.Base.{◌≡◌, refl, ◌⊎◌, true, some, [], ◌∷◌, pos, codes, arith, ne_of_text_eq}
use fidorix.Kline.Store.{has, upsert, store}
use fidorix.Kline.Store.Invariant.{IsValid}
use fidorix.Kline.Store.Tests.{btc, min1, loaded, loaded-IsValid}
use fidorix.Kline.Ws.Handler.{Envelope, PushKline, candle_of, Decoder, handle_message, run}
use fidorix.Kline.Ws.Handler.Stream.{ops_of, find-run}
use fidorix.Kline.Store.View.{find}
use fidorix.Kline.Store.Refinement.{replay}
use fidorix.Kline.Ws.Handler.Updates.{handle_message_result, handle_message-push, run-IsValid}

abbrev pub envelope : Envelope
envelope = record { channel = codes "push.kline"; payload = codes "p" }

abbrev pub push : PushKline
push = record {
  symbol = btc;
  interval = min1;
  t = pos 40;
  o = codes "1";
  h = codes "2";
  l = codes "1";
  c = codes "2";
  v = codes "5";
  a = codes "9";
  q = [];
  ro = [];
  rc = [];
  rh = [];
  rl = [];
}

-- A decoder to which every frame is the envelope, and its data the push.
abbrev pub json : Decoder
json = record { envelope = λ s. some envelope; push = λ s. some push }

has-loaded : has loaded btc min1 ≡ true
unfolding store
has-loaded = refl

handle_message-push_test :
    handle_message json loaded (codes "f") ≡ upsert loaded btc min1 (candle_of push)
handle_message-push_test =
    handle_message-push json loaded (codes "f") envelope push refl refl refl
      (ne_of_text_eq btc [] (unfold store in refl)) (ne_of_text_eq min1 [] (unfold store in refl))
      has-loaded

handle_message_result_test :
    (handle_message json loaded (codes "f") ≡ (loaded, []))
    ⊎ ((p : PushKline) × (has loaded p.symbol p.interval ≡ true)
        × (handle_message json loaded (codes "f")
            ≡ upsert loaded p.symbol p.interval (candle_of p)))
handle_message_result_test = handle_message_result json loaded (codes "f")

run-IsValid_test :
    IsValid (run json loaded (codes "f" ∷ codes "g" ∷ [])).0
    × (has (run json loaded (codes "f" ∷ codes "g" ∷ [])).0 btc min1 ≡ has loaded btc min1)
run-IsValid_test =
    let r = run-IsValid json loaded (codes "f" ∷ codes "g" ∷ []) loaded-IsValid in
    (r.0, r.1 btc min1)

find-run_example :
    find (run json loaded (codes "f" ∷ codes "g" ∷ [])).0 btc min1 (pos 40)
    ≡ replay (ops_of json (has loaded) (codes "f" ∷ codes "g" ∷ [])) (find loaded) btc min1 (pos 40)
unfolding store
find-run_example =
    find-run json loaded (codes "f" ∷ codes "g" ∷ []) btc min1 (pos 40) loaded-IsValid
      (ground arith, (ground arith, tt)) (ground arith)
