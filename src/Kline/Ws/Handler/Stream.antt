-- ===== src/Kline/Ws/Handler/Stream.antt =====
-- The handler and the store together: a stream of messages is a run of upserts.
use fidorix.Base.{
  ◌≡◌, ◌∙◌, refl, sym, ap, Bool, not, ◌&&◌, ◌||◌, Option, none, some, List, [], ◌∷◌, ◌++◌, All,
  All-append, arith, Option-cases, Bool-cases, inl, inr, if◌then◌else◌, ℤ, Text, codes, text_eq,
  is_empty, Lacks,
}
use fidorix.Kline.Store.{Store, has}
use fidorix.Kline.Store.Invariant.{IsValid}
use fidorix.Kline.Store.View.{find}
use fidorix.Kline.Store.Refinement.{Op, upserts, run, replay, IsProper, run_refines}
use fidorix.Kline.Ws.Handler.{
  Envelope, PushKline, candle_of, Decoder, handle_push_kline, handle_message,
}
use fidorix.Kline.Ws.Handler
use fidorix.Kline.Ws.Handler.Updates.{has-handle_message}

abbrev push_in : Decoder → Option Envelope → Option PushKline
push_in json none = none
push_in json (some e) = if text_eq e.channel (codes "push.kline") then json.push e.payload else none

-- The push that a message carries.
abbrev pub push_of : Decoder → Text → Option PushKline
push_of json payload = push_in json (json.envelope payload)

-- The push is complete, and its pair is known.
abbrev pub is_taken : (Text → Text → Bool) → PushKline → Bool
is_taken known p = not (is_empty p.symbol || is_empty p.interval) && known p.symbol p.interval

abbrev pub op_of : (Text → Text → Bool) → Option PushKline → List Op
op_of known none = []
op_of known (some p) =
    if is_taken known p then upserts p.symbol p.interval (candle_of p) ∷ [] else []

-- The upserts that a stream asks for, where `known` are the pairs of the store.
abbrev pub ops_of : Decoder → (Text → Text → Bool) → List Text → List Op
ops_of json known [] = []
ops_of json known (payload ∷ payloads) =
    op_of known (push_of json payload) ++ ops_of json known payloads

pub handle_message-op_of :
    (json : Decoder) (s : Store) (payload : Text)
    → (handle_message json s payload).0 ≡ run (op_of (has s) (push_of json payload)) s
unfolding handle_message handle_push_kline run
handle_message-op_of json s payload = elim (Option-cases (json.envelope payload)) [
  | inl e ↦ rw e
  | inr (env, e) ↦ elim (Bool-cases (text_eq env.channel (codes "push.kline"))) [
    | inr other ↦ rw (e, other)
    | inl push ↦ elim (Option-cases (json.push env.payload)) [
      | inl bad ↦ rw (e, push, bad)
      | inr (p, good) ↦ rw (e, push, good) (ground arith)
    ]
  ]
]

op_of_same :
    (known known' : Text → Text → Bool) (o : Option PushKline)
    → ((symbol interval : Text) → known symbol interval ≡ known' symbol interval)
    → op_of known o ≡ op_of known' o
op_of_same known known' none same = refl
op_of_same known known' (some p) same = rw (same p.symbol p.interval)

run-append : (xs ys : List Op) (s : Store) → run (xs ++ ys) s ≡ run ys (run xs s)
unfolding run
run-append [] ys s = refl
run-append (x ∷ xs) ys s = run-append xs ys _

run-ops_of :
    (json : Decoder) (known : Text → Text → Bool) (payloads : List Text) (s : Store)
    → ((symbol interval : Text) → has s symbol interval ≡ known symbol interval)
    → (Handler.run json s payloads).0 ≡ run (ops_of json known payloads) s
unfolding Handler.run
run-ops_of json known [] s same = unfold run in refl
run-ops_of json known (payload ∷ payloads) s same =
    let first = op_of known (push_of json payload) in
    run-ops_of json known payloads (handle_message json s payload).0
      (λ symbol interval. has-handle_message json s payload symbol interval ∙ same symbol interval)
    ∙ ap (run (ops_of json known payloads)) (
        handle_message-op_of json s payload
        ∙ ap (λ ops. run ops s) (op_of_same (has s) known (push_of json payload) same))
    ∙ sym (run-append first (ops_of json known payloads) s)

-- The interval of every push of the stream holds no colon.
abbrev IsPlain : Option PushKline → Type 0
IsPlain none = Unit
IsPlain (some p) = Lacks b':' p.interval

abbrev pub ArePlain : Decoder → List Text → Type 0
ArePlain json [] = Unit
ArePlain json (payload ∷ payloads) = IsPlain (push_of json payload) × ArePlain json payloads

op_of-IsProper :
    (known : Text → Text → Bool) (o : Option PushKline) → IsPlain o → All IsProper (op_of known o)
op_of-IsProper known none h = tt
op_of-IsProper known (some p) h = elim (Bool-cases (is_taken known p)) [
  | inl e ↦ rw e (h, tt)
  | inr e ↦ rw e tt
]

ops_of-IsProper :
    (json : Decoder) (known : Text → Text → Bool) (payloads : List Text)
    → ArePlain json payloads
    → All IsProper (ops_of json known payloads)
ops_of-IsProper json known [] h = tt
ops_of-IsProper json known (payload ∷ payloads) h =
    All-append IsProper (op_of known (push_of json payload)) (ops_of json known payloads)
      (op_of-IsProper known (push_of json payload) h.0) (ops_of-IsProper json known payloads h.1)

-- Behind a stream of messages a valid store answers for every symbol, interval and time what a table
-- answers in which the candles of the complete pushes for pairs of the store are entered one after
-- the other, if no interval holds a colon.
pub find-run :
    (json : Decoder) (s : Store) (payloads : List Text) (symbol interval : Text) (t : ℤ)
    → IsValid s
    → ArePlain json payloads
    → Lacks b':' interval
    → find (Handler.run json s payloads).0 symbol interval t
      ≡ replay (ops_of json (has s) payloads) (find s) symbol interval t
find-run json s payloads symbol interval t h plain q =
    ap (λ x. find x symbol interval t) (run-ops_of json (has s) payloads s (λ _ _. refl))
    ∙ run_refines (ops_of json (has s) payloads) s symbol interval t h
        (ops_of-IsProper json (has s) payloads plain) q
