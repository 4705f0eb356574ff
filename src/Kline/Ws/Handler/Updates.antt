-- ===== src/Kline/Ws/Handler/Updates.antt =====
-- The handler updates pairs that the store has, and does nothing else.
use fidorix.Base.{
  ◌≡◌, ◌≢◌, refl, ◌∙◌, inl, inr, ◌⊎◌, true, some, List, [], ◌∷◌, arith, Bool-cases, Option-cases,
  Text, codes, text_eq, text_eq_iff, lookup-insert,
}
use fidorix.Kline.Candle.{Candle}
use fidorix.Kline.Store.{Store, has, key_for, upsert}
use fidorix.Kline.Store.Invariant.{IsValid, upsert-IsValid}
use fidorix.Kline.Ws.Handler.{
  Envelope, PushKline, candle_of, Decoder, apply_push, handle_push_kline, handle_message, run,
}

-- A message is dropped, or it is a push for a pair that the store has and is upserted.
pub handle_message_result :
    (json : Decoder) (s : Store) (payload : Text)
    → (handle_message json s payload ≡ (s, []))
      ⊎ ((p : PushKline) × (has s p.symbol p.interval ≡ true)
          × (handle_message json s payload ≡ upsert s p.symbol p.interval (candle_of p)))
unfolding handle_message handle_push_kline
handle_message_result json s payload = elim (Option-cases (json.envelope payload)) [
  | inl e ↦ inl (rw e)
  | inr (env, e) ↦ elim (Bool-cases (text_eq env.channel (codes "push.kline"))) [
    | inr other ↦ inl (rw (e, other))
    | inl push ↦ elim (Option-cases (json.push env.payload)) [
      | inl bad ↦ inl (rw (e, push, bad))
      | inr (p, good) ↦ elim (apply_push_result p) [
        | inl same ↦ inl (rw (e, push, good) same)
        | inr (known, done) ↦ inr (p, known, rw (e, push, good) done)
      ]
    ]
  ]
]
  where
    apply_push_result :
        (p : PushKline)
        → (apply_push s p ≡ (s, []))
          ⊎ ((has s p.symbol p.interval ≡ true)
              × (apply_push s p ≡ upsert s p.symbol p.interval (candle_of p)))
    apply_push_result p = ground arith

-- A well-formed push for a pair that the store has is upserted.
pub handle_message-push :
    (json : Decoder) (s : Store) (payload : Text) (env : Envelope) (p : PushKline)
    → json.envelope payload ≡ some env
    → env.channel ≡ codes "push.kline"
    → json.push env.payload ≡ some p
    → p.symbol ≢ []
    → p.interval ≢ []
    → has s p.symbol p.interval ≡ true
    → handle_message json s payload ≡ upsert s p.symbol p.interval (candle_of p)
unfolding handle_message handle_push_kline
handle_message-push json s payload env p e ch good sym_ne int_ne known =
    simp (e, (text_eq_iff env.channel (codes "push.kline")).1 ch, good) (ground arith)

handle_message-IsValid :
    (json : Decoder) (s : Store) (payload : Text)
    → IsValid s
    → IsValid (handle_message json s payload).0
handle_message-IsValid json s payload h = elim (handle_message_result json s payload) [
  | inl same ↦ rw same h
  | inr (p, known, done) ↦ rw done (upsert-IsValid s p.symbol p.interval (candle_of p) h)
]

has-upsert :
    (s : Store) (symbol interval symbol' interval' : Text) (c : Candle)
    → has s symbol interval ≡ true
    → has (upsert s symbol interval c).0 symbol' interval' ≡ has s symbol' interval'
unfolding has upsert
has-upsert s symbol interval symbol' interval' c known =
    rw (lookup-insert (key_for symbol interval) (key_for symbol' interval') _ s.entries)
      (ground (arith, text_eq_iff (key_for symbol interval) (key_for symbol' interval')))

pub has-handle_message :
    (json : Decoder) (s : Store) (payload symbol interval : Text)
    → has (handle_message json s payload).0 symbol interval ≡ has s symbol interval
has-handle_message json s payload symbol interval = elim (handle_message_result json s payload) [
  | inl same ↦ rw same
  | inr (p, known, done) ↦
      rw done (has-upsert s p.symbol p.interval symbol interval (candle_of p) known)
]

-- Whatever the stream sends, a valid store stays valid, and gains and loses no pair.
pub run-IsValid :
    (json : Decoder) (s : Store) (payloads : List Text)
    → IsValid s
    → IsValid (run json s payloads).0
      × ((symbol interval : Text)
          → has (run json s payloads).0 symbol interval ≡ has s symbol interval)
unfolding run
run-IsValid json s [] h = (h, λ symbol interval. refl)
run-IsValid json s (payload ∷ payloads) h =
    let (valid, same) =
      run-IsValid json (handle_message json s payload).0 payloads
        (handle_message-IsValid json s payload h) in
    (
      valid,
      λ symbol interval. same symbol interval ∙ has-handle_message json s payload symbol interval,
    )
