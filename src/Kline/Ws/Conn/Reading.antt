-- ===== src/Kline/Ws/Conn/Reading.antt =====
-- What readLoop forwards, and what subscribeAll sends.
use fidorix.Base.{
  ℕ, suc, ◌<◌, ◌≡◌, refl, ap, inl, inr, ◌⊎◌, Bool, true, false, ◌||◌, List, [], ◌∷◌, ◌++◌, map,
  arith, length, take, Text,
}
use fidorix.Kline.Ws.Conn.{
  Subscription, subscribe_all, Read, message, read_fails, read_from, read_loop,
}

abbrev pub any_of : List Text → Bool
any_of [] = false
any_of (_ ∷ _) = true

read_from-messages :
    (had : Bool) (payloads : List Text) (reads : List Read)
    → read_from had (map message payloads ++ read_fails ∷ reads) ≡ record {
      ended = true;
      had_message = had || any_of payloads;
      failed = true;
      sent = payloads;
    }
unfolding read_from
read_from-messages had [] reads = ground arith
read_from-messages had (p ∷ payloads) reads = ground (arith, read_from-messages true payloads reads)

-- Every message that arrives before the connection fails goes to the handler, in order, and the
-- caller learns that there was one.
pub read_loop-messages :
    (payloads : List Text) (reads : List Read)
    → read_loop (map message payloads ++ read_fails ∷ reads)
      ≡ record { ended = true; had_message = any_of payloads; failed = true; sent = payloads }
unfolding read_loop
read_loop-messages payloads reads = read_from-messages false payloads reads

-- Either all subscriptions went out, in order, or those before the first that failed.
pub subscribe_all_result :
    (subs : List Subscription) (answers : List Bool)
    → (((subscribe_all subs answers).1 ≡ true) × ((subscribe_all subs answers).0 ≡ subs))
      ⊎ (((subscribe_all subs answers).1 ≡ false)
          × ((k : ℕ) × (k < length subs) × ((subscribe_all subs answers).0 ≡ take k subs)))
unfolding subscribe_all
subscribe_all_result [] answers = inl (refl, refl)
subscribe_all_result (sub ∷ subs) [] = elim (subscribe_all_result subs []) [
  | inl (all, sent) ↦ inl (all, ap (λ ss. sub ∷ ss) sent)
  | inr (sent_some, (k, lt, sent)) ↦ inr (sent_some, (suc k, omega arith, ap (λ ss. sub ∷ ss) sent))
]
subscribe_all_result (sub ∷ subs) (false ∷ answers) = inr (refl, (0, omega arith, refl))
subscribe_all_result (sub ∷ subs) (true ∷ answers) = elim (subscribe_all_result subs answers) [
  | inl (all, sent) ↦ inl (all, ap (λ ss. sub ∷ ss) sent)
  | inr (sent_some, (k, lt, sent)) ↦ inr (sent_some, (suc k, omega arith, ap (λ ss. sub ∷ ss) sent))
]
