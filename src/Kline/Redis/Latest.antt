-- ===== src/Kline/Redis/Latest.antt =====
-- What Redis has when the calls are made in order.
use fidorix.Base.{
  prefix_cancel, done, ◌≡◌, ◌≢◌, ◌∙◌, refl, inl, inr, ◌⊎◌, ◌&&◌, Option, none, some, List, [], ◌∷◌,
  Bool-cases, if◌then◌else◌, All, Text, codes, text_eq, text_eq_iff, Lacks, lookup, lookup-insert,
}
use fidorix.Kline.Candle.{Candle}
use fidorix.Kline.Store.{Effect, upsert_batch, set_latest_bar, publish_bar, key_for}
use fidorix.Kline.Store.Keys.{key_for_inj}
use fidorix.Kline.Store.Refinement.{pair_cases}
use fidorix.Kline.Redis.{Redis, latest_key, update_channel, perform, perform_all}
use fidorix.Kline.Redis

-- Two pairs have one key only if they are the same pair, if their intervals hold no colon.
pub latest_key_inj :
    (s t i j : Text)
    → Lacks b':' i
    → Lacks b':' j
    → latest_key s i ≡ latest_key t j
    → (s ≡ t) × (i ≡ j)
latest_key_inj s t i j h k e =
    key_for_inj s t i j h k (unfold key_for in prefix_cancel (codes "kline:latest:") _ _ e)

text_eq-latest_key :
    (s t i j : Text)
    → Lacks b':' i
    → Lacks b':' j
    → text_eq (latest_key s i) (latest_key t j) ≡ (text_eq s t && text_eq i j)
text_eq-latest_key s t i j h k = elim (pair_cases s i t j) [
  | inl (same, same_interval, e) ↦ rw e ((text_eq_iff _ _).1 (rw (same, same_interval)))
  | inr (ne, e) ↦ rw e (elim (Bool-cases (text_eq (latest_key s i) (latest_key t j))) [
    | inr f ↦ f
    | inl f ↦ absurd (apart ne (latest_key_inj s t i j h k ((text_eq_iff _ _).0 f)))
  ])
]
  where
    apart : (s ≢ t) ⊎ (i ≢ j) → (s ≡ t) × (i ≡ j) → ⊥
    apart (inl ne) e = ne e.0
    apart (inr ne) e = ne e.1

-- The calls that set a candle of the pair, the last one at the end.
abbrev pub last_bar : Text → Text → Option Candle → List Effect → Option Candle
last_bar symbol interval last [] = last
last_bar symbol interval last (upsert_batch s i cs ∷ es) = last_bar symbol interval last es
last_bar symbol interval last (publish_bar s i c ∷ es) = last_bar symbol interval last es
last_bar symbol interval last (set_latest_bar s i c ∷ es) =
    last_bar symbol interval (if text_eq s symbol && text_eq i interval then some c else last) es

abbrev pub IsPlain : Effect → Type 0
IsPlain (set_latest_bar symbol interval c) = Lacks b':' interval
IsPlain _ = Unit

abbrev pub updates : {P : Type 0} → (Candle → P) → List Effect → List (Text × P) → List (Text × P)
updates encode [] published = published
updates encode (upsert_batch s i cs ∷ es) published = updates encode es published
updates encode (set_latest_bar s i c ∷ es) published = updates encode es published
updates encode (publish_bar s i c ∷ es) published =
    updates encode es ((update_channel s i, encode c) ∷ published)

module _ {P : Type 0} (encode : Candle → P) where
  abbrev pub as_payload : Option Candle → Option P
  as_payload none = none
  as_payload (some c) = some (encode c)

  perform_all-last :
      (es : List Effect) (r : Redis P) (symbol interval : Text) (last : Option Candle)
      → Lacks b':' interval
      → All IsPlain es
      → lookup (latest_key symbol interval) r.values ≡ as_payload last
      → lookup
          (latest_key symbol interval)
          (perform_all (λ c. some (encode c)) (λ e. done) es r).values
        ≡ as_payload (last_bar symbol interval last es)
  unfolding perform_all perform Redis.set_latest_bar Redis.publish_bar
  perform_all-last [] r symbol interval last q h e = e
  perform_all-last (upsert_batch s i cs ∷ es) r symbol interval last q h e =
      perform_all-last es r symbol interval last q h.1 e
  perform_all-last (publish_bar s i c ∷ es) r symbol interval last q h e =
      perform_all-last es _ symbol interval last q h.1 e
  perform_all-last (set_latest_bar s i c ∷ es) r symbol interval last q h e =
      perform_all-last es _ symbol interval _ q h.1 (
        lookup-insert (latest_key s i) (latest_key symbol interval) (encode c) r.values
        ∙ rw (text_eq-latest_key s symbol i interval h.0 q)
            (elim (Bool-cases (text_eq s symbol && text_eq i interval)) [
              | inl f ↦ rw f
              | inr f ↦ rw f e
            ]))

  perform_all-published :
      (es : List Effect) (r : Redis P)
      → (perform_all (λ c. some (encode c)) (λ e. done) es r).published
        ≡ updates encode es r.published
  unfolding perform_all perform Redis.set_latest_bar Redis.publish_bar
  perform_all-published [] r = refl
  perform_all-published (upsert_batch s i cs ∷ es) r = perform_all-published es r
  perform_all-published (publish_bar s i c ∷ es) r = perform_all-published es _
  perform_all-published (set_latest_bar s i c ∷ es) r = perform_all-published es _

  -- If every candle is encoded, every call is answered, and the calls are made in order, then Redis
  -- has for each pair the candle that was set last, and what was published before, and each update
  -- was published once, in order. The intervals hold no colon.
  pub perform_all_result :
      (es : List Effect) (r : Redis P) (symbol interval : Text) (last : Option Candle)
      → Lacks b':' interval
      → All IsPlain es
      → lookup (latest_key symbol interval) r.values ≡ as_payload last
      → (lookup
            (latest_key symbol interval)
            (perform_all (λ c. some (encode c)) (λ e. done) es r).values
          ≡ as_payload (last_bar symbol interval last es))
        × ((perform_all (λ c. some (encode c)) (λ e. done) es r).published
            ≡ updates encode es r.published)
  perform_all_result es r symbol interval last q h e =
      (perform_all-last es r symbol interval last q h e, perform_all-published es r)
