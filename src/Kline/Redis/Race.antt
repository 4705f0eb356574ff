-- ===== src/Kline/Redis/Race.antt =====
-- The goroutines of two upserts run in any order.
use fidorix.Base.{
  done, subst, ◌≡◌, refl, ◌∙◌, true, false, Option, some, List, [], ◌∷◌, Text, lookup,
  lookup-insert_self, eqb_ℤ_iff,
}
use fidorix.Kline.Candle.{Candle}
use fidorix.Kline.Store.{Effect, Store, set_latest_bar, publish_bar, upsert, persist_external}
use fidorix.Kline.Store.Invariant.{IsValid, upsert-IsValid}
use fidorix.Kline.Store.View.{find, find-upsert_self}
use fidorix.Kline.Redis.{Redis, latest_key, perform, Sending, Step, Run}
use fidorix.Kline.Redis

-- The calls of an upsert into a store that has Redis and no database.
abbrev pub calls_of : Text → Text → Candle → List Effect
calls_of symbol interval c = set_latest_bar symbol interval c ∷ publish_bar symbol interval c ∷ []

effects-upsert :
    (s : Store) (symbol interval : Text) (c : Candle)
    → s.has_db ≡ false
    → s.has_redis ≡ true
    → (upsert s symbol interval c).1 ≡ calls_of symbol interval c
unfolding upsert persist_external
effects-upsert s symbol interval c no_db redis = rw (no_db, redis)

-- Two candles of a pair are stored one after the other; then the goroutine of the second makes
-- all its calls, before the goroutine of the first makes any, so that Redis has the second as the
-- latest; then the goroutine of the first makes its calls: the store has the second candle at its
-- time, and Redis has the first as the latest. This holds if the store is valid and has Redis and
-- no database, and both candles are encoded.
pub latest_race :
    {P : Type 0} (marshal : Candle → Option P) (s : Store) (r : Redis P) (symbol interval : Text)
    (c d : Candle) (older newer : P)
    → IsValid s
    → s.has_db ≡ false
    → s.has_redis ≡ true
    → marshal c ≡ some older
    → marshal d ≡ some newer
    → let both : Sending P = record {
      store = (upsert (upsert s symbol interval c).0 symbol interval d).0;
      redis = r;
      running = calls_of symbol interval c ∷ calls_of symbol interval d ∷ [];
    } in
      Run marshal (record { store = s; redis = r; running = [] }) both
      × (m : Sending P) × Run marshal both m
      × (m.running ≡ calls_of symbol interval c ∷ [] ∷ [])
      × (lookup (latest_key symbol interval) m.redis.values ≡ some newer)
      × (v : Sending P) × Run marshal m v
      × (v.running ≡ [] ∷ [] ∷ [])
      × (find v.store symbol interval d.t ≡ some d)
      × (lookup (latest_key symbol interval) v.redis.values ≡ some older)
unfolding perform Redis.set_latest_bar Redis.publish_bar
latest_race {P} marshal s r symbol interval c d older newer valid no_db redis encoded encoded_d =
    let first = calls_of symbol interval c in
    (
      subst
          (λ (es : List (List Effect)).
            Run marshal (record { store = s; redis = r; running = [] })
              (record {
                store = (upsert (upsert s symbol interval c).0 symbol interval d).0;
                redis = r;
                running = es;
              }))
          (rw (effects-upsert s symbol interval c no_db redis, second))
          (Run.next (Run.next Run.here (Step.upserts symbol interval c))
            (Step.upserts symbol interval d)),
      _,
      Run.next
          (Run.next Run.here (
            Step.calls (λ e. done) (set_latest_bar symbol interval d)
              (publish_bar symbol interval d ∷ []) (first ∷ []) [] refl))
          (Step.calls (λ e. done) (publish_bar symbol interval d) [] (first ∷ []) [] refl),
      refl,
      rw (perform, encoded_d) (lookup-insert_self (latest_key symbol interval) newer _),
      _,
      Run.next
          (Run.next Run.here (
            Step.calls (λ e. done) (set_latest_bar symbol interval c)
              (publish_bar symbol interval c ∷ []) [] ([] ∷ []) refl))
          (Step.calls (λ e. done) (publish_bar symbol interval c) [] [] ([] ∷ []) refl),
      refl,
      find-upsert_self (upsert s symbol interval c).0 symbol interval d d.t
            (upsert-IsValid s symbol interval c valid)
          ∙ rw ((eqb_ℤ_iff d.t d.t).1 refl),
      rw (perform, encoded) (lookup-insert_self (latest_key symbol interval) older _),
    )
  where
    second :
        (upsert (upsert s symbol interval c).0 symbol interval d).1 ≡ calls_of symbol interval d
    second =
        effects-upsert (upsert s symbol interval c).0 symbol interval d (unfold upsert in no_db)
          (unfold upsert in redis)
