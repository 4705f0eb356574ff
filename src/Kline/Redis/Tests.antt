-- ===== src/Kline/Redis/Tests.antt =====
-- Tests of kline/internal/redisclient/redis.go, and the theorems at inputs. A payload is its candle.
use fidorix.Base.{
  not_initialized, call_error, done, refused, done_unanswered, ◌≡◌, refl, true, false, none, some,
  List, [], ◌∷◌, arith, pos, codes, strings, lookup, insert,
}
use fidorix.Kline.Candle.{Candle}
use fidorix.Kline.Candle.Tests.{bar}
use fidorix.Kline.Store.{Effect, new_full}
use fidorix.Kline.Store
use fidorix.Kline.Store.Invariant.{new_full-IsValid}
use fidorix.Kline.Store.View.{find}
use fidorix.Kline.Store.Tests.{btc, min1}
use fidorix.Kline.Redis.{
  Redis, empty_redis, latest_key, update_channel, set_latest_bar, publish_bar, perform_all, close,
  Sending, Run,
}
use fidorix.Kline.Redis.Latest.{as_payload, last_bar, perform_all_result}
use fidorix.Kline.Store.{upsert}
use fidorix.Kline.Redis.Race.{calls_of, latest_race}

abbrev one : Candle
one = bar (pos 10) (codes "1")

abbrev two : Candle
two = bar (pos 20) (codes "2")

abbrev no_bars : Redis Candle
no_bars = empty_redis

redis_tests :
    (set_latest_bar some false done btc min1 one no_bars ≡ (no_bars, some not_initialized))
    × (set_latest_bar some true refused btc min1 one no_bars ≡ (no_bars, some call_error))
    × ((set_latest_bar some true done_unanswered btc min1 one no_bars).0.values
        ≡ (codes "kline:latest:BTC_USDT:Min1", one) ∷ [])
    × ((publish_bar some true done btc min1 one no_bars).0.published
        ≡ (codes "kline:update:BTC_USDT:Min1", one) ∷ [])
    × (close false (some call_error) ≡ none)
unfolding strings set_latest_bar publish_bar insert close
redis_tests = (refl, refl, refl, refl, refl)

-- The calls of two upserts of one pair.
abbrev two_calls : List Effect
two_calls =
    Store.set_latest_bar btc min1 one
    ∷ Store.publish_bar btc min1 one
    ∷ Store.set_latest_bar btc min1 two
    ∷ Store.publish_bar btc min1 two
    ∷ []

perform_all_result_example :
    (lookup (latest_key btc min1) (perform_all (λ c. some c) (λ e. done) two_calls no_bars).values
      ≡ as_payload (λ c. c) (last_bar btc min1 none two_calls))
    × ((perform_all (λ c. some c) (λ e. done) two_calls no_bars).published
        ≡ (update_channel btc min1, two) ∷ (update_channel btc min1, one) ∷ [])
perform_all_result_example =
    perform_all_result (λ c. c) two_calls no_bars btc min1 none (ground arith)
      (ground arith, (tt, (ground arith, (tt, tt)))) (unfold lookup in refl)

latest_race_example :
    let both : Sending Candle = record {
      store = (upsert (upsert (new_full false true) btc min1 one).0 btc min1 two).0;
      redis = no_bars;
      running = calls_of btc min1 one ∷ calls_of btc min1 two ∷ [];
    } in
    Run some (record { store = new_full false true; redis = no_bars; running = [] }) both
    × (m : Sending Candle) × Run some both m
    × (m.running ≡ calls_of btc min1 one ∷ [] ∷ [])
    × (lookup (latest_key btc min1) m.redis.values ≡ some two)
    × (v : Sending Candle) × Run some m v
    × (v.running ≡ [] ∷ [] ∷ [])
    × (find v.store btc min1 (pos 20) ≡ some two)
    × (lookup (latest_key btc min1) v.redis.values ≡ some one)
latest_race_example =
    latest_race some (new_full false true) no_bars btc min1 one two one two
      (new_full-IsValid false true) (unfold new_full in refl) (unfold new_full in refl) refl refl
