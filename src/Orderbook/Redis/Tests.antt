-- ===== src/Orderbook/Redis/Tests.antt =====
-- Tests of the Redis client and writer of the order book service, and the theorems at inputs. A
-- snapshot is its symbol and a number.
use fidorix.Base.{
  ℕ, ◌≤◌, ◌≡◌, refl, true, false, none, some, [], ◌∷◌, length, Text, codes, strings, lookup, insert,
  done, refused, not_initialized, call_error,
}
use fidorix.Orderbook.Redis.{
  book_key, Encoding, set_order_book, close, output_path, no_client, cancelled, skipped, started,
  write_snapshot, interrupted, entered, wait_rounds, write_snapshot_blocking, leaving, RedisWriter,
  new_redis_writer, Step, Run,
}
use fidorix.Orderbook.Redis.Exclusive.{IsBook, IsBook-Run}
use fidorix.Orderbook.Redis.Blocking.{busy, busy_rounds, write_snapshot_blocking-busy}

abbrev json : Encoding (Text × ℕ) ℕ
json = record { symbol = λ s. s.0; encode = λ s. some s.1 }

abbrev book : Text × ℕ
book = (codes "BTCUSDT", 7)

redis_tests :
    (set_order_book json true done book [] ≡ ((codes "orderbook:BTCUSDT", 7) ∷ [], none))
    × (set_order_book json false done book [] ≡ ([], some not_initialized))
    × (set_order_book json true refused book [] ≡ ([], some call_error))
    × (output_path (codes "X") ≡ codes "redis:orderbook:X")
    × (write_snapshot false false false ≡ no_client)
    × (write_snapshot true true false ≡ cancelled)
    × (write_snapshot true false true ≡ skipped)
    × (write_snapshot true false false ≡ started)
    × (close false (some call_error) ≡ none)
    × (write_snapshot_blocking true (busy ∷ record busy { waits = false } ∷ []) ≡ (interrupted, 2))
unfolding strings set_order_book insert output_path write_snapshot close write_snapshot_blocking
    wait_rounds
redis_tests = (refl, refl, refl, refl, refl, refl, refl, refl, refl, refl)

write_snapshot_blocking-busy_test :
    write_snapshot_blocking true (busy_rounds 3 (record busy { in_flight = false } ∷ []))
    ≡ (entered, 3)
write_snapshot_blocking-busy_test =
    write_snapshot_blocking-busy 3 (record busy { in_flight = false }) [] refl

-- The snapshot is in Redis, and the flag is not free yet.
abbrev set_once : RedisWriter (Text × ℕ) ℕ
set_once = record {
  in_flight = true;
  values = (set_order_book json true done book []).0;
  live = leaving ∷ [];
}

set_once-Run : Run json (new_redis_writer []) set_once
set_once-Run =
    Run.next (Run.next Run.here (Step.enter book refl)) (Step.set book true done [] [] refl)

IsBook-Run_example :
    (length set_once.live ≤ 1)
    × ((symbol : Text) → IsBook json [] symbol (lookup (book_key symbol) set_once.values))
IsBook-Run_example = IsBook-Run json [] set_once set_once-Run
