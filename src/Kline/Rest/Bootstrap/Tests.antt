-- ===== src/Kline/Rest/Bootstrap/Tests.antt =====
-- Tests of kline/internal/rest/bootstrap.go, and the theorems at inputs.
use fidorix.Base.{
  ◌≡◌, ◌≤◌, ◌*◌, ◌⊎◌, refl, true, false, none, some, List, [], ◌∷◌, ◌++◌, Bool, Option, arith, All,
  length, ℤ, pos, ◌+ℤ◌, ◌-ℤ◌, ◌*ℤ◌, ◌≤ℤ◌, ◌<ℤ◌, wrap64, Text, codes, text_eq, CaseTables, Disk, ok,
  itoa, digits,
}
use fidorix.Kline.Candle
use fidorix.Kline.Candle.{Candle}
use fidorix.Kline.Candle.Order.{candle_at}
use fidorix.Kline.Candle.Merge.{upsert_all}
use fidorix.Kline.Candle.Tests.{bar, two_bars, two_bars-IsSorted}
use fidorix.Kline.Config.{interval_seconds}
use fidorix.Kline.Ws.Manager.Tests.{settings}
use fidorix.Kline.Store.{CandleFile, new_full, store}
use fidorix.Kline.Store.Invariant.{IsValid, new_full-IsValid}
use fidorix.Kline.Store.View.{find}
use fidorix.Kline.Store.Tests.{btc, min1, two_file}
use fidorix.Kline.Files.{files}
use fidorix.Kline.Files.Tests.{identity, calm, base, btc_path}
use fidorix.Kline.Rest.Client.{rest_error, fetch_kline, to_candles, rows}
use fidorix.Kline.Rest.Client.Tests.{server}
use fidorix.Kline.Rest.Bootstrap.{
  compute_start, existing_file, merged_file, pair_path, PairEnv, Pairing, bootstrap_pair,
  fetch_error, pair_error_text, is_contract_not_exist,
}
use fidorix.Kline.Rest.Bootstrap.Start.{compute_start_of_candles}
use fidorix.Kline.Rest.Bootstrap.Pair.{
  last_at, IsDone, bootstrap_pair_result, bootstrap_pair-IsValid, find-bootstrap_pair,
}
use fidorix.Kline.Rest.Bootstrap.Unlisted.{is_contract_not_exist_of_1001}
use fidorix.Kline.Rest.Workers.{jobs_of, job, launched, new_pool, worker_count, Pool, Step, Run}
use fidorix.Kline.Rest.Workers.Progress.{is_cancel, steps, new_pool-steps}
use fidorix.Kline.Rest.Workers.Bounds.{unlisted_answers, unlisted_answers-le}
use fidorix.Kline.Rest.Workers.Kept.{weight, total, total-jobs_of}

unfoldable pub bootstrap : Unit {0}
unfolding store Candle.upsert files fetch_kline to_candles rows compute_start existing_file
    merged_file pair_path bootstrap_pair interval_seconds upsert_all wrap64 ◌+ℤ◌ ◌-ℤ◌ ◌*ℤ◌
bootstrap = tt

start_tests :
    (compute_start (pos 1000000) two_file min1 (pos 0) ≡ ok (pos 11))
    × (compute_start (pos 1000000) (record two_file { candles = some [] }) min1 (pos 0)
        ≡ ok (pos 880000))
unfolding bootstrap
start_tests = (refl, refl)

compute_start_of_candles_test :
    (start : ℤ) × (compute_start (pos 1000000) two_file min1 (pos 0) ≡ ok start)
    × (start ≤ℤ pos 30)
    × All (λ (c : Candle). c.t <ℤ start) (bar (pos 10) (codes "1") ∷ [])
compute_start_of_candles_test =
    compute_start_of_candles (pos 1000000) (pos 0) min1 two_file [] (bar (pos 10) (codes "1"))
      (bar (pos 30) (codes "3")) refl two_bars-IsSorted (omega arith) (omega arith)

abbrev pub env : PairEnv CandleFile
env = record { readable = true; now = pos 1000; server = server; merged_at = pos 1001; save = calm }

-- The file of the pair has two candles; the server adds two.
abbrev pub one_file : Disk CandleFile
one_file p = if_path (text_eq p btc_path)
  where
    if_path : Bool → Option CandleFile
    if_path true = some two_file
    if_path false = none

abbrev pub pairing : Pairing CandleFile
pairing = record { store = new_full false false; disk = one_file; effects = [] }

bootstrap_pair_ok :
    (bootstrap_pair identity env (pos 5) false base (codes "BTCUSDT") btc min1 pairing).1 ≡ ok 2
unfolding bootstrap
bootstrap_pair_ok = refl

bootstrap_pair_result_example :
    IsDone identity env
      (pos 5)
      false
      base
      (codes "BTCUSDT")
      btc
      min1
      pairing
      (bootstrap_pair identity env (pos 5) false base (codes "BTCUSDT") btc min1 pairing)
bootstrap_pair_result_example =
    bootstrap_pair_result identity env (pos 5) false base (codes "BTCUSDT") btc min1 pairing

bootstrap_pair-IsValid_test :
    IsValid
      (bootstrap_pair identity env (pos 5) false base (codes "BTCUSDT") btc min1 pairing).0.store
unfolding bootstrap
bootstrap_pair-IsValid_test =
    bootstrap_pair-IsValid identity env (pos 5) false base (codes "BTCUSDT") btc min1 pairing
      (new_full-IsValid false false) two_bars-IsSorted

find-bootstrap_pair_example :
    (candles : List Candle) × (length candles ≡ 2)
    × ((start : ℤ) × (fetch_kline server btc min1 start (pos 0) (pos 5) ≡ ok candles))
    × ((t : ℤ)
        → find
            (bootstrap_pair identity env
              (pos 5)
              false
              base
              (codes "BTCUSDT")
              btc
              min1
              pairing).0.store
            btc
            min1
            t
          ≡ last_at t (candle_at t two_bars) candles)
unfolding bootstrap
find-bootstrap_pair_example =
    find-bootstrap_pair identity env (pos 5) false base (codes "BTCUSDT") btc min1 pairing 2
      two_bars-IsSorted bootstrap_pair_ok

abbrev ascii : CaseTables
ascii = record { upper = λ c. c; lower = λ c. c }

-- Any code that begins with 1001 counts, not only 1001.
itoa_test : itoa (pos 10015) ≡ codes "1001" ++ codes "5"
unfolding itoa digits
itoa_test = refl

is_contract_not_exist_of_1001_example :
    is_contract_not_exist ascii
      (pair_error_text (λ e. []) (fetch_error (rest_error (pos 10015) (codes "busy"))))
    ≡ true
is_contract_not_exist_of_1001_example =
    is_contract_not_exist_of_1001 ascii (λ e. []) (pos 10015) (codes "5") (codes "busy") itoa_test

-- The first pair is with a goroutine.
abbrev one_live : Pool
one_live = record (new_pool settings) {
  waiting =
      job (codes "BTCUSDT") (codes "Min5")
      ∷ job (codes "ETHUSDT") (codes "Min1")
      ∷ job (codes "ETHUSDT") (codes "Min5")
      ∷ [];
  live = (job (codes "BTCUSDT") (codes "Min1"), launched) ∷ [];
}

one_launched : Run (worker_count settings) (new_pool settings) one_live
unfolding new_pool jobs_of
one_launched =
    Run.next Run.here (Step.launch (job (codes "BTCUSDT") (codes "Min1")) _ refl (omega arith))

unlisted_answers-le_example :
    (length one_live.live ≤ 1) × ((w : Text) → unlisted_answers w one_live ≤ 1)
unlisted_answers-le_example = unlisted_answers-le settings one_live one_launched

total-jobs_of_example :
    total (λ j. length j.interval) one_live
    ≡ weight (λ j. length j.interval) (jobs_of settings.symbols settings.intervals)
total-jobs_of_example = total-jobs_of (λ j. length j.interval) settings one_live one_launched

new_pool-steps_example :
    (steps one_launched ≤ 4 * length (jobs_of settings.symbols settings.intervals))
    × (((one_live.waiting ≡ []) × (one_live.live ≡ []))
        ⊎ ((t : Pool) × (st : Step (worker_count settings) one_live t) × (is_cancel st ≡ false)))
new_pool-steps_example = new_pool-steps settings one_live one_launched
