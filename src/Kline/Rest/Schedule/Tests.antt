-- ===== src/Kline/Rest/Schedule/Tests.antt =====
-- Tests of the goroutines of Bootstrap on a schedule, and the theorems at inputs.
use fidorix.Base.{
  zero, suc, ◌<◌, ◌≤◌, ℕ, ◌≡◌, refl, false, List, [], ◌∷◌, inr, arith, Text, codes, text_eq,
  ne_of_text_eq, ok, pos, strings,
}
use fidorix.Kline.Symbol.{to_mexc, to_file}
use fidorix.Base.{lookup, some}
use fidorix.Kline.Files.{files}
use fidorix.Kline.Rest.Bootstrap.{Pairing}
use fidorix.Kline.Store.{CandleFile, Entry, key_for, entry_or_new, store}
use fidorix.Kline.Store.Tests.{btc, min1}
use fidorix.Kline.Files.Tests.{identity, identity-IsFaithful, base}
use fidorix.Kline.Files.Durable.{IsPersisted}
use fidorix.Kline.Rest.Bootstrap.{bootstrap_pair}
use fidorix.Kline.Rest.Bootstrap.Tests.{bootstrap, env, pairing}
use fidorix.Kline.Rest.Workers.{job}
use fidorix.Kline.Rest.Schedule.{Goroutine, returned, all_entered, move, advance, run_schedule}
use fidorix.Kline.Rest.Schedule.Isolated.{turns_of, Agree}
use fidorix.Kline.Rest.Schedule.Saved.{IsUsual}
use fidorix.Kline.Rest.Schedule.Durable.{Covers, run_schedule-IsPersisted}
use fidorix.Kline.Rest.Schedule.Outcome.{IsPlain, AllDiffer, run_schedule-bootstrap_pair}

abbrev pub min5 : Text
min5 = codes "Min5"

abbrev pub goroutine : Text → Text → Goroutine CandleFile
goroutine symbol interval = record { job = job symbol interval; env = env }

abbrev pub two_goroutines : List (Goroutine CandleFile)
two_goroutines = goroutine (codes "BTCUSDT") min1 ∷ goroutine (codes "ETHUSDT") min5 ∷ []

-- They take turns.
abbrev pub in_turn : List ℕ
in_turn = 0 ∷ 1 ∷ 0 ∷ 1 ∷ 0 ∷ 1 ∷ 0 ∷ 1 ∷ 0 ∷ 1 ∷ []

run_schedule_tests :
    ((run_schedule identity (pos 5) false base two_goroutines in_turn (all_entered pairing)).places
        0
      ≡ returned (ok 2))
unfolding bootstrap run_schedule advance move
run_schedule_tests = refl

pub btc-IsPlain : IsPlain (goroutine (codes "BTCUSDT") min1)
unfolding strings to_file
btc-IsPlain = record {
  wire = refl;
  one_part = ground arith;
  named = refl;
  whole = ground arith;
  interval = record { filled = refl; whole = ground arith; no_dot = refl; no_dots = refl };
  plain = ground arith;
}

pub eth-IsPlain : IsPlain (goroutine (codes "ETHUSDT") min5)
unfolding strings to_file
eth-IsPlain = record {
  wire = refl;
  one_part = ground arith;
  named = refl;
  whole = ground arith;
  interval = record { filled = refl; whole = ground arith; no_dot = refl; no_dots = refl };
  plain = ground arith;
}

pub two_goroutines-AllDiffer : AllDiffer two_goroutines
unfolding text_eq
two_goroutines-AllDiffer = ((inr (ne_of_text_eq min1 min5 refl), tt), (tt, tt))

run_schedule-bootstrap_pair_example :
    ((run_schedule identity (pos 5) false base two_goroutines in_turn (all_entered pairing)).places
        0
      ≡ returned
          (bootstrap_pair identity env
            (pos 5)
            false
            base
            (codes "BTCUSDT")
            (to_mexc (codes "BTCUSDT"))
            min1
            pairing).1)
    × Agree base
        (goroutine (codes "BTCUSDT") min1)
        (run_schedule identity
          (pos 5)
          false
          base
          two_goroutines
          in_turn
          (all_entered pairing)).shared
        (bootstrap_pair identity env
          (pos 5)
          false
          base
          (codes "BTCUSDT")
          (to_mexc (codes "BTCUSDT"))
          min1
          pairing).0
run_schedule-bootstrap_pair_example =
    run_schedule-bootstrap_pair identity (pos 5) false base two_goroutines in_turn pairing 0
      (goroutine (codes "BTCUSDT") min1) refl (btc-IsPlain, (eth-IsPlain, tt))
      two_goroutines-AllDiffer refl (omega arith)

pub btc-IsUsual : IsUsual identity base pairing.disk (goroutine (codes "BTCUSDT") min1)
unfolding bootstrap strings
btc-IsUsual = record {
  plain = btc-IsPlain;
  trimmed = refl;
  readable = refl;
  symbol = refl;
  interval = refl;
}

pub eth-IsUsual : IsUsual identity base pairing.disk (goroutine (codes "ETHUSDT") min5)
unfolding bootstrap strings
eth-IsUsual = record {
  plain = eth-IsPlain;
  trimmed = refl;
  readable = refl;
  symbol = refl;
  interval = refl;
}

pub five_turns : (k : ℕ) → k < 2 → 5 ≤ turns_of k in_turn
five_turns zero lt = omega arith
five_turns (suc zero) lt = omega arith
five_turns (suc (suc k)) lt = absurd (omega arith)

pub no_pairs : Covers identity base two_goroutines pairing.store
unfolding bootstrap
no_pairs k e found = cc

abbrev final : Pairing CandleFile
final =
    (run_schedule identity (pos 5) false base two_goroutines in_turn (all_entered pairing)).shared

abbrev left : Entry
left = entry_or_new (key_for btc min1) btc min1 (lookup (key_for btc min1) final.store.entries)

left_found : lookup (key_for btc min1) final.store.entries ≡ some left
unfolding bootstrap run_schedule advance move store files to_mexc
left_found = refl

run_schedule-IsPersisted_example : (left.dirty ≡ false) × IsPersisted identity base final.disk left
run_schedule-IsPersisted_example =
    run_schedule-IsPersisted identity base (pos 5) false two_goroutines in_turn pairing
      identity-IsFaithful refl (btc-IsUsual, (eth-IsUsual, tt)) two_goroutines-AllDiffer five_turns
      no_pairs (key_for btc min1) left left_found
