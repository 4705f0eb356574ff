-- ===== src/Kline/Store/Tests.antt =====
-- Tests of kline/internal/store/store.go, and the theorems at inputs.
use mathlib.Core.List.{Memᴰ}
use fidorix.Base.{
  ◌≡◌, refl, inr, true, false, none, some, List, [], ◌∷◌, arith, All, pos, Text, codes, lookup,
  ne_of_text_eq,
}
use fidorix.Kline.Candle.{Candle}
use fidorix.Kline.Candle
use fidorix.Kline.Candle.Tests.{bar, two_bars, two_bars-IsSorted}
use fidorix.Kline.Store.{
  CandleFile, Entry, Store, set_latest_bar, publish_bar, new_full, clone_entry, upsert, get_dirty,
  clear_dirty, load, has, store,
}
use fidorix.Kline.Store.Keys.{key_for_inj}
use fidorix.Kline.Store.Invariant.{
  IsValid, new_full-IsValid, load-IsValid, Reach, Step, Reach-IsValid,
}
use fidorix.Kline.Store.View.{find, find-upsert_self, find-upsert_other}
use fidorix.Kline.Store.Refinement.{Op, upserts, clears, loads, run, replay, run_refines}
use fidorix.Kline.Store.Dirty.{IsListed, get_dirty_complete, get_dirty_sound}

abbrev pub btc : Text
btc = codes "BTC_USDT"

abbrev pub min1 : Text
min1 = codes "Min1"

abbrev pub two_file : CandleFile
two_file = record { symbol = []; interval = []; updated_at = pos 0; candles = some two_bars }

-- A store with Redis, as the bootstrap leaves it, and behind one candle from the stream.
abbrev pub loaded : Store
loaded = load (new_full false true) btc min1 two_file

abbrev pub streamed : Store
streamed = (upsert loaded btc min1 (bar (pos 40) [])).0

store_tests :
    (has loaded btc min1 ≡ true)
    × (has loaded min1 btc ≡ false)
    × (get_dirty loaded ≡ [])
    × (get_dirty (clear_dirty streamed (codes "BTC_USDT:Min1")) ≡ [])
    × ((upsert loaded btc min1 (bar (pos 40) [])).1
        ≡ set_latest_bar btc min1 (bar (pos 40) []) ∷ publish_bar btc min1 (bar (pos 40) []) ∷ [])
unfolding store Candle.upsert
store_tests = (refl, refl, refl, refl, refl)

pub loaded-IsValid : IsValid loaded
loaded-IsValid =
    load-IsValid (new_full false true) btc min1 two_file (new_full-IsValid false true)
      two_bars-IsSorted

key_for_inj_test : (btc ≡ btc) × (min1 ≡ min1)
key_for_inj_test = key_for_inj btc btc min1 min1 (ground arith) (ground arith) refl

Reach-IsValid_example : IsValid (clear_dirty streamed (codes "BTC_USDT:Min1"))
Reach-IsValid_example = Reach-IsValid loaded-IsValid (
    Reach.next (Reach.next Reach.here (Step.upserts btc min1 (bar (pos 40) [])))
      (Step.clears (codes "BTC_USDT:Min1")))

find-upsert_self_test : find streamed btc min1 (pos 40) ≡ some (bar (pos 40) [])
find-upsert_self_test = find-upsert_self loaded btc min1 (bar (pos 40) []) (pos 40) loaded-IsValid

find-upsert_other_test : find streamed btc (codes "Min5") (pos 40) ≡ none
unfolding store
find-upsert_other_test =
    find-upsert_other loaded btc min1 btc (codes "Min5") (bar (pos 40) []) (pos 40) (ground arith)
      (ground arith) (inr (ne_of_text_eq min1 (codes "Min5") (unfold store in refl)))

pub streamed-IsValid : IsValid streamed
streamed-IsValid =
    Reach-IsValid loaded-IsValid (Reach.next Reach.here (Step.upserts btc min1 (bar (pos 40) [])))

get_dirty_sound_test : All (IsListed streamed.entries) (get_dirty streamed)
get_dirty_sound_test = get_dirty_sound streamed streamed-IsValid

abbrev pub dirty_entry : Entry
dirty_entry = record {
  key = codes "BTC_USDT:Min1";
  file = record {
    symbol = btc;
    interval = min1;
    updated_at = pos 0;
    candles = some (Candle.upsert two_bars (bar (pos 40) []));
  };
  dirty = true;
}

pub lookup-streamed : lookup (codes "BTC_USDT:Min1") streamed.entries ≡ some dirty_entry
unfolding store
lookup-streamed = refl

get_dirty_complete_test : Memᴰ (clone_entry dirty_entry) (get_dirty streamed)
get_dirty_complete_test =
    get_dirty_complete streamed (codes "BTC_USDT:Min1") dirty_entry lookup-streamed refl

-- A file is loaded, a candle is stored, and the mark of its entry is cleared.
abbrev three_ops : List Op
three_ops =
    loads btc min1 two_file
    ∷ upserts btc min1 (bar (pos 40) [])
    ∷ clears (codes "BTC_USDT:Min1")
    ∷ []

run_refines_example :
    find (run three_ops (new_full false true)) btc min1 (pos 40)
    ≡ replay three_ops (find (new_full false true)) btc min1 (pos 40)
run_refines_example =
    run_refines three_ops (new_full false true) btc min1 (pos 40) (new_full-IsValid false true)
      ((ground arith, two_bars-IsSorted), (ground arith, (tt, tt))) (ground arith)

replay_test :
    replay three_ops (find (new_full false true)) btc min1 (pos 40) ≡ some (bar (pos 40) [])
unfolding replay store
replay_test = refl
