-- ===== src/Kline/Files/Ending/Tests.antt =====
-- The theorem on the last flush at an input: the first flush cannot rename, and the last one can.
use fidorix.Base.{
  false, ◌≡◌, refl, subst, true, none, some, List, [], ◌∷◌, pos, Text, codes, lookup,
}
use fidorix.Kline.Candle
use fidorix.Kline.Candle.Tests.{bar}
use fidorix.Kline.Store.{CandleFile, Entry, new_full, clone_entry, store}
use fidorix.Kline.Store.Tests.{btc, min1}
use fidorix.Kline.Store.Invariant.{new_full-IsValid}
use fidorix.Kline.Files.{files}
use fidorix.Kline.Files.Tests.{identity, identity-IsFaithful, calm, stuck, no_files, base}
use fidorix.Kline.Files.Flush.{is_saved}
use fidorix.Kline.Files.Durable.{IsPersisted}
use fidorix.Kline.Files.Loop.{Flow, Event, stored, tick, proceeds, advance, advance_all}
use fidorix.Kline.Files.Ending.{AreCalm, AreClear}
use fidorix.Kline.Files.Ending.Handled.{IsIdle, AreLast}
use fidorix.Kline.Files.Ending.Last.{run_to_end-IsPersisted}

abbrev key : Text
key = codes "BTC_USDT:Min1"

abbrev at_start : Flow CandleFile
at_start = record { store = new_full false false; disk = no_files; pending = []; clearing = none }

abbrev events : List (Event CandleFile)
events = stored btc min1 (bar (pos 40) []) ∷ tick ∷ proceeds stuck ∷ []

-- SaveFile and ClearDirty
abbrev last : List (Event CandleFile)
last = proceeds calm ∷ proceeds calm ∷ []

abbrev behind : Flow CandleFile
behind = advance_all identity base events at_start

abbrev final : Flow CandleFile
final = advance_all identity base (tick ∷ last) behind

abbrev stored_entry : Entry
stored_entry = record {
  key = key;
  file = record {
    symbol = btc;
    interval = min1;
    updated_at = pos 0;
    candles = some (bar (pos 40) [] ∷ []);
  };
  dirty = false;
}

abbrev copy : Entry
copy = clone_entry (record stored_entry { dirty = true })

ending_tests :
    (lookup key behind.store.entries ≡ some (record stored_entry { dirty = true }))
    × (lookup key final.store.entries ≡ some stored_entry)
    × (is_saved identity base calm copy ≡ true)
unfolding files store Candle.upsert advance advance_all
ending_tests = (refl, refl, refl)

behind-IsIdle : IsIdle behind
unfolding files store Candle.upsert advance advance_all
behind-IsIdle = record { pending = refl; clearing = refl }

final-IsIdle : IsIdle final
unfolding files store Candle.upsert advance advance_all
final-IsIdle = record { pending = refl; clearing = refl }

events-AreCalm : AreCalm identity base key events at_start
unfolding advance
events-AreCalm = (λ e. record { none_pending = tt; none_clearing = λ q. cc }, (tt, (tt, tt)))

events-AreClear : AreClear identity base key events at_start
unfolding files store Candle.upsert advance advance_all
events-AreClear = (
  λ e p found path. tt,
  (λ e p found path. tt, (λ e p found path. (λ ne. absurd (ne refl), tt), λ e p found path. tt)),
)

last-AreClear : AreClear identity base key (tick ∷ last) behind
unfolding files store Candle.upsert advance advance_all
last-AreClear = (
  λ e p found path. tt,
  (λ e p found path. (λ ne. absurd (ne refl), tt), (λ e p found path. tt, λ e p found path. tt)),
)

head_inj : {x y : Entry} {es xs : List Entry} → x ∷ es ≡ y ∷ xs → x ≡ y
head_inj q = cc

last-AreLast : AreLast identity base key last (advance identity base tick behind)
unfolding files store Candle.upsert advance advance_all
last-AreLast = (
  λ x es idle at eq.
      subst (λ (y : Entry). is_saved identity base calm y ≡ true) (head_inj at) ending_tests.2,
  (λ x es busy at eq. cc, tt),
)

run_to_end-IsPersisted_example : IsPersisted identity base final.disk stored_entry
run_to_end-IsPersisted_example =
    run_to_end-IsPersisted identity base key events last at_start stored_entry identity-IsFaithful
      (record { pending = refl; clearing = refl }) (new_full-IsValid false false)
      (unfold new_full lookup in λ e found clean. cc) events-AreCalm events-AreClear behind-IsIdle
      last-AreLast last-AreClear final-IsIdle ending_tests.1
