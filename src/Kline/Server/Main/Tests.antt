-- ===== src/Kline/Server/Main/Tests.antt =====
-- The theorem on main from the environment to its end, at an input: the settings have one symbol, no
-- file is there, and a push comes in.
use fidorix.Base.{
  ℕ, zero, suc, ◌<◌, ◌≤◌, ◌≡◌, refl, inl, inr, Bool, Bool-cases, true, false, ◌&&◌, leb, ◌==◌,
  ==_iff, if◌then◌else◌, arith, subst, some, none, List, [], ◌∷◌, ◌++◌, All, codes, text_eq, pos,
  strings, lookup, Result, ok,
}
use fidorix.Kline.Candle.{Candle}
use fidorix.Kline.Db.{DbError}
use fidorix.Kline.Candle.Place.{IsSorted}
use fidorix.Kline.Symbol.{to_mexc, to_file}
use fidorix.Kline.Config.{Config, Environment, missing, load}
use fidorix.Kline.Config.Tests.{config, ascii, no_duration, expected}
use fidorix.Kline.Store.{CandleFile, Entry, Store, key_for, entry_or_new, store}
use fidorix.Kline.Store.Tests.{btc, min1}
use fidorix.Kline.Files.{files, load_file, flush_dirty_entries}
use fidorix.Kline.Files.Flush.{is_saved}
use fidorix.Kline.Files.Durable.{IsPersisted}
use fidorix.Kline.Files.Tests.{identity, identity-IsFaithful, calm}
use fidorix.Kline.Rest.Bootstrap.Tests.{bootstrap, env}
use fidorix.Kline.Rest.Workers.{job, Job, bootstrap_result, jobs_of}
use fidorix.Kline.Candle
use fidorix.Kline.Candle.Tests.{bar}
use fidorix.Kline.Files.Loop.{Flow, Event, stored, tick, proceeds, advance, advance_all}
use fidorix.Kline.Files.Ending.{AreCalm}
use fidorix.Kline.Files.Ending.Handled.{IsIdle, AreLast}
use fidorix.Kline.Server.Lifetime.{IsOwn}
use fidorix.Kline.Rest.Schedule
use fidorix.Kline.Rest.Schedule.{Goroutine, move, run_schedule}
use fidorix.Kline.Rest.Schedule.Isolated.{turns_of}
use fidorix.Kline.Server.{
  existing_on_disk, init_timescale, init_redis, symbols_with_bootstrap_data, level_of, make_dirs,
  ensure_interval_dirs, load_intervals, load_symbols, preload_existing_files,
}
use fidorix.Kline.Server.Startup.{goroutines, World, serving, bootstrapped_pairs, start}
use fidorix.Kline.Server.Settled.{NamesPair}
use fidorix.Kline.Server.Main.{IsSound, begun, behind, at_end, start-at_end}

abbrev one_symbol : Environment
one_symbol = λ key. if text_eq key (codes "SYMBOLS") then some (codes "BTCUSDT") else none

abbrev settings : Config
settings = record expected { symbols = codes "BTCUSDT" ∷ []; bootstrap_workers = pos 5 }

abbrev world : World CandleFile
world = record {
  case_tables = ascii;
  parse_duration = no_duration;
  dotenv = λ e. missing;
  environment = one_symbol;
  makes_dir = λ dir. true;
  opens_db = λ dsn. false;
  readable = λ path. true;
  disk = λ path. none;
  load_latest = λ symbol interval limit. ok [];
}

settings_loaded : load ascii no_duration (λ e. missing) one_symbol ≡ ok settings
unfolding config
settings_loaded = refl

abbrev one_round : List ℕ
one_round = 0 ∷ 1 ∷ 2 ∷ 3 ∷ 4 ∷ 5 ∷ 6 ∷ 7 ∷ 8 ∷ 9 ∷ []

abbrev five_rounds : List ℕ
five_rounds = one_round ++ (one_round ++ (one_round ++ (one_round ++ one_round)))

-- Each of the first `n` has five turns.
abbrev have_five : ℕ → List ℕ → Bool
have_five zero turns = true
have_five (suc n) turns = leb 5 (turns_of n turns) && have_five n turns

five_of_have_five :
    (n : ℕ) (turns : List ℕ) → have_five n turns ≡ true → (i : ℕ) → i < n → 5 ≤ turns_of i turns
five_of_have_five zero turns h i lt = absurd (omega arith)
five_of_have_five (suc n) turns h i lt = elim (Bool-cases (i == n)) [
  | inl e ↦ rw ((==_iff i n).0 e) (ground (arith, h))
  | inr e ↦ five_of_have_five n turns (ground (arith, h)) i (ground (arith, e, lt))
]

no_files-NamesPair : (js : List Job) → All (NamesPair identity (codes "./kline") world.disk) js
unfolding load_file
no_files-NamesPair [] = tt
no_files-NamesPair (j ∷ js) = ((refl, refl), no_files-NamesPair js)

abbrev no_candles : Result DbError (List Candle)
no_candles = ok []

none_of : {cs : List Candle} → no_candles ≡ ok cs → [] ≡ cs
none_of e = cc

settings-IsSound : IsSound identity world (λ n. env) five_rounds false settings
unfolding strings to_file load_file jobs_of
settings-IsSound = record {
  filed = (record { one_part = ground arith; named = refl; whole = ground arith }, tt);
  apart = (tt, tt);
  names = no_files-NamesPair (jobs_of settings.symbols settings.intervals);
  readable = λ n. refl;
  in_order = λ path. tt;
  ascending = λ symbol interval limit cs e. subst IsSorted (none_of e) tt;
  enough = five_of_have_five 10 five_rounds refl;
}

abbrev with_bars : Store
with_bars = (bootstrapped_pairs identity world (λ n. env) five_rounds false settings).store

abbrev kept : Config
kept = record settings { symbols = (symbols_with_bootstrap_data settings with_bars).0 }

world_starts : start identity world (λ n. env) five_rounds false ≡ serving kept with_bars
unfolding start bootstrap_result level_of make_dirs ensure_interval_dirs strings
world_starts = rw settings_loaded

abbrev gs : List (Goroutine CandleFile)
gs = goroutines (λ n. env) 0 (jobs_of settings.symbols settings.intervals)

abbrev events : List (Event CandleFile)
events = stored btc min1 (bar (pos 40) []) ∷ []

-- SaveFile and ClearDirty
abbrev last : List (Event CandleFile)
last = proceeds calm ∷ proceeds calm ∷ []

abbrev passed : Flow CandleFile
passed = behind identity world (λ n. env) five_rounds false settings events with_bars

abbrev final : Flow CandleFile
final = at_end identity world (λ n. env) five_rounds false settings events last with_bars

-- The entry that is left.
abbrev left : Entry
left = entry_or_new (key_for btc min1) btc min1 (lookup (key_for btc min1) final.store.entries)

end_found : lookup (key_for btc min1) final.store.entries ≡ some left
unfolding bootstrap files store run_schedule Schedule.advance move advance advance_all Candle.upsert
    flush_dirty_entries to_mexc jobs_of preload_existing_files load_symbols load_intervals strings
    existing_on_disk init_timescale init_redis
end_found = refl

events-AreOwn : All (IsOwn identity settings.kline_dir gs) events
unfolding jobs_of strings to_file to_mexc
events-AreOwn = (
  (
    0,
    record { job = job (codes "BTCUSDT") min1; env = env },
    refl,
    record {
      wire = refl;
      one_part = ground arith;
      named = refl;
      whole = ground arith;
      interval = record { filled = refl; whole = ground arith; no_dot = refl; no_dots = refl };
      plain = ground arith;
    },
    refl,
    refl,
    refl,
  ),
  tt,
)

events-AreCalm :
    AreCalm identity settings.kline_dir
      (key_for btc min1)
      events
      (begun identity world (λ n. env) five_rounds false settings with_bars)
events-AreCalm = (λ e. record { none_pending = tt; none_clearing = λ q. cc }, tt)

passed-IsIdle : IsIdle passed
unfolding advance advance_all
passed-IsIdle = record { pending = refl; clearing = refl }

final-IsIdle : IsIdle final
unfolding bootstrap files store run_schedule Schedule.advance move advance advance_all Candle.upsert
    flush_dirty_entries to_mexc jobs_of preload_existing_files load_symbols load_intervals strings
    existing_on_disk init_timescale init_redis
final-IsIdle = record { pending = refl; clearing = refl }

head_inj : {x y : Entry} {es xs : List Entry} → x ∷ es ≡ y ∷ xs → x ≡ y
head_inj q = cc

last-AreLast :
    AreLast identity settings.kline_dir
      (key_for btc min1)
      last
      (advance identity settings.kline_dir tick passed)
unfolding bootstrap files store run_schedule Schedule.advance move advance advance_all Candle.upsert
    flush_dirty_entries to_mexc jobs_of preload_existing_files load_symbols load_intervals strings
    existing_on_disk init_timescale init_redis
last-AreLast = (
  λ x es idle at eq.
      subst (λ (y : Entry). is_saved identity settings.kline_dir calm y ≡ true) (head_inj at) refl,
  (λ x es busy at eq. cc, tt),
)

start-at_end_example : IsPersisted identity settings.kline_dir final.disk left
start-at_end_example =
    start-at_end identity world (λ n. env) five_rounds false settings settings_loaded
      settings-IsSound kept with_bars events last (key_for btc min1) left identity-IsFaithful
      world_starts events-AreOwn (tt, (tt, tt)) events-AreCalm passed-IsIdle last-AreLast
      final-IsIdle end_found
