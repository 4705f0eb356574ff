-- ===== src/Kline/Server/Main.antt =====
-- kline/cmd/server/main.go from the environment to its end: main up to its stream, and what comes
-- behind it.
pub mod Tests
use fidorix.Base.{
  ℕ, ◌≡◌, ◌≢◌, ◌<◌, ◌≤◌, refl, sym, ap, ◌∙◌, subst, inl, inr, Bool, true, false, Bool-cases, Option,
  All-imp, some, none, List, [], ◌∷◌, length, elems, All, arith, ℤ, pos, Text, is_empty, Codec,
  IsFaithful, Disk, Result, Option-cases, Result-cases, ok, err, lookup, if◌then◌else◌,
}
use fidorix.Kline.Candle.{Candle}
use fidorix.Kline.Candle.Place.{IsSorted}
use fidorix.Kline.Symbol.{to_mexc, to_file}
use fidorix.Kline.Config.{Config, intervals}
use fidorix.Kline.Config as Settings
use fidorix.Kline.Config.Intervals.{Apart, IsInterval, intervals-Apart, intervals-All}
use fidorix.Kline.Config.Loading.{load-IsUsable}
use fidorix.Kline.Store.{CandleFile, Entry, Store, new_full, clone_entry}
use fidorix.Kline.Store.Invariant.{IsValid, new_full-IsValid}
use fidorix.Kline.Files.{SaveEnv, load_file}
use fidorix.Kline.Files.Flush.{is_saved}
use fidorix.Kline.Files.Durable.{IsPersisted}
use fidorix.Kline.Db.{DbError}
use fidorix.Kline.Rest.Bootstrap.{PairEnv, limit_or_default, pair_path}
use fidorix.Kline.Rest.Workers.{
  BootstrapError, no_config, no_store, context_ended, bootstrap_result, Job, job, jobs_of,
}
use fidorix.Kline.Rest.Schedule.{Goroutine, path}
use fidorix.Kline.Rest.Schedule.Isolated.{turns_of}
use fidorix.Kline.Rest.Schedule.Saved.{IsUsual, InOrder}
use fidorix.Kline.Rest.Schedule.Durable.{Covers}
use fidorix.Kline.Ws.Handler.{Decoder}
use fidorix.Kline.Server.{
  preload_existing_files, existing_on_disk, preload_latest_from_db, candles_or_nil, latest_file,
  level_of, ensure_interval_dirs, init_timescale, init_redis,
}
use fidorix.Kline.Server.Preload.{load_symbols-IsValid, preload_latest_from_db-IsValid}
use fidorix.Kline.Files.Loop.{Flow, Event, tick, advance, advance_all}
use fidorix.Kline.Files.Ending.{AreCalm}
use fidorix.Kline.Files.Ending.Handled.{IsIdle, AreLast}
use fidorix.Kline.Files.Ending.Last.{run_to_end-IsPersisted}
use fidorix.Kline.Rest.Bootstrap.{Pairing}
use fidorix.Kline.Rest.Schedule.Outcome.{IsPlain, AreApart-of_plain}
use fidorix.Kline.Rest.Schedule.Durable.{run_schedule-IsValid, run_schedule-IsPersisted}
use fidorix.Kline.Server.Lifetime.{IsOwn, behind-AreNamed, AreClear-of_named}
use fidorix.Kline.Server.Startup.{
  World, goroutines, Started, serving, behind_bootstrap, preloaded, bootstrapped_pairs, start,
}
use fidorix.Kline.Server.Settled.{
  IsFiled, NamesPair, goroutines-AllDiffer, goroutines-All, goroutines-HasJob, jobs_of-IsUsual,
  jobs_of-AreDifferent, load_symbols-Covers,
}
use fidorix.Kline.Server.Preloaded.{AreInOrder, IsAscending, preloaded-IsValid, preloaded-Covers}

module _ {B : Type 0} (json : Codec CandleFile B) (w : World B) where
  module _ (envs : ℕ → PairEnv B) (turns : List ℕ) (cancelled : Bool) where
    -- What main has when it gets to its stream is what the bootstrap has left.
    abbrev RunsWith : Store → Started → Type 0
    RunsWith s (serving c t) = t ≡ s
    RunsWith s _ = Unit

    behind_bootstrap-RunsWith :
        (cfg : Config) (b : Option BootstrapError) (s : Store)
        → RunsWith s (behind_bootstrap cfg b s)
    behind_bootstrap-RunsWith cfg (some context_ended) s = tt
    behind_bootstrap-RunsWith cfg (some no_config) s = refl
    behind_bootstrap-RunsWith cfg (some no_store) s = refl
    behind_bootstrap-RunsWith cfg none s = refl

    start-RunsWith :
        (cfg : Config)
        → Settings.load w.case_tables w.parse_duration w.dotenv w.environment ≡ ok cfg
        → RunsWith
            (bootstrapped_pairs json w envs turns cancelled cfg).store
            (start json w envs turns cancelled)
    unfolding start
    start-RunsWith cfg loaded =
        rw loaded (elim (Option-cases (level_of w.case_tables cfg.log_level)) [
          | inl e ↦ rw e tt
          | inr (level, e) ↦
              rw e
                (elim (Option-cases
                  (ensure_interval_dirs w.makes_dir cfg.kline_dir cfg.intervals).1) [
                    | inr (dir, f) ↦ rw f tt
                    | inl f ↦
                        rw f
                          (behind_bootstrap-RunsWith cfg (bootstrap_result true true cancelled) _)
                  ])
        ])

    -- What the goroutines of main start with, if its stream starts with the store `s`.
    abbrev pub begun : Config → Store → Flow B
    begun cfg s = record {
      store = s;
      disk = (bootstrapped_pairs json w envs turns cancelled cfg).disk;
      pending = [];
      clearing = none;
    }

    -- And when what comes has come.
    abbrev pub behind : Config → List (Event B) → Store → Flow B
    behind cfg events s = advance_all json cfg.kline_dir events (begun cfg s)

    -- The last flush of main and what comes with it.
    abbrev pub at_end : Config → List (Event B) → List (Event B) → Store → Flow B
    at_end cfg events last s = advance_all json cfg.kline_dir (tick ∷ last) (behind cfg events s)

    -- The symbols of the settings have files of their own, each of which can be read, is in order and
    -- names its pair or nothing; what the database answers is in order; and each goroutine of the
    -- bootstrap has five turns.
    pub record IsSound (cfg : Config) : Type 0 where
      pub filed : All IsFiled cfg.symbols
      pub apart : Apart to_file cfg.symbols
      pub names : All (NamesPair json cfg.kline_dir w.disk) (jobs_of cfg.symbols cfg.intervals)
      pub readable : (n : ℕ) → (envs n).readable ≡ true
      pub in_order : AreInOrder json w
      pub ascending : IsAscending json w
      pub enough :
          (i : ℕ)
          → i < length (goroutines envs 0 (jobs_of cfg.symbols cfg.intervals))
          → 5 ≤ turns_of i turns

    module _ (cfg : Config)
        (loaded : Settings.load w.case_tables w.parse_duration w.dotenv w.environment ≡ ok cfg)
        (sound : IsSound cfg) where
      abbrev gs : List (Goroutine B)
      gs = goroutines envs 0 (jobs_of cfg.symbols cfg.intervals)

      All-InOrder : (hs : List (Goroutine B)) → All (InOrder json cfg.kline_dir w.disk) hs
      All-InOrder [] = tt
      All-InOrder (h ∷ hs) = (sound.in_order (path cfg.kline_dir h), All-InOrder hs)

      abbrev left : Store
      left = (bootstrapped_pairs json w envs turns cancelled cfg).store

      bootstrapped-at_end :
          (events last : List (Event B)) (k : Text) (e : Entry)
          → IsFaithful json
          → All (IsOwn json cfg.kline_dir gs) events
          → All (IsOwn json cfg.kline_dir gs) last
          → AreCalm json cfg.kline_dir k events (begun cfg left)
          → IsIdle (behind cfg events left)
          → AreLast json cfg.kline_dir k last
              (advance json cfg.kline_dir tick (behind cfg events left))
          → IsIdle (at_end cfg events last left)
          → lookup k (at_end cfg events last left).store.entries ≡ some e
          → IsPersisted json cfg.kline_dir (at_end cfg events last left).disk e
      bootstrapped-at_end events last k e faithful own own_last calm idle is_last over found =
          let usable =
            load-IsUsable w.case_tables w.parse_duration w.dotenv w.environment cfg loaded in
          let js = jobs_of cfg.symbols cfg.intervals in
          let usual = goroutines-All envs (IsUsual json cfg.kline_dir w.disk) 0 js (λ m.
            jobs_of-IsUsual json cfg.kline_dir w.disk envs sound.readable m cfg.symbols
              cfg.intervals sound.filed
              (subst (All IsInterval) (sym usable.all_intervals) intervals-All) sound.names) in
          let differ = goroutines-AllDiffer envs 0 js (
            jobs_of-AreDifferent cfg.symbols cfg.intervals sound.apart
              (subst (Apart (λ i. i)) (sym usable.all_intervals) intervals-Apart)) in
          let start_pairing : Pairing B = record {
            store = preloaded json w cfg;
            disk = w.disk;
            effects = [];
          } in
          let has_db = init_timescale w.opens_db cfg in
          let covers = preloaded-Covers json w envs cfg in
          let apart =
            AreApart-of_plain cfg.kline_dir usable.dir gs
              (All-imp (IsUsual json cfg.kline_dir w.disk) IsPlain gs (λ h u. u.plain) usual)
              differ in
          let valid =
            run_schedule-IsValid json cfg.kline_dir cfg.bootstrap_limit has_db gs turns
              start_pairing faithful usable.dir usual differ sound.enough covers
              (preloaded-IsValid json w cfg sound.in_order sound.ascending) (All-InOrder gs) in
          let named =
            behind-AreNamed json cfg.kline_dir gs cfg.bootstrap_limit has_db turns start_pairing
              faithful usable.dir usual differ sound.enough covers in
          let (clear, flow_named, flow_valid) =
            AreClear-of_named json cfg.kline_dir gs k events (begun cfg left) apart own valid
              (record { entries = named; copies = tt }) in
          let (clear_last, _, _) =
            AreClear-of_named json cfg.kline_dir gs k (tick ∷ last) (behind cfg events left) apart
              (tt, own_last) flow_valid flow_named in
          run_to_end-IsPersisted json cfg.kline_dir k events last (begun cfg left) e faithful
            (record { pending = refl; clearing = refl }) valid
            (λ x there c.
              (run_schedule-IsPersisted json cfg.kline_dir cfg.bootstrap_limit has_db gs turns
                start_pairing faithful usable.dir usual differ sound.enough covers k x there).1)
            calm clear idle is_last clear_last over found

      -- From the environment to the end of main: the goroutines of the bootstrap have moved in
      -- any order, five turns each; then candles of the pairs come, between any moves of the
      -- flushes, whose calls may fail. When main has ended, the file of a pair is read with the
      -- candles of its entry. This holds if main gets to its stream, Load returns settings whose
      -- symbols have different file names without a slash or an underscore, what is encoded is
      -- decoded, every file can be read and is in order, the file of each pair names it or
      -- nothing, LoadLatest gives ascending candles, no candle of the pair comes while a flush
      -- has a copy of it that it still has to save or to clear, nor behind the start of the last
      -- flush, and the last flush begins when no other goes on, saves its copy of the pair, and
      -- runs to its end.
      pub start-at_end :
          (kept : Config) (s : Store) (events last : List (Event B)) (k : Text) (e : Entry)
          → IsFaithful json
          → start json w envs turns cancelled ≡ serving kept s
          → All (IsOwn json cfg.kline_dir gs) events
          → All (IsOwn json cfg.kline_dir gs) last
          → AreCalm json cfg.kline_dir k events (begun cfg s)
          → IsIdle (behind cfg events s)
          → AreLast json cfg.kline_dir k last
              (advance json cfg.kline_dir tick (behind cfg events s))
          → IsIdle (at_end cfg events last s)
          → lookup k (at_end cfg events last s).store.entries ≡ some e
          → IsPersisted json cfg.kline_dir (at_end cfg events last s).disk e
      start-at_end kept s events last k e faithful started own own_last =
          let same = subst (RunsWith left) started (start-RunsWith cfg loaded) in
          subst
            (λ x.
              AreCalm json cfg.kline_dir k events (begun cfg x)
              → IsIdle (behind cfg events x)
              → AreLast json cfg.kline_dir k last
                  (advance json cfg.kline_dir tick (behind cfg events x))
              → IsIdle (at_end cfg events last x)
              → lookup k (at_end cfg events last x).store.entries ≡ some e
              → IsPersisted json cfg.kline_dir (at_end cfg events last x).disk e)
            (sym same) (bootstrapped-at_end events last k e faithful own own_last)
