-- ===== src/Kline/Server/Startup.antt =====
-- kline/cmd/server/main.go: main up to the start of the stream. The goroutines of the bootstrap move
-- by a schedule; one that skips its pair has no turn in it.
use fidorix.Base.{
  ℕ, suc, Bool, true, Option, none, some, List, [], ◌∷◌, if◌then◌else◌, ℤ, Text, CaseTables, Codec,
  Disk, Result, ok, err,
}
use fidorix.Kline.Candle.{Candle}
use fidorix.Kline.Config.{Config, ConfigError, Environment, Dotenv}
use fidorix.Kline.Config as Settings
use fidorix.Kline.Store.{CandleFile, Store, new_full}
use fidorix.Kline.Db.{DbError}
use fidorix.Kline.Rest.Bootstrap.{PairEnv, Pairing}
use fidorix.Kline.Rest.Workers.{
  Job, BootstrapError, no_config, no_store, context_ended, bootstrap_result, jobs_of,
}
use fidorix.Kline.Rest.Schedule.{Goroutine, all_entered, run_schedule}
use fidorix.Kline.Server.{
  Level, level_of, ensure_interval_dirs, preload_existing_files, preload_latest_from_db,
  init_timescale, init_redis, symbols_with_bootstrap_data,
}

-- The process's surroundings: the environment and its readers, and what the calls answer.
pub record World (B : Type 0) : Type 0 where
  pub case_tables : CaseTables
  pub parse_duration : Text → Option ℤ
  pub dotenv : Environment → Dotenv
  pub environment : Environment
  pub makes_dir : Text → Bool
  pub opens_db : Text → Bool
  pub readable : Text → Bool
  pub disk : Disk B
  pub load_latest : Text → Text → ℤ → Result DbError (List Candle)

-- The goroutines of the bootstrap: one for each pair, with what the world answers to it.
abbrev pub goroutines : {B : Type 0} → (ℕ → PairEnv B) → ℕ → List Job → List (Goroutine B)
goroutines envs n [] = []
goroutines envs n (j ∷ jobs) = record { job = j; env = envs n } ∷ goroutines envs (suc n) jobs

-- main ends early, or runs the stream with its settings and its store.
pub data Started : Type 0 where
  fatal_config : ConfigError → Started
  fatal_logger : Started
  fatal_directory : Text → Started
  stopped : Store → Started
  serving : Config → Store → Started

abbrev pub with_kept : Config → Store → Started
with_kept cfg s = serving (record cfg { symbols = (symbols_with_bootstrap_data cfg s).0 }) s

-- The context of main ends by a signal only, so an ended one is canceled: main ends behind a flush.
-- Any other error of the bootstrap is logged only.
abbrev pub behind_bootstrap : Config → Option BootstrapError → Store → Started
behind_bootstrap cfg (some context_ended) s = stopped s
behind_bootstrap cfg (some no_config) s = with_kept cfg s
behind_bootstrap cfg (some no_store) s = with_kept cfg s
behind_bootstrap cfg none s = with_kept cfg s

module _ {B : Type 0} (json : Codec CandleFile B) (w : World B) where
  abbrev pub preloaded : Config → Store
  preloaded cfg =
      let has_db = init_timescale w.opens_db cfg in
      let s = new_full has_db (init_redis cfg) in
      if has_db
      then preload_latest_from_db w.load_latest cfg s
      else preload_existing_files json w.readable w.disk cfg s

  module _ (envs : ℕ → PairEnv B) (turns : List ℕ) (cancelled : Bool) where
    -- What Bootstrap leaves, if its goroutines move by the schedule.
    abbrev pub bootstrapped_pairs : Config → Pairing B
    bootstrapped_pairs cfg =
        (run_schedule json cfg.bootstrap_limit (init_timescale w.opens_db cfg) cfg.kline_dir
          (goroutines envs 0 (jobs_of cfg.symbols cfg.intervals)) turns
          (all_entered (record { store = preloaded cfg; disk = w.disk; effects = [] }))).shared

    abbrev pub with_dirs : Config → Option Text → Started
    with_dirs cfg (some dir) = fatal_directory dir
    with_dirs cfg none =
        behind_bootstrap cfg (bootstrap_result true true cancelled) (bootstrapped_pairs cfg).store

    abbrev pub with_level : Config → Option Level → Started
    with_level cfg none = fatal_logger
    with_level cfg (some level) =
        with_dirs cfg (ensure_interval_dirs w.makes_dir cfg.kline_dir cfg.intervals).1

    abbrev pub with_config : Result ConfigError Config → Started
    with_config (err e) = fatal_config e
    with_config (ok cfg) = with_level cfg (level_of w.case_tables cfg.log_level)

    unfoldable pub start : Started
    start = with_config (Settings.load w.case_tables w.parse_duration w.dotenv w.environment)
