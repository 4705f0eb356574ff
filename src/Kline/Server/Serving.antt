-- ===== src/Kline/Server/Serving.antt =====
-- From the environment to the stream: what holds when main starts its connections.
use fidorix.Base.{
  ℕ, ℤ, Text, Option, none, some, get_elem?, ◌≡◌, ◌≢◌, subst, inl, inr, Bool, true, false,
  Option-cases, List, [], ◌∷◌, if◌then◌else◌, All, All-imp, Codec, Result-cases,
}
use fidorix.Kline.Config.{Config, ConfigError}
use fidorix.Kline.Config as Settings
use fidorix.Kline.Config.Loading.{load-IsUsable}
use fidorix.Kline.Store.{CandleFile, Store, new_full}
use fidorix.Kline.Rest.Bootstrap.{PairEnv, Pairing}
use fidorix.Kline.Rest.Workers.{
  BootstrapError, no_config, no_store, context_ended, bootstrap_result, jobs_of,
}
use fidorix.Kline.Rest.Schedule.{
  Goroutine, Place, entered, read, asking, merging, written, returned, move, Sharing, all_entered,
  advance, advance_of, run_schedule,
}
use fidorix.Kline.Ws.Conn.{Subscription}
use fidorix.Kline.Ws.Manager.{subscriptions_of, new_manager}
use fidorix.Kline.Ws.Manager.Shards.{carried}
use fidorix.Kline.Server.{
  preload_existing_files, preload_latest_from_db, level_of, ensure_interval_dirs, init_timescale,
  init_redis, symbols_with_bootstrap_data,
}
use fidorix.Kline.Server.Preload.{IsKnown, load-IsKnown, preload-IsKnown}
use fidorix.Kline.Server.Kept.{symbols_with_bootstrap_data_result, carried-IsKnown}
use fidorix.Kline.Server.Startup.{
  World, goroutines, bootstrapped_pairs, Started, serving, behind_bootstrap, preloaded, start,
}

-- The bootstrap loses no pair.
module _ {B : Type 0} (json : Codec CandleFile B) (limit : ℤ) (has_db : Bool) (base : Text)
    (sub : Subscription) where
  move-IsKnown :
      (g : Goroutine B) (place : Place) (p : Pairing B)
      → IsKnown p.store sub
      → IsKnown (move json limit has_db base g place p).0.store sub
  unfolding move
  move-IsKnown g entered p h = h
  move-IsKnown g (read existing) p h = load-IsKnown p.store g.job.wire g.job.interval existing sub h
  move-IsKnown g (asking existing) p h = h
  move-IsKnown g (merging merged fetched) p h = h
  move-IsKnown g (written merged fetched) p h =
      load-IsKnown p.store g.job.wire g.job.interval merged sub h
  move-IsKnown g (returned r) p h = h

  advance_of-IsKnown :
      (gs : List (Goroutine B)) (k : ℕ) (s : Sharing B) (o : Option (Goroutine B))
      → IsKnown s.shared.store sub
      → IsKnown (advance_of json limit has_db base gs k s o).shared.store sub
  advance_of-IsKnown gs k s none h = h
  advance_of-IsKnown gs k s (some g) h = move-IsKnown g (s.places k) s.shared h

  run_schedule-IsKnown :
      (gs : List (Goroutine B)) (turns : List ℕ) (s : Sharing B)
      → IsKnown s.shared.store sub
      → IsKnown (run_schedule json limit has_db base gs turns s).shared.store sub
  unfolding run_schedule advance
  run_schedule-IsKnown gs [] s h = h
  run_schedule-IsKnown gs (k ∷ turns) s h =
      run_schedule-IsKnown gs turns _ (advance_of-IsKnown gs k s (get_elem? gs k) h)

module _ {B : Type 0} (json : Codec CandleFile B) (w : World B) where
  preloaded-IsKnown :
      (cfg : Config)
      → All (IsKnown (preloaded json w cfg)) (subscriptions_of cfg.symbols cfg.intervals)
  preloaded-IsKnown cfg = of_db (init_timescale w.opens_db cfg)
    where
      known :
          (b : Bool)
          → All
              (IsKnown
                (preload_existing_files json w.readable w.disk cfg (new_full b (init_redis cfg))))
              (subscriptions_of cfg.symbols cfg.intervals)
            × All
                (IsKnown (preload_latest_from_db w.load_latest cfg (new_full b (init_redis cfg))))
                (subscriptions_of cfg.symbols cfg.intervals)
      known b =
          preload-IsKnown json w.readable w.disk w.load_latest cfg (new_full b (init_redis cfg))

      of_db :
          (b : Bool)
          → All
              (IsKnown (
                if b
                then preload_latest_from_db w.load_latest cfg (new_full b (init_redis cfg))
                else preload_existing_files json w.readable w.disk cfg
                    (new_full b (init_redis cfg))))
              (subscriptions_of cfg.symbols cfg.intervals)
      of_db true = (known true).1
      of_db false = (known false).0

  -- What the stream runs with has the pairs of its subscriptions.
  abbrev IsReady : Started → Type 0
  IsReady (serving cfg s) = (cfg.symbols ≢ []) × All (IsKnown s) (carried (new_manager cfg))
  IsReady _ = Unit

  kept-IsReady :
      (cfg : Config) (s : Store)
      → cfg.symbols ≢ []
      → All (IsKnown s) (subscriptions_of cfg.symbols cfg.intervals)
      → IsReady (serving (record cfg { symbols = (symbols_with_bootstrap_data cfg s).0 }) s)
  kept-IsReady cfg s some_symbol known = (
    (symbols_with_bootstrap_data_result cfg s some_symbol).0,
    carried-IsKnown cfg s some_symbol known,
  )

  behind_bootstrap-IsReady :
      (cfg : Config) (b : Option BootstrapError) (s : Store)
      → cfg.symbols ≢ []
      → All (IsKnown s) (subscriptions_of cfg.symbols cfg.intervals)
      → IsReady (behind_bootstrap cfg b s)
  behind_bootstrap-IsReady cfg (some context_ended) s some_symbol known = tt
  behind_bootstrap-IsReady cfg (some no_config) s some_symbol known =
      kept-IsReady cfg s some_symbol known
  behind_bootstrap-IsReady cfg (some no_store) s some_symbol known =
      kept-IsReady cfg s some_symbol known
  behind_bootstrap-IsReady cfg none s some_symbol known = kept-IsReady cfg s some_symbol known

  start-IsReady :
      (envs : ℕ → PairEnv B) (turns : List ℕ) (cancelled : Bool)
      → IsReady (start json w envs turns cancelled)
  unfolding start
  start-IsReady envs turns cancelled =
      elim (Result-cases (Settings.load w.case_tables w.parse_duration w.dotenv w.environment)) [
        | inl (e, q) ↦ rw q tt
        | inr (cfg, q) ↦ rw q (elim (Option-cases (level_of w.case_tables cfg.log_level)) [
          | inl e ↦ rw e tt
          | inr (level, e) ↦
              let usable =
                load-IsUsable w.case_tables w.parse_duration w.dotenv w.environment cfg q in
              let known =
                All-imp (IsKnown (preloaded json w cfg))
                  (IsKnown (bootstrapped_pairs json w envs turns cancelled cfg).store)
                  (subscriptions_of cfg.symbols cfg.intervals)
                  (λ sub.
                    run_schedule-IsKnown json cfg.bootstrap_limit (init_timescale w.opens_db cfg)
                      cfg.kline_dir sub (goroutines envs 0 (jobs_of cfg.symbols cfg.intervals))
                      turns
                      (all_entered
                        (record { store = preloaded json w cfg; disk = w.disk; effects = [] })))
                  (preloaded-IsKnown cfg) in
              rw e
                (elim (Option-cases
                  (ensure_interval_dirs w.makes_dir cfg.kline_dir cfg.intervals).1) [
                    | inr (dir, f) ↦ rw f tt
                    | inl f ↦ rw f (
                        behind_bootstrap-IsReady cfg (bootstrap_result true true cancelled) _
                          usable.some_symbol known)
                  ])
        ])
      ]

  -- Whatever the environment holds, and the files, the database and the bootstrap give: where main
  -- gets as far as its stream, it has a symbol, and the store has the pair of every subscription that
  -- the connections carry.
  pub start-serving :
      (envs : ℕ → PairEnv B) (turns : List ℕ) (cancelled : Bool) (cfg : Config) (s : Store)
      → start json w envs turns cancelled ≡ serving cfg s
      → (cfg.symbols ≢ []) × All (IsKnown s) (carried (new_manager cfg))
  start-serving envs turns cancelled cfg s e = subst IsReady e (start-IsReady envs turns cancelled)
