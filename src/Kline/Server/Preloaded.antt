-- ===== src/Kline/Server/Preloaded.antt =====
-- The store that the bootstrap starts from in kline/cmd/server/main.go: behind a preload from files or
-- from the database it is valid and has the pairs of the settings only.
use fidorix.Base.{ℕ, ◌≡◌, Bool, true, false, List, elems, ℤ, Text, Codec, ok, lookup, if◌then◌else◌}
use fidorix.Kline.Candle.{Candle}
use fidorix.Kline.Candle.Place.{IsSorted}
use fidorix.Kline.Config.{Config}
use fidorix.Kline.Store.{CandleFile, new_full}
use fidorix.Kline.Store.Invariant.{IsValid, new_full-IsValid}
use fidorix.Kline.Files.{load_file}
use fidorix.Kline.Rest.Bootstrap.{PairEnv, pair_path}
use fidorix.Kline.Rest.Workers.{jobs_of}
use fidorix.Kline.Rest.Schedule.{Goroutine}
use fidorix.Kline.Rest.Schedule.Durable.{Covers}
use fidorix.Kline.Server.{
  preload_existing_files, existing_on_disk, preload_latest_from_db, init_timescale, init_redis,
}
use fidorix.Kline.Server.Preload.{load_symbols-IsValid, preload_latest_from_db-IsValid}
use fidorix.Kline.Server.Startup.{World, goroutines, preloaded}
use fidorix.Kline.Server.Settled.{goroutines-HasJob, load_symbols-Covers}

module _ {B : Type 0} (json : Codec CandleFile B) (w : World B) where
  -- Every file that can be read is in order.
  abbrev pub AreInOrder : Type 0
  AreInOrder = (path : Text) → IsSorted (elems (load_file json true path w.disk).0.candles)

  -- LoadLatest gives ascending candles.
  abbrev pub IsAscending : Type 0
  IsAscending =
      (symbol interval : Text) (limit : ℤ) (cs : List Candle)
      → w.load_latest symbol interval limit ≡ ok cs
      → IsSorted cs

  existing_on_disk-IsSorted :
      AreInOrder
      → (dir symbol interval : Text)
      → IsSorted (elems (existing_on_disk json w.readable w.disk dir symbol interval).candles)
  unfolding existing_on_disk
  existing_on_disk-IsSorted sorted dir symbol interval =
      of_readable (w.readable (pair_path dir symbol interval))
    where
      of_readable :
          (b : Bool)
          → IsSorted (elems (load_file json b (pair_path dir symbol interval) w.disk).0.candles)
      of_readable true = sorted (pair_path dir symbol interval)
      of_readable false = unfold load_file in tt

  pub preloaded-IsValid : (cfg : Config) → AreInOrder → IsAscending → IsValid (preloaded json w cfg)
  preloaded-IsValid cfg sorted ascending = of_db (init_timescale w.opens_db cfg)
    where
      of_db :
          (b : Bool)
          → IsValid (
              if b
              then preload_latest_from_db w.load_latest cfg (new_full b (init_redis cfg))
              else preload_existing_files json w.readable w.disk cfg (new_full b (init_redis cfg)))
      of_db true =
          preload_latest_from_db-IsValid w.load_latest cfg (new_full true (init_redis cfg))
            ascending (new_full-IsValid true (init_redis cfg))
      of_db false =
          unfold preload_existing_files in
          load_symbols-IsValid _ cfg.symbols cfg.intervals (new_full false (init_redis cfg))
            (existing_on_disk-IsSorted sorted cfg.kline_dir)
            (new_full-IsValid false (init_redis cfg))

  new_full-Covers :
      (base : Text) (gs : List (Goroutine B)) (has_db has_redis : Bool)
      → Covers json base gs (new_full has_db has_redis)
  unfolding new_full lookup
  new_full-Covers base gs has_db has_redis k e found = cc

  pub preloaded-Covers :
      (envs : ℕ → PairEnv B) (cfg : Config)
      → Covers json cfg.kline_dir
          (goroutines envs 0 (jobs_of cfg.symbols cfg.intervals))
          (preloaded json w cfg)
  preloaded-Covers envs cfg = of_db (init_timescale w.opens_db cfg)
    where
      gs : List (Goroutine B)
      gs = goroutines envs 0 (jobs_of cfg.symbols cfg.intervals)

      of_db :
          (b : Bool)
          → Covers json cfg.kline_dir gs (
              if b
              then preload_latest_from_db w.load_latest cfg (new_full b (init_redis cfg))
              else preload_existing_files json w.readable w.disk cfg (new_full b (init_redis cfg)))
      of_db true =
          unfold preload_latest_from_db in
          load_symbols-Covers json cfg.kline_dir w.disk cfg.bootstrap_limit true gs _ cfg.symbols
            cfg.intervals (new_full true (init_redis cfg))
            (goroutines-HasJob envs 0 (jobs_of cfg.symbols cfg.intervals))
            (new_full-Covers cfg.kline_dir gs true (init_redis cfg))
      of_db false =
          unfold preload_existing_files in
          load_symbols-Covers json cfg.kline_dir w.disk cfg.bootstrap_limit false gs _ cfg.symbols
            cfg.intervals (new_full false (init_redis cfg))
            (goroutines-HasJob envs 0 (jobs_of cfg.symbols cfg.intervals))
            (new_full-Covers cfg.kline_dir gs false (init_redis cfg))
