-- ===== src/Kline/Rest/Schedule.antt =====
-- The goroutines of Bootstrap in kline/internal/rest/bootstrap.go while they are in bootstrapPair:
-- they share one store and one disk, and a schedule says whose turn it is. A goroutine moves by one
-- access to what they share: LoadFile, the first Load, SaveFile, and the last Load with the upsert.
pub mod Alone
pub mod Isolated
pub mod Outcome
pub mod Saved
pub mod Durable
pub mod Tests
use fidorix.Base.{
  ℕ, zero, suc, Bool, Option, none, some, List, [], ◌∷◌, ◌++◌, ◌==◌, if◌then◌else◌, get_elem?,
  length, ℤ, pos, Text, Codec, Disk, Result, ok, err,
}
use fidorix.Kline.Candle.{Candle}
use fidorix.Kline.Store.{CandleFile, key_for, load}
use fidorix.Kline.Files.{SaveError, load_file, save_file}
use fidorix.Kline.Rest.Client.{FetchError, fetch_kline}
use fidorix.Kline.Rest.Bootstrap.{
  PairError, fetch_error, save_error, compute_start, pair_path, existing_file, merged_file, PairEnv,
  Pairing, upsert_merged,
}
use fidorix.Kline.Rest.Workers.{Job}

-- A goroutine with its pair, and what the world answers to it.
pub record Goroutine (B : Type 0) : Type 0 where
  pub job : Job
  pub env : PairEnv B

-- Where a goroutine is in bootstrapPair: before each of its accesses to the store and the disk.
pub data Place : Type 0 where
  entered : Place
  read : CandleFile → Place
  asking : CandleFile → Place
  merging : CandleFile → ℕ → Place
  written : CandleFile → ℕ → Place
  returned : Result PairError ℕ → Place

module _ {B : Type 0} where
  abbrev pub key : Goroutine B → Text
  key g = key_for g.job.wire g.job.interval

  abbrev pub path : Text → Goroutine B → Text
  path base g = pair_path base g.job.file_symbol g.job.interval

  abbrev pub behind_fetch : Goroutine B → CandleFile → Result FetchError (List Candle) → Place
  behind_fetch g existing (err e) = returned (err (fetch_error e))
  behind_fetch g existing (ok candles) =
      merging (merged_file g.job.wire g.job.interval g.env.merged_at existing candles)
        (length candles)

  abbrev pub behind_start : ℤ → Goroutine B → CandleFile → Result PairError ℤ → Place
  behind_start limit g existing (err e) = returned (err e)
  behind_start limit g existing (ok start) =
      behind_fetch g existing
        (fetch_kline g.env.server g.job.wire g.job.interval start (pos 0) limit)

abbrev pub behind_save : CandleFile → ℕ → Option SaveError → Place
behind_save merged fetched (some e) = returned (err (save_error e))
behind_save merged fetched none = written merged fetched

module _ {B : Type 0} (json : Codec CandleFile B) (limit : ℤ) (has_db : Bool) (base : Text) where
  -- One move of a goroutine. One that has returned does not move.
  unfoldable pub move : Goroutine B → Place → Pairing B → Pairing B × Place
  move g entered p = (
    p,
    read (
        existing_file g.job.wire g.job.interval
          (load_file json g.env.readable (path base g) p.disk)),
  )
  move g (read existing) p =
      (record p { store = load p.store g.job.wire g.job.interval existing }, asking existing)
  move g (asking existing) p =
      (p, behind_start limit g existing (compute_start g.env.now existing g.job.interval limit))
  move g (merging merged fetched) p =
      let r = save_file json g.env.save (path base g) merged p.disk in
      (record p { disk = r.0 }, behind_save merged fetched r.1)
  move g (written merged fetched) p = (
    record p {
      store = load p.store g.job.wire g.job.interval merged;
      effects = p.effects ++ upsert_merged has_db g.job.wire g.job.interval merged;
    },
    returned (ok fetched),
  )
  move g (returned r) p = (p, returned r)

  -- A goroutine that moves with nothing beside it.
  unfoldable pub alone : Goroutine B → ℕ → Place → Pairing B → Pairing B × Place
  alone g zero place p = (p, place)
  alone g (suc n) place p = let r = move g place p in alone g n r.1 r.0

-- What the goroutines share, and the place of each.
pub record Sharing (B : Type 0) : Type 0 where
  pub shared : Pairing B
  pub places : ℕ → Place

abbrev pub update : {A : Type 0} → ℕ → A → (ℕ → A) → ℕ → A
update k v f i = if k == i then v else f i

abbrev pub all_entered : {B : Type 0} → Pairing B → Sharing B
all_entered p = record { shared = p; places = λ k. entered }

module _ {B : Type 0} (json : Codec CandleFile B) (limit : ℤ) (has_db : Bool) (base : Text)
    (gs : List (Goroutine B)) where
  abbrev pub advance_of : ℕ → Sharing B → Option (Goroutine B) → Sharing B
  advance_of k s none = s
  advance_of k s (some g) =
      let r = move json limit has_db base g (s.places k) s.shared in
      record { shared = r.0; places = update k r.1 s.places }

  -- The turn of goroutine `k`.
  unfoldable pub advance : ℕ → Sharing B → Sharing B
  advance k s = advance_of k s (get_elem? gs k)

  unfoldable pub run_schedule : List ℕ → Sharing B → Sharing B
  run_schedule [] s = s
  run_schedule (k ∷ turns) s = run_schedule turns (advance k s)
