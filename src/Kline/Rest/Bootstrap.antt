-- ===== src/Kline/Rest/Bootstrap.antt =====
-- kline/internal/rest/bootstrap.go: the bootstrap of one pair, and of all of them by workers.
-- The clock, the server, the encoder and the outcomes of the system calls are arguments.
pub mod Start
pub mod Pair
pub mod Unlisted
pub mod Tests
use fidorix.Base.{
  ℕ, ◌+◌, ◌-◌, Bool, true, false, ◌||◌, Option, none, some, List, [], ◌∷◌, ◌++◌, ltb, if◌then◌else◌,
  length, get_elem?, elems, ℤ, pos, ◌+ℤ◌, ◌-ℤ◌, ◌*ℤ◌, wrap64, leb_ℤ, Text, codes, is_empty,
  contains, CaseTables, to_lower, Result, ok, err, Codec, Disk, join_path,
}
use fidorix.Kline.Candle.{Candle}
use fidorix.Kline.Candle.Merge.{upsert_all}
use fidorix.Kline.Symbol.{to_file}
use fidorix.Kline.Config.{interval_seconds}
use fidorix.Kline.Store.{
  CandleFile, empty_file, Store, Effect, upsert_batch, load, or_default, or_made,
}
use fidorix.Kline.Files.{SaveEnv, SaveError, LoadError, load_file, save_file}
use fidorix.Kline.Rest.Client.{Query, Answer, FetchError, error_text, fetch_kline}

pub data PairError : Type 0 where
  unsupported_interval : Text → PairError
  fetch_error : FetchError → PairError
  save_error : SaveError → PairError

abbrev pub limit_or_default : ℤ → ℤ
limit_or_default limit = if leb_ℤ limit (pos 0) then pos 2000 else limit

-- The last candle but one, or the only one.
abbrev pub start_index : ℕ → ℕ
start_index n = if ltb 1 n then n - 2 else n - 1

-- The index is in range, so there is a candle.
abbrev pub start_behind : Option Candle → ℤ → Result PairError ℤ
start_behind none start = ok start
start_behind (some c) start = ok (wrap64 (c.t +ℤ pos 1))

abbrev pub start_before : ℤ → Text → ℤ → Option ℤ → Result PairError ℤ
start_before now interval limit none = err (unsupported_interval interval)
start_before now interval limit (some seconds) = ok (wrap64 (now -ℤ wrap64 (limit *ℤ seconds)))

unfoldable pub compute_start : ℤ → CandleFile → Text → ℤ → Result PairError ℤ
compute_start now cf interval limit =
    let n = length (elems cf.candles) in
    if ltb 0 n
    then start_behind (get_elem? (elems cf.candles) (start_index n)) now
    else start_before now interval (limit_or_default limit) (interval_seconds interval)

unfoldable pub pair_path : Text → Text → Text → Text
pair_path base file_symbol interval =
    join_path (base ∷ interval ∷ (to_file file_symbol ++ codes ".json") ∷ [])

abbrev pub file_or_empty : CandleFile × Option LoadError → CandleFile
file_or_empty (cf, none) = cf
file_or_empty (cf, some e) = empty_file

-- The file as it is before the fetch.
unfoldable pub existing_file : Text → Text → CandleFile × Option LoadError → CandleFile
existing_file wire interval r =
    let cf = file_or_empty r in
    record cf {
      symbol = or_default cf.symbol wire;
      interval = or_default cf.interval interval;
      candles = or_made cf.candles;
    }

unfoldable pub merged_file : Text → Text → ℤ → CandleFile → List Candle → CandleFile
merged_file wire interval now existing candles = record {
  symbol = wire;
  interval = interval;
  updated_at = now;
  candles = some (upsert_all (elems existing.candles) candles);
}

-- What the world answers during the bootstrap of one pair.
pub record PairEnv (B : Type 0) : Type 0 where
  pub readable : Bool
  pub now : ℤ  -- in computeStart
  pub server : Text → Query → Answer
  pub merged_at : ℤ
  pub save : SaveEnv B

pub record Pairing (B : Type 0) : Type 0 where
  pub store : Store
  pub disk : Disk B
  pub effects : List Effect

-- UpsertBatch is called also with no candles; without a database not at all.
abbrev pub upsert_merged : Bool → Text → Text → CandleFile → List Effect
upsert_merged has_db wire interval merged =
    if has_db then upsert_batch wire interval (elems merged.candles) ∷ [] else []

module _ {B : Type 0} where
  abbrev pub saved :
      Bool
      → Text
      → Text
      → CandleFile
      → ℕ
      → Pairing B
      → Disk B × Option SaveError
      → Pairing B × Result PairError ℕ
  saved has_db wire interval merged fetched p (disk, some e) =
      (record p { disk = disk }, err (save_error e))
  saved has_db wire interval merged fetched p (disk, none) = (
    record {
      store = load p.store wire interval merged;
      disk = disk;
      effects = p.effects ++ upsert_merged has_db wire interval merged;
    },
    ok fetched,
  )

  module _ (json : Codec CandleFile B) (env : PairEnv B) (limit : ℤ) (has_db : Bool)
      (path wire interval : Text) where
    abbrev pub with_fetched :
        CandleFile → Pairing B → Result FetchError (List Candle) → Pairing B × Result PairError ℕ
    with_fetched existing p (err e) = (p, err (fetch_error e))
    with_fetched existing p (ok candles) =
        let merged = merged_file wire interval env.merged_at existing candles in
        saved has_db wire interval merged (length candles) p
          (save_file json env.save path merged p.disk)

    abbrev pub with_start :
        CandleFile → Pairing B → Result PairError ℤ → Pairing B × Result PairError ℕ
    with_start existing p (err e) = (p, err e)
    with_start existing p (ok start) =
        with_fetched existing p (fetch_kline env.server wire interval start (pos 0) limit)

    abbrev pub with_existing : CandleFile → Pairing B → Pairing B × Result PairError ℕ
    with_existing existing p =
        with_start existing (record p { store = load p.store wire interval existing })
          (compute_start env.now existing interval limit)

  unfoldable pub bootstrap_pair :
      Codec CandleFile B
      → PairEnv B
      → ℤ
      → Bool
      → Text
      → Text
      → Text
      → Text
      → Pairing B
      → Pairing B × Result PairError ℕ
  bootstrap_pair json env limit has_db base file_symbol wire interval p =
      let path = pair_path base file_symbol interval in
      with_existing json env limit has_db path wire interval
        (existing_file wire interval (load_file json env.readable path p.disk)) p

-- The texts of the errors of package os and of the encoder are an argument.
unfoldable pub pair_error_text : (SaveError → Text) → PairError → Text
pair_error_text texts (unsupported_interval interval) = codes "unsupported interval: " ++ interval
pair_error_text texts (fetch_error e) = error_text e
pair_error_text texts (save_error e) = texts e

unfoldable pub is_contract_not_exist : CaseTables → Text → Bool
is_contract_not_exist u error =
    let msg = to_lower u error in
    contains msg (codes "code=1001") || contains msg (codes "contract does not exist")
