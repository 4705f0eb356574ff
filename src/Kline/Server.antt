-- ===== src/Kline/Server.antt =====
-- kline/cmd/server/main.go: what the service does before and after its goroutines run. The
-- outcomes of the system calls and the answers of the database are arguments.
pub mod Preload
pub mod Kept
pub mod Startup
pub mod Serving
pub mod Settled
pub mod Preloaded
pub mod Main
pub mod Ranging
pub mod Lifetime
pub mod Tests
use fidorix.Base.{
  member, ℕ, ◌+◌, Bool, true, false, ◌||◌, not, Option, none, some, List, [], ◌∷◌, ◌++◌, ltb,
  if◌then◌else◌, length, elems, ℤ, pos, Text, codes, is_empty, text_eq, trim_space, CaseTables,
  to_lower, Assoc, Codec, Disk, Result, ok, err, join_path,
}
use fidorix.Kline.Candle.{Candle}
use fidorix.Kline.Symbol.{to_mexc}
use fidorix.Kline.Config.{Config}
use fidorix.Kline.Store.{CandleFile, Entry, Store, new_full, load, all, or_default}
use fidorix.Kline.Files.{load_file}
use fidorix.Kline.Db.{DbError}
use fidorix.Kline.Rest.Bootstrap.{limit_or_default, pair_path}

pub data Level : Type 0 where
  debug : Level
  info : Level
  warn : Level
  error : Level

-- `none` is the error of an invalid level.
unfoldable pub level_of : CaseTables → Text → Option Level
level_of u raw =
    let level = to_lower u (trim_space raw) in
    if text_eq level (codes "debug")
    then some debug
    else if text_eq level (codes "info") || is_empty level
    then some info
    else if text_eq level (codes "warn")
    then some warn
    else if text_eq level (codes "error")
    then some error
    else none

-- The directories that were made, and the one that could not be.
unfoldable pub make_dirs : (Text → Bool) → List Text → List Text × Option Text
make_dirs makes [] = ([], none)
make_dirs makes (dir ∷ dirs) =
    let rest = make_dirs makes dirs in if makes dir then (dir ∷ rest.0, rest.1) else ([], some dir)

abbrev pub interval_dirs : Text → List Text → List Text
interval_dirs base [] = []
interval_dirs base (interval ∷ intervals) =
    join_path (base ∷ interval ∷ []) ∷ interval_dirs base intervals

unfoldable pub ensure_interval_dirs : (Text → Bool) → Text → List Text → List Text × Option Text
ensure_interval_dirs makes base intervals = make_dirs makes (base ∷ interval_dirs base intervals)

-- The inner loop of both preloads; `file_of` gives the file that is loaded for a pair.
unfoldable pub load_intervals : (Text → CandleFile) → Text → List Text → Store → Store
load_intervals file_of wire [] s = s
load_intervals file_of wire (interval ∷ intervals) s =
    load_intervals file_of wire intervals (load s wire interval (file_of interval))

-- The outer loop.
unfoldable pub load_symbols : (Text → Text → CandleFile) → List Text → List Text → Store → Store
load_symbols file_of [] intervals s = s
load_symbols file_of (file_symbol ∷ symbols) intervals s =
    load_symbols file_of symbols intervals
      (load_intervals (file_of file_symbol) (to_mexc file_symbol) intervals s)

module _ {B : Type 0} (json : Codec CandleFile B) where
  -- `readable` says which files can be read; a file that cannot is taken as empty.
  unfoldable pub existing_on_disk : (Text → Bool) → Disk B → Text → Text → Text → CandleFile
  existing_on_disk readable disk dir file_symbol interval =
      let path = pair_path dir file_symbol interval in
      let cf = (load_file json (readable path) path disk).0 in
      record cf {
        symbol = or_default cf.symbol (to_mexc file_symbol);
        interval = or_default cf.interval interval;
      }

  unfoldable pub preload_existing_files : (Text → Bool) → Disk B → Config → Store → Store
  preload_existing_files readable disk cfg s =
      load_symbols (existing_on_disk readable disk cfg.kline_dir) cfg.symbols cfg.intervals s

abbrev pub candles_or_nil : Result DbError (List Candle) → Option (List Candle)
candles_or_nil (ok cs) = some cs
candles_or_nil (err e) = none

abbrev pub latest_file :
    (Text → Text → ℤ → Result DbError (List Candle)) → ℤ → Text → Text → CandleFile
latest_file load_latest limit file_symbol interval = record {
  symbol = to_mexc file_symbol;
  interval = interval;
  updated_at = pos 0;
  candles = candles_or_nil (load_latest (to_mexc file_symbol) interval limit);
}

unfoldable pub preload_latest_from_db :
    (Text → Text → ℤ → Result DbError (List Candle)) → Config → Store → Store
preload_latest_from_db load_latest cfg s =
    load_symbols (latest_file load_latest (limit_or_default cfg.bootstrap_limit)) cfg.symbols
      cfg.intervals s

-- Whether there is a database: a text for it, and db.New succeeds.
unfoldable pub init_timescale : (Text → Bool) → Config → Bool
init_timescale opens cfg =
    let dsn = trim_space cfg.timescale_dsn in if is_empty dsn then false else opens dsn

unfoldable pub init_redis : Config → Bool
init_redis cfg = not (is_empty (trim_space cfg.redis_addr))

abbrev pub count_entries : Assoc Entry → ℕ
count_entries [] = 0
count_entries ((k, e) ∷ m) = length (elems e.file.candles) + count_entries m

unfoldable pub count_candles : Store → ℕ
count_candles s = count_entries (all s)

-- The symbols of the map `hasData`.
abbrev pub with_data : Assoc Entry → List Text
with_data [] = []
with_data ((k, e) ∷ m) =
    let rest = with_data m in
    if ltb 0 (length (elems e.file.candles)) then e.file.symbol ∷ rest else rest

-- The loop over the symbols: kept and dropped.
unfoldable pub kept_dropped : List Text → List Text → List Text × List Text
kept_dropped data_symbols [] = ([], [])
kept_dropped data_symbols (file_symbol ∷ symbols) =
    let rest = kept_dropped data_symbols symbols in
    if member (to_mexc file_symbol) data_symbols
    then (file_symbol ∷ rest.0, rest.1)
    else (rest.0, file_symbol ∷ rest.1)

-- The order of texts; that of the bytes of their UTF-8 is the same.
abbrev pub text_leb : Text → Text → Bool
text_leb [] t = true
text_leb (c ∷ s) [] = false
text_leb (c ∷ s) (d ∷ t) =
    let rest = text_leb s t in if ltb c d then true else if ltb d c then false else rest

abbrev pub insert_text : Text → List Text → List Text
insert_text s [] = s ∷ []
insert_text s (t ∷ ts) =
    let rest = insert_text s ts in if text_leb s t then s ∷ t ∷ ts else t ∷ rest

-- sort.Strings
unfoldable pub sort_strings : List Text → List Text
sort_strings [] = []
sort_strings (s ∷ ss) = insert_text s (sort_strings ss)

abbrev pub all_or_kept : List Text → List Text × List Text → List Text × List Text
all_or_kept symbols ([], dropped) = (symbols, dropped)
all_or_kept symbols (k ∷ kept, dropped) = (k ∷ kept, sort_strings dropped)

unfoldable pub symbols_with_bootstrap_data : Config → Store → List Text × List Text
symbols_with_bootstrap_data cfg s =
    all_or_kept cfg.symbols (kept_dropped (with_data (all s)) cfg.symbols)
