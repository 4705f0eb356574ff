-- ===== src/Kline/Files.antt =====
-- kline/internal/store/file.go: candle files on disk, and the flush of the dirty entries. The JSON
-- encoder, the clock and the outcomes of the system calls are arguments.
pub mod Saving
pub mod Paths
pub mod Flush
pub mod Written
pub mod Race
pub mod Loop
pub mod Durable
pub mod Ending
pub mod Tests
use fidorix.Base.{
  ℕ, suc, ◌+◌, Bool, true, false, ◌||◌, Option, none, some, List, [], ◌∷◌, ◌++◌, ◌==◌,
  if◌then◌else◌, elems, ℤ, Text, codes, is_empty, trim_space, remove_all, Result, ok, err, ◌>>=◌,
  Codec, Disk, Outcome, ReplaceError, replace_file, disk_after, join_path, strings, lookup, insert,
}
use fidorix.Kline.Candle.{Candle}
use fidorix.Kline.Symbol.{to_file}
use fidorix.Kline.Store.{
  dirty_entries, CandleFile, empty_file, Entry, Store, or_made, get_dirty, clear_dirty,
}

pub data LoadError : Type 0 where
  read_error : LoadError
  decode_error : LoadError

pub data SaveError : Type 0 where
  mkdir_error : SaveError
  marshal_error : SaveError
  replace_error : ReplaceError → SaveError

pub data PathError : Type 0 where
  invalid_key : PathError
  empty_symbol : PathError

-- What the system calls of one SaveFile answer, and the second in which it runs.
pub record SaveEnv (B : Type 0) : Type 0 where
  pub now : ℤ
  pub makes_dir : Bool
  pub outcome : Outcome B

abbrev pub made_file : CandleFile → CandleFile
made_file cf = record cf { candles = or_made cf.candles }

abbrev pub stamped : ℤ → CandleFile → CandleFile
stamped now cf = record cf { candles = or_made cf.candles; updated_at = now }

abbrev pub replace_outcome : Option ReplaceError → Option SaveError
replace_outcome none = none
replace_outcome (some e) = some (replace_error e)

module _ {B : Type 0} (json : Codec CandleFile B) where
  abbrev decoded : Option CandleFile → CandleFile × Option LoadError
  decoded none = (empty_file, some decode_error)
  decoded (some cf) = (made_file cf, none)

  abbrev content_file : Option B → CandleFile × Option LoadError
  content_file none = (empty_file, none)
  content_file (some content) = decoded (json.decode content)

  -- `readable` is false where os.ReadFile fails on a file that is there.
  unfoldable pub load_file : Bool → Text → Disk B → CandleFile × Option LoadError
  load_file readable path disk =
      if readable then content_file (disk path) else (empty_file, some read_error)

  abbrev save_payload : SaveEnv B → Text → Option B → Disk B → Disk B × Option SaveError
  save_payload env path none disk = (disk, some marshal_error)
  save_payload env path (some payload) disk =
      let r = replace_file env.outcome path payload disk in (disk_after disk r, replace_outcome r.1)

  unfoldable pub save_file : SaveEnv B → Text → CandleFile → Disk B → Disk B × Option SaveError
  save_file env path cf disk =
      if env.makes_dir
      then save_payload env path (json.encode (stamped env.now cf)) disk
      else (disk, some mkdir_error)

-- strings.SplitN(s, ":", 2), where it gives two parts
unfoldable pub split_key : Text → Option (Text × Text)
split_key [] = none
split_key (c ∷ s) =
    if c == b':'
    then some ([], s)
    else elim (split_key s) [ none ↦ none | some (a, b) ↦ some (c ∷ a, b) ]

abbrev pub or_part : Text → Text → Text
or_part s part = if is_empty s then part else s

abbrev pub parts_of : Text → Text → Option (Text × Text) → Result PathError (Text × Text)
parts_of symbol interval none = err invalid_key
parts_of symbol interval (some (a, b)) = ok (or_part symbol a, or_part interval b)

abbrev pub located : Text → Text × Text → Result PathError Text
located base (symbol, interval) =
    let file_symbol = to_file (remove_all b'_' symbol) in
    if is_empty file_symbol
    then err empty_symbol
    else ok (join_path (base ∷ interval ∷ (file_symbol ++ codes ".json") ∷ []))

unfoldable pub file_path_for_entry : Text → Entry → Result PathError Text
file_path_for_entry base e =
    let symbol = trim_space e.file.symbol in
    let interval = trim_space e.file.interval in
    (if is_empty symbol || is_empty interval
      then parts_of symbol interval (split_key e.key)
      else ok (symbol, interval))
    >>= located base

-- What a flush works on: the store, the disk, and the number of entries that it has flushed.
pub record Flushing (B : Type 0) : Type 0 where
  pub store : Store
  pub disk : Disk B
  pub flushed : ℕ

module _ {B : Type 0} (json : Codec CandleFile B) where
  abbrev pub settle : Flushing B → Text → Disk B × Option SaveError → Flushing B
  settle f key (disk, none) = record {
    store = clear_dirty f.store key;
    disk = disk;
    flushed = f.flushed + 1;
  }
  settle f key (disk, some e) = record f { disk = disk }

  abbrev pub flush_at : SaveEnv B → Entry → Flushing B → Result PathError Text → Flushing B
  flush_at env e f (err p) = f
  flush_at env e f (ok path) = settle f e.key (save_file json env path e.file f.disk)

  -- One round of the loop of FlushDirtyEntries.
  unfoldable pub flush_entry : Text → SaveEnv B → Entry → Flushing B → Flushing B
  flush_entry base env e f = flush_at env e f (file_path_for_entry base e)

  unfoldable pub flush_entries : Text → (Text → SaveEnv B) → List Entry → Flushing B → Flushing B
  flush_entries base env [] f = f
  flush_entries base env (e ∷ es) f = flush_entries base env es (flush_entry base (env e.key) e f)

  -- The environment answers for each entry by its key, which no two entries share.
  unfoldable pub flush_dirty_entries : Text → (Text → SaveEnv B) → Store → Disk B → Flushing B
  flush_dirty_entries base env s disk =
      flush_entries base env (get_dirty s) (record { store = s; disk = disk; flushed = 0 })

-- Opens the functions of this file and of the store, for tests.
unfoldable pub files : Unit {0}
unfolding strings split_key load_file save_file replace_file file_path_for_entry flush_dirty_entries
    flush_entries flush_entry get_dirty dirty_entries clear_dirty lookup insert to_file join_path
files = tt
