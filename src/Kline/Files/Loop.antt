-- ===== src/Kline/Files/Loop.antt =====
-- FlushLoop and FlushDirtyEntries of kline/internal/store/file.go among the goroutines that store
-- candles, with the flushes of kline/cmd/server/main.go. A flush holds no lock from GetDirty to its
-- last ClearDirty: candles may be stored between any two of its moves.
use fidorix.Base.{Option, none, some, List, [], ◌∷◌, Text, Codec, Disk, Result, ok, err}
use fidorix.Kline.Candle.{Candle}
use fidorix.Kline.Store.{CandleFile, Entry, Store, upsert, get_dirty, clear_dirty}
use fidorix.Kline.Files.{PathError, SaveError, SaveEnv, save_file, file_path_for_entry}

-- `pending` are the copies of GetDirty that the flush still has to save, and `clearing` is the key
-- whose file is saved and whose mark is not cleared yet.
pub record Flow (B : Type 0) : Type 0 where
  pub store : Store
  pub disk : Disk B
  pub pending : List Entry
  pub clearing : Option Text

-- A candle is stored; a flush begins, if none goes on; or the flush makes its next move, with what
-- the system calls of SaveFile answer.
pub data Event (B : Type 0) : Type 0 where
  stored : Text → Text → Candle → Event B
  tick : Event B
  proceeds : SaveEnv B → Event B

module _ {B : Type 0} (json : Codec CandleFile B) (base : Text) where
  abbrev pub saved_next : Entry → List Entry → Flow B → Disk B × Option SaveError → Flow B
  saved_next x es w (disk, none) = record w { disk = disk; pending = es; clearing = some x.key }
  saved_next x es w (disk, some e) = record w { disk = disk; pending = es }

  abbrev pub save_at : SaveEnv B → Entry → List Entry → Flow B → Result PathError Text → Flow B
  save_at env x es w (err p) = record w { pending = es }
  save_at env x es w (ok path) = saved_next x es w (save_file json env path x.file w.disk)

  -- ClearDirty of the entry that is saved, or the path and SaveFile of the next one.
  abbrev pub move_on : SaveEnv B → Flow B → Option Text → List Entry → Flow B
  move_on env w (some k) es = record w { store = clear_dirty w.store k; clearing = none }
  move_on env w none [] = w
  move_on env w none (x ∷ es) = save_at env x es w (file_path_for_entry base x)

  -- GetDirty
  abbrev pub begin : Flow B → Option Text → List Entry → Flow B
  begin w (some k) es = w
  begin w none [] = record w { pending = get_dirty w.store }
  begin w none (x ∷ es) = w

  unfoldable pub advance : Event B → Flow B → Flow B
  advance (stored symbol interval c) w = record w { store = (upsert w.store symbol interval c).0 }
  advance tick w = begin w w.clearing w.pending
  advance (proceeds env) w = move_on env w w.clearing w.pending

  unfoldable pub advance_all : List (Event B) → Flow B → Flow B
  advance_all [] w = w
  advance_all (e ∷ events) w = advance_all events (advance e w)
