-- ===== src/Kline/Store.antt =====
-- kline/internal/store/store.go: the candle snapshots in memory. Each method that takes the write
-- lock is one step, a function on `Store`; the maps and slices of the source are values here, since
-- the store hands out copies only (`clone_entry`) and kline.Upsert writes into fresh slices.
-- The two clients are external: the store knows whether it has them.
pub mod Keys
pub mod Invariant
pub mod View
pub mod Dirty
pub mod Refinement
pub mod Tests
use fidorix.Base.{
  Bool, true, false, ◌||◌, Option, none, some, List, [], ◌∷◌, ◌++◌, if◌then◌else◌, elems, ℤ, pos,
  Text, is_empty, codes, Assoc, lookup, insert, text_eq,
}
use fidorix.Kline.Candle.{Candle}
use fidorix.Kline.Candle

-- A nil slice of candles is `none`.
pub record CandleFile : Type 0 where
  pub symbol : Text
  pub interval : Text
  pub updated_at : ℤ
  pub candles : Option (List Candle)

abbrev pub empty_file : CandleFile
empty_file = record { symbol = []; interval = []; updated_at = pos 0; candles = none }

pub record Entry : Type 0 where
  pub key : Text
  pub file : CandleFile
  pub dirty : Bool

pub record Store : Type 0 where
  pub entries : Assoc Entry
  pub has_db : Bool
  pub has_redis : Bool

unfoldable pub new_full : Bool → Bool → Store
new_full d r = record { entries = []; has_db = d; has_redis = r }

abbrev pub colon : Text
colon = codes ":"

unfoldable pub key_for : Text → Text → Text
key_for symbol interval = symbol ++ (colon ++ interval)

-- `append([]kline.Candle(nil), xs...)` is nil where there is nothing to append.
abbrev pub clone_slice : List Candle → Option (List Candle)
clone_slice [] = none
clone_slice (c ∷ cs) = some (c ∷ cs)

unfoldable pub clone_entry : Entry → Entry
clone_entry e =
    let file = e.file in
    record {
      key = e.key;
      file = record file { candles = clone_slice (elems file.candles) };
      dirty = e.dirty;
    }

-- The calls that leave the process, in order. A call that fails is logged and changes nothing here.
pub data Effect : Type 0 where
  upsert_batch : Text → Text → List Candle → Effect
  set_latest_bar : Text → Text → Candle → Effect
  publish_bar : Text → Text → Candle → Effect

unfoldable pub persist_external : Bool → Bool → Text → Text → Candle → List Effect
persist_external db redis symbol interval candle =
    (if db then upsert_batch symbol interval (candle ∷ []) ∷ [] else [])
    ++ (if redis
        then set_latest_bar symbol interval candle ∷ publish_bar symbol interval candle ∷ []
        else [])

-- The entry that Upsert finds, or makes.
abbrev pub entry_or_new : Text → Text → Text → Option Entry → Entry
entry_or_new key symbol interval (some e) = e
entry_or_new key symbol interval none = record {
  key = key;
  file = record { symbol = symbol; interval = interval; updated_at = pos 0; candles = some [] };
  dirty = false;
}

abbrev pub with_candle : Entry → Text → Text → Candle → Entry
with_candle e symbol interval c =
    let file = e.file in
    record {
      key = e.key;
      file = record file {
        symbol = symbol;
        interval = interval;
        candles = some (Candle.upsert (elems file.candles) c);
      };
      dirty = true;
    }

-- The new store, and what the goroutine that it starts will call.
unfoldable pub upsert : Store → Text → Text → Candle → Store × List Effect
upsert s symbol interval c =
    let key = key_for symbol interval in
    let entry = entry_or_new key symbol interval (lookup key s.entries) in
    (
      record s { entries = insert key (with_candle entry symbol interval c) s.entries },
      if s.has_db || s.has_redis
          then persist_external s.has_db s.has_redis symbol interval c
          else [],
    )

unfoldable pub dirty_entries : Assoc Entry → List Entry
dirty_entries [] = []
dirty_entries ((k, e) ∷ m) =
    let rest = dirty_entries m in if e.dirty then clone_entry e ∷ rest else rest

unfoldable pub get_dirty : Store → List Entry
get_dirty s = dirty_entries s.entries

abbrev pub clean : Entry → Entry
clean e = record e { dirty = false }

abbrev pub clear_found : Store → Text → Option Entry → Store
clear_found s key none = s
clear_found s key (some e) = record s { entries = insert key (clean e) s.entries }

unfoldable pub clear_dirty : Store → Text → Store
clear_dirty s key = clear_found s key (lookup key s.entries)

abbrev pub or_default : Text → Text → Text
or_default s fallback = if is_empty s then fallback else s

abbrev pub or_made : Option (List Candle) → Option (List Candle)
or_made xs = some (elems xs)

unfoldable pub load : Store → Text → Text → CandleFile → Store
load s symbol interval cf =
    let key = key_for symbol interval in
    record s {
      entries =
          insert key
            (record {
              key = key;
              file = record cf {
                symbol = or_default cf.symbol symbol;
                interval = or_default cf.interval interval;
                candles = or_made cf.candles;
              };
              dirty = false;
            })
            s.entries;
    }

unfoldable pub clone_all : Assoc Entry → Assoc Entry
clone_all [] = []
clone_all ((k, e) ∷ m) = (k, clone_entry e) ∷ clone_all m

unfoldable pub all : Store → Assoc Entry
all s = clone_all s.entries

abbrev pub is_found {ℓ} : {A : Type ℓ} → Option A → Bool
is_found none = false
is_found (some _) = true

unfoldable pub has : Store → Text → Text → Bool
has s symbol interval = is_found (lookup (key_for symbol interval) s.entries)

-- Opens the functions of this file, for tests.
unfoldable pub store : Unit {0}
unfolding new_full key_for clone_entry persist_external upsert dirty_entries get_dirty clear_dirty
    load clone_all all has lookup insert text_eq
store = tt
