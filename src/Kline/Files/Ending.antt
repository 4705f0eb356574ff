-- ===== src/Kline/Files/Ending.antt =====
-- From the candles that are stored to the files that the program leaves when it ends.
pub mod Ticks
pub mod Moves
pub mod Handled
pub mod Last
mod Tests
use fidorix.Base.{
  lookup-insert_found, Option, ◌++◌, ◌≡◌, ◌≢◌, refl, sym, ap, ◌∙◌, subst, inl, inr, ◌⊎◌, Bool,
  Bool-cases, ◌&&◌, ◌||◌, not, true, false, none, some, List, [], ◌∷◌, arith, if◌then◌else◌, elems,
  All, All-imp, Text, text_eq, text_eq_iff, Result, ok, err, Result-cases, Option-cases,
  lookup-insert, lookup-insert_ne, lookup-insert_self, lookup-Each, Each, Each-of_lookup, Assoc,
  Distinct, Codec, IsFaithful, Disk, lookup, tmp_path,
}
use fidorix.Kline.Candle.{Candle}
use fidorix.Kline.Store.{
  CandleFile, Entry, Store, clone_entry, dirty_entries, get_dirty, key_for, with_candle,
  entry_or_new, upsert, clear_dirty,
}
use fidorix.Kline.Store.Dirty.{elems-clone_slice}
use fidorix.Kline.Store.Invariant.{IsValid, IsValidEntry, clear_dirty-IsValid, upsert-IsValid}
use fidorix.Kline.Files.{SaveEnv, SaveError, PathError, save_file, file_path_for_entry}
use fidorix.Kline.Files.Saving.{save_file_result, save_file_frame}
use fidorix.Kline.Files.Flush.{settled, is_saved, lookup-clear_dirty}
use fidorix.Kline.Files.Written.{Avoids}
use fidorix.Kline.Files.Loop.{
  Flow, Event, stored, tick, proceeds, saved_next, save_at, move_on, begin, advance, advance_all,
}
use fidorix.Kline.Files.Durable.{
  IsPersisted, IsCopy, IsPersisted-saved, IsPersisted-marked, IsPersisted-frame,
}

-- An entry behind an upsert was there, or is that of the pair, and dirty.
pub upsert_origin :
    (s : Store) (symbol interval : Text) (c : Candle) (k : Text) (e : Entry)
    → lookup k (upsert s symbol interval c).0.entries ≡ some e
    → (lookup k s.entries ≡ some e) ⊎ ((key_for symbol interval ≡ k) × (e.dirty ≡ true))
unfolding upsert
upsert_origin s symbol interval c k e found =
    elim (lookup-insert_found (key_for symbol interval) k _ e s.entries found) [
      | inl (same, q) ↦ inr (same, sym (ap (λ (x : Entry). x.dirty) q))
      | inr old ↦ inl old
    ]

module _ {B : Type 0} (json : Codec CandleFile B) (base : Text) where
  pub tick-IsValid : (w : Flow B) → IsValid w.store → IsValid (advance json base tick w).store
  unfolding advance
  tick-IsValid w v = of_parts w.clearing w.pending
    where
      of_parts : (cl : Option Text) (es : List Entry) → IsValid (begin json base w cl es).store
      of_parts (some j) es = v
      of_parts none (x ∷ es) = v
      of_parts none [] = v

  pub proceeds-IsValid :
      (env : SaveEnv B) (w : Flow B)
      → IsValid w.store
      → IsValid (advance json base (proceeds env) w).store
  unfolding advance
  proceeds-IsValid env w v = of_parts w.clearing w.pending
    where
      saved :
          (x : Entry) (es : List Entry) (r : Disk B × Option SaveError)
          → IsValid (saved_next json base x es w r).store
      saved x es (d, none) = v
      saved x es (d, some error) = v

      of_path :
          (x : Entry) (es : List Entry) (r : Result PathError Text)
          → IsValid (save_at json base env x es w r).store
      of_path x es (err bad) = v
      of_path x es (ok p) = saved x es (save_file json env p x.file w.disk)

      of_parts :
          (cl : Option Text) (es : List Entry) → IsValid (move_on json base env w cl es).store
      of_parts (some j) es = clear_dirty-IsValid w.store j v
      of_parts none [] = v
      of_parts none (x ∷ es) = of_path x es (file_path_for_entry base x)

-- No flush has a copy of the pair of the key that it still has to save or to clear.
pub record IsQuiet {B : Type 0} (k : Text) (w : Flow B) : Type 0 where
  pub none_pending : All (λ x. x.key ≢ k) w.pending
  pub none_clearing : w.clearing ≢ some k

module _ {B : Type 0} (json : Codec CandleFile B) (base : Text) (k : Text) where
  -- A candle of the pair comes only where no flush has a copy of it.
  abbrev pub IsCalm : Event B → Flow B → Type 0
  IsCalm (stored symbol interval c) w = key_for symbol interval ≡ k → IsQuiet k w
  IsCalm tick w = Unit
  IsCalm (proceeds env) w = Unit

  abbrev pub AreCalm : List (Event B) → Flow B → Type 0
  AreCalm [] w = Unit
  AreCalm (e ∷ events) w = IsCalm e w × AreCalm events (advance json base e w)

  -- No copy of another pair resolves to the path of the pair, or has it as its temporary file.
  abbrev pub IsClear : Flow B → Type 0
  IsClear w =
      (e : Entry) (p : Text)
      → lookup k w.store.entries ≡ some e
      → file_path_for_entry base e ≡ ok p
      → All (λ x. x.key ≢ k → Avoids json base p x) w.pending

  abbrev pub AreClear : List (Event B) → Flow B → Type 0
  AreClear [] w = IsClear w
  AreClear (e ∷ events) w = IsClear w × AreClear events (advance json base e w)

  -- The entry of the pair is in its file if it is clean, or saved and about to be; and a copy of it
  -- that waits has its candles.
  pub record Holds (w : Flow B) : Type 0 where
    pub valid : IsValid w.store
    pub durable :
        (e : Entry)
        → lookup k w.store.entries ≡ some e
        → (e.dirty ≡ false) ⊎ (w.clearing ≡ some k)
        → IsPersisted json base w.disk e
    pub copied :
        (e : Entry)
        → lookup k w.store.entries ≡ some e
        → All (λ x. x.key ≡ k → IsCopy json base x e) w.pending
