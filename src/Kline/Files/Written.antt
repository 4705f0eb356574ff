-- ===== src/Kline/Files/Written.antt =====
-- What a flush leaves on the disk.
use fidorix.Base.{
  ◌≡◌, ◌≢◌, refl, ap, ◌∙◌, inl, inr, true, Option, none, some, List, [], ◌∷◌, ◌++◌, All, Text, ok,
  Result-cases, Codec, Disk, tmp_path,
}
use fidorix.Kline.Store.{CandleFile, Entry, Store, get_dirty}
use fidorix.Kline.Files.{
  SaveError, SaveEnv, stamped, save_file, file_path_for_entry, Flushing, settle, flush_entry,
  flush_entries, flush_dirty_entries,
}
use fidorix.Kline.Files.Saving.{save_file_result, save_file_frame}
use fidorix.Kline.Files.Flush.{is_none, bare, eq-none_of_is_none, save_file_error, is_saved}

disk-settle :
    {B : Type 0} (json : Codec CandleFile B) (f : Flushing B) (k : Text)
    (r : Disk B × Option SaveError) (p : Text)
    → (settle json f k r).disk p ≡ r.0 p
disk-settle json f k (d, none) p = refl
disk-settle json f k (d, some x) p = refl

module _ {B : Type 0} (json : Codec CandleFile B) (base : Text) where
  -- An entry that resolves to no path of `p`'s save.
  abbrev pub Avoids : Text → Entry → Type 0
  Avoids p d = (q : Text) → file_path_for_entry base d ≡ ok q → (p ≢ q) × (p ≢ tmp_path q)

  pub flush_entry_frame :
      (env : SaveEnv B) (e : Entry) (f : Flushing B) (p : Text)
      → Avoids p e
      → (flush_entry json base env e f).disk p ≡ f.disk p
  unfolding flush_entry
  flush_entry_frame env e f p avoids = elim (Result-cases (file_path_for_entry base e)) [
    | inl (x, found) ↦ rw found
    | inr (q, found) ↦ rw found (
        disk-settle json f e.key (save_file json env q e.file f.disk) p
        ∙ save_file_frame json env q e.file f.disk p (avoids q found).0 (avoids q found).1)
  ]

  flush_entries_frame :
      (env : Text → SaveEnv B) (es : List Entry) (f : Flushing B) (p : Text)
      → All (Avoids p) es
      → (flush_entries json base env es f).disk p ≡ f.disk p
  unfolding flush_entries
  flush_entries_frame env [] f p h = refl
  flush_entries_frame env (e ∷ es) f p h =
      flush_entries_frame env es (flush_entry json base (env e.key) e f) p h.1
      ∙ flush_entry_frame (env e.key) e f p h.0

  flush_entries-append :
      (env : Text → SaveEnv B) (es ds : List Entry) (f : Flushing B)
      → flush_entries json base env (es ++ ds) f
        ≡ flush_entries json base env ds (flush_entries json base env es f)
  unfolding flush_entries
  flush_entries-append env [] ds f = refl
  flush_entries-append env (e ∷ es) ds f =
      flush_entries-append env es ds (flush_entry json base (env e.key) e f)

  save_file_done :
      (env : SaveEnv B) (p : Text) (cf : CandleFile) (disk : Disk B)
      → is_none (save_file json env p cf bare).1 ≡ true
      → (save_file json env p cf disk).0 p ≡ json.encode (stamped env.now cf)
  save_file_done env p cf disk saved = elim (save_file_result json env p cf disk) [
    | inl (no_error, content) ↦ content
    | inr (error, same) ↦
        absurd (error (save_file_error json base env p cf disk bare ∙ eq-none_of_is_none _ saved))
  ]

  pub disk-flush_entry :
      (env : SaveEnv B) (e : Entry) (f : Flushing B) (p : Text)
      → file_path_for_entry base e ≡ ok p
      → is_saved json base env e ≡ true
      → (flush_entry json base env e f).disk p ≡ json.encode (stamped env.now e.file)
  unfolding flush_entry
  disk-flush_entry env e f p found saved = rw found (
      disk-settle json f e.key (save_file json env p e.file f.disk) p
      ∙ save_file_done env p e.file f.disk (rw found at saved))

  -- The file of a listed entry that is saved holds that entry, stamped, when the flush is over, if
  -- no entry listed behind it resolves to its path.
  pub disk-flush_dirty_entries :
      (env : Text → SaveEnv B) (s : Store) (disk : Disk B) (before after : List Entry) (e : Entry)
      (p : Text)
      → get_dirty s ≡ before ++ e ∷ after
      → file_path_for_entry base e ≡ ok p
      → is_saved json base (env e.key) e ≡ true
      → All (Avoids p) after
      → (flush_dirty_entries json base env s disk).disk p
        ≡ json.encode (stamped (env e.key).now e.file)
  unfolding flush_dirty_entries
  disk-flush_dirty_entries env s disk before after e p listed found saved avoids =
      let start : Flushing B = record { store = s; disk = disk; flushed = 0 } in
      let ready = flush_entries json base env before start in
      ap (λ es. (flush_entries json base env es start).disk p) listed
      ∙ ap (λ (g : Flushing B). g.disk p) (flush_entries-append env before (e ∷ after) start)
      ∙ unfold flush_entries in
        (flush_entries_frame env after (flush_entry json base (env e.key) e ready) p avoids
          ∙ disk-flush_entry (env e.key) e ready p found saved)
