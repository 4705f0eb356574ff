-- ===== src/Kline/Files/Durable.antt =====
-- What the program finds again when it starts: the files of the clean entries.
use fidorix.Base.{◌≡◌, refl, sym, ◌∙◌, Bool, true, none, elems, Text, ok, Codec, IsFaithful, Disk}
use fidorix.Kline.Store.{CandleFile, Entry}
use fidorix.Kline.Files.{SaveEnv, stamped, load_file, save_file, file_path_for_entry}
use fidorix.Kline.Files.Saving.{load_file-save_file}

module _ {B : Type 0} (json : Codec CandleFile B) (base : Text) where
  -- LoadFile reads the candles of the entry at its path.
  pub record IsPersisted (disk : Disk B) (e : Entry) : Type 0 where
    pub path : Text
    pub located : file_path_for_entry base e ≡ ok path
    pub same : elems (load_file json true path disk).0.candles ≡ elems e.file.candles

  -- A copy that a flush saves is of the entry if it has its path and its candles.
  abbrev pub IsCopy : Entry → Entry → Type 0
  IsCopy x e =
      (file_path_for_entry base x ≡ file_path_for_entry base e)
      × (elems x.file.candles ≡ elems e.file.candles)

  -- A file that SaveFile wrote is read with the candles that were saved.
  pub IsPersisted-saved :
      (faithful : IsFaithful json) (env : SaveEnv B) (disk : Disk B) (x e : Entry) (p : Text)
      → IsCopy x e
      → file_path_for_entry base x ≡ ok p
      → (save_file json env p x.file disk).1 ≡ none
      → IsPersisted (save_file json env p x.file disk).0 e
  unfolding load_file
  IsPersisted-saved faithful env disk x e p copy path saved = record {
    path = p;
    located = sym copy.0 ∙ path;
    same = rw (load_file-save_file json env p x.file disk faithful saved) stamped_candles ∙ copy.1;
  }
    where
      stamped_candles : elems (stamped env.now x.file).candles ≡ elems x.file.candles
      stamped_candles = refl

  pub IsPersisted-marked :
      (disk : Disk B) (e : Entry) (b : Bool)
      → IsPersisted disk e
      → IsPersisted disk (record e { dirty = b })
  unfolding file_path_for_entry
  IsPersisted-marked disk e b h = record { path = h.path; located = h.located; same = h.same }

  pub IsPersisted-frame :
      (disk disk' : Disk B) (e : Entry) (h : IsPersisted disk e)
      → disk' h.path ≡ disk h.path
      → IsPersisted disk' e
  unfolding load_file
  IsPersisted-frame disk disk' e h same = record {
    path = h.path;
    located = h.located;
    same = rw same h.same;
  }
