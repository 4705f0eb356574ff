-- ===== src/Base/Storage.antt =====
-- Files by their paths, and the replacement of one by way of a temporary file: `os.WriteFile` to
-- path + ".tmp", then `os.Rename`, and `os.Remove` where that fails. kline/internal/store/file.go
-- and orderbook/internal/persistence/writer.go both do it so.
use Prim.Native.Nat.{ℕ}
use mathlib.Core.Path.{◌≡◌, ap}
use mathlib.Core.Bool.{Bool, true, false}
use mathlib.Core.Logic.{◌≢◌, ◌⊎◌}
use mathlib.Core.Option.{Option, none, some}
use mathlib.Core.List.{List, [], ◌∷◌, ◌++◌}
use native.Mathlib.Omega.{arith}
use fidorix.Base.Tests.{if◌then◌else◌}
use fidorix.Base.Lists.{All, length, length-append}
use fidorix.Base.Strings.{Text, codes, text_eq, text_eq_iff, text_eq_refl}

-- The content of each path, or `none` where there is no file.
abbrev pub Disk : Type 0 → Type 0
Disk B = Text → Option B

abbrev pub put : {B : Type 0} → Text → Option B → Disk B → Disk B
put p content disk q = if text_eq p q then content else disk q

-- A write that fails leaves any content, or none, at its path.
pub data WriteResult (B : Type 0) : Type 0 where
  written : WriteResult B
  write_failed : Option B → WriteResult B

-- How the calls of one replacement end.
pub record Outcome (B : Type 0) : Type 0 where
  pub write : WriteResult B
  pub renames : Bool
  pub removes : Bool

abbrev pub all_well : {B : Type 0} → Outcome B
all_well = record { write = written; renames = true; removes = true }

pub data ReplaceError : Type 0 where
  write_error : ReplaceError
  rename_error : ReplaceError

abbrev pub tmp_path : Text → Text
tmp_path path = path ++ codes ".tmp"

module _ {B : Type 0} where
  -- The disk behind each call, the last one at the end, and the error that is returned.
  after_write : Outcome B → Text → B → Disk B → List (Disk B) × Option ReplaceError
  after_write out path payload disk =
      if out.renames
      then (put (tmp_path path) none (put path (some payload) disk) ∷ [], none)
      else (
        if out.removes then disk ∷ put (tmp_path path) none disk ∷ [] else disk ∷ disk ∷ [],
        some rename_error,
      )

  unfoldable pub replace_file : Outcome B → Text → B → Disk B → List (Disk B) × Option ReplaceError
  unfolding after_write
  replace_file out path payload disk = elim out.write [
    | write_failed left ↦ (put (tmp_path path) left disk ∷ [], some write_error)
    | written ↦
        let holding = put (tmp_path path) (some payload) disk in
        let (later, error) = after_write out path payload holding in (holding ∷ later, error)
  ]

  abbrev pub last_or : Disk B → List (Disk B) → Disk B
  last_or disk [] = disk
  last_or disk (d ∷ ds) = last_or d ds

  -- The disk that the replacement leaves.
  abbrev pub disk_after : Disk B → List (Disk B) × Option ReplaceError → Disk B
  disk_after disk r = last_or disk r.0

pub tmp_path-ne : (path : Text) → text_eq (tmp_path path) path ≡ false
tmp_path-ne path =
    ground (arith, text_eq_iff (tmp_path path) path, λ (e : tmp_path path ≡ path). longer path e)
  where
    longer : (p : Text) → tmp_path p ≡ p → ⊥
    longer p e = omega (arith, length-append p (codes ".tmp"), ap (length {A = ℕ}) e)

module _ {B : Type 0} (out : Outcome B) (path : Text) (payload : B) (disk : Disk B) where
  -- Where the program is stopped behind any of its calls, the path has its old content or the whole
  -- new one: no reader sees half a file.
  pub replace_file_atomic :
      All
        (λ d. (d path ≡ disk path) ⊎ (d path ≡ some payload))
        (replace_file out path payload disk).0
  unfolding replace_file
  replace_file_atomic = ground (arith, tmp_path-ne path, text_eq_refl path)

  -- It reports success exactly when the new content is in place; the old one is kept otherwise.
  pub replace_file_result :
      (((replace_file out path payload disk).1 ≡ none)
        × (disk_after disk (replace_file out path payload disk) path ≡ some payload)
        × (disk_after disk (replace_file out path payload disk) (tmp_path path) ≡ none))
      ⊎ (((replace_file out path payload disk).1 ≢ none)
          × (disk_after disk (replace_file out path payload disk) path ≡ disk path))
  unfolding replace_file
  replace_file_result =
      ground (arith, tmp_path-ne path, text_eq_refl path, text_eq_refl (tmp_path path))

  -- No other path changes.
  pub replace_file_frame :
      (q : Text)
      → q ≢ path
      → q ≢ tmp_path path
      → disk_after disk (replace_file out path payload disk) q ≡ disk q
  unfolding replace_file
  replace_file_frame q ne nt = ground (arith, text_eq_iff path q, text_eq_iff (tmp_path path) q)

-- How a replacement ends, and what it leaves at its path, depends on the disk at that path only.
pub replace_file_local :
    {B : Type 0} (out : Outcome B) (path : Text) (payload : B) (d e : Disk B)
    → d path ≡ e path
    → ((replace_file out path payload d).1 ≡ (replace_file out path payload e).1)
      × (disk_after d (replace_file out path payload d) path
          ≡ disk_after e (replace_file out path payload e) path)
unfolding replace_file
replace_file_local out path payload d e same = ground (arith, tmp_path-ne path, text_eq_refl path)
