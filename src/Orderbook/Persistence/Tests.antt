-- ===== src/Orderbook/Persistence/Tests.antt =====
-- Tests of orderbook/internal/persistence/writer.go, and the theorem at an input. A snapshot is its
-- content.
use fidorix.Base.{
  false, ok, err, dir_path, ℕ, ◌≤◌, ◌≡◌, refl, true, Option, none, some, [], ◌∷◌, length, Text,
  codes, Disk, put, tmp_path, strings,
}
use fidorix.Orderbook.Persistence.{written, Writer, Step, Run, new_writer}
use fidorix.Orderbook.Persistence.Opening.{
  no_path, directory_error, open_writer, cancelled, skipped, write_snapshot,
}
use fidorix.Orderbook.Persistence.Exclusive.{IsContent, IsContent-Run}

abbrev path : Text
path = codes "d"

abbrev old_file : Disk ℕ
old_file p = some 1

abbrev encode : ℕ → Option ℕ
encode s = some s

-- Snapshot 5 is in the temporary file.
abbrev half : Writer ℕ ℕ
half = record {
  in_progress = true;
  disk = put (tmp_path path) (some 5) old_file;
  live = written 5 5 ∷ [];
}

half-Run : Run encode path (new_writer old_file) half
half-Run = Run.next (Run.next Run.here (Step.enter 5 5 refl refl)) (Step.write 5 5 [] [] refl)

IsContent-Run_example : (length half.live ≤ 1) × IsContent encode path (some 1) (half.disk path)
IsContent-Run_example = IsContent-Run encode path old_file half half-Run

-- Behind the rename the file has the snapshot.
renamed_test :
    put (tmp_path path) none (put path (half.disk (tmp_path path)) half.disk) path ≡ some 5
unfolding strings
renamed_test = refl

opening_tests :
    (open_writer (λ dir. true) (codes "data/depth.json") ≡ ok (codes "data/depth.json"))
    × (open_writer (λ dir. false) (codes "data/depth.json") ≡ err (directory_error (codes "data")))
    × (open_writer (λ dir. true) [] ≡ err no_path)
    × (write_snapshot true true ≡ cancelled)
    × (write_snapshot false true ≡ skipped)
unfolding strings open_writer write_snapshot dir_path
opening_tests = (refl, refl, refl, refl, refl)
