-- ===== src/Kline/Files/Tests.antt =====
-- Tests of kline/internal/store/file.go, and the theorems at inputs. The encoder is the identity.
use fidorix.Base.{
  ◌≡◌, ◌≢◌, inr, strings, ne_of_text_eq, refl, ◌⊎◌, true, false, not, ◌&&◌, none, some, [], arith,
  pos, Text, codes, lookup, ok, err, Codec, IsFaithful, Disk, all_well, written, tmp_path,
}
use fidorix.Kline.Candle.{Candle}
use fidorix.Kline.Candle
use fidorix.Kline.Candle.Tests.{bar}
use fidorix.Kline.Store.{
  CandleFile, empty_file, key_for, clone_entry, clean, with_candle, upsert, store,
}
use fidorix.Kline.Store.Tests.{btc, min1, streamed, streamed-IsValid, dirty_entry, lookup-streamed}
use fidorix.Kline.Files.{
  SaveEnv, stamped, load_file, save_file, file_path_for_entry, Flushing, flush_entry,
  flush_dirty_entries, located, files, empty_symbol, invalid_key,
}
use fidorix.Kline.Files.Saving.{save_file_result, load_file-save_file}
use fidorix.Kline.Files.Paths.{file_path_for_entry_of_key, located_apart}
use fidorix.Kline.Files.Flush.{is_saved, lookup-flush_dirty_entries}
use fidorix.Kline.Files.Written.{disk-flush_dirty_entries}
use fidorix.Kline.Files.Race.{flush_entry_race}

abbrev pub identity : Codec CandleFile CandleFile
identity = record { encode = some; decode = some }

pub identity-IsFaithful : IsFaithful identity
identity-IsFaithful a b e = ground arith

abbrev pub calm : SaveEnv CandleFile
calm = record { now = pos 99; makes_dir = true; outcome = all_well }

-- Renaming fails, and so does the removal of the temporary file.
abbrev pub stuck : SaveEnv CandleFile
stuck = record {
  now = pos 99;
  makes_dir = true;
  outcome = record { write = written; renames = false; removes = false };
}

abbrev pub no_files : Disk CandleFile
no_files q = none

abbrev pub base : Text
base = codes "./kline"

abbrev pub btc_path : Text
btc_path = codes "kline/Min1/BTCUSDT.json"

path_tests :
    (file_path_for_entry base (clone_entry dirty_entry) ≡ ok btc_path)
    × (file_path_for_entry base
          (record { key = codes "BTC_USDT:Min1"; file = empty_file; dirty = true })
        ≡ ok btc_path)
    × (file_path_for_entry base (record { key = codes "x"; file = empty_file; dirty = true })
        ≡ err invalid_key)
    × (file_path_for_entry base (record { key = codes "_:y"; file = empty_file; dirty = true })
        ≡ err empty_symbol)
unfolding files store Candle.upsert
path_tests = (refl, refl, refl, refl)

load_tests :
    (load_file identity true btc_path no_files ≡ (empty_file, none))
    × ((save_file identity stuck btc_path empty_file no_files).0 (tmp_path btc_path)
        ≡ some (stamped (pos 99) empty_file))
    × ((save_file identity calm btc_path empty_file no_files).0 (tmp_path btc_path) ≡ none)
unfolding files
load_tests = (refl, refl, refl)

save_file_result_example :
    (((save_file identity stuck btc_path empty_file no_files).1 ≡ none)
      × ((save_file identity stuck btc_path empty_file no_files).0 btc_path
          ≡ some (stamped (pos 99) empty_file)))
    ⊎ (((save_file identity stuck btc_path empty_file no_files).1 ≢ none)
        × ((save_file identity stuck btc_path empty_file no_files).0 btc_path ≡ none))
save_file_result_example = save_file_result identity stuck btc_path empty_file no_files

load_file-save_file_example :
    load_file identity true btc_path (save_file identity calm btc_path empty_file no_files).0
    ≡ (stamped (pos 99) empty_file, none)
load_file-save_file_example =
    load_file-save_file identity calm btc_path empty_file no_files identity-IsFaithful
      (unfold files in refl)

file_path_for_entry_of_key_test :
    file_path_for_entry base (record { key = key_for btc min1; file = empty_file; dirty = true })
    ≡ located base (btc, min1)
file_path_for_entry_of_key_test =
    file_path_for_entry_of_key base btc min1
      (record { key = key_for btc min1; file = empty_file; dirty = true }) (ground arith) refl
      (unfold files in refl) (unfold files in refl)

lookup-flush_dirty_entries_example :
    lookup
      (codes "BTC_USDT:Min1")
      (flush_dirty_entries identity base (λ k. calm) streamed no_files).store.entries
    ≡ some (record dirty_entry {
      dirty = true && not (is_saved identity base calm (clone_entry dirty_entry));
    })
lookup-flush_dirty_entries_example =
    lookup-flush_dirty_entries identity base (λ k. calm) streamed no_files (codes "BTC_USDT:Min1")
      dirty_entry streamed-IsValid lookup-streamed

flushed_once : (flush_dirty_entries identity base (λ k. calm) streamed no_files).flushed ≡ 1
unfolding files store Candle.upsert
flushed_once = refl

disk-flush_dirty_entries_test :
    (flush_dirty_entries identity base (λ k. calm) streamed no_files).disk btc_path
    ≡ some (stamped (pos 99) (clone_entry dirty_entry).file)
disk-flush_dirty_entries_test =
    disk-flush_dirty_entries identity base (λ k. calm) streamed no_files [] []
      (clone_entry dirty_entry) btc_path (unfold files store in refl) path_tests.0
      (unfold files store Candle.upsert in refl) tt

flush_entry_race_example :
    let f : Flushing CandleFile = flush_entry identity base calm (clone_entry dirty_entry) (record {
      store = (upsert streamed btc min1 (bar (pos 50) [])).0;
      disk = no_files;
      flushed = 0;
    }) in
    (lookup (key_for btc min1) f.store.entries
      ≡ some (clean (with_candle dirty_entry btc min1 (bar (pos 50) []))))
    × (f.disk btc_path ≡ some (stamped (pos 99) (clone_entry dirty_entry).file))
flush_entry_race_example =
    flush_entry_race identity base calm streamed no_files 0 btc min1 (bar (pos 50) []) dirty_entry
      btc_path streamed-IsValid (unfold store in refl) path_tests.0
      (unfold files store Candle.upsert in refl)

abbrev min5_path : Text
min5_path = codes "kline/Min5/BTCUSDT.json"

located_tests :
    (located base (btc, min1) ≡ ok btc_path) × (located base (btc, codes "Min5") ≡ ok min5_path)
unfolding files
located_tests = (refl, refl)

located_apart_example : (btc_path ≢ min5_path) × (btc_path ≢ tmp_path min5_path)
unfolding strings
located_apart_example =
    located_apart base btc btc min1 (codes "Min5") btc_path min5_path refl
      (record { filled = refl; whole = ground arith; no_dot = refl; no_dots = refl })
      (record { filled = refl; whole = ground arith; no_dot = refl; no_dots = refl })
      (unfold files in ground arith) (unfold files in ground arith) located_tests.0 located_tests.1
      (inr (ne_of_text_eq min1 (codes "Min5") refl))
