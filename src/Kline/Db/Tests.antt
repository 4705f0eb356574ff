-- ===== src/Kline/Db/Tests.antt =====
-- Tests of kline/internal/db, and the theorems at inputs. A float is its text, which is not empty.
use mathlib.Core.List.{reverse}
use fidorix.Base.{
  subst, sym, ap, ◌∙◌, ◌≡◌, refl, ◌⊎◌, true, false, Option, none, some, List, [], ◌∷◌, map, arith,
  if◌then◌else◌, ℤ, pos, leb_ℤ, Text, codes, is_empty, ok, err,
}
use fidorix.Kline.Candle.{Candle}
use fidorix.Kline.Candle.Place.{IsSorted}
use fidorix.Kline.Candle.Tests.{bar}
use fidorix.Kline.Store.Tests.{btc, min1}
use fidorix.Kline.Rest.Client.{candle_row}
use fidorix.Kline.Db.{
  CandleRecord, DbError, bad_numeric, batch_error, Floats, LatestRows, parse_numeric, to_record,
  queued, executed, upsert_batch, candle_of, scanned, reverse_from, reverse_candles, load_latest,
}
use fidorix.Kline.Db.Opening.{
  klines_table, hypertable, klines_index, statement_error, migrate_error, migrate, new_db,
}
use fidorix.Kline.Db.Reversal.{reverse_candles-eq-reverse}
use fidorix.Kline.Db.Batch.{AreRecords, upsert_batch_result}
use fidorix.Kline.Db.Latest.{IsScanned, IsDescending, load_latest_result, load_latest-IsSorted}

abbrev floats : Floats Text
floats = record { parse_float = λ s. if is_empty s then none else some s; format_float = λ s. s }

abbrev record_at : ℤ → CandleRecord Text
record_at t = record {
  symbol = btc;
  interval = min1;
  open_time = t;
  open_price = codes "1";
  high = codes "1";
  low = codes "1";
  close_price = codes "1";
  volume = codes "1";
  amount = codes "1";
}

abbrev candle : ℤ → Candle
candle t = candle_row t (codes "1") (codes "1") (codes "1") (codes "1") (codes "1") (codes "1")

abbrev two_rows : LatestRows Text
two_rows = record {
  rows = some (record_at (pos 30)) ∷ some (record_at (pos 10)) ∷ [];
  err_at_end = false;
}

abbrev query : Text → Text → ℤ → Option (LatestRows Text)
query symbol interval limit = some two_rows

db : Unit {0}
unfolding parse_numeric to_record queued upsert_batch candle_of scanned reverse_from reverse_candles
    load_latest
db = tt

db_tests :
    (upsert_batch floats true [] btc min1 (candle (pos 10) ∷ []) ≡ (record_at (pos 10) ∷ [], ok tt))
    × (upsert_batch floats true [] btc min1 (candle (pos 10) ∷ bar (pos 30) (codes "1") ∷ [])
        ≡ ([], err (bad_numeric (codes "open") [])))
    × ((upsert_batch floats true (false ∷ []) btc min1 (candle (pos 10) ∷ [])).1 ≡ err batch_error)
    × (reverse_candles (candle (pos 1) ∷ candle (pos 2) ∷ candle (pos 3) ∷ [])
        ≡ candle (pos 3) ∷ candle (pos 2) ∷ candle (pos 1) ∷ [])
unfolding db
db_tests = (refl, refl, refl, refl)

loaded_two :
    load_latest floats true query btc min1 (pos 5) ≡ ok (candle (pos 10) ∷ candle (pos 30) ∷ [])
unfolding db
loaded_two = refl

reverse_candles-eq-reverse_test :
    reverse_candles (candle (pos 1) ∷ candle (pos 2) ∷ []) ≡ candle (pos 2) ∷ candle (pos 1) ∷ []
reverse_candles-eq-reverse_test = reverse_candles-eq-reverse (candle (pos 1) ∷ candle (pos 2) ∷ [])

upsert_batch_result_example :
    (((upsert_batch floats true [] btc min1 (candle (pos 10) ∷ [])).0 ≡ [])
      × ((e : DbError) × ((upsert_batch floats true [] btc min1 (candle (pos 10) ∷ [])).1 ≡ err e)))
    ⊎ ((true ≡ true)
        × AreRecords floats btc min1
            (candle (pos 10) ∷ [])
            (upsert_batch floats true [] btc min1 (candle (pos 10) ∷ [])).0
        × ((upsert_batch floats true [] btc min1 (candle (pos 10) ∷ [])).1 ≡ executed 1 []))
upsert_batch_result_example = upsert_batch_result floats btc min1 true [] (candle (pos 10) ∷ [])

load_latest_result_test :
    ((leb_ℤ (pos 5) (pos 0) ≡ true) × (candle (pos 10) ∷ candle (pos 30) ∷ [] ≡ []))
    ⊎ ((rows : LatestRows Text) × (query btc min1 (pos 5) ≡ some rows)
        × (rows.err_at_end ≡ false)
        × ((ds : List Candle) × IsScanned floats rows.rows ds
            × (candle (pos 10) ∷ candle (pos 30) ∷ [] ≡ reverse ds)))
load_latest_result_test =
    load_latest_result floats true query btc min1 (pos 5) (candle (pos 10) ∷ candle (pos 30) ∷ [])
      loaded_two

map-some_inj :
    (xs ys : List (CandleRecord Text)) → map (λ r. some r) xs ≡ map (λ r. some r) ys → xs ≡ ys
map-some_inj [] [] e = refl
map-some_inj [] (y ∷ ys) e = cc
map-some_inj (x ∷ xs) [] e = cc
map-some_inj (x ∷ xs) (y ∷ ys) e = cons-eq (map-some_inj xs ys tail) head
  where
    tail : map (λ r. some r) xs ≡ map (λ r. some r) ys
    tail = cc

    head : x ≡ y
    head = cc

    cons-eq : xs ≡ ys → x ≡ y → x ∷ xs ≡ y ∷ ys
    cons-eq p q = cc

two_rows-IsDescending :
    (rows : LatestRows Text)
    → query btc min1 (pos 5) ≡ some rows
    → (ds : List Candle) → IsScanned floats rows.rows ds
    → IsDescending ds
two_rows-IsDescending rows e ds read =
    subst IsDescending (sym (read.converted ∙ ap (map (candle_of floats)) two)) descending
  where
    two : read.records ≡ record_at (pos 30) ∷ record_at (pos 10) ∷ []
    two =
        map-some_inj read.records (record_at (pos 30) ∷ record_at (pos 10) ∷ [])
          (sym read.all_scanned ∙ rows_of e)
      where
        rows_of : some two_rows ≡ some rows → rows.rows ≡ two_rows.rows
        rows_of e = cc

    descending :
        IsDescending (map (candle_of floats) (record_at (pos 30) ∷ record_at (pos 10) ∷ []))
    descending = unfold candle_of in omega arith

load_latest-IsSorted_test : IsSorted (candle (pos 10) ∷ candle (pos 30) ∷ [])
load_latest-IsSorted_test =
    load_latest-IsSorted floats true query btc min1 (pos 5) (candle (pos 10) ∷ candle (pos 30) ∷ [])
      loaded_two two_rows-IsDescending

-- The second statement fails: New has executed the first, and closes its pool.
new_db_test :
    new_db true true
      (λ s. elim s [ klines_table ↦ true | hypertable ↦ false | klines_index ↦ true ])
    ≡ record {
      pool_open = false;
      executed = klines_table ∷ [];
      error = some (migrate_error (statement_error hypertable));
    }
unfolding new_db migrate
new_db_test = refl
