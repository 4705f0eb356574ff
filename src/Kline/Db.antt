-- ===== src/Kline/Db.antt =====
-- kline/internal/db: timescale.go and timescale_convert.go. A time.Time is its second; float64 is a
-- parameter with strconv.ParseFloat and strconv.FormatFloat; what the pool answers to a call is an
-- argument, so that an error of it is a value here.
pub mod Reversal
pub mod Latest
pub mod Batch
pub mod Opening
pub mod Tests
use fidorix.Base.{
  ℕ, zero, suc, ◌+◌, ◌-◌, Bool, true, false, Option, none, some, List, [], ◌∷◌, ltb, if◌then◌else◌,
  length, get_elem?, set, ℤ, pos, leb_ℤ, Text, codes, Result, ok, err, ◌>>=◌,
}
use fidorix.Kline.Candle.{Candle}

pub record CandleRecord (F : Type 0) : Type 0 where
  pub symbol : Text
  pub interval : Text
  pub open_time : ℤ
  pub open_price : F
  pub high : F
  pub low : F
  pub close_price : F
  pub volume : F
  pub amount : F

pub data DbError : Type 0 where
  not_initialized : DbError
  bad_numeric : Text → Text → DbError
  batch_error : DbError
  query_error : DbError
  scan_error : DbError
  rows_error : DbError

pub record Floats (F : Type 0) : Type 0 where
  pub parse_float : Text → Option F
  pub format_float : F → Text

-- One row as Scan meets it: none where it fails.
pub record LatestRows (F : Type 0) : Type 0 where
  pub rows : List (Option (CandleRecord F))
  pub err_at_end : Bool

abbrev pub numeric : {F : Type 0} → Text → Text → Option F → Result DbError F
numeric name raw none = err (bad_numeric name raw)
numeric name raw (some v) = ok v

module _ {F : Type 0} (fl : Floats F) where
  unfoldable pub parse_numeric : Text → Text → Result DbError F
  parse_numeric name raw = numeric name raw (fl.parse_float raw)

  unfoldable pub to_record : Text → Text → Candle → Result DbError (CandleRecord F)
  to_record symbol interval candle = do
    open_price ← parse_numeric (codes "open") candle.o
    high ← parse_numeric (codes "high") candle.h
    low ← parse_numeric (codes "low") candle.l
    close_price ← parse_numeric (codes "close") candle.c
    volume ← parse_numeric (codes "volume") candle.v
    amount ← parse_numeric (codes "amount") candle.a
    ok (record {
      symbol = symbol;
      interval = interval;
      open_time = candle.t;
      open_price = open_price;
      high = high;
      low = low;
      close_price = close_price;
      volume = volume;
      amount = amount;
    })

  -- The loop that queues the batch.
  unfoldable pub queued : Text → Text → List Candle → Result DbError (List (CandleRecord F))
  queued symbol interval [] = ok []
  queued symbol interval (c ∷ cs) = do
    rec ← to_record symbol interval c
    recs ← queued symbol interval cs
    ok (rec ∷ recs)

  -- The candle of a row.
  unfoldable pub candle_of : CandleRecord F → Candle
  candle_of r = record {
    t = r.open_time;
    o = fl.format_float r.open_price;
    h = fl.format_float r.high;
    l = fl.format_float r.low;
    c = fl.format_float r.close_price;
    v = fl.format_float r.volume;
    a = fl.format_float r.amount;
    q = [];
    ro = [];
    rc = [];
    rh = [];
    rl = [];
  }

  -- The loop over rows.Next().
  unfoldable pub scanned : List (Option (CandleRecord F)) → Result DbError (List Candle)
  scanned [] = ok []
  scanned (none ∷ rows) = err scan_error
  scanned (some r ∷ rows) = scanned rows >>= λ cs. ok (candle_of r ∷ cs)

-- Whether each results.Exec() succeeds; where the answers run out, it does.
abbrev pub executed : ℕ → List Bool → Result DbError Unit
executed zero answers = ok tt
executed (suc n) [] = ok tt
executed (suc n) (true ∷ answers) = executed n answers
executed (suc n) (false ∷ answers) = err batch_error

-- What was sent to the pool, and the result.
abbrev pub sent_batch :
    {F : Type 0}
    → ℕ
    → List Bool
    → Result DbError (List (CandleRecord F))
    → List (CandleRecord F) × Result DbError Unit
sent_batch n answers (err e) = ([], err e)
sent_batch n answers (ok recs) = (recs, executed n answers)

-- `ready` is false where the database or its pool is nil.
unfoldable pub upsert_batch :
    {F : Type 0}
    → Floats F
    → Bool
    → List Bool
    → Text
    → Text
    → List Candle
    → List (CandleRecord F) × Result DbError Unit
upsert_batch fl ready answers symbol interval [] =
    if ready then ([], ok tt) else ([], err not_initialized)
upsert_batch fl ready answers symbol interval (c ∷ cs) =
    if ready
    then sent_batch (length (c ∷ cs)) answers (queued fl symbol interval (c ∷ cs))
    else ([], err not_initialized)

-- candles[i], candles[j] = candles[j], candles[i], with both indexes in range
abbrev pub swapped : List Candle → ℕ → ℕ → Option Candle → Option Candle → List Candle
swapped cs i j (some a) (some b) = set (set cs i b) j a
swapped cs i j _ _ = cs

unfoldable pub reverse_from : ℕ → List Candle → ℕ → ℕ → List Candle
reverse_from zero cs i j = cs
reverse_from (suc fuel) cs i j =
    let rest =
      reverse_from fuel (swapped cs i j (get_elem? cs i) (get_elem? cs j)) (i + 1) (j - 1) in
    if ltb i j then rest else cs

-- As many rounds as there are candles are enough. On the empty slice `j` is -1 in the source and 0
-- here, and there is no round either way.
unfoldable pub reverse_candles : List Candle → List Candle
reverse_candles cs = reverse_from (length cs) cs 0 (length cs - 1)

abbrev pub iterated : Bool → List Candle → Result DbError (List Candle)
iterated true cs = err rows_error
iterated false cs = ok (reverse_candles cs)

abbrev pub read_rows :
    {F : Type 0} → Floats F → Option (LatestRows F) → Result DbError (List Candle)
read_rows fl none = err query_error
read_rows fl (some r) = scanned fl r.rows >>= iterated r.err_at_end

unfoldable pub load_latest :
    {F : Type 0}
    → Floats F
    → Bool
    → (Text → Text → ℤ → Option (LatestRows F))
    → Text
    → Text
    → ℤ
    → Result DbError (List Candle)
load_latest fl ready query symbol interval limit =
    if ready
    then (if leb_ℤ limit (pos 0) then ok [] else read_rows fl (query symbol interval limit))
    else err not_initialized
