-- ===== src/Kline/Server/Preload.antt =====
-- The preloads: every pair of the settings is in the store behind them, so that the stream can
-- update it.
use fidorix.Base.{
  pos, ◌≡◌, refl, Bool, true, List, [], ◌∷◌, map, arith, elems, All, All-append, All-imp, ℤ, Text,
  Codec, Disk, Result, ok, err, lookup-insert,
}
use fidorix.Kline.Candle.{Candle}
use fidorix.Kline.Candle.Place.{IsSorted}
use fidorix.Kline.Symbol.{to_mexc}
use fidorix.Kline.Config.{Config}
use fidorix.Kline.Store.{CandleFile, Store, key_for, load, has}
use fidorix.Kline.Store.Invariant.{IsValid, load-IsValid}
use fidorix.Kline.Store.View.{find-load}
use fidorix.Kline.Db.{DbError}
use fidorix.Kline.Rest.Bootstrap.{limit_or_default}
use fidorix.Kline.Ws.Conn.{Subscription}
use fidorix.Kline.Ws.Manager.{subscription, subscriptions_of}
use fidorix.Kline.Server.{
  load_intervals, load_symbols, preload_existing_files, candles_or_nil, preload_latest_from_db,
}

-- The store has the pair of a subscription.
abbrev pub IsKnown : Store → Subscription → Type 0
IsKnown s sub = has s sub.symbol sub.interval ≡ true

pub load-IsKnown :
    (s : Store) (symbol interval : Text) (cf : CandleFile) (sub : Subscription)
    → IsKnown s sub
    → IsKnown (load s symbol interval cf) sub
unfolding load has
load-IsKnown s symbol interval cf sub h =
    rw (lookup-insert (key_for symbol interval) (key_for sub.symbol sub.interval) _ s.entries)
      (ground arith)

load_intervals-IsKnown :
    (file_of : Text → CandleFile) (wire : Text) (intervals : List Text) (s : Store)
    (sub : Subscription)
    → IsKnown s sub
    → IsKnown (load_intervals file_of wire intervals s) sub
unfolding load_intervals
load_intervals-IsKnown file_of wire [] s sub h = h
load_intervals-IsKnown file_of wire (i ∷ is) s sub h =
    load_intervals-IsKnown file_of wire is _ sub (load-IsKnown s wire i (file_of i) sub h)

load_symbols-IsKnown :
    (file_of : Text → Text → CandleFile) (symbols intervals : List Text) (s : Store)
    (sub : Subscription)
    → IsKnown s sub
    → IsKnown (load_symbols file_of symbols intervals s) sub
unfolding load_symbols
load_symbols-IsKnown file_of [] intervals s sub h = h
load_symbols-IsKnown file_of (y ∷ ys) intervals s sub h =
    load_symbols-IsKnown file_of ys intervals _ sub
      (load_intervals-IsKnown (file_of y) (to_mexc y) intervals s sub h)

load_intervals-All :
    (file_of : Text → CandleFile) (wire : Text) (intervals : List Text) (s : Store)
    → All (IsKnown (load_intervals file_of wire intervals s)) (map (subscription wire) intervals)
unfolding load_intervals
load_intervals-All file_of wire [] s = tt
load_intervals-All file_of wire (i ∷ is) s = (
  load_intervals-IsKnown file_of wire is (load s wire i (file_of i)) (subscription wire i)
      (find-load s wire i (file_of i) (pos 0)).0,
  load_intervals-All file_of wire is (load s wire i (file_of i)),
)

load_symbols-All :
    (file_of : Text → Text → CandleFile) (symbols intervals : List Text) (s : Store)
    → All (IsKnown (load_symbols file_of symbols intervals s)) (subscriptions_of symbols intervals)
unfolding load_symbols subscriptions_of
load_symbols-All file_of [] intervals s = tt
load_symbols-All file_of (y ∷ ys) intervals s =
    let first = load_intervals (file_of y) (to_mexc y) intervals s in
    All-append (IsKnown (load_symbols file_of ys intervals first))
      (map (subscription (to_mexc y)) intervals) (subscriptions_of ys intervals)
      (All-imp (IsKnown first) (IsKnown (load_symbols file_of ys intervals first)) _
        (λ sub h. load_symbols-IsKnown file_of ys intervals first sub h)
        (load_intervals-All (file_of y) (to_mexc y) intervals s))
      (load_symbols-All file_of ys intervals first)

-- Behind the preload from files, whatever can be read of them, and behind that from the database,
-- whatever it answers, the store has the pair of every subscription of the settings.
pub preload-IsKnown :
    {B : Type 0} (json : Codec CandleFile B) (readable : Text → Bool) (disk : Disk B)
    (load_latest : Text → Text → ℤ → Result DbError (List Candle)) (cfg : Config) (s : Store)
    → All
        (IsKnown (preload_existing_files json readable disk cfg s))
        (subscriptions_of cfg.symbols cfg.intervals)
      × All
          (IsKnown (preload_latest_from_db load_latest cfg s))
          (subscriptions_of cfg.symbols cfg.intervals)
unfolding preload_existing_files preload_latest_from_db
preload-IsKnown json readable disk load_latest cfg s =
    (load_symbols-All _ cfg.symbols cfg.intervals s, load_symbols-All _ cfg.symbols cfg.intervals s)

load_intervals-IsValid :
    (file_of : Text → CandleFile) (wire : Text) (intervals : List Text) (s : Store)
    → ((interval : Text) → IsSorted (elems (file_of interval).candles))
    → IsValid s
    → IsValid (load_intervals file_of wire intervals s)
unfolding load_intervals
load_intervals-IsValid file_of wire [] s sorted h = h
load_intervals-IsValid file_of wire (i ∷ is) s sorted h =
    load_intervals-IsValid file_of wire is _ sorted (load-IsValid s wire i (file_of i) h (sorted i))

pub load_symbols-IsValid :
    (file_of : Text → Text → CandleFile) (symbols intervals : List Text) (s : Store)
    → ((symbol interval : Text) → IsSorted (elems (file_of symbol interval).candles))
    → IsValid s
    → IsValid (load_symbols file_of symbols intervals s)
unfolding load_symbols
load_symbols-IsValid file_of [] intervals s sorted h = h
load_symbols-IsValid file_of (y ∷ ys) intervals s sorted h =
    load_symbols-IsValid file_of ys intervals _ sorted
      (load_intervals-IsValid (file_of y) (to_mexc y) intervals s (sorted y) h)

-- If LoadLatest gives ascending candles wherever it does not fail, the store that is preloaded from
-- the database is valid.
pub preload_latest_from_db-IsValid :
    (load_latest : Text → Text → ℤ → Result DbError (List Candle)) (cfg : Config) (s : Store)
    → ((symbol interval : Text) (limit : ℤ) (cs : List Candle)
        → load_latest symbol interval limit ≡ ok cs
        → IsSorted cs)
    → IsValid s
    → IsValid (preload_latest_from_db load_latest cfg s)
unfolding preload_latest_from_db
preload_latest_from_db-IsValid load_latest cfg s sorted h =
    load_symbols-IsValid _ cfg.symbols cfg.intervals s
      (λ symbol interval.
        of_answer (to_mexc symbol) interval
          (load_latest (to_mexc symbol) interval (limit_or_default cfg.bootstrap_limit)) refl)
      h
  where
    of_answer :
        (symbol interval : Text) (r : Result DbError (List Candle))
        → load_latest symbol interval (limit_or_default cfg.bootstrap_limit) ≡ r
        → IsSorted (elems (candles_or_nil r))
    of_answer symbol interval (ok cs) e = sorted symbol interval _ cs e
    of_answer symbol interval (err x) e = tt
