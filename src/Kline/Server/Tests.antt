-- ===== src/Kline/Server/Tests.antt =====
-- Tests of kline/cmd/server/main.go, and the theorems at inputs.
use mathlib.Core.Quot
use mathlib.Core.List.Perm
use mathlib.Core.List.{cons-ne-nil}
use fidorix.Base.{
  subst, ◌≡◌, ◌≢◌, refl, ◌⊎◌, Bool, true, false, none, some, List, [], ◌∷◌, All, ℤ, Text, codes,
  text_eq, CaseTables, Disk, Result, ok, strings,
}
use fidorix.Kline.Candle.{Candle}
use fidorix.Kline.Candle.Place.{IsSorted}
use fidorix.Kline.Candle.Tests.{two_bars, two_bars-IsSorted}
use fidorix.Kline.Symbol.{to_mexc}
use fidorix.Kline.Store.{CandleFile, Entry, Store, new_full, key_for, get_dirty, store}
use fidorix.Kline.Store.Tests.{btc, min1, two_file}
use fidorix.Kline.Store.Invariant.{IsValid, new_full-IsValid}
use fidorix.Kline.Files.Tests.{identity}
use fidorix.Kline.Db.{DbError}
use fidorix.Kline.Ws.Manager.{subscriptions_of, new_manager}
use fidorix.Kline.Ws.Manager.Shards.{carried}
use fidorix.Kline.Ws.Manager.Tests.{settings}
use fidorix.Kline.Config.{missing}
use fidorix.Kline.Config.Tests.{no_duration, with_symbols, expected, load-expected}
use fidorix.Kline.Rest.Bootstrap.Tests.{env}
use fidorix.Kline.Rest.Workers.{bootstrap_result}
use fidorix.Kline.Rest.Schedule.{run_schedule}
use fidorix.Kline.Server.Ranging.{batch, ranged-eq}
use fidorix.Kline.Server.Startup.{World, serving, preloaded, start}
use fidorix.Kline.Server.Serving.{start-serving}
use fidorix.Kline.Server.{
  level_of, info, ensure_interval_dirs, make_dirs, load_intervals, load_symbols,
  preload_existing_files, preload_latest_from_db, count_candles, kept_dropped, sort_strings,
  symbols_with_bootstrap_data,
}
use fidorix.Kline.Server.Preload.{IsKnown, preload-IsKnown, preload_latest_from_db-IsValid}
use fidorix.Kline.Server.Kept.{
  filtered, has_data, symbols_with_bootstrap_data_result, carried-IsKnown,
}

server : Unit {0}
unfolding strings store to_mexc level_of make_dirs ensure_interval_dirs load_intervals load_symbols
    preload_latest_from_db count_candles kept_dropped sort_strings symbols_with_bootstrap_data
server = tt

abbrev no_files : Disk CandleFile
no_files p = none

-- The database has candles of one pair.
abbrev latest_if : Bool → Result DbError (List Candle)
latest_if true = ok two_bars
latest_if false = ok []

abbrev latest : Text → Text → ℤ → Result DbError (List Candle)
latest symbol interval limit = latest_if (text_eq symbol (codes "BTC_USDT"))

latest_if-IsSorted : (b : Bool) (cs : List Candle) → latest_if b ≡ ok cs → IsSorted cs
latest_if-IsSorted true cs e = subst IsSorted same two_bars-IsSorted
  where
    same : two_bars ≡ cs
    same = cc
latest_if-IsSorted false cs e = subst IsSorted same tt
  where
    same : [] ≡ cs
    same = cc

abbrev latest_store : Store
latest_store = preload_latest_from_db latest settings (new_full true false)

abbrev ascii : CaseTables
ascii = record { upper = λ c. c; lower = λ c. c }

server_tests :
    (level_of ascii (codes " INFO ") ≡ some info)
    × (level_of ascii (codes "loud") ≡ none)
    × (count_candles latest_store ≡ 4)
    × (symbols_with_bootstrap_data settings latest_store
        ≡ (codes "BTCUSDT" ∷ [], codes "ETHUSDT" ∷ []))
unfolding server
server_tests = (refl, refl, refl, refl)

preload-IsKnown_test :
    All
      (IsKnown
        (preload_existing_files identity (λ p. true) no_files settings (new_full true false)))
      (subscriptions_of settings.symbols settings.intervals)
    × All (IsKnown latest_store) (subscriptions_of settings.symbols settings.intervals)
preload-IsKnown_test =
    preload-IsKnown identity (λ p. true) no_files latest settings (new_full true false)

some_symbol : settings.symbols ≢ []
some_symbol = cons-ne-nil (codes "BTCUSDT") (codes "ETHUSDT" ∷ [])

symbols_with_bootstrap_data_result_test :
    ((symbols_with_bootstrap_data settings latest_store).0 ≢ [])
    × (((symbols_with_bootstrap_data settings latest_store).0
          ≡ filtered (has_data latest_store) settings.symbols)
        ⊎ ((filtered (has_data latest_store) settings.symbols ≡ [])
            × ((symbols_with_bootstrap_data settings latest_store).0 ≡ settings.symbols)))
symbols_with_bootstrap_data_result_test =
    symbols_with_bootstrap_data_result settings latest_store some_symbol

carried-IsKnown_test : All (IsKnown latest_store) (
    carried (
      new_manager
        (record settings { symbols = (symbols_with_bootstrap_data settings latest_store).0 })))
carried-IsKnown_test =
    carried-IsKnown settings latest_store some_symbol
      (preload-IsKnown identity (λ p. true) no_files latest settings (new_full true false)).1

latest-IsSorted :
    (symbol interval : Text) (limit : ℤ) (cs : List Candle)
    → latest symbol interval limit ≡ ok cs
    → IsSorted cs
latest-IsSorted symbol interval limit cs e =
    latest_if-IsSorted (text_eq symbol (codes "BTC_USDT")) cs e

preload_latest_from_db-IsValid_test : IsValid latest_store
preload_latest_from_db-IsValid_test =
    preload_latest_from_db-IsValid latest settings (new_full true false) latest-IsSorted
      (new_full-IsValid true false)

-- Two entries, of which the second has no candles, in both orders.
abbrev btc_entry : Text × Entry
btc_entry = (key_for btc min1, record { key = key_for btc min1; file = two_file; dirty = true })

abbrev eth_entry : Text × Entry
eth_entry = (
  key_for (codes "ETH_USDT") min1,
  record {
    key = key_for (codes "ETH_USDT") min1;
    file = record two_file { symbol = codes "ETH_USDT"; candles = some [] };
    dirty = true;
  },
)

abbrev ranged : Text × Entry → Text × Entry → Store
ranged a b = record { entries = a ∷ b ∷ []; has_db = false; has_redis = false }

ranged-eq_example :
    (symbols_with_bootstrap_data settings (ranged btc_entry eth_entry)
      ≡ symbols_with_bootstrap_data settings (ranged eth_entry btc_entry))
    × (count_candles (ranged btc_entry eth_entry) ≡ count_candles (ranged eth_entry btc_entry))
    × (batch (get_dirty (ranged btc_entry eth_entry))
        ≡ batch (get_dirty (ranged eth_entry btc_entry)))
ranged-eq_example =
    ranged-eq settings (ranged btc_entry eth_entry) (ranged eth_entry btc_entry)
      (Quot.sound (Perm.swap eth_entry btc_entry []))

-- There is no database, no file, and no error.
abbrev bare_world : World CandleFile
bare_world = record {
  case_tables = ascii;
  parse_duration = no_duration;
  dotenv = λ e. missing;
  environment = with_symbols (codes "-3");
  makes_dir = λ dir. true;
  opens_db = λ dsn. false;
  readable = λ path. true;
  disk = no_files;
  load_latest = latest;
}

abbrev bare_store : Store
bare_store = preloaded identity bare_world expected

bare_start :
    start identity bare_world (λ n. env) [] false
    ≡ serving
        (record expected { symbols = (symbols_with_bootstrap_data expected bare_store).0 })
        bare_store
unfolding start run_schedule bootstrap_result level_of make_dirs ensure_interval_dirs strings
bare_start = rw load-expected

start-serving_example :
    ((symbols_with_bootstrap_data expected bare_store).0 ≢ [])
    × All (IsKnown bare_store) (
        carried (
          new_manager
            (record expected { symbols = (symbols_with_bootstrap_data expected bare_store).0 })))
start-serving_example =
    start-serving identity bare_world (λ n. env) [] false
      (record expected { symbols = (symbols_with_bootstrap_data expected bare_store).0 }) bare_store
      bare_start
