-- ===== src/Kline/Config/Tests.antt =====
-- Tests of kline/internal/config/config.go, and the theorems at inputs.
use fidorix.Base.{
  ◌≡◌, ◌≢◌, refl, Option, none, some, [], ◌∷◌, if◌then◌else◌, arith, All, ℤ, pos, ◌*ℤ◌, wrap64,
  Text, codes, text_eq, CaseTables, ok, err, strings, atoi, natural, digits_from,
}
use fidorix.Kline.Config.{
  Config, Environment, missing, parse_symbols, clean_symbols, int_from_env, int_from_env_keys,
  duration_from_env, env_with_default_allow_empty, load_env, load, intervals, invalid,
}
use fidorix.Kline.Config.Symbols.{IsSymbol, parse_symbols-IsSymbol, parse_symbols-listed}
use fidorix.Kline.Config.Loading.{IsUsable, load-IsUsable}

unfoldable pub config : Unit {0}
unfolding strings atoi natural digits_from wrap64 ◌*ℤ◌ clean_symbols parse_symbols int_from_env
    int_from_env_keys duration_from_env env_with_default_allow_empty load_env load
config = tt

abbrev pub ascii : CaseTables
ascii = record { upper = λ c. c; lower = λ c. c }

-- No text is a duration.
abbrev pub no_duration : Text → Option ℤ
no_duration s = none

abbrev pub with_symbols : Text → Environment
with_symbols workers = λ key.
    if text_eq key (codes "SYMBOLS")
    then some (codes " BTCUSDT,ETHUSDT ")
    else if text_eq key (codes "BOOTSTRAP_WORKERS")
    then some workers
    else none

abbrev pub expected : Config
expected = record {
  symbols = codes "BTCUSDT" ∷ codes "ETHUSDT" ∷ [];
  kline_dir = codes "./kline";
  bootstrap_limit = pos 2000;
  ws_ping_interval = pos 15000000000;
  rest_throttle = pos 100000000;
  bootstrap_workers = pos 1;
  log_level = codes "info";
  shard_size = pos 50;
  timescale_dsn = [];
  redis_addr = codes "redis:6379";
  redis_password = [];
  redis_db = pos 0;
  intervals = intervals;
}

pub load-expected : load ascii no_duration (λ e. missing) (with_symbols (codes "-3")) ≡ ok expected
unfolding config
load-expected = refl

load-invalid :
    load ascii no_duration (λ e. missing) (with_symbols (codes "x"))
    ≡ err (invalid (codes "BOOTSTRAP_WORKERS"))
unfolding config
load-invalid = refl

load-IsUsable_example : IsUsable expected
load-IsUsable_example =
    load-IsUsable ascii no_duration (λ e. missing) (with_symbols (codes "-3")) expected
      load-expected

parse_symbols-IsSymbol_test : All IsSymbol (parse_symbols (codes " BTCUSDT,ETHUSDT "))
parse_symbols-IsSymbol_test = parse_symbols-IsSymbol (codes " BTCUSDT,ETHUSDT ")

two_symbols : All IsSymbol (codes "BTC" ∷ codes "ETH" ∷ [])
unfolding config
two_symbols = ground arith

parse_symbols-listed_test : parse_symbols (codes "BTC,ETH") ≡ codes "BTC" ∷ codes "ETH" ∷ []
parse_symbols-listed_test =
    parse_symbols-listed (codes "BTC" ∷ codes "ETH" ∷ []) (λ e. cons-ne e) two_symbols
  where
    cons-ne : codes "BTC" ∷ codes "ETH" ∷ [] ≢ []
    cons-ne e = cc
