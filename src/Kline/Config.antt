-- ===== src/Kline/Config.antt =====
-- kline/internal/config/config.go: the settings, from the environment. `godotenv.Load`, which may
-- add variables, and time.ParseDuration (to nanoseconds) are arguments.
pub mod Symbols
pub mod Loading
pub mod Intervals
pub mod Tests
use fidorix.Base.{
  ℕ, ◌*◌, Bool, true, false, Option, none, some, List, [], ◌∷◌, ◌==◌, if◌then◌else◌, length, ℤ, pos,
  negsuc, ◌*ℤ◌, wrap64, leb_ℤ, Text, codes, is_empty, trim_space, split, CaseTables, to_lower,
  Assoc, lookup, Result, ok, err, ◌>>=◌, atoi,
}

abbrev pub intervals : List Text
intervals =
    codes "Min1"
    ∷ codes "Min5"
    ∷ codes "Min15"
    ∷ codes "Min30"
    ∷ codes "Min60"
    ∷ codes "Hour4"
    ∷ codes "Hour8"
    ∷ codes "Day1"
    ∷ codes "Week1"
    ∷ codes "Month1"
    ∷ []

abbrev pub interval_table : Assoc ℤ
interval_table =
    (codes "Min1", pos 60)
    ∷ (codes "Min5", pos 300)
    ∷ (codes "Min15", pos 900)
    ∷ (codes "Min30", pos 1800)
    ∷ (codes "Min60", pos 3600)
    ∷ (codes "Hour4", pos 14400)
    ∷ (codes "Hour8", pos 28800)
    ∷ (codes "Day1", pos 86400)
    ∷ (codes "Week1", pos 604800)
    ∷ (codes "Month1", pos 2592000)
    ∷ []

-- `none` is the error of an unsupported interval.
unfoldable pub interval_seconds : Text → Option ℤ
interval_seconds interval = lookup interval interval_table

-- Durations are in nanoseconds.
pub record Config : Type 0 where
  pub symbols : List Text
  pub kline_dir : Text
  pub bootstrap_limit : ℤ
  pub ws_ping_interval : ℤ
  pub rest_throttle : ℤ
  pub bootstrap_workers : ℤ
  pub log_level : Text
  pub shard_size : ℤ
  pub timescale_dsn : Text
  pub redis_addr : Text
  pub redis_password : Text
  pub redis_db : ℤ
  pub intervals : List Text

unfoldable pub subscription_count : Config → ℕ
subscription_count c = length c.symbols * length c.intervals

-- The environment: `none` is a variable that is not set.
abbrev pub Environment : Type 0
Environment = Text → Option Text

abbrev pub value_or_empty : Option Text → Text
value_or_empty none = []
value_or_empty (some v) = v

-- os.Getenv
abbrev pub getenv : Environment → Text → Text
getenv env key = value_or_empty (env key)

pub data ConfigError : Type 0 where
  dotenv_error : ConfigError
  no_symbols : ConfigError
  invalid : Text → ConfigError

abbrev pub add_part : Text → List Text → List Text
add_part s out = if is_empty s then out else s ∷ out

-- The loop of parseSymbols over the parts.
unfoldable pub clean_symbols : List Text → List Text
clean_symbols [] = []
clean_symbols (part ∷ parts) = add_part (trim_space part) (clean_symbols parts)

unfoldable pub parse_symbols : Text → List Text
parse_symbols raw = clean_symbols (split raw b',')

abbrev pub int_value : Text → Option ℤ → Result ConfigError ℤ
int_value key none = err (invalid key)
int_value key (some v) = ok v

unfoldable pub int_from_env : Environment → Text → ℤ → Result ConfigError ℤ
int_from_env env key fallback =
    let raw = trim_space (getenv env key) in
    if is_empty raw then ok fallback else int_value key (atoi raw)

unfoldable pub int_from_env_keys : Environment → List Text → ℤ → Result ConfigError ℤ
int_from_env_keys env [] fallback = ok fallback
int_from_env_keys env (key ∷ keys) fallback =
    let raw = trim_space (getenv env key) in
    let later = int_from_env_keys env keys fallback in
    if is_empty raw then later else int_value key (atoi raw)

abbrev pub second : ℤ
second = pos 1000000000

abbrev pub millisecond : ℤ
millisecond = pos 1000000

abbrev pub duration_value : Text → Text → Option ℤ → Result ConfigError ℤ
duration_value key raw (some d) = ok d
duration_value key raw none =
    int_value key (atoi raw) >>= λ seconds. ok (wrap64 (seconds *ℤ second))

unfoldable pub duration_from_env : (Text → Option ℤ) → Environment → Text → ℤ → Result ConfigError ℤ
duration_from_env parse_duration env key fallback =
    let raw = trim_space (getenv env key) in
    if is_empty raw then ok fallback else duration_value key raw (parse_duration raw)

abbrev pub trimmed_or : Text → Option Text → Text
trimmed_or fallback none = fallback
trimmed_or fallback (some raw) = trim_space raw

unfoldable pub env_with_default_allow_empty : Environment → Text → Text → Text
env_with_default_allow_empty env key fallback = trimmed_or fallback (env key)

abbrev pub text_or : Text → Text → Text
text_or s fallback = if is_empty s then fallback else s

abbrev pub at_least_one : ℤ → ℤ → ℤ
at_least_one n fallback = if leb_ℤ n (pos 0) then fallback else n

abbrev pub required : List Text → Result ConfigError (List Text)
required [] = err no_symbols
required (s ∷ ss) = ok (s ∷ ss)

-- Load behind godotenv.
unfoldable pub load_env : CaseTables → (Text → Option ℤ) → Environment → Result ConfigError Config
load_env u parse_duration env = do
  symbols ← required (parse_symbols (getenv env (codes "SYMBOLS")))
  limit ← int_from_env env (codes "BOOTSTRAP_LIMIT") (pos 2000)
  ping ← duration_from_env parse_duration env (codes "WS_PING_INTERVAL") (wrap64 (pos 15 *ℤ second))
  throttle ← int_from_env env (codes "REST_THROTTLE_MS") (pos 100)
  workers ← int_from_env env (codes "BOOTSTRAP_WORKERS") (pos 5)
  shard ← int_from_env_keys env (codes "SHARD_SIZE" ∷ codes "WS_SHARD_SIZE" ∷ []) (pos 50)
  redis_db ← int_from_env env (codes "REDIS_DB") (pos 0)
  ok (record {
    symbols = symbols;
    kline_dir = text_or (trim_space (getenv env (codes "KLINE_DIR"))) (codes "./kline");
    bootstrap_limit = limit;
    ws_ping_interval = ping;
    rest_throttle = wrap64 (throttle *ℤ millisecond);
    bootstrap_workers = at_least_one workers (pos 1);
    log_level = to_lower u (text_or (trim_space (getenv env (codes "LOG_LEVEL"))) (codes "info"));
    shard_size = at_least_one shard (pos 50);
    timescale_dsn = trim_space (getenv env (codes "TIMESCALE_DSN"));
    redis_addr = env_with_default_allow_empty env (codes "REDIS_ADDR") (codes "redis:6379");
    redis_password = trim_space (getenv env (codes "REDIS_PASSWORD"));
    redis_db = redis_db;
    intervals = intervals;
  })

-- What godotenv.Load did: the environment behind it, no .env file, or another error.
pub data Dotenv : Type 0 where
  loaded : Environment → Dotenv
  missing : Dotenv
  failed : Dotenv

unfoldable pub load :
    CaseTables
    → (Text → Option ℤ)
    → (Environment → Dotenv)
    → Environment
    → Result ConfigError Config
load u parse_duration dotenv env = elim (dotenv env) [
  | loaded env' ↦ load_env u parse_duration env'
  | missing ↦ load_env u parse_duration env
  | failed ↦ err dotenv_error
]
