-- ===== src/Orderbook/Config.antt =====
-- orderbook/internal/config/config.go: Load and its validation. `godotenv.Load`, which may add
-- variables, is an argument; strconv.Itoa of the default numbers is written out.
pub mod Settings
pub mod Output
pub mod Tests
use fidorix.Base.{
  ℕ, Bool, true, false, ◌&&◌, ◌||◌, not, Option, none, some, List, [], ◌∷◌, if◌then◌else◌, ℤ, pos,
  ltb_ℤ, Text, codes, text_eq, is_empty, trim_space, split, member, CaseTables, to_upper, to_lower,
  Result, ok, err, ◌>>=◌, atoi,
}
use fidorix.Kline.Config.{Environment, getenv}

pub data Level : Type 0 where
  debug : Level
  info : Level
  warn : Level
  error : Level

pub record Config : Type 0 where
  pub symbols : List Text
  pub depth_limit : ℤ
  pub update_interval : Text
  pub output_path : Text
  pub log_level : Level
  pub log_level_text : Text
  pub snapshot_flush_ms : ℤ
  pub ping_interval_sec : ℤ
  pub reconnect_delay_sec : ℤ
  pub max_reconnect_delay_sec : ℤ
  pub rest_base_url : Text
  pub ws_base_url : Text
  pub redis_addr : Text
  pub redis_password : Text
  pub redis_db : ℤ

pub data LoadError : Type 0 where
  dotenv_error : LoadError
  no_symbols : LoadError
  not_an_integer : Text → LoadError
  out_of_range : Text → LoadError
  bad_interval : LoadError
  bad_level : LoadError
  empty_value : Text → LoadError

unfoldable pub get_env : Environment → Text → Text → Text
get_env env key fallback =
    let value = trim_space (getenv env key) in if is_empty value then fallback else value

abbrev pub trimmed_or : Text → Option Text → Text
trimmed_or fallback none = fallback
trimmed_or fallback (some raw) = trim_space raw

unfoldable pub get_env_with_default_allow_empty : Environment → Text → Text → Text
get_env_with_default_allow_empty env key fallback = trimmed_or fallback (env key)

abbrev pub int_value : Text → Option ℤ → Result LoadError ℤ
int_value name none = err (not_an_integer name)
int_value name (some v) = ok v

unfoldable pub parse_int : Text → Text → Result LoadError ℤ
parse_int name raw = int_value name (atoi (trim_space raw))

unfoldable pub parse_log_level : Text → Result LoadError Level
parse_log_level level =
    if text_eq level (codes "debug")
    then ok debug
    else if text_eq level (codes "info")
    then ok info
    else if text_eq level (codes "warn")
    then ok warn
    else if text_eq level (codes "error")
    then ok error
    else err bad_level

-- The loop over the parts; `seen` are the keys of the map `unique`.
unfoldable pub unique_symbols : CaseTables → List Text → List Text → List Text
unique_symbols u [] seen = []
unique_symbols u (part ∷ parts) seen =
    let symbol = to_upper u (trim_space part) in
    let fresh = not (is_empty symbol || member symbol seen) in
    let rest = unique_symbols u parts (if fresh then symbol ∷ seen else seen) in
    if fresh then symbol ∷ rest else rest

unfoldable pub parse_symbols : CaseTables → Text → List Text
parse_symbols u raw = unique_symbols u (split raw b',') []

abbrev pub require : Bool → LoadError → Result LoadError Unit
require true e = ok tt
require false e = err e

abbrev pub is_some_symbol : List Text → Bool
is_some_symbol [] = false
is_some_symbol (s ∷ ss) = true

-- A number of the environment with its default.
abbrev pub number_of : Environment → Text → Text → Result LoadError ℤ
number_of env key fallback = parse_int key (get_env env key fallback)

abbrev pub is_interval : Text → Bool
is_interval interval = text_eq interval (codes "100ms") || text_eq interval (codes "10ms")

-- Load behind godotenv.
unfoldable pub load_env : CaseTables → Environment → Result LoadError Config
load_env u env =
    let symbols =
      parse_symbols u
        (get_env env (codes "SYMBOLS") (get_env env (codes "SYMBOL") (codes "BTCUSDT"))) in
    let interval = trim_space (get_env env (codes "UPDATE_INTERVAL") (codes "100ms")) in
    let level_text = to_lower u (trim_space (get_env env (codes "LOG_LEVEL") (codes "info"))) in
    let output = trim_space (get_env env (codes "OUTPUT_PATH") (codes "./data/depth.json")) in
    let rest_url =
      trim_space (get_env env (codes "REST_BASE_URL") (codes "https://api.mexc.com")) in
    let ws_url =
      trim_space (get_env env (codes "WS_BASE_URL") (codes "wss://wbs-api.mexc.com/ws")) in
    do
      _ ← require (is_some_symbol symbols) no_symbols
      depth ← number_of env (codes "DEPTH_LIMIT") (codes "5000")
      _ ←
          require (not (ltb_ℤ depth (pos 1) || ltb_ℤ (pos 5000) depth))
            (out_of_range (codes "DEPTH_LIMIT"))
      _ ← require (is_interval interval) bad_interval
      level ← parse_log_level level_text
      flush ← number_of env (codes "SNAPSHOT_FLUSH_MS") (codes "500")
      _ ← require (not (ltb_ℤ flush (pos 1))) (out_of_range (codes "SNAPSHOT_FLUSH_MS"))
      ping ← number_of env (codes "PING_INTERVAL_SEC") (codes "20")
      _ ← require (not (ltb_ℤ ping (pos 1))) (out_of_range (codes "PING_INTERVAL_SEC"))
      delay ← number_of env (codes "RECONNECT_DELAY_SEC") (codes "3")
      _ ← require (not (ltb_ℤ delay (pos 1))) (out_of_range (codes "RECONNECT_DELAY_SEC"))
      most ← number_of env (codes "MAX_RECONNECT_DELAY_SEC") (codes "60")
      _ ← require (not (ltb_ℤ most delay)) (out_of_range (codes "MAX_RECONNECT_DELAY_SEC"))
      _ ← require (not (is_empty output)) (empty_value (codes "OUTPUT_PATH"))
      _ ← require (not (is_empty rest_url)) (empty_value (codes "REST_BASE_URL"))
      _ ← require (not (is_empty ws_url)) (empty_value (codes "WS_BASE_URL"))
      redis_db ← number_of env (codes "REDIS_DB") (codes "0")
      ok (record {
        symbols = symbols;
        depth_limit = depth;
        update_interval = interval;
        output_path = output;
        log_level = level;
        log_level_text = level_text;
        snapshot_flush_ms = flush;
        ping_interval_sec = ping;
        reconnect_delay_sec = delay;
        max_reconnect_delay_sec = most;
        rest_base_url = rest_url;
        ws_base_url = ws_url;
        redis_addr = get_env_with_default_allow_empty env (codes "REDIS_ADDR") (codes "redis:6379");
        redis_password = trim_space (getenv env (codes "REDIS_PASSWORD"));
        redis_db = redis_db;
      })

-- What godotenv.Load did: the environment behind it, no .env file, or another error.
pub data Dotenv : Type 0 where
  loaded : Environment → Dotenv
  missing : Dotenv
  failed : Dotenv

abbrev pub load_dotenv : CaseTables → Environment → Dotenv → Result LoadError Config
load_dotenv u env (loaded env') = load_env u env'
load_dotenv u env missing = load_env u env
load_dotenv u env failed = err dotenv_error

unfoldable pub load : CaseTables → (Environment → Dotenv) → Environment → Result LoadError Config
load u dotenv env = load_dotenv u env (dotenv env)
