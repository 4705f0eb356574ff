-- ===== src/Orderbook/Config/Settings.antt =====
-- What Load guarantees of the settings that it returns, and that NewWSClient accepts them.
use fidorix.Base.{
  trim_space_idem, ◌≡◌, ◌≢◌, refl, ap, sym, subst, inl, inr, true, false, ◌||◌, Bool-cases, List,
  [], ◌∷◌, arith, pos, ◌≤ℤ◌, Text, codes, text_eq_iff, text_eq_refl, is_empty, trim_space, member,
  CaseTables, to_upper, ok,
}
use fidorix.Kline.Config.{Environment}
use fidorix.Orderbook.Websocket.{WsConfig, is_nil, new_ws_client}
use fidorix.Orderbook.Config.{
  Config, unique_symbols, parse_symbols, is_some_symbol, is_interval, get_env, load_env, Dotenv,
  loaded, missing, failed, load_dotenv, load,
}

-- No text is there twice, and none is empty.
abbrev pub AreUnique : List Text → Type 0
AreUnique [] = Unit
AreUnique (s ∷ ss) = (s ≢ []) × (member s ss ≡ false) × AreUnique ss

unique_symbols-member :
    (u : CaseTables) (parts seen : List Text) (s : Text)
    → member s seen ≡ true
    → member s (unique_symbols u parts seen) ≡ false
unfolding unique_symbols
unique_symbols-member u [] seen s h = refl
unique_symbols-member u (part ∷ parts) seen s h =
    let symbol = to_upper u (trim_space part) in
    elim (Bool-cases (is_empty symbol || member symbol seen)) [
      | inl e ↦ rw e (unique_symbols-member u parts seen s h)
      | inr e ↦
          rw e
            (ground (arith, text_eq_iff symbol s, unique_symbols-member u parts (symbol ∷ seen) s))
    ]

unique_symbols-AreUnique :
    (u : CaseTables) (parts seen : List Text) → AreUnique (unique_symbols u parts seen)
unfolding unique_symbols
unique_symbols-AreUnique u [] seen = tt
unique_symbols-AreUnique u (part ∷ parts) seen =
    let symbol = to_upper u (trim_space part) in
    elim (Bool-cases (is_empty symbol || member symbol seen)) [
      | inl e ↦ rw e (unique_symbols-AreUnique u parts seen)
      | inr e ↦ rw e (
        not_empty symbol (ground arith),
        unique_symbols-member u parts (symbol ∷ seen) symbol (rw (text_eq_refl symbol)),
        unique_symbols-AreUnique u parts (symbol ∷ seen),
      )
    ]
  where
    not_empty : (s : Text) → is_empty s ≡ false → s ≢ []
    not_empty s e z = ground (arith, ap is_empty z)

pub record IsUsable (c : Config) : Type 0 where
  pub some_symbol : c.symbols ≢ []
  pub unique : AreUnique c.symbols
  pub depth : (pos 1 ≤ℤ c.depth_limit) × (c.depth_limit ≤ℤ pos 5000)
  pub interval : is_interval c.update_interval ≡ true
  pub flush : pos 1 ≤ℤ c.snapshot_flush_ms
  pub ping : pos 1 ≤ℤ c.ping_interval_sec
  pub delay : pos 1 ≤ℤ c.reconnect_delay_sec
  pub max_delay : c.reconnect_delay_sec ≤ℤ c.max_reconnect_delay_sec
  pub output : c.output_path ≢ []
  pub rest_url : c.rest_base_url ≢ []
  pub ws_url : trim_space c.ws_base_url ≢ []

module _ (u : CaseTables) (env : Environment) (c : Config) (done : load_env u env ≡ ok c) where
  depth-load_env : (pos 1 ≤ℤ c.depth_limit) × (c.depth_limit ≤ℤ pos 5000)
  unfolding load_env
  depth-load_env = ground arith

  symbols-load_env :
      c.symbols
      ≡ parse_symbols u
          (get_env env (codes "SYMBOLS") (get_env env (codes "SYMBOL") (codes "BTCUSDT")))
  unfolding load_env
  symbols-load_env = ground arith

  tests-load_env :
      (is_some_symbol c.symbols ≡ true)
      × (is_interval c.update_interval ≡ true)
      × (is_empty c.output_path ≡ false)
      × (is_empty c.rest_base_url ≡ false)
      × (is_empty c.ws_base_url ≡ false)
  unfolding load_env
  tests-load_env = (ground arith, ground arith, ground arith, ground arith, ground arith)

  ws_url-load_env : trim_space c.ws_base_url ≢ []
  ws_url-load_env e = ground (
    arith,
    ap is_empty
        (subst (λ t. t ≡ []) (subst (λ t. trim_space t ≡ t) (sym value) (trim_space_idem _)) e),
    tests-load_env,
  )
    where
      value :
          c.ws_base_url
          ≡ trim_space (get_env env (codes "WS_BASE_URL") (codes "wss://wbs-api.mexc.com/ws"))
      value = unfold load_env in ground arith

  load_env-IsUsable : IsUsable c
  unfolding load_env
  load_env-IsUsable =
      let (some_symbol, interval, output, rest_url, ws_url) = tests-load_env in
      record {
        some_symbol = λ e. ground (arith, ap is_some_symbol e);
        unique =
            subst AreUnique (sym symbols-load_env)
              (unfold parse_symbols in unique_symbols-AreUnique u _ []);
        depth = depth-load_env;
        interval = interval;
        flush = ground arith;
        ping = ground arith;
        delay = ground arith;
        max_delay = ground arith;
        output = λ e. ground (arith, ap is_empty e);
        rest_url = λ e. ground (arith, ap is_empty e);
        ws_url = ws_url-load_env;
      }

-- Settings that Load returns have symbols, each once and none empty, a depth limit from 1 to 5000,
-- one of the two update intervals, positive periods with a maximal delay that is not below the
-- delay, and no empty path or URL.
pub load-IsUsable :
    (u : CaseTables) (dotenv : Environment → Dotenv) (env : Environment) (c : Config)
    → load u dotenv env ≡ ok c
    → IsUsable c
unfolding load
load-IsUsable u dotenv env c h = of_dotenv (dotenv env) h
  where
    of_dotenv : (d : Dotenv) → load_dotenv u env d ≡ ok c → IsUsable c
    of_dotenv (loaded env') h = load_env-IsUsable u env' c h
    of_dotenv missing h = load_env-IsUsable u env c h
    of_dotenv failed h = cc

-- The configuration of the websocket client that has the settings' values.
abbrev pub ws_config : Config → WsConfig
ws_config c = record {
  base_url = c.ws_base_url;
  symbols = c.symbols;
  update_interval = c.update_interval;
  ping_interval_sec = c.ping_interval_sec;
  reconnect_delay_sec = c.reconnect_delay_sec;
  max_reconnect_delay_sec = c.max_reconnect_delay_sec;
}

is_empty-ne : (s : Text) → s ≢ [] → is_empty s ≡ false
is_empty-ne [] ne = absurd (ne refl)
is_empty-ne (c ∷ s) ne = refl

is_nil-ne : (ss : List Text) → ss ≢ [] → is_nil ss ≡ false
is_nil-ne [] ne = absurd (ne refl)
is_nil-ne (s ∷ ss) ne = refl

-- NewWSClient accepts the settings that Load returns.
pub new_ws_client-load :
    (u : CaseTables) (dotenv : Environment → Dotenv) (env : Environment) (c : Config)
    → load u dotenv env ≡ ok c
    → new_ws_client (ws_config c) ≡ ok (ws_config c)
unfolding new_ws_client
new_ws_client-load u dotenv env c h =
    let k = load-IsUsable u dotenv env c h in
    rw (is_empty-ne (trim_space c.ws_base_url) k.ws_url, is_nil-ne c.symbols k.some_symbol)
      (ground (arith, k.interval, k.ping, k.delay, k.max_delay))
