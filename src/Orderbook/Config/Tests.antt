-- ===== src/Orderbook/Config/Tests.antt =====
-- Tests of orderbook/internal/config/config.go, and the theorems at inputs.
use fidorix.Base.{
  ◌≡◌, ◌≢◌, refl, arith, wrap64, ◌*ℤ◌, join_path, clean_path, ext, dir_path, base_path,
  ne_of_text_eq, none, some, [], ◌∷◌, if◌then◌else◌, pos, Text, codes, text_eq, CaseTables, ok, err,
  strings, atoi, natural, digits_from,
}
use fidorix.Kline.Config.{Environment}
use fidorix.Orderbook.Websocket.{new_ws_client}
use fidorix.Orderbook.Config.{
  info, Config, out_of_range, missing, get_env, get_env_with_default_allow_empty, parse_int,
  parse_log_level, unique_symbols, parse_symbols, load_env, load,
}
use fidorix.Orderbook.Config.Output.{
  snapshot_flush_interval, is_multi_symbol, multi_symbol_output_dir, output_name,
  output_path_for_symbol, output_path_for_symbol-ne,
}
use fidorix.Orderbook.Config.Settings.{IsUsable, load-IsUsable, ws_config, new_ws_client-load}

config : Unit {0}
unfolding strings atoi natural digits_from get_env get_env_with_default_allow_empty parse_int
    parse_log_level unique_symbols parse_symbols load_env load
config = tt

abbrev ascii : CaseTables
ascii = record { upper = λ c. c; lower = λ c. c }

abbrev with_limit : Text → Environment
with_limit limit = λ key.
    if text_eq key (codes "SYMBOLS")
    then some (codes "btcusdt, BTCUSDT,ethusdt")
    else if text_eq key (codes "DEPTH_LIMIT")
    then some limit
    else none

abbrev expected : Config
expected = record {
  symbols = codes "BTCUSDT" ∷ codes "ETHUSDT" ∷ [];
  depth_limit = pos 100;
  update_interval = codes "100ms";
  output_path = codes "./data/depth.json";
  log_level = info;
  log_level_text = codes "info";
  snapshot_flush_ms = pos 500;
  ping_interval_sec = pos 20;
  reconnect_delay_sec = pos 3;
  max_reconnect_delay_sec = pos 60;
  rest_base_url = codes "https://api.mexc.com";
  ws_base_url = codes "wss://wbs-api.mexc.com/ws";
  redis_addr = codes "redis:6379";
  redis_password = [];
  redis_db = pos 0;
}

load_tests :
    (load ascii (λ e. missing) (with_limit (codes "100")) ≡ ok expected)
    × (load ascii (λ e. missing) (with_limit (codes "5001"))
        ≡ err (out_of_range (codes "DEPTH_LIMIT")))
unfolding config
load_tests = (refl, refl)

load-IsUsable_test : IsUsable expected
load-IsUsable_test =
    load-IsUsable ascii (λ e. missing) (with_limit (codes "100")) expected load_tests.0

new_ws_client-load_example : new_ws_client (ws_config expected) ≡ ok (ws_config expected)
new_ws_client-load_example =
    new_ws_client-load ascii (λ e. missing) (with_limit (codes "100")) expected load_tests.0

output_tests :
    (output_path_for_symbol ascii expected (codes " btcusdt ") ≡ codes "data/depth/BTCUSDT.json")
    × (output_path_for_symbol ascii (record expected { symbols = codes "X" ∷ [] }) (codes "X")
        ≡ codes "./data/depth.json")
    × (multi_symbol_output_dir (codes " . ") ≡ codes "data/depth")
    × (multi_symbol_output_dir (codes "/out") ≡ codes "/out")
    × (multi_symbol_output_dir (codes "out/.json") ≡ codes "out/depth")
    × (snapshot_flush_interval expected ≡ pos 500000000)
unfolding config output_path_for_symbol is_multi_symbol multi_symbol_output_dir
    snapshot_flush_interval wrap64 ◌*ℤ◌ join_path clean_path ext dir_path base_path
output_tests = (refl, refl, refl, refl, refl, refl)

btc_name : output_name ascii (codes "BTCUSDT") ≡ codes "BTCUSDT"
unfolding config
btc_name = refl

eth_name : output_name ascii (codes "ETHUSDT") ≡ codes "ETHUSDT"
unfolding config
eth_name = refl

output_path_for_symbol-ne_example :
    output_path_for_symbol ascii expected (codes "BTCUSDT")
    ≢ output_path_for_symbol ascii expected (codes "ETHUSDT")
output_path_for_symbol-ne_example =
    output_path_for_symbol-ne ascii expected (codes "BTCUSDT") (codes "ETHUSDT")
      (unfold is_multi_symbol in refl) (rw btc_name (ground arith)) (rw eth_name (ground arith))
      (rw (btc_name, eth_name)
        (ne_of_text_eq (codes "BTCUSDT") (codes "ETHUSDT") (unfold config in refl)))
