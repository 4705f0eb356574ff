-- ===== src/Orderbook/Websocket/Tests.antt =====
-- Tests of orderbook/internal/exchange/websocket.go, and the theorems at inputs.
use fidorix.Base.{
  ℕ, ◌≡◌, ◌≢◌, refl, Option, none, some, List, [], ◌∷◌, arith, All, length, ℤ, pos, ◌*ℤ◌, wrap64,
  Text, codes, CaseTables, strings, atoi, natural, digits_from, flatten, IsChunk, ok, err,
}
use fidorix.Orderbook.Websocket.{
  WsConfig, bad_interval, new_ws_client, symbol_groups, build_subscription_params, Attempt,
  connected, connect_from, connect_with_backoff, Conns, register_connection, unregister_connection,
  WsDepthMessage, parse_ws_depth_proto_message, parse_ws_depth_json_message, parse_from_version,
}
use fidorix.Orderbook.Websocket.Validation.{IsUsable, new_ws_client_result}
use fidorix.Orderbook.Websocket.Reconnect.{
  IsDelay, connect_with_backoff-IsDelay, failure, failures, connect_with_backoff-failures,
}
use fidorix.Orderbook.Websocket.Registry.{
  conn_of, conn_of-register_connection, conn_of-unregister_connection,
}
use fidorix.Orderbook.Websocket.Parsing.{proto_of, proto_of-eq-json}

abbrev pub cfg : WsConfig
cfg = record {
  base_url = codes "wss://x";
  symbols = codes "BTCUSDT" ∷ [];
  update_interval = codes "100ms";
  ping_interval_sec = pos 20;
  reconnect_delay_sec = pos 1;
  max_reconnect_delay_sec = pos 3;
}

websocket : Unit {0}
unfolding strings atoi natural digits_from wrap64 ◌*ℤ◌ new_ws_client build_subscription_params
    connect_from connect_with_backoff register_connection unregister_connection
    parse_ws_depth_proto_message parse_ws_depth_json_message
websocket = tt

-- A connection on the fourth attempt.
abbrev fourth : Attempt
fourth = record failure { connects = some 7 }

cfg_tests :
    (new_ws_client cfg ≡ ok cfg)
    × (new_ws_client (record cfg { update_interval = codes "1s" }) ≡ err bad_interval)
    × (build_subscription_params (codes "10ms") (codes "X" ∷ [])
        ≡ codes "spot@public.aggre.depth.v3.api.pb@10ms@X" ∷ [])
    × (connect_with_backoff cfg (failures 3 (fourth ∷ []))
        ≡ (connected 7, pos 1 ∷ pos 2 ∷ pos 3 ∷ []))
unfolding websocket
cfg_tests = (refl, refl, refl, refl)

new_ws_client_result_test :
    (cfg ≡ cfg)
    × IsUsable cfg
    × (flatten (symbol_groups cfg) ≡ codes "BTCUSDT" ∷ [])
    × All (IsChunk 30) (symbol_groups cfg)
new_ws_client_result_test = new_ws_client_result cfg cfg cfg_tests.0

connect_with_backoff-IsDelay_test :
    All (IsDelay cfg) (connect_with_backoff cfg (failures 3 (fourth ∷ []))).1
connect_with_backoff-IsDelay_test =
    connect_with_backoff-IsDelay cfg (omega arith) (omega arith) (omega arith)
      (failures 3 (fourth ∷ []))

connect_with_backoff-failures_example :
    ((connect_with_backoff cfg (failures 3 (fourth ∷ []))).0 ≡ connected 7)
    × (length (connect_with_backoff cfg (failures 3 (fourth ∷ []))).1 ≡ 3)
connect_with_backoff-failures_example = connect_with_backoff-failures cfg 3 fourth [] 7 refl

abbrev conns : Conns
conns = (1, 10) ∷ (2, 20) ∷ []

conn_of-register_connection_test : conn_of 1 (register_connection 2 21 conns) ≡ some 10
conn_of-register_connection_test = conn_of-register_connection 2 1 21 conns

conn_of-unregister_connection_test :
    ((◌≢◌ {A = ℕ} 2 1) → conn_of 1 (unregister_connection 2 19 conns) ≡ some 10)
    × ((◌≢◌ {A = Option ℕ} (some 20) (some 19)) → unregister_connection 2 19 conns ≡ conns)
conn_of-unregister_connection_test = conn_of-unregister_connection 2 1 19 conns

abbrev ascii : CaseTables
ascii = record { upper = λ c. c; lower = λ c. c }

abbrev message : WsDepthMessage
message = record {
  channel = [];
  symbol = codes "btcusdt";
  send_time = pos 9;
  asks_list = record { price = codes "2"; quantity = codes "1" } ∷ [];
  bids_list = record { price = codes "1"; quantity = codes "0" } ∷ [];
  event_type = [];
  from_version = codes "41";
  to_version = codes "42";
}

-- An event is the tuple of its fields.
abbrev level : Text → Text → Text × Text
level price quantity = (price, quantity)

abbrev event :
    Text
    → ℤ
    → ℤ
    → ℤ
    → List (Text × Text)
    → List (Text × Text)
    → Text × ℤ × ℤ × ℤ × List (Text × Text) × List (Text × Text)
event symbol from_version to_version send_time bids asks =
    (symbol, from_version, to_version, send_time, bids, asks)

parse_tests :
    (parse_ws_depth_json_message ascii level event (some message)
      ≡ ok (
          some (
            codes "BTCUSDT",
            pos 41,
            pos 42,
            pos 9,
            (codes "1", codes "0") ∷ [],
            (codes "2", codes "1") ∷ [],
          )))
    × (parse_ws_depth_json_message ascii level event
          (some (record message { from_version = codes " 4" }))
        ≡ err (parse_from_version (codes " 4")))
    × (parse_ws_depth_json_message ascii level event (some (record message { symbol = codes " " }))
        ≡ ok none)
unfolding websocket
parse_tests = (refl, refl, refl)

proto_of-eq-json_example :
    parse_ws_depth_proto_message ascii level event (some (proto_of message))
    ≡ parse_ws_depth_json_message ascii level event (some message)
proto_of-eq-json_example =
    proto_of-eq-json ascii level event message (unfold strings in refl) (unfold strings in refl)
