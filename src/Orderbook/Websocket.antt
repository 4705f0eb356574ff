-- ===== src/Orderbook/Websocket.antt =====
-- orderbook/internal/exchange/websocket.go: the groups of symbols, the reconnection with backoff,
-- the registry of connections, and the parsing of depth messages. A connection is a number.
pub mod Validation
pub mod Reconnect
pub mod Parsing
pub mod Registry
pub mod Client
pub mod Tests
use fidorix.Base.{
  ℕ, Bool, true, false, ◌&&◌, ◌||◌, not, Option, none, some, List, [], ◌∷◌, ◌++◌, map, ◌==◌,
  if◌then◌else◌, length, ℤ, pos, ltb_ℤ, ◌*ℤ◌, wrap64, Text, codes, text_eq, is_empty, trim_space,
  CaseTables, to_upper, atoi, chunks, Result, ok, err,
}

pub record WsConfig : Type 0 where
  pub base_url : Text
  pub symbols : List Text
  pub update_interval : Text
  pub ping_interval_sec : ℤ
  pub reconnect_delay_sec : ℤ
  pub max_reconnect_delay_sec : ℤ

pub data ConfigError : Type 0 where
  no_base_url : ConfigError
  no_symbol : ConfigError
  bad_interval : ConfigError
  bad_ping : ConfigError
  bad_delay : ConfigError
  bad_max_delay : ConfigError

abbrev pub is_nil : List Text → Bool
is_nil [] = true
is_nil (x ∷ xs) = false

-- The client keeps the configuration as it is.
unfoldable pub new_ws_client : WsConfig → Result ConfigError WsConfig
new_ws_client cfg =
    if is_empty (trim_space cfg.base_url)
    then err no_base_url
    else if is_nil cfg.symbols
    then err no_symbol
    else if not (text_eq cfg.update_interval (codes "100ms"))
        && not (text_eq cfg.update_interval (codes "10ms"))
    then err bad_interval
    else if ltb_ℤ cfg.ping_interval_sec (pos 1)
    then err bad_ping
    else if ltb_ℤ cfg.reconnect_delay_sec (pos 1)
    then err bad_delay
    else if ltb_ℤ cfg.max_reconnect_delay_sec cfg.reconnect_delay_sec
    then err bad_max_delay
    else ok cfg

abbrev pub max_symbols_per_connection : ℕ
max_symbols_per_connection = 30

unfoldable pub chunk_symbols : List Text → ℕ → List (List Text)
chunk_symbols symbols chunk_size = chunks chunk_size symbols

-- The symbols of the connections that Start makes; their ids are 1, 2, 3 and on.
unfoldable pub symbol_groups : WsConfig → List (List Text)
symbol_groups cfg = chunk_symbols cfg.symbols max_symbols_per_connection

abbrev pub subscription_param : Text → Text → Text
subscription_param interval symbol =
    codes "spot@public.aggre.depth.v3.api.pb@" ++ (interval ++ (codes "@" ++ symbol))

unfoldable pub build_subscription_params : Text → List Text → List Text
build_subscription_params interval symbols = map (subscription_param interval) symbols

abbrev pub min_ℤ : ℤ → ℤ → ℤ
min_ℤ left right = if ltb_ℤ left right then left else right

-- What connectOnce and waitFor answer in one round of connectWithBackoff.
pub record Attempt : Type 0 where
  pub connects : Option ℕ
  pub cancelled : Bool
  pub waits : Bool

pub data Connecting : Type 0 where
  connected : ℕ → Connecting
  gave_up : Connecting
  trying : Connecting

abbrev pub with_delay : ℤ → Connecting × List ℤ → Connecting × List ℤ
with_delay delay r = (r.0, delay ∷ r.1)

-- The connection or the error, and the delays that were waited for, in seconds; `trying` where the
-- rounds run out.
unfoldable pub connect_from : WsConfig → ℤ → List Attempt → Connecting × List ℤ
connect_from cfg delay [] = (trying, [])
connect_from cfg delay (a ∷ as_) =
    let rest = connect_from cfg (min_ℤ (wrap64 (delay *ℤ pos 2)) cfg.max_reconnect_delay_sec) as_ in
    elim a.connects [
      | some c ↦ (connected c, [])
      | none ↦
          if a.cancelled
          then (gave_up, [])
          else if a.waits
          then with_delay delay rest
          else (gave_up, delay ∷ [])
    ]

unfoldable pub connect_with_backoff : WsConfig → List Attempt → Connecting × List ℤ
connect_with_backoff cfg attempts = connect_from cfg cfg.reconnect_delay_sec attempts

-- The map of the connections, in which an id stands once.
abbrev pub Conns : Type 0
Conns = List (ℕ × ℕ)

unfoldable pub register_connection : ℕ → ℕ → Conns → Conns
register_connection id conn [] = (id, conn) ∷ []
register_connection id conn ((i, c) ∷ conns) =
    let rest = register_connection id conn conns in
    if i == id then (id, conn) ∷ conns else (i, c) ∷ rest

unfoldable pub unregister_connection : ℕ → ℕ → Conns → Conns
unregister_connection id conn [] = []
unregister_connection id conn ((i, c) ∷ conns) =
    let rest = unregister_connection id conn conns in
    if i == id then if c == conn then conns else (i, c) ∷ conns else (i, c) ∷ rest

pub record WsPriceLevel : Type 0 where
  pub price : Text
  pub quantity : Text

pub record WsDepthMessage : Type 0 where
  pub channel : Text
  pub symbol : Text
  pub send_time : ℤ
  pub asks_list : List WsPriceLevel
  pub bids_list : List WsPriceLevel
  pub event_type : Text
  pub from_version : Text
  pub to_version : Text

-- What the getters of a protobuf message give; the depths may be absent, and so may a level.
pub record AggreDepths : Type 0 where
  pub bids : List (Option WsPriceLevel)
  pub asks : List (Option WsPriceLevel)
  pub from_version : Text
  pub to_version : Text

pub record PushData : Type 0 where
  pub symbol : Text
  pub send_time : ℤ
  pub depths : Option AggreDepths

pub data ParseError : Type 0 where
  unmarshal_error : ParseError
  parse_from_version : Text → ParseError
  parse_to_version : Text → ParseError

pub data MessageType : Type 0 where
  binary_message : MessageType
  text_message : MessageType
  other_message : MessageType

abbrev pub present : List (Option WsPriceLevel) → List WsPriceLevel
present [] = []
present (none ∷ levels) = present levels
present (some level ∷ levels) = level ∷ present levels

abbrev pub version : ParseError → Option ℤ → Result ParseError ℤ
version e none = err e
version e (some v) = ok v

-- The two results in turn: the first error is the result.
abbrev pub with_versions :
    {Event : Type 0}
    → Result ParseError ℤ
    → Result ParseError ℤ
    → (ℤ → ℤ → Event)
    → Result ParseError (Option Event)
with_versions (err e) to_version event = err e
with_versions (ok from_version) (err e) event = err e
with_versions (ok from_version) (ok to_version) event = ok (some (event from_version to_version))

-- `Event` and `Level` are the types of package orderbook. The result none is an ignored message.
module _ {Event Level : Type 0} (u : CaseTables) (price_level : Text → Text → Level)
    (depth_event : Text → ℤ → ℤ → ℤ → List Level → List Level → Event) where
  abbrev pub level_of : WsPriceLevel → Level
  level_of l = price_level l.price l.quantity

  abbrev pub parse_depths : PushData → Option AggreDepths → Result ParseError (Option Event)
  parse_depths message none = ok none
  parse_depths message (some depth) =
      let symbol = trim_space message.symbol in
      let from_text = trim_space depth.from_version in
      let to_text = trim_space depth.to_version in
      if is_empty symbol || is_empty from_text || is_empty to_text
      then ok none
      else with_versions (version (parse_from_version from_text) (atoi from_text))
          (version (parse_to_version to_text) (atoi to_text))
          (λ from_version to_version.
            depth_event (to_upper u symbol) from_version to_version message.send_time
              (map level_of (present depth.bids)) (map level_of (present depth.asks)))

  -- The decoded payload, or none where the decoder fails.
  unfoldable pub parse_ws_depth_proto_message : Option PushData → Result ParseError (Option Event)
  parse_ws_depth_proto_message none = err unmarshal_error
  parse_ws_depth_proto_message (some message) = parse_depths message message.depths

  unfoldable pub parse_ws_depth_json_message :
      Option WsDepthMessage → Result ParseError (Option Event)
  parse_ws_depth_json_message none = err unmarshal_error
  parse_ws_depth_json_message (some message) =
      if is_empty (trim_space message.symbol)
        || is_empty (trim_space message.from_version)
        || is_empty (trim_space message.to_version)
      then ok none
      else with_versions
          (version (parse_from_version message.from_version) (atoi message.from_version))
          (version (parse_to_version message.to_version) (atoi message.to_version))
          (λ from_version to_version.
            depth_event (to_upper u (trim_space message.symbol)) from_version to_version
              message.send_time (map level_of message.bids_list) (map level_of message.asks_list))

  unfoldable pub parse_ws_depth_message :
      {B : Type 0}
      → (B → Option PushData)
      → (B → Option WsDepthMessage)
      → MessageType
      → B
      → Result ParseError (Option Event)
  parse_ws_depth_message proto json binary_message payload =
      parse_ws_depth_proto_message (proto payload)
  parse_ws_depth_message proto json text_message payload =
      parse_ws_depth_json_message (json payload)
  parse_ws_depth_message proto json other_message payload = ok none
