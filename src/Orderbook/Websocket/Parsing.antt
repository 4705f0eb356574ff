-- ===== src/Orderbook/Websocket/Parsing.antt =====
-- The two encodings of a depth message.
use fidorix.Base.{◌≡◌, refl, ap, some, List, [], ◌∷◌, map, ℤ, Text, trim_space, CaseTables}
use fidorix.Orderbook.Websocket.{
  WsPriceLevel, WsDepthMessage, PushData, present, parse_ws_depth_proto_message,
  parse_ws_depth_json_message,
}

present-map-some : (levels : List WsPriceLevel) → present (map (λ l. some l) levels) ≡ levels
present-map-some [] = refl
present-map-some (l ∷ levels) = ap (λ ls. l ∷ ls) (present-map-some levels)

-- The protobuf message of the same contents.
abbrev pub proto_of : WsDepthMessage → PushData
proto_of m = record {
  symbol = m.symbol;
  send_time = m.send_time;
  depths = some (record {
    bids = map (λ l. some l) m.bids_list;
    asks = map (λ l. some l) m.asks_list;
    from_version = m.from_version;
    to_version = m.to_version;
  });
}

module _ {Event Level : Type 0} (u : CaseTables) (price_level : Text → Text → Level)
    (depth_event : Text → ℤ → ℤ → ℤ → List Level → List Level → Event) where
  -- The same message gives the same event, or error, in both encodings, if its versions have no
  -- spaces around them.
  pub proto_of-eq-json :
      (m : WsDepthMessage)
      → trim_space m.from_version ≡ m.from_version
      → trim_space m.to_version ≡ m.to_version
      → parse_ws_depth_proto_message u price_level depth_event (some (proto_of m))
        ≡ parse_ws_depth_json_message u price_level depth_event (some m)
  unfolding parse_ws_depth_proto_message parse_ws_depth_json_message
  proto_of-eq-json m from to =
      rw (from, to, present-map-some m.bids_list, present-map-some m.asks_list)
