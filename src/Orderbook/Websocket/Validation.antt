-- ===== src/Orderbook/Websocket/Validation.antt =====
-- What NewWSClient accepts, and the groups that Start makes of its symbols.
use fidorix.Base.{
  ap, ◌≡◌, ◌≢◌, ◌⊎◌, [], arith, All, pos, ◌≤ℤ◌, codes, text_eq_iff, trim_space, flatten,
  flatten-chunks, IsChunk, chunks-IsChunk, ok, err,
}
use fidorix.Orderbook.Websocket.{
  WsConfig, ConfigError, is_nil, new_ws_client, chunk_symbols, symbol_groups,
}

pub record IsUsable (cfg : WsConfig) : Type 0 where
  pub base_url : trim_space cfg.base_url ≢ []
  pub symbols : cfg.symbols ≢ []
  pub update_interval : (cfg.update_interval ≡ codes "100ms") ⊎ (cfg.update_interval ≡ codes "10ms")
  pub ping : pos 1 ≤ℤ cfg.ping_interval_sec
  pub delay : pos 1 ≤ℤ cfg.reconnect_delay_sec
  pub max_delay : cfg.reconnect_delay_sec ≤ℤ cfg.max_reconnect_delay_sec

-- A client has a URL, a symbol, one of the two update intervals, and delays of at least a second
-- that do not pass their maximum; its groups hold the symbols in order, 30 at most and at least one
-- to a group.
pub new_ws_client_result :
    (cfg cfg' : WsConfig)
    → new_ws_client cfg ≡ ok cfg'
    → (cfg' ≡ cfg)
      × IsUsable cfg
      × (flatten (symbol_groups cfg) ≡ cfg.symbols)
      × All (IsChunk 30) (symbol_groups cfg)
unfolding new_ws_client symbol_groups chunk_symbols
new_ws_client_result cfg cfg' h = (
  ground arith,
  record {
    base_url = λ e. absurd (refused (rw e at h));
    symbols = λ e. ground (arith, ap is_nil e);
    update_interval = ground (
      arith,
      text_eq_iff cfg.update_interval (codes "100ms"),
      text_eq_iff cfg.update_interval (codes "10ms"),
    );
    ping = ground arith;
    delay = ground arith;
    max_delay = ground arith;
  },
  flatten-chunks 30 cfg.symbols (omega arith),
  chunks-IsChunk 30 cfg.symbols (omega arith),
)
  where
    refused : {e : ConfigError} → err e ≡ ok cfg' → ⊥
    refused h = cc
