-- ===== src/Orderbook.antt =====
-- The order book service (orderbook/), but for its package internal/orderbook, which the repository
-- does not hold: the events that the service builds for it are made by arguments.
pub mod Config
pub mod Websocket
pub mod Snapshot
pub mod Persistence
pub mod Redis
