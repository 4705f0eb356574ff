-- ===== src/Kline.antt =====
-- The k-line snapshot service (kline/).
pub mod Candle
pub mod Symbol
pub mod Store
pub mod Files
pub mod Config
pub mod Rest
pub mod Db
pub mod Ws
pub mod Redis
pub mod Server
