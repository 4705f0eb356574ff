-- ===== src/Kline/Ws.antt =====
-- kline/internal/ws: the websocket connections of the k-line service.
pub mod Conn
pub mod Manager
pub mod Handler
