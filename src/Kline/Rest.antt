-- ===== src/Kline/Rest.antt =====
-- kline/internal/rest: the REST client of the k-line service and the bootstrap.
pub mod Client
pub mod Bootstrap
pub mod Workers
pub mod Schedule
