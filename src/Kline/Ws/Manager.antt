-- ===== src/Kline/Ws/Manager.antt =====
-- kline/internal/ws/manager.go: the subscriptions of the settings, cut into connections.
pub mod Shards
pub mod Running
pub mod Tests
use fidorix.Base.{
  ℕ, suc, ◌+◌, Bool, List, [], ◌∷◌, ◌++◌, map, if◌then◌else◌, length, ℤ, pos, pos_part, leb_ℤ, Text,
  chunks,
}
use fidorix.Kline.Symbol.{to_mexc}
use fidorix.Kline.Config.{Config}
use fidorix.Kline.Ws.Conn.{Subscription}

-- A connection as NewConn makes it.
pub record Shard : Type 0 where
  pub id : ℕ
  pub subscriptions : List Subscription

abbrev pub subscription : Text → Text → Subscription
subscription wire interval = record { symbol = wire; interval = interval }

-- The two loops that list the subscriptions.
unfoldable pub subscriptions_of : List Text → List Text → List Subscription
subscriptions_of [] intervals = []
subscriptions_of (file_symbol ∷ symbols) intervals =
    map (subscription (to_mexc file_symbol)) intervals ++ subscriptions_of symbols intervals

abbrev pub shard_size_of : Config → ℕ
shard_size_of cfg = if leb_ℤ cfg.shard_size (pos 0) then 50 else pos_part cfg.shard_size

-- `len(conns) + 1` is the next id.
abbrev pub numbered : ℕ → List (List Subscription) → List Shard
numbered n [] = []
numbered n (chunk ∷ rest) = record { id = n; subscriptions = chunk } ∷ numbered (suc n) rest

unfoldable pub new_manager : Config → List Shard
new_manager cfg =
    numbered 1 (chunks (shard_size_of cfg) (subscriptions_of cfg.symbols cfg.intervals))

unfoldable pub connection_count : List Shard → ℕ
connection_count conns = length conns

unfoldable pub total_subscriptions : List Shard → ℕ
total_subscriptions [] = 0
total_subscriptions (conn ∷ conns) = length conn.subscriptions + total_subscriptions conns
