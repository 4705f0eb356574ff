-- ===== src/Kline/Ws/Manager/Tests.antt =====
-- Tests of kline/internal/ws/manager.go, and the theorems at inputs.
use fidorix.Base.{◌≡◌, ◌+◌, refl, List, [], ◌∷◌, All, pos, codes}
use fidorix.Kline.Symbol.{to_mexc}
use fidorix.Kline.Config.{Config, subscription_count}
use fidorix.Kline.Ws.Manager.{
  Shard, subscription, subscriptions_of, new_manager, connection_count, total_subscriptions,
}
use fidorix.Kline.Ws.Manager.Running.{
  Link, dialled, finished, new_link, dials, moves, here, next, close_all, IsShut, close_all-Run,
}
use fidorix.Kline.Ws.Manager.Shards.{
  carried, carried-new_manager, IsNumbered, new_manager-IsNumbered, counts-new_manager,
}

abbrev pub settings : Config
settings = record {
  symbols = codes "BTCUSDT" ∷ codes "ETHUSDT" ∷ [];
  kline_dir = codes "./kline";
  bootstrap_limit = pos 2;
  ws_ping_interval = pos 15000000000;
  rest_throttle = pos 0;
  bootstrap_workers = pos 1;
  log_level = codes "info";
  shard_size = pos 3;
  timescale_dsn = [];
  redis_addr = [];
  redis_password = [];
  redis_db = pos 0;
  intervals = codes "Min1" ∷ codes "Min5" ∷ [];
}

carried-new_manager_example :
    carried (new_manager settings)
    ≡ subscription (to_mexc (codes "BTCUSDT")) (codes "Min1")
      ∷ subscription (to_mexc (codes "BTCUSDT")) (codes "Min5")
      ∷ subscription (to_mexc (codes "ETHUSDT")) (codes "Min1")
      ∷ subscription (to_mexc (codes "ETHUSDT")) (codes "Min5")
      ∷ []
unfolding subscriptions_of
carried-new_manager_example = carried-new_manager settings

new_manager-IsNumbered_test : IsNumbered 3 1 (new_manager settings)
new_manager-IsNumbered_test = new_manager-IsNumbered settings

counts-new_manager_test :
    (total_subscriptions (new_manager settings) ≡ 4) × (connection_count (new_manager settings) ≡ 2)
unfolding subscription_count
counts-new_manager_test = counts-new_manager settings

-- A dial, two subscriptions that go out and one that does not.
-- A loop has dialled when Close comes.
abbrev one_shard : List Shard
one_shard = record { id = 1; subscriptions = [] } ∷ []

abbrev one_dialled : List Link
one_dialled = record new_link { stage = dialled; opened = 0 + 1 } ∷ []

close_all-Run_example :
    All IsShut (close_all one_dialled)
    × All (λ l. l.stage ≡ finished → l.opened ≡ l.closed) one_dialled
close_all-Run_example =
    close_all-Run one_shard one_dialled (next here (moves [] [] new_link _ refl (dials refl)))
