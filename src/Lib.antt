-- ===== src/Lib.antt =====
-- fidorix records market data of the MEXC exchange. Two programs stand in the repository. The k-line
-- service (kline/) keeps candles: it preloads them, fetches what is missing over REST (the bootstrap),
-- then takes pushes from websocket connections into a store, and flushes the dirty entries of the
-- store to one file for each symbol and interval; a database and Redis are optional. The order book
-- service (orderbook/) takes a depth snapshot over REST and depth events from websockets.
--
-- How the files correspond to the code (paths from the root of the repository):
--   Base            texts, numbers, maps, chunks, and what Go's strings, strconv, sort, path/filepath
--                   and os do as far as the code uses them; Base/Storage is the write of a temporary
--                   file and its rename, which both services do
--   Kline/Candle    kline/internal/kline/candle.go: Candle, Upsert
--   Kline/Symbol    kline/internal/symbol/symbol.go: ToMEXC, ToFile
--   Kline/Store     kline/internal/store/store.go: every method is a function on the state `Store`;
--                   Store/Invariant has the steps of the goroutines, Store/Refinement the table of
--                   candles that the store stands for
--   Kline/Files     kline/internal/store/file.go: LoadFile, SaveFile, filePathForEntry,
--                   FlushDirtyEntries over a disk whose calls may fail; Files/Loop is FlushLoop, each
--                   flush move by move among the goroutines that store candles, with the last
--                   flush of main
--   Kline/Config    kline/internal/config/config.go: Load and its helpers
--   Kline/Rest      kline/internal/rest: Client is FetchKline, Bootstrap is bootstrapPair and its parts,
--                   Workers is Bootstrap itself as steps of its goroutines, Schedule those goroutines
--                   in bootstrapPair, over one store and one disk
--   Kline/Db        kline/internal/db: New with the migration, UpsertBatch, LoadLatest, the conversions
--                   of rows
--   Kline/Redis     kline/internal/redisclient/redis.go: SetLatestBar, PublishBar, and the goroutines
--                   that the upserts of the store start for them
--   Kline/Ws        kline/internal/ws: Conn is the run loop of conn.go over rounds of what the network
--                   answers, Manager the shards of manager.go, with Run and Close as steps of the
--                   sockets of its connections (Manager/Running), Handler the messages of handler.go
--   Kline/Server    kline/cmd/server/main.go: the preloads and the symbols that are kept;
--                   Server/Startup is main up to its stream; Server/Ranging is about the order in
--                   which Go ranges over the entries, Server/Lifetime about the entries
--                   and the copies of the flushes behind the bootstrap, Server/Main about all of
--                   main, with candles that come between the moves of its flushes; Server/Settled
--                   and Server/Preloaded have what the settings and the preloads give the bootstrap
--   Orderbook/Websocket  orderbook/internal/exchange/websocket.go: its functions, and in
--                   Websocket/Client Start, Close, Wait and the loops of the connections as steps
--   Orderbook/Snapshot   orderbook/internal/exchange/rest.go
--   Orderbook/Config     orderbook/internal/config/config.go
--   Orderbook/Persistence  orderbook/internal/persistence/writer.go, as steps of its calls
--   Orderbook/Redis      orderbook/internal/redisclient/redis.go and
--                   orderbook/internal/persistence/redis_writer.go
--
-- How the parts interact: Server preloads the store, Rest/Bootstrap merges what it fetches into the
-- files and the store, Server keeps the symbols that have candles, Ws/Manager cuts their subscriptions
-- into connections, Ws/Handler upserts what they receive, Files writes what is dirty, and Redis gets
-- each candle from a goroutine of its own. Ws/Handler/Stream, Files/Ending, Rest/Schedule,
-- Server/Serving, Server/Main and Redis/Race are about such parts together.
--
-- Conventions. A text is a list of code points, and texts are valid UTF-8; a Go map with string keys
-- is an association list, ranged over in its order (Server/Ranging has the others); a nil slice is
-- `none`. Numbers are natural, or ℤ, with `wrap64` where the code computes in 64 bits. A call that may
-- fail has its outcome as an argument, and an error is a value.
--
-- Fuel. sort.Search gets as many rounds as there are elements, and so does the reversal of candles;
-- the digits of an int64 are twenty at most. Each is shown to be enough by the theorem on its result.
-- The loops that run as long as the program does are over the list of what the world answers.
--
-- Arguments, since their code is not in the repository: the JSON and protobuf decoders, godotenv,
-- time.ParseDuration, http.ParseTime, the HTTP server, the pool of the database, float64 with its
-- parser and printer, the tables of letter case above ASCII, the clock, and the types of the package
-- orderbook/internal/orderbook, which is imported but is not in the repository.
--
-- Not modelled: logging; timeouts, which are outcomes here; the SQL texts; the constructors of the
-- clients of pgx and go-redis; the count of candles that Bootstrap logs; the containers.
mod Base
pub mod Kline
pub mod Orderbook
