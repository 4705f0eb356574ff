-- ===== src/Orderbook/Redis.antt =====
-- orderbook/internal/redisclient/redis.go and orderbook/internal/persistence/redis_writer.go: the
-- snapshots in Redis, and the flag that lets one write run at a time. The type of the snapshots,
-- their symbol and their encoder are arguments.
pub mod Exclusive
pub mod Blocking
pub mod Tests
use fidorix.Base.{
  ◌≡◌, ℕ, suc, Bool, true, false, not, Option, none, some, List, [], ◌∷◌, ◌++◌, if◌then◌else◌, Text,
  codes, Assoc, insert, Reply, RedisError, replied, not_initialized, marshal_error,
}

abbrev pub book_key : Text → Text
book_key symbol = codes "orderbook:" ++ symbol

-- A snapshot that the writer is given.
pub record Encoding (S B : Type 0) : Type 0 where
  pub symbol : S → Text
  pub encode : S → Option B

module _ {S B : Type 0} (json : Encoding S B) where
  abbrev pub set_payload : Reply → Text → Option B → Assoc B → Assoc B × Option RedisError
  set_payload reply key none values = (values, some marshal_error)
  set_payload reply key (some payload) values = replied reply values (insert key payload values)

  -- `ready` is false where the client or its connection is nil.
  unfoldable pub set_order_book : Bool → Reply → S → Assoc B → Assoc B × Option RedisError
  set_order_book ready reply snapshot values =
      if ready
      then set_payload reply (book_key (json.symbol snapshot)) (json.encode snapshot) values
      else (values, some not_initialized)

-- Close of a client that is not there does nothing.
unfoldable pub close : Bool → Option RedisError → Option RedisError
close ready answer = if ready then answer else none

-- The name of the destination, for the log.
unfoldable pub output_path : Text → Text
output_path symbol = codes "redis:orderbook:" ++ symbol

-- How WriteSnapshot returns: with an error, skipped, or with a goroutine that writes.
pub data Started : Type 0 where
  no_client : Started
  cancelled : Started
  skipped : Started
  started : Started

unfoldable pub write_snapshot : Bool → Bool → Bool → Started
write_snapshot has_client context_done in_flight =
    if not has_client
    then no_client
    else if context_done
    then cancelled
    else if in_flight
    then skipped
    else started

-- One round of the loop of WriteSnapshotBlocking: the flag, and whether waitFor lasts its time.
pub record Round : Type 0 where
  pub in_flight : Bool
  pub waits : Bool

pub data Waited : Type 0 where
  without_client : Waited
  interrupted : Waited
  entered : Waited
  waiting : Waited

-- How the loop ends, and how often it has waited; `waiting` where the rounds run out.
unfoldable pub wait_rounds : List Round → Waited × ℕ
wait_rounds [] = (waiting, 0)
wait_rounds (r ∷ rounds) =
    let (ending, waits) = wait_rounds rounds in
    if not r.in_flight
    then (entered, 0)
    else if r.waits
    then (ending, suc waits)
    else (interrupted, 1)

unfoldable pub write_snapshot_blocking : Bool → List Round → Waited × ℕ
write_snapshot_blocking has_client rounds =
    if has_client then wait_rounds rounds else (without_client, 0)

-- Where a call is behind its CompareAndSwap: before SetOrderBook, or before it stores false.
pub data Stage (S : Type 0) : Type 0 where
  setting : S → Stage S
  leaving : Stage S

pub record RedisWriter (S B : Type 0) : Type 0 where
  pub in_flight : Bool
  pub values : Assoc B
  pub live : List (Stage S)

abbrev pub new_redis_writer : {S B : Type 0} → Assoc B → RedisWriter S B
new_redis_writer values = record { in_flight = false; values = values; live = [] }

pub data Step {S B : Type 0} (json : Encoding S B) (w : RedisWriter S B)
    : RedisWriter S B → Type 0 where
  -- CompareAndSwap(false, true) succeeds, in either of the two methods.
  enter :
      (s : S)
      → w.in_flight ≡ false
      → Step json w (record w { in_flight = true; live = setting s ∷ w.live })
  -- It fails: WriteSnapshot returns, and WriteSnapshotBlocking waits, or gives up.
  refuse : w.in_flight ≡ true → Step json w w
  set :
      (s : S) (ready : Bool) (reply : Reply) (before after : List (Stage S))
      → w.live ≡ before ++ setting s ∷ after
      → Step json w (record w {
        values = (set_order_book json ready reply s w.values).0;
        live = before ++ leaving ∷ after;
      })
  leave :
      (before after : List (Stage S))
      → w.live ≡ before ++ leaving ∷ after
      → Step json w (record w { in_flight = false; live = before ++ after })

pub data Run {S B : Type 0} (json : Encoding S B) (w : RedisWriter S B)
    : RedisWriter S B → Type 0 where
  here : Run json w w
  next : {v x : RedisWriter S B} → Run json w v → Step json v x → Run json w x
