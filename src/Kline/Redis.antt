-- ===== src/Kline/Redis.antt =====
-- kline/internal/redisclient/redis.go: the latest candle of a pair and the publication of updates.
-- Redis is a map of values and the list of what was published; the encoder is an argument.
pub mod Latest
pub mod Race
pub mod Tests
use fidorix.Base.{
  Reply, RedisError, replied, not_initialized, marshal_error, ◌≡◌, Bool, true, false, Option, none,
  some, List, [], ◌∷◌, ◌++◌, if◌then◌else◌, Text, codes, Assoc, insert,
}
use fidorix.Kline.Candle.{Candle}
use fidorix.Kline.Store.{colon, Effect, Store}
use fidorix.Kline.Store

pub record Redis (P : Type 0) : Type 0 where
  pub values : Assoc P
  pub published : List (Text × P)

abbrev pub empty_redis : {P : Type 0} → Redis P
empty_redis = record { values = []; published = [] }

abbrev pub latest_key : Text → Text → Text
latest_key symbol interval = codes "kline:latest:" ++ (symbol ++ (colon ++ interval))

abbrev pub update_channel : Text → Text → Text
update_channel symbol interval = codes "kline:update:" ++ (symbol ++ (colon ++ interval))

module _ {P : Type 0} where
  abbrev pub set_payload : Reply → Text → Option P → Redis P → Redis P × Option RedisError
  set_payload reply key none r = (r, some marshal_error)
  set_payload reply key (some payload) r =
      replied reply r (record r { values = insert key payload r.values })

  abbrev pub publish_payload : Reply → Text → Option P → Redis P → Redis P × Option RedisError
  publish_payload reply channel none r = (r, some marshal_error)
  publish_payload reply channel (some payload) r =
      replied reply r (record r { published = (channel, payload) ∷ r.published })

  -- `ready` is false where the client or its connection is nil.
  unfoldable pub set_latest_bar :
      (Candle → Option P)
      → Bool
      → Reply
      → Text
      → Text
      → Candle
      → Redis P
      → Redis P × Option RedisError
  set_latest_bar marshal ready reply symbol interval candle r =
      if ready
      then set_payload reply (latest_key symbol interval) (marshal candle) r
      else (r, some not_initialized)

  unfoldable pub publish_bar :
      (Candle → Option P)
      → Bool
      → Reply
      → Text
      → Text
      → Candle
      → Redis P
      → Redis P × Option RedisError
  publish_bar marshal ready reply symbol interval candle r =
      if ready
      then publish_payload reply (update_channel symbol interval) (marshal candle) r
      else (r, some not_initialized)

  -- A call of the goroutine that Upsert starts; its error is logged.
  unfoldable pub perform : (Candle → Option P) → (Effect → Reply) → Effect → Redis P → Redis P
  perform marshal reply (Store.upsert_batch symbol interval cs) r = r
  perform marshal reply (Store.set_latest_bar symbol interval c) r =
      (set_latest_bar marshal true (reply (Store.set_latest_bar symbol interval c)) symbol interval
        c r).0
  perform marshal reply (Store.publish_bar symbol interval c) r =
      (publish_bar marshal true (reply (Store.publish_bar symbol interval c)) symbol interval c r).0

  unfoldable pub perform_all :
      (Candle → Option P) → (Effect → Reply) → List Effect → Redis P → Redis P
  perform_all marshal reply [] r = r
  perform_all marshal reply (e ∷ es) r = perform_all marshal reply es (perform marshal reply e r)

-- Close of a client that is not there does nothing.
unfoldable pub close : Bool → Option RedisError → Option RedisError
close ready answer = if ready then answer else none

-- The store, the goroutines that its upserts have started, each with the calls that it has left, and
-- Redis.
pub record Sending (P : Type 0) : Type 0 where
  pub store : Store
  pub redis : Redis P
  pub running : List (List Effect)

pub data Step {P : Type 0} (marshal : Candle → Option P) (w : Sending P) : Sending P → Type 0 where
  upserts :
      (symbol interval : Text) (c : Candle)
      → Step marshal w (record w {
        store = (Store.upsert w.store symbol interval c).0;
        running = w.running ++ (Store.upsert w.store symbol interval c).1 ∷ [];
      })
  -- A goroutine makes its next call.
  calls :
      (reply : Effect → Reply) (e : Effect) (es : List Effect) (before after : List (List Effect))
      → w.running ≡ before ++ (e ∷ es) ∷ after
      → Step marshal w
          (record w { redis = perform marshal reply e w.redis; running = before ++ es ∷ after })

pub data Run {P : Type 0} (marshal : Candle → Option P) (w : Sending P) : Sending P → Type 0 where
  here : Run marshal w w
  next : {v x : Sending P} → Run marshal w v → Step marshal v x → Run marshal w x
