-- ===== src/Base/Calls.antt =====
-- How the calls of a Redis client end. Both services use go-redis.
use mathlib.Core.Option.{Option, none, some}

-- A call may have been done although its answer is an error.
pub data Reply : Type 0 where
  done : Reply
  refused : Reply
  done_unanswered : Reply

pub data RedisError : Type 0 where
  not_initialized : RedisError
  marshal_error : RedisError
  call_error : RedisError

-- The state behind a call, and its error.
abbrev pub replied : {R : Type 0} → Reply → R → R → R × Option RedisError
replied done before after = (after, none)
replied refused before after = (before, some call_error)
replied done_unanswered before after = (after, some call_error)
