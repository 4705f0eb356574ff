-- ===== src/Orderbook/Snapshot.antt =====
-- orderbook/internal/exchange/rest.go: the fetch of a depth snapshot with its retries. Durations are
-- in nanoseconds. What the network and the timer answer in each attempt is an argument, and so are
-- the type of the snapshot and the reading of an HTTP date (as the time until it).
pub mod Retries
pub mod Endpoint
pub mod Tests
use fidorix.Base.{
  ℕ, zero, suc, ◌+◌, Bool, true, false, ◌&&◌, not, Option, none, some, List, [], ◌∷◌, if◌then◌else◌,
  ℤ, pos, ltb_ℤ, leb_ℤ, eqb_ℤ, ◌*ℤ◌, wrap64, Text, codes, is_empty, trim_space, atoi, Result, ok,
  err,
}

abbrev pub second : ℤ
second = pos 1000000000

abbrev pub rest_max_retries : ℕ
rest_max_retries = 3

abbrev pub rest_retry_delay : ℤ
rest_retry_delay = pos 2000000000

abbrev pub rest_rate_limit_fallback : ℤ
rest_rate_limit_fallback = pos 5000000000

abbrev pub until_or : ℤ → Option ℤ → ℤ
until_or fallback none = fallback
until_or fallback (some until) = if leb_ℤ until (pos 0) then fallback else until

-- `until_date` is http.ParseTime and then time.Until.
abbrev pub seconds_or : (Text → Option ℤ) → Text → ℤ → Option ℤ → ℤ
seconds_or until_date trimmed fallback none = until_or fallback (until_date trimmed)
seconds_or until_date trimmed fallback (some seconds) =
    if ltb_ℤ (pos 0) seconds
    then wrap64 (seconds *ℤ second)
    else until_or fallback (until_date trimmed)

unfoldable pub parse_retry_after : (Text → Option ℤ) → Text → ℤ → ℤ
parse_retry_after until_date value fallback =
    let trimmed = trim_space value in
    if is_empty trimmed then fallback else seconds_or until_date trimmed fallback (atoi trimmed)

pub data FetchError : Type 0 where
  build_error : FetchError
  execute_error : FetchError
  rate_limited : FetchError
  server_status : ℤ → FetchError
  unexpected_status : ℤ → FetchError
  decode_error : FetchError
  unknown_failure : FetchError
  cancelled : FetchError
  after_retries : FetchError → FetchError

-- `response` has the status, the Retry-After header, and the body as it is decoded.
pub data Reply (S : Type 0) : Type 0 where
  not_built : Reply S
  not_done : Reply S
  response : ℤ → Text → Option S → Reply S

pub record Attempt (S : Type 0) : Type 0 where
  pub reply : Reply S
  pub sleeps : Bool  -- the sleep behind the attempt is not cut short

-- What an attempt comes to: a result, or an error behind which the loop sleeps and goes on. The last
-- attempt sleeps only where it was rate limited.
pub data Verdict (S : Type 0) : Type 0 where
  done : Result FetchError S → Verdict S
  retry : Bool → ℤ → FetchError → Verdict S

abbrev pub is_last : ℕ → Bool
is_last zero = true
is_last (suc left) = false

module _ {S : Type 0} (until_date : Text → Option ℤ) where
  abbrev pub body_verdict : Option S → Verdict S
  body_verdict none = retry false rest_retry_delay decode_error
  body_verdict (some snapshot) = done (ok snapshot)

  abbrev pub verdict : Reply S → Verdict S
  verdict not_built = done (err build_error)
  verdict not_done = retry false rest_retry_delay execute_error
  verdict (response status retry_after body) =
      if eqb_ℤ status (pos 429)
      then retry true (parse_retry_after until_date retry_after rest_rate_limit_fallback)
          rate_limited
      else if leb_ℤ (pos 500) status
      then retry false rest_retry_delay (server_status status)
      else if not (eqb_ℤ status (pos 200))
      then done (err (unexpected_status status))
      else body_verdict body

  abbrev pub with_delay : ℤ → Result FetchError S × List ℤ → Result FetchError S × List ℤ
  with_delay delay r = (r.0, delay ∷ r.1)

  -- `left` attempts follow this one; `rest` is what they come to, given the last error.
  abbrev pub settle :
      ℕ
      → Bool
      → (FetchError → Result FetchError S × List ℤ)
      → Verdict S
      → Result FetchError S × List ℤ
  settle left sleeps rest (done r) = (r, [])
  settle left sleeps rest (retry always delay e) =
      if is_last left && not always
      then (err (after_retries e), [])
      else if sleeps
      then with_delay delay (rest e)
      else (err cancelled, delay ∷ [])

  -- The loop over the attempts: the result, and the delays that were asked for.
  unfoldable pub fetch_from : (ℕ → Attempt S) → ℕ → ℕ → FetchError → Result FetchError S × List ℤ
  fetch_from world zero attempt last_error = (err (after_retries last_error), [])
  fetch_from world (suc left) attempt last_error =
      settle left (world attempt).sleeps (fetch_from world left (suc attempt))
        (verdict (world attempt).reply)

  unfoldable pub fetch_depth_snapshot : (ℕ → Attempt S) → Result FetchError S × List ℤ
  fetch_depth_snapshot world = fetch_from world rest_max_retries 1 unknown_failure
