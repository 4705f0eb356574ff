-- ===== src/Kline/Ws/Conn.antt =====
-- kline/internal/ws/conn.go: one connection and its run loop. What the network, the timers and the
-- context answer in one pass of the loop is a `Round`; a run is over a list of rounds. Durations are
-- in nanoseconds.
pub mod Backoff
pub mod Reading
pub mod Sending
pub mod Tests
use fidorix.Base.{
  ℕ, ◌+◌, ◌*◌, Bool, true, false, Option, none, some, List, [], ◌∷◌, ◌++◌, ltb, if◌then◌else◌, Text,
}

pub record Subscription : Type 0 where
  pub symbol : Text
  pub interval : Text

abbrev pub second : ℕ
second = 1000000000

unfoldable pub next_backoff : ℕ → ℕ
next_backoff current =
    let next = current * 2 in if ltb (60 * second) next then 60 * second else next

-- The subscriptions whose messages went out, and whether all did. Each answer is one sendJSON's;
-- where the answers run out, it succeeds.
unfoldable pub subscribe_all : List Subscription → List Bool → List Subscription × Bool
subscribe_all [] answers = ([], true)
subscribe_all (sub ∷ subs) [] = let rest = subscribe_all subs [] in (sub ∷ rest.0, rest.1)
subscribe_all (sub ∷ subs) (answer ∷ answers) =
    let rest = subscribe_all subs answers in if answer then (sub ∷ rest.0, rest.1) else ([], false)

-- What one pass of readLoop meets.
pub data Read : Type 0 where
  cancelled : Read
  no_connection : Read
  read_fails : Read
  message : Text → Read
  unsent : Text → Read

-- `ended` is false where the loop still waits for the network; `failed` is its error.
pub record ReadResult : Type 0 where
  pub ended : Bool
  pub had_message : Bool
  pub failed : Bool
  pub sent : List Text

abbrev stop : Bool → Bool → ReadResult
stop had failed = record { ended = true; had_message = had; failed = failed; sent = [] }

abbrev pub with_sent : Text → ReadResult → ReadResult
with_sent payload r = record r { sent = payload ∷ r.sent }

unfoldable pub read_from : Bool → List Read → ReadResult
read_from had [] = record { ended = false; had_message = had; failed = false; sent = [] }
read_from had (cancelled ∷ reads) = stop had false
read_from had (no_connection ∷ reads) = stop had true
read_from had (read_fails ∷ reads) = stop had true
read_from had (message payload ∷ reads) = with_sent payload (read_from true reads)
read_from had (unsent payload ∷ reads) = stop true false

unfoldable pub read_loop : List Read → ReadResult
read_loop reads = read_from false reads

pub record Round : Type 0 where
  pub done : Bool  -- ctx.Err() at the head of the loop
  pub dials : Bool
  pub answers : List Bool
  pub reads : List Read
  pub waits : Bool  -- waitBackoff was not cut short

pub data Phase : Type 0 where
  looping : Phase
  reading : Phase
  returned : Phase

-- The loop of a connection as far as its delays go. Its sockets are in Manager/Running, where Close
-- comes between the steps of a pass.
pub record Conn : Type 0 where
  pub phase : Phase
  pub backoff : ℕ
  pub delays : List ℕ  -- the delays of waitBackoff, the last one first

abbrev pub new_conn : Conn
new_conn = record { phase = looping; backoff = second; delays = [] }

-- The sockets of a connection; `connected` says that `conn` is not nil.
pub record Handle : Type 0 where
  pub connected : Bool
  pub opened : ℕ
  pub closed : ℕ

abbrev pub new_handle : Handle
new_handle = record { connected = false; opened = 0; closed = 0 }

unfoldable pub close : Handle → Handle
close c = if c.connected then record c { connected = false; closed = c.closed + 1 } else c

-- waitBackoff, and nextBackoff where it waited in full
unfoldable pub retry : Bool → Conn → Conn
unfolding next_backoff
retry waits c =
    let asked = record c { delays = c.backoff ∷ c.delays } in
    if waits
    then record asked { backoff = next_backoff c.backoff }
    else record asked { phase = returned }

abbrev pub reset : Bool → Conn → Conn
reset had c = if had then record c { backoff = second } else c

-- The end of a pass, behind readLoop.
unfoldable pub after_read : Bool → ReadResult → Conn → Conn
after_read waits r c =
    if r.ended
    then (if r.failed then retry waits (reset r.had_message c) else record c { phase = returned })
    else record c { phase = reading }

-- What one pass of the loop of Run does to its delays.
unfoldable pub run_round : List Subscription → Round → Conn → Conn
run_round subs r c =
    if r.done
    then record c { phase = returned }
    else if r.dials
    then (if (subscribe_all subs r.answers).1
        then after_read r.waits (read_loop r.reads) c
        else retry r.waits c)
    else retry r.waits c

abbrev pub is_looping : Phase → Bool
is_looping looping = true
is_looping _ = false

unfoldable pub run : List Subscription → List Round → Conn → Conn
run subs [] c = c
run subs (r ∷ rounds) c =
    let later = run subs rounds (run_round subs r c) in if is_looping c.phase then later else c
