-- ===== src/Orderbook/Websocket/Client.antt =====
-- orderbook/internal/exchange/websocket.go: Start, Close, and the loops of the connections with
-- connectWithBackoff, connectOnce, readLoop and pingLoop, as steps of their goroutines in any order.
-- The network, the timers and the context may do anything.
pub mod Held
pub mod Sockets
pub mod Closing
pub mod Tests
use fidorix.Base.{
  ℕ, suc, ◌+◌, ◌≡◌, Bool, true, false, not, ◌&&◌, ◌||◌, Option, none, some, List, [], ◌∷◌, ◌==◌,
  leb, if◌then◌else◌, length, ℤ, pos, ◌*ℤ◌, wrap64, Result, ok, err,
}
use fidorix.Orderbook.Websocket.{
  WsConfig, symbol_groups, min_ℤ, Conns, register_connection, unregister_connection, ParseError,
  MessageType,
}

-- Where the loop of a connection is. The Boolean is connectedOnce, the integer the delay that
-- connectWithBackoff has next, the number the connection.
pub data Phase : Type 0 where
  absent : Phase
  -- before the dial of connectOnce, and behind it
  connecting : Bool → ℤ → Phase
  dialled : Bool → ℤ → ℕ → Phase
  -- connectOnce has failed: before the look at the context, and in waitFor
  failed : Bool → ℤ → Phase
  waiting : Bool → ℤ → Phase
  -- the subscription is sent: before registerConnection, and behind it
  subscribed : Bool → ℕ → Phase
  registered : Bool → ℕ → Phase
  reading : ℕ → Phase
  -- readLoop has returned: before unregisterConnection, behind it, and behind the close
  stopped : ℕ → Phase
  unregistered : ℕ → Phase
  over : Phase
  exited : Phase

-- A loop has the id of its connection; `made` is the number of sockets that were dialled, and the
-- next one's name.
pub record Client (Event : Type 0) : Type 0 where
  pub started : Bool
  pub cancelled : Bool
  pub phases : ℕ → Phase
  pub conns : Conns
  pub made : ℕ
  pub is_open : ℕ → Bool
  pub events : List Event
  pub reconnects : ℕ

abbrev pub new_client : {Event : Type 0} → Client Event
new_client = record {
  started = false;
  cancelled = false;
  phases = λ id. absent;
  conns = [];
  made = 0;
  is_open = λ c. false;
  events = [];
  reconnects = 0;
}

-- Start makes the loops 1, 2, 3 and on, one to a group of symbols.
abbrev pub start_phases : WsConfig → ℕ → Phase
start_phases cfg id =
    if not (id == 0) && leb id (length (symbol_groups cfg))
    then connecting false cfg.reconnect_delay_sec
    else absent

abbrev pub next_delay : WsConfig → ℤ → ℤ
next_delay cfg delay = min_ℤ (wrap64 (delay *ℤ pos 2)) cfg.max_reconnect_delay_sec

abbrev pub is_registered : ℕ → Conns → Bool
is_registered c [] = false
is_registered c ((i, d) ∷ conns) = (d == c) || is_registered c conns

-- onEvent for a message that is parsed; one that is not is logged, or ignored.
abbrev pub handed : {Event : Type 0} → List Event → Result ParseError (Option Event) → List Event
handed events (err e) = events
handed events (ok none) = events
handed events (ok (some event)) = event ∷ events

abbrev pub reconnected : Bool → ℕ → ℕ
reconnected true n = suc n
reconnected false n = n

module _ {Event : Type 0} where
  abbrev pub moved : Client Event → ℕ → Phase → Client Event
  moved w id p = record w { phases = λ j. if id == j then p else w.phases j }

  abbrev pub shut : ℕ → Client Event → Client Event
  shut c w = record w { is_open = λ d. not (c == d) && w.is_open d }

pub data Step {B Event : Type 0} (cfg : WsConfig)
    (parse : MessageType → B → Result ParseError (Option Event)) (w : Client Event)
    : Client Event → Type 0 where
  start :
      w.started ≡ false → Step cfg parse w (record w { started = true; phases = start_phases cfg })
  -- The first half of Close, or the context above is cancelled.
  cancel : Step cfg parse w (record w { cancelled = true })
  -- The second half of Close: every connection of the map is closed and deleted.
  close_conns :
      Step cfg parse w
        (record w { conns = []; is_open = λ c. w.is_open c && not (is_registered c w.conns) })
  dial_fails :
      (id : ℕ) (once : Bool) (delay : ℤ)
      → w.phases id ≡ connecting once delay
      → Step cfg parse w (moved w id (failed once delay))
  dials :
      (id : ℕ) (once : Bool) (delay : ℤ)
      → w.phases id ≡ connecting once delay
      → Step cfg parse w (
          moved
            (record w { made = suc w.made; is_open = λ d. (w.made == d) || w.is_open d })
            id
            (dialled once delay w.made))
  subscription_fails :
      (id : ℕ) (once : Bool) (delay : ℤ) (c : ℕ)
      → w.phases id ≡ dialled once delay c
      → Step cfg parse w (moved (shut c w) id (failed once delay))
  subscribes :
      (id : ℕ) (once : Bool) (delay : ℤ) (c : ℕ)
      → w.phases id ≡ dialled once delay c
      → Step cfg parse w (moved w id (subscribed once c))
  registers :
      (id : ℕ) (once : Bool) (c : ℕ)
      → w.phases id ≡ subscribed once c
      → Step cfg parse w
          (moved (record w { conns = register_connection id c w.conns }) id (registered once c))
  -- onReconnect, if the loop was connected before, and readLoop begins.
  begins :
      (id : ℕ) (once : Bool) (c : ℕ)
      → w.phases id ≡ registered once c
      → Step cfg parse w
          (moved (record w { reconnects = reconnected once w.reconnects }) id (reading c))
  sleeps :
      (id : ℕ) (once : Bool) (delay : ℤ)
      → w.phases id ≡ failed once delay
      → w.cancelled ≡ false
      → Step cfg parse w (moved w id (waiting once delay))
  wakes :
      (id : ℕ) (once : Bool) (delay : ℤ)
      → w.phases id ≡ waiting once delay
      → Step cfg parse w (moved w id (connecting once (next_delay cfg delay)))
  gives_up_failed :
      (id : ℕ) (once : Bool) (delay : ℤ)
      → w.phases id ≡ failed once delay
      → w.cancelled ≡ true
      → Step cfg parse w (moved w id exited)
  gives_up_waiting :
      (id : ℕ) (once : Bool) (delay : ℤ)
      → w.phases id ≡ waiting once delay
      → w.cancelled ≡ true
      → Step cfg parse w (moved w id exited)
  reads :
      (id c : ℕ) (message_type : MessageType) (payload : B)
      → w.phases id ≡ reading c
      → Step cfg parse w (record w { events = handed w.events (parse message_type payload) })
  -- pingLoop cannot write, and closes the connection.
  ping_fails : (id c : ℕ) → w.phases id ≡ reading c → Step cfg parse w (shut c w)
  read_fails : (id c : ℕ) → w.phases id ≡ reading c → Step cfg parse w (moved w id (stopped c))
  unregisters :
      (id c : ℕ)
      → w.phases id ≡ stopped c
      → Step cfg parse w
          (moved (record w { conns = unregister_connection id c w.conns }) id (unregistered c))
  closes : (id c : ℕ) → w.phases id ≡ unregistered c → Step cfg parse w (moved (shut c w) id over)
  exits : (id : ℕ) → w.phases id ≡ over → w.cancelled ≡ true → Step cfg parse w (moved w id exited)
  goes_on :
      (id : ℕ)
      → w.phases id ≡ over
      → w.cancelled ≡ false
      → Step cfg parse w (moved w id (connecting true cfg.reconnect_delay_sec))

pub data Run {B Event : Type 0} (cfg : WsConfig)
    (parse : MessageType → B → Result ParseError (Option Event)) (w : Client Event)
    : Client Event → Type 0 where
  here : Run cfg parse w w
  next : {v x : Client Event} → Run cfg parse w v → Step cfg parse v x → Run cfg parse w x
