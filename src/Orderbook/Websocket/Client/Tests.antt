-- ===== src/Orderbook/Websocket/Client/Tests.antt =====
-- Runs of the client of orderbook/internal/exchange/websocket.go, and the theorems at them.
use fidorix.Base.{
  ℕ, ◌≡◌, refl, true, false, Option, none, some, pos, Result, ok, length, arith, ◌||◌, ◌==◌, chunks,
  chunks_from,
}
use fidorix.Orderbook.Websocket.{MessageType, ParseError, symbol_groups, chunk_symbols}
use fidorix.Orderbook.Websocket.Registry.{conn_of}
use fidorix.Orderbook.Websocket.Tests.{cfg}
use fidorix.Orderbook.Websocket.Client.{
  connecting, failed, dialled, subscribed, reading, exited, Client, new_client, start_phases, moved,
  Step, Run,
}
use fidorix.Orderbook.Websocket.Client.Sockets.{socket, listed}
use fidorix.Orderbook.Websocket.Client.Closing.{
  is_done, close, wait_closed, is_open-close, register_race,
}

-- A payload is the event that it carries.
abbrev parse : MessageType → ℕ → Result ParseError (Option ℕ)
parse message_type payload = ok (some payload)

one_group : length (symbol_groups cfg) ≡ 1
unfolding symbol_groups chunk_symbols chunks chunks_from
one_group = refl

-- The one loop has dialled, and its subscription is sent.
abbrev started : Client ℕ
started = record new_client { started = true; phases = start_phases cfg }

abbrev up : Client ℕ
up =
    moved
      (moved (record started { made = 1; is_open = λ d. (0 == d) || false }) 1
        (dialled false (pos 1) 0))
      1 (subscribed false 0)

started-Run : Run cfg parse new_client started
started-Run = Run.next Run.here (Step.start refl)

connecting_one : start_phases cfg 1 ≡ connecting false (pos 1)
connecting_one = rw one_group

up-Run : Run cfg parse new_client up
up-Run =
    Run.next (Run.next started-Run (Step.dials 1 false (pos 1) connecting_one))
      (Step.subscribes 1 false (pos 1) 0 refl)

register_race_example :
    Run cfg parse up (close up)
    × ((v : Client ℕ) × Run cfg parse (close up) v
        × (v.cancelled ≡ true)
        × (v.phases 1 ≡ reading 0)
        × (v.is_open 0 ≡ true))
register_race_example = register_race cfg parse up 1 0 false up-Run refl refl

is_open-close_example : (id : ℕ) × (socket (up.phases id) ≡ some 0) × (listed (up.phases id) ≡ none)
is_open-close_example = is_open-close cfg parse up 0 up-Run refl

-- The context is cancelled, and the one dial fails.
abbrev gone : Client ℕ
gone = moved (moved (record started { cancelled = true }) 1 (failed false (pos 1))) 1 exited

gone-Run : Run cfg parse new_client gone
gone-Run =
    Run.next
      (Run.next (Run.next started-Run Step.cancel) (Step.dial_fails 1 false (pos 1) connecting_one))
      (Step.gives_up_failed 1 false (pos 1) refl refl)

gone-done : (id : ℕ) → is_done (gone.phases id) ≡ true
gone-done id = rw one_group (ground arith)

wait_closed_example : ((c : ℕ) → gone.is_open c ≡ false) × ((id : ℕ) → conn_of id gone.conns ≡ none)
wait_closed_example = wait_closed cfg parse gone gone-Run gone-done
