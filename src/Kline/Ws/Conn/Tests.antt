-- ===== src/Kline/Ws/Conn/Tests.antt =====
-- Tests of kline/internal/ws/conn.go, and the theorems at inputs.
use fidorix.Base.{
  pos, ◌*◌, ◌≡◌, refl, ◌⊎◌, true, false, some, List, [], ◌∷◌, arith, codes, ℕ, length, take, ◌<◌,
}
use fidorix.Kline.Ws.Conn.{
  Subscription, second, Round, message, read_fails, cancelled, new_conn, new_handle, run, run_round,
  read_loop, subscribe_all, returned, close, retry, after_read, read_from,
}
use fidorix.Kline.Ws.Conn.Backoff.{
  IsPaced, run-IsPaced, dial_failure, delays-run, delays-run_round, replicate,
}
use fidorix.Kline.Ws.Conn.Sending.{not_established, send_json, ping_interval, ping_loop}
use fidorix.Kline.Ws.Conn.Reading.{read_loop-messages, subscribe_all_result}

abbrev subs : List Subscription
subs =
    record { symbol = codes "BTC_USDT"; interval = codes "Min1" }
    ∷ record { symbol = codes "BTC_USDT"; interval = codes "Min5" }
    ∷ []

-- A session that brings a message and then fails, and one whose context is cancelled.
abbrev session : Round
session = record {
  done = false;
  dials = true;
  answers = [];
  reads = message (codes "m") ∷ read_fails ∷ [];
  waits = true;
}

abbrev last_session : Round
last_session = record session { reads = cancelled ∷ [] }

abbrev history : List Round
history = dial_failure ∷ dial_failure ∷ session ∷ last_session ∷ []

conn : Unit {0}
unfolding run run_round retry after_read read_loop read_from subscribe_all
conn = tt

run_tests :
    ((run subs history new_conn).delays ≡ second ∷ 2 * second ∷ second ∷ [])
    × ((run subs history new_conn).phase ≡ returned)
unfolding conn
run_tests = (refl, refl)

new_conn-IsPaced : IsPaced new_conn
new_conn-IsPaced = omega arith

run-IsPaced_example : IsPaced (run subs history new_conn)
run-IsPaced_example = run-IsPaced subs history new_conn new_conn-IsPaced

delays-run_test :
    (run subs (replicate 3 dial_failure) new_conn).delays ≡ 4 * second ∷ 2 * second ∷ second ∷ []
delays-run_test = delays-run subs 3

delays-run_round_test : (run_round subs session new_conn).delays ≡ second ∷ []
unfolding read_loop read_from
delays-run_round_test =
    delays-run_round subs session new_conn refl refl (unfold conn in refl) (unfold conn in refl)
      (unfold conn in refl)

read_loop-messages_test :
    read_loop (message (codes "m") ∷ read_fails ∷ [])
    ≡ record { ended = true; had_message = true; failed = true; sent = codes "m" ∷ [] }
read_loop-messages_test = read_loop-messages (codes "m" ∷ []) []

subscribe_all_result_test :
    (((subscribe_all subs (true ∷ false ∷ [])).1 ≡ true)
      × ((subscribe_all subs (true ∷ false ∷ [])).0 ≡ subs))
    ⊎ (((subscribe_all subs (true ∷ false ∷ [])).1 ≡ false)
        × ((k : ℕ) × (k < length subs)
            × ((subscribe_all subs (true ∷ false ∷ [])).0 ≡ take k subs)))
subscribe_all_result_test = subscribe_all_result subs (true ∷ false ∷ [])

send_tests :
    (send_json (record { sets_deadline = true; writes = true }) new_handle ≡ some not_established)
    × ((ping_loop
          (record { sets_deadline = true; writes = true }
            ∷ record { sets_deadline = true; writes = false }
            ∷ [])
          (record new_handle { connected = true; opened = 1 })).0.connected
        ≡ false)
    × (ping_interval (pos 0) ≡ 15000000000)
unfolding ping_loop send_json close
send_tests = (refl, refl, refl)
