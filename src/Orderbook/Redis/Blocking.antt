-- ===== src/Orderbook/Redis/Blocking.antt =====
-- When WriteSnapshotBlocking gets to its write.
use fidorix.Base.{ℕ, zero, suc, ◌≡◌, true, false, List, ◌∷◌}
use fidorix.Orderbook.Redis.{Round, entered, wait_rounds, write_snapshot_blocking}

-- A write is in flight, and nothing interrupts the wait.
abbrev pub busy : Round
busy = record { in_flight = true; waits = true }

abbrev pub busy_rounds : ℕ → List Round → List Round
busy_rounds zero more = more
busy_rounds (suc k) more = busy ∷ busy_rounds k more

wait_rounds-busy :
    (k : ℕ) (r : Round) (more : List Round)
    → r.in_flight ≡ false
    → wait_rounds (busy_rounds k (r ∷ more)) ≡ (entered, k)
unfolding wait_rounds
wait_rounds-busy zero r more free = simp free
wait_rounds-busy (suc k) r more free = rw (wait_rounds-busy k r more free)

-- However long a write is in flight, a call that is not interrupted gets to its own write in the
-- first round in which the flag is free, and has waited once in each round before.
pub write_snapshot_blocking-busy :
    (k : ℕ) (r : Round) (more : List Round)
    → r.in_flight ≡ false
    → write_snapshot_blocking true (busy_rounds k (r ∷ more)) ≡ (entered, k)
unfolding write_snapshot_blocking
write_snapshot_blocking-busy k r more free = wait_rounds-busy k r more free
