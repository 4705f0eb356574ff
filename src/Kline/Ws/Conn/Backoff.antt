-- ===== src/Kline/Ws/Conn/Backoff.antt =====
-- The delays between two attempts to connect.
use Prim.Native.Nat.{min}
use native.Mathlib.Nat.{pow-suc}
use fidorix.Base.{
  ◌∙◌, ℕ, zero, suc, ◌+◌, ◌*◌, ◌^◌, ◌≤◌, ◌≡◌, refl, ap, Bool, true, false, List, [], ◌∷◌, arith,
  if◌then◌else◌, All,
}
use fidorix.Kline.Ws.Conn.{
  Subscription, second, next_backoff, Round, Conn, looping, new_conn, retry, reset, after_read,
  run_round, is_looping, run, ReadResult, read_loop, subscribe_all,
}

abbrev pub IsDelay : ℕ → Type 0
IsDelay d = (second ≤ d) × (d ≤ 60 * second)

-- The next delay is the double, but a minute at most.
next_backoff-IsDelay : (d : ℕ) → IsDelay d → IsDelay (next_backoff d)
unfolding next_backoff
next_backoff-IsDelay d h = ground arith

pub record IsPaced (c : Conn) : Type 0 where
  pub backoff : IsDelay c.backoff
  pub delays : All IsDelay c.delays

retry-IsPaced : (waits : Bool) (c : Conn) → IsPaced c → IsPaced (retry waits c)
unfolding retry
retry-IsPaced true c h = record {
  backoff = next_backoff-IsDelay c.backoff h.backoff;
  delays = (h.backoff, h.delays);
}
retry-IsPaced false c h = record { backoff = h.backoff; delays = (h.backoff, h.delays) }

reset-IsPaced : (had : Bool) (c : Conn) → IsPaced c → IsPaced (reset had c)
reset-IsPaced true c h = record { backoff = omega arith; delays = h.delays }
reset-IsPaced false c h = h

IsPaced-if : (b : Bool) (c d : Conn) → IsPaced c → IsPaced d → IsPaced (if b then c else d)
IsPaced-if true c d h k = h
IsPaced-if false c d h k = k

after_read-IsPaced :
    (waits : Bool) (r : ReadResult) (c : Conn) → IsPaced c → IsPaced (after_read waits r c)
unfolding after_read
after_read-IsPaced waits r c h =
    IsPaced-if r.ended _ _
      (IsPaced-if r.failed _ _ (retry-IsPaced waits _ (reset-IsPaced r.had_message c h))
        (record { backoff = h.backoff; delays = h.delays }))
      (record { backoff = h.backoff; delays = h.delays })

run_round-IsPaced :
    (subs : List Subscription) (r : Round) (c : Conn) → IsPaced c → IsPaced (run_round subs r c)
unfolding run_round
run_round-IsPaced subs r c h =
    IsPaced-if r.done _ _ (record { backoff = h.backoff; delays = h.delays })
      (IsPaced-if r.dials _ _
        (IsPaced-if (subscribe_all subs r.answers).1 _ _
          (after_read-IsPaced r.waits (read_loop r.reads) c h) (retry-IsPaced r.waits c h))
        (retry-IsPaced r.waits c h))

-- Whatever the network does, every delay of a run is at least a second and at most a minute.
pub run-IsPaced :
    (subs : List Subscription) (rounds : List Round) (c : Conn)
    → IsPaced c
    → IsPaced (run subs rounds c)
unfolding run
run-IsPaced subs [] c h = h
run-IsPaced subs (r ∷ rounds) c h =
    IsPaced-if (is_looping c.phase) _ _
      (run-IsPaced subs rounds (run_round subs r c) (run_round-IsPaced subs r c h)) h

abbrev pub dial_failure : Round
dial_failure = record { done = false; dials = false; answers = []; reads = []; waits = true }

abbrev pub replicate : ℕ → Round → List Round
replicate zero r = []
replicate (suc n) r = r ∷ replicate n r

-- The delay behind `k` failures in a row: two to the `k` seconds, but a minute at most.
abbrev pub delay_after : ℕ → ℕ
delay_after k = min (2 ^ k * second) (60 * second)

abbrev pub delays_of : ℕ → List ℕ
delays_of zero = []
delays_of (suc k) = delay_after k ∷ delays_of k

next_backoff-delay_after : (k : ℕ) → next_backoff (delay_after k) ≡ delay_after (suc k)
unfolding next_backoff
next_backoff-delay_after k = ground (arith, pow-suc 2 k)

run-dial_failures :
    (subs : List Subscription) (k j : ℕ) (c : Conn)
    → c.phase ≡ looping
    → c.backoff ≡ delay_after j
    → c.delays ≡ delays_of j
    → (run subs (replicate k dial_failure) c).delays ≡ delays_of (j + k)
unfolding run run_round retry
run-dial_failures subs zero j c now b d = d ∙ ap delays_of (omega arith)
run-dial_failures subs (suc k) j c now b d = simp now (
    run-dial_failures subs k (suc j) _ refl (ap next_backoff b ∙ next_backoff-delay_after j)
      (cons-eq b d)
    ∙ ap delays_of (omega arith))
  where
    cons-eq : {a b : ℕ} {s t : List ℕ} → a ≡ b → s ≡ t → a ∷ s ≡ b ∷ t
    cons-eq p q = cc

-- While every attempt to connect fails, the delays double from one second up to a minute.
pub delays-run :
    (subs : List Subscription) (k : ℕ)
    → (run subs (replicate k dial_failure) new_conn).delays ≡ delays_of k
delays-run subs k = run-dial_failures subs k 0 new_conn refl refl refl ∙ ap delays_of (omega arith)

-- A connection that has brought a message is retried behind one second, however long the delays
-- had grown; one that has not is retried behind the delay that was due.
pub delays-run_round :
    (subs : List Subscription) (r : Round) (c : Conn)
    → r.done ≡ false
    → r.dials ≡ true
    → (subscribe_all subs r.answers).1 ≡ true
    → (read_loop r.reads).ended ≡ true
    → (read_loop r.reads).failed ≡ true
    → (run_round subs r c).delays
      ≡ (if (read_loop r.reads).had_message then second else c.backoff) ∷ c.delays
unfolding run_round after_read retry
delays-run_round subs r c a b d e f = ground arith
