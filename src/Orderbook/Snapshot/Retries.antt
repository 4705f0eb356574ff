-- ===== src/Orderbook/Snapshot/Retries.antt =====
-- The retries of the snapshot: how many there are, when one is behind the other, and how they end.
use fidorix.Base.{
  subst, ℕ, zero, suc, ◌+◌, ◌≤◌, ◌≡◌, refl, ap, inl, inr, Bool, true, Bool-cases, Option, none,
  some, arith, length, ℤ, pos, ◌≤ℤ◌, ltb_ℤ, ◌*ℤ◌, wrap64_of_IsInt64, Text, is_empty, trim_space,
  atoi, ok,
}
use fidorix.Orderbook.Snapshot.{
  second, rest_max_retries, until_or, seconds_or, parse_retry_after, FetchError, unknown_failure,
  Attempt, done, retry, verdict, fetch_from, fetch_depth_snapshot,
}

seconds_or-pos :
    (until_date : Text → Option ℤ) (trimmed : Text) (fallback : ℤ) (seconds : Option ℤ)
    → pos 1 ≤ℤ fallback
    → ((n : ℤ) → seconds ≡ some n → n ≤ℤ pos 9223372036)
    → pos 1 ≤ℤ seconds_or until_date trimmed fallback seconds
seconds_or-pos until_date trimmed fallback none one small = of_date (until_date trimmed)
  where
    of_date : (o : Option ℤ) → pos 1 ≤ℤ until_or fallback o
    of_date none = one
    of_date (some until) = ground arith
seconds_or-pos until_date trimmed fallback (some n) one small =
    elim (Bool-cases (ltb_ℤ (pos 0) n)) [
      | inr e ↦ rw e (of_date (until_date trimmed))
      | inl e ↦
          rw (e, wrap64_of_IsInt64 (n *ℤ second) (unfold ◌*ℤ◌ in ground (arith, small n refl)))
            (unfold ◌*ℤ◌ in ground arith)
    ]
  where
    of_date : (o : Option ℤ) → pos 1 ≤ℤ until_or fallback o
    of_date none = one
    of_date (some until) = ground arith

-- The wait that a Retry-After header asks for is positive, if its seconds are at most 9223372036:
-- more of them pass the range of a duration.
pub parse_retry_after-pos :
    (until_date : Text → Option ℤ) (value : Text) (fallback : ℤ)
    → pos 1 ≤ℤ fallback
    → ((n : ℤ) → atoi (trim_space value) ≡ some n → n ≤ℤ pos 9223372036)
    → pos 1 ≤ℤ parse_retry_after until_date value fallback
unfolding parse_retry_after
parse_retry_after-pos until_date value fallback one small =
    elim (Bool-cases (is_empty (trim_space value))) [
      | inl e ↦ rw e one
      | inr e ↦ rw e (
          seconds_or-pos until_date (trim_space value) fallback (atoi (trim_space value)) one small)
    ]

add_zero : (n : ℕ) → n + 0 ≡ n
add_zero n = omega arith

add_suc : (n k : ℕ) → n + suc k ≡ suc n + k
add_suc n k = omega arith

module _ {S : Type 0} (until_date : Text → Option ℤ) (world : ℕ → Attempt S) where
  -- Attempt `n` fails in a way that the loop tries again, and its sleep is not cut short.
  abbrev pub IsRetried : ℕ → Type 0
  IsRetried n =
      (always : Bool) × ((delay : ℤ) × ((e : FetchError) × (verdict until_date (world n).reply
            ≡ retry always delay e)))
      × ((world n).sleeps ≡ true)

  abbrev pub AreRetried : ℕ → ℕ → Type 0
  AreRetried n zero = Unit
  AreRetried n (suc k) = IsRetried n × AreRetried (suc n) k

  fetch_from-success :
      (left k n : ℕ) (last_error : FetchError) (snapshot : S)
      → k + 1 ≤ left
      → AreRetried n k
      → verdict until_date (world (n + k)).reply ≡ done (ok snapshot)
      → ((fetch_from until_date world left n last_error).0 ≡ ok snapshot)
        × (length (fetch_from until_date world left n last_error).1 ≡ k)
  unfolding fetch_from
  fetch_from-success zero zero n last_error snapshot le retried good = absurd (omega arith)
  fetch_from-success (suc left) zero n last_error snapshot le retried good =
      rw (subst (λ m. verdict until_date (world m).reply ≡ done (ok snapshot)) (add_zero n) good)
        (refl, refl)
  fetch_from-success zero (suc k) n last_error snapshot le retried good = absurd (omega arith)
  fetch_from-success (suc zero) (suc k) n last_error snapshot le retried good = absurd (omega arith)
  fetch_from-success (suc (suc left)) (suc k) n last_error snapshot le
        ((always, (delay, (e, v)), sleeps), later) good =
      let (found, count) =
        fetch_from-success (suc left) k (suc n) e snapshot (omega arith) later (
          subst (λ m. verdict until_date (world m).reply ≡ done (ok snapshot)) (add_suc n k)
            good) in
      rw (v, sleeps) (found, ap suc count)

  -- If the first `k` attempts fail in a way that is tried again, with k less than the three that there
  -- are, and the next one brings a snapshot, that is the result, behind `k` delays.
  pub fetch_depth_snapshot-success :
      (k : ℕ) (snapshot : S)
      → k + 1 ≤ rest_max_retries
      → AreRetried 1 k
      → verdict until_date (world (1 + k)).reply ≡ done (ok snapshot)
      → ((fetch_depth_snapshot until_date world).0 ≡ ok snapshot)
        × (length (fetch_depth_snapshot until_date world).1 ≡ k)
  unfolding fetch_depth_snapshot
  fetch_depth_snapshot-success k snapshot le retried good =
      fetch_from-success rest_max_retries k 1 unknown_failure snapshot le retried good
