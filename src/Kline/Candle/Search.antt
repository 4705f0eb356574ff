-- ===== src/Kline/Candle/Search.antt =====
-- sort.Search as kline.Upsert uses it: over a monotone test it returns the first index that passes.
use fidorix.Base.{
  ℕ, zero, suc, ◌+◌, ◌/◌, ◌≤◌, ◌<◌, ◌≡◌, inl, inr, Bool, true, false, arith, ltb, Bool-cases,
}
use fidorix.Kline.Candle.{search_from, search}

-- `r` parts the indices below `n` into those that fail the test and those that pass it.
pub record IsCut (n : ℕ) (f : ℕ → Bool) (r : ℕ) : Type 0 where
  pub within : r ≤ n
  pub below : (k : ℕ) → k < r → f k ≡ false
  pub above : (k : ℕ) → r ≤ k → k < n → f k ≡ true

module _ (n : ℕ) (f : ℕ → Bool) (mono : (k m : ℕ) → k ≤ m → m < n → f k ≡ true → f m ≡ true) where
  fails_below : (m : ℕ) → m < n → f m ≡ false → (k : ℕ) → k < m + 1 → f k ≡ false
  fails_below m lt e k h = elim (Bool-cases (f k)) [
    | inl p ↦ ground (arith, mono k m (omega arith) lt p)
    | inr p ↦ p
  ]

  search_from-IsCut :
      (fuel i j : ℕ)
      → i ≤ j
      → j ≤ n
      → j ≤ i + fuel
      → ((k : ℕ) → k < i → f k ≡ false)
      → ((k : ℕ) → j ≤ k → k < n → f k ≡ true)
      → IsCut n f (search_from fuel f i j)
  unfolding search_from
  search_from-IsCut zero i j le fits enough low high = record {
    within = omega arith;
    below = low;
    above = λ k p q. high k (omega arith) q;
  }
  search_from-IsCut (suc fuel) i j le fits enough low high = elim (Bool-cases (ltb i j)) [
    | inr stop ↦
        rw stop
          (record { within = omega arith; below = low; above = λ k p q. high k (ground arith) q })
    | inl more ↦ elim (Bool-cases (f ((i + j) / 2))) [
      | inl p ↦
          rw (more, p)
            (search_from-IsCut fuel i ((i + j) / 2) (ground arith) (ground arith) (ground arith) low
              (λ k le lt. mono ((i + j) / 2) k le lt p))
      | inr p ↦
          rw (more, p)
            (search_from-IsCut fuel ((i + j) / 2 + 1) j (ground arith) fits (ground arith)
              (fails_below ((i + j) / 2) (ground arith) p) high)
    ]
  ]

  pub search-IsCut : IsCut n f (search n f)
  unfolding search
  search-IsCut =
      search_from-IsCut n 0 n (omega arith) (omega arith) (omega arith)
        (λ k h. absurd (omega arith)) (λ k p q. absurd (omega arith))
