-- ===== src/Kline/Candle/Place.antt =====
-- kline.Upsert against the insertion that walks the slice.
use fidorix.Base.{
  ℕ, zero, suc, ◌≤◌, ◌<◌, ◌≡◌, refl, true, List, [], ◌∷◌, arith, if◌then◌else◌, length, All, ℤ,
  ltb_ℤ, eqb_ℤ, ◌≤ℤ◌, ◌<ℤ◌,
}
use fidorix.Kline.Candle.{Candle, at_least, write_at, upsert}
use fidorix.Kline.Candle.Search.{IsCut, search-IsCut}

-- Every candle is later than `t`.
abbrev pub IsAfter : ℤ → List Candle → Type 0
IsAfter t = All (λ x. t <ℤ x.t)

-- Strictly ascending times: in order, and no time twice.
abbrev pub IsSorted : List Candle → Type 0
IsSorted [] = Unit
IsSorted (x ∷ xs) = IsAfter x.t xs × IsSorted xs

-- The reference: walk to the first candle that is not earlier, and replace it or go before it.
unfoldable pub place : List Candle → Candle → List Candle
place [] c = c ∷ []
place (x ∷ xs) c =
    let rest = place xs c in
    if ltb_ℤ x.t c.t then x ∷ rest else if eqb_ℤ x.t c.t then c ∷ xs else c ∷ x ∷ xs

-- The first `r` candles are earlier than `t`, and the others are not.
abbrev IsSplit : ℤ → List Candle → ℕ → Type 0
IsSplit t xs zero = All (λ x. t ≤ℤ x.t) xs
IsSplit t [] (suc r) = ⊥
IsSplit t (x ∷ xs) (suc r) = (x.t <ℤ t) × IsSplit t xs r

write_at-eq-place :
    (xs : List Candle) (r : ℕ) (c : Candle) → IsSplit c.t xs r → write_at xs r c ≡ place xs c
unfolding write_at place
write_at-eq-place [] zero c h = refl
write_at-eq-place [] (suc r) c h = absurd h
write_at-eq-place (x ∷ xs) zero c h = ground arith
write_at-eq-place (x ∷ xs) (suc r) c h = ground (arith, write_at-eq-place xs r c h.1)

All-at_least :
    (t : ℤ) (xs : List Candle)
    → ((k : ℕ) → k < length xs → at_least xs t k ≡ true)
    → All (λ x. t ≤ℤ x.t) xs
unfolding at_least
All-at_least t [] h = tt
All-at_least t (x ∷ xs) h =
    (ground (arith, h 0 (omega arith)), All-at_least t xs (λ k lt. h (suc k) (omega arith)))

IsCut-IsSplit :
    (t : ℤ) (xs : List Candle) (r : ℕ) → IsCut (length xs) (at_least xs t) r → IsSplit t xs r
unfolding at_least
IsCut-IsSplit t xs zero h = All-at_least t xs (λ k lt. h.above k (omega arith) lt)
IsCut-IsSplit t [] (suc r) h = omega (arith, h.within)
IsCut-IsSplit t (x ∷ xs) (suc r) h = (
  ground (arith, h.below 0 (omega arith)),
  IsCut-IsSplit t xs r (record {
    within = omega (arith, h.within);
    below = λ k lt. h.below (suc k) (omega arith);
    above = λ k le lt. h.above (suc k) (omega arith) (omega arith);
  }),
)

at_least_of_IsAfter :
    (t s : ℤ) (xs : List Candle) (m : ℕ)
    → IsAfter s xs
    → t ≤ℤ s
    → m < length xs
    → at_least xs t m ≡ true
unfolding at_least
at_least_of_IsAfter t s [] m h le lt = absurd (omega arith)
at_least_of_IsAfter t s (x ∷ xs) zero h le lt = ground arith
at_least_of_IsAfter t s (x ∷ xs) (suc m) h le lt = at_least_of_IsAfter t s xs m h.1 le (omega arith)

at_least_mono :
    (t : ℤ) (xs : List Candle)
    → IsSorted xs
    → (k m : ℕ) → k ≤ m
    → m < length xs
    → at_least xs t k ≡ true
    → at_least xs t m ≡ true
unfolding at_least
at_least_mono t [] h k m le lt e = absurd (omega arith)
at_least_mono t (x ∷ xs) h zero zero le lt e = e
at_least_mono t (x ∷ xs) h zero (suc m) le lt e =
    at_least_of_IsAfter t x.t xs m h.0 (ground arith) (omega arith)
at_least_mono t (x ∷ xs) h (suc k) zero le lt e = absurd (omega arith)
at_least_mono t (x ∷ xs) h (suc k) (suc m) le lt e =
    at_least_mono t xs h.1 k m (omega arith) (omega arith) e

-- On a slice of strictly ascending times, the upsert by binary search gives what the walk through
-- the slice gives: the candle replaces the one of its time, or goes before the first later one.
pub upsert-eq-place : (xs : List Candle) (c : Candle) → IsSorted xs → upsert xs c ≡ place xs c
unfolding upsert
upsert-eq-place xs c h =
    write_at-eq-place xs _ c
      (IsCut-IsSplit c.t xs _ (search-IsCut (length xs) (at_least xs c.t) (at_least_mono c.t xs h)))
