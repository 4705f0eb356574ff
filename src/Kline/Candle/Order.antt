-- ===== src/Kline/Candle/Order.antt =====
-- kline.Upsert keeps the times strictly ascending, and what a look-up by time finds behind it.
use fidorix.Base.{
  ℕ, ◌+◌, ◌≡◌, refl, Option, none, some, List, [], ◌∷◌, arith, if◌then◌else◌, length, ℤ, eqb_ℤ,
  ◌<ℤ◌, ◌≤ℤ◌,
}
use fidorix.Kline.Candle.{Candle, upsert}
use fidorix.Kline.Candle.Place.{IsAfter, IsSorted, place, upsert-eq-place}

place-IsAfter :
    (t : ℤ) (xs : List Candle) (c : Candle) → IsAfter t xs → t <ℤ c.t → IsAfter t (place xs c)
unfolding place
place-IsAfter t [] c h lt = (lt, tt)
place-IsAfter t (x ∷ xs) c h lt = ground (arith, place-IsAfter t xs c h.1 lt)

IsAfter-trans : (s t : ℤ) (xs : List Candle) → s ≤ℤ t → IsAfter t xs → IsAfter s xs
IsAfter-trans s t [] le h = tt
IsAfter-trans s t (x ∷ xs) le h = (omega arith, IsAfter-trans s t xs le h.1)

pub place-IsSorted : (xs : List Candle) (c : Candle) → IsSorted xs → IsSorted (place xs c)
unfolding place
place-IsSorted [] c h = (tt, tt)
place-IsSorted (x ∷ xs) c h =
    ground (arith, place-IsSorted xs c h.1, place-IsAfter x.t xs c h.0, IsAfter-trans c.t x.t xs)

-- An upsert into a slice of strictly ascending times gives one of strictly ascending times.
pub upsert-IsSorted : (xs : List Candle) (c : Candle) → IsSorted xs → IsSorted (upsert xs c)
upsert-IsSorted xs c h = rw (upsert-eq-place xs c h) (place-IsSorted xs c h)

-- The candle of a time: the first, and in an ascending slice the only one.
abbrev pub candle_at : ℤ → List Candle → Option Candle
candle_at t [] = none
candle_at t (x ∷ xs) = if eqb_ℤ x.t t then some x else candle_at t xs

candle_at_of_IsAfter : (t s : ℤ) (xs : List Candle) → t ≤ℤ s → IsAfter s xs → candle_at t xs ≡ none
candle_at_of_IsAfter t s [] le h = refl
candle_at_of_IsAfter t s (x ∷ xs) le h = ground (arith, candle_at_of_IsAfter t s xs le h.1)

candle_at-place :
    (t : ℤ) (xs : List Candle) (c : Candle)
    → candle_at t (place xs c) ≡ (if eqb_ℤ c.t t then some c else candle_at t xs)
unfolding place
candle_at-place t [] c = refl
candle_at-place t (x ∷ xs) c = ground (arith, candle_at-place t xs c)

-- Behind an upsert into a slice of strictly ascending times, the new candle is the one of its time,
-- and every other time has the candle that it had, or none as before.
pub candle_at-upsert :
    (t : ℤ) (xs : List Candle) (c : Candle)
    → IsSorted xs
    → candle_at t (upsert xs c) ≡ (if eqb_ℤ c.t t then some c else candle_at t xs)
candle_at-upsert t xs c h = rw (upsert-eq-place xs c h) (candle_at-place t xs c)

abbrev added : Option Candle → ℕ
added none = 1
added (some x) = 0

length-place :
    (xs : List Candle) (c : Candle)
    → IsSorted xs
    → length (place xs c) ≡ length xs + added (candle_at c.t xs)
unfolding place
length-place [] c h = refl
length-place (x ∷ xs) c h = ground (arith, length-place xs c h.1, candle_at_of_IsAfter c.t x.t xs)

-- An upsert adds one candle if its time was not there, and none if it was.
pub length-upsert :
    (xs : List Candle) (c : Candle)
    → IsSorted xs
    → length (upsert xs c) ≡ length xs + added (candle_at c.t xs)
length-upsert xs c h = rw (upsert-eq-place xs c h) (length-place xs c h)
