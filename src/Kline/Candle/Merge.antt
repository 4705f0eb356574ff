-- ===== src/Kline/Candle/Merge.antt =====
-- The order in which candles arrive: upserts of different times commute, and of one time the last
-- stays.
use fidorix.Base.{◌≡◌, ◌≢◌, List, [], ◌∷◌, arith, eqb_ℤ, eqb_ℤ_iff, false}
use fidorix.Kline.Candle.{Candle, upsert}
use fidorix.Kline.Candle.Place.{IsSorted, place, upsert-eq-place}
use fidorix.Kline.Candle.Order.{place-IsSorted, upsert-IsSorted}

place_comm :
    (xs : List Candle) (a b : Candle)
    → eqb_ℤ a.t b.t ≡ false
    → place (place xs a) b ≡ place (place xs b) a
unfolding place
place_comm [] a b ne = ground arith
place_comm (x ∷ xs) a b ne = ground (arith, place_comm xs a b ne)

place_overwrite : (xs : List Candle) (a b : Candle) → a.t ≡ b.t → place (place xs a) b ≡ place xs b
unfolding place
place_overwrite [] a b e = ground arith
place_overwrite (x ∷ xs) a b e = ground (arith, place_overwrite xs a b e)

upsert-upsert-eq-place :
    (xs : List Candle) (a b : Candle) → IsSorted xs → upsert (upsert xs a) b ≡ place (place xs a) b
upsert-upsert-eq-place xs a b h =
    rw (upsert-eq-place xs a h) (upsert-eq-place (place xs a) b (place-IsSorted xs a h))

-- Candles of different times may arrive in either order.
pub upsert_comm :
    (xs : List Candle) (a b : Candle)
    → IsSorted xs
    → a.t ≢ b.t
    → upsert (upsert xs a) b ≡ upsert (upsert xs b) a
upsert_comm xs a b h ne =
    rw (upsert-upsert-eq-place xs a b h, upsert-upsert-eq-place xs b a h)
      (place_comm xs a b (ground (arith, eqb_ℤ_iff a.t b.t)))

-- Of two candles of one time the later one stays, as if the earlier had never arrived.
pub upsert_overwrite :
    (xs : List Candle) (a b : Candle)
    → IsSorted xs
    → a.t ≡ b.t
    → upsert (upsert xs a) b ≡ upsert xs b
upsert_overwrite xs a b h e =
    rw (upsert-upsert-eq-place xs a b h, upsert-eq-place xs b h) (place_overwrite xs a b e)

-- The loop of bootstrapPair over the candles that were fetched.
unfoldable pub upsert_all : List Candle → List Candle → List Candle
upsert_all xs [] = xs
upsert_all xs (c ∷ cs) = upsert_all (upsert xs c) cs

pub upsert_all-IsSorted : (xs cs : List Candle) → IsSorted xs → IsSorted (upsert_all xs cs)
unfolding upsert_all
upsert_all-IsSorted xs [] h = h
upsert_all-IsSorted xs (c ∷ cs) h = upsert_all-IsSorted (upsert xs c) cs (upsert-IsSorted xs c h)
