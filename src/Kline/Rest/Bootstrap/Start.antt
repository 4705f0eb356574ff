-- ===== src/Kline/Rest/Bootstrap/Start.antt =====
-- computeStart: what is asked for again of a pair that has candles.
use fidorix.Base.{
  suc, ◌-◌, ◌≡◌, refl, ap, ◌∙◌, some, List, [], ◌∷◌, ◌++◌, arith, length, get_elem?, length-append,
  All, ℤ, pos, ◌+ℤ◌, wrap64, wrap64_of_IsInt64, IsInt64, ◌≤ℤ◌, ◌<ℤ◌, Text, ok,
}
use fidorix.Kline.Candle.{Candle}
use fidorix.Kline.Candle.Place.{IsSorted}
use fidorix.Kline.Store.{CandleFile}
use fidorix.Kline.Rest.Bootstrap.{compute_start}

last_but_one :
    (older : List Candle) (a b : Candle)
    → get_elem? (older ++ a ∷ b ∷ []) (length (older ++ a ∷ b ∷ []) - 2) ≡ some a
last_but_one [] a b = refl
last_but_one (x ∷ xs) a b = rw e (last_but_one xs a b)
  where
    e : suc (length (xs ++ a ∷ b ∷ [])) - 2 ≡ suc (length (xs ++ a ∷ b ∷ []) - 2)
    e = omega (arith, length-append xs (a ∷ b ∷ []))

start_of_two :
    (now limit : ℤ) (interval : Text) (cf : CandleFile) (older : List Candle) (a b : Candle)
    → cf.candles ≡ some (older ++ a ∷ b ∷ [])
    → compute_start now cf interval limit ≡ ok (wrap64 (a.t +ℤ pos 1))
unfolding compute_start
start_of_two now limit interval cf older a b h =
    simp h (ground (arith, last_but_one older a b, length-append older (a ∷ b ∷ [])))

-- The last two of an ascending slice follow all others.
sorted-last :
    (older : List Candle) (a b : Candle)
    → IsSorted (older ++ a ∷ b ∷ [])
    → (a.t <ℤ b.t) × All (λ c. c.t <ℤ a.t) older
sorted-last [] a b h = (h.0.0, tt)
sorted-last (x ∷ xs) a b h =
    let (lt, before) = sorted-last xs a b h.1 in (lt, (after-last xs h.0, before))
  where
    after-last : (ys : List Candle) → All (λ c. x.t <ℤ c.t) (ys ++ a ∷ b ∷ []) → x.t <ℤ a.t
    after-last [] h = h.0
    after-last (y ∷ ys) h = after-last ys h.1

-- Of a pair with at least two candles in order, the last one is asked for again, since it may not
-- have been closed, and none before it is; the start is not out of the range of an int64.
pub compute_start_of_candles :
    (now limit : ℤ) (interval : Text) (cf : CandleFile) (older : List Candle) (a b : Candle)
    → cf.candles ≡ some (older ++ a ∷ b ∷ [])
    → IsSorted (older ++ a ∷ b ∷ [])
    → IsInt64 a.t
    → IsInt64 b.t
    → (start : ℤ) × (compute_start now cf interval limit ≡ ok start)
      × (start ≤ℤ b.t)
      × All (λ c. c.t <ℤ start) (older ++ a ∷ [])
unfolding ◌+ℤ◌
compute_start_of_candles now limit interval cf older a b h sorted fits fits_b =
    let (lt, before) = sorted-last older a b sorted in
    let whole : wrap64 (a.t +ℤ pos 1) ≡ a.t +ℤ pos 1 =
      wrap64_of_IsInt64 (a.t +ℤ pos 1) (ground arith) in
    (
      a.t +ℤ pos 1,
      start_of_two now limit interval cf older a b h ∙ ap ok whole,
      ground arith,
      below older before,
    )
  where
    below :
        (cs : List Candle)
        → All (λ c. c.t <ℤ a.t) cs
        → All (λ c. c.t <ℤ (a.t +ℤ pos 1)) (cs ++ a ∷ [])
    below [] h = (ground arith, tt)
    below (c ∷ cs) h = (ground arith, below cs h.1)
