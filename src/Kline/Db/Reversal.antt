-- ===== src/Kline/Db/Reversal.antt =====
-- reverseCandles: the swaps from both ends give the reverse.
use mathlib.Core.List.{reverse, reverse_aux-append, reverse-cons}
use fidorix.Base.{
  subst, lt→ltb, ℕ, zero, suc, ◌+◌, ◌-◌, ◌≤◌, ◌≡◌, refl, ap, sym, ◌∙◌, inl, inr, ◌⊎◌, List, [], ◌∷◌,
  ◌++◌, append-nil, append_assoc, arith, length, length-append, get_elem?, set,
}
use fidorix.Kline.Candle.{Candle}
use fidorix.Kline.Db.{swapped, reverse_from, reverse_candles}

suc_add : (m k : ℕ) → suc m + k ≡ suc (m + k)
suc_add m k = omega arith

zero_add : (k : ℕ) → 0 + k ≡ k
zero_add k = omega arith

module _ {A : Type 0} where
  get-append : (xs ys : List A) (k : ℕ) → get_elem? (xs ++ ys) (length xs + k) ≡ get_elem? ys k
  get-append [] ys k = rw (zero_add k)
  get-append (x ∷ xs) ys k = rw (suc_add (length xs) k) (get-append xs ys k)

  set-append :
      (xs ys : List A) (k : ℕ) (v : A) → set (xs ++ ys) (length xs + k) v ≡ xs ++ set ys k v
  set-append [] ys k v = rw (zero_add k)
  set-append (x ∷ xs) ys k v = rw (suc_add (length xs) k) (ap (λ zs. x ∷ zs) (set-append xs ys k v))

  -- A list is empty, or has one element, or a first and a last one.
  ends-cases :
      (m : List A)
      → (m ≡ [])
        ⊎ (((x : A) × (m ≡ x ∷ [])) ⊎ ((x : A) × (y : A) × (n : List A) × (m ≡ x ∷ (n ++ y ∷ []))))
  ends-cases [] = inl refl
  ends-cases (x ∷ m) = elim (ends-cases m) [
    | inl e ↦ inr (inl (x, ap (λ n. x ∷ n) e))
    | inr (inl (y, e)) ↦ inr (inr (x, y, [], ap (λ n. x ∷ n) e))
    | inr (inr (z, y, n, e)) ↦ inr (inr (x, y, z ∷ n, ap (λ n. x ∷ n) e))
  ]

  reverse-ends : (x y : A) (n : List A) → reverse (x ∷ (n ++ y ∷ [])) ≡ y ∷ (reverse n ++ x ∷ [])
  reverse-ends x y n = reverse_aux-append n (y ∷ []) (x ∷ []) ∙ ap (λ zs. y ∷ zs) (reverse-cons x n)

-- One swap, of the ends of what is not reversed yet.
swapped-ends :
    (a n b : List Candle) (x y : Candle) (i j : ℕ)
    → i ≡ length a + 0
    → j ≡ length a + suc (length n + 0)
    → swapped
        (a ++ (x ∷ (n ++ y ∷ b)))
        i
        j
        (get_elem? (a ++ (x ∷ (n ++ y ∷ b))) i)
        (get_elem? (a ++ (x ∷ (n ++ y ∷ b))) j)
      ≡ a ++ (y ∷ (n ++ x ∷ b))
swapped-ends a n b x y i j at_i at_j = rw (
  at_i,
  at_j,
  get-append a (x ∷ (n ++ y ∷ b)) 0,
  get-append a (x ∷ (n ++ y ∷ b)) (suc (length n + 0)),
  get-append n (y ∷ b) 0,
  set-append a (x ∷ (n ++ y ∷ b)) 0 y,
  set-append a (y ∷ (n ++ y ∷ b)) (suc (length n + 0)) x,
  set-append n (y ∷ b) 0 x,
)

reverse_from_stops : (fuel : ℕ) (cs : List Candle) (i j : ℕ) → j ≤ i → reverse_from fuel cs i j ≡ cs
unfolding reverse_from
reverse_from_stops zero cs i j le = refl
reverse_from_stops (suc fuel) cs i j le = ground arith

reverse_from_goes :
    (fuel : ℕ) (cs : List Candle) (i j : ℕ)
    → i + 1 ≤ j
    → reverse_from (suc fuel) cs i j
      ≡ reverse_from fuel (swapped cs i j (get_elem? cs i) (get_elem? cs j)) (i + 1) (j - 1)
unfolding reverse_from
reverse_from_goes fuel cs i j lt = rw (lt→ltb i j (omega arith))

-- What the loop makes of the part `m` that is not reversed yet.
IsReversed : ℕ → List Candle → List Candle → List Candle → ℕ → ℕ → Type 0
IsReversed fuel a m b i j = reverse_from fuel (a ++ (m ++ b)) i j ≡ a ++ (reverse m ++ b)

swapped-IsReversed :
    (fuel : ℕ) (a n b : List Candle) (x y : Candle) (i j : ℕ)
    → length a ≡ i
    → i + suc (length n) ≡ j
    → IsReversed fuel (a ++ y ∷ []) n (x ∷ b) (i + 1) (j - 1)
    → IsReversed (suc fuel) a (x ∷ (n ++ y ∷ [])) b i j
unfolding IsReversed
swapped-IsReversed fuel a n b x y i j at_i at_j h =
    let next : List Candle → List Candle = λ cs. reverse_from fuel cs (i + 1) (j - 1) in
    rw (reverse-ends x y n, append_assoc n (y ∷ []) b, append_assoc (reverse n) (x ∷ []) b)
      (reverse_from_goes fuel (a ++ (x ∷ (n ++ y ∷ b))) i j (omega arith)
        ∙ ap next (swapped-ends a n b x y i j (omega arith) (omega arith))
        ∙ ap next (sym (append_assoc a (y ∷ []) (n ++ x ∷ b)))
        ∙ h
        ∙ append_assoc a (y ∷ []) (reverse n ++ x ∷ b))

reverse_from-IsReversed :
    (fuel : ℕ) (a m b : List Candle) (i j : ℕ)
    → length m ≤ fuel
    → length a ≡ i
    → i + length m ≡ j + 1
    → IsReversed fuel a m b i j
reverse_from-IsReversed zero a [] b i j enough at_i at_j =
    unfold IsReversed in reverse_from_stops zero (a ++ b) i j (omega arith)
reverse_from-IsReversed zero a (x ∷ m) b i j enough at_i at_j = absurd (omega arith)
reverse_from-IsReversed (suc fuel) a m b i j enough at_i at_j = elim (ends-cases m) [
  | inl e ↦
      subst (λ k. IsReversed (suc fuel) a k b i j) (sym e)
        (unfold IsReversed in
          reverse_from_stops (suc fuel) (a ++ b) i j (omega (arith, ap (length {A = Candle}) e)))
  | inr (inl (x, e)) ↦
      subst (λ k. IsReversed (suc fuel) a k b i j) (sym e)
        (unfold IsReversed in
          reverse_from_stops (suc fuel) (a ++ x ∷ b) i j
            (omega (arith, ap (length {A = Candle}) e)))
  | inr (inr (x, y, n, e)) ↦
      let count = ap (length {A = Candle}) e in
      let inner = length-append n (y ∷ []) in
      subst (λ k. IsReversed (suc fuel) a k b i j) (sym e)
        (swapped-IsReversed fuel a n b x y i j at_i (omega arith) (
          reverse_from-IsReversed fuel (a ++ y ∷ []) n (x ∷ b) (i + 1) (j - 1) (omega arith)
            (omega (arith, length-append a (y ∷ []))) (omega arith)))
]

-- The swaps from both ends reverse the slice.
pub reverse_candles-eq-reverse : (cs : List Candle) → reverse_candles cs ≡ reverse cs
unfolding reverse_candles
reverse_candles-eq-reverse [] = reverse_from_stops 0 [] 0 0 (omega arith)
reverse_candles-eq-reverse (c ∷ cs) =
    unfold IsReversed in
    (ap (λ xs. reverse_from (length (c ∷ cs)) xs 0 (length (c ∷ cs) - 1))
        (sym (append-nil (c ∷ cs)))
      ∙ reverse_from-IsReversed (length (c ∷ cs)) [] (c ∷ cs) [] 0 (length (c ∷ cs) - 1)
          (omega arith) refl (omega arith)
      ∙ append-nil (reverse (c ∷ cs)))
