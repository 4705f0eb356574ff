-- ===== src/Base/Chunks.antt =====
-- The loop that cuts a slice into chunks of a size: `for i := 0; i < len(xs); i += size`. The
-- manager of kline/internal/ws/manager.go and chunkSymbols of orderbook/internal/exchange do it so.
use Prim.Native.Nat.{ℕ, zero, suc, ◌+◌, ◌-◌, ◌/◌, ◌<◌, ◌≤◌}
use mathlib.Core.Path.{◌≡◌, refl, sym, ap, ◌∙◌}
use mathlib.Core.Logic.{inl, inr}
use mathlib.Core.List.{List, [], ◌∷◌, ◌++◌, append-nil}
use native.Mathlib.Omega.{arith}
use native.Mathlib.Nat.{div-eq_of_lt, div-eq-sub-div}
use fidorix.Base.Tests.{ltb, if◌then◌else◌, Bool-cases}
use fidorix.Base.Lists.{All, length, take, drop, length-take, length-drop, take-append-drop}

one_more :
    (n i size : ℕ)
    → 0 < size
    → i < n
    → suc ((n - (i + size) + size - 1) / size) ≡ (n - i + size - 1) / size
one_more n i size h lt = elim (Bool-cases (ltb (n - i) size)) [
  | inl e ↦
      ap suc (div-eq_of_lt (let p : n - (i + size) + size - 1 < size = ground arith in p))
      ∙ sym (
          div-eq-sub-div h (let p : size ≤ n - i + size - 1 = omega arith in p)
          ∙ ap (λ k. k + 1)
              (div-eq_of_lt (let p : n - i + size - 1 - size < size = ground arith in p))
          ∙ (let p : 0 + 1 ≡ 1 = omega arith in p))
  | inr e ↦ sym (
      div-eq-sub-div h (let p : size ≤ n - i + size - 1 = omega arith in p)
      ∙ ap (λ k. k / size + 1)
          (let p : n - i + size - 1 - size ≡ n - (i + size) + size - 1 = ground arith in p)
      ∙ (let p : (n - (i + size) + size - 1) / size + 1 ≡ suc ((n - (i + size) + size - 1) / size) =
            omega arith in
          p))
]

module _ {A : Type 0} where
  -- `xs[i:end]`, with `end` cut back to the length
  abbrev pub chunk_at : ℕ → List A → ℕ → List A
  chunk_at size xs i =
      let end = i + size in
      let stop = if ltb (length xs) end then length xs else end in take (stop - i) (drop i xs)

  unfoldable pub chunks_from : ℕ → ℕ → List A → ℕ → List (List A)
  chunks_from zero size xs i = []
  chunks_from (suc fuel) size xs i =
      let rest = chunks_from fuel size xs (i + size) in
      if ltb i (length xs) then chunk_at size xs i ∷ rest else []

  -- Each round is at least one element further on, so as many rounds as elements are enough.
  unfoldable pub chunks : ℕ → List A → List (List A)
  chunks size xs = chunks_from (length xs) size xs 0

  abbrev pub flatten : List (List A) → List A
  flatten [] = []
  flatten (c ∷ cs) = c ++ flatten cs

  take_all : (n : ℕ) (xs : List A) → length xs ≤ n → take n xs ≡ xs
  take_all zero [] h = refl
  take_all zero (x ∷ xs) h = absurd (omega arith)
  take_all (suc n) [] h = refl
  take_all (suc n) (x ∷ xs) h = ap (λ ys. x ∷ ys) (take_all n xs (omega arith))

  drop_all : (n : ℕ) (xs : List A) → length xs ≤ n → drop n xs ≡ []
  drop_all zero [] h = refl
  drop_all zero (x ∷ xs) h = absurd (omega arith)
  drop_all (suc n) [] h = refl
  drop_all (suc n) (x ∷ xs) h = drop_all n xs (omega arith)

  drop-drop : (m n : ℕ) (xs : List A) → drop n (drop m xs) ≡ drop (m + n) xs
  drop-drop zero n xs = ap (λ k. drop k xs) (omega arith)
  drop-drop (suc m) n [] = drop_all n [] (omega arith) ∙ sym (drop_all (suc m + n) [] (omega arith))
  drop-drop (suc m) n (x ∷ xs) =
      drop-drop m n xs
      ∙ ap (λ k. drop k (x ∷ xs)) (let e : suc (m + n) ≡ suc m + n = omega arith in e)

  chunk_at-append :
      (size : ℕ) (xs : List A) (i : ℕ)
      → i < length xs
      → chunk_at size xs i ++ drop (i + size) xs ≡ drop i xs
  chunk_at-append size xs i lt = elim (Bool-cases (ltb (length xs) (i + size))) [
    | inl e ↦
        rw
          (
            e,
            drop_all (i + size) xs (ground arith),
            take_all (length xs - i) (drop i xs) (omega (arith, length-drop i xs)),
          )
          (append-nil (drop i xs))
    | inr e ↦ rw e (
        ap (λ k. take k (drop i xs) ++ drop (i + size) xs)
          (let d : i + size - i ≡ size = omega arith in d)
        ∙ ap (λ ys. take size (drop i xs) ++ ys) (sym (drop-drop i size xs))
        ∙ take-append-drop size (drop i xs))
  ]

  flatten-chunks_from :
      (fuel size : ℕ) (xs : List A) (i : ℕ)
      → 0 < size
      → length xs ≤ i + fuel
      → flatten (chunks_from fuel size xs i) ≡ drop i xs
  unfolding chunks_from
  flatten-chunks_from zero size xs i h enough = sym (drop_all i xs (omega arith))
  flatten-chunks_from (suc fuel) size xs i h enough = elim (Bool-cases (ltb i (length xs))) [
    | inl e ↦ rw e (
        ap (λ ys. chunk_at size xs i ++ ys)
          (flatten-chunks_from fuel size xs (i + size) h (omega arith))
        ∙ chunk_at-append size xs i (ground arith))
    | inr e ↦ rw e (sym (drop_all i xs (ground arith)))
  ]

  -- Nothing is lost, doubled or moved.
  pub flatten-chunks : (size : ℕ) (xs : List A) → 0 < size → flatten (chunks size xs) ≡ xs
  unfolding chunks
  flatten-chunks size xs h = flatten-chunks_from (length xs) size xs 0 h (omega arith)

  -- At least one element, and at most `size`.
  abbrev pub IsChunk : ℕ → List A → Type 0
  IsChunk size c = (0 < length c) × (length c ≤ size)

  chunk_at-IsChunk :
      (size : ℕ) (xs : List A) (i : ℕ)
      → 0 < size
      → i < length xs
      → IsChunk size (chunk_at size xs i)
  chunk_at-IsChunk size xs i h lt = elim (Bool-cases (ltb (length xs) (i + size))) [
    | inl e ↦ rw e (ground (arith, length-take (length xs - i) (drop i xs), length-drop i xs))
    | inr e ↦ rw e (ground (arith, length-take (i + size - i) (drop i xs), length-drop i xs))
  ]

  chunks_from-IsChunk :
      (fuel size : ℕ) (xs : List A) (i : ℕ)
      → 0 < size
      → All (IsChunk size) (chunks_from fuel size xs i)
  unfolding chunks_from
  chunks_from-IsChunk zero size xs i h = tt
  chunks_from-IsChunk (suc fuel) size xs i h = elim (Bool-cases (ltb i (length xs))) [
    | inl e ↦
        rw e (
          chunk_at-IsChunk size xs i h (ground arith),
          chunks_from-IsChunk fuel size xs (i + size) h,
        )
    | inr e ↦ rw e tt
  ]

  pub chunks-IsChunk : (size : ℕ) (xs : List A) → 0 < size → All (IsChunk size) (chunks size xs)
  unfolding chunks
  chunks-IsChunk size xs h = chunks_from-IsChunk (length xs) size xs 0 h

  length-chunks_from :
      (fuel size : ℕ) (xs : List A) (i : ℕ)
      → 0 < size
      → length xs ≤ i + fuel
      → length (chunks_from fuel size xs i) ≡ (length xs - i + size - 1) / size
  unfolding chunks_from
  length-chunks_from zero size xs i h enough =
      sym (div-eq_of_lt (let e : length xs - i + size - 1 < size = omega arith in e))
  length-chunks_from (suc fuel) size xs i h enough = elim (Bool-cases (ltb i (length xs))) [
    | inl e ↦ rw e (
        ap suc (length-chunks_from fuel size xs (i + size) h (omega arith))
        ∙ one_more (length xs) i size h (ground arith))
    | inr e ↦
        rw e (sym (div-eq_of_lt (let e' : length xs - i + size - 1 < size = ground arith in e')))
  ]

  -- The number of chunks is the length over the size, rounded up.
  pub length-chunks :
      (size : ℕ) (xs : List A) → 0 < size → length (chunks size xs) ≡ (length xs + size - 1) / size
  unfolding chunks
  length-chunks size xs h =
      length-chunks_from (length xs) size xs 0 h (omega arith)
      ∙ ap (λ k. k / size)
          (let p : length xs - 0 + size - 1 ≡ length xs + size - 1 = omega arith in p)
