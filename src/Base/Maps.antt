-- ===== src/Base/Maps.antt =====
-- Go maps with string keys as association lists; a map is ranged over in the list's order.
use mathlib.Core.Path.{◌≡◌, refl, subst}
use mathlib.Core.Logic.{inl, inr, ◌≢◌, ◌⊎◌}
use mathlib.Core.Bool.{Bool, true, false}
use mathlib.Core.Option.{Option, none, some}
use mathlib.Core.List.{List, [], ◌∷◌}
use native.Mathlib.Omega.{arith}
use fidorix.Base.Tests.{if◌then◌else◌, Bool-cases}
use fidorix.Base.Strings.{Text, text_eq, text_eq_iff, text_eq_refl}

abbrev pub Assoc {ℓ} : Type ℓ → Type ℓ
Assoc V = List (Text × V)

module _ {ℓ} {V : Type ℓ} where
  unfoldable pub lookup : Text → Assoc V → Option V
  lookup k [] = none
  lookup k ((j, v) ∷ m) = if text_eq j k then some v else lookup k m

  unfoldable pub insert : Text → V → Assoc V → Assoc V
  insert k v [] = (k, v) ∷ []
  insert k v ((j, w) ∷ m) = if text_eq j k then (k, v) ∷ m else (j, w) ∷ insert k v m

  -- `delete(m, k)`
  unfoldable pub remove : Text → Assoc V → Assoc V
  remove k [] = []
  remove k ((j, w) ∷ m) = let rest = remove k m in if text_eq j k then rest else (j, w) ∷ rest

  pub lookup-insert :
      (k j : Text) (v : V) (m : Assoc V)
      → lookup j (insert k v m) ≡ (if text_eq k j then some v else lookup j m)
  unfolding lookup insert
  lookup-insert k j v [] = refl
  lookup-insert k j v ((i, w) ∷ m) =
      ground (arith, text_eq_iff k j, text_eq_iff i k, text_eq_iff i j, lookup-insert k j v m)

  pub lookup-remove :
      (k j : Text) (m : Assoc V)
      → lookup j (remove k m) ≡ (if text_eq k j then none else lookup j m)
  unfolding lookup remove
  lookup-remove k j [] = ground arith
  lookup-remove k j ((i, w) ∷ m) =
      ground (arith, text_eq_iff k j, text_eq_iff i k, text_eq_iff i j, lookup-remove k j m)

  pub lookup-insert_self : (k : Text) (v : V) (m : Assoc V) → lookup k (insert k v m) ≡ some v
  lookup-insert_self k v m = rw (lookup-insert k k v m, text_eq_refl k)

  pub lookup-insert_ne :
      (k j : Text) (v : V) (m : Assoc V) → k ≢ j → lookup j (insert k v m) ≡ lookup j m
  lookup-insert_ne k j v m ne = rw (lookup-insert k j v m) (ground (arith, text_eq_iff k j))

  -- What is found behind an insertion was inserted, or was there.
  pub lookup-insert_found :
      (k j : Text) (v w : V) (m : Assoc V)
      → lookup j (insert k v m) ≡ some w
      → ((k ≡ j) × (v ≡ w)) ⊎ (lookup j m ≡ some w)
  lookup-insert_found k j v w m found =
      of_test (text_eq k j) refl (rw (lookup-insert k j v m) at found)
    where
      some_inj : some v ≡ some w → v ≡ w
      some_inj e = cc

      of_test :
          (b : Bool)
          → text_eq k j ≡ b
          → (if b then some v else lookup j m) ≡ some w
          → ((k ≡ j) × (v ≡ w)) ⊎ (lookup j m ≡ some w)
      of_test true y e = inl ((text_eq_iff k j).0 y, some_inj e)
      of_test false n e = inr e

  -- No key stands twice.
  abbrev pub Distinct : Assoc V → Type ℓ
  Distinct [] = Unit
  Distinct ((k, v) ∷ m) = (lookup k m ≡ none) × Distinct m

  pub insert-Distinct : (k : Text) (v : V) (m : Assoc V) → Distinct m → Distinct (insert k v m)
  unfolding insert lookup
  insert-Distinct k v [] h = (refl, tt)
  insert-Distinct k v ((j, w) ∷ m) h = elim (Bool-cases (text_eq j k)) [
    | inl e ↦ rw e (subst (λ i. lookup i m ≡ none) ((text_eq_iff j k).0 e) h.0, h.1)
    | inr e ↦ rw e (
      rw (lookup-insert k j v m) (ground (arith, text_eq_iff k j, text_eq_iff j k)),
      insert-Distinct k v m h.1,
    )
  ]

-- What holds of every binding.
module _ {ℓ κ} {V : Type ℓ} (P : Text → V → Type κ) where
  abbrev pub Each : Assoc V → Type κ
  Each [] = Unit
  Each ((k, v) ∷ m) = P k v × Each m

  pub insert-Each : (k : Text) (v : V) (m : Assoc V) → P k v → Each m → Each (insert k v m)
  unfolding insert
  insert-Each k v [] p h = (p, tt)
  insert-Each k v ((j, w) ∷ m) p h = elim (Bool-cases (text_eq j k)) [
    | inl e ↦ rw e (p, h.1)
    | inr e ↦ rw e (h.0, insert-Each k v m p h.1)
  ]

  pub lookup-Each : (k : Text) (v : V) (m : Assoc V) → Each m → lookup k m ≡ some v → P k v
  unfolding lookup
  lookup-Each k v [] h e = cc
  lookup-Each k v ((j, w) ∷ m) h e = elim (Bool-cases (text_eq j k)) [
    | inl t ↦ subst (λ i. P i v) ((text_eq_iff j k).0 t) (subst (P j) (ground arith) h.0)
    | inr t ↦ lookup-Each k v m h.1 (ground arith)
  ]

  -- What holds of every value that is found holds of every binding.
  pub Each-of_lookup :
      (m : Assoc V) → Distinct m → ((k : Text) (v : V) → lookup k m ≡ some v → P k v) → Each m
  unfolding lookup
  Each-of_lookup [] distinct h = tt
  Each-of_lookup ((j, w) ∷ m) distinct h = (
    h j w (rw (text_eq_refl j)),
    Each-of_lookup m distinct.1
        (λ k v found. h k v (ground (arith, text_eq_iff j k, distinct.0, found))),
  )
