-- ===== src/Base/Orders.antt =====
-- Functions on lists that do not depend on the order, such as a loop over a Go map.
use mathlib.Core.Path.{◌≡◌, refl, ap, ◌∙◌}
use mathlib.Core.Logic.{∥∥₁_elim}
use mathlib.Core.List.{List, ◌∷◌, Perm, Permᴰ}

pub record IsOrderless {ℓ κ} {A : Type ℓ} {C : Type κ} (f : List A → C) : Type (ℓ ⊔ κ) where
  pub cons : (x : A) (xs ys : List A) → f xs ≡ f ys → f (x ∷ xs) ≡ f (x ∷ ys)
  pub swap : (x y : A) (xs : List A) → f (x ∷ y ∷ xs) ≡ f (y ∷ x ∷ xs)

module _ {ℓ κ} {A : Type ℓ} {C : Type κ} (f : List A → C) (orderless : IsOrderless f) where
  of_steps : {xs ys : List A} → Permᴰ xs ys → f xs ≡ f ys
  of_steps Permᴰ.nil = refl
  of_steps (Permᴰ.cons {a} {b} {l₁} {l₂} e p) =
      orderless.cons a l₁ l₂ (of_steps p) ∙ ap (λ x. f (x ∷ l₂)) e
  of_steps (Permᴰ.swap {a} {b} {a'} {b'} {l} e e') =
      orderless.swap a b l ∙ ap (λ x. f (b ∷ x ∷ l)) e ∙ ap (λ x. f (x ∷ b' ∷ l)) e'
  of_steps (Permᴰ.trans p q) = of_steps p ∙ of_steps q

  -- Such a function has one value on the orders of a list.
  pub perm_eq : IsSet C → {xs ys : List A} → Perm xs ys → f xs ≡ f ys
  perm_eq C_set p = ∥∥₁_elim p (C_set _ _) of_steps
