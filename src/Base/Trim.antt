-- ===== src/Base/Trim.antt =====
-- What strings.TrimSpace returns: a text that neither begins nor ends with a space.
use mathlib.Core.Path.{◌≡◌, refl}
use mathlib.Core.Bool.{false}
use mathlib.Core.Logic.{inl, inr}
use mathlib.Core.List.{[], ◌∷◌, ◌++◌}
use native.Mathlib.Omega.{arith}
use Prim.Native.Nat.{ℕ}
use fidorix.Base.Tests.{Bool-cases}
use fidorix.Base.Lists.{All}
use fidorix.Base.Strings.{Text, is_space, trim_left, trim_right, trim_space}

abbrev pub StartsClean : Text → Type 0
StartsClean [] = Unit
StartsClean (c ∷ s) = is_space c ≡ false

abbrev pub EndsClean : Text → Type 0
EndsClean [] = Unit
EndsClean (c ∷ []) = is_space c ≡ false
EndsClean (c ∷ d ∷ s) = EndsClean (d ∷ s)

abbrev pub IsTrimmed : Text → Type 0
IsTrimmed s = StartsClean s × EndsClean s

trim_left-StartsClean : (s : Text) → StartsClean (trim_left s)
unfolding trim_left
trim_left-StartsClean [] = tt
trim_left-StartsClean (c ∷ s) = ground (arith, trim_left-StartsClean s)

keep-EndsClean :
    (c : ℕ) (s r : Text) → trim_right s ≡ r → EndsClean r → EndsClean (trim_right (c ∷ s))
unfolding trim_right
keep-EndsClean c s [] e h = rw e (ground arith)
keep-EndsClean c s (d ∷ r) e h = rw e h

trim_right-EndsClean : (s : Text) → EndsClean (trim_right s)
unfolding trim_right
trim_right-EndsClean [] = tt
trim_right-EndsClean (c ∷ s) = keep-EndsClean c s (trim_right s) refl (trim_right-EndsClean s)

keep-StartsClean :
    (c : ℕ) (s r : Text) → trim_right s ≡ r → is_space c ≡ false → StartsClean (trim_right (c ∷ s))
unfolding trim_right
keep-StartsClean c s [] e h = rw e (ground arith)
keep-StartsClean c s (d ∷ r) e h = rw e h

trim_right-StartsClean : (s : Text) → StartsClean s → StartsClean (trim_right s)
unfolding trim_right
trim_right-StartsClean [] h = tt
trim_right-StartsClean (c ∷ s) h = keep-StartsClean c s (trim_right s) refl h

pub trim_space-IsTrimmed : (s : Text) → IsTrimmed (trim_space s)
unfolding trim_space
trim_space-IsTrimmed s = (
  trim_right-StartsClean (trim_left s) (trim_left-StartsClean s),
  trim_right-EndsClean (trim_left s),
)

trim_left_of_StartsClean : (s : Text) → StartsClean s → trim_left s ≡ s
unfolding trim_left
trim_left_of_StartsClean [] h = refl
trim_left_of_StartsClean (c ∷ s) h = rw h

trim_right_of_EndsClean : (s : Text) → EndsClean s → trim_right s ≡ s
unfolding trim_right
trim_right_of_EndsClean [] h = refl
trim_right_of_EndsClean (c ∷ []) h = rw h
trim_right_of_EndsClean (c ∷ d ∷ s) h = rw (trim_right_of_EndsClean (d ∷ s) h)

-- A trimmed text is trimmed again for nothing.
pub trim_space_of_IsTrimmed : (s : Text) → IsTrimmed s → trim_space s ≡ s
unfolding trim_space
trim_space_of_IsTrimmed s h = rw (trim_left_of_StartsClean s h.0) (trim_right_of_EndsClean s h.1)

pub trim_space_idem : (s : Text) → trim_space (trim_space s) ≡ trim_space s
trim_space_idem s = trim_space_of_IsTrimmed (trim_space s) (trim_space-IsTrimmed s)

pub append-EndsClean : (s : Text) (c : ℕ) (t : Text) → EndsClean (c ∷ t) → EndsClean (s ++ c ∷ t)
append-EndsClean [] c t h = h
append-EndsClean (d ∷ []) c t h = h
append-EndsClean (d ∷ e ∷ s) c t h = append-EndsClean (e ∷ s) c t h

trim_left-All {κ} : (P : ℕ → Type κ) (s : Text) → All P s → All P (trim_left s)
unfolding trim_left
trim_left-All P [] h = tt
trim_left-All P (c ∷ s) h = elim (Bool-cases (is_space c)) [
  | inl e ↦ rw e (trim_left-All P s h.1)
  | inr e ↦ rw e h
]

keep-All {κ} :
    (P : ℕ → Type κ) (c : ℕ) (s r : Text)
    → trim_right s ≡ r
    → P c
    → All P r
    → All P (trim_right (c ∷ s))
unfolding trim_right
keep-All P c s [] e p h =
    rw e (elim (Bool-cases (is_space c)) [ inl b ↦ rw b tt | inr b ↦ rw b (p, tt) ])
keep-All P c s (d ∷ r) e p h = rw e (p, h)

trim_right-All {κ} : (P : ℕ → Type κ) (s : Text) → All P s → All P (trim_right s)
unfolding trim_right
trim_right-All P [] h = tt
trim_right-All P (c ∷ s) h = keep-All P c s (trim_right s) refl h.0 (trim_right-All P s h.1)

-- Trimming leaves no code point that was not there.
pub trim_space-All {κ} : (P : ℕ → Type κ) (s : Text) → All P s → All P (trim_space s)
unfolding trim_space
trim_space-All P s h = trim_right-All P (trim_left s) (trim_left-All P s h)
