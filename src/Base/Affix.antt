-- ===== src/Base/Affix.antt =====
-- Prefixes, suffixes and removed code points.
use Prim.Native.Nat.{ℕ, ◌-◌}
use mathlib.Core.Path.{◌≡◌, refl, ap, sym, ◌∙◌, subst}
use mathlib.Core.Bool.{true}
use mathlib.Core.List.{[], ◌∷◌, ◌++◌}
use native.Mathlib.Omega.{arith}
use fidorix.Base.Lists.{length, length-append, take, drop, take-append-drop}
use fidorix.Base.Strings.{Text, text_eq_iff, has_suffix, trim_suffix, remove_all, Lacks}

drop-eq_of_has_suffix :
    (s suffix : Text) → has_suffix s suffix ≡ true → drop (length s - length suffix) s ≡ suffix
unfolding has_suffix
drop-eq_of_has_suffix s suffix h =
    (text_eq_iff (drop (length s - length suffix) s) suffix).0 (ground arith)

-- The text is what strings.TrimSuffix leaves, and the suffix.
pub trim_suffix-append :
    (s suffix : Text) → has_suffix s suffix ≡ true → trim_suffix s suffix ++ suffix ≡ s
unfolding trim_suffix
trim_suffix-append s suffix h = rw h (
    ap (λ t. take (length s - length suffix) s ++ t) (sym (drop-eq_of_has_suffix s suffix h))
    ∙ take-append-drop (length s - length suffix) s)

pub remove_all-append :
    (c : ℕ) (s t : Text) → remove_all c (s ++ t) ≡ remove_all c s ++ remove_all c t
unfolding remove_all
remove_all-append c [] t = refl
remove_all-append c (d ∷ s) t = ground (arith, remove_all-append c s t)

pub remove_all_of_Lacks : (c : ℕ) (s : Text) → Lacks c s → remove_all c s ≡ s
unfolding remove_all
remove_all_of_Lacks c [] h = refl
remove_all_of_Lacks c (d ∷ s) h = ground (arith, remove_all_of_Lacks c s h.1)

pub remove_all-Lacks : (c : ℕ) (s : Text) → Lacks c (remove_all c s)
unfolding remove_all
remove_all-Lacks c [] = tt
remove_all-Lacks c (d ∷ s) = ground (arith, remove_all-Lacks c s)

Lacks-middle : (b : ℕ) (s t : Text) → Lacks b (s ++ b ∷ t) → ⊥
Lacks-middle b [] t h = h.0 refl
Lacks-middle b (c ∷ s) t h = Lacks-middle b s t h.1

-- A text is cut at its last separator in one way only.
pub split_unique :
    (b : ℕ) (s t i j : Text) → Lacks b i → Lacks b j → s ++ b ∷ i ≡ t ++ b ∷ j → (s ≡ t) × (i ≡ j)
split_unique b [] [] i j h k e = ground arith
split_unique b [] (c ∷ t) i j h k e =
    absurd (Lacks-middle b t j (subst (Lacks b) (tail_eq _ _ _ _ e) h))
  where
    tail_eq : (c d : ℕ) (s t : Text) → c ∷ s ≡ d ∷ t → s ≡ t
    tail_eq c d s t e = cc
split_unique b (c ∷ s) [] i j h k e =
    absurd (Lacks-middle b s i (subst (Lacks b) (tail_eq _ _ _ _ e) k))
  where
    tail_eq : (c d : ℕ) (s t : Text) → c ∷ s ≡ d ∷ t → t ≡ s
    tail_eq c d s t e = cc
split_unique b (c ∷ s) (d ∷ t) i j h k e = let (p, q) = split_unique b s t i j h k (cc) in (cc, q)

pub prefix_cancel : (p s t : Text) → p ++ s ≡ p ++ t → s ≡ t
prefix_cancel [] s t e = e
prefix_cancel (c ∷ p) s t e = prefix_cancel p s t (cc)

pub suffix_cancel : (s t p : Text) → s ++ p ≡ t ++ p → s ≡ t
suffix_cancel [] [] p e = refl
suffix_cancel [] (d ∷ t) p e =
    absurd (omega (arith, ap (length {A = ℕ}) e, length-append (d ∷ t) p))
suffix_cancel (c ∷ s) [] p e =
    absurd (omega (arith, ap (length {A = ℕ}) e, length-append (c ∷ s) p))
suffix_cancel (c ∷ s) (d ∷ t) p e = let q = suffix_cancel s t p (cc) in (cc)

-- The last code point, or the first argument where there is none.
abbrev pub last : ℕ → Text → ℕ
last d [] = d
last d (c ∷ s) = last c s

pub last-append : (d : ℕ) (s t : Text) → last d (s ++ t) ≡ last (last d s) t
last-append d [] t = refl
last-append d (c ∷ s) t = last-append c s t
