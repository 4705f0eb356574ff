-- ===== src/Kline/Config/Intervals.antt =====
-- The intervals of kline/internal/config/config.go: what their texts have.
use fidorix.Base.{
  ℕ, ◌≡◌, ◌≢◌, refl, sym, Bool, true, false, not, ◌&&◌, ◌==◌, List, [], ◌∷◌, arith, All, Text,
  codes, text_eq, text_eq_iff, ne_of_text_eq, member, Lacks, IsName, is_empty, trim_space, strings,
}
use fidorix.Kline.Config.{intervals}

-- Every two of the list have different values of `f`.
abbrev pub Apart : (Text → Text) → List Text → Type 0
Apart f [] = Unit
Apart f (x ∷ xs) = All (λ y. f x ≢ f y) xs × Apart f xs

-- The intervals are names without a colon or a space at an end.
pub record IsInterval (i : Text) : Type 0 where
  pub name : IsName i
  pub plain : Lacks b':' i
  pub trimmed : trim_space i ≡ i

apart : List Text → Bool
apart [] = true
apart (x ∷ xs) = not (member x xs) && apart xs

ne_of_member : (x : Text) (xs : List Text) → member x xs ≡ false → All (λ y. x ≢ y) xs
ne_of_member x [] h = tt
ne_of_member x (y ∷ xs) h =
    (λ e. ne_of_text_eq y x (ground (arith, h)) (sym e), ne_of_member x xs (ground (arith, h)))

Apart-of_apart : (xs : List Text) → apart xs ≡ true → Apart (λ i. i) xs
unfolding apart
Apart-of_apart [] h = tt
Apart-of_apart (x ∷ xs) h =
    (ne_of_member x xs (ground (arith, h)), Apart-of_apart xs (ground (arith, h)))

pub intervals-Apart : Apart (λ i. i) intervals
unfolding apart strings
intervals-Apart = Apart-of_apart intervals refl

lacks : ℕ → Text → Bool
lacks b [] = true
lacks b (c ∷ s) = not (c == b) && lacks b s

Lacks-of_lacks : (b : ℕ) (s : Text) → lacks b s ≡ true → Lacks b s
unfolding lacks
Lacks-of_lacks b [] h = tt
Lacks-of_lacks b (c ∷ s) h = (ground (arith, h), Lacks-of_lacks b s (ground (arith, h)))

plain_name : Text → Bool
plain_name i =
    not (is_empty i)
    && lacks b'/' i
    && not (text_eq i (codes "."))
    && not (text_eq i (codes ".."))
    && lacks b':' i
    && text_eq (trim_space i) i

are_intervals : List Text → Bool
are_intervals [] = true
are_intervals (i ∷ is) = plain_name i && are_intervals is

IsInterval-of_plain_name : (i : Text) → plain_name i ≡ true → IsInterval i
unfolding plain_name
IsInterval-of_plain_name i h = record {
  name = record {
    filled = ground (arith, h);
    whole = Lacks-of_lacks b'/' i (ground (arith, h));
    no_dot = ground (arith, h);
    no_dots = ground (arith, h);
  };
  plain = Lacks-of_lacks b':' i (ground (arith, h));
  trimmed = (text_eq_iff (trim_space i) i).0 (ground (arith, h));
}

All-of_are_intervals : (is : List Text) → are_intervals is ≡ true → All IsInterval is
unfolding are_intervals
All-of_are_intervals [] h = tt
All-of_are_intervals (i ∷ is) h =
    (IsInterval-of_plain_name i (ground (arith, h)), All-of_are_intervals is (ground (arith, h)))

pub intervals-All : All IsInterval intervals
unfolding strings lacks plain_name are_intervals
intervals-All = All-of_are_intervals intervals refl
