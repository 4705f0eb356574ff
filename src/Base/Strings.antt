-- ===== src/Base/Strings.antt =====
-- Go strings as lists of code points (valid UTF-8), and the functions of package strings that the
-- source calls.
use Prim.Native.Nat.{ℕ, ◌+◌, ◌-◌}
use Prim.Native.Char.{code}
use Prim.Native.String.{String}
use mathlib.Core.Path.{◌≡◌, refl}
use mathlib.Core.Bool.{Bool, true, false, ◌&&◌, ◌||◌}
use mathlib.Core.Logic.{◌↔◌, ◌≢◌}
use mathlib.Core.List.{List, [], ◌∷◌, ◌++◌, map}
use native.Mathlib.Omega.{arith}
use fidorix.Base.Tests.{ltb, leb, ◌==◌, if◌then◌else◌}
use fidorix.Base.Lists.{All, length, drop, take}

abbrev pub Text : Type 0
Text = List ℕ

-- The code points of a literal.
abbrev pub codes : String → Text
codes String.[] = []
codes (String.◌∷◌ c s) = code c ∷ codes s

unfoldable pub text_eq : Text → Text → Bool
text_eq [] [] = true
text_eq (c ∷ s) (d ∷ t) = c == d && text_eq s t
text_eq _ _ = false

pub text_eq_iff : (s t : Text) → (text_eq s t ≡ true) ↔ (s ≡ t)
unfolding text_eq
text_eq_iff [] [] = ground arith
text_eq_iff [] (d ∷ t) = ground arith
text_eq_iff (c ∷ s) [] = ground arith
text_eq_iff (c ∷ s) (d ∷ t) = ground (arith, text_eq_iff s t)

pub text_eq_refl : (s : Text) → text_eq s s ≡ true
text_eq_refl s = (text_eq_iff s s).1 refl

pub ne_of_text_eq : (s t : Text) → text_eq s t ≡ false → s ≢ t
ne_of_text_eq s t h e = ground (arith, text_eq_iff s t)

-- `s == ""`
abbrev pub is_empty : Text → Bool
is_empty [] = true
is_empty (_ ∷ _) = false

-- unicode.IsSpace
unfoldable pub is_space : ℕ → Bool
is_space c =
    (leb 9 c && leb c 13)
    || c == 32
    || c == 0x85
    || c == 0xa0
    || c == 0x1680
    || (leb 0x2000 c && leb c 0x200a)
    || c == 0x2028
    || c == 0x2029
    || c == 0x202f
    || c == 0x205f
    || c == 0x3000

unfoldable pub trim_left : Text → Text
unfolding is_space
trim_left [] = []
trim_left (c ∷ s) = if is_space c then trim_left s else c ∷ s

-- A space goes only if everything behind it goes.
abbrev keep : ℕ → Text → Text
keep c [] = if is_space c then [] else c ∷ []
keep c (d ∷ s) = c ∷ d ∷ s

unfoldable pub trim_right : Text → Text
unfolding is_space
trim_right [] = []
trim_right (c ∷ s) = keep c (trim_right s)

-- strings.TrimSpace
unfoldable pub trim_space : Text → Text
unfolding trim_left trim_right
trim_space s = trim_right (trim_left s)

-- strings.HasPrefix
unfoldable pub has_prefix : Text → Text → Bool
has_prefix s [] = true
has_prefix [] (c ∷ p) = false
has_prefix (d ∷ s) (c ∷ p) = d == c && has_prefix s p

-- strings.HasSuffix
unfoldable pub has_suffix : Text → Text → Bool
unfolding text_eq
has_suffix s suffix =
    leb (length suffix) (length s) && text_eq (drop (length s - length suffix) s) suffix

-- strings.TrimSuffix
unfoldable pub trim_suffix : Text → Text → Text
unfolding has_suffix
trim_suffix s suffix = if has_suffix s suffix then take (length s - length suffix) s else s

-- strings.ReplaceAll(s, c, "") at a single code point
unfoldable pub remove_all : ℕ → Text → Text
remove_all c [] = []
remove_all c (d ∷ s) = let rest = remove_all c s in if d == c then rest else d ∷ rest

-- strings.Split(s, c) at a single code point: `cur` is the part that is being read
unfoldable pub split_from : ℕ → Text → Text → List Text
split_from sep cur [] = cur ∷ []
split_from sep cur (c ∷ s) =
    let closed = split_from sep [] s in
    let longer = split_from sep (cur ++ c ∷ []) s in if c == sep then cur ∷ closed else longer

unfoldable pub split : Text → ℕ → List Text
unfolding split_from
split s sep = split_from sep [] s

-- strings.Contains
unfoldable pub contains : Text → Text → Bool
unfolding has_prefix
contains [] t = is_empty t
contains (c ∷ s) t = has_prefix (c ∷ s) t || contains s t

-- The case mappings of package unicode above ASCII.
pub record CaseTables : Type 0 where
  pub upper : ℕ → ℕ
  pub lower : ℕ → ℕ

abbrev pub rune_upper : CaseTables → ℕ → ℕ
rune_upper u c = if leb b'a' c && leb c b'z' then c - 32 else if ltb c 128 then c else u.upper c

abbrev pub rune_lower : CaseTables → ℕ → ℕ
rune_lower u c = if leb b'A' c && leb c b'Z' then c + 32 else if ltb c 128 then c else u.lower c

-- strings.ToUpper and strings.ToLower
abbrev pub to_upper : CaseTables → Text → Text
to_upper u = map (rune_upper u)

abbrev pub to_lower : CaseTables → Text → Text
to_lower u = map (rune_lower u)

abbrev pub Lacks : ℕ → Text → Type 0
Lacks b = All (λ c. c ≢ b)

-- Whether a set of texts has `w`.
abbrev pub member : Text → List Text → Bool
member w [] = false
member w (x ∷ xs) = text_eq x w || member w xs

-- Opens the functions of this file, for tests.
unfoldable pub strings : Unit {0}
unfolding text_eq trim_space has_prefix trim_suffix remove_all split contains
strings = tt
