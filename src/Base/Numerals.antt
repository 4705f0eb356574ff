-- ===== src/Base/Numerals.antt =====
-- Decimal texts: strconv.Atoi on 64 bits, and strconv.Itoa of a number.
use Prim.Native.Nat.{ℕ, zero, suc, ◌+◌, ◌-◌, ◌*◌, ◌/◌, ◌%◌, ◌^◌, ◌<◌}
use mathlib.Core.Path.{◌≡◌, refl, sym, ap, ◌∙◌}
use mathlib.Core.Logic.{inl, inr}
use mathlib.Core.Bool.{◌&&◌}
use mathlib.Core.Option.{Option, none, some}
use mathlib.Core.List.{[], ◌∷◌}
use native.Mathlib.Nat.{pow-suc}
use native.Mathlib.Omega.{arith}
use fidorix.Base.Tests.{ltb, leb, ◌==◌, if◌then◌else◌, Bool-cases}
use fidorix.Base.Strings.{Text}
use fidorix.Base.Int.{ℤ, pos, negsuc, sub_ℕ, IsInt64}

unfoldable pub digits_from : ℕ → Text → Option ℕ
digits_from n [] = some n
digits_from n (c ∷ s) =
    let rest = digits_from (n * 10 + (c - b'0')) s in
    if leb b'0' c && leb c b'9' then rest else none

-- At least one digit.
unfoldable pub natural : Text → Option ℕ
natural [] = none
natural (c ∷ s) = digits_from 0 (c ∷ s)

abbrev pub in_range : Option ℕ → Option ℤ
in_range none = none
in_range (some n) = if ltb n (2 ^ 63) then some (pos n) else none

abbrev pub negated : Option ℕ → Option ℤ
negated none = none
negated (some n) = if leb n (2 ^ 63) then some (sub_ℕ 0 n) else none

-- strconv.Atoi and strconv.ParseInt(s, 10, 64): a sign, digits, and the range of an int64
unfoldable pub atoi : Text → Option ℤ
atoi [] = none
atoi (c ∷ s) =
    if c == b'-'
    then negated (natural s)
    else if c == b'+'
    then in_range (natural s)
    else in_range (natural (c ∷ s))

in_range-IsInt64 : (o : Option ℕ) (z : ℤ) → in_range o ≡ some z → IsInt64 z
in_range-IsInt64 none z h = ground arith
in_range-IsInt64 (some n) z h = ground arith

negated-IsInt64 : (o : Option ℕ) (z : ℤ) → negated o ≡ some z → IsInt64 z
negated-IsInt64 none z h = ground arith
negated-IsInt64 (some n) z h = ground arith

pub atoi-IsInt64 : (s : Text) (z : ℤ) → atoi s ≡ some z → IsInt64 z
unfolding atoi
atoi-IsInt64 [] z h = ground arith
atoi-IsInt64 (c ∷ s) z h = ground (
  arith,
  in_range-IsInt64 (natural s) z,
  in_range-IsInt64 (natural (c ∷ s)) z,
  negated-IsInt64 (natural s) z,
)

unfoldable pub digits : ℕ → ℕ → Text → Text
digits zero n behind = behind
digits (suc fuel) n behind =
    let last = (b'0' + n % 10) ∷ behind in
    let longer = digits fuel (n / 10) last in if ltb n 10 then last else longer

-- strconv.Itoa, `%d`: an int64 has fewer than 20 digits.
unfoldable pub itoa : ℤ → Text
itoa (pos n) = digits 20 n []
itoa (negsuc n) = b'-' ∷ digits 20 (suc n) []

digits_from-digits :
    (fuel n : ℕ) (behind : Text)
    → n < 10 ^ fuel
    → digits_from 0 (digits fuel n behind) ≡ digits_from n behind
unfolding digits digits_from
digits_from-digits zero n behind h = ground arith
digits_from-digits (suc fuel) n behind h =
    ground (arith, pow-suc 10 fuel, digits_from-digits fuel (n / 10) ((b'0' + n % 10) ∷ behind))

-- There is a first digit.
abbrev IsCons : Text → Type 0
IsCons s = (d : ℕ) × ((t : Text) × (s ≡ d ∷ t))

digits-eq-cons :
    (fuel n c : ℕ) (behind : Text) → (d : ℕ) × ((t : Text) × (digits fuel n (c ∷ behind) ≡ d ∷ t))
unfolding digits
digits-eq-cons zero n c behind = (c, (behind, refl))
digits-eq-cons (suc fuel) n c behind = elim (Bool-cases (ltb n 10)) [
  | inl e ↦ rw e (b'0' + n % 10, (c ∷ behind, refl))
  | inr e ↦ rw e (digits-eq-cons fuel (n / 10) (b'0' + n % 10) (c ∷ behind))
]

natural-digits : (fuel n : ℕ) → n < 10 ^ suc fuel → natural (digits (suc fuel) n []) ≡ some n
natural-digits fuel n h =
    let (d, (t, e)) = digits_suc-eq-cons in
    ap natural e
    ∙ unfold natural in
      (ap (digits_from 0) (sym e)
        ∙ (digits_from-digits (suc fuel) n [] h ∙ unfold digits_from in refl))
  where
    digits_suc-eq-cons : IsCons (digits (suc fuel) n [])
    digits_suc-eq-cons =
        unfold digits in
        elim (Bool-cases (ltb n 10)) [
          | inl e ↦ rw e (b'0' + n % 10, ([], refl))
          | inr e ↦ rw e (digits-eq-cons fuel (n / 10) (b'0' + n % 10) [])
        ]

-- Its digits are enough: what it writes is the number, of any int64.
pub natural-itoa : (n : ℕ) → n < 2 ^ 63 → natural (itoa (pos n)) ≡ some n
unfolding itoa
natural-itoa n h = natural-digits 19 n (omega arith)
