-- ===== src/Base/Paths.antt =====
-- filepath.Join of a base and names below it.
use Prim.Native.Nat.{ℕ, ◌<◌}
use mathlib.Core.Path.{◌≡◌, refl, sym, ap, ◌∙◌}
use mathlib.Core.Bool.{Bool, true, false}
use mathlib.Core.Logic.{◌≢◌, inl, inr}
use mathlib.Core.List.{List, [], ◌∷◌, ◌++◌, reverse, reverse_aux, append_assoc, append-nil}
use native.Mathlib.Omega.{arith}
use fidorix.Base.Tests.{◌==◌, if◌then◌else◌, Bool-cases}
use fidorix.Base.Lists.{All, All-append, length, length-append}
use fidorix.Base.Strings.{
  Text, codes, text_eq, text_eq_iff, is_empty, has_prefix, split, split_from, Lacks,
}
use fidorix.Base.Filepath.{
  or_dot, slash, join_slash, clean_part, clean_parts, clean_path, non_empty, join_path,
}

-- A name is not empty, holds no slash, and is neither of the two dots.
pub record IsName (p : Text) : Type 0 where
  pub filled : is_empty p ≡ false
  pub whole : Lacks b'/' p
  pub no_dot : text_eq p (codes ".") ≡ false
  pub no_dots : text_eq p (codes "..") ≡ false

split_from-append :
    (cur s t : Text) (sep : ℕ)
    → split_from sep cur (s ++ sep ∷ t) ≡ split_from sep cur s ++ split_from sep [] t
unfolding split_from
split_from-append cur [] t sep = ground arith
split_from-append cur (c ∷ s) t sep =
    ground (arith, split_from-append [] s t sep, split_from-append (cur ++ c ∷ []) s t sep)

split_from_of_Lacks :
    (cur p : Text) (sep : ℕ) → Lacks sep p → split_from sep cur p ≡ (cur ++ p) ∷ []
unfolding split_from
split_from_of_Lacks cur [] sep h = ap (λ x. x ∷ []) (sym (append-nil cur))
split_from_of_Lacks cur (c ∷ p) sep h =
    let apart : (c == sep) ≡ false = ground arith in
    rw apart (
      split_from_of_Lacks (cur ++ c ∷ []) p sep h.1
      ∙ ap (λ x. x ∷ []) (append_assoc cur (c ∷ []) p))

-- The stack of a path, its top at the head.
abbrev stack_of : Bool → List Text → List Text → List Text
stack_of rooted stack [] = stack
stack_of rooted stack (part ∷ parts) = stack_of rooted (clean_part rooted stack part) parts

clean_parts-stack_of :
    (rooted : Bool) (parts stack : List Text)
    → clean_parts rooted stack parts ≡ reverse (stack_of rooted stack parts)
unfolding clean_parts
clean_parts-stack_of rooted [] stack = refl
clean_parts-stack_of rooted (part ∷ parts) stack = clean_parts-stack_of rooted parts _

stack_of-append :
    (rooted : Bool) (parts more stack : List Text)
    → stack_of rooted stack (parts ++ more) ≡ stack_of rooted (stack_of rooted stack parts) more
stack_of-append rooted [] more stack = refl
stack_of-append rooted (part ∷ parts) more stack = stack_of-append rooted parts more _

clean_part-name :
    (rooted : Bool) (stack : List Text) (p : Text)
    → IsName p
    → clean_part rooted stack p ≡ p ∷ stack
unfolding clean_part
clean_part-name rooted stack p h = rw (h.filled, h.no_dot, h.no_dots)

reverse_aux-append : (xs r : List Text) → reverse_aux xs r ≡ reverse xs ++ r
reverse_aux-append [] r = refl
reverse_aux-append (x ∷ xs) r =
    reverse_aux-append xs (x ∷ r)
    ∙ sym (append_assoc (reverse xs) (x ∷ []) r)
    ∙ ap (λ l. l ++ r) (sym (reverse_aux-append xs (x ∷ [])))

stack_of-names :
    (rooted : Bool) (names stack : List Text)
    → All IsName names
    → reverse (stack_of rooted stack names) ≡ reverse stack ++ names
stack_of-names rooted [] stack h = sym (append-nil (reverse stack))
stack_of-names rooted (p ∷ names) stack h =
    ap (λ st. reverse (stack_of rooted st names)) (clean_part-name rooted stack p h.0)
    ∙ stack_of-names rooted names (p ∷ stack) h.1
    ∙ ap (λ l. l ++ names) (reverse_aux-append stack (p ∷ []))
    ∙ append_assoc (reverse stack) (p ∷ []) names

split-join_slash :
    (n : Text) (ns : List Text)
    → All IsName (n ∷ ns)
    → split_from b'/' [] (join_slash (n ∷ ns)) ≡ n ∷ ns
unfolding join_slash
split-join_slash n [] h = split_from_of_Lacks [] n b'/' h.0.whole
split-join_slash n (m ∷ ns) h =
    split_from-append [] n (join_slash (m ∷ ns)) b'/'
    ∙ ap (λ l. l ++ split_from b'/' [] (join_slash (m ∷ ns)))
        (split_from_of_Lacks [] n b'/' h.0.whole)
    ∙ ap (λ l. n ∷ l) (split-join_slash m ns h.1)

-- The parts with a slash behind each.
abbrev pub lead : List Text → Text
lead [] = []
lead (p ∷ ps) = p ++ (slash ++ lead ps)

join_slash-lead :
    (ps : List Text) (q : Text) (qs : List Text)
    → join_slash (ps ++ q ∷ qs) ≡ lead ps ++ join_slash (q ∷ qs)
unfolding join_slash
join_slash-lead [] q qs = refl
join_slash-lead (p ∷ []) q qs = sym (append_assoc p slash (join_slash (q ∷ qs)))
join_slash-lead (p ∷ p' ∷ ps) q qs =
    ap (λ l. p ++ (slash ++ l)) (join_slash-lead (p' ∷ ps) q qs)
    ∙ sym (append_assoc p (slash ++ lead (p' ∷ ps)) (join_slash (q ∷ qs)))

-- What a base contributes to the paths below it.
abbrev pub path_prefix : Text → Text
path_prefix base =
    let rooted = has_prefix base slash in
    (if rooted then slash else []) ++ lead (reverse (stack_of rooted [] (split_from b'/' [] base)))

non_empty-names : (ns : List Text) → All IsName ns → non_empty ns ≡ ns
non_empty-names [] h = refl
non_empty-names (n ∷ ns) h = rw h.0.filled (ap (λ l. n ∷ l) (non_empty-names ns h.1))

is_filled-join_slash :
    (n : Text) (ns : List Text) → is_empty n ≡ false → is_empty (join_slash (n ∷ ns)) ≡ false
unfolding join_slash
is_filled-join_slash [] ns h = cc
is_filled-join_slash (c ∷ n) [] h = refl
is_filled-join_slash (c ∷ n) (m ∷ ns) h = refl

is_filled-append : (s t : Text) → is_empty t ≡ false → is_empty (s ++ t) ≡ false
is_filled-append [] t h = h
is_filled-append (c ∷ s) t h = refl

or_dot_of_filled : (s : Text) → is_empty s ≡ false → or_dot s ≡ s
or_dot_of_filled [] h = cc
or_dot_of_filled (c ∷ s) h = refl

rooted-append :
    (base t : Text) → is_empty base ≡ false → has_prefix (base ++ t) slash ≡ has_prefix base slash
unfolding has_prefix
rooted-append [] t h = cc
rooted-append (c ∷ base) t h = refl

cleaned-names :
    (rooted : Bool) (parts : List Text) (n : Text) (ns : List Text)
    → All IsName (n ∷ ns)
    → join_slash (clean_parts rooted [] (parts ++ n ∷ ns))
      ≡ lead (reverse (stack_of rooted [] parts)) ++ join_slash (n ∷ ns)
cleaned-names rooted parts n ns h =
    ap join_slash (
      clean_parts-stack_of rooted (parts ++ n ∷ ns) []
      ∙ ap reverse (stack_of-append rooted parts (n ∷ ns) [])
      ∙ stack_of-names rooted (n ∷ ns) (stack_of rooted [] parts) h)
    ∙ join_slash-lead (reverse (stack_of rooted [] parts)) n ns

-- filepath.Clean behind its look at the first byte.
abbrev rooted_or_dot : Bool → Text → Text
rooted_or_dot rooted parts = if rooted then slash ++ parts else or_dot parts

rooted_or_dot-append :
    (rooted : Bool) (s t : Text)
    → is_empty t ≡ false
    → rooted_or_dot rooted (s ++ t) ≡ ((if rooted then slash else []) ++ s) ++ t
rooted_or_dot-append true s t h = sym (append_assoc slash s t)
rooted_or_dot-append false s t h = or_dot_of_filled (s ++ t) (is_filled-append s t h)

abbrev below : Text → Text → List Text → Text
below base n ns = base ++ (slash ++ join_slash (n ∷ ns))

join_path-below :
    (base n : Text) (ns : List Text)
    → is_empty base ≡ false
    → All IsName (n ∷ ns)
    → join_path (base ∷ n ∷ ns) ≡ clean_path (below base n ns)
unfolding join_path join_slash
join_path-below base n ns filled h = rw (filled, h.0.filled, non_empty-names ns h.1)

clean_path-rooted :
    (base t : Text)
    → is_empty base ≡ false
    → clean_path (base ++ t)
      ≡ rooted_or_dot
          (has_prefix base slash)
          (join_slash (clean_parts (has_prefix base slash) [] (split_from b'/' [] (base ++ t))))
unfolding clean_path split
clean_path-rooted base t filled =
    ap (λ r. rooted_or_dot r (join_slash (clean_parts r [] (split_from b'/' [] (base ++ t)))))
      (rooted-append base t filled)

-- Below a base that is not empty, filepath.Join puts the names as they are behind what the base
-- contributes.
pub join_path-names :
    (base n : Text) (ns : List Text)
    → is_empty base ≡ false
    → All IsName (n ∷ ns)
    → join_path (base ∷ n ∷ ns) ≡ path_prefix base ++ join_slash (n ∷ ns)
join_path-names base n ns filled h =
    let rooted = has_prefix base slash in
    join_path-below base n ns filled h
    ∙ clean_path-rooted base (slash ++ join_slash (n ∷ ns)) filled
    ∙ ap (λ parts. rooted_or_dot rooted (join_slash (clean_parts rooted [] parts)))
        (split_from-append [] base (join_slash (n ∷ ns)) b'/'
          ∙ ap (λ l. split_from b'/' [] base ++ l) (split-join_slash n ns h))
    ∙ ap (rooted_or_dot rooted) (cleaned-names rooted (split_from b'/' [] base) n ns h)
    ∙ rooted_or_dot-append rooted _ (join_slash (n ∷ ns)) (is_filled-join_slash n ns h.0.filled)

-- A file name with the extension of JSON.
pub json-IsName : (s : Text) → Lacks b'/' s → IsName (s ++ codes ".json")
json-IsName s h = record {
  filled = is_filled-append s (codes ".json") refl;
  whole = All-append (λ c. c ≢ b'/') s (codes ".json") h (ground arith);
  no_dot = unequal (codes ".") (omega arith);
  no_dots = unequal (codes "..") (omega arith);
}
  where
    unequal : (t : Text) → length t < 5 → text_eq (s ++ codes ".json") t ≡ false
    unequal t short = elim (Bool-cases (text_eq (s ++ codes ".json") t)) [
      | inr n ↦ n
      | inl y ↦ absurd (
          omega (
            arith,
            ap (length {A = ℕ}) ((text_eq_iff (s ++ codes ".json") t).0 y),
            length-append s (codes ".json"),
            short,
          ))
    ]

pub clean_path-filled : (path : Text) → is_empty (clean_path path) ≡ false
unfolding clean_path
clean_path-filled path = of_parts (has_prefix path slash) _
  where
    of_parts : (rooted : Bool) (parts : Text) → is_empty (rooted_or_dot rooted parts) ≡ false
    of_parts true parts = refl
    of_parts false [] = refl
    of_parts false (c ∷ parts) = refl

pub join_path-filled :
    (p : Text) (ps : List Text) → is_empty p ≡ false → is_empty (join_path (p ∷ ps)) ≡ false
unfolding join_path
join_path-filled p ps h = rw h (clean_path-filled (join_slash (p ∷ non_empty ps)))
