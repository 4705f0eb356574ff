-- ===== src/Kline/Symbol/Wire.antt =====
-- From the wire format back to the user's symbol.
use fidorix.Base.{
  ◌≡◌, ◌≢◌, refl, subst, ap, sym, ◌∙◌, inl, inr, Bool-cases, List, [], ◌∷◌, ◌++◌, arith, All, Text,
  codes, is_space, trim_space, has_suffix, trim_suffix, remove_all, Lacks, StartsClean, EndsClean,
  IsTrimmed, trim_space-IsTrimmed, trim_space-All, append-EndsClean, trim_suffix-append,
  remove_all-append, remove_all_of_Lacks,
}
use fidorix.Kline.Symbol.{suffixes, joined, to_mexc_from, to_mexc, to_file}

abbrev IsPlain : Text → Type 0
IsPlain suffix = Lacks b'_' suffix × EndsClean suffix

-- A joined symbol is a split of the text, with one underscore between the two parts.
remove_all-joined :
    (s base suffix : Text)
    → Lacks b'_' s
    → Lacks b'_' suffix
    → base ++ suffix ≡ s
    → remove_all b'_' (joined s base suffix) ≡ s
unfolding joined remove_all
remove_all-joined s [] suffix h k e = remove_all_of_Lacks b'_' s h
remove_all-joined s (c ∷ base) suffix h k e =
    remove_all-append b'_' (c ∷ base) (codes "_" ++ suffix)
    ∙ sym (remove_all-append b'_' (c ∷ base) suffix)
    ∙ ap (remove_all b'_') e
    ∙ remove_all_of_Lacks b'_' s h

remove_all-to_mexc_from :
    (s : Text) (rest : List Text)
    → Lacks b'_' s
    → All IsPlain rest
    → remove_all b'_' (to_mexc_from s rest) ≡ s
unfolding to_mexc_from
remove_all-to_mexc_from s [] h k = remove_all_of_Lacks b'_' s h
remove_all-to_mexc_from s (suffix ∷ rest) h k = elim (Bool-cases (has_suffix s suffix)) [
  | inl e ↦
      rw e
        (remove_all-joined s (trim_suffix s suffix) suffix h k.0.0 (trim_suffix-append s suffix e))
  | inr e ↦ rw e (remove_all-to_mexc_from s rest h k.1)
]

suffixes-IsPlain : All IsPlain suffixes
unfolding is_space
suffixes-IsPlain = ground arith

-- Of a symbol without an underscore, the wire symbol less its underscores is the file symbol: the
-- name that filePathForEntry makes from a wire symbol is the one that the bootstrap uses.
pub remove_all-to_mexc : (s : Text) → Lacks b'_' s → remove_all b'_' (to_mexc s) ≡ to_file s
unfolding to_mexc to_file
remove_all-to_mexc s h =
    remove_all-to_mexc_from (trim_space s) suffixes (trim_space-All (λ c. c ≢ b'_') s h)
      suffixes-IsPlain

joined-IsTrimmed :
    (s base suffix : Text)
    → IsTrimmed s
    → EndsClean suffix
    → base ++ suffix ≡ s
    → IsTrimmed (joined s base suffix)
unfolding joined is_space
joined-IsTrimmed s [] suffix h k e = h
joined-IsTrimmed s (c ∷ base) [] h k e =
    (subst StartsClean (sym e) h.0, append-EndsClean (c ∷ base) b'_' [] refl)
joined-IsTrimmed s (c ∷ base) (d ∷ suffix) h k e =
    (subst StartsClean (sym e) h.0, append-EndsClean (c ∷ base) b'_' (d ∷ suffix) k)

to_mexc_from-IsTrimmed :
    (s : Text) (rest : List Text) → IsTrimmed s → All IsPlain rest → IsTrimmed (to_mexc_from s rest)
unfolding to_mexc_from
to_mexc_from-IsTrimmed s [] h k = h
to_mexc_from-IsTrimmed s (suffix ∷ rest) h k = elim (Bool-cases (has_suffix s suffix)) [
  | inl e ↦
      rw e
        (joined-IsTrimmed s (trim_suffix s suffix) suffix h k.0.1 (trim_suffix-append s suffix e))
  | inr e ↦ rw e (to_mexc_from-IsTrimmed s rest h k.1)
]

-- A wire symbol has no space at either end.
pub to_mexc-IsTrimmed : (s : Text) → IsTrimmed (to_mexc s)
unfolding to_mexc
to_mexc-IsTrimmed s =
    to_mexc_from-IsTrimmed (trim_space s) suffixes (trim_space-IsTrimmed s) suffixes-IsPlain

-- Two symbols without underscores that have one wire symbol have one file name.
pub to_mexc_inj :
    (s t : Text) → Lacks b'_' s → Lacks b'_' t → to_mexc s ≡ to_mexc t → to_file s ≡ to_file t
to_mexc_inj s t h k e =
    sym (remove_all-to_mexc s h) ∙ ap (remove_all b'_') e ∙ remove_all-to_mexc t k
