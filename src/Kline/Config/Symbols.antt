-- ===== src/Kline/Config/Symbols.antt =====
-- parseSymbols: what it returns, and that it reads back a list of symbols.
use mathlib.Core.List.{cons-ne-nil}
use fidorix.Base.{
  ℕ, ◌≡◌, ◌≢◌, refl, ap, sym, ◌∙◌, inl, inr, List, [], ◌∷◌, ◌++◌, arith, append-nil, append_assoc,
  Bool-cases, if◌then◌else◌, ◌==◌, All, All-imp, All-append, Text, is_empty, trim_space, split_from,
  split, Lacks, IsTrimmed, trim_space-IsTrimmed, trim_space_of_IsTrimmed, trim_space-All,
}
use fidorix.Kline.Config.{clean_symbols, parse_symbols, add_part}

-- A symbol as Load leaves it: not empty, no space at its ends, no comma.
abbrev pub IsSymbol : Text → Type 0
IsSymbol s = (s ≢ []) × IsTrimmed s × Lacks b',' s

split_from-Lacks : (sep : ℕ) (cur s : Text) → Lacks sep cur → All (Lacks sep) (split_from sep cur s)
unfolding split_from
split_from-Lacks sep cur [] h = (h, tt)
split_from-Lacks sep cur (c ∷ s) h = elim (Bool-cases (c == sep)) [
  | inl e ↦ rw e (h, split_from-Lacks sep [] s tt)
  | inr e ↦ rw e (
      split_from-Lacks sep (cur ++ c ∷ []) s
        (All-append (λ d. d ≢ sep) cur (c ∷ []) h (ground arith, tt)))
]

add-IsSymbol :
    (s : Text) (out : List Text)
    → IsTrimmed s
    → Lacks b',' s
    → All IsSymbol out
    → All IsSymbol (if is_empty s then out else s ∷ out)
add-IsSymbol [] out t l h = h
add-IsSymbol (c ∷ s) out t l h = ((cons-ne-nil c s, t, l), h)

clean_symbols-IsSymbol :
    (parts : List Text) → All (Lacks b',') parts → All IsSymbol (clean_symbols parts)
unfolding clean_symbols
clean_symbols-IsSymbol [] h = tt
clean_symbols-IsSymbol (part ∷ parts) h =
    add-IsSymbol (trim_space part) (clean_symbols parts) (trim_space-IsTrimmed part)
      (trim_space-All (λ c. c ≢ b',') part h.0) (clean_symbols-IsSymbol parts h.1)

-- Whatever the variable holds, the symbols are not empty, and hold no comma and no outer space.
pub parse_symbols-IsSymbol : (raw : Text) → All IsSymbol (parse_symbols raw)
unfolding parse_symbols split
parse_symbols-IsSymbol raw = clean_symbols-IsSymbol _ (split_from-Lacks b',' [] raw tt)

-- The symbols with a comma behind each but the last.
abbrev pub listed : List Text → Text
listed [] = []
listed (s ∷ []) = s
listed (s ∷ t ∷ ss) = s ++ b',' ∷ listed (t ∷ ss)

split_from-append :
    (sep : ℕ) (cur s rest : Text)
    → Lacks sep s
    → split_from sep cur (s ++ rest) ≡ split_from sep (cur ++ s) rest
unfolding split_from
split_from-append sep cur [] rest h = ap (λ c. split_from sep c rest) (sym (append-nil cur))
split_from-append sep cur (c ∷ s) rest h =
    ground (arith, split_from-append sep (cur ++ c ∷ []) s rest h.1, append_assoc cur (c ∷ []) s)

split_from_at_sep :
    (sep : ℕ) (cur s : Text) → split_from sep cur (sep ∷ s) ≡ cur ∷ split_from sep [] s
unfolding split_from
split_from_at_sep sep cur s = ground arith

split-listed : (ss : List Text) → ss ≢ [] → All (Lacks b',') ss → split (listed ss) b',' ≡ ss
unfolding split
split-listed [] ne h = absurd (ne refl)
split-listed (s ∷ []) ne h =
    ap (λ t. split_from b',' [] t) (sym (append-nil s)) ∙ split_from-append b',' [] s [] h.0
split-listed (s ∷ t ∷ ss) ne h =
    split_from-append b',' [] s (b',' ∷ listed (t ∷ ss)) h.0
    ∙ split_from_at_sep b',' s (listed (t ∷ ss))
    ∙ ap (λ parts. s ∷ parts) (split-listed (t ∷ ss) (cons-ne-nil t ss) h.1)

clean_symbols_of_IsSymbol : (ss : List Text) → All IsSymbol ss → clean_symbols ss ≡ ss
unfolding clean_symbols
clean_symbols_of_IsSymbol [] h = refl
clean_symbols_of_IsSymbol (s ∷ ss) h =
    rw (trim_space_of_IsTrimmed s h.0.1, clean_symbols_of_IsSymbol ss h.1) (added s h.0.0)
  where
    added : (t : Text) → t ≢ [] → add_part t ss ≡ t ∷ ss
    added [] ne = absurd (ne refl)
    added (c ∷ t) ne = refl

-- A list of such symbols, written with commas, is read back.
pub parse_symbols-listed :
    (ss : List Text) → ss ≢ [] → All IsSymbol ss → parse_symbols (listed ss) ≡ ss
unfolding parse_symbols
parse_symbols-listed ss ne h =
    ap clean_symbols (split-listed ss ne (All-imp IsSymbol (Lacks b',') ss (λ s p. p.2) h))
    ∙ clean_symbols_of_IsSymbol ss h
