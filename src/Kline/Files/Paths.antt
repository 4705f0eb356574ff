-- ===== src/Kline/Files/Paths.antt =====
-- filePathForEntry: the key stands in for a symbol or an interval that the file lacks.
use fidorix.Base.{
  ℕ, ◌≡◌, ◌≢◌, ◌∙◌, sym, ap, inl, inr, ◌⊎◌, false, refl, some, [], ◌∷◌, ◌++◌, arith, Text, codes,
  is_empty, remove_all, trim_space, Lacks, IsName, json-IsName, join_path-names, join_slash,
  path_prefix, prefix_cancel, suffix_cancel, split_unique, last, last-append, tmp_path, ok,
  join_path,
}
use fidorix.Kline.Symbol.{to_file}
use fidorix.Kline.Store.{Entry, key_for}
use fidorix.Kline.Files.{split_key, located, file_path_for_entry}

-- The key of a symbol without a colon is split into the pair that it was made of.
pub split_key-key_for :
    (symbol interval : Text)
    → Lacks b':' symbol
    → split_key (key_for symbol interval) ≡ some (symbol, interval)
unfolding split_key key_for
split_key-key_for [] interval h = refl
split_key-key_for (c ∷ symbol) interval h = ground (arith, split_key-key_for symbol interval h.1)

-- An entry whose file names neither is put where the pair of its key belongs.
pub file_path_for_entry_of_key :
    (base symbol interval : Text) (e : Entry)
    → Lacks b':' symbol
    → e.key ≡ key_for symbol interval
    → trim_space e.file.symbol ≡ []
    → trim_space e.file.interval ≡ []
    → file_path_for_entry base e ≡ located base (symbol, interval)
unfolding file_path_for_entry
file_path_for_entry_of_key base symbol interval e h same s i =
    rw (s, i, same, split_key-key_for symbol interval h)

-- The name of the file of a symbol, without its extension.
abbrev pub file_symbol_of : Text → Text
file_symbol_of symbol = to_file (remove_all b'_' symbol)

-- What `located` puts behind the base.
abbrev below_base : Text → Text → Text
below_base symbol interval = interval ++ b'/' ∷ (file_symbol_of symbol ++ codes ".json")

located-below :
    (base symbol interval p : Text)
    → is_empty base ≡ false
    → IsName interval
    → Lacks b'/' (file_symbol_of symbol)
    → located base (symbol, interval) ≡ ok p
    → p ≡ path_prefix base ++ below_base symbol interval
located-below base symbol interval p filled name whole found =
    equal
    ∙ join_path-names base interval ((file_symbol_of symbol ++ codes ".json") ∷ []) filled
        (name, (json-IsName (file_symbol_of symbol) whole, tt))
    ∙ ap (λ x. path_prefix base ++ x) (unfold join_slash in refl)
  where
    equal : p ≡ join_path (base ∷ interval ∷ (file_symbol_of symbol ++ codes ".json") ∷ [])
    equal = ground arith

-- The path ends as its extension does, and not as a temporary file does.
ne-tmp_path : (base s i p q : Text) → p ≡ path_prefix base ++ below_base s i → p ≢ tmp_path q
ne-tmp_path base s i p q at e =
    clash (sym last_json ∙ ap (last 0) (sym at ∙ e) ∙ last-append 0 q (codes ".tmp"))
  where
    clash : ◌≡◌ {A = ℕ} b'n' b'p' → ⊥
    clash x = omega arith

    last_json : last 0 (path_prefix base ++ below_base s i) ≡ b'n'
    last_json =
        last-append 0 (path_prefix base) (below_base s i)
        ∙ last-append _ i (b'/' ∷ (file_symbol_of s ++ codes ".json"))
        ∙ last-append b'/' (file_symbol_of s) (codes ".json")

-- Two pairs whose symbols or intervals have different file names have different files, and neither
-- has the temporary file of the other, if the base is not empty, the intervals are names, and the
-- symbols hold no slash.
pub located_apart :
    (base s t i j p q : Text)
    → is_empty base ≡ false
    → IsName i
    → IsName j
    → Lacks b'/' (file_symbol_of s)
    → Lacks b'/' (file_symbol_of t)
    → located base (s, i) ≡ ok p
    → located base (t, j) ≡ ok q
    → (file_symbol_of s ≢ file_symbol_of t) ⊎ (i ≢ j)
    → (p ≢ q) × (p ≢ tmp_path q)
located_apart base s t i j p q filled name name' whole whole' found found' ne =
    let at = located-below base s i p filled name whole found in
    let at' = located-below base t j q filled name' whole' found' in
    (
      λ e. clash ne (same (prefix_cancel (path_prefix base) _ _ (sym at ∙ e ∙ at'))),
      ne-tmp_path base s i p q at,
    )
  where
    same : below_base s i ≡ below_base t j → (file_symbol_of s ≡ file_symbol_of t) × (i ≡ j)
    same e =
        let (intervals, files) =
          split_unique b'/' i j _ _ (json-IsName (file_symbol_of s) whole).whole
            (json-IsName (file_symbol_of t) whole').whole e in
        (suffix_cancel (file_symbol_of s) (file_symbol_of t) (codes ".json") files, intervals)

    clash :
        (file_symbol_of s ≢ file_symbol_of t) ⊎ (i ≢ j)
        → (file_symbol_of s ≡ file_symbol_of t) × (i ≡ j)
        → ⊥
    clash (inl n) e = n e.0
    clash (inr n) e = n e.1
