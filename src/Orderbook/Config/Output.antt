-- ===== src/Orderbook/Config/Output.antt =====
-- orderbook/internal/config/config.go: the path of the snapshots of a symbol.
use fidorix.Base.{
  ◌≡◌, ◌≢◌, ◌∙◌, refl, sym, ap, inl, inr, Bool, true, false, Bool-cases, [], ◌∷◌, ◌++◌, ltb,
  if◌then◌else◌, ◌||◌, length, ℤ, pos, ◌*ℤ◌, wrap64, Text, codes, is_empty, text_eq, trim_space,
  trim_suffix, CaseTables, to_upper, Lacks, clean_path, join_path, join_slash, ext, dir_path,
  base_path, json-IsName, join_path-names, path_prefix, prefix_cancel, suffix_cancel,
  clean_path-filled, join_path-filled, cut_last,
}
use fidorix.Orderbook.Config.{Config}

abbrev pub default_symbol : Text
default_symbol = codes "BTCUSDT"

-- In nanoseconds.
unfoldable pub snapshot_flush_interval : Config → ℤ
snapshot_flush_interval c = wrap64 (c.snapshot_flush_ms *ℤ pos 1000000)

unfoldable pub is_multi_symbol : Config → Bool
is_multi_symbol c = ltb 1 (length c.symbols)

abbrev pub or_depth : Text → Text
or_depth base = if is_empty base || text_eq base (codes ".") then codes "depth" else base

abbrev pub dir_of_cleaned : Text → Text
dir_of_cleaned cleaned =
    if is_empty cleaned || text_eq cleaned (codes ".")
    then join_path (codes "." ∷ codes "data" ∷ codes "depth" ∷ [])
    else if is_empty (ext cleaned)
    then cleaned
    else join_path
        (dir_path cleaned ∷ or_depth (trim_suffix (base_path cleaned) (ext cleaned)) ∷ [])

unfoldable pub multi_symbol_output_dir : Text → Text
multi_symbol_output_dir output_path = dir_of_cleaned (clean_path (trim_space output_path))

abbrev pub output_name : CaseTables → Text → Text
output_name u symbol =
    let name = to_upper u (trim_space symbol) in if is_empty name then default_symbol else name

unfoldable pub output_path_for_symbol : CaseTables → Config → Text → Text
output_path_for_symbol u c symbol =
    if is_multi_symbol c
    then join_path
        (multi_symbol_output_dir c.output_path ∷ (output_name u symbol ++ codes ".json") ∷ [])
    else c.output_path

multi_symbol_output_dir-filled :
    (output_path : Text) → is_empty (multi_symbol_output_dir output_path) ≡ false
unfolding multi_symbol_output_dir
multi_symbol_output_dir-filled output_path =
    of_cleaned (clean_path (trim_space output_path)) (clean_path-filled (trim_space output_path))
  where
    of_cleaned :
        (cleaned : Text) → is_empty cleaned ≡ false → is_empty (dir_of_cleaned cleaned) ≡ false
    of_cleaned cleaned filled =
        elim (Bool-cases (is_empty cleaned || text_eq cleaned (codes "."))) [
          | inl e ↦ rw e (join_path-filled (codes ".") (codes "data" ∷ codes "depth" ∷ []) refl)
          | inr e ↦ rw e (elim (Bool-cases (is_empty (ext cleaned))) [
            | inl f ↦ rw f filled
            | inr f ↦ rw f (
                join_path-filled (dir_path cleaned) _
                  (unfold dir_path in clean_path-filled (cut_last cleaned).0))
          ])
        ]

output_path_for_symbol_inj :
    (u : CaseTables) (c : Config) (s t : Text)
    → is_multi_symbol c ≡ true
    → Lacks b'/' (output_name u s)
    → Lacks b'/' (output_name u t)
    → output_path_for_symbol u c s ≡ output_path_for_symbol u c t
    → output_name u s ≡ output_name u t
unfolding output_path_for_symbol
output_path_for_symbol_inj u c s t multi whole whole' e =
    let dir = multi_symbol_output_dir c.output_path in
    suffix_cancel (output_name u s) (output_name u t) (codes ".json") (
      prefix_cancel (path_prefix dir) _ _
        (sym (below (output_name u s) whole) ∙ (rw multi at e) ∙ below (output_name u t) whole'))
  where
    below :
        (name : Text)
        → Lacks b'/' name
        → join_path (multi_symbol_output_dir c.output_path ∷ (name ++ codes ".json") ∷ [])
          ≡ path_prefix (multi_symbol_output_dir c.output_path) ++ (name ++ codes ".json")
    below name h =
        join_path-names (multi_symbol_output_dir c.output_path) (name ++ codes ".json") []
          (multi_symbol_output_dir-filled c.output_path) (json-IsName name h, tt)
        ∙ ap (λ x. path_prefix (multi_symbol_output_dir c.output_path) ++ x)
            (unfold join_slash in refl)

-- Of several symbols, two with different names have different paths, if the names hold no slash.
pub output_path_for_symbol-ne :
    (u : CaseTables) (c : Config) (s t : Text)
    → is_multi_symbol c ≡ true
    → Lacks b'/' (output_name u s)
    → Lacks b'/' (output_name u t)
    → output_name u s ≢ output_name u t
    → output_path_for_symbol u c s ≢ output_path_for_symbol u c t
output_path_for_symbol-ne u c s t multi whole whole' ne e =
    ne (output_path_for_symbol_inj u c s t multi whole whole' e)
