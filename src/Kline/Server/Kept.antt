-- ===== src/Kline/Server/Kept.antt =====
-- symbolsWithBootstrapData: which symbols the stream is asked for.
use fidorix.Base.{
  member, sym, subst, map, All-append, ◌≡◌, ◌≢◌, refl, inl, inr, ◌⊎◌, Bool, Bool-cases, List, [],
  ◌∷◌, ◌++◌, arith, if◌then◌else◌, All, Text,
}
use mathlib.Core.List.{cons-ne-nil}
use fidorix.Kline.Symbol.{to_mexc}
use fidorix.Kline.Config.{Config}
use fidorix.Kline.Store.{Store, all}
use fidorix.Kline.Ws.Manager.{subscription, subscriptions_of, new_manager}
use fidorix.Kline.Ws.Manager.Shards.{carried, carried-new_manager}
use fidorix.Kline.Server.Preload.{IsKnown}
use fidorix.Kline.Server.{with_data, kept_dropped, all_or_kept, symbols_with_bootstrap_data}

-- The elements that pass a test, in order.
abbrev pub filtered : (Text → Bool) → List Text → List Text
filtered p [] = []
filtered p (x ∷ xs) = let rest = filtered p xs in if p x then x ∷ rest else rest

-- The symbol has an entry with a candle.
abbrev pub has_data : Store → Text → Bool
has_data s file_symbol = member (to_mexc file_symbol) (with_data (all s))

kept_dropped-filtered :
    (s : Store) (symbols : List Text)
    → (kept_dropped (with_data (all s)) symbols).0 ≡ filtered (has_data s) symbols
unfolding kept_dropped
kept_dropped-filtered s [] = refl
kept_dropped-filtered s (x ∷ xs) = ground (arith, kept_dropped-filtered s xs)

-- The symbols that are kept are those with a candle, in the order of the settings, or all of them
-- where none has one: the stream never runs without a symbol.
pub symbols_with_bootstrap_data_result :
    (cfg : Config) (s : Store)
    → cfg.symbols ≢ []
    → ((symbols_with_bootstrap_data cfg s).0 ≢ [])
      × (((symbols_with_bootstrap_data cfg s).0 ≡ filtered (has_data s) cfg.symbols)
          ⊎ ((filtered (has_data s) cfg.symbols ≡ [])
              × ((symbols_with_bootstrap_data cfg s).0 ≡ cfg.symbols)))
unfolding symbols_with_bootstrap_data
symbols_with_bootstrap_data_result cfg s some_symbol =
    of_kept (kept_dropped (with_data (all s)) cfg.symbols) (kept_dropped-filtered s cfg.symbols)
  where
    of_kept :
        (r : List Text × List Text)
        → r.0 ≡ filtered (has_data s) cfg.symbols
        → ((all_or_kept cfg.symbols r).0 ≢ [])
          × (((all_or_kept cfg.symbols r).0 ≡ filtered (has_data s) cfg.symbols)
              ⊎ ((filtered (has_data s) cfg.symbols ≡ [])
                  × ((all_or_kept cfg.symbols r).0 ≡ cfg.symbols)))
    of_kept ([], dropped) e = (some_symbol, inr (sym e, refl))
    of_kept (k ∷ kept, dropped) e = (cons-ne-nil k kept, inl e)

All-split : {A : Type 0} (P : A → Type 0) (xs ys : List A) → All P (xs ++ ys) → All P xs × All P ys
All-split P [] ys h = (tt, h)
All-split P (x ∷ xs) ys h = let (a, b) = All-split P xs ys h.1 in ((h.0, a), b)

filtered-IsKnown :
    (s : Store) (p : Text → Bool) (symbols intervals : List Text)
    → All (IsKnown s) (subscriptions_of symbols intervals)
    → All (IsKnown s) (subscriptions_of (filtered p symbols) intervals)
unfolding subscriptions_of
filtered-IsKnown s p [] intervals h = tt
filtered-IsKnown s p (x ∷ xs) intervals h =
    let (first, later) =
      All-split (IsKnown s) (map (subscription (to_mexc x)) intervals)
        (subscriptions_of xs intervals) h in
    let rest = filtered-IsKnown s p xs intervals later in
    elim (Bool-cases (p x)) [
      | inl e ↦
          rw e (All-append (IsKnown s) (map (subscription (to_mexc x)) intervals) _ first rest)
      | inr e ↦ rw e rest
    ]

-- If the store has the pair of every subscription of the settings, as it has behind a preload, then
-- it has the pair of every subscription that the connections carry for the symbols that are kept: a
-- push for one is not dropped as unknown.
pub carried-IsKnown :
    (cfg : Config) (s : Store)
    → cfg.symbols ≢ []
    → All (IsKnown s) (subscriptions_of cfg.symbols cfg.intervals)
    → All
        (IsKnown s)
        (carried (new_manager (record cfg { symbols = (symbols_with_bootstrap_data cfg s).0 })))
carried-IsKnown cfg s some_symbol h =
    let kept = (symbols_with_bootstrap_data cfg s).0 in
    subst (All (IsKnown s)) (sym (carried-new_manager (record cfg { symbols = kept })))
      (elim (symbols_with_bootstrap_data_result cfg s some_symbol).1 [
        | inl e ↦
            subst (λ ss. All (IsKnown s) (subscriptions_of ss cfg.intervals)) (sym e)
              (filtered-IsKnown s (has_data s) cfg.symbols cfg.intervals h)
        | inr (none_kept, e) ↦
            subst (λ ss. All (IsKnown s) (subscriptions_of ss cfg.intervals)) (sym e) h
      ])
