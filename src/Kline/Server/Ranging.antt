-- ===== src/Kline/Server/Ranging.antt =====
-- Go ranges over a map in any order: the loops over the entries of the store do not depend on it.
use mathlib.Core.Quot
use mathlib.Core.Quot.{Quot, Quot-set}
use mathlib.Core.List.Perm
use mathlib.Core.List.{Perm}
use native.Mathlib.Nat.{ℕ_set}
use fidorix.Base.{
  ◌≡◌, refl, ap, Bool, true, false, List, [], ◌∷◌, if◌then◌else◌, arith, Text, Assoc, member,
  IsOrderless, perm_eq,
}
use fidorix.Kline.Symbol.{to_mexc}
use fidorix.Kline.Config.{Config}
use fidorix.Kline.Store.{Entry, Store, clone_entry, clone_all, all, dirty_entries, get_dirty}
use fidorix.Kline.Server.{
  count_entries, count_candles, with_data, kept_dropped, all_or_kept, symbols_with_bootstrap_data,
}

-- A map without the order of its entries, and entries that a loop gets, without theirs.
abbrev pub Unordered : Type 0 → Type 0
Unordered A = Quot (Perm {A = A})

abbrev pub table : Store → Unordered (Text × Entry)
table s = Quot.mk s.entries

abbrev pub batch : List Entry → Unordered Entry
batch = Quot.mk

count-IsOrderless : IsOrderless (λ (m : Assoc Entry). count_entries (clone_all m))
unfolding clone_all
count-IsOrderless = record { cons = λ x xs ys e. omega (arith, e); swap = λ x y xs. omega arith }

has_candles : Text → Assoc Entry → Bool
has_candles w m = member w (with_data (clone_all m))

member-IsOrderless : (w : Text) → IsOrderless (has_candles w)
unfolding clone_all has_candles
member-IsOrderless w = record {
  cons = λ x xs ys e. ground (arith, e);
  swap = λ x y xs. ground arith;
}

-- The loop over the symbols reads the set only.
kept_dropped_ext :
    (a b : List Text) (symbols : List Text)
    → ((w : Text) → member w a ≡ member w b)
    → kept_dropped a symbols ≡ kept_dropped b symbols
unfolding kept_dropped
kept_dropped_ext a b [] h = refl
kept_dropped_ext a b (s ∷ symbols) h = rw (h (to_mexc s), kept_dropped_ext a b symbols h)

push : Entry → Unordered Entry → Unordered Entry
push e = Quot.lift Quot-set (λ es. batch (e ∷ es)) (λ es fs p. Quot.sound (Perm.cons e p))

cons_dirty :
    (b : Bool) (e : Entry) (es fs : List Entry)
    → batch es ≡ batch fs
    → batch (if b then e ∷ es else es) ≡ batch (if b then e ∷ fs else fs)
unfolding push
cons_dirty true e es fs same = ap (push e) same
cons_dirty false e es fs same = same

swap_dirty :
    (b c : Bool) (d e : Entry) (es : List Entry)
    → batch (if b then d ∷ (if c then e ∷ es else es) else (if c then e ∷ es else es))
      ≡ batch (if c then e ∷ (if b then d ∷ es else es) else (if b then d ∷ es else es))
swap_dirty true true d e es = Quot.sound (Perm.swap e d es)
swap_dirty true false d e es = refl
swap_dirty false true d e es = refl
swap_dirty false false d e es = refl

dirty-IsOrderless : IsOrderless (λ (m : Assoc Entry). batch (dirty_entries m))
unfolding dirty_entries
dirty-IsOrderless = record {
  cons = λ x xs ys e. cons_dirty x.1.dirty (clone_entry x.1) _ _ e;
  swap = λ x y xs.
      swap_dirty x.1.dirty y.1.dirty (clone_entry x.1) (clone_entry y.1) (dirty_entries xs);
}

-- A loop that does not depend on the order is a function of the map.
table_eq :
    {C : Type 0} (f : Assoc Entry → C) (s t : Store)
    → IsOrderless f
    → IsSet C
    → table s ≡ table t
    → f s.entries ≡ f t.entries
table_eq f s t orderless C_set e = ap (Quot.lift C_set f (λ xs ys p. perm_eq f orderless C_set p)) e

-- Two stores whose maps differ in the order of their entries only have the same count of candles,
-- the same symbols that are kept and dropped, in the same order, and the same entries to flush up to
-- their order.
pub ranged-eq :
    (cfg : Config) (s t : Store)
    → table s ≡ table t
    → (symbols_with_bootstrap_data cfg s ≡ symbols_with_bootstrap_data cfg t)
      × (count_candles s ≡ count_candles t)
      × (batch (get_dirty s) ≡ batch (get_dirty t))
unfolding symbols_with_bootstrap_data count_candles get_dirty all has_candles
ranged-eq cfg s t e = (
  ap (all_or_kept cfg.symbols) (
      kept_dropped_ext _ _ cfg.symbols
        (λ w. table_eq (has_candles w) s t (member-IsOrderless w) (hlevel) e)),
  table_eq _ s t count-IsOrderless ℕ_set e,
  table_eq _ s t dirty-IsOrderless Quot-set e,
)
