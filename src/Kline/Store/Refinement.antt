-- ===== src/Kline/Store/Refinement.antt =====
-- The store implements a table of candles by symbol, interval and time: what it is asked for behind
-- any run of its methods is what the table has behind the same run.
use fidorix.Base.{
  ◌≡◌, ◌≢◌, ◌∙◌, sym, ap, refl, inl, inr, ◌⊎◌, Bool, true, false, ◌&&◌, Option, some, List, [], ◌∷◌,
  arith, Bool-cases, if◌then◌else◌, elems, All, ℤ, eqb_ℤ, Text, text_eq, text_eq_iff, Lacks,
}
use fidorix.Kline.Candle.{Candle}
use fidorix.Kline.Candle.Place.{IsSorted}
use fidorix.Kline.Candle.Order.{candle_at}
use fidorix.Kline.Store.{CandleFile, Store, upsert, clear_dirty, load}
use fidorix.Kline.Store.Invariant.{IsValid, upsert-IsValid, clear_dirty-IsValid, load-IsValid}
use fidorix.Kline.Store.View.{
  find, find-upsert_self, find-upsert_other, find-load, find-load_other, find-clear_dirty,
}

-- A call of a method that changes the store.
pub data Op : Type 0 where
  upserts : Text → Text → Candle → Op
  clears : Text → Op
  loads : Text → Text → CandleFile → Op

abbrev pub apply : Op → Store → Store
apply (upserts symbol interval c) s = (upsert s symbol interval c).0
apply (clears key) s = clear_dirty s key
apply (loads symbol interval cf) s = load s symbol interval cf

unfoldable pub run : List Op → Store → Store
run [] s = s
run (o ∷ ops) s = run ops (apply o s)

abbrev pub Table : Type 0
Table = Text → Text → ℤ → Option Candle

abbrev pub is_pair : Text → Text → Text → Text → Bool
is_pair symbol interval symbol' interval' = text_eq symbol symbol' && text_eq interval interval'

-- What a call does to the table. A mark is no part of it.
abbrev pub apply_table : Op → Table → Table
apply_table (upserts symbol interval c) b symbol' interval' t =
    if is_pair symbol interval symbol' interval' && eqb_ℤ c.t t
    then some c
    else b symbol' interval' t
apply_table (clears key) b symbol' interval' t = b symbol' interval' t
apply_table (loads symbol interval cf) b symbol' interval' t =
    if is_pair symbol interval symbol' interval'
    then candle_at t (elems cf.candles)
    else b symbol' interval' t

unfoldable pub replay : List Op → Table → Table
replay [] b = b
replay (o ∷ ops) b = replay ops (apply_table o b)

-- The interval of a call holds no colon, and a file that is loaded is in order.
abbrev pub IsProper : Op → Type 0
IsProper (upserts symbol interval c) = Lacks b':' interval
IsProper (clears key) = Unit
IsProper (loads symbol interval cf) = Lacks b':' interval × IsSorted (elems cf.candles)

apply-IsValid : (o : Op) (s : Store) → IsValid s → IsProper o → IsValid (apply o s)
apply-IsValid (upserts symbol interval c) s h p = upsert-IsValid s symbol interval c h
apply-IsValid (clears key) s h p = clear_dirty-IsValid s key h
apply-IsValid (loads symbol interval cf) s h p = load-IsValid s symbol interval cf h p.1

-- The table has what the store is asked for.
abbrev Agrees : Table → Store → Type 0
Agrees b s =
    (symbol interval : Text) (t : ℤ)
    → Lacks b':' interval
    → find s symbol interval t ≡ b symbol interval t

pub pair_cases :
    (symbol interval symbol' interval' : Text)
    → ((symbol ≡ symbol')
        × (interval ≡ interval')
        × (is_pair symbol interval symbol' interval' ≡ true))
      ⊎ (((symbol ≢ symbol') ⊎ (interval ≢ interval'))
          × (is_pair symbol interval symbol' interval' ≡ false))
pair_cases symbol interval symbol' interval' = elim (Bool-cases (text_eq symbol symbol')) [
  | inr n ↦ inr (inl (λ e. ground (arith, text_eq_iff symbol symbol')), ground arith)
  | inl y ↦ elim (Bool-cases (text_eq interval interval')) [
    | inr n ↦ inr (inr (λ e. ground (arith, text_eq_iff interval interval')), ground arith)
    | inl z ↦
        inl ((text_eq_iff symbol symbol').0 y, (text_eq_iff interval interval').0 z, ground arith)
  ]
]

apply-Agrees :
    (o : Op) (s : Store) (b : Table)
    → IsValid s
    → IsProper o
    → Agrees b s
    → Agrees (apply_table o b) (apply o s)
apply-Agrees (upserts symbol interval c) s b h p agrees symbol' interval' t q =
    elim (pair_cases symbol interval symbol' interval') [
      | inl (same, same_interval, y) ↦ rw y (
          rw (sym same, sym same_interval)
            (find-upsert_self s symbol interval c t h
              ∙ ap (λ o. if eqb_ℤ c.t t then some c else o) (agrees symbol interval t p)))
      | inr (ne, n) ↦ rw n (
          find-upsert_other s symbol interval symbol' interval' c t p q ne
          ∙ agrees symbol' interval' t q)
    ]
apply-Agrees (clears key) s b h p agrees symbol' interval' t q =
    find-clear_dirty s key symbol' interval' t ∙ agrees symbol' interval' t q
apply-Agrees (loads symbol interval cf) s b h p agrees symbol' interval' t q =
    elim (pair_cases symbol interval symbol' interval') [
      | inl (same, same_interval, y) ↦
          rw y (rw (sym same, sym same_interval) (find-load s symbol interval cf t).1)
      | inr (ne, n) ↦ rw n (
          find-load_other s symbol interval symbol' interval' cf t p.0 q ne
          ∙ agrees symbol' interval' t q)
    ]

run-Agrees :
    (ops : List Op) (s : Store) (b : Table)
    → IsValid s
    → All IsProper ops
    → Agrees b s
    → Agrees (replay ops b) (run ops s)
unfolding run replay
run-Agrees [] s b h p agrees = agrees
run-Agrees (o ∷ ops) s b h p agrees =
    run-Agrees ops (apply o s) (apply_table o b) (apply-IsValid o s h p.0) p.1
      (apply-Agrees o s b h p.0 agrees)

-- Behind any calls of Upsert, ClearDirty and Load, in any order, a valid store answers for every
-- symbol, interval and time what a table answers behind the same calls, if the intervals hold no
-- colon and the files that are loaded are in order.
pub run_refines :
    (ops : List Op) (s : Store) (symbol interval : Text) (t : ℤ)
    → IsValid s
    → All IsProper ops
    → Lacks b':' interval
    → find (run ops s) symbol interval t ≡ replay ops (find s) symbol interval t
run_refines ops s symbol interval t h p q =
    run-Agrees ops s (find s) h p (λ _ _ _ _. refl) symbol interval t q
