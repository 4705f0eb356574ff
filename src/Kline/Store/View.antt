-- ===== src/Kline/Store/View.antt =====
-- The store as a map from a symbol, an interval and a time to a candle.
use fidorix.Base.{
  ◌≡◌, ◌≢◌, subst, ap, Bool-cases, text_eq, text_eq_iff, lookup-insert, inl, inr, ◌⊎◌, true, Option,
  none, some, List, [], Option-cases, if◌then◌else◌, elems, ℤ, eqb_ℤ, Text, Lacks, lookup,
  lookup-insert_self, lookup-insert_ne, lookup-Each,
}
use fidorix.Kline.Candle.{Candle}
use fidorix.Kline.Candle.Order.{candle_at, candle_at-upsert}
use fidorix.Kline.Store.{CandleFile, Entry, Store, key_for, upsert, clean, clear_dirty, load, has}
use fidorix.Kline.Store.Keys.{key_for_inj}
use fidorix.Kline.Store.Invariant.{IsValid, IsValidEntry}

abbrev pub candles_of : Option Entry → List Candle
candles_of none = []
candles_of (some e) = elems e.file.candles

-- The candle that the store has for a symbol, an interval and a time.
abbrev pub find : Store → Text → Text → ℤ → Option Candle
find s symbol interval t = candle_at t (candles_of (lookup (key_for symbol interval) s.entries))

-- Behind an upsert its pair has the new candle at its time, and every other time as before.
pub find-upsert_self :
    (s : Store) (symbol interval : Text) (c : Candle) (t : ℤ)
    → IsValid s
    → find (upsert s symbol interval c).0 symbol interval t
      ≡ (if eqb_ℤ c.t t then some c else find s symbol interval t)
unfolding upsert
find-upsert_self s symbol interval c t h =
    let k = key_for symbol interval in
    rw (lookup-insert_self k _ s.entries) (elim (Option-cases (lookup k s.entries)) [
      | inl e ↦ rw e (candle_at-upsert t [] c tt)
      | inr (old, e) ↦ rw e (
          candle_at-upsert t (elems old.file.candles) c
            (lookup-Each IsValidEntry k old s.entries h.each e).sorted)
    ])

key_for_ne :
    (s t i j : Text) → Lacks b':' i → Lacks b':' j → (s ≢ t) ⊎ (i ≢ j) → key_for s i ≢ key_for t j
key_for_ne s t i j h k (inl ne) e = ne (key_for_inj s t i j h k e).0
key_for_ne s t i j h k (inr ne) e = ne (key_for_inj s t i j h k e).1

-- It changes no other pair, if the intervals hold no colon.
pub find-upsert_other :
    (s : Store) (symbol interval symbol' interval' : Text) (c : Candle) (t : ℤ)
    → Lacks b':' interval
    → Lacks b':' interval'
    → (symbol ≢ symbol') ⊎ (interval ≢ interval')
    → find (upsert s symbol interval c).0 symbol' interval' t ≡ find s symbol' interval' t
unfolding upsert
find-upsert_other s symbol interval symbol' interval' c t h k ne = rw (
    lookup-insert_ne (key_for symbol interval) (key_for symbol' interval') _ s.entries
      (key_for_ne symbol symbol' interval interval' h k ne))

-- After Load the pair is there, and its candles are those of the file.
pub find-load :
    (s : Store) (symbol interval : Text) (cf : CandleFile) (t : ℤ)
    → (has (load s symbol interval cf) symbol interval ≡ true)
      × (find (load s symbol interval cf) symbol interval t ≡ candle_at t (elems cf.candles))
unfolding load has
find-load s symbol interval cf t = (
  rw (lookup-insert_self (key_for symbol interval) _ s.entries),
  rw (lookup-insert_self (key_for symbol interval) _ s.entries),
)

pub find-load_other :
    (s : Store) (symbol interval symbol' interval' : Text) (cf : CandleFile) (t : ℤ)
    → Lacks b':' interval
    → Lacks b':' interval'
    → (symbol ≢ symbol') ⊎ (interval ≢ interval')
    → find (load s symbol interval cf) symbol' interval' t ≡ find s symbol' interval' t
unfolding load
find-load_other s symbol interval symbol' interval' cf t h k ne = rw (
    lookup-insert_ne (key_for symbol interval) (key_for symbol' interval') _ s.entries
      (key_for_ne symbol symbol' interval interval' h k ne))

candles_of-clear_dirty :
    (s : Store) (key k : Text)
    → candles_of (lookup k (clear_dirty s key).entries) ≡ candles_of (lookup k s.entries)
unfolding clear_dirty
candles_of-clear_dirty s key k = elim (Option-cases (lookup key s.entries)) [
  | inl e ↦ rw e
  | inr (w, e) ↦
      rw (e, lookup-insert key k (clean w) s.entries)
        (elim (Bool-cases (text_eq key k)) [
          | inl y ↦ rw y (
              subst (λ j. elems w.file.candles ≡ candles_of (lookup j s.entries))
                ((text_eq_iff key k).0 y) (rw e))
          | inr n ↦ rw n
        ])
]

-- A mark that is cleared changes no candle.
pub find-clear_dirty :
    (s : Store) (key symbol interval : Text) (t : ℤ)
    → find (clear_dirty s key) symbol interval t ≡ find s symbol interval t
find-clear_dirty s key symbol interval t =
    ap (candle_at t) (candles_of-clear_dirty s key (key_for symbol interval))
