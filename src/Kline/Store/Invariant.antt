-- ===== src/Kline/Store/Invariant.antt =====
-- What holds of the store whatever methods are called, and in whatever order.
use fidorix.Base.{
  ◌≡◌, ◌≢◌, refl, inl, inr, Bool, none, Option-cases, elems, Text, lookup, insert, Distinct,
  insert-Distinct, Each, insert-Each, lookup-Each,
}
use fidorix.Kline.Candle.{Candle}
use fidorix.Kline.Candle.Place.{IsSorted}
use fidorix.Kline.Candle.Order.{upsert-IsSorted}
use fidorix.Kline.Store.{
  CandleFile, Entry, Store, new_full, key_for, entry_or_new, with_candle, upsert, clean,
  clear_dirty, load,
}

-- An entry stands under its own key, its slice is not nil, and its times ascend strictly.
pub record IsValidEntry (k : Text) (e : Entry) : Type 0 where
  pub keyed : e.key ≡ k
  pub made : e.file.candles ≢ none
  pub sorted : IsSorted (elems e.file.candles)

pub record IsValid (s : Store) : Type 0 where
  pub distinct : Distinct s.entries
  pub each : Each IsValidEntry s.entries

pub new_full-IsValid : (d r : Bool) → IsValid (new_full d r)
unfolding new_full
new_full-IsValid d r = record { distinct = tt; each = tt }

insert-IsValid :
    (s : Store) (k : Text) (e : Entry)
    → IsValid s
    → IsValidEntry k e
    → IsValid (record s { entries = insert k e s.entries })
insert-IsValid s k e h v = record {
  distinct = insert-Distinct k e s.entries h.distinct;
  each = insert-Each IsValidEntry k e s.entries v h.each;
}

with_candle-IsValidEntry :
    (k : Text) (e : Entry) (symbol interval : Text) (c : Candle)
    → e.key ≡ k
    → IsSorted (elems e.file.candles)
    → IsValidEntry k (with_candle e symbol interval c)
with_candle-IsValidEntry k e symbol interval c same h = record {
  keyed = same;
  made = cc;
  sorted = upsert-IsSorted (elems e.file.candles) c h;
}

-- Upsert keeps the store valid, for a pair that it has and for a new one.
pub upsert-IsValid :
    (s : Store) (symbol interval : Text) (c : Candle)
    → IsValid s
    → IsValid (upsert s symbol interval c).0
unfolding upsert
upsert-IsValid s symbol interval c h =
    let k = key_for symbol interval in
    insert-IsValid s k _ h (elim (Option-cases (lookup k s.entries)) [
      | inl e ↦ rw e (
          with_candle-IsValidEntry k (entry_or_new k symbol interval none) symbol interval c refl
            tt)
      | inr (old, e) ↦
          let v = lookup-Each IsValidEntry k old s.entries h.each e in
          rw e (with_candle-IsValidEntry k old symbol interval c v.keyed v.sorted)
    ])

pub clear_dirty-IsValid : (s : Store) (key : Text) → IsValid s → IsValid (clear_dirty s key)
unfolding clear_dirty
clear_dirty-IsValid s key h = elim (Option-cases (lookup key s.entries)) [
  | inl e ↦ rw e h
  | inr (old, e) ↦
      let v = lookup-Each IsValidEntry key old s.entries h.each e in
      rw e (
        insert-IsValid s key (clean old) h
          (record { keyed = v.keyed; made = v.made; sorted = v.sorted }))
]

-- Load does not look at the order: the file that it is given has to be in order.
pub load-IsValid :
    (s : Store) (symbol interval : Text) (cf : CandleFile)
    → IsValid s
    → IsSorted (elems cf.candles)
    → IsValid (load s symbol interval cf)
unfolding load
load-IsValid s symbol interval cf h sorted =
    insert-IsValid s (key_for symbol interval) _ h
      (record { keyed = refl; made = cc; sorted = sorted })

-- One critical section of some goroutine.
pub data Step (s : Store) : Store → Type 0 where
  upserts : (symbol interval : Text) (c : Candle) → Step s (upsert s symbol interval c).0
  clears : (key : Text) → Step s (clear_dirty s key)
  loads :
      (symbol interval : Text) (cf : CandleFile)
      → IsSorted (elems cf.candles)
      → Step s (load s symbol interval cf)

pub data Reach (s : Store) : Store → Type 0 where
  here : Reach s s
  next : {t u : Store} → Reach s t → Step t u → Reach s u

Step-IsValid : {s t : Store} → Step s t → IsValid s → IsValid t
Step-IsValid {s} (upserts symbol interval c) h = upsert-IsValid s symbol interval c h
Step-IsValid {s} (clears key) h = clear_dirty-IsValid s key h
Step-IsValid {s} (loads symbol interval cf sorted) h = load-IsValid s symbol interval cf h sorted

-- Whatever the goroutines call, in whatever order, a valid store stays valid, if the files that are
-- loaded are in order.
pub Reach-IsValid : {s t : Store} → IsValid s → Reach s t → IsValid t
Reach-IsValid h here = h
Reach-IsValid h (next r st) = Step-IsValid st (Reach-IsValid h r)
