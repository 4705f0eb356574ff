-- ===== src/Kline/Candle.antt =====
-- kline/internal/kline/candle.go: a candle, and the upsert of one into an ascending slice.
pub mod Search
pub mod Place
pub mod Order
pub mod Merge
pub mod Tests
use fidorix.Base.{
  ℕ, zero, suc, ◌+◌, ◌/◌, Bool, true, false, ◌&&◌, Option, none, some, List, [], ◌∷◌, ◌++◌, ltb,
  if◌then◌else◌, length, get_elem?, set, take, drop, ℤ, leb_ℤ, eqb_ℤ, Text,
}

pub record Candle : Type 0 where
  pub t : ℤ
  pub o : Text
  pub h : Text
  pub l : Text
  pub c : Text
  pub v : Text
  pub a : Text
  pub q : Text
  pub ro : Text
  pub rc : Text
  pub rh : Text
  pub rl : Text

-- sort.Search: the loop over its two bounds, each round of which narrows them.
pub search_from : ℕ → (ℕ → Bool) → ℕ → ℕ → ℕ
search_from zero f i j = i
search_from (suc fuel) f i j =
    let mid = (i + j) / 2 in
    let lower = search_from fuel f i mid in
    let upper = search_from fuel f (mid + 1) j in
    if ltb i j then if f mid then lower else upper else i

-- As many rounds as there are elements are enough.
pub search : ℕ → (ℕ → Bool) → ℕ
unfolding search_from
search n f = search_from n f 0 n

-- `existing[i].T >= incoming.T`; the search asks only for an index in range.
pub at_least : List Candle → ℤ → ℕ → Bool
at_least existing t i = elim (get_elem? existing i) [ none ↦ false | some x ↦ leb_ℤ t x.t ]

-- `existing[idx].T == incoming.T`, behind the test of the range
pub same_time : List Candle → ℤ → ℕ → Bool
same_time existing t i = elim (get_elem? existing i) [ none ↦ false | some x ↦ eqb_ℤ x.t t ]

pub write_at : List Candle → ℕ → Candle → List Candle
unfolding same_time
write_at existing idx incoming =
    if ltb idx (length existing) && same_time existing incoming.t idx
    then set existing idx incoming
    else take idx existing ++ incoming ∷ drop idx existing

unfoldable pub upsert : List Candle → Candle → List Candle
unfolding search at_least write_at
upsert existing incoming =
    write_at existing (search (length existing) (at_least existing incoming.t)) incoming
