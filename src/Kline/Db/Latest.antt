-- ===== src/Kline/Db/Latest.antt =====
-- LoadLatest: the rows of the query, oldest first.
use mathlib.Core.List.{reverse, reverse-cons}
use fidorix.Base.{
  ◌≡◌, refl, ap, sym, ◌∙◌, subst, inl, inr, ◌⊎◌, Bool, true, false, Bool-cases, Option, none, some,
  List, [], ◌∷◌, ◌++◌, map, All, All-append, ℤ, pos, ◌<ℤ◌, leb_ℤ, Text, Result, ok, err, ◌>>=◌,
}
use fidorix.Kline.Candle.{Candle}
use fidorix.Kline.Candle.Place.{IsSorted}
use fidorix.Kline.Db.{
  CandleRecord, DbError, Floats, LatestRows, candle_of, scanned, iterated, read_rows, load_latest,
}
use fidorix.Kline.Db.Reversal.{reverse_candles-eq-reverse}

-- Strictly descending times, as the query's ORDER BY gives them: a pair has a time once.
abbrev pub IsDescending : List Candle → Type 0
IsDescending [] = Unit
IsDescending (x ∷ xs) = All (λ y. y.t <ℤ x.t) xs × IsDescending xs

snoc-IsSorted :
    (xs : List Candle) (c : Candle)
    → IsSorted xs
    → All (λ x. x.t <ℤ c.t) xs
    → IsSorted (xs ++ c ∷ [])
snoc-IsSorted [] c h k = (tt, tt)
snoc-IsSorted (x ∷ xs) c h k =
    (All-append (λ y. x.t <ℤ y.t) xs (c ∷ []) h.0 (k.0, tt), snoc-IsSorted xs c h.1 k.1)

reverse-All : (P : Candle → Type 0) (xs : List Candle) → All P xs → All P (reverse xs)
reverse-All P [] h = tt
reverse-All P (x ∷ xs) h =
    subst (All P) (sym (reverse-cons x xs))
      (All-append P (reverse xs) (x ∷ []) (reverse-All P xs h.1) (h.0, tt))

reverse-IsSorted : (xs : List Candle) → IsDescending xs → IsSorted (reverse xs)
reverse-IsSorted [] h = tt
reverse-IsSorted (x ∷ xs) h =
    subst IsSorted (sym (reverse-cons x xs)) (
      snoc-IsSorted (reverse xs) x (reverse-IsSorted xs h.1) (reverse-All (λ y. y.t <ℤ x.t) xs h.0))

ok_inj : {r : Result DbError (List Candle)} {a b : List Candle} → r ≡ ok a → r ≡ ok b → a ≡ b
ok_inj d e = cc

module _ {F : Type 0} (fl : Floats F) where
  -- Every row was scanned, and its candle is that of the row.
  pub record IsScanned (rows : List (Option (CandleRecord F))) (cs : List Candle) : Type 0 where
    pub records : List (CandleRecord F)
    pub all_scanned : rows ≡ map some records
    pub converted : cs ≡ map (candle_of fl) records

  scanned-IsScanned :
      (rows : List (Option (CandleRecord F))) (cs : List Candle)
      → scanned fl rows ≡ ok cs
      → IsScanned rows cs
  unfolding scanned
  scanned-IsScanned [] cs h = record { records = []; all_scanned = refl; converted = cc }
  scanned-IsScanned (none ∷ rows) cs h = cc
  scanned-IsScanned (some r ∷ rows) cs h = of_rest (scanned-IsScanned rows) (scanned fl rows) refl h
    where
      of_rest :
          ((ds : List Candle) → scanned fl rows ≡ ok ds → IsScanned rows ds)
          → (o : Result DbError (List Candle)) → scanned fl rows ≡ o
          → (o >>= λ ds. ok (candle_of fl r ∷ ds)) ≡ ok cs
          → IsScanned (some r ∷ rows) cs
      of_rest ih (err e) s h = cc
      of_rest ih (ok ds) s h =
          let q = ih ds s in
          record {
            records = r ∷ q.records;
            all_scanned = ap (λ xs. some r ∷ xs) q.all_scanned;
            converted = ok_inj h refl ∙ ap (λ xs. candle_of fl r ∷ xs) q.converted;
          }

  module _ (ready : Bool) (query : Text → Text → ℤ → Option (LatestRows F)) (symbol interval : Text)
      (limit : ℤ) (cs : List Candle)
      (done : load_latest fl ready query symbol interval limit ≡ ok cs) where
    -- Candles are returned only if the limit is not positive, or the whole answer of the query was
    -- read without an error; then they are its rows in the reverse order.
    pub load_latest_result :
        ((leb_ℤ limit (pos 0) ≡ true) × (cs ≡ []))
        ⊎ ((rows : LatestRows F) × (query symbol interval limit ≡ some rows)
            × (rows.err_at_end ≡ false)
            × ((ds : List Candle) × IsScanned rows.rows ds × (cs ≡ reverse ds)))
    unfolding load_latest
    load_latest_result = elim (Bool-cases ready) [
      | inr e ↦ absurd (refused (rw e at done))
      | inl e ↦ elim (Bool-cases (leb_ℤ limit (pos 0))) [
        | inl low ↦ inl (low, ok_inj (rw (e, low) at done) refl)
        | inr high ↦ inr (of_answer (query symbol interval limit) refl (rw (e, high) at done))
      ]
    ]
      where
        refused : {x : DbError} → err x ≡ ok cs → ⊥
        refused h = cc

        of_rows :
            (rows : LatestRows F) (o : Result DbError (List Candle))
            → scanned fl rows.rows ≡ o
            → (o >>= iterated rows.err_at_end) ≡ ok cs
            → (rows.err_at_end ≡ false)
              × ((ds : List Candle) × IsScanned rows.rows ds × (cs ≡ reverse ds))
        of_rows rows (err x) s h = cc
        of_rows rows (ok ds) s h = elim (Bool-cases rows.err_at_end) [
          | inl bad ↦ absurd (refused (rw bad at h))
          | inr good ↦ (
            good,
            (
              ds,
              scanned-IsScanned rows.rows ds s,
              ok_inj (rw good at h) refl ∙ reverse_candles-eq-reverse ds,
            ),
          )
        ]

        of_answer :
            (o : Option (LatestRows F))
            → query symbol interval limit ≡ o
            → read_rows fl o ≡ ok cs
            → (rows : LatestRows F) × (query symbol interval limit ≡ some rows)
              × (rows.err_at_end ≡ false)
              × ((ds : List Candle) × IsScanned rows.rows ds × (cs ≡ reverse ds))
        of_answer none e h = cc
        of_answer (some rows) e h =
            let (whole, read) = of_rows rows (scanned fl rows.rows) refl h in (rows, e, whole, read)

    -- If the query gives strictly descending times, the candles are in strictly ascending order, as
    -- the store and its upsert want them.
    pub load_latest-IsSorted :
        ((rows : LatestRows F)
          → query symbol interval limit ≡ some rows
          → (ds : List Candle) → IsScanned rows.rows ds
          → IsDescending ds)
        → IsSorted cs
    load_latest-IsSorted ordered = elim load_latest_result [
      | inl (low, e) ↦ subst IsSorted (sym e) tt
      | inr (rows, got, whole, (ds, read, e)) ↦
          subst IsSorted (sym e) (reverse-IsSorted ds (ordered rows got ds read))
    ]
