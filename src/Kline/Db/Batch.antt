-- ===== src/Kline/Db/Batch.antt =====
-- UpsertBatch: nothing is sent unless every candle is a row.
use fidorix.Base.{
  subst, ◌≡◌, refl, inl, inr, ◌⊎◌, Bool, true, false, some, List, [], ◌∷◌, arith, Result-cases,
  length, Text, Result, ok, err, ◌>>=◌,
}
use fidorix.Kline.Candle.{Candle}
use fidorix.Kline.Db.{
  CandleRecord, DbError, Floats, parse_numeric, to_record, queued, executed, upsert_batch,
}

module _ {F : Type 0} (fl : Floats F) (symbol interval : Text) where
  -- A row for the candle: its pair, its time, and its six texts as the numbers that they are.
  pub record IsRecord (c : Candle) (r : CandleRecord F) : Type 0 where
    pub of_symbol : r.symbol ≡ symbol
    pub of_interval : r.interval ≡ interval
    pub open_time : r.open_time ≡ c.t
    pub open_price : fl.parse_float c.o ≡ some r.open_price
    pub high : fl.parse_float c.h ≡ some r.high
    pub low : fl.parse_float c.l ≡ some r.low
    pub close_price : fl.parse_float c.c ≡ some r.close_price
    pub volume : fl.parse_float c.v ≡ some r.volume
    pub amount : fl.parse_float c.a ≡ some r.amount

  abbrev pub AreRecords : List Candle → List (CandleRecord F) → Type 0
  AreRecords [] [] = Unit
  AreRecords (c ∷ cs) (r ∷ rs) = IsRecord c r × AreRecords cs rs
  AreRecords _ _ = ⊥

  to_record-IsRecord :
      (c : Candle) (r : CandleRecord F) → to_record fl symbol interval c ≡ ok r → IsRecord c r
  unfolding to_record parse_numeric
  to_record-IsRecord c r h = record {
    of_symbol = ground arith;
    of_interval = ground arith;
    open_time = ground arith;
    open_price = ground arith;
    high = ground arith;
    low = ground arith;
    close_price = ground arith;
    volume = ground arith;
    amount = ground arith;
  }

  queued-AreRecords :
      (cs : List Candle) (rs : List (CandleRecord F))
      → queued fl symbol interval cs ≡ ok rs
      → AreRecords cs rs
  unfolding queued
  queued-AreRecords [] [] h = tt
  queued-AreRecords [] (r ∷ rs) h = cc
  queued-AreRecords (c ∷ cs) rs h =
      of_row (queued-AreRecords cs) (to_record fl symbol interval c) refl h
    where
      done : List (CandleRecord F) → Result DbError (List (CandleRecord F))
      done = ok

      ok_inj : {a b : List (CandleRecord F)} → done a ≡ done b → a ≡ b
      ok_inj e = cc

      of_rows :
          (r : CandleRecord F) (q : Result DbError (List (CandleRecord F)))
          → ((qs : List (CandleRecord F)) → q ≡ ok qs → AreRecords cs qs)
          → IsRecord c r
          → (q >>= λ qs. ok (r ∷ qs)) ≡ ok rs
          → AreRecords (c ∷ cs) rs
      of_rows r (ok qs) later first h =
          subst (AreRecords (c ∷ cs)) (ok_inj h) (first, later qs refl)
      of_rows r (err e) later first h = cc

      of_row :
          ((qs : List (CandleRecord F)) → queued fl symbol interval cs ≡ ok qs → AreRecords cs qs)
          → (o : Result DbError (CandleRecord F)) → to_record fl symbol interval c ≡ o
          → (o >>= λ r. queued fl symbol interval cs >>= λ qs. ok (r ∷ qs)) ≡ ok rs
          → AreRecords (c ∷ cs) rs
      of_row ih (ok r) e h =
          of_rows r (queued fl symbol interval cs) ih (to_record-IsRecord c r e) h
      of_row ih (err x) e h = cc

  -- Either UpsertBatch has sent nothing and returns an error, or it has sent a row for every candle,
  -- in order, and its result is what the executions of the rows give.
  pub upsert_batch_result :
      (ready : Bool) (answers : List Bool) (cs : List Candle)
      → (((upsert_batch fl ready answers symbol interval cs).0 ≡ [])
          × ((e : DbError) × ((upsert_batch fl ready answers symbol interval cs).1 ≡ err e)))
        ⊎ ((ready ≡ true)
            × AreRecords cs (upsert_batch fl ready answers symbol interval cs).0
            × ((upsert_batch fl ready answers symbol interval cs).1 ≡ executed (length cs) answers))
  unfolding upsert_batch
  upsert_batch_result false answers [] = inl (refl, (_, refl))
  upsert_batch_result false answers (c ∷ cs) = inl (refl, (_, refl))
  upsert_batch_result true answers [] = inr (refl, tt, refl)
  upsert_batch_result true answers (c ∷ cs) =
      elim (Result-cases (queued fl symbol interval (c ∷ cs))) [
        | inl (e, bad) ↦ inl (rw bad (refl, (e, refl)))
        | inr (rs, good) ↦ inr (refl, rw good (queued-AreRecords (c ∷ cs) rs good), rw good)
      ]
