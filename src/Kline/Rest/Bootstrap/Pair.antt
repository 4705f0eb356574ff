-- ===== src/Kline/Rest/Bootstrap/Pair.antt =====
-- bootstrapPair: what it leaves in the store, on the disk and in the database, however it ends.
use fidorix.Base.{
  ℕ, pos, ◌≡◌, ◌≢◌, refl, ap, sym, ◌∙◌, subst, inl, inr, ◌⊎◌, Bool, Option, none, some, List, [],
  ◌∷◌, ◌++◌, Result-cases, if◌then◌else◌, length, elems, ℤ, eqb_ℤ, Text, Codec, Disk, Result, ok,
  err,
}
use fidorix.Kline.Candle.{Candle, upsert}
use fidorix.Kline.Candle.Place.{IsSorted}
use fidorix.Kline.Candle.Order.{candle_at, candle_at-upsert, upsert-IsSorted}
use fidorix.Kline.Candle.Merge.{upsert_all, upsert_all-IsSorted}
use fidorix.Kline.Store.{CandleFile, load}
use fidorix.Kline.Store.Invariant.{IsValid, load-IsValid}
use fidorix.Kline.Store.View.{find, find-load}
use fidorix.Kline.Files.{stamped, load_file, save_file, SaveError}
use fidorix.Kline.Files.Saving.{save_file_encoded, save_file_result}
use fidorix.Kline.Rest.Client.{fetch_kline}
use fidorix.Kline.Rest.Bootstrap.{
  PairError, compute_start, pair_path, existing_file, merged_file, PairEnv, Pairing, upsert_merged,
  saved, bootstrap_pair,
}

-- The last candle of a time in the order of arrival, or `before`.
abbrev pub last_at : ℤ → Option Candle → List Candle → Option Candle
last_at t before [] = before
last_at t before (c ∷ cs) = last_at t (if eqb_ℤ c.t t then some c else before) cs

-- Behind the merge a time has the last fetched candle of it, or what it had.
pub candle_at-upsert_all :
    (t : ℤ) (xs cs : List Candle)
    → IsSorted xs
    → candle_at t (upsert_all xs cs) ≡ last_at t (candle_at t xs) cs
unfolding upsert_all
candle_at-upsert_all t xs [] h = refl
candle_at-upsert_all t xs (c ∷ cs) h =
    candle_at-upsert_all t (upsert xs c) cs (upsert-IsSorted xs c h)
    ∙ ap (λ b. last_at t b cs) (candle_at-upsert t xs c h)

module _ {B : Type 0} (json : Codec CandleFile B) (env : PairEnv B) (limit : ℤ) (has_db : Bool)
    (base file_symbol wire interval : Text) (p : Pairing B) where
  abbrev path : Text
  path = pair_path base file_symbol interval

  abbrev existing : CandleFile
  existing = existing_file wire interval (load_file json env.readable path p.disk)

  abbrev pub merged : List Candle → CandleFile
  merged candles = merged_file wire interval env.merged_at existing candles

  -- The pair got `candles` from the server: its file and its entry have the merged candles, the
  -- database was sent them, and nothing else was.
  pub record IsMerged (candles : List Candle) (q : Pairing B) : Type 0 where
    pub start : ℤ
    pub started : compute_start env.now existing interval limit ≡ ok start
    pub fetched : fetch_kline env.server wire interval start (pos 0) limit ≡ ok candles
    pub store : q.store ≡ load (load p.store wire interval existing) wire interval (merged candles)
    pub file : q.disk path ≡ json.encode (stamped env.save.now (merged candles))
    pub encoded : json.encode (stamped env.save.now (merged candles)) ≢ none
    pub effects : q.effects ≡ p.effects ++ upsert_merged has_db wire interval (merged candles)

  -- The pair failed: it has what its file had, and the file and the database are as they were.
  pub record IsKept (q : Pairing B) : Type 0 where
    pub store : q.store ≡ load p.store wire interval existing
    pub file : q.disk path ≡ p.disk path
    pub effects : q.effects ≡ p.effects

  abbrev pub IsDone : Pairing B × Result PairError ℕ → Type 0
  IsDone (q, r) =
      ((candles : List Candle) × (r ≡ ok (length candles)) × IsMerged candles q)
      ⊎ ((e : PairError) × (r ≡ err e) × IsKept q)

  abbrev loaded : Pairing B
  loaded = record p { store = load p.store wire interval existing }

  -- Either the pair is merged, and the result is the number of candles that were fetched, or it is
  -- kept as its file had it, and the result is an error.
  pub bootstrap_pair_result :
      IsDone (bootstrap_pair json env limit has_db base file_symbol wire interval p)
  unfolding bootstrap_pair
  bootstrap_pair_result = elim (Result-cases (compute_start env.now existing interval limit)) [
    | inl (e, bad) ↦ rw bad (inr (e, refl, record { store = refl; file = refl; effects = refl }))
    | inr (start, good) ↦
        rw good (elim (Result-cases (fetch_kline env.server wire interval start (pos 0) limit)) [
          | inl (e, bad) ↦
              rw bad (inr (_, refl, record { store = refl; file = refl; effects = refl }))
          | inr (candles, got) ↦ rw got (
              of_save start good candles got (save_file json env.save path (merged candles) p.disk)
                (save_file_result json env.save path (merged candles) p.disk)
                (save_file_encoded json env.save path (merged candles) p.disk))
        ])
  ]
    where
      of_save :
          (start : ℤ)
          → compute_start env.now existing interval limit ≡ ok start
          → (candles : List Candle)
          → fetch_kline env.server wire interval start (pos 0) limit ≡ ok candles
          → (r : Disk B × Option SaveError)
          → ((r.1 ≡ none) × (r.0 path ≡ json.encode (stamped env.save.now (merged candles))))
            ⊎ ((r.1 ≢ none) × (r.0 path ≡ p.disk path))
          → (r.1 ≡ none → json.encode (stamped env.save.now (merged candles)) ≢ none)
          → IsDone (saved has_db wire interval (merged candles) (length candles) loaded r)
      of_save start good candles got (disk, none) (inl (done, written)) encoded = inl (
        candles,
        refl,
        record {
          start = start;
          started = good;
          fetched = got;
          store = refl;
          file = written;
          encoded = encoded refl;
          effects = refl;
        },
      )
      of_save start good candles got (disk, none) (inr (failed, same)) encoded =
          absurd (failed refl)
      of_save start good candles got (disk, some e) (inl (done, written)) encoded = cc
      of_save start good candles got (disk, some e) (inr (failed, same)) encoded =
          inr (_, refl, record { store = refl; file = same; effects = refl })

  -- If the file's candles were in order, the store stays valid, however the pair ends.
  pub bootstrap_pair-IsValid :
      IsValid p.store
      → IsSorted (elems existing.candles)
      → IsValid (bootstrap_pair json env limit has_db base file_symbol wire interval p).0.store
  unfolding merged_file
  bootstrap_pair-IsValid h sorted =
      let first = load-IsValid p.store wire interval existing h sorted in
      elim bootstrap_pair_result [
        | inr (e, failed, kept) ↦ subst IsValid (sym kept.store) first
        | inl (candles, done, q) ↦ subst IsValid (sym q.store) (
            load-IsValid (load p.store wire interval existing) wire interval (merged candles) first
              (upsert_all-IsSorted (elems existing.candles) candles sorted))
      ]

  -- If the pair succeeds, the store has, for each time, the last candle of it that the server gave,
  -- or what the file had.
  pub find-bootstrap_pair :
      (n : ℕ)
      → IsSorted (elems existing.candles)
      → (bootstrap_pair json env limit has_db base file_symbol wire interval p).1 ≡ ok n
      → (candles : List Candle) × (length candles ≡ n)
        × ((start : ℤ) × (fetch_kline env.server wire interval start (pos 0) limit ≡ ok candles))
        × ((t : ℤ)
            → find
                (bootstrap_pair json env limit has_db base file_symbol wire interval p).0.store
                wire
                interval
                t
              ≡ last_at t (candle_at t (elems existing.candles)) candles)
  unfolding merged_file
  find-bootstrap_pair n sorted h = elim bootstrap_pair_result [
    | inr (e, failed, kept) ↦ absurd (refused failed h)
    | inl (candles, done, q) ↦ (
      candles,
      ok_inj done h,
      (q.start, q.fetched),
      λ t.
          ap (λ s. find s wire interval t) q.store
          ∙ (find-load (load p.store wire interval existing) wire interval (merged candles) t).1
          ∙ candle_at-upsert_all t (elems existing.candles) candles sorted,
    )
  ]
    where
      refused : {r : Result PairError ℕ} {e : PairError} → r ≡ err e → r ≡ ok n → ⊥
      refused a b = cc

      ok_inj : {a b : ℕ} {r : Result PairError ℕ} → r ≡ ok a → r ≡ ok b → a ≡ b
      ok_inj d e = cc
