-- ===== src/Kline/Rest/Schedule/Alone.antt =====
-- A goroutine with nothing beside it does what bootstrapPair does, in five moves.
use fidorix.Base.{
  suc, ℕ, pos, ◌≡◌, refl, inl, inr, Bool, Option, none, some, Result-cases, length, ℤ, Codec, Disk,
  Text, zero, Result,
}
use fidorix.Kline.Store.{CandleFile, load}
use fidorix.Kline.Files.{SaveError, load_file, save_file}
use fidorix.Kline.Rest.Client.{fetch_kline}
use fidorix.Kline.Rest.Bootstrap.{
  compute_start, existing_file, merged_file, Pairing, PairError, bootstrap_pair, saved,
}
use fidorix.Kline.Rest.Schedule.{
  Goroutine, Place, entered, returned, path, behind_save, move, alone,
}

module _ {B : Type 0} (json : Codec CandleFile B) (limit : ℤ) (has_db : Bool) (base : Text)
    (g : Goroutine B) where
  abbrev ended : Pairing B × Result PairError ℕ → Pairing B × Place
  ended r = (r.0, returned r.1)

  alone-returned :
      (n : ℕ) (r : Result PairError ℕ) (p : Pairing B)
      → alone json limit has_db base g n (returned r) p ≡ (p, returned r)
  unfolding alone move
  alone-returned zero r p = refl
  alone-returned (suc n) r p = alone-returned n r p

  -- With five moves or more the goroutine has returned what bootstrapPair returns, and left behind
  -- what that leaves.
  pub alone-bootstrap_pair :
      (n : ℕ) (p : Pairing B)
      → alone json limit has_db base g (suc (suc (suc (suc (suc n))))) entered p
        ≡ ended (
            bootstrap_pair json g.env limit has_db base g.job.file_symbol g.job.wire g.job.interval
              p)
  unfolding alone move bootstrap_pair
  alone-bootstrap_pair n p =
      elim (Result-cases (compute_start g.env.now existing g.job.interval limit)) [
        | inl (e, bad) ↦ rw bad (alone-returned n _ _)
        | inr (start, good) ↦
            rw good
              (elim (Result-cases
                (fetch_kline g.env.server g.job.wire g.job.interval start (pos 0) limit)) [
                  | inl (e, bad) ↦ rw bad (alone-returned n _ _)
                  | inr (candles, got) ↦ rw got (
                      of_save
                        (merged_file g.job.wire g.job.interval g.env.merged_at existing candles)
                        (length candles)
                        (save_file json g.env.save (path base g)
                          (merged_file g.job.wire g.job.interval g.env.merged_at existing candles)
                          p.disk))
                ])
      ]
    where
      existing : CandleFile
      existing =
          existing_file g.job.wire g.job.interval
            (load_file json g.env.readable (path base g) p.disk)

      loaded : Pairing B
      loaded = record p { store = load p.store g.job.wire g.job.interval existing }

      of_save :
          (merged : CandleFile) (fetched : ℕ) (r : Disk B × Option SaveError)
          → (let s =
                move json limit has_db base g
                  (behind_save merged fetched r.1)
                  (record loaded { disk = r.0 }) in
              alone json limit has_db base g n s.1 s.0)
            ≡ ended (saved has_db g.job.wire g.job.interval merged fetched loaded r)
      of_save merged fetched (disk, none) = alone-returned n _ _
      of_save merged fetched (disk, some e) = alone-returned n _ _
