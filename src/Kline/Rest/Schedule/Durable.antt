-- ===== src/Kline/Rest/Schedule/Durable.antt =====
-- Behind the bootstrap every entry of the store is in its file.
use fidorix.Base.{
  Distinct, insert-Distinct, Each-of_lookup, lookup-Each, Bool-cases, Option, text_eq, text_eq_iff,
  lookup-insert_ne, ℕ, ◌≤◌, ◌<◌, ◌≡◌, refl, sym, ◌∙◌, subst, inl, inr, Bool, false, none, some,
  List, [], ◌∷◌, All, All-imp, All-get_elem?, get_elem?, get_elem?-lt, length, ℤ, Text, Codec,
  IsFaithful, is_empty, lookup,
}
use fidorix.Kline.Candle.Place.{IsSorted}
use fidorix.Kline.Store.{CandleFile, Entry, Store, load}
use fidorix.Kline.Store.Invariant.{IsValid, IsValidEntry}
use fidorix.Kline.Files.{load_file}
use fidorix.Kline.Files.Durable.{IsPersisted}
use fidorix.Kline.Rest.Bootstrap.{Pairing, bootstrap_pair}
use fidorix.Kline.Rest.Bootstrap.Pair.{merged, bootstrap_pair-IsValid}
use fidorix.Kline.Rest.Schedule.{
  Goroutine, Place, entered, read, asking, merging, written, returned, key, path, move, Sharing,
  all_entered, advance, advance_of, run_schedule,
}
use fidorix.Kline.Rest.Schedule.Isolated.{turns_of}
use fidorix.Kline.Rest.Schedule.Outcome.{IsPlain, AllDiffer, run_schedule-bootstrap_pair}
use fidorix.Kline.Rest.Schedule.Saved.{
  IsUsual, InOrder, IsSaved, path_of_names, existing_usual, pair-IsSaved,
}

module _ {B : Type 0} (json : Codec CandleFile B) (base : Text) where
  -- The store has the pairs of the goroutines only.
  abbrev pub Covers : List (Goroutine B) → Store → Type 0
  Covers gs s =
      (k : Text) (e : Entry)
      → lookup k s.entries ≡ some e
      → (i : ℕ) × (g : Goroutine B) × (get_elem? gs i ≡ some g) × (key g ≡ k)

  module _ (limit : ℤ) (has_db : Bool) (gs : List (Goroutine B)) where
    pub load-Covers :
        (i : ℕ) (g : Goroutine B) (s : Store) (cf : CandleFile)
        → get_elem? gs i ≡ some g
        → Covers gs s
        → Covers gs (load s g.job.wire g.job.interval cf)
    unfolding load
    load-Covers i g s cf at h k e found = elim (Bool-cases (text_eq (key g) k)) [
      | inl y ↦ (i, g, at, (text_eq_iff (key g) k).0 y)
      | inr n ↦ h k e (
          sym (lookup-insert_ne (key g) k _ s.entries (λ x. cc ((text_eq_iff (key g) k).1 x)))
          ∙ found)
    ]

    move-Covers :
        (i : ℕ) (g : Goroutine B) (place : Place) (p : Pairing B)
        → get_elem? gs i ≡ some g
        → Covers gs p.store
        → Covers gs (move json limit has_db base g place p).0.store
    unfolding move
    move-Covers i g entered p at h = h
    move-Covers i g (read existing) p at h = load-Covers i g p.store existing at h
    move-Covers i g (asking existing) p at h = h
    move-Covers i g (merging merged fetched) p at h = h
    move-Covers i g (written merged fetched) p at h = load-Covers i g p.store merged at h
    move-Covers i g (returned r) p at h = h

    run_schedule-Covers :
        (turns : List ℕ) (s : Sharing B)
        → Covers gs s.shared.store
        → Covers gs (run_schedule json limit has_db base gs turns s).shared.store
    unfolding run_schedule advance
    run_schedule-Covers [] s h = h
    run_schedule-Covers (i ∷ turns) s h = run_schedule-Covers turns _ (turn (get_elem? gs i) refl)
      where
        turn :
            (o : Option (Goroutine B))
            → get_elem? gs i ≡ o
            → Covers gs (advance_of json limit has_db base gs i s o).shared.store
        turn none at = h
        turn (some g) at = move-Covers i g (s.places i) s.shared at h

    move-Distinct :
        (g : Goroutine B) (place : Place) (p : Pairing B)
        → Distinct p.store.entries
        → Distinct (move json limit has_db base g place p).0.store.entries
    unfolding move load
    move-Distinct g entered p h = h
    move-Distinct g (read existing) p h = insert-Distinct (key g) _ p.store.entries h
    move-Distinct g (asking existing) p h = h
    move-Distinct g (merging merged fetched) p h = h
    move-Distinct g (written merged fetched) p h = insert-Distinct (key g) _ p.store.entries h
    move-Distinct g (returned r) p h = h

    advance_of-Distinct :
        (i : ℕ) (s : Sharing B) (o : Option (Goroutine B))
        → Distinct s.shared.store.entries
        → Distinct (advance_of json limit has_db base gs i s o).shared.store.entries
    advance_of-Distinct i s none h = h
    advance_of-Distinct i s (some g) h = move-Distinct g (s.places i) s.shared h

    run_schedule-Distinct :
        (turns : List ℕ) (s : Sharing B)
        → Distinct s.shared.store.entries
        → Distinct (run_schedule json limit has_db base gs turns s).shared.store.entries
    unfolding run_schedule advance
    run_schedule-Distinct [] s h = h
    run_schedule-Distinct (i ∷ turns) s h =
        run_schedule-Distinct turns _ (advance_of-Distinct i s (get_elem? gs i) h)

    module _ (turns : List ℕ) (p : Pairing B) (faithful : IsFaithful json)
        (filled : is_empty base ≡ false) (usual : All (IsUsual json base p.disk) gs)
        (differ : AllDiffer gs) (enough : (k : ℕ) → k < length gs → 5 ≤ turns_of k turns)
        (covers : Covers gs p.store) where
      abbrev pub behind : Pairing B
      behind = (run_schedule json limit has_db base gs turns (all_entered p)).shared

      abbrev pub by_itself : Goroutine B → Pairing B
      by_itself g =
          (bootstrap_pair json g.env limit has_db base g.job.file_symbol g.job.wire g.job.interval
            p).0

      -- An entry that the bootstrap leaves is that of a goroutine, as bootstrapPair leaves it.
      pub record IsOfPair (k : Text) (e : Entry) : Type 0 where
        pub place : ℕ
        pub goroutine : Goroutine B
        pub at : get_elem? gs place ≡ some goroutine
        pub keyed : key goroutine ≡ k
        pub is_usual : IsUsual json base p.disk goroutine
        pub found : lookup k (by_itself goroutine).store.entries ≡ some e
        pub saved : IsSaved json base goroutine behind.disk e

      pub run_schedule-IsOfPair :
          (k : Text) (e : Entry) → lookup k behind.store.entries ≡ some e → IsOfPair k e
      unfolding load_file
      run_schedule-IsOfPair k e found =
          let (i, g, at, keyed) = run_schedule-Covers turns (all_entered p) covers k e found in
          let (done, (entry, file)) =
            run_schedule-bootstrap_pair json limit has_db base gs turns p i g filled
              (All-imp (IsUsual json base p.disk) IsPlain gs (λ h u. u.plain) usual) differ at
              (enough i (get_elem?-lt gs i g at)) in
          let there =
            sym entry ∙ subst (λ j. lookup j behind.store.entries ≡ some e) (sym keyed) found in
          let u = All-get_elem? (IsUsual json base p.disk) gs i g usual at in
          let saved = pair-IsSaved json base limit has_db g p e faithful u there in
          record {
            place = i;
            goroutine = g;
            at = at;
            keyed = keyed;
            is_usual = u;
            found = subst (λ j. lookup j (by_itself g).store.entries ≡ some e) keyed there;
            saved = record {
              symbol = saved.symbol;
              interval = saved.interval;
              same = rw file saved.same;
              clean = saved.clean;
            };
          }

      -- When every goroutine has had five turns, whatever the schedule, each entry of the store is
      -- clean, and LoadFile reads its candles at its path. This holds if what is encoded is decoded,
      -- the base is not empty, the pairs are plain and differ in file name or interval, every file
      -- can be read and names its pair or nothing, and the store had no other pairs than these.
      pub run_schedule-IsPersisted :
          (k : Text) (e : Entry)
          → lookup k behind.store.entries ≡ some e
          → (e.dirty ≡ false) × IsPersisted json base behind.disk e
      run_schedule-IsPersisted k e found =
          let x = run_schedule-IsOfPair k e found in
          (
            x.saved.clean,
            record {
              path = path base x.goroutine;
              located =
                  path_of_names json base x.goroutine e x.is_usual.plain x.is_usual.trimmed
                    x.saved.symbol x.saved.interval;
              same = x.saved.same;
            },
          )

      -- The store stays valid, if the files of the pairs are in order.
      pub run_schedule-IsValid :
          IsValid p.store → All (InOrder json base p.disk) gs → IsValid behind.store
      run_schedule-IsValid valid sorted =
          let distinct = run_schedule-Distinct turns (all_entered p) valid.distinct in
          record {
            distinct = distinct;
            each = Each-of_lookup IsValidEntry behind.store.entries distinct valid_entry;
          }
        where
          valid_entry :
              (k : Text) (e : Entry) → lookup k behind.store.entries ≡ some e → IsValidEntry k e
          valid_entry k e found =
              let x = run_schedule-IsOfPair k e found in
              let g = x.goroutine in
              let (names, times, kept) = existing_usual json base p.disk g x.is_usual in
              let in_order =
                subst IsSorted (sym kept)
                  (All-get_elem? (InOrder json base p.disk) gs x.place g sorted x.at) in
              lookup-Each IsValidEntry k e (by_itself g).store.entries
                (bootstrap_pair-IsValid json g.env limit has_db base g.job.file_symbol g.job.wire
                  g.job.interval p valid in_order).each
                x.found
