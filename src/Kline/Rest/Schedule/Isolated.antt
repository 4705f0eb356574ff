-- ===== src/Kline/Rest/Schedule/Isolated.antt =====
-- Goroutines of different pairs do not disturb one another.
use fidorix.Base.{
  All-get_elem?, ℕ, zero, suc, ◌≡◌, ◌≢◌, ◌==◌, ==_iff, refl, sym, ap, ◌∙◌, subst, inl, inr, Bool,
  Bool-cases, some, List, [], ◌∷◌, if◌then◌else◌, All, get_elem?, ℤ, Text, Codec, tmp_path, lookup,
  lookup-insert_self, lookup-insert_ne, Option-cases, arith,
}
use fidorix.Kline.Store.{CandleFile, Store, load, key_for}
use fidorix.Kline.Files.{load_file}
use fidorix.Kline.Files.Saving.{save_file_frame, save_file_local}
use fidorix.Kline.Rest.Bootstrap.{Pairing}
use fidorix.Kline.Rest.Schedule.{
  Goroutine, Place, entered, read, asking, merging, written, returned, key, path, behind_save, move,
  alone, Sharing, update, advance, run_schedule,
}

lookup-load_self :
    (s t : Store) (wire interval : Text) (cf : CandleFile)
    → lookup (key_for wire interval) (load s wire interval cf).entries
      ≡ lookup (key_for wire interval) (load t wire interval cf).entries
unfolding load
lookup-load_self s t wire interval cf =
    lookup-insert_self (key_for wire interval) _ s.entries
    ∙ sym (lookup-insert_self (key_for wire interval) _ t.entries)

lookup-load_ne :
    (s : Store) (wire interval k : Text) (cf : CandleFile)
    → key_for wire interval ≢ k
    → lookup k (load s wire interval cf).entries ≡ lookup k s.entries
unfolding load
lookup-load_ne s wire interval k cf ne = lookup-insert_ne (key_for wire interval) k _ s.entries ne

-- How often a schedule has a goroutine.
abbrev pub turns_of : ℕ → List ℕ → ℕ
turns_of k [] = 0
turns_of k (i ∷ turns) = let rest = turns_of k turns in if i == k then suc rest else rest

module _ {B : Type 0} (base : Text) where
  -- Two states have the same entry and the same file for the pair of a goroutine.
  abbrev pub Agree : Goroutine B → Pairing B → Pairing B → Type 0
  Agree g p q =
      (lookup (key g) p.store.entries ≡ lookup (key g) q.store.entries)
      × (p.disk (path base g) ≡ q.disk (path base g))

  -- Goroutine `k` stands as it would if it had moved alone.
  abbrev pub StandsAs : ℕ → Goroutine B → Sharing B → Pairing B × Place → Type 0
  StandsAs k g s r = Agree g s.shared r.0 × (s.places k ≡ r.1)

  -- Neither goroutine writes the entry or the file of the other.
  abbrev pub IsApart : Goroutine B → Goroutine B → Type 0
  IsApart g h =
      (key g ≢ key h)
      × (path base h ≢ path base g)
      × (path base h ≢ tmp_path (path base g))
      × (path base g ≢ tmp_path (path base h))

  abbrev pub AreApart : List (Goroutine B) → Type 0
  AreApart [] = Unit
  AreApart (g ∷ gs) = All (IsApart g) gs × AreApart gs

  IsApart-symm : (g h : Goroutine B) → IsApart g h → IsApart h g
  IsApart-symm g h a = (λ e. a.0 (sym e), λ e. a.1 (sym e), a.3, a.2)

  pub IsApart-get_elem? :
      (gs : List (Goroutine B)) (i k : ℕ) (g h : Goroutine B)
      → AreApart gs
      → get_elem? gs i ≡ some g
      → get_elem? gs k ≡ some h
      → i ≢ k
      → IsApart g h
  IsApart-get_elem? [] i k g h a at at' ne = cc
  IsApart-get_elem? (x ∷ gs) zero zero g h a at at' ne = absurd (ne refl)
  IsApart-get_elem? (x ∷ gs) zero (suc k) g h a at at' ne =
      subst (λ y. IsApart y h) (unsome at) (All-get_elem? (IsApart x) gs k h a.0 at')
    where
      unsome : some x ≡ some g → x ≡ g
      unsome e = cc
  IsApart-get_elem? (x ∷ gs) (suc i) zero g h a at at' ne =
      subst (λ y. IsApart g y) (unsome at')
        (IsApart-symm x g (All-get_elem? (IsApart x) gs i g a.0 at))
    where
      unsome : some x ≡ some h → x ≡ h
      unsome e = cc
  IsApart-get_elem? (x ∷ gs) (suc i) (suc k) g h a at at' ne =
      IsApart-get_elem? gs i k g h a.1 at at' (λ e. ne (ap suc e))

  module _ (json : Codec CandleFile B) (limit : ℤ) (has_db : Bool) where
    -- A goroutine moves by what is there for its own pair.
    move_local :
        (g : Goroutine B) (place : Place) (p q : Pairing B)
        → Agree g p q
        → Agree g
            (move json limit has_db base g place p).0
            (move json limit has_db base g place q).0
          × ((move json limit has_db base g place p).1 ≡ (move json limit has_db base g place q).1)
    unfolding move load_file
    move_local g entered p q (entry, file) = ((entry, file), rw file)
    move_local g (read existing) p q (entry, file) =
        ((lookup-load_self p.store q.store g.job.wire g.job.interval existing, file), refl)
    move_local g (asking existing) p q (entry, file) = ((entry, file), refl)
    move_local g (merging merged fetched) p q (entry, file) =
        let local = save_file_local json g.env.save (path base g) merged p.disk q.disk file in
        ((entry, local.1), ap (behind_save merged fetched) local.0)
    move_local g (written merged fetched) p q (entry, file) =
        ((lookup-load_self p.store q.store g.job.wire g.job.interval merged, file), refl)
    move_local g (returned r) p q (entry, file) = ((entry, file), refl)

    -- It changes nothing for another pair.
    move_frame :
        (g h : Goroutine B) (place : Place) (p : Pairing B)
        → IsApart g h
        → Agree h (move json limit has_db base g place p).0 p
    unfolding move
    move_frame g h entered p a = (refl, refl)
    move_frame g h (read existing) p a =
        (lookup-load_ne p.store g.job.wire g.job.interval (key h) existing a.0, refl)
    move_frame g h (asking existing) p a = (refl, refl)
    move_frame g h (merging merged fetched) p a =
        (refl, save_file_frame json g.env.save (path base g) merged p.disk (path base h) a.1 a.2)
    move_frame g h (written merged fetched) p a =
        (lookup-load_ne p.store g.job.wire g.job.interval (key h) merged a.0, refl)
    move_frame g h (returned r) p a = (refl, refl)

    module _ (gs : List (Goroutine B)) (apart : AreApart gs) (k : ℕ) (g : Goroutine B)
        (at : get_elem? gs k ≡ some g) where
      own_turn :
          (s : Sharing B) (place : Place) (p : Pairing B)
          → StandsAs k g s (p, place)
          → StandsAs k g
              (advance json limit has_db base gs k s)
              (move json limit has_db base g place p)
      unfolding advance
      own_turn s place p (same, here) =
          let m = move_local g place s.shared p same in
          rw at (rw here (m.0, rw ((==_iff k k).1 refl) m.1))

      other_turn :
          (i : ℕ) (s : Sharing B) (r : Pairing B × Place)
          → i ≢ k
          → StandsAs k g s r
          → StandsAs k g (advance json limit has_db base gs i s) r
      unfolding advance
      other_turn i s r ne (same, here) = elim (Option-cases (get_elem? gs i)) [
        | inl e ↦ rw e (same, here)
        | inr (h, e) ↦
            let f =
              move_frame h g (s.places i) s.shared (IsApart-get_elem? gs i k h g apart e at ne) in
            rw e ((f.0 ∙ same.0, f.1 ∙ same.1), unmoved _ ∙ here)
      ]
        where
          unmoved : (m : Place) → update i m s.places k ≡ s.places k
          unmoved m = ground (arith, ==_iff i k)

      pub run_schedule-StandsAs :
          (turns : List ℕ) (s : Sharing B) (place : Place) (p : Pairing B)
          → StandsAs k g s (p, place)
          → StandsAs k g
              (run_schedule json limit has_db base gs turns s)
              (alone json limit has_db base g (turns_of k turns) place p)
      unfolding run_schedule alone
      run_schedule-StandsAs [] s place p h = h
      run_schedule-StandsAs (i ∷ turns) s place p h = elim (Bool-cases (i == k)) [
        | inl e ↦ rw e (
            rw ((==_iff i k).0 e) (
              let r = move json limit has_db base g place p in
              run_schedule-StandsAs turns (advance json limit has_db base gs k s) r.1 r.0
                (own_turn s place p h)))
        | inr n ↦ rw n (
            run_schedule-StandsAs turns (advance json limit has_db base gs i s) place p
              (other_turn i s (p, place) (λ e. cc ((==_iff i k).1 e)) h))
      ]
