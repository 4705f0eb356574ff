-- ===== src/Kline/Files/Ending/Moves.antt =====
-- What the moves of a flush leave of the files and the copies of a pair, and so all events.
use fidorix.Base.{
  Option, ◌≡◌, ◌≢◌, refl, sym, ap, ◌∙◌, subst, inl, inr, ◌⊎◌, Bool, Bool-cases, ◌&&◌, not, false,
  none, some, List, [], ◌∷◌, arith, All, All-imp, Text, text_eq, text_eq_iff, Result, ok,
  Result-cases, Option-cases, Codec, IsFaithful, Disk, lookup,
}
use fidorix.Kline.Store.{CandleFile, Entry, Store, clear_dirty}
use fidorix.Kline.Store.Invariant.{clear_dirty-IsValid}
use fidorix.Kline.Files.{SaveEnv, SaveError, PathError, save_file, file_path_for_entry}
use fidorix.Kline.Files.Saving.{save_file_result, save_file_frame}
use fidorix.Kline.Files.Flush.{settled, lookup-clear_dirty}
use fidorix.Kline.Files.Written.{Avoids}
use fidorix.Kline.Files.Loop.{
  Flow, Event, stored, tick, proceeds, saved_next, move_on, advance, advance_all,
}
use fidorix.Kline.Files.Durable.{
  IsPersisted, IsCopy, IsPersisted-saved, IsPersisted-marked, IsPersisted-frame,
}
use fidorix.Kline.Files.Ending.{AreCalm, IsClear, AreClear, Holds}
use fidorix.Kline.Files.Ending.Ticks.{stored-Holds, begin-Holds}

pub clear_dirty_origin :
    (k : Text) (s : Store) (j : Text) (e : Entry)
    → lookup k (clear_dirty s j).entries ≡ some e
    → (w : Entry) × (lookup k s.entries ≡ some w) × (settled (text_eq j k) w ≡ e)
clear_dirty_origin k s j e found = elim (Option-cases (lookup k s.entries)) [
  | inl q ↦ absurd (missing (sym (lookup-clear_dirty s j k ∙ rw q) ∙ found))
  | inr (w, q) ↦ (w, q, unsome (sym (lookup-clear_dirty s j k ∙ rw q) ∙ found))
]
  where
    missing : none ≡ some e → ⊥
    missing x = cc

    unsome : {a b : Entry} → some a ≡ some b → a ≡ b
    unsome x = ground arith

module _ {B : Type 0} (json : Codec CandleFile B) (base : Text) (k : Text) where
  settled-IsCopy :
      (x e : Entry) (b : Bool) → IsCopy json base x e → IsCopy json base x (settled b e)
  unfolding file_path_for_entry
  settled-IsCopy x e b h = h

  cleared-Holds :
      (w : Flow B) (j : Text)
      → w.clearing ≡ some j
      → Holds json base k w
      → Holds json base k (record w { store = clear_dirty w.store j; clearing = none })
  cleared-Holds w j at h = record {
    valid = clear_dirty-IsValid w.store j h.valid;
    durable = λ e found b.
        let (o, q, same) = clear_dirty_origin k w.store j e found in
        subst (IsPersisted json base w.disk) same (
          IsPersisted-marked json base w.disk o _
            (h.durable o q (was o (still e _ b (sym (ap (λ (x : Entry). x.dirty) same))))));
    copied = λ e found.
        let (o, q, same) = clear_dirty_origin k w.store j e found in
        subst (λ y. All (λ x. x.key ≡ k → IsCopy json base x y) w.pending) same
          (All-imp (λ x. x.key ≡ k → IsCopy json base x o)
            (λ x. x.key ≡ k → IsCopy json base x (settled (text_eq j k) o)) w.pending
            (λ x c eq. settled-IsCopy x o (text_eq j k) (c eq)) (h.copied o q));
  }
    where
      still : (e : Entry) (d : Bool) → (e.dirty ≡ false) ⊎ (none ≡ some k) → e.dirty ≡ d → d ≡ false
      still e d (inl c) q = sym q ∙ c
      still e d (inr c) q = cc

      was :
          (o : Entry)
          → (o.dirty && not (text_eq j k)) ≡ false
          → (o.dirty ≡ false) ⊎ (w.clearing ≡ some k)
      was o c = elim (Bool-cases (text_eq j k)) [
        | inl y ↦ inr (at ∙ ap some ((text_eq_iff j k).0 y))
        | inr n ↦ inl (ground (arith, n, c))
      ]

  saved_next-Holds :
      (w : Flow B) (x : Entry) (es : List Entry) (r : Disk B × Option SaveError)
      → Holds json base k w
      → w.clearing ≡ none
      → w.pending ≡ x ∷ es
      → ((e : Entry)
          → lookup k w.store.entries ≡ some e
          → x.key ≡ k
          → r.1 ≡ none
          → IsPersisted json base r.0 e)
      → ((e : Entry)
          → lookup k w.store.entries ≡ some e
          → IsPersisted json base w.disk e
          → (x.key ≢ k) ⊎ (r.1 ≢ none)
          → IsPersisted json base r.0 e)
      → Holds json base k (saved_next json base x es w r)
  saved_next-Holds w x es (d, none) h idle at hit quiet = record {
    valid = h.valid;
    durable = λ e found b. elim (Bool-cases (text_eq x.key k)) [
      | inl y ↦ hit e found ((text_eq_iff x.key k).0 y) refl
      | inr n ↦
          let ne : x.key ≢ k = λ q. ground (arith, (text_eq_iff x.key k).1 q, n) in
          quiet e found (h.durable e found (inl (clean_of e b ne))) (inl ne)
    ];
    copied =
        λ e found. (subst (All (λ y. y.key ≡ k → IsCopy json base y e)) at (h.copied e found)).1;
  }
    where
      clean_of :
          (e : Entry) → (e.dirty ≡ false) ⊎ (some x.key ≡ some k) → x.key ≢ k → e.dirty ≡ false
      clean_of e (inl c) ne = c
      clean_of e (inr q) ne = absurd (ne (ground (arith, q)))
  saved_next-Holds w x es (d, some error) h idle at hit quiet = record {
    valid = h.valid;
    durable = λ e found b. quiet e found (h.durable e found b) (inr (λ q. cc));
    copied =
        λ e found. (subst (All (λ y. y.key ≡ k → IsCopy json base y e)) at (h.copied e found)).1;
  }

  proceeds-Holds :
      (faithful : IsFaithful json) (env : SaveEnv B) (w : Flow B)
      → IsClear json base k w
      → Holds json base k w
      → Holds json base k (advance json base (proceeds env) w)
  unfolding advance
  proceeds-Holds faithful env w clear h = of_parts w.clearing w.pending refl refl
    where
      quiet :
          (x : Entry) (es : List Entry) (p : Text)
          → w.pending ≡ x ∷ es
          → file_path_for_entry base x ≡ ok p
          → (e : Entry) → lookup k w.store.entries ≡ some e
          → IsPersisted json base w.disk e
          → (x.key ≢ k) ⊎ ((save_file json env p x.file w.disk).1 ≢ none)
          → IsPersisted json base (save_file json env p x.file w.disk).0 e
      quiet x es p at path e found q b = elim (Bool-cases (text_eq x.key k)) [
        | inr n ↦
            let avoids =
              (subst (All (λ x. x.key ≢ k → Avoids json base q.path x)) at
                  (clear e q.path found q.located)).0
                (λ s. ground (arith, (text_eq_iff x.key k).1 s, n)) p path in
            IsPersisted-frame json base w.disk _ e q
              (save_file_frame json env p x.file w.disk q.path avoids.0 avoids.1)
        | inl y ↦
            let eq = (text_eq_iff x.key k).0 y in
            let copy =
              (subst (All (λ x. x.key ≡ k → IsCopy json base x e)) at (h.copied e found)).0 eq in
            let here = ok_inj (sym copy.0 ∙ path) q.located in
            IsPersisted-frame json base w.disk _ e q (
              subst (λ t. (save_file json env p x.file w.disk).0 t ≡ w.disk t) here
                (failed_same x p b eq))
      ]
        where
          ok_inj : {r : Result PathError Text} {a b : Text} → r ≡ ok a → r ≡ ok b → a ≡ b
          ok_inj q t = cc

          failed_same :
              (x : Entry) (p : Text)
              → (x.key ≢ k) ⊎ ((save_file json env p x.file w.disk).1 ≢ none)
              → x.key ≡ k
              → (save_file json env p x.file w.disk).0 p ≡ w.disk p
          failed_same x p (inl ne) eq = absurd (ne eq)
          failed_same x p (inr failed) eq = elim (save_file_result json env p x.file w.disk) [
            | inl (done, written) ↦ absurd (failed done)
            | inr (error, same) ↦ same
          ]

      of_parts :
          (cl : Option Text) (es : List Entry)
          → w.clearing ≡ cl
          → w.pending ≡ es
          → Holds json base k (move_on json base env w cl es)
      of_parts (some j) es q at = cleared-Holds w j q h
      of_parts none [] q at = h
      of_parts none (x ∷ es) q at = elim (Result-cases (file_path_for_entry base x)) [
        | inl (bad, no_path) ↦ rw no_path (record {
          valid = h.valid;
          durable = h.durable;
          copied = λ e found.
              (subst (All (λ y. y.key ≡ k → IsCopy json base y e)) at (h.copied e found)).1;
        })
        | inr (p, path) ↦ rw path (
            saved_next-Holds w x es (save_file json env p x.file w.disk) h q at
              (λ e found eq saved.
                IsPersisted-saved json base faithful env w.disk x e p
                  ((subst (All (λ y. y.key ≡ k → IsCopy json base y e)) at (h.copied e found)).0 eq)
                  path saved)
              (quiet x es p at path))
      ]

  pub advance_all-Holds :
      (faithful : IsFaithful json) (events : List (Event B)) (w : Flow B)
      → AreCalm json base k events w
      → AreClear json base k events w
      → Holds json base k w
      → Holds json base k (advance_all json base events w)
  unfolding advance_all
  advance_all-Holds faithful [] w calm clear h = h
  advance_all-Holds faithful (stored symbol interval c ∷ events) w calm clear h =
      advance_all-Holds faithful events _ calm.1 clear.1
        (stored-Holds json base k symbol interval c w calm.0 h)
  advance_all-Holds faithful (tick ∷ events) w calm clear h =
      advance_all-Holds faithful events _ calm.1 clear.1 (begin-Holds json base k w h)
  advance_all-Holds faithful (proceeds env ∷ events) w calm clear h =
      advance_all-Holds faithful events _ calm.1 clear.1 (proceeds-Holds faithful env w clear.0 h)
