-- ===== src/Kline/Files/Ending/Handled.antt =====
-- What a flush that begins has still to do for a dirty entry, and that it does it.
use fidorix.Base.{
  Option, ◌≡◌, ◌≢◌, refl, sym, ap, ◌∙◌, subst, inl, inr, ◌⊎◌, Bool, Bool-cases, ◌||◌, true, false,
  none, some, List, [], ◌∷◌, arith, if◌then◌else◌, Text, text_eq, text_eq_iff, err, Result-cases,
  Each, Assoc, Codec, IsFaithful, Disk, lookup,
}
use fidorix.Kline.Candle.{Candle}
use fidorix.Kline.Store.{CandleFile, Entry, clone_entry, dirty_entries, get_dirty, key_for}
use fidorix.Kline.Store.Invariant.{IsValid, IsValidEntry, upsert-IsValid}
use fidorix.Kline.Files.{SaveEnv, SaveError, PathError, save_file, file_path_for_entry}
use fidorix.Kline.Files.Flush.{is_saved, save_file_error, eq-none_of_is_none, bare}
use fidorix.Kline.Files.Loop.{
  Flow, Event, stored, tick, proceeds, saved_next, move_on, begin, advance, advance_all,
}
use fidorix.Kline.Files.Ending.{tick-IsValid, proceeds-IsValid, upsert_origin}
use fidorix.Kline.Files.Ending.Moves.{clear_dirty_origin}

-- Nothing of a flush is left to do.
pub record IsIdle {B : Type 0} (w : Flow B) : Type 0 where
  pub pending : w.pending ≡ []
  pub clearing : w.clearing ≡ none

abbrev pub has_key : Text → List Entry → Bool
has_key k [] = false
has_key k (x ∷ es) = text_eq x.key k || has_key k es

has_key-if :
    (k : Text) (b : Bool) (x : Entry) (xs : List Entry)
    → (b ≡ true) × (text_eq x.key k ≡ true) ⊎ (has_key k xs ≡ true)
    → has_key k (if b then x ∷ xs else xs) ≡ true
has_key-if k true x xs h = ground (arith, h)
has_key-if k false x xs (inl (h, q)) = cc
has_key-if k false x xs (inr h) = h

has_key-dirty_entries :
    (k : Text) (m : Assoc Entry) (e : Entry)
    → Each IsValidEntry m
    → lookup k m ≡ some e
    → e.dirty ≡ true
    → has_key k (dirty_entries m) ≡ true
unfolding dirty_entries lookup
has_key-dirty_entries k [] e v found d = cc
has_key-dirty_entries k ((j, w) ∷ m) e v found d =
    has_key-if k w.dirty (clone_entry w) (dirty_entries m) (elim (Bool-cases (text_eq j k)) [
      | inl y ↦
          let same : w ≡ e = equal y in
          let at : (clone_entry w).key ≡ j = unfold clone_entry in v.0.keyed in
          inl (ap (λ (x : Entry). x.dirty) same ∙ d, ap (λ t. text_eq t k) at ∙ y)
      | inr n ↦ inr (has_key-dirty_entries k m e v.1 (unequal n) d)
    ])
  where
    unequal : text_eq j k ≡ false → lookup k m ≡ some e
    unequal n = ground arith

    equal : text_eq j k ≡ true → w ≡ e
    equal y = ground arith

module _ {B : Type 0} (json : Codec CandleFile B) (base : Text) (k : Text) where
  -- No candle of the pair comes, and its copy is saved.
  abbrev pub IsLast : Event B → Flow B → Type 0
  IsLast (stored symbol interval c) w = key_for symbol interval ≢ k
  IsLast tick w = Unit
  IsLast (proceeds env) w =
      (x : Entry) (es : List Entry)
      → w.clearing ≡ none
      → w.pending ≡ x ∷ es
      → x.key ≡ k
      → is_saved json base env x ≡ true

  abbrev pub AreLast : List (Event B) → Flow B → Type 0
  AreLast [] w = Unit
  AreLast (e ∷ events) w = IsLast e w × AreLast events (advance json base e w)

  -- The flush has cleared the entry of the pair, or will.
  abbrev pub Handled : Flow B → Type 0
  Handled w =
      (e : Entry)
      → lookup k w.store.entries ≡ some e
      → (e.dirty ≡ false) ⊎ ((w.clearing ≡ some k) ⊎ (has_key k w.pending ≡ true))

  pub idle_tick-Handled :
      (w : Flow B) → IsIdle w → IsValid w.store → Handled (advance json base tick w)
  unfolding advance get_dirty
  idle_tick-Handled w idle v =
      rw (idle.clearing, idle.pending)
        (λ e found. elim (Bool-cases e.dirty) [
          | inl d ↦ inr (inr (has_key-dirty_entries k w.store.entries e v.each found d))
          | inr d ↦ inl d
        ])

  tick-Handled : (w : Flow B) → IsValid w.store → Handled w → Handled (advance json base tick w)
  unfolding advance get_dirty
  tick-Handled w v h = of_parts w.clearing w.pending
    where
      of_parts : (cl : Option Text) (es : List Entry) → Handled (begin json base w cl es)
      of_parts (some j) es = h
      of_parts none (x ∷ es) = h
      of_parts none [] = λ e found. elim (Bool-cases e.dirty) [
        | inl d ↦ inr (inr (has_key-dirty_entries k w.store.entries e v.each found d))
        | inr d ↦ inl d
      ]

  stored-Handled :
      (symbol interval : Text) (c : Candle) (w : Flow B)
      → key_for symbol interval ≢ k
      → Handled w
      → Handled (advance json base (stored symbol interval c) w)
  unfolding advance
  stored-Handled symbol interval c w ne h e found =
      elim (upsert_origin w.store symbol interval c k e found) [
        | inl old ↦ h e old
        | inr (same, d) ↦ absurd (ne same)
      ]

  has_key_tail :
      (x : Entry) (es : List Entry) → x.key ≢ k → has_key k (x ∷ es) ≡ true → has_key k es ≡ true
  has_key_tail x es ne h = elim (Bool-cases (text_eq x.key k)) [
    | inl y ↦ absurd (ne ((text_eq_iff x.key k).0 y))
    | inr n ↦ ground (arith, n, h)
  ]

  -- Behind the save of a copy that is not of the pair.
  others_left :
      (w : Flow B) (x : Entry) (es : List Entry)
      → w.clearing ≡ none
      → w.pending ≡ x ∷ es
      → Handled w
      → x.key ≢ k
      → (e : Entry) → lookup k w.store.entries ≡ some e
      → (e.dirty ≡ false) ⊎ (has_key k es ≡ true)
  others_left w x es idle at h ne e found = elim (h e found) [
    | inl d ↦ inl d
    | inr (inl c) ↦ absurd (none_some (sym idle ∙ c))
    | inr (inr q) ↦ inr (has_key_tail x es ne (subst (λ l. has_key k l ≡ true) at q))
  ]
    where
      none_some : none ≡ some k → ⊥
      none_some q = cc

  proceeds-Handled :
      (env : SaveEnv B) (w : Flow B)
      → IsLast (proceeds env) w
      → Handled w
      → Handled (advance json base (proceeds env) w)
  unfolding advance
  proceeds-Handled env w last h = of_parts w.clearing w.pending refl refl
    where
      refused : {b : Bool} → b ≡ false → b ≡ true → ⊥
      refused p q = cc

      behind :
          (x : Entry) (es : List Entry) (p : Text) (r : Disk B × Option SaveError)
          → w.clearing ≡ none
          → w.pending ≡ x ∷ es
          → (x.key ≡ k → r.1 ≡ none)
          → Handled (saved_next json base x es w r)
      behind x es p (d, none) q at done e found = elim (Bool-cases (text_eq x.key k)) [
        | inl y ↦ inr (inl (ap some ((text_eq_iff x.key k).0 y)))
        | inr n ↦
            elim (others_left w x es q at h (λ s. refused n ((text_eq_iff x.key k).1 s)) e found) [
              | inl c ↦ inl c
              | inr l ↦ inr (inr l)
            ]
      ]
      behind x es p (d, some error) q at done e found =
          elim (others_left w x es q at h (λ s. failed (done s)) e found) [
            | inl c ↦ inl c
            | inr l ↦ inr (inr l)
          ]
        where
          failed : some error ≡ none → ⊥
          failed q = cc

      of_parts :
          (cl : Option Text) (es : List Entry)
          → w.clearing ≡ cl
          → w.pending ≡ es
          → Handled (move_on json base env w cl es)
      of_parts (some j) es q at = λ e found.
          let (o, there, same) = clear_dirty_origin k w.store j e found in
          let mark = sym (ap (λ (x : Entry). x.dirty) same) in
          elim (h o there) [
            | inl d ↦ inl (mark ∙ ground (arith, d))
            | inr (inl c) ↦ inl (mark ∙ ground (arith, (text_eq_iff j k).1 (unsome (sym q ∙ c))))
            | inr (inr l) ↦ inr (inr l)
          ]
        where
          unsome : {a b : Text} → some a ≡ some b → a ≡ b
          unsome x = ground arith
      of_parts none [] q at = h
      of_parts none (x ∷ es) q at = elim (Result-cases (file_path_for_entry base x)) [
        | inl (bad, no_path) ↦ rw no_path (λ e found.
            elim (others_left w x es q at h (λ s. refused (unsaved bad no_path) (last x es q at s))
              e found) [ inl c ↦ inl c | inr l ↦ inr (inr l) ])
        | inr (p, path) ↦ rw path (
            behind x es p (save_file json env p x.file w.disk) q at (λ s.
              save_file_error json base env p x.file w.disk bare
              ∙ eq-none_of_is_none _ (rw path at (last x es q at s))))
      ]
        where
          unsaved :
              (bad : PathError)
              → file_path_for_entry base x ≡ err bad
              → is_saved json base env x ≡ false
          unsaved bad no_path = rw no_path

  pub advance_all-Handled :
      (faithful : IsFaithful json) (events : List (Event B)) (w : Flow B)
      → AreLast events w
      → IsValid w.store
      → Handled w
      → Handled (advance_all json base events w)
  unfolding advance_all
  advance_all-Handled faithful [] w last v h = h
  advance_all-Handled faithful (stored symbol interval c ∷ events) w last v h =
      advance_all-Handled faithful events _ last.1
        (unfold advance in upsert-IsValid w.store symbol interval c v)
        (stored-Handled symbol interval c w last.0 h)
  advance_all-Handled faithful (tick ∷ events) w last v h =
      advance_all-Handled faithful events _ last.1 (tick-IsValid json base w v) (tick-Handled w v h)
  advance_all-Handled faithful (proceeds env ∷ events) w last v h =
      advance_all-Handled faithful events _ last.1 (proceeds-IsValid json base env w v)
        (proceeds-Handled env w last.0 h)
