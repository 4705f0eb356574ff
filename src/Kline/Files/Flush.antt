-- ===== src/Kline/Files/Flush.antt =====
-- What FlushDirtyEntries does to the store and to the disk, when nothing runs beside it.
use mathlib.Core.Option
use fidorix.Base.{
  ◌≡◌, refl, ap, sym, subst, ◌∙◌, inl, inr, Bool, true, false, not, ◌&&◌, ◌||◌, Option, none, some,
  List, [], ◌∷◌, arith, Bool-cases, Option-cases, if◌then◌else◌, Text, text_eq, text_eq_iff,
  text_eq_refl, Result, ok, Result-cases, err, Codec, Disk, replace_file, Assoc, lookup,
  lookup-insert, Distinct, Each,
}
use fidorix.Kline.Store.{
  CandleFile, Entry, Store, clone_entry, dirty_entries, get_dirty, clean, clear_dirty,
}
use fidorix.Kline.Store.Invariant.{IsValid, IsValidEntry}
use fidorix.Kline.Files.{
  PathError, SaveEnv, stamped, save_file, file_path_for_entry, Flushing, flush_entry, flush_entries,
  flush_dirty_entries,
}

abbrev pub is_none : {A : Type 0} → Option A → Bool
is_none none = true
is_none (some _) = false

pub eq-none_of_is_none : {A : Type 0} (o : Option A) → is_none o ≡ true → o ≡ none
eq-none_of_is_none none h = refl
eq-none_of_is_none (some a) h = cc

abbrev pub bare : {B : Type 0} → Disk B
bare q = none

abbrev pub settled : Bool → Entry → Entry
settled b e = record e { dirty = e.dirty && not b }

map-settled-false : (o : Option Entry) → Option.map (settled false) o ≡ o
map-settled-false none = refl
map-settled-false (some e) = ground arith

-- ClearDirty takes the mark off the entry of its key, and changes no other entry.
pub lookup-clear_dirty :
    (s : Store) (k j : Text)
    → lookup j (clear_dirty s k).entries ≡ Option.map (settled (text_eq k j)) (lookup j s.entries)
unfolding clear_dirty
lookup-clear_dirty s k j = elim (Option-cases (lookup k s.entries)) [
  | inl e ↦ rw e (ground (arith, text_eq_iff k j, map-settled-false (lookup j s.entries)))
  | inr (w, e) ↦ rw e (
      ground (
        arith,
        text_eq_iff k j,
        map-settled-false (lookup j s.entries),
        lookup-insert k j (clean w) s.entries,
      ))
]

module _ {B : Type 0} (json : Codec CandleFile B) (base : Text) where
  abbrev pub saves_at : SaveEnv B → Entry → Result PathError Text → Bool
  saves_at env e (err p) = false
  saves_at env e (ok path) = is_none (save_file json env path e.file bare).1

  -- An entry is saved if its path is found and no call of SaveFile fails, whatever the disk holds.
  abbrev pub is_saved : SaveEnv B → Entry → Bool
  is_saved env e = saves_at env e (file_path_for_entry base e)

  abbrev any_saved : (Text → SaveEnv B) → List Entry → Text → Bool
  any_saved env [] k = false
  any_saved env (e ∷ es) k = (text_eq e.key k && is_saved (env e.key) e) || any_saved env es k

  pub save_file_error :
      (env : SaveEnv B) (path : Text) (cf : CandleFile) (d d' : Disk B)
      → (save_file json env path cf d).1 ≡ (save_file json env path cf d').1
  unfolding save_file replace_file
  save_file_error env path cf d d' = elim (Option-cases (json.encode (stamped env.now cf))) [
    | inl e ↦ rw e (ground arith)
    | inr (payload, e) ↦ rw e (ground arith)
  ]

  pub lookup-flush_entry :
      (env : SaveEnv B) (e : Entry) (f : Flushing B) (k : Text)
      → lookup k (flush_entry json base env e f).store.entries
        ≡ Option.map (settled (text_eq e.key k && is_saved env e)) (lookup k f.store.entries)
  unfolding flush_entry
  lookup-flush_entry env e f k = elim (Result-cases (file_path_for_entry base e)) [
    | inl (p, found) ↦ rw found (ground (arith, map-settled-false (lookup k f.store.entries)))
    | inr (path, found) ↦ rw found (elim (Option-cases (save_file json env path e.file f.disk).1) [
      | inl done ↦
          ground
            (arith, save_file_error env path e.file bare f.disk, lookup-clear_dirty f.store e.key k)
      | inr (error, failed) ↦ ground (
        arith,
        save_file_error env path e.file bare f.disk,
        map-settled-false (lookup k f.store.entries),
      )
    ])
  ]

  settled-settled :
      (a b : Bool) (o : Option Entry)
      → Option.map (settled a) (Option.map (settled b) o) ≡ Option.map (settled (b || a)) o
  settled-settled a b none = refl
  settled-settled a b (some e) = ground arith

  pub lookup-flush_entries :
      (env : Text → SaveEnv B) (es : List Entry) (f : Flushing B) (k : Text)
      → lookup k (flush_entries json base env es f).store.entries
        ≡ Option.map (settled (any_saved env es k)) (lookup k f.store.entries)
  unfolding flush_entries
  lookup-flush_entries env [] f k = sym (map-settled-false (lookup k f.store.entries))
  lookup-flush_entries env (e ∷ es) f k =
      lookup-flush_entries env es (flush_entry json base (env e.key) e f) k
      ∙ ap (Option.map (settled (any_saved env es k))) (lookup-flush_entry (env e.key) e f k)
      ∙ settled-settled (any_saved env es k) (text_eq e.key k && is_saved (env e.key) e)
          (lookup k f.store.entries)

  abbrev saved_there : (Text → SaveEnv B) → Text → Option Entry → Bool
  saved_there env k none = false
  saved_there env k (some e) = e.dirty && is_saved (env k) (clone_entry e)

  any_saved-if :
      (env : Text → SaveEnv B) (b : Bool) (x : Entry) (xs : List Entry) (k : Text)
      → any_saved env (if b then x ∷ xs else xs) k
        ≡ ((b && (text_eq x.key k && is_saved (env x.key) x)) || any_saved env xs k)
  any_saved-if env true x xs k = refl
  any_saved-if env false x xs k = refl

  is_saved_at_key :
      (env : Text → SaveEnv B) (x : Entry) (k : Text)
      → x.key ≡ k
      → (text_eq x.key k && is_saved (env x.key) x) ≡ is_saved (env k) x
  is_saved_at_key env x k e =
      subst (λ q. (text_eq q k && is_saved (env q) x) ≡ is_saved (env k) x) (sym e)
        (rw (text_eq_refl k))

  any_saved-cons :
      (env : Text → SaveEnv B) (j k : Text) (w : Entry) (xs : List Entry) (m : Assoc Entry)
      → (clone_entry w).key ≡ j
      → lookup j m ≡ none
      → any_saved env xs k ≡ saved_there env k (lookup k m)
      → ((w.dirty
            && (text_eq (clone_entry w).key k
                && is_saved (env (clone_entry w).key) (clone_entry w)))
          || any_saved env xs k)
        ≡ saved_there env k (if text_eq j k then some w else lookup k m)
  any_saved-cons env j k w xs m same fresh rest = elim (Bool-cases (text_eq j k)) [
    | inl t ↦
        let e = (text_eq_iff j k).0 t in
        let gone = subst (λ i. lookup i m ≡ none) e fresh in
        rw (t, is_saved_at_key env (clone_entry w) k (same ∙ e), rest, gone) or_false
    | inr t ↦ rw (t, same, t, rest) (ground arith)
  ]
    where
      or_false :
          ((w.dirty && is_saved (env k) (clone_entry w)) || false)
          ≡ (w.dirty && is_saved (env k) (clone_entry w))
      or_false = ground arith

  any_saved-dirty_entries :
      (env : Text → SaveEnv B) (m : Assoc Entry) (k : Text)
      → Distinct m
      → Each IsValidEntry m
      → any_saved env (dirty_entries m) k ≡ saved_there env k (lookup k m)
  unfolding dirty_entries lookup
  any_saved-dirty_entries env [] k h v = refl
  any_saved-dirty_entries env ((j, w) ∷ m) k h v =
      any_saved-if env w.dirty (clone_entry w) (dirty_entries m) k
      ∙ any_saved-cons env j k w (dirty_entries m) m (unfold clone_entry in v.0.keyed) h.0
          (any_saved-dirty_entries env m k h.1 v.1)

  -- With nothing beside it, a flush of a valid store changes no entry but for its mark: an entry is
  -- dirty behind it exactly if it was dirty and was not saved, so a save that fails is tried again.
  pub lookup-flush_dirty_entries :
      (env : Text → SaveEnv B) (s : Store) (disk : Disk B) (k : Text) (e : Entry)
      → IsValid s
      → lookup k s.entries ≡ some e
      → lookup k (flush_dirty_entries json base env s disk).store.entries
        ≡ some (record e { dirty = e.dirty && not (is_saved (env k) (clone_entry e)) })
  unfolding flush_dirty_entries get_dirty
  lookup-flush_dirty_entries env s disk k e h found =
      lookup-flush_entries env (dirty_entries s.entries) _ k
      ∙ ap (λ b. Option.map (settled b) (lookup k s.entries))
          (any_saved-dirty_entries env s.entries k h.distinct h.each)
      ∙ rw found (ground arith)
