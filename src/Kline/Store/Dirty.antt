-- ===== src/Kline/Store/Dirty.antt =====
-- GetDirty lists the dirty entries, all of them and no others, as copies.
use mathlib.Core.List.{Memᴰ}
use fidorix.Base.{
  ◌≡◌, refl, sym, subst, inl, inr, Bool, true, false, none, some, List, [], ◌∷◌, arith, Bool-cases,
  if◌then◌else◌, elems, All, All-imp, Text, text_eq, text_eq_iff, Assoc, lookup, Distinct, Each,
}
use fidorix.Kline.Candle.{Candle}
use fidorix.Kline.Store.{Entry, Store, clone_slice, clone_entry, dirty_entries, get_dirty}
use fidorix.Kline.Store.Invariant.{IsValid, IsValidEntry}

-- A copy shows the elements of the original: only an empty slice comes back as nil.
pub elems-clone_slice : (xs : List Candle) → elems (clone_slice xs) ≡ xs
elems-clone_slice [] = refl
elems-clone_slice (x ∷ xs) = refl

dirty_entries_complete :
    (k : Text) (e : Entry) (m : Assoc Entry)
    → lookup k m ≡ some e
    → e.dirty ≡ true
    → Memᴰ (clone_entry e) (dirty_entries m)
unfolding lookup dirty_entries
dirty_entries_complete k e [] h d = cc
dirty_entries_complete k e ((j, w) ∷ m) h d = elim (Bool-cases (text_eq j k)) [
  | inl t ↦
      let same : w ≡ e = ground arith in
      subst
        (λ x.
          Memᴰ (clone_entry e)
            (if x.dirty then clone_entry x ∷ dirty_entries m else dirty_entries m))
        (sym same) (rw d (Memᴰ.head refl))
  | inr t ↦
      let later = dirty_entries_complete k e m (ground arith) d in
      elim (Bool-cases w.dirty) [ inl b ↦ rw b (Memᴰ.tail later) | inr b ↦ rw b later ]
]

-- Every dirty entry is listed, as its copy.
pub get_dirty_complete :
    (s : Store) (k : Text) (e : Entry)
    → lookup k s.entries ≡ some e
    → e.dirty ≡ true
    → Memᴰ (clone_entry e) (get_dirty s)
unfolding get_dirty
get_dirty_complete s k e = dirty_entries_complete k e s.entries

-- What is listed is the copy of a dirty entry, which the store has under the copy's key.
pub record IsListed (m : Assoc Entry) (d : Entry) : Type 0 where
  pub entry : Entry
  pub found : lookup d.key m ≡ some entry
  pub dirty : entry.dirty ≡ true
  pub copied : d ≡ clone_entry entry

IsListed-tail :
    (k : Text) (w : Entry) (m : Assoc Entry) (d : Entry)
    → lookup k m ≡ none
    → IsListed m d
    → IsListed ((k, w) ∷ m) d
unfolding lookup
IsListed-tail k w m d fresh h = record {
  entry = h.entry;
  found = ground (arith, h.found, text_eq_iff k d.key);
  dirty = h.dirty;
  copied = h.copied;
}

All-guarded :
    (P : Entry → Type 0) (b : Bool) (x : Entry) (xs : List Entry)
    → (b ≡ true → P x)
    → All P xs
    → All P (if b then x ∷ xs else xs)
All-guarded P true x xs p h = (p refl, h)
All-guarded P false x xs p h = h

dirty_entries_sound :
    (m : Assoc Entry) → Distinct m → Each IsValidEntry m → All (IsListed m) (dirty_entries m)
unfolding dirty_entries
dirty_entries_sound [] h v = tt
dirty_entries_sound ((k, w) ∷ m) h v =
    let later =
      All-imp (IsListed m) (IsListed ((k, w) ∷ m)) (dirty_entries m)
        (λ d. IsListed-tail k w m d h.0) (dirty_entries_sound m h.1 v.1) in
    All-guarded (IsListed ((k, w) ∷ m)) w.dirty (clone_entry w) (dirty_entries m) listed later
  where
    listed : w.dirty ≡ true → IsListed ((k, w) ∷ m) (clone_entry w)
    listed b = record {
      entry = w;
      found = unfold lookup clone_entry in ground (arith, v.0.keyed, text_eq_iff k w.key);
      dirty = b;
      copied = refl;
    }

-- Of a valid store nothing else is listed.
pub get_dirty_sound : (s : Store) → IsValid s → All (IsListed s.entries) (get_dirty s)
unfolding get_dirty
get_dirty_sound s h = dirty_entries_sound s.entries h.distinct h.each
