-- ===== src/Kline/Files/Ending/Ticks.antt =====
-- What a candle that is stored, and GetDirty, leave of the files and the copies of a pair.
use fidorix.Base.{
  Option, ◌≡◌, ◌≢◌, refl, sym, ◌∙◌, subst, inl, inr, ◌⊎◌, Bool, true, false, none, some, List, [],
  ◌∷◌, if◌then◌else◌, elems, All, All-imp, Text, lookup-Each, Each, Each-of_lookup, Assoc, Codec,
  lookup,
}
use fidorix.Kline.Candle.{Candle}
use fidorix.Kline.Store.{
  CandleFile, Entry, Store, clone_entry, dirty_entries, get_dirty, key_for, upsert,
}
use fidorix.Kline.Store.Dirty.{elems-clone_slice}
use fidorix.Kline.Store.Invariant.{IsValid, IsValidEntry, upsert-IsValid}
use fidorix.Kline.Files.{file_path_for_entry}
use fidorix.Kline.Files.Loop.{Flow, stored, tick, begin, advance}
use fidorix.Kline.Files.Durable.{IsCopy}
use fidorix.Kline.Files.Ending.{upsert_origin, IsCalm, Holds}

All-if :
    (P : Entry → Type 0) (b : Bool) (x : Entry) (xs : List Entry)
    → P x
    → All P xs
    → All P (if b then x ∷ xs else xs)
All-if P true x xs h hs = (h, hs)
All-if P false x xs h hs = hs

pub All-dirty_entries :
    (P : Entry → Type 0) (m : Assoc Entry)
    → Each (λ j w. P (clone_entry w)) m
    → All P (dirty_entries m)
unfolding dirty_entries
All-dirty_entries P [] h = tt
All-dirty_entries P ((j, w) ∷ m) h =
    All-if P w.dirty (clone_entry w) (dirty_entries m) h.0 (All-dirty_entries P m h.1)

module _ {B : Type 0} (json : Codec CandleFile B) (base : Text) (k : Text) where
  pub stored-Holds :
      (symbol interval : Text) (c : Candle) (w : Flow B)
      → IsCalm json base k (stored symbol interval c) w
      → Holds json base k w
      → Holds json base k (advance json base (stored symbol interval c) w)
  unfolding advance
  stored-Holds symbol interval c w calm h = record {
    valid = upsert-IsValid w.store symbol interval c h.valid;
    durable = λ e found b. elim (came e found) [
      | inl old ↦ h.durable e old b
      | inr (same, dirty) ↦ absurd (refused e b dirty (calm same).none_clearing)
    ];
    copied = λ e found. elim (came e found) [
      | inl old ↦ h.copied e old
      | inr (same, dirty) ↦
          All-imp (λ x. x.key ≢ k) (λ x. x.key ≡ k → IsCopy json base x e) w.pending
            (λ x ne eq. absurd (ne eq)) (calm same).none_pending
    ];
  }
    where
      refused :
          (e : Entry)
          → (e.dirty ≡ false) ⊎ (w.clearing ≡ some k)
          → e.dirty ≡ true
          → w.clearing ≢ some k
          → ⊥
      refused e (inl a) d n = cc
      refused e (inr b) d n = n b

      came :
          (e : Entry)
          → lookup k (upsert w.store symbol interval c).0.entries ≡ some e
          → (lookup k w.store.entries ≡ some e) ⊎ ((key_for symbol interval ≡ k) × (e.dirty ≡ true))
      came = upsert_origin w.store symbol interval c k

  path-clone_entry :
      (e : Entry) → file_path_for_entry base (clone_entry e) ≡ file_path_for_entry base e
  unfolding file_path_for_entry clone_entry
  path-clone_entry e = refl

  clone-IsCopy : (e : Entry) → IsCopy json base (clone_entry e) e
  clone-IsCopy e =
      (path-clone_entry e, unfold clone_entry in elems-clone_slice (elems e.file.candles))

  get_dirty-IsCopy :
      (s : Store) (e : Entry)
      → IsValid s
      → lookup k s.entries ≡ some e
      → All (λ x. x.key ≡ k → IsCopy json base x e) (get_dirty s)
  unfolding get_dirty
  get_dirty-IsCopy s e v found =
      All-dirty_entries (λ x. x.key ≡ k → IsCopy json base x e) s.entries
        (Each-of_lookup (λ j w. (clone_entry w).key ≡ k → IsCopy json base (clone_entry w) e)
          s.entries v.distinct
          (λ j w there keyed.
            let at : (clone_entry w).key ≡ j =
              unfold clone_entry in (lookup-Each IsValidEntry j w s.entries v.each there).keyed in
            subst (IsCopy json base (clone_entry w)) (same j w there (sym at ∙ keyed))
              (clone-IsCopy w)))
    where
      same : (j : Text) (w : Entry) → lookup j s.entries ≡ some w → j ≡ k → w ≡ e
      same j w there eq = unsome (sym (subst (λ i. lookup i s.entries ≡ some w) eq there) ∙ found)
        where
          unsome : some w ≡ some e → w ≡ e
          unsome q = cc

  pub begin-Holds :
      (w : Flow B) → Holds json base k w → Holds json base k (advance json base tick w)
  unfolding advance
  begin-Holds w h = of_parts w.clearing w.pending
    where
      of_parts : (cl : Option Text) (es : List Entry) → Holds json base k (begin json base w cl es)
      of_parts (some j) es = h
      of_parts none (x ∷ es) = h
      of_parts none [] = record {
        valid = h.valid;
        durable = h.durable;
        copied = λ e found. get_dirty-IsCopy w.store e h.valid found;
      }
