-- ===== src/Orderbook/Persistence/Exclusive.antt =====
-- At most one call writes, and a reader of the file never meets half of a snapshot.
use fidorix.Base.{
  one_if, one_if-le, suc, ◌≤◌, ◌≡◌, refl, ap, sym, ◌∙◌, subst, inl, inr, ◌⊎◌, Bool, true, false,
  Option, none, some, List, [], ◌∷◌, ◌++◌, arith, length, length-append, All, Text, text_eq_refl,
  Disk, put, tmp_path, tmp_path-ne,
}
use fidorix.Orderbook.Persistence.{
  Stage, entered, written, stuck, leaving, Writer, Step, Run, new_writer,
}

module _ {S B : Type 0} (encode : S → Option B) (path : Text) (old : Option B) where
  -- The old content, or the whole of some snapshot.
  abbrev pub IsContent : Option B → Type 0
  IsContent o =
      (o ≡ old) ⊎ ((s : S) × ((content : B) × (encode s ≡ some content) × (o ≡ some content)))

  abbrev pub IsStaged : Disk B → Stage S B → Type 0
  IsStaged disk (entered s content) = encode s ≡ some content
  IsStaged disk (written s content) =
      (encode s ≡ some content) × (disk (tmp_path path) ≡ some content)
  IsStaged disk stuck = Unit
  IsStaged disk leaving = Unit

  pub record IsSound (w : Writer S B) : Type 0 where
    pub exclusive : length w.live ≡ one_if w.in_progress
    pub content : IsContent (w.disk path)
    pub staged : All (IsStaged w.disk) w.live

  -- Where a call is live, it is the only one.
  alone :
      (w : Writer S B) (st : Stage S B) (before after : List (Stage S B))
      → IsSound w
      → w.live ≡ before ++ st ∷ after
      → (before ≡ []) × (after ≡ []) × (w.in_progress ≡ true) × IsStaged w.disk st
  alone w st before after h at =
      of_live w.in_progress before after (sym (ap length at) ∙ h.exclusive)
        (subst (All (IsStaged w.disk)) at h.staged)
    where
      of_live :
          (b : Bool) (before after : List (Stage S B))
          → length (before ++ st ∷ after) ≡ one_if b
          → All (IsStaged w.disk) (before ++ st ∷ after)
          → (before ≡ []) × (after ≡ []) × (b ≡ true) × IsStaged w.disk st
      of_live true [] [] len all = (refl, refl, refl, all.0)
      of_live false [] after len all = absurd (omega arith)
      of_live true [] (x ∷ after) len all = absurd (omega arith)
      of_live true (x ∷ before) after len all =
          absurd (omega (arith, length-append before (st ∷ after)))
      of_live false (x ∷ before) after len all = absurd (omega arith)

  -- The one live call goes on to the stage `st'`.
  moved-IsSound :
      (w : Writer S B) (st st' : Stage S B) (before after : List (Stage S B)) (disk' : Disk B)
      → IsSound w
      → w.live ≡ before ++ st ∷ after
      → IsContent (disk' path)
      → IsStaged disk' st'
      → IsSound (record w { disk = disk'; live = before ++ st' ∷ after })
  moved-IsSound w st st' before after disk' h at content staged =
      let (no_before, no_after, busy, _) = alone w st before after h at in
      record {
        exclusive = rw (no_before, no_after, busy) refl;
        content = content;
        staged = rw (no_before, no_after) (staged, tt);
      }

  put_tmp : (o : Option B) (disk : Disk B) → put (tmp_path path) o disk path ≡ disk path
  put_tmp o disk = rw (tmp_path-ne path)

  put_self : (p : Text) (o : Option B) (disk : Disk B) → put p o disk p ≡ o
  put_self p o disk = rw (text_eq_refl p)

  tmp-IsContent :
      (o : Option B) (disk : Disk B)
      → IsContent (disk path)
      → IsContent (put (tmp_path path) o disk path)
  tmp-IsContent o disk h = subst IsContent (sym (put_tmp o disk)) h

  idle : (w : Writer S B) → IsSound w → w.in_progress ≡ false → w.live ≡ []
  idle w h free = of_length w.live (h.exclusive ∙ ap one_if free)
    where
      of_length : (live : List (Stage S B)) → length live ≡ 0 → live ≡ []
      of_length [] e = refl
      of_length (x ∷ live) e = absurd (omega arith)

  entered-IsSound :
      (w : Writer S B) (st : Stage S B)
      → IsSound w
      → w.in_progress ≡ false
      → IsStaged w.disk st
      → IsSound (record w { in_progress = true; live = st ∷ w.live })
  entered-IsSound w st h free staged = record {
    exclusive = ap (λ (l : List (Stage S B)). suc (length l)) (idle w h free);
    content = h.content;
    staged = (staged, h.staged);
  }

  Step-IsSound : (w v : Writer S B) → Step encode path w v → IsSound w → IsSound v
  Step-IsSound w _ (Step.enter s content free e) h = entered-IsSound w (entered s content) h free e
  Step-IsSound w _ (Step.enter_unencoded s free e) h = entered-IsSound w leaving h free tt
  Step-IsSound w _ (Step.refuse busy) h = h
  Step-IsSound w _ (Step.write s content before after at) h =
      let (_, _, _, e) = alone w (entered s content) before after h at in
      moved-IsSound w (entered s content) (written s content) before after _ h at
        (tmp-IsContent (some content) w.disk h.content)
        (e, put_self (tmp_path path) (some content) w.disk)
  Step-IsSound w _ (Step.write_fails s content left before after at) h =
      moved-IsSound w (entered s content) leaving before after _ h at
        (tmp-IsContent left w.disk h.content) tt
  Step-IsSound w _ (Step.rename s content before after at) h =
      let (_, _, _, (e, held)) = alone w (written s content) before after h at in
      let moved = put path (w.disk (tmp_path path)) w.disk in
      moved-IsSound w (written s content) leaving before after _ h at
        (tmp-IsContent none moved
          (inr (s, (content, e, put_self path (w.disk (tmp_path path)) w.disk ∙ held))))
        tt
  Step-IsSound w _ (Step.rename_fails s content before after at) h =
      moved-IsSound w (written s content) stuck before after w.disk h at h.content tt
  Step-IsSound w _ (Step.remove before after at) h =
      moved-IsSound w stuck leaving before after _ h at (tmp-IsContent none w.disk h.content) tt
  Step-IsSound w _ (Step.remove_fails before after at) h =
      moved-IsSound w stuck leaving before after w.disk h at h.content tt
  Step-IsSound w _ (Step.leave before after at) h =
      let (no_before, no_after, _, _) = alone w leaving before after h at in
      record {
        exclusive = rw (no_before, no_after) refl;
        content = h.content;
        staged = rw (no_before, no_after) tt;
      }

  Run-IsSound : {w v : Writer S B} → Run encode path w v → IsSound w → IsSound v
  Run-IsSound Run.here h = h
  Run-IsSound (Run.next {v} {x} r st) h = Step-IsSound v x st (Run-IsSound r h)

-- In whatever order the calls move and however their system calls end, at most one call is between
-- its swap and its reset of the flag, and the file has its old content or the whole of a snapshot.
pub IsContent-Run :
    {S B : Type 0} (encode : S → Option B) (path : Text) (disk : Disk B) (w : Writer S B)
    → Run encode path (new_writer disk) w
    → (length w.live ≤ 1) × IsContent encode path (disk path) (w.disk path)
IsContent-Run encode path disk w r =
    let h =
      Run-IsSound encode path (disk path) r
        (record { exclusive = refl; content = inl refl; staged = tt }) in
    (omega (arith, h.exclusive, one_if-le w.in_progress), h.content)
