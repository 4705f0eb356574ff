-- ===== src/Kline/Rest/Workers/Bounds.antt =====
-- The workers: how many there are, that no pair is lost, and how often an unlisted symbol is asked
-- for.
use fidorix.Base.{
  one_if, member, ◌⊎◌, subst, text_eq_iff, ℕ, suc, ◌+◌, ◌≤◌, ◌≡◌, refl, ap, ◌∙◌, inl, inr, false,
  Bool-cases, List, [], ◌∷◌, ◌++◌, arith, length, length-append, Text, text_eq,
}
use fidorix.Kline.Config.{Config}
use fidorix.Kline.Rest.Workers.{
  Job, Ending, skipped, unlisted, failed, complete, Stage, launched, fetching, resting, Pool,
  worker_count, new_pool, marked, Step, Run,
}

-- 1 where the ending is that of the unlisted symbol `w`.
abbrev pub unlisted_one : Text → Job → Ending → ℕ
unlisted_one w j unlisted = one_if (text_eq j.wire w)
unlisted_one w j _ = 0

abbrev pub rested_one : Text → Job → Stage → ℕ
rested_one w j (resting e) = unlisted_one w j e
rested_one w j _ = 0

abbrev pub fetching_one : Text → Job → Stage → ℕ
fetching_one w j fetching = one_if (text_eq j.wire w)
fetching_one w j _ = 0

abbrev pub rested : Text → List (Job × Stage) → ℕ
rested w [] = 0
rested w ((j, st) ∷ live) = rested_one w j st + rested w live

abbrev pub fetching_of : Text → List (Job × Stage) → ℕ
fetching_of w [] = 0
fetching_of w ((j, st) ∷ live) = fetching_one w j st + fetching_of w live

abbrev pub ended : Text → List (Job × Ending) → ℕ
ended w [] = 0
ended w ((j, e) ∷ finished) = unlisted_one w j e + ended w finished

-- How often the server has said that symbol `w` is not listed.
abbrev pub unlisted_answers : Text → Pool → ℕ
unlisted_answers w s = rested w s.live + ended w s.finished

rested-append :
    (w : Text) (xs ys : List (Job × Stage)) → rested w (xs ++ ys) ≡ rested w xs + rested w ys
rested-append w [] ys = omega arith
rested-append w ((j, st) ∷ xs) ys = omega (arith, rested-append w xs ys)

fetching_of-append :
    (w : Text) (xs ys : List (Job × Stage))
    → fetching_of w (xs ++ ys) ≡ fetching_of w xs + fetching_of w ys
fetching_of-append w [] ys = omega arith
fetching_of-append w ((j, st) ∷ xs) ys = omega (arith, fetching_of-append w xs ys)

fetching_of-le : (w : Text) (xs : List (Job × Stage)) → fetching_of w xs ≤ length xs
fetching_of-le w [] = omega arith
fetching_of-le w ((j, launched) ∷ xs) = omega (arith, fetching_of-le w xs)
fetching_of-le w ((j, fetching) ∷ xs) = ground (arith, fetching_of-le w xs)
fetching_of-le w ((j, resting e) ∷ xs) = omega (arith, fetching_of-le w xs)

pub record IsBounded (workers : ℕ) (s : Pool) : Type 0 where
  pub live : length s.live ≤ workers
  pub unmarked : (w : Text) → member w s.invalid ≡ false → unlisted_answers w s ≡ 0
  pub asked : (w : Text) → unlisted_answers w s + fetching_of w s.live ≤ workers

-- A goroutine moves from its stage to those of `mid`: to another one, or away.
module _ (workers : ℕ) (s t : Pool) (j : Job) (st : Stage) (before mid after : List (Job × Stage))
    (from : s.live ≡ before ++ (j, st) ∷ after) (to : t.live ≡ before ++ (mid ++ after)) where
  old_count : Text → ℕ
  old_count w = rested_one w j st + ended w s.finished

  new_count : Text → ℕ
  new_count w = rested w mid + ended w t.finished

  moved-IsBounded :
      length mid ≤ 1
      → ((w : Text)
          → member w t.invalid ≡ false
          → (member w s.invalid ≡ false) × (new_count w ≡ old_count w))
      → ((w : Text)
          → (new_count w + fetching_of w mid ≤ old_count w + fetching_one w j st)
            ⊎ ((member w s.invalid ≡ false) × (new_count w ≡ old_count w)))
      → IsBounded workers s
      → IsBounded workers t
  unfolding old_count new_count
  moved-IsBounded one free asked h = record {
    live = omega (arith, one, h.live, lengths);
    unmarked = λ w f. let (g, e) = free w f in omega (arith, e, h.unmarked w g, resteds w);
    asked = λ w. elim (asked w) [
      | inl le ↦ omega (arith, le, h.asked w, resteds w, fetchings w)
      | inr (g, e) ↦
          omega (arith, e, one, h.unmarked w g, h.live, lengths, resteds w, fetching_of-le w t.live)
    ];
  }
    where
      lengths :
          (length s.live ≡ length before + suc (length after))
          × (length t.live ≡ length before + (length mid + length after))
      lengths = (
        ap length from ∙ length-append before ((j, st) ∷ after),
        ap length to
            ∙ length-append before (mid ++ after)
            ∙ ap (λ n. length before + n) (length-append mid after),
      )

      resteds :
          (w : Text)
          → (rested w s.live ≡ rested w before + (rested_one w j st + rested w after))
            × (rested w t.live ≡ rested w before + (rested w mid + rested w after))
      resteds w = (
        ap (rested w) from ∙ rested-append w before ((j, st) ∷ after),
        ap (rested w) to
            ∙ rested-append w before (mid ++ after)
            ∙ ap (λ n. rested w before + n) (rested-append w mid after),
      )

      fetchings :
          (w : Text)
          → (fetching_of w s.live
              ≡ fetching_of w before + (fetching_one w j st + fetching_of w after))
            × (fetching_of w t.live
                ≡ fetching_of w before + (fetching_of w mid + fetching_of w after))
      fetchings w = (
        ap (fetching_of w) from ∙ fetching_of-append w before ((j, st) ∷ after),
        ap (fetching_of w) to
            ∙ fetching_of-append w before (mid ++ after)
            ∙ ap (λ n. fetching_of w before + n) (fetching_of-append w mid after),
      )

unmarked_of_marked :
    (w : Text) (j : Job) (e : Ending) (invalid : List Text)
    → member w (marked j e invalid) ≡ false
    → (member w invalid ≡ false) × (unlisted_one w j e ≡ 0)
unmarked_of_marked w j skipped invalid h = (h, refl)
unmarked_of_marked w j unlisted invalid h = ground arith
unmarked_of_marked w j failed invalid h = (h, refl)
unmarked_of_marked w j complete invalid h = (h, refl)

unlisted_one-le : (w : Text) (j : Job) (e : Ending) → unlisted_one w j e ≤ one_if (text_eq j.wire w)
unlisted_one-le w j skipped = omega arith
unlisted_one-le w j unlisted = omega arith
unlisted_one-le w j failed = omega arith
unlisted_one-le w j complete = omega arith

Step-IsBounded :
    (workers : ℕ) (s t : Pool) → Step workers s t → IsBounded workers s → IsBounded workers t
unfolding old_count new_count
Step-IsBounded workers s _ (Step.launch j rest w lt) h = record {
  live = omega arith;
  unmarked = λ w free. omega (arith, h.unmarked w free);
  asked = λ w. omega (arith, h.asked w);
}
Step-IsBounded workers s _ (Step.cancel j rest w) h = record {
  live = h.live;
  unmarked = h.unmarked;
  asked = h.asked;
}
Step-IsBounded workers s t (Step.skip j before after at known) h =
    moved-IsBounded workers s _ j launched before [] after at refl (omega arith)
      (λ w f. (f, omega arith)) (λ w. inl (omega arith)) h
Step-IsBounded workers s t (Step.begin j before after at free) h =
    moved-IsBounded workers s _ j launched before ((j, fetching) ∷ []) after at refl (omega arith)
      (λ w f. (f, omega arith))
      (λ w. elim (Bool-cases (text_eq j.wire w)) [
        | inl e ↦
            inr (subst (λ v. member v s.invalid ≡ false) ((text_eq_iff j.wire w).0 e) free, refl)
        | inr e ↦ inl (omega (arith, ap one_if e))
      ])
      h
Step-IsBounded workers s t (Step.answer j e before after at) h =
    moved-IsBounded workers s _ j fetching before ((j, resting e) ∷ []) after at refl (omega arith)
      (λ w f. let (g, z) = unmarked_of_marked w j e s.invalid f in (g, omega (arith, z)))
      (λ w. inl (omega (arith, unlisted_one-le w j e))) h
Step-IsBounded workers s t (Step.release j e before after at) h =
    moved-IsBounded workers s _ j (resting e) before [] after at refl (omega arith)
      (λ w f. (f, omega arith)) (λ w. inl (omega arith)) h

Run-IsBounded :
    {workers : ℕ} {s t : Pool} → Run workers s t → IsBounded workers s → IsBounded workers t
Run-IsBounded Run.here h = h
Run-IsBounded (Run.next {t} {u} r st) h = Step-IsBounded _ t u st (Run-IsBounded r h)

new_pool-IsBounded : (workers : ℕ) (cfg : Config) → IsBounded workers (new_pool cfg)
unfolding new_pool
new_pool-IsBounded workers cfg = record {
  live = omega arith;
  unmarked = λ w f. omega arith;
  asked = λ w. omega arith;
}

-- Whatever the order in which the goroutines move, there are never more of them than the settings
-- have workers, and no symbol gets the answer that it is not listed more often than that, however
-- many intervals it has.
pub unlisted_answers-le :
    (cfg : Config) (s : Pool)
    → Run (worker_count cfg) (new_pool cfg) s
    → (length s.live ≤ worker_count cfg) × ((w : Text) → unlisted_answers w s ≤ worker_count cfg)
unlisted_answers-le cfg s r =
    let h = Run-IsBounded r (new_pool-IsBounded (worker_count cfg) cfg) in
    (h.live, λ w. omega (arith, h.asked w))
