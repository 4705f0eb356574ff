-- ===== src/Kline/Rest/Workers/Kept.antt =====
-- No pair is lost or done twice.
use fidorix.Base.{ℕ, ◌+◌, ◌≡◌, refl, ap, ◌∙◌, List, [], ◌∷◌, ◌++◌, arith}
use fidorix.Kline.Config.{Config}
use fidorix.Kline.Rest.Workers.{
  Job, Ending, Stage, fetching, launched, resting, Pool, jobs_of, worker_count, new_pool, Step, Run,
}

module _ {A : Type 0} (f : A → ℕ) where
  abbrev pub weight : List A → ℕ
  weight [] = 0
  weight (x ∷ xs) = f x + weight xs

  pub weight-append : (xs ys : List A) → weight (xs ++ ys) ≡ weight xs + weight ys
  weight-append [] ys = omega arith
  weight-append (x ∷ xs) ys = omega (arith, weight-append xs ys)

-- The weight of all jobs of a pool, wherever they are.
abbrev pub total : (Job → ℕ) → Pool → ℕ
total f s =
    weight f s.waiting
    + weight (λ (p : Job × Stage). f p.0) s.live
    + weight (λ (p : Job × Ending). f p.0) s.finished
    + weight f s.dropped

module _ (f : Job → ℕ) (s : Pool) (j : Job) (st : Stage) (before after : List (Job × Stage))
    (at : s.live ≡ before ++ (j, st) ∷ after) where
  pub at_job : Job × Stage → ℕ
  at_job p = f p.0

  weight-live : weight at_job s.live ≡ f j + weight at_job (before ++ after)
  unfolding at_job
  weight-live =
      ap (weight at_job) at
      ∙ omega
          (arith, weight-append at_job before ((j, st) ∷ after), weight-append at_job before after)

  weight_of_stage :
      (st' : Stage)
      → weight at_job (before ++ (j, st') ∷ after) ≡ f j + weight at_job (before ++ after)
  unfolding at_job
  weight_of_stage st' =
      omega
        (arith, weight-append at_job before ((j, st') ∷ after), weight-append at_job before after)

total-Step : (f : Job → ℕ) (workers : ℕ) (s t : Pool) → Step workers s t → total f t ≡ total f s
unfolding at_job
total-Step f workers s _ (Step.launch j rest w lt) = omega (arith, ap (weight f) w)
total-Step f workers s _ (Step.cancel j rest w) = omega (arith, weight-append f s.waiting s.dropped)
total-Step f workers s _ (Step.skip j before after at known) =
    omega (arith, weight-live f s j launched before after at)
total-Step f workers s _ (Step.begin j before after at free) = omega (
  arith,
  weight-live f s j launched before after at,
  weight_of_stage f s j launched before after at fetching,
)
total-Step f workers s _ (Step.answer j e before after at) = omega (
  arith,
  weight-live f s j fetching before after at,
  weight_of_stage f s j fetching before after at (resting e),
)
total-Step f workers s _ (Step.release j e before after at) =
    omega (arith, weight-live f s j (resting e) before after at)

total-Run : (f : Job → ℕ) {workers : ℕ} {s t : Pool} → Run workers s t → total f t ≡ total f s
total-Run f Run.here = refl
total-Run f (Run.next {t} {u} r st) = total-Step f _ t u st ∙ total-Run f r

-- Whatever the order in which the goroutines move, each pair of the settings is waiting, with a
-- goroutine, finished or dropped, and in one of these places only: no weight of pairs changes its
-- sum over them all.
pub total-jobs_of :
    (f : Job → ℕ) (cfg : Config) (s : Pool)
    → Run (worker_count cfg) (new_pool cfg) s
    → total f s ≡ weight f (jobs_of cfg.symbols cfg.intervals)
unfolding new_pool
total-jobs_of f cfg s r = omega (arith, total-Run f r)
