-- ===== src/Kline/Rest/Workers/Progress.antt =====
-- Bootstrap ends: its goroutines take a bounded number of steps, and one of them can move until all
-- pairs are done.
use fidorix.Base.{
  ℕ, suc, ◌+◌, ◌*◌, ◌≤◌, ◌<◌, ◌≡◌, refl, ap, ◌∙◌, inl, inr, ◌⊎◌, Bool, true, false, Bool-cases,
  List, [], ◌∷◌, ◌++◌, arith, length, member,
}
use fidorix.Kline.Config.{Config}
use fidorix.Kline.Rest.Workers.{
  Job, complete, Stage, launched, fetching, resting, Pool, jobs_of, worker_count, new_pool, Step,
  Run,
}
use fidorix.Kline.Rest.Workers.Kept.{weight, weight-append}

-- The steps that a goroutine has left: to its look at the invalid symbols, to the answer, and to the
-- end of its sleep.
abbrev pub left : Job × Stage → ℕ
left (j, launched) = 3
left (j, fetching) = 2
left (j, resting e) = 1

-- The steps that a pool has left at most; a pair that waits has all four.
abbrev pub measure : Pool → ℕ
measure s = 4 * length s.waiting + weight left s.live

abbrev pub steps : {workers : ℕ} {s t : Pool} → Run workers s t → ℕ
steps Run.here = 0
steps (Run.next r st) = suc (steps r)

left-live :
    (s : Pool) (p : Job × Stage) (before after : List (Job × Stage))
    → s.live ≡ before ++ p ∷ after
    → weight left s.live ≡ weight left before + (left p + weight left after)
left-live s p before after at = ap (weight left) at ∙ weight-append left before (p ∷ after)

measure-Step : (workers : ℕ) (s t : Pool) → Step workers s t → suc (measure t) ≤ measure s
measure-Step workers s _ (Step.launch j rest w lt) = omega (arith, ap (length {A = Job}) w)
measure-Step workers s _ (Step.cancel j rest w) = omega (arith, ap (length {A = Job}) w)
measure-Step workers s _ (Step.skip j before after at known) =
    omega (arith, left-live s (j, launched) before after at, weight-append left before after)
measure-Step workers s _ (Step.begin j before after at free) = omega (
  arith,
  left-live s (j, launched) before after at,
  weight-append left before ((j, fetching) ∷ after),
)
measure-Step workers s _ (Step.answer j e before after at) = omega (
  arith,
  left-live s (j, fetching) before after at,
  weight-append left before ((j, resting e) ∷ after),
)
measure-Step workers s _ (Step.release j e before after at) =
    omega (arith, left-live s (j, resting e) before after at, weight-append left before after)

measure-Run : {workers : ℕ} {s t : Pool} (r : Run workers s t) → steps r + measure t ≤ measure s
measure-Run Run.here = omega arith
measure-Run (Run.next {t} {u} r st) = omega (arith, measure-Run r, measure-Step _ t u st)

-- The step is that of a context that has ended.
abbrev pub is_cancel : {workers : ℕ} {s t : Pool} → Step workers s t → Bool
is_cancel (Step.launch j rest w lt) = false
is_cancel (Step.cancel j rest w) = true
is_cancel (Step.skip j before after at known) = false
is_cancel (Step.begin j before after at free) = false
is_cancel (Step.answer j e before after at) = false
is_cancel (Step.release j e before after at) = false

-- The pool is done, or it can move without an end of the context.
moves :
    (workers : ℕ) (s : Pool)
    → 0 < workers
    → ((s.waiting ≡ []) × (s.live ≡ []))
      ⊎ ((t : Pool) × (st : Step workers s t) × (is_cancel st ≡ false))
moves workers s some_worker = of_parts s.live s.waiting refl refl
  where
    of_parts :
        (live : List (Job × Stage)) (waiting : List Job)
        → s.live ≡ live
        → s.waiting ≡ waiting
        → ((s.waiting ≡ []) × (s.live ≡ []))
          ⊎ ((t : Pool) × (st : Step workers s t) × (is_cancel st ≡ false))
    of_parts [] [] l w = inl (w, l)
    of_parts [] (j ∷ rest) l w = inr (_, Step.launch j rest w (rw l some_worker), refl)
    of_parts ((j, launched) ∷ after) waiting l w = elim (Bool-cases (member j.wire s.invalid)) [
      | inl known ↦ inr (_, Step.skip j [] after l known, refl)
      | inr free ↦ inr (_, Step.begin j [] after l free, refl)
    ]
    of_parts ((j, fetching) ∷ after) waiting l w = inr (_, Step.answer j complete [] after l, refl)
    of_parts ((j, resting e) ∷ after) waiting l w = inr (_, Step.release j e [] after l, refl)

one_worker : (cfg : Config) → 0 < worker_count cfg
one_worker cfg = ground arith

-- However its goroutines move, Bootstrap takes four steps for a pair at most, and where it has
-- neither a pair that waits nor a goroutine it is over, and elsewhere a goroutine can move or the
-- loop can start one, without an end of the context: no place of the semaphore is lost.
pub new_pool-steps :
    (cfg : Config) (s : Pool) (r : Run (worker_count cfg) (new_pool cfg) s)
    → (steps r ≤ 4 * length (jobs_of cfg.symbols cfg.intervals))
      × (((s.waiting ≡ []) × (s.live ≡ []))
          ⊎ ((t : Pool) × (st : Step (worker_count cfg) s t) × (is_cancel st ≡ false)))
unfolding new_pool
new_pool-steps cfg s r = (omega (arith, measure-Run r), moves (worker_count cfg) s (one_worker cfg))
