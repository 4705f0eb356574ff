-- ===== src/Kline/Rest/Workers.antt =====
-- Bootstrap: the pairs as jobs of goroutines under a semaphore, and the set of invalid symbols.
-- Each of them moves in steps, in any order.
pub mod Bounds
pub mod Kept
pub mod Progress
use fidorix.Base.{
  ℕ, ◌<◌, ◌≡◌, Bool, true, false, not, Option, none, some, if◌then◌else◌, List, [], ◌∷◌, ◌++◌, map,
  length, ℤ, pos, pos_part, Text, member,
}
use fidorix.Kline.Symbol.{to_mexc}
use fidorix.Kline.Config.{Config, at_least_one}

pub record Job : Type 0 where
  pub file_symbol : Text
  pub wire : Text
  pub interval : Text

-- How a pair ends: skipped since its symbol is invalid, with the error of an unlisted contract, with
-- another error, or well.
pub data Ending : Type 0 where
  skipped : Ending
  unlisted : Ending
  failed : Ending
  complete : Ending

-- Where a goroutine is: before its look at the invalid symbols, in bootstrapPair, or in its sleep.
pub data Stage : Type 0 where
  launched : Stage
  fetching : Stage
  resting : Ending → Stage

-- `live` are the goroutines that hold a place of the semaphore.
pub record Pool : Type 0 where
  pub waiting : List Job
  pub live : List (Job × Stage)
  pub invalid : List Text
  pub finished : List (Job × Ending)
  pub dropped : List Job

abbrev pub job : Text → Text → Job
job file_symbol interval = record {
  file_symbol = file_symbol;
  wire = to_mexc file_symbol;
  interval = interval;
}

unfoldable pub jobs_of : List Text → List Text → List Job
jobs_of [] intervals = []
jobs_of (file_symbol ∷ symbols) intervals =
    map (job file_symbol) intervals ++ jobs_of symbols intervals

abbrev pub worker_count : Config → ℕ
worker_count cfg = pos_part (at_least_one cfg.bootstrap_workers (pos 1))

-- How Bootstrap returns: with an error where its settings or its store are nil, or where the context
-- has ended when its goroutines are done.
pub data BootstrapError : Type 0 where
  no_config : BootstrapError
  no_store : BootstrapError
  context_ended : BootstrapError

unfoldable pub bootstrap_result : Bool → Bool → Bool → Option BootstrapError
bootstrap_result has_config has_store ended =
    if not has_config
    then some no_config
    else if not has_store
    then some no_store
    else if ended
    then some context_ended
    else none

unfoldable pub new_pool : Config → Pool
new_pool cfg = record {
  waiting = jobs_of cfg.symbols cfg.intervals;
  live = [];
  invalid = [];
  finished = [];
  dropped = [];
}

abbrev pub marked : Job → Ending → List Text → List Text
marked j unlisted invalid = j.wire ∷ invalid
marked j _ invalid = invalid

pub data Step (workers : ℕ) (s : Pool) : Pool → Type 0 where
  -- The loop gets a place of the semaphore and starts the goroutine of the next pair.
  launch :
      (j : Job) (rest : List Job)
      → s.waiting ≡ j ∷ rest
      → length s.live < workers
      → Step workers s (record s { waiting = rest; live = (j, launched) ∷ s.live })
  -- The context is cancelled where the loop waits for a place: the loop ends.
  cancel :
      (j : Job) (rest : List Job)
      → s.waiting ≡ j ∷ rest
      → Step workers s (record s { waiting = []; dropped = s.waiting ++ s.dropped })
  skip :
      (j : Job) (before after : List (Job × Stage))
      → s.live ≡ before ++ (j, launched) ∷ after
      → member j.wire s.invalid ≡ true
      → Step workers s (record s { live = before ++ after; finished = (j, skipped) ∷ s.finished })
  begin :
      (j : Job) (before after : List (Job × Stage))
      → s.live ≡ before ++ (j, launched) ∷ after
      → member j.wire s.invalid ≡ false
      → Step workers s (record s { live = before ++ (j, fetching) ∷ after })
  -- bootstrapPair has returned; an unlisted symbol is stored before the sleep.
  answer :
      (j : Job) (e : Ending) (before after : List (Job × Stage))
      → s.live ≡ before ++ (j, fetching) ∷ after
      → Step workers s
          (record s { live = before ++ (j, resting e) ∷ after; invalid = marked j e s.invalid })
  -- The sleep is over, and the place is free again.
  release :
      (j : Job) (e : Ending) (before after : List (Job × Stage))
      → s.live ≡ before ++ (j, resting e) ∷ after
      → Step workers s (record s { live = before ++ after; finished = (j, e) ∷ s.finished })

pub data Run (workers : ℕ) (s : Pool) : Pool → Type 0 where
  here : Run workers s s
  next : {t u : Pool} → Run workers s t → Step workers t u → Run workers s u
