-- ===== src/Kline/Server/Settled.antt =====
-- kline/cmd/server/main.go: the goroutines that the settings give the bootstrap, and the store that
-- it starts from.
use fidorix.Base.{
  ℕ, zero, suc, ◌≡◌, ◌≢◌, refl, subst, inl, inr, ◌⊎◌, Bool, true, false, some, List, [], ◌∷◌, ◌++◌,
  map, All, All-append, All-imp, get_elem?, ℤ, Text, Lacks, is_empty, Codec, Disk,
}
use fidorix.Kline.Symbol.{to_mexc, to_file}
use fidorix.Kline.Config.Intervals.{Apart, IsInterval}
use fidorix.Kline.Store.{CandleFile, Store, or_default, load}
use fidorix.Kline.Files.{load_file}
use fidorix.Kline.Rest.Bootstrap.{PairEnv, pair_path}
use fidorix.Kline.Rest.Workers.{Job, job, jobs_of}
use fidorix.Kline.Rest.Schedule.{Goroutine}
use fidorix.Kline.Rest.Schedule.Outcome.{Differ, AllDiffer}
use fidorix.Kline.Rest.Schedule.Saved.{IsUsual}
use fidorix.Kline.Rest.Schedule.Durable.{Covers, load-Covers}
use fidorix.Kline.Server.{load_intervals, load_symbols}
use fidorix.Kline.Server.Startup.{goroutines}

abbrev pub JobsDiffer : Job → Job → Type 0
JobsDiffer j k = (to_file j.file_symbol ≢ to_file k.file_symbol) ⊎ (j.interval ≢ k.interval)

abbrev pub AreDifferent : List Job → Type 0
AreDifferent [] = Unit
AreDifferent (j ∷ js) = All (JobsDiffer j) js × AreDifferent js

append-AreDifferent :
    (js ks : List Job)
    → AreDifferent js
    → AreDifferent ks
    → All (λ j. All (JobsDiffer j) ks) js
    → AreDifferent (js ++ ks)
append-AreDifferent [] ks h d k = d
append-AreDifferent (j ∷ js) ks h d k =
    (All-append (JobsDiffer j) js ks h.0 k.0, append-AreDifferent js ks h.1 d k.1)

-- What holds of the pairs of a symbol.
All-map_job :
    (P : Job → Type 0) (y : Text) (is : List Text)
    → All (λ i. P (job y i)) is
    → All P (map (job y) is)
All-map_job P y [] h = tt
All-map_job P y (i ∷ is) h = (h.0, All-map_job P y is h.1)

All-of_each : (P : Text → Type 0) (xs : List Text) → ((x : Text) → P x) → All P xs
All-of_each P [] f = tt
All-of_each P (x ∷ xs) f = (f x, All-of_each P xs f)

map_job-AreDifferent :
    (y : Text) (is : List Text) → Apart (λ i. i) is → AreDifferent (map (job y) is)
map_job-AreDifferent y [] h = tt
map_job-AreDifferent y (i ∷ is) (h, k) = (
  All-map_job (JobsDiffer (job y i)) y is
      (All-imp (λ x. i ≢ x) (λ x. JobsDiffer (job y i) (job y x)) is (λ x n. inr n) h),
  map_job-AreDifferent y is k,
)

JobsDiffer-jobs_of :
    (j : Job) (ys is : List Text)
    → All (λ y. to_file j.file_symbol ≢ to_file y) ys
    → All (JobsDiffer j) (jobs_of ys is)
unfolding jobs_of
JobsDiffer-jobs_of j [] is h = tt
JobsDiffer-jobs_of j (y ∷ ys) is (n, h) =
    All-append (JobsDiffer j) (map (job y) is) (jobs_of ys is)
      (All-map_job (JobsDiffer j) y is (All-of_each (λ i. JobsDiffer j (job y i)) is (λ i. inl n)))
      (JobsDiffer-jobs_of j ys is h)

pub jobs_of-AreDifferent :
    (ys is : List Text) → Apart to_file ys → Apart (λ i. i) is → AreDifferent (jobs_of ys is)
unfolding jobs_of
jobs_of-AreDifferent [] is h k = tt
jobs_of-AreDifferent (y ∷ ys) is (n, h) k =
    append-AreDifferent (map (job y) is) (jobs_of ys is) (map_job-AreDifferent y is k)
      (jobs_of-AreDifferent ys is h k)
      (All-map_job (λ j. All (JobsDiffer j) (jobs_of ys is)) y is
        (All-of_each (λ i. All (JobsDiffer (job y i)) (jobs_of ys is)) is
          (λ i. JobsDiffer-jobs_of (job y i) ys is n)))

-- The symbol is one that has a file: without an underscore or a slash, and not empty.
pub record IsFiled (symbol : Text) : Type 0 where
  pub one_part : Lacks b'_' symbol
  pub named : is_empty (to_file symbol) ≡ false
  pub whole : Lacks b'/' (to_file symbol)

-- A pair has a goroutine.
abbrev pub HasJob : {B : Type 0} → List (Goroutine B) → Job → Type 0
HasJob {B} gs j = (i : ℕ) × (g : Goroutine B) × (get_elem? gs i ≡ some g) × (g.job ≡ j)

module _ {B : Type 0} (envs : ℕ → PairEnv B) where
  pub goroutines-AllDiffer :
      (n : ℕ) (js : List Job) → AreDifferent js → AllDiffer (goroutines envs n js)
  goroutines-AllDiffer n [] h = tt
  goroutines-AllDiffer n (j ∷ js) (h, k) =
      (all_differ (suc n) js h, goroutines-AllDiffer (suc n) js k)
    where
      all_differ :
          (m : ℕ) (ks : List Job)
          → All (JobsDiffer j) ks
          → All (Differ (record { job = j; env = envs n })) (goroutines envs m ks)
      all_differ m [] h = tt
      all_differ m (k ∷ ks) h = (h.0, all_differ (suc m) ks h.1)

  pub goroutines-All :
      (P : Goroutine B → Type 0) (n : ℕ) (js : List Job)
      → ((m : ℕ) → All (λ j. P (record { job = j; env = envs m })) js)
      → All P (goroutines envs n js)
  goroutines-All P n [] h = tt
  goroutines-All P n (j ∷ js) h = ((h n).0, goroutines-All P (suc n) js (λ m. (h m).1))

  pub goroutines-HasJob : (n : ℕ) (js : List Job) → All (HasJob (goroutines envs n js)) js
  goroutines-HasJob n [] = tt
  goroutines-HasJob n (j ∷ js) = (
    (zero, record { job = j; env = envs n }, refl, refl),
    All-imp (HasJob (goroutines envs (suc n) js)) (HasJob (goroutines envs n (j ∷ js))) js
        (λ k h. let (i, g, at, same) = h in (suc i, g, at, same)) (goroutines-HasJob (suc n) js),
  )

-- Both halves of what holds of a list that is appended.
All-halves : (P : Job → Type 0) (js ks : List Job) → All P (js ++ ks) → All P js × All P ks
All-halves P [] ks h = (tt, h)
All-halves P (j ∷ js) ks h = let (l, r) = All-halves P js ks h.1 in ((h.0, l), r)

module _ {B : Type 0} (json : Codec CandleFile B) (base : Text) (disk : Disk B) where
  -- The file of a pair names it, or nothing.
  abbrev pub NamesPair : Job → Type 0
  NamesPair j =
      let cf = (load_file json true (pair_path base j.file_symbol j.interval) disk).0 in
      (or_default cf.symbol j.wire ≡ j.wire) × (or_default cf.interval j.interval ≡ j.interval)

  module _ (envs : ℕ → PairEnv B) (readable : (n : ℕ) → (envs n).readable ≡ true) where
    map_job-IsUsual :
        (m : ℕ) (y : Text) (is : List Text)
        → IsFiled y
        → All IsInterval is
        → All NamesPair (map (job y) is)
        → All (λ j. IsUsual json base disk (record { job = j; env = envs m })) (map (job y) is)
    map_job-IsUsual m y [] filed h names = tt
    map_job-IsUsual m y (i ∷ is) filed (h, hs) (name, names) = (
      record {
        plain = record {
          wire = refl;
          one_part = filed.one_part;
          named = filed.named;
          whole = filed.whole;
          interval = h.name;
          plain = h.plain;
        };
        trimmed = h.trimmed;
        readable = readable m;
        symbol = name.0;
        interval = name.1;
      },
      map_job-IsUsual m y is filed hs names,
    )

    pub jobs_of-IsUsual :
        (m : ℕ) (ys is : List Text)
        → All IsFiled ys
        → All IsInterval is
        → All NamesPair (jobs_of ys is)
        → All (λ j. IsUsual json base disk (record { job = j; env = envs m })) (jobs_of ys is)
    unfolding jobs_of
    jobs_of-IsUsual m [] is filed h names = tt
    jobs_of-IsUsual m (y ∷ ys) is filed h names =
        let (first, later) = All-halves NamesPair (map (job y) is) (jobs_of ys is) names in
        All-append (λ j. IsUsual json base disk (record { job = j; env = envs m })) (map (job y) is)
          (jobs_of ys is) (map_job-IsUsual m y is filed.0 h first)
          (jobs_of-IsUsual m ys is filed.1 h later)

  module _ (limit : ℤ) (has_db : Bool) (gs : List (Goroutine B)) where
    load_intervals-Covers :
        (file_of : Text → CandleFile) (y : Text) (is : List Text) (s : Store)
        → All (HasJob gs) (map (job y) is)
        → Covers json base gs s
        → Covers json base gs (load_intervals file_of (to_mexc y) is s)
    unfolding load_intervals
    load_intervals-Covers file_of y [] s has h = h
    load_intervals-Covers file_of y (i ∷ is) s ((k, g, at, same), has) h =
        load_intervals-Covers file_of y is _ has (
          subst (λ (j : Job). Covers json base gs (load s j.wire j.interval (file_of i))) same
            (load-Covers json base limit has_db gs k g s (file_of i) at h))

    pub load_symbols-Covers :
        (file_of : Text → Text → CandleFile) (ys is : List Text) (s : Store)
        → All (HasJob gs) (jobs_of ys is)
        → Covers json base gs s
        → Covers json base gs (load_symbols file_of ys is s)
    unfolding load_symbols jobs_of
    load_symbols-Covers file_of [] is s has h = h
    load_symbols-Covers file_of (y ∷ ys) is s has h =
        let (first, later) = All-halves (HasJob gs) (map (job y) is) (jobs_of ys is) has in
        load_symbols-Covers file_of ys is _ later (load_intervals-Covers (file_of y) y is s first h)
