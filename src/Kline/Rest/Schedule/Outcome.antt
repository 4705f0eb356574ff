-- ===== src/Kline/Rest/Schedule/Outcome.antt =====
-- What the goroutines of Bootstrap return and leave, whatever the schedule.
use fidorix.Base.{
  ℕ, suc, ◌-◌, ◌≤◌, ◌≡◌, ◌≢◌, refl, sym, ap, ◌∙◌, subst, inl, inr, ◌⊎◌, Bool, false, some, List, [],
  ◌∷◌, All, get_elem?, ℤ, Text, Codec, is_empty, Lacks, remove_all_of_Lacks, tmp_path, IsName, ok,
  arith,
}
use fidorix.Kline.Symbol.{to_mexc, to_file}
use fidorix.Kline.Symbol.Wire.{to_mexc_inj}
use fidorix.Kline.Store.{CandleFile}
use fidorix.Kline.Store.Keys.{key_for_inj}
use fidorix.Kline.Files.{located}
use fidorix.Kline.Files.Paths.{file_symbol_of, located_apart}
use fidorix.Kline.Rest.Bootstrap.{pair_path, Pairing, bootstrap_pair}
use fidorix.Kline.Rest.Schedule.{
  Goroutine, entered, returned, key, path, alone, all_entered, run_schedule,
}
use fidorix.Kline.Rest.Schedule.Alone.{alone-bootstrap_pair}
use fidorix.Kline.Rest.Schedule.Isolated.{
  turns_of, Agree, StandsAs, IsApart, AreApart, run_schedule-StandsAs,
}

-- The symbol has a file name without a slash and no underscore, and the interval is a name without
-- a colon.
pub record IsPlain {B : Type 0} (g : Goroutine B) : Type 0 where
  pub wire : g.job.wire ≡ to_mexc g.job.file_symbol
  pub one_part : Lacks b'_' g.job.file_symbol
  pub named : is_empty (to_file g.job.file_symbol) ≡ false
  pub whole : Lacks b'/' (to_file g.job.file_symbol)
  pub interval : IsName g.job.interval
  pub plain : Lacks b':' g.job.interval

abbrev pub Differ : {B : Type 0} → Goroutine B → Goroutine B → Type 0
Differ g h =
    (to_file g.job.file_symbol ≢ to_file h.job.file_symbol) ⊎ (g.job.interval ≢ h.job.interval)

abbrev pub AllDiffer : {B : Type 0} → List (Goroutine B) → Type 0
AllDiffer [] = Unit
AllDiffer (g ∷ gs) = All (Differ g) gs × AllDiffer gs

-- It has the same file name in the flush and in the bootstrap.
file_symbol_of-IsPlain :
    {B : Type 0} (g : Goroutine B)
    → IsPlain g
    → file_symbol_of g.job.file_symbol ≡ to_file g.job.file_symbol
file_symbol_of-IsPlain g x = ap to_file (remove_all_of_Lacks b'_' g.job.file_symbol x.one_part)

Differ-symm : {B : Type 0} (g h : Goroutine B) → Differ g h → Differ h g
Differ-symm g h (inl n) = inl λ e. n (sym e)
Differ-symm g h (inr n) = inr λ e. n (sym e)

module _ {B : Type 0} (base : Text) where
  located-path :
      (g : Goroutine B)
      → IsPlain g
      → located base (g.job.file_symbol, g.job.interval) ≡ ok (path base g)
  unfolding pair_path
  located-path g x = rw (remove_all_of_Lacks b'_' g.job.file_symbol x.one_part, x.named)

  module _ (filled : is_empty base ≡ false) where
    paths_apart :
        (g h : Goroutine B)
        → IsPlain g
        → IsPlain h
        → Differ g h
        → (path base g ≢ path base h) × (path base g ≢ tmp_path (path base h))
    paths_apart g h x y d =
        located_apart base g.job.file_symbol h.job.file_symbol g.job.interval h.job.interval _ _
          filled x.interval y.interval (whole g x) (whole h y) (located-path g x) (located-path h y)
          (names d)
      where
        whole : (k : Goroutine B) → IsPlain k → Lacks b'/' (file_symbol_of k.job.file_symbol)
        whole k z = subst (Lacks b'/') (sym (file_symbol_of-IsPlain k z)) z.whole

        names :
            Differ g h
            → (file_symbol_of g.job.file_symbol ≢ file_symbol_of h.job.file_symbol)
              ⊎ (g.job.interval ≢ h.job.interval)
        names (inr n) = inr n
        names (inl n) =
            inl λ e. n (sym (file_symbol_of-IsPlain g x) ∙ e ∙ file_symbol_of-IsPlain h y)

    keys_apart : (g h : Goroutine B) → IsPlain g → IsPlain h → Differ g h → key g ≢ key h
    keys_apart g h x y d e =
        clash d (key_for_inj g.job.wire h.job.wire g.job.interval h.job.interval x.plain y.plain e)
      where
        clash : Differ g h → (g.job.wire ≡ h.job.wire) × (g.job.interval ≡ h.job.interval) → ⊥
        clash (inr n) q = n q.1
        clash (inl n) q = n (
            to_mexc_inj g.job.file_symbol h.job.file_symbol x.one_part y.one_part
              (sym x.wire ∙ q.0 ∙ y.wire))

    pub IsApart-of_plain :
        (g h : Goroutine B) → IsPlain g → IsPlain h → Differ g h → IsApart base g h
    IsApart-of_plain g h x y d =
        let back = paths_apart h g y x (Differ-symm g h d) in
        (keys_apart g h x y d, back.0, back.1, (paths_apart g h x y d).1)

    All-IsApart :
        (g : Goroutine B) (gs : List (Goroutine B))
        → IsPlain g
        → All IsPlain gs
        → All (Differ g) gs
        → All (IsApart base g) gs
    All-IsApart g [] x ys ds = tt
    All-IsApart g (h ∷ gs) x ys ds =
        (IsApart-of_plain g h x ys.0 ds.0, All-IsApart g gs x ys.1 ds.1)

    pub AreApart-of_plain :
        (gs : List (Goroutine B)) → All IsPlain gs → AllDiffer gs → AreApart base gs
    AreApart-of_plain [] xs ds = tt
    AreApart-of_plain (g ∷ gs) xs ds =
        (All-IsApart g gs xs.0 xs.1 ds.0, AreApart-of_plain gs xs.1 ds.1)

-- Whatever the schedule, a goroutine that has had five turns has returned what bootstrapPair returns
-- with nothing beside it, and the entry and the file of its pair are those that bootstrapPair
-- leaves; this holds if the base is not empty, every symbol has a file name without a slash and no
-- underscore, every interval is a name without a colon, and no two goroutines have one file name
-- and one interval.
pub run_schedule-bootstrap_pair :
    {B : Type 0} (json : Codec CandleFile B) (limit : ℤ) (has_db : Bool) (base : Text)
    (gs : List (Goroutine B)) (turns : List ℕ) (p : Pairing B) (k : ℕ) (g : Goroutine B)
    → is_empty base ≡ false
    → All IsPlain gs
    → AllDiffer gs
    → get_elem? gs k ≡ some g
    → 5 ≤ turns_of k turns
    → ((run_schedule json limit has_db base gs turns (all_entered p)).places k
        ≡ returned
            (bootstrap_pair json g.env limit has_db base g.job.file_symbol g.job.wire g.job.interval
              p).1)
      × Agree base g
          (run_schedule json limit has_db base gs turns (all_entered p)).shared
          (bootstrap_pair json g.env limit has_db base g.job.file_symbol g.job.wire g.job.interval
            p).0
run_schedule-bootstrap_pair json limit has_db base gs turns p k g filled plain differ at enough =
    let s = run_schedule json limit has_db base gs turns (all_entered p) in
    let stands =
      run_schedule-StandsAs base json limit has_db gs
        (AreApart-of_plain base filled gs plain differ) k g at turns (all_entered p) entered p
        ((refl, refl), refl) in
    let five : turns_of k turns ≡ suc (suc (suc (suc (suc (turns_of k turns - 5))))) =
      omega arith in
    let alone_is =
      ap (λ n. alone json limit has_db base g n entered p) five
      ∙ alone-bootstrap_pair json limit has_db base g (turns_of k turns - 5) p in
    let done = subst (StandsAs base k g s) alone_is stands in (done.1, done.0)
