-- ===== src/Kline/Ws/Manager/Running.antt =====
-- Run and Close of kline/internal/ws/manager.go: every connection runs its own loop, its ping loop
-- and Close come between any two of its steps. The steps of a loop are those of conn.go as far as
-- its sockets go.
use fidorix.Base.{
  ℕ, ◌+◌, ◌≡◌, refl, sym, ap, ◌∙◌, subst, Bool, true, false, if◌then◌else◌, List, [], ◌∷◌, ◌++◌,
  arith, All, All-imp,
}
use fidorix.Kline.Ws.Manager.{Shard}

-- Where the loop of Run is: at its head; between the dial and `c.conn = conn`; behind connect, where
-- it subscribes and reads; before its Close; in waitBackoff; returned.
pub data Stage : Type 0 where
  heading : Stage
  dialled : Stage
  serving : Stage
  ending : Bool → Stage
  waiting : Stage
  finished : Stage

-- `stored` says that `conn` is not nil.
pub record Link : Type 0 where
  pub stage : Stage
  pub stored : Bool
  pub opened : ℕ
  pub closed : ℕ

abbrev pub new_link : Link
new_link = record { stage = heading; stored = false; opened = 0; closed = 0 }

unfoldable pub close_link : Link → Link
close_link l = if l.stored then record l { stored = false; closed = l.closed + 1 } else l

-- Behind the loop's own Close it waits, or returns where readLoop gave no error.
abbrev pub behind_ending : Bool → Stage
behind_ending true = waiting
behind_ending false = finished

pub data LinkStep (l : Link) : Link → Type 0 where
  -- The context has ended.
  stops : l.stage ≡ heading → LinkStep l (record (close_link l) { stage = finished })
  dials : l.stage ≡ heading → LinkStep l (record l { stage = dialled; opened = l.opened + 1 })
  dial_fails : l.stage ≡ heading → LinkStep l (record l { stage = waiting })
  stores : l.stage ≡ dialled → LinkStep l (record l { stage = serving; stored = true })
  -- A subscription or a read has failed, or readLoop has seen the end of the context.
  ends : (failed : Bool) → l.stage ≡ serving → LinkStep l (record l { stage = ending failed })
  leaves :
      (failed : Bool)
      → l.stage ≡ ending failed
      → LinkStep l (record (close_link l) { stage = behind_ending failed })
  waits : l.stage ≡ waiting → LinkStep l (record l { stage = heading })
  gives_up : l.stage ≡ waiting → LinkStep l (record l { stage = finished })
  -- Close of the manager, or of the ping loop.
  closes : LinkStep l (close_link l)

pub data Step (ls : List Link) : List Link → Type 0 where
  moves :
      (before after : List Link) (l m : Link)
      → ls ≡ before ++ l ∷ after
      → LinkStep l m
      → Step ls (before ++ m ∷ after)

pub data Run (ls : List Link) : List Link → Type 0 where
  here : Run ls ls
  next : {ms ns : List Link} → Run ls ms → Step ms ns → Run ls ns

abbrev pub new_links : List Shard → List Link
new_links [] = []
new_links (shard ∷ shards) = new_link ∷ new_links shards

unfoldable pub close_all : List Link → List Link
close_all [] = []
close_all (l ∷ ls) = close_link l ∷ close_all ls

-- Sockets that are dialled and not stored yet.
abbrev pub held : Stage → ℕ
held dialled = 1
held _ = 0

abbrev one_if : Bool → ℕ
one_if true = 1
one_if false = 0

abbrev keeps : Stage → Bool
keeps serving = true
keeps (ending failed) = true
keeps _ = false

-- Every socket that was opened was closed once, is in `conn`, or is dialled and not stored; and
-- `conn` is nil where the loop is not behind connect.
record IsCounted (l : Link) : Type 0 where
  counted : l.opened ≡ l.closed + (one_if l.stored + held l.stage)
  idle : keeps l.stage ≡ false → l.stored ≡ false

stage_idle : (l : Link) (s : Stage) → IsCounted l → l.stage ≡ s → keeps s ≡ false → l.stored ≡ false
stage_idle l s h at quiet = h.idle (ap keeps at ∙ quiet)

stage_counted :
    (l : Link) (s : Stage)
    → IsCounted l
    → l.stage ≡ s
    → l.opened ≡ l.closed + (one_if l.stored + held s)
stage_counted l s h at = h.counted ∙ ap (λ x. l.closed + (one_if l.stored + held x)) at

close_link_stored : (l : Link) → (close_link l).stored ≡ false
unfolding close_link
close_link_stored l = ground arith

close_link_stage : (l : Link) → (close_link l).stage ≡ l.stage
unfolding close_link
close_link_stage l = ground arith

close_link_counted :
    (l : Link) (n : ℕ)
    → l.opened ≡ l.closed + (one_if l.stored + n)
    → (close_link l).opened ≡ (close_link l).closed + (one_if (close_link l).stored + n)
unfolding close_link
close_link_counted l n h = ground (arith, h)

LinkStep-IsCounted : (l m : Link) → LinkStep l m → IsCounted l → IsCounted m
LinkStep-IsCounted l _ (stops at) h = record {
  counted = close_link_counted l 0 (stage_counted l heading h at);
  idle = λ q. close_link_stored l;
}
LinkStep-IsCounted l _ (dials at) h =
    let off = stage_idle l heading h at refl in
    let n = stage_counted l heading h at in
    record { counted = ground (arith, off, n); idle = λ q. off }
LinkStep-IsCounted l _ (dial_fails at) h =
    let n = stage_counted l heading h at in
    record { counted = n; idle = λ q. stage_idle l heading h at refl }
LinkStep-IsCounted l _ (stores at) h =
    let off = stage_idle l dialled h at refl in
    let n = stage_counted l dialled h at in
    record { counted = ground (arith, off, n); idle = λ q. cc }
LinkStep-IsCounted l _ (ends failed at) h =
    let n = stage_counted l serving h at in record { counted = n; idle = λ q. cc }
LinkStep-IsCounted l _ (leaves true at) h = record {
  counted = close_link_counted l 0 (stage_counted l (ending true) h at);
  idle = λ q. close_link_stored l;
}
LinkStep-IsCounted l _ (leaves false at) h = record {
  counted = close_link_counted l 0 (stage_counted l (ending false) h at);
  idle = λ q. close_link_stored l;
}
LinkStep-IsCounted l _ (waits at) h =
    let n = stage_counted l waiting h at in
    record { counted = n; idle = λ q. stage_idle l waiting h at refl }
LinkStep-IsCounted l _ (gives_up at) h =
    let n = stage_counted l waiting h at in
    record { counted = n; idle = λ q. stage_idle l waiting h at refl }
LinkStep-IsCounted l _ closes h = record {
  counted =
      subst
        (λ t.
          (close_link l).opened ≡ (close_link l).closed + (one_if (close_link l).stored + held t))
        (sym (close_link_stage l)) (close_link_counted l (held l.stage) h.counted);
  idle = λ q. close_link_stored l;
}

All-at :
    (P : Link → Type 0) (before after : List Link) (l m : Link)
    → (P l → P m)
    → All P (before ++ l ∷ after)
    → All P (before ++ m ∷ after)
All-at P [] after l m f h = (f h.0, h.1)
All-at P (x ∷ before) after l m f h = (h.0, All-at P before after l m f h.1)

Run-AreCounted : {ls ms : List Link} → Run ls ms → All IsCounted ls → All IsCounted ms
Run-AreCounted here h = h
Run-AreCounted (next {ms} r (moves before after l m at st)) h =
    All-at IsCounted before after l m (LinkStep-IsCounted l m st)
      (subst (All IsCounted) at (Run-AreCounted r h))

new_links-AreCounted : (shards : List Shard) → All IsCounted (new_links shards)
new_links-AreCounted [] = tt
new_links-AreCounted (shard ∷ shards) =
    (record { counted = refl; idle = λ q. refl }, new_links-AreCounted shards)

-- The connection is nil, and each socket that was opened was closed once, but for one that is dialled
-- and not stored.
pub record IsShut (l : Link) : Type 0 where
  pub apart : l.stored ≡ false
  pub counted : l.opened ≡ l.closed + held l.stage

close_link-IsShut : (l : Link) → IsCounted l → IsShut (close_link l)
close_link-IsShut l h =
    let n = close_link_counted l (held l.stage) h.counted in
    record {
      apart = close_link_stored l;
      counted = rw (close_link_stage l) (ground (arith, n, close_link_stored l));
    }

close_all-AreShut : (ls : List Link) → All IsCounted ls → All IsShut (close_all ls)
unfolding close_all
close_all-AreShut [] h = tt
close_all-AreShut (l ∷ ls) h = (close_link-IsShut l h.0, close_all-AreShut ls h.1)

finished_even : (l : Link) → IsCounted l → l.stage ≡ finished → l.opened ≡ l.closed
finished_even l h at =
    let off = stage_idle l finished h at refl in
    let n = stage_counted l finished h at in ground (arith, off, n)

-- In whatever order the loops, their ping loops and Close move: behind Close, with nothing between
-- its connections, no connection of the manager is stored, and each socket that was opened was
-- closed once, but for one of a loop that is between its dial and the store of its connection,
-- which Close does not find; and a loop that has returned has closed each of its sockets once.
pub close_all-Run :
    (shards : List Shard) (ls : List Link)
    → Run (new_links shards) ls
    → All IsShut (close_all ls) × All (λ l. l.stage ≡ finished → l.opened ≡ l.closed) ls
close_all-Run shards ls r =
    let h = Run-AreCounted r (new_links-AreCounted shards) in
    (
      close_all-AreShut ls h,
      All-imp IsCounted (λ l. l.stage ≡ finished → l.opened ≡ l.closed) ls finished_even h,
    )
