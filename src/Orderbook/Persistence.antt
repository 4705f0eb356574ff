-- ===== src/Orderbook/Persistence.antt =====
-- orderbook/internal/persistence/writer.go: the writer of snapshots to one file. Its goroutines move
-- in steps, one system call or atomic operation each, in any order. The type of the snapshots and
-- their encoder, with the line end behind, are arguments.
pub mod Exclusive
pub mod Opening
pub mod Tests
use fidorix.Base.{
  ◌≡◌, Bool, true, false, Option, none, some, List, [], ◌∷◌, ◌++◌, Text, Disk, put, tmp_path,
}

-- Where a call is behind its CompareAndSwap: before the write of the temporary file, before its
-- rename, before the removal behind a rename that failed, or before it stores false.
pub data Stage (S B : Type 0) : Type 0 where
  entered : S → B → Stage S B
  written : S → B → Stage S B
  stuck : Stage S B
  leaving : Stage S B

-- `live` are the calls that have swapped the flag.
pub record Writer (S B : Type 0) : Type 0 where
  pub in_progress : Bool
  pub disk : Disk B
  pub live : List (Stage S B)

pub data Step {S B : Type 0} (encode : S → Option B) (path : Text) (w : Writer S B)
    : Writer S B → Type 0 where
  -- CompareAndSwap(false, true) succeeds, in either of the two methods.
  enter :
      (s : S) (content : B)
      → w.in_progress ≡ false
      → encode s ≡ some content
      → Step encode path w (record w { in_progress = true; live = entered s content ∷ w.live })
  -- The same, and the encoder fails.
  enter_unencoded :
      (s : S)
      → w.in_progress ≡ false
      → encode s ≡ none
      → Step encode path w (record w { in_progress = true; live = leaving ∷ w.live })
  -- It fails: WriteSnapshot returns, and WriteSnapshotBlocking waits, or gives up.
  refuse : w.in_progress ≡ true → Step encode path w w
  write :
      (s : S) (content : B) (before after : List (Stage S B))
      → w.live ≡ before ++ entered s content ∷ after
      → Step encode path w (record w {
        disk = put (tmp_path path) (some content) w.disk;
        live = before ++ written s content ∷ after;
      })
  -- A write that fails leaves any content, or none.
  write_fails :
      (s : S) (content : B) (left : Option B) (before after : List (Stage S B))
      → w.live ≡ before ++ entered s content ∷ after
      → Step encode path w
          (record w { disk = put (tmp_path path) left w.disk; live = before ++ leaving ∷ after })
  -- The rename takes what the temporary file has by then.
  rename :
      (s : S) (content : B) (before after : List (Stage S B))
      → w.live ≡ before ++ written s content ∷ after
      → Step encode path w (record w {
        disk = put (tmp_path path) none (put path (w.disk (tmp_path path)) w.disk);
        live = before ++ leaving ∷ after;
      })
  rename_fails :
      (s : S) (content : B) (before after : List (Stage S B))
      → w.live ≡ before ++ written s content ∷ after
      → Step encode path w (record w { live = before ++ stuck ∷ after })
  remove :
      (before after : List (Stage S B))
      → w.live ≡ before ++ stuck ∷ after
      → Step encode path w
          (record w { disk = put (tmp_path path) none w.disk; live = before ++ leaving ∷ after })
  remove_fails :
      (before after : List (Stage S B))
      → w.live ≡ before ++ stuck ∷ after
      → Step encode path w (record w { live = before ++ leaving ∷ after })
  leave :
      (before after : List (Stage S B))
      → w.live ≡ before ++ leaving ∷ after
      → Step encode path w (record w { in_progress = false; live = before ++ after })

pub data Run {S B : Type 0} (encode : S → Option B) (path : Text) (w : Writer S B)
    : Writer S B → Type 0 where
  here : Run encode path w w
  next : {v x : Writer S B} → Run encode path w v → Step encode path v x → Run encode path w x

abbrev pub new_writer : {S B : Type 0} → Disk B → Writer S B
new_writer disk = record { in_progress = false; disk = disk; live = [] }
