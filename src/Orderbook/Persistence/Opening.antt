-- ===== src/Orderbook/Persistence/Opening.antt =====
-- NewWriter of orderbook/internal/persistence/writer.go, and how WriteSnapshot returns.
use fidorix.Base.{Bool, if◌then◌else◌, Text, is_empty, dir_path, Result, ok, err}

pub data OpenError : Type 0 where
  no_path : OpenError
  directory_error : Text → OpenError

-- The output path of the new writer, whose flag is false. `makes` says which directories are made.
unfoldable pub open_writer : (Text → Bool) → Text → Result OpenError Text
open_writer makes output_path =
    if is_empty output_path
    then err no_path
    else if makes (dir_path output_path)
    then ok output_path
    else err (directory_error (dir_path output_path))

-- With an error, skipped, or with a goroutine that writes.
pub data Started : Type 0 where
  cancelled : Started
  skipped : Started
  started : Started

unfoldable pub write_snapshot : Bool → Bool → Started
write_snapshot context_done in_progress =
    if context_done then cancelled else if in_progress then skipped else started
