-- ===== src/Kline/Db/Opening.antt =====
-- New, Migrate and Close of kline/internal/db/timescale.go. Each statement of the migration succeeds
-- or fails; the SQL texts are not modelled.
use fidorix.Base.{
  ◌≡◌, ◌≢◌, ◌⊎◌, Bool, true, false, Option, none, some, List, [], ◌∷◌, if◌then◌else◌, arith,
}

pub data Statement : Type 0 where
  klines_table : Statement
  hypertable : Statement
  klines_index : Statement

pub data MigrateError : Type 0 where
  not_initialized : MigrateError
  statement_error : Statement → MigrateError

pub data OpenError : Type 0 where
  parse_error : OpenError
  connect_error : OpenError
  migrate_error : MigrateError → OpenError

-- The statements that were executed, and the first that failed.
abbrev pub execute : (Statement → Bool) → List Statement → List Statement × Option MigrateError
execute succeeds [] = ([], none)
execute succeeds (s ∷ statements) =
    let rest = execute succeeds statements in
    if succeeds s then (s ∷ rest.0, rest.1) else ([], some (statement_error s))

unfoldable pub migrate : Bool → (Statement → Bool) → List Statement × Option MigrateError
migrate ready succeeds =
    if ready
    then execute succeeds (klines_table ∷ hypertable ∷ klines_index ∷ [])
    else ([], some not_initialized)

-- Whether the pool is open behind New, the statements that were executed, and the error.
pub record Opened : Type 0 where
  pub pool_open : Bool
  pub executed : List Statement
  pub error : Option OpenError

abbrev pub migrated : List Statement × Option MigrateError → Opened
migrated (statements, none) = record { pool_open = true; executed = statements; error = none }
migrated (statements, some e) = record {
  pool_open = false;
  executed = statements;
  error = some (migrate_error e);
}

unfoldable pub new_db : Bool → Bool → (Statement → Bool) → Opened
unfolding migrate
new_db parses connects succeeds =
    if parses
    then (if connects
        then migrated (migrate true succeeds)
        else record { pool_open = false; executed = []; error = some connect_error })
    else record { pool_open = false; executed = []; error = some parse_error }

-- Close of a database that is not there does nothing.
unfoldable pub close : Bool → Opened → Opened
close ready d = if ready then record d { pool_open = false } else d

-- New gives a pool only behind the whole migration, and leaves none open where it fails.
pub new_db_result :
    (parses connects : Bool) (succeeds : Statement → Bool)
    → (((new_db parses connects succeeds).error ≡ none)
        × ((new_db parses connects succeeds).pool_open ≡ true)
        × ((new_db parses connects succeeds).executed
            ≡ klines_table ∷ hypertable ∷ klines_index ∷ []))
      ⊎ (((new_db parses connects succeeds).error ≢ none)
          × ((new_db parses connects succeeds).pool_open ≡ false))
unfolding new_db migrate
new_db_result parses connects succeeds = ground arith
