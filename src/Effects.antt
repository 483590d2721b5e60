-- ===== src/Effects.antt =====
-- What the query layer does to the outside: a sequence of events, oldest first. The packages
-- database/sql and time and the MySQL server are the parameter `Env`, whose answers may depend on
-- all that happened before; `slice_fits` says for how many places the runtime can make a slice of maps.
use xlorm.Common.{ℕ, List, [], ◌∷◌, ◌++◌, Bool, Option, ℤ}
use xlorm.Text.{Text}
use xlorm.Value.{Value}

-- The entries that the code logs as errors or warnings, without their fixed texts. Entries that are
-- written only in debug mode are left out.
pub data LogEntry : Type 0 where
  arg_count : Text → ℕ → LogEntry
  injection : Text → LogEntry
  bad_order : Text → LogEntry
  bad_field : Text → LogEntry
  empty_table : LogEntry
  negative_limit : ℤ → LogEntry
  negative_offset : ℤ → LogEntry
  unsupported_query : Text → LogEntry
  no_condition : LogEntry
  query_failed : Text → List Value → LogEntry
  slow_query : Text → List Value → LogEntry
  slow_find : Text → List Value → ℕ → LogEntry
  batch_failed : ℕ → ℕ → LogEntry
  rollback_failed : LogEntry
  panic_rollback : LogEntry
  cache_set_failed : LogEntry
  cache_delete_failed : LogEntry

-- The calls of asyncDBMetrics.
pub data Metric : Type 0 where
  query_duration : Text → ℤ → Metric
  affected_rows : ℤ → Metric
  error : Metric
  slow : Metric

pub data Event : Type 0 where
  query : Text → List Value → Event
  query_row : Text → List Value → Event
  prepare : Text → Event
  exec : Text → List Value → Event
  tx_begin : Event
  tx_exec : Text → List Value → Event
  tx_commit : Event
  tx_rollback : Event
  metric : Metric → Event
  log : LogEntry → Event

abbrev pub Trace : Type 0
Trace = List Event

-- One more event.
infixl 60 ◌▷◌
abbrev pub ◌▷◌ : Trace → Event → Trace
tr ▷ e = tr ++ e ∷ []

-- A `*sql.Rows`: the names of the columns (`none`: `Columns` fails), the rows that `Next` offers (`none`:
-- `Scan` fails), and whether `Err` is nil at the end.
pub record RowsResult : Type 0 where
  pub columns : Option (List Text)
  pub rows : List (Option (List Value))
  pub err_nil : Bool

-- A `sql.Result`; `none` stands for the error of the method.
pub record ExecResult : Type 0 where
  pub last_insert_id : Option ℤ
  pub rows_affected : Option ℤ

pub record Env : Type 0 where
  pub run_query : Trace → Text → List Value → Option RowsResult
  pub run_query_row : Trace → Text → List Value → Option ℤ
  pub run_exec : Trace → Text → List Value → Option ExecResult
  pub begin_ok : Trace → Bool
  pub commit_ok : Trace → Bool
  pub rollback_ok : Trace → Bool
  pub elapsed : Trace → ℕ
  pub slice_fits : ℕ → Bool
