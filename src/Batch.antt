-- ===== src/Batch.antt =====
-- batch.go: the insert and the update of many records in one transaction. A batch size of 0 means 1000; a
-- size below 0 makes the slice of the first batch panic.
pub mod Update
pub mod Answered
pub mod Sent
pub mod Settled
pub mod Ends
pub mod Arguments
pub mod Repeats
pub mod Rounds
mod Tests
use xlorm.Common.{
  ℕ, zero, suc, ◌+◌, ◌&&◌, List, [], ◌∷◌, ◌++◌, Bool, true, false, not, ◌==◌, if◌then◌else◌,
  is_empty, length, take, drop, replicate, map, Option, none, some, ℤ, pos, negsuc, ◌+ℤ◌, wrap64,
}
use xlorm.Text.{Text, codes, eq_text, join, concat}
use xlorm.Runes.{Unicode}
use xlorm.Ident.{escape_sql_identifier}
use xlorm.Value.{Value}
use xlorm.Row.{Row, keys, lookup, value_at}
use xlorm.Placeholders.{placeholder_text}
use xlorm.Table.Change.{rows_or_zero}
use xlorm.Effects.{
  Env, ExecResult, Trace, ◌▷◌, tx_exec, metric, query_duration, affected_rows, error, log,
  batch_failed,
}
use xlorm.Transaction.{begin, commit, rollback}

pub data BatchError : Type 0 where
  no_data : BatchError
  fields_differ : ℕ → ℕ → BatchError
  count_differs : BatchError
  no_update_fields : BatchError
  missing_key : BatchError
  missing_field : Text → BatchError
  batch_exec_failed : BatchError
  rows_failed : BatchError

-- What is done between the begin and the end of a transaction: a number of rows, or an error behind a
-- number of rows, or a panic.
pub data Body : Type 0 where
  sent_all : ℤ → Body
  stops : ℤ → BatchError → Body
  panics : Body

-- What the caller gets.
pub data BatchResult : Type 0 where
  stored : ℤ → BatchResult
  no_key_field : BatchResult
  batch_begin_failed : BatchResult
  stopped : ℤ → BatchError → BatchResult
  batch_commit_failed : ℤ → BatchResult
  batch_panics : BatchResult

-- `batchSize`, where `none` is a size below 0.
unfoldable pub batch_size : ℤ → Option ℕ
batch_size (pos zero) = some 1000
batch_size (pos (suc n)) = some (suc n)
batch_size (negsuc n) = none

-- The first record with another number of fields.
unfoldable pub differing : ℕ → List Row → Option BatchError
differing n [] = none
differing n (item ∷ items) =
    if not (length item == n) then some (fields_differ n (length item)) else differing n items

-- `extractBatchFields`
unfoldable pub extract_batch_fields : Unicode → List Row → Option BatchError × List Text
unfolding differing
extract_batch_fields u [] = (some no_data, [])
extract_batch_fields u (first ∷ items) =
    (differing (length first) items, map (escape_sql_identifier u) (keys first))

-- `strings.Trim(field, "`")`
unfoldable pub trim_left : Text → Text
trim_left [] = []
trim_left (c ∷ s) = if c == b'`' then trim_left s else c ∷ s

unfoldable pub trim_right : Text → Text
trim_right [] = []
trim_right (c ∷ s) = let rest = trim_right s in if c == b'`' && is_empty rest then [] else c ∷ rest

unfoldable pub trim_quotes : Text → Text
unfolding trim_left trim_right
trim_quotes s = trim_right (trim_left s)

-- The values of a record, in the order of the fields.
unfoldable pub item_args : List Text → Row → List Value
unfolding trim_quotes
item_args [] item = []
item_args (field ∷ fields) item = value_at (trim_quotes field) item ∷ item_args fields item

unfoldable pub batch_args : List Text → List Row → List Value
unfolding item_args
batch_args fields [] = []
batch_args fields (item ∷ items) = item_args fields item ++ batch_args fields items

-- The statement of a batch of `n` records.
unfoldable pub batch_text : Text → List Text → ℕ → Text
batch_text table_name fields n = concat (
    codes "INSERT INTO "
    ∷ table_name
    ∷ codes " ("
    ∷ join fields (codes ", ")
    ∷ codes ") VALUES "
    ∷ join (replicate n (placeholder_text (length fields))) (codes ",")
    ∷ [])

-- `len(batchData[0])`
abbrev pub first_length : List Row → ℕ
first_length [] = 0
first_length (item ∷ items) = length item

-- The deferred function: a rollback on every error and on a panic.
unfoldable pub undo : Env → BatchResult → Trace → Trace × BatchResult
undo env result past = ((rollback env past).0, result)

-- What comes behind the batches: the commit and its metrics, or the rollback.
unfoldable pub settle : Env → Text → Trace → Body → Trace × BatchResult
unfolding undo
settle env name past (stops total e) = undo env (stopped total e) past
settle env name past panics = undo env batch_panics past
settle env name past (sent_all total) =
    let (after, ok) = commit env past in
    let undone = undo env (batch_commit_failed total) after in
    if ok
    then (
      after ▷ metric (query_duration name (pos (env.elapsed after))) ▷ metric (affected_rows total),
      stored total,
    )
    else undone

-- One transaction round the batches.
unfoldable pub in_transaction : Env → Text → (Trace → Trace × Body) → Trace → Trace × BatchResult
unfolding settle
in_transaction env name body past =
    let (begun, ok) = begin env past in
    let (done, answer) = body begun in
    let settled = settle env name done answer in if ok then settled else (begun, batch_begin_failed)

-- The batches of a given size; the slice of a size below 0 panics.
unfoldable pub in_size : ℤ → (ℕ → Trace → Trace × Body) → Trace → Trace × Body
unfolding batch_size
in_size size body past = elim (batch_size size) [ none ↦ (past, panics) | some n ↦ body n past ]

module _ (env : Env) (table_name : Text) where
  -- The loop over the batches: the records left, their place, the arguments so far, and the rows so
  -- far. A round takes a record at least, so as many rounds as records are enough.
  unfoldable pub insert_batches :
      ℕ → ℕ → List Text → List Row → ℕ → List Value → ℤ → Trace → Trace × Body
  unfolding batch_text batch_args
  insert_batches zero size fields items i args total past = (past, sent_all total)
  insert_batches (suc fuel) size fields items i args total past =
      let batch = take size items in
      let args' = args ++ batch_args fields batch in
      let text = batch_text table_name fields (length batch) in
      let sent = past ▷ tx_exec text args' in
      let answer = env.run_exec sent text args' in
      let rest : ExecResult → Trace × Body = λ result.
        insert_batches fuel size fields (drop size items) (i + size) args'
          (wrap64 (total +ℤ rows_or_zero result.rows_affected)) sent in
      if is_empty items
      then (past, sent_all total)
      else if not (first_length batch == length fields)
      then (past, stops total count_differs)
      else elim answer [
        | none ↦ (
          sent ▷ log (batch_failed i (i + length batch)) ▷ metric error,
          stops total batch_exec_failed,
        )
        | some result ↦ rest result
      ]

  -- The fields of the first batch, and the batches. Without any field the placeholder panics.
  unfoldable pub insert_body : Unicode → List Row → ℕ → Trace → Trace × Body
  unfolding extract_batch_fields insert_batches
  insert_body u items size past =
      let (bad, fields) = extract_batch_fields u (take size items) in
      elim bad [
        | some e ↦ (past, stops (pos 0) e)
        | none ↦
            if is_empty fields
            then (past, panics)
            else insert_batches (length items) size fields items 0 [] (pos 0) past
      ]

  -- `BatchInsert`
  unfoldable pub batch_insert : Unicode → List Row → ℤ → Trace → Trace × BatchResult
  unfolding in_size in_transaction insert_body
  batch_insert u items size past =
      if is_empty items
      then (past, stored (pos 0))
      else in_transaction env (codes "batch_insert") (in_size size (insert_body u items)) past
