-- ===== src/Batch/Update.antt =====
-- batch.go: `updateBatch` and `BatchUpdate`.
use xlorm.Common.{
  ℕ, zero, suc, List, [], ◌∷◌, ◌++◌, if◌then◌else◌, is_empty, length, take, drop, replicate, Option,
  none, some, ℤ, pos, ◌+ℤ◌, wrap64,
}
use xlorm.Text.{Text, codes, eq_text, join, concat}
use xlorm.Value.{Value}
use xlorm.Row.{Row, lookup, value_at}
use xlorm.Effects.{Env, ExecResult, Trace, ◌▷◌, tx_exec}
use xlorm.Batch.{
  BatchError, no_update_fields, missing_key, missing_field, batch_exec_failed, rows_failed, Body,
  sent_all, stops, BatchResult, stored, no_key_field, in_size, in_transaction,
}

-- A result, or the error that ends the batch.
pub data Checked {ℓ} (A : Type ℓ) : Type ℓ where
  good : A → Checked A
  bad : BatchError → Checked A

-- The fields of the first record but the key.
unfoldable pub update_fields : Text → Row → List Text
update_fields key_field [] = []
update_fields key_field ((k, v) ∷ m) =
    let rest = update_fields key_field m in if eq_text k key_field then rest else k ∷ rest

-- The `WHEN` parts of a field, with their arguments.
unfoldable pub when_parts : Text → Text → List Row → Checked (Text × List Value)
when_parts key_field field [] = good ([], [])
when_parts key_field field (item ∷ items) =
    let rest = when_parts key_field field items in
    elim (lookup key_field item) [
      | none ↦ bad missing_key
      | some key_value ↦ elim (lookup field item) [
        | none ↦ bad (missing_field field)
        | some value ↦ elim rest [
          | bad e ↦ bad e
          | good (text, args) ↦ good (codes " WHEN ? THEN ? " ++ text, key_value ∷ value ∷ args)
        ]
      ]
    ]

-- The text of a field in the SET clause.
unfoldable pub case_text : Text → Text → Text → Text
case_text key_field field whens =
    concat
      (codes "`" ∷ field ∷ codes "` = CASE `" ∷ key_field ∷ codes "`" ∷ whens ∷ codes " END" ∷ [])

unfoldable pub case_parts : Text → List Text → List Row → Checked (List Text × List Value)
unfolding when_parts case_text
case_parts key_field [] items = good ([], [])
case_parts key_field (field ∷ fields) items =
    let rest = case_parts key_field fields items in
    elim (when_parts key_field field items) [
      | bad e ↦ bad e
      | good (whens, args) ↦ elim rest [
        | bad e ↦ bad e
        | good (texts, more) ↦ good (case_text key_field field whens ∷ texts, args ++ more)
      ]
    ]

unfoldable pub key_args : Text → List Row → List Value
key_args key_field [] = []
key_args key_field (item ∷ items) = value_at key_field item ∷ key_args key_field items

-- The statement of a batch of `n` records.
unfoldable pub update_text : Text → Text → List Text → ℕ → Text
update_text table_name key_field cases n = concat (
    codes "UPDATE"
    ∷ table_name
    ∷ codes " SET "
    ∷ join cases (codes ", ")
    ∷ codes " WHERE `"
    ∷ key_field
    ∷ codes "` IN ("
    ∷ join (replicate n (codes "?")) (codes ",")
    ∷ codes ")"
    ∷ [])

-- The statement and the arguments of `updateBatch`.
unfoldable pub update_statement : Text → Text → List Row → Checked (Text × List Value)
unfolding update_fields case_parts key_args update_text
update_statement table_name key_field [] = bad no_update_fields
update_statement table_name key_field (first ∷ items) =
    if is_empty (update_fields key_field first)
    then bad no_update_fields
    else elim (case_parts key_field (update_fields key_field first) (first ∷ items)) [
      | bad e ↦ bad e
      | good (cases, args) ↦ good (
        update_text table_name key_field cases (suc (length items)),
        args ++ key_args key_field (first ∷ items),
      )
    ]

-- `return result.RowsAffected()`, or the error of the statement.
abbrev pub affected_of : Option ExecResult → Checked ℤ
affected_of none = bad batch_exec_failed
affected_of (some result) = elim result.rows_affected [ none ↦ bad rows_failed | some n ↦ good n ]

module _ (env : Env) (table_name key_field : Text) where
  -- `updateBatch`
  unfoldable pub update_batch : List Row → Trace → Trace × Checked ℤ
  unfolding update_statement
  update_batch items past =
      if is_empty items
      then (past, good (pos 0))
      else elim (update_statement table_name key_field items) [
        | bad e ↦ (past, bad e)
        | good (text, args) ↦
            let sent = past ▷ tx_exec text args in (sent, affected_of (env.run_exec sent text args))
      ]

  -- The loop over the batches, with a round for each record.
  unfoldable pub update_batches : ℕ → ℕ → List Row → ℤ → Trace → Trace × Body
  unfolding update_batch
  update_batches zero size items total past = (past, sent_all total)
  update_batches (suc fuel) size items total past =
      let (after, answer) = update_batch (take size items) past in
      let rest : ℤ → Trace × Body =
        λ affected. update_batches fuel size (drop size items) (wrap64 (total +ℤ affected)) after in
      if is_empty items
      then (past, sent_all total)
      else elim answer [ bad e ↦ (after, stops total e) | good affected ↦ rest affected ]

  -- `BatchUpdate`
  unfoldable pub batch_update : List Row → ℤ → Trace → Trace × BatchResult
  unfolding update_batches in_size in_transaction
  batch_update items size past =
      if is_empty items
      then (past, stored (pos 0))
      else if is_empty key_field
      then (past, no_key_field)
      else in_transaction env (codes "batch_update")
          (in_size size (λ n begun. update_batches (length items) n items (pos 0) begun)) past
