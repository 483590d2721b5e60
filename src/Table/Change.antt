-- ===== src/Table/Change.antt =====
-- table.go: the statements and operations that write. `defer t.Release()` leaves the cleared table on
-- every path.
use xlorm.Common.{
  ℕ, List, [], ◌∷◌, ◌++◌, true, if◌then◌else◌, is_empty, length, Option, none, some, ℤ, pos, ◌==◌,
}
use xlorm.Text.{Text, codes, join, concat}
use xlorm.Value.{Value}
use xlorm.Placeholders.{placeholder_text, build_placeholders}
use xlorm.Extract.{Input, extract_fields_and_values}
use xlorm.Effects.{
  Env, Trace, ◌▷◌, exec, metric, log, query_duration, error, query_failed, no_condition, LogEntry,
  ExecResult,
}
use xlorm.Table.{Table, reset}
use xlorm.Table.Find.{logs}
use xlorm.Table.Query.{build_query, get_where}

pub data ChangeError : Type 0 where
  extract_failed : ChangeError
  no_fields : ChangeError
  no_insert_fields : ChangeError
  missing_condition : ChangeError
  empty_query : ChangeError
  exec_failed : ChangeError
  last_id_failed : ChangeError

pub data Outcome {ℓ} (A : Type ℓ) : Type ℓ where
  ok : A → Outcome A
  err : ChangeError → Outcome A

-- The text of `buildInsertSQL`.
unfoldable pub insert_text : Text → Table → List Text → Text
unfolding build_placeholders placeholder_text
insert_text insert_type t fields = concat (
    insert_type
    ∷ codes " INTO "
    ∷ t.table_name
    ∷ codes " (`"
    ∷ join fields (codes "`,`")
    ∷ codes "`) VALUES "
    ∷ join (build_placeholders (placeholder_text (length fields)) 1) (codes ",")
    ∷ [])

-- `buildInsertSQL`
unfoldable pub build_insert_sql : Text → Table → List Text → Option Text
unfolding insert_text
build_insert_sql insert_type t fields =
    if is_empty fields then none else some (insert_text insert_type t fields)

-- `strings.TrimSuffix` of one byte
unfoldable pub trim_suffix : Text → ℕ → Text
trim_suffix [] b = []
trim_suffix (c ∷ []) b = if c == b then [] else c ∷ []
trim_suffix (c ∷ d ∷ s) b = c ∷ trim_suffix (d ∷ s) b

-- The loop that writes the SET clause.
unfoldable pub set_clause : List Text → Text
set_clause [] = []
set_clause (field ∷ fields) = codes "`" ++ (field ++ (codes "` = ?," ++ set_clause fields))

-- `buildUpdateSQL`: the table afterwards, the statement with the arguments of its conditions, and what
-- it logs.
unfoldable pub build_update_sql :
    Table → List Text → Table × Outcome (Text × List Value) × List LogEntry
unfolding get_where trim_suffix set_clause
build_update_sql t fields =
    let (t', clause, where_args) = get_where true t in
    if is_empty fields
    then (t, err no_fields, [])
    else if is_empty clause
    then (t', err missing_condition, no_condition ∷ [])
    else (
      t',
      ok (
        concat (
            codes "UPDATE "
            ∷ t.table_name
            ∷ codes " SET "
            ∷ trim_suffix (set_clause fields) b','
            ∷ clause
            ∷ []),
        where_args,
      ),
      [],
    )

-- `rowsAffected, _ := result.RowsAffected()`
abbrev pub rows_or_zero : Option ℤ → ℤ
rows_or_zero none = pos 0
rows_or_zero (some n) = n

module _ (env : Env) where
  -- An exec that failed is counted and logged.
  abbrev pub failed_exec : Text → List Value → Trace → Trace
  failed_exec text args sent = sent ▷ metric error ▷ log (query_failed text args)

  -- What `insert` does with the answer to its statement.
  abbrev pub inserted : Text → List Value → Trace → Option ExecResult → Trace × Outcome ℤ
  inserted text args sent none = (failed_exec text args sent, err exec_failed)
  inserted text args sent (some result) = elim result.last_insert_id [
    | none ↦ (sent, err last_id_failed)
    | some id ↦ (sent ▷ metric (query_duration (codes "insert") (pos (env.elapsed sent))), ok id)
  ]

  -- `insert`
  unfoldable pub insert : Text → Table → Input → Trace → Table × Trace × Outcome ℤ
  unfolding reset
  insert insert_type t input past = elim (extract_fields_and_values input) [
    | none ↦ (reset t, past, err extract_failed)
    | some (fields, values) ↦
        let built : Table × Trace × Outcome ℤ = elim (build_insert_sql insert_type t fields) [
          | none ↦ (reset t, past, err no_fields)
          | some text ↦
              let sent = past ▷ exec text values in
              let (after, answer) = inserted text values sent (env.run_exec sent text values) in
              (reset t, after, answer)
        ] in
        if is_empty fields then (reset t, past, err no_insert_fields) else built
  ]

  -- What `update` and `delete` do with the answer to their statement.
  abbrev pub changed : Text → Text → List Value → Trace → Option ExecResult → Trace × Outcome ℤ
  changed name text args sent none = (failed_exec text args sent, err exec_failed)
  changed name text args sent (some result) = (
    sent ▷ metric (query_duration name (pos (env.elapsed sent))),
    ok (rows_or_zero result.rows_affected),
  )

  -- The part of `update` behind its statement.
  abbrev pub send_update : List Value → Trace → Outcome (Text × List Value) → Trace × Outcome ℤ
  send_update values past (err e) = (past, err e)
  send_update values past (ok (text, where_args)) =
      let args = values ++ where_args in
      let sent = past ▷ exec text args in
      changed (codes "update") text args sent (env.run_exec sent text args)

  -- `update`
  unfoldable pub update : Table → Input → Trace → Table × Trace × Outcome ℤ
  unfolding reset
  update t input past = elim (extract_fields_and_values input) [
    | none ↦ (reset t, past, err extract_failed)
    | some (fields, values) ↦
        let (_, statement, es) = build_update_sql t fields in
        let (after, answer) = send_update values (past ++ logs es) statement in
        (reset t, after, answer)
  ]

  -- `delete`
  unfoldable pub delete : Table → Trace → Table × Trace × Outcome ℤ
  unfolding build_query reset
  delete t past =
      let (_, text, args, es) = build_query (codes "DELETE") t in
      elim args [
        | none ↦ (reset t, past ++ logs es, err empty_query)
        | some vs ↦
            if is_empty text
            then (reset t, past ++ logs es, err empty_query)
            else let sent = past ++ logs es ▷ exec text vs in
              let (after, answer) =
                changed (codes "delete") text vs sent (env.run_exec sent text vs) in
              (reset t, after, answer)
      ]
