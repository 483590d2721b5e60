-- ===== src/Table/Arguments.antt =====
-- The question marks of an INSERT and of an UPDATE against their arguments.
use mathlib.Core.List.{cons-ne-nil}
use xlorm.Common.{
  pos, suc, ◌+◌, ◌*◌, ◌≡◌, ◌≢◌, refl, ◌∙◌, List, [], ◌∷◌, ◌++◌, length, length-append, Option, none,
  some, arith, inl, inr, append-nil, append_assoc, Option-cases,
}
use xlorm.Text.{Text, codes, count}
use xlorm.Text.Laws.{counts}
use xlorm.Value.{Value}
use xlorm.Row.{Row, keys}
use xlorm.Extract.{
  Input, of_map, of_maps, extract_fields_and_values, extract_from_map, all_values, sort_strings,
  insert_sorted,
}
use xlorm.Effects.{
  Env, Trace, ◌▷◌, exec, log, metric, error, query_failed, query_duration, ExecResult,
}
use xlorm.Table.{Table}
use xlorm.Table.Change.{ok, build_insert_sql, build_update_sql, insert, update, inserted, changed}
use xlorm.Table.Marks.{
  length-values_at, length-all_values, build_insert_sql-lem, build_update_sql-lem,
}

insert_sorted-ne-nil : (t : Text) (ts : List Text) → insert_sorted t ts ≢ []
unfolding insert_sorted
insert_sorted-ne-nil t [] = cons-ne-nil t []
insert_sorted-ne-nil t (u ∷ us) = ground arith

sorted-ne-nil : (k : Text) (ks : List Text) → sort_strings (k ∷ ks) ≢ []
unfolding sort_strings
sorted-ne-nil k ks = insert_sorted-ne-nil k (sort_strings ks)

pub fields-ne-nil : (k : Text) (v : Value) (m : Row) → (extract_from_map ((k, v) ∷ m)).0 ≢ []
unfolding extract_from_map keys
fields-ne-nil k v m = sorted-ne-nil k (keys m)

pub length-values :
    (k : Text) (v : Value) (m : Row)
    → length (extract_from_map ((k, v) ∷ m)).1 ≡ length (extract_from_map ((k, v) ∷ m)).0
unfolding extract_from_map
length-values k v m = length-values_at _ ((k, v) ∷ m)

count-insert : count (codes "INSERT") b'?' ≡ 0
unfolding codes count
count-insert = refl

module _ (env : Env) where
  pub inserted-extends :
      (text : Text) (args : List Value) (sent : Trace) (answer : Option ExecResult)
      → (rest : Trace) × ((inserted env text args sent answer).0 ≡ sent ++ rest)
  inserted-extends text args sent none =
      (metric error ∷ log (query_failed text args) ∷ [], append_assoc sent (metric error ∷ []) _)
  inserted-extends text args sent (some result) = elim (Option-cases result.last_insert_id) [
    | inl e ↦ ([], ground (arith, append-nil sent))
    | inr (id, e) ↦
        (metric (query_duration (codes "insert") (pos (env.elapsed sent))) ∷ [], ground arith)
  ]

  insert-step :
      (insert_type : Text) (t : Table) (input : Input) (fields : List Text) (values : List Value)
      (text : Text) (past : Trace)
      → extract_fields_and_values input ≡ some (fields, values)
      → build_insert_sql insert_type t fields ≡ some text
      → let sent = past ▷ exec text values in
        (insert env insert_type t input past).1
        ≡ (inserted env text values sent (env.run_exec sent text values)).0
  unfolding insert build_insert_sql
  insert-step insert_type t input fields values text past e built = ground arith

  pub changed-extends :
      (name text : Text) (args : List Value) (sent : Trace) (answer : Option ExecResult)
      → (rest : Trace) × ((changed env name text args sent answer).0 ≡ sent ++ rest)
  changed-extends name text args sent none =
      (metric error ∷ log (query_failed text args) ∷ [], append_assoc sent (metric error ∷ []) _)
  changed-extends name text args sent (some result) =
      (metric (query_duration name (pos (env.elapsed sent))) ∷ [], refl)

  pub insert-sends :
      (t : Table) (input : Input) (fields : List Text) (values : List Value) (past : Trace)
      → extract_fields_and_values input ≡ some (fields, values)
      → fields ≢ []
      → (text : Text) × (rest : Trace) × ((insert env (codes "INSERT") t input past).1
          ≡ past ++ exec text values ∷ rest)
        × (count text b'?' ≡ length fields + (count t.table_name b'?' + counts fields b'?'))
  insert-sends t input fields values past e h =
      let (text, built, marks) = build_insert_sql-lem (codes "INSERT") t fields h in
      let sent = past ▷ exec text values in
      let (rest, extends) = inserted-extends text values sent (env.run_exec sent text values) in
      (
        text,
        rest,
        insert-step (codes "INSERT") t input fields values text past e built
            ∙ extends
            ∙ append_assoc past (exec text values ∷ []) rest,
        omega (arith, marks, count-insert),
      )

  -- An insert of a map sends, as its first event, an INSERT with one argument for each question mark,
  -- besides question marks in the table name and in the column names.
  pub insert-arguments :
      (t : Table) (k : Text) (v : Value) (m : Row) (past : Trace)
      → let (fields, values) = extract_from_map ((k, v) ∷ m) in
        (text : Text) × (rest : Trace) × ((insert env
            (codes "INSERT")
            t
            (of_map ((k, v) ∷ m))
            past).1
          ≡ past ++ exec text values ∷ rest)
        × (count text b'?' ≡ length values + (count t.table_name b'?' + counts fields b'?'))
  insert-arguments t k v m past =
      let row : Row = (k, v) ∷ m in
      let fields = (extract_from_map row).0 in
      let (text, rest, sends, marks) =
        insert-sends t (of_map row) fields (extract_from_map row).1 past
          (unfold extract_fields_and_values in refl) (fields-ne-nil k v m) in
      (text, rest, sends, omega (arith, marks, length-values k v m))

  update-step :
      (t : Table) (input : Input) (fields : List Text) (values : List Value) (text : Text)
      (past : Trace)
      → extract_fields_and_values input ≡ some (fields, values)
      → (build_update_sql t fields).1 ≡ ok (text, t.args)
      → (build_update_sql t fields).2 ≡ []
      → let args = values ++ t.args in
        let sent = past ▷ exec text args in
        (update env t input past).1
        ≡ (changed env (codes "update") text args sent (env.run_exec sent text args)).0
  unfolding update
  update-step t input fields values text past e built quiet = ground (arith, append-nil past)

  -- An update with a map sends, as its first event, an UPDATE with one argument for each question
  -- mark, first those of the columns and then those of the conditions, besides question marks in the
  -- table name and in the column names. The table has a condition, and an argument for each question
  -- mark of its conditions.
  pub update-arguments :
      (t : Table) (k : Text) (v : Value) (m : Row) (past : Trace)
      → t.wheres ≢ []
      → counts t.wheres b'?' ≡ length t.args
      → let (fields, values) = extract_from_map ((k, v) ∷ m) in
        (text : Text) × (rest : Trace) × ((update env t (of_map ((k, v) ∷ m)) past).1
          ≡ past ++ exec text (values ++ t.args) ∷ rest)
        × (count text b'?'
            ≡ length (values ++ t.args) + (count t.table_name b'?' + counts fields b'?'))
  update-arguments t k v m past hw hb =
      let row : Row = (k, v) ∷ m in
      let fields = (extract_from_map row).0 in
      let values = (extract_from_map row).1 in
      let (text, built, quiet, marks) = build_update_sql-lem t fields (fields-ne-nil k v m) hw in
      let args = values ++ t.args in
      let sent = past ▷ exec text args in
      let (rest, extends) =
        changed-extends (codes "update") text args sent (env.run_exec sent text args) in
      (
        text,
        rest,
        update-step t (of_map row) fields values text past
              (unfold extract_fields_and_values in refl) built quiet
            ∙ extends
            ∙ append_assoc past (exec text args ∷ []) rest,
        omega (arith, marks, hb, length-values k v m, length-append values t.args),
      )

  -- An insert of one or more maps, the first of them not empty, sends an INSERT with the question
  -- marks of one map, besides those of names, but with the arguments of all the maps.
  pub insert-maps-arguments :
      (t : Table) (k : Text) (v : Value) (m : Row) (ms : List Row) (past : Trace)
      → let fields = (extract_from_map ((k, v) ∷ m)).0 in
        (text : Text) × (values : List Value) × (rest : Trace) × ((insert env
            (codes "INSERT")
            t
            (of_maps (((k, v) ∷ m) ∷ ms))
            past).1
          ≡ past ++ exec text values ∷ rest)
        × (count text b'?' ≡ length fields + (count t.table_name b'?' + counts fields b'?'))
        × (length values ≡ suc (length ms) * length fields)
  insert-maps-arguments t k v m ms past =
      let row : Row = (k, v) ∷ m in
      let fields = (extract_from_map row).0 in
      let values = all_values fields (row ∷ ms) in
      let (text, rest, sends, marks) =
        insert-sends t (of_maps (row ∷ ms)) fields values past
          (unfold extract_fields_and_values in refl) (fields-ne-nil k v m) in
      (text, values, rest, sends, marks, length-all_values fields (row ∷ ms))
