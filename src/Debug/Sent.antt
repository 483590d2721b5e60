-- ===== src/Debug/Sent.antt =====
-- The inspected statements against those that the table sends.
use xlorm.Common.{
  ◌≡◌, refl, ◌∙◌, sym, List, [], ◌∷◌, ◌++◌, append_assoc, append-nil, ℤ, Option-cases, Bool-cases,
  is_empty, inl, inr,
}
use xlorm.Text.{Text, codes}
use xlorm.Value.{Value}
use xlorm.Extract.{Input, extract_fields_and_values}
use xlorm.Effects.{Env, Trace, ◌▷◌, exec}
use xlorm.Table.{Table, reset}
use xlorm.Table.Find.{logs}
use xlorm.Table.Arguments.{inserted-extends, changed-extends}
use xlorm.Table.Change.{
  ChangeError, no_fields, no_insert_fields, Outcome, ok, err, build_insert_sql, insert_text,
  build_update_sql, insert, update, send_update,
}
use xlorm.Debug.{get_insert_sql, get_update_sql, with_values}

-- The operation does what the inspected statement says: with a statement it sends just that, before
-- anything else, and with an error it sends nothing and returns the error, as the operation words it.
unfoldable pub AsInspected :
    (ChangeError → ChangeError)
    → Trace
    → Outcome (Text × List Value)
    → Table × Trace × Outcome ℤ
    → Type 0
AsInspected wording start (err e) result = (result.1 ≡ start) × (result.2 ≡ err (wording e))
AsInspected wording start (ok (text, args)) result =
    (rest : Trace) × (result.1 ≡ start ++ exec text args ∷ rest)

-- Insert has an error of its own for data without a field.
abbrev pub insert_wording : ChangeError → ChangeError
insert_wording no_fields = no_insert_fields
insert_wording e = e

abbrev pub same_wording : ChangeError → ChangeError
same_wording e = e

module _ (env : Env) (t : Table) where
  insert-AsInspected :
      (input : Input) (past : Trace)
      → AsInspected insert_wording past
          (get_insert_sql t input)
          (insert env (codes "INSERT") t input past)
  unfolding get_insert_sql insert AsInspected
  insert-AsInspected input past = elim (Option-cases (extract_fields_and_values input)) [
    | inl e ↦ rw (e, get_insert_sql, insert) (refl, refl)
    | inr ((fields, values), e) ↦ elim (Bool-cases (is_empty fields)) [
      | inl z ↦ rw (e, get_insert_sql, insert, build_insert_sql, z) (refl, refl)
      | inr z ↦
          let text = insert_text (codes "INSERT") t fields in
          let sent = past ▷ exec text values in
          let (rest, extends) =
            inserted-extends env text values sent (env.run_exec sent text values) in
          rw (e, get_insert_sql, insert, build_insert_sql, z)
            (rest, extends ∙ append_assoc past (exec text values ∷ []) rest)
    ]
  ]

  send_update-AsInspected :
      (values : List Value) (start : Trace) (statement : Outcome (Text × List Value)) (t' : Table)
      → let (after, answer) = send_update env values start statement in
        AsInspected same_wording start (with_values values statement) (t', after, answer)
  unfolding AsInspected
  send_update-AsInspected values start (err e) t' = (refl, refl)
  send_update-AsInspected values start (ok (text, where_args)) t' =
      let args = values ++ where_args in
      let sent = start ▷ exec text args in
      let (rest, extends) =
        changed-extends env (codes "update") text args sent (env.run_exec sent text args) in
      (rest, extends ∙ append_assoc start (exec text args ∷ []) rest)

  update-AsInspected :
      (input : Input) (past : Trace)
      → let (t', statement, es) = get_update_sql t input in
        AsInspected same_wording (past ++ logs es) statement (update env t input past)
  unfolding get_update_sql update AsInspected
  update-AsInspected input past = elim (Option-cases (extract_fields_and_values input)) [
    | inl e ↦ rw (e, get_update_sql, update) (sym (append-nil past), refl)
    | inr ((fields, values), e) ↦
        rw (e, get_update_sql, update)
          (send_update-AsInspected values (past ++ logs (build_update_sql t fields).2)
            (build_update_sql t fields).1 (reset t))
  ]

  -- GetInsertSQL and GetUpdateSQL show what Insert and Update do with the same table and data: the
  -- statement that they send first, with its arguments, or else the error that they return; only for
  -- data without a field, for which GetInsertSQL gives the error of the statement, Insert has one of its own.
  pub inspected-sent :
      (input : Input) (past : Trace)
      → AsInspected insert_wording past
          (get_insert_sql t input)
          (insert env (codes "INSERT") t input past)
        × (let (t', statement, es) = get_update_sql t input in
            AsInspected same_wording (past ++ logs es) statement (update env t input past))
  inspected-sent input past = (insert-AsInspected input past, update-AsInspected input past)
