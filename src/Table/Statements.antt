-- ===== src/Table/Statements.antt =====
-- The statements that write: when they are sent, and their question marks.
use xlorm.Common.{
  ℕ, ◌≡◌, refl, List, [], ◌∷◌, ◌++◌, true, false, is_empty, arith, ◌⊎◌, inl, inr, append-nil,
  Option-cases,
}
use xlorm.Text.{Text, codes, eq_text}
use xlorm.Value.{Value}
use xlorm.Extract.{Input, extract_fields_and_values}
use xlorm.Effects.{Env, Trace, ◌▷◌, log, no_condition}
use xlorm.Condition.{where_text}
use xlorm.Table.{Table, cleared}
use xlorm.Table.Find.{logs}
use xlorm.Table.Change.{err, empty_query, build_update_sql, update, delete, send_update}

-- The text behind `WHERE` is never empty.
pub where_text-ne-nil : (flags : ℕ) (ts : List Text) → is_empty (where_text true flags ts) ≡ false
unfolding where_text codes
where_text-ne-nil flags ts = refl

module _ (env : Env) (t : Table) (past : Trace) where
  delete-silent : t.wheres ≡ [] → delete env t past ≡ (cleared, past, err empty_query)
  unfolding delete codes eq_text
  delete-silent h = ground (arith, append-nil past)

  send-silent :
      (fields : List Text) (values : List Value)
      → t.wheres ≡ []
      → let (_, statement, es) = build_update_sql t fields in
        let after = (send_update env values (past ++ logs es) statement).0 in
        (after ≡ past) ⊎ (after ≡ past ▷ log no_condition)
  unfolding build_update_sql
  send-silent [] values h = inl (append-nil past)
  send-silent (field ∷ fields) values h = inr (ground arith)

  update-silent :
      (input : Input)
      → t.wheres ≡ []
      → ((update env t input past).1 ≡ past)
        ⊎ ((update env t input past).1 ≡ past ▷ log no_condition)
  unfolding update
  update-silent input h = elim (Option-cases (extract_fields_and_values input)) [
    | inl e ↦ inl (rw (e, update))
    | inr ((fields, values), e) ↦ rw (e, update) (send-silent fields values h)
  ]

  -- Without a condition an update or a delete sends nothing: the events are those before, at most
  -- with the log entry of the missing condition, and a delete reports the empty query.
  pub change-needs-condition :
      (input : Input)
      → t.wheres ≡ []
      → (((update env t input past).1 ≡ past)
          ⊎ ((update env t input past).1 ≡ past ▷ log no_condition))
        × (delete env t past ≡ (cleared, past, err empty_query))
  change-needs-condition input h = (update-silent input h, delete-silent h)
