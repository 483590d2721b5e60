-- ===== src/Batch/Tests.antt =====
-- Batches against a server that accepts the statements among the first three events, and no later one.
use xlorm.Common.{
  length, none, ℕ, ◌+◌, ◌≡◌, refl, List, [], ◌∷◌, true, if◌then◌else◌, ltb, some, pos,
}
use xlorm.Text.{Text, codes, count, eq_text, join, concat}
use xlorm.Runes.Sample.{ascii}
use xlorm.Value.{int, null}
use xlorm.Ident.{escape_sql_identifier}
use xlorm.Row.{Row, value_at}
use xlorm.Placeholders.{placeholder_text, repeat}
use xlorm.Effects.{Env, tx_exec}
use xlorm.Transaction.Ends.{Ends}
use xlorm.Batch.{
  insert_batches, batch_text, batch_args, item_args, trim_quotes, trim_left, trim_right,
}
use xlorm.Batch.Update.{update_batches, update_statement, update_fields}
use xlorm.Batch.Answered.{Answered}
use xlorm.Batch.Rounds.{batches-end}
use xlorm.Batch.Arguments.{Matches, case_names, update_statement-Matches}

abbrev server : Env
server = record {
  run_query = λ past text args. none;
  run_query_row = λ past text args. none;
  run_exec = λ past text args.
      if ltb (length past) 4
      then some (record { last_insert_id = none; rows_affected = some (pos 1) })
      else none;
  begin_ok = λ past. true;
  commit_ok = λ past. true;
  rollback_ok = λ past. true;
  elapsed = λ past. 1;
  slice_fits = λ n. true;
}

abbrev item : ℕ → Row
item n = (codes "id", int (pos n)) ∷ (codes "age", int (pos (n + 30))) ∷ []

abbrev items : List Row
items = item 1 ∷ item 2 ∷ item 3 ∷ []

abbrev users : Text
users = codes "users"

abbrev id : Text
id = codes "id"

update_statement-Matches_example :
    Matches
      (update_statement users id items)
      (case_names id (update_fields id (item 1)) + count users b'?' + count id b'?')
update_statement-Matches_example = update_statement-Matches users id (item 1) (item 2 ∷ item 3 ∷ [])

-- The second of two batches sends the arguments of the first again: one question mark, two arguments.
abbrev lone : ℕ → Row
lone n = (id, int (pos n)) ∷ []

second_batch :
    (insert_batches server users 2 1 (id ∷ []) (lone 1 ∷ lone 2 ∷ []) 0 [] (pos 0) []).0
    ≡ tx_exec (batch_text users (id ∷ []) 1) (int (pos 1) ∷ [])
      ∷ tx_exec (batch_text users (id ∷ []) 1) (int (pos 1) ∷ int (pos 2) ∷ [])
      ∷ []
unfolding insert_batches batch_args item_args value_at eq_text trim_quotes trim_left trim_right
    codes
second_batch = refl

second_batch_marks : count (batch_text users (id ∷ []) 1) b'?' ≡ 1
unfolding batch_text codes count concat join placeholder_text repeat
second_batch_marks = refl

-- The field `select` is escaped to another name, under which the record has no value: NULL is sent.
reserved_field :
    item_args
      (escape_sql_identifier ascii (codes "select") ∷ [])
      ((codes "select", int (pos 1)) ∷ [])
    ≡ null ∷ []
unfolding escape_sql_identifier item_args value_at eq_text trim_quotes trim_left trim_right codes
reserved_field = refl

batches-end_example :
    (insert_batches server users (4 + length items) 2 (id ∷ []) items 0 [] (pos 0) []
      ≡ insert_batches server users (length items) 2 (id ∷ []) items 0 [] (pos 0) [])
    × (update_batches server users id (4 + length items) 2 items (pos 0) []
        ≡ update_batches server users id (length items) 2 items (pos 0) [])
batches-end_example = batches-end server users 1 id (id ∷ []) items [] (pos 0) [] 4
