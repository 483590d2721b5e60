-- ===== src/Debug/Tests.antt =====
-- Formatted and inspected statements at concrete tables.
use xlorm.Common.{◌≡◌, refl, List, [], ◌∷◌, ◌++◌, true, some, none, pos}
use xlorm.Text.{Text, codes, join, eq_text, contains_any, has_byte, concat, format_int, format_nat}
use xlorm.Value.{Value, int, string}
use xlorm.Extract.{Input, of_map}
use xlorm.Condition.{where_text}
use xlorm.Effects.{Env}
use xlorm.Table.{Table, cleared, new_table}
use xlorm.Table.Find.{logs}
use xlorm.Table.Query.{build_query}
use xlorm.Table.Change.{insert, update}
use xlorm.Debug.{Printer, format_sql, format_query_sql, get_insert_sql, get_update_sql}
use xlorm.Debug.Marks.{mark, weave, format_sql-weave}
use xlorm.Debug.Sent.{AsInspected, insert_wording, same_wording, inspected-sent}

abbrev printer : Printer
printer = record {
  float_text = λ x. codes "0.500000";
  time_text = λ t. codes "2024-01-01 00:00:00";
  any_text = λ v. codes "[1 2]";
}

abbrev pieces : List Text
pieces = codes "a = " ∷ codes " AND b = " ∷ codes " AND c = " ∷ [] ∷ []

abbrev literals : List Value
literals = string (codes "x?y") ∷ int (pos 7) ∷ []

-- Too few arguments: the last one is NULL, and the question mark of the string stays.
woven : weave printer pieces literals ≡ codes "a = 'x?y' AND b = 7 AND c = NULL"
unfolding weave xlorm.Debug.next_literal format_int format_nat codes
woven = refl

format_sql-weave_example :
    format_sql printer (join pieces mark) literals ≡ weave printer pieces literals
unfolding contains_any has_byte codes
format_sql-weave_example =
    format_sql-weave printer pieces literals (refl, (refl, (refl, (refl, _))))

abbrev server : Env
server = record {
  run_query = λ past statement args. none;
  run_query_row = λ past statement args. none;
  run_exec = λ past statement args.
      some (record { last_insert_id = some (pos 7); rows_affected = some (pos 1) });
  begin_ok = λ past. true;
  commit_ok = λ past. true;
  rollback_ok = λ past. true;
  elapsed = λ past. 1;
  slice_fits = λ n. true;
}

abbrev users : Table
users =
    (new_table (record { table_pre = codes "t_"; slow_query_threshold = 100 }) cleared
      (codes "users")).0

-- Two conditions, the second by OR.
abbrev chosen : Table
chosen = record users {
  wheres = codes "a = ?" ∷ codes "b = 1" ∷ [];
  args = int (pos 5) ∷ [];
  condition_flags = 3;
  condition_index = 2;
}

abbrev named : Input
named = of_map ((codes "name", string (codes "ann")) ∷ [])

query_text :
    format_query_sql printer (codes "SELECT") chosen
    ≡ codes "SELECT * FROM `t_users` WHERE (a = 5 OR b = 1)"
unfolding format_query_sql build_query new_table contains_any has_byte eq_text concat where_text
    xlorm.Condition.write_conditions format_int format_nat codes
query_text = refl

inspected-sent_example :
    AsInspected insert_wording []
      (get_insert_sql chosen named)
      (insert server (codes "INSERT") chosen named [])
    × (let (t', statement, es) = get_update_sql chosen named in
        AsInspected same_wording ([] ++ logs es) statement (update server chosen named []))
inspected-sent_example = inspected-sent server chosen named []
