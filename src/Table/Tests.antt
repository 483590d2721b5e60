-- ===== src/Table/Tests.antt =====
-- Table operations evaluated, and the theorems at concrete tables and servers.
use mathlib.Core.List.{cons-ne-nil}
use xlorm.Common.{◌+◌, ltb, map, ◌≡◌, refl, [], ◌∷◌, ◌++◌, true, some, pos, length, ◌⊎◌, replicate}
use xlorm.Text.{Text, codes, count, contains_any, has_byte, join, concat, eq_text}
use xlorm.Text.Laws.{counts}
use xlorm.Value.{int, string, bytes}
use xlorm.Row.{Row}
use xlorm.Condition.{where_text, write_conditions}
use xlorm.Placeholders.{build_placeholders}
use xlorm.Placeholders.Copies.{build_placeholders-replicate}
use xlorm.Extract.{of_map, extract_from_map}
use xlorm.Effects.{Env, Trace, ◌▷◌, exec, log, no_condition}
use xlorm.Table.{Db, Table, cleared, new_table}
use xlorm.Table.Query.{build_query, copy_query_conditions}
use xlorm.Table.Find.{find_all, find_all_with_context, find_all_with_cursor, count_table, ok}
use xlorm.Table.Cursor.{accept_all, answer_of, without_rows, find_all_with_cursor-find_all}
use xlorm.Table.Change.{err, empty_query, insert, update, delete}
use xlorm.Table.Statements.{change-needs-condition}
use xlorm.Table.Arguments.{insert-arguments, update-arguments}

abbrev sample_db : Db
sample_db = record { table_pre = codes "t_"; slow_query_threshold = 100 }

-- A server with one row.
abbrev sample_env : Env
sample_env = record {
  run_query = λ past text args. some (record {
    columns = some (codes "id" ∷ codes "name" ∷ []);
    rows = some (int (pos 1) ∷ bytes (codes "ann") ∷ []) ∷ [];
    err_nil = true;
  });
  run_query_row = λ past text args. some (pos 1);
  run_exec = λ past text args.
      some (record { last_insert_id = some (pos 7); rows_affected = some (pos 1) });
  begin_ok = λ past. true;
  commit_ok = λ past. true;
  rollback_ok = λ past. true;
  elapsed = λ past. 1;
  slice_fits = λ n. ltb n 100;
}

abbrev users : Table
users = (new_table sample_db cleared (codes "users")).0

abbrev chosen : Table
chosen = record users {
  wheres = codes "a = ?" ∷ codes "b = 1" ∷ [];
  args = int (pos 5) ∷ [];
  condition_flags = 3;
  condition_index = 2;
  has_total = true;
}

select_text :
    (build_query (codes "SELECT") chosen).1 ≡ codes "SELECT * FROM `t_users` WHERE (a = ? OR b = 1)"
unfolding build_query new_table contains_any has_byte eq_text concat where_text write_conditions
    codes
select_text = refl

count_text :
    (build_query (codes "COUNT") (count_table sample_db cleared chosen).0).1
    ≡ codes "SELECT COUNT(*) FROM `t_`t_users`` WHERE a = ? AND b = 1"
unfolding build_query count_table copy_query_conditions new_table contains_any has_byte eq_text
    concat where_text join codes
count_text = refl

find_all_rows :
    (find_all sample_env sample_db cleared chosen []).2
    ≡ ok (((codes "id", int (pos 1)) ∷ (codes "name", string (codes "ann")) ∷ []) ∷ [])
unfolding find_all build_query new_table contains_any has_byte eq_text xlorm.Row.insert codes
find_all_rows = refl

find_all_with_cursor-find_all_example :
    let (t1, after1, answer) =
      find_all_with_context sample_env sample_db (codes "findAllWithContext") cleared chosen [] in
    let (t2, after2, seen, ended) =
      find_all_with_cursor sample_env sample_db accept_all cleared chosen [] in
    (t1 ≡ t2)
    × (map without_rows after1 ≡ map without_rows after2)
    × (answer ≡ answer_of seen ended)
unfolding new_table codes contains_any has_byte
find_all_with_cursor-find_all_example =
    find_all_with_cursor-find_all sample_env sample_db cleared chosen [] refl

abbrev person : Row
person = (codes "name", string (codes "ann")) ∷ (codes "age", int (pos 30)) ∷ []

change-needs-condition_example :
    (((update sample_env users (of_map person) []).1 ≡ [])
      ⊎ ((update sample_env users (of_map person) []).1 ≡ [] ▷ log no_condition))
    × (delete sample_env users [] ≡ (cleared, [], err empty_query))
unfolding new_table contains_any has_byte codes
change-needs-condition_example = change-needs-condition sample_env users [] (of_map person) refl

insert-arguments_example :
    (text : Text) × (rest : Trace) × ((insert sample_env
        (codes "INSERT")
        users
        (of_map person)
        []).1
      ≡ [] ++ exec text (extract_from_map person).1 ∷ rest)
    × (count text b'?'
        ≡ length (extract_from_map person).1
          + (count users.table_name b'?' + counts (extract_from_map person).0 b'?'))
insert-arguments_example =
    insert-arguments sample_env users (codes "name") (string (codes "ann"))
      ((codes "age", int (pos 30)) ∷ []) []

update-arguments_example :
    (text : Text) × (rest : Trace) × ((update sample_env chosen (of_map person) []).1
      ≡ [] ++ exec text ((extract_from_map person).1 ++ chosen.args) ∷ rest)
    × (count text b'?'
        ≡ length ((extract_from_map person).1 ++ chosen.args)
          + (count chosen.table_name b'?' + counts (extract_from_map person).0 b'?'))
unfolding count codes
update-arguments_example =
    update-arguments sample_env chosen (codes "name") (string (codes "ann"))
      ((codes "age", int (pos 30)) ∷ []) [] (cons-ne-nil _ _) refl

build_placeholders-replicate_example :
    build_placeholders (codes "(?,?)") 5 ≡ replicate 5 (codes "(?,?)")
build_placeholders-replicate_example = build_placeholders-replicate (codes "(?,?)") 5
