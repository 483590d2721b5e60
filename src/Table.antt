-- ===== src/Table.antt =====
-- table.go: the table operations that collect a query. A method returns the changed table and what it
-- logs. All of them are read on a table with a database, as `DB.Table` returns it.
pub mod Query
pub mod Find
pub mod Total
pub mod Change
pub mod Statements
pub mod Marks
pub mod Arguments
mod Tests
pub mod Cursor
use Prim.Native.Nat.{bit_or}
use xlorm.Common.{
  ℕ, ◌+◌, List, [], ◌∷◌, ◌++◌, Bool, true, false, not, ◌==◌, if◌then◌else◌, is_empty, length,
  Option, none, some, ℤ, pos, negsuc, ltb_ℤ,
}
use xlorm.Text.{Text, codes, count, contains_any}
use xlorm.Runes.{Unicode}
use xlorm.Ident.{unsafe_chars, is_valid_field_name, is_valid_safe_order_by}
use xlorm.Condition.{cond_and, cond_or, cond_not}
use xlorm.Paging.{page_offset}
use xlorm.Value.{Value}
use xlorm.Effects.{
  LogEntry, arg_count, injection, bad_order, bad_field, empty_table, negative_limit,
  negative_offset,
}

-- What a table reads of its `DB`.
pub record Db : Type 0 where
  pub table_pre : Text
  pub slow_query_threshold : ℕ

-- `Table`
pub record Table : Type 0 where
  pub db : Option Db
  pub table_name : Text
  pub order_by : Text
  pub group_by : Text
  pub having : Text
  pub fields : List Text
  pub wheres : List Text
  pub joins : List Text
  pub args : List Value
  pub total : ℤ
  pub limit : ℤ
  pub offset : ℤ
  pub has_total : Bool
  pub condition_flags : ℕ
  pub condition_index : ℕ

abbrev pub cleared : Table
cleared = record {
  db = none;
  table_name = [];
  order_by = [];
  group_by = [];
  having = [];
  fields = [];
  wheres = [];
  joins = [];
  args = [];
  total = pos 0;
  limit = pos 0;
  offset = pos 0;
  has_total = false;
  condition_flags = 0;
  condition_index = 0;
}

-- `Reset`
unfoldable pub reset : Table → Table
reset t = cleared

abbrev pub Logged : Type 0
Logged = Table × List LogEntry

-- `GetTableName`
unfoldable pub get_table_name : Db → Text → Text
get_table_name db name = codes "`" ++ (db.table_pre ++ (name ++ codes "`"))

-- `DB.Table` and `DB.M`, over the table that the pool hands out.
unfoldable pub new_table : Db → Table → Text → Logged
unfolding reset get_table_name
new_table db pooled name =
    let t = record (reset pooled) { db = some db } in
    if is_empty name
    then (t, empty_table ∷ [])
    else if contains_any name unsafe_chars
    then (t, injection name ∷ [])
    else (record t { table_name = get_table_name db name }, [])

-- `Where`
unfoldable pub add_where : Table → Text → List Value → Logged
add_where t condition args =
    if is_empty condition
    then (t, [])
    else if not (count condition b'?' == length args)
    then (t, arg_count condition (length args) ∷ [])
    else if contains_any condition unsafe_chars
    then (t, injection condition ∷ [])
    else (
      record t {
        wheres = t.wheres ++ condition ∷ [];
        args = t.args ++ args;
        condition_flags =
            if t.condition_index == 0 then bit_or t.condition_flags cond_and else t.condition_flags;
        condition_index = t.condition_index + 1;
      },
      [],
    )

-- `OrWhere`
unfoldable pub or_where : Table → Text → List Value → Logged
or_where t condition args =
    if is_empty condition
    then (t, [])
    else if not (count condition b'?' == length args)
    then (t, arg_count condition (length args) ∷ [])
    else if contains_any condition unsafe_chars
    then (t, injection condition ∷ [])
    else (
      record t {
        wheres = t.wheres ++ condition ∷ [];
        args = t.args ++ args;
        condition_flags = bit_or t.condition_flags cond_or;
        condition_index = t.condition_index + 1;
      },
      [],
    )

-- `NotWhere`
unfoldable pub not_where : Table → Text → List Value → Logged
not_where t condition args =
    if is_empty condition
    then (t, [])
    else if not (count condition b'?' == length args)
    then (t, arg_count condition (length args) ∷ [])
    else if contains_any condition unsafe_chars
    then (t, injection condition ∷ [])
    else (
      record t {
        wheres = t.wheres ++ (codes "NOT (" ++ (condition ++ codes ")")) ∷ [];
        args = t.args ++ args;
        condition_flags = bit_or t.condition_flags cond_not;
        condition_index = t.condition_index + 1;
      },
      [],
    )

-- `OrderBy`
unfoldable pub set_order_by : Unicode → Table → Text → Logged
set_order_by u t order =
    if is_empty order
    then (t, [])
    else if not (is_valid_safe_order_by u order)
    then (t, bad_order order ∷ [])
    else if contains_any order unsafe_chars
    then (t, injection order ∷ [])
    else (record t { order_by = order }, [])

-- `Limit`
unfoldable pub set_limit : Table → ℤ → Logged
set_limit t limit =
    if ltb_ℤ limit (pos 0) then (t, negative_limit limit ∷ []) else (record t { limit = limit }, [])

-- `Page`
unfoldable pub set_page : Table → ℤ → ℤ → Table
set_page t page page_size =
    let page' = if ltb_ℤ page (pos 1) then pos 1 else page in
    let page_size' = if ltb_ℤ page_size (pos 1) then pos 20 else page_size in
    record t { limit = page_size'; offset = page_offset page' page_size' }

-- `Offset`
unfoldable pub set_offset : Table → ℤ → Logged
set_offset t offset =
    if ltb_ℤ offset (pos 0)
    then (t, negative_offset offset ∷ [])
    else (record t { offset = offset }, [])

-- `Fields`: the first bad field ends the loop, and the fields before it stay.
unfoldable pub add_fields : Table → List Text → Logged
add_fields t [] = (t, [])
add_fields t (field ∷ fields) =
    let rest = add_fields t fields in
    let added = add_fields (record t { fields = t.fields ++ field ∷ [] }) fields in
    if is_empty field
    then rest
    else if not (is_valid_field_name field)
    then (t, bad_field field ∷ [])
    else added

-- `Join`
unfoldable pub add_join : Table → Text → Logged
add_join t join =
    if is_empty join
    then (t, [])
    else if contains_any join unsafe_chars
    then (t, injection join ∷ [])
    else (record t { joins = t.joins ++ join ∷ [] }, [])

-- `GroupBy`
unfoldable pub set_group_by : Table → Text → Logged
set_group_by t group_by =
    if is_empty group_by
    then (t, [])
    else if contains_any group_by unsafe_chars
    then (t, injection group_by ∷ [])
    else (record t { group_by = group_by }, [])

-- `Having`
unfoldable pub set_having : Table → Text → Logged
set_having t having =
    if is_empty having
    then (t, [])
    else if contains_any having unsafe_chars
    then (t, injection having ∷ [])
    else (record t { having = having }, [])

-- `HasTotal`
unfoldable pub set_has_total : Table → Bool → Table
set_has_total t need = record t { has_total = need }

-- `GetTotal`
unfoldable pub get_total : Table → ℤ
get_total t = if not t.has_total then pos 0 else t.total
