-- ===== src/Table/Query.antt =====
-- table.go: the SQL texts that a table builds.
use xlorm.Common.{
  List, [], ◌∷◌, ◌++◌, Bool, true, if◌then◌else◌, is_empty, Option, none, some, pos, ltb_ℤ,
}
use xlorm.Text.{Text, codes, eq_text, join, concat, format_int}
use xlorm.Condition.{where_text}
use xlorm.Value.{Value}
use xlorm.Effects.{LogEntry, unsupported_query}
use xlorm.Table.{Table}

-- `GetWhere`: the table afterwards, the clause and its arguments.
unfoldable pub get_where : Bool → Table → Table × Text × List Value
get_where add_pre_str t = if is_empty t.wheres then (t, [], []) else (
  record t { condition_flags = 0; condition_index = 0 },
  where_text add_pre_str t.condition_flags t.wheres,
  t.args,
)

-- The start of a query of a supported type.
unfoldable pub base_text : Text → Table → Option Text
base_text query_type t =
    if eq_text query_type (codes "SELECT")
    then some (
        concat (
          codes "SELECT "
          ∷ (if is_empty t.fields
              then codes "*"
              else codes "`" ++ (join t.fields (codes "`, `") ++ codes "`"))
          ∷ codes " FROM "
          ∷ t.table_name
          ∷ []))
    else if eq_text query_type (codes "COUNT")
    then some (codes "SELECT COUNT(*) FROM " ++ t.table_name)
    else if eq_text query_type (codes "DELETE")
    then some (codes "DELETE FROM " ++ t.table_name)
    else none

unfoldable pub joins_text : List Text → Text
joins_text [] = []
joins_text (join ∷ joins) = codes " " ++ (join ++ joins_text joins)

abbrev pub group_text : Table → Text
group_text t =
    if is_empty t.group_by
    then []
    else codes " GROUP BY "
      ++ (t.group_by ++ (if is_empty t.having then [] else codes " HAVING " ++ t.having))

abbrev pub order_text : Table → Text
order_text t = if is_empty t.order_by then [] else codes " ORDER BY " ++ t.order_by

-- An offset is written only behind a limit.
abbrev pub limit_text : Table → Text
limit_text t =
    if ltb_ℤ (pos 0) t.limit
    then codes " LIMIT "
      ++ (format_int t.limit
          ++ (if ltb_ℤ (pos 0) t.offset then codes " OFFSET " ++ format_int t.offset else []))
    else []

-- The text of a query behind its start.
unfoldable pub tail_text : Table → Text
unfolding get_where joins_text
tail_text t =
    concat
      (joins_text t.joins ∷ (get_where true t).1 ∷ group_text t ∷ order_text t ∷ limit_text t ∷ [])

-- `buildQuery`: the table afterwards, the query, its arguments (`none` is the nil slice), and what it
-- logs.
unfoldable pub build_query : Text → Table → Table × Text × Option (List Value) × List LogEntry
unfolding base_text tail_text get_where
build_query query_type t = elim (base_text query_type t) [
  | none ↦ (t, [], none, unsupported_query query_type ∷ [])
  | some base ↦ (
    (get_where true t).0,
    base ++ tail_text t,
    (if is_empty t.wheres then none else some (get_where true t).2),
    [],
  )
]

-- `copyQueryConditions`
unfoldable pub copy_query_conditions : Table → Table → Table
copy_query_conditions t target = record target {
  wheres = if is_empty t.wheres then target.wheres else t.wheres;
  args = if is_empty t.args then target.args else t.args;
  joins = if is_empty t.joins then target.joins else t.joins;
  group_by = t.group_by;
  having = t.having;
}
