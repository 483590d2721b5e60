-- ===== src/Builder/Build.antt =====
-- `GetWhere`, `Build` and `ReleaseBuilder` of builder.go.
use xlorm.Common.{◌∷◌, List, [], ◌++◌, Bool, true, if◌then◌else◌, is_empty, pos, ltb_ℤ}
use xlorm.Text.{Text, codes, join, concat, format_int}
use xlorm.Condition.{where_text}
use xlorm.Value.{Value}
use xlorm.Builder.{Builder, BuildError, reset}

-- `GetWhere`: the builder afterwards, the clause and its arguments.
unfoldable pub get_where : Bool → Builder → Builder × Text × List Value
get_where add_pre_str b = if is_empty b.wheres then (b, [], []) else (
  record b { condition_flags = 0; condition_index = 0 },
  where_text add_pre_str b.condition_flags b.wheres,
  b.args,
)

abbrev pub select_list : Builder → Text
select_list b =
    if is_empty b.fields
    then codes "*"
    else codes "`" ++ (join b.fields (codes "`, `") ++ codes "`")

abbrev pub joins_text : Builder → Text
joins_text b = if is_empty b.joins then [] else codes " " ++ join b.joins (codes " ")

abbrev pub where_clause : Builder → Text
where_clause b = if is_empty b.wheres then [] else (get_where true b).1

-- A clause that is written only if its text is not empty.
abbrev pub optional : Text → Text → Text
optional keyword text = if is_empty text then [] else keyword ++ text

abbrev pub limit_text : Builder → Text
limit_text b = if ltb_ℤ (pos 0) b.limit then codes " LIMIT " ++ format_int b.limit else []

abbrev pub offset_text : Builder → Text
offset_text b = if ltb_ℤ (pos 0) b.offset then codes " OFFSET " ++ format_int b.offset else []

abbrev pub lock_text : Builder → Text
lock_text b = if b.for_update then codes " FOR UPDATE" else []

-- The text that the writes of `Build` add up to, in their order.
unfoldable pub query_text : Builder → Text
unfolding get_where
query_text b = concat (
    codes "SELECT "
    ∷ select_list b
    ∷ codes " FROM "
    ∷ b.table
    ∷ joins_text b
    ∷ where_clause b
    ∷ optional (codes " GROUP BY ") b.group_by
    ∷ optional (codes " HAVING ") b.having
    ∷ optional (codes " ORDER BY ") b.order_by
    ∷ limit_text b
    ∷ offset_text b
    ∷ lock_text b
    ∷ [])

-- `Build`: the query, its arguments, the errors (none means a nil error), and the builder that goes
-- back to the pool.
unfoldable pub build : Builder → Text × List Value × List BuildError × Builder
unfolding query_text reset
build b = (query_text b, b.args, b.errs, reset b)
