-- ===== src/Debug.antt =====
-- debug.go: the statements as texts for the developer. The verbs %f and %v of the package fmt and the layout
-- of the package time are the parameter `Printer`. The Print methods only log what these return.
pub mod Marks
pub mod Sent
mod Tests
use xlorm.Common.{
  ℕ, List, [], ◌∷◌, ◌++◌, Bool, true, false, ◌==◌, if◌then◌else◌, drop, replicate, length, Option,
  none, some, ℤ, map,
}
use xlorm.Text.{Text, codes, join, concat, format_int}
use xlorm.Value.{Value, null, string, int, float, bool, time, bytes, other}
use xlorm.Extract.{Input, extract_fields_and_values}
use xlorm.Effects.{LogEntry}
use xlorm.Table.{Table}
use xlorm.Table.Find.{spread}
use xlorm.Table.Query.{build_query}
use xlorm.Table.Change.{
  Outcome, ok, err, extract_failed, no_fields, build_insert_sql, build_update_sql,
}

pub record Printer : Type 0 where
  pub float_text : ℕ → Text
  pub time_text : ℕ → Text
  pub any_text : Value → Text

module _ (p : Printer) where
  open p use {float_text, time_text, any_text}

  abbrev quoted : Text → Text
  quoted s = codes "'" ++ (s ++ codes "'")

  -- The text that stands for an argument.
  unfoldable pub literal : Value → Text
  literal null = codes "NULL"
  literal (string s) = quoted s
  literal (int n) = format_int n
  literal (float x) = float_text x
  literal (bool b) = if b then codes "TRUE" else codes "FALSE"
  literal (time t) = quoted (time_text t)
  literal (bytes b) = quoted (any_text (bytes b))
  literal (other x) = quoted (any_text (other x))

  -- The text for the next question mark.
  unfoldable pub next_literal : List Value → Text
  unfolding literal
  next_literal [] = codes "NULL"
  next_literal (v ∷ vs) = literal v

  -- `formatSQL`, and the same loop in `FormatQuerySQL`.
  unfoldable pub format_sql : Text → List Value → Text
  unfolding next_literal
  format_sql [] args = []
  format_sql (c ∷ query) args =
      let is_mark = c == b'?' in
      let rest = format_sql query (if is_mark then drop 1 args else args) in
      if is_mark then next_literal args ++ rest else c ∷ rest

-- `GetQuerySQL`, which reads a copy of the table, and what that logs.
unfoldable pub get_query_sql : Text → Table → (Text × Option (List Value)) × List LogEntry
unfolding build_query
get_query_sql query_type t =
    let (_, text, args, es) = build_query query_type t in ((text, args), es)

-- `FormatQuerySQL`
unfoldable pub format_query_sql : Printer → Text → Table → Text
unfolding format_sql get_query_sql
format_query_sql p query_type t =
    let ((text, args), es) = get_query_sql query_type t in format_sql p text (spread args)

-- `GetInsertSQL`
unfoldable pub get_insert_sql : Table → Input → Outcome (Text × List Value)
unfolding build_insert_sql
get_insert_sql t input = elim (extract_fields_and_values input) [
  | none ↦ err extract_failed
  | some (fields, values) ↦ elim (build_insert_sql (codes "INSERT") t fields) [
    | none ↦ err no_fields
    | some text ↦ ok (text, values)
  ]
]

abbrev formatted : Printer → Outcome (Text × List Value) → Outcome Text
formatted p (err e) = err e
formatted p (ok (text, args)) = ok (format_sql p text args)

-- `FormatInsertSQL`
unfoldable pub format_insert_sql : Printer → Table → Input → Outcome Text
unfolding get_insert_sql format_sql
format_insert_sql p t input = formatted p (get_insert_sql t input)

-- The values of all items, each in the order of its own fields.
unfoldable pub batch_values : List Input → Option (List Value)
batch_values [] = some []
batch_values (item ∷ items) =
    let rest = batch_values items in
    elim (extract_fields_and_values item) [
      | none ↦ none
      | some (_, values) ↦ elim rest [ none ↦ none | some more ↦ some (values ++ more) ]
    ]

-- The text of an insert of `n` items of the given fields.
unfoldable pub batch_insert_text : Table → List Text → ℕ → Text
batch_insert_text t fields n =
    let group =
      codes "(" ++ (join (replicate (length fields) (codes "?")) (codes ", ") ++ codes ")") in
    concat (
      codes "INSERT INTO "
      ∷ t.table_name
      ∷ codes " ("
      ∷ join fields (codes ", ")
      ∷ codes ") VALUES "
      ∷ join (replicate n group) (codes ", ")
      ∷ [])

-- `GetBatchInsertSQL`
unfoldable pub get_batch_insert_sql : Table → List Input → Outcome (Text × List Value)
unfolding batch_values batch_insert_text
get_batch_insert_sql t [] = ok ([], [])
get_batch_insert_sql t (first ∷ items) = elim (extract_fields_and_values first) [
  | none ↦ err extract_failed
  | some (fields, _) ↦ elim (batch_values (first ∷ items)) [
    | none ↦ err extract_failed
    | some values ↦ ok (batch_insert_text t fields (length (first ∷ items)), values)
  ]
]

-- `FormatBatchInsertSQL`
unfoldable pub format_batch_insert_sql : Printer → Table → List Input → Outcome Text
unfolding get_batch_insert_sql format_sql
format_batch_insert_sql p t items = formatted p (get_batch_insert_sql t items)

-- The statement with its arguments, those of the columns first.
abbrev with_values : List Value → Outcome (Text × List Value) → Outcome (Text × List Value)
with_values values (err e) = err e
with_values values (ok (text, where_args)) = ok (text, values ++ where_args)

-- `GetUpdateSQL`: the table afterwards, the statement, and what it logs.
unfoldable pub get_update_sql : Table → Input → Table × Outcome (Text × List Value) × List LogEntry
unfolding build_update_sql
get_update_sql t input = elim (extract_fields_and_values input) [
  | none ↦ (t, err extract_failed, [])
  | some (fields, values) ↦
      let (t', statement, es) = build_update_sql t fields in (t', with_values values statement, es)
]

-- `FormatUpdateSQL`
unfoldable pub format_update_sql : Printer → Table → Input → Table × Outcome Text × List LogEntry
unfolding get_update_sql format_sql
format_update_sql p t input =
    let (t', statement, es) = get_update_sql t input in (t', formatted p statement, es)
