-- ===== src/Mapper.antt =====
-- structmapper.go: `StructToMap` and `ToMap`, over what the code reads of a value by the package reflect, with the
-- converters of `NewStructMapper`, no callback, and the default options.
pub mod Columns
pub mod Kept
pub mod Inserted
pub mod Converters
pub mod Metadata
pub mod Process
mod Tests
use xlorm.Common.{
  ℕ, List, [], ◌∷◌, ◌++◌, Bool, true, false, ◌&&◌, ◌==◌, if◌then◌else◌, Option, none, some, ℤ, ◌||◌,
  not, is_empty,
}
use xlorm.Text.{Text}
use xlorm.Value.{Value, string, int, float, bool, time}
use xlorm.Dict.{Dict, insert}
use xlorm.Dict.Merge.{insert_all}
use xlorm.Row.{Row}
use xlorm.Tags.{FieldMeta, parse_field_meta}

-- A value that is no struct to be taken apart, by its kind: the basic kinds with a converter and the struct
-- `time.Time`, then what may be nil (a pointer, an interface), what has a length (a slice, a map, an array),
-- and the other kinds.
pub data Leaf : Type 0 where
  string_leaf : Text → Leaf
  int_leaf : ℤ → Leaf
  int64_leaf : ℤ → Leaf
  bool_leaf : Bool → Leaf
  float32_leaf : ℕ → Leaf
  float64_leaf : ℕ → Leaf
  time_leaf : ℕ → Leaf
  nilable_leaf : Bool → Value → Leaf
  sized_leaf : ℕ → Value → Leaf
  other_leaf : Value → Leaf

-- The fields of a struct in their order: the name, the tag `db`, whether it is exported, and the value, where
-- a struct other than `time.Time` has fields of its own. The names of a struct differ, so a field is
-- found by its name at its place.
pub data Fields : Type 0 where
  no_field : Fields
  leaf : Text → Text → Bool → Leaf → Fields → Fields
  nested : Text → Text → Bool → Fields → Fields → Fields

-- The argument of a conversion: a struct, a pointer to one, or a value of another kind.
pub data Argument : Type 0 where
  struct_argument : Fields → Argument
  pointer_argument : Option Fields → Argument
  other_argument : Argument

-- `Interface()`
unfoldable pub interface_of : Leaf → Value
interface_of (string_leaf s) = string s
interface_of (int_leaf n) = int n
interface_of (int64_leaf n) = int n
interface_of (bool_leaf b) = bool b
interface_of (float32_leaf x) = float x
interface_of (float64_leaf x) = float x
interface_of (time_leaf t) = time t
interface_of (nilable_leaf is_nil v) = v
interface_of (sized_leaf n v) = v
interface_of (other_leaf v) = v

-- `isEmptyValue`
unfoldable pub is_empty_value : Leaf → Bool
is_empty_value (string_leaf s) = is_empty s
is_empty_value (int_leaf n) = false
is_empty_value (int64_leaf n) = false
is_empty_value (bool_leaf b) = false
is_empty_value (float32_leaf x) = false
is_empty_value (float64_leaf x) = false
is_empty_value (time_leaf t) = false
is_empty_value (nilable_leaf is_nil v) = is_nil
is_empty_value (sized_leaf n v) = n == 0
is_empty_value (other_leaf v) = false

-- What the converters use of the packages strconv and time; `none` is an error.
pub record Parsers : Type 0 where
  pub parse_int : Text → Option ℤ
  pub parse_bool : Text → Option Bool
  pub parse_float32 : Text → Option ℕ
  pub parse_float64 : Text → Option ℕ
  pub parse_time : Text → Option ℕ

-- What a conversion gives: the map or the field, an error, or a panic.
pub data Result {ℓ} (A : Type ℓ) : Type ℓ where
  mapped : A → Result A
  failed : Result A
  panicked : Result A

-- An answer whose `none` is an error.
unfoldable pub of_parsed {ℓ κ} : {A : Type ℓ} {B : Type κ} → (A → B) → Option A → Result B
of_parsed f none = failed
of_parsed f (some a) = mapped (f a)

-- What `Interface()` gives of a field: it panics on one that is not exported.
unfoldable pub exported_value : Bool → Leaf → Result Value
unfolding interface_of
exported_value exported v = if exported then mapped (interface_of v) else panicked

-- The fields that `processValue` passes over: those that are not exported, and the empty ones that their
-- tag leaves out.
unfoldable pub left_out : FieldMeta → Bool → Leaf → Bool
unfolding is_empty_value
left_out meta exported v =
    meta.ignored || (not exported || (meta.omitempty && (is_empty_value v && not meta.has_default)))

module _ (parsers : Parsers) where
  open parsers use {parse_int, parse_bool, parse_float32, parse_float64, parse_time}

  -- `convertValue`, with the converters of `NewStructMapper`, for the kind of a value.
  unfoldable pub convert_value : Text → Leaf → Result Value
  unfolding of_parsed
  convert_value s (string_leaf v) = mapped (string s)
  convert_value s (int_leaf v) = of_parsed int (parse_int s)
  convert_value s (int64_leaf v) = of_parsed int (parse_int s)
  convert_value s (bool_leaf v) = of_parsed bool (parse_bool s)
  convert_value s (float32_leaf v) = of_parsed float (parse_float32 s)
  convert_value s (float64_leaf v) = of_parsed float (parse_float64 s)
  convert_value s (time_leaf v) = of_parsed time (parse_time s)
  convert_value s (nilable_leaf is_nil v) = failed
  convert_value s (sized_leaf n v) = failed
  convert_value s (other_leaf v) = failed

  -- The value that a field puts into the map.
  unfoldable pub field_value : FieldMeta → Bool → Leaf → Result Value
  unfolding is_empty_value convert_value exported_value
  field_value meta exported v =
      if is_empty_value v && meta.has_default
      then convert_value meta.default_val v
      else exported_value exported v

  -- The loop of `StructToMap` over the fields, with its `result`.
  unfoldable pub map_fields : Fields → Row → Result Row
  unfolding field_value
  map_fields no_field result = mapped result
  map_fields (leaf name tag exported v rest) result =
      let meta = parse_field_meta tag in
      elim meta.ignored [
        | true ↦ map_fields rest result
        | false ↦ elim (field_value meta exported v) [
          | mapped w ↦ map_fields rest (insert meta.db_name w result)
          | failed ↦ failed
          | panicked ↦ panicked
        ]
      ]
  map_fields (nested name tag exported inner rest) result = elim (parse_field_meta tag).ignored [
    | true ↦ map_fields rest result
    | false ↦ elim exported [
      | true ↦ elim (map_fields inner []) [
        | mapped nested_map ↦ map_fields rest (insert_all nested_map result)
        | failed ↦ failed
        | panicked ↦ panicked
      ]
      | false ↦ panicked
    ]
  ]

  -- The loop of `processValue`.
  unfoldable pub process_fields : Fields → Row → Result Row
  unfolding left_out field_value
  process_fields no_field result = mapped result
  process_fields (leaf name tag exported v rest) result =
      let meta = parse_field_meta tag in
      elim (left_out meta exported v) [
        | true ↦ process_fields rest result
        | false ↦ elim (field_value meta exported v) [
          | mapped w ↦ process_fields rest (insert meta.db_name w result)
          | failed ↦ failed
          | panicked ↦ panicked
        ]
      ]
  process_fields (nested name tag exported inner rest) result =
      elim ((parse_field_meta tag).ignored || not exported) [
        | true ↦ process_fields rest result
        | false ↦ elim (process_fields inner []) [
          | mapped nested_map ↦ process_fields rest (insert_all nested_map result)
          | failed ↦ failed
          | panicked ↦ panicked
        ]
      ]

  -- `StructToMap`; a nil pointer has no struct behind it.
  unfoldable pub struct_to_map : Argument → Result Row
  unfolding map_fields
  struct_to_map (struct_argument fields) = map_fields fields []
  struct_to_map (pointer_argument (some fields)) = map_fields fields []
  struct_to_map (pointer_argument none) = failed
  struct_to_map other_argument = failed

  -- `ToMap`, which makes a nil map of a nil pointer.
  unfoldable pub to_map : Argument → Result Row
  unfolding process_fields
  to_map (struct_argument fields) = process_fields fields []
  to_map (pointer_argument (some fields)) = process_fields fields []
  to_map (pointer_argument none) = mapped []
  to_map other_argument = failed
