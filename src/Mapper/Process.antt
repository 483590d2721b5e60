-- ===== src/Mapper/Process.antt =====
-- structmapper.go: `processValue` as it goes over the metadata, with the callback under `_global`, the options of
-- `ToMap` and `ToMapWithOptions`, and the dialect. The callbacks of a field stay empty in the source.
-- `none` means that the fuel is used up.
pub mod Order
pub mod Rounds
pub mod Plain
pub mod Struct
use xlorm.Common.{ℕ, zero, suc, List, [], ◌∷◌, Bool, true, false, if◌then◌else◌, Option, none, some}
use xlorm.Text.{Text, codes, eq_text}
use xlorm.Dict.{Dict, insert, lookup}
use xlorm.Dict.Merge.{insert_all}
use xlorm.Row.{Row}
use xlorm.Tags.{FieldMeta, bare}
use xlorm.Mapper.{
  Leaf, Fields, no_field, leaf, nested, Argument, struct_argument, pointer_argument, other_argument,
  Parsers, Result, mapped, failed, panicked, left_out, field_value,
}
use xlorm.Mapper.Metadata.{Layout, StructMeta, collect, no_meta, get_callback}

-- What a callback is given and returns: a struct, a map, or another value. `none` is its error.
pub data Object : Type 0 where
  struct_object : Fields → Object
  map_object : Row → Object
  other_object : Object

abbrev pub Callback : Type 0
Callback = Object → Option Object

-- `structConfig`, with `QuoteIdentifier` of its dialect.
pub record StructConfig : Type 0 where
  pub skip_default : Bool
  pub skip_before : Bool
  pub skip_after : Bool
  pub quote : Text → Text

-- `structOption`
pub data StructOption : Type 0 where
  skip_default : StructOption
  skip_callback : StructOption
  with_dialect : (Text → Text) → StructOption

unfoldable pub apply_option : StructOption → StructConfig → StructConfig
apply_option skip_default cfg = record cfg { skip_default = true }
apply_option skip_callback cfg = record cfg { skip_before = true; skip_after = true }
apply_option (with_dialect quote) cfg = record cfg { quote = quote }

-- The options in their order, from the values of `NewStructMapper`.
unfoldable pub apply_options : List StructOption → StructConfig → StructConfig
unfolding apply_option
apply_options [] cfg = cfg
apply_options (o ∷ os) cfg = apply_options os (apply_option o cfg)

abbrev pub default_config : StructConfig
default_config = record {
  skip_default = false;
  skip_before = false;
  skip_after = false;
  quote = λ s. s;
}

-- What the package reflect says of a type.
abbrev pub layout_of : Fields → Layout
layout_of no_field = []
layout_of (leaf name tag exported v rest) = (name, tag) ∷ layout_of rest
layout_of (nested name tag exported inner rest) = (name, tag) ∷ layout_of rest

-- `FieldByName`
pub data Found : Type 0 where
  found_leaf : Bool → Leaf → Found
  found_nested : Bool → Fields → Found

abbrev pub field_by_name : Text → Fields → Option Found
field_by_name key no_field = none
field_by_name key (leaf name tag exported v rest) =
    let later = field_by_name key rest in
    if eq_text name key then some (found_leaf exported v) else later
field_by_name key (nested name tag exported inner rest) =
    let later = field_by_name key rest in
    if eq_text name key then some (found_nested exported inner) else later

abbrev pub find_in : Option Fields → Text → Option Found
find_in none key = none
find_in (some fields) key = field_by_name key fields

abbrev pub meta_at : Text → StructMeta → FieldMeta
meta_at name m = elim (lookup name m.fields) [ none ↦ bare [] | some meta ↦ meta ]

abbrev pub Outcome : Type 0
Outcome = Option (Result Row)

-- The map of an inner struct goes into the result.
abbrev pub put_nested : Row → Outcome → Outcome
put_nested result none = none
put_nested result (some (mapped inner)) = some (mapped (insert_all inner result))
put_nested result (some failed) = some failed
put_nested result (some panicked) = some panicked

-- The loop goes on behind a round that succeeded.
abbrev pub proceed : (Row → Outcome) → Outcome → Outcome
proceed go none = none
proceed go (some (mapped next)) = go next
proceed go (some failed) = some failed
proceed go (some panicked) = some panicked

module _ (parsers : Parsers) (quote : Text → Text) where
  -- One round of the loop, for a value that `FieldByName` found; it panics on a missing one.
  unfoldable pub process_field : (Fields → Outcome) → FieldMeta → Option Found → Row → Outcome
  unfolding left_out field_value
  process_field inside meta none result = some panicked
  process_field inside meta (some (found_leaf exported v)) result =
      elim (left_out meta exported v) [
        | true ↦ some (mapped result)
        | false ↦ elim (field_value parsers meta exported v) [
          | mapped w ↦ some (mapped (insert (quote meta.db_name) w result))
          | failed ↦ some failed
          | panicked ↦ some panicked
        ]
      ]
  process_field inside meta (some (found_nested exported inner)) result = elim exported [
    | true ↦ put_nested result (inside inner)
    | false ↦ some (mapped result)
  ]

-- The loop over `fieldOrder`, for what it does with a field.
unfoldable pub process_order :
    (FieldMeta → Option Found → Row → Outcome)
    → StructMeta
    → (Text → Option Found)
    → List Text
    → Row
    → Outcome
process_order round m found [] result = some (mapped result)
process_order round m found (name ∷ names) result =
    proceed (process_order round m found names) (round (meta_at name m) (found name) result)

-- The struct that the callback makes of a value; any other value has no fields.
unfoldable pub before_fields : Option Callback → Fields → Result (Option Fields)
before_fields none fields = mapped (some fields)
before_fields (some cb) fields = elim (cb (struct_object fields)) [
  | none ↦ failed
  | some o ↦ elim o [
    | struct_object changed ↦ mapped (some changed)
    | map_object row ↦ mapped none
    | other_object ↦ mapped none
  ]
]

-- The map that the callback makes of the result; another value does not pass the type assertion.
unfoldable pub after_fields : Option Callback → Outcome → Outcome
after_fields none r = r
after_fields (some cb) none = none
after_fields (some cb) (some failed) = some failed
after_fields (some cb) (some panicked) = some panicked
after_fields (some cb) (some (mapped row)) = elim (cb (map_object row)) [
  | none ↦ some failed
  | some o ↦ elim o [
    | map_object changed ↦ some (mapped changed)
    | struct_object fields ↦ some panicked
    | other_object ↦ some panicked
  ]
]

module _ (parsers : Parsers) where
  -- `processValue`, of a struct.
  unfoldable pub process_value : Option Callback → (Text → Text) → ℕ → Fields → Outcome
  unfolding before_fields after_fields process_field process_order collect
  process_value cb quote zero fields = none
  process_value cb quote (suc fuel) fields =
      let m = collect (layout_of fields) no_meta in
      elim (before_fields cb fields) [
        | mapped changed ↦ after_fields cb (
            process_order (process_field parsers quote (process_value cb quote fuel)) m
              (find_in changed) m.field_order [])
        | failed ↦ some failed
        | panicked ↦ some panicked
      ]

  -- `ToMap` and `ToMapWithOptions`
  unfoldable pub to_map_with_options : Dict Callback → List StructOption → ℕ → Argument → Outcome
  unfolding process_value apply_options get_callback
  to_map_with_options registered options fuel arg =
      let quote = (apply_options options default_config).quote in
      let cb = get_callback (codes "_global") registered in
      elim arg [
        | struct_argument fields ↦ process_value cb quote fuel fields
        | pointer_argument p ↦ elim p [
          | some fields ↦ process_value cb quote fuel fields
          | none ↦ some (mapped [])
        ]
        | other_argument ↦ some failed
      ]
