-- ===== src/Mapper/Tests.antt =====
-- A struct that goes into a map.
use xlorm.Common.{arith, ℕ, Option, some, ◌≡◌, refl, [], ◌∷◌, true, false, none, pos}
use xlorm.Text.{Text, codes, eq_text}
use xlorm.Value.{Value, int, string}
use xlorm.Tags.{parse_field_meta, split, apply_options, apply_option, has_prefix, trim_prefix}
use xlorm.Mapper.{
  Fields, leaf, nested, no_field, string_leaf, int_leaf, struct_argument, Parsers, mapped,
  struct_to_map, to_map,
}
use xlorm.Row.{Row}
use xlorm.Effects.{Env}
use xlorm.Table.{Table, cleared}
use xlorm.Table.Change.{insert}
use xlorm.Mapper.Metadata.{get_callback, Layout, after, get_primary_keys, get_primary_key}
use xlorm.Mapper.Metadata.Keys.{KeysOf, get_primary_keys-KeysOf}
use xlorm.Mapper.Process.{skip_callback, to_map_with_options}
use xlorm.Mapper.Process.Struct.{struct_by_meta, struct_by_meta-struct_to_map}
use xlorm.Mapper.Process.Plain.{to_map_with_options-to_map}
use xlorm.Mapper.Columns.{columns, read_columns, outcome_at, struct_to_map-columns}
use xlorm.Mapper.Kept.{kept, to_map-struct_to_map}

abbrev no_parsers : Parsers
no_parsers = record {
  parse_int = λ s. none;
  parse_bool = λ s. none;
  parse_float32 = λ s. none;
  parse_float64 = λ s. none;
  parse_time = λ s. none;
}

-- The name of the struct inside replaces the one before it, and the empty city has a default.
abbrev user : Fields
user = leaf (codes "ID") (codes "id,pk") true (int_leaf (pos 7)) (
    leaf (codes "Name") (codes "name") true (string_leaf (codes "ann")) (
      nested (codes "Address") (codes "address") true
        (leaf (codes "City") (codes "city,default=Oslo") true (string_leaf [])
          (leaf (codes "Label") (codes "name") true (string_leaf (codes "home")) no_field))
        (leaf (codes "Note") (codes "note,omitempty") true (string_leaf [])
          (leaf (codes "Secret") (codes "-") false (int_leaf (pos 1)) no_field))))

user_map :
    struct_to_map no_parsers (struct_argument user)
    ≡ mapped (
        (codes "id", int (pos 7))
        ∷ (codes "name", string (codes "home"))
        ∷ (codes "city", string (codes "Oslo"))
        ∷ (codes "note", string [])
        ∷ [])
unfolding struct_to_map parse_field_meta split apply_options apply_option has_prefix trim_prefix
    eq_text codes xlorm.Dict.insert xlorm.Dict.Merge.insert_all
user_map = refl

struct_to_map-columns_example :
    outcome_at (codes "name") (struct_to_map no_parsers (struct_argument user))
    ≡ read_columns (codes "name") (columns no_parsers user) none
struct_to_map-columns_example = struct_to_map-columns no_parsers (codes "name") user

to_map-struct_to_map_example :
    to_map no_parsers (struct_argument user)
    ≡ struct_to_map no_parsers (struct_argument (kept user))
to_map-struct_to_map_example = to_map-struct_to_map no_parsers user

abbrev user_layout : ℕ → Layout
user_layout t = (codes "ID", codes "id,pk") ∷ (codes "Old", codes "old,pk,ignore") ∷ []

abbrev read_id : Text → Option Value
read_id name = some (int (pos 7))

keys_read :
    get_primary_keys user_layout read_id 3 (after user_layout (4 ∷ 3 ∷ []) [])
    ≡ some ((codes "ID", int (pos 7)) ∷ [])
unfolding get_primary_keys after parse_field_meta split apply_options apply_option has_prefix
    trim_prefix eq_text codes xlorm.Dict.insert
keys_read = refl

get_primary_keys-KeysOf_example :
    let cache = after user_layout (4 ∷ 3 ∷ []) [] in
    KeysOf read_id
      (user_layout 3)
      (get_primary_keys user_layout read_id 3 cache)
      (get_primary_key user_layout read_id 3 cache)
get_primary_keys-KeysOf_example = get_primary_keys-KeysOf user_layout read_id (4 ∷ 3 ∷ []) 3

to_map_with_options-to_map_example :
    to_map_with_options no_parsers [] (skip_callback ∷ []) 8 (struct_argument user)
    ≡ some (to_map no_parsers (struct_argument user))
unfolding get_callback xlorm.Dict.lookup codes eq_text
to_map_with_options-to_map_example =
    to_map_with_options-to_map no_parsers [] (skip_callback ∷ []) 8 user refl (tt, tt)
      (refl, (refl, (refl, (refl, (refl, tt)), (refl, (refl, tt))))) (ground arith)

abbrev people : Table
people = record cleared { table_name = codes "people" }

abbrev flat : Fields
flat =
    leaf (codes "Name") (codes "name") true (string_leaf (codes "ann"))
      (leaf (codes "Age") (codes "age") true (int_leaf (pos 7)) no_field)

abbrev no_server : Env
no_server = record {
  run_query = λ past text args. none;
  run_query_row = λ past text args. none;
  run_exec = λ past text args. none;
  begin_ok = λ past. false;
  commit_ok = λ past. false;
  rollback_ok = λ past. false;
  elapsed = λ past. 0;
  slice_fits = λ n. true;
}

abbrev flat_row : Row
flat_row = (codes "name", string (codes "ann")) ∷ (codes "age", int (pos 7)) ∷ []

struct_by_meta-struct_to_map_example :
    struct_by_meta no_parsers 8 user ≡ some (struct_to_map no_parsers (struct_argument user))
unfolding get_callback xlorm.Dict.lookup codes eq_text
struct_by_meta-struct_to_map_example =
    struct_by_meta-struct_to_map no_parsers 8 user (ground arith)
      (refl, (refl, (refl, (refl, (refl, tt)), (refl, (refl, tt)))))
