-- ===== src/Tags.antt =====
-- structmapper.go: the tags of struct fields, `parseFieldMeta`. The prefix and the callbacks of a field stay
-- empty in the source and are left out.
pub mod RoundTrip
mod Tests
use xlorm.Common.{ℕ, List, [], ◌∷◌, Bool, true, false, ◌&&◌, ◌==◌, if◌then◌else◌, drop, length}
use xlorm.Text.{Text, codes, eq_text}

-- `fieldMeta`
pub record FieldMeta : Type 0 where
  pub db_name : Text
  pub sql_type : Text
  pub default_val : Text
  pub ignored : Bool
  pub required : Bool
  pub omitempty : Bool
  pub is_pk : Bool
  pub has_default : Bool

abbrev before_first : ℕ → List Text → List Text
before_first c [] = (c ∷ []) ∷ []
before_first c (part ∷ parts) = (c ∷ part) ∷ parts

-- `strings.Split(s, sep)` for a separator of one byte.
unfoldable pub split : Text → ℕ → List Text
split [] sep = [] ∷ []
split (c ∷ s) sep = let rest = split s sep in if c == sep then [] ∷ rest else before_first c rest

-- `strings.HasPrefix(s, prefix)`
unfoldable pub has_prefix : Text → Text → Bool
has_prefix s [] = true
has_prefix [] (p ∷ ps) = false
has_prefix (c ∷ s) (p ∷ ps) = c == p && has_prefix s ps

-- `strings.TrimPrefix(s, prefix)`
unfoldable pub trim_prefix : Text → Text → Text
unfolding has_prefix
trim_prefix s prefix = if has_prefix s prefix then drop (length prefix) s else s

abbrev pub bare : Text → FieldMeta
bare name = record {
  db_name = name;
  sql_type = [];
  default_val = [];
  ignored = false;
  required = false;
  omitempty = false;
  is_pk = false;
  has_default = false;
}

-- The switch over one option.
unfoldable pub apply_option : Text → FieldMeta → FieldMeta
unfolding has_prefix trim_prefix
apply_option part meta =
    if eq_text part (codes "pk")
    then record meta { is_pk = true }
    else if eq_text part (codes "required")
    then record meta { required = true }
    else if eq_text part (codes "omitempty")
    then record meta { omitempty = true }
    else if has_prefix part (codes "type=")
    then record meta { sql_type = trim_prefix part (codes "type=") }
    else if has_prefix part (codes "default=")
    then record meta { has_default = true; default_val = trim_prefix part (codes "default=") }
    else if eq_text part (codes "ignore")
    then record meta { ignored = true }
    else meta

unfoldable pub apply_options : List Text → FieldMeta → FieldMeta
unfolding apply_option
apply_options [] meta = meta
apply_options (part ∷ parts) meta = apply_options parts (apply_option part meta)

abbrev parse_parts : List Text → FieldMeta
parse_parts [] = bare []
parse_parts (name ∷ options) = apply_options options (bare name)

-- `parseFieldMeta`, of the text of the tag `db`.
unfoldable pub parse_field_meta : Text → FieldMeta
unfolding split apply_options
parse_field_meta tag =
    if eq_text tag (codes "-")
    then record (bare []) { ignored = true }
    else parse_parts (split tag b',')
