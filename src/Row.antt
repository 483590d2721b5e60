-- ===== src/Row.antt =====
-- Rows: Go maps from column names to values, in the order in which the map is iterated.
use xlorm.Common.{List, [], ◌∷◌, if◌then◌else◌}
use xlorm.Text.{Text, eq_text}
use xlorm.Value.{Value, null}
use xlorm.Dict.{Dict}
unfoldable pub use xlorm.Dict.{insert, lookup}

abbrev pub Row : Type 0
Row = Dict Value

-- `m[key]` where a missing key reads as nil.
unfoldable pub value_at : Text → Row → Value
value_at key [] = null
value_at key ((k, v) ∷ m) = if eq_text k key then v else value_at key m

unfoldable pub keys : Row → List Text
keys [] = []
keys ((k, v) ∷ m) = k ∷ keys m
