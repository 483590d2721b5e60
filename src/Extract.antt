-- ===== src/Extract.antt =====
-- utils.go: fields and values of the data of an insert or an update.
use xlorm.Common.{
  List, [], ◌∷◌, ◌++◌, Bool, true, false, Option, none, some, if◌then◌else◌, ltb, ◌==◌,
}
use xlorm.Text.{Text}
use xlorm.Value.{Value}
use xlorm.Row.{Row, keys, value_at}

-- The order of strings: bytewise.
unfoldable pub leb_text : Text → Text → Bool
leb_text [] t = true
leb_text (c ∷ s) [] = false
leb_text (c ∷ s) (d ∷ t) = if ltb c d then true else if c == d then leb_text s t else false

unfoldable pub insert_sorted : Text → List Text → List Text
unfolding leb_text
insert_sorted t [] = t ∷ []
insert_sorted t (u ∷ us) = if leb_text t u then t ∷ u ∷ us else u ∷ insert_sorted t us

-- `sort.Strings`: the sorted list of the same strings, of which there is one.
unfoldable pub sort_strings : List Text → List Text
unfolding insert_sorted
sort_strings [] = []
sort_strings (t ∷ ts) = insert_sorted t (sort_strings ts)

-- `m[field]` for each field
unfoldable pub values_at : List Text → Row → List Value
values_at [] m = []
values_at (field ∷ fields) m = value_at field m ∷ values_at fields m

-- `extractFromMap`; it never fails.
unfoldable pub extract_from_map : Row → List Text × List Value
unfolding sort_strings values_at
extract_from_map m = (sort_strings (keys m), values_at (sort_strings (keys m)) m)

unfoldable pub all_values : List Text → List Row → List Value
unfolding values_at
all_values fields [] = []
all_values fields (m ∷ ms) = values_at fields m ++ all_values fields ms

-- `extractFromMapSlice`: the fields are those of the first map.
unfoldable pub extract_from_map_slice : List Row → Option (List Text × List Value)
unfolding extract_from_map all_values
extract_from_map_slice [] = none
extract_from_map_slice (m ∷ ms) =
    some ((extract_from_map m).0, all_values (extract_from_map m).0 (m ∷ ms))

-- The data of an insert or an update. A struct stands for what `StructToMap` makes of it (`none`: it
-- fails).
pub data Input : Type 0 where
  of_map : Row → Input
  of_maps : List Row → Input
  of_struct : Option Row → Input

-- `extractFieldsAndValues`
unfoldable pub extract_fields_and_values : Input → Option (List Text × List Value)
unfolding extract_from_map extract_from_map_slice
extract_fields_and_values (of_map m) = some (extract_from_map m)
extract_fields_and_values (of_maps ms) = extract_from_map_slice ms
extract_fields_and_values (of_struct none) = none
extract_fields_and_values (of_struct (some m)) = some (extract_from_map m)
