-- ===== src/Mapper/Inserted.antt =====
-- An insert of a struct, from its columns to the statement: `StructToMap`, `extractFieldsAndValues` and `insert`.
use xlorm.Common.{◌≡◌, List, [], ◌∷◌, Option, none, some}
use xlorm.Text.{Text}
use xlorm.Value.{Value}
use xlorm.Row.{Row}
use xlorm.Table.{Table}
use xlorm.Mapper.{Fields, Parsers, Result, mapped, failed, panicked}
use xlorm.Mapper.Columns.{columns, read_columns}

-- What `extractFieldsAndValues` goes on with; a panic ends it as an error does.
abbrev pub row_of : Result Row → Option Row
row_of (mapped m) = some m
row_of failed = none
row_of panicked = none

module _ (parsers : Parsers) (fields : Fields) where
  -- Each name is sent with the value of the last column of that name.
  abbrev pub AreColumns : List Text → List Value → Type 0
  AreColumns [] [] = Unit
  AreColumns [] (v ∷ vs) = ⊥
  AreColumns (n ∷ ns) [] = ⊥
  AreColumns (n ∷ ns) (v ∷ vs) =
      (read_columns n (columns parsers fields) none ≡ mapped (some v)) × AreColumns ns vs
