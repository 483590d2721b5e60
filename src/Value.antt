-- ===== src/Value.antt =====
-- `interface{}` values that reach a statement as arguments, and rows as maps from column names.
use xlorm.Common.{ℕ, Bool, ℤ}
use xlorm.Text.{Text}

-- A float, a time and a value of any other type stand for themselves: the code never looks inside.
pub data Value : Type 0 where
  null : Value
  string : Text → Value
  int : ℤ → Value
  float : ℕ → Value
  bool : Bool → Value
  time : ℕ → Value
  bytes : Text → Value
  other : ℕ → Value
