-- ===== src/Condition.antt =====
-- The condition flags of table.go, and the WHERE text that builder.go and table.go write alike.
pub mod Laws
use Prim.Native.Nat.{bit_and}
use xlorm.Common.{ℕ, ◌+◌, List, [], ◌∷◌, ◌++◌, Bool, not, ltb, ◌==◌, if◌then◌else◌}
use xlorm.Text.{Text, codes, join}

-- `condAND`, `condOR`, `condNOT`
abbrev pub cond_and : ℕ
cond_and = 1

abbrev pub cond_or : ℕ
cond_or = 2

abbrev pub cond_not : ℕ
cond_not = 4

-- `conditionFlags&flag != 0`
abbrev pub has_flag : ℕ → ℕ → Bool
has_flag flags flag = not (bit_and flags flag == 0)

-- The loop over the conditions, from the condition of index `i` on.
unfoldable pub write_conditions : Text → ℕ → List Text → Text
write_conditions sep i [] = []
write_conditions sep i (condition ∷ conditions) =
    (if ltb 0 i then sep else []) ++ (condition ++ write_conditions sep (i + 1) conditions)

-- The text that `GetWhere` writes for one or more conditions.
unfoldable pub where_text : Bool → ℕ → List Text → Text
where_text add_pre_str flags wheres =
    (if add_pre_str then codes " WHERE " else [])
    ++ (if has_flag flags cond_or
        then codes "(" ++ (write_conditions (codes " OR ") 0 wheres ++ codes ")")
        else if has_flag flags cond_not
        then codes "(" ++ (write_conditions (codes " AND ") 0 wheres ++ codes ")")
        else join wheres (codes " AND "))
