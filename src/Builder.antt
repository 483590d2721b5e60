-- ===== src/Builder.antt =====
-- builder.go: the query builder. A method returns the changed builder; an error is collected in
-- `errs`. The texts of the errors are left out, and what they report is kept.
pub mod Build
pub mod Calls
pub mod Safety
pub mod Placeholders
pub mod Errors
pub mod Conditions
pub mod Pages
mod Tests
use Prim.Native.Nat.{bit_and, bit_or}
use xlorm.Common.{
  ℕ, ◌+◌, ◌-◌, ◌≡◌, List, [], ◌∷◌, ◌++◌, Bool, true, false, ◌||◌, not, ◌==◌, if◌then◌else◌,
  is_empty, length, ℤ, pos, negsuc, ltb_ℤ, ◌-ℤ◌, ◌*ℤ◌, wrap64,
}
use xlorm.Text.{Text, codes, count, contains_any}
use xlorm.Runes.{Unicode}
use xlorm.Ident.{unsafe_chars, is_valid_field_name, is_valid_safe_order_by}
use xlorm.Condition.{cond_and, cond_or, cond_not}
use xlorm.Paging.{page_offset}
use xlorm.Value.{Value}

pub data BuildError : Type 0 where
  empty_table : BuildError
  bad_table : Text → BuildError
  bad_field : Text → BuildError
  arg_count : Text → ℕ → BuildError
  injection : Text → BuildError
  bad_order : Text → BuildError
  bad_page : ℤ → ℤ → BuildError

-- `builder`
pub record Builder : Type 0 where
  pub group_by : Text
  pub having : Text
  pub order_by : Text
  pub table : Text
  pub fields : List Text
  pub wheres : List Text
  pub joins : List Text
  pub args : List Value
  pub limit : ℤ
  pub offset : ℤ
  pub for_update : Bool
  pub errs : List BuildError
  pub condition_flags : ℕ
  pub condition_index : ℕ

-- `Reset`: what it leaves of any builder.
abbrev pub cleared : Builder
cleared = record {
  group_by = [];
  having = [];
  order_by = [];
  table = [];
  fields = [];
  wheres = [];
  joins = [];
  args = [];
  limit = pos 0;
  offset = pos 0;
  for_update = false;
  errs = [];
  condition_flags = 0;
  condition_index = 0;
}

unfoldable pub reset : Builder → Builder
reset b = cleared

abbrev pub fail : BuildError → Builder → Builder
fail e b = record b { errs = b.errs ++ e ∷ [] }

-- `NewBuilder`, over the builder that the pool hands out.
unfoldable pub new_builder : Builder → Text → Builder
unfolding reset
new_builder pooled table =
    let b = reset pooled in
    if is_empty table
    then fail empty_table b
    else if contains_any table unsafe_chars
    then fail (bad_table table) b
    else record b { table = table }

add_field : Builder → Text → Builder
add_field b field =
    if is_empty field
    then b
    else if not (is_valid_field_name field)
    then fail (bad_field field) b
    else record b { fields = b.fields ++ field ∷ [] }

-- `Fields`
unfoldable pub add_fields : Builder → List Text → Builder
unfolding add_field
add_fields b [] = b
add_fields b (field ∷ fields) = add_fields (add_field b field) fields

-- `Where`
unfoldable pub add_where : Builder → Text → List Value → Builder
add_where b condition args =
    if is_empty condition
    then b
    else if not (count condition b'?' == length args)
    then fail (arg_count condition (length args)) b
    else if contains_any condition unsafe_chars
    then fail (injection condition) b
    else record b {
      wheres = b.wheres ++ condition ∷ [];
      args = b.args ++ args;
      condition_flags =
          if b.condition_index == 0 then bit_or b.condition_flags cond_and else b.condition_flags;
      condition_index = b.condition_index + 1;
    }

-- `OrWhere`
unfoldable pub or_where : Builder → Text → List Value → Builder
or_where b condition args =
    if is_empty condition
    then b
    else if not (count condition b'?' == length args)
    then fail (arg_count condition (length args)) b
    else if contains_any condition unsafe_chars
    then fail (injection condition) b
    else record b {
      wheres = b.wheres ++ (codes "OR " ++ condition) ∷ [];
      args = b.args ++ args;
      condition_flags = bit_or b.condition_flags cond_or;
      condition_index = b.condition_index + 1;
    }

-- `NotWhere`
unfoldable pub not_where : Builder → Text → List Value → Builder
not_where b condition args =
    if is_empty condition
    then b
    else if not (count condition b'?' == length args)
    then fail (arg_count condition (length args)) b
    else if contains_any condition unsafe_chars
    then fail (injection condition) b
    else record b {
      wheres = b.wheres ++ (codes "NOT (" ++ (condition ++ codes ")")) ∷ [];
      args = b.args ++ args;
      condition_flags = bit_or b.condition_flags cond_not;
      condition_index = b.condition_index + 1;
    }

-- `Join`
unfoldable pub add_join : Builder → Text → Builder
add_join b join =
    if is_empty join
    then b
    else if contains_any join unsafe_chars
    then fail (injection join) b
    else record b { joins = b.joins ++ join ∷ [] }

-- `GroupBy`
unfoldable pub set_group_by : Builder → Text → Builder
set_group_by b group_by =
    if is_empty group_by
    then b
    else if contains_any group_by unsafe_chars
    then fail (injection group_by) b
    else record b { group_by = group_by }

-- `Having`
unfoldable pub set_having : Builder → Text → Builder
set_having b having =
    if is_empty having
    then b
    else if contains_any having unsafe_chars
    then fail (injection having) b
    else record b { having = having }

-- `OrderBy`
unfoldable pub set_order_by : Unicode → Builder → Text → Builder
set_order_by u b order =
    if is_empty order
    then b
    else if not (is_valid_safe_order_by u order)
    then fail (bad_order order) b
    else if contains_any order unsafe_chars
    then fail (injection order) b
    else record b { order_by = order }

-- `Limit`: a limit of 0 or less is passed over.
unfoldable pub set_limit : Builder → ℤ → Builder
set_limit b limit = if ltb_ℤ (pos 0) limit then record b { limit = limit } else b

-- `Offset`
unfoldable pub set_offset : Builder → ℤ → Builder
set_offset b offset = if ltb_ℤ offset (pos 0) then b else record b { offset = offset }

-- `ForUpdate`
unfoldable pub set_for_update : Builder → Bool → Builder
set_for_update b for_update = record b { for_update = for_update }

-- `Page`
unfoldable pub set_page : Builder → ℤ → ℤ → Builder
set_page b page page_size =
    if not (ltb_ℤ (pos 0) page) || not (ltb_ℤ (pos 0) page_size)
    then fail (bad_page page page_size) b
    else record b { limit = page_size; offset = page_offset page page_size }
