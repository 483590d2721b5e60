-- ===== src/Builder/Calls.antt =====
-- A chain of builder calls, and what each call rejects.
use xlorm.Common.{
  List, [], ◌∷◌, ◌++◌, Bool, not, ◌||◌, ◌&&◌, ◌==◌, ℤ, pos, ltb_ℤ, length, is_empty, if◌then◌else◌,
}
use xlorm.Text.{Text, count, contains_any}
use xlorm.Ident.{unsafe_chars, is_valid_field_name, is_valid_safe_order_by}
use xlorm.Runes.{Unicode}
use xlorm.Value.{Value}
use xlorm.Builder.{
  Builder, BuildError, bad_field, arg_count, injection, bad_order, bad_page, add_fields, add_where,
  or_where, not_where, add_join, set_group_by, set_having, set_order_by, set_limit, set_offset,
  set_for_update, set_page,
}

pub data Call : Type 0 where
  fields : List Text → Call
  and_cond : Text → List Value → Call
  or_cond : Text → List Value → Call
  not_cond : Text → List Value → Call
  join_with : Text → Call
  group : Text → Call
  having_cond : Text → Call
  order : Text → Call
  limit_to : ℤ → Call
  offset_by : ℤ → Call
  lock : Bool → Call
  page_of : ℤ → ℤ → Call

-- The errors that a call reports, from its arguments alone.
abbrev pub field_errors : List Text → List BuildError
field_errors [] = []
field_errors (name ∷ names) =
    (if is_empty name || is_valid_field_name name then [] else bad_field name ∷ [])
    ++ field_errors names

abbrev pub condition_errors : Text → List Value → List BuildError
condition_errors c args =
    if is_empty c
    then []
    else if not (count c b'?' == length args)
    then arg_count c (length args) ∷ []
    else if contains_any c unsafe_chars
    then injection c ∷ []
    else []

abbrev pub text_errors : Text → List BuildError
text_errors t =
    if is_empty t then [] else if contains_any t unsafe_chars then injection t ∷ [] else []

module _ (u : Unicode) where
  unfoldable pub step : Builder → Call → Builder
  step b (fields names) = add_fields b names
  step b (and_cond c args) = add_where b c args
  step b (or_cond c args) = or_where b c args
  step b (not_cond c args) = not_where b c args
  step b (join_with t) = add_join b t
  step b (group t) = set_group_by b t
  step b (having_cond t) = set_having b t
  step b (order t) = set_order_by u b t
  step b (limit_to n) = set_limit b n
  step b (offset_by n) = set_offset b n
  step b (lock on) = set_for_update b on
  step b (page_of page size) = set_page b page size

  unfoldable pub run : Builder → List Call → Builder
  unfolding step
  run b [] = b
  run b (c ∷ cs) = run (step b c) cs

  abbrev pub errors_of : Call → List BuildError
  errors_of (fields names) = field_errors names
  errors_of (and_cond c args) = condition_errors c args
  errors_of (or_cond c args) = condition_errors c args
  errors_of (not_cond c args) = condition_errors c args
  errors_of (join_with t) = text_errors t
  errors_of (group t) = text_errors t
  errors_of (having_cond t) = text_errors t
  errors_of (order t) = if is_empty t || is_valid_safe_order_by u t then [] else bad_order t ∷ []
  errors_of (limit_to n) = []
  errors_of (offset_by n) = []
  errors_of (lock on) = []
  errors_of (page_of page size) =
      if ltb_ℤ (pos 0) page && ltb_ℤ (pos 0) size then [] else bad_page page size ∷ []

  abbrev pub all_errors : List Call → List BuildError
  all_errors [] = []
  all_errors (c ∷ cs) = errors_of c ++ all_errors cs
