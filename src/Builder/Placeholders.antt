-- ===== src/Builder/Placeholders.antt =====
-- The question marks of the SQL text against the arguments that go with it.
use xlorm.Common.{
  ℕ, ◌+◌, ◌<◌, ◌≤◌, ◌≡◌, refl, List, [], ◌∷◌, ◌++◌, Bool, true, false, ◌⊎◌, arith, ℤ, pos, length,
  length-append,
}
use xlorm.Text.{Text, codes, has_byte, count, join, format_int}
use xlorm.Text.Laws.{
  format_int-Lacks, counts, counts-append, count-append, count-concat, count-join, count_of_Lacks,
}
use xlorm.Ident.{order_char, valid_char}
use xlorm.Ident.Laws.{is_valid_field_name-Lacks, is_valid_safe_order_by-Lacks}
use xlorm.Runes.{Unicode}
use xlorm.Value.{Value}
use xlorm.Condition.Laws.{count-where_text}
use xlorm.Builder.{
  Builder, new_builder, add_fields, add_field, add_where, or_where, not_where, add_join,
  set_group_by, set_having, set_order_by, set_limit, set_offset, set_for_update, set_page,
}
use xlorm.Builder.Build.{
  build, query_text, get_where, select_list, joins_text, optional, where_clause, limit_text,
  offset_text, lock_text,
}
use xlorm.Builder.Calls.{
  Call, step, run, fields, and_cond, or_cond, not_cond, join_with, group, having_cond, order,
  limit_to, offset_by, lock, page_of,
}

-- Each question mark of a condition has its argument, and no field or order has one.
pub record IsBalanced (b : Builder) : Type 0 where
  pub conditions : counts b.wheres b'?' ≡ length b.args
  pub fields : counts b.fields b'?' ≡ 0
  pub order : count b.order_by b'?' ≡ 0

valid_mark : (c : ℕ) → valid_char c ≡ true → has_byte (b'?' ∷ []) c ≡ false
unfolding has_byte
valid_mark c h = ground arith

order_mark :
    (u : Unicode) (c : ℕ) → (order_char u c ≡ true) ⊎ (128 ≤ c) → has_byte (b'?' ∷ []) c ≡ false
unfolding has_byte
order_mark u c h = ground (arith, u.is_letter_ascii c, u.is_digit_ascii c)

new_builder-IsBalanced : (pooled : Builder) (table : Text) → IsBalanced (new_builder pooled table)
unfolding new_builder count
new_builder-IsBalanced pooled table = ground arith

add_field-IsBalanced : (b : Builder) (name : Text) → IsBalanced b → IsBalanced (add_field b name)
unfolding add_field
add_field-IsBalanced b name v = ground (
  arith,
  counts-append b.fields (name ∷ []) b'?',
  count_of_Lacks b'?' name,
  is_valid_field_name-Lacks (b'?' ∷ []) valid_mark name,
)

add_fields-IsBalanced :
    (b : Builder) (names : List Text) → IsBalanced b → IsBalanced (add_fields b names)
unfolding add_fields
add_fields-IsBalanced b [] v = v
add_fields-IsBalanced b (name ∷ names) v =
    add_fields-IsBalanced (add_field b name) names (add_field-IsBalanced b name v)

module _ (b : Builder) (c : Text) (args : List Value) (v : IsBalanced b) where
  add_where-IsBalanced : IsBalanced (add_where b c args)
  unfolding add_where
  add_where-IsBalanced = ground (
    arith,
    v.conditions,
    v.fields,
    v.order,
    counts-append b.wheres (c ∷ []) b'?',
    length-append b.args args,
  )

  count-or : count (codes "OR " ++ c) b'?' ≡ count c b'?'
  unfolding codes count
  count-or = refl

  or_where-IsBalanced : IsBalanced (or_where b c args)
  unfolding or_where
  or_where-IsBalanced = ground (
    arith,
    v.conditions,
    v.fields,
    v.order,
    counts-append b.wheres ((codes "OR " ++ c) ∷ []) b'?',
    length-append b.args args,
    count-or,
  )

  count-not : count (codes "NOT (" ++ (c ++ codes ")")) b'?' ≡ count c b'?'
  unfolding codes count
  count-not = omega (arith, count-append c (b')' ∷ []) b'?')

  not_where-IsBalanced : IsBalanced (not_where b c args)
  unfolding not_where
  not_where-IsBalanced = ground (
    arith,
    v.conditions,
    v.fields,
    v.order,
    counts-append b.wheres ((codes "NOT (" ++ (c ++ codes ")")) ∷ []) b'?',
    length-append b.args args,
    count-not,
  )

text-IsBalanced :
    (b : Builder) (t : Text)
    → IsBalanced b
    → IsBalanced (add_join b t) × IsBalanced (set_group_by b t) × IsBalanced (set_having b t)
unfolding add_join set_group_by set_having
text-IsBalanced b t v = (ground arith, ground arith, ground arith)

set_order_by-IsBalanced :
    (u : Unicode) (b : Builder) (t : Text) → IsBalanced b → IsBalanced (set_order_by u b t)
unfolding set_order_by
set_order_by-IsBalanced u b t v =
    ground
      (arith, count_of_Lacks b'?' t, is_valid_safe_order_by-Lacks u (b'?' ∷ []) (order_mark u) t)

keep-IsBalanced :
    (b : Builder) (n m : ℤ) (on : Bool)
    → IsBalanced b
    → IsBalanced (set_limit b n)
      × IsBalanced (set_offset b n)
      × IsBalanced (set_for_update b on)
      × IsBalanced (set_page b n m)
unfolding set_limit set_offset set_for_update set_page
keep-IsBalanced b n m on v = (ground arith, ground arith, ground arith, ground arith)

module _ (u : Unicode) where
  step-IsBalanced : (b : Builder) (c : Call) → IsBalanced b → IsBalanced (step u b c)
  unfolding step
  step-IsBalanced b (fields names) v = add_fields-IsBalanced b names v
  step-IsBalanced b (and_cond c args) v = add_where-IsBalanced b c args v
  step-IsBalanced b (or_cond c args) v = or_where-IsBalanced b c args v
  step-IsBalanced b (not_cond c args) v = not_where-IsBalanced b c args v
  step-IsBalanced b (join_with t) v = (text-IsBalanced b t v).0
  step-IsBalanced b (group t) v = (text-IsBalanced b t v).1
  step-IsBalanced b (having_cond t) v = (text-IsBalanced b t v).2
  step-IsBalanced b (order t) v = set_order_by-IsBalanced u b t v
  step-IsBalanced b (limit_to n) v = (keep-IsBalanced b n n true v).0
  step-IsBalanced b (offset_by n) v = (keep-IsBalanced b n n true v).1
  step-IsBalanced b (lock on) v = (keep-IsBalanced b (pos 0) (pos 0) on v).2
  step-IsBalanced b (page_of page size) v = (keep-IsBalanced b page size true v).3

  run-IsBalanced : (b : Builder) (cs : List Call) → IsBalanced b → IsBalanced (run u b cs)
  unfolding run
  run-IsBalanced b [] v = v
  run-IsBalanced b (c ∷ cs) v = run-IsBalanced (step u b c) cs (step-IsBalanced b c v)

digit_mark : (d : ℕ) → d < 10 → has_byte (b'?' ∷ []) (b'0' + d) ≡ false
unfolding has_byte
digit_mark d h = ground arith

count-format_int : (n : ℤ) → count (format_int n) b'?' ≡ 0
unfolding has_byte
count-format_int n = count_of_Lacks b'?' _ (format_int-Lacks (b'?' ∷ []) digit_mark n refl)

count-select : (count (codes "SELECT ") b'?' ≡ 0) × (count (codes " FROM ") b'?' ≡ 0)
unfolding codes count
count-select = (refl, refl)

-- The marks of each clause of the query.
module _ (b : Builder) (v : IsBalanced b) where
  count-select_list : count (select_list b) b'?' ≡ 0
  unfolding codes count
  count-select_list = ground (
    arith,
    v.fields,
    count-append (join b.fields (codes "`, `")) (codes "`") b'?',
    count-join b.fields (codes "`, `") b'?',
  )

  count-joins_text : count (joins_text b) b'?' ≡ counts b.joins b'?'
  unfolding codes count
  count-joins_text = ground (arith, count-join b.joins (codes " ") b'?')

  count-where_clause : count (where_clause b) b'?' ≡ length b.args
  unfolding get_where count
  count-where_clause =
      ground (arith, v.conditions, count-where_text true b.condition_flags b.wheres)

  count-order : count (optional (codes " ORDER BY ") b.order_by) b'?' ≡ 0
  unfolding codes count
  count-order = ground (arith, v.order)

  count-limit_text : count (limit_text b) b'?' ≡ 0
  unfolding codes count
  count-limit_text = ground (arith, count-format_int b.limit)

  count-offset_text : count (offset_text b) b'?' ≡ 0
  unfolding codes count
  count-offset_text = ground (arith, count-format_int b.offset)

  count-lock_text : count (lock_text b) b'?' ≡ 0
  unfolding codes count
  count-lock_text = ground arith

  -- An empty text has no mark, so the clause has those of its text.
  count-optional :
      (t : Text)
      → (count (optional (codes " GROUP BY ") t) b'?' ≡ count t b'?')
        × (count (optional (codes " HAVING ") t) b'?' ≡ count t b'?')
  unfolding codes count
  count-optional [] = (refl, refl)
  count-optional (c ∷ t) = (refl, refl)

  count-query_text :
      count (query_text b) b'?'
      ≡ length b.args
        + (count b.table b'?' + counts b.joins b'?' + count b.group_by b'?' + count b.having b'?')
  unfolding query_text
  count-query_text = omega (
    arith,
    count-concat _ b'?',
    count-select_list,
    count-joins_text,
    count-where_clause,
    (count-optional b.group_by).0,
    (count-optional b.having).1,
    count-order,
    count-limit_text,
    count-offset_text,
    count-lock_text,
    count-select.0,
    count-select.1,
  )

-- Whatever calls are made of a new builder, the SQL text that `Build` returns has one question mark
-- for each argument that it returns, besides those in the table, joins, GROUP BY and HAVING texts.
pub build-placeholders :
    (u : Unicode) (pooled : Builder) (table : Text) (cs : List Call)
    → let b = run u (new_builder pooled table) cs in
      count (build b).0 b'?'
      ≡ length (build b).1
        + (count b.table b'?' + counts b.joins b'?' + count b.group_by b'?' + count b.having b'?')
unfolding build
build-placeholders u pooled table cs =
    count-query_text _ (run-IsBalanced u _ cs (new_builder-IsBalanced pooled table))
