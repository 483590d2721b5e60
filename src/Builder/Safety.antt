-- ===== src/Builder/Safety.antt =====
-- No statement separator and no NUL byte reaches the SQL text of a builder.
use xlorm.Common.{
  ◌+◌, ℕ, ◌<◌, ◌≤◌, ◌≡◌, refl, List, [], ◌∷◌, ◌++◌, Bool, true, false, ◌⊎◌, arith, All, All-append,
  ℤ, pos, is_empty, if◌then◌else◌,
}
use xlorm.Text.{Text, codes, contains_any, has_byte, join, format_int}
use xlorm.Text.Laws.{
  Lacks, append-Lacks, join-Lacks, concat-Lacks, if-Lacks, nil-Lacks, format_int-Lacks,
}
use xlorm.Ident.{unsafe_chars, order_char, valid_char}
use xlorm.Ident.Laws.{is_valid_field_name-Lacks}
use xlorm.Runes.{Unicode}
use xlorm.Value.{Value}
use xlorm.Condition.Laws.{where_text-Lacks}
use xlorm.Builder.{
  Builder, new_builder, add_fields, add_field, add_where, or_where, not_where, add_join,
  set_group_by, set_having, set_order_by, set_limit, set_offset, set_for_update, set_page,
}
use xlorm.Builder.Build.{
  build, query_text, get_where, select_list, joins_text, lock_text, where_clause, optional,
}
use xlorm.Builder.Calls.{
  Call, step, run, fields, and_cond, or_cond, not_cond, join_with, group, having_cond, order,
  limit_to, offset_by, lock, page_of,
}

abbrev pub Safe : Text → Type 0
Safe = Lacks unsafe_chars

-- Every text that the builder keeps is free of the separators.
pub record IsSafe (b : Builder) : Type 0 where
  pub table : Safe b.table
  pub fields : All Safe b.fields
  pub wheres : All Safe b.wheres
  pub joins : All Safe b.joins
  pub group_by : Safe b.group_by
  pub having : Safe b.having
  pub order_by : Safe b.order_by

field-Safe : (c : ℕ) → valid_char c ≡ true → has_byte unsafe_chars c ≡ false
unfolding has_byte
field-Safe c h = ground arith

new_builder-IsSafe : (pooled : Builder) (table : Text) → IsSafe (new_builder pooled table)
unfolding new_builder contains_any
new_builder-IsSafe pooled table = ground arith

add_field-IsSafe : (b : Builder) (name : Text) → IsSafe b → IsSafe (add_field b name)
unfolding add_field
add_field-IsSafe b name s = ground (
  arith,
  All-append Safe b.fields (name ∷ []) s.fields,
  is_valid_field_name-Lacks unsafe_chars field-Safe name,
)

add_fields-IsSafe : (b : Builder) (names : List Text) → IsSafe b → IsSafe (add_fields b names)
unfolding add_fields
add_fields-IsSafe b [] s = s
add_fields-IsSafe b (name ∷ names) s =
    add_fields-IsSafe (add_field b name) names (add_field-IsSafe b name s)

add_where-IsSafe :
    (b : Builder) (c : Text) (args : List Value) → IsSafe b → IsSafe (add_where b c args)
unfolding add_where
add_where-IsSafe b c args s = ground (arith, All-append Safe b.wheres (c ∷ []) s.wheres)

or-Safe : (c : Text) → Safe c → Safe (codes "OR " ++ c)
unfolding codes contains_any has_byte
or-Safe c h = ground arith

or_where-IsSafe :
    (b : Builder) (c : Text) (args : List Value) → IsSafe b → IsSafe (or_where b c args)
unfolding or_where
or_where-IsSafe b c args s =
    ground (arith, All-append Safe b.wheres ((codes "OR " ++ c) ∷ []) s.wheres, or-Safe c)

not-Safe : (c : Text) → Safe c → Safe (codes "NOT (" ++ (c ++ codes ")"))
unfolding codes contains_any has_byte
not-Safe c h = ground (arith, append-Lacks unsafe_chars c (b')' ∷ []) h)

not_where-IsSafe :
    (b : Builder) (c : Text) (args : List Value) → IsSafe b → IsSafe (not_where b c args)
unfolding not_where
not_where-IsSafe b c args s = ground (
  arith,
  All-append Safe b.wheres ((codes "NOT (" ++ (c ++ codes ")")) ∷ []) s.wheres,
  not-Safe c,
)

add_join-IsSafe : (b : Builder) (t : Text) → IsSafe b → IsSafe (add_join b t)
unfolding add_join
add_join-IsSafe b t s = ground (arith, All-append Safe b.joins (t ∷ []) s.joins)

set_group_by-IsSafe : (b : Builder) (t : Text) → IsSafe b → IsSafe (set_group_by b t)
unfolding set_group_by
set_group_by-IsSafe b t s = ground arith

set_having-IsSafe : (b : Builder) (t : Text) → IsSafe b → IsSafe (set_having b t)
unfolding set_having
set_having-IsSafe b t s = ground arith

set_order_by-IsSafe :
    (u : Unicode) (b : Builder) (t : Text) → IsSafe b → IsSafe (set_order_by u b t)
unfolding set_order_by
set_order_by-IsSafe u b t s = ground arith

keep-IsSafe :
    (b : Builder) (n m : ℤ) (on : Bool)
    → IsSafe b
    → IsSafe (set_limit b n)
      × IsSafe (set_offset b n)
      × IsSafe (set_for_update b on)
      × IsSafe (set_page b n m)
unfolding set_limit set_offset set_for_update set_page
keep-IsSafe b n m on s = (ground arith, ground arith, ground arith, ground arith)

module _ (u : Unicode) where
  step-IsSafe : (b : Builder) (c : Call) → IsSafe b → IsSafe (step u b c)
  unfolding step
  step-IsSafe b (fields names) s = add_fields-IsSafe b names s
  step-IsSafe b (and_cond c args) s = add_where-IsSafe b c args s
  step-IsSafe b (or_cond c args) s = or_where-IsSafe b c args s
  step-IsSafe b (not_cond c args) s = not_where-IsSafe b c args s
  step-IsSafe b (join_with t) s = add_join-IsSafe b t s
  step-IsSafe b (group t) s = set_group_by-IsSafe b t s
  step-IsSafe b (having_cond t) s = set_having-IsSafe b t s
  step-IsSafe b (order t) s = set_order_by-IsSafe u b t s
  step-IsSafe b (limit_to n) s = (keep-IsSafe b n n true s).0
  step-IsSafe b (offset_by n) s = (keep-IsSafe b n n true s).1
  step-IsSafe b (lock on) s = (keep-IsSafe b (pos 0) (pos 0) on s).2
  step-IsSafe b (page_of page size) s = (keep-IsSafe b page size true s).3

  pub run-IsSafe : (b : Builder) (cs : List Call) → IsSafe b → IsSafe (run u b cs)
  unfolding run
  run-IsSafe b [] s = s
  run-IsSafe b (c ∷ cs) s = run-IsSafe (step u b c) cs (step-IsSafe b c s)

digit-Safe : (d : ℕ) → d < 10 → has_byte unsafe_chars (b'0' + d) ≡ false
unfolding has_byte
digit-Safe d h = ground arith

number-Safe : (n : ℤ) → Safe (format_int n)
number-Safe n = format_int-Lacks unsafe_chars digit-Safe n (unfold has_byte in refl)

-- A keyword holds no separator, by evaluation.
abbrev keywords : List Text
keywords =
    codes "SELECT "
    ∷ codes " FROM "
    ∷ codes " GROUP BY "
    ∷ codes " HAVING "
    ∷ codes " ORDER BY "
    ∷ codes " LIMIT "
    ∷ codes " OFFSET "
    ∷ codes " FOR UPDATE "
    ∷ []

select_list-Safe : (b : Builder) → IsSafe b → Safe (select_list b)
unfolding codes contains_any has_byte
select_list-Safe b s =
    let list = join b.fields (codes "`, `") in
    let safe : Safe list = join-Lacks unsafe_chars b.fields (codes "`, `") refl s.fields in
    if-Lacks unsafe_chars (is_empty b.fields) (codes "*") (codes "`" ++ (list ++ codes "`")) refl
      (append-Lacks unsafe_chars list (codes "`") safe refl)

joins_text-Safe : (b : Builder) → IsSafe b → Safe (joins_text b)
unfolding codes contains_any has_byte
joins_text-Safe b s =
    if-Lacks unsafe_chars (is_empty b.joins) [] (codes " " ++ join b.joins (codes " ")) refl
      (join-Lacks unsafe_chars b.joins (codes " ") refl s.joins)

where_clause-Safe : (b : Builder) → IsSafe b → Safe (where_clause b)
unfolding get_where codes contains_any has_byte
where_clause-Safe b s =
    ground (arith, where_text-Lacks unsafe_chars refl true b.condition_flags b.wheres s.wheres)

optional-Safe : (keyword t : Text) → Safe keyword → Safe t → Safe (optional keyword t)
optional-Safe keyword t hk ht =
    if-Lacks unsafe_chars (is_empty t) _ _ (nil-Lacks unsafe_chars)
      (append-Lacks unsafe_chars keyword t hk ht)

number_clause-Safe :
    (on : Bool) (keyword : Text) (n : ℤ)
    → Safe keyword
    → Safe (if on then keyword ++ format_int n else [])
number_clause-Safe on keyword n h =
    if-Lacks unsafe_chars on _ _ (append-Lacks unsafe_chars keyword _ h (number-Safe n))
      (nil-Lacks unsafe_chars)

keyword-Safe : All Safe keywords
unfolding codes contains_any has_byte
keyword-Safe = (refl, (refl, (refl, (refl, (refl, (refl, (refl, (refl, tt))))))))

lock_text-Safe : (b : Builder) → Safe (lock_text b)
unfolding codes contains_any has_byte
lock_text-Safe b = if-Lacks unsafe_chars b.for_update _ _ refl refl

query_text-Safe : (b : Builder) → IsSafe b → Safe (query_text b)
unfolding query_text
query_text-Safe b s =
    let (select, (from, (grp, (hav, (ord, (lim, (off, _))))))) = keyword-Safe in
    concat-Lacks unsafe_chars _ (
      select,
      (
        select_list-Safe b s,
        (
          from,
          (
            s.table,
            (
              joins_text-Safe b s,
              (
                where_clause-Safe b s,
                (
                  optional-Safe _ _ grp s.group_by,
                  (
                    optional-Safe _ _ hav s.having,
                    (
                      optional-Safe _ _ ord s.order_by,
                      (
                        number_clause-Safe _ _ b.limit lim,
                        (number_clause-Safe _ _ b.offset off, (lock_text-Safe b, tt)),
                      ),
                    ),
                  ),
                ),
              ),
            ),
          ),
        ),
      ),
    )

-- Whatever calls are made of a new builder, with whatever arguments, the SQL text that `Build`
-- returns holds neither a semicolon nor a NUL byte.
pub build-Safe :
    (u : Unicode) (pooled : Builder) (table : Text) (cs : List Call)
    → Safe (build (run u (new_builder pooled table) cs)).0
unfolding build
build-Safe u pooled table cs =
    query_text-Safe _ (run-IsSafe u _ cs (new_builder-IsSafe pooled table))

pub order-Safe :
    (u : Unicode) (c : ℕ) → (order_char u c ≡ true) ⊎ (128 ≤ c) → has_byte unsafe_chars c ≡ false
unfolding has_byte
order-Safe u c h = ground (arith, u.is_letter_ascii c, u.is_digit_ascii c)
