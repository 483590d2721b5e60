-- ===== src/Builder/Conditions.antt =====
-- The WHERE clause of the builder: what OrWhere and a second reading of the clause do.
use Prim.Native.Nat.{bit_or}
use mathlib.Core.List.{concat-ne-nil}
use xlorm.Common.{
  ℕ, ◌+◌, ◌<◌, ◌≡◌, ◌≢◌, ◌∙◌, ap, List, [], ◌∷◌, ◌++◌, Bool, true, false, arith, length,
  if◌then◌else◌,
}
use xlorm.Text.{Text, codes, count, contains_any, join}
use xlorm.Ident.{unsafe_chars}
use xlorm.Value.{Value}
use xlorm.Condition.{where_text, cond_or, has_flag}
use xlorm.Condition.Laws.{write_conditions-join, has_flag-or, join-snoc}
use xlorm.Builder.{Builder, or_where}
use xlorm.Builder.Build.{get_where}

where_text-or :
    (pre : Bool) (flags : ℕ) (ts : List Text)
    → has_flag flags cond_or ≡ true
    → where_text pre flags ts
      ≡ (if pre then codes " WHERE " else [])
        ++ (codes "(" ++ (join ts (codes " OR ") ++ codes ")"))
unfolding where_text
where_text-or pre flags ts h = rw (h, write_conditions-join)

abbrev with_or : Builder → Text → List Value → Builder
with_or b c args = record b {
  wheres = b.wheres ++ (codes "OR " ++ c) ∷ [];
  args = b.args ++ args;
  condition_flags = bit_or b.condition_flags cond_or;
  condition_index = b.condition_index + 1;
}

or_where_accepted :
    (b : Builder) (c : Text) (args : List Value)
    → c ≢ []
    → count c b'?' ≡ length args
    → contains_any c unsafe_chars ≡ false
    → or_where b c args ≡ with_or b c args
unfolding or_where
or_where_accepted b c args hc hn hs = ground arith

get_where_of_ne_nil :
    (pre : Bool) (b : Builder)
    → b.wheres ≢ []
    → (get_where pre b).1 ≡ where_text pre b.condition_flags b.wheres
unfolding get_where
get_where_of_ne_nil pre b h = ground arith

-- An accepted OrWhere behind other conditions writes the word OR twice: once as the separator, and
-- once with the condition.
pub get_where-or_where :
    (b : Builder) (c : Text) (args : List Value)
    → b.wheres ≢ []
    → b.condition_flags < 8
    → c ≢ []
    → count c b'?' ≡ length args
    → contains_any c unsafe_chars ≡ false
    → (get_where true (or_where b c args)).1
      ≡ codes " WHERE "
        ++ (codes "("
            ++ ((join b.wheres (codes " OR ") ++ (codes " OR " ++ (codes "OR " ++ c)))
                ++ codes ")"))
get_where-or_where b c args hw hf hc hn hs =
    ap (λ b'. (get_where true b').1) (or_where_accepted b c args hc hn hs)
    ∙ get_where_of_ne_nil true (with_or b c args) (concat-ne-nil (codes "OR " ++ c) b.wheres)
    ∙ where_text-or true (bit_or b.condition_flags cond_or) (b.wheres ++ (codes "OR " ++ c) ∷ [])
        (has_flag-or b.condition_flags hf)
    ∙ ap (λ t. codes " WHERE " ++ (codes "(" ++ (t ++ codes ")")))
        (join-snoc b.wheres (codes "OR " ++ c) (codes " OR ") hw)
