-- ===== src/Batch/Arguments.antt =====
-- The question marks of the statements of a batch against their arguments.
use xlorm.Common.{
  ℕ, zero, suc, ◌+◌, ◌≡◌, ◌∙◌, refl, ap, List, [], ◌∷◌, ◌++◌, length, length-append, replicate,
  is_empty, Bool, true, false, Option, none, some, arith, if◌then◌else◌,
}
use xlorm.Text.{Text, codes, count}
use xlorm.Text.Laws.{counts, count-concat, count-join}
use xlorm.Value.{Value}
use xlorm.Row.{Row, lookup}
use xlorm.Batch.{BatchError}
use xlorm.Batch.Update.{
  Checked, good, bad, when_parts, case_text, case_parts, key_args, update_text, update_fields,
  update_statement,
}

-- A statement has an argument for each question mark, but `extra` of these.
abbrev pub Matches : Checked (Text × List Value) → ℕ → Type 0
Matches (bad e) extra = Unit
Matches (good (text, args)) extra = count text b'?' ≡ length args + extra

abbrev CasesMatch : Checked (List Text × List Value) → ℕ → Type 0
CasesMatch (bad e) extra = Unit
CasesMatch (good (texts, args)) extra = counts texts b'?' ≡ length args + extra

-- The question marks in the names of the fields, with the key once for each.
unfoldable pub case_names : Text → List Text → ℕ
unfolding count
case_names key_field [] = 0
case_names key_field (field ∷ fields) =
    count field b'?' + count key_field b'?' + case_names key_field fields

one_when :
    (key_value value : Option Value) (e e' : BatchError) (rest : Checked (Text × List Value))
    → Matches rest 0
    → Matches
        (elim key_value as (λ o. Checked (Text × List Value)) [
          | none ↦ bad e
          | some k ↦ elim value as (λ o. Checked (Text × List Value)) [
            | none ↦ bad e'
            | some v ↦ elim rest as (λ o. Checked (Text × List Value)) [
              | bad e ↦ bad e
              | good (text, args) ↦ good (codes " WHEN ? THEN ? " ++ text, k ∷ v ∷ args)
            ]
          ]
        ])
        0
unfolding codes count
one_when none value e e' rest h = tt
one_when (some k) none e e' rest h = tt
one_when (some k) (some v) e e' (bad e'') h = tt
one_when (some k) (some v) e e' (good (text, args)) h = omega (arith, h)

when_parts-Matches :
    (key_field field : Text) (items : List Row) → Matches (when_parts key_field field items) 0
unfolding when_parts count
when_parts-Matches key_field field [] = refl
when_parts-Matches key_field field (item ∷ items) =
    one_when (lookup key_field item) (lookup field item) _ _ (when_parts key_field field items)
      (when_parts-Matches key_field field items)

count-case_text :
    (key_field field whens : Text)
    → count (case_text key_field field whens) b'?'
      ≡ count field b'?' + count key_field b'?' + count whens b'?'
unfolding case_text codes count
count-case_text key_field field whens = count-concat _ b'?' ∙ omega arith

one_case :
    (key_field field : Text) (extra : ℕ) (whens : Checked (Text × List Value))
    (rest : Checked (List Text × List Value))
    → Matches whens 0
    → CasesMatch rest extra
    → CasesMatch
        (elim whens as (λ o. Checked (List Text × List Value)) [
          | bad e ↦ bad e
          | good (text, args) ↦ elim rest as (λ o. Checked (List Text × List Value)) [
            | bad e ↦ bad e
            | good (texts, more) ↦ good (case_text key_field field text ∷ texts, args ++ more)
          ]
        ])
        (count field b'?' + count key_field b'?' + extra)
one_case key_field field extra (bad e) rest h i = tt
one_case key_field field extra (good (text, args)) (bad e) h i = tt
one_case key_field field extra (good (text, args)) (good (texts, more)) h i =
    omega (arith, h, i, count-case_text key_field field text, length-append args more)

case_parts-CasesMatch :
    (key_field : Text) (fields : List Text) (items : List Row)
    → CasesMatch (case_parts key_field fields items) (case_names key_field fields)
unfolding case_parts case_names
case_parts-CasesMatch key_field [] items = refl
case_parts-CasesMatch key_field (field ∷ fields) items =
    one_case key_field field (case_names key_field fields) (when_parts key_field field items)
      (case_parts key_field fields items) (when_parts-Matches key_field field items)
      (case_parts-CasesMatch key_field fields items)

length-key_args :
    (key_field : Text) (items : List Row) → length (key_args key_field items) ≡ length items
unfolding key_args
length-key_args key_field [] = refl
length-key_args key_field (item ∷ items) = ap suc (length-key_args key_field items)

counts-replicate : (n : ℕ) → counts (replicate n (codes "?")) b'?' ≡ n
unfolding codes count
counts-replicate zero = refl
counts-replicate (suc n) = omega (arith, counts-replicate n)

count-update_text :
    (table_name key_field : Text) (cases : List Text) (n : ℕ)
    → count (update_text table_name key_field cases n) b'?'
      ≡ counts cases b'?' + n + count table_name b'?' + count key_field b'?'
unfolding update_text codes count
count-update_text table_name key_field cases n =
    count-concat _ b'?'
    ∙ omega (
      arith,
      count-join cases (codes ", ") b'?' refl,
      count-join (replicate n (codes "?")) (codes ",") b'?' refl,
      counts-replicate n,
    )

one_statement :
    (table_name key_field : Text) (extra : ℕ) (first : Row) (items : List Row)
    → (cases : Checked (List Text × List Value)) → CasesMatch cases extra
    → Matches
        (elim cases as (λ o. Checked (Text × List Value)) [
          | bad e ↦ bad e
          | good (texts, args) ↦ good (
            update_text table_name key_field texts (suc (length items)),
            args ++ key_args key_field (first ∷ items),
          )
        ])
        (extra + count table_name b'?' + count key_field b'?')
one_statement table_name key_field extra first items (bad e) h = tt
one_statement table_name key_field extra first items (good (texts, args)) h = omega (
  arith,
  h,
  count-update_text table_name key_field texts (suc (length items)),
  length-append args (key_args key_field (first ∷ items)),
  length-key_args key_field (first ∷ items),
)

if-Matches :
    (b : Bool) (e : BatchError) (x : Checked (Text × List Value)) (extra : ℕ)
    → Matches x extra
    → Matches (if b then bad e else x) extra
if-Matches true e x extra h = tt
if-Matches false e x extra h = h

-- If `updateBatch` sends a statement for its records, it has one argument for each question mark,
-- besides question marks in the names of the table, of the key field and of the changed fields,
-- whatever the records hold.
pub update_statement-Matches :
    (table_name key_field : Text) (first : Row) (items : List Row)
    → Matches (update_statement table_name key_field (first ∷ items)) (
        case_names key_field (update_fields key_field first)
        + count table_name b'?'
        + count key_field b'?')
unfolding update_statement
update_statement-Matches table_name key_field first items =
    let fields = update_fields key_field first in
    if-Matches (is_empty fields) _ _ _ (
      one_statement table_name key_field (case_names key_field fields) first items
        (case_parts key_field fields (first ∷ items))
        (case_parts-CasesMatch key_field fields (first ∷ items)))
