-- ===== src/Table/Marks.antt =====
-- The question marks of the texts of an INSERT and of an UPDATE.
use xlorm.Common.{
  ℕ, zero, suc, ◌+◌, ◌-◌, ◌*◌, ◌<◌, ◌≡◌, ◌≢◌, refl, ap, List, [], ◌∷◌, ◌++◌, true, length,
  length-append, some, arith,
}
use xlorm.Text.{Text, codes, count, join, concat}
use xlorm.Text.Laws.{counts, count-append, count-concat, count-join}
use xlorm.Row.{Row}
use xlorm.Placeholders.{placeholder_text, build_placeholders, repeat}
use xlorm.Placeholders.Copies.{build_placeholders-replicate}
use xlorm.Extract.{values_at, all_values}
use xlorm.Condition.{where_text}
use xlorm.Condition.Laws.{count-where_text}
use xlorm.Table.{Table}
use xlorm.Table.Query.{get_where}
use xlorm.Table.Statements.{where_text-ne-nil}
use xlorm.Table.Change.{
  ok, build_insert_sql, insert_text, trim_suffix, set_clause, build_update_sql,
}

pub length-values_at : (fields : List Text) (m : Row) → length (values_at fields m) ≡ length fields
unfolding values_at
length-values_at [] m = refl
length-values_at (f ∷ fields) m = ap suc (length-values_at fields m)

pub length-all_values :
    (fields : List Text) (ms : List Row) → length (all_values fields ms) ≡ length ms * length fields
unfolding all_values
length-all_values fields [] = omega arith
length-all_values fields (m ∷ ms) = omega (
  arith,
  length-append (values_at fields m) (all_values fields ms),
  length-values_at fields m,
  length-all_values fields ms,
)

count-repeat : (n : ℕ) → count (repeat n (codes "?,")) b'?' ≡ n
unfolding repeat codes count
count-repeat zero = refl
count-repeat (suc n) = ap suc (count-repeat n)

-- One question mark for each field.
pub count-placeholder_text : (n : ℕ) → 0 < n → count (placeholder_text n) b'?' ≡ n
unfolding placeholder_text codes count
count-placeholder_text n h =
    omega
      (arith, count-append (repeat (n - 1) (codes "?,")) (codes "?)") b'?', count-repeat (n - 1))

count-trim_suffix : (s : Text) → count (trim_suffix s b',') b'?' ≡ count s b'?'
unfolding trim_suffix count
count-trim_suffix [] = refl
count-trim_suffix (c ∷ []) = ground arith
count-trim_suffix (c ∷ d ∷ s) = ground (arith, count-trim_suffix (d ∷ s))

count-set_clause :
    (fields : List Text) → count (set_clause fields) b'?' ≡ length fields + counts fields b'?'
unfolding set_clause codes count
count-set_clause [] = refl
count-set_clause (f ∷ fields) =
    omega
      (arith, count-append f (codes "` = ?," ++ set_clause fields) b'?', count-set_clause fields)

count-columns : (fields : List Text) → count (join fields (codes "`,`")) b'?' ≡ counts fields b'?'
unfolding codes count
count-columns fields = count-join fields _ b'?' refl

one_record : (p : Text) → join (build_placeholders p 1) (codes ",") ≡ p
unfolding join
one_record p = rw (build_placeholders-replicate p 1)

insert_keywords :
    (count (codes " INTO ") b'?' ≡ 0)
    × (count (codes " (`") b'?' ≡ 0)
    × (count (codes "`) VALUES ") b'?' ≡ 0)
unfolding codes count
insert_keywords = (refl, refl, refl)

-- The question marks of an INSERT, besides those of its names, are one for each field.
pub build_insert_sql-lem :
    (insert_type : Text) (t : Table) (fields : List Text)
    → fields ≢ []
    → (text : Text) × (build_insert_sql insert_type t fields ≡ some text)
      × (count text b'?'
          ≡ length fields + (count insert_type b'?' + count t.table_name b'?' + counts fields b'?'))
build_insert_sql-lem insert_type t [] h = absurd (h refl)
build_insert_sql-lem insert_type t (f ∷ fs) h =
    let fields = f ∷ fs in
    let values = join (build_placeholders (placeholder_text (length fields)) 1) (codes ",") in
    let pieces : List Text =
      insert_type
      ∷ codes " INTO "
      ∷ t.table_name
      ∷ codes " (`"
      ∷ join fields (codes "`,`")
      ∷ codes "`) VALUES "
      ∷ values
      ∷ [] in
    (
      concat pieces,
      unfold build_insert_sql in unfold insert_text in refl,
      omega (
        arith,
        count-concat pieces b'?',
        insert_keywords,
        count-columns fields,
        ap (λ s. count s b'?') (one_record (placeholder_text (length fields))),
        count-placeholder_text (length fields) (omega arith),
      ),
    )

update_keywords : (count (codes "UPDATE ") b'?' ≡ 0) × (count (codes " SET ") b'?' ≡ 0)
unfolding codes count
update_keywords = (refl, refl)

clause-ne-nil :
    (t : Table)
    → t.wheres ≢ []
    → get_where true t ≡ (
      record t { condition_flags = 0; condition_index = 0 },
      where_text true t.condition_flags t.wheres,
      t.args,
    )
unfolding get_where
clause-ne-nil t h = ground arith

module _ (t : Table) (fields : List Text) (hf : fields ≢ []) (hw : t.wheres ≢ []) where
  build_update_sql-text :
      (build_update_sql t fields).1
      ≡ ok (
        concat (
            codes "UPDATE "
            ∷ t.table_name
            ∷ codes " SET "
            ∷ trim_suffix (set_clause fields) b','
            ∷ where_text true t.condition_flags t.wheres
            ∷ []),
        t.args,
      )
  unfolding build_update_sql
  build_update_sql-text =
      ground (arith, clause-ne-nil t hw, where_text-ne-nil t.condition_flags t.wheres)

  build_update_sql-quiet : (build_update_sql t fields).2 ≡ []
  unfolding build_update_sql
  build_update_sql-quiet =
      ground (arith, clause-ne-nil t hw, where_text-ne-nil t.condition_flags t.wheres)

-- The question marks of an UPDATE, besides those of its names, are one for each field and those of the
-- conditions.
pub build_update_sql-lem :
    (t : Table) (fields : List Text)
    → fields ≢ []
    → t.wheres ≢ []
    → (text : Text) × ((build_update_sql t fields).1 ≡ ok (text, t.args))
      × ((build_update_sql t fields).2 ≡ [])
      × (count text b'?'
          ≡ length fields + counts t.wheres b'?' + (count t.table_name b'?' + counts fields b'?'))
build_update_sql-lem t fields hf hw =
    let clause = where_text true t.condition_flags t.wheres in
    let pieces : List Text =
      codes "UPDATE "
      ∷ t.table_name
      ∷ codes " SET "
      ∷ trim_suffix (set_clause fields) b','
      ∷ clause
      ∷ [] in
    (
      concat pieces,
      build_update_sql-text t fields hf hw,
      build_update_sql-quiet t fields hf hw,
      omega (
        arith,
        count-concat pieces b'?',
        update_keywords,
        count-trim_suffix (set_clause fields),
        count-set_clause fields,
        count-where_text true t.condition_flags t.wheres,
      ),
    )
