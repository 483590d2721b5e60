-- ===== src/Mapper/Columns.antt =====
-- The map of `StructToMap` as the columns of the struct and of the structs inside it.
use xlorm.Common.{
  ◌≡◌, refl, sym, ap, ◌∙◌, List, [], ◌∷◌, ◌++◌, Bool, true, false, Option, none, some,
  if◌then◌else◌, Bool-cases, inl, inr, ◌⊎◌, subst,
}
use xlorm.Text.{Text, eq_text}
use xlorm.Value.{Value}
use xlorm.Row.{Row}
use xlorm.Dict.{insert, lookup, lookup-insert}
use xlorm.Dict.Merge.{or_else, IsMap, insert-IsMap, insert_all, insert_all-IsMap, lookup-insert_all}
use xlorm.Tags.{parse_field_meta}
use xlorm.Mapper.{
  Fields, no_field, leaf, nested, struct_argument, Parsers, Result, mapped, failed, panicked,
  field_value, map_fields, struct_to_map,
}

pub Result-cases {ℓ} :
    {A : Type ℓ} (r : Result A) → ((a : A) × (r ≡ mapped a)) ⊎ ((r ≡ failed) ⊎ (r ≡ panicked))
Result-cases (mapped a) = inl (a, refl)
Result-cases failed = inr (inl refl)
Result-cases panicked = inr (inr refl)

module _ (parsers : Parsers) where
  -- The columns of a struct, those of a struct inside it at its place: the name and what the field gives. A
  -- struct in a field that is not exported gives a panic.
  unfoldable pub columns : Fields → List (Text × Result Value)
  columns no_field = []
  columns (leaf name tag exported v rest) =
      let meta = parse_field_meta tag in
      elim meta.ignored [
        | true ↦ columns rest
        | false ↦ (meta.db_name, field_value parsers meta exported v) ∷ columns rest
      ]
  columns (nested name tag exported inner rest) = elim (parse_field_meta tag).ignored [
    | true ↦ columns rest
    | false ↦ elim exported [
      | true ↦ columns inner ++ columns rest
      | false ↦ ([], panicked) ∷ columns rest
    ]
  ]

-- What one reads under a name: the first column that has no value, or else the last value of that name, or
-- else what was there before.
unfoldable pub read_columns :
    Text → List (Text × Result Value) → Option Value → Result (Option Value)
read_columns key [] before = mapped before
read_columns key ((name, mapped v) ∷ cs) before =
    read_columns key cs (if eq_text name key then some v else before)
read_columns key ((name, failed) ∷ cs) before = failed
read_columns key ((name, panicked) ∷ cs) before = panicked

-- What a map holds under a name.
unfoldable pub outcome_at : Text → Result Row → Result (Option Value)
outcome_at key (mapped m) = mapped (lookup key m)
outcome_at key failed = failed
outcome_at key panicked = panicked

abbrev behind : Result (Option Value) → Option Value → Result (Option Value)
behind (mapped o) before = mapped (or_else o before)
behind failed before = failed
behind panicked before = panicked

abbrev and_then :
    Result (Option Value) → (Option Value → Result (Option Value)) → Result (Option Value)
and_then (mapped o) go = go o
and_then failed go = failed
and_then panicked go = panicked

read_columns-append :
    (key : Text) (xs ys : List (Text × Result Value)) (before : Option Value)
    → read_columns key (xs ++ ys) before
      ≡ and_then (read_columns key xs before) (read_columns key ys)
unfolding read_columns
read_columns-append key [] ys before = refl
read_columns-append key ((name, mapped v) ∷ xs) ys before = read_columns-append key xs ys _
read_columns-append key ((name, failed) ∷ xs) ys before = refl
read_columns-append key ((name, panicked) ∷ xs) ys before = refl

or_else-if :
    (b : Bool) (v : Value) (o before : Option Value)
    → or_else o (if b then some v else before)
      ≡ or_else (or_else o (if b then some v else none)) before
or_else-if true v none before = refl
or_else-if false v none before = refl
or_else-if b v (some w) before = refl

behind-if :
    (b : Bool) (v : Value) (r : Result (Option Value)) (before : Option Value)
    → behind r (if b then some v else before)
      ≡ behind (behind r (if b then some v else none)) before
behind-if b v (mapped o) before = ap mapped (or_else-if b v o before)
behind-if b v failed before = refl
behind-if b v panicked before = refl

read_columns-behind :
    (key : Text) (xs : List (Text × Result Value)) (before : Option Value)
    → read_columns key xs before ≡ behind (read_columns key xs none) before
unfolding read_columns
read_columns-behind key [] before = refl
read_columns-behind key ((name, mapped v) ∷ xs) before =
    let b = eq_text name key in
    read_columns-behind key xs (if b then some v else before)
    ∙ behind-if b v (read_columns key xs none) before
    ∙ ap (λ r. behind r before) (sym (read_columns-behind key xs (if b then some v else none)))
read_columns-behind key ((name, failed) ∷ xs) before = refl
read_columns-behind key ((name, panicked) ∷ xs) before = refl

-- The map of a result has no key twice.
ResultIsMap : Result Row → Type 0
ResultIsMap (mapped m) = IsMap m
ResultIsMap failed = Unit
ResultIsMap panicked = Unit

module _ (parsers : Parsers) where
  map_fields-IsMap :
      (fields : Fields) (result : Row)
      → IsMap result
      → ResultIsMap (map_fields parsers fields result)
  unfolding map_fields ResultIsMap
  map_fields-IsMap no_field result h = h
  map_fields-IsMap (leaf name tag exported v rest) result h =
      let meta = parse_field_meta tag in
      elim (Bool-cases meta.ignored) [
        | inl i ↦ rw (i, ResultIsMap, map_fields) (map_fields-IsMap rest result h)
        | inr i ↦ elim (Result-cases (field_value parsers meta exported v)) [
          | inl (w, e) ↦
              rw (i, e, ResultIsMap, map_fields)
                (map_fields-IsMap rest _ (insert-IsMap meta.db_name w result h))
          | inr (inl e) ↦ rw (i, e, ResultIsMap, map_fields) _
          | inr (inr e) ↦ rw (i, e, ResultIsMap, map_fields) _
        ]
      ]
  map_fields-IsMap (nested name tag exported inner rest) result h =
      elim (Bool-cases (parse_field_meta tag).ignored) [
        | inl i ↦ rw (i, ResultIsMap, map_fields) (map_fields-IsMap rest result h)
        | inr i ↦ elim (Bool-cases exported) [
          | inl x ↦ elim (Result-cases (map_fields parsers inner [])) [
            | inl (m, e) ↦
                rw (i, x, e, ResultIsMap, map_fields)
                  (map_fields-IsMap rest _ (insert_all-IsMap m result h))
            | inr (inl e) ↦ rw (i, x, e, ResultIsMap, map_fields) _
            | inr (inr e) ↦ rw (i, x, e, ResultIsMap, map_fields) _
          ]
          | inr x ↦ rw (i, x, ResultIsMap, map_fields) _
        ]
      ]

  inner-IsMap : (fields : Fields) (m : Row) → map_fields parsers fields [] ≡ mapped m → IsMap m
  unfolding ResultIsMap IsMap
  inner-IsMap fields m e = subst ResultIsMap e (map_fields-IsMap fields [] _)

  -- The columns before others, by what one reads from them alone.
  inner_read :
      (key : Text) (cs ys : List (Text × Result Value)) (o : Result (Option Value))
      (before : Option Value)
      → o ≡ read_columns key cs none
      → and_then (behind o before) (read_columns key ys) ≡ read_columns key (cs ++ ys) before
  inner_read key cs ys o before e =
      ap (λ r. and_then (behind r before) (read_columns key ys)) e
      ∙ sym (
          read_columns-append key cs ys before
          ∙ ap (λ r. and_then r (read_columns key ys)) (read_columns-behind key cs before))

  map_fields-columns :
      (key : Text) (fields : Fields) (result : Row)
      → outcome_at key (map_fields parsers fields result)
        ≡ read_columns key (columns parsers fields) (lookup key result)
  unfolding map_fields columns read_columns outcome_at lookup
  map_fields-columns key no_field result = refl
  map_fields-columns key (leaf name tag exported v rest) result =
      let meta = parse_field_meta tag in
      elim (Bool-cases meta.ignored) [
        | inl i ↦ rw (i, outcome_at, map_fields, columns) (map_fields-columns key rest result)
        | inr i ↦ elim (Result-cases (field_value parsers meta exported v)) [
          | inl (w, e) ↦
              rw (i, e, outcome_at, map_fields, columns)
                (map_fields-columns key rest (insert meta.db_name w result)
                  ∙ ap (read_columns key (columns parsers rest))
                      (lookup-insert key meta.db_name w result))
          | inr (inl e) ↦ rw (i, e, outcome_at, map_fields, columns) refl
          | inr (inr e) ↦ rw (i, e, outcome_at, map_fields, columns) refl
        ]
      ]
  map_fields-columns key (nested name tag exported inner rest) result =
      elim (Bool-cases (parse_field_meta tag).ignored) [
        | inl i ↦ rw (i, outcome_at, map_fields, columns) (map_fields-columns key rest result)
        | inr i ↦ elim (Bool-cases exported) [
          | inl x ↦ elim (Result-cases (map_fields parsers inner [])) [
            | inl (m, e) ↦
                rw (i, x, e, outcome_at, map_fields, columns)
                  (map_fields-columns key rest (insert_all m result)
                    ∙ ap (read_columns key (columns parsers rest))
                        (lookup-insert_all key m result (inner-IsMap inner m e))
                    ∙ inner_read key (columns parsers inner) (columns parsers rest)
                        (mapped (lookup key m)) (lookup key result)
                        (ap (outcome_at key) (sym e) ∙ map_fields-columns key inner []))
            | inr (inl e) ↦
                rw (i, x, e, outcome_at, map_fields, columns)
                  (inner_read key (columns parsers inner) (columns parsers rest) failed
                    (lookup key result)
                    (ap (outcome_at key) (sym e) ∙ map_fields-columns key inner []))
            | inr (inr e) ↦
                rw (i, x, e, outcome_at, map_fields, columns)
                  (inner_read key (columns parsers inner) (columns parsers rest) panicked
                    (lookup key result)
                    (ap (outcome_at key) (sym e) ∙ map_fields-columns key inner []))
          ]
          | inr x ↦ rw (i, x, outcome_at, map_fields, columns) refl
        ]
      ]

  -- The map of StructToMap, read under any name: the last value among the columns of the struct in their
  -- order, those of a struct inside it at its place, or nothing without one; an error or a panic if
  -- some column has one, whichever comes first.
  pub struct_to_map-columns :
      (key : Text) (fields : Fields)
      → outcome_at key (struct_to_map parsers (struct_argument fields))
        ≡ read_columns key (columns parsers fields) none
  unfolding struct_to_map lookup
  struct_to_map-columns key fields = map_fields-columns key fields []
