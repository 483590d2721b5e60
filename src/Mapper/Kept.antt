-- ===== src/Mapper/Kept.antt =====
-- `ToMap` against `StructToMap`.
use xlorm.Common.{
  zero, suc, sym, ap, ◌∙◌, ◌&&◌, ◌≡◌, refl, [], ◌∷◌, Bool, true, false, Bool-cases, inl, inr, ◌||◌,
  not, arith,
}
use xlorm.Row.{Row}
use xlorm.Dict.{insert}
use xlorm.Dict.Merge.{insert_all}
use xlorm.Tags.{FieldMeta, parse_field_meta}
use xlorm.Mapper.{
  Fields, Leaf, string_leaf, int_leaf, int64_leaf, bool_leaf, float32_leaf, float64_leaf, time_leaf,
  nilable_leaf, sized_leaf, other_leaf, is_empty_value, no_field, leaf, nested, struct_argument,
  Parsers, left_out, field_value, map_fields, process_fields, struct_to_map, to_map,
}
use xlorm.Mapper.Columns.{Result-cases}

-- The values that count as empty: a text without bytes, a nil, and a slice, map or array without elements.
unfoldable pub is_blank : Leaf → Bool
is_blank (string_leaf []) = true
is_blank (string_leaf (c ∷ s)) = false
is_blank (nilable_leaf is_nil v) = is_nil
is_blank (sized_leaf zero v) = true
is_blank (sized_leaf (suc n) v) = false
is_blank (int_leaf n) = false
is_blank (int64_leaf n) = false
is_blank (bool_leaf b) = false
is_blank (float32_leaf x) = false
is_blank (float64_leaf x) = false
is_blank (time_leaf t) = false
is_blank (other_leaf v) = false

-- Whether a field is passed over, by its tag (ignored, omitempty, with a default) and by being exported.
unfoldable pub passed_over : Bool → Bool → Bool → Bool → Leaf → Bool
unfolding is_blank
passed_over true exported omitempty has_default v = true
passed_over false false omitempty has_default v = true
passed_over false true false has_default v = false
passed_over false true true true v = false
passed_over false true true false v = is_blank v

empty-blank : (v : Leaf) → is_empty_value v ≡ is_blank v
unfolding is_empty_value is_blank
empty-blank (string_leaf []) = refl
empty-blank (string_leaf (c ∷ s)) = refl
empty-blank (nilable_leaf is_nil v) = refl
empty-blank (sized_leaf zero v) = refl
empty-blank (sized_leaf (suc n) v) = ground arith
empty-blank (int_leaf n) = refl
empty-blank (int64_leaf n) = refl
empty-blank (bool_leaf b) = refl
empty-blank (float32_leaf x) = refl
empty-blank (float64_leaf x) = refl
empty-blank (time_leaf t) = refl
empty-blank (other_leaf v) = refl

by_cases :
    (ignored exported omitempty has_default : Bool) (v : Leaf)
    → (ignored || (not exported || (omitempty && (is_blank v && not has_default))))
      ≡ passed_over ignored exported omitempty has_default v
unfolding passed_over
by_cases true exported omitempty has_default v = refl
by_cases false false omitempty has_default v = refl
by_cases false true false has_default v = refl
by_cases false true true true v = ground arith
by_cases false true true false v = ground arith

left_out-passed_over :
    (meta : FieldMeta) (exported : Bool) (v : Leaf)
    → left_out meta exported v ≡ passed_over meta.ignored exported meta.omitempty meta.has_default v
unfolding left_out
left_out-passed_over meta exported v =
    ap (λ b. meta.ignored || (not exported || (meta.omitempty && (b && not meta.has_default))))
      (empty-blank v)
    ∙ by_cases meta.ignored exported meta.omitempty meta.has_default v

-- The fields that ToMap looks at, in the struct and in those inside it.
unfoldable pub kept : Fields → Fields
unfolding passed_over
kept no_field = no_field
kept (leaf name tag exported v rest) =
    let meta = parse_field_meta tag in
    elim (passed_over meta.ignored exported meta.omitempty meta.has_default v) [
      | true ↦ kept rest
      | false ↦ leaf name tag exported v (kept rest)
    ]
kept (nested name tag exported inner rest) = elim ((parse_field_meta tag).ignored || not exported) [
  | true ↦ kept rest
  | false ↦ nested name tag exported (kept inner) (kept rest)
]

looked_at :
    (meta : FieldMeta) (exported : Bool) (v : Leaf)
    → left_out meta exported v ≡ false
    → meta.ignored ≡ false
unfolding left_out
looked_at meta exported v h = ground arith

module _ (parsers : Parsers) where
  process_fields-kept :
      (fields : Fields) (result : Row)
      → process_fields parsers fields result ≡ map_fields parsers (kept fields) result
  unfolding process_fields map_fields kept
  process_fields-kept no_field result = refl
  process_fields-kept (leaf name tag exported v rest) result =
      let meta = parse_field_meta tag in
      let same = sym (left_out-passed_over meta exported v) in
      elim (Bool-cases (left_out meta exported v)) [
        | inl o ↦ rw (o, same ∙ o, process_fields, kept) (process_fields-kept rest result)
        | inr o ↦ elim (Result-cases (field_value parsers meta exported v)) [
          | inl (w, e) ↦
              rw (o, same ∙ o, process_fields, kept, map_fields, looked_at meta exported v o, e)
                (process_fields-kept rest (insert meta.db_name w result))
          | inr (inl e) ↦
              rw (o, same ∙ o, process_fields, kept, map_fields, looked_at meta exported v o, e)
                refl
          | inr (inr e) ↦
              rw (o, same ∙ o, process_fields, kept, map_fields, looked_at meta exported v o, e)
                refl
        ]
      ]
  process_fields-kept (nested name tag exported inner rest) result =
      elim (Bool-cases ((parse_field_meta tag).ignored || not exported)) [
        | inl o ↦ rw (o, process_fields, kept) (process_fields-kept rest result)
        | inr o ↦
            let i : ((parse_field_meta tag).ignored ≡ false) = ground (arith, o) in
            let x : (exported ≡ true) = ground (arith, o) in
            elim (Result-cases (map_fields parsers (kept inner) [])) [
              | inl (m, e) ↦
                  rw (o, process_fields, kept, process_fields-kept inner [], map_fields, i, x, e)
                    (process_fields-kept rest (insert_all m result))
              | inr (inl e) ↦
                  rw (o, process_fields, kept, process_fields-kept inner [], map_fields, i, x, e)
                    refl
              | inr (inr e) ↦
                  rw (o, process_fields, kept, process_fields-kept inner [], map_fields, i, x, e)
                    refl
            ]
      ]

  -- ToMap gives what StructToMap gives for the struct without the fields that it passes over, also in the structs
  -- inside it: those that their tag ignores, those that are not exported, and those with omitempty and
  -- without a default that are an empty text, a nil, or a slice, map or array without elements.
  pub to_map-struct_to_map :
      (fields : Fields)
      → to_map parsers (struct_argument fields)
        ≡ struct_to_map parsers (struct_argument (kept fields))
  unfolding to_map struct_to_map
  to_map-struct_to_map fields = process_fields-kept fields []
