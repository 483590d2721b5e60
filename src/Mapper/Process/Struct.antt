-- ===== src/Mapper/Process/Struct.antt =====
-- structmapper.go: `StructToMap` as it goes over the metadata, against the description by recursion on the fields.
use xlorm.Common.{
  ℕ, zero, suc, ◌<◌, ◌≡◌, refl, ◌∙◌, [], Bool, true, false, Option, none, some, inl, inr,
  Bool-cases, arith,
}
use xlorm.Dict.{insert}
use xlorm.Dict.Merge.{insert_all}
use xlorm.Row.{Row}
use xlorm.Tags.{FieldMeta, parse_field_meta}
use xlorm.Mapper.{
  Leaf, Fields, struct_argument, Parsers, Result, mapped, failed, panicked, field_value, map_fields,
  struct_to_map,
}
use xlorm.Mapper.Metadata.{collect, no_meta}
use xlorm.Mapper.Process.{
  layout_of, Found, found_leaf, found_nested, find_in, Outcome, put_nested, proceed, process_order,
}
use xlorm.Mapper.Process.Order.{IsProper}
use xlorm.Mapper.Process.Rounds.{
  GoesOn, size, value-step, inner-step, IsRound, process_order-fields,
}

module _ (parsers : Parsers) where
  -- One round of the loop of `StructToMap`, which reads every field by `Interface()`.
  unfoldable pub map_field : (Fields → Outcome) → FieldMeta → Option Found → Row → Outcome
  unfolding field_value
  map_field inside meta none result = some panicked
  map_field inside meta (some (found_leaf exported v)) result = elim meta.ignored [
    | true ↦ some (mapped result)
    | false ↦ elim (field_value parsers meta exported v) [
      | mapped w ↦ some (mapped (insert meta.db_name w result))
      | failed ↦ some failed
      | panicked ↦ some panicked
    ]
  ]
  map_field inside meta (some (found_nested exported inner)) result = elim meta.ignored [
    | true ↦ some (mapped result)
    | false ↦ elim exported [ true ↦ put_nested result (inside inner) | false ↦ some panicked ]
  ]

  -- `StructToMap`, of a struct.
  unfoldable pub struct_by_meta : ℕ → Fields → Outcome
  unfolding map_field process_order collect
  struct_by_meta zero fields = none
  struct_by_meta (suc fuel) fields =
      let m = collect (layout_of fields) no_meta in
      process_order (map_field (struct_by_meta fuel)) m (find_in (some fields)) m.field_order []

module _ (parsers : Parsers) (inside : Fields → Outcome) {go : Row → Outcome}
    {rest : Row → Result Row} (h : GoesOn go rest) where
  leaf-step :
      (meta : FieldMeta) (exported : Bool) (v : Leaf) (result : Row)
      → proceed go (map_field parsers inside meta (some (found_leaf exported v)) result)
        ≡ some (elim meta.ignored [
          | true ↦ rest result
          | false ↦ elim (field_value parsers meta exported v) [
            | mapped w ↦ rest (insert meta.db_name w result)
            | failed ↦ failed
            | panicked ↦ panicked
          ]
        ])
  unfolding map_field
  leaf-step meta exported v result = elim (Bool-cases meta.ignored) [
    | inl l ↦ simp (map_field, l) (h result)
    | inr l ↦
        simp (map_field, l) (value-step result h meta.db_name (field_value parsers meta exported v))
  ]

  nested-step :
      (inner : Fields) (made : Result Row) (exported : Bool) (result : Row) (meta : FieldMeta)
      → inside inner ≡ some made
      → meta.ignored ≡ false
      → proceed go (map_field parsers inside meta (some (found_nested exported inner)) result)
        ≡ some (elim exported [
          | true ↦ elim made [
            | mapped nested_map ↦ rest (insert_all nested_map result)
            | failed ↦ failed
            | panicked ↦ panicked
          ]
          | false ↦ panicked
        ])
  unfolding map_field
  nested-step inner made true result meta e i = rw (i, e) (inner-step result h made)
  nested-step inner made false result meta e i = rw (i) refl

module _ (parsers : Parsers) where
  map-IsRound :
      (bound : ℕ) (inside : Fields → Outcome)
      → ((inner : Fields)
          → size inner < bound
          → IsProper inner
          → inside inner ≡ some (map_fields parsers inner []))
      → IsRound bound (map_field parsers inside) (map_fields parsers)
  unfolding map_fields
  map-IsRound bound inside hi = record {
    at_end = λ r. refl;
    leaf_left_out = λ name tag exported v rest r i. simp (map_fields, i) refl;
    nested_left_out = λ name tag exported inner rest r i. simp (map_fields, i) refl;
    leaf_round = λ name tag exported v rest r go i h.
        leaf-step parsers inside h (parse_field_meta tag) exported v r;
    nested_round = λ name tag exported inner rest r go i lt p h.
        nested-step parsers inside h inner (map_fields parsers inner []) exported r
          (parse_field_meta tag) (hi inner lt p) i
        ∙ simp (map_fields, i) refl;
  }

  -- `StructToMap` of a struct, field by field over its metadata, comes to the map of the fields in their
  -- order: on fuel above the number of all fields it ends. The fields of a struct have different names.
  pub struct_by_meta-struct_to_map :
      (n : ℕ) (fields : Fields)
      → size fields < n
      → IsProper fields
      → struct_by_meta parsers n fields ≡ some (struct_to_map parsers (struct_argument fields))
  unfolding struct_by_meta struct_to_map
  struct_by_meta-struct_to_map zero fields lt p = absurd (omega (arith, lt))
  struct_by_meta-struct_to_map (suc n) fields lt p =
      process_order-fields
        (map-IsRound n (struct_by_meta parsers n)
          (λ inner l q. struct_by_meta-struct_to_map n inner l q))
        fields (omega (arith, lt)) p
