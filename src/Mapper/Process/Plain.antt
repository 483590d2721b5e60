-- ===== src/Mapper/Process/Plain.antt =====
-- Without a callback under `_global` and without a dialect, going over the metadata comes to going over the fields.
use xlorm.Common.{
  ℕ, zero, suc, ◌<◌, ◌≡◌, refl, ◌∙◌, List, [], ◌∷◌, Bool, true, false, ◌||◌, not, none, some, inl,
  inr, Bool-cases, All, arith,
}
use xlorm.Text.{Text, codes}
use xlorm.Dict.{Dict, insert}
use xlorm.Dict.Merge.{insert_all}
use xlorm.Row.{Row}
use xlorm.Tags.{FieldMeta, parse_field_meta}
use xlorm.Mapper.{
  Leaf, Fields, struct_argument, Parsers, Result, mapped, failed, panicked, left_out, field_value,
  process_fields, to_map,
}
use xlorm.Mapper.Metadata.{get_callback}
use xlorm.Mapper.Process.{
  StructConfig, StructOption, skip_default, skip_callback, with_dialect, apply_options,
  default_config, Callback, found_leaf, found_nested, Outcome, proceed, process_field,
  process_value, to_map_with_options,
}
use xlorm.Mapper.Process.Order.{IsProper}
use xlorm.Mapper.Process.Rounds.{
  GoesOn, size, value-step, inner-step, IsRound, process_order-fields,
}

-- The options that name no dialect.
abbrev pub IsPlain : StructOption → Type 0
IsPlain skip_default = Unit
IsPlain skip_callback = Unit
IsPlain (with_dialect quote) = ⊥

apply_options-quote :
    (options : List StructOption) (cfg : StructConfig)
    → All IsPlain options
    → (apply_options options cfg).quote ≡ cfg.quote
unfolding apply_options
apply_options-quote [] cfg h = refl
apply_options-quote (skip_default ∷ os) cfg (_, h) =
    apply_options-quote os (record cfg { skip_default = true }) h
apply_options-quote (skip_callback ∷ os) cfg (_, h) =
    apply_options-quote os (record cfg { skip_before = true; skip_after = true }) h
apply_options-quote (with_dialect quote ∷ os) cfg (p, h) = elim p [ ]

abbrev same : Text → Text
same s = s

module _ (parsers : Parsers) (inside : Fields → Outcome) {go : Row → Outcome}
    {rest : Row → Result Row} (h : GoesOn go rest) where
  leaf-step :
      (meta : FieldMeta) (exported : Bool) (v : Leaf) (result : Row)
      → proceed go (process_field parsers same inside meta (some (found_leaf exported v)) result)
        ≡ some (elim (left_out meta exported v) [
          | true ↦ rest result
          | false ↦ elim (field_value parsers meta exported v) [
            | mapped w ↦ rest (insert meta.db_name w result)
            | failed ↦ failed
            | panicked ↦ panicked
          ]
        ])
  unfolding process_field
  leaf-step meta exported v result = elim (Bool-cases (left_out meta exported v)) [
    | inl l ↦ rw (process_field, l) (h result)
    | inr l ↦
        rw (process_field, l)
          (value-step result h meta.db_name (field_value parsers meta exported v))
  ]

  nested-step :
      (inner : Fields) (made : Result Row) (exported : Bool) (result : Row) (meta : FieldMeta)
      → inside inner ≡ some made
      → proceed go
          (process_field parsers same inside meta (some (found_nested exported inner)) result)
        ≡ some (elim (false || not exported) [
          | true ↦ rest result
          | false ↦ elim made [
            | mapped nested_map ↦ rest (insert_all nested_map result)
            | failed ↦ failed
            | panicked ↦ panicked
          ]
        ])
  unfolding process_field
  nested-step inner made true result meta e = rw (e) (inner-step result h made)
  nested-step inner made false result meta e = h result

module _ (parsers : Parsers) where
  process-IsRound :
      (bound : ℕ) (inside : Fields → Outcome)
      → ((inner : Fields)
          → size inner < bound
          → IsProper inner
          → inside inner ≡ some (process_fields parsers inner []))
      → IsRound bound (process_field parsers same inside) (process_fields parsers)
  unfolding process_fields
  process-IsRound bound inside hi = record {
    at_end = λ r. refl;
    leaf_left_out = λ name tag exported v rest r i. simp (process_fields, i) refl;
    nested_left_out = λ name tag exported inner rest r i. simp (process_fields, i) refl;
    leaf_round = λ name tag exported v rest r go i h.
        leaf-step parsers inside h (parse_field_meta tag) exported v r;
    nested_round = λ name tag exported inner rest r go i lt p h.
        nested-step parsers inside h inner (process_fields parsers inner []) exported r
          (parse_field_meta tag) (hi inner lt p)
        ∙ simp (process_fields, i) refl;
  }

  value-fields :
      (n : ℕ) (fields : Fields)
      → size fields < n
      → IsProper fields
      → process_value parsers none same n fields ≡ some (process_fields parsers fields [])
  unfolding process_value
  value-fields zero fields lt p = absurd (omega (arith, lt))
  value-fields (suc n) fields lt p =
      process_order-fields
        (process-IsRound n (process_value parsers none same n)
          (λ inner l q. value-fields n inner l q))
        fields (omega (arith, lt)) p

  -- `ToMap` of a struct as `processValue` makes it, field by field over its metadata, comes to the map of the fields
  -- in their order: on fuel above the number of all fields it ends, whatever callbacks are registered, if none
  -- of them is named _global, and whatever options are given, if none of them is a dialect. The fields
  -- of a struct have different names.
  pub to_map_with_options-to_map :
      (registered : Dict Callback) (options : List StructOption) (fuel : ℕ) (fields : Fields)
      → get_callback (codes "_global") registered ≡ none
      → All IsPlain options
      → IsProper fields
      → size fields < fuel
      → to_map_with_options parsers registered options fuel (struct_argument fields)
        ≡ some (to_map parsers (struct_argument fields))
  unfolding to_map_with_options to_map
  to_map_with_options-to_map registered options fuel fields g o p lt =
      rw (g, apply_options-quote options default_config o) (value-fields fuel fields lt p)
