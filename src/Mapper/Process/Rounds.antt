-- ===== src/Mapper/Process/Rounds.antt =====
-- The loop over the metadata against a description of its result by recursion on the fields.
use xlorm.Common.{
  sym, ℕ, suc, ◌+◌, ◌<◌, ◌≤◌, ◌≡◌, refl, ap, ◌∙◌, [], Bool, true, false, Option, some, inl, inr,
  Bool-cases, arith,
}
use xlorm.Text.{Text}
use xlorm.Dict.{insert}
use xlorm.Dict.Merge.{insert_all}
use xlorm.Value.{Value}
use xlorm.Row.{Row}
use xlorm.Tags.{FieldMeta, parse_field_meta}
use xlorm.Mapper.{Leaf, Fields, no_field, leaf, nested, Result, mapped, failed, panicked}
use xlorm.Mapper.Metadata.{StructMeta, collect, no_meta}
use xlorm.Mapper.Process.{
  layout_of, Found, found_leaf, found_nested, field_by_name, find_in, Outcome, put_nested, proceed,
  process_order,
}
use xlorm.Mapper.Process.Order.{
  IsProper, order, field_order-collect, next_from, Agrees, Agrees-tail, Agrees-found, Agrees-meta,
  order-kept, order-left_out,
}

-- The number of all fields.
abbrev pub size : Fields → ℕ
size no_field = 0
size (leaf name tag exported v rest) = suc (size rest)
size (nested name tag exported inner rest) = suc (size inner + size rest)

-- What `go` makes of a result is what `rest` makes of it.
abbrev pub GoesOn : (Row → Outcome) → (Row → Result Row) → Type 0
GoesOn go rest = (r : Row) → go r ≡ some (rest r)

module _ {go : Row → Outcome} {rest : Row → Result Row} (result : Row) (h : GoesOn go rest) where
  pub value-step :
      (name : Text) (r : Result Value)
      → proceed go (elim r [
        | mapped w ↦ some (mapped (insert name w result))
        | failed ↦ some failed
        | panicked ↦ some panicked
      ])
        ≡ some (elim r [
          | mapped w ↦ rest (insert name w result)
          | failed ↦ failed
          | panicked ↦ panicked
        ])
  value-step name (mapped w) = h (insert name w result)
  value-step name failed = refl
  value-step name panicked = refl

  pub inner-step :
      (r : Result Row)
      → proceed go (put_nested result (some r))
        ≡ some (elim r [
          | mapped nested_map ↦ rest (insert_all nested_map result)
          | failed ↦ failed
          | panicked ↦ panicked
        ])
  inner-step (mapped w) = h (insert_all w result)
  inner-step failed = refl
  inner-step panicked = refl

-- The laws of a round against the description: a field that its tag leaves out adds nothing, and a round for any
-- other field goes on with the rest as the description does. Structs inside have fewer fields than `bound`.
pub record IsRound (bound : ℕ) (round : FieldMeta → Option Found → Row → Outcome)
    (reference : Fields → Row → Result Row) : Type 0 where
  pub at_end : (r : Row) → reference no_field r ≡ mapped r
  pub leaf_left_out :
      (name tag : Text) (exported : Bool) (v : Leaf) (rest : Fields) (r : Row)
      → (parse_field_meta tag).ignored ≡ true
      → reference (leaf name tag exported v rest) r ≡ reference rest r
  pub nested_left_out :
      (name tag : Text) (exported : Bool) (inner rest : Fields) (r : Row)
      → (parse_field_meta tag).ignored ≡ true
      → reference (nested name tag exported inner rest) r ≡ reference rest r
  pub leaf_round :
      (name tag : Text) (exported : Bool) (v : Leaf) (rest : Fields) (r : Row) (go : Row → Outcome)
      → (parse_field_meta tag).ignored ≡ false
      → GoesOn go (reference rest)
      → proceed go (round (parse_field_meta tag) (some (found_leaf exported v)) r)
        ≡ some (reference (leaf name tag exported v rest) r)
  pub nested_round :
      (name tag : Text) (exported : Bool) (inner rest : Fields) (r : Row) (go : Row → Outcome)
      → (parse_field_meta tag).ignored ≡ false
      → size inner < bound
      → IsProper inner
      → GoesOn go (reference rest)
      → proceed go (round (parse_field_meta tag) (some (found_nested exported inner)) r)
        ≡ some (reference (nested name tag exported inner rest) r)

module _ {bound : ℕ} {round : FieldMeta → Option Found → Row → Outcome}
    {reference : Fields → Row → Result Row} (laws : IsRound bound round reference) (m : StructMeta)
    (found : Text → Option Found) where
  order-fields :
      (fields : Fields) (from : StructMeta) (result : Row)
      → size fields ≤ bound
      → IsProper fields
      → Agrees m from found (layout_of fields) (λ key. field_by_name key fields)
      → process_order round m found (order (layout_of fields)) result
        ≡ some (reference fields result)
  unfolding process_order
  order-fields no_field from result le p h = ap some (sym (laws.at_end result))
  order-fields (leaf name tag exported v rest) from result le (a, p) h =
      let fd = found_leaf exported v in
      let search : Text → Option Found = λ key. field_by_name key rest in
      let tail : GoesOn (process_order round m found (order (layout_of rest))) (reference rest) =
        λ r.
          order-fields rest (next_from name tag from) r (omega (arith, le)) p
            (Agrees-tail search fd a h) in
      elim (Bool-cases (parse_field_meta tag).ignored) [
        | inl i ↦
            ap (λ names. process_order round m found names result)
              (order-left_out name tag (layout_of rest) i)
            ∙ tail result
            ∙ ap some (sym (laws.leaf_left_out name tag exported v rest result i))
        | inr i ↦
            ap (λ names. process_order round m found names result)
              (order-kept name tag (layout_of rest) i)
            ∙ rw (Agrees-found search fd a h, Agrees-meta search fd a h i)
                (laws.leaf_round name tag exported v rest result _ i tail)
      ]
  order-fields (nested name tag exported inner rest) from result le (a, q, p) h =
      let fd = found_nested exported inner in
      let search : Text → Option Found = λ key. field_by_name key rest in
      let tail : GoesOn (process_order round m found (order (layout_of rest))) (reference rest) =
        λ r.
          order-fields rest (next_from name tag from) r (omega (arith, le)) p
            (Agrees-tail search fd a h) in
      elim (Bool-cases (parse_field_meta tag).ignored) [
        | inl i ↦
            ap (λ names. process_order round m found names result)
              (order-left_out name tag (layout_of rest) i)
            ∙ tail result
            ∙ ap some (sym (laws.nested_left_out name tag exported inner rest result i))
        | inr i ↦
            ap (λ names. process_order round m found names result)
              (order-kept name tag (layout_of rest) i)
            ∙ rw (Agrees-found search fd a h, Agrees-meta search fd a h i)
                (laws.nested_round name tag exported inner rest result _ i (omega (arith, le)) q
                  tail)
      ]

-- The whole loop over the metadata of a struct.
pub process_order-fields :
    {bound : ℕ} {round : FieldMeta → Option Found → Row → Outcome}
    {reference : Fields → Row → Result Row}
    → IsRound bound round reference
    → (fields : Fields) → size fields ≤ bound
    → IsProper fields
    → let m = collect (layout_of fields) no_meta in
      process_order round m (find_in (some fields)) m.field_order [] ≡ some (reference fields [])
process_order-fields {round} laws fields le p =
    let m = collect (layout_of fields) no_meta in
    ap (λ names. process_order round m (find_in (some fields)) names [])
      (field_order-collect (layout_of fields) no_meta)
    ∙ order-fields laws m (find_in (some fields)) fields no_meta [] le p
        (record { by_name = λ k h. refl; by_meta = λ k h. refl })
