-- ===== src/Mapper/Process/Order.antt =====
-- What the metadata of a struct record of its fields, and where `FieldByName` finds them.
use xlorm.Common.{
  ◌≡◌, ◌≢◌, refl, sym, ap, subst, ◌∙◌, List, [], ◌∷◌, ◌++◌, Bool, true, false, ◌||◌, if◌then◌else◌,
  Option, some, inl, inr, Bool-cases, arith, append_assoc, append-nil,
}
use xlorm.Text.{Text, eq_text}
use xlorm.Text.Laws.{eq_text_refl, eq_text→eq}
use xlorm.Dict.{lookup, lookup-insert}
use xlorm.Tags.{parse_field_meta}
use xlorm.Mapper.{Fields, no_field, leaf, nested}
use xlorm.Mapper.Metadata.{Layout, StructMeta, add_meta, collect}
use xlorm.Mapper.Process.{layout_of, Found, meta_at}

false-ne-true : false ≢ true
false-ne-true e = cc

abbrev pub name_in : Text → Layout → Bool
name_in n [] = false
name_in n ((name, tag) ∷ rest) = eq_text name n || name_in n rest

-- No two fields of a struct, or of a struct inside it, have one name.
abbrev pub IsProper : Fields → Type 0
IsProper no_field = Unit
IsProper (leaf name tag exported v rest) = (name_in name (layout_of rest) ≡ false) × IsProper rest
IsProper (nested name tag exported inner rest) =
    (name_in name (layout_of rest) ≡ false) × IsProper inner × IsProper rest

-- The order in which the fields are recorded.
abbrev pub order : Layout → List Text
order [] = []
order ((name, tag) ∷ rest) =
    let later = order rest in if (parse_field_meta tag).ignored then later else name ∷ later

pub field_order-collect :
    (l : Layout) (m : StructMeta) → (collect l m).field_order ≡ m.field_order ++ order l
unfolding collect add_meta
field_order-collect [] m = sym (append-nil m.field_order)
field_order-collect ((name, tag) ∷ rest) m = elim (Bool-cases (parse_field_meta tag).ignored) [
  | inl e ↦ rw (e) (field_order-collect rest m)
  | inr e ↦ simp (e) (
      field_order-collect rest (add_meta name (parse_field_meta tag) m)
      ∙ append_assoc m.field_order (name ∷ []) (order rest))
]

-- The fields of other names leave the record of a name alone.
lookup-collect :
    (n : Text) (l : Layout) (m : StructMeta)
    → name_in n l ≡ false
    → lookup n (collect l m).fields ≡ lookup n m.fields
unfolding collect add_meta
lookup-collect n [] m h = refl
lookup-collect n ((name, tag) ∷ rest) m h = ground (
  arith,
  h,
  lookup-collect n rest m,
  lookup-collect n rest (add_meta name (parse_field_meta tag) m),
  lookup-insert n name (parse_field_meta tag) m.fields,
)

-- Names of different fields differ.
name_in-apart :
    (n name : Text) (l : Layout)
    → name_in name l ≡ false
    → name_in n l ≡ true
    → eq_text name n ≡ false
name_in-apart n name l a h = elim (Bool-cases (eq_text name n)) [
  | inr e ↦ e
  | inl e ↦
      absurd (false-ne-true (sym (subst (λ k. name_in k l ≡ false) (eq_text→eq name n e) a) ∙ h))
]

-- The record of a field that is not left out, behind all fields.
head-meta :
    (name tag : Text) (l : Layout) (from : StructMeta)
    → name_in name l ≡ false
    → (parse_field_meta tag).ignored ≡ false
    → lookup name (collect ((name, tag) ∷ l) from).fields ≡ some (parse_field_meta tag)
unfolding collect add_meta
head-meta name tag l from a i = simp (i) (
    lookup-collect name l (add_meta name (parse_field_meta tag) from) a
    ∙ lookup-insert name name (parse_field_meta tag) from.fields
    ∙ rw (eq_text_refl name) refl)

abbrev pub next_from : Text → Text → StructMeta → StructMeta
next_from name tag from =
    if (parse_field_meta tag).ignored then from else add_meta name (parse_field_meta tag) from

collect-next :
    (name tag : Text) (l : Layout) (from : StructMeta)
    → collect ((name, tag) ∷ l) from ≡ collect l (next_from name tag from)
unfolding collect
collect-next name tag l from = elim (Bool-cases (parse_field_meta tag).ignored) [
  | inl e ↦ rw (e) refl
  | inr e ↦ simp (e) refl
]

-- What the metadata and the search say agrees with the fields that are left.
pub record Agrees (m from : StructMeta) (found : Text → Option Found) (l : Layout)
    (search : Text → Option Found) : Type 0 where
  pub by_name : (n : Text) → name_in n l ≡ true → found n ≡ search n
  pub by_meta :
      (n : Text) → name_in n l ≡ true → lookup n m.fields ≡ lookup n (collect l from).fields

module _ {m from : StructMeta} {found : Text → Option Found} {name tag : Text} {l : Layout}
    (search : Text → Option Found) (fd : Found) (a : name_in name l ≡ false)
    (h : Agrees m from found
      ((name, tag) ∷ l)
      (λ key. if eq_text name key then some fd else search key)) where
  pub Agrees-tail : Agrees m (next_from name tag from) found l search
  Agrees-tail = record {
    by_name = λ n e. h.by_name n (ground (arith, e)) ∙ rw (name_in-apart n name l a e) refl;
    by_meta = λ n e.
        h.by_meta n (ground (arith, e))
        ∙ ap (λ (k : StructMeta). lookup n k.fields) (collect-next name tag l from);
  }

  pub Agrees-found : found name ≡ some fd
  Agrees-found = h.by_name name (rw (eq_text_refl name) refl) ∙ rw (eq_text_refl name) refl

  pub Agrees-meta : (parse_field_meta tag).ignored ≡ false → meta_at name m ≡ parse_field_meta tag
  Agrees-meta i =
      rw (meta_at, h.by_meta name (rw (eq_text_refl name) refl) ∙ head-meta name tag l from a i)
        refl

pub order-kept :
    (name tag : Text) (l : Layout)
    → (parse_field_meta tag).ignored ≡ false
    → order ((name, tag) ∷ l) ≡ name ∷ order l
order-kept name tag l i = rw (i) refl

pub order-left_out :
    (name tag : Text) (l : Layout)
    → (parse_field_meta tag).ignored ≡ true
    → order ((name, tag) ∷ l) ≡ order l
order-left_out name tag l i = rw (i) refl
