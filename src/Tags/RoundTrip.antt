-- ===== src/Tags/RoundTrip.antt =====
-- A tag that is written from the data of a field is read back as these data.
use xlorm.Common.{
  ◌<◌, ◌≡◌, refl, ap, ap₂, ◌∙◌, sym, List, [], ◌∷◌, ◌++◌, Bool, true, false, ◌==◌, if◌then◌else◌,
  All, arith, All-append, length, length-append, Bool-cases, inl, inr,
}
use xlorm.Text.{Text, codes, join, contains_any, has_byte, eq_text}
use xlorm.Text.Laws.{Lacks, append-Lacks, eq_text→eq}
use xlorm.Tags.{
  FieldMeta, split, has_prefix, trim_prefix, bare, apply_option, apply_options, parse_field_meta,
}

abbrev pub comma : Text
comma = b',' ∷ []

split-piece : (s : Text) → Lacks comma s → split s b',' ≡ s ∷ []
unfolding split contains_any has_byte
split-piece [] h = refl
split-piece (c ∷ s) h = rw (no_comma, split-piece s (ground (arith, h))) refl
  where
    no_comma : (c == b',') ≡ false
    no_comma = ground (arith, h)

split-next :
    (s rest : Text) → Lacks comma s → split (s ++ (comma ++ rest)) b',' ≡ s ∷ split rest b','
unfolding split contains_any has_byte
split-next [] rest h = refl
split-next (c ∷ s) rest h = rw (no_comma, split-next s rest (ground (arith, h))) refl
  where
    no_comma : (c == b',') ≡ false
    no_comma = ground (arith, h)

-- Splitting undoes the joining of parts without a comma.
pub split-join :
    (p : Text) (ps : List Text)
    → All (Lacks comma) (p ∷ ps)
    → split (join (p ∷ ps) comma) b',' ≡ p ∷ ps
unfolding join
split-join p [] (h, _) = split-piece p h
split-join p (q ∷ ps) (h, hs) =
    split-next p (join (q ∷ ps) comma) h ∙ ap (λ r. p ∷ r) (split-join q ps hs)

-- An option that is written only if it is set.
unfoldable pub when : Bool → Text → List Text
when b s = if b then s ∷ [] else []

-- The options of a tag, in a fixed order.
unfoldable pub option_parts : FieldMeta → List Text
unfolding when
option_parts meta =
    when meta.is_pk (codes "pk")
    ++ (when meta.required (codes "required")
        ++ (when meta.omitempty (codes "omitempty")
            ++ (when meta.ignored (codes "ignore")
                ++ (when meta.has_default (codes "default=" ++ meta.default_val)
                    ++ ((codes "type=" ++ meta.sql_type) ∷ [])))))

-- A tag for these data.
unfoldable pub print_tag : FieldMeta → Text
unfolding option_parts join
print_tag meta = join (meta.db_name ∷ option_parts meta) comma

apply_options-append :
    (xs ys : List Text) (meta : FieldMeta)
    → apply_options (xs ++ ys) meta ≡ apply_options ys (apply_options xs meta)
unfolding apply_options
apply_options-append [] ys meta = refl
apply_options-append (x ∷ xs) ys meta = apply_options-append xs ys (apply_option x meta)

then_apply :
    (xs ys : List Text) (m m' m'' : FieldMeta)
    → apply_options xs m ≡ m'
    → apply_options ys m' ≡ m''
    → apply_options (xs ++ ys) m ≡ m''
then_apply xs ys m m' m'' e f = apply_options-append xs ys m ∙ ap (apply_options ys) e ∙ f

-- One mark that is not set yet.
mark_pk :
    (b : Bool) (m : FieldMeta)
    → m.is_pk ≡ false
    → apply_options (when b (codes "pk")) m ≡ record m { is_pk = b }
unfolding when apply_options apply_option codes eq_text
mark_pk true m h = refl
mark_pk false m h = ap (λ b. record m { is_pk = b }) h

mark_required :
    (b : Bool) (m : FieldMeta)
    → m.required ≡ false
    → apply_options (when b (codes "required")) m ≡ record m { required = b }
unfolding when apply_options apply_option codes eq_text
mark_required true m h = refl
mark_required false m h = ap (λ b. record m { required = b }) h

mark_omitempty :
    (b : Bool) (m : FieldMeta)
    → m.omitempty ≡ false
    → apply_options (when b (codes "omitempty")) m ≡ record m { omitempty = b }
unfolding when apply_options apply_option codes eq_text
mark_omitempty true m h = refl
mark_omitempty false m h = ap (λ b. record m { omitempty = b }) h

mark_ignored :
    (b : Bool) (m : FieldMeta)
    → m.ignored ≡ false
    → apply_options (when b (codes "ignore")) m ≡ record m { ignored = b }
unfolding when apply_options apply_option codes eq_text has_prefix
mark_ignored true m h = refl
mark_ignored false m h = ap (λ b. record m { ignored = b }) h

set_default :
    (b : Bool) (s : Text) (m : FieldMeta)
    → m.has_default ≡ false
    → m.default_val ≡ []
    → (b ≡ false → s ≡ [])
    → apply_options (when b (codes "default=" ++ s)) m
      ≡ record m { has_default = b; default_val = s }
unfolding when apply_options apply_option codes eq_text has_prefix trim_prefix
set_default true s m h e f = refl
set_default false s m h e f =
    ap₂ (λ b t. record m { has_default = b; default_val = t }) h (e ∙ sym (f refl))

set_type :
    (s : Text) (m : FieldMeta)
    → apply_options ((codes "type=" ++ s) ∷ []) m ≡ record m { sql_type = s }
unfolding apply_options apply_option codes eq_text has_prefix trim_prefix
set_type s m = refl

-- The data of a field that a tag can hold: no text with a comma, and no default text without a default.
pub record IsWritable (meta : FieldMeta) : Type 0 where
  pub name_lacks : Lacks comma meta.db_name
  pub type_lacks : Lacks comma meta.sql_type
  pub default_lacks : Lacks comma meta.default_val
  pub no_default : meta.has_default ≡ false → meta.default_val ≡ []

when-Lacks : (b : Bool) (s : Text) → Lacks comma s → All (Lacks comma) (when b s)
unfolding when
when-Lacks true s h = (h, _)
when-Lacks false s h = _

longer : (xs ys : List Text) → 0 < length ys → 0 < length (xs ++ ys)
longer xs ys h = omega (arith, length-append xs ys)

option_parts-length : (meta : FieldMeta) → 0 < length (option_parts meta)
unfolding option_parts
option_parts-length meta = longer (when meta.is_pk _) _ (
    longer (when meta.required _) _ (
      longer (when meta.omitempty _) _
        (longer (when meta.ignored _) _ (longer (when meta.has_default _) _ (omega arith)))))

module _ (meta : FieldMeta) (h : IsWritable meta) where
  option_parts-Lacks : All (Lacks comma) (option_parts meta)
  unfolding option_parts contains_any has_byte codes
  option_parts-Lacks =
      All-append (Lacks comma) (when meta.is_pk (codes "pk")) _ (when-Lacks meta.is_pk _ refl) (
        All-append (Lacks comma) (when meta.required (codes "required")) _
          (when-Lacks meta.required _ refl)
          (All-append (Lacks comma) (when meta.omitempty (codes "omitempty")) _
            (when-Lacks meta.omitempty _ refl)
            (All-append (Lacks comma) (when meta.ignored (codes "ignore")) _
              (when-Lacks meta.ignored _ refl)
              (All-append (Lacks comma)
                (when meta.has_default (codes "default=" ++ meta.default_val)) _
                (when-Lacks meta.has_default _
                  (append-Lacks comma (codes "default=") meta.default_val refl h.default_lacks))
                (append-Lacks comma (codes "type=") meta.sql_type refl h.type_lacks, _)))))

  split_tag : split (print_tag meta) b',' ≡ meta.db_name ∷ option_parts meta
  unfolding print_tag
  split_tag = split-join meta.db_name (option_parts meta) (h.name_lacks, option_parts-Lacks)

  two_parts : split (print_tag meta) b',' ≡ split (codes "-") b',' → length (option_parts meta) ≡ 0
  unfolding split codes
  two_parts e = omega (arith, ap length (sym split_tag ∙ e))

  no_dash : eq_text (print_tag meta) (codes "-") ≡ false
  no_dash = elim (Bool-cases (eq_text (print_tag meta) (codes "-"))) [
    | inl e ↦ absurd (
        omega
          (arith, two_parts (ap (λ s. split s b',') (eq_text→eq _ _ e)), option_parts-length meta))
    | inr e ↦ e
  ]

  apply_option_parts : apply_options (option_parts meta) (bare meta.db_name) ≡ meta
  unfolding option_parts
  apply_option_parts =
      then_apply (when meta.is_pk (codes "pk")) _ _ _ _ (mark_pk meta.is_pk _ refl) (
        then_apply (when meta.required (codes "required")) _ _ _ _
          (mark_required meta.required _ refl)
          (then_apply (when meta.omitempty (codes "omitempty")) _ _ _ _
            (mark_omitempty meta.omitempty _ refl)
            (then_apply (when meta.ignored (codes "ignore")) _ _ _ _
              (mark_ignored meta.ignored _ refl)
              (then_apply (when meta.has_default (codes "default=" ++ meta.default_val)) _ _ _ _
                (set_default meta.has_default meta.default_val _ refl refl h.no_default)
                (set_type meta.sql_type _)))))

  -- Parsing a tag reads back what was written, in whatever combination of options: the name of the column,
  -- the type, the default, and the five marks. The texts hold no comma, and a field without a default
  -- has no default text.
  pub parse_field_meta-print_tag : parse_field_meta (print_tag meta) ≡ meta
  unfolding parse_field_meta
  parse_field_meta-print_tag = rw (no_dash, split_tag) apply_option_parts
