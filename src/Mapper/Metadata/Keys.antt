-- ===== src/Mapper/Metadata/Keys.antt =====
-- The primary keys of a struct, whatever the cache of the metadata holds.
use xlorm.Common.{
  ℕ, ◌≡◌, ◌≢◌, ◌⊎◌, refl, sym, ap, ◌∙◌, List, [], ◌∷◌, ◌++◌, Bool, true, false, ◌&&◌, ◌||◌, not,
  ◌==◌, ==_iff, if◌then◌else◌, Option, none, some, inl, inr, Bool-cases, Option-cases, arith,
}
use xlorm.Text.{Text, eq_text}
use xlorm.Text.Laws.{eq_text→eq, eq_text_refl}
use xlorm.Value.{Value}
use xlorm.Dict.{lookup, insert, lookup-insert}
use xlorm.Row.{Row}
use xlorm.Tags.{FieldMeta, parse_field_meta}
use xlorm.Mapper.Metadata.{
  Layout, StructMeta, add_meta, collect, no_meta, MetaCache, load, get_struct_meta, after,
  read_keys, get_primary_keys, first_key, get_primary_key,
}

abbrev pub has : Text → List Text → Bool
has n [] = false
has n (k ∷ ks) = eq_text k n || has n ks

-- A field of that name has the option pk, and is not left out.
abbrev pub is_key : Text → Layout → Bool
is_key n [] = false
is_key n ((name, tag) ∷ rest) =
    (eq_text name n && ((parse_field_meta tag).is_pk && not (parse_field_meta tag).ignored))
    || is_key n rest

has-append : (n k : Text) (ks : List Text) → has n (ks ++ k ∷ []) ≡ (has n ks || eq_text k n)
has-append n k [] = ground arith
has-append n k (j ∷ ks) = ground (arith, has-append n k ks)

has-add_meta :
    (n name : Text) (meta : FieldMeta) (m : StructMeta)
    → has n (add_meta name meta m).pk_fields ≡ (has n m.pk_fields || (eq_text name n && meta.is_pk))
unfolding add_meta
has-add_meta n name meta m = elim (Bool-cases meta.is_pk) [
  | inl e ↦ rw (e) (has-append n name m.pk_fields ∙ ground arith)
  | inr e ↦ rw (e) (ground arith)
]

has-collect :
    (n : Text) (fields : Layout) (m : StructMeta)
    → has n (collect fields m).pk_fields ≡ (has n m.pk_fields || is_key n fields)
unfolding collect
has-collect n [] m = ground arith
has-collect n ((name, tag) ∷ rest) m =
    let meta = parse_field_meta tag in
    ground (
      arith,
      has-collect n rest m,
      has-collect n rest (add_meta name meta m),
      has-add_meta n name meta m,
    )

some-injective {ℓ} : {A : Type ℓ} {a b : A} → some a ≡ some b → a ≡ b
some-injective e = cc

module _ (layout : ℕ → Layout) where
  -- What the cache holds is what the loop makes.
  abbrev IsSound : MetaCache → Type 0
  IsSound cache = (t : ℕ) (m : StructMeta) → load t cache ≡ some m → m ≡ collect (layout t) no_meta

  get_struct_meta-Sound :
      (t : ℕ) (cache : MetaCache)
      → IsSound cache
      → let (m, cache') = get_struct_meta layout t cache in
        (m ≡ collect (layout t) no_meta) × IsSound cache'
  unfolding get_struct_meta
  get_struct_meta-Sound t cache h = elim (Option-cases (load t cache)) [
    | inr (m, e) ↦ rw (get_struct_meta, e) (h t m e, h)
    | inl e ↦
        rw (get_struct_meta, e)
          (
            refl,
            λ u m f. elim (Bool-cases (t == u)) [
              | inl g ↦
                  sym (some-injective (rw g at f))
                  ∙ ap (λ x. collect (layout x) no_meta) ((==_iff t u).0 g)
              | inr g ↦ h u m (rw g at f)
            ],
          )
  ]

  after-Sound : (ts : List ℕ) (cache : MetaCache) → IsSound cache → IsSound (after layout ts cache)
  unfolding after
  after-Sound [] cache h = h
  after-Sound (t ∷ ts) cache h = after-Sound ts _ (get_struct_meta-Sound t cache h).1

some-ne-none {ℓ} : {A : Type ℓ} {a : A} → some a ≢ none
some-ne-none e = cc

module _ (read : Text → Option Value) where
  -- What reading these keys, behind those of `row`, comes to.
  abbrev Reads : List Text → Row → Option Row → Type 0
  Reads keys row result =
      ((k : Text) × (has k keys ≡ true) × (read k ≡ none) × (result ≡ none))
      ⊎ ((out : Row) × (result ≡ some out)
          × ((n : Text) → lookup n out ≡ (if has n keys then read n else lookup n row)))

  inserted_key :
      (key : Text) (v : Value) (keys : List Text) (row : Row) (n : Text)
      → read key ≡ some v
      → (if has n keys then read n else lookup n (insert key v row))
        ≡ (if has n (key ∷ keys) then read n else lookup n row)
  inserted_key key v keys row n e = elim (Bool-cases (eq_text key n)) [
    | inl f ↦
        let here = ap read (sym (eq_text→eq key n f)) ∙ e in
        ground (arith, lookup-insert n key v row, here, f)
    | inr f ↦ ground (arith, lookup-insert n key v row, f)
  ]

  read_keys-Reads : (keys : List Text) (row : Row) → Reads keys row (read_keys read keys row)
  unfolding read_keys
  read_keys-Reads [] row = inr (row, refl, λ n. refl)
  read_keys-Reads (key ∷ keys) row = elim (Option-cases (read key)) [
    | inl e ↦ rw (read_keys, e) (inl (key, rw (eq_text_refl key) refl, e, refl))
    | inr (v, e) ↦
        rw (read_keys, e)
          (elim (read_keys-Reads keys (insert key v row)) [
            | inl (k, h, f, g) ↦ inl (k, ground (arith, h), f, g)
            | inr (out, g, h) ↦ inr (out, g, λ n. h n ∙ inserted_key key v keys row n e)
          ])
  ]

  -- What the first of these keys is.
  abbrev First : List Text → Option (Option (Text × Value)) → Type 0
  First keys result =
      ((result ≡ some none) × ((n : Text) → has n keys ≡ false))
      ⊎ ((k : Text) × (v : Value) × (result ≡ some (some (k, v)))
          × (has k keys ≡ true)
          × (read k ≡ some v))

  first_key-First :
      (keys : List Text) (row out : Row)
      → read_keys read keys row ≡ some out
      → First keys (first_key read keys)
  unfolding read_keys first_key
  first_key-First [] row out h = inl (refl, λ n. refl)
  first_key-First (key ∷ keys) row out h = elim (Option-cases (read key)) [
    | inl e ↦ absurd (some-ne-none (sym (rw (read_keys, e) at h)))
    | inr (v, e) ↦ inr (key, v, rw (first_key, e) refl, rw (eq_text_refl key) refl, e)
  ]

  -- The two answers about a struct with these fields.
  abbrev pub KeysOf : Layout → Option Row → Option (Option (Text × Value)) → Type 0
  KeysOf fields all first =
      ((k : Text) × (is_key k fields ≡ true) × (read k ≡ none) × (all ≡ none))
      ⊎ ((out : Row) × (all ≡ some out)
          × ((n : Text) → lookup n out ≡ (if is_key n fields then read n else none))
          × (((first ≡ some none) × ((n : Text) → is_key n fields ≡ false))
              ⊎ ((k : Text) × (v : Value) × (first ≡ some (some (k, v)))
                  × (is_key k fields ≡ true)
                  × (lookup k out ≡ some v))))

  keys-KeysOf :
      (fields : Layout) (keys : List Text)
      → ((n : Text) → has n keys ≡ is_key n fields)
      → KeysOf fields (read_keys read keys []) (first_key read keys)
  unfolding lookup
  keys-KeysOf fields keys same = elim (read_keys-Reads keys []) [
    | inl (k, h, f, g) ↦ inl (k, sym (same k) ∙ h, f, g)
    | inr (out, g, h) ↦ inr (
      out,
      g,
      λ n. h n ∙ ap (λ b. if b then read n else none) (same n),
      elim (first_key-First keys [] out g) [
        | inl (a, no_key) ↦ inl (a, λ n. sym (same n) ∙ no_key n)
        | inr (k, v, a, hk, rk) ↦ inr (k, v, a, sym (same k) ∙ hk, h k ∙ rw (hk) rk)
      ],
    )
  ]

-- The primary keys of a struct, whatever metadata were asked for before. `GetPrimaryKeys` panics only if
-- some key cannot be read. Otherwise it returns a map with the value of each field whose tag has the
-- option pk and does not leave it out, and with no other name; and `GetPrimaryKey` returns one of these keys
-- with its value in that map, or the error exactly if no field is a key.
pub get_primary_keys-KeysOf :
    (layout : ℕ → Layout) (read : Text → Option Value) (history : List ℕ) (t : ℕ)
    → let cache = after layout history [] in
      KeysOf read
        (layout t)
        (get_primary_keys layout read t cache)
        (get_primary_key layout read t cache)
unfolding get_primary_keys get_primary_key
get_primary_keys-KeysOf layout read history t =
    let cache = after layout history [] in
    let known =
      (get_struct_meta-Sound layout t cache
        (after-Sound layout history [] (λ u m e. absurd cc))).0 in
    keys-KeysOf read (layout t) (get_struct_meta layout t cache).0.pk_fields
      (λ n. ap (λ (m : StructMeta). has n m.pk_fields) known ∙ has-collect n (layout t) no_meta)
