-- ===== src/Mapper/Metadata.antt =====
-- structmapper.go: `getStructMeta` with its cache, `GetPrimaryKeys` and `GetPrimaryKey`, and the registry of the
-- callbacks. A type is a number, whose `layout` is what the package reflect says of it: the name and the tag `db`
-- of each field. The value of a field is read by `read`, which is `none` where `Interface()` panics.
pub mod Keys
use xlorm.Common.{
  ℕ, List, [], ◌∷◌, ◌++◌, Bool, true, false, ◌==◌, if◌then◌else◌, Option, none, some,
}
use xlorm.Text.{Text}
use xlorm.Value.{Value}
use xlorm.Dict.{Dict, insert, lookup, erase}
use xlorm.Row.{Row}
use xlorm.Tags.{FieldMeta, parse_field_meta}

abbrev pub Layout : Type 0
Layout = List (Text × Text)

-- `structMeta`; the converters of a field stay empty in the source.
pub record StructMeta : Type 0 where
  pub fields : Dict FieldMeta
  pub field_order : List Text
  pub pk_fields : List Text

-- What the loop of `getStructMeta` adds for a field.
unfoldable pub add_meta : Text → FieldMeta → StructMeta → StructMeta
add_meta name meta m = record {
  fields = insert name meta m.fields;
  field_order = m.field_order ++ name ∷ [];
  pk_fields = if meta.is_pk then m.pk_fields ++ name ∷ [] else m.pk_fields;
}

-- The loop.
unfoldable pub collect : Layout → StructMeta → StructMeta
unfolding add_meta
collect [] m = m
collect ((name, tag) ∷ rest) m =
    let meta = parse_field_meta tag in
    let skipped = collect rest m in
    let added = collect rest (add_meta name meta m) in if meta.ignored then skipped else added

abbrev pub no_meta : StructMeta
no_meta = record { fields = []; field_order = []; pk_fields = [] }

-- `metaCache`
abbrev pub MetaCache : Type 0
MetaCache = List (ℕ × StructMeta)

abbrev pub load : ℕ → MetaCache → Option StructMeta
load t [] = none
load t ((u, m) ∷ cache) = if u == t then some m else load t cache

module _ (read : Text → Option Value) where
  -- The loop of `GetPrimaryKeys` (`none`: it panics).
  unfoldable pub read_keys : List Text → Row → Option Row
  read_keys [] result = some result
  read_keys (key ∷ keys) result = elim (read key) [
    | none ↦ none
    | some v ↦ read_keys keys (insert key v result)
  ]

  -- What `GetPrimaryKey` makes of the keys.
  unfoldable pub first_key : List Text → Option (Option (Text × Value))
  first_key [] = some none
  first_key (key ∷ keys) = elim (read key) [ none ↦ none | some v ↦ some (some (key, v)) ]

module _ (layout : ℕ → Layout) where
  -- `getStructMeta`, with the cache afterwards.
  unfoldable pub get_struct_meta : ℕ → MetaCache → StructMeta × MetaCache
  unfolding collect
  get_struct_meta t cache = elim (load t cache) [
    | some m ↦ (m, cache)
    | none ↦ let m = collect (layout t) no_meta in (m, (t, m) ∷ cache)
  ]

  -- The cache after the metadata of these types were asked for.
  unfoldable pub after : List ℕ → MetaCache → MetaCache
  unfolding get_struct_meta
  after [] cache = cache
  after (t ∷ ts) cache = after ts (get_struct_meta t cache).1

  -- `GetPrimaryKeys`, of a struct of the type `t`.
  unfoldable pub get_primary_keys : (Text → Option Value) → ℕ → MetaCache → Option Row
  unfolding get_struct_meta read_keys
  get_primary_keys read t cache = read_keys read (get_struct_meta t cache).0.pk_fields []

  -- `GetPrimaryKey`; an inner `none` is the error of a struct without a key.
  unfoldable pub get_primary_key :
      (Text → Option Value) → ℕ → MetaCache → Option (Option (Text × Value))
  unfolding get_struct_meta first_key
  get_primary_key read t cache = first_key read (get_struct_meta t cache).0.pk_fields

-- `RegisterCallback`, `GetCallback` and `DelCallback`: the registry, and whether the name was free.
module _ {ℓ} {C : Type ℓ} where
  unfoldable pub register_callback : Text → C → Dict C → Dict C × Bool
  register_callback name callback registered = elim (lookup name registered) [
    | some c ↦ (registered, false)
    | none ↦ (insert name callback registered, true)
  ]

  unfoldable pub get_callback : Text → Dict C → Option C
  get_callback name registered = lookup name registered

  unfoldable pub del_callback : Text → Dict C → Dict C
  del_callback name registered = erase name registered
