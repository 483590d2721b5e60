-- ===== src/Cache/Placeholder.antt =====
-- utils.go: `getCachedPlaceholder`, over a cache that it alone fills.
use mathlib.Core.List.{append_cancel_left, cons-ne-nil}
use mathlib.Core.Option.{some-injective}
use xlorm.Common.{
  ℕ, ◌<◌, ◌≡◌, refl, sym, ap, ap₂, ◌∙◌, List, [], ◌∷◌, ◌++◌, Option, none, some, if◌then◌else◌,
  ◌==◌, map, All, ℤ, arith, Bool-cases, inl, inr, true, ◌≢◌,
}
use xlorm.Text.{Text, codes, eq_text, format_nat}
use xlorm.Text.Laws.{eq_text→eq}
use xlorm.Text.Decimal.{format_nat-injective}
use xlorm.Dict.{Dict, insert, lookup, lookup-insert}
use xlorm.Placeholders.{placeholder_text}
use xlorm.Cache.{Lru, IsSound, Entry, ShardedCache, new_sharded_cache, get, set_entry}
use xlorm.Cache.Refine.{
  Holds, getting, setting, call_cache, call_dict, call-Holds, new_sharded_cache-Holds,
}

-- `fmt.Sprintf("placeholder:%d", fieldCount)`
unfoldable pub placeholder_key : ℕ → Text
placeholder_key n = codes "placeholder:" ++ format_nat n

-- A text for no field is a repetition of a negative number of times, which panics.
unfoldable pub new_placeholder : ℕ → Option Text
new_placeholder n = if n == 0 then none else some (placeholder_text n)

module _ {L : Lru} (sum32 : Text → ℕ) where
  -- What `getCachedPlaceholder` does with the answer of `Get`; `none` is a panic.
  unfoldable pub placeholder_of : ℕ → ShardedCache L → Option Entry → ShardedCache L × Option Text
  unfolding new_placeholder
  placeholder_of n c (some []) = (c, none)
  placeholder_of n c (some (v ∷ vs)) = (c, some v)
  placeholder_of n c none = elim (new_placeholder n) [
    | none ↦ (c, none)
    | some s ↦ (set_entry sum32 (placeholder_key n) (s ∷ []) c, some s)
  ]

  -- `getCachedPlaceholder`
  unfoldable pub get_cached_placeholder : ℕ → ShardedCache L → ShardedCache L × Option Text
  unfolding placeholder_of
  get_cached_placeholder n c =
      let (c', got) = get sum32 (placeholder_key n) c in placeholder_of n c' got

  -- One call after the other.
  unfoldable pub cached_placeholders : List ℕ → ShardedCache L → List (Option Text)
  unfolding get_cached_placeholder
  cached_placeholders [] c = []
  cached_placeholders (n ∷ ns) c =
      (get_cached_placeholder n c).1 ∷ cached_placeholders ns (get_cached_placeholder n c).0

-- What is stored under a key is the text of its own number of fields.
record IsFilled (d : Dict Entry) : Type 0 where
  own_text :
      (n : ℕ) (w : Entry) → lookup (placeholder_key n) d ≡ some w → w ≡ placeholder_text n ∷ []

abbrev head_of : List Text → Text
head_of [] = []
head_of (v ∷ vs) = v

fresh : {n : ℕ} → 0 < n → new_placeholder n ≡ some (placeholder_text n)
unfolding new_placeholder
fresh h = ground arith

none-ne-some : {w : Entry} → none ≢ some w
none-ne-some e = cc

placeholder_key-injective :
    (m n : ℕ) → eq_text (placeholder_key m) (placeholder_key n) ≡ true → m ≡ n
unfolding placeholder_key
placeholder_key-injective m n e =
    format_nat-injective m n (append_cancel_left (codes "placeholder:") _ _ (eq_text→eq _ _ e))

insert-IsFilled :
    (n : ℕ) (d : Dict Entry)
    → IsFilled d
    → IsFilled (insert (placeholder_key n) (placeholder_text n ∷ []) d)
insert-IsFilled n d h = record {
  own_text = λ m w e.
      let e' =
        sym (lookup-insert (placeholder_key m) (placeholder_key n) (placeholder_text n ∷ []) d)
        ∙ e in
      elim (Bool-cases (eq_text (placeholder_key n) (placeholder_key m))) [
        | inl same ↦ own m w same e'
        | inr other ↦ h.own_text m w (
            ap (λ b. if b then some (placeholder_text n ∷ []) else lookup (placeholder_key m) d)
              (sym other)
            ∙ e')
      ];
}
  where
    own :
        (m : ℕ) (w : Entry)
        → eq_text (placeholder_key n) (placeholder_key m) ≡ true
        → (if eq_text (placeholder_key n) (placeholder_key m)
            then some (placeholder_text n ∷ [])
            else lookup (placeholder_key m) d)
          ≡ some w
        → w ≡ placeholder_text m ∷ []
    own m w same e =
        sym (
          some-injective _ _ (
            ap (λ b. if b then some (placeholder_text n ∷ []) else lookup (placeholder_key m) d)
              (sym same)
            ∙ e))
        ∙ ap (λ k. placeholder_text k ∷ []) (placeholder_key-injective n m same)

module _ {L : Lru} (sum32 : Text → ℕ) (sound : IsSound L) where
  get-Holds :
      (key : Text) (c : ShardedCache L) (d : Dict Entry)
      → Holds sum32 c d
      → ((get sum32 key c).1 ≡ lookup key d) × Holds sum32 (get sum32 key c).0 d
  unfolding call_cache call_dict
  get-Holds key c d h = call-Holds sum32 sound (getting key) c d h

  set_entry-Holds :
      (key : Text) (v : Entry) (c : ShardedCache L) (d : Dict Entry)
      → Holds sum32 c d
      → Holds sum32 (set_entry sum32 key v c) (insert key v d)
  unfolding call_cache call_dict
  set_entry-Holds key v c d h = (call-Holds sum32 sound (setting key v) c d h).1

  -- A call keeps the cache filled, and answers the text of its number of fields.
  placeholder_of-IsFilled :
      (n : ℕ) (c : ShardedCache L) (d : Dict Entry) (got : Option Entry)
      → 0 < n
      → Holds sum32 c d
      → IsFilled d
      → got ≡ lookup (placeholder_key n) d
      → ((placeholder_of sum32 n c got).1 ≡ some (placeholder_text n))
        × (d' : Dict Entry) × Holds sum32 (placeholder_of sum32 n c got).0 d'
        × IsFilled d'
  unfolding placeholder_of
  placeholder_of-IsFilled n c d (some []) hn h f e =
      absurd (cons-ne-nil _ _ (sym (f.own_text n [] (sym e))))
  placeholder_of-IsFilled n c d (some (v ∷ vs)) hn h f e =
      (ap (λ l. some (head_of l)) (f.own_text n (v ∷ vs) (sym e)), d, h, f)
  placeholder_of-IsFilled n c d none hn h f e =
      rw (fresh hn, placeholder_of)
        (
          refl,
          insert (placeholder_key n) (placeholder_text n ∷ []) d,
          set_entry-Holds (placeholder_key n) (placeholder_text n ∷ []) c d h,
          insert-IsFilled n d f,
        )

  cached_placeholders-lem :
      (ns : List ℕ) (c : ShardedCache L) (d : Dict Entry)
      → All (λ n. 0 < n) ns
      → Holds sum32 c d
      → IsFilled d
      → cached_placeholders sum32 ns c ≡ map (λ n. some (placeholder_text n)) ns
  unfolding cached_placeholders get_cached_placeholder
  cached_placeholders-lem [] c d hn h f = refl
  cached_placeholders-lem (n ∷ ns) c d (hn, hns) h f =
      let (e, h') = get-Holds (placeholder_key n) c d h in
      let (answer, d', h'', f') =
        placeholder_of-IsFilled n (get sum32 (placeholder_key n) c).0 d
          (get sum32 (placeholder_key n) c).1 hn h' f e in
      ap₂ ◌∷◌ answer (cached_placeholders-lem ns _ d' hns h'' f')

  -- Whatever numbers of fields, at least one, a new cache is asked for, and in whatever order, each
  -- call of `getCachedPlaceholder` answers the placeholder of its own number of fields.
  pub cached_placeholders-text :
      (cpus : ℤ) (ns : List ℕ)
      → All (λ n. 0 < n) ns
      → cached_placeholders {L = L} sum32 ns (new_sharded_cache cpus)
        ≡ map (λ n. some (placeholder_text n)) ns
  unfolding lookup
  cached_placeholders-text cpus ns hn =
      cached_placeholders-lem ns (new_sharded_cache cpus) [] hn
        (new_sharded_cache-Holds sum32 sound cpus)
        (record { own_text = λ n w e. absurd (none-ne-some e) })
