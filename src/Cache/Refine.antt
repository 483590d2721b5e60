-- ===== src/Cache/Refine.antt =====
-- The sharded cache against one plain map.
use native.Mathlib.Nat.{mod-lt}
use xlorm.Common.{
  ℕ, ◌%◌, ◌<◌, ◌≡◌, ◌≢◌, refl, sym, ap, ◌∙◌, List, [], ◌∷◌, Option, none, set, get_or, length,
  length-set, length-replicate, get_or-set_self, get_or-set_ne, length-map, get_or-map,
  get_or-replicate, ap₂, arith, eq-cases, Bool-cases, subst, inl, inr, false, ℤ,
}
use xlorm.Text.{Text, eq_text}
use xlorm.Text.Laws.{eq_text→eq}
use xlorm.Dict.{Dict, insert, lookup, erase, lookup-insert, lookup-erase}
use xlorm.Cache.{
  Lru, IsSound, Entry, Shard, ShardedCache, num_shards, new_shard, new_sharded_cache, hash,
  shard_at, get, set_entry, delete, clear, set_shard, delete_shard, clear_shard,
}
use xlorm.Cache.Laws.{
  IsCoherent, get_shard-Reads, new_shard-IsCoherent, set_shard-IsCoherent, delete_shard-IsCoherent,
  clear_shard-IsCoherent,
}

-- The calls of a cache, and the plain map that answers them.
pub data Call : Type 0 where
  getting : Text → Call
  setting : Text → Entry → Call
  deleting : Text → Call
  clearing : Call

-- The answer of a `Get`; the other calls answer nothing.
unfoldable pub call_dict : Call → Dict Entry → Dict Entry × Option Entry
call_dict (getting key) d = (d, lookup key d)
call_dict (setting key value) d = (insert key value d, none)
call_dict (deleting key) d = (erase key d, none)
call_dict clearing d = ([], none)

unfoldable pub answers_dict : List Call → Dict Entry → List (Option Entry)
answers_dict [] d = []
answers_dict (call ∷ calls) d = (call_dict call d).1 ∷ answers_dict calls (call_dict call d).0

module _ {L : Lru} (sum32 : Text → ℕ) where
  unfoldable pub call_cache : Call → ShardedCache L → ShardedCache L × Option Entry
  call_cache (getting key) c = get sum32 key c
  call_cache (setting key value) c = (set_entry sum32 key value c, none)
  call_cache (deleting key) c = (delete sum32 key c, none)
  call_cache clearing c = (clear c, none)

  unfoldable pub answers_cache : List Call → ShardedCache L → List (Option Entry)
  answers_cache [] c = []
  answers_cache (call ∷ calls) c = (call_cache call c).1 ∷ answers_cache calls (call_cache call c).0

  -- The cache stands for the map `d`: each key is in the map of its own shard as it is in `d`.
  pub record Holds (c : ShardedCache L) (d : Dict Entry) : Type 0 where
    pub as_many : length c.shards ≡ c.shard_count
    pub some_shard : 0 < c.shard_count
    pub coherent : (i : ℕ) → IsCoherent (get_or c.shards i new_shard)
    pub same : (j : Text) → lookup j (shard_at sum32 j c).m ≡ lookup j d

  hash-lt :
      (key : Text) (c : ShardedCache L) (d : Dict Entry)
      → Holds c d
      → hash sum32 key c < length c.shards
  unfolding hash
  hash-lt key c d h = omega (arith, mod-lt (sum32 key) h.some_shard, h.as_many)

  -- A shard is replaced by one that differs at its key alone.
  replace-Holds :
      (key : Text) (s : Shard L) (c : ShardedCache L) (d d' : Dict Entry)
      → Holds c d
      → IsCoherent s
      → ((j : Text) → lookup j (shard_at sum32 key c).m ≡ lookup j d → lookup j s.m ≡ lookup j d')
      → ((j : Text) → hash sum32 key c ≢ hash sum32 j c → lookup j d ≡ lookup j d')
      → Holds (record c { shards = set c.shards (hash sum32 key c) s }) d'
  unfolding hash
  replace-Holds key s c d d' h hs here there = record {
    as_many = length-set c.shards _ s ∙ h.as_many;
    some_shard = h.some_shard;
    coherent = λ i. elim (eq-cases (hash sum32 key c) i) [
      | inl e ↦
          subst IsCoherent
            (sym (
              ap (λ k. get_or (set c.shards (hash sum32 key c) s) k new_shard) (sym e)
              ∙ get_or-set_self c.shards (hash sum32 key c) s new_shard (hash-lt key c d h)))
            hs
      | inr ne ↦ subst IsCoherent (sym (get_or-set_ne c.shards s new_shard ne)) (h.coherent i)
    ];
    same = λ j. elim (eq-cases (hash sum32 key c) (hash sum32 j c)) [
      | inl e ↦
          ap (λ (r : Shard L). lookup j r.m)
            (ap (λ k. get_or (set c.shards (hash sum32 key c) s) k new_shard) (sym e)
              ∙ get_or-set_self c.shards (hash sum32 key c) s new_shard (hash-lt key c d h))
          ∙ here j (ap (λ k. lookup j (get_or c.shards k new_shard).m) e ∙ h.same j)
      | inr ne ↦
          ap (λ (r : Shard L). lookup j r.m) (get_or-set_ne c.shards s new_shard ne)
          ∙ h.same j
          ∙ there j ne
    ];
  }

  -- Keys of different shards are different.
  apart :
      (key j : Text) (c : ShardedCache L)
      → hash sum32 key c ≢ hash sum32 j c
      → eq_text key j ≡ false
  apart key j c ne = elim (Bool-cases (eq_text key j)) [
    | inl e ↦ absurd (ne (ap (λ k. hash sum32 k c) (eq_text→eq key j e)))
    | inr e ↦ e
  ]

module _ {L : Lru} (sum32 : Text → ℕ) (sound : IsSound L) where
  pub clear-Holds :
      (c : ShardedCache L) (d : Dict Entry) → Holds sum32 c d → Holds sum32 (clear c) []
  unfolding clear hash clear_shard lookup
  clear-Holds c d h = record {
    as_many = length-map clear_shard c.shards ∙ h.as_many;
    some_shard = h.some_shard;
    coherent = λ i.
        subst IsCoherent (sym (get_or-map clear_shard c.shards i new_shard))
          (clear_shard-IsCoherent sound (get_or c.shards i new_shard));
    same = λ j.
        ap (λ (r : Shard L). lookup j r.m)
          (get_or-map clear_shard c.shards (hash sum32 j c) new_shard);
  }

  pub new_sharded_cache-Holds : (n : ℤ) → Holds {L = L} sum32 (new_sharded_cache n) []
  unfolding new_sharded_cache num_shards lookup hash
  new_sharded_cache-Holds n = record {
    as_many = length-replicate (num_shards n) new_shard;
    some_shard = ground arith;
    coherent = λ i.
        subst IsCoherent (sym (get_or-replicate (num_shards n) i new_shard))
          (new_shard-IsCoherent sound);
    same = λ j.
        ap (λ (r : Shard L). lookup j r.m)
          (get_or-replicate (num_shards n) (sum32 j % num_shards n) new_shard);
  }

  pub call-Holds :
      (call : Call) (c : ShardedCache L) (d : Dict Entry)
      → Holds sum32 c d
      → ((call_cache sum32 call c).1 ≡ (call_dict call d).1)
        × Holds sum32 (call_cache sum32 call c).0 (call_dict call d).0
  unfolding call_cache call_dict get set_entry delete set_shard delete_shard
  call-Holds (getting key) c d h =
      let reads =
        get_shard-Reads sound key (shard_at sum32 key c) (h.coherent (hash sum32 key c)) in
      (
        reads.answers ∙ h.same key,
        replace-Holds sum32 key _ c d d h reads.still
            (λ j e. ap (λ m. lookup j m) reads.same_map ∙ e) (λ j ne. refl),
      )
  call-Holds (setting key value) c d h = (
    refl,
    replace-Holds sum32 key _ c d (insert key value d) h
        (set_shard-IsCoherent sound key value _ (h.coherent (hash sum32 key c)))
        (λ j e. ground (
          arith,
          lookup-insert j key value d,
          lookup-insert j key value (shard_at sum32 key c).m,
          e,
        ))
        (λ j ne. ground (arith, lookup-insert j key value d, apart sum32 key j c ne)),
  )
  call-Holds (deleting key) c d h = (
    refl,
    replace-Holds sum32 key _ c d (erase key d) h
        (delete_shard-IsCoherent sound key _ (h.coherent (hash sum32 key c)))
        (λ j e.
          ground (arith, lookup-erase j key d, lookup-erase j key (shard_at sum32 key c).m, e))
        (λ j ne. ground (arith, lookup-erase j key d, apart sum32 key j c ne)),
  )
  call-Holds clearing c d h = (refl, clear-Holds c d h)

  pub answers-Holds :
      (calls : List Call) (c : ShardedCache L) (d : Dict Entry)
      → Holds sum32 c d
      → answers_cache sum32 calls c ≡ answers_dict calls d
  unfolding answers_cache answers_dict
  answers-Holds [] c d h = refl
  answers-Holds (call ∷ calls) c d h =
      let (e, h') = call-Holds call c d h in ap₂ ◌∷◌ e (answers-Holds calls _ _ h')

  -- A new cache answers every sequence of calls as one plain map does, whatever the hash, the number
  -- of CPUs, and the entries that the LRU caches evict.
  pub answers_cache-dict :
      (n : ℤ) (calls : List Call)
      → answers_cache {L = L} sum32 calls (new_sharded_cache n) ≡ answers_dict calls []
  answers_cache-dict n calls = answers-Holds calls _ [] (new_sharded_cache-Holds n)
