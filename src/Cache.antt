-- ===== src/Cache.antt =====
-- cache.go: `shardedCache`. The LRU cache of github.com/hashicorp/golang-lru and the hash of murmur3 are
-- parameters. A method is one step: a change holds the locks of its shard alone, and two `Get` at the same time
-- add the same entry.
pub mod Laws
pub mod Refine
pub mod Placeholder
mod Tests
use xlorm.Common.{
  ℕ, zero, suc, ◌+◌, ◌%◌, ◌≡◌, List, [], ◌∷◌, Option, none, some, if◌then◌else◌, replicate, set,
  get_or, map, ltb_ℤ, ltb, ℤ, pos, pos_part, u64_mod,
}
use xlorm.Text.{Text, eq_text}
use xlorm.Dict.{Dict, insert, lookup, erase}

-- What is cached.
abbrev pub Entry : Type 0
Entry = List Text

-- `lru.Cache`: a `Get` changes only which entry is the next to be evicted.
pub record Lru : Type 1 where
  pub State : Type 0
  pub new_lru : State
  pub get_lru : Text → State → State × Option Entry
  pub add_lru : Text → Entry → State → State
  pub remove_lru : Text → State → State

-- What the cache relies on: an entry that is there is the one last added under its key, and not removed
-- since. Any entry may be evicted at any time.
pub record IsSound (L : Lru) : Type 0 where
  pub get-new : (k : Text) → (L.get_lru k L.new_lru).1 ≡ none
  pub get-get : (j k : Text) (s : L.State) → (L.get_lru j (L.get_lru k s).0).1 ≡ (L.get_lru j s).1
  pub get-add :
      (j k : Text) (v w : Entry) (s : L.State)
      → (L.get_lru j (L.add_lru k v s)).1 ≡ some w
      → (if eq_text k j then some v else (L.get_lru j s).1) ≡ some w
  pub get-remove :
      (j k : Text) (w : Entry) (s : L.State)
      → (L.get_lru j (L.remove_lru k s)).1 ≡ some w
      → (if eq_text k j then none else (L.get_lru j s).1) ≡ some w

module _ (L : Lru) where
  -- `shard`, with the LRU cache at its index.
  pub record Shard : Type 0 where
    pub m : Dict Entry
    pub lru : L.State
    pub hits : ℕ
    pub misses : ℕ

  -- `shardedCache`; `shard_count` is its own field in the source.
  pub record ShardedCache : Type 0 where
    pub shards : List Shard
    pub shard_count : ℕ

-- The number of shards for a number of CPUs: at least 1, at most 64.
unfoldable pub num_shards : ℤ → ℕ
num_shards n = if ltb_ℤ n (pos 1) then 1 else if ltb 64 (pos_part n) then 64 else pos_part n

module _ {L : Lru} where
  open L use {new_lru, get_lru, add_lru, remove_lru}

  abbrev pub new_shard : Shard L
  new_shard = record { m = []; lru = new_lru; hits = 0; misses = 0 }

  -- `newShardedCache`, on a machine of the given number of CPUs.
  unfoldable pub new_sharded_cache : ℤ → ShardedCache L
  unfolding num_shards
  new_sharded_cache num_cpu = record {
    shards = replicate (num_shards num_cpu) new_shard;
    shard_count = num_shards num_cpu;
  }

  -- The two maps of a shard, read by `Get`.
  unfoldable pub get_shard : Text → Shard L → Shard L × Option Entry
  get_shard key s =
      let (lru, cached) = get_lru key s.lru in
      elim cached [
        | some v ↦ (record s { lru = lru; hits = (s.hits + 1) % u64_mod }, some v)
        | none ↦ elim (lookup key s.m) [
          | some v ↦ (record s { lru = add_lru key v lru; hits = (s.hits + 1) % u64_mod }, some v)
          | none ↦ (record s { lru = lru; misses = (s.misses + 1) % u64_mod }, none)
        ]
      ]

  unfoldable pub set_shard : Text → Entry → Shard L → Shard L
  set_shard key value s = record s { m = insert key value s.m; lru = add_lru key value s.lru }

  unfoldable pub delete_shard : Text → Shard L → Shard L
  delete_shard key s = record s { m = erase key s.m; lru = remove_lru key s.lru }

  -- What `Clear` does to a shard; `Purge` leaves an empty LRU cache.
  unfoldable pub clear_shard : Shard L → Shard L
  clear_shard s = record s { m = []; lru = new_lru; hits = 0; misses = 0 }

  module _ (sum32 : Text → ℕ) where
    -- `hash`
    unfoldable pub hash : Text → ShardedCache L → ℕ
    hash key c = sum32 key % c.shard_count

    abbrev pub shard_at : Text → ShardedCache L → Shard L
    shard_at key c = get_or c.shards (hash key c) new_shard

    -- `Get`
    unfoldable pub get : Text → ShardedCache L → ShardedCache L × Option Entry
    get key c =
        let (s, answer) = get_shard key (shard_at key c) in
        (record c { shards = set c.shards (hash key c) s }, answer)

    -- `Set`
    unfoldable pub set_entry : Text → Entry → ShardedCache L → ShardedCache L
    set_entry key value c = record c {
      shards = set c.shards (hash key c) (set_shard key value (shard_at key c));
    }

    -- `Delete`
    unfoldable pub delete : Text → ShardedCache L → ShardedCache L
    delete key c = record c {
      shards = set c.shards (hash key c) (delete_shard key (shard_at key c));
    }

  -- `Clear`
  unfoldable pub clear : ShardedCache L → ShardedCache L
  clear c = record c { shards = map clear_shard c.shards }

  -- `Stats`: the hits and the misses of each shard, in their order.
  unfoldable pub stats : ShardedCache L → List (ℕ × ℕ)
  stats c = map (λ (s : Shard L). (s.hits, s.misses)) c.shards
