-- ===== src/Cache/Calls.antt =====
-- The public calls of the class KVCache, over its shards.
use keyvaluedb.Prelude.{
  ℕ, ◌+◌, ◌/◌, ◌%◌, max, Option, some, List, [], ◌∷◌, map, ltb, if◌then◌else◌, ◌>>=◌, length,
  get_elem?, set,
}
use keyvaluedb.Cache.{Shard, repeated, new_shard}
use keyvaluedb.Cache.Shards.{get_nolock, put_nolock, erase_nolock, clear_shard}

abbrev pub half_page : ℕ
half_page = 2048

-- The constructor
unfoldable pub new_cache : ℕ → ℕ → ℕ → List Shard
new_cache max_entries max_bytes num_shards =
    repeated num_shards
      (new_shard (max 1 (max_entries / num_shards)) (max 1 (max_bytes / num_shards)))

-- ShardForKey, and a change of the shard
unfoldable pub on_shard : ℕ → (Shard → Option Shard) → List Shard → Option (List Shard)
on_shard hash f shards =
    let i = hash % length shards in
    (get_elem? shards i >>= f) >>= λ (s : Shard). some (set shards i s)

unfoldable pub cache_size : List Shard → ℕ
cache_size [] = 0
cache_size (s ∷ shards) = s.entry_count + cache_size shards

-- The calls that change the cache
pub data CacheCall : Type 0 where
  get_key : List ℕ → ℕ → CacheCall
  put_key : List ℕ → List ℕ → ℕ → CacheCall
  erase_key : List ℕ → CacheCall
  clear_all : CacheCall

module _ (hash : List ℕ → ℕ) where
  -- Get_nolock, without the value
  unfoldable pub use_entry : List ℕ → ℕ → Shard → Option Shard
  use_entry key read_ts s =
      get_nolock hash key read_ts s >>= λ (r : Shard × Option (List ℕ)). some r.0

  unfoldable pub call : CacheCall → List Shard → Option (List Shard)
  call (get_key key read_ts) shards = on_shard (hash key) (use_entry key read_ts) shards
  call (put_key key value ts) shards =
      if ltb half_page (length value)
      then some shards
      else on_shard (hash key) (put_nolock hash key value ts) shards
  call (erase_key key) shards = on_shard (hash key) (erase_nolock hash key) shards
  call clear_all shards = some (map clear_shard shards)

  unfoldable pub run_calls : List CacheCall → List Shard → Option (List Shard)
  run_calls [] shards = some shards
  run_calls (c ∷ calls) shards = call c shards >>= run_calls calls
