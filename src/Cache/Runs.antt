-- ===== src/Cache/Runs.antt =====
-- Sequences of calls of the whole cache.
use keyvaluedb.Prelude.{
  ℕ, zero, suc, ◌/◌, ◌%◌, ◌^◌, ◌≤◌, ◌<◌, max, ◌≡◌, refl, ap, inl, inr, Option, none, some, List, [],
  ◌∷◌, map, arith, ltb, Bool-cases, length, get_elem?, set, length-set, All,
}
use native.Mathlib.Nat.{mod-lt}
use keyvaluedb.Cache.{Shard, repeated, new_shard}
use keyvaluedb.Cache.Shards.{clear_shard}
use keyvaluedb.Cache.Calls.{
  CacheCall, get_key, put_key, erase_key, clear_all, new_cache, on_shard, half_page, call,
  run_calls,
}
use keyvaluedb.Cache.Probes.{IsShard, new_shard-IsShard, clear_shard-IsShard, length-repeated}
use keyvaluedb.Cache.Endings.{Ends, Ends->>=, Ends-put_nolock, Ends-use_entry, Ends-erase_nolock}

-- A cache with a shard or more
AllShards : List Shard → Type 0
AllShards shards = All IsShard shards × (1 ≤ length shards)

All-set :
    (shards : List Shard) (i : ℕ) (s : Shard)
    → All IsShard shards
    → IsShard s
    → All IsShard (set shards i s)
All-set [] i s all h = tt
All-set (x ∷ shards) zero s all h = (h, all.1)
All-set (x ∷ shards) (suc i) s all h = (all.0, All-set shards i s all.1 h)

Ends-get_elem? :
    (shards : List Shard) (i : ℕ)
    → All IsShard shards
    → i < length shards
    → Ends IsShard (get_elem? shards i)
Ends-get_elem? [] i all h = absurd (omega arith)
Ends-get_elem? (s ∷ shards) zero all h = all.0
Ends-get_elem? (s ∷ shards) (suc i) all h = Ends-get_elem? shards i all.1 (omega arith)

Ends-on_shard :
    (hash : ℕ) (f : Shard → Option Shard) (shards : List Shard)
    → ((s : Shard) → IsShard s → Ends IsShard (f s))
    → AllShards shards
    → Ends AllShards (on_shard hash f shards)
unfolding on_shard AllShards
Ends-on_shard hash f shards keeps (all, some_shards) =
    Ends->>= IsShard AllShards _ _
      (Ends->>= IsShard IsShard _ f
        (Ends-get_elem? shards (hash % length shards) all (mod-lt hash (omega arith))) keeps)
      (λ s h. (
        All-set shards (hash % length shards) s all h,
        omega (arith, some_shards, length-set shards (hash % length shards) s),
      ))

All-clear : (shards : List Shard) → All IsShard shards → All IsShard (map clear_shard shards)
All-clear [] all = tt
All-clear (s ∷ shards) all = (clear_shard-IsShard s all.0, All-clear shards all.1)

length-map : (shards : List Shard) → length (map clear_shard shards) ≡ length shards
length-map [] = refl
length-map (s ∷ shards) = ap suc (length-map shards)

Ends-call :
    (hash : List ℕ → ℕ) (c : CacheCall) (shards : List Shard)
    → AllShards shards
    → Ends AllShards (call hash c shards)
unfolding call
Ends-call hash (get_key key read_ts) shards h =
    Ends-on_shard (hash key) _ shards (Ends-use_entry hash key read_ts) h
Ends-call hash (put_key key value ts) shards h = elim (Bool-cases (ltb half_page (length value))) [
  | inl e ↦ rw e h
  | inr e ↦ rw e (Ends-on_shard (hash key) _ shards (Ends-put_nolock hash key value ts) h)
]
Ends-call hash (erase_key key) shards h =
    Ends-on_shard (hash key) _ shards (Ends-erase_nolock hash key) h
Ends-call hash clear_all shards h =
    unfold AllShards in (All-clear shards h.0, omega (arith, h.1, length-map shards))

Ends-run_calls :
    (hash : List ℕ → ℕ) (calls : List CacheCall) (shards : List Shard)
    → AllShards shards
    → Ends AllShards (run_calls hash calls shards)
unfolding run_calls
Ends-run_calls hash [] shards h = h
Ends-run_calls hash (c ∷ calls) shards h =
    Ends->>= AllShards AllShards (call hash c shards) (run_calls hash calls)
      (Ends-call hash c shards h) (λ s k. Ends-run_calls hash calls s k)

new_cache-AllShards : (num_shards : ℕ) (s : Shard) → IsShard s → All IsShard (repeated num_shards s)
unfolding repeated
new_cache-AllShards zero s h = tt
new_cache-AllShards (suc n) s h = (h, new_cache-AllShards n s h)

-- Whatever calls of Get, Put, Erase and Clear follow on a new cache of a shard or more, each with fewer
-- than 2^32 entries: each probe ends, and each shard counts at most its number of entries and has at
-- most one bucket in use for each that it counts, of twice as many buckets as it may have entries.
pub run_calls-IsShard :
    (hash : List ℕ → ℕ) (calls : List CacheCall) (max_entries max_bytes num_shards : ℕ)
    → 1 ≤ num_shards
    → max 1 (max_entries / num_shards) < 2 ^ 32
    → Ends (All IsShard) (run_calls hash calls (new_cache max_entries max_bytes num_shards))
unfolding new_cache AllShards
run_calls-IsShard hash calls max_entries max_bytes num_shards some_shards small =
    kept (run_calls hash calls (new_cache max_entries max_bytes num_shards)) (
      Ends-run_calls hash calls (new_cache max_entries max_bytes num_shards) (
        new_cache-AllShards num_shards _
            (new_shard-IsShard (max 1 (max_entries / num_shards)) _ (omega arith) small),
        rw
            (length-repeated num_shards
              (new_shard (max 1 (max_entries / num_shards)) (max 1 (max_bytes / num_shards))))
            some_shards,
      ))
  where
    kept : (r : Option (List Shard)) → Ends AllShards r → Ends (All IsShard) r
    kept none h = h
    kept (some shards) h = h.0
