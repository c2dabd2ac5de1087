-- ===== src/Tests/Cache.antt =====
-- The cache at concrete inputs.
use keyvaluedb.Prelude.{ℕ, ◌≡◌, refl, Option, none, some, List, [], ◌∷◌, arith, ◌>>=◌, All}
use keyvaluedb.Cache.{
  Shard, repeated, double_until, new_shard, set_next, set_prev, end_or, lru_remove, lru_push_front,
  is_match, probe_slot, probe_free,
}
use keyvaluedb.Cache.Shards.{
  find_slot, set_idx, touch, get_found, evict_found, take_evicted, erase_found, store_at, hash32,
  get_nolock, evict_at, evict_nolock, make_room, grow, store_entry, put_room, put_found, put_nolock,
  erase_nolock,
}
use keyvaluedb.Cache.Calls.{CacheCall, get_key, put_key, erase_key, clear_all, new_cache, run_calls}
use keyvaluedb.Cache.Probes.{IsShard}
use keyvaluedb.Cache.Endings.{Ends}
use keyvaluedb.Cache.Runs.{run_calls-IsShard}
use keyvaluedb.Tree.Keys.{key_eq}

-- All keys collide.
abbrev collide : List ℕ → ℕ
collide key = 0

-- Unfolding this computes the calls of a shard.
cache_runs : ℕ
unfolding repeated double_until new_shard set_next set_prev end_or lru_remove lru_push_front
    is_match probe_slot probe_free find_slot set_idx touch get_found evict_found take_evicted
    erase_found store_at hash32 get_nolock evict_at evict_nolock make_room grow store_entry put_room
    put_found put_nolock erase_nolock key_eq
cache_runs = 0

abbrev value_of : Option (Shard × Option (List ℕ)) → Option (List ℕ)
value_of none = none
value_of (some (s, v)) = v

get-put :
    value_of
      (put_nolock collide (1 ∷ []) (10 ∷ []) 5 (new_shard 3 100) >>= get_nolock collide (1 ∷ []) 5)
    ≡ some (10 ∷ [])
unfolding cache_runs
get-put = refl

-- An erased bucket cuts the probes of the keys behind it: a value comes back that was overwritten and
-- then erased.
get-erase_stale :
    value_of (
      put_nolock collide (1 ∷ []) (10 ∷ []) 5 (new_shard 4 100)
      >>= put_nolock collide (2 ∷ []) (20 ∷ []) 6
      >>= erase_nolock collide (1 ∷ [])
      >>= put_nolock collide (2 ∷ []) (30 ∷ []) 7
      >>= erase_nolock collide (2 ∷ [])
      >>= put_nolock collide (1 ∷ []) (40 ∷ []) 8
      >>= get_nolock collide (2 ∷ []) 9)
    ≡ some (20 ∷ [])
unfolding cache_runs
get-erase_stale = refl

-- An erased entry keeps counting: a shard of one entry takes no other.
get-erase_full :
    value_of (
      put_nolock collide (1 ∷ []) (10 ∷ []) 5 (new_shard 1 100)
      >>= erase_nolock collide (1 ∷ [])
      >>= put_nolock collide (2 ∷ []) (20 ∷ []) 6
      >>= get_nolock collide (2 ∷ []) 9)
    ≡ none
unfolding cache_runs
get-erase_full = refl

abbrev some_calls : List CacheCall
some_calls =
    put_key (1 ∷ []) (10 ∷ []) 5
    ∷ put_key (2 ∷ []) (20 ∷ []) 6
    ∷ erase_key (1 ∷ [])
    ∷ get_key (2 ∷ []) 9
    ∷ clear_all
    ∷ []

run_calls-IsShard_example : Ends (All IsShard) (run_calls collide some_calls (new_cache 4 100 2))
run_calls-IsShard_example = run_calls-IsShard collide some_calls 4 100 2 (omega arith) (omega arith)
