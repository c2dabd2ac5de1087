-- ===== src/Cache/Shards.antt =====
-- The calls on a shard of the cache, whose lock the caller holds, and Rehash and Clear.
use keyvaluedb.Prelude.{
  ℕ, ◌+◌, ◌-◌, ◌*◌, ◌%◌, ◌^◌, max, ◌||◌, Option, none, some, List, [], ◌∷◌, map, ltb, leb,
  if◌then◌else◌, ◌>>=◌, length, set,
}
use keyvaluedb.Cache.{
  Bucket, Shard, Probe, free, slot, endless, no_bucket, repeated, entry_at, bucket_at, lru_remove,
  lru_push_front, probe_slot, probe_free,
}

abbrev pub add64 : ℕ → ℕ → ℕ
add64 a b = (a + b) % 2 ^ 64

abbrev pub sub64 : ℕ → ℕ → ℕ
sub64 a b = (a + (2 ^ 64 - b % 2 ^ 64)) % 2 ^ 64

unfoldable pub find_slot : Shard → List ℕ → ℕ → Probe
find_slot s key hash =
    probe_slot (length s.buckets) s.buckets s.entries key hash (hash % length s.buckets)

unfoldable pub set_idx : ℕ → Option ℕ → List Bucket → List Bucket
set_idx i idx bs = set bs i (record (bucket_at bs i) { idx = idx })

-- The loop of Rehash over the old buckets
unfoldable pub replace_buckets : List Bucket → List Bucket → Option (List Bucket)
replace_buckets [] bs = some bs
replace_buckets (b ∷ old) bs = elim b.idx [
  | none ↦ replace_buckets old bs
  | some idx ↦ elim (probe_free (length bs) bs (b.hash % length bs)) [
    | none ↦ none
    | some i ↦ replace_buckets old (set bs i b)
  ]
]

unfoldable pub rehash : Shard → Option Shard
rehash s = do
  bs ← replace_buckets s.buckets (repeated (max (length s.buckets * 2) 8) no_bucket)
  some (record s { buckets = bs })

-- A use of an entry moves it to the front.
unfoldable pub touch : ℕ → Shard → Shard
touch i s = lru_push_front i (lru_remove i s)

-- What makes room for an entry: the call goes on, with the index of an evicted entry where there is
-- one, or returns.
pub data Room : Type 0 where
  room : Option ℕ → Room
  dropped : Room

-- Get_nolock behind the search
unfoldable pub get_found : ℕ → Shard → Probe → Option (Shard × Option (List ℕ))
get_found read_ts s endless = none
get_found read_ts s (free i) = some (s, none)
get_found read_ts s (slot i idx) =
    if ltb read_ts (entry_at s idx).timestamp
    then some (s, none)
    else some (touch idx s, some (entry_at s idx).value)

-- Evict_nolock behind the search for the key at the tail
unfoldable pub evict_found : ℕ → Shard → Probe → Option (Shard × Option ℕ)
evict_found tail s endless = none
evict_found tail s (free i) = some (lru_remove tail s, none)
evict_found tail s (slot i idx) = some (
  lru_remove tail (record s {
    current_bytes = sub64 s.current_bytes (length (entry_at s tail).value);
    buckets = set_idx i none s.buckets;
  }),
  some idx,
)

-- The first round of the loop of Put_nolock behind the eviction
unfoldable pub take_evicted : Option (Shard × Option ℕ) → Option (Shard × Room)
take_evicted none = none
take_evicted (some (s, none)) = some (s, dropped)
take_evicted (some (s, some idx)) =
    some (record s { entry_count = sub64 s.entry_count 1 }, room (some idx))

unfoldable pub grow : Shard → Option Shard
grow s = if leb (length s.buckets) (s.entry_count * 2) then rehash s else some s

-- Erase_nolock behind the search
unfoldable pub erase_found : Shard → Probe → Option Shard
erase_found s endless = none
erase_found s (free i) = some s
erase_found s (slot i idx) =
    let s1 : Shard = record s {
      current_bytes = sub64 s.current_bytes (length (entry_at s idx).value);
    } in
    let s2 = lru_remove idx s1 in some (record s2 { buckets = set_idx i none s2.buckets })

-- The entry goes into the place `idx` and into a free bucket.
unfoldable pub store_at : ℕ → List ℕ → List ℕ → ℕ → ℕ → Shard → Option ℕ → Option Shard
store_at idx key value ts h s none = none
store_at idx key value ts h s (some i) =
    let s1 : Shard = record s {
      entries =
          set s.entries idx
            (record { value = value; key = key; timestamp = ts; prev = none; next = none });
      buckets = set s.buckets i (record { hash = h; idx = some idx });
      entry_count = add64 s.entry_count 1;
    } in
    let s2 = lru_push_front idx s1 in
    some (record s2 { current_bytes = add64 s2.current_bytes (length value) })

module _ (hash : List ℕ → ℕ) where
  unfoldable pub hash32 : List ℕ → ℕ
  hash32 key = hash key % 2 ^ 32

  unfoldable pub get_nolock : List ℕ → ℕ → Shard → Option (Shard × Option (List ℕ))
  get_nolock key read_ts s = get_found read_ts s (find_slot s key (hash32 key))

  unfoldable pub evict_at : Option ℕ → Shard → Option (Shard × Option ℕ)
  evict_at none s = some (s, none)
  evict_at (some tail) s =
      evict_found tail s (find_slot s (entry_at s tail).key (hash32 (entry_at s tail).key))

  unfoldable pub evict_nolock : Shard → Option (Shard × Option ℕ)
  evict_nolock s = evict_at s.lru_tail s

  -- The loop of Put_nolock, which breaks in its second round
  unfoldable pub make_room : ℕ → Shard → Option (Shard × Room)
  make_room size s =
      if leb s.max_entries s.entry_count || ltb s.max_bytes (add64 s.current_bytes size)
      then take_evicted (evict_nolock s)
      else some (s, room none)

  unfoldable pub store_entry : ℕ → List ℕ → List ℕ → ℕ → Shard → Option Shard
  store_entry idx key value ts s =
      let h = hash32 key in
      store_at idx key value ts h s (probe_free (length s.buckets) s.buckets (h % length s.buckets))

  -- The rest of Put_nolock behind the loop; a place is the evicted one or the next.
  unfoldable pub put_room : List ℕ → List ℕ → ℕ → Shard × Room → Option Shard
  put_room key value ts (s, dropped) = some s
  put_room key value ts (s, room none) =
      grow s >>= λ s1. store_entry (s1.entry_count % 2 ^ 32) key value ts s1
  put_room key value ts (s, room (some idx)) = grow s >>= store_entry idx key value ts

  -- Put_nolock behind the search
  unfoldable pub put_found : List ℕ → List ℕ → ℕ → Shard → Probe → Option Shard
  put_found key value ts s endless = none
  put_found key value ts s (free i) = make_room (length value) s >>= put_room key value ts
  put_found key value ts s (slot i idx) =
      let e = entry_at s idx in
      some (
        touch idx (record s {
          current_bytes = add64 (sub64 s.current_bytes (length e.value)) (length value);
          entries = set s.entries idx (record e { value = value; timestamp = ts });
        }))

  unfoldable pub put_nolock : List ℕ → List ℕ → ℕ → Shard → Option Shard
  put_nolock key value ts s = put_found key value ts s (find_slot s key (hash32 key))

  unfoldable pub erase_nolock : List ℕ → Shard → Option Shard
  erase_nolock key s = erase_found s (find_slot s key (hash32 key))

-- Clear, on a shard
unfoldable pub clear_shard : Shard → Shard
clear_shard s = record s {
  entry_count = 0;
  current_bytes = 0;
  lru_head = none;
  lru_tail = none;
  buckets = map (λ (b : Bucket). record b { idx = none }) s.buckets;
}
