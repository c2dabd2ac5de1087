-- ===== src/Cache/Endings.antt =====
-- No call of the cache probes for ever.
use keyvaluedb.Prelude.{
  ℕ, ◌+◌, ◌*◌, ◌%◌, ◌^◌, ◌≤◌, ◌<◌, ◌≡◌, refl, inl, inr, false, ◌||◌, Option, none, some, List,
  arith, ltb, leb, Bool-cases, Option-cases, ◌>>=◌, length, set, length-set,
}
use native.Mathlib.Nat.{mod-lt}
use keyvaluedb.Cache.{
  Bucket, Shard, Probe, free, slot, endless, bucket_at, entry_at, probe_free, lru_remove,
  lru_push_front,
}
use keyvaluedb.Cache.Shards.{
  set_idx, add64, sub64, Room, room, dropped, hash32, get_found, evict_found, take_evicted,
  erase_found, store_at, get_nolock, evict_at, evict_nolock, make_room, grow, store_entry, put_room,
  put_found, put_nolock, erase_nolock,
}
use keyvaluedb.Cache.Calls.{use_entry}
use keyvaluedb.Cache.Rooms.{used, occupied, occupied-set, occupied-probe_free}
use keyvaluedb.Cache.Probes.{
  Lands, probe_free-some, IsShard, Lands-find_slot, lru_remove-IsShard, touch-IsShard,
  length-set_idx, occupied-set_idx,
}

-- A call that ends, with a result of this kind.
abbrev pub Ends : {A : Type 0} → (A → Type 0) → Option A → Type 0
Ends P none = ⊥
Ends P (some a) = P a

pub Ends->>= :
    {A B : Type 0} (P : A → Type 0) (Q : B → Type 0) (m : Option A) (f : A → Option B)
    → Ends P m
    → ((a : A) → P a → Ends Q (f a))
    → Ends Q (m >>= f)
Ends->>= P Q none f h k = absurd h
Ends->>= P Q (some a) f h k = k a h

-- An eviction frees a bucket, or finds nothing to evict.
abbrev Evicted : Shard × Option ℕ → Type 0
Evicted (s, none) = IsShard s
Evicted (s, some idx) = IsShard s × (occupied s.buckets + 1 ≤ s.entry_count)

abbrev HasRoom : Shard × Room → Type 0
HasRoom (s, dropped) = IsShard s
HasRoom (s, room o) = IsShard s × (s.entry_count < s.max_entries)

-- A shard with a bucket freed, and some number of bytes
freed-IsShard :
    (s : Shard) (i idx bytes : ℕ)
    → IsShard s
    → Lands s.buckets (slot i idx)
    → IsShard (record s { current_bytes = bytes; buckets = set_idx i none s.buckets })
freed-IsShard s i idx bytes h at_slot = record {
  half = rw (length-set_idx i none s.buckets) h.half;
  some_entries = h.some_entries;
  bounded = h.bounded;
  counted = omega (arith, h.counted, occupied-set_idx s.buckets i idx at_slot.0 at_slot.1);
  within = h.within;
}

bytes-IsShard : (s : Shard) (bytes : ℕ) → IsShard s → IsShard (record s { current_bytes = bytes })
bytes-IsShard s bytes h = record {
  half = h.half;
  some_entries = h.some_entries;
  bounded = h.bounded;
  counted = h.counted;
  within = h.within;
}

Ends-get_found :
    (read_ts : ℕ) (s : Shard) (p : Probe)
    → IsShard s
    → Lands s.buckets p
    → Ends (λ (r : Shard × Option (List ℕ)). IsShard r.0) (get_found read_ts s p)
unfolding get_found
Ends-get_found read_ts s endless h lands = lands
Ends-get_found read_ts s (free i) h lands = h
Ends-get_found read_ts s (slot i idx) h lands =
    elim (Bool-cases (ltb read_ts (entry_at s idx).timestamp)) [
      | inl e ↦ rw e h
      | inr e ↦ rw e (touch-IsShard idx s h)
    ]

Ends-evict_found :
    (tail : ℕ) (s : Shard) (p : Probe)
    → IsShard s
    → Lands s.buckets p
    → Ends Evicted (evict_found tail s p)
unfolding evict_found
Ends-evict_found tail s endless h lands = lands
Ends-evict_found tail s (free i) h lands = lru_remove-IsShard tail s h
Ends-evict_found tail s (slot i idx) h lands = (
  lru_remove-IsShard tail _ (freed-IsShard s i idx _ h lands),
  unfold lru_remove in omega (arith, h.counted, occupied-set_idx s.buckets i idx lands.0 lands.1),
)

Ends-erase_found :
    (s : Shard) (p : Probe) → IsShard s → Lands s.buckets p → Ends IsShard (erase_found s p)
unfolding erase_found lru_remove
Ends-erase_found s endless h lands = lands
Ends-erase_found s (free i) h lands = h
Ends-erase_found s (slot i idx) h lands =
    let freed = freed-IsShard s i idx 0 h lands in
    record {
      half = freed.half;
      some_entries = freed.some_entries;
      bounded = freed.bounded;
      counted = freed.counted;
      within = freed.within;
    }

Ends-take_evicted : (r : Option (Shard × Option ℕ)) → Ends Evicted r → Ends HasRoom (take_evicted r)
unfolding take_evicted
Ends-take_evicted none ends = ends
Ends-take_evicted (some (s, none)) ends = ends
Ends-take_evicted (some (s, some idx)) (h, spare) =
    let less : sub64 s.entry_count 1 + 1 ≡ s.entry_count =
      omega (arith, spare, h.within, h.bounded) in
    (
      record {
        half = h.half;
        some_entries = h.some_entries;
        bounded = h.bounded;
        counted = omega (arith, spare, less);
        within = omega (arith, less, h.within);
      },
      omega (arith, less, h.within),
    )

grow-some : (s : Shard) → IsShard s → s.entry_count < s.max_entries → grow s ≡ some s
unfolding grow
grow-some s h fewer =
    let enough : leb (length s.buckets) (s.entry_count * 2) ≡ false =
      ground (arith, h.half, fewer) in
    rw enough refl

Ends-store_at :
    (idx : ℕ) (key value : List ℕ) (ts h i : ℕ) (s : Shard)
    → IsShard s
    → s.entry_count < s.max_entries
    → (i < length s.buckets) × ((bucket_at s.buckets i).idx ≡ none)
    → Ends IsShard (store_at idx key value ts h s (some i))
unfolding store_at lru_push_front
Ends-store_at idx key value ts h i s shard fewer (inside, is_free) =
    let b : Bucket = record { hash = h; idx = some idx } in
    let more : add64 s.entry_count 1 ≡ s.entry_count + 1 = omega (arith, fewer, shard.bounded) in
    let counts : occupied (set s.buckets i b) ≡ occupied s.buckets + 1 =
      unfold used in omega (arith, rw is_free at (occupied-set s.buckets i b inside)) in
    record {
      half = rw (length-set s.buckets i b) shard.half;
      some_entries = shard.some_entries;
      bounded = shard.bounded;
      counted = omega (arith, more, counts, shard.counted);
      within = omega (arith, more, fewer);
    }

module _ (hash : List ℕ → ℕ) where
  Ends-evict_at : (tail : Option ℕ) (s : Shard) → IsShard s → Ends Evicted (evict_at hash tail s)
  unfolding evict_at
  Ends-evict_at none s h = h
  Ends-evict_at (some tail) s h =
      Ends-evict_found tail s _ h
        (Lands-find_slot s (entry_at s tail).key (hash32 hash (entry_at s tail).key) h)

  Ends-make_room : (size : ℕ) (s : Shard) → IsShard s → Ends HasRoom (make_room hash size s)
  unfolding make_room evict_nolock
  Ends-make_room size s h =
      elim (Bool-cases
        (leb s.max_entries s.entry_count || ltb s.max_bytes (add64 s.current_bytes size))) [
          | inl e ↦ rw e (Ends-take_evicted _ (Ends-evict_at s.lru_tail s h))
          | inr e ↦ rw e (h, ground arith)
        ]

  Ends-store_entry :
      (idx : ℕ) (key value : List ℕ) (ts : ℕ) (s : Shard)
      → IsShard s
      → s.entry_count < s.max_entries
      → Ends IsShard (store_entry hash idx key value ts s)
  unfolding store_entry
  Ends-store_entry idx key value ts s h fewer =
      let start : hash32 hash key % length s.buckets < length s.buckets =
        mod-lt (hash32 hash key) (omega (arith, h.half, h.some_entries)) in
      elim (Option-cases
        (probe_free (length s.buckets) s.buckets (hash32 hash key % length s.buckets))) [
          | inl e ↦ absurd (
              omega (
                arith,
                occupied-probe_free s.buckets (hash32 hash key % length s.buckets) start e,
                h.half,
                h.counted,
                fewer,
              ))
          | inr (i, e) ↦ rw e (
              Ends-store_at idx key value ts (hash32 hash key) i s h fewer
                (probe_free-some s.buckets (length s.buckets) _ i start e))
        ]

  Ends-put_room :
      (key value : List ℕ) (ts : ℕ) (r : Shard × Room)
      → HasRoom r
      → Ends IsShard (put_room hash key value ts r)
  unfolding put_room
  Ends-put_room key value ts (s, dropped) h = h
  Ends-put_room key value ts (s, room none) (h, fewer) =
      rw (grow-some s h fewer) (Ends-store_entry (s.entry_count % 2 ^ 32) key value ts s h fewer)
  Ends-put_room key value ts (s, room (some idx)) (h, fewer) =
      rw (grow-some s h fewer) (Ends-store_entry idx key value ts s h fewer)

  Ends-put_found :
      (key value : List ℕ) (ts : ℕ) (s : Shard) (p : Probe)
      → IsShard s
      → Lands s.buckets p
      → Ends IsShard (put_found hash key value ts s p)
  unfolding put_found
  Ends-put_found key value ts s endless h lands = lands
  Ends-put_found key value ts s (free i) h lands =
      Ends->>= HasRoom IsShard (make_room hash (length value) s) (put_room hash key value ts)
        (Ends-make_room (length value) s h) (Ends-put_room key value ts)
  Ends-put_found key value ts s (slot i idx) h lands = touch-IsShard idx _ (record {
    half = h.half;
    some_entries = h.some_entries;
    bounded = h.bounded;
    counted = h.counted;
    within = h.within;
  })

  pub Ends-use_entry :
      (key : List ℕ) (read_ts : ℕ) (s : Shard)
      → IsShard s
      → Ends IsShard (use_entry hash key read_ts s)
  unfolding use_entry get_nolock
  Ends-use_entry key read_ts s h =
      Ends->>= (λ (r : Shard × Option (List ℕ)). IsShard r.0) IsShard _ _
        (Ends-get_found read_ts s _ h (Lands-find_slot s key (hash32 hash key) h)) (λ r kept. kept)

  pub Ends-put_nolock :
      (key value : List ℕ) (ts : ℕ) (s : Shard)
      → IsShard s
      → Ends IsShard (put_nolock hash key value ts s)
  unfolding put_nolock
  Ends-put_nolock key value ts s h =
      Ends-put_found key value ts s _ h (Lands-find_slot s key (hash32 hash key) h)

  pub Ends-erase_nolock :
      (key : List ℕ) (s : Shard) → IsShard s → Ends IsShard (erase_nolock hash key s)
  unfolding erase_nolock
  Ends-erase_nolock key s h = Ends-erase_found s _ h (Lands-find_slot s key (hash32 hash key) h)
