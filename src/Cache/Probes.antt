-- ===== src/Cache/Probes.antt =====
-- A shard with a free bucket: what its probes find, and what its parts keep.
use keyvaluedb.Prelude.{
  ℕ, zero, suc, ◌+◌, ◌*◌, ◌%◌, ◌^◌, ◌≤◌, ◌<◌, ◌≡◌, refl, ap, inl, inr, Option, none, some, List, [],
  ◌∷◌, map, arith, ltb, Bool-cases, Option-cases, length, length-set,
}
use native.Mathlib.Nat.{mod-lt}
use keyvaluedb.Cache.{
  Bucket, Entry, Shard, Probe, free, slot, endless, no_bucket, bucket_at, is_match, probe_slot,
  probe_free, repeated, double_until, new_shard, lru_remove, lru_push_front,
}
use keyvaluedb.Cache.Shards.{find_slot, set_idx, touch, clear_shard}
use keyvaluedb.Cache.Rooms.{used, occupied, occupied-set, occupied-probe_free}

-- A probe that ends: at a bucket in use, where it found the key.
abbrev pub Lands : List Bucket → Probe → Type 0
Lands bs endless = ⊥
Lands bs (free i) = Unit
Lands bs (slot i idx) = (i < length bs) × ((bucket_at bs i).idx ≡ some idx)

module _ (bs : List Bucket) where
  pub probe_free-some :
      (n i j : ℕ)
      → i < length bs
      → probe_free n bs i ≡ some j
      → (j < length bs) × ((bucket_at bs j).idx ≡ none)
  unfolding probe_free
  probe_free-some zero i j h e = cc
  probe_free-some (suc n) i j h e = elim (Option-cases (bucket_at bs i).idx) [
    | inl f ↦
        let same : some i ≡ some j = rw (probe_free, f) at e in
        let here : i ≡ j = cc in (omega (arith, here, h), rw (← here) f)
    | inr (idx, f) ↦
        probe_free-some n ((i + 1) % length bs) j (mod-lt (i + 1) (omega arith))
          (rw (probe_free, f) at e)
  ]

  module _ (entries : List Entry) (key : List ℕ) (hash : ℕ) where
    probe_slot-endless :
        (n i : ℕ) → probe_slot n bs entries key hash i ≡ endless → probe_free n bs i ≡ none
    unfolding probe_slot probe_free
    probe_slot-endless zero i e = refl
    probe_slot-endless (suc n) i e = elim (Option-cases (bucket_at bs i).idx) [
      | inl f ↦ absurd (cc (rw (probe_slot, f) at e))
      | inr (idx, f) ↦ elim (Bool-cases (is_match entries key hash (bucket_at bs i).hash idx)) [
        | inl g ↦ absurd (cc (rw (probe_slot, f, g) at e))
        | inr g ↦
            let again : probe_slot n bs entries key hash ((i + 1) % length bs) ≡ endless =
              rw (probe_slot, f, g) at e in
            rw (probe_free, f) (probe_slot-endless n ((i + 1) % length bs) again)
      ]
    ]

    probe_slot-slot :
        (n i j idx : ℕ)
        → i < length bs
        → probe_slot n bs entries key hash i ≡ slot j idx
        → (j < length bs) × ((bucket_at bs j).idx ≡ some idx)
    unfolding probe_slot
    probe_slot-slot zero i j idx h e = cc
    probe_slot-slot (suc n) i j idx h e = elim (Option-cases (bucket_at bs i).idx) [
      | inl f ↦ absurd (cc (rw (probe_slot, f) at e))
      | inr (k, f) ↦ elim (Bool-cases (is_match entries key hash (bucket_at bs i).hash k)) [
        | inl g ↦
            let same : slot i k ≡ slot j idx = rw (probe_slot, f, g) at e in
            let here : i ≡ j = cc in
            let there : k ≡ idx = cc in (omega (arith, here, h), rw (← here, ← there) f)
        | inr g ↦
            probe_slot-slot n ((i + 1) % length bs) j idx (mod-lt (i + 1) (omega arith))
              (rw (probe_slot, f, g) at e)
      ]
    ]

    pub Lands-probe_slot :
        (i : ℕ)
        → i < length bs
        → occupied bs < length bs
        → Lands bs (probe_slot (length bs) bs entries key hash i)
    Lands-probe_slot i h some_free = go (probe_slot (length bs) bs entries key hash i) refl
      where
        go : (p : Probe) → probe_slot (length bs) bs entries key hash i ≡ p → Lands bs p
        go endless e = absurd (
            omega
              (arith, some_free, occupied-probe_free bs i h (probe_slot-endless (length bs) i e)))
        go (free j) e = tt
        go (slot j idx) e = probe_slot-slot (length bs) i j idx h e

-- A shard has at least twice as many buckets as it may have entries, and no more of them are in use
-- than it counts entries.
pub record IsShard (s : Shard) : Type 0 where
  pub half : s.max_entries * 2 ≤ length s.buckets
  pub some_entries : 1 ≤ s.max_entries
  pub bounded : s.max_entries < 2 ^ 32
  pub counted : occupied s.buckets ≤ s.entry_count
  pub within : s.entry_count ≤ s.max_entries

pub Lands-find_slot :
    (s : Shard) (key : List ℕ) (hash : ℕ) → IsShard s → Lands s.buckets (find_slot s key hash)
unfolding find_slot
Lands-find_slot s key hash h =
    Lands-probe_slot s.buckets s.entries key hash (hash % length s.buckets)
      (mod-lt hash (omega (arith, h.half, h.some_entries)))
      (omega (arith, h.half, h.some_entries, h.counted, h.within))

pub lru_remove-IsShard : (i : ℕ) (s : Shard) → IsShard s → IsShard (lru_remove i s)
unfolding lru_remove
lru_remove-IsShard i s h = record {
  half = h.half;
  some_entries = h.some_entries;
  bounded = h.bounded;
  counted = h.counted;
  within = h.within;
}

pub lru_push_front-IsShard : (i : ℕ) (s : Shard) → IsShard s → IsShard (lru_push_front i s)
unfolding lru_push_front
lru_push_front-IsShard i s h = record {
  half = h.half;
  some_entries = h.some_entries;
  bounded = h.bounded;
  counted = h.counted;
  within = h.within;
}

pub touch-IsShard : (i : ℕ) (s : Shard) → IsShard s → IsShard (touch i s)
unfolding touch
touch-IsShard i s h = lru_push_front-IsShard i (lru_remove i s) (lru_remove-IsShard i s h)

pub length-set_idx : (i : ℕ) (o : Option ℕ) (bs : List Bucket) → length (set_idx i o bs) ≡ length bs
unfolding set_idx
length-set_idx i o bs = length-set bs i _

-- A bucket in use that is freed
pub occupied-set_idx :
    (bs : List Bucket) (i idx : ℕ)
    → i < length bs
    → (bucket_at bs i).idx ≡ some idx
    → occupied (set_idx i none bs) + 1 ≡ occupied bs
unfolding set_idx used
occupied-set_idx bs i idx h e =
    let counted = occupied-set bs i (record (bucket_at bs i) { idx = none }) h in
    omega (arith, rw e at counted)

occupied-repeated : (n : ℕ) → occupied (repeated n no_bucket) ≡ 0
unfolding occupied repeated used
occupied-repeated zero = refl
occupied-repeated (suc n) = omega (arith, occupied-repeated n)

pub length-repeated {ℓ} : {A : Type ℓ} (n : ℕ) (a : A) → length (repeated n a) ≡ n
unfolding repeated
length-repeated zero a = refl
length-repeated (suc n) a = ap suc (length-repeated n a)

double_until-le : (n bc size : ℕ) → 1 ≤ bc → size ≤ bc + n → size ≤ double_until n bc size
unfolding double_until
double_until-le zero bc size pos enough = omega arith
double_until-le (suc n) bc size pos enough = elim (Bool-cases (ltb bc size)) [
  | inl e ↦ rw e (double_until-le n (bc * 2) size (omega arith) (omega arith))
  | inr e ↦ rw e (ground arith)
]

pub new_shard-IsShard :
    (per_e per_b : ℕ) → 1 ≤ per_e → per_e < 2 ^ 32 → IsShard (new_shard per_e per_b)
unfolding new_shard
new_shard-IsShard per_e per_b pos small = record {
  half =
      rw (length-repeated (double_until (per_e * 2) 1 (per_e * 2)) no_bucket)
        (double_until-le (per_e * 2) 1 (per_e * 2) (omega arith) (omega arith));
  some_entries = pos;
  bounded = small;
  counted = rw (occupied-repeated (double_until (per_e * 2) 1 (per_e * 2))) (omega arith);
  within = omega arith;
}

occupied-cleared :
    (bs : List Bucket) → occupied (map (λ (b : Bucket). record b { idx = none }) bs) ≡ 0
unfolding occupied used
occupied-cleared [] = refl
occupied-cleared (b ∷ bs) = omega (arith, occupied-cleared bs)

length-cleared :
    (bs : List Bucket) → length (map (λ (b : Bucket). record b { idx = none }) bs) ≡ length bs
length-cleared [] = refl
length-cleared (b ∷ bs) = ap suc (length-cleared bs)

pub clear_shard-IsShard : (s : Shard) → IsShard s → IsShard (clear_shard s)
unfolding clear_shard
clear_shard-IsShard s h = record {
  half = rw (length-cleared s.buckets) h.half;
  some_entries = h.some_entries;
  bounded = h.bounded;
  counted = rw (occupied-cleared s.buckets) (omega arith);
  within = omega arith;
}
