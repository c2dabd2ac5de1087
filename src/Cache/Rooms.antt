-- ===== src/Cache/Rooms.antt =====
-- A probe of a shard's buckets ends, as long as one of them is free.
use keyvaluedb.Prelude.{
  ℕ, zero, suc, ◌+◌, ◌-◌, ◌%◌, ◌≤◌, ◌<◌, ◌≡◌, refl, sym, inl, inr, Option, none, some, List, [],
  ◌∷◌, arith, ltb, ◌==◌, ==_iff, Bool-cases, Option-cases, length, set,
}
use native.Mathlib.Nat.{mod-eq_of_lt, mod_self}
use keyvaluedb.Cache.{Bucket, bucket_at, probe_free}

unfoldable pub used : Option ℕ → ℕ
used none = 0
used (some idx) = 1

unfoldable pub occupied : List Bucket → ℕ
occupied [] = 0
occupied (b ∷ bs) = used b.idx + occupied bs

used-le : (o : Option ℕ) → used o ≤ 1
unfolding used
used-le none = omega arith
used-le (some idx) = omega arith

pub occupied-set :
    (bs : List Bucket) (i : ℕ) (b : Bucket)
    → i < length bs
    → occupied (set bs i b) + used (bucket_at bs i).idx ≡ occupied bs + used b.idx
unfolding occupied
occupied-set [] i b h = absurd (omega arith)
occupied-set (x ∷ bs) zero b h = omega arith
occupied-set (x ∷ bs) (suc i) b h = omega (arith, occupied-set bs i b (omega arith))

-- The buckets from one place to another are in use.
abbrev pub AllUsed : List Bucket → ℕ → ℕ → Type 0
AllUsed bs i k = (j : ℕ) → i ≤ j → j < k → used (bucket_at bs j).idx ≡ 1

occupied-AllUsed : (bs : List Bucket) → AllUsed bs 0 (length bs) → occupied bs ≡ length bs
unfolding occupied
occupied-AllUsed [] all = refl
occupied-AllUsed (b ∷ bs) all = omega (
  arith,
  all 0 (omega arith) (omega arith),
  occupied-AllUsed bs (λ j lo hi. all (suc j) (omega arith) (omega arith)),
)

module _ (bs : List Bucket) where
  probe_free-none :
      (n i : ℕ)
      → probe_free (suc n) bs i ≡ none
      → (used (bucket_at bs i).idx ≡ 1) × (probe_free n bs ((i + 1) % length bs) ≡ none)
  unfolding probe_free used
  probe_free-none n i h = elim (Option-cases (bucket_at bs i).idx) [
    | inl e ↦ absurd (cc (rw (probe_free, e) at h))
    | inr (idx, e) ↦ (rw e refl, rw (probe_free, e) at h)
  ]

  AllUsed-cons : (i k : ℕ) → used (bucket_at bs i).idx ≡ 1 → AllUsed bs (i + 1) k → AllUsed bs i k
  AllUsed-cons i k here all j lo hi = elim (Bool-cases (i == j)) [
    | inl e ↦ rw (sym ((==_iff i j).0 e)) here
    | inr e ↦ all j (ground arith) hi
  ]

  -- The probe up to the last bucket, and then from the first one on
  walk_up :
      (n d f i : ℕ)
      → n ≡ d + f
      → i + d ≡ length bs
      → 1 ≤ d
      → probe_free n bs i ≡ none
      → AllUsed bs i (length bs) × (probe_free f bs 0 ≡ none)
  walk_up zero d f i split ends some_left h = absurd (omega arith)
  walk_up (suc n) zero f i split ends some_left h = absurd (omega arith)
  walk_up (suc n) (suc zero) f i split ends some_left h =
      let step = probe_free-none n i h in
      let around : (i + 1) % length bs ≡ 0 = rw (last) (mod_self (length bs)) in
      let fuel : n ≡ f = omega arith in
      (
        AllUsed-cons i (length bs) step.0 (λ j lo hi. absurd (omega arith)),
        rw (around, fuel) at step.1,
      )
    where
      last : i + 1 ≡ length bs
      last = omega arith
  walk_up (suc n) (suc (suc d)) f i split ends some_left h =
      let step = probe_free-none n i h in
      let next : (i + 1) % length bs ≡ i + 1 = mod-eq_of_lt (omega arith) in
      let rest =
        walk_up n (suc d) f (i + 1) (omega arith) (omega arith) (omega arith) (rw next at step.1) in
      (AllUsed-cons i (length bs) step.0 rest.0, rest.1)

  walk_within : (n i : ℕ) → i + n ≤ length bs → probe_free n bs i ≡ none → AllUsed bs i (i + n)
  walk_within zero i fits h = λ j lo hi. absurd (omega arith)
  walk_within (suc zero) i fits h =
      AllUsed-cons i (i + 1) (probe_free-none 0 i h).0 (λ j lo hi. absurd (omega arith))
  walk_within (suc (suc n)) i fits h =
      let step = probe_free-none (suc n) i h in
      let next : (i + 1) % length bs ≡ i + 1 = mod-eq_of_lt (omega arith) in
      let rest = walk_within (suc n) (i + 1) (omega arith) (rw next at step.1) in
      AllUsed-cons i (i + suc (suc n)) step.0 (λ j lo hi. rest j lo (omega arith))

  -- A probe that goes round all buckets and finds none free
  pub occupied-probe_free :
      (i : ℕ) → i < length bs → probe_free (length bs) bs i ≡ none → occupied bs ≡ length bs
  occupied-probe_free i h none_free =
      let up =
        walk_up (length bs) (length bs - i) i i (omega arith) (omega arith) (omega arith)
          none_free in
      let below = walk_within i 0 (omega arith) up.1 in
      occupied-AllUsed bs (λ j lo hi. elim (Bool-cases (ltb j i)) [
        | inl e ↦ below j lo (ground arith)
        | inr e ↦ up.0 j (ground arith) hi
      ])
