-- ===== src/Scan/Seek.antt =====
-- The lower bound of a range scan: what the sources are made to leave out.
use keyvaluedb.Prelude.{
  ℕ, ◌≤◌, ◌≡◌, refl, ◌∙◌, inl, inr, Bool, true, not, ◌&&◌, List, [], ◌∷◌, arith, if◌then◌else◌,
  Bool-cases, length, All,
}
use keyvaluedb.Types.{KeyValuePair}
use keyvaluedb.Protocol.{RangeBound}
use keyvaluedb.Tree.Keys.{key_le, key_eq, key_eq_iff, key_le_refl, key_le_total, key_le_trans}
use keyvaluedb.Table.Locate.{key_lt, Ascending, lt_ne}
use keyvaluedb.Scan.{is_unbounded, seek_to_key, skip_key, seek_lower, above_upper}
use keyvaluedb.Scan.Stamps.{stamp_of, stamp, stamp-Others, stamp_of-ne, lt_le_trans}
use keyvaluedb.Scan.Heap.{Above, Above-trans, le_ne_lt, lt_le}
use keyvaluedb.Scan.Totals.{Others-Above}

unfoldable pub below_lower : RangeBound → List ℕ → Bool
below_lower lower key =
    not (is_unbounded lower)
    && (if lower.inclusive then not (key_le lower.key key) else key_le key lower.key)

-- The keys between the bounds
unfoldable pub in_range : RangeBound → RangeBound → List ℕ → Bool
in_range lower upper key = not (below_lower lower key) && not (above_upper upper key)

seek_to_key-All :
    (P : KeyValuePair → Type 0) (key : List ℕ) (kvs : List KeyValuePair)
    → All P kvs
    → All P (seek_to_key key kvs)
unfolding seek_to_key
seek_to_key-All P key [] all = tt
seek_to_key-All P key (kv ∷ kvs) all = elim (Bool-cases (key_le key kv.key)) [
  | inl e ↦ rw e all
  | inr e ↦ rw e (seek_to_key-All P key kvs all.1)
]

skip_key-All :
    (P : KeyValuePair → Type 0) (key : List ℕ) (kvs : List KeyValuePair)
    → All P kvs
    → All P (skip_key key kvs)
unfolding skip_key
skip_key-All P key [] all = tt
skip_key-All P key (kv ∷ kvs) all = elim (Bool-cases (key_eq kv.key key)) [
  | inl e ↦ rw e (skip_key-All P key kvs all.1)
  | inr e ↦ rw e all
]

pub seek_lower-All :
    (P : KeyValuePair → Type 0) (lower : RangeBound) (kvs : List KeyValuePair)
    → All P kvs
    → All P (seek_lower lower kvs)
unfolding seek_lower
seek_lower-All P lower kvs all = elim (Bool-cases (is_unbounded lower)) [
  | inl e ↦ rw e all
  | inr e ↦
      let there = seek_to_key-All P lower.key kvs all in
      elim (Bool-cases lower.inclusive) [
        | inl i ↦ rw (e, i) there
        | inr i ↦ rw (e, i) (skip_key-All P lower.key (seek_to_key lower.key kvs) there)
      ]
]

seek_to_key-Ascending :
    (key : List ℕ) (kvs : List KeyValuePair) → Ascending kvs → Ascending (seek_to_key key kvs)
unfolding seek_to_key
seek_to_key-Ascending key [] up = tt
seek_to_key-Ascending key (kv ∷ kvs) up = elim (Bool-cases (key_le key kv.key)) [
  | inl e ↦ rw e up
  | inr e ↦ rw e (seek_to_key-Ascending key kvs up.1)
]

skip_key-Ascending :
    (key : List ℕ) (kvs : List KeyValuePair) → Ascending kvs → Ascending (skip_key key kvs)
unfolding skip_key
skip_key-Ascending key [] up = tt
skip_key-Ascending key (kv ∷ kvs) up = elim (Bool-cases (key_eq kv.key key)) [
  | inl e ↦ rw e (skip_key-Ascending key kvs up.1)
  | inr e ↦ rw e up
]

pub seek_lower-Ascending :
    (lower : RangeBound) (kvs : List KeyValuePair)
    → Ascending kvs
    → Ascending (seek_lower lower kvs)
unfolding seek_lower
seek_lower-Ascending lower kvs up = elim (Bool-cases (is_unbounded lower)) [
  | inl e ↦ rw e up
  | inr e ↦
      let there = seek_to_key-Ascending lower.key kvs up in
      elim (Bool-cases lower.inclusive) [
        | inl i ↦ rw (e, i) there
        | inr i ↦ rw (e, i) (skip_key-Ascending lower.key (seek_to_key lower.key kvs) there)
      ]
]

length-seek_to_key :
    (key : List ℕ) (kvs : List KeyValuePair) → length (seek_to_key key kvs) ≤ length kvs
unfolding seek_to_key
length-seek_to_key key [] = omega arith
length-seek_to_key key (kv ∷ kvs) = ground (arith, length-seek_to_key key kvs)

length-skip_key : (key : List ℕ) (kvs : List KeyValuePair) → length (skip_key key kvs) ≤ length kvs
unfolding skip_key
length-skip_key key [] = omega arith
length-skip_key key (kv ∷ kvs) = ground (arith, length-skip_key key kvs)

pub length-seek_lower :
    (lower : RangeBound) (kvs : List KeyValuePair) → length (seek_lower lower kvs) ≤ length kvs
unfolding seek_lower
length-seek_lower lower kvs =
    ground (
      arith,
      length-seek_to_key lower.key kvs,
      length-skip_key lower.key (seek_to_key lower.key kvs),
    )

seek_to_key-AtLeast :
    (key : List ℕ) (kvs : List KeyValuePair)
    → Ascending kvs
    → All (λ (x : KeyValuePair). key_le key x.key ≡ true) (seek_to_key key kvs)
unfolding seek_to_key
seek_to_key-AtLeast key [] up = tt
seek_to_key-AtLeast key (kv ∷ kvs) up = elim (Bool-cases (key_le key kv.key)) [
  | inl e ↦ rw e (e, at_least kv.key kvs e up.0)
  | inr e ↦ rw e (seek_to_key-AtLeast key kvs up.1)
]
  where
    at_least :
        (k : List ℕ) (xs : List KeyValuePair)
        → key_le key k ≡ true
        → Above k xs
        → All (λ (x : KeyValuePair). key_le key x.key ≡ true) xs
    at_least k [] le all = tt
    at_least k (x ∷ xs) le all =
        (key_le_trans key k x.key le (lt_le k x.key all.0), at_least k xs le all.1)

module _ (read_ts : ℕ) where
  stamp-Above : (k : List ℕ) (kvs : List KeyValuePair) → Above k kvs → stamp k read_ts kvs ≡ 0
  stamp-Above k kvs all = stamp-Others k read_ts kvs (Others-Above k kvs all)

  stamp_of-lt :
      (k : List ℕ) (kv : KeyValuePair) → key_lt kv.key k ≡ true → stamp_of k read_ts kv ≡ 0
  stamp_of-lt k kv h =
      stamp_of-ne k read_ts kv
        (ground (arith, lt_ne kv.key k h, key_eq_iff kv.key k, key_eq_iff k kv.key, key_le_refl k))

  -- Below the sought key nothing stays, and from it on everything.
  stamp-seek_to_key :
      (key k : List ℕ) (kvs : List KeyValuePair)
      → Ascending kvs
      → stamp k read_ts (seek_to_key key kvs) ≡ (if key_le key k then stamp k read_ts kvs else 0)
  unfolding seek_to_key stamp
  stamp-seek_to_key key k [] up = ground arith
  stamp-seek_to_key key k (kv ∷ kvs) up =
      let ih = stamp-seek_to_key key k kvs up.1 in
      elim (Bool-cases (key_le key kv.key)) [
        | inl e ↦ elim (Bool-cases (key_le key k)) [
          | inl c ↦ rw (e, c) refl
          | inr c ↦
              let below : key_lt k kv.key ≡ true = lt_le_trans k key kv.key (rw c refl) e in
              let none_here =
                stamp-Above k (kv ∷ kvs) (below, Above-trans k kv.key kvs below up.0) in
              rw (e, c) none_here
        ]
        | inr e ↦ elim (Bool-cases (key_le key k)) [
          | inl c ↦
              let gone = stamp_of-lt k kv (lt_le_trans kv.key key k (rw e refl) c) in
              rw (e, gone, c) (rw c at ih ∙ omega arith)
          | inr c ↦ rw (e, c) (rw c at ih)
        ]
      ]

  stamp-skip_key :
      (key k : List ℕ) (kvs : List KeyValuePair)
      → Ascending kvs
      → All (λ (x : KeyValuePair). key_le key x.key ≡ true) kvs
      → stamp k read_ts (skip_key key kvs) ≡ (if key_eq key k then 0 else stamp k read_ts kvs)
  unfolding skip_key stamp
  stamp-skip_key key k [] up from = ground arith
  stamp-skip_key key k (kv ∷ kvs) up from =
      let ih = stamp-skip_key key k kvs up.1 from.1 in
      elim (Bool-cases (key_eq kv.key key)) [
        | inl e ↦ elim (Bool-cases (key_eq key k)) [
          | inl c ↦ rw (e, c) (rw c at ih)
          | inr c ↦
              let gone = stamp_of-ne k read_ts kv (rw ((key_eq_iff kv.key key).0 e) c) in
              rw (e, gone, c) (rw c at ih ∙ omega arith)
        ]
        | inr e ↦ elim (Bool-cases (key_eq key k)) [
          | inl c ↦
              let above : key_lt k kv.key ≡ true =
                rw ((key_eq_iff key k).0 c) at (le_ne_lt key kv.key from.0 e) in
              let none_here =
                stamp-Above k (kv ∷ kvs) (above, Above-trans k kv.key kvs above up.0) in
              rw (e, c) none_here
          | inr c ↦ rw (e, c) refl
        ]
      ]

  pub stamp-seek_lower :
      (lower : RangeBound) (key : List ℕ) (kvs : List KeyValuePair)
      → Ascending kvs
      → stamp key read_ts (seek_lower lower kvs)
        ≡ (if below_lower lower key then 0 else stamp key read_ts kvs)
  unfolding seek_lower below_lower
  stamp-seek_lower lower key kvs up = ground (
    arith,
    stamp-seek_to_key lower.key key kvs up,
    stamp-skip_key lower.key key (seek_to_key lower.key kvs)
        (seek_to_key-Ascending lower.key kvs up) (seek_to_key-AtLeast lower.key kvs up),
    key_le_total lower.key key,
    key_le_total key lower.key,
    key_eq_iff lower.key key,
    key_le_refl key,
    le_ne_lt lower.key key,
    le_ne_lt key lower.key,
  )
