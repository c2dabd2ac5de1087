-- ===== src/Scan/Heap.antt =====
-- The heap of RangeIterator: its order, and what it holds.
use keyvaluedb.Prelude.{
  ℕ, max, ◌≡◌, refl, inl, inr, true, false, List, [], ◌∷◌, arith, Bool-cases, All,
}
use keyvaluedb.Types.{KeyValuePair}
use keyvaluedb.Tree.Keys.{key_le, key_eq, key_eq_iff, key_le_total, key_le_trans, key_le_antisymm}
use keyvaluedb.Table.Locate.{key_lt, Ascending}
use keyvaluedb.Scan.{Source, push, push_valid, same_key, other_keys, advance}
use keyvaluedb.Scan.Stamps.{stamp, heap_stamp, AllOf, currents, lt_trans, lt_le_trans}

-- The entries of a source
abbrev pub whole : Source → List KeyValuePair
whole s = s.current ∷ s.later

abbrev pub Starts : List ℕ → List Source → Type 0
Starts key heap = All (λ (s : Source). key_le key s.current.key ≡ true) heap

abbrev pub InOrder : List Source → Type 0
InOrder [] = Unit
InOrder (s ∷ heap) = Starts s.current.key heap × InOrder heap

-- A predicate holds of the entries of each source.
abbrev pub AllSources : (List KeyValuePair → Type 0) → List Source → Type 0
AllSources Q heap = All (λ (s : Source). Q (whole s)) heap

abbrev pub AllLater : (List KeyValuePair → Type 0) → List Source → Type 0
AllLater Q heap = All (λ (s : Source). Q s.later) heap

-- The entries come behind the key.
abbrev pub Above : List ℕ → List KeyValuePair → Type 0
Above key kvs = All (λ (x : KeyValuePair). key_lt key x.key ≡ true) kvs

pub lt_le : (a b : List ℕ) → key_lt a b ≡ true → key_le a b ≡ true
lt_le a b h = ground (arith, key_le_total a b)

pub Starts-trans :
    (a b : List ℕ) (heap : List Source) → key_le a b ≡ true → Starts b heap → Starts a heap
Starts-trans a b [] h all = tt
Starts-trans a b (s ∷ heap) h all =
    (key_le_trans a b s.current.key h all.0, Starts-trans a b heap h all.1)

pub All-push :
    (P : Source → Type 0) (s : Source) (heap : List Source) → P s → All P heap → All P (push s heap)
unfolding push
All-push P s [] h all = (h, tt)
All-push P s (t ∷ heap) h all = elim (Bool-cases (key_le t.current.key s.current.key)) [
  | inl e ↦ rw e (all.0, All-push P s heap h all.1)
  | inr e ↦ rw e (h, all)
]

pub InOrder-push : (s : Source) (heap : List Source) → InOrder heap → InOrder (push s heap)
unfolding push
InOrder-push s [] order = (tt, tt)
InOrder-push s (t ∷ heap) order = elim (Bool-cases (key_le t.current.key s.current.key)) [
  | inl e ↦ rw e (
    All-push (λ (x : Source). key_le t.current.key x.current.key ≡ true) s heap e order.0,
    InOrder-push s heap order.1,
  )
  | inr e ↦
      let below : key_le s.current.key t.current.key ≡ true =
        ground (arith, key_le_total s.current.key t.current.key) in
      rw e ((below, Starts-trans s.current.key t.current.key heap below order.0), order)
]

pub InOrder-push_valid :
    (source : List KeyValuePair) (heap : List Source)
    → InOrder heap
    → InOrder (push_valid source heap)
unfolding push_valid
InOrder-push_valid [] heap order = order
InOrder-push_valid (kv ∷ kvs) heap order = InOrder-push _ heap order

pub AllSources-push_valid :
    (Q : List KeyValuePair → Type 0) (source : List KeyValuePair) (heap : List Source)
    → Q source
    → AllSources Q heap
    → AllSources Q (push_valid source heap)
unfolding push_valid
AllSources-push_valid Q [] heap q all = all
AllSources-push_valid Q (kv ∷ kvs) heap q all = All-push (λ (s : Source). Q (whole s)) _ heap q all

pub InOrder-advance : (same heap : List Source) → InOrder heap → InOrder (advance same heap)
unfolding advance
InOrder-advance [] heap order = order
InOrder-advance (s ∷ same) heap order =
    InOrder-advance same (push_valid s.later heap) (InOrder-push_valid s.later heap order)

pub AllSources-advance :
    (Q : List KeyValuePair → Type 0) (same heap : List Source)
    → AllLater Q same
    → AllSources Q heap
    → AllSources Q (advance same heap)
unfolding advance
AllSources-advance Q [] heap later all = all
AllSources-advance Q (s ∷ same) heap later all =
    AllSources-advance Q same (push_valid s.later heap) later.1
      (AllSources-push_valid Q s.later heap later.0 all)

module _ (key : List ℕ) (read_ts : ℕ) where
  pub heap_stamp-push :
      (s : Source) (heap : List Source)
      → heap_stamp key read_ts (push s heap)
        ≡ max (stamp key read_ts (whole s)) (heap_stamp key read_ts heap)
  unfolding push heap_stamp
  heap_stamp-push s [] = refl
  heap_stamp-push s (t ∷ heap) = elim (Bool-cases (key_le t.current.key s.current.key)) [
    | inl e ↦ rw e (omega (arith, heap_stamp-push s heap))
    | inr e ↦ rw e refl
  ]

  pub heap_stamp-push_valid :
      (source : List KeyValuePair) (heap : List Source)
      → heap_stamp key read_ts (push_valid source heap)
        ≡ max (stamp key read_ts source) (heap_stamp key read_ts heap)
  unfolding push_valid stamp
  heap_stamp-push_valid [] heap = omega arith
  heap_stamp-push_valid (kv ∷ kvs) heap = heap_stamp-push _ heap

  unfoldable pub later_stamp : List Source → ℕ
  later_stamp [] = 0
  later_stamp (s ∷ same) = max (stamp key read_ts s.later) (later_stamp same)

  pub heap_stamp-advance :
      (same heap : List Source)
      → heap_stamp key read_ts (advance same heap)
        ≡ max (later_stamp same) (heap_stamp key read_ts heap)
  unfolding advance later_stamp
  heap_stamp-advance [] heap = omega arith
  heap_stamp-advance (s ∷ same) heap =
      omega (
        arith,
        heap_stamp-advance same (push_valid s.later heap),
        heap_stamp-push_valid s.later heap,
      )

  pub heap_stamp-currents :
      (same : List Source)
      → heap_stamp key read_ts same ≡ max (stamp key read_ts (currents same)) (later_stamp same)
  unfolding heap_stamp stamp currents later_stamp
  heap_stamp-currents [] = omega arith
  heap_stamp-currents (s ∷ same) = omega (arith, heap_stamp-currents same)

  pub heap_stamp-same_key :
      (k : List ℕ) (heap : List Source)
      → heap_stamp key read_ts heap
        ≡ max
            (heap_stamp key read_ts (same_key k heap))
            (heap_stamp key read_ts (other_keys k heap))
  unfolding heap_stamp same_key other_keys
  heap_stamp-same_key k [] = omega arith
  heap_stamp-same_key k (s ∷ heap) = elim (Bool-cases (key_eq s.current.key k)) [
    | inl e ↦ rw e (omega (arith, heap_stamp-same_key k heap))
    | inr e ↦ rw e (omega arith)
  ]

pub AllOf-same_key : (k : List ℕ) (heap : List Source) → AllOf k (same_key k heap)
unfolding same_key
AllOf-same_key k [] = tt
AllOf-same_key k (s ∷ heap) = elim (Bool-cases (key_eq s.current.key k)) [
  | inl e ↦ rw e (e, AllOf-same_key k heap)
  | inr e ↦ rw e tt
]

pub All-same_key :
    (P : Source → Type 0) (k : List ℕ) (heap : List Source) → All P heap → All P (same_key k heap)
unfolding same_key
All-same_key P k [] all = tt
All-same_key P k (s ∷ heap) all = elim (Bool-cases (key_eq s.current.key k)) [
  | inl e ↦ rw e (all.0, All-same_key P k heap all.1)
  | inr e ↦ rw e tt
]

pub All-other_keys :
    (P : Source → Type 0) (k : List ℕ) (heap : List Source) → All P heap → All P (other_keys k heap)
unfolding other_keys
All-other_keys P k [] all = tt
All-other_keys P k (s ∷ heap) all = elim (Bool-cases (key_eq s.current.key k)) [
  | inl e ↦ rw e (All-other_keys P k heap all.1)
  | inr e ↦ rw e all
]

pub InOrder-other_keys :
    (k : List ℕ) (heap : List Source) → InOrder heap → InOrder (other_keys k heap)
unfolding other_keys
InOrder-other_keys k [] order = tt
InOrder-other_keys k (s ∷ heap) order = elim (Bool-cases (key_eq s.current.key k)) [
  | inl e ↦ rw e (InOrder-other_keys k heap order.1)
  | inr e ↦ rw e order
]

pub le_ne_lt : (a b : List ℕ) → key_le a b ≡ true → key_eq b a ≡ false → key_lt a b ≡ true
le_ne_lt a b le ne = elim (Bool-cases (key_le b a)) [
  | inl e ↦ absurd (cc ((key_eq_iff b a).1 (key_le_antisymm b a e le)))
  | inr e ↦ rw e refl
]

pub Above-trans :
    (a b : List ℕ) (kvs : List KeyValuePair) → key_lt a b ≡ true → Above b kvs → Above a kvs
Above-trans a b [] h all = tt
Above-trans a b (x ∷ kvs) h all = (lt_trans a b x.key h all.0, Above-trans a b kvs h all.1)

pub Above-Starts :
    (a b : List ℕ) (heap : List Source)
    → key_lt a b ≡ true
    → Starts b heap
    → AllSources Ascending heap
    → AllSources (Above a) heap
Above-Starts a b [] h starts up = tt
Above-Starts a b (s ∷ heap) h starts up =
    let here = lt_le_trans a b s.current.key h starts.0 in
    ((here, Above-trans a s.current.key s.later here up.0.0), Above-Starts a b heap h starts.1 up.1)

-- The sources that stay behind have entries of greater keys only.
pub Above-other_keys :
    (k : List ℕ) (heap : List Source)
    → Starts k heap
    → InOrder heap
    → AllSources Ascending heap
    → AllSources (Above k) (other_keys k heap)
unfolding other_keys
Above-other_keys k [] starts order up = tt
Above-other_keys k (s ∷ heap) starts order up = elim (Bool-cases (key_eq s.current.key k)) [
  | inl e ↦ rw e (Above-other_keys k heap starts.1 order.1 up.1)
  | inr e ↦
      let here = le_ne_lt k s.current.key starts.0 e in
      rw e (
        (here, Above-trans k s.current.key s.later here up.0.0),
        Above-Starts k s.current.key heap here order.0 up.1,
      )
]

-- The entries behind the current ones of sources with this key
pub Above-AllLater :
    (k : List ℕ) (same : List Source)
    → AllOf k same
    → AllSources Ascending same
    → AllLater (Above k) same
Above-AllLater k [] of_key up = tt
Above-AllLater k (s ∷ same) of_key up =
    (rw ((key_eq_iff s.current.key k).0 of_key.0) at up.0.0, Above-AllLater k same of_key.1 up.1)
