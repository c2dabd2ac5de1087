-- ===== src/Scan/Stamps.antt =====
-- The newest visible version of a key, as a number: its timestamp and one, or 0 where there is none.
use keyvaluedb.Prelude.{
  ℕ, ◌+◌, ◌≤◌, max, ◌≡◌, refl, inl, inr, true, false, ◌&&◌, Option, none, some, List, [], ◌∷◌, ◌++◌,
  arith, ltb, leb, if◌then◌else◌, leb→le, Bool-cases, length, All,
}
use keyvaluedb.Types.{KeyValuePair}
use keyvaluedb.Tree.Keys.{key_le, key_eq, key_le_total, key_le_trans}
use keyvaluedb.Table.Locate.{key_lt, Others}
use keyvaluedb.Scan.{Source, better, best_of}

-- What an entry adds to what is visible of a key
unfoldable pub stamp_of : List ℕ → ℕ → KeyValuePair → ℕ
stamp_of key read_ts kv =
    if key_eq kv.key key && leb kv.timestamp read_ts then kv.timestamp + 1 else 0

unfoldable pub stamp : List ℕ → ℕ → List KeyValuePair → ℕ
stamp key read_ts [] = 0
stamp key read_ts (kv ∷ kvs) = max (stamp_of key read_ts kv) (stamp key read_ts kvs)

unfoldable pub heap_stamp : List ℕ → ℕ → List Source → ℕ
heap_stamp key read_ts [] = 0
heap_stamp key read_ts (s ∷ heap) =
    max (stamp key read_ts (s.current ∷ s.later)) (heap_stamp key read_ts heap)

-- The entries of a heap, counted
unfoldable pub total : List Source → ℕ
total [] = 0
total (s ∷ heap) = 1 + length s.later + total heap

pub stamp_of-ne :
    (key : List ℕ) (read_ts : ℕ) (kv : KeyValuePair)
    → key_eq kv.key key ≡ false
    → stamp_of key read_ts kv ≡ 0
unfolding stamp_of
stamp_of-ne key read_ts kv h = rw h refl

pub stamp-Others :
    (key : List ℕ) (read_ts : ℕ) (kvs : List KeyValuePair)
    → Others key kvs
    → stamp key read_ts kvs ≡ 0
unfolding stamp
stamp-Others key read_ts [] h = refl
stamp-Others key read_ts (kv ∷ kvs) h =
    omega (arith, stamp_of-ne key read_ts kv h.0, stamp-Others key read_ts kvs h.1)

pub stamp-append :
    (key : List ℕ) (read_ts : ℕ) (xs ys : List KeyValuePair)
    → stamp key read_ts (xs ++ ys) ≡ max (stamp key read_ts xs) (stamp key read_ts ys)
unfolding stamp
stamp-append key read_ts [] ys = omega arith
stamp-append key read_ts (x ∷ xs) ys = omega (arith, stamp-append key read_ts xs ys)

pub lt_trans : (a b c : List ℕ) → key_lt a b ≡ true → key_lt b c ≡ true → key_lt a c ≡ true
lt_trans a b c p q = ground (
  arith,
  key_le_total a b,
  key_le_trans c a b,
  key_le_trans c b a,
  key_le_total b c,
  key_le_trans b c a,
)

pub le_lt_trans : (a b c : List ℕ) → key_le a b ≡ true → key_lt b c ≡ true → key_lt a c ≡ true
le_lt_trans a b c p q = ground (arith, key_le_trans c a b)

pub lt_le_trans : (a b c : List ℕ) → key_lt a b ≡ true → key_le b c ≡ true → key_lt a c ≡ true
lt_le_trans a b c p q = ground (arith, key_le_trans b c a)

-- The stamp of a best version so far
unfoldable pub best_stamp : List ℕ → ℕ → Option KeyValuePair → ℕ
best_stamp key read_ts none = 0
best_stamp key read_ts (some kv) = stamp_of key read_ts kv

-- The current entries of the sources are of this key.
abbrev pub AllOf : List ℕ → List Source → Type 0
AllOf key heap = All (λ (s : Source). key_eq s.current.key key ≡ true) heap

unfoldable pub currents : List Source → List KeyValuePair
currents [] = []
currents (s ∷ heap) = s.current ∷ currents heap

-- A best version so far is of the key and visible.
unfoldable pub Visible : List ℕ → ℕ → Option KeyValuePair → Type 0
Visible key read_ts none = Unit
Visible key read_ts (some kv) = (key_eq kv.key key ≡ true) × (kv.timestamp ≤ read_ts)

pub Visible-better :
    (key : List ℕ) (read_ts : ℕ) (best : Option KeyValuePair) (kv : KeyValuePair)
    → Visible key read_ts best
    → key_eq kv.key key ≡ true
    → Visible key read_ts (better read_ts best kv)
unfolding Visible better
Visible-better key read_ts none kv h e = elim (Bool-cases (leb kv.timestamp read_ts)) [
  | inl v ↦ rw v (e, leb→le kv.timestamp read_ts v)
  | inr v ↦ rw v tt
]
Visible-better key read_ts (some best) kv h e =
    elim (Bool-cases (leb kv.timestamp read_ts && ltb best.timestamp kv.timestamp)) [
      | inl v ↦ rw v (e, ground arith)
      | inr v ↦ rw v h
    ]

pub best_stamp-better :
    (key : List ℕ) (read_ts : ℕ) (best : Option KeyValuePair) (kv : KeyValuePair)
    → Visible key read_ts best
    → key_eq kv.key key ≡ true
    → best_stamp key read_ts (better read_ts best kv)
      ≡ max (best_stamp key read_ts best) (stamp_of key read_ts kv)
unfolding best_stamp better Visible stamp_of
best_stamp-better key read_ts none kv h e = ground arith
best_stamp-better key read_ts (some best) kv h e = ground arith

-- The loop ends with the newest visible version of the sources' current entries.
pub best_of-AllOf :
    (key : List ℕ) (read_ts : ℕ) (best : Option KeyValuePair) (same : List Source)
    → Visible key read_ts best
    → AllOf key same
    → Visible key read_ts (best_of read_ts best same)
      × (best_stamp key read_ts (best_of read_ts best same)
          ≡ max (best_stamp key read_ts best) (stamp key read_ts (currents same)))
unfolding best_of currents stamp
best_of-AllOf key read_ts best [] h all = (h, omega arith)
best_of-AllOf key read_ts best (s ∷ same) h all =
    let ih =
      best_of-AllOf key read_ts (better read_ts best s.current) same
        (Visible-better key read_ts best s.current h all.0) all.1 in
    (ih.0, omega (arith, ih.1, best_stamp-better key read_ts best s.current h all.0))
