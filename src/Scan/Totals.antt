-- ===== src/Scan/Totals.antt =====
-- Counting the entries of a heap, and what is visible of its current ones.
use keyvaluedb.Prelude.{
  ℕ, ◌+◌, ◌≡◌, refl, sym, ◌∙◌, inl, inr, true, false, Option, none, some, List, [], ◌∷◌, arith,
  Bool-cases, length,
}
use keyvaluedb.Types.{KeyValuePair}
use keyvaluedb.Protocol.{RangeBound}
use keyvaluedb.Tree.Keys.{key_le, key_eq, key_eq_iff, key_le_total, key_le_trans}
use keyvaluedb.Table.Locate.{key_lt, lt_ne, Others}
use keyvaluedb.Scan.{Source, push, push_valid, same_key, other_keys, advance, best_of, above_upper}
use keyvaluedb.Scan.Stamps.{
  stamp, heap_stamp, total, AllOf, currents, stamp-Others, stamp_of-ne, best_stamp, best_of-AllOf,
  Visible,
}
use keyvaluedb.Scan.Heap.{whole, AllSources, Above}

total-push : (s : Source) (heap : List Source) → total (push s heap) ≡ total (s ∷ heap)
unfolding total push
total-push s [] = refl
total-push s (t ∷ heap) = elim (Bool-cases (key_le t.current.key s.current.key)) [
  | inl e ↦ rw e (omega (arith, total-push s heap))
  | inr e ↦ rw e refl
]

pub total-push_valid :
    (source : List KeyValuePair) (heap : List Source)
    → total (push_valid source heap) ≡ length source + total heap
unfolding push_valid
total-push_valid [] heap = omega arith
total-push_valid (kv ∷ kvs) heap = total-push _ heap ∙ unfold total in omega arith

pub total-advance :
    (same heap : List Source) → total (advance same heap) + length same ≡ total same + total heap
unfolding total advance
total-advance [] heap = omega arith
total-advance (s ∷ same) heap =
    omega (arith, total-advance same (push_valid s.later heap), total-push_valid s.later heap)

pub total-same_key :
    (k : List ℕ) (heap : List Source)
    → total (same_key k heap) + total (other_keys k heap) ≡ total heap
unfolding total same_key other_keys
total-same_key k [] = omega arith
total-same_key k (s ∷ heap) = elim (Bool-cases (key_eq s.current.key k)) [
  | inl e ↦ rw e (omega (arith, total-same_key k heap))
  | inr e ↦ rw e (omega arith)
]

pub above_upper-lt :
    (upper : RangeBound) (k key : List ℕ)
    → above_upper upper k ≡ true
    → above_upper upper key ≡ false
    → key_lt key k ≡ true
unfolding above_upper
above_upper-lt upper k key above below =
    ground (
      arith,
      key_le_trans k key upper.key,
      key_le_total upper.key key,
      key_le_trans upper.key k key,
    )

pub Others-Above : (k : List ℕ) (kvs : List KeyValuePair) → Above k kvs → Others k kvs
Others-Above k [] all = tt
Others-Above k (x ∷ kvs) all = (lt_ne k x.key all.0, Others-Above k kvs all.1)

pub heap_stamp-Above :
    (key : List ℕ) (read_ts : ℕ) (heap : List Source)
    → AllSources (Above key) heap
    → heap_stamp key read_ts heap ≡ 0
unfolding heap_stamp
heap_stamp-Above key read_ts [] all = refl
heap_stamp-Above key read_ts (s ∷ heap) all = omega (
  arith,
  stamp-Others key read_ts (whole s) (Others-Above key (whole s) all.0),
  heap_stamp-Above key read_ts heap all.1,
)

Others-AllOf :
    (k key : List ℕ) (same : List Source)
    → key_eq k key ≡ false
    → AllOf k same
    → Others key (currents same)
unfolding currents
Others-AllOf k key [] ne all = tt
Others-AllOf k key (s ∷ same) ne all =
    (rw ((key_eq_iff s.current.key k).0 all.0) ne, Others-AllOf k key same ne all.1)

best_stamp-ne :
    (k key : List ℕ) (read_ts : ℕ) (best : Option KeyValuePair)
    → key_eq k key ≡ false
    → Visible k read_ts best
    → best_stamp key read_ts best ≡ 0
unfolding best_stamp Visible
best_stamp-ne k key read_ts none ne v = refl
best_stamp-ne k key read_ts (some kv) ne v =
    stamp_of-ne key read_ts kv (rw ((key_eq_iff kv.key k).0 v.0) ne)

-- What is visible of any key among the current entries of one key
pub best_of-stamp :
    (k key : List ℕ) (read_ts : ℕ) (same : List Source)
    → AllOf k same
    → stamp key read_ts (currents same) ≡ best_stamp key read_ts (best_of read_ts none same)
best_of-stamp k key read_ts same all =
    let found = best_of-AllOf k read_ts none same (unfold Visible in tt) all in
    elim (Bool-cases (key_eq k key)) [
      | inl e ↦ rw (← (key_eq_iff k key).0 e) (unfold best_stamp in omega (arith, found.1))
      | inr e ↦
          stamp-Others key read_ts (currents same) (Others-AllOf k key same e all)
          ∙ sym (best_stamp-ne k key read_ts _ e found.0)
    ]
