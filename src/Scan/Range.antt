-- ===== src/Scan/Range.antt =====
-- A range scan over sources whose keys ascend.
use keyvaluedb.Prelude.{
  ℕ, ◌+◌, ◌≤◌, max, ◌≡◌, refl, ap, ◌∙◌, ◌⊎◌, inl, inr, true, false, List, [], ◌∷◌, map, arith,
  if◌then◌else◌, Bool-cases, length, length-append, All,
}
use mathlib.Core.List.{Mem, mem-cons_self, mem-cons_of_mem}
use keyvaluedb.Types.{KeyValuePair}
use keyvaluedb.Protocol.{RangeBound}
use keyvaluedb.Tree.Keys.{key_eq, key_eq_iff}
use keyvaluedb.Table.Locate.{Ascending, All-append_left, All-append_right, All-map}
use keyvaluedb.Table.Chunks.{concat}
use keyvaluedb.Scan.{Source, seek_lower, push_valid, push_all, above_upper, collect, range_iterator}
use keyvaluedb.Scan.Stamps.{stamp, heap_stamp, total, stamp_of-ne, stamp-append}
use keyvaluedb.Scan.Heap.{
  AllSources, AllSources-push_valid, InOrder-push_valid, heap_stamp-push_valid,
}
use keyvaluedb.Scan.Rounds.{IsHeap}
use keyvaluedb.Scan.Totals.{total-push_valid}
use keyvaluedb.Scan.Newest.{Fits, collect-All, collect-Ascending, collect-stamp}
use keyvaluedb.Scan.Seek.{
  below_lower, in_range, seek_lower-All, seek_lower-Ascending, length-seek_lower, stamp-seek_lower,
}

-- The heap that the constructor fills
module _ (read_ts : ℕ) where
  heap_stamp-push_all :
      (key : List ℕ) (sources : List (List KeyValuePair)) (heap : List Source)
      → heap_stamp key read_ts (push_all sources heap)
        ≡ max (stamp key read_ts (concat sources)) (heap_stamp key read_ts heap)
  unfolding push_all concat
  heap_stamp-push_all key [] heap = unfold stamp in omega arith
  heap_stamp-push_all key (src ∷ sources) heap = omega (
    arith,
    heap_stamp-push_all key sources (push_valid src heap),
    heap_stamp-push_valid key read_ts src heap,
    stamp-append key read_ts src (concat sources),
  )

  stamp-concat_seek :
      (lower : RangeBound) (key : List ℕ) (sources : List (List KeyValuePair))
      → All Ascending sources
      → stamp key read_ts (concat (map (seek_lower lower) sources))
        ≡ (if below_lower lower key then 0 else stamp key read_ts (concat sources))
  unfolding concat
  stamp-concat_seek lower key [] up = unfold stamp in ground arith
  stamp-concat_seek lower key (src ∷ sources) up =
      let ih = stamp-concat_seek lower key sources up.1 in
      let here = stamp-seek_lower read_ts lower key src up.0 in
      rw
        (
          stamp-append key read_ts (seek_lower lower src) (concat (map (seek_lower lower) sources)),
          stamp-append key read_ts src (concat sources),
          here,
          ih,
        )
        (ground arith)

total_nil : total [] ≡ 0
unfolding total
total_nil = refl

total-push_all :
    (sources : List (List KeyValuePair)) (heap : List Source)
    → total (push_all sources heap) ≡ length (concat sources) + total heap
unfolding push_all concat
total-push_all [] heap = omega arith
total-push_all (src ∷ sources) heap = omega (
  arith,
  total-push_all sources (push_valid src heap),
  total-push_valid src heap,
  length-append src (concat sources),
)

length-concat_seek :
    (lower : RangeBound) (sources : List (List KeyValuePair))
    → length (concat (map (seek_lower lower) sources)) ≤ length (concat sources)
unfolding concat
length-concat_seek lower [] = omega arith
length-concat_seek lower (src ∷ sources) = omega (
  arith,
  length-append (seek_lower lower src) (concat (map (seek_lower lower) sources)),
  length-append src (concat sources),
  length-seek_lower lower src,
  length-concat_seek lower sources,
)

push_all-IsHeap :
    (lower : RangeBound) (sources : List (List KeyValuePair)) (heap : List Source)
    → All Ascending sources
    → IsHeap heap
    → IsHeap (push_all (map (seek_lower lower) sources) heap)
unfolding push_all
push_all-IsHeap lower [] heap up h = h
push_all-IsHeap lower (src ∷ sources) heap up h =
    push_all-IsHeap lower sources (push_valid (seek_lower lower src) heap) up.1 (record {
      order = InOrder-push_valid (seek_lower lower src) heap h.order;
      up =
          AllSources-push_valid Ascending (seek_lower lower src) heap
            (seek_lower-Ascending lower src up.0) h.up;
    })

push_all-All :
    (P : KeyValuePair → Type 0) (lower : RangeBound) (sources : List (List KeyValuePair))
    (heap : List Source)
    → All (All P) sources
    → AllSources (All P) heap
    → AllSources (All P) (push_all (map (seek_lower lower) sources) heap)
unfolding push_all
push_all-All P lower [] heap all h = h
push_all-All P lower (src ∷ sources) heap all h =
    push_all-All P lower sources (push_valid (seek_lower lower src) heap) all.1 (
      AllSources-push_valid (All P) (seek_lower lower src) heap (seek_lower-All P lower src all.0)
        h)

-- The entries of a list, and of lists put together
All-Mem_cons :
    (x : KeyValuePair) (all xs : List KeyValuePair)
    → All (λ (kv : KeyValuePair). Mem kv all) xs
    → All (λ (kv : KeyValuePair). Mem kv (x ∷ all)) xs
All-Mem_cons x all [] h = tt
All-Mem_cons x all (y ∷ xs) h = (mem-cons_of_mem x h.0, All-Mem_cons x all xs h.1)

pub All-Mem : (xs : List KeyValuePair) → All (λ (kv : KeyValuePair). Mem kv xs) xs
All-Mem [] = tt
All-Mem (x ∷ xs) = (mem-cons_self, All-Mem_cons x xs xs (All-Mem xs))

pub All-concat :
    (P : KeyValuePair → Type 0) (sources : List (List KeyValuePair))
    → All P (concat sources)
    → All (All P) sources
unfolding concat
All-concat P [] all = tt
All-concat P (src ∷ sources) all = (
  All-append_left P src (concat sources) all,
  All-concat P sources (All-append_right P src (concat sources) all),
)

Fits-out_of_range :
    (read_ts : ℕ) (upper : RangeBound) (key : List ℕ) (kvs : List KeyValuePair)
    → above_upper upper key ≡ true
    → All (Fits read_ts upper) kvs
    → stamp key read_ts kvs ≡ 0
unfolding stamp Fits
Fits-out_of_range read_ts upper key [] e all = refl
Fits-out_of_range read_ts upper key (kv ∷ kvs) e all = omega (
  arith,
  Fits-out_of_range read_ts upper key kvs e all.1,
  stamp_of-ne key read_ts kv (other (Bool-cases (key_eq kv.key key))),
)
  where
    other : (key_eq kv.key key ≡ true) ⊎ (key_eq kv.key key ≡ false) → key_eq kv.key key ≡ false
    other (inl same) = absurd (cc (ap (above_upper upper) ((key_eq_iff kv.key key).0 same)))
    other (inr ne) = ne

-- What holds of all entries of the sources holds of what is read.
pub range_iterator-All :
    (P : KeyValuePair → Type 0) (fuel read_ts : ℕ) (lower upper : RangeBound)
    (sources : List (List KeyValuePair))
    → All (All P) sources
    → All P (range_iterator fuel read_ts lower upper sources)
unfolding range_iterator
range_iterator-All P fuel read_ts lower upper sources all =
    collect-All P fuel read_ts upper (push_all (map (seek_lower lower) sources) [])
      (push_all-All P lower sources [] all tt)

-- What is read from a range iterator whose sources ascend: entries of the sources, visible and with
-- ascending keys; for each key in the range the newest visible version, and of other keys nothing.
-- As many rounds as there are entries are enough.
pub range_iterator-newest :
    (fuel read_ts : ℕ) (lower upper : RangeBound) (sources : List (List KeyValuePair))
    → All Ascending sources
    → length (concat sources) ≤ fuel
    → Ascending (range_iterator fuel read_ts lower upper sources)
      × All
          (λ (kv : KeyValuePair). kv.timestamp ≤ read_ts)
          (range_iterator fuel read_ts lower upper sources)
      × All
          (λ (kv : KeyValuePair). Mem kv (concat sources))
          (range_iterator fuel read_ts lower upper sources)
      × ((key : List ℕ)
          → stamp key read_ts (range_iterator fuel read_ts lower upper sources)
            ≡ (if in_range lower upper key then stamp key read_ts (concat sources) else 0))
unfolding range_iterator in_range
range_iterator-newest fuel read_ts lower upper sources up enough = (
  out.0,
  All-map (Fits read_ts upper) (λ (kv : KeyValuePair). kv.timestamp ≤ read_ts)
      (collect fuel read_ts upper heap) (λ x h. unfold Fits in h.0) out.1,
  collect-All (λ (kv : KeyValuePair). Mem kv (concat sources)) fuel read_ts upper heap
      (push_all-All (λ (kv : KeyValuePair). Mem kv (concat sources)) lower sources []
        (All-concat (λ (kv : KeyValuePair). Mem kv (concat sources)) sources
          (All-Mem (concat sources)))
        tt),
  λ key. elim (Bool-cases (above_upper upper key)) [
    | inl e ↦
        Fits-out_of_range read_ts upper key (collect fuel read_ts upper heap) e out.1
        ∙ (rw e (ground arith))
    | inr e ↦
        collect-stamp read_ts upper fuel heap key is_heap few e
        ∙ heap_stamp-push_all read_ts key (map (seek_lower lower) sources) []
        ∙ (rw (stamp-concat_seek read_ts lower key sources up, e)
            (unfold heap_stamp in ground arith))
  ],
)
  where
    heap : List Source
    heap = push_all (map (seek_lower lower) sources) []

    is_heap : IsHeap heap
    is_heap = push_all-IsHeap lower sources [] up (record { order = tt; up = tt })

    few : total heap ≤ fuel
    few = omega (
      arith,
      total-push_all (map (seek_lower lower) sources) [],
      length-concat_seek lower sources,
      total_nil,
    )

    out :
        Ascending (collect fuel read_ts upper heap)
        × All (Fits read_ts upper) (collect fuel read_ts upper heap)
    out = collect-Ascending read_ts upper fuel heap is_heap few
