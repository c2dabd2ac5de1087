-- ===== src/Scan/Sought.antt =====
-- What is read of a memtable whose pages a scan copied and sought in.
use keyvaluedb.Prelude.{
  ℕ, ◌≤◌, ◌≡◌, refl, sym, ap, ◌∙◌, inl, inr, true, false, Option, none, some, List, [], ◌∷◌, ◌==◌,
  if◌then◌else◌, length, arith, Bool-cases,
}
use keyvaluedb.Types.{KeyValuePair}
use keyvaluedb.Protocol.{RangeBound}
use keyvaluedb.Tree.Leaf.{LeafPage}
use keyvaluedb.Scan.{is_unbounded, seek_to_key, seek_lower}
use keyvaluedb.Scan.Seek.{length-seek_lower}
use keyvaluedb.Scan.Leaves.{
  MemSource, new_pair, load_leaf, valid, mem_source, seek_source, read_source, copies, materialize,
}
use keyvaluedb.Scan.Readable.{
  readable, remaining, Loaded, Loaded-load_leaf, remaining-load_leaf, read_source-remaining,
  seek_source-remaining, Loaded-seek_source, filled,
}

-- The bound that is sought in a memtable: a scan leaves out the key of an exclusive bound later.
abbrev pub from_key : RangeBound → RangeBound
from_key lower = record { key = lower.key; inclusive = true }

seek_source-seek_lower :
    (fuel : ℕ) (lower : RangeBound) (aborted : List ℕ) (s : MemSource)
    → Loaded aborted s
    → length (remaining aborted s) ≤ fuel
    → remaining aborted (if is_unbounded lower then s else seek_source fuel aborted lower.key s)
      ≡ seek_lower (from_key lower) (remaining aborted s)
unfolding seek_lower is_unbounded
seek_source-seek_lower fuel lower aborted s at few = elim (Bool-cases (length lower.key == 0)) [
  | inl e ↦ rw e refl
  | inr e ↦ rw e (seek_source-remaining aborted fuel lower.key s at few)
]

Loaded-sought :
    (fuel : ℕ) (lower : RangeBound) (aborted : List ℕ) (s : MemSource)
    → Loaded aborted s
    → Loaded aborted (if is_unbounded lower then s else seek_source fuel aborted lower.key s)
Loaded-sought fuel lower aborted s at = elim (Bool-cases (is_unbounded lower)) [
  | inl e ↦ rw e at
  | inr e ↦ rw e (Loaded-seek_source aborted fuel lower.key s at)
]

-- What is read from a source that may be missing
unfoldable pub read_made : ℕ → List ℕ → Option MemSource → List KeyValuePair
read_made fuel aborted none = []
read_made fuel aborted (some s) = read_source fuel aborted s

read_made-valid :
    (fuel : ℕ) (aborted : List ℕ) (s : MemSource)
    → Loaded aborted s
    → length (remaining aborted s) ≤ fuel
    → read_made fuel aborted (if valid s then some s else none) ≡ remaining aborted s
unfolding read_made
read_made-valid fuel aborted s at few = elim (Bool-cases (valid s)) [
  | inl v ↦ rw v (read_source-remaining aborted fuel s at few)
  | inr v ↦ rw v (sym (unfold remaining in rw v refl))
]

-- What is read of the pages that were copied
read_made-copied :
    (fuel : ℕ) (lower : RangeBound) (aborted : List ℕ) (copied : List LeafPage)
    → length (readable aborted copied) ≤ fuel
    → read_made fuel aborted (
        let made = mem_source aborted copied in
        let src = if is_unbounded lower then made else seek_source fuel aborted lower.key made in
        if length copied == 0 then none else if valid src then some src else none)
      ≡ seek_lower (from_key lower) (readable aborted copied)
unfolding mem_source readable seek_lower seek_to_key read_made
read_made-copied fuel lower aborted [] few = elim (Bool-cases (is_unbounded (from_key lower))) [
  | inl e ↦ rw e refl
  | inr e ↦ rw e refl
]
read_made-copied fuel lower aborted (p ∷ copied) few =
    let made = load_leaf aborted (p ∷ copied) new_pair in
    let left = remaining-load_leaf aborted (p ∷ copied) new_pair in
    let at = Loaded-load_leaf aborted (p ∷ copied) new_pair in
    let sought =
      seek_source-seek_lower fuel lower aborted made at (rw left few)
      ∙ ap (seek_lower (from_key lower)) left in
    let fits = length-seek_lower (from_key lower) (readable aborted (p ∷ copied)) in
    rw (filled p copied) (
      read_made-valid fuel aborted _ (Loaded-sought fuel lower aborted made at)
        (omega (arith, few, fits, ap length sought))
      ∙ sought)

pub read_made-materialize :
    (fuel entry_count : ℕ) (lower upper : RangeBound) (aborted : List ℕ) (pages : List LeafPage)
    → (entry_count == 0) ≡ false
    → length (readable aborted (copies lower upper pages)) ≤ fuel
    → read_made fuel aborted (materialize fuel lower upper entry_count aborted pages)
      ≡ seek_lower (from_key lower) (readable aborted (copies lower upper pages))
unfolding materialize
read_made-materialize fuel entry_count lower upper aborted pages counted few =
    rw counted (read_made-copied fuel lower aborted (copies lower upper pages) few)
