-- ===== src/Scan/Leaves.antt =====
-- The memtable's part of LSMTreeEngine::RangeScan (src/engine.cpp, `materialize`) and the class
-- MaterializedMemTableSource (include/kvdb/iterator.hpp). A chain of leaves is the list of its pages;
-- the position in a page is the list of the slots from it on.
use keyvaluedb.Prelude.{
  ℕ, zero, suc, ◌-◌, Bool, true, false, not, ◌&&◌, Option, none, some, List, [], ◌∷◌, ◌==◌, ◌++◌,
  if◌then◌else◌, contains, length, get_elem?,
}
use keyvaluedb.Types.{KeyValuePair}
use keyvaluedb.Protocol.{RangeBound}
use keyvaluedb.Tree.Keys.{key_le}
use keyvaluedb.Tree.Leaf.{LeafPage, Slot, count, is_tombstone}
use keyvaluedb.Scan.{is_unbounded, range_iterator}

-- The part of Load that fills `current_`
unfoldable pub slot_pair : Slot → KeyValuePair
slot_pair s = record {
  key = s.key;
  value = s.value;
  timestamp = s.timestamp;
  is_tombstone = is_tombstone s;
}

-- The slots from `pos_` on in the page `leaf_`, the pages behind it, and `current_`
pub record MemSource : Type 0 where
  pub here : List Slot
  pub behind : List LeafPage
  pub current : KeyValuePair

-- Load
unfoldable pub load : List ℕ → List Slot → List LeafPage → KeyValuePair → MemSource
load aborted [] behind current = record { here = []; behind = behind; current = current }
load aborted (s ∷ slots) behind current =
    let rest = load aborted slots behind current in
    if contains s.timestamp aborted
    then rest
    else record { here = s ∷ slots; behind = behind; current = slot_pair s }

-- The next page that is not empty, and Load at its first slot
unfoldable pub load_leaf : List ℕ → List LeafPage → KeyValuePair → MemSource
load_leaf aborted [] current = record { here = []; behind = []; current = current }
load_leaf aborted (p ∷ pages) current =
    let rest = load_leaf aborted pages current in
    if count p == 0 then rest else load aborted p.slots pages current

unfoldable pub walk_from : List ℕ → List Slot → List LeafPage → KeyValuePair → MemSource
walk_from aborted [] behind current = load_leaf aborted behind current
walk_from aborted (s ∷ []) behind current = load_leaf aborted behind current
walk_from aborted (s ∷ t ∷ slots) behind current = load aborted (t ∷ slots) behind current

-- WalkNext, which is Next
unfoldable pub walk_next : List ℕ → MemSource → MemSource
walk_next aborted s = walk_from aborted s.here s.behind s.current

-- Valid: a position behind the last slot has no slots from it on.
unfoldable pub has_slot : List Slot → Bool
has_slot [] = false
has_slot (s ∷ slots) = true

unfoldable pub valid : MemSource → Bool
unfolding has_slot
valid s = has_slot s.here

-- A KeyValuePair as it is made
abbrev pub new_pair : KeyValuePair
new_pair = record { key = []; value = []; timestamp = 0; is_tombstone = false }

-- The constructor
unfoldable pub mem_source : List ℕ → List LeafPage → MemSource
mem_source aborted pages = load_leaf aborted pages new_pair

-- MaterializedMemTableSource::SeekToKey, on fuel
unfoldable pub seek_source : ℕ → List ℕ → List ℕ → MemSource → MemSource
seek_source zero aborted key s = s
seek_source (suc n) aborted key s =
    let there = seek_source n aborted key (walk_next aborted s) in
    if valid s && not (key_le key s.current.key) then there else s

-- What a caller reads that calls Next as long as the source is valid, on fuel
unfoldable pub read_source : ℕ → List ℕ → MemSource → List KeyValuePair
read_source zero aborted s = []
read_source (suc n) aborted s =
    let rest = read_source n aborted (walk_next aborted s) in
    if valid s then s.current ∷ rest else []

-- Whether a page from its first to its last key meets the bounds
unfoldable pub keys_meet : RangeBound → RangeBound → List ℕ → List ℕ → Bool
keys_meet lower upper first last =
    (if is_unbounded lower
      then true
      else if lower.inclusive
      then key_le lower.key last
      else not (key_le last lower.key))
    && (if is_unbounded upper
        then true
        else if upper.inclusive
        then key_le first upper.key
        else not (key_le upper.key first))

unfoldable pub page_meets : RangeBound → RangeBound → LeafPage → Bool
page_meets lower upper p = elim (get_elem? p.slots 0) [
  | none ↦ false
  | some first ↦ elim (get_elem? p.slots (count p - 1)) [
    | none ↦ false
    | some last ↦ keys_meet lower upper first.key last.key
  ]
]

-- The pages that are copied
unfoldable pub copies : RangeBound → RangeBound → List LeafPage → List LeafPage
copies lower upper [] = []
copies lower upper (p ∷ pages) =
    let rest = copies lower upper pages in if page_meets lower upper p then p ∷ rest else rest

-- `materialize` of a memtable with its count of entries, its aborted batches and its leaves
unfoldable pub materialize :
    ℕ → RangeBound → RangeBound → ℕ → List ℕ → List LeafPage → Option MemSource
materialize fuel lower upper entry_count aborted pages =
    let copied = copies lower upper pages in
    let made = mem_source aborted copied in
    let src = if is_unbounded lower then made else seek_source fuel aborted lower.key made in
    if entry_count == 0
    then none
    else if length copied == 0
    then none
    else if valid src
    then some src
    else none

-- What the scan reads of a memtable: EntryCount, AbortedBatches and the chain of its leaves
pub record MemLeaves : Type 0 where
  pub entry_count : ℕ
  pub aborted : List ℕ
  pub pages : List LeafPage

-- The sources of the memtables, the active one first: what each is to yield
unfoldable pub memtable_sources :
    ℕ → RangeBound → RangeBound → List MemLeaves → List (List KeyValuePair)
memtable_sources fuel lower upper [] = []
memtable_sources fuel lower upper (m ∷ memtables) =
    let rest = memtable_sources fuel lower upper memtables in
    elim (materialize fuel lower upper m.entry_count m.aborted m.pages) [
      | none ↦ rest
      | some s ↦ read_source fuel m.aborted s ∷ rest
    ]

-- RangeScan at a timestamp, with the sources of the table files
unfoldable pub range_scan :
    ℕ → ℕ → RangeBound → RangeBound → List MemLeaves → List (List KeyValuePair) → List KeyValuePair
range_scan fuel read_ts lower upper memtables tables =
    range_iterator fuel read_ts lower upper (memtable_sources fuel lower upper memtables ++ tables)
