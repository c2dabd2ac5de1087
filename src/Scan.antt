-- ===== src/Scan.antt =====
-- The class RangeIterator (include/kvdb/iterator.hpp). A source is the list of the entries that its
-- iterator is still to yield. The priority queue is kept as a list in its order, of the sources that
-- are valid: an index into the sources stands here as the source itself.
pub mod Stamps
pub mod Heap
pub mod Totals
pub mod Rounds
pub mod Newest
pub mod Seek
pub mod Range
pub mod Prefix
pub mod Leaves
pub mod Readable
pub mod Sought
pub mod Copies
pub mod Memtables
use keyvaluedb.Prelude.{
  ℕ, zero, suc, ◌+◌, ◌-◌, ◌*◌, ◌/◌, ◌%◌, ◌^◌, ◌≤◌, ◌<◌, min, max, ◌≡◌, refl, sym, ap, ◌∙◌, ◌≢◌, ◌↔◌,
  ◌⊎◌, inl, inr, Bool, true, false, not, ◌&&◌, ◌||◌, Option, none, some, List, [], ◌∷◌, ◌++◌, map,
  append-nil, append_assoc, arith, ltb, leb, ◌==◌, if◌then◌else◌, ltb→lt, lt→ltb, leb→le, ==_iff,
  tests, Bool-cases, Option-cases, contains, insert, erase, contains-insert, contains-erase, ◌>>=◌,
  ◌>>◌, guard, >>=-eq-some, length, get_elem?, get_or, set, take, drop, length-append, length-set,
  get_or-set_self, get_or-set_ne, take-append-drop, All, All-append,
}
use keyvaluedb.Types.{KeyValuePair}
use keyvaluedb.Protocol.{RangeBound}
use keyvaluedb.Tree.Keys.{key_le, key_eq}

-- IsUnbounded
unfoldable pub is_unbounded : RangeBound → Bool
is_unbounded b = length b.key == 0

-- SourceIterator::SeekToKey
unfoldable pub seek_to_key : List ℕ → List KeyValuePair → List KeyValuePair
seek_to_key key [] = []
seek_to_key key (kv ∷ kvs) =
    let rest = seek_to_key key kvs in if key_le key kv.key then kv ∷ kvs else rest

-- The loop of the constructor that leaves out the key of an exclusive lower bound
unfoldable pub skip_key : List ℕ → List KeyValuePair → List KeyValuePair
skip_key key [] = []
skip_key key (kv ∷ kvs) =
    let rest = skip_key key kvs in if key_eq kv.key key then rest else kv ∷ kvs

unfoldable pub seek_lower : RangeBound → List KeyValuePair → List KeyValuePair
seek_lower lower source =
    if is_unbounded lower
    then source
    else let there = seek_to_key lower.key source in
      if lower.inclusive then there else skip_key lower.key there

-- A valid source: its Current(), and what follows
pub record Source : Type 0 where
  pub current : KeyValuePair
  pub later : List KeyValuePair

-- HeapCmp orders by the current keys.
unfoldable pub push : Source → List Source → List Source
push s [] = s ∷ []
push s (t ∷ heap) =
    let rest = push s heap in if key_le t.current.key s.current.key then t ∷ rest else s ∷ t ∷ heap

-- A source goes into the heap where it is valid.
unfoldable pub push_valid : List KeyValuePair → List Source → List Source
push_valid [] heap = heap
push_valid (kv ∷ kvs) heap = push (record { current = kv; later = kvs }) heap

unfoldable pub push_all : List (List KeyValuePair) → List Source → List Source
push_all [] heap = heap
push_all (source ∷ sources) heap = push_all sources (push_valid source heap)

-- The sources that the inner loop takes off the heap
unfoldable pub same_key : List ℕ → List Source → List Source
same_key key [] = []
same_key key (s ∷ heap) =
    let rest = same_key key heap in if key_eq s.current.key key then s ∷ rest else []

-- What it leaves there
unfoldable pub other_keys : List ℕ → List Source → List Source
other_keys key [] = []
other_keys key (s ∷ heap) =
    let rest = other_keys key heap in if key_eq s.current.key key then rest else s ∷ heap

-- A round of the loop that looks for the newest visible version, with the best so far
unfoldable pub better : ℕ → Option KeyValuePair → KeyValuePair → Option KeyValuePair
better read_ts none e = if leb e.timestamp read_ts then some e else none
better read_ts (some best) e =
    if leb e.timestamp read_ts && ltb best.timestamp e.timestamp then some e else some best

unfoldable pub best_of : ℕ → Option KeyValuePair → List Source → Option KeyValuePair
best_of read_ts best [] = best
best_of read_ts best (s ∷ same) = best_of read_ts (better read_ts best s.current) same

-- Next of each, and back into the heap
unfoldable pub advance : List Source → List Source → List Source
advance [] heap = heap
advance (s ∷ same) heap = advance same (push_valid s.later heap)

unfoldable pub above_upper : RangeBound → List ℕ → Bool
above_upper upper key =
    not (is_unbounded upper)
    && (if upper.inclusive then not (key_le key upper.key) else key_le upper.key key)

-- The rounds of FindNext, on fuel: `current_` where the iterator is valid, and the heap
unfoldable pub find_next : ℕ → ℕ → RangeBound → List Source → Option KeyValuePair × List Source
find_next zero read_ts upper heap = (none, heap)
find_next (suc n) read_ts upper [] = (none, [])
find_next (suc n) read_ts upper (s ∷ heap) =
    let key = s.current.key in
    let same = s ∷ same_key key heap in
    let left = advance same (other_keys key heap) in
    let again = find_next n read_ts upper left in
    if above_upper upper key
    then (none, heap)
    else elim (best_of read_ts none same) [ some kv ↦ (some kv, left) | none ↦ again ]

-- What a caller reads that calls Next as long as the iterator is valid, on fuel
unfoldable pub collect : ℕ → ℕ → RangeBound → List Source → List KeyValuePair
collect zero read_ts upper heap = []
collect (suc n) read_ts upper heap =
    let found = find_next (suc n) read_ts upper heap in
    let rest = collect n read_ts upper found.1 in elim found.0 [ none ↦ [] | some kv ↦ kv ∷ rest ]

-- The constructor, and then the iteration
unfoldable pub range_iterator :
    ℕ → ℕ → RangeBound → RangeBound → List (List KeyValuePair) → List KeyValuePair
range_iterator fuel read_ts lower upper sources =
    collect fuel read_ts upper (push_all (map (seek_lower lower) sources) [])
