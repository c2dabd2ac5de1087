-- ===== src/Scan/Memtables.antt =====
-- A range scan over memtables and table files.
use keyvaluedb.Prelude.{
  ℕ, ◌+◌, ◌≤◌, max, ◌≡◌, refl, sym, ap, ◌∙◌, inl, inr, true, false, Option, none, some, List, [],
  ◌∷◌, ◌++◌, map, append_assoc, arith, ◌==◌, if◌then◌else◌, Bool-cases, length, length-append, All,
  All-append,
}
use mathlib.Core.List.{Mem}
use keyvaluedb.Types.{KeyValuePair}
use keyvaluedb.Protocol.{RangeBound}
use keyvaluedb.Tree.Keys.{key_le_total}
use keyvaluedb.Tree.Leaf.{LeafPage}
use keyvaluedb.Tree.Search.{Sorted}
use keyvaluedb.Table.Locate.{Ascending, All-append_left, All-append_right}
use keyvaluedb.Table.Chunks.{concat}
use keyvaluedb.Scan.{is_unbounded, seek_lower}
use keyvaluedb.Scan.Leaves.{
  MemSource, copies, materialize, MemLeaves, memtable_sources, range_scan, read_source,
}
use keyvaluedb.Scan.Sought.{from_key, read_made, read_made-materialize}
use keyvaluedb.Scan.Copies.{
  all_live, EndsLive, readable-all_live, stamp-copies, Ascending-copies, length-copies, copies-All,
  all_live-copies-All,
}
use keyvaluedb.Scan.Stamps.{stamp, stamp-append}
use keyvaluedb.Scan.Seek.{
  below_lower, in_range, seek_lower-Ascending, seek_lower-All, length-seek_lower, stamp-seek_lower,
}
use keyvaluedb.Scan.Range.{range_iterator-newest, range_iterator-All, All-Mem, All-concat}

-- The live entries of a memtable
abbrev pub mem_live : MemLeaves → List KeyValuePair
mem_live m = all_live m.aborted m.pages

-- A memtable whose pages are in order, each ending with a live slot, that has one live version of a
-- key, and none where it counts no entries
pub record IsScannable (m : MemLeaves) : Type 0 where
  pub counted : (m.entry_count == 0) ≡ true → mem_live m ≡ []
  pub order : All (λ (p : LeafPage). Sorted p.slots) m.pages
  pub ends : EndsLive m.aborted m.pages
  pub up : Ascending (mem_live m)

-- What a memtable's source is to yield
sought : RangeBound → RangeBound → MemLeaves → List KeyValuePair
sought lower upper m = seek_lower (from_key lower) (all_live m.aborted (copies lower upper m.pages))

Ascending-sought :
    (lower upper : RangeBound) (m : MemLeaves) → IsScannable m → Ascending (sought lower upper m)
unfolding sought
Ascending-sought lower upper m h =
    seek_lower-Ascending (from_key lower) (all_live m.aborted (copies lower upper m.pages))
      (Ascending-copies lower upper m.aborted m.pages h.up)

All-sought :
    (P : KeyValuePair → Type 0) (lower upper : RangeBound) (m : MemLeaves)
    → All P (mem_live m)
    → All P (sought lower upper m)
unfolding sought
All-sought P lower upper m all =
    seek_lower-All P (from_key lower) (all_live m.aborted (copies lower upper m.pages))
      (all_live-copies-All P lower upper m.aborted m.pages all)

length-sought :
    (lower upper : RangeBound) (m : MemLeaves) → length (sought lower upper m) ≤ length (mem_live m)
unfolding sought
length-sought lower upper m = omega (
  arith,
  length-seek_lower (from_key lower) (all_live m.aborted (copies lower upper m.pages)),
  length-copies lower upper m.aborted m.pages,
)

no_entries : (kvs : List KeyValuePair) → length kvs ≤ 0 → kvs ≡ []
no_entries [] h = refl
no_entries (kv ∷ kvs) h = absurd (ground (arith, h))

read_made-sought :
    (fuel : ℕ) (lower upper : RangeBound) (m : MemLeaves)
    → IsScannable m
    → length (mem_live m) ≤ fuel
    → read_made fuel m.aborted (materialize fuel lower upper m.entry_count m.aborted m.pages)
      ≡ sought lower upper m
read_made-sought fuel lower upper m h few = elim (Bool-cases (m.entry_count == 0)) [
  | inl e ↦
      let fits = length-sought lower upper m in
      let empty = no_entries (sought lower upper m) (rw (h.counted e) at fits) in
      unfold materialize read_made in rw e (sym empty)
  | inr e ↦
      let copied =
        readable-all_live m.aborted (copies lower upper m.pages)
          (copies-All _ lower upper m.pages h.ends) in
      let fits = length-copies lower upper m.aborted m.pages in
      unfold sought in
      read_made-materialize fuel m.entry_count lower upper m.aborted m.pages e
        (omega (arith, few, fits, ap length copied))
      ∙ ap (seek_lower (from_key lower)) copied
]

not_below :
    (lower upper : RangeBound) (key : List ℕ)
    → in_range lower upper key ≡ true
    → below_lower (from_key lower) key ≡ false
unfolding in_range below_lower is_unbounded
not_below lower upper key h = ground (arith, h, key_le_total key lower.key)

stamp-sought :
    (read_ts : ℕ) (lower upper : RangeBound) (key : List ℕ) (m : MemLeaves)
    → IsScannable m
    → in_range lower upper key ≡ true
    → stamp key read_ts (sought lower upper m) ≡ stamp key read_ts (mem_live m)
unfolding sought
stamp-sought read_ts lower upper key m h inside =
    stamp-seek_lower read_ts (from_key lower) key (all_live m.aborted (copies lower upper m.pages))
      (Ascending-copies lower upper m.aborted m.pages h.up)
    ∙ (rw (not_below lower upper key inside)
        (stamp-copies read_ts lower upper m.aborted key m.pages h.order inside))

concat_append : (xs ys : List (List KeyValuePair)) → concat (xs ++ ys) ≡ concat xs ++ concat ys
unfolding concat
concat_append [] ys = refl
concat_append (x ∷ xs) ys =
    ap (λ (kvs : List KeyValuePair). x ++ kvs) (concat_append xs ys)
    ∙ sym (append_assoc x (concat xs) (concat ys))

-- What a memtable adds to the sources: nothing, or the list that is read of it
record Adds (made : List KeyValuePair) (rest sources : List (List KeyValuePair)) : Type 1 where
  each : (Q : List KeyValuePair → Type 0) → All Q rest → Q made → All Q sources
  whole : concat sources ≡ made ++ concat rest

module _ (fuel read_ts : ℕ) (lower upper : RangeBound) where
  Adds-memtable :
      (m : MemLeaves) (ms : List MemLeaves)
      → Adds
          (read_made fuel m.aborted (materialize fuel lower upper m.entry_count m.aborted m.pages))
          (memtable_sources fuel lower upper ms)
          (memtable_sources fuel lower upper (m ∷ ms))
  unfolding memtable_sources read_made concat
  Adds-memtable m ms = of (materialize fuel lower upper m.entry_count m.aborted m.pages)
    where
      of :
          (made : Option MemSource)
          → Adds (read_made fuel m.aborted made) (memtable_sources fuel lower upper ms) (elim made [
            | none ↦ memtable_sources fuel lower upper ms
            | some s ↦ read_source fuel m.aborted s ∷ memtable_sources fuel lower upper ms
          ])
      of none = record { each = λ Q all made. all; whole = refl }
      of (some s) = record { each = λ Q all made. (made, all); whole = refl }

  -- The sources of memtables ascend and hold what is live in the range.
  record Holds (ms : List MemLeaves) : Type 0 where
    up : All Ascending (memtable_sources fuel lower upper ms)
    few : length (concat (memtable_sources fuel lower upper ms)) ≤ length (concat (map mem_live ms))
    stamps :
        (key : List ℕ)
        → in_range lower upper key ≡ true
        → stamp key read_ts (concat (memtable_sources fuel lower upper ms))
          ≡ stamp key read_ts (concat (map mem_live ms))

  Holds-memtables :
      (ms : List MemLeaves)
      → All IsScannable ms
      → length (concat (map mem_live ms)) ≤ fuel
      → Holds ms
  unfolding concat
  Holds-memtables [] h few =
      unfold memtable_sources in record { up = tt; few = omega arith; stamps = λ key inside. refl }
  Holds-memtables (m ∷ ms) h few =
      let all = length-append (mem_live m) (concat (map mem_live ms)) in
      let ih = Holds-memtables ms h.1 (omega (arith, few, all)) in
      let adds = Adds-memtable m ms in
      let read = read_made-sought fuel lower upper m h.0 (omega (arith, few, all)) in
      let rest = concat (memtable_sources fuel lower upper ms) in
      let whole = adds.whole ∙ ap (λ (kvs : List KeyValuePair). kvs ++ rest) read in
      record {
        up = adds.each Ascending ih.up (rw read (Ascending-sought lower upper m h.0));
        few = omega (
          arith,
          ap length whole,
          length-append (sought lower upper m) rest,
          ih.few,
          all,
          length-sought lower upper m,
        );
        stamps = λ key inside.
            ap (stamp key read_ts) whole
            ∙ omega (
              arith,
              stamp-append key read_ts (sought lower upper m) rest,
              stamp-append key read_ts (mem_live m) (concat (map mem_live ms)),
              stamp-sought read_ts lower upper key m h.0 inside,
              ih.stamps key inside,
            );
      }

  -- What holds of all that is live in the memtables holds of their sources.
  All-memtables :
      (P : KeyValuePair → Type 0) (ms : List MemLeaves)
      → All IsScannable ms
      → length (concat (map mem_live ms)) ≤ fuel
      → All P (concat (map mem_live ms))
      → All (All P) (memtable_sources fuel lower upper ms)
  unfolding concat
  All-memtables P [] h few all = unfold memtable_sources in tt
  All-memtables P (m ∷ ms) h few all =
      let long = length-append (mem_live m) (concat (map mem_live ms)) in
      let later = All-append_right P (mem_live m) (concat (map mem_live ms)) all in
      let read = read_made-sought fuel lower upper m h.0 (omega (arith, few, long)) in
      let here = All-sought P lower upper m (All-append_left P (mem_live m) _ all) in
      (Adds-memtable m ms).each (All P) (All-memtables P ms h.1 (omega (arith, few, long)) later)
        (rw read here)

-- What is read from a range scan, where each memtable has its pages in order, each ending with a slot
-- of no aborted batch, and one live version of a key, none where it counts no entries, and the sources
-- of the table files ascend: live entries of the pages, with their values and flags, and entries of the
-- sources, visible and with ascending keys; of each key in the range the newest visible version among
-- all of these, and of other keys nothing. That the scan copies only the pages that meet the bounds
-- and seeks in them loses nothing, and as many rounds as there are entries are enough.
pub range_scan-newest :
    (fuel read_ts : ℕ) (lower upper : RangeBound) (memtables : List MemLeaves)
    (tables : List (List KeyValuePair))
    → All IsScannable memtables
    → All Ascending tables
    → length (concat (map mem_live memtables)) + length (concat tables) ≤ fuel
    → Ascending (range_scan fuel read_ts lower upper memtables tables)
      × All
          (λ (kv : KeyValuePair). kv.timestamp ≤ read_ts)
          (range_scan fuel read_ts lower upper memtables tables)
      × All
          (λ (kv : KeyValuePair). Mem kv (concat (map mem_live memtables) ++ concat tables))
          (range_scan fuel read_ts lower upper memtables tables)
      × ((key : List ℕ)
          → stamp key read_ts (range_scan fuel read_ts lower upper memtables tables) ≡ (
              if in_range lower upper key
              then max
                  (stamp key read_ts (concat (map mem_live memtables)))
                  (stamp key read_ts (concat tables))
              else 0))
unfolding range_scan
range_scan-newest fuel read_ts lower upper memtables tables scannable up enough =
    let held =
      Holds-memtables fuel read_ts lower upper memtables scannable (omega (arith, enough)) in
    let sources = memtable_sources fuel lower upper memtables in
    let whole = concat_append sources tables in
    let scan =
      range_iterator-newest fuel read_ts lower upper (sources ++ tables)
        (All-append Ascending sources tables held.up up)
        (omega (
          arith,
          enough,
          ap length whole,
          length-append (concat sources) (concat tables),
          held.few,
        )) in
    let entries = concat (map mem_live memtables) ++ concat tables in
    let IsEntry : KeyValuePair → Type 0 = λ (kv : KeyValuePair). Mem kv entries in
    let all = All-Mem entries in
    let from_memtables =
      All-append_left IsEntry (concat (map mem_live memtables)) (concat tables) all in
    let from_tables =
      All-append_right IsEntry (concat (map mem_live memtables)) (concat tables) all in
    (
      scan.0,
      scan.1,
      range_iterator-All IsEntry fuel read_ts lower upper (sources ++ tables) (
          All-append (All IsEntry) sources tables
            (All-memtables fuel read_ts lower upper IsEntry memtables scannable
              (omega (arith, enough)) from_memtables)
            (All-concat IsEntry tables from_tables)),
      λ key. scan.3 key ∙ (elim (Bool-cases (in_range lower upper key)) [
        | inl e ↦ rw e (
            ap (stamp key read_ts) whole
            ∙ stamp-append key read_ts (concat sources) (concat tables)
            ∙ ap (λ (n : ℕ). max n (stamp key read_ts (concat tables))) (held.stamps key e))
        | inr e ↦ rw e refl
      ]),
    )
