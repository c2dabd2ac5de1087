-- ===== src/Tests/Scan.antt =====
-- Scans and lookups at concrete inputs.
use keyvaluedb.Prelude.{
  ℕ, ◌≤◌, ◌≡◌, refl, true, false, List, [], ◌∷◌, ◌++◌, map, max, arith, if◌then◌else◌, All,
}
use mathlib.Core.List.{Mem}
use keyvaluedb.Types.{KeyValuePair}
use keyvaluedb.Protocol.{RangeBound, unbounded}
use keyvaluedb.Tree.Keys.{key_eq, key_le}
use keyvaluedb.Table.Chunks.{concat}
use keyvaluedb.Table.Locate.{Ascending}
use keyvaluedb.Scan.{
  range_iterator, collect, find_next, best_of, better, push, push_valid, push_all, same_key,
  other_keys, advance, above_upper, is_unbounded, seek_lower, seek_to_key, skip_key,
}
use keyvaluedb.Scan.Stamps.{stamp}
use keyvaluedb.Scan.Seek.{in_range}
use keyvaluedb.Scan.Range.{range_iterator-newest}
use keyvaluedb.Scan.Prefix.{prefix_scan, starts_with, prefix_scan-newest}
use keyvaluedb.Tree.Leaf.{LeafPage, Slot, is_tombstone}
use keyvaluedb.Scan.Leaves.{
  MemLeaves, slot_pair, load, load_leaf, walk_from, walk_next, has_slot, valid, mem_source,
  seek_source, read_source, keys_meet, page_meets, copies, materialize, memtable_sources,
  range_scan,
}
use keyvaluedb.Scan.Readable.{live, ends_aborted}
use keyvaluedb.Scan.Copies.{all_live}
use keyvaluedb.Scan.Memtables.{IsScannable, mem_live, range_scan-newest}
use keyvaluedb.Tests.Table.{pair}

abbrev older : List KeyValuePair
older = pair 1 10 3 false ∷ pair 2 20 4 false ∷ pair 5 50 2 false ∷ []

abbrev newer : List KeyValuePair
newer = pair 2 21 6 false ∷ pair 3 30 9 false ∷ []

abbrev from_two : RangeBound
from_two = record { key = 2 ∷ []; inclusive = true }

-- Unfolding this computes a scan.
scan_runs : ℕ
unfolding range_iterator collect find_next best_of better push push_valid push_all same_key
    other_keys advance above_upper is_unbounded seek_lower seek_to_key skip_key unbounded key_eq
    key_le
scan_runs = 0

scan_run :
    range_iterator 5 7 from_two unbounded (older ∷ newer ∷ [])
    ≡ pair 2 21 6 false ∷ pair 5 50 2 false ∷ []
unfolding scan_runs
scan_run = refl

-- Two versions of a key in one source both come out.
scan-two_versions :
    range_iterator 2 7 unbounded unbounded ((pair 2 21 6 false ∷ pair 2 20 4 false ∷ []) ∷ [])
    ≡ pair 2 21 6 false ∷ pair 2 20 4 false ∷ []
unfolding scan_runs
scan-two_versions = refl

range_iterator-newest_example :
    Ascending (range_iterator 5 7 from_two unbounded (older ∷ newer ∷ []))
    × All
        (λ (kv : KeyValuePair). kv.timestamp ≤ 7)
        (range_iterator 5 7 from_two unbounded (older ∷ newer ∷ []))
    × All
        (λ (kv : KeyValuePair). Mem kv (concat (older ∷ newer ∷ [])))
        (range_iterator 5 7 from_two unbounded (older ∷ newer ∷ []))
    × ((key : List ℕ)
        → stamp key 7 (range_iterator 5 7 from_two unbounded (older ∷ newer ∷ [])) ≡ (
            if in_range from_two unbounded key
            then stamp key 7 (concat (older ∷ newer ∷ []))
            else 0))
unfolding concat key_le
range_iterator-newest_example =
    range_iterator-newest 5 7 from_two unbounded (older ∷ newer ∷ [])
      (((refl, (refl, tt)), ((refl, tt), (tt, tt))), (((refl, tt), (tt, tt)), tt)) (omega arith)

prefix_scan-newest_example :
    Ascending (prefix_scan 5 7 (2 ∷ []) (older ∷ newer ∷ []))
    × All (λ (kv : KeyValuePair). kv.timestamp ≤ 7) (prefix_scan 5 7 (2 ∷ []) (older ∷ newer ∷ []))
    × All
        (λ (kv : KeyValuePair). Mem kv (concat (older ∷ newer ∷ [])))
        (prefix_scan 5 7 (2 ∷ []) (older ∷ newer ∷ []))
    × (stamp (2 ∷ []) 7 (prefix_scan 5 7 (2 ∷ []) (older ∷ newer ∷ [])) ≡ (
        if starts_with (2 ∷ []) (2 ∷ [])
        then stamp (2 ∷ []) 7 (concat (older ∷ newer ∷ []))
        else 0))
unfolding concat key_le
prefix_scan-newest_example =
    prefix_scan-newest 5 7 (2 ∷ []) (2 ∷ []) (older ∷ newer ∷ [])
      (((refl, (refl, tt)), ((refl, tt), (tt, tt))), (((refl, tt), (tt, tt)), tt)) (omega arith)
      (omega arith) (omega arith)

abbrev slot : ℕ → ℕ → ℕ → Slot
slot key value timestamp = record {
  key = key ∷ [];
  value = value ∷ [];
  val_len = 1;
  timestamp = timestamp;
}

abbrev page : List Slot → LeafPage
page slots = record { slots = slots; data_start = 4000; slot_end = 100 }

-- Three pages, and the batches that were aborted
abbrev memtable : List ℕ → MemLeaves
memtable aborted = record {
  entry_count = 4;
  aborted = aborted;
  pages =
      page (slot 1 10 3 ∷ [])
      ∷ page (slot 2 20 4 ∷ slot 3 30 5 ∷ [])
      ∷ page (slot 4 40 6 ∷ [])
      ∷ [];
}

-- Unfolding this computes a scan of memtables.
mem_runs : ℕ
unfolding scan_runs is_tombstone slot_pair load load_leaf walk_from walk_next has_slot valid
    mem_source seek_source read_source keys_meet page_meets copies materialize memtable_sources
    range_scan
mem_runs = 0

range_scan_run :
    range_scan 9 9 from_two unbounded (memtable (4 ∷ []) ∷ []) ((pair 4 41 8 false ∷ []) ∷ [])
    ≡ pair 3 30 5 false ∷ pair 4 41 8 false ∷ []
unfolding mem_runs
range_scan_run = refl

-- An aborted batch wrote the last slot of the first page: the scan misses the two other pages.
range_scan-aborted_end : range_scan 9 9 unbounded unbounded (memtable (3 ∷ []) ∷ []) [] ≡ []
unfolding mem_runs
range_scan-aborted_end = refl

memtable-IsScannable : IsScannable (memtable (4 ∷ []))
unfolding key_le live ends_aborted all_live slot_pair
memtable-IsScannable = record {
  counted = λ e. ground (arith, e);
  order = ((refl, tt), ((refl, (refl, tt)), ((refl, tt), tt)));
  ends = (refl, (refl, (refl, tt)));
  up = ((refl, (refl, tt)), ((refl, tt), (tt, tt)));
}

range_scan-newest_example :
    Ascending (range_scan 9 9 from_two unbounded (memtable (4 ∷ []) ∷ []) (newer ∷ []))
    × All
        (λ (kv : KeyValuePair). kv.timestamp ≤ 9)
        (range_scan 9 9 from_two unbounded (memtable (4 ∷ []) ∷ []) (newer ∷ []))
    × All
        (λ (kv : KeyValuePair).
          Mem kv (concat (map mem_live (memtable (4 ∷ []) ∷ [])) ++ concat (newer ∷ [])))
        (range_scan 9 9 from_two unbounded (memtable (4 ∷ []) ∷ []) (newer ∷ []))
    × ((key : List ℕ)
        → stamp key 9 (range_scan 9 9 from_two unbounded (memtable (4 ∷ []) ∷ []) (newer ∷ [])) ≡ (
            if in_range from_two unbounded key
            then max
                (stamp key 9 (concat (map mem_live (memtable (4 ∷ []) ∷ []))))
                (stamp key 9 (concat (newer ∷ [])))
            else 0))
unfolding concat key_le live all_live
range_scan-newest_example =
    range_scan-newest 9 9 from_two unbounded (memtable (4 ∷ []) ∷ []) (newer ∷ [])
      (memtable-IsScannable, tt) (((refl, tt), (tt, tt)), tt) (omega arith)
