-- ===== src/Tests/Tree.antt =====
-- The pages of the tree at concrete inputs.
use keyvaluedb.Prelude.{
  ℕ, suc, ◌/◌, ◌≡◌, refl, false, not, ◌&&◌, none, some, [], ◌∷◌, arith, leb, if◌then◌else◌,
  contains, ◌>>=◌, get_elem?, drop,
}
use keyvaluedb.Tree.Keys.{key_le, key_eq}
use keyvaluedb.Tree.Leaf.{
  LeafPage, Slot, count, new_leaf, find, find_loop, lookup, lookup_from, is_tombstone, insert_at,
  insert_entry, insert_in_page, entry_slot, stored_val_len, slot_val_len, record_size, free,
}
use keyvaluedb.Tree.Search.{below, find-below}
use keyvaluedb.Tree.Lookup.{newest, answer, lookup-newest}
use keyvaluedb.Tree.Split.{
  copied_val_len, copy_entry, copy_entries, insert_either, split, separator, find_child,
  lookup_split, insert_split,
}
use keyvaluedb.Tree.Insertion.{
  WellFormed, is_large, WellFormed-insert_in_page, lookup-insert_in_page,
}
use keyvaluedb.Tree.Separated.{lookup_split-insert_split, lookup_split-straddled}
use keyvaluedb.Tree.Halves.{split-halves, halves}

-- Unfolding this computes the pages.
page_runs : ℕ
unfolding key_le key_eq new_leaf find find_loop lookup lookup_from is_tombstone insert_at
    insert_entry insert_in_page entry_slot stored_val_len slot_val_len record_size free below newest
    copied_val_len copy_entry copy_entries insert_either split separator find_child lookup_split
    insert_split
page_runs = 0

abbrev slot : ℕ → ℕ → ℕ → Slot
slot k v ts = record { key = k ∷ []; value = v ∷ []; val_len = 1; timestamp = ts }

-- Two keys, and two versions of one key.
abbrev two_keys : LeafPage
two_keys = record { slots = slot 97 1 1 ∷ slot 99 2 2 ∷ []; data_start = 4092; slot_end = 52 }

abbrev two_versions : LeafPage
two_versions = record { slots = slot 97 2 2 ∷ slot 97 1 1 ∷ []; data_start = 4092; slot_end = 52 }

abbrev three_keys : LeafPage
three_keys = record {
  slots = slot 97 1 1 ∷ slot 98 3 3 ∷ slot 99 2 2 ∷ [];
  data_start = 4090;
  slot_end = 66;
}

WellFormed-two_keys : WellFormed two_keys
unfolding page_runs
WellFormed-two_keys = ((refl, (refl, tt)), (refl, refl, omega arith))

WellFormed-two_versions : WellFormed two_versions
unfolding page_runs
WellFormed-two_versions = ((refl, (refl, tt)), (refl, refl, omega arith))

insert_three_keys : insert_in_page (98 ∷ []) (3 ∷ []) 3 false two_keys ≡ some three_keys
unfolding page_runs
insert_three_keys = refl

find-below_example : find two_keys (98 ∷ []) ≡ (
  below (98 ∷ []) two_keys.slots,
  elim (get_elem? two_keys.slots (below (98 ∷ []) two_keys.slots)) [
    | none ↦ false
    | some s ↦ key_eq (98 ∷ []) s.key
  ],
)
find-below_example = find-below two_keys (98 ∷ []) WellFormed-two_keys.0

lookup-newest_example :
    lookup two_versions [] (97 ∷ []) 1 ≡ answer (newest (97 ∷ []) [] 1 two_versions.slots)
lookup-newest_example = lookup-newest two_versions (97 ∷ []) [] 1 WellFormed-two_versions.0

WellFormed-insert_in_page_example :
    WellFormed three_keys × (count three_keys ≡ suc (count two_keys))
WellFormed-insert_in_page_example =
    WellFormed-insert_in_page (98 ∷ []) (3 ∷ []) 3 false two_keys three_keys WellFormed-two_keys
      insert_three_keys

lookup-insert_in_page_example : lookup three_keys [] (98 ∷ []) 5 ≡ (
    if key_eq (98 ∷ []) (98 ∷ []) && (not (contains 3 []) && leb 3 5)
    then (if false then none else some (3 ∷ []))
    else lookup two_keys [] (98 ∷ []) 5)
lookup-insert_in_page_example =
    lookup-insert_in_page (98 ∷ []) (3 ∷ []) 3 false two_keys three_keys (98 ∷ []) [] 5
      WellFormed-two_keys.0 insert_three_keys

-- Of two versions the one inserted last is found, though its timestamp is the smaller.
abbrev later_first : LeafPage
later_first = record { slots = slot 97 1 4 ∷ slot 97 2 9 ∷ []; data_start = 4092; slot_end = 52 }

lookup_inserted_last :
    (insert_in_page (97 ∷ []) (2 ∷ []) 9 false new_leaf >>= λ p.
    insert_in_page (97 ∷ []) (1 ∷ []) 4 false p)
    ≡ some later_first
unfolding page_runs
lookup_inserted_last = refl

lookup-later_first : lookup later_first [] (97 ∷ []) 10 ≡ some (1 ∷ [])
unfolding page_runs
lookup-later_first = refl

split-halves_example :
    ((split 2 (100 ∷ []) (4 ∷ []) 4 (is_large (4 ∷ [])) false two_keys).0.slots
      ≡ (halves 2 (entry_slot (100 ∷ []) (4 ∷ []) 4 (is_large (4 ∷ [])) false) two_keys).0)
    × ((split 2 (100 ∷ []) (4 ∷ []) 4 (is_large (4 ∷ [])) false two_keys).1.slots
        ≡ (halves 2 (entry_slot (100 ∷ []) (4 ∷ []) 4 (is_large (4 ∷ [])) false) two_keys).1)
split-halves_example =
    split-halves 2 (100 ∷ []) (4 ∷ []) 4 false two_keys (omega arith) WellFormed-two_keys.1
      (unfold page_runs in omega arith)

lookup_split-insert_split_example :
    lookup_split (insert_split (100 ∷ []) (4 ∷ []) 4 false two_keys) [] (100 ∷ []) 4 ≡ (
      if key_eq (100 ∷ []) (100 ∷ []) && (not (contains 4 []) && leb 4 4)
      then (if false then none else some (4 ∷ []))
      else lookup two_keys [] (100 ∷ []) 4)
lookup_split-insert_split_example =
    lookup_split-insert_split (100 ∷ []) (4 ∷ []) 4 false two_keys (100 ∷ []) [] 4
      WellFormed-two_keys (omega arith) (unfold page_runs in omega arith)
      (unfold page_runs in (refl, tt))

-- The version of timestamp 3 is lost to its reader.
lookup_split-straddled_example :
    lookup_split (insert_split (97 ∷ []) (3 ∷ []) 3 false two_versions) [] (97 ∷ []) 3
    ≡ answer (newest (97 ∷ []) [] 3 (drop (count two_versions / 2) two_versions.slots))
lookup_split-straddled_example =
    lookup_split-straddled (97 ∷ []) (3 ∷ []) 3 false two_versions [] 3 (slot 97 1 1)
      WellFormed-two_versions (omega arith) (unfold page_runs in omega arith)
      (unfold page_runs in omega arith) refl refl
