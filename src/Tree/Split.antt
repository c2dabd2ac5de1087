-- ===== src/Tree/Split.antt =====
-- The split of a leaf page by SplitCoW in include/kvdb/bptree.hpp, up to the two leaves and their
-- separator, and the choice of FindChild between the two.
use keyvaluedb.Prelude.{
  ℕ, ◌+◌, ◌-◌, ◌/◌, Bool, Option, none, some, List, [], ◌∷◌, ltb, ◌==◌, if◌then◌else◌, length,
  get_elem?, take, drop,
}
use keyvaluedb.Tree.Keys.{key_le}
use keyvaluedb.Tree.Leaf.{
  LeafPage, Slot, new_leaf, slot_size, record_size, count, find, lookup, is_tombstone, insert_at,
  insert_entry, page_size, slot_val_len, large_val_flag, free,
}

-- The field that CopyEntry stores: the length, or eight by a blob's flag, and the tombstone's bit.
unfoldable pub copied_val_len : Slot → ℕ
unfolding slot_val_len is_tombstone
copied_val_len s =
    let is_blob = slot_val_len s == large_val_flag in
    if is_tombstone s
    then (if is_blob then 0xFFFF else slot_val_len s + 0x8000)
    else (if is_blob then large_val_flag else slot_val_len s)

-- CopyEntry to the end of a page; a record without room is dropped.
unfoldable pub copy_entry : Slot → LeafPage → LeafPage
unfolding free copied_val_len record_size insert_at
copy_entry s dst = if ltb (free dst) (record_size s + slot_size) then dst else (record {
  slots = insert_at (count dst) (record s { val_len = copied_val_len s }) dst.slots;
  data_start = dst.data_start - record_size s;
  slot_end = dst.slot_end + slot_size;
})

-- A loop of CopyEntry
unfoldable pub copy_entries : List Slot → LeafPage → LeafPage
unfolding copy_entry
copy_entries [] dst = dst
copy_entries (s ∷ slots) dst = copy_entries slots (copy_entry s dst)

-- `a || b`, on the pages: the second page takes the record at its end where the first has no room.
-- Where neither has room the record is dropped.
unfoldable pub insert_either :
    ℕ → List ℕ → List ℕ → ℕ → Bool → Bool → LeafPage → LeafPage → LeafPage × LeafPage
unfolding insert_entry
insert_either pos key value ts large tomb first second =
    elim (insert_entry pos key value ts large tomb first) [
      | some first' ↦ (first', second)
      | none ↦ elim (insert_entry (count second) key value ts large tomb second) [
        | some second' ↦ (first, second')
        | none ↦ (first, second)
      ]
    ]

-- The left and the right page
unfoldable pub split : ℕ → List ℕ → List ℕ → ℕ → Bool → Bool → LeafPage → LeafPage × LeafPage
unfolding copy_entries insert_either new_leaf
split pos key value ts large tomb leaf =
    let mid = count leaf / 2 in
    let left = copy_entries (take mid leaf.slots) new_leaf in
    let right = copy_entries (drop mid leaf.slots) new_leaf in
    if ltb pos mid
    then insert_either pos key value ts large tomb left right
    else (let (right', left') = insert_either (pos - mid) key value ts large tomb right left in
        (left', right'))

-- The right page's first key. A right page without slots, whose slot the source reads all the same,
-- has the empty one.
unfoldable pub separator : LeafPage → List ℕ
separator right = elim (get_elem? right.slots 0) [ none ↦ [] | some s ↦ s.key ]

-- FindChild at a node with one key: the child is the right one where the key is not below it.
unfoldable pub find_child : List ℕ → List ℕ → LeafPage × LeafPage → LeafPage
find_child sep key leaves = if key_le sep key then leaves.1 else leaves.0

-- Lookup in the two leaves below their separator
unfoldable pub lookup_split : LeafPage × LeafPage → List ℕ → List ℕ → ℕ → Option (List ℕ)
unfolding find_child separator lookup
lookup_split leaves aborted key read_ts =
    lookup (find_child (separator leaves.1) key leaves) aborted key read_ts

-- Insert where the record has no room in the copied page
unfoldable pub insert_split : List ℕ → List ℕ → ℕ → Bool → LeafPage → LeafPage × LeafPage
unfolding split find
insert_split key value timestamp tomb leaf =
    split (find leaf key).0 key value timestamp (ltb (page_size / 2) (length value)) tomb leaf
