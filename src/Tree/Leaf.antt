-- ===== src/Tree/Leaf.antt =====
-- Leaf pages (BPlusTree::LeafPage in include/kvdb/bptree.hpp). A slot here carries the record that its
-- offset points to, and the content of its blob where it has one; the page's bytes are in the
-- numbers `data_start` and `slot_end` alone. A position is at most `count`.
use keyvaluedb.Prelude.{
  ℕ, zero, suc, ◌+◌, ◌-◌, ◌/◌, ◌%◌, ◌^◌, Bool, true, false, Option, none, some, List, [], ◌∷◌,
  length, get_elem?, drop, ltb, leb, ◌==◌, not, ◌&&◌, contains, if◌then◌else◌,
}
use keyvaluedb.Tree.Keys.{key_le, key_eq}

abbrev pub page_size : ℕ
page_size = 4096

abbrev pub large_val_flag : ℕ
large_val_flag = 0x7FFF

abbrev pub slot_size : ℕ
slot_size = 14

abbrev pub slot_base : ℕ
slot_base = 24

-- `val_len` is the 16-bit field as it is stored.
pub record Slot : Type 0 where
  pub key : List ℕ
  pub value : List ℕ
  pub val_len : ℕ
  pub timestamp : ℕ

pub record LeafPage : Type 0 where
  pub slots : List Slot
  pub data_start : ℕ
  pub slot_end : ℕ

unfoldable pub new_leaf : LeafPage
new_leaf = record { slots = []; data_start = page_size; slot_end = slot_base }

abbrev pub count : LeafPage → ℕ
count p = length p.slots

-- ValLen: `v & 0x7FFF`
unfoldable pub slot_val_len : Slot → ℕ
slot_val_len s = s.val_len % 0x8000

-- IsTombstone: `v != kLargeValFlag && (v & 0x8000) != 0`, on 16 bits
unfoldable pub is_tombstone : Slot → Bool
is_tombstone s = not (s.val_len == large_val_flag) && leb 0x8000 s.val_len

-- SetSlot: `vlen | 0x8000` on a length below 0x8000
unfoldable pub stored_val_len : ℕ → Bool → ℕ
stored_val_len vlen tomb = if tomb then vlen % 0x8000 + 0x8000 else vlen

-- The bytes that a slot's record takes: a blob leaves a pointer of eight.
unfoldable pub record_size : Slot → ℕ
unfolding slot_val_len
record_size s = length s.key + (if slot_val_len s == large_val_flag then 8 else slot_val_len s)

-- Free
unfoldable pub free : LeafPage → ℕ
free p = if ltb p.slot_end p.data_start then p.data_start - p.slot_end else 0

-- The binary search of Find, between `lo` and `hi + 1`
unfoldable pub find_loop : ℕ → List Slot → List ℕ → ℕ → ℕ → ℕ
find_loop zero slots key lo end = lo
find_loop (suc fuel) slots key lo end =
    if ltb lo end
    then elim (get_elem? slots ((lo + (end - 1)) / 2)) [
      | none ↦ lo
      | some s ↦ elim (key_le key s.key) [
        | true ↦ find_loop fuel slots key lo ((lo + (end - 1)) / 2)
        | false ↦ find_loop fuel slots key ((lo + (end - 1)) / 2 + 1) end
      ]
    ]
    else lo

unfoldable pub find : LeafPage → List ℕ → ℕ × Bool
unfolding find_loop
find p key =
    let idx = find_loop (count p) p.slots key 0 (count p) in
    (idx, elim (get_elem? p.slots idx) [ none ↦ false | some s ↦ key_eq key s.key ])

-- The slots with one more at a position
unfoldable pub insert_at : ℕ → Slot → List Slot → List Slot
insert_at zero s slots = s ∷ slots
insert_at (suc pos) s [] = s ∷ []
insert_at (suc pos) s (t ∷ slots) = t ∷ insert_at pos s slots

-- The slot that InsertEntry sets
unfoldable pub entry_slot : List ℕ → List ℕ → ℕ → Bool → Bool → Slot
unfolding stored_val_len
entry_slot key value timestamp store_blob tomb = record {
  key = key;
  value = value;
  val_len = stored_val_len (if store_blob then large_val_flag else length value % 2 ^ 16) tomb;
  timestamp = timestamp;
}

-- InsertEntry; `none` where the page has no room
unfoldable pub insert_entry : ℕ → List ℕ → List ℕ → ℕ → Bool → Bool → LeafPage → Option LeafPage
unfolding free entry_slot insert_at
insert_entry pos key value timestamp store_blob tomb p =
    let rec_sz = length key + (if store_blob then 8 else length value) in
    if ltb (free p) (rec_sz + slot_size)
    then none
    else some (record {
      slots = insert_at pos (entry_slot key value timestamp store_blob tomb) p.slots;
      data_start = p.data_start - rec_sz;
      slot_end = p.slot_end + slot_size;
    })

-- The page that Insert makes where the record has room: the copy with the record at the place that
-- Find gave
unfoldable pub insert_in_page : List ℕ → List ℕ → ℕ → Bool → LeafPage → Option LeafPage
unfolding insert_entry find
insert_in_page key value timestamp tomb p =
    insert_entry (find p key).0 key value timestamp (ltb (page_size / 2) (length value)) tomb p

-- The loop of Lookup from the slot that Find gave. A tombstone ends it with `false`, as a missing
-- version does.
unfoldable pub lookup_from : List Slot → List ℕ → List ℕ → ℕ → Option (List ℕ)
unfolding is_tombstone
lookup_from [] aborted key read_ts = none
lookup_from (s ∷ slots) aborted key read_ts =
    let rest = lookup_from slots aborted key read_ts in
    if not (key_eq s.key key)
    then none
    else if contains s.timestamp aborted
    then rest
    else if leb s.timestamp read_ts
    then (if is_tombstone s then none else some s.value)
    else rest

-- Lookup in the leaf that the descent gave
unfoldable pub lookup : LeafPage → List ℕ → List ℕ → ℕ → Option (List ℕ)
unfolding lookup_from
lookup p aborted key read_ts =
    let (idx, found) = find p key in
    if found then lookup_from (drop idx p.slots) aborted key read_ts else none
