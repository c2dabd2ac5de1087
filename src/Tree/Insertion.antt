-- ===== src/Tree/Insertion.antt =====
-- An insertion into a page: what it keeps of the page's form, and what Lookup finds behind it.
use keyvaluedb.Prelude.{
  ℕ, zero, suc, ◌+◌, ◌-◌, ◌*◌, ◌/◌, ◌≤◌, ◌≡◌, refl, ap, ◌∙◌, inl, inr, Bool, true, false, not, ◌&&◌,
  Option, none, some, List, [], ◌∷◌, arith, ltb, leb, if◌then◌else◌, Bool-cases, contains, length,
}
use keyvaluedb.Tree.Keys.{key_le, key_eq}
use keyvaluedb.Tree.Leaf.{
  LeafPage, Slot, new_leaf, page_size, slot_base, slot_size, record_size, count, find, lookup,
  is_tombstone, insert_at, insert_entry, insert_in_page, entry_slot, stored_val_len, slot_val_len,
  free,
}
use keyvaluedb.Tree.Search.{Sorted, below, find-below}
use keyvaluedb.Tree.Lookup.{newest, answer, lookup-newest, newest-insert_at, SortedFrom-insert_at}

-- The bytes that the records of slots take.
abbrev pub records_size : List Slot → ℕ
records_size [] = 0
records_size (s ∷ slots) = record_size s + records_size slots

-- The slots fill the page from the front and the records from the end, and do not meet.
abbrev pub HasSpace : LeafPage → Type 0
HasSpace p =
    (p.slot_end ≡ slot_base + slot_size * count p)
    × (p.data_start + records_size p.slots ≡ page_size)
    × (p.slot_end ≤ p.data_start)

abbrev pub WellFormed : LeafPage → Type 0
WellFormed p = Sorted p.slots × HasSpace p

-- A value goes to a blob where it is longer than half a page.
abbrev pub is_large : List ℕ → Bool
is_large value = ltb (page_size / 2) (length value)

pub is_tombstone-entry_slot :
    (key value : List ℕ) (ts : ℕ) (tomb : Bool)
    → is_tombstone (entry_slot key value ts (is_large value) tomb) ≡ tomb
unfolding is_tombstone entry_slot stored_val_len
is_tombstone-entry_slot key value ts tomb = elim (Bool-cases (is_large value)) [
  | inl e ↦ rw e (ground arith)
  | inr e ↦ rw e (ground arith)
]

pub record_size-entry_slot :
    (key value : List ℕ) (ts : ℕ) (tomb : Bool)
    → record_size (entry_slot key value ts (is_large value) tomb)
      ≡ length key + (if is_large value then 8 else length value)
unfolding record_size entry_slot stored_val_len slot_val_len
record_size-entry_slot key value ts tomb = elim (Bool-cases (is_large value)) [
  | inl e ↦ rw e (ground arith)
  | inr e ↦ rw e (ground arith)
]

pub length-insert_at :
    (pos : ℕ) (s : Slot) (slots : List Slot) → length (insert_at pos s slots) ≡ suc (length slots)
unfolding insert_at
length-insert_at zero s slots = refl
length-insert_at (suc pos) s [] = refl
length-insert_at (suc pos) s (t ∷ slots) = ap suc (length-insert_at pos s slots)

pub records_size-insert_at :
    (pos : ℕ) (s : Slot) (slots : List Slot)
    → records_size (insert_at pos s slots) ≡ record_size s + records_size slots
unfolding insert_at
records_size-insert_at zero s slots = refl
records_size-insert_at (suc pos) s [] = refl
records_size-insert_at (suc pos) s (t ∷ slots) = omega (arith, records_size-insert_at pos s slots)

-- The page that an insertion makes.
pub insert_entry-some :
    (pos : ℕ) (key value : List ℕ) (ts : ℕ) (blob tomb : Bool) (p q : LeafPage)
    → insert_entry pos key value ts blob tomb p ≡ some q
    → (q.slots ≡ insert_at pos (entry_slot key value ts blob tomb) p.slots)
      × (q.data_start ≡ p.data_start - (length key + (if blob then 8 else length value)))
      × (q.slot_end ≡ p.slot_end + slot_size)
      × (length key + (if blob then 8 else length value) + slot_size ≤ free p)
unfolding insert_entry
insert_entry-some pos key value ts blob tomb p q h = ground (arith, h)

pub WellFormed-new_leaf : WellFormed new_leaf
unfolding new_leaf
WellFormed-new_leaf = (tt, (refl, refl, omega arith))

pub space-taken :
    (slot_end data_start n rs c : ℕ)
    → slot_end ≡ slot_base + slot_size * c
    → data_start + rs ≡ page_size
    → n + slot_size ≤ (if ltb slot_end data_start then data_start - slot_end else 0)
    → (slot_end + slot_size ≡ slot_base + slot_size * suc c)
      × (data_start - n + (n + rs) ≡ page_size)
      × (slot_end + slot_size ≤ data_start - n)
space-taken slot_end data_start n rs c p q r = ground arith

pub HasSpace-insert_entry :
    (pos : ℕ) (key value : List ℕ) (ts : ℕ) (tomb : Bool) (p q : LeafPage)
    → HasSpace p
    → insert_entry pos key value ts (is_large value) tomb p ≡ some q
    → HasSpace q
unfolding free
HasSpace-insert_entry pos key value ts tomb p q h e =
    let made = insert_entry-some pos key value ts (is_large value) tomb p q e in
    rw
      (
        made.0,
        made.1,
        made.2,
        length-insert_at pos (entry_slot key value ts (is_large value) tomb) p.slots,
        records_size-insert_at pos (entry_slot key value ts (is_large value) tomb) p.slots,
        record_size-entry_slot key value ts tomb,
      )
      (space-taken p.slot_end p.data_start _ (records_size p.slots) (count p) h.0 h.1 made.3)

slots-insert_in_page :
    (key value : List ℕ) (ts : ℕ) (tomb : Bool) (p q : LeafPage)
    → Sorted p.slots
    → insert_in_page key value ts tomb p ≡ some q
    → q.slots
      ≡ insert_at (below key p.slots) (entry_slot key value ts (is_large value) tomb) p.slots
unfolding insert_in_page
slots-insert_in_page key value ts tomb p q h e =
    let pos : (find p key).0 ≡ below key p.slots =
      ap (λ (r : ℕ × Bool). r.0) (find-below p key h) in
    (insert_entry-some (find p key).0 key value ts (is_large value) tomb p q e).0
    ∙ ap (λ i. insert_at i (entry_slot key value ts (is_large value) tomb) p.slots) pos

Sorted-insert_in_page :
    (key value : List ℕ) (ts : ℕ) (tomb : Bool) (p q : LeafPage)
    → Sorted p.slots
    → insert_in_page key value ts tomb p ≡ some q
    → Sorted q.slots
unfolding entry_slot key_le
Sorted-insert_in_page key value ts tomb p q h e =
    rw (slots-insert_in_page key value ts tomb p q h e)
      (SortedFrom-insert_at [] (entry_slot key value ts (is_large value) tomb) p.slots h refl)

-- Insert keeps a page in order, with its slots and records apart, and adds one slot.
pub WellFormed-insert_in_page :
    (key value : List ℕ) (ts : ℕ) (tomb : Bool) (p q : LeafPage)
    → WellFormed p
    → insert_in_page key value ts tomb p ≡ some q
    → WellFormed q × (count q ≡ suc (count p))
unfolding insert_in_page
WellFormed-insert_in_page key value ts tomb p q h e = (
  (
    Sorted-insert_in_page key value ts tomb p q h.0 e,
    HasSpace-insert_entry (find p key).0 key value ts tomb p q h.1 e,
  ),
  rw (slots-insert_in_page key value ts tomb p q h.0 e) (
      length-insert_at (below key p.slots) (entry_slot key value ts (is_large value) tomb) p.slots),
)

pub answer-entry_slot :
    (b : Bool) (key value : List ℕ) (ts : ℕ) (tomb : Bool) (o : Option Slot)
    → answer (if b then some (entry_slot key value ts (is_large value) tomb) else o)
      ≡ (if b then (if tomb then none else some value) else answer o)
unfolding entry_slot
answer-entry_slot true key value ts tomb o = rw (is_tombstone-entry_slot key value ts tomb) refl
answer-entry_slot false key value ts tomb o = refl

-- After an insertion into a page in order, whatever versions it has, a reader of the key from the
-- timestamp on gets the new value, or nothing of a tombstone, unless the timestamp is aborted; all
-- other readers get what they got before.
pub lookup-insert_in_page :
    (key value : List ℕ) (ts : ℕ) (tomb : Bool) (p q : LeafPage) (other aborted : List ℕ)
    (read_ts : ℕ)
    → Sorted p.slots
    → insert_in_page key value ts tomb p ≡ some q
    → lookup q aborted other read_ts ≡ (
        if key_eq key other && (not (contains ts aborted) && leb ts read_ts)
        then (if tomb then none else some value)
        else lookup p aborted other read_ts)
unfolding entry_slot
lookup-insert_in_page key value ts tomb p q other aborted read_ts h e =
    rw
      (
        lookup-newest q other aborted read_ts (Sorted-insert_in_page key value ts tomb p q h e),
        lookup-newest p other aborted read_ts h,
        slots-insert_in_page key value ts tomb p q h e,
        newest-insert_at other aborted read_ts (entry_slot key value ts (is_large value) tomb)
            p.slots,
      )
      (answer-entry_slot _ key value ts tomb (newest other aborted read_ts p.slots))
