-- ===== src/Tree/Halves.antt =====
-- The pages of a split hold what the page held.
use keyvaluedb.Prelude.{
  ℕ, zero, suc, ◌+◌, ◌-◌, ◌*◌, ◌/◌, ◌^◌, ◌≤◌, ◌<◌, ◌≡◌, refl, sym, ap, ◌∙◌, inl, inr, Bool, false,
  some, List, [], ◌∷◌, ◌++◌, append-nil, append_assoc, arith, ltb, if◌then◌else◌, Bool-cases,
  length, take, drop, length-append, take-append-drop, All,
}
use keyvaluedb.Tree.Leaf.{
  LeafPage, Slot, new_leaf, slot_base, slot_size, record_size, count, is_tombstone, insert_at,
  insert_entry, entry_slot, page_size, slot_val_len, free,
}
use keyvaluedb.Tree.Split.{copied_val_len, copy_entry, copy_entries, insert_either, split}
use keyvaluedb.Tree.Insertion.{records_size, HasSpace, is_large}

-- The field is 16 bits wide.
abbrev pub FitsField : Slot → Type 0
FitsField s = s.val_len < 2 ^ 16

copied_val_len_lem : (s : Slot) → FitsField s → copied_val_len s ≡ s.val_len
unfolding copied_val_len slot_val_len is_tombstone
copied_val_len_lem s h = ground arith

insert_at-length :
    (s : Slot) (slots : List Slot) → insert_at (length slots) s slots ≡ slots ++ (s ∷ [])
unfolding insert_at
insert_at-length s [] = refl
insert_at-length s (t ∷ slots) = rw (insert_at-length s slots)

-- Bytes that slots and their records take.
abbrev pub used : List Slot → ℕ
used slots = records_size slots + slot_size * length slots

has_room :
    (dst : LeafPage) (n : ℕ)
    → HasSpace dst
    → slot_base + used dst.slots + n + slot_size ≤ page_size
    → ltb (free dst) (n + slot_size) ≡ false
unfolding free
has_room dst n h room = ground arith

-- What a copy appends.
abbrev appended : Slot → LeafPage → LeafPage
appended s dst = record {
  slots = dst.slots ++ (s ∷ []);
  data_start = dst.data_start - record_size s;
  slot_end = dst.slot_end + slot_size;
}

copy_entry-appended :
    (s : Slot) (dst : LeafPage)
    → FitsField s
    → HasSpace dst
    → slot_base + used dst.slots + record_size s + slot_size ≤ page_size
    → copy_entry s dst ≡ appended s dst
unfolding copy_entry
copy_entry-appended s dst fit h room =
    rw (has_room dst (record_size s) h room, copied_val_len_lem s fit, insert_at-length s dst.slots)
      refl

used-append : (xs ys : List Slot) → used (xs ++ ys) ≡ used xs + used ys
used-append [] ys = omega arith
used-append (x ∷ xs) ys = omega (arith, used-append xs ys)

HasSpace-appended :
    (s : Slot) (dst : LeafPage)
    → HasSpace dst
    → slot_base + used dst.slots + record_size s + slot_size ≤ page_size
    → HasSpace (appended s dst)
HasSpace-appended s dst h room =
    omega (arith, used-append dst.slots (s ∷ []), length-append dst.slots (s ∷ []))

copy_entries-append :
    (slots : List Slot) (dst : LeafPage)
    → All FitsField slots
    → HasSpace dst
    → slot_base + used dst.slots + used slots ≤ page_size
    → ((copy_entries slots dst).slots ≡ dst.slots ++ slots) × HasSpace (copy_entries slots dst)
unfolding copy_entries
copy_entries-append [] dst fit h room = (sym (append-nil dst.slots), h)
copy_entries-append (s ∷ slots) dst fit h room =
    rw (copy_entries, copy_entry-appended s dst fit.0 h (omega arith))
      (let rest =
          copy_entries-append slots (appended s dst) fit.1 (HasSpace-appended s dst h (omega arith))
            (omega (arith, used-append dst.slots (s ∷ []))) in
        (rest.0 ∙ append_assoc dst.slots (s ∷ []) slots, rest.1))

-- The halves of a page that is copied.
pub copies :
    (slots : List Slot)
    → All FitsField slots
    → slot_base + used slots ≤ page_size
    → ((copy_entries slots new_leaf).slots ≡ slots) × HasSpace (copy_entries slots new_leaf)
unfolding new_leaf
copies slots fit h = copy_entries-append slots new_leaf fit (refl, refl, omega arith) (omega arith)

-- An insertion into a page with room.
pub insert_entry-room :
    (pos : ℕ) (key value : List ℕ) (ts : ℕ) (tomb : Bool) (p : LeafPage)
    → HasSpace p
    → slot_base
        + used p.slots
        + (length key + (if is_large value then 8 else length value))
        + slot_size
      ≤ page_size
    → (q : LeafPage) × (insert_entry pos key value ts (is_large value) tomb p ≡ some q)
      × (q.slots ≡ insert_at pos (entry_slot key value ts (is_large value) tomb) p.slots)
unfolding insert_entry
insert_entry-room pos key value ts tomb p h room = (
  record {
    slots = insert_at pos (entry_slot key value ts (is_large value) tomb) p.slots;
    data_start = p.data_start - (length key + (if is_large value then 8 else length value));
    slot_end = p.slot_end + slot_size;
  },
  rw (has_room p (length key + (if is_large value then 8 else length value)) h room) refl,
  refl,
)

All-take : (n : ℕ) (slots : List Slot) → All FitsField slots → All FitsField (take n slots)
All-take zero slots h = tt
All-take (suc n) [] h = tt
All-take (suc n) (s ∷ slots) h = (h.0, All-take n slots h.1)

All-drop : (n : ℕ) (slots : List Slot) → All FitsField slots → All FitsField (drop n slots)
All-drop zero slots h = h
All-drop (suc n) [] h = tt
All-drop (suc n) (s ∷ slots) h = All-drop n slots h.1

-- The room that a split asks for: the half that the position is in takes the record.
abbrev pub HalfHasRoom : ℕ → List ℕ → List ℕ → LeafPage → Type 0
HalfHasRoom pos key value leaf =
    slot_base
      + used (
          if ltb pos (count leaf / 2)
          then take (count leaf / 2) leaf.slots
          else drop (count leaf / 2) leaf.slots)
      + (length key + (if is_large value then 8 else length value))
      + slot_size
    ≤ page_size

-- The halves that a split makes, with the new slot in one of them.
abbrev pub halves : ℕ → Slot → LeafPage → List Slot × List Slot
halves pos s leaf =
    if ltb pos (count leaf / 2)
    then (insert_at pos s (take (count leaf / 2) leaf.slots), drop (count leaf / 2) leaf.slots)
    else (
      take (count leaf / 2) leaf.slots,
      insert_at (pos - count leaf / 2) s (drop (count leaf / 2) leaf.slots),
    )

-- With room for the record in its half, a split of a page whose slots and records keep apart, in
-- fields of 16 bits, puts exactly the half's slots into each page, the new one at its place.
pub split-halves :
    (pos : ℕ) (key value : List ℕ) (ts : ℕ) (tomb : Bool) (leaf : LeafPage)
    → All FitsField leaf.slots
    → HasSpace leaf
    → HalfHasRoom pos key value leaf
    → ((split pos key value ts (is_large value) tomb leaf).0.slots
        ≡ (halves pos (entry_slot key value ts (is_large value) tomb) leaf).0)
      × ((split pos key value ts (is_large value) tomb leaf).1.slots
          ≡ (halves pos (entry_slot key value ts (is_large value) tomb) leaf).1)
unfolding split insert_either
split-halves pos key value ts tomb leaf fit h room =
    let mid : ℕ = count leaf / 2 in
    let whole : used (take mid leaf.slots ++ drop mid leaf.slots) ≡ used leaf.slots =
      ap used (take-append-drop mid leaf.slots) in
    let parts = used-append (take mid leaf.slots) (drop mid leaf.slots) in
    let left = copies (take mid leaf.slots) (All-take mid leaf.slots fit) (omega arith) in
    let right = copies (drop mid leaf.slots) (All-drop mid leaf.slots fit) (omega arith) in
    elim (Bool-cases (ltb pos (count leaf / 2))) [
      | inl e ↦
          let (q, made, slots) =
            insert_entry-room pos key value ts tomb (copy_entries (take mid leaf.slots) new_leaf)
              left.1 (rw left.0 (rw e at room)) in
          rw (e, insert_either, made) (slots ∙ rw left.0 refl, right.0)
      | inr e ↦
          let (q, made, slots) =
            insert_entry-room (pos - mid) key value ts tomb
              (copy_entries (drop mid leaf.slots) new_leaf) right.1 (rw right.0 (rw e at room)) in
          rw (e, insert_either, made) (left.0, slots ∙ rw right.0 refl)
    ]
