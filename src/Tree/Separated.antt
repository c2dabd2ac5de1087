-- ===== src/Tree/Separated.antt =====
-- What Lookup finds below the separator of a split.
use keyvaluedb.Prelude.{
  ℕ, zero, suc, ◌-◌, ◌/◌, ◌≤◌, ◌<◌, ◌≡◌, refl, ap, ◌∙◌, inl, inr, Bool, true, false, not, ◌&&◌,
  Option, none, some, List, [], ◌∷◌, ◌++◌, arith, ltb, leb, if◌then◌else◌, lt→ltb, Bool-cases,
  contains, length, get_elem?, take, drop, take-append-drop, All,
}
use keyvaluedb.Tree.Keys.{key_le, key_eq, key_le_refl, key_eq_iff}
use keyvaluedb.Tree.Leaf.{LeafPage, Slot, count, find, lookup, insert_at, entry_slot}
use keyvaluedb.Tree.Search.{Sorted, SortedFrom, below, find-below}
use keyvaluedb.Tree.Lookup.{
  newest, answer, newest-above, lookup-newest, newest-insert_at, SortedFrom-insert_at,
}
use keyvaluedb.Tree.Split.{separator, find_child, lookup_split, insert_split}
use keyvaluedb.Tree.Insertion.{is_large, answer-entry_slot, WellFormed}
use keyvaluedb.Tree.Halves.{FitsField, HalfHasRoom, halves, split-halves}

insert_at-take :
    (pos n : ℕ) (s : Slot) (slots : List Slot)
    → pos ≤ n
    → n ≤ length slots
    → insert_at pos s (take n slots) ++ drop n slots ≡ insert_at pos s slots
unfolding insert_at
insert_at-take zero n s slots h k = ap (λ l. s ∷ l) (take-append-drop n slots)
insert_at-take (suc pos) zero s slots h k = absurd (omega arith)
insert_at-take (suc pos) (suc n) s [] h k = absurd (omega arith)
insert_at-take (suc pos) (suc n) s (t ∷ slots) h k =
    ap (λ l. t ∷ l) (insert_at-take pos n s slots (omega arith) (omega arith))

insert_at-drop :
    (pos n : ℕ) (s : Slot) (slots : List Slot)
    → n ≤ pos
    → n ≤ length slots
    → take n slots ++ insert_at (pos - n) s (drop n slots) ≡ insert_at pos s slots
unfolding insert_at
insert_at-drop pos zero s slots h k =
    let minus : pos - 0 ≡ pos = omega arith in ap (λ (i : ℕ). insert_at i s slots) minus
insert_at-drop zero (suc n) s slots h k = absurd (omega arith)
insert_at-drop (suc pos) (suc n) s [] h k = absurd (omega arith)
insert_at-drop (suc pos) (suc n) s (t ∷ slots) h k =
    let minus : suc pos - suc n ≡ pos - n = omega arith in
    ap (λ (i : ℕ). t ∷ (take n slots ++ insert_at i s (drop n slots))) minus
    ∙ ap (λ l. t ∷ l) (insert_at-drop pos n s slots (omega arith) (omega arith))

halves-append :
    (pos : ℕ) (s : Slot) (leaf : LeafPage)
    → (halves pos s leaf).0 ++ (halves pos s leaf).1 ≡ insert_at pos s leaf.slots
halves-append pos s leaf = elim (Bool-cases (ltb pos (count leaf / 2))) [
  | inl e ↦
      rw e (insert_at-take pos (count leaf / 2) s leaf.slots (ground (arith, e)) (omega arith))
  | inr e ↦
      rw e (insert_at-drop pos (count leaf / 2) s leaf.slots (ground (arith, e)) (omega arith))
]

newest-append :
    (key aborted : List ℕ) (read_ts : ℕ) (xs ys : List Slot)
    → newest key aborted read_ts (xs ++ ys) ≡ elim (newest key aborted read_ts xs) [
      | none ↦ newest key aborted read_ts ys
      | some s ↦ some s
    ]
unfolding newest
newest-append key aborted read_ts [] ys = refl
newest-append key aborted read_ts (x ∷ xs) ys =
    ground (arith, newest-append key aborted read_ts xs ys)

SortedFrom-left : (k : List ℕ) (xs ys : List Slot) → SortedFrom k (xs ++ ys) → SortedFrom k xs
SortedFrom-left k [] ys h = tt
SortedFrom-left k (x ∷ xs) ys h = (h.0, SortedFrom-left x.key xs ys h.1)

SortedFrom-right : (k : List ℕ) (xs ys : List Slot) → SortedFrom k (xs ++ ys) → Sorted ys
unfolding key_le
SortedFrom-right k [] [] h = tt
SortedFrom-right k [] (y ∷ ys) h = (refl, h.1)
SortedFrom-right k (x ∷ xs) ys h = SortedFrom-right x.key xs ys h.1

-- The keys are below the separator.
abbrev pub Below : List ℕ → List Slot → Type 0
Below sep slots = All (λ s. key_le sep s.key ≡ false) slots

newest-Below :
    (key aborted sep : List ℕ) (read_ts : ℕ) (xs : List Slot)
    → Below sep xs
    → key_le sep key ≡ true
    → newest key aborted read_ts xs ≡ none
unfolding newest
newest-Below key aborted sep read_ts [] h le = refl
newest-Below key aborted sep read_ts (x ∷ xs) h le =
    ground (arith, h.0, newest-Below key aborted sep read_ts xs h.1 le, (key_eq_iff x.key key).0)

newest-not_above :
    (key aborted : List ℕ) (read_ts : ℕ) (slots : List Slot)
    → Sorted slots
    → key_le (elim (get_elem? slots 0) [ none ↦ [] | some s ↦ s.key ]) key ≡ false
    → newest key aborted read_ts slots ≡ none
unfolding newest
newest-not_above key aborted read_ts [] h e = refl
newest-not_above key aborted read_ts (s ∷ slots) h e =
    newest-above key aborted read_ts s.key (s ∷ slots) (key_le_refl s.key, h.1) e

newest-under :
    (key aborted : List ℕ) (read_ts : ℕ) (r : LeafPage)
    → Sorted r.slots
    → key_le (separator r) key ≡ false
    → newest key aborted read_ts r.slots ≡ none
unfolding separator
newest-under key aborted read_ts r h e = newest-not_above key aborted read_ts r.slots h e

answer-alone :
    (o o' : Option Slot) → o' ≡ none → answer o ≡ answer (elim o [ none ↦ o' | some s ↦ some s ])
answer-alone none o' e = rw e refl
answer-alone (some s) o' e = refl

-- Below a separator that the left page's keys keep under, Lookup finds what the slots of both
-- pages have.
lookup_split-newest :
    (l r : LeafPage) (key aborted : List ℕ) (read_ts : ℕ)
    → Sorted (l.slots ++ r.slots)
    → Below (separator r) l.slots
    → lookup_split (l, r) aborted key read_ts
      ≡ answer (newest key aborted read_ts (l.slots ++ r.slots))
unfolding lookup_split find_child
lookup_split-newest l r key aborted read_ts h low = elim (Bool-cases (key_le (separator r) key)) [
  | inl e ↦
      rw
        (
          e,
          newest-append key aborted read_ts l.slots r.slots,
          newest-Below key aborted (separator r) read_ts l.slots low e,
        )
        (lookup-newest r key aborted read_ts (SortedFrom-right [] l.slots r.slots h))
  | inr e ↦
      rw (e, newest-append key aborted read_ts l.slots r.slots)
        (lookup-newest l key aborted read_ts (SortedFrom-left [] l.slots r.slots h)
          ∙ answer-alone (newest key aborted read_ts l.slots) _
              (newest-under key aborted read_ts r (SortedFrom-right [] l.slots r.slots h) e))
]

position :
    (key : List ℕ) (leaf : LeafPage) → Sorted leaf.slots → (find leaf key).0 ≡ below key leaf.slots
position key leaf h = ap (λ (r : ℕ × Bool). r.0) (find-below leaf key h)

-- An insertion that splits a well-formed page, where its half has room and the left page's keys stay
-- below the separator: a reader of the key from the timestamp on gets the new value, or nothing of
-- a tombstone, unless the timestamp is aborted; all other readers get what they got before.
pub lookup_split-insert_split :
    (key value : List ℕ) (ts : ℕ) (tomb : Bool) (leaf : LeafPage) (other aborted : List ℕ)
    (read_ts : ℕ)
    → WellFormed leaf
    → All FitsField leaf.slots
    → HalfHasRoom (find leaf key).0 key value leaf
    → Below
        (separator (insert_split key value ts tomb leaf).1)
        (insert_split key value ts tomb leaf).0.slots
    → lookup_split (insert_split key value ts tomb leaf) aborted other read_ts ≡ (
        if key_eq key other && (not (contains ts aborted) && leb ts read_ts)
        then (if tomb then none else some value)
        else lookup leaf aborted other read_ts)
unfolding insert_split entry_slot key_le
lookup_split-insert_split key value ts tomb leaf other aborted read_ts h fit room low =
    let slot : Slot = entry_slot key value ts (is_large value) tomb in
    let parts = split-halves (find leaf key).0 key value ts tomb leaf fit h.1 room in
    let l : LeafPage = (insert_split key value ts tomb leaf).0 in
    let r : LeafPage = (insert_split key value ts tomb leaf).1 in
    let whole : l.slots ++ r.slots ≡ insert_at (below key leaf.slots) slot leaf.slots =
      rw (parts.0, parts.1) (halves-append (find leaf key).0 slot leaf)
      ∙ ap (λ (i : ℕ). insert_at i slot leaf.slots) (position key leaf h.0) in
    lookup_split-newest l r other aborted read_ts
      (rw whole (SortedFrom-insert_at [] slot leaf.slots h.0 refl)) low
    ∙ rw
        (
          whole,
          newest-insert_at other aborted read_ts slot leaf.slots,
          lookup-newest leaf other aborted read_ts h.0,
        )
        (answer-entry_slot _ key value ts tomb (newest other aborted read_ts leaf.slots))

get_elem?-drop : (n : ℕ) (slots : List Slot) → get_elem? (drop n slots) 0 ≡ get_elem? slots n
get_elem?-drop zero slots = refl
get_elem?-drop (suc n) [] = refl
get_elem?-drop (suc n) (s ∷ slots) = get_elem?-drop n slots

Sorted-drop : (k : List ℕ) (n : ℕ) (slots : List Slot) → SortedFrom k slots → Sorted (drop n slots)
Sorted-drop k n slots h =
    SortedFrom-right k (take n slots) (drop n slots) (rw (take-append-drop n slots) h)

separator-get : (r : LeafPage) (s : Slot) → get_elem? r.slots 0 ≡ some s → separator r ≡ s.key
unfolding separator
separator-get r s h = rw (separator, h) refl

lookup_split-right :
    (l r : LeafPage) (key aborted : List ℕ) (read_ts : ℕ)
    → separator r ≡ key
    → lookup_split (l, r) aborted key read_ts ≡ lookup r aborted key read_ts
unfolding lookup_split find_child
lookup_split-right l r key aborted read_ts h = rw (h, key_le_refl key) refl

-- An insertion that splits a well-formed page, where its half has room, its place is before the
-- middle and the slot in the middle has its key: a reader of the key gets what the right half of the
-- page had, whatever was inserted.
pub lookup_split-straddled :
    (key value : List ℕ) (ts : ℕ) (tomb : Bool) (leaf : LeafPage) (aborted : List ℕ) (read_ts : ℕ)
    (s : Slot)
    → WellFormed leaf
    → All FitsField leaf.slots
    → HalfHasRoom (find leaf key).0 key value leaf
    → (find leaf key).0 < count leaf / 2
    → get_elem? leaf.slots (count leaf / 2) ≡ some s
    → s.key ≡ key
    → lookup_split (insert_split key value ts tomb leaf) aborted key read_ts
      ≡ answer (newest key aborted read_ts (drop (count leaf / 2) leaf.slots))
unfolding insert_split
lookup_split-straddled key value ts tomb leaf aborted read_ts s h fit room before at same =
    let mid : ℕ = count leaf / 2 in
    let r : LeafPage = (insert_split key value ts tomb leaf).1 in
    let early : ltb (find leaf key).0 mid ≡ true = lt→ltb _ _ before in
    let parts = split-halves (find leaf key).0 key value ts tomb leaf fit h.1 room in
    let right : r.slots ≡ drop mid leaf.slots = parts.1 ∙ rw early refl in
    let l : LeafPage = (insert_split key value ts tomb leaf).0 in
    let first : get_elem? r.slots 0 ≡ some s = rw right (get_elem?-drop mid leaf.slots ∙ at) in
    lookup_split-right l r key aborted read_ts (separator-get r s first ∙ same)
    ∙ lookup-newest r key aborted read_ts (rw right (Sorted-drop [] mid leaf.slots h.0))
    ∙ rw right refl
