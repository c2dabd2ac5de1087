-- ===== src/Tree/Lookup.antt =====
-- What Lookup finds in a page, before and behind an insertion.
use keyvaluedb.Prelude.{
  ℕ, ◌≡◌, refl, inl, inr, Bool, true, false, not, ◌&&◌, Option, none, some, List, [], ◌∷◌, arith,
  leb, if◌then◌else◌, Bool-cases, contains, get_elem?, drop,
}
use keyvaluedb.Tree.Keys.{
  key_le, key_eq, key_le_refl, key_le_trans, key_le_total, key_le_antisymm, key_eq_iff,
}
use keyvaluedb.Tree.Leaf.{LeafPage, Slot, lookup, lookup_from, is_tombstone, insert_at}
use keyvaluedb.Tree.Search.{SortedFrom, Sorted, below, find-below}

-- The slot is a version of the key that a reader at `read_ts` may see.
abbrev pub is_visible : List ℕ → List ℕ → ℕ → Slot → Bool
is_visible key aborted read_ts s =
    key_eq s.key key && (not (contains s.timestamp aborted) && leb s.timestamp read_ts)

-- The first visible slot of all.
unfoldable pub newest : List ℕ → List ℕ → ℕ → List Slot → Option Slot
newest key aborted read_ts [] = none
newest key aborted read_ts (s ∷ slots) =
    if is_visible key aborted read_ts s then some s else newest key aborted read_ts slots

-- What a reader gets of a slot.
abbrev pub answer : Option Slot → Option (List ℕ)
answer none = none
answer (some s) = if is_tombstone s then none else some s.value

key_eq-sym : (xs ys : List ℕ) → key_eq xs ys ≡ key_eq ys xs
unfolding key_eq
key_eq-sym [] [] = refl
key_eq-sym [] (y ∷ ys) = refl
key_eq-sym (x ∷ xs) [] = refl
key_eq-sym (x ∷ xs) (y ∷ ys) = ground (arith, key_eq-sym xs ys)

key_eq-le : (xs ys : List ℕ) → key_eq xs ys ≡ true → key_le ys xs ≡ true
key_eq-le xs ys e = rw ((key_eq_iff xs ys).0 e) (key_le_refl ys)

-- Behind a larger key there is no version of the key.
pub newest-above :
    (key aborted : List ℕ) (read_ts : ℕ) (k : List ℕ) (slots : List Slot)
    → SortedFrom k slots
    → key_le k key ≡ false
    → newest key aborted read_ts slots ≡ none
unfolding newest
newest-above key aborted read_ts k [] h lt = refl
newest-above key aborted read_ts k (s ∷ slots) h lt = ground (
  arith,
  key_eq-le key s.key,
  key_eq-sym key s.key,
  key_le_trans k s.key key,
  newest-above key aborted read_ts s.key slots h.1,
  h.0,
)

lookup_from-newest :
    (key aborted : List ℕ) (read_ts : ℕ) (k : List ℕ) (slots : List Slot)
    → SortedFrom k slots
    → key_le key k ≡ true
    → lookup_from slots aborted key read_ts ≡ answer (newest key aborted read_ts slots)
unfolding lookup_from newest
lookup_from-newest key aborted read_ts k [] h le = refl
lookup_from-newest key aborted read_ts k (s ∷ slots) h le = ground (
  arith,
  newest-above key aborted read_ts s.key slots h.1,
  lookup_from-newest key aborted read_ts s.key slots h.1,
  key_le_trans key k s.key le h.0,
  key_le_antisymm key s.key,
  (key_eq_iff s.key key).1,
)

-- The slot where the search ends has the key.
abbrev pub is_at : List ℕ → Option Slot → Bool
is_at key none = false
is_at key (some s) = key_eq key s.key

lookup-scan :
    (key aborted : List ℕ) (read_ts : ℕ) (k : List ℕ) (slots : List Slot)
    → SortedFrom k slots
    → (if is_at key (get_elem? slots (below key slots))
        then lookup_from (drop (below key slots) slots) aborted key read_ts
        else none)
      ≡ answer (newest key aborted read_ts slots)
unfolding below lookup_from newest
lookup-scan key aborted read_ts k [] h = refl
lookup-scan key aborted read_ts k (s ∷ slots) h = elim (Bool-cases (key_le key s.key)) [
  | inl e ↦ rw e (
      ground (
        arith,
        lookup_from-newest key aborted read_ts key (s ∷ slots) (e, h.1) (key_le_refl key),
        key_eq-sym key s.key,
      ))
  | inr e ↦
      rw e (ground (arith, lookup-scan key aborted read_ts s.key slots h.1, key_eq-le s.key key))
]

-- On a page whose keys are in order Lookup answers by the first visible slot of the page.
pub lookup-newest :
    (p : LeafPage) (key aborted : List ℕ) (read_ts : ℕ)
    → Sorted p.slots
    → lookup p aborted key read_ts ≡ answer (newest key aborted read_ts p.slots)
unfolding lookup
lookup-newest p key aborted read_ts sorted =
    rw (find-below p key sorted) (lookup-scan key aborted read_ts [] p.slots sorted)

-- A slot put in where the search ends is in front of the other versions of its key.
pub newest-insert_at :
    (key aborted : List ℕ) (read_ts : ℕ) (s : Slot) (slots : List Slot)
    → newest key aborted read_ts (insert_at (below s.key slots) s slots)
      ≡ (if is_visible key aborted read_ts s then some s else newest key aborted read_ts slots)
unfolding newest insert_at below
newest-insert_at key aborted read_ts s [] = refl
newest-insert_at key aborted read_ts s (t ∷ slots) = elim (Bool-cases (key_le s.key t.key)) [
  | inl e ↦ rw e refl
  | inr e ↦ rw e (
      ground (
        arith,
        newest-insert_at key aborted read_ts s slots,
        key_eq-le t.key s.key,
        (key_eq_iff s.key key).0,
        (key_eq_iff t.key key).0,
      ))
]

pub SortedFrom-insert_at :
    (k : List ℕ) (s : Slot) (slots : List Slot)
    → SortedFrom k slots
    → key_le k s.key ≡ true
    → SortedFrom k (insert_at (below s.key slots) s slots)
unfolding insert_at below
SortedFrom-insert_at k s [] h le = (le, tt)
SortedFrom-insert_at k s (t ∷ slots) h le = elim (Bool-cases (key_le s.key t.key)) [
  | inl e ↦ rw e (le, (e, h.1))
  | inr e ↦
      rw e
        (h.0, SortedFrom-insert_at t.key s slots h.1 (ground (arith, e, key_le_total s.key t.key)))
]
