-- ===== src/Tree/Search.antt =====
-- The binary search of LeafPage::Find on pages whose keys are in order.
use keyvaluedb.Prelude.{
  ℕ, zero, suc, ◌+◌, ◌-◌, ◌/◌, ◌≤◌, ◌<◌, ◌≡◌, refl, sym, ◌∙◌, inl, inr, true, false, none, some,
  List, [], ◌∷◌, arith, ltb, leb, if◌then◌else◌, ltb→lt, leb→le, Bool-cases, length, get_elem?,
}
use keyvaluedb.Tree.Keys.{key_le, key_eq, key_le_trans}
use keyvaluedb.Tree.Leaf.{LeafPage, Slot, find, find_loop}

-- The slots' keys are in order.
abbrev pub SortedFrom : List ℕ → List Slot → Type 0
SortedFrom k [] = Unit
SortedFrom k (s ∷ slots) = (key_le k s.key ≡ true) × SortedFrom s.key slots

abbrev pub Sorted : List Slot → Type 0
Sorted slots = SortedFrom [] slots

-- How many slots have a key below the given one: what a scan from the front finds.
unfoldable pub below : List ℕ → List Slot → ℕ
below key [] = 0
below key (s ∷ slots) = if key_le key s.key then 0 else suc (below key slots)

pub below-le : (key : List ℕ) (slots : List Slot) → below key slots ≤ length slots
unfolding below
below-le key [] = omega arith
below-le key (s ∷ slots) = ground (arith, below-le key slots)

-- The key of a slot further on is not smaller.
SortedFrom-get :
    (k : List ℕ) (slots : List Slot) (i : ℕ) (s : Slot)
    → SortedFrom k slots
    → get_elem? slots i ≡ some s
    → key_le k s.key ≡ true
SortedFrom-get k [] i s h e = cc
SortedFrom-get k (t ∷ slots) zero s h e = ground (arith, h.0)
SortedFrom-get k (t ∷ slots) (suc i) s h e =
    key_le_trans k t.key s.key h.0 (SortedFrom-get t.key slots i s h.1 e)

-- A slot is at or above the key just where it stands at `below` or behind it.
pub below_iff :
    (key k : List ℕ) (slots : List Slot) (i : ℕ) (s : Slot)
    → SortedFrom k slots
    → get_elem? slots i ≡ some s
    → key_le key s.key ≡ leb (below key slots) i
unfolding below
below_iff key k [] i s h e = cc
below_iff key k (t ∷ slots) zero s h e = ground arith
below_iff key k (t ∷ slots) (suc i) s h e = ground (
  arith,
  key_le_trans key t.key s.key,
  SortedFrom-get t.key slots i s h.1 e,
  below_iff key t.key slots i s h.1 e,
)

pub get_elem?-lt :
    (slots : List Slot) (i : ℕ) → i < length slots → (s : Slot) × (get_elem? slots i ≡ some s)
get_elem?-lt [] i h = absurd (omega arith)
get_elem?-lt (t ∷ slots) zero h = (t, refl)
get_elem?-lt (t ∷ slots) (suc i) h = get_elem?-lt slots i (omega arith)

find_loop-below :
    (fuel : ℕ) (slots : List Slot) (key : List ℕ) (lo end : ℕ)
    → Sorted slots
    → end ≤ lo + fuel
    → end ≤ length slots
    → lo ≤ below key slots
    → below key slots ≤ end
    → find_loop fuel slots key lo end ≡ below key slots
unfolding find_loop
find_loop-below zero slots key lo end sorted f h l u = omega arith
find_loop-below (suc fuel) slots key lo end sorted f h l u = elim (Bool-cases (ltb lo end)) [
  | inr e ↦ rw e (ground arith)
  | inl e ↦
      let lt : lo < end = ltb→lt lo end e in
      let mid : (lo + (end - 1)) / 2 < end = omega arith in
      let mid_le : lo ≤ (lo + (end - 1)) / 2 = omega arith in
      let (s, at) = get_elem?-lt slots ((lo + (end - 1)) / 2) (omega arith) in
      let order = below_iff key [] slots ((lo + (end - 1)) / 2) s sorted at in
      elim (Bool-cases (key_le key s.key)) [
        | inl k ↦
            rw (e, at, k)
              (find_loop-below fuel slots key lo _ sorted (omega arith) (omega arith) l
                (leb→le _ _ (sym order ∙ k)))
        | inr k ↦
            rw (e, at, k)
              (find_loop-below fuel slots key _ end sorted (omega arith) h
                (ground (arith, sym order ∙ k)) u)
      ]
]

-- On slots in order the search of a page ends at the first slot whose key is not below the given
-- one, and reports whether the key of that slot is the given one.
pub find-below :
    (p : LeafPage) (key : List ℕ)
    → Sorted p.slots
    → find p key ≡ (
      below key p.slots,
      elim (get_elem? p.slots (below key p.slots)) [ none ↦ false | some s ↦ key_eq key s.key ],
    )
unfolding find
find-below p key sorted =
    rw
      (find_loop-below (length p.slots) p.slots key 0 (length p.slots) sorted (omega arith)
        (omega arith) (omega arith) (below-le key p.slots))
      refl
