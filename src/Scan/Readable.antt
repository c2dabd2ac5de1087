-- ===== src/Scan/Readable.antt =====
-- What a scan reads of a memtable's leaves.
use keyvaluedb.Prelude.{
  ℕ, zero, suc, ◌≤◌, ◌≡◌, refl, sym, ap, ◌∙◌, inl, inr, Bool, true, false, not, ◌&&◌, List, [], ◌∷◌,
  ◌++◌, ◌==◌, if◌then◌else◌, contains, length, arith, Bool-cases,
}
use keyvaluedb.Types.{KeyValuePair}
use keyvaluedb.Tree.Keys.{key_le}
use keyvaluedb.Tree.Leaf.{LeafPage, Slot, count, is_tombstone}
use keyvaluedb.Scan.{seek_to_key}
use keyvaluedb.Scan.Leaves.{
  MemSource, has_slot, slot_pair, load, load_leaf, walk_from, walk_next, valid, seek_source,
  read_source,
}

-- The entry that a slot stands for
abbrev pub entry_of : Slot → KeyValuePair
entry_of s = record {
  key = s.key;
  value = s.value;
  timestamp = s.timestamp;
  is_tombstone = is_tombstone s;
}

-- The entries of slots that no aborted batch wrote
unfoldable pub live : List ℕ → List Slot → List KeyValuePair
live aborted [] = []
live aborted (s ∷ slots) =
    let rest = live aborted slots in
    if contains s.timestamp aborted then rest else entry_of s ∷ rest

-- The last of the slots is of an aborted batch.
unfoldable pub ends_aborted : List ℕ → List Slot → Bool
ends_aborted aborted [] = false
ends_aborted aborted (s ∷ []) = contains s.timestamp aborted
ends_aborted aborted (s ∷ t ∷ slots) = ends_aborted aborted (t ∷ slots)

-- The live entries of pages, up to the first page whose last slot is of an aborted batch
unfoldable pub readable : List ℕ → List LeafPage → List KeyValuePair
readable aborted [] = []
readable aborted (p ∷ pages) =
    live aborted p.slots ++ (if ends_aborted aborted p.slots then [] else readable aborted pages)

-- What is read from slots and then from pages
pub onward : List ℕ → List Slot → List LeafPage → List KeyValuePair
onward aborted slots pages =
    live aborted slots ++ (if ends_aborted aborted slots then [] else readable aborted pages)

pub filled {ℓ} : {A : Type ℓ} (x : A) (xs : List A) → (length (x ∷ xs) == 0) ≡ false
filled x xs = ground arith

module _ (aborted : List ℕ) where
  unfoldable pub remaining : MemSource → List KeyValuePair
  remaining s = if valid s then onward aborted s.here s.behind else []

  -- Where the source is valid, its current entry is that of its slot, which is live.
  pub AtSlot : List Slot → KeyValuePair → Type 0
  AtSlot [] current = Unit
  AtSlot (s ∷ slots) current = (contains s.timestamp aborted ≡ false) × (current ≡ entry_of s)

  abbrev pub Loaded : MemSource → Type 0
  Loaded s = AtSlot s.here s.current

  Loaded-load :
      (slots : List Slot) (pages : List LeafPage) (current : KeyValuePair)
      → Loaded (load aborted slots pages current)
  unfolding load AtSlot slot_pair
  Loaded-load [] pages current = tt
  Loaded-load (s ∷ slots) pages current = elim (Bool-cases (contains s.timestamp aborted)) [
    | inl e ↦ rw e (Loaded-load slots pages current)
    | inr e ↦ rw e (e, refl)
  ]

  pub Loaded-load_leaf :
      (pages : List LeafPage) (current : KeyValuePair) → Loaded (load_leaf aborted pages current)
  unfolding load_leaf AtSlot
  Loaded-load_leaf [] current = tt
  Loaded-load_leaf (p ∷ pages) current = elim (Bool-cases (count p == 0)) [
    | inl e ↦ rw e (Loaded-load_leaf pages current)
    | inr e ↦ rw e (Loaded-load p.slots pages current)
  ]

  Loaded-walk_next : (s : MemSource) → Loaded (walk_next aborted s)
  unfolding walk_next walk_from
  Loaded-walk_next s = from s.here
    where
      from : (slots : List Slot) → Loaded (walk_from aborted slots s.behind s.current)
      from [] = Loaded-load_leaf s.behind s.current
      from (t ∷ []) = Loaded-load_leaf s.behind s.current
      from (t ∷ u ∷ slots) = Loaded-load (u ∷ slots) s.behind s.current

  onward-live :
      (s : Slot) (slots : List Slot) (pages : List LeafPage)
      → contains s.timestamp aborted ≡ false
      → onward aborted (s ∷ slots) pages ≡ entry_of s ∷ onward aborted slots pages
  unfolding onward live ends_aborted
  onward-live s [] pages e = rw e refl
  onward-live s (t ∷ slots) pages e = rw e refl

  remaining-load :
      (s : Slot) (slots : List Slot) (pages : List LeafPage) (current : KeyValuePair)
      → remaining (load aborted (s ∷ slots) pages current) ≡ onward aborted (s ∷ slots) pages
  unfolding load remaining valid has_slot onward live ends_aborted
  remaining-load s [] pages current = elim (Bool-cases (contains s.timestamp aborted)) [
    | inl e ↦ rw e refl
    | inr e ↦ rw (e, e) refl
  ]
  remaining-load s (t ∷ slots) pages current = elim (Bool-cases (contains s.timestamp aborted)) [
    | inl e ↦ rw e (remaining-load t slots pages current)
    | inr e ↦ rw (e, e) refl
  ]

  pub remaining-load_leaf :
      (pages : List LeafPage) (current : KeyValuePair)
      → remaining (load_leaf aborted pages current) ≡ readable aborted pages
  unfolding load_leaf readable onward live ends_aborted remaining valid has_slot
  remaining-load_leaf [] current = refl
  remaining-load_leaf (p ∷ pages) current = leaf p.slots (remaining-load_leaf pages current)
    where
      leaf :
          (slots : List Slot)
          → remaining (load_leaf aborted pages current) ≡ readable aborted pages
          → remaining (
              if length slots == 0
              then load_leaf aborted pages current
              else load aborted slots pages current)
            ≡ onward aborted slots pages
      leaf [] ih = ih
      leaf (s ∷ slots) ih = rw (filled s slots) (remaining-load s slots pages current)

  -- A step of a valid source takes the current entry off.
  remaining-walk_next :
      (s : MemSource)
      → Loaded s
      → valid s ≡ true
      → remaining s ≡ s.current ∷ remaining (walk_next aborted s)
  unfolding walk_next walk_from AtSlot onward live ends_aborted remaining valid has_slot
  remaining-walk_next s = from s.here
    where
      from :
          (slots : List Slot)
          → AtSlot slots s.current
          → has_slot slots ≡ true
          → (if has_slot slots then onward aborted slots s.behind else [])
            ≡ s.current ∷ remaining (walk_from aborted slots s.behind s.current)
      from [] at v = absurd (ground (arith, v))
      from (t ∷ []) at v =
          rw (at.1, remaining-load_leaf s.behind (entry_of t)) (onward-live t [] s.behind at.0)
      from (t ∷ u ∷ slots) at v =
          rw (at.1, remaining-load u slots s.behind (entry_of t))
            (onward-live t (u ∷ slots) s.behind at.0)

  pub read_source-remaining :
      (n : ℕ) (s : MemSource)
      → Loaded s
      → length (remaining s) ≤ n
      → read_source n aborted s ≡ remaining s
  unfolding read_source remaining
  read_source-remaining zero s at few = ground (arith, few)
  read_source-remaining (suc n) s at few = elim (Bool-cases (valid s)) [
    | inl v ↦
        let step = remaining-walk_next s at v in
        let later = read_source-remaining n (walk_next aborted s) (Loaded-walk_next s) in
        let fewer : length (remaining (walk_next aborted s)) ≤ n =
          omega (arith, few, ap length step) in
        rw v (ap (λ (kvs : List KeyValuePair). s.current ∷ kvs) (later fewer)) ∙ sym step
    | inr v ↦ rw v refl
  ]

  pub Loaded-seek_source :
      (n : ℕ) (key : List ℕ) (s : MemSource) → Loaded s → Loaded (seek_source n aborted key s)
  unfolding seek_source
  Loaded-seek_source zero key s at = at
  Loaded-seek_source (suc n) key s at =
      elim (Bool-cases (valid s && not (key_le key s.current.key))) [
        | inl e ↦ rw e (Loaded-seek_source n key (walk_next aborted s) (Loaded-walk_next s))
        | inr e ↦ rw e at
      ]

  pub seek_source-remaining :
      (n : ℕ) (key : List ℕ) (s : MemSource)
      → Loaded s
      → length (remaining s) ≤ n
      → remaining (seek_source n aborted key s) ≡ seek_to_key key (remaining s)
  unfolding seek_source seek_to_key
  seek_source-remaining zero key s at few = go (remaining s) few
    where
      go : (kvs : List KeyValuePair) → length kvs ≤ 0 → kvs ≡ seek_to_key key kvs
      go [] few = refl
      go (kv ∷ kvs) few = absurd (ground (arith, few))
  seek_source-remaining (suc n) key s at few = elim (Bool-cases (valid s)) [
    | inl v ↦
        let step = remaining-walk_next s at v in
        let later = seek_source-remaining n key (walk_next aborted s) (Loaded-walk_next s) in
        let fewer : length (remaining (walk_next aborted s)) ≤ n =
          omega (arith, few, ap length step) in
        elim (Bool-cases (key_le key s.current.key)) [
          | inl e ↦ rw (v, e) (step ∙ sym (ap (seek_to_key key) step ∙ (rw e refl)))
          | inr e ↦ rw (v, e) (later fewer ∙ sym (ap (seek_to_key key) step ∙ (rw e refl)))
        ]
    | inr v ↦
        let gone : remaining s ≡ [] = unfold remaining in rw v refl in
        rw v (gone ∙ sym (ap (seek_to_key key) gone))
  ]
