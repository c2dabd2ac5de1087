-- ===== src/Scan/Copies.antt =====
-- The pages of a memtable that a range scan copies.
use keyvaluedb.Prelude.{
  ℕ, suc, ◌-◌, ◌≤◌, ◌≡◌, refl, sym, ap, ◌∙◌, inl, inr, true, false, none, some, List, [], ◌∷◌, ◌++◌,
  arith, Bool-cases, contains, length, get_elem?, length-append, All, All-append,
}
use keyvaluedb.Types.{KeyValuePair}
use keyvaluedb.Protocol.{RangeBound}
use keyvaluedb.Tree.Keys.{key_le, key_eq, key_le_trans, key_le_refl, key_eq_iff}
use keyvaluedb.Tree.Leaf.{LeafPage, Slot}
use keyvaluedb.Tree.Search.{SortedFrom, Sorted}
use keyvaluedb.Table.Locate.{
  key_lt, Ascending, Others, All-append_left, All-append_right, Ascending-append_right,
}
use keyvaluedb.Scan.{above_upper}
use keyvaluedb.Scan.Leaves.{keys_meet, page_meets, copies}
use keyvaluedb.Scan.Readable.{live, ends_aborted, readable}
use keyvaluedb.Scan.Stamps.{stamp, stamp-append, stamp-Others}
use keyvaluedb.Scan.Seek.{below_lower, in_range}

-- The live entries of all pages
unfoldable pub all_live : List ℕ → List LeafPage → List KeyValuePair
all_live aborted [] = []
all_live aborted (p ∷ pages) = live aborted p.slots ++ all_live aborted pages

-- No page ends with a slot of an aborted batch.
abbrev pub EndsLive : List ℕ → List LeafPage → Type 0
EndsLive aborted pages = All (λ (p : LeafPage). ends_aborted aborted p.slots ≡ false) pages

pub copies-All :
    (P : LeafPage → Type 0) (lower upper : RangeBound) (pages : List LeafPage)
    → All P pages
    → All P (copies lower upper pages)
unfolding copies
copies-All P lower upper [] h = tt
copies-All P lower upper (p ∷ pages) h = elim (Bool-cases (page_meets lower upper p)) [
  | inl e ↦ rw e (h.0, copies-All P lower upper pages h.1)
  | inr e ↦ rw e (copies-All P lower upper pages h.1)
]

pub readable-all_live :
    (aborted : List ℕ) (pages : List LeafPage)
    → EndsLive aborted pages
    → readable aborted pages ≡ all_live aborted pages
unfolding readable all_live
readable-all_live aborted [] h = refl
readable-all_live aborted (p ∷ pages) h = rw h.0 (
    ap (λ (kvs : List KeyValuePair). live aborted p.slots ++ kvs)
      (readable-all_live aborted pages h.1))

live-Others :
    (aborted key : List ℕ) (slots : List Slot)
    → All (λ (s : Slot). key_eq s.key key ≡ false) slots
    → Others key (live aborted slots)
unfolding live
live-Others aborted key [] h = tt
live-Others aborted key (s ∷ slots) h = elim (Bool-cases (contains s.timestamp aborted)) [
  | inl e ↦ rw e (live-Others aborted key slots h.1)
  | inr e ↦ rw e (h.0, live-Others aborted key slots h.1)
]

-- In order, the last slot has the largest key.
last_largest :
    (k : List ℕ) (s : Slot) (slots : List Slot)
    → SortedFrom k (s ∷ slots)
    → (last : Slot) × (get_elem? (s ∷ slots) (length slots) ≡ some last)
      × All (λ (x : Slot). key_le x.key last.key ≡ true) (s ∷ slots)
last_largest k s [] h = (s, refl, (key_le_refl s.key, tt))
last_largest k s (t ∷ slots) h =
    let later = last_largest s.key t slots h.1 in
    (later.0, later.1, (key_le_trans s.key t.key later.0.key h.1.0 later.2.0, later.2))

above_first :
    (k : List ℕ) (slots : List Slot)
    → SortedFrom k slots
    → All (λ (x : Slot). key_le k x.key ≡ true) slots
above_first k [] h = tt
above_first k (s ∷ slots) h = (h.0, later slots (above_first s.key slots h.1))
  where
    later :
        (xs : List Slot)
        → All (λ (x : Slot). key_le s.key x.key ≡ true) xs
        → All (λ (x : Slot). key_le k x.key ≡ true) xs
    later [] all = tt
    later (x ∷ xs) all = (key_le_trans k s.key x.key h.0 all.0, later xs all.1)

-- A key in the range that lies between the first and the last of a page makes the page meet it.
keys_meet-in_range :
    (lower upper : RangeBound) (first last key : List ℕ)
    → in_range lower upper key ≡ true
    → key_le first key ≡ true
    → key_le key last ≡ true
    → keys_meet lower upper first last ≡ true
unfolding in_range below_lower above_upper keys_meet
keys_meet-in_range lower upper first last key h p q = ground (
  arith,
  h,
  key_le_trans lower.key key last,
  key_le_trans key last lower.key,
  key_le_trans first key upper.key,
  key_le_trans upper.key first key,
)

-- No slot of a page that the bounds miss has a key in the range.
between-missed :
    (lower upper : RangeBound) (first last key : List ℕ) (slots : List Slot)
    → keys_meet lower upper first last ≡ false
    → in_range lower upper key ≡ true
    → All (λ (x : Slot). key_le first x.key ≡ true) slots
    → All (λ (x : Slot). key_le x.key last ≡ true) slots
    → All (λ (x : Slot). key_eq x.key key ≡ false) slots
between-missed lower upper first last key [] m h lo hi = tt
between-missed lower upper first last key (x ∷ slots) m h lo hi =
    (ground (arith, here), between-missed lower upper first last key slots m h lo.1 hi.1)
  where
    here : key_eq x.key key ≡ true → true ≡ false
    here e =
        let same = (key_eq_iff x.key key).0 e in
        sym (keys_meet-in_range lower upper first last key h (rw same at lo.0) (rw same at hi.0))
        ∙ m

back : (n : ℕ) → suc n - 1 ≡ n
back n = omega arith

missed-Others :
    (lower upper : RangeBound) (aborted key : List ℕ) (p : LeafPage)
    → Sorted p.slots
    → in_range lower upper key ≡ true
    → page_meets lower upper p ≡ false
    → Others key (live aborted p.slots)
unfolding page_meets
missed-Others lower upper aborted key p order h = from p.slots order
  where
    from :
        (slots : List Slot)
        → Sorted slots
        → elim (get_elem? slots 0) [
          | none ↦ false
          | some first ↦ elim (get_elem? slots (length slots - 1)) [
            | none ↦ false
            | some last ↦ keys_meet lower upper first.key last.key
          ]
        ]
          ≡ false
        → Others key (live aborted slots)
    from [] order m = live-Others aborted key [] tt
    from (s ∷ slots) order m =
        let last = last_largest [] s slots order in
        let missed = rw (back (length slots), last.1) at m in
        live-Others aborted key (s ∷ slots) (
          between-missed lower upper s.key last.0.key key (s ∷ slots) missed h
            (key_le_refl s.key, above_first s.key slots order.1) last.2)

pub stamp-copies :
    (read_ts : ℕ) (lower upper : RangeBound) (aborted key : List ℕ) (pages : List LeafPage)
    → All (λ (p : LeafPage). Sorted p.slots) pages
    → in_range lower upper key ≡ true
    → stamp key read_ts (all_live aborted (copies lower upper pages))
      ≡ stamp key read_ts (all_live aborted pages)
unfolding copies all_live
stamp-copies read_ts lower upper aborted key [] order h = refl
stamp-copies read_ts lower upper aborted key (p ∷ pages) order h =
    let ih = stamp-copies read_ts lower upper aborted key pages order.1 h in
    let all = stamp-append key read_ts (live aborted p.slots) (all_live aborted pages) in
    elim (Bool-cases (page_meets lower upper p)) [
      | inl e ↦
          let left =
            stamp-append key read_ts (live aborted p.slots)
              (all_live aborted (copies lower upper pages)) in
          rw e (omega (arith, ih, left, all))
      | inr e ↦
          let none_here =
            stamp-Others key read_ts (live aborted p.slots)
              (missed-Others lower upper aborted key p order.0 h e) in
          rw e (omega (arith, ih, none_here, all))
    ]

pub all_live-copies-All :
    (P : KeyValuePair → Type 0) (lower upper : RangeBound) (aborted : List ℕ)
    (pages : List LeafPage)
    → All P (all_live aborted pages)
    → All P (all_live aborted (copies lower upper pages))
unfolding copies all_live
all_live-copies-All P lower upper aborted [] h = tt
all_live-copies-All P lower upper aborted (p ∷ pages) h =
    let later =
      all_live-copies-All P lower upper aborted pages
        (All-append_right P (live aborted p.slots) (all_live aborted pages) h) in
    elim (Bool-cases (page_meets lower upper p)) [
      | inl e ↦ rw e (
          All-append P (live aborted p.slots) (all_live aborted (copies lower upper pages))
            (All-append_left P (live aborted p.slots) (all_live aborted pages) h) later)
      | inr e ↦ rw e later
    ]

-- A list that ascends goes on to ascend where its end loses entries.
Ascending-shorter :
    (xs ys zs : List KeyValuePair)
    → Ascending (xs ++ ys)
    → Ascending zs
    → ((P : KeyValuePair → Type 0) → All P ys → All P zs)
    → Ascending (xs ++ zs)
Ascending-shorter [] ys zs up later fewer = later
Ascending-shorter (x ∷ xs) ys zs up later fewer = (
  All-append (λ (y : KeyValuePair). key_lt x.key y.key ≡ true) xs zs
      (All-append_left (λ (y : KeyValuePair). key_lt x.key y.key ≡ true) xs ys up.0)
      (fewer (λ (y : KeyValuePair). key_lt x.key y.key ≡ true)
        (All-append_right (λ (y : KeyValuePair). key_lt x.key y.key ≡ true) xs ys up.0)),
  Ascending-shorter xs ys zs up.1 later fewer,
)

pub Ascending-copies :
    (lower upper : RangeBound) (aborted : List ℕ) (pages : List LeafPage)
    → Ascending (all_live aborted pages)
    → Ascending (all_live aborted (copies lower upper pages))
unfolding copies all_live
Ascending-copies lower upper aborted [] up = tt
Ascending-copies lower upper aborted (p ∷ pages) up =
    let later =
      Ascending-copies lower upper aborted pages
        (Ascending-append_right (live aborted p.slots) (all_live aborted pages) up) in
    elim (Bool-cases (page_meets lower upper p)) [
      | inl e ↦ rw e (
          Ascending-shorter (live aborted p.slots) (all_live aborted pages)
            (all_live aborted (copies lower upper pages)) up later
            (λ P. all_live-copies-All P lower upper aborted pages))
      | inr e ↦ rw e later
    ]

pub length-copies :
    (lower upper : RangeBound) (aborted : List ℕ) (pages : List LeafPage)
    → length (all_live aborted (copies lower upper pages)) ≤ length (all_live aborted pages)
unfolding copies all_live
length-copies lower upper aborted [] = omega arith
length-copies lower upper aborted (p ∷ pages) =
    let ih = length-copies lower upper aborted pages in
    let all = length-append (live aborted p.slots) (all_live aborted pages) in
    let left = length-append (live aborted p.slots) (all_live aborted (copies lower upper pages)) in
    elim (Bool-cases (page_meets lower upper p)) [
      | inl e ↦ rw e (omega (arith, ih, all, left))
      | inr e ↦ rw e (omega (arith, ih, all))
    ]
