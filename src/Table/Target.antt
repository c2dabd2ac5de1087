-- ===== src/Table/Target.antt =====
-- The binary search for the block of a key.
use keyvaluedb.Prelude.{
  ℕ, zero, suc, ◌+◌, ◌/◌, ◌≤◌, ◌<◌, ◌≡◌, refl, ◌∙◌, inl, inr, true, false, List, [], ◌∷◌, ◌++◌,
  append-nil, append_assoc, arith, ltb, if◌then◌else◌, ltb→lt, Bool-cases, length, get_or,
  length-append, All,
}
use keyvaluedb.Bytes.{write_u16}
use keyvaluedb.Bytes.Fields.{read_u16-write_u16}
use keyvaluedb.Tree.Keys.{key_le, key_le_trans}
use keyvaluedb.Table.Write.{write_first_keys}
use keyvaluedb.Table.Parse.{IsShort, places_of, take-append, drop-append, write_first_keys-cons}
use keyvaluedb.Table.Lookup.{key_at, target_loop}

-- The keys ascend weakly.
abbrev pub InOrder : List (List ℕ) → Type 0
InOrder [] = Unit
InOrder (k ∷ ks) = All (λ (x : List ℕ). key_le k x ≡ true) ks × InOrder ks

-- How many keys at the front are not above the given one.
unfoldable pub upto : List ℕ → List (List ℕ) → ℕ
upto key [] = 0
upto key (k ∷ ks) = if key_le k key then suc (upto key ks) else 0

pub upto-le : (key : List ℕ) (ks : List (List ℕ)) → upto key ks ≤ length ks
unfolding upto
upto-le key [] = omega arith
upto-le key (k ∷ ks) = ground (arith, upto-le key ks)

upto_none :
    (k key : List ℕ) (ks : List (List ℕ))
    → key_le k key ≡ false
    → All (λ (x : List ℕ). key_le k x ≡ true) ks
    → (i : ℕ) → i < length ks
    → key_le (get_or ks i []) key ≡ false
upto_none k key [] h above i lt = absurd (omega arith)
upto_none k key (x ∷ ks) h above zero lt = ground (arith, key_le_trans k x key, h, above.0)
upto_none k key (x ∷ ks) h above (suc i) lt = upto_none k key ks h above.1 i (omega arith)

-- A key is not above the given one just where it stands before that number.
pub upto_iff :
    (key : List ℕ) (ks : List (List ℕ)) (i : ℕ)
    → InOrder ks
    → i < length ks
    → key_le (get_or ks i []) key ≡ ltb i (upto key ks)
unfolding upto
upto_iff key [] i h lt = absurd (omega arith)
upto_iff key (k ∷ ks) zero h lt = ground arith
upto_iff key (k ∷ ks) (suc i) h lt = elim (Bool-cases (key_le k key)) [
  | inl e ↦ rw e (upto_iff key ks i h.1 (omega arith) ∙ ground arith)
  | inr e ↦ rw (e, upto_none k key ks e h.0 i (omega arith)) (ground arith)
]

first_keys_split :
    (k : List ℕ) (ks : List (List ℕ))
    → IsShort k
    → write_first_keys (k ∷ ks) ≡ write_u16 (length k) ++ (k ++ write_first_keys ks)
first_keys_split k ks short = simp append-nil at (write_first_keys-cons k ks [] short)

length-write_u16 : (n : ℕ) (k : List ℕ) → length (write_u16 n ++ k) ≡ 2 + length k
unfolding write_u16
length-write_u16 n k = omega arith

key_at-places :
    (before : List ℕ) (ks : List (List ℕ)) (i : ℕ)
    → All IsShort ks
    → i < length ks
    → key_at (before ++ write_first_keys ks) (get_or (places_of (length before) ks) i 0)
      ≡ get_or ks i []
unfolding key_at places_of
key_at-places before [] i short lt = absurd (omega arith)
key_at-places before (k ∷ ks) zero short lt =
    rw
      (
        key_at,
        drop-append before (write_first_keys (k ∷ ks)),
        first_keys_split k ks short.0,
        read_u16-write_u16 (length k) (k ++ write_first_keys ks) short.0,
        take-append k (write_first_keys ks),
      )
      refl
key_at-places before (k ∷ ks) (suc i) short lt =
    let next = before ++ (write_u16 (length k) ++ k) in
    let place : length before + 2 + length k ≡ length next =
      omega
        (arith, length-append before (write_u16 (length k) ++ k), length-write_u16 (length k) k) in
    let same : before ++ write_first_keys (k ∷ ks) ≡ next ++ write_first_keys ks =
      rw (first_keys_split k ks short.0) (simp append_assoc) in
    rw (place, same) (key_at-places next ks i short.1 (omega arith))

-- What the search reads at a key's place is the key.
key_at-places_of :
    (ks : List (List ℕ)) (i : ℕ)
    → All IsShort ks
    → i < length ks
    → key_at (write_first_keys ks) (get_or (places_of 0 ks) i 0) ≡ get_or ks i []
key_at-places_of ks i short lt = key_at-places [] ks i short lt

pub target_loop-upto :
    (fuel : ℕ) (ks : List (List ℕ)) (key : List ℕ) (lo hi : ℕ)
    → All IsShort ks
    → InOrder ks
    → hi ≤ lo + fuel
    → hi ≤ length ks
    → lo ≤ upto key ks
    → upto key ks ≤ hi
    → target_loop fuel (write_first_keys ks) (places_of 0 ks) key lo hi ≡ upto key ks
unfolding target_loop
target_loop-upto zero ks key lo hi short order f h l u = omega arith
target_loop-upto (suc n) ks key lo hi short order f h l u = elim (Bool-cases (ltb lo hi)) [
  | inr e ↦ rw e (ground (arith, e))
  | inl e ↦
      let lt : lo < hi = ltb→lt lo hi e in
      let mid = (lo + hi) / 2 in
      let at = key_at-places_of ks mid short (omega arith) in
      let order_at = upto_iff key ks mid order (omega arith) in
      elim (Bool-cases (ltb mid (upto key ks))) [
        | inl b ↦
            rw (e, at, order_at, b)
              (target_loop-upto n ks key (mid + 1) hi short order (omega arith) h
                (ground (arith, b)) u)
        | inr b ↦
            rw (e, at, order_at, b)
              (target_loop-upto n ks key lo mid short order (omega arith) (omega arith) l
                (ground (arith, b)))
      ]
]
