-- ===== src/Table/Locate.antt =====
-- Which block holds a key, where the keys of a table ascend strictly.
use keyvaluedb.Prelude.{
  ℕ, zero, suc, ◌<◌, ◌≡◌, refl, sym, ◌⊎◌, inl, inr, Bool, true, false, not, Option, none, some,
  List, [], ◌∷◌, ◌++◌, arith, ◌==◌, if◌then◌else◌, Bool-cases, contains, length, get_elem?, All,
}
use keyvaluedb.Types.{KeyValuePair}
use keyvaluedb.Tree.Keys.{key_le, key_eq, key_eq_iff, key_le_refl, key_le_total}
use keyvaluedb.Table.Chunks.{concat}
use keyvaluedb.Table.Pieces.{opened, opened_all}
use keyvaluedb.Table.Scan.{first_version}
use keyvaluedb.Table.Target.{upto}

-- a < b
abbrev pub key_lt : List ℕ → List ℕ → Bool
key_lt a b = not (key_le b a)

abbrev pub Ascending : List KeyValuePair → Type 0
Ascending [] = Unit
Ascending (kv ∷ kvs) = All (λ (x : KeyValuePair). key_lt kv.key x.key ≡ true) kvs × Ascending kvs

pub All-append_left {ℓ κ} :
    {A : Type ℓ} (P : A → Type κ) (xs ys : List A) → All P (xs ++ ys) → All P xs
All-append_left P [] ys h = tt
All-append_left P (x ∷ xs) ys h = (h.0, All-append_left P xs ys h.1)

pub All-append_right {ℓ κ} :
    {A : Type ℓ} (P : A → Type κ) (xs ys : List A) → All P (xs ++ ys) → All P ys
All-append_right P [] ys h = h
All-append_right P (x ∷ xs) ys h = All-append_right P xs ys h.1

pub All-map {ℓ κ} :
    {A : Type ℓ} (P Q : A → Type κ) (xs : List A) → ((x : A) → P x → Q x) → All P xs → All Q xs
All-map P Q [] f h = tt
All-map P Q (x ∷ xs) f h = (f x h.0, All-map P Q xs f h.1)

pub Ascending-append_right : (xs ys : List KeyValuePair) → Ascending (xs ++ ys) → Ascending ys
Ascending-append_right [] ys h = h
Ascending-append_right (x ∷ xs) ys h = Ascending-append_right xs ys h.1

-- Entries of other keys.
abbrev pub Others : List ℕ → List KeyValuePair → Type 0
Others key kvs = All (λ (x : KeyValuePair). key_eq x.key key ≡ false) kvs

pub lt_ne : (a b : List ℕ) → key_lt a b ≡ true → key_eq b a ≡ false
lt_ne a b h = elim (Bool-cases (key_eq b a)) [
  | inl e ↦ absurd (ground (arith, (key_eq_iff b a).0 e, key_le_refl a, h))
  | inr e ↦ e
]

module _ (aborted key : List ℕ) (read_ts : ℕ) where
  pub first_version-Others :
      (kvs : List KeyValuePair) → Others key kvs → first_version aborted key read_ts kvs ≡ none
  unfolding first_version
  first_version-Others [] h = refl
  first_version-Others (kv ∷ kvs) h = elim (Bool-cases (contains kv.timestamp aborted)) [
    | inl e ↦ rw (e, first_version-Others kvs h.1) refl
    | inr e ↦ rw (e, h.0, first_version-Others kvs h.1) refl
  ]

  first_version-append_Others :
      (xs ys : List KeyValuePair)
      → Others key ys
      → first_version aborted key read_ts (xs ++ ys) ≡ first_version aborted key read_ts xs
  unfolding first_version
  first_version-append_Others [] ys h = first_version-Others ys h
  first_version-append_Others (x ∷ xs) ys h = rw (first_version-append_Others xs ys h) refl

  first_version-Others_append :
      (xs ys : List KeyValuePair)
      → Others key xs
      → first_version aborted key read_ts (xs ++ ys) ≡ first_version aborted key read_ts ys
  unfolding first_version
  first_version-Others_append [] ys h = refl
  first_version-Others_append (x ∷ xs) ys h = elim (Bool-cases (contains x.timestamp aborted)) [
    | inl e ↦ rw (e, first_version-Others_append xs ys h.1) refl
    | inr e ↦ rw (e, h.0, first_version-Others_append xs ys h.1) refl
  ]

-- All entries behind one that is above the key are of other keys.
above-Others :
    (k key : List ℕ) (kvs : List KeyValuePair)
    → key_le k key ≡ false
    → All (λ (x : KeyValuePair). key_lt k x.key ≡ true) kvs
    → Others key kvs
above-Others k key [] h above = tt
above-Others k key (x ∷ kvs) h above = (
  elim (Bool-cases (key_eq x.key key)) [
    | inl e ↦ absurd (ground (arith, (key_eq_iff x.key key).0 e, h, above.0, key_le_total k x.key))
    | inr e ↦ e
  ],
  above-Others k key kvs h above.1,
)

first-Others : (k key : List ℕ) → key_le k key ≡ false → key_eq k key ≡ false
first-Others k key h = elim (Bool-cases (key_eq k key)) [
  | inl e ↦ absurd (ground (arith, (key_eq_iff k key).0 e, h, key_le_refl key))
  | inr e ↦ e
]

-- All entries before one that is not above the key are of other keys.
before-Others :
    (key : List ℕ) (xs : List KeyValuePair) (kv : KeyValuePair) (rest : List KeyValuePair)
    → Ascending (xs ++ kv ∷ rest)
    → key_le kv.key key ≡ true
    → Others key xs
before-Others key [] kv rest order h = tt
before-Others key (x ∷ xs) kv rest order h =
    let below =
      All-append_right (λ (y : KeyValuePair). key_lt x.key y.key ≡ true) xs (kv ∷ rest) order.0 in
    (
      elim (Bool-cases (key_eq x.key key)) [
        | inl e ↦ absurd (ground (arith, (key_eq_iff x.key key).0 e, h, below.0))
        | inr e ↦ e
      ],
      before-Others key xs kv rest order.1 h,
    )

abbrev pub IsFilled : List KeyValuePair → Type 0
IsFilled c = 0 < length c

-- Where no first key is at most the key, no block holds it.
upto_zero-Others :
    (key : List ℕ) (chunks : List (List KeyValuePair))
    → All IsFilled chunks
    → Ascending (concat chunks)
    → upto key (opened_all chunks) ≡ 0
    → Others key (concat chunks)
unfolding concat opened_all opened upto
upto_zero-Others key [] filled order e = tt
upto_zero-Others key ([] ∷ cs) filled order e = absurd (omega (arith, filled.0))
upto_zero-Others key ((kv ∷ c) ∷ cs) filled order e = elim (Bool-cases (key_le kv.key key)) [
  | inl le ↦ absurd (ground (arith, le, e))
  | inr gt ↦ (first-Others kv.key key gt, above-Others kv.key key (c ++ concat cs) gt order.0)
]

-- Either the blocks from the second one on are of other keys, or the first one is.
one_side :
    (key : List ℕ) (c : List KeyValuePair) (cs : List (List KeyValuePair))
    → All IsFilled cs
    → Ascending (c ++ concat cs)
    → ((upto key (opened_all cs) ≡ 0) × Others key (concat cs))
      ⊎ ((0 < upto key (opened_all cs)) × Others key c)
unfolding concat opened_all opened upto
one_side key c [] filled order = inl (refl, tt)
one_side key c ([] ∷ cs) filled order = absurd (omega (arith, filled.0))
one_side key c ((kv ∷ d) ∷ cs) filled order = elim (Bool-cases (key_le kv.key key)) [
  | inl le ↦ inr (ground (arith, le), before-Others key c kv (d ++ concat cs) order le)
  | inr gt ↦
      let right = Ascending-append_right c (kv ∷ (d ++ concat cs)) order in
      inl (
        rw gt refl,
        (first-Others kv.key key gt, above-Others kv.key key (d ++ concat cs) gt right.0),
      )
]

same_suc : (a b : ℕ) → (suc a == suc b) ≡ (a == b)
same_suc a b = ground arith

suc_zero : (a : ℕ) → (suc a == 0) ≡ false
suc_zero a = ground arith

-- The version that the i-th block gives.
unfoldable pub version_at : List ℕ → List ℕ → ℕ → List (List KeyValuePair) → ℕ → Option (List ℕ)
version_at aborted key read_ts chunks i = elim (get_elem? chunks i) [
  | none ↦ none
  | some c ↦ first_version aborted key read_ts c
]

module _ (aborted key : List ℕ) (read_ts : ℕ) where
  version_at-Others :
      (chunks : List (List KeyValuePair)) (i : ℕ)
      → Others key (concat chunks)
      → version_at aborted key read_ts chunks i ≡ none
  unfolding version_at concat
  version_at-Others [] i h = refl
  version_at-Others (c ∷ cs) zero h =
      first_version-Others aborted key read_ts c (All-append_left _ c (concat cs) h)
  version_at-Others (c ∷ cs) (suc i) h = version_at-Others cs i (All-append_right _ c (concat cs) h)

  -- The last block whose first key is at most the key gives the table's version, and all others
  -- give none.
  pub version_at-concat :
      (chunks : List (List KeyValuePair)) (i : ℕ)
      → All IsFilled chunks
      → Ascending (concat chunks)
      → version_at aborted key read_ts chunks i ≡ (
          if suc i == upto key (opened_all chunks)
          then first_version aborted key read_ts (concat chunks)
          else none)
  unfolding version_at concat opened_all opened upto
  version_at-concat [] i filled order = ground arith
  version_at-concat ([] ∷ cs) i filled order = absurd (omega (arith, filled.0))
  version_at-concat ((kv ∷ c) ∷ cs) zero filled order = elim (Bool-cases (key_le kv.key key)) [
    | inr gt ↦ rw gt (
        version_at-Others ((kv ∷ c) ∷ cs) zero
          (first-Others kv.key key gt, above-Others kv.key key (c ++ concat cs) gt order.0))
    | inl le ↦ elim (one_side key (kv ∷ c) cs filled.1 order) [
      | inl (e, others) ↦
          rw (le, e)
            (sym (first_version-append_Others aborted key read_ts (kv ∷ c) (concat cs) others))
      | inr (p, others) ↦
          let ne : (1 == suc (upto key (opened_all cs))) ≡ false = ground (arith, p) in
          rw (le, ne) (first_version-Others aborted key read_ts (kv ∷ c) others)
    ]
  ]
  version_at-concat ((kv ∷ c) ∷ cs) (suc i) filled order =
      let rest =
        version_at-concat cs i filled.1 (Ascending-append_right (kv ∷ c) (concat cs) order) in
      let u = upto key (opened_all cs) in
      elim (Bool-cases (key_le kv.key key)) [
        | inr gt ↦
            rw (gt, suc_zero (suc i))
              (version_at-Others ((kv ∷ c) ∷ cs) (suc i)
                (first-Others kv.key key gt, above-Others kv.key key (c ++ concat cs) gt order.0))
        | inl le ↦ elim (one_side key (kv ∷ c) cs filled.1 order) [
          | inl (e, others) ↦
              let none_there = rw (e, suc_zero i) at rest in
              rw (le, e, same_suc (suc i) 0, suc_zero i) none_there
          | inr (p, others) ↦
              rw
                (
                  le,
                  same_suc (suc i) u,
                  first_version-Others_append aborted key read_ts (kv ∷ c) (concat cs) others,
                )
                rest
        ]
      ]

  pub first_version-upto_zero :
      (chunks : List (List KeyValuePair))
      → All IsFilled chunks
      → Ascending (concat chunks)
      → upto key (opened_all chunks) ≡ 0
      → first_version aborted key read_ts (concat chunks) ≡ none
  first_version-upto_zero chunks filled order e =
      first_version-Others aborted key read_ts (concat chunks)
        (upto_zero-Others key chunks filled order e)
