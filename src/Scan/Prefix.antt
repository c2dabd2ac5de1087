-- ===== src/Scan/Prefix.antt =====
-- LSMTreeEngine::PrefixScan (src/engine.cpp): the bounds that it makes of a prefix.
use keyvaluedb.Prelude.{
  ℕ, suc, ◌+◌, ◌%◌, ◌≤◌, ◌<◌, ◌≡◌, refl, ap, ◌∙◌, ◌≢◌, ◌⊎◌, inl, inr, Bool, true, false, not, ◌&&◌,
  ◌||◌, List, [], ◌∷◌, arith, ◌==◌, if◌then◌else◌, ==_iff, Bool-cases, length, All,
}
use mathlib.Core.List.{Mem}
use keyvaluedb.Types.{KeyValuePair}
use keyvaluedb.Protocol.{RangeBound, unbounded}
use keyvaluedb.Tree.Keys.{key_le}
use keyvaluedb.Table.Locate.{Ascending}
use keyvaluedb.Table.Chunks.{concat}
use keyvaluedb.Scan.{is_unbounded, above_upper, range_iterator}
use keyvaluedb.Scan.Stamps.{stamp}
use keyvaluedb.Scan.Seek.{below_lower, in_range}
use keyvaluedb.Scan.Range.{range_iterator-newest}

-- What the loop leaves that pops the bytes 0xFF off the end
unfoldable pub pop_ff : List ℕ → List ℕ
pop_ff [] = []
pop_ff (b ∷ bs) = let rest = pop_ff bs in if length rest == 0 && b == 255 then [] else b ∷ rest

-- upper.back() plus one
unfoldable pub add_back : List ℕ → List ℕ
add_back [] = []
add_back (b ∷ []) = (b + 1) % 256 ∷ []
add_back (b ∷ c ∷ bs) = b ∷ add_back (c ∷ bs)

unfoldable pub prefix_upper : List ℕ → RangeBound
prefix_upper prefix =
    let upper = pop_ff prefix in
    if length upper == 0 then unbounded else record { key = add_back upper; inclusive = false }

-- PrefixScan over the sources that RangeScan collects
unfoldable pub prefix_scan : ℕ → ℕ → List ℕ → List (List KeyValuePair) → List KeyValuePair
prefix_scan fuel read_ts prefix sources =
    range_iterator fuel read_ts (record { key = prefix; inclusive = true }) (prefix_upper prefix)
      sources

-- The key starts with the prefix.
unfoldable pub starts_with : List ℕ → List ℕ → Bool
starts_with [] key = true
starts_with (b ∷ bs) [] = false
starts_with (b ∷ bs) (k ∷ key) = b == k && starts_with bs key

abbrev pub Bytes : List ℕ → Type 0
Bytes bs = All (λ (b : ℕ). b < 256) bs

add_back_cons : (b c : ℕ) (bs : List ℕ) → add_back (b ∷ c ∷ bs) ≡ b ∷ add_back (c ∷ bs)
unfolding add_back
add_back_cons b c bs = refl

add_back_one : (b : ℕ) → b < 255 → add_back (b ∷ []) ≡ (b + 1) ∷ []
unfolding add_back
add_back_one b h = ap (λ (n : ℕ). n ∷ []) (omega arith)

-- Whether a key lies at the prefix or behind it, and below the upper bound
between : List ℕ → List ℕ → Bool
between prefix key =
    key_le prefix key
    && (length (pop_ff prefix) == 0 || not (key_le (add_back (pop_ff prefix)) key))

pop_ff-cases :
    (b : ℕ) (bs : List ℕ)
    → ((pop_ff bs ≡ []) × (b ≡ 255) × (pop_ff (b ∷ bs) ≡ []))
      ⊎ (((pop_ff bs ≡ []) × (b ≢ 255) × (pop_ff (b ∷ bs) ≡ b ∷ []))
          ⊎ ((c : ℕ) × (cs : List ℕ) × (pop_ff bs ≡ c ∷ cs) × (pop_ff (b ∷ bs) ≡ b ∷ c ∷ cs)))
unfolding pop_ff
pop_ff-cases b bs = go (pop_ff bs) refl
  where
    go :
        (rest : List ℕ)
        → pop_ff bs ≡ rest
        → ((pop_ff bs ≡ []) × (b ≡ 255) × (pop_ff (b ∷ bs) ≡ []))
          ⊎ (((pop_ff bs ≡ []) × (b ≢ 255) × (pop_ff (b ∷ bs) ≡ b ∷ []))
              ⊎ ((c : ℕ) × (cs : List ℕ) × (pop_ff bs ≡ c ∷ cs) × (pop_ff (b ∷ bs) ≡ b ∷ c ∷ cs)))
    go [] e = elim (Bool-cases (b == 255)) [
      | inl f ↦ inl (e, (==_iff b 255).0 f, rw (e, f) refl)
      | inr f ↦ inr (inl (e, (λ g. ground arith), rw (e, f) refl))
    ]
    go (c ∷ cs) e = inr (inr (c, cs, e, rw e (ground arith)))

between-starts_with :
    (prefix key : List ℕ) → Bytes prefix → Bytes key → between prefix key ≡ starts_with prefix key
unfolding between starts_with key_le
between-starts_with [] key p k = unfold pop_ff in refl
between-starts_with (b ∷ bs) [] p k = refl
between-starts_with (b ∷ bs) (c ∷ key) p k =
    let ih = between-starts_with bs key p.1 k.1 in
    elim (pop_ff-cases b bs) [
      | inl (e, f, g) ↦ let rest = rw e at ih in rw (g, f) (ground (arith, rest, k.0))
      | inr (inl (e, f, g)) ↦
          let rest = rw e at ih in
          rw (g, add_back_one b (omega (arith, f, p.0))) (ground (arith, rest))
      | inr (inr (d, ds, e, g)) ↦
          let rest = rw e at ih in rw (g, add_back_cons b d ds) (ground (arith, rest))
    ]

length-add_back : (bs : List ℕ) → length (add_back bs) ≡ length bs
unfolding add_back
length-add_back [] = refl
length-add_back (b ∷ []) = refl
length-add_back (b ∷ c ∷ bs) = ap suc (length-add_back (c ∷ bs))

lower-prefix :
    (prefix key : List ℕ)
    → not (not (length prefix == 0) && not (key_le prefix key)) ≡ key_le prefix key
unfolding key_le
lower-prefix [] key = refl
lower-prefix (b ∷ bs) key = ground arith

upper-prefix :
    (prefix key : List ℕ)
    → not (above_upper (prefix_upper prefix) key)
      ≡ (length (pop_ff prefix) == 0 || not (key_le (add_back (pop_ff prefix)) key))
unfolding above_upper prefix_upper is_unbounded unbounded
upper-prefix prefix key = elim (Bool-cases (length (pop_ff prefix) == 0)) [
  | inl e ↦ rw e refl
  | inr e ↦
      let back : (length (add_back (pop_ff prefix)) == 0) ≡ false =
        rw (length-add_back (pop_ff prefix)) e in
      rw (e, back) refl
]

in_range-between :
    (prefix key : List ℕ)
    → in_range (record { key = prefix; inclusive = true }) (prefix_upper prefix) key
      ≡ between prefix key
unfolding in_range below_lower is_unbounded between
in_range-between prefix key = rw (lower-prefix prefix key, upper-prefix prefix key) refl

-- What is read from a prefix scan over sources that ascend: visible entries of the sources, with
-- ascending keys; of each key of bytes that starts with the prefix, itself of bytes, the newest visible
-- version, and of other keys nothing. The empty prefix and one that ends with 0xFF are no exceptions.
pub prefix_scan-newest :
    (fuel read_ts : ℕ) (prefix key : List ℕ) (sources : List (List KeyValuePair))
    → All Ascending sources
    → length (concat sources) ≤ fuel
    → Bytes prefix
    → Bytes key
    → Ascending (prefix_scan fuel read_ts prefix sources)
      × All
          (λ (kv : KeyValuePair). kv.timestamp ≤ read_ts)
          (prefix_scan fuel read_ts prefix sources)
      × All
          (λ (kv : KeyValuePair). Mem kv (concat sources))
          (prefix_scan fuel read_ts prefix sources)
      × (stamp key read_ts (prefix_scan fuel read_ts prefix sources)
          ≡ (if starts_with prefix key then stamp key read_ts (concat sources) else 0))
unfolding prefix_scan
prefix_scan-newest fuel read_ts prefix key sources up enough prefix_bytes key_bytes =
    let scan =
      range_iterator-newest fuel read_ts (record { key = prefix; inclusive = true })
        (prefix_upper prefix) sources up enough in
    (
      scan.0,
      scan.1,
      scan.2,
      scan.3 key
          ∙ (rw (in_range-between prefix key, between-starts_with prefix key prefix_bytes key_bytes)
              refl),
    )
