-- ===== src/Table/Batches.antt =====
-- The sizes of the batches that Compact writes to a table each.
use keyvaluedb.Prelude.{
  ℕ, ◌+◌, ◌≤◌, ◌≡◌, refl, sym, ◌⊎◌, inl, inr, false, List, [], ◌∷◌, ◌++◌, append_assoc, arith, ltb,
  ◌==◌, Bool-cases, length, length-append, All,
}
use keyvaluedb.Types.{KeyValuePair}
use keyvaluedb.Table.Chunks.{concat}
use keyvaluedb.Table.Merge.{MergeBounds, merge_all, batches, compact}

-- The size that Compact counts for a list of entries
unfoldable pub batch_size : List KeyValuePair → ℕ
batch_size [] = 0
batch_size (kv ∷ kvs) = (length kv.key + length kv.value + 24) + batch_size kvs

-- A batch with entries, which fits the bound or has one entry only
unfoldable pub FitsTable : ℕ → List KeyValuePair → Type 0
FitsTable max_size batch = (1 ≤ length batch) × ((batch_size batch ≤ max_size) ⊎ (length batch ≡ 1))

batch_size-snoc :
    (kvs : List KeyValuePair) (kv : KeyValuePair)
    → batch_size (kvs ++ (kv ∷ [])) ≡ batch_size kvs + (length kv.key + length kv.value + 24)
unfolding batch_size
batch_size-snoc [] kv = omega arith
batch_size-snoc (x ∷ kvs) kv = rw (batch_size-snoc kvs kv) (omega arith)

FitsTable-one : (max_size : ℕ) (kv : KeyValuePair) → FitsTable max_size (kv ∷ [])
unfolding FitsTable
FitsTable-one max_size kv = (omega arith, inr refl)

FitsTable-snoc :
    (max_size : ℕ) (kvs : List KeyValuePair) (kv : KeyValuePair)
    → batch_size kvs + (length kv.key + length kv.value + 24) ≤ max_size
    → FitsTable max_size (kvs ++ (kv ∷ []))
unfolding FitsTable
FitsTable-snoc max_size kvs kv h =
    (rw (length-append kvs (kv ∷ [])) (omega arith), inl (rw (batch_size-snoc kvs kv) h))

-- What the batches of the loop are, with the batch so far put before the entries
unfoldable IsBatching : ℕ → List KeyValuePair → List (List KeyValuePair) → Type 0
IsBatching max_size kvs out = All (FitsTable max_size) out × (concat out ≡ kvs)

length_ne : (kvs : List KeyValuePair) → 1 ≤ length kvs → (length kvs == 0) ≡ false
length_ne kvs h = ground arith

not_lt : (a b : ℕ) → ltb a b ≡ false → b ≤ a
not_lt a b h = ground arith

IsBatching-cons :
    (max_size : ℕ) (batch kvs : List KeyValuePair) (out : List (List KeyValuePair))
    → FitsTable max_size batch
    → IsBatching max_size kvs out
    → IsBatching max_size (batch ++ kvs) (batch ∷ out)
unfolding IsBatching concat
IsBatching-cons max_size batch kvs out fits h = ((fits, h.0), rw h.1 refl)

batches-IsBatching :
    (max_size : ℕ) (batch : List KeyValuePair) (approx : ℕ) (kvs : List KeyValuePair)
    → approx ≡ batch_size batch
    → FitsTable max_size batch
    → IsBatching max_size (batch ++ kvs) (batches max_size batch approx kvs)
unfolding batches FitsTable IsBatching batch_size concat
batches-IsBatching max_size batch approx [] same fits =
    rw (length_ne batch fits.0) ((fits, tt), refl)
batches-IsBatching max_size batch approx (kv ∷ kvs) same fits =
    let es = length kv.key + length kv.value + 24 in
    let cut =
      batches-IsBatching max_size (kv ∷ []) es kvs (omega arith) (FitsTable-one max_size kv) in
    elim (Bool-cases (ltb max_size (approx + es))) [
      | inl e ↦
          rw (length_ne batch fits.0, e) (IsBatching-cons max_size batch (kv ∷ kvs) _ fits cut)
      | inr e ↦
          let more =
            batches-IsBatching max_size (batch ++ (kv ∷ [])) (approx + es) kvs
              (rw (batch_size-snoc batch kv) (omega (arith, same)))
              (FitsTable-snoc max_size batch kv
                (omega (arith, same, not_lt max_size (approx + es) e))) in
          rw (length_ne batch fits.0, e, sym (append_assoc batch (kv ∷ []) kvs)) more
    ]

start-IsBatching :
    (max_size : ℕ) (kvs : List KeyValuePair) → IsBatching max_size kvs (batches max_size [] 0 kvs)
unfolding batches IsBatching batch_size concat
start-IsBatching max_size [] = (tt, refl)
start-IsBatching max_size (kv ∷ kvs) =
    batches-IsBatching max_size (kv ∷ []) (0 + (length kv.key + length kv.value + 24)) kvs
      (omega arith) (FitsTable-one max_size kv)

-- Each table of a merge has entries, and these, counted with 24 bytes beside key and value, are at
-- most the table's size or are one entry. The tables together hold what the merge yields, in its order.
pub compact-FitsTable :
    (fuel max_size : ℕ) (c : MergeBounds) (sources : List (List KeyValuePair))
    → All (FitsTable max_size) (compact fuel c max_size sources)
      × (concat (compact fuel c max_size sources) ≡ merge_all fuel c sources)
unfolding compact IsBatching
compact-FitsTable fuel max_size c sources = start-IsBatching max_size (merge_all fuel c sources)
