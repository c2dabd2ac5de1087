-- ===== src/Table/Fetch.antt =====
-- What the parts of a written table are, for a lookup: its blocks, their places and first keys.
use keyvaluedb.Prelude.{
  map, ◌≤◌, ℕ, zero, suc, ◌+◌, ◌^◌, ◌<◌, ◌≡◌, refl, sym, ap, true, List, [], ◌∷◌, ◌++◌,
  append_assoc, arith, ◌>>=◌, length, get_elem?, drop, length-append, All,
}
use keyvaluedb.Types.{KeyValuePair}
use keyvaluedb.Tree.Keys.{key_le, key_le_total}
use keyvaluedb.Bytes.{write_u32}
use keyvaluedb.Table.Builder.{frame, serialize, wire_size, write_entry, write_entries}
use keyvaluedb.Table.Write.{write_first_keys}
use keyvaluedb.Table.Read.{get_block}
use keyvaluedb.Table.Chunks.{
  FitsBlock, length-write_entry, length-chunk_bytes, IsChunk, chunk_bytes, chunks_bytes, concat,
  get_block-frame,
}
use keyvaluedb.Table.Pieces.{opened, opened_all, starts}
use keyvaluedb.Table.Lookup.{scan_block}
use keyvaluedb.Table.Scan.{scan_block-chunk_bytes}
use keyvaluedb.Table.Parse.{length-write_first_keys, Joins, IsShort, drop-append}
use keyvaluedb.Table.Target.{InOrder}
use keyvaluedb.Table.Locate.{
  Ascending, key_lt, IsFilled, version_at, All-append_right, Ascending-append_right,
}

-- The block at the i-th place is the i-th block.
pub search-version_at :
    (aborted key : List ℕ) (read_ts : ℕ) (before : List ℕ) (chunks : List (List KeyValuePair))
    (rest : List ℕ) (i : ℕ)
    → All IsChunk chunks
    → (get_elem? (starts (length before) chunks) i >>= λ offset.
        scan_block aborted
          (get_block (drop offset (before ++ (chunks_bytes chunks ++ rest)))).0
          key
          read_ts)
      ≡ version_at aborted key read_ts chunks i
unfolding version_at starts chunks_bytes
search-version_at aborted key read_ts before [] rest i h = refl
search-version_at aborted key read_ts before (c ∷ cs) rest zero h =
    rw
      (
        append_assoc (frame (chunk_bytes c)) (chunks_bytes cs) rest,
        drop-append before (frame (chunk_bytes c) ++ (chunks_bytes cs ++ rest)),
        get_block-frame (chunk_bytes c) (chunks_bytes cs ++ rest) h.0.short,
      )
      (scan_block-chunk_bytes aborted key read_ts c h.0)
search-version_at aborted key read_ts before (c ∷ cs) rest (suc i) h =
    let next = before ++ frame (chunk_bytes c) in
    let place : length before + length (frame (chunk_bytes c)) ≡ length next =
      sym (length-append before (frame (chunk_bytes c))) in
    let same : before ++ ((frame (chunk_bytes c) ++ chunks_bytes cs) ++ rest)
        ≡ next ++ (chunks_bytes cs ++ rest) =
      simp append_assoc in
    rw (place, same) (search-version_at aborted key read_ts next cs rest i h.1)

pub All-IsFilled : (chunks : List (List KeyValuePair)) → All IsChunk chunks → All IsFilled chunks
All-IsFilled [] h = tt
All-IsFilled (c ∷ cs) h = (h.0.some_entry, All-IsFilled cs h.1)

pub length-starts :
    (n : ℕ) (chunks : List (List KeyValuePair)) → length (starts n chunks) ≡ length chunks
unfolding starts
length-starts n [] = refl
length-starts n (c ∷ cs) = ap suc (length-starts (n + length (frame (chunk_bytes c))) cs)

pub length-opened_all :
    (chunks : List (List KeyValuePair))
    → All IsFilled chunks
    → length (opened_all chunks) ≡ length chunks
unfolding opened_all opened
length-opened_all [] h = refl
length-opened_all ([] ∷ cs) h = absurd (omega (arith, h.0))
length-opened_all ((kv ∷ c) ∷ cs) h = ap suc (length-opened_all cs h.1)

pub starts-Joins :
    (n : ℕ) (chunks : List (List KeyValuePair))
    → n + length (chunks_bytes chunks) < 2 ^ 31
    → All Joins (starts n chunks)
unfolding starts chunks_bytes
starts-Joins n [] h = tt
starts-Joins n (c ∷ cs) h =
    let size = length-append (frame (chunk_bytes c)) (chunks_bytes cs) in
    (
      (omega (arith, h), omega (arith, h)),
      starts-Joins (n + length (frame (chunk_bytes c))) cs (omega (arith, h, size)),
    )

abbrev pub HasShortKey : KeyValuePair → Type 0
HasShortKey kv = IsShort kv.key

pub opened_all-IsShort :
    (chunks : List (List KeyValuePair))
    → All HasShortKey (concat chunks)
    → All IsShort (opened_all chunks)
unfolding opened_all opened concat
opened_all-IsShort [] h = tt
opened_all-IsShort ([] ∷ cs) h = opened_all-IsShort cs h
opened_all-IsShort ((kv ∷ c) ∷ cs) h =
    (h.0, opened_all-IsShort cs (All-append_right HasShortKey c (concat cs) h.1))

abbrev NotBelow : List ℕ → KeyValuePair → Type 0
NotBelow k x = key_lt k x.key ≡ true

opened_all-above :
    (k : List ℕ) (chunks : List (List KeyValuePair))
    → All (NotBelow k) (concat chunks)
    → All (λ (x : List ℕ). key_le k x ≡ true) (opened_all chunks)
unfolding opened_all opened concat
opened_all-above k [] h = tt
opened_all-above k ([] ∷ cs) h = opened_all-above k cs h
opened_all-above k ((kv ∷ c) ∷ cs) h = (
  ground (arith, h.0, key_le_total k kv.key),
  opened_all-above k cs (All-append_right (NotBelow k) c (concat cs) h.1),
)

pub opened_all-InOrder :
    (chunks : List (List KeyValuePair)) → Ascending (concat chunks) → InOrder (opened_all chunks)
unfolding opened_all opened concat
opened_all-InOrder [] h = tt
opened_all-InOrder ([] ∷ cs) h = opened_all-InOrder cs h
opened_all-InOrder ((kv ∷ c) ∷ cs) h = (
  opened_all-above kv.key cs (All-append_right (NotBelow kv.key) c (concat cs) h.0),
  opened_all-InOrder cs (Ascending-append_right (kv ∷ c) (concat cs) h),
)

length-frame : (bytes : List ℕ) → length (frame bytes) ≡ 9 + length bytes
unfolding frame write_u32
length-frame bytes = omega arith

first_entry :
    (kv : KeyValuePair) (c : List KeyValuePair)
    → FitsBlock kv
    → 2 + length kv.key ≤ length (write_entries (map serialize (kv ∷ c)))
unfolding write_entries wire_size serialize
first_entry kv c fits = omega (
  arith,
  length-append (write_entry (serialize kv)) (write_entries (map serialize c)),
  length-write_entry kv fits,
  fits.0,
)

-- The index is no longer than the blocks, each of which holds its first key.
pub length-index :
    (chunks : List (List KeyValuePair))
    → All IsChunk chunks
    → All HasShortKey (concat chunks)
    → length (write_first_keys (opened_all chunks)) ≤ length (chunks_bytes chunks)
unfolding opened_all opened concat chunks_bytes
length-index [] h short = unfold write_first_keys in omega arith
length-index ([] ∷ cs) h short = absurd (omega (arith, h.0.some_entry))
length-index ((kv ∷ c) ∷ cs) h short = omega (
  arith,
  length-write_first_keys kv.key (opened_all cs) short.0,
  length-append (frame (chunk_bytes (kv ∷ c))) (chunks_bytes cs),
  length-frame (chunk_bytes (kv ∷ c)),
  length-chunk_bytes (kv ∷ c),
  first_entry kv c h.0.fits.0,
  length-index cs h.1 (All-append_right HasShortKey c (concat cs) short.1),
)
