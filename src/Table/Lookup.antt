-- ===== src/Table/Lookup.antt =====
-- SSTable::LookupKey with no cache (src/sstable.cpp), on the bytes of a file that opens.
use keyvaluedb.Prelude.{
  ℕ, zero, suc, ◌+◌, ◌-◌, ◌/◌, not, ◌&&◌, Option, none, some, List, [], ltb, leb, ◌==◌,
  if◌then◌else◌, contains, ◌>>=◌, length, get_elem?, get_or, take, drop,
}
use keyvaluedb.Bytes.{read_u16}
use keyvaluedb.Bloom.{might_contain}
use keyvaluedb.Tree.Keys.{key_le, key_eq}
use keyvaluedb.Table.Read.{get_block}
use keyvaluedb.Table.Block.{Block, open_block, seek, read_pair}
use keyvaluedb.Table.Metadata.{TableMetadata, refused, out_of_bounds, metadata, read_metadata}

-- The rounds of scanBlock from the i-th entry on; the result is `value_out`.
unfoldable pub scan_from : ℕ → ℕ → List ℕ → List ℕ → ℕ → Block → Option (List ℕ)
scan_from zero i aborted key read_ts b = none
scan_from (suc n) i aborted key read_ts b = elim (read_pair (seek i b)) [
  | none ↦ none
  | some (kv, b1) ↦
      let rest = scan_from n (i + 1) aborted key read_ts b1 in
      if contains kv.timestamp aborted
      then rest
      else if key_eq kv.key key && leb kv.timestamp read_ts
      then some (if kv.is_tombstone then [] else kv.value)
      else rest
]

unfoldable pub scan_block : List ℕ → List ℕ → List ℕ → ℕ → Option (List ℕ)
scan_block aborted bytes key read_ts =
    let b = open_block bytes in scan_from b.count 0 aborted key read_ts b

-- The first key at a place of the buffer; what lies outside of it reads as nothing.
unfoldable pub key_at : List ℕ → ℕ → List ℕ
key_at buf place = elim (read_u16 (drop place buf)) [ none ↦ [] | some (kl, p) ↦ take kl p ]

-- The binary search for the first key above the given one, on fuel
unfoldable pub target_loop : ℕ → List ℕ → List ℕ → List ℕ → ℕ → ℕ → ℕ
target_loop zero buf places key lo hi = lo
target_loop (suc n) buf places key lo hi =
    let mid = (lo + hi) / 2 in
    let left = target_loop n buf places key lo mid in
    let right = target_loop n buf places key (mid + 1) hi in
    if ltb lo hi
    then (if key_le (key_at buf (get_or places mid 0)) key then right else left)
    else lo

unfoldable pub target_of : TableMetadata → List ℕ → ℕ
target_of meta key =
    let count = length meta.first_key_offsets in
    let lo = target_loop count meta.block_first_key_buf meta.first_key_offsets key 0 count in
    if ltb 0 lo then lo - 1 else 0

-- The lambda `search`
unfoldable pub search_block : List ℕ → TableMetadata → List ℕ → ℕ → ℕ → Option (List ℕ)
search_block file meta key read_ts idx = do
  offset ← get_elem? meta.block_offsets idx
  scan_block meta.aborted_batch_ts (get_block (drop offset file)).0 key read_ts

-- The block of the target, then the one before and the one behind it
unfoldable pub search_blocks : List ℕ → TableMetadata → List ℕ → ℕ → ℕ → Option (List ℕ)
search_blocks file meta key read_ts target =
    let before = if ltb 0 target then search_block file meta key read_ts (target - 1) else none in
    let behind =
      if ltb (target + 1) (length meta.block_offsets)
      then search_block file meta key read_ts (target + 1)
      else none in
    elim (search_block file meta key read_ts target) [
      | some v ↦ some v
      | none ↦ elim before [ some v ↦ some v | none ↦ behind ]
    ]

unfoldable pub lookup_in : List ℕ → TableMetadata → List ℕ → ℕ → Option (List ℕ)
lookup_in file meta key read_ts =
    let found = search_blocks file meta key read_ts (target_of meta key) in
    if length meta.block_first_key_buf == 0
    then none
    else if ltb 0 meta.bloom.bits && not (might_contain key meta.bloom)
    then none
    else found

-- An exception or a read out of bounds, or the value where there is one
pub data LookupResult : Type 0 where
  failed : LookupResult
  found : Option (List ℕ) → LookupResult

unfoldable pub lookup_key : List ℕ → List ℕ → ℕ → LookupResult
lookup_key file key read_ts = elim (read_metadata file) [
  | refused ↦ failed
  | out_of_bounds ↦ failed
  | metadata meta ↦ found (lookup_in file meta key read_ts)
]
