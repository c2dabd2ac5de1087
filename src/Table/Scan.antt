-- ===== src/Table/Scan.antt =====
-- The scan of a block for a version of a key.
use keyvaluedb.Prelude.{
  ℕ, suc, ◌+◌, ◌≡◌, refl, true, false, ◌&&◌, Option, none, some, List, [], ◌∷◌, ◌++◌, map, arith,
  ltb, leb, if◌then◌else◌, contains, length, All,
}
use native.Mathlib.Nat.{sub_self}
use keyvaluedb.Types.{KeyValuePair}
use keyvaluedb.Bytes.{split_at, write_u32, write_u64}
use keyvaluedb.Bytes.Fields.{split_at-append, read_u32-write_u32, read_u64-write_u64}
use keyvaluedb.Tree.Keys.{key_eq}
use keyvaluedb.Table.Builder.{serialize, write_entry, write_entries}
use keyvaluedb.Table.Block.{Block, open_block, seek, seek_loop, read_pair}
use keyvaluedb.Table.Lookup.{scan_from, scan_block}
use keyvaluedb.Table.Chunks.{
  FitsBlock, IsChunk, chunk_bytes, write_entry-serialize, flag_of, IsChunk-count,
}

-- The value of the first version of a key that a reader at `read_ts` sees, no aborted ones counted;
-- a tombstone is a version without a value.
unfoldable pub first_version : List ℕ → List ℕ → ℕ → List KeyValuePair → Option (List ℕ)
first_version aborted key read_ts [] = none
first_version aborted key read_ts (kv ∷ kvs) =
    let rest = first_version aborted key read_ts kvs in
    if contains kv.timestamp aborted
    then rest
    else if key_eq kv.key key && leb kv.timestamp read_ts
    then some (if kv.is_tombstone then [] else kv.value)
    else rest

ltb_lt : (a b : ℕ) → ltb a (a + suc b) ≡ true
ltb_lt a b = ground arith

ltb_self : (a : ℕ) → ltb a a ≡ false
ltb_self a = ground arith

split_at_one : (b : ℕ) (rest : List ℕ) → split_at 1 (b ∷ rest) ≡ some (b ∷ [], rest)
unfolding split_at
split_at_one b rest = refl

read_pair-write_entry :
    (kv : KeyValuePair) (more : List ℕ) (b : Block)
    → FitsBlock kv
    → ltb b.idx b.count ≡ true
    → b.rest ≡ write_entry (serialize kv) ++ more
    → read_pair b ≡ some (kv, record b { rest = more; idx = b.idx + 1 })
unfolding read_pair
read_pair-write_entry kv more b fits in_range same =
    let r4 = (if kv.is_tombstone then 1 else 0) ∷ more in
    let r3 = write_u64 kv.timestamp ++ r4 in
    let r2 = kv.value ++ r3 in
    let r1 = write_u32 (length kv.value) ++ r2 in
    rw
      (
        in_range,
        same,
        write_entry-serialize kv fits more,
        read_u32-write_u32 (length kv.key) (kv.key ++ r1) (omega (arith, fits.0)),
        split_at-append kv.key r1,
        read_u32-write_u32 (length kv.value) r2 (omega (arith, fits.0)),
        split_at-append kv.value r3,
        read_u64-write_u64 kv.timestamp r4 fits.1,
        split_at_one,
        flag_of kv.is_tombstone,
      )
      refl

seek-here : (b : Block) → seek b.idx b ≡ b
unfolding seek seek_loop
seek-here b = rw (ltb_self b.idx, sub_self b.idx) refl

abbrev opened_block : List KeyValuePair → Block
opened_block c = record {
  bytes = chunk_bytes c;
  rest = write_entries (map serialize c);
  count = length c;
  idx = 0;
}

open_block-chunk_bytes :
    (c : List KeyValuePair) → IsChunk c → open_block (chunk_bytes c) ≡ opened_block c
unfolding open_block chunk_bytes
open_block-chunk_bytes c h =
    rw (read_u32-write_u32 (length c) (write_entries (map serialize c)) (IsChunk-count c h))
      (unfold write_u32 in refl)

module _ (aborted key : List ℕ) (read_ts : ℕ) where
  scan_from-write_entries :
      (kvs : List KeyValuePair) (b : Block)
      → All FitsBlock kvs
      → b.rest ≡ write_entries (map serialize kvs)
      → b.count ≡ b.idx + length kvs
      → scan_from (length kvs) b.idx aborted key read_ts b ≡ first_version aborted key read_ts kvs
  unfolding scan_from first_version write_entries
  scan_from-write_entries [] b fits same count = refl
  scan_from-write_entries (kv ∷ kvs) b fits same count =
      let more = write_entries (map serialize kvs) in
      let next : Block = record b { rest = more; idx = b.idx + 1 } in
      rw
        (
          scan_from,
          seek-here b,
          read_pair-write_entry kv more b fits.0 (rw count (ltb_lt b.idx (length kvs))) same,
          scan_from-write_entries kvs next fits.1 refl (omega (arith, count)),
        )
        refl

  pub scan_block-chunk_bytes :
      (c : List KeyValuePair)
      → IsChunk c
      → scan_block aborted (chunk_bytes c) key read_ts ≡ first_version aborted key read_ts c
  unfolding scan_block
  scan_block-chunk_bytes c h =
      rw (open_block-chunk_bytes c h)
        (scan_from-write_entries c (opened_block c) h.fits refl (omega arith))
