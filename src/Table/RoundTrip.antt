-- ===== src/Table/RoundTrip.antt =====
-- A table file read back whole.
use keyvaluedb.Prelude.{
  ℕ, ◌^◌, ◌≤◌, ◌<◌, ◌≡◌, refl, ap, Option, List, [], ◌∷◌, ◌++◌, append_assoc, arith, length,
  length-append, All,
}
use native.Mathlib.Nat.{zero-add}
use keyvaluedb.Types.{KeyValuePair}
use keyvaluedb.Bytes.{write_u16, write_u32}
use keyvaluedb.Table.Stream.{get_u32-write_u32}
use keyvaluedb.Table.Write.{
  sstable_magic, sstable_version, sstable_block_size, write_header, first_key, last_key, write,
}
use keyvaluedb.Table.Read.{entries, read_blocks, read_all}
use keyvaluedb.Table.Chunks.{FitsBlock, IsChunk, chunks_bytes, concat, read_blocks-chunks_bytes}
use keyvaluedb.Table.Writes.{Blocks-write_blocks}

pub length-concat :
    (cs : List (List KeyValuePair)) → All IsChunk cs → length cs ≤ length (concat cs)
unfolding concat
length-concat [] h = omega arith
length-concat (c ∷ cs) h =
    omega (arith, length-append c (concat cs), length-concat cs h.1, h.0.some_entry)

pub write_header-append :
    (count : ℕ) (min_key max_key rest : List ℕ)
    → write_header count min_key max_key ++ rest
      ≡ write_u32 sstable_magic
        ++ (write_u32 sstable_version
            ++ (write_u32 sstable_block_size
                ++ (write_u32 count
                    ++ (0
                        ∷ 0
                        ∷ 0
                        ∷ 0
                        ∷ (write_u16 (length min_key) ++ (write_u16 (length max_key) ++ rest))))))
unfolding write_header
write_header-append count min_key max_key rest = simp append_assoc

-- The header takes ReadAll to its loop.
read_all-header :
    (fuel count : ℕ) (min_key max_key rest : List ℕ)
    → count < 2 ^ 32
    → read_all fuel (write_header count min_key max_key ++ rest) ≡ read_blocks fuel count rest []
unfolding read_all
read_all-header fuel count min_key max_key rest h =
    let r4 = 0 ∷ 0 ∷ 0 ∷ 0 ∷ (write_u16 (length min_key) ++ (write_u16 (length max_key) ++ rest)) in
    let r3 = write_u32 count ++ r4 in
    let r2 = write_u32 sstable_block_size ++ r3 in
    let r1 = write_u32 sstable_version ++ r2 in
    rw
      (
        write_header-append count min_key max_key rest,
        get_u32-write_u32 sstable_magic r1 (omega arith),
        get_u32-write_u32 sstable_version r2 (omega arith),
        get_u32-write_u32 sstable_block_size r3 (omega arith),
        get_u32-write_u32 count r4 h,
      )
      (unfold write_u16 in refl)

read_blocks-concat :
    (fuel : ℕ) (kvs : List KeyValuePair) (chunks : List (List KeyValuePair)) (rest : List ℕ)
    → kvs ≡ concat chunks
    → All IsChunk chunks
    → length kvs ≤ fuel
    → read_blocks fuel (length kvs) (chunks_bytes chunks ++ rest) [] ≡ entries kvs
read_blocks-concat fuel kvs chunks rest same are_chunks enough = rw same (
    rw zero-add at (
      read_blocks-chunks_bytes fuel chunks rest [] are_chunks
        (omega (arith, enough, ap length same, length-concat chunks are_chunks))))

-- ReadAll gives back the entries that Write was given, in their order and with all versions, where
-- a block of each entry alone can state its size and their number fits the header. No more rounds
-- are needed than there are entries.
pub read_all-write :
    (filter_sizes : ℕ → ℕ × ℕ) (kvs : List KeyValuePair) (aborted : Option (List ℕ)) (fuel : ℕ)
    → All FitsBlock kvs
    → length kvs < 2 ^ 32
    → length kvs ≤ fuel
    → read_all fuel (write filter_sizes kvs aborted) ≡ entries kvs
unfolding write
read_all-write filter_sizes kvs aborted fuel fits count enough =
    let b = Blocks-write_blocks filter_sizes kvs fits in
    rw
      (
        b.file_is,
        append_assoc,
        read_all-header fuel (length kvs) (first_key kvs) (last_key kvs)
            (chunks_bytes b.chunks ++ _) count,
      )
      (read_blocks-concat fuel kvs b.chunks _ b.done_is b.are_chunks enough)
