-- ===== src/Table/Read.antt =====
-- SSTable::ReadAll (src/sstable.cpp) on the bytes of a file that opens.
use keyvaluedb.Prelude.{
  ℕ, zero, suc, ◌%◌, not, List, [], ◌∷◌, ◌++◌, ltb, ◌==◌, if◌then◌else◌, length, drop,
}
use keyvaluedb.Types.{KeyValuePair}
use keyvaluedb.Table.Stream.{get, get_u32, get_u64, get_bytes}
use keyvaluedb.Table.Write.{sstable_magic, sstable_version}

-- An exception, a loop that has not ended, or the entries
pub data ReadResult : Type 0 where
  bad_magic : ReadResult
  bad_version : ReadResult
  out_of_fuel : ReadResult
  entries : List KeyValuePair → ReadResult

-- One entry of a block
unfoldable pub get_entry : List ℕ → KeyValuePair × List ℕ
get_entry bs =
    let kl = get_u32 bs in
    let key = get_bytes kl.0 kl.1 in
    let vl = get_u32 key.1 in
    let value = get_bytes vl.0 vl.1 in
    let ts = get_u64 value.1 in
    let flag = get ts.1 in
    (
      record { key = key.0; value = value.0; timestamp = ts.0; is_tombstone = flag.0 % 2 == 1 },
      flag.1,
    )

unfoldable pub get_entries : ℕ → List ℕ → List KeyValuePair
get_entries zero bs = []
get_entries (suc n) bs = let e = get_entry bs in e.0 ∷ get_entries n e.1

-- The bytes of the next block: the checksum and the kind of compression are skipped.
unfoldable pub get_block : List ℕ → List ℕ × List ℕ
get_block s = let sum = get_u32 s in let size = get_u32 (drop 1 sum.1) in get_bytes size.0 size.1

-- The loop over the blocks, on fuel; `found` are the entries so far
unfoldable pub read_blocks : ℕ → ℕ → List ℕ → List KeyValuePair → ReadResult
read_blocks zero entry_count s found =
    if ltb (length found) entry_count then out_of_fuel else entries found
read_blocks (suc n) entry_count s found =
    let block = get_block s in
    let count = get_u32 block.0 in
    let rest = read_blocks n entry_count block.1 (found ++ get_entries count.0 count.1) in
    if ltb (length found) entry_count then rest else entries found

unfoldable pub read_all : ℕ → List ℕ → ReadResult
read_all fuel file =
    let magic = get_u32 file in
    let version = get_u32 magic.1 in
    let block_size = get_u32 version.1 in
    let count = get_u32 block_size.1 in
    if not (magic.0 == sstable_magic)
    then bad_magic
    else if not (version.0 == sstable_version)
    then bad_version
    else read_blocks fuel count.0 (drop 8 count.1) []
