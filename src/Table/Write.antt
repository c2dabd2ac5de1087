-- ===== src/Table/Write.antt =====
-- SSTable::Write (src/sstable.cpp). The sizes of the filter, which its constructor computes in
-- `double` from the number of entries, are a parameter; the file opens.
use keyvaluedb.Prelude.{
  ℕ, zero, suc, ◌%◌, ◌^◌, Bool, true, Option, none, some, List, [], ◌∷◌, ◌++◌, ltb, ◌==◌,
  if◌then◌else◌, length, take,
}
use keyvaluedb.Bytes.{write_u16, write_u32, write_u64}
use keyvaluedb.Types.{KeyValuePair}
use keyvaluedb.Crc32.{checksum}
use keyvaluedb.Bloom.{BloomFilter, new_filter}
use keyvaluedb.Table.Builder.{
  serialize, BlockBuilder, block_builder, try_append, reset_builder, freeze_block,
}

abbrev pub sstable_magic : ℕ
sstable_magic = 0x4B535354

abbrev pub sstable_footer_magic : ℕ
sstable_footer_magic = 0x4B454E44

abbrev pub sstable_version : ℕ
sstable_version = 6

abbrev pub sstable_block_size : ℕ
sstable_block_size = 4096

-- The 24 bytes at the start: the number of entries and the longest and shortest keys' lengths
unfoldable pub write_header : ℕ → List ℕ → List ℕ → List ℕ
write_header entry_count min_key max_key =
    write_u32 sstable_magic
    ++ (write_u32 sstable_version
        ++ (write_u32 sstable_block_size
            ++ (write_u32 entry_count
                ++ ((0 ∷ 0 ∷ 0 ∷ 0 ∷ [])
                    ++ (write_u16 (length min_key) ++ write_u16 (length max_key))))))

-- The file so far, and the variables of Write
pub record Writer : Type 0 where
  pub file : List ℕ
  pub offsets : List ℕ
  pub first_keys : List (List ℕ)
  pub bloom : BloomFilter
  pub builder : BlockBuilder

unfoldable pub push_first_key : List ℕ → Writer → Writer
push_first_key key w = record w { first_keys = w.first_keys ++ (key ∷ []) }

unfoldable pub write_block : Writer → Writer
write_block w =
    let frozen = freeze_block w.builder w.bloom in
    record w {
      file = w.file ++ frozen.0;
      offsets = w.offsets ++ (length w.file ∷ []);
      bloom = frozen.1;
    }

-- The loop over TryAppend, on fuel: from its second round on, an entry is taken into any block.
unfoldable pub append_loop : ℕ → KeyValuePair → Bool → Writer → Writer
append_loop zero kv allow w = w
append_loop (suc n) kv allow w =
    let written = write_block w in
    let again =
      append_loop n kv true
        (push_first_key kv.key (record written { builder = reset_builder written.builder })) in
    elim (try_append (serialize kv) allow w.builder) [
      | some b ↦ record w { builder = b }
      | none ↦ again
    ]

unfoldable pub write_entry_to : KeyValuePair → Writer → Writer
write_entry_to kv w =
    let allow = w.builder.count == 0 in
    append_loop 2 kv allow (if allow then push_first_key kv.key w else w)

unfoldable pub write_entries_to : List KeyValuePair → Writer → Writer
write_entries_to [] w = w
write_entries_to (kv ∷ kvs) w = write_entries_to kvs (write_entry_to kv w)

unfoldable pub write_last_block : Writer → Writer
write_last_block w = if ltb 0 w.builder.count then write_block w else w

unfoldable pub write_numbers : List ℕ → List ℕ
write_numbers [] = []
write_numbers (n ∷ ns) = write_u64 n ++ write_numbers ns

unfoldable pub write_first_keys : List (List ℕ) → List ℕ
write_first_keys [] = []
write_first_keys (key ∷ keys) =
    write_u16 (length key) ++ (take (length key % 2 ^ 16) key ++ write_first_keys keys)

unfoldable pub write_aborted : Option (List ℕ) → List ℕ
write_aborted none = write_u32 0
write_aborted (some ts) = write_u32 (length ts) ++ write_numbers ts

-- The region that MetaCRC covers
unfoldable pub write_metadata :
    List ℕ → List ℕ → BloomFilter → Option (List ℕ) → List ℕ → List (List ℕ) → List ℕ
write_metadata min_key max_key bloom aborted offsets first_keys =
    min_key
    ++ (max_key
        ++ (write_u32 bloom.bits
            ++ (write_u32 bloom.hash_count
                ++ (write_u32 (length bloom.bytes)
                    ++ (bloom.bytes
                        ++ (write_aborted aborted
                            ++ (write_u32 (length offsets)
                                ++ (write_numbers offsets ++ write_first_keys first_keys))))))))

-- The metadata, its checksum, and the footer
unfoldable pub write_tail : List ℕ → ℕ → List ℕ
write_tail metadata filter_off =
    metadata
    ++ (write_u32 (checksum metadata) ++ (write_u64 filter_off ++ write_u32 sstable_footer_magic))

unfoldable pub first_key : List KeyValuePair → List ℕ
first_key [] = []
first_key (kv ∷ kvs) = kv.key

unfoldable pub last_key : List KeyValuePair → List ℕ
last_key [] = []
last_key (kv ∷ []) = kv.key
last_key (kv ∷ next ∷ kvs) = last_key (next ∷ kvs)

module _ (filter_sizes : ℕ → ℕ × ℕ) where
  unfoldable pub empty_filter : ℕ → BloomFilter
  empty_filter entry_count =
      let sizes = filter_sizes (if entry_count == 0 then 1 else entry_count) in
      new_filter sizes.0 sizes.1

  unfoldable pub write_blocks : List KeyValuePair → Writer
  write_blocks entries = write_last_block (
      write_entries_to entries (record {
        file = write_header (length entries) (first_key entries) (last_key entries);
        offsets = [];
        first_keys = [];
        bloom = empty_filter (length entries);
        builder = block_builder sstable_block_size;
      }))

  unfoldable pub write : List KeyValuePair → Option (List ℕ) → List ℕ
  write entries aborted =
      let w = write_blocks entries in
      w.file
      ++ write_tail
          (write_metadata (first_key entries) (last_key entries) w.bloom aborted w.offsets
            w.first_keys)
          (length w.file)
