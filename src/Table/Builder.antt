-- ===== src/Table/Builder.antt =====
-- The blocks of a table (the anonymous namespace of src/sstable.cpp). `kCompression` is none, so
-- that CompressBlock and DecompressBlock leave their buffers as they are.
use keyvaluedb.Prelude.{
  ℕ, ◌+◌, ◌%◌, ◌^◌, Bool, not, ◌&&◌, Option, none, some, List, [], ◌∷◌, ◌++◌, ltb, if◌then◌else◌,
  length, take,
}
use keyvaluedb.Bytes.{write_u32, write_u64}
use keyvaluedb.Types.{KeyValuePair}
use keyvaluedb.Crc32.{checksum}
use keyvaluedb.Bloom.{BloomFilter, add}

pub record SerializedEntry : Type 0 where
  pub key_len : ℕ
  pub key_data : List ℕ
  pub value_len : ℕ
  pub value_data : List ℕ
  pub timestamp : ℕ
  pub is_tombstone : Bool

-- How Write and WriteFromWalk fill it
unfoldable pub serialize : KeyValuePair → SerializedEntry
serialize kv = record {
  key_len = length kv.key % 2 ^ 32;
  key_data = kv.key;
  value_len = length kv.value % 2 ^ 32;
  value_data = kv.value;
  timestamp = kv.timestamp;
  is_tombstone = kv.is_tombstone;
}

unfoldable pub wire_size : SerializedEntry → ℕ
wire_size e = 4 + e.key_len + 4 + e.value_len + 8 + 1

-- The bytes of the keys and values that the pointers give
unfoldable pub key_of : SerializedEntry → List ℕ
key_of e = take e.key_len e.key_data

unfoldable pub value_of : SerializedEntry → List ℕ
value_of e = take e.value_len e.value_data

unfoldable pub write_entry : SerializedEntry → List ℕ
write_entry e =
    write_u32 e.key_len
    ++ (key_of e
        ++ (write_u32 e.value_len
            ++ (value_of e ++ (write_u64 e.timestamp ++ ((if e.is_tombstone then 1 else 0) ∷ [])))))

unfoldable pub write_entries : List SerializedEntry → List ℕ
write_entries [] = []
write_entries (e ∷ es) = write_entry e ++ write_entries es

unfoldable pub add_keys : List SerializedEntry → BloomFilter → BloomFilter
add_keys [] bloom = bloom
add_keys (e ∷ es) bloom = add_keys es (add (key_of e) bloom)

pub record BlockBuilder : Type 0 where
  pub block_size : ℕ
  pub entries : List SerializedEntry
  pub data_size : ℕ
  pub count : ℕ

abbrev pub block_builder : ℕ → BlockBuilder
block_builder size = record { block_size = size; entries = []; data_size = 0; count = 0 }

-- TryAppend; `none` is `false`
unfoldable pub try_append : SerializedEntry → Bool → BlockBuilder → Option BlockBuilder
try_append e allow_empty b =
    let ns = b.data_size + wire_size e in
    if not allow_empty && (ltb 0 b.count && ltb b.block_size (4 + ns))
    then none
    else some (record b {
      entries = b.entries ++ (e ∷ []);
      data_size = ns;
      count = (b.count + 1) % 2 ^ 32;
    })

unfoldable pub reset_builder : BlockBuilder → BlockBuilder
reset_builder b = record b { entries = []; data_size = 0; count = 0 }

-- The bytes of a block, before its frame
unfoldable pub block_bytes : BlockBuilder → List ℕ
block_bytes b = write_u32 b.count ++ write_entries b.entries

-- The checksum, the kind of compression and the size before a block
unfoldable pub frame : List ℕ → List ℕ
frame bytes = write_u32 (checksum bytes) ++ (0 ∷ (write_u32 (length bytes) ++ bytes))

-- What FreezeBlock gives: the bytes with their frame, the filter and the bytes alone
unfoldable pub freeze_block : BlockBuilder → BloomFilter → List ℕ × BloomFilter × List ℕ
freeze_block b bloom = (frame (block_bytes b), add_keys b.entries bloom, block_bytes b)
