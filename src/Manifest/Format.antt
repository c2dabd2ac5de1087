-- ===== src/Manifest/Format.antt =====
-- The records of the manifest (src/manifest.cpp): a CRC-32, a type and a payload.
use keyvaluedb.Prelude.{ℕ, List, ◌∷◌, ◌++◌, length}
use keyvaluedb.Bytes.{write_u16, write_u32, write_u64}
use keyvaluedb.Crc32.{checksum}

-- The fields of SSTable::Metadata that the manifest keeps, and the batches that recovery marks as
-- aborted. `level` is the bit pattern of an `int`.
pub record Metadata : Type 0 where
  pub filepath : List ℕ
  pub manifest_seq : ℕ
  pub entry_count : ℕ
  pub min_key_len : ℕ
  pub max_key_len : ℕ
  pub file_size : ℕ
  pub level : ℕ
  pub aborted_batch_ts : List ℕ

abbrev pub type_add_sstable : ℕ
type_add_sstable = 1

abbrev pub type_remove_sstable : ℕ
type_remove_sstable = 2

abbrev pub type_abort_batch : ℕ
type_abort_batch = 3

-- Manifest::WriteRecord, the bytes that it appends
unfoldable pub write_record : ℕ → List ℕ → List ℕ
write_record type payload = let body = type ∷ payload in write_u32 (checksum body) ++ body

unfoldable pub add_payload : ℕ → Metadata → List ℕ
add_payload seq meta =
    write_u64 seq
    ++ (write_u64 meta.entry_count
        ++ (write_u32 meta.min_key_len
            ++ (write_u32 meta.max_key_len
                ++ (write_u64 meta.file_size
                    ++ (write_u32 meta.level
                        ++ (write_u16 (length meta.filepath) ++ meta.filepath))))))

unfoldable pub abort_payload : ℕ → ℕ → List ℕ
abort_payload batch_ts fence_seq = write_u64 batch_ts ++ write_u64 fence_seq

-- Manifest::AddSSTable, RemoveSSTable and AddAbortBatch, the bytes that they append
unfoldable pub add_sstable : ℕ → Metadata → List ℕ
add_sstable seq meta = write_record type_add_sstable (add_payload seq meta)

unfoldable pub remove_sstable : ℕ → List ℕ
remove_sstable seq = write_record type_remove_sstable (write_u64 seq)

unfoldable pub add_abort_batch : ℕ → ℕ → List ℕ
add_abort_batch batch_ts fence_seq =
    write_record type_abort_batch (abort_payload batch_ts fence_seq)
