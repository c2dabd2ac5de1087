-- ===== src/Tests/Manifest.antt =====
-- The manifest at concrete inputs.
use keyvaluedb.Prelude.{ℕ, ◌≡◌, refl, List, [], ◌∷◌, ◌++◌, map, arith, contains, insert, All}
use keyvaluedb.Bytes.{write_u16, write_u32, write_u64, read_u16, read_u32, read_u64, split_at}
use keyvaluedb.Crc32.{update, finalize, crc_byte, checksum}
use keyvaluedb.Crc32.Table.{crc_table}
use keyvaluedb.Manifest.Format.{
  Metadata, write_record, add_payload, abort_payload, add_sstable, remove_sstable, add_abort_batch,
}
use keyvaluedb.Manifest.Catalog.{
  recover_catalog, compact_file, read_file, read_loop, read_step, read_payload, read_add,
  read_remove, read_abort, read_fence, body_fits, between, surviving, apply_aborts, mark_aborted,
  needed_aborts, is_needed, write_catalog, write_aborts,
}
use keyvaluedb.Manifest.Records.{Record, add, remove, abort, encode, encode_all}
use keyvaluedb.Manifest.Loop.{Ends}
use keyvaluedb.Manifest.Recovery.{
  tables, removes, aborts, live, is_aborted_in, unmarked, recover_catalog-encode_all,
}
use keyvaluedb.Manifest.Compaction.{recover_catalog-compact_file}

-- Unfolding this computes recovery and compaction.
manifest_runs : ℕ
unfolding encode_all encode write_record add_payload abort_payload add_sstable remove_sstable
    add_abort_batch write_u16 write_u32 write_u64 read_u16 read_u32 read_u64 split_at update
    finalize crc_byte checksum crc_table recover_catalog compact_file read_file read_loop read_step
    read_payload read_add read_remove read_abort read_fence body_fits between surviving apply_aborts
    mark_aborted needed_aborts is_needed write_catalog write_aborts insert
manifest_runs = 0

abbrev table_a : Metadata
table_a = record {
  filepath = 97 ∷ [];
  manifest_seq = 3;
  entry_count = 2;
  min_key_len = 1;
  max_key_len = 1;
  file_size = 60;
  level = 0;
  aborted_batch_ts = [];
}

-- Three tables, one of them removed, and two aborted batches, one of which no table is left of.
abbrev history : List Record
history = add 1 table_a ∷ abort 7 1 ∷ add 3 table_a ∷ remove 1 ∷ add 5 table_a ∷ abort 8 4 ∷ []

abbrev marks : List Metadata → List (ℕ × List ℕ)
marks [] = []
marks (m ∷ ms) = (m.manifest_seq, m.aborted_batch_ts) ∷ marks ms

recover_history : marks (recover_catalog (encode_all history)) ≡ (3, 8 ∷ []) ∷ (5, []) ∷ []
unfolding manifest_runs
recover_history = refl

-- Behind a record whose checksum is wrong nothing is read.
abbrev torn : List ℕ
torn = 0 ∷ 0 ∷ 0 ∷ 0 ∷ 2 ∷ 0 ∷ []

torn-Ends : Ends torn
unfolding manifest_runs
torn-Ends log = refl

recover_catalog-encode_all_example :
    (map unmarked (recover_catalog (encode_all history ++ torn))
      ≡ live (removes history) (tables history))
    × All
        (λ m.
          (t : ℕ) → contains t m.aborted_batch_ts ≡ is_aborted_in t m.manifest_seq (aborts history))
        (recover_catalog (encode_all history ++ torn))
recover_catalog-encode_all_example = recover_catalog-encode_all history torn (omega arith) torn-Ends

recover_catalog-compact_file_example :
    recover_catalog (compact_file (encode_all history ++ torn))
    ≡ recover_catalog (encode_all history ++ torn)
recover_catalog-compact_file_example =
    recover_catalog-compact_file history torn (omega arith) torn-Ends
