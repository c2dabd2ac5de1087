-- ===== src/Wal/TrimCheckpoint.antt =====
-- Trimming on the checkpoints that the log writes.
use keyvaluedb.Prelude.{ℕ, ◌≡◌, Option, some, List, ◌++◌, ◌==◌, if◌then◌else◌, arith}
use keyvaluedb.Bytes.{write_u32, write_u64}
use keyvaluedb.Bytes.Fields.{read_u32-write_u32}
use keyvaluedb.Crc32.{checksum}
use keyvaluedb.Crc32.Laws.{checksum-lt}
use keyvaluedb.Wal.Format.{checkpoint_sentinel, encode, checkpoint}
use keyvaluedb.Wal.Records.{checkpoint_record-append, split_at-write_u64, crc_of_two}
use keyvaluedb.Wal.Trim.{trim_body, trim_step}

-- At a checkpoint record of the log the pass goes on eight bytes before the record's end, and takes
-- that place for the checkpoint's end only where the checksum over all of the body happens to be
-- that of its first twelve bytes.
pub trim_step-checkpoint :
    (ts batch_ts : ℕ) (rest : List ℕ) (last : Option (List ℕ))
    → trim_step (encode (checkpoint ts batch_ts) ++ rest) last
      ≡ some (
        write_u64 batch_ts ++ rest,
        if checksum (write_u32 checkpoint_sentinel ++ write_u64 ts)
              == checksum (write_u32 checkpoint_sentinel ++ (write_u64 ts ++ write_u64 batch_ts))
            then some (write_u64 batch_ts ++ rest)
            else last,
      )
unfolding encode trim_step trim_body
trim_step-checkpoint ts batch_ts rest last = rw (
  checkpoint_record-append ts batch_ts rest,
  read_u32-write_u32 _ _
      (checksum-lt (write_u32 checkpoint_sentinel ++ (write_u64 ts ++ write_u64 batch_ts))),
  read_u32-write_u32 checkpoint_sentinel (write_u64 ts ++ (write_u64 batch_ts ++ rest))
      (omega arith),
  split_at-write_u64 ts (write_u64 batch_ts ++ rest),
  crc_of_two (write_u32 checkpoint_sentinel) (write_u64 ts),
)
