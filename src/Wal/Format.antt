-- ===== src/Wal/Format.antt =====
-- The records of the log (src/wal.cpp): a CRC-32, then a body.
use keyvaluedb.Prelude.{ℕ, List, [], ◌∷◌, ◌++◌, length}
use keyvaluedb.Bytes.{write_u32, write_u64}
use keyvaluedb.Crc32.{checksum}

abbrev pub checkpoint_sentinel : ℕ
checkpoint_sentinel = 0xFFFFFFFF

abbrev pub abort_sentinel : ℕ
abort_sentinel = 0xFFFFFFFE

abbrev pub commit_sentinel : ℕ
commit_sentinel = 0xFFFFFFFC

abbrev pub begin_sentinel : ℕ
begin_sentinel = 0xFFFFFFFA

unfoldable pub entry_body : List ℕ → List ℕ → ℕ → List ℕ
entry_body key value timestamp =
    write_u32 (length key) ++ (key ++ (write_u32 (length value) ++ (value ++ write_u64 timestamp)))

-- WAL::SerializeRecord, the bytes that it appends
unfoldable pub serialize_record : List ℕ → List ℕ → ℕ → List ℕ
serialize_record key value timestamp =
    let body = entry_body key value timestamp in write_u32 (checksum body) ++ body

-- WriteSentinelRecord
unfoldable pub sentinel_record : ℕ → ℕ → List ℕ
sentinel_record sentinel ts =
    let body = write_u32 sentinel ++ write_u64 ts in write_u32 (checksum body) ++ body

-- WAL::WriteCheckpoint, the bytes that it appends
unfoldable pub checkpoint_record : ℕ → ℕ → List ℕ
checkpoint_record timestamp batch_ts =
    let body = write_u32 checkpoint_sentinel ++ (write_u64 timestamp ++ write_u64 batch_ts) in
    write_u32 (checksum body) ++ body

-- What a caller of the log asked to be written, in order.
pub data Record : Type 0 where
  put : List ℕ → List ℕ → ℕ → Record
  abort : ℕ → Record
  batch_begin : ℕ → Record
  batch_commit : ℕ → Record
  checkpoint : ℕ → ℕ → Record

unfoldable pub encode : Record → List ℕ
encode (put key value ts) = serialize_record key value ts
encode (abort ts) = sentinel_record abort_sentinel ts
encode (batch_begin ts) = sentinel_record begin_sentinel ts
encode (batch_commit ts) = sentinel_record commit_sentinel ts
encode (checkpoint ts batch_ts) = checkpoint_record ts batch_ts

unfoldable pub encode_all : List Record → List ℕ
encode_all [] = []
encode_all (r ∷ rs) = encode r ++ encode_all rs
