-- ===== src/Table/Block.antt =====
-- Reading a block in memory (include/kvdb/block.hpp). The position is the list of the bytes from it
-- on, so that `pos_ + n > size_` is that fewer than n are left.
use keyvaluedb.Prelude.{
  ◌%◌, ◌^◌, ℕ, zero, suc, ◌+◌, ◌-◌, ◌%◌, Option, none, some, List, ltb, ◌==◌, if◌then◌else◌, ◌>>=◌,
  ◌>>◌, guard, get_or, drop,
}
use keyvaluedb.Bytes.{split_at, read_u32, read_u64}
use keyvaluedb.Types.{KeyValuePair}

pub record Block : Type 0 where
  pub bytes : List ℕ
  pub rest : List ℕ
  pub count : ℕ
  pub idx : ℕ

-- The constructor
unfoldable pub open_block : List ℕ → Block
open_block bytes = record {
  bytes = bytes;
  rest = drop 4 bytes;
  count = elim (read_u32 bytes) [ none ↦ 0 | some (n, more) ↦ n ];
  idx = 0;
}

-- The loop of Seek, over the rounds left: it also ends where no length can be read.
unfoldable pub seek_loop : ℕ → Block → Block
seek_loop zero b = b
seek_loop (suc n) b = elim (read_u32 b.rest) [
  | none ↦ b
  | some (kl, after_len) ↦ elim (read_u32 (drop kl after_len)) [
    | none ↦ record b { rest = drop kl after_len }
    | some (vl, after_key) ↦
        seek_loop n (record b { rest = drop ((vl + 8 + 1) % 2 ^ 32) after_key; idx = b.idx + 1 })
  ]
]

-- Seek
unfoldable pub seek : ℕ → Block → Block
seek target b =
    let start = if ltb target b.idx then record b { rest = drop 4 b.bytes; idx = 0 } else b in
    seek_loop (target - start.idx) start

-- Read; `none` is `false`, after which no caller looks at the block again.
unfoldable pub read_pair : Block → Option (KeyValuePair × Block)
read_pair b = do
  guard (ltb b.idx b.count)
  (kl, after_len) ← read_u32 b.rest
  (key, after_key) ← split_at kl after_len
  (vl, after_len2) ← read_u32 after_key
  (value, after_value) ← split_at vl after_len2
  (ts, after_ts) ← read_u64 after_value
  (flag, rest) ← split_at 1 after_ts
  some (
    record { key = key; value = value; timestamp = ts; is_tombstone = get_or flag 0 0 % 2 == 1 },
    record b { rest = rest; idx = b.idx + 1 },
  )
