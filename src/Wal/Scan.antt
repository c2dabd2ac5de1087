-- ===== src/Wal/Scan.antt =====
-- The passes of WAL::Recover and WAL::TrimToLastCheckpoint over the bytes of a file (src/wal.cpp).
-- One round of a loop is a step: `none` is its `break`, `some` its `continue` with the cursor and
-- the variables of the loop. Each round reads four bytes at least, so the length of the file is
-- fuel enough.
use keyvaluedb.Prelude.{
  ℕ, zero, suc, false, Option, none, some, List, [], ◌∷◌, ◌++◌, length, ◌==◌, not, ◌&&◌,
  if◌then◌else◌, ◌>>=◌, ◌>>◌, guard, contains, insert, erase,
}
use keyvaluedb.Types.{KeyValuePair}
use keyvaluedb.Bytes.{split_at, read_u32, read_u64, write_u32}
use keyvaluedb.Crc32.{crc_init, update, finalize}
use keyvaluedb.Wal.Format.{checkpoint_sentinel, abort_sentinel, commit_sentinel, begin_sentinel}

-- ReadUint64From, which the callers guard by a test of the size
unfoldable pub uint64_from : List ℕ → ℕ
uint64_from bs = elim (read_u64 bs) [ none ↦ 0 | some (v, rest) ↦ v ]

-- An entry behind its checksum and key length. Both passes of `Recover` read it so; the first one
-- drops the result.
unfoldable pub read_entry : ℕ → ℕ → List ℕ → Option (KeyValuePair × List ℕ)
read_entry sum key_len bs = do
  (key, after_key) ← split_at key_len bs
  let crc_key = update (update crc_init (write_u32 key_len)) key
  (value_len, after_len) ← read_u32 after_key
  (value, after_value) ← split_at value_len after_len
  let crc_value = update (update crc_key (write_u32 value_len)) value
  (stamp, rest) ← split_at 8 after_value
  guard (finalize (update crc_value stamp) == sum)
  some (
    record { key = key; value = value; timestamp = uint64_from stamp; is_tombstone = false },
    rest,
  )

-- The variables of the first pass; `tail` is what stands behind `last_checkpoint_end`.
pub record Checkpoint : Type 0 where
  pub tail : List ℕ
  pub found_ts : ℕ
  pub batch_ts : ℕ

-- The record of eight bytes, which is also tried where the checksum over sixteen does not fit.
unfoldable pub short_checkpoint : ℕ → List ℕ → List ℕ → Checkpoint → List ℕ × Checkpoint
short_checkpoint sum stamp rest c =
    if finalize (update (update crc_init (write_u32 checkpoint_sentinel)) stamp) == sum
    then (rest, record c { tail = rest; found_ts = uint64_from stamp })
    else (rest, c)

unfoldable pub read_checkpoint : ℕ → List ℕ → Checkpoint → Option (List ℕ × Checkpoint)
read_checkpoint sum bs c = do
  (stamp, rest) ← split_at 8 bs
  let short = short_checkpoint sum stamp rest c
  elim (split_at 16 bs) [
    | none ↦ some short
    | some (both, rest16) ↦
        if finalize (update (update crc_init (write_u32 checkpoint_sentinel)) both) == sum
        then some (
          rest16,
          record { tail = rest16; found_ts = uint64_from stamp; batch_ts = uint64_from rest },
        )
        else some short
  ]

-- A first-pass round behind the checksum and the key length
unfoldable pub find_body : ℕ → ℕ → List ℕ → Checkpoint → Option (List ℕ × Checkpoint)
find_body sum key_len bs c =
    if key_len == checkpoint_sentinel
    then read_checkpoint sum bs c
    else if key_len == abort_sentinel
    then (do (stamp, rest) ← split_at 8 bs; some (rest, c))
    else (do (kv, rest) ← read_entry sum key_len bs; some (rest, c))

unfoldable pub find_step : List ℕ → Checkpoint → Option (List ℕ × Checkpoint)
find_step bs c = do
  (sum, after_sum) ← read_u32 bs
  (key_len, after_len) ← read_u32 after_sum
  find_body sum key_len after_len c

-- WAL::Recover, the first loop
unfoldable pub find_checkpoint : ℕ → List ℕ → Checkpoint → Checkpoint
find_checkpoint zero bs c = c
find_checkpoint (suc fuel) bs c = elim (find_step bs c) [
  | none ↦ c
  | some (rest, c') ↦ find_checkpoint fuel rest c'
]

-- The variables of the second pass. `aborted` and `results` are in the order of the file.
pub record Replay : Type 0 where
  pub results : List KeyValuePair
  pub batch_opened : List ℕ
  pub batch_closed : List ℕ
  pub batch_has_entries : List ℕ
  pub aborted : List ℕ

unfoldable pub replay_begin : ℕ → Replay → Replay
replay_begin bts s = record s { batch_opened = insert bts s.batch_opened }

unfoldable pub replay_commit : ℕ → Replay → Replay
replay_commit bts s = record s {
  batch_opened = erase bts s.batch_opened;
  batch_closed = insert bts s.batch_closed;
}

unfoldable pub replay_abort : ℕ → Replay → Replay
replay_abort ts s = record s {
  batch_opened = erase ts s.batch_opened;
  batch_closed = insert ts s.batch_closed;
  aborted = s.aborted ++ (ts ∷ []);
}

unfoldable pub replay_entry : KeyValuePair → Replay → Replay
replay_entry kv s = record s {
  results = s.results ++ (kv ∷ []);
  batch_has_entries = insert kv.timestamp s.batch_has_entries;
}

-- A second-pass round behind the checksum and the key length. At a checkpoint it goes on right
-- behind the key length: the checkpoint's body is read as the next record.
unfoldable pub replay_body : ℕ → ℕ → List ℕ → Replay → Option (List ℕ × Replay)
replay_body sum key_len bs s =
    if key_len == checkpoint_sentinel
    then some (bs, s)
    else if key_len == begin_sentinel
    then (do (stamp, rest) ← split_at 8 bs; some (rest, replay_begin (uint64_from stamp) s))
    else if key_len == commit_sentinel
    then (do (stamp, rest) ← split_at 8 bs; some (rest, replay_commit (uint64_from stamp) s))
    else if key_len == abort_sentinel
    then (do (stamp, rest) ← split_at 8 bs; some (rest, replay_abort (uint64_from stamp) s))
    else (do (kv, rest) ← read_entry sum key_len bs; some (rest, replay_entry kv s))

unfoldable pub replay_step : List ℕ → Replay → Option (List ℕ × Replay)
replay_step bs s = do
  (sum, after_sum) ← read_u32 bs
  (key_len, after_len) ← read_u32 after_sum
  replay_body sum key_len after_len s

-- WAL::Recover, the second loop
unfoldable pub replay : ℕ → List ℕ → Replay → Replay
replay zero bs s = s
replay (suc fuel) bs s = elim (replay_step bs s) [
  | none ↦ s
  | some (rest, s') ↦ replay fuel rest s'
]

-- The loop over the batches that are still open
unfoldable pub unfinished : List ℕ → Replay → List ℕ
unfinished [] s = []
unfinished (ts ∷ open_batches) s =
    let rest = unfinished open_batches s in
    if not (contains ts s.batch_closed) && contains ts s.batch_has_entries then ts ∷ rest else rest

unfoldable pub start : Checkpoint → Replay
start c = record {
  results = [];
  batch_opened = if c.batch_ts == 0 then [] else c.batch_ts ∷ [];
  batch_closed = [];
  batch_has_entries = [];
  aborted = [];
}

-- What `Recover` hands to its caller
pub record Recovery : Type 0 where
  pub results : List KeyValuePair
  pub checkpoint_ts : ℕ
  pub aborted : List ℕ

unfoldable pub first_pass : List ℕ → Checkpoint
unfolding find_checkpoint
first_pass file =
    find_checkpoint (length file) file (record { tail = file; found_ts = 0; batch_ts = 0 })

unfoldable pub second_pass : Checkpoint → Recovery
unfolding replay unfinished start
second_pass c =
    let s = replay (length c.tail) c.tail (start c) in
    record {
      results = s.results;
      checkpoint_ts = c.found_ts;
      aborted = s.aborted ++ unfinished s.batch_opened s;
    }

-- WAL::Recover, from the bytes of the file to its results
unfoldable pub recover_file : List ℕ → Recovery
unfolding first_pass second_pass
recover_file file = second_pass (first_pass file)
