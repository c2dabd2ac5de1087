-- ===== src/Wal/Trim.antt =====
-- WAL::TrimToLastCheckpoint (src/wal.cpp): a pass of its own, which takes a checkpoint for a record of
-- eight bytes and no sentinel but its one.
use keyvaluedb.Prelude.{
  ℕ, zero, suc, true, Option, none, some, List, [], ◌∷◌, length, ◌==◌, if◌then◌else◌, ◌>>=◌,
}
use keyvaluedb.Bytes.{split_at, read_u32, write_u32}
use keyvaluedb.Crc32.{crc_init, update, finalize}
use keyvaluedb.Wal.Format.{checkpoint_sentinel}
use keyvaluedb.Wal.State.{Wal, sync, after_sync, reset}

-- An entry behind its checksum and key length; its bytes are skipped and not checked.
unfoldable pub skip_entry : ℕ → List ℕ → Option (List ℕ)
skip_entry key_len bs = do
  (key, after_key) ← split_at key_len bs
  (value_len, after_len) ← read_u32 after_key
  (value, after_value) ← split_at value_len after_len
  (stamp, rest) ← split_at 8 after_value
  some rest

-- `last` is what stands behind `last_checkpoint_end`, once that is set.
unfoldable pub trim_body : ℕ → ℕ → List ℕ → Option (List ℕ) → Option (List ℕ × Option (List ℕ))
trim_body sum key_len bs last =
    if key_len == checkpoint_sentinel
    then (do
      (stamp, rest) ← split_at 8 bs
      some (
        rest,
        if finalize (update (update crc_init (write_u32 key_len)) stamp) == sum
            then some rest
            else last,
      ))
    else (do rest ← skip_entry key_len bs; some (rest, last))

unfoldable pub trim_step : List ℕ → Option (List ℕ) → Option (List ℕ × Option (List ℕ))
trim_step bs last = do
  (sum, after_sum) ← read_u32 bs
  (key_len, after_len) ← read_u32 after_sum
  trim_body sum key_len after_len last

unfoldable pub trim_loop : ℕ → List ℕ → Option (List ℕ) → Option (List ℕ)
trim_loop zero bs last = last
trim_loop (suc fuel) bs last = elim (trim_step bs last) [
  | none ↦ last
  | some (rest, last') ↦ trim_loop fuel rest last'
]

-- The file after the trim: what stands behind the last checkpoint, or all of it.
unfoldable pub trim_file : List ℕ → List ℕ
unfolding trim_loop
trim_file file = elim (trim_loop (length file) file none) [ none ↦ file | some tail ↦ tail ]

-- The operation where every file can be opened
unfoldable pub trim_synced : Wal → Wal × Option (Unit {0})
unfolding trim_file reset
trim_synced w = elim w.file [
  | [] ↦ (w, some tt)
  | b ∷ bs ↦ (reset (record w { file = trim_file (b ∷ bs) }), some tt)
]

unfoldable pub trim_to_last_checkpoint : ℕ → Wal → Wal × Option (Unit {0})
unfolding sync after_sync trim_synced
trim_to_last_checkpoint accepted w = after_sync (sync accepted true w) trim_synced
