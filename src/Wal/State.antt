-- ===== src/Wal/State.antt =====
-- The class WAL (src/wal.cpp): the buffer, the file behind it and the counters. `file` is what has
-- reached the disk. Each operation holds the mutex while it changes the state, but for `Sync`, which
-- gives it up while it writes: `sync_take` and `sync_finish` are its two critical sections. Counters
-- are `size_t`, of 64 bits.
use keyvaluedb.Prelude.{
  ℕ, ◌+◌, ◌*◌, ◌%◌, ◌^◌, Bool, true, false, Option, none, some, List, [], ◌∷◌, ◌++◌, length, take,
  ltb, leb, not, ◌&&◌, ◌||◌, if◌then◌else◌,
}
use keyvaluedb.Wal.Format.{
  abort_sentinel, begin_sentinel, commit_sentinel, serialize_record, sentinel_record,
  checkpoint_record,
}
use keyvaluedb.Wal.Scan.{Recovery, recover_file}

-- Config::kWALMinSyncBytes
abbrev pub min_sync_bytes : ℕ
min_sync_bytes = 4 * 1024 * 1024

pub record Wal : Type 0 where
  pub file : List ℕ
  pub write_buf : List ℕ
  pub batch_seq : ℕ
  pub synced_seq : ℕ
  pub buffered_entries : ℕ
  pub synced_entries : ℕ

-- A log on a file that may hold records already
unfoldable pub open_file : List ℕ → Wal
open_file file = record {
  file = file;
  write_buf = [];
  batch_seq = 0;
  synced_seq = 0;
  buffered_entries = 0;
  synced_entries = 0;
}

abbrev pub size_t : ℕ → ℕ
size_t n = n % 2 ^ 64

unfoldable pub buffer : List ℕ → List ℕ → ℕ → Wal → Wal
buffer key value timestamp w = record w {
  write_buf = w.write_buf ++ serialize_record key value timestamp;
  batch_seq = size_t (w.batch_seq + 1);
  buffered_entries = size_t (w.buffered_entries + 1);
}

unfoldable pub buffer_abort : ℕ → Wal → Wal
buffer_abort batch_ts w = record w {
  write_buf = w.write_buf ++ sentinel_record abort_sentinel batch_ts;
}

unfoldable pub buffer_batch_begin : ℕ → Wal → Wal
buffer_batch_begin batch_ts w = record w {
  write_buf = w.write_buf ++ sentinel_record begin_sentinel batch_ts;
}

unfoldable pub buffer_batch_commit : ℕ → Wal → Wal
buffer_batch_commit batch_ts w = record w {
  write_buf = w.write_buf ++ sentinel_record commit_sentinel batch_ts;
  batch_seq = size_t (w.batch_seq + 1);
}

unfoldable pub write_checkpoint : ℕ → ℕ → Wal → Wal
write_checkpoint timestamp batch_ts w = record w {
  write_buf = w.write_buf ++ checkpoint_record timestamp batch_ts;
  batch_seq = size_t (w.batch_seq + 1);
}

pub record SyncResult : Type 0 where
  pub seq : ℕ
  pub persisted : Bool

-- What `Sync` holds while it writes without the mutex
pub record Pending : Type 0 where
  pub to_sync : List ℕ
  pub batch_at_sync : ℕ
  pub entries_in_batch : ℕ

pub data Taken : Type 0 where
  returned : SyncResult → Taken
  writing : Pending → Taken

is_empty : List ℕ → Bool
is_empty [] = true
is_empty (b ∷ bs) = false

-- Up to `lock.unlock()`
unfoldable pub sync_take : Bool → Wal → Wal × Taken
unfolding is_empty
sync_take force w =
    if is_empty w.write_buf
    then (w, returned (record { seq = w.synced_seq; persisted = false }))
    else if not force && ltb (length w.write_buf) min_sync_bytes
    then (
      record w { synced_seq = w.batch_seq },
      returned (record { seq = w.batch_seq; persisted = false }),
    )
    else (
      record w { write_buf = [] },
      writing (record {
        to_sync = w.write_buf;
        batch_at_sync = w.batch_seq;
        entries_in_batch = w.buffered_entries;
      }),
    )

-- `fwrite` and `fdatasync`, then from `lock.lock()` on. `accepted` is the number of bytes that the
-- file takes: `none` is the exception where it takes fewer than all.
unfoldable pub sync_finish : ℕ → Pending → Wal → Wal × Option SyncResult
sync_finish accepted p w =
    let written = record w { file = w.file ++ take accepted p.to_sync } in
    if ltb accepted (length p.to_sync) then (written, none) else (
      record written {
        synced_seq = p.batch_at_sync;
        synced_entries = size_t (w.synced_entries + p.entries_in_batch);
        buffered_entries = 0;
      },
      some (record { seq = p.batch_at_sync; persisted = true }),
    )

finish_taken : ℕ → Wal → Taken → Wal × Option SyncResult
finish_taken accepted w (returned r) = (w, some r)
finish_taken accepted w (writing p) = sync_finish accepted p w

-- `Sync` with no other thread between its critical sections
unfoldable pub sync : ℕ → Bool → Wal → Wal × Option SyncResult
unfolding sync_take sync_finish finish_taken
sync accepted force w = let (w', t) = sync_take force w in finish_taken accepted w' t

unfoldable pub current_batch_seq : Wal → ℕ
current_batch_seq w = w.batch_seq

unfoldable pub is_synced : ℕ → Wal → Bool
is_synced seq w = leb seq w.synced_seq

unfoldable pub entry_count : Wal → ℕ
entry_count w = size_t (w.synced_entries + w.buffered_entries)

unfoldable pub has_data : Wal → Bool
unfolding is_empty
has_data w = ltb 0 w.synced_entries || not (is_empty w.write_buf)

-- The counters and the buffer after `Recover` and `TrimToLastCheckpoint`
unfoldable pub reset : Wal → Wal
unfolding open_file
reset w = open_file w.file

unfoldable pub after_sync {ℓ} :
    {A : Type ℓ} → Wal × Option SyncResult → (Wal → Wal × Option A) → Wal × Option A
after_sync (w, none) k = (w, none)
after_sync (w, some r) k = k w

-- WAL::Recover behind its `Sync`. `readable` and `reopened` say whether the file could be opened for
-- reading, and afterwards for appending; `none` is an exception.
unfoldable pub recover_synced : Bool → Bool → Wal → Wal × Option Recovery
unfolding reset is_empty
recover_synced readable reopened w =
    if not readable || is_empty w.file
    then (w, some (record { results = []; checkpoint_ts = 0; aborted = [] }))
    else if reopened
    then (reset w, some (recover_file w.file))
    else (w, none)

unfoldable pub recover : ℕ → Bool → Bool → Wal → Wal × Option Recovery
unfolding sync after_sync recover_synced
recover accepted readable reopened w =
    after_sync (sync accepted true w) (recover_synced readable reopened)

-- WAL::Clear
unfoldable pub clear : ℕ → Bool → Wal → Wal × Option (Unit {0})
unfolding sync after_sync
clear accepted reopened w = after_sync (sync accepted true w) λ w'.
    if reopened
    then (
      record w' {
        file = [];
        batch_seq = 0;
        synced_seq = 0;
        buffered_entries = 0;
        synced_entries = 0;
      },
      some tt,
    )
    else (w', none)
