-- ===== src/Tests/Wal.antt =====
-- The write-ahead log at concrete inputs.
use keyvaluedb.Prelude.{
  if◌then◌else◌, ◌==◌, none, ℕ, ◌≤◌, ◌≡◌, refl, true, false, some, List, [], ◌∷◌, ◌++◌, length,
  arith, contains, insert, erase, ◌||◌, ◌&&◌, not, ◌==◌,
}
use keyvaluedb.Wal.Format.{
  checkpoint_sentinel, Record, put, batch_begin, batch_commit, checkpoint, encode, encode_all,
  serialize_record, sentinel_record, checkpoint_record, entry_body,
}
use keyvaluedb.Wal.Scan.{
  Recovery, recover_file, find_step, find_body, read_entry, read_checkpoint, short_checkpoint,
  find_checkpoint, replay_step, replay_body, replay_entry, replay_abort, replay_begin,
  replay_commit, replay, uint64_from, start, unfinished, first_pass, second_pass,
}
use keyvaluedb.Bytes.{write_u32, write_u64, read_u32, read_u64, split_at}
use keyvaluedb.Crc32.{update, finalize, crc_byte, checksum}
use keyvaluedb.Crc32.Table.{crc_table}
use keyvaluedb.Wal.State.{
  Wal, open_file, buffer, sync, recover, sync_take, sync_finish, SyncResult, writing, Pending,
  is_synced, current_batch_seq, entry_count,
}
use keyvaluedb.Wal.Records.{recovered}
use keyvaluedb.Wal.Passes.{Ends}
use keyvaluedb.Wal.Torn.{Ends-torn}
use keyvaluedb.Wal.TrimCheckpoint.{trim_step-checkpoint}
use keyvaluedb.Wal.Trim.{trim_file, trim_loop, trim_step, trim_body, skip_entry}
use keyvaluedb.Wal.Replay.{entries, has_put, has_abort, has_begin, has_end}
use keyvaluedb.Wal.Recovery.{
  logged, recover_file-logged, recover_file-encode_all, checkpoint_ts-behind_batch,
}
use keyvaluedb.Wal.Durability.{Event, write, flush, run, written, recover-run, bytes-run}
use keyvaluedb.Wal.Counters.{sync-persisted, entry_count-buffer_during_sync}

abbrev put_a : Record
put_a = put (97 ∷ []) (1 ∷ 2 ∷ []) 7

abbrev put_b : Record
put_b = put (98 ∷ []) (3 ∷ []) 8

-- Unfolding this computes all of recovery.
recovery_runs : ℕ
unfolding recover_file encode_all encode serialize_record sentinel_record checkpoint_record
    entry_body write_u32 write_u64 read_u32 read_u64 split_at finalize update crc_byte crc_table
    checksum find_step find_body read_entry read_checkpoint short_checkpoint find_checkpoint
    replay_step replay_body replay_entry replay_abort replay_begin replay_commit replay uint64_from
    start unfinished first_pass second_pass insert erase trim_file trim_loop trim_step trim_body
    skip_entry
recovery_runs = 0

recover_two : recover_file (encode_all (put_a ∷ put_b ∷ [])) ≡ record {
  results = recovered (97 ∷ []) (1 ∷ 2 ∷ []) 7 ∷ recovered (98 ∷ []) (3 ∷ []) 8 ∷ [];
  checkpoint_ts = 0;
  aborted = [];
}
unfolding recovery_runs
recover_two = refl

-- A committed batch, a checkpoint and an entry behind it.
abbrev after_batch : List Record
after_batch =
    batch_begin 5 ∷ put (97 ∷ []) (1 ∷ []) 5 ∷ batch_commit 5 ∷ checkpoint 6 0 ∷ put_b ∷ []

-- The checkpoint is not found, its body is read as a record, and the entry behind it is lost.
recover_after_batch :
    recover_file (encode_all after_batch)
    ≡ record { results = recovered (97 ∷ []) (1 ∷ []) 5 ∷ []; checkpoint_ts = 0; aborted = [] }
unfolding recovery_runs
recover_after_batch = refl

-- Trimming removes nothing.
trim_keeps_all :
    trim_file (encode_all (put_a ∷ checkpoint 7 0 ∷ put_b ∷ []))
    ≡ encode_all (put_a ∷ checkpoint 7 0 ∷ put_b ∷ [])
unfolding recovery_runs
trim_keeps_all = refl

-- What a crash left of the record of `put_a`, and the rest.
abbrev torn : List ℕ
torn = 48 ∷ 89 ∷ 176 ∷ 220 ∷ 1 ∷ 0 ∷ 0 ∷ 0 ∷ 97 ∷ []

abbrev torn_off : List ℕ
torn_off = 0 ∷ 0 ∷ 0 ∷ 1 ∷ 2 ∷ 7 ∷ 0 ∷ 0 ∷ 0 ∷ 0 ∷ 0 ∷ 0 ∷ 0 ∷ []

torn_a : encode put_a ≡ torn ++ (2 ∷ torn_off)
unfolding recovery_runs
torn_a = refl

Ends-torn_example : Ends torn
Ends-torn_example = Ends-torn (97 ∷ []) (1 ∷ 2 ∷ []) 7 torn 2 torn_off (omega arith) torn_a

torn-Ends : Ends torn
torn-Ends = Ends-torn (97 ∷ []) (1 ∷ 2 ∷ []) 7 torn 2 torn_off (omega arith) torn_a

abbrev open_batch : List Record
open_batch = put_b ∷ batch_begin 20 ∷ put (99 ∷ []) [] 20 ∷ []

recover_file-logged_example :
    ((recover_file (logged (put_a ∷ []) 7 0 open_batch torn)).results ≡ entries open_batch)
    × ((recover_file (logged (put_a ∷ []) 7 0 open_batch torn)).checkpoint_ts ≡ 7)
    × ((t : ℕ)
        → contains t (recover_file (logged (put_a ∷ []) 7 0 open_batch torn)).aborted ≡ (
            has_abort t open_batch
            || ((has_begin t open_batch || (not (0 == 0) && 0 == t))
                && (not (has_end t open_batch) && has_put t open_batch))))
recover_file-logged_example =
    recover_file-logged (put_a ∷ []) open_batch 7 0 torn (omega arith) (omega arith) (omega arith)
      (omega arith) (omega arith) torn-Ends (unfold recovery_runs in omega arith)

recover_file-encode_all_example :
    ((recover_file (encode_all open_batch ++ torn)).results ≡ entries open_batch)
    × ((recover_file (encode_all open_batch ++ torn)).checkpoint_ts ≡ 0)
    × ((t : ℕ)
        → contains t (recover_file (encode_all open_batch ++ torn)).aborted ≡ (
            has_abort t open_batch
            || (has_begin t open_batch && (not (has_end t open_batch) && has_put t open_batch))))
recover_file-encode_all_example =
    recover_file-encode_all open_batch torn (omega arith) (omega arith) torn-Ends
      (unfold recovery_runs in omega arith)

checkpoint_ts-behind_batch_example :
    (recover_file (
      encode_all (put_a ∷ [])
      ++ (encode (batch_begin 5) ++ encode_all (checkpoint 6 0 ∷ [])))).checkpoint_ts
    ≡ 0
checkpoint_ts-behind_batch_example =
    checkpoint_ts-behind_batch (put_a ∷ []) 5 (encode_all (checkpoint 6 0 ∷ [])) (omega arith)
      (omega arith) (unfold recovery_runs in omega arith)

abbrev session : List Event
session = write put_a ∷ flush false ∷ write (batch_begin 20) ∷ flush true ∷ write put_b ∷ []

recover-run_example :
    (r : Recovery) × ((recover
        (length (run session (open_file [])).write_buf)
        true
        true
        (run session (open_file []))).1
      ≡ some r)
    × (r.results ≡ entries (written session))
    × (r.checkpoint_ts ≡ 0)
recover-run_example =
    recover-run session (omega arith) (omega arith) (unfold recovery_runs in omega arith)

abbrev buffered : Wal
buffered = record {
  file = [];
  write_buf = 1 ∷ 2 ∷ [];
  batch_seq = 3;
  synced_seq = 1;
  buffered_entries = 1;
  synced_entries = 0;
}

abbrev persisted : SyncResult
persisted = record { seq = 3; persisted = true }

sync-buffered : (sync 2 true buffered).1 ≡ some persisted
unfolding sync
sync-buffered = refl

sync-persisted_example :
    ((sync 2 true buffered).0.write_buf ≡ [])
    × ((sync 2 true buffered).0.file ≡ buffered.file ++ buffered.write_buf)
    × (2 ≤ 2)
    × (is_synced (current_batch_seq buffered) (sync 2 true buffered).0 ≡ true)
sync-persisted_example = sync-persisted 2 true buffered persisted sync-buffered refl

-- A small buffer counts as synced, and nothing of it is in the file.
sync-unwritten :
    (is_synced (current_batch_seq buffered) (sync 2 false buffered).0 ≡ true)
    × ((sync 2 false buffered).0.file ≡ [])
unfolding is_synced current_batch_seq sync
sync-unwritten = (refl, refl)

abbrev pending : Pending
pending = record { to_sync = 1 ∷ 2 ∷ []; batch_at_sync = 3; entries_in_batch = 1 }

sync_take-buffered : (sync_take true buffered).1 ≡ writing pending
unfolding sync_take
sync_take-buffered = refl

entry_count-buffer_during_sync_example :
    entry_count (sync_finish 2 pending (buffer (97 ∷ []) [] 7 (sync_take true buffered).0)).0
    ≡ entry_count buffered
entry_count-buffer_during_sync_example =
    entry_count-buffer_during_sync buffered pending (97 ∷ []) [] 7 sync_take-buffered

bytes-run_example :
    (run session buffered).file ++ (run session buffered).write_buf
    ≡ (1 ∷ 2 ∷ []) ++ encode_all (written session)
bytes-run_example = bytes-run session buffered

trim_step-checkpoint_example :
    trim_step (encode (checkpoint 7 0) ++ []) none
    ≡ some (
      write_u64 0 ++ [],
      if checksum (write_u32 checkpoint_sentinel ++ write_u64 7)
            == checksum (write_u32 checkpoint_sentinel ++ (write_u64 7 ++ write_u64 0))
          then some (write_u64 0 ++ [])
          else none,
    )
trim_step-checkpoint_example = trim_step-checkpoint 7 0 [] none
