-- ===== src/Engine/Batch.antt =====
-- The batches of the engine (StartBatch to BatchDelete in src/engine.cpp), each operation run from
-- start to end but for CommitBatch, which waits for the sync thread.
use keyvaluedb.Prelude.{
  ℕ, ◌+◌, Bool, true, false, not, List, [], ◌∷◌, ◌++◌, ltb, if◌then◌else◌, insert, length,
}
use keyvaluedb.MemTable.{TreeOps, MemTable, add_aborted_batch}
use keyvaluedb.Manifest.Format.{Metadata, add_abort_batch}
use keyvaluedb.Wal.State.{
  sync, buffer_abort, buffer_batch_begin, buffer_batch_commit, current_batch_seq,
}
use keyvaluedb.Engine.State.{
  max_key_bytes, max_key_value_pair_bytes, entry_overhead_bytes, uint64, CacheOps, Engine, Outcome,
  invalid_argument, waiting, returned, sync_worker,
}
use keyvaluedb.Engine.Writes.{log_entry, apply_entry}

module _ {Tree Cache : Type 0} where
  unfoldable pub start_batch : Engine Tree Cache → Engine Tree Cache × Bool
  unfolding buffer_batch_begin
  start_batch e =
      if e.batch_in_progress
      then (e, false)
      else (let ts = uint64 (e.global_ts + e.batch_increment_gap) in
          (
            record e {
              batch_ts = ts;
              batch_in_progress = true;
              batch_touched = false;
              wal = buffer_batch_begin ts e.wal;
            },
            true,
          ))

  unfoldable pub commit_batch_async : Engine Tree Cache → Engine Tree Cache × Bool
  unfolding buffer_batch_commit current_batch_seq
  commit_batch_async e =
      if e.batch_in_progress
      then (let w = buffer_batch_commit e.batch_ts e.wal in
          (
            record e {
              wal = w;
              batch_commit_seq = current_batch_seq w;
              requested_seq = current_batch_seq w;
            },
            true,
          ))
      else (e, false)

  unfoldable pub commit_batch_finalize : Engine Tree Cache → Engine Tree Cache × Bool
  commit_batch_finalize e =
      if not e.batch_in_progress
      then (e, false)
      else if ltb e.synced_seq e.batch_commit_seq
      then (e, false)
      else (
        record e {
          global_ts = uint64 (e.batch_ts + 1);
          batch_in_progress = false;
          batch_commit_seq = 0;
        },
        true,
      )

  -- The loop of CommitBatch, while the sync thread runs its rounds; `waiting` where they do not
  -- suffice.
  unfoldable pub await_synced : List Bool → Engine Tree Cache → Engine Tree Cache × Outcome Bool
  unfolding commit_batch_finalize sync_worker
  await_synced [] e =
      if ltb e.synced_seq e.batch_commit_seq
      then (e, waiting)
      else (let (e', b) = commit_batch_finalize e in (e', returned b))
  await_synced (force ∷ rounds) e =
      let rest = await_synced rounds (sync_worker force e) in
      if ltb e.synced_seq e.batch_commit_seq
      then rest
      else (let (e', b) = commit_batch_finalize e in (e', returned b))

  -- CommitBatch: its first half is CommitBatchAsync.
  unfoldable pub commit_batch : List Bool → Engine Tree Cache → Engine Tree Cache × Outcome Bool
  unfolding commit_batch_async await_synced
  commit_batch rounds e =
      let (e', b) = commit_batch_async e in
      if b then await_synced rounds e' else (e', returned false)

-- The metadata of all tables, marked
unfoldable pub mark_tables : ℕ → List Metadata → List Metadata
unfolding insert
mark_tables ts [] = []
mark_tables ts (m ∷ ms) =
    (record m { aborted_batch_ts = insert ts m.aborted_batch_ts }) ∷ mark_tables ts ms

module _ {Tree : Type 0} (ops : TreeOps Tree) where
  unfoldable pub abort_memtables : ℕ → List (MemTable Tree) → List (MemTable Tree)
  unfolding add_aborted_batch
  abort_memtables ts [] = []
  abort_memtables ts (m ∷ ms) = add_aborted_batch ops ts m ∷ abort_memtables ts ms

module _ {Tree Cache : Type 0} (ops : TreeOps Tree) where
  -- What AbortBatch does with a batch that wrote something; the file of the log takes all bytes.
  unfoldable pub abort_touched : Engine Tree Cache → Engine Tree Cache
  unfolding sync buffer_abort abort_memtables mark_tables add_aborted_batch add_abort_batch
  abort_touched e =
      let w = buffer_abort e.batch_ts e.wal in
      record e {
        wal = (sync (length w.write_buf) true w).0;
        manifest = e.manifest ++ add_abort_batch e.batch_ts e.sstable_seq;
        active = add_aborted_batch ops e.batch_ts e.active;
        frozen = abort_memtables ops e.batch_ts e.frozen;
        tables = mark_tables e.batch_ts e.tables;
      }

  unfoldable pub abort_batch : Engine Tree Cache → Engine Tree Cache × Bool
  unfolding abort_touched
  abort_batch e =
      if e.batch_in_progress
      then (
        record (if e.batch_touched then abort_touched e else e) { batch_in_progress = false },
        true,
      )
      else (e, false)

module _ {Tree Cache : Type 0} (ops : TreeOps Tree) (cache : CacheOps Cache) where
  -- The body that BatchInsert and BatchDelete share
  unfoldable pub write_in_batch :
      List ℕ → List ℕ → Bool → Engine Tree Cache → Engine Tree Cache × Outcome ℕ
  unfolding log_entry apply_entry
  write_in_batch key value tomb e =
      let e1 = log_entry key value e.batch_ts (record e { batch_touched = true }) in
      (apply_entry ops cache key value e.batch_ts tomb e1, returned e1.requested_seq)

  unfoldable pub batch_insert : List ℕ → List ℕ → Engine Tree Cache → Engine Tree Cache × Outcome ℕ
  unfolding write_in_batch
  batch_insert key value e =
      if ltb max_key_bytes (length key)
      then (e, invalid_argument)
      else if ltb max_key_value_pair_bytes (length key + length value + entry_overhead_bytes)
      then (e, invalid_argument)
      else write_in_batch key value false e

  unfoldable pub batch_delete : List ℕ → Engine Tree Cache → Engine Tree Cache × Outcome ℕ
  unfolding write_in_batch
  batch_delete key e =
      if ltb max_key_bytes (length key) then (e, invalid_argument) else write_in_batch key [] true e
