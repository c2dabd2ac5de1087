-- ===== src/Engine/State.antt =====
-- What the write path of the engine changes (LSMTreeEngine in include/kvdb/engine.hpp), with the part
-- of the sync thread's state that it shares. Timestamps are 64 bits wide.
use keyvaluedb.Prelude.{
  ℕ, ◌+◌, ◌*◌, ◌%◌, ◌^◌, Bool, Option, none, some, List, [], ◌∷◌, ◌++◌, if◌then◌else◌, length,
}
use keyvaluedb.MemTable.{TreeOps, MemTable, new_memtable, is_full, freeze}
use keyvaluedb.Manifest.Format.{Metadata}
use keyvaluedb.Wal.State.{Wal, sync, SyncResult}

abbrev pub max_key_bytes : ℕ
max_key_bytes = 1024

abbrev pub max_key_value_pair_bytes : ℕ
max_key_value_pair_bytes = 4 * 1024 * 1024

abbrev pub entry_overhead_bytes : ℕ
entry_overhead_bytes = 64

abbrev pub uint64 : ℕ → ℕ
uint64 n = n % 2 ^ 64

-- What the write path asks of KVCache.
pub record CacheOps (Cache : Type 0) : Type 0 where
  pub cache_put : List ℕ → List ℕ → ℕ → Cache → Cache
  pub cache_erase : List ℕ → Cache → Cache

-- `active` and `frozen` are the memtables, `tables` the metadata of the SSTables, `manifest` the bytes
-- of the manifest's file; `requested_seq` and `synced_seq` are those of EngineSyncState, `pending` is
-- that of FlushState.
pub record Engine (Tree Cache : Type 0) : Type 0 where
  pub global_ts : ℕ
  pub batch_increment_gap : ℕ
  pub batch_in_progress : Bool
  pub batch_ts : ℕ
  pub batch_touched : Bool
  pub batch_commit_seq : ℕ
  pub next_table_id : ℕ
  pub memtable_max_bytes : ℕ
  pub sstable_seq : ℕ
  pub requested_seq : ℕ
  pub synced_seq : ℕ
  pub pending : ℕ
  pub active : MemTable Tree
  pub frozen : List (MemTable Tree)
  pub tables : List Metadata
  pub manifest : List ℕ
  pub wal : Wal
  pub kv_cache : Cache

-- A call throws `std::invalid_argument`, waits for a condition, or returns.
pub data Outcome (A : Type 0) : Type 0 where
  invalid_argument : Outcome A
  waiting : Outcome A
  returned : A → Outcome A

-- The reply to the sync thread's call of WAL::Sync
unfoldable pub note_synced :
    {Tree Cache : Type 0} → Option SyncResult → Engine Tree Cache → Engine Tree Cache
note_synced none e = e
note_synced (some r) e = if r.persisted then (record e { synced_seq = r.seq }) else e

-- A round of SyncWorkerLoop in which the file takes all bytes; `force` stands for its clock.
unfoldable pub sync_worker : {Tree Cache : Type 0} → Bool → Engine Tree Cache → Engine Tree Cache
unfolding sync note_synced
sync_worker force e =
    let (w, r) = sync (length e.wal.write_buf) force e.wal in note_synced r (record e { wal = w })

module _ {Tree Cache : Type 0} (ops : TreeOps Tree) where
  -- The active memtable freezes and a new one takes its place, where it is full.
  unfoldable pub rotate : Engine Tree Cache → Engine Tree Cache
  unfolding is_full freeze new_memtable
  rotate e =
      if is_full ops e.active
      then (record e {
        frozen = e.frozen ++ (freeze e.active ∷ []);
        pending = uint64 (e.pending + 1);
        active = new_memtable ops e.next_table_id e.memtable_max_bytes;
        next_table_id = uint64 (e.next_table_id + 1);
      })
      else e
