-- ===== src/Tests/Engine.antt =====
-- The engine at concrete inputs, with a list of versions for the tree and none for the cache.
use keyvaluedb.Prelude.{
  ℕ, ◌≡◌, refl, true, false, ◌&&◌, Option, none, some, List, [], ◌∷◌, arith, leb, if◌then◌else◌,
  length,
}
use keyvaluedb.Types.{KeyValuePair}
use keyvaluedb.Tree.Keys.{key_eq}
use keyvaluedb.MemTable.{TreeOps, new_memtable, memtable_insert, is_full, freeze}
use keyvaluedb.Wal.State.{
  open_file, buffer, buffer_batch_begin, buffer_batch_commit, buffer_abort, sync, current_batch_seq,
}
use keyvaluedb.Engine.State.{CacheOps, Engine, returned, uint64, rotate, sync_worker}
use keyvaluedb.Engine.Writes.{
  must_wait, take_ts, log_entry, apply_entry, insert_checked, insert_kv, delete_checked, delete_key,
}
use keyvaluedb.Engine.Batch.{
  start_batch, commit_batch_async, commit_batch_finalize, await_synced, commit_batch, abort_batch,
  abort_touched, write_in_batch, batch_insert,
}
use keyvaluedb.Engine.Clock.{Call, put, remove, start, commit, abort, put_in_batch, perform}
use keyvaluedb.Engine.Moves.{Moves, perform-Moves}
use keyvaluedb.Engine.Stamps.{Increasing, Recorded, stamp, stamps, stamp_of, stamps-Increasing}
use keyvaluedb.Engine.Batches.{insert_kv-batch_ts, start_batch-abort_batch, commit_batch-forced}

-- Unfolding this computes the calls.
engine_runs : ℕ
unfolding new_memtable memtable_insert is_full freeze open_file buffer buffer_batch_begin
    buffer_batch_commit buffer_abort sync current_batch_seq rotate sync_worker must_wait take_ts
    log_entry apply_entry insert_checked insert_kv delete_checked delete_key start_batch
    commit_batch_async commit_batch_finalize await_synced commit_batch abort_batch abort_touched
    write_in_batch batch_insert perform stamp stamps stamp_of
engine_runs = 0

abbrev get_version : List KeyValuePair → List ℕ → ℕ → Option (List ℕ)
get_version [] key read_ts = none
get_version (kv ∷ kvs) key read_ts =
    if key_eq kv.key key && leb kv.timestamp read_ts
    then some kv.value
    else get_version kvs key read_ts

abbrev versions : TreeOps (List KeyValuePair)
versions = record {
  new_tree = [];
  tree_insert = λ key value ts tomb kvs.
      (record { key = key; value = value; timestamp = ts; is_tombstone = tomb }) ∷ kvs;
  tree_lookup = λ key read_ts kvs. get_version kvs key read_ts;
  memory_usage = λ kvs. length kvs;
  size = λ kvs. length kvs;
  export_tree = λ kvs. kvs;
  tree_add_aborted = λ ts kvs. kvs;
}

abbrev pub no_cache : CacheOps (Unit {0})
no_cache = record { cache_put = λ key value ts c. c; cache_erase = λ key c. c }

abbrev pub fresh : Engine (List KeyValuePair) (Unit {0})
fresh = record {
  global_ts = 0;
  batch_increment_gap = 3;
  batch_in_progress = false;
  batch_ts = 0;
  batch_touched = false;
  batch_commit_seq = 0;
  next_table_id = 1;
  memtable_max_bytes = 4;
  sstable_seq = 0;
  requested_seq = 0;
  synced_seq = 0;
  pending = 0;
  active = record { tree = []; id = 0; max_bytes = 4; frozen = false };
  frozen = [];
  tables = [];
  manifest = [];
  wal = record {
    file = [];
    write_buf = [];
    batch_seq = 0;
    synced_seq = 0;
    buffered_entries = 0;
    synced_entries = 0;
  };
  kv_cache = tt;
}

-- The batch has the timestamp 4, and the third write that follows gets it too.
abbrev calls : List Call
calls =
    put (97 ∷ []) []
    ∷ start
    ∷ put_in_batch (98 ∷ []) []
    ∷ put (99 ∷ []) []
    ∷ put (97 ∷ []) (1 ∷ [])
    ∷ remove (97 ∷ [])
    ∷ put (97 ∷ []) (2 ∷ [])
    ∷ abort
    ∷ put (97 ∷ []) (2 ∷ [])
    ∷ []

stamps-calls : stamps versions no_cache calls fresh ≡ 1 ∷ 2 ∷ 3 ∷ 4 ∷ 5 ∷ []
unfolding engine_runs
stamps-calls = refl

abbrev open_batch : Engine (List KeyValuePair) (Unit {0})
open_batch = record fresh {
  global_ts = 3;
  batch_in_progress = true;
  batch_ts = 4;
  batch_touched = true;
}

perform-Moves_example : Moves versions no_cache (commit (true ∷ [])) open_batch
perform-Moves_example =
    perform-Moves versions no_cache (commit (true ∷ [])) open_batch (omega arith)

stamps-Increasing_example :
    Increasing 0 (stamps versions no_cache calls fresh) × Recorded versions no_cache calls fresh
stamps-Increasing_example =
    stamps-Increasing versions no_cache calls fresh (unfold engine_runs in omega arith) (λ e. cc)

insert_kv-batch_ts_example :
    (insert_kv versions no_cache (97 ∷ []) [] open_batch).0.wal
    ≡ buffer (97 ∷ []) [] 4 open_batch.wal
insert_kv-batch_ts_example =
    insert_kv-batch_ts versions no_cache (97 ∷ []) [] open_batch (omega arith) (omega arith) refl
      refl

abbrev first_batch : Engine (List KeyValuePair) (Unit {0})
first_batch = record fresh {
  global_ts = 1;
  batch_in_progress = true;
  batch_ts = 4;
  batch_touched = true;
}

start_batch-abort_batch_example :
    ((abort_batch versions first_batch).1 ≡ true)
    × ((abort_batch versions first_batch).0.batch_in_progress ≡ false)
    × ((start_batch (abort_batch versions first_batch).0).1 ≡ true)
    × ((start_batch (abort_batch versions first_batch).0).0.batch_in_progress ≡ true)
    × ((start_batch (abort_batch versions first_batch).0).0.batch_ts ≡ 4)
start_batch-abort_batch_example = start_batch-abort_batch versions first_batch refl refl

commit_batch-forced_example :
    ((commit_batch (true ∷ []) open_batch).1 ≡ returned true)
    × ((commit_batch (true ∷ []) open_batch).0.global_ts ≡ uint64 5)
    × ((commit_batch (true ∷ []) open_batch).0.batch_in_progress ≡ false)
commit_batch-forced_example = commit_batch-forced open_batch refl
