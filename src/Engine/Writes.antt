-- ===== src/Engine/Writes.antt =====
-- LSMTreeEngine::Insert and Delete (src/engine.cpp), each run from start to end with no other thread
-- between. The draining of retired pages, which frees memory, is left out.
use keyvaluedb.Prelude.{ℕ, ◌+◌, Bool, true, false, ◌&&◌, List, [], ltb, if◌then◌else◌, length}
use keyvaluedb.MemTable.{TreeOps, memtable_insert}
use keyvaluedb.Wal.State.{buffer, current_batch_seq}
use keyvaluedb.Engine.State.{
  max_key_bytes, max_key_value_pair_bytes, entry_overhead_bytes, uint64, CacheOps, Engine, Outcome,
  invalid_argument, waiting, returned, rotate,
}

-- The wait of Insert and Delete for a batch: whether it goes on
unfoldable pub must_wait : {Tree Cache : Type 0} → Engine Tree Cache → Bool
must_wait e = e.batch_in_progress && ltb e.batch_ts (uint64 (e.global_ts + 1))

-- `global_ts_.fetch_add(1) + 1`
unfoldable pub take_ts : {Tree Cache : Type 0} → Engine Tree Cache → ℕ × Engine Tree Cache
take_ts e = let ts = uint64 (e.global_ts + 1) in (ts, record e { global_ts = ts })

-- The record goes to the log, and the sync thread is told of it.
unfoldable pub log_entry :
    {Tree Cache : Type 0} → List ℕ → List ℕ → ℕ → Engine Tree Cache → Engine Tree Cache
unfolding buffer current_batch_seq
log_entry key value ts e =
    let w = buffer key value ts e.wal in record e { wal = w; requested_seq = current_batch_seq w }

module _ {Tree Cache : Type 0} (ops : TreeOps Tree) (cache : CacheOps Cache) where
  unfoldable pub apply_entry : List ℕ → List ℕ → ℕ → Bool → Engine Tree Cache → Engine Tree Cache
  unfolding rotate memtable_insert
  apply_entry key value ts tomb e =
      rotate ops (record e { active = memtable_insert ops key value ts tomb e.active })

  -- Insert behind its checks of the sizes
  unfoldable pub insert_checked :
      List ℕ → List ℕ → Engine Tree Cache → Engine Tree Cache × Outcome ℕ
  unfolding must_wait take_ts log_entry apply_entry
  insert_checked key value e =
      if must_wait e
      then (e, waiting)
      else (let (ts, e1) = take_ts e in
          let e2 = log_entry key value ts e1 in
          let e3 = apply_entry key value ts false e2 in
          (
            record e3 { kv_cache = cache.cache_put key value ts e3.kv_cache },
            returned e2.requested_seq,
          ))

  -- Insert; the result is the log's sequence number.
  unfoldable pub insert_kv : List ℕ → List ℕ → Engine Tree Cache → Engine Tree Cache × Outcome ℕ
  unfolding insert_checked
  insert_kv key value e =
      if ltb max_key_bytes (length key)
      then (e, invalid_argument)
      else if ltb max_key_value_pair_bytes (length key + length value + entry_overhead_bytes)
      then (e, invalid_argument)
      else insert_checked key value e

  -- Delete behind its check of the size
  unfoldable pub delete_checked : List ℕ → Engine Tree Cache → Engine Tree Cache × Outcome ℕ
  unfolding must_wait take_ts log_entry apply_entry
  delete_checked key e =
      if must_wait e
      then (e, waiting)
      else (let (ts, e1) = take_ts e in
          let e2 = log_entry key [] ts e1 in
          let e3 = apply_entry key [] ts true e2 in
          (record e3 { kv_cache = cache.cache_erase key e3.kv_cache }, returned e2.requested_seq))

  unfoldable pub delete_key : List ℕ → Engine Tree Cache → Engine Tree Cache × Outcome ℕ
  unfolding delete_checked
  delete_key key e =
      if ltb max_key_bytes (length key) then (e, invalid_argument) else delete_checked key e
