-- ===== src/Engine/Batches.antt =====
-- Batches from their start to their end.
use keyvaluedb.Prelude.{
  ℕ, ◌+◌, ◌≤◌, ◌<◌, ◌≡◌, refl, sym, ap, ◌∙◌, inl, inr, Bool, true, false, some, List, [], ◌∷◌,
  arith, ltb, Bool-cases, length, length-append,
}
use keyvaluedb.MemTable.{TreeOps, is_full}
use keyvaluedb.Wal.Format.{sentinel_record, commit_sentinel}
use keyvaluedb.Bytes.{write_u32}
use keyvaluedb.Wal.State.{Wal, buffer, sync, buffer_batch_commit, current_batch_seq}
use keyvaluedb.Engine.State.{
  max_key_bytes, max_key_value_pair_bytes, entry_overhead_bytes, CacheOps, Engine, Outcome,
  returned, uint64, rotate, sync_worker, note_synced,
}
use keyvaluedb.Engine.Writes.{must_wait, take_ts, log_entry, apply_entry, insert_checked, insert_kv}
use keyvaluedb.Engine.Clock.{if_both}
use keyvaluedb.Engine.Batch.{
  start_batch, commit_batch_async, commit_batch_finalize, await_synced, commit_batch, abort_batch,
  abort_touched,
}

module _ {Tree Cache : Type 0} (ops : TreeOps Tree) (cache : CacheOps Cache) where
  wal-rotate : (e : Engine Tree Cache) → (rotate ops e).wal ≡ e.wal
  unfolding rotate
  wal-rotate e = elim (Bool-cases (is_full ops e.active)) [ inl b ↦ rw b refl | inr b ↦ rw b refl ]

  wal-insert_checked :
      (key value : List ℕ) (e : Engine Tree Cache)
      → must_wait e ≡ false
      → (insert_checked ops cache key value e).0.wal
        ≡ buffer key value (uint64 (e.global_ts + 1)) e.wal
  unfolding insert_checked take_ts log_entry apply_entry
  wal-insert_checked key value e h = rw h (wal-rotate _)

  -- An ordinary insertion within the limits, while a batch is open whose timestamp is the next one,
  -- does not wait, and its entry is logged with the batch's timestamp.
  pub insert_kv-batch_ts :
      (key value : List ℕ) (e : Engine Tree Cache)
      → length key ≤ max_key_bytes
      → length key + length value + entry_overhead_bytes ≤ max_key_value_pair_bytes
      → e.batch_in_progress ≡ true
      → uint64 (e.global_ts + 1) ≡ e.batch_ts
      → (insert_kv ops cache key value e).0.wal ≡ buffer key value e.batch_ts e.wal
  unfolding insert_kv must_wait
  insert_kv-batch_ts key value e small pair running next =
      let a : ltb max_key_bytes (length key) ≡ false = ground (arith, small) in
      let b : ltb max_key_value_pair_bytes (length key + length value + entry_overhead_bytes)
          ≡ false =
        ground (arith, pair) in
      let c : must_wait e ≡ false = ground (arith, next) in
      rw (a, b) (wal-insert_checked key value e c ∙ ap (λ (ts : ℕ). buffer key value ts e.wal) next)

module _ {Tree Cache : Type 0} (ops : TreeOps Tree) where
  -- AbortBatch of an open batch returns true and closes it. A StartBatch behind it succeeds and opens a
  -- batch, and where the clock has not moved since the aborted one was started, the new batch has the
  -- same timestamp, whether or not the aborted one wrote something.
  pub start_batch-abort_batch :
      (e : Engine Tree Cache)
      → e.batch_in_progress ≡ true
      → e.batch_ts ≡ uint64 (e.global_ts + e.batch_increment_gap)
      → ((abort_batch ops e).1 ≡ true)
        × ((abort_batch ops e).0.batch_in_progress ≡ false)
        × ((start_batch (abort_batch ops e).0).1 ≡ true)
        × ((start_batch (abort_batch ops e).0).0.batch_in_progress ≡ true)
        × ((start_batch (abort_batch ops e).0).0.batch_ts ≡ e.batch_ts)
  unfolding start_batch abort_batch abort_touched
  start_batch-abort_batch e h same = elim (Bool-cases e.batch_touched) [
    | inl t ↦ rw (h, t) (refl, refl, refl, refl, sym same)
    | inr t ↦ rw (h, t) (refl, refl, refl, refl, sym same)
  ]

length-sentinel_record : (sentinel ts : ℕ) → 0 < length (sentinel_record sentinel ts)
unfolding sentinel_record write_u32
length-sentinel_record sentinel ts = omega arith

length-buffer_batch_commit : (ts : ℕ) (w : Wal) → 0 < length (buffer_batch_commit ts w).write_buf
unfolding buffer_batch_commit
length-buffer_batch_commit ts w = omega (
  arith,
  length-append w.write_buf (sentinel_record commit_sentinel ts),
  length-sentinel_record commit_sentinel ts,
)

sync-forced :
    (w : Wal)
    → 0 < length w.write_buf
    → (sync (length w.write_buf) true w).1 ≡ some (record { seq = w.batch_seq; persisted = true })
unfolding sync
sync-forced w h = ground (arith, h)

module _ {Tree Cache : Type 0} where
  -- A round that forces the sync reports all sequence numbers given out.
  sync_worker-forced :
      (e : Engine Tree Cache)
      → 0 < length e.wal.write_buf
      → (sync_worker true e ≡ record e {
        wal = (sync (length e.wal.write_buf) true e.wal).0;
        synced_seq = e.wal.batch_seq;
      })
  unfolding sync_worker note_synced
  sync_worker-forced e h = rw (sync-forced e.wal h) refl

  -- The batch is committed.
  Committed : Engine Tree Cache → Engine Tree Cache × Outcome Bool → Type 0
  Committed e r =
      (r.1 ≡ returned true)
      × (r.0.global_ts ≡ uint64 (e.batch_ts + 1))
      × (r.0.batch_in_progress ≡ false)

  Committed-finalize :
      (e : Engine Tree Cache)
      → e.batch_in_progress ≡ true
      → ltb e.synced_seq e.batch_commit_seq ≡ false
      → Committed e ((commit_batch_finalize e).0, returned (commit_batch_finalize e).1)
  unfolding Committed commit_batch_finalize
  Committed-finalize e h c = rw (h, c) (refl, refl, refl)

  Committed-await_now :
      (e : Engine Tree Cache)
      → e.batch_in_progress ≡ true
      → ltb e.synced_seq e.batch_commit_seq ≡ false
      → Committed e (await_synced [] e)
  unfolding await_synced
  Committed-await_now e h c =
      if_both (Committed e) (ltb e.synced_seq e.batch_commit_seq)
        (λ d. absurd (ground (arith, c, d))) (λ d. Committed-finalize e h c)

  Committed-await_forced :
      (e : Engine Tree Cache)
      → e.batch_in_progress ≡ true
      → e.batch_commit_seq ≡ e.wal.batch_seq
      → 0 < length e.wal.write_buf
      → Committed e (await_synced [] (sync_worker true e))
  unfolding Committed
  Committed-await_forced e h c some_bytes =
      let e' : Engine Tree Cache = record e {
        wal = (sync (length e.wal.write_buf) true e.wal).0;
        synced_seq = e.wal.batch_seq;
      } in
      rw (sync_worker-forced e some_bytes) (Committed-await_now e' h (ground (arith, c)))

  Committed-await :
      (e : Engine Tree Cache)
      → e.batch_in_progress ≡ true
      → e.batch_commit_seq ≡ e.wal.batch_seq
      → 0 < length e.wal.write_buf
      → Committed e (await_synced (true ∷ []) e)
  unfolding await_synced
  Committed-await e h c some_bytes =
      if_both (Committed e) (ltb e.synced_seq e.batch_commit_seq)
        (λ d. Committed-await_forced e h c some_bytes) (λ d. Committed-finalize e h d)

  -- What CommitBatch is on an open batch.
  pub commit_batch-open :
      (e : Engine Tree Cache) (rounds : List Bool)
      → e.batch_in_progress ≡ true
      → commit_batch rounds e ≡ await_synced rounds (commit_batch_async e).0
  unfolding commit_batch commit_batch_async
  commit_batch-open e rounds h = rw h refl

  commit_batch_async-open :
      (e : Engine Tree Cache)
      → e.batch_in_progress ≡ true
      → (commit_batch_async e).0 ≡ record e {
        wal = buffer_batch_commit e.batch_ts e.wal;
        batch_commit_seq = (buffer_batch_commit e.batch_ts e.wal).batch_seq;
        requested_seq = (buffer_batch_commit e.batch_ts e.wal).batch_seq;
      }
  unfolding commit_batch_async current_batch_seq
  commit_batch_async-open e h = rw h refl

  -- CommitBatch of an open batch returns once the sync thread has forced a sync, whatever was synced
  -- before; the clock is then behind the batch's timestamp, and the batch is closed.
  pub commit_batch-forced :
      (e : Engine Tree Cache)
      → e.batch_in_progress ≡ true
      → ((commit_batch (true ∷ []) e).1 ≡ returned true)
        × ((commit_batch (true ∷ []) e).0.global_ts ≡ uint64 (e.batch_ts + 1))
        × ((commit_batch (true ∷ []) e).0.batch_in_progress ≡ false)
  unfolding Committed
  commit_batch-forced e h =
      let e' : Engine Tree Cache = record e {
        wal = buffer_batch_commit e.batch_ts e.wal;
        batch_commit_seq = (buffer_batch_commit e.batch_ts e.wal).batch_seq;
        requested_seq = (buffer_batch_commit e.batch_ts e.wal).batch_seq;
      } in
      rw (commit_batch-open e (true ∷ []) h, commit_batch_async-open e h)
        (Committed-await e' h refl (length-buffer_batch_commit e.batch_ts e.wal))
