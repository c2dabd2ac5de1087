-- ===== src/Engine/Steps.antt =====
-- Each operation of the engine is a step of the clock's machine.
use keyvaluedb.Prelude.{
  ℕ, ◌+◌, ◌*◌, ◌≤◌, ◌≡◌, refl, ap, ◌∙◌, inl, inr, Bool, true, false, Option, none, some, List, [],
  ◌∷◌, arith, ltb, Bool-cases, length,
}
use keyvaluedb.MemTable.{TreeOps}
use keyvaluedb.Wal.State.{SyncResult}
use keyvaluedb.Engine.State.{
  max_key_bytes, max_key_value_pair_bytes, entry_overhead_bytes, CacheOps, Engine, Outcome,
  sync_worker, note_synced,
}
use keyvaluedb.Engine.Writes.{
  must_wait, take_ts, log_entry, apply_entry, insert_checked, insert_kv, delete_checked, delete_key,
}
use keyvaluedb.Engine.Batch.{
  start_batch, commit_batch_async, commit_batch_finalize, await_synced, commit_batch, abort_touched,
  abort_batch, write_in_batch, batch_insert, batch_delete,
}
use keyvaluedb.Engine.Clock.{
  Call, put, remove, start, commit_async, finalize, commit, abort, put_in_batch, remove_in_batch,
  sync_round, clock, Fits64, uint64-small, Ticks, stayed, opened, closed, dropped, perform,
  clock-rotate, if_both, Ticks-same, Steps, Steps-stayed, Steps-taken, Steps-Ticks,
}

module _ {Tree Cache : Type 0} where
  clock-note_synced :
      (r : Option SyncResult) (e : Engine Tree Cache) → clock (note_synced r e) ≡ clock e
  unfolding note_synced
  clock-note_synced none e = refl
  clock-note_synced (some r) e = elim (Bool-cases r.persisted) [
    | inl b ↦ rw b refl
    | inr b ↦ rw b refl
  ]

  pub clock-sync_worker :
      (force : Bool) (e : Engine Tree Cache) → clock (sync_worker force e) ≡ clock e
  unfolding sync_worker
  clock-sync_worker force e = clock-note_synced _ _

  Ticks-start :
      (e : Engine Tree Cache) → Fits64 (clock e) → Ticks (clock e) (clock (start_batch e).0)
  unfolding start_batch
  Ticks-start e fit = elim (Bool-cases e.batch_in_progress) [
    | inl b ↦ rw b (stayed refl)
    | inr b ↦
        rw (b, uint64-small (e.global_ts + e.batch_increment_gap) (omega arith)) (opened refl refl)
  ]

  pub Ticks-commit_async : (e : Engine Tree Cache) → clock (commit_batch_async e).0 ≡ clock e
  unfolding commit_batch_async
  Ticks-commit_async e = elim (Bool-cases e.batch_in_progress) [
    | inl b ↦ rw b refl
    | inr b ↦ rw b refl
  ]

  Ticks-finalize :
      (e : Engine Tree Cache)
      → Fits64 (clock e)
      → Ticks (clock e) (clock (commit_batch_finalize e).0)
  unfolding commit_batch_finalize
  Ticks-finalize e fit = elim (Bool-cases e.batch_in_progress) [
    | inr b ↦ rw b (stayed refl)
    | inl b ↦ elim (Bool-cases (ltb e.synced_seq e.batch_commit_seq)) [
      | inl c ↦ rw (b, c) (stayed refl)
      | inr c ↦ rw (b, c, uint64-small (e.batch_ts + 1) fit.1) (closed refl refl)
    ]
  ]

  Ticks-await_synced :
      (rounds : List Bool) (e : Engine Tree Cache)
      → Fits64 (clock e)
      → Ticks (clock e) (clock (await_synced rounds e).0)
  unfolding await_synced
  Ticks-await_synced [] e fit =
      if_both (λ (r : Engine Tree Cache × Outcome Bool). Ticks (clock e) (clock r.0)) _
        (λ b. stayed refl) (λ b. Ticks-finalize e fit)
  Ticks-await_synced (force ∷ rounds) e fit =
      if_both (λ (r : Engine Tree Cache × Outcome Bool). Ticks (clock e) (clock r.0)) _
        (λ b.
          Ticks-same _ _ _ (clock-sync_worker force e) fit
            (Ticks-await_synced rounds (sync_worker force e)))
        (λ b. Ticks-finalize e fit)

  Ticks-commit :
      (rounds : List Bool) (e : Engine Tree Cache)
      → Fits64 (clock e)
      → Ticks (clock e) (clock (commit_batch rounds e).0)
  unfolding commit_batch
  Ticks-commit rounds e fit =
      if_both (λ (r : Engine Tree Cache × Outcome Bool). Ticks (clock e) (clock r.0)) _
        (λ b.
          Ticks-same _ _ _ (Ticks-commit_async e) fit
            (Ticks-await_synced rounds (commit_batch_async e).0))
        (λ b. stayed (Ticks-commit_async e))

module _ {Tree Cache : Type 0} (ops : TreeOps Tree) where
  Ticks-abort : (e : Engine Tree Cache) → Ticks (clock e) (clock (abort_batch ops e).0)
  unfolding abort_batch abort_touched
  Ticks-abort e = elim (Bool-cases e.batch_in_progress) [
    | inr b ↦ rw b (stayed refl)
    | inl b ↦ elim (Bool-cases e.batch_touched) [
      | inl c ↦ rw (b, c) (dropped refl refl)
      | inr c ↦ rw (b, c) (dropped refl refl)
    ]
  ]

module _ {Tree Cache : Type 0} (ops : TreeOps Tree) (cache : CacheOps Cache) where
  Ticks-write_in_batch :
      (key value : List ℕ) (tomb : Bool) (e : Engine Tree Cache)
      → clock (write_in_batch ops cache key value tomb e).0 ≡ clock e
  unfolding write_in_batch log_entry apply_entry
  Ticks-write_in_batch key value tomb e = clock-rotate ops _

  pub Ticks-batch_insert :
      (key value : List ℕ) (e : Engine Tree Cache)
      → clock (batch_insert ops cache key value e).0 ≡ clock e
  unfolding batch_insert
  Ticks-batch_insert key value e = elim (Bool-cases (ltb 1024 (length key))) [
    | inl a ↦ rw a refl
    | inr a ↦ elim (Bool-cases (ltb (4 * 1024 * 1024) (length key + length value + 64))) [
      | inl b ↦ rw (a, b) refl
      | inr b ↦ rw (a, b) (Ticks-write_in_batch key value false e)
    ]
  ]

  pub Ticks-batch_delete :
      (key : List ℕ) (e : Engine Tree Cache) → clock (batch_delete ops cache key e).0 ≡ clock e
  unfolding batch_delete
  Ticks-batch_delete key e = elim (Bool-cases (ltb 1024 (length key))) [
    | inl a ↦ rw a refl
    | inr a ↦ rw a (Ticks-write_in_batch key [] true e)
  ]

  pub must_wait-clock :
      (e : Engine Tree Cache)
      → Fits64 (clock e)
      → must_wait e ≡ false
      → e.batch_in_progress ≡ true
      → e.global_ts + 1 ≤ e.batch_ts
  unfolding must_wait
  must_wait-clock e fit h b = ground (arith, h, b)

  Steps-insert_checked :
      (key value : List ℕ) (e : Engine Tree Cache)
      → Fits64 (clock e)
      → Steps e (insert_checked ops cache key value e)
  unfolding insert_checked take_ts log_entry apply_entry
  Steps-insert_checked key value e fit =
      if_both (Steps e) _ (λ c. Steps-stayed e _)
        (λ c. Steps-taken e _ _ (must_wait-clock e fit c) (
          clock-rotate ops _
          ∙ ap (λ (n : ℕ). record (clock e) { now = n })
              (uint64-small (e.global_ts + 1) (omega arith))))

  Steps-insert_kv :
      (key value : List ℕ) (e : Engine Tree Cache)
      → Fits64 (clock e)
      → Steps e (insert_kv ops cache key value e)
  unfolding insert_kv
  Steps-insert_kv key value e fit =
      if_both (Steps e) (ltb max_key_bytes (length key)) (λ a. Steps-stayed e _)
        (λ a.
          if_both (Steps e)
            (ltb max_key_value_pair_bytes (length key + length value + entry_overhead_bytes))
            (λ b. Steps-stayed e _) (λ b. Steps-insert_checked key value e fit))

  Steps-delete_checked :
      (key : List ℕ) (e : Engine Tree Cache)
      → Fits64 (clock e)
      → Steps e (delete_checked ops cache key e)
  unfolding delete_checked take_ts log_entry apply_entry
  Steps-delete_checked key e fit =
      if_both (Steps e) _ (λ c. Steps-stayed e _)
        (λ c. Steps-taken e _ _ (must_wait-clock e fit c) (
          clock-rotate ops _
          ∙ ap (λ (n : ℕ). record (clock e) { now = n })
              (uint64-small (e.global_ts + 1) (omega arith))))

  Steps-delete_key :
      (key : List ℕ) (e : Engine Tree Cache)
      → Fits64 (clock e)
      → Steps e (delete_key ops cache key e)
  unfolding delete_key
  Steps-delete_key key e fit =
      if_both (Steps e) (ltb max_key_bytes (length key)) (λ a. Steps-stayed e _)
        (λ a. Steps-delete_checked key e fit)

  -- Each operation of a client and each round of the sync thread is a step of the clock's machine,
  -- where no timestamp wraps.
  pub perform-Ticks :
      (call : Call) (e : Engine Tree Cache)
      → Fits64 (clock e)
      → Ticks (clock e) (clock (perform ops cache call e))
  unfolding perform
  perform-Ticks (put key value) e fit = Steps-Ticks e _ (Steps-insert_kv key value e fit)
  perform-Ticks (remove key) e fit = Steps-Ticks e _ (Steps-delete_key key e fit)
  perform-Ticks start e fit = Ticks-start e fit
  perform-Ticks commit_async e fit = stayed (Ticks-commit_async e)
  perform-Ticks finalize e fit = Ticks-finalize e fit
  perform-Ticks (commit rounds) e fit = Ticks-commit rounds e fit
  perform-Ticks abort e fit = Ticks-abort ops e
  perform-Ticks (put_in_batch key value) e fit = stayed (Ticks-batch_insert key value e)
  perform-Ticks (remove_in_batch key) e fit = stayed (Ticks-batch_delete key e)
  perform-Ticks (sync_round force) e fit = stayed (clock-sync_worker force e)
