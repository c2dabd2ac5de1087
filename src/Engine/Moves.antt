-- ===== src/Engine/Moves.antt =====
-- What each call of the engine does to its clock, by what it returns.
use keyvaluedb.Prelude.{
  ℕ, ◌+◌, ◌≤◌, ◌<◌, ◌≡◌, refl, sym, ap, ◌∙◌, ◌⊎◌, inl, inr, Bool, true, false, List, [], ◌∷◌, arith,
  ltb, Bool-cases, length,
}
use mathlib.Core.Path.{subst}
use keyvaluedb.MemTable.{TreeOps}
use keyvaluedb.Engine.State.{
  max_key_bytes, max_key_value_pair_bytes, entry_overhead_bytes, CacheOps, Engine, Outcome,
  invalid_argument, waiting, returned, uint64, sync_worker,
}
use keyvaluedb.Engine.Writes.{
  must_wait, take_ts, log_entry, apply_entry, insert_checked, insert_kv, delete_checked, delete_key,
}
use keyvaluedb.Engine.Batch.{
  start_batch, commit_batch_async, commit_batch_finalize, await_synced, commit_batch, abort_touched,
  abort_batch, batch_insert, batch_delete,
}
use keyvaluedb.Engine.Clock.{
  Call, put, remove, start, commit_async, finalize, commit, abort, put_in_batch, remove_in_batch,
  sync_round, Clock, clock, Fits64, uint64-small, clock-rotate, if_both,
}
use keyvaluedb.Engine.Batches.{commit_batch-open}
use keyvaluedb.Engine.Steps.{
  clock-sync_worker, Ticks-commit_async, Ticks-batch_insert, Ticks-batch_delete, must_wait-clock,
}

-- An ordinary write that returns takes the next timestamp, no later than that of an open batch; one
-- that waits would have gone past the open batch; neither it nor one that throws moves the clock.
abbrev pub TakesNext : {Tree Cache : Type 0} → Clock → Engine Tree Cache × Outcome ℕ → Type 0
TakesNext c (e', invalid_argument) = clock e' ≡ c
TakesNext c (e', waiting) = (c.is_open ≡ true) × (c.batch < c.now + 1) × (clock e' ≡ c)
TakesNext c (e', returned a) =
    ((c.is_open ≡ false) ⊎ (c.now + 1 ≤ c.batch)) × (clock e' ≡ record c { now = c.now + 1 })

-- StartBatch opens a batch ahead of the clock, just where none is open.
abbrev pub Opens : {Tree Cache : Type 0} → Clock → Engine Tree Cache × Bool → Type 0
Opens c (e', true) =
    (c.is_open ≡ false) × (clock e' ≡ record c { is_open = true; batch = c.now + c.gap })
Opens c (e', false) = (c.is_open ≡ true) × (clock e' ≡ c)

-- The clock goes behind the timestamp of the open batch, which is closed.
abbrev pub Committed : Clock → Clock → Type 0
Committed c c' = (c.is_open ≡ true) × (c' ≡ record c { is_open = false; now = c.batch + 1 })

-- CommitBatchFinalize commits the open batch once it is synced, and otherwise leaves the clock.
abbrev pub Closes : {Tree Cache : Type 0} → Engine Tree Cache → Engine Tree Cache × Bool → Type 0
Closes e (e', true) = (e.batch_commit_seq ≤ e.synced_seq) × Committed (clock e) (clock e')
Closes e (e', false) =
    ((e.batch_in_progress ≡ false) ⊎ (e.synced_seq < e.batch_commit_seq)) × (clock e' ≡ clock e)

-- CommitBatch commits the open batch or waits; it returns false just where no batch is open.
abbrev pub Commits : {Tree Cache : Type 0} → Clock → Engine Tree Cache × Outcome Bool → Type 0
Commits c (e', invalid_argument) = ⊥
Commits c (e', waiting) = (c.is_open ≡ true) × (clock e' ≡ c)
Commits c (e', returned true) = Committed c (clock e')
Commits c (e', returned false) = (c.is_open ≡ false) × (clock e' ≡ c)

-- AbortBatch closes the open batch and leaves the time.
abbrev pub Drops : {Tree Cache : Type 0} → Clock → Engine Tree Cache × Bool → Type 0
Drops c (e', true) = (c.is_open ≡ true) × (clock e' ≡ record c { is_open = false })
Drops c (e', false) = (c.is_open ≡ false) × (clock e' ≡ c)

module _ {Tree Cache : Type 0} (ops : TreeOps Tree) (cache : CacheOps Cache) where
  -- What a call does to the clock
  abbrev pub Moves : Call → Engine Tree Cache → Type 0
  Moves (put key value) e = TakesNext (clock e) (insert_kv ops cache key value e)
  Moves (remove key) e = TakesNext (clock e) (delete_key ops cache key e)
  Moves start e = Opens (clock e) (start_batch e)
  Moves commit_async e = clock (commit_batch_async e).0 ≡ clock e
  Moves finalize e = Closes e (commit_batch_finalize e)
  Moves (commit rounds) e = Commits (clock e) (commit_batch rounds e)
  Moves abort e = Drops (clock e) (abort_batch ops e)
  Moves (put_in_batch key value) e = clock (batch_insert ops cache key value e).0 ≡ clock e
  Moves (remove_in_batch key) e = clock (batch_delete ops cache key e).0 ≡ clock e
  Moves (sync_round force) e = clock (sync_worker force e) ≡ clock e

module _ {Tree Cache : Type 0} where
  Opens-start_batch : (e : Engine Tree Cache) → Fits64 (clock e) → Opens (clock e) (start_batch e)
  unfolding start_batch
  Opens-start_batch e fit =
      if_both (Opens (clock e)) e.batch_in_progress (λ b. (b, refl))
        (λ b. (
          b,
          ap (λ (n : ℕ). record (clock e) { is_open = true; batch = n })
              (uint64-small (e.global_ts + e.batch_increment_gap) (omega arith)),
        ))

  Closes-finalize : (e : Engine Tree Cache) → Fits64 (clock e) → Closes e (commit_batch_finalize e)
  unfolding commit_batch_finalize
  Closes-finalize e fit = elim (Bool-cases e.batch_in_progress) [
    | inr b ↦ rw b (inl refl, refl)
    | inl b ↦ elim (Bool-cases (ltb e.synced_seq e.batch_commit_seq)) [
      | inl c ↦ rw (b, c) (inr (ground (arith, c)), refl)
      | inr c ↦ rw (b, c, uint64-small (e.batch_ts + 1) fit.1) (ground (arith, c), (refl, refl))
    ]
  ]

  Commits-finalize :
      (e : Engine Tree Cache)
      → Fits64 (clock e)
      → e.batch_in_progress ≡ true
      → ltb e.synced_seq e.batch_commit_seq ≡ false
      → Commits (clock e) ((commit_batch_finalize e).0, returned (commit_batch_finalize e).1)
  unfolding commit_batch_finalize
  Commits-finalize e fit b c = rw (b, c, uint64-small (e.batch_ts + 1) fit.1) (refl, refl)

  Commits-same :
      (c : Clock) (e : Engine Tree Cache) (r : Engine Tree Cache × Outcome Bool)
      → clock e ≡ c
      → Commits (clock e) r
      → Commits c r
  Commits-same c e r same h = subst (λ (d : Clock). Commits d r) same h

  Commits-synced :
      (c : Clock) (e : Engine Tree Cache)
      → Fits64 c
      → c.is_open ≡ true
      → clock e ≡ c
      → ltb e.synced_seq e.batch_commit_seq ≡ false
      → Commits c ((commit_batch_finalize e).0, returned (commit_batch_finalize e).1)
  Commits-synced c e fit b same d =
      Commits-same c e ((commit_batch_finalize e).0, returned (commit_batch_finalize e).1) same
        (Commits-finalize e (subst Fits64 (sym same) fit) (ap (λ (d : Clock). d.is_open) same ∙ b)
          d)

  Commits-await_synced :
      (rounds : List Bool) (c : Clock) (e : Engine Tree Cache)
      → Fits64 c
      → c.is_open ≡ true
      → clock e ≡ c
      → Commits c (await_synced rounds e)
  unfolding await_synced
  Commits-await_synced [] c e fit b same =
      if_both (λ (r : Engine Tree Cache × Outcome Bool). Commits c r)
        (ltb e.synced_seq e.batch_commit_seq) {x = (e, waiting)}
        {y = ((commit_batch_finalize e).0, returned (commit_batch_finalize e).1)} (λ d. (b, same))
        (λ d. Commits-synced c e fit b same d)
  Commits-await_synced (force ∷ rounds) c e fit b same =
      if_both (λ (r : Engine Tree Cache × Outcome Bool). Commits c r)
        (ltb e.synced_seq e.batch_commit_seq) {x = await_synced rounds (sync_worker force e)}
        {y = ((commit_batch_finalize e).0, returned (commit_batch_finalize e).1)}
        (λ d.
          Commits-await_synced rounds c (sync_worker force e) fit b
            (clock-sync_worker force e ∙ same))
        (λ d. Commits-synced c e fit b same d)

  Commits-commit_batch :
      (rounds : List Bool) (e : Engine Tree Cache)
      → Fits64 (clock e)
      → Commits (clock e) (commit_batch rounds e)
  unfolding commit_batch commit_batch_async
  Commits-commit_batch rounds e fit = elim (Bool-cases e.batch_in_progress) [
    | inr b ↦ rw b (refl, refl)
    | inl b ↦
        let c : Clock = clock e in
        let awaits =
          Commits-await_synced rounds c (commit_batch_async e).0 fit b (Ticks-commit_async e) in
        subst (λ (r : Engine Tree Cache × Outcome Bool). Commits c r)
          (sym (commit_batch-open e rounds b)) awaits
  ]

module _ {Tree Cache : Type 0} (ops : TreeOps Tree) where
  Drops-abort_batch : (e : Engine Tree Cache) → Drops (clock e) (abort_batch ops e)
  unfolding abort_batch abort_touched
  Drops-abort_batch e = elim (Bool-cases e.batch_in_progress) [
    | inr b ↦ rw b (refl, refl)
    | inl b ↦ elim (Bool-cases e.batch_touched) [
      | inl c ↦ rw (b, c) (refl, refl)
      | inr c ↦ rw (b, c) (refl, refl)
    ]
  ]

module _ {Tree Cache : Type 0} (ops : TreeOps Tree) (cache : CacheOps Cache) where
  must_wait-late :
      (e : Engine Tree Cache)
      → Fits64 (clock e)
      → must_wait e ≡ true
      → (e.batch_in_progress ≡ true) × (e.batch_ts < e.global_ts + 1)
  unfolding must_wait
  must_wait-late e fit h = (ground (arith, h), ground (arith, h))

  -- The result of a call that is an ordinary write
  Took : Engine Tree Cache → Engine Tree Cache × Outcome ℕ → Type 0
  Took e r = TakesNext (clock e) r

  Took-waiting :
      (e : Engine Tree Cache) → Fits64 (clock e) → must_wait e ≡ true → Took e (e, waiting)
  unfolding Took
  Took-waiting e fit c = ((must_wait-late e fit c).0, (must_wait-late e fit c).1, refl)

  Took-returned :
      (e e' : Engine Tree Cache) (a : ℕ)
      → Fits64 (clock e)
      → must_wait e ≡ false
      → clock e' ≡ record (clock e) { now = uint64 (e.global_ts + 1) }
      → Took e (e', returned a)
  unfolding Took
  Took-returned e e' a fit c h = (
    elim (Bool-cases e.batch_in_progress) [
      | inl b ↦ inr (must_wait-clock ops cache e fit c b)
      | inr b ↦ inl b
    ],
    h ∙ ap (λ (n : ℕ). record (clock e) { now = n }) (uint64-small (e.global_ts + 1) (omega arith)),
  )

  Took-insert_checked :
      (key value : List ℕ) (e : Engine Tree Cache)
      → Fits64 (clock e)
      → Took e (insert_checked ops cache key value e)
  unfolding insert_checked take_ts log_entry apply_entry
  Took-insert_checked key value e fit =
      if_both (Took e) (must_wait e) (Took-waiting e fit)
        (λ c. Took-returned e _ _ fit c (clock-rotate ops _))

  Took-delete_checked :
      (key : List ℕ) (e : Engine Tree Cache)
      → Fits64 (clock e)
      → Took e (delete_checked ops cache key e)
  unfolding delete_checked take_ts log_entry apply_entry
  Took-delete_checked key e fit =
      if_both (Took e) (must_wait e) (Took-waiting e fit)
        (λ c. Took-returned e _ _ fit c (clock-rotate ops _))

  TakesNext-insert_kv :
      (key value : List ℕ) (e : Engine Tree Cache)
      → Fits64 (clock e)
      → TakesNext (clock e) (insert_kv ops cache key value e)
  unfolding insert_kv Took
  TakesNext-insert_kv key value e fit = elim (Bool-cases (ltb max_key_bytes (length key))) [
    | inl a ↦ rw a refl
    | inr a ↦
        elim (Bool-cases
          (ltb max_key_value_pair_bytes (length key + length value + entry_overhead_bytes))) [
            | inl b ↦ rw (a, b) refl
            | inr b ↦ rw (a, b) (Took-insert_checked key value e fit)
          ]
  ]

  TakesNext-delete_key :
      (key : List ℕ) (e : Engine Tree Cache)
      → Fits64 (clock e)
      → TakesNext (clock e) (delete_key ops cache key e)
  unfolding delete_key Took
  TakesNext-delete_key key e fit = elim (Bool-cases (ltb max_key_bytes (length key))) [
    | inl a ↦ rw a refl
    | inr a ↦ rw a (Took-delete_checked key e fit)
  ]

  -- Where no timestamp wraps, each call moves the clock as it returns. An ordinary write that returns
  -- takes the next timestamp, no later than that of an open batch; StartBatch opens a batch ahead of
  -- the clock, just where none is open; a commit that returns true closes the open batch and puts the
  -- clock behind its timestamp, and CommitBatch returns false just where none is open;
  -- CommitBatchFinalize returns true just where a batch is open and synced; AbortBatch closes the open
  -- batch and leaves the time. All other calls, and those that wait or throw, leave the clock.
  pub perform-Moves :
      (call : Call) (e : Engine Tree Cache) → Fits64 (clock e) → Moves ops cache call e
  perform-Moves (put key value) e fit = TakesNext-insert_kv key value e fit
  perform-Moves (remove key) e fit = TakesNext-delete_key key e fit
  perform-Moves start e fit = Opens-start_batch e fit
  perform-Moves commit_async e fit = Ticks-commit_async e
  perform-Moves finalize e fit = Closes-finalize e fit
  perform-Moves (commit rounds) e fit = Commits-commit_batch rounds e fit
  perform-Moves abort e fit = Drops-abort_batch ops e
  perform-Moves (put_in_batch key value) e fit = Ticks-batch_insert ops cache key value e
  perform-Moves (remove_in_batch key) e fit = Ticks-batch_delete ops cache key e
  perform-Moves (sync_round force) e fit = clock-sync_worker force e
