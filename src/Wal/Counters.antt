-- ===== src/Wal/Counters.antt =====
-- The sequence numbers and the entry counts of the log (WAL::Sync, CurrentBatchSeq, IsSynced,
-- EntryCount in src/wal.cpp).
use keyvaluedb.Prelude.{
  ℕ, zero, suc, ◌≤◌, ◌<◌, ◌≡◌, ◌≢◌, refl, ap, Bool, true, false, some, List, [], ◌∷◌, ◌++◌, length,
  take, arith,
}
use keyvaluedb.Wal.State.{
  Wal, min_sync_bytes, buffer, sync, SyncResult, Pending, sync_take, sync_finish, writing,
  current_batch_seq, is_synced, entry_count,
}

take-all : (n : ℕ) (bs : List ℕ) → length bs ≤ n → take n bs ≡ bs
take-all zero [] h = refl
take-all (suc n) [] h = refl
take-all zero (b ∷ bs) h = absurd (omega (arith, h))
take-all (suc n) (b ∷ bs) h = ap (λ (xs : List ℕ). b ∷ xs) (take-all n bs (omega (arith, h)))

-- A `Sync` that reports persistence has put the whole buffer behind what the file held and emptied
-- it, the file took all of it, and every number given out before counts as synced.
pub sync-persisted :
    (accepted : ℕ) (force : Bool) (w : Wal) (r : SyncResult)
    → (sync accepted force w).1 ≡ some r
    → r.persisted ≡ true
    → ((sync accepted force w).0.write_buf ≡ [])
      × ((sync accepted force w).0.file ≡ w.file ++ w.write_buf)
      × (length w.write_buf ≤ accepted)
      × (is_synced (current_batch_seq w) (sync accepted force w).0 ≡ true)
unfolding sync is_synced current_batch_seq
sync-persisted accepted force w r e p =
    let all : length w.write_buf ≤ accepted = ground arith in
    (ground arith, ground (arith, take-all accepted w.write_buf all), all, ground arith)

-- `Sync` without force marks a small buffer as synced, and writes nothing.
is_synced-unwritten :
    (accepted : ℕ) (w : Wal)
    → w.write_buf ≢ []
    → length w.write_buf < min_sync_bytes
    → (is_synced (current_batch_seq w) (sync accepted false w).0 ≡ true)
      × ((sync accepted false w).0.file ≡ w.file)
      × ((sync accepted false w).0.write_buf ≡ w.write_buf)
unfolding sync is_synced current_batch_seq
is_synced-unwritten accepted w h small = (ground arith, ground arith, ground arith)

-- A `Sync` that no other thread interrupts, and that gets all of its bytes written, keeps the number
-- of entries.
pub entry_count-sync :
    (force : Bool) (w : Wal) → entry_count (sync (length w.write_buf) force w).0 ≡ entry_count w
unfolding sync entry_count
entry_count-sync force w = ground arith

-- An entry that another thread buffers while a forced `Sync` is writing is lost to the count: it is
-- afterwards what it was before.
pub entry_count-buffer_during_sync :
    (w : Wal) (p : Pending) (key value : List ℕ) (ts : ℕ)
    → (sync_take true w).1 ≡ writing p
    → entry_count (sync_finish (length p.to_sync) p (buffer key value ts (sync_take true w).0)).0
      ≡ entry_count w
unfolding sync_take sync_finish buffer entry_count
entry_count-buffer_during_sync w p key value ts e = ground arith
