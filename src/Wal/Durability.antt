-- ===== src/Wal/Durability.antt =====
-- The log as the list of the records that its callers asked for: what stands in the file and the
-- buffer together, whatever the moments at which `Sync` runs.
use keyvaluedb.Prelude.{
  ℕ, ◌<◌, ◌≡◌, ◌≢◌, refl, ◌∙◌, ap, sym, Bool, true, Option, none, some, List, [], ◌∷◌, ◌++◌, length,
  take, All, arith, append_assoc, append-nil,
}
use keyvaluedb.Wal.Format.{
  begin_sentinel, Record, put, abort, batch_begin, batch_commit, checkpoint, encode, encode_all,
}
use keyvaluedb.Wal.Scan.{Recovery, recover_file}
use keyvaluedb.Wal.State.{
  Wal, open_file, buffer, buffer_abort, buffer_batch_begin, buffer_batch_commit, write_checkpoint,
  sync, recover, SyncResult, after_sync, recover_synced,
}
use keyvaluedb.Wal.Records.{Fits}
use keyvaluedb.Wal.Passes.{Ends-nil, IsLate}
use keyvaluedb.Wal.Replay.{entries}
use keyvaluedb.Wal.Recovery.{recover_file-encode_all}

-- The operation that writes a record.
unfoldable pub log_record : Record → Wal → Wal
log_record (put key value ts) w = buffer key value ts w
log_record (abort ts) w = buffer_abort ts w
log_record (batch_begin ts) w = buffer_batch_begin ts w
log_record (batch_commit ts) w = buffer_batch_commit ts w
log_record (checkpoint ts batch_ts) w = write_checkpoint ts batch_ts w

-- What the threads of the engine do with the log, in the order in which they get its mutex. A sync
-- writes all of its bytes.
pub data Event : Type 0 where
  write : Record → Event
  flush : Bool → Event

unfoldable pub happen : Event → Wal → Wal
unfolding log_record
happen (write r) w = log_record r w
happen (flush force) w = (sync (length w.write_buf) force w).0

unfoldable pub run : List Event → Wal → Wal
run [] w = w
run (e ∷ es) w = run es (happen e w)

abbrev pub written : List Event → List Record
written [] = []
written (write r ∷ es) = r ∷ written es
written (flush force ∷ es) = written es

-- The bytes that a complete `Sync` would leave in the file.
abbrev pub bytes : Wal → List ℕ
bytes w = w.file ++ w.write_buf

take-all : (xs : List ℕ) → take (length xs) xs ≡ xs
take-all [] = refl
take-all (x ∷ xs) = rw (take-all xs)

bytes-log_record : (r : Record) (w : Wal) → bytes (log_record r w) ≡ bytes w ++ encode r
unfolding log_record encode buffer buffer_abort buffer_batch_begin buffer_batch_commit
    write_checkpoint
bytes-log_record (put key value ts) w = sym (append_assoc w.file w.write_buf _)
bytes-log_record (abort ts) w = sym (append_assoc w.file w.write_buf _)
bytes-log_record (batch_begin ts) w = sym (append_assoc w.file w.write_buf _)
bytes-log_record (batch_commit ts) w = sym (append_assoc w.file w.write_buf _)
bytes-log_record (checkpoint ts b) w = sym (append_assoc w.file w.write_buf _)

bytes-sync : (force : Bool) (w : Wal) → bytes (sync (length w.write_buf) force w).0 ≡ bytes w
unfolding sync
bytes-sync force w = ground (arith, take-all w.write_buf, append-nil (w.file ++ w.write_buf))

-- A forced `Sync` leaves nothing in the buffer.
file-sync : (w : Wal) → ((sync (length w.write_buf) true w).0.file ≡ bytes w)
unfolding sync
file-sync w = ground (arith, take-all w.write_buf, append-nil w.file)

written-append : (xs ys : List Event) → written (xs ++ ys) ≡ written xs ++ written ys
written-append [] ys = refl
written-append (write r ∷ xs) ys = rw (written-append xs ys)
written-append (flush force ∷ xs) ys = written-append xs ys

-- Whatever the moments of the syncs, the file and the buffer together hold what was there and the
-- records written since, in order.
pub bytes-run : (es : List Event) (w : Wal) → bytes (run es w) ≡ bytes w ++ encode_all (written es)
unfolding run happen encode_all
bytes-run [] w = sym (append-nil (bytes w))
bytes-run (write r ∷ es) w =
    bytes-run es (log_record r w)
    ∙ rw (bytes-log_record r w) (append_assoc (bytes w) (encode r) (encode_all (written es)))
bytes-run (flush force ∷ es) w =
    bytes-run es (sync (length w.write_buf) force w).0 ∙ rw (bytes-sync force w)

recover_file-nil : recover_file [] ≡ record { results = []; checkpoint_ts = 0; aborted = [] }
unfolding recover_file
recover_file-nil = refl

recover_synced-file : (w : Wal) → (recover_synced true true w).1 ≡ some (recover_file w.file)
unfolding recover_synced
recover_synced-file w = ground (arith, recover_file-nil)

sync-ne-none : (w : Wal) → (sync (length w.write_buf) true w).1 ≢ none
unfolding sync
sync-ne-none w e = ground arith

after_sync-ne-none :
    (p : Wal × Option SyncResult) (k : Wal → Wal × Option Recovery)
    → p.1 ≢ none
    → (after_sync p k).1 ≡ (k p.0).1
unfolding after_sync
after_sync-ne-none (w, none) k h = absurd (h refl)
after_sync-ne-none (w, some r) k h = refl

-- Recovery reads what the file and the buffer held together.
pub recover-bytes :
    (w : Wal) → (recover (length w.write_buf) true true w).1 ≡ some (recover_file (bytes w))
recover-bytes w =
    unfold recover in
    after_sync-ne-none (sync (length w.write_buf) true w) (recover_synced true true)
      (sync-ne-none w)
    ∙ recover_synced-file (sync (length w.write_buf) true w).0
    ∙ ap (λ (bs : List ℕ). some (recover_file bs)) (file-sync w)

-- A session on a new log, with syncs at any moments, and then recovery of it: no exception, and the
-- entries that were written come back in order, if no checkpoint was written.
pub recover-run :
    (es : List Event)
    → All Fits (written es)
    → All IsLate (written es)
    → length (encode_all (written es)) < begin_sentinel
    → (r : Recovery) × ((recover
          (length (run es (open_file [])).write_buf)
          true
          true
          (run es (open_file []))).1
        ≡ some r)
      × (r.results ≡ entries (written es))
      × (r.checkpoint_ts ≡ 0)
recover-run es fit late small =
    let file : bytes (run es (open_file [])) ≡ encode_all (written es) ++ [] =
      bytes-run es (open_file []) ∙ (unfold open_file in sym (append-nil _)) in
    let (a, b, _) =
      recover_file-encode_all (written es) [] fit late Ends-nil
        (rw (append-nil (encode_all (written es))) small) in
    (
      recover_file (encode_all (written es) ++ []),
      recover-bytes (run es (open_file [])) ∙ ap (λ (bs : List ℕ). some (recover_file bs)) file,
      a,
      b,
    )
