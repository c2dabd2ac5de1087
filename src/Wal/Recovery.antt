-- ===== src/Wal/Recovery.antt =====
-- Recovery of a log (WAL::Recover) after any writes and a crash, against what was written.
use keyvaluedb.Prelude.{
  ℕ, ◌+◌, ◌≤◌, ◌<◌, ◌≡◌, refl, ◌∙◌, ap, none, List, ◌++◌, length, All, arith, ◌==◌, not, ◌&&◌, ◌||◌,
  contains, length-append,
}
use keyvaluedb.Wal.Format.{begin_sentinel, Record, batch_begin, checkpoint, encode, encode_all}
use keyvaluedb.Wal.Scan.{
  Checkpoint, find_step, replay, start, first_pass, second_pass, recover_file,
}
use keyvaluedb.Wal.Records.{Fits, find_step-batch_begin}
use keyvaluedb.Wal.Passes.{
  Ends, IsScanned, IsLate, replay-encode_all, find-late, find-encode_all, length-encode,
  length-le-encode_all,
}
use keyvaluedb.Wal.Replay.{
  replay_all, entries, has_put, has_abort, has_begin, has_end, results-replay_all, aborted-replay,
}

-- The file that the log writes: records up to a checkpoint, records behind it, and what a crash left
-- of the next one.
abbrev pub logged : List Record → ℕ → ℕ → List Record → List ℕ → List ℕ
logged before ts batch_ts after tail =
    encode_all before ++ (encode (checkpoint ts batch_ts) ++ (encode_all after ++ tail))

opened-start :
    (t : ℕ) (c : Checkpoint)
    → contains t (start c).batch_opened ≡ (not (c.batch_ts == 0) && c.batch_ts == t)
unfolding start
opened-start t c = ground arith

-- The second pass behind whatever the first one found.
second_pass-late :
    (rs : List Record) (c : Checkpoint) (tail : List ℕ)
    → c.tail ≡ encode_all rs ++ tail
    → All Fits rs
    → All IsLate rs
    → Ends tail
    → ((second_pass c).results ≡ entries rs)
      × ((second_pass c).checkpoint_ts ≡ c.found_ts)
      × ((t : ℕ)
          → contains t (second_pass c).aborted ≡ (
              has_abort t rs
              || ((has_begin t rs || (not (c.batch_ts == 0) && c.batch_ts == t))
                  && (not (has_end t rs) && has_put t rs))))
unfolding second_pass
second_pass-late rs c tail e fit late ends =
    let all : replay (length c.tail) c.tail (start c) ≡ replay_all rs (start c) = rw e (
      replay-encode_all (length (encode_all rs ++ tail)) rs tail (start c)
        (omega (arith, length-append (encode_all rs) tail, length-le-encode_all rs)) fit late
        ends) in
    rw all
      (results-replay_all rs (start c), refl, λ t. aborted-replay t rs c ∙ rw (opened-start t c))

length-logged :
    (before : List Record) (ts batch_ts : ℕ) (after : List Record) (tail : List ℕ)
    → length before + 12 + length (encode_all after ++ tail)
      ≤ length (logged before ts batch_ts after tail)
length-logged before ts batch_ts after tail = simp length-append (
    omega (
      arith,
      length-le-encode_all before,
      length-encode (checkpoint ts batch_ts),
      length-append (encode_all after) tail,
    ))

module _ (before after : List Record) (ts batch_ts : ℕ) (tail : List ℕ)
    (fit_before : All Fits before) (scanned : All IsScanned before)
    (fit : Fits (checkpoint ts batch_ts)) (fit_after : All Fits after) (late : All IsLate after)
    (ends : Ends tail)
    (small : length (logged before ts batch_ts after tail) < begin_sentinel) where
  first_pass-logged :
      first_pass (logged before ts batch_ts after tail)
      ≡ record { tail = encode_all after ++ tail; found_ts = ts; batch_ts = batch_ts }
  unfolding first_pass
  first_pass-logged =
      let size = length-logged before ts batch_ts after tail in
      find-encode_all (length (logged before ts batch_ts after tail)) before after ts batch_ts tail
        _ (omega arith) fit_before scanned fit fit_after late ends (omega arith)

  -- Recovery of a log with a checkpoint, cut off by a crash behind whole records. It returns the
  -- entries behind the checkpoint, in order, and the checkpoint's timestamp. It reports a batch as
  -- aborted just where an abort record stands behind the checkpoint, or where the batch was open at
  -- the checkpoint or begun behind it, wrote an entry and has neither commit nor abort.
  pub recover_file-logged :
      ((recover_file (logged before ts batch_ts after tail)).results ≡ entries after)
      × ((recover_file (logged before ts batch_ts after tail)).checkpoint_ts ≡ ts)
      × ((t : ℕ)
          → contains t (recover_file (logged before ts batch_ts after tail)).aborted ≡ (
              has_abort t after
              || ((has_begin t after || (not (batch_ts == 0) && batch_ts == t))
                  && (not (has_end t after) && has_put t after))))
  unfolding recover_file
  recover_file-logged = rw first_pass-logged (
      second_pass-late after
        (record { tail = encode_all after ++ tail; found_ts = ts; batch_ts = batch_ts }) tail refl
        fit_after late ends)

-- Recovery of a log without a checkpoint, cut off by a crash behind whole records: it returns all
-- the entries in order and the timestamp 0. It reports a batch as aborted just where an abort
-- record stands in the log, or where the batch was begun, wrote an entry and has neither commit nor
-- abort.
pub recover_file-encode_all :
    (rs : List Record) (tail : List ℕ)
    → All Fits rs
    → All IsLate rs
    → Ends tail
    → length (encode_all rs ++ tail) < begin_sentinel
    → ((recover_file (encode_all rs ++ tail)).results ≡ entries rs)
      × ((recover_file (encode_all rs ++ tail)).checkpoint_ts ≡ 0)
      × ((t : ℕ)
          → contains t (recover_file (encode_all rs ++ tail)).aborted
            ≡ (has_abort t rs || (has_begin t rs && (not (has_end t rs) && has_put t rs))))
unfolding recover_file
recover_file-encode_all rs tail fit late ends small =
    let c : Checkpoint = record { tail = encode_all rs ++ tail; found_ts = 0; batch_ts = 0 } in
    let first : first_pass (encode_all rs ++ tail) ≡ c =
      unfold first_pass in
      find-late (length (encode_all rs ++ tail)) rs tail c fit late ends.first small in
    let (a, b, h) = second_pass-late rs c tail refl fit late ends in
    rw first (a, b, λ t. h t ∙ ground arith)

-- A checkpoint behind a batch is not found: whatever follows the begin record of a batch, in a log
-- whose records before it hold no checkpoint, recovery reports the timestamp 0.
pub checkpoint_ts-behind_batch :
    (before : List Record) (batch_ts : ℕ) (rest : List ℕ)
    → All Fits before
    → All IsLate before
    → length (encode_all before ++ (encode (batch_begin batch_ts) ++ rest)) < begin_sentinel
    → (recover_file (encode_all before ++ (encode (batch_begin batch_ts) ++ rest))).checkpoint_ts
      ≡ 0
unfolding recover_file
checkpoint_ts-behind_batch before batch_ts rest fit late small =
    let tail : List ℕ = encode (batch_begin batch_ts) ++ rest in
    let short : length rest + 12 ≤ length (encode_all before ++ tail) =
      simp length-append (omega (arith, length-encode (batch_begin batch_ts))) in
    let stop : (c : Checkpoint) → find_step tail c ≡ none =
      λ c. find_step-batch_begin batch_ts rest c (omega arith) in
    ap (λ (c : Checkpoint). c.found_ts)
      (unfold first_pass in
        find-late (length (encode_all before ++ tail)) before tail
          (record { tail = encode_all before ++ tail; found_ts = 0; batch_ts = 0 }) fit late stop
          small)
