-- ===== src/Wal/Replay.antt =====
-- What the second pass of recovery makes of a list of records: an account of it that does not look
-- at bytes.
use keyvaluedb.Prelude.{
  ℕ, ◌≡◌, refl, Bool, false, List, [], ◌∷◌, ◌++◌, arith, ◌==◌, not, ◌&&◌, ◌||◌, contains,
  contains-insert, contains-erase, append_assoc, append-nil, ◌∙◌,
}
use keyvaluedb.Types.{KeyValuePair}
use keyvaluedb.Wal.Format.{Record, put, abort, batch_begin, batch_commit, checkpoint}
use keyvaluedb.Wal.Scan.{
  Replay, replay_entry, replay_abort, replay_begin, replay_commit, unfinished, start, Checkpoint,
}
use keyvaluedb.Wal.Records.{recovered}

-- The effect of one record on the variables of the pass. A checkpoint has none here: recovery
-- starts behind the last one.
unfoldable pub replay_record : Record → Replay → Replay
replay_record (put key value ts) s = replay_entry (recovered key value ts) s
replay_record (abort ts) s = replay_abort ts s
replay_record (batch_begin ts) s = replay_begin ts s
replay_record (batch_commit ts) s = replay_commit ts s
replay_record (checkpoint ts batch_ts) s = s

unfoldable pub replay_all : List Record → Replay → Replay
replay_all [] s = s
replay_all (r ∷ rs) s = replay_all rs (replay_record r s)

-- The entries of the records, in order.
abbrev pub entries : List Record → List KeyValuePair
entries [] = []
entries (put key value ts ∷ rs) = recovered key value ts ∷ entries rs
entries (r ∷ rs) = entries rs

abbrev pub has_put : ℕ → List Record → Bool
has_put t [] = false
has_put t (put key value ts ∷ rs) = ts == t || has_put t rs
has_put t (r ∷ rs) = has_put t rs

abbrev pub has_abort : ℕ → List Record → Bool
has_abort t [] = false
has_abort t (abort ts ∷ rs) = ts == t || has_abort t rs
has_abort t (r ∷ rs) = has_abort t rs

abbrev pub has_begin : ℕ → List Record → Bool
has_begin t [] = false
has_begin t (batch_begin ts ∷ rs) = ts == t || has_begin t rs
has_begin t (r ∷ rs) = has_begin t rs

-- The batch was committed or aborted.
abbrev pub has_end : ℕ → List Record → Bool
has_end t [] = false
has_end t (abort ts ∷ rs) = ts == t || has_end t rs
has_end t (batch_commit ts ∷ rs) = ts == t || has_end t rs
has_end t (r ∷ rs) = has_end t rs

pub results-replay_all :
    (rs : List Record) (s : Replay) → (replay_all rs s).results ≡ s.results ++ entries rs
unfolding replay_all replay_record replay_entry replay_abort replay_begin replay_commit
results-replay_all [] s = rw append-nil
results-replay_all (put key value ts ∷ rs) s =
    results-replay_all rs (replay_entry (recovered key value ts) s)
    ∙ append_assoc s.results (recovered key value ts ∷ []) (entries rs)
results-replay_all (abort ts ∷ rs) s = results-replay_all rs (replay_abort ts s)
results-replay_all (batch_begin ts ∷ rs) s = results-replay_all rs (replay_begin ts s)
results-replay_all (batch_commit ts ∷ rs) s = results-replay_all rs (replay_commit ts s)
results-replay_all (checkpoint ts b ∷ rs) s = results-replay_all rs s

contains-append :
    (t : ℕ) (xs ys : List ℕ) → contains t (xs ++ ys) ≡ (contains t xs || contains t ys)
contains-append t [] ys = refl
contains-append t (x ∷ xs) ys = ground (arith, contains-append t xs ys)

module _ (t : ℕ) where
  closed-replay_all :
      (rs : List Record) (s : Replay)
      → contains t (replay_all rs s).batch_closed ≡ (has_end t rs || contains t s.batch_closed)
  unfolding replay_all replay_record replay_entry replay_abort replay_begin replay_commit
  closed-replay_all [] s = refl
  closed-replay_all (put key value ts ∷ rs) s =
      closed-replay_all rs (replay_entry (recovered key value ts) s)
  closed-replay_all (abort ts ∷ rs) s =
      ground (arith, closed-replay_all rs (replay_abort ts s), contains-insert ts t s.batch_closed)
  closed-replay_all (batch_begin ts ∷ rs) s = closed-replay_all rs (replay_begin ts s)
  closed-replay_all (batch_commit ts ∷ rs) s =
      ground (arith, closed-replay_all rs (replay_commit ts s), contains-insert ts t s.batch_closed)
  closed-replay_all (checkpoint ts b ∷ rs) s = closed-replay_all rs s

  entries-replay_all :
      (rs : List Record) (s : Replay)
      → contains t (replay_all rs s).batch_has_entries
        ≡ (has_put t rs || contains t s.batch_has_entries)
  unfolding replay_all replay_record replay_entry replay_abort replay_begin replay_commit
  entries-replay_all [] s = refl
  entries-replay_all (put key value ts ∷ rs) s = ground (
    arith,
    entries-replay_all rs (replay_entry (recovered key value ts) s),
    contains-insert ts t s.batch_has_entries,
  )
  entries-replay_all (abort ts ∷ rs) s = entries-replay_all rs (replay_abort ts s)
  entries-replay_all (batch_begin ts ∷ rs) s = entries-replay_all rs (replay_begin ts s)
  entries-replay_all (batch_commit ts ∷ rs) s = entries-replay_all rs (replay_commit ts s)
  entries-replay_all (checkpoint ts b ∷ rs) s = entries-replay_all rs s

  aborted-replay_all :
      (rs : List Record) (s : Replay)
      → contains t (replay_all rs s).aborted ≡ (has_abort t rs || contains t s.aborted)
  unfolding replay_all replay_record replay_entry replay_abort replay_begin replay_commit
  aborted-replay_all [] s = refl
  aborted-replay_all (put key value ts ∷ rs) s =
      aborted-replay_all rs (replay_entry (recovered key value ts) s)
  aborted-replay_all (abort ts ∷ rs) s =
      ground
        (arith, aborted-replay_all rs (replay_abort ts s), contains-append t s.aborted (ts ∷ []))
  aborted-replay_all (batch_begin ts ∷ rs) s = aborted-replay_all rs (replay_begin ts s)
  aborted-replay_all (batch_commit ts ∷ rs) s = aborted-replay_all rs (replay_commit ts s)
  aborted-replay_all (checkpoint ts b ∷ rs) s = aborted-replay_all rs s

  -- A batch that never ends stays open from its begin on.
  opened-replay_all :
      (rs : List Record) (s : Replay)
      → has_end t rs ≡ false
      → contains t (replay_all rs s).batch_opened ≡ (has_begin t rs || contains t s.batch_opened)
  unfolding replay_all replay_record replay_entry replay_abort replay_begin replay_commit
  opened-replay_all [] s h = refl
  opened-replay_all (put key value ts ∷ rs) s h =
      opened-replay_all rs (replay_entry (recovered key value ts) s) h
  opened-replay_all (abort ts ∷ rs) s h =
      ground (arith, opened-replay_all rs (replay_abort ts s), contains-erase ts t s.batch_opened)
  opened-replay_all (batch_begin ts ∷ rs) s h =
      ground (arith, opened-replay_all rs (replay_begin ts s), contains-insert ts t s.batch_opened)
  opened-replay_all (batch_commit ts ∷ rs) s h =
      ground (arith, opened-replay_all rs (replay_commit ts s), contains-erase ts t s.batch_opened)
  opened-replay_all (checkpoint ts b ∷ rs) s h = opened-replay_all rs s h

  contains-unfinished :
      (l : List ℕ) (s : Replay)
      → contains t (unfinished l s)
        ≡ (contains t l && (not (contains t s.batch_closed) && contains t s.batch_has_entries))
  unfolding unfinished
  contains-unfinished [] s = refl
  contains-unfinished (x ∷ l) s = ground (arith, contains-unfinished l s)

-- A recovery's list of aborted batches: those with an abort record, and those that began, in `rs`
-- or by the start state, wrote an entry and never ended.
pub aborted-replay :
    (t : ℕ) (rs : List Record) (c : Checkpoint)
    → contains t (
        (replay_all rs (start c)).aborted
        ++ unfinished (replay_all rs (start c)).batch_opened (replay_all rs (start c)))
      ≡ (has_abort t rs
          || ((has_begin t rs || contains t (start c).batch_opened)
              && (not (has_end t rs) && has_put t rs)))
unfolding start
aborted-replay t rs c = ground (
  arith,
  contains-append t (replay_all rs (start c)).aborted
      (unfinished (replay_all rs (start c)).batch_opened (replay_all rs (start c))),
  contains-unfinished t (replay_all rs (start c)).batch_opened (replay_all rs (start c)),
  aborted-replay_all t rs (start c),
  closed-replay_all t rs (start c),
  entries-replay_all t rs (start c),
  opened-replay_all t rs (start c),
)
