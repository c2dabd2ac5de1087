-- ===== src/Engine/Stamps.antt =====
-- The timestamps that the engine gives to ordinary writes.
use keyvaluedb.Prelude.{
  ℕ, ◌+◌, ◌≤◌, ◌<◌, ◌≡◌, refl, ◌⊎◌, inl, inr, Bool, Bool-cases, true, false, List, [], ◌∷◌, ◌++◌,
  arith, ltb, length,
}
use keyvaluedb.MemTable.{TreeOps, MemTable, memtable_insert, is_full, freeze}
use keyvaluedb.Wal.State.{buffer}
use keyvaluedb.Engine.State.{
  max_key_bytes, max_key_value_pair_bytes, entry_overhead_bytes, CacheOps, Engine, Outcome,
  invalid_argument, waiting, returned, uint64, rotate,
}
use keyvaluedb.Engine.Writes.{
  must_wait, take_ts, log_entry, apply_entry, insert_checked, insert_kv, delete_checked, delete_key,
}
use keyvaluedb.Engine.Clock.{
  Call, put, remove, start, commit_async, finalize, commit, abort, put_in_batch, remove_in_batch,
  sync_round, Clock, clock, Fits64, Ticks, stayed, taken, opened, closed, dropped, perform, if_both,
}
use keyvaluedb.Engine.Steps.{perform-Ticks}

-- The clock has not passed the open batch.
abbrev pub Ordered : Clock → Type 0
Ordered c = c.is_open ≡ true → c.now ≤ c.batch

pub Ticks-Ordered : (c c' : Clock) → Ticks c c' → Ordered c → Ordered c' × (c.now ≤ c'.now)
Ticks-Ordered c c' (stayed e) h = rw e (h, omega arith)
Ticks-Ordered c c' (taken w e) h = rw e (w, omega arith)
Ticks-Ordered c c' (opened b e) h = rw e (λ o. omega arith, omega arith)
Ticks-Ordered c c' (closed b e) h = rw e (λ o. cc, omega (arith, h b))
Ticks-Ordered c c' (dropped b e) h = rw e (λ o. cc, omega arith)

-- Strictly increasing, from above a bound on.
abbrev pub Increasing : ℕ → List ℕ → Type 0
Increasing lo [] = Unit
Increasing lo (t ∷ ts) = (lo < t) × Increasing t ts

Increasing-le : (lo lo' : ℕ) (ts : List ℕ) → lo ≤ lo' → Increasing lo' ts → Increasing lo ts
Increasing-le lo lo' [] h i = tt
Increasing-le lo lo' (t ∷ ts) h i = (omega (arith, i.0), i.1)

unfoldable pub stamp_of : {A : Type 0} → ℕ → Outcome A → List ℕ
stamp_of ts invalid_argument = []
stamp_of ts waiting = []
stamp_of ts (returned a) = ts ∷ []

-- The timestamp that the clock has gone on to in an ordinary write that returns
unfoldable pub stamp :
    {Tree Cache : Type 0} → TreeOps Tree → CacheOps Cache → Call → Engine Tree Cache → List ℕ
unfolding stamp_of
stamp ops cache (put key value) e =
    stamp_of (insert_kv ops cache key value e).0.global_ts (insert_kv ops cache key value e).1
stamp ops cache (remove key) e =
    stamp_of (delete_key ops cache key e).0.global_ts (delete_key ops cache key e).1
stamp ops cache call e = []

unfoldable pub stamps :
    {Tree Cache : Type 0} → TreeOps Tree → CacheOps Cache → List Call → Engine Tree Cache → List ℕ
unfolding stamp
stamps ops cache [] e = []
stamps ops cache (call ∷ calls) e =
    stamp ops cache call e ++ stamps ops cache calls (perform ops cache call e)

-- No timestamp wraps in any of the calls.
abbrev pub Calm :
    {Tree Cache : Type 0} → TreeOps Tree → CacheOps Cache → List Call → Engine Tree Cache → Type 0
Calm ops cache [] e = Unit
Calm ops cache (call ∷ calls) e = Fits64 (clock e) × Calm ops cache calls (perform ops cache call e)

module _ {Tree Cache : Type 0} (ops : TreeOps Tree) where
  -- The memtable is the active one, or has been frozen behind those that were.
  abbrev pub Stored : MemTable Tree → Engine Tree Cache → Engine Tree Cache → Type 0
  Stored m e e' = (e'.active ≡ m) ⊎ (e'.frozen ≡ e.frozen ++ (freeze m ∷ []))

  -- An ordinary write that returns is logged and stored with the timestamp that the clock has gone on
  -- to, and one that does not leaves the engine as it was.
  abbrev pub Wrote :
      List ℕ → List ℕ → Bool → Engine Tree Cache → Engine Tree Cache × Outcome ℕ → Type 0
  Wrote key value tomb e (e', invalid_argument) = e' ≡ e
  Wrote key value tomb e (e', waiting) = e' ≡ e
  Wrote key value tomb e (e', returned a) =
      (e.global_ts < e'.global_ts)
      × (e'.wal ≡ buffer key value e'.global_ts e.wal)
      × Stored (memtable_insert ops key value e'.global_ts tomb e.active) e e'

  Wrote-Increasing :
      (key value : List ℕ) (tomb : Bool) (e : Engine Tree Cache) (r : Engine Tree Cache × Outcome ℕ)
      (later : List ℕ)
      → Wrote key value tomb e r
      → Increasing e.global_ts later
      → Increasing r.0.global_ts later
      → Increasing e.global_ts (stamp_of r.0.global_ts r.1 ++ later)
  unfolding stamp_of
  Wrote-Increasing key value tomb e (e', invalid_argument) later w same h = same
  Wrote-Increasing key value tomb e (e', waiting) later w same h = same
  Wrote-Increasing key value tomb e (e', returned a) later w same h = (w.0, h)

module _ {Tree Cache : Type 0} (ops : TreeOps Tree) (cache : CacheOps Cache) where
  -- What each call of a sequence has written
  abbrev pub WroteCall : Call → Engine Tree Cache → Type 0
  WroteCall (put key value) e = Wrote ops key value false e (insert_kv ops cache key value e)
  WroteCall (remove key) e = Wrote ops key [] true e (delete_key ops cache key e)
  WroteCall call e = Unit

  abbrev pub Recorded : List Call → Engine Tree Cache → Type 0
  Recorded [] e = Unit
  Recorded (call ∷ calls) e = WroteCall call e × Recorded calls (perform ops cache call e)

  later_ts : (e : Engine Tree Cache) → Fits64 (clock e) → e.global_ts < uint64 (e.global_ts + 1)
  later_ts e fit = omega (arith, fit.0)

  Wrote-insert_checked :
      (key value : List ℕ) (e : Engine Tree Cache)
      → Fits64 (clock e)
      → Wrote ops key value false e (insert_checked ops cache key value e)
  unfolding insert_checked take_ts log_entry apply_entry rotate
  Wrote-insert_checked key value e fit =
      if_both (Wrote ops key value false e) (must_wait e) (λ c. refl)
        (λ c.
          elim (Bool-cases (
            is_full ops
              (memtable_insert ops key value (uint64 (e.global_ts + 1)) false e.active))) [
                | inl b ↦ rw b (later_ts e fit, refl, inr refl)
                | inr b ↦ rw b (later_ts e fit, refl, inl refl)
              ])

  Wrote-insert_kv :
      (key value : List ℕ) (e : Engine Tree Cache)
      → Fits64 (clock e)
      → Wrote ops key value false e (insert_kv ops cache key value e)
  unfolding insert_kv
  Wrote-insert_kv key value e fit =
      if_both (Wrote ops key value false e) (ltb max_key_bytes (length key)) (λ a. refl)
        (λ a.
          if_both (Wrote ops key value false e)
            (ltb max_key_value_pair_bytes (length key + length value + entry_overhead_bytes))
            (λ b. refl) (λ b. Wrote-insert_checked key value e fit))

  Wrote-delete_checked :
      (key : List ℕ) (e : Engine Tree Cache)
      → Fits64 (clock e)
      → Wrote ops key [] true e (delete_checked ops cache key e)
  unfolding delete_checked take_ts log_entry apply_entry rotate
  Wrote-delete_checked key e fit =
      if_both (Wrote ops key [] true e) (must_wait e) (λ c. refl)
        (λ c.
          elim (Bool-cases
            (is_full ops (memtable_insert ops key [] (uint64 (e.global_ts + 1)) true e.active))) [
              | inl b ↦ rw b (later_ts e fit, refl, inr refl)
              | inr b ↦ rw b (later_ts e fit, refl, inl refl)
            ])

  Wrote-delete_key :
      (key : List ℕ) (e : Engine Tree Cache)
      → Fits64 (clock e)
      → Wrote ops key [] true e (delete_key ops cache key e)
  unfolding delete_key
  Wrote-delete_key key e fit =
      if_both (Wrote ops key [] true e) (ltb max_key_bytes (length key)) (λ a. refl)
        (λ a. Wrote-delete_checked key e fit)

  Wrote-call : (call : Call) (e : Engine Tree Cache) → Fits64 (clock e) → WroteCall call e
  Wrote-call (put key value) e fit = Wrote-insert_kv key value e fit
  Wrote-call (remove key) e fit = Wrote-delete_key key e fit
  Wrote-call start e fit = tt
  Wrote-call commit_async e fit = tt
  Wrote-call finalize e fit = tt
  Wrote-call (commit rounds) e fit = tt
  Wrote-call abort e fit = tt
  Wrote-call (put_in_batch key value) e fit = tt
  Wrote-call (remove_in_batch key) e fit = tt
  Wrote-call (sync_round force) e fit = tt

  -- What one call does for the timestamps that come behind it.
  Increasing-stamp :
      (call : Call) (e : Engine Tree Cache) (later : List ℕ)
      → Fits64 (clock e)
      → Increasing e.global_ts later
      → Increasing (perform ops cache call e).global_ts later
      → Increasing e.global_ts (stamp ops cache call e ++ later)
  unfolding stamp perform
  Increasing-stamp (put key value) e later fit same h =
      Wrote-Increasing ops key value false e _ later (Wrote-insert_kv key value e fit) same h
  Increasing-stamp (remove key) e later fit same h =
      Wrote-Increasing ops key [] true e _ later (Wrote-delete_key key e fit) same h
  Increasing-stamp start e later fit same h = same
  Increasing-stamp commit_async e later fit same h = same
  Increasing-stamp finalize e later fit same h = same
  Increasing-stamp (commit rounds) e later fit same h = same
  Increasing-stamp abort e later fit same h = same
  Increasing-stamp (put_in_batch key value) e later fit same h = same
  Increasing-stamp (remove_in_batch key) e later fit same h = same
  Increasing-stamp (sync_round force) e later fit same h = same

  -- In any sequence of calls in which no timestamp wraps, from a state whose clock has not passed the
  -- open batch: the timestamps that the ordinary writes take increase strictly, from above the clock
  -- on; each write that returns is logged and stored in the memtable with its timestamp, and each that
  -- does not leaves the engine as it was.
  pub stamps-Increasing :
      (calls : List Call) (e : Engine Tree Cache)
      → Calm ops cache calls e
      → Ordered (clock e)
      → Increasing e.global_ts (stamps ops cache calls e) × Recorded calls e
  unfolding stamps
  stamps-Increasing [] e calm ord = (tt, tt)
  stamps-Increasing (call ∷ calls) e calm ord =
      let next = Ticks-Ordered _ _ (perform-Ticks ops cache call e calm.0) ord in
      let rest = stamps-Increasing calls (perform ops cache call e) calm.1 next.0 in
      (
        Increasing-stamp call e _ calm.0 (Increasing-le e.global_ts _ _ next.1 rest.0) rest.0,
        (Wrote-call call e calm.0, rest.1),
      )
