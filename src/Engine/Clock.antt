-- ===== src/Engine/Clock.antt =====
-- The clock of the engine over any sequence of operations.
use keyvaluedb.Prelude.{
  ℕ, ◌+◌, ◌^◌, ◌≤◌, ◌<◌, ◌≡◌, refl, inl, inr, Bool, true, false, List, arith, if◌then◌else◌,
  Bool-cases,
}
use keyvaluedb.MemTable.{TreeOps, is_full}
use keyvaluedb.Engine.State.{CacheOps, Engine, rotate, sync_worker, uint64}
use keyvaluedb.Engine.Writes.{insert_kv, delete_key}
use keyvaluedb.Engine.Batch.{
  start_batch, commit_batch_async, commit_batch_finalize, commit_batch, abort_batch, batch_insert,
  batch_delete,
}

-- The calls of clients, and the rounds of the sync thread between them.
pub data Call : Type 0 where
  put : List ℕ → List ℕ → Call
  remove : List ℕ → Call
  start : Call
  commit_async : Call
  finalize : Call
  commit : List Bool → Call
  abort : Call
  put_in_batch : List ℕ → List ℕ → Call
  remove_in_batch : List ℕ → Call
  sync_round : Bool → Call

-- The part of the state that the clock is.
pub record Clock : Type 0 where
  pub now : ℕ
  pub gap : ℕ
  pub is_open : Bool
  pub batch : ℕ

abbrev pub clock : {Tree Cache : Type 0} → Engine Tree Cache → Clock
clock e = record {
  now = e.global_ts;
  gap = e.batch_increment_gap;
  is_open = e.batch_in_progress;
  batch = e.batch_ts;
}

-- No timestamp wraps in the next call.
abbrev pub Fits64 : Clock → Type 0
Fits64 c = (c.now + c.gap + 1 < 2 ^ 64) × (c.batch + 1 < 2 ^ 64)

pub uint64-small : (n : ℕ) → n < 2 ^ 64 → uint64 n ≡ n
uint64-small n h = omega arith

-- What may happen to the clock in a call: nothing; a timestamp is taken, up to that of an open batch;
-- a batch opens ahead of the clock; it is committed, and the clock jumps behind it; or it is dropped.
pub data Ticks (c c' : Clock) : Type 0 where
  stayed : c' ≡ c → Ticks c c'
  taken : (c.is_open ≡ true → c.now + 1 ≤ c.batch) → c' ≡ record c { now = c.now + 1 } → Ticks c c'
  opened : c.is_open ≡ false → c' ≡ record c { is_open = true; batch = c.now + c.gap } → Ticks c c'
  closed : c.is_open ≡ true → c' ≡ record c { is_open = false; now = c.batch + 1 } → Ticks c c'
  dropped : c.is_open ≡ true → c' ≡ record c { is_open = false } → Ticks c c'

unfoldable pub perform :
    {Tree Cache : Type 0}
    → TreeOps Tree
    → CacheOps Cache
    → Call
    → Engine Tree Cache
    → Engine Tree Cache
perform ops cache (put key value) e = (insert_kv ops cache key value e).0
perform ops cache (remove key) e = (delete_key ops cache key e).0
perform ops cache start e = (start_batch e).0
perform ops cache commit_async e = (commit_batch_async e).0
perform ops cache finalize e = (commit_batch_finalize e).0
perform ops cache (commit rounds) e = (commit_batch rounds e).0
perform ops cache abort e = (abort_batch ops e).0
perform ops cache (put_in_batch key value) e = (batch_insert ops cache key value e).0
perform ops cache (remove_in_batch key) e = (batch_delete ops cache key e).0
perform ops cache (sync_round force) e = sync_worker force e

module _ {Tree Cache : Type 0} (ops : TreeOps Tree) where
  pub clock-rotate : (e : Engine Tree Cache) → clock (rotate ops e) ≡ clock e
  unfolding rotate
  clock-rotate e = elim (Bool-cases (is_full ops e.active)) [
    | inl b ↦ rw b refl
    | inr b ↦ rw b refl
  ]

-- To follow both branches of a conditional.
pub if_both :
    {A : Type 0} (P : A → Type 0) (b : Bool) {x y : A}
    → (b ≡ true → P x)
    → (b ≡ false → P y)
    → P (if b then x else y)
if_both P true p q = p refl
if_both P false p q = q refl

pub Ticks-same : (c d c' : Clock) → d ≡ c → Fits64 c → (Fits64 d → Ticks d c') → Ticks c c'
Ticks-same c d c' e fit f = rw e at (f (rw e fit))

-- A result to which the clock steps.
pub Steps : {Tree Cache A : Type 0} → Engine Tree Cache → Engine Tree Cache × A → Type 0
Steps e r = Ticks (clock e) (clock r.0)

module _ {Tree Cache A : Type 0} where
  pub Steps-stayed : (e : Engine Tree Cache) (a : A) → Steps e (e, a)
  unfolding Steps
  Steps-stayed e a = stayed refl

  pub Steps-taken :
      (e e' : Engine Tree Cache) (a : A)
      → (e.batch_in_progress ≡ true → e.global_ts + 1 ≤ e.batch_ts)
      → clock e' ≡ record (clock e) { now = e.global_ts + 1 }
      → Steps e (e', a)
  unfolding Steps
  Steps-taken e e' a w h = taken w h

  pub Steps-Ticks :
      (e : Engine Tree Cache) (r : Engine Tree Cache × A) → Steps e r → Ticks (clock e) (clock r.0)
  unfolding Steps
  Steps-Ticks e r h = h
