-- ===== src/Engine/Deleted.antt =====
-- A lookup of the engine finds a deleted key again.
use keyvaluedb.Prelude.{ℕ, ◌+◌, ◌≤◌, ◌≡◌, true, false, none, some, List, [], ◌∷◌, ◌++◌}
use keyvaluedb.MemTable.{TreeOps, MemTable, memtable_insert, new_memtable, freeze}
use keyvaluedb.Engine.State.{CacheOps, Engine}
use keyvaluedb.Engine.Lookup.{CacheGet}

-- What a tree answers for the entry that went in last, and that a cache misses a key that was erased
pub record AnswersLast {Tree Cache : Type 0} (ops : TreeOps Tree) (cache : CacheOps Cache)
    (cache_get : CacheGet Cache) : Type 0 where
  pub inserted :
      (key value : List ℕ) (ts read_ts : ℕ) (tree : Tree)
      → ts ≤ read_ts
      → ops.tree_lookup key read_ts (ops.tree_insert key value ts false tree) ≡ some value
  pub deleted :
      (key value : List ℕ) (ts read_ts : ℕ) (tree : Tree)
      → ts ≤ read_ts
      → ops.tree_lookup key read_ts (ops.tree_insert key value ts true tree) ≡ none
  pub erased :
      (key : List ℕ) (read_ts : ℕ) (c : Cache)
      → (cache_get key read_ts (cache.cache_erase key c)).0 ≡ none

module _ {Tree Cache : Type 0} (ops : TreeOps Tree) (cache : CacheOps Cache)
    (cache_get : CacheGet Cache) where
  -- What an insertion that fills the active memtable leaves
  Filled : List ℕ → List ℕ → Engine Tree Cache → Engine Tree Cache → Type 0
  Filled key value e e' =
      (e'.global_ts ≡ e.global_ts + 1)
      × (e'.batch_in_progress ≡ e.batch_in_progress)
      × (e'.active ≡ new_memtable ops e.next_table_id e.memtable_max_bytes)
      × (e'.frozen
          ≡ e.frozen
            ++ (freeze (memtable_insert ops key value (e.global_ts + 1) false e.active) ∷ []))
