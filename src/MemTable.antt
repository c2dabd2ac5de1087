-- ===== src/MemTable.antt =====
-- The memtable (src/memtable.cpp): a tree with an identity, a limit and a flag. The tree stands
-- behind an interface, which `Tree` fills so far for its leaf pages alone.
use keyvaluedb.Prelude.{ℕ, Bool, true, false, Option, List, leb, if◌then◌else◌}
use keyvaluedb.Types.{KeyValuePair}

-- What a memtable asks of BPlusTree.
pub record TreeOps (Tree : Type 0) : Type 0 where
  pub new_tree : Tree
  pub tree_insert : List ℕ → List ℕ → ℕ → Bool → Tree → Tree
  pub tree_lookup : List ℕ → ℕ → Tree → Option (List ℕ)
  pub memory_usage : Tree → ℕ
  pub size : Tree → ℕ
  pub export_tree : Tree → List KeyValuePair
  pub tree_add_aborted : ℕ → Tree → Tree

pub record MemTable (Tree : Type 0) : Type 0 where
  pub tree : Tree
  pub id : ℕ
  pub max_bytes : ℕ
  pub frozen : Bool

module _ {Tree : Type 0} (ops : TreeOps Tree) where
  unfoldable pub new_memtable : ℕ → ℕ → MemTable Tree
  new_memtable id max_bytes = record {
    tree = ops.new_tree;
    id = id;
    max_bytes = max_bytes;
    frozen = false;
  }

  unfoldable pub memtable_insert : List ℕ → List ℕ → ℕ → Bool → MemTable Tree → MemTable Tree
  memtable_insert key value timestamp is_tombstone m =
      if m.frozen
      then m
      else (record m { tree = ops.tree_insert key value timestamp is_tombstone m.tree })

  unfoldable pub memtable_lookup : List ℕ → ℕ → MemTable Tree → Option (List ℕ)
  memtable_lookup key read_ts m = ops.tree_lookup key read_ts m.tree

  unfoldable pub is_full : MemTable Tree → Bool
  is_full m = leb m.max_bytes (ops.memory_usage m.tree)

  unfoldable pub approximate_memory_usage : MemTable Tree → ℕ
  approximate_memory_usage m = ops.memory_usage m.tree

  unfoldable pub memtable_entry_count : MemTable Tree → ℕ
  memtable_entry_count m = ops.size m.tree

  unfoldable pub export_entries : MemTable Tree → List KeyValuePair
  export_entries m = ops.export_tree m.tree

  unfoldable pub add_aborted_batch : ℕ → MemTable Tree → MemTable Tree
  add_aborted_batch ts m = record m { tree = ops.tree_add_aborted ts m.tree }

unfoldable pub freeze : {Tree : Type 0} → MemTable Tree → MemTable Tree
freeze m = record m { frozen = true }

unfoldable pub is_frozen : {Tree : Type 0} → MemTable Tree → Bool
is_frozen m = m.frozen
