-- ===== src/Table/Flush.antt =====
-- SSTable::WriteFromWalk (src/sstable.cpp) without a cache: the blocks are kept in memory, and the
-- file is written behind them. The walk is the list of the entries that it yields, and the sizes
-- of the filter are a parameter, from the number of entries that the caller names.
use keyvaluedb.Prelude.{
  ℕ, zero, suc, ◌+◌, Bool, true, false, Option, none, some, List, [], ◌∷◌, ◌++◌, ltb, ◌==◌,
  if◌then◌else◌, length,
}
use keyvaluedb.Types.{KeyValuePair}
use keyvaluedb.Bloom.{BloomFilter}
use keyvaluedb.Tree.Keys.{key_eq}
use keyvaluedb.Table.Builder.{
  serialize, BlockBuilder, block_builder, try_append, reset_builder, freeze_block,
}
use keyvaluedb.Table.Write.{
  sstable_block_size, write_header, write_metadata, write_tail, empty_filter,
}

pub record BlockData : Type 0 where
  pub bytes : List ℕ
  pub first_key : List ℕ

-- The variables of the function; `best_ts`, `best_val` and `best_tomb` are fields of `best`.
pub record Flush : Type 0 where
  pub builder : BlockBuilder
  pub bloom : BloomFilter
  pub blocks : List BlockData
  pub block_first_key : List ℕ
  pub min_key : List ℕ
  pub max_key : List ℕ
  pub prev_key : List ℕ
  pub best : KeyValuePair
  pub has_best : Bool
  pub written : ℕ

unfoldable pub push_block : Flush → Flush
push_block f =
    let frozen = freeze_block f.builder f.bloom in
    record f {
      bloom = frozen.1;
      blocks = f.blocks ++ (record { bytes = frozen.0; first_key = f.block_first_key } ∷ []);
    }

-- The loop over TryAppend, on fuel
unfoldable pub best_loop : ℕ → KeyValuePair → Flush → Flush
best_loop zero kv f = f
best_loop (suc n) kv f =
    let pushed = push_block f in
    let again =
      best_loop n kv
        (record pushed { builder = reset_builder pushed.builder; block_first_key = f.prev_key }) in
    elim (try_append (serialize kv) (f.builder.count == 0) f.builder) [
      | some b ↦ record f { builder = b }
      | none ↦ again
    ]

-- The lambda flushBest
unfoldable pub flush_best : Flush → Flush
flush_best f =
    let started = if f.builder.count == 0 then record f { block_first_key = f.prev_key } else f in
    let appended = best_loop 2 (record f.best { key = f.prev_key }) started in
    let flushed = record appended {
      min_key = if length f.min_key == 0 then f.prev_key else f.min_key;
      max_key = f.prev_key;
      written = f.written + 1;
      has_best = false;
    } in
    if f.has_best then flushed else f

-- A round of the walk
unfoldable pub walk_step : KeyValuePair → Flush → Flush
walk_step kv f =
    let flushed = flush_best f in
    if key_eq kv.key f.prev_key
    then (if ltb f.best.timestamp kv.timestamp then record f { best = kv } else f)
    else record flushed { prev_key = kv.key; best = kv; has_best = true }

unfoldable pub walk_all : List KeyValuePair → Flush → Flush
walk_all [] f = f
walk_all (kv ∷ kvs) f = walk_all kvs (walk_step kv f)

unfoldable pub push_last : Flush → Flush
push_last f = if ltb 0 f.builder.count then push_block f else f

-- The blocks in the file, with their places
unfoldable pub write_all : List BlockData → List ℕ → List ℕ × List ℕ × List (List ℕ)
write_all [] file = (file, [], [])
write_all (b ∷ blocks) file =
    let rest = write_all blocks (file ++ b.bytes) in
    (rest.0, length file ∷ rest.1, b.first_key ∷ rest.2)

-- The variables before the walk
unfoldable pub start_flush : BloomFilter → Flush
start_flush bloom = record {
  builder = block_builder sstable_block_size;
  bloom = bloom;
  blocks = [];
  block_first_key = [];
  min_key = [];
  max_key = [];
  prev_key = [];
  best = record { key = []; value = []; timestamp = 0; is_tombstone = false };
  has_best = false;
  written = 0;
}

module _ (filter_sizes : ℕ → ℕ × ℕ) where
  unfoldable pub flush_blocks : List KeyValuePair → ℕ → Flush
  flush_blocks walk entry_count =
      push_last (flush_best (walk_all walk (start_flush (empty_filter filter_sizes entry_count))))

  unfoldable pub write_from_walk : List KeyValuePair → ℕ → Option (List ℕ) → List ℕ
  write_from_walk walk entry_count aborted =
      let f = flush_blocks walk entry_count in
      let out = write_all f.blocks (write_header f.written f.min_key f.max_key) in
      out.0
      ++ write_tail (write_metadata f.min_key f.max_key f.bloom aborted out.1 out.2) (length out.0)
