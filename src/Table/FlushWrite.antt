-- ===== src/Table/FlushWrite.antt =====
-- The end of WriteFromWalk: its file is that of Write.
use keyvaluedb.Prelude.{
  ℕ, ◌≡◌, refl, ap, inl, inr, true, false, Option, List, ◌++◌, append-nil, arith, ltb, ◌==◌,
  if◌then◌else◌, Bool-cases, length, All,
}
use keyvaluedb.Types.{KeyValuePair}
use keyvaluedb.Bloom.{BloomFilter}
use keyvaluedb.Table.Builder.{reset_builder}
use keyvaluedb.Table.Write.{
  Writer, write_block, write_entries_to, write_last_block, first_key, last_key, write_header,
  write_blocks, write, empty_filter, write_metadata, write_tail,
}
use keyvaluedb.Table.Writes.{start_writer}
use keyvaluedb.Table.Flush.{
  Flush, push_block, flush_best, walk_all, push_last, write_all, start_flush, flush_blocks,
  write_from_walk,
}
use keyvaluedb.Table.Flushed.{Mirrors, Mirrors-write_block}
use keyvaluedb.Table.Flushes.{newest, IsFlushable, Flushed-walk}

-- The blocks in memory are all of the writer's.
record Ends (before : List ℕ) (f : Flush) (w : Writer) : Type 0 where
  bloom_is : f.bloom ≡ w.bloom
  file_is : (write_all f.blocks before).0 ≡ w.file
  offsets_are : (write_all f.blocks before).1 ≡ w.offsets
  keys_are : (write_all f.blocks before).2 ≡ w.first_keys

module _ (before : List ℕ) (kv : KeyValuePair) (f : Flush) (w : Writer)
    (m : Mirrors before f w) where
  Ends-pushed : (w.builder.count == 0) ≡ false → Ends before (push_block f) (write_block w)
  unfolding reset_builder
  Ends-pushed some_entry =
      let p = Mirrors-write_block before kv f w m some_entry in
      record {
        bloom_is = p.bloom_is;
        file_is = p.file_is;
        offsets_are = p.offsets_are;
        keys_are = rw append-nil at p.keys_are;
      }

  Ends-empty : (w.builder.count == 0) ≡ true → Ends before f w
  Ends-empty empty = record {
    bloom_is = m.bloom_is;
    file_is = m.file_is;
    offsets_are = m.offsets_are;
    keys_are = rw append-nil at (rw empty at m.keys_are);
  }

  Ends-push_last : Ends before (push_last f) (write_last_block w)
  unfolding push_last write_last_block
  Ends-push_last =
      let count : f.builder.count ≡ w.builder.count = ap (λ b. b.count) m.builder_is in
      elim (Bool-cases (ltb 0 w.builder.count)) [
        | inl some_entry ↦
            let e : ltb 0 f.builder.count ≡ true = rw count some_entry in
            rw (e, some_entry) (Ends-pushed (ground (arith, some_entry)))
        | inr empty ↦
            let e : ltb 0 f.builder.count ≡ false = rw count empty in
            rw (e, empty) (Ends-empty (ground (arith, empty)))
      ]

push_last-fields :
    (f : Flush)
    → ((push_last f).written ≡ f.written)
      × ((push_last f).min_key ≡ f.min_key)
      × ((push_last f).max_key ≡ f.max_key)
unfolding push_last push_block
push_last-fields f = elim (Bool-cases (ltb 0 f.builder.count)) [
  | inl e ↦ rw e (refl, refl, refl)
  | inr e ↦ rw e (refl, refl, refl)
]

-- The file of a table, from its parts.
abbrev assembled :
    List ℕ → List ℕ → List ℕ → BloomFilter → Option (List ℕ) → List ℕ → List (List ℕ) → List ℕ
assembled file min_key max_key bloom aborted offsets keys =
    file ++ write_tail (write_metadata min_key max_key bloom aborted offsets keys) (length file)

-- WriteFromWalk, where every entry of the walk has a key and fits a block, writes the file that
-- Write writes of the walk's newest versions, with a filter for the number of entries it was told.
pub write_from_walk-newest :
    (filter_sizes : ℕ → ℕ × ℕ) (walk : List KeyValuePair) (entry_count : ℕ)
    (aborted : Option (List ℕ))
    → All IsFlushable walk
    → write_from_walk filter_sizes walk entry_count aborted
      ≡ write
          (λ n. filter_sizes (if entry_count == 0 then 1 else entry_count))
          (newest walk)
          aborted
unfolding write_from_walk flush_blocks write write_blocks empty_filter write_all write_last_block
    push_last write_entries_to flush_best newest
write_from_walk-newest filter_sizes walk entry_count aborted fits =
    let kvs = newest walk in
    let before = write_header (length kvs) (first_key kvs) (last_key kvs) in
    let filter = empty_filter filter_sizes entry_count in
    let g = flush_best (walk_all walk (start_flush filter)) in
    let h = Flushed-walk before filter walk fits in
    let fields = push_last-fields g in
    let e =
      Ends-push_last before g.best g (write_entries_to kvs (start_writer before filter))
        h.mirrors in
    rw
      (
        fields.0, fields.1, fields.2, h.written_is, h.min_is, h.max_is, e.file_is, e.offsets_are,
        e.keys_are, e.bloom_is,
      )
      refl
