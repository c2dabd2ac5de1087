-- ===== src/Table/Written.antt =====
-- What the loop of Write keeps: the file holds whole blocks of the entries so far, and the builder
-- the rest of them.
use keyvaluedb.Prelude.{
  ℕ, ◌+◌, ◌%◌, ◌^◌, ◌<◌, ◌≡◌, refl, sym, ◌∙◌, List, [], ◌∷◌, ◌++◌, map, append-nil, append_assoc,
  arith, length, length-append, All, All-append,
}
use keyvaluedb.Bloom.{BloomFilter}
use keyvaluedb.Bloom.Laws.{add_all, add_all-append}
use keyvaluedb.Types.{KeyValuePair}
use keyvaluedb.Table.Builder.{
  serialize, wire_size, write_entries, BlockBuilder, block_bytes, freeze_block,
}
use keyvaluedb.Table.Write.{push_first_key, Writer, sstable_block_size, write_block}
use keyvaluedb.Table.Chunks.{
  FitsBlock, IsChunk, chunk_bytes, chunks_bytes, concat, length-write_entry, length-write_entries,
  length-chunk_bytes,
}
use keyvaluedb.Table.Pieces.{
  opened, opened_all, starts, keys_of, map-append, write_entries-append, concat-append,
  chunks_bytes-append, opened-append, opened_all-append, starts-append, keys_of-append,
  add_keys-serialize,
}

pub record Holds (b : BlockBuilder) (pending : List KeyValuePair) : Type 0 where
  pub entries_are : b.entries ≡ map serialize pending
  pub count_is : b.count ≡ length pending
  pub size_is : b.data_size ≡ length (write_entries (map serialize pending))
  pub short : 4 + b.data_size < 2 ^ 32
  pub size : b.block_size ≡ sstable_block_size
  pub fits : All FitsBlock pending

-- The file and the filter at the start of the loop, the entries so far and the writer.
pub record Written (before : List ℕ) (empty : BloomFilter) (done : List KeyValuePair) (w : Writer)
    : Type 0 where
  pub chunks : List (List KeyValuePair)
  pub pending : List KeyValuePair
  pub file_is : w.file ≡ before ++ chunks_bytes chunks
  pub done_is : done ≡ concat chunks ++ pending
  pub are_chunks : All IsChunk chunks
  pub holds : Holds w.builder pending
  pub keys_are : w.first_keys ≡ opened_all chunks ++ opened pending
  pub offsets_are : w.offsets ≡ starts (length before) chunks
  pub bloom_is : w.bloom ≡ add_all (keys_of (concat chunks)) empty

-- The builder with one entry more.
abbrev pub taken : KeyValuePair → BlockBuilder → BlockBuilder
taken kv b = record b {
  entries = b.entries ++ (serialize kv ∷ []);
  data_size = b.data_size + wire_size (serialize kv);
  count = (b.count + 1) % 2 ^ 32;
}

Holds-taken :
    (kv : KeyValuePair) (b : BlockBuilder) (pending : List KeyValuePair)
    → Holds b pending
    → FitsBlock kv
    → 4 + (b.data_size + wire_size (serialize kv)) < 2 ^ 32
    → Holds (taken kv b) (pending ++ (kv ∷ []))
Holds-taken kv b pending h fits short = record {
  entries_are = rw (h.entries_are, map-append pending (kv ∷ [])) refl;
  count_is = omega (
    arith,
    h.count_is,
    h.size_is,
    h.short,
    length-write_entries pending h.fits,
    length-append pending (kv ∷ []),
  );
  size_is = omega (arith, h.size_is, write_entries-append pending kv, length-write_entry kv fits);
  short = short;
  size = h.size;
  fits = All-append FitsBlock pending (kv ∷ []) h.fits (fits, tt);
}

module _ (before : List ℕ) (empty : BloomFilter) (done : List KeyValuePair) (kv : KeyValuePair)
    (w : Writer) (h : Written before empty done w) (fits : FitsBlock kv) where
  -- An entry behind others of its block.
  pub Written-taken :
      0 < w.builder.count
      → 4 + (w.builder.data_size + wire_size (serialize kv)) < 2 ^ 32
      → Written before empty (done ++ (kv ∷ [])) (record w { builder = taken kv w.builder })
  Written-taken some_entry short = record {
    chunks = h.chunks;
    pending = h.pending ++ (kv ∷ []);
    file_is = h.file_is;
    done_is = rw (h.done_is, append_assoc) refl;
    are_chunks = h.are_chunks;
    holds = Holds-taken kv w.builder h.pending h.holds fits short;
    keys_are =
        rw (opened-append h.pending kv (omega (arith, some_entry, h.holds.count_is))) h.keys_are;
    offsets_are = h.offsets_are;
    bloom_is = h.bloom_is;
  }

  -- The first entry of a block, whose key is listed.
  pub Written-opened :
      h.pending ≡ []
      → 4 + (w.builder.data_size + wire_size (serialize kv)) < 2 ^ 32
      → Written before empty
          (done ++ (kv ∷ []))
          (record (push_first_key kv.key w) { builder = taken kv w.builder })
  unfolding push_first_key
  Written-opened none_yet short = record {
    chunks = h.chunks;
    pending = h.pending ++ (kv ∷ []);
    file_is = h.file_is;
    done_is = rw (h.done_is, append_assoc) refl;
    are_chunks = h.are_chunks;
    holds = Holds-taken kv w.builder h.pending h.holds fits short;
    keys_are = rw (h.keys_are, none_yet) (unfold opened in rw append-nil refl);
    offsets_are = h.offsets_are;
    bloom_is = h.bloom_is;
  }

block_bytes-Holds :
    (b : BlockBuilder) (pending : List KeyValuePair)
    → Holds b pending
    → block_bytes b ≡ chunk_bytes pending
unfolding block_bytes chunk_bytes
block_bytes-Holds b pending h = rw (h.entries_are, h.count_is) refl

IsChunk-Holds :
    (b : BlockBuilder) (pending : List KeyValuePair)
    → Holds b pending
    → 0 < b.count
    → IsChunk pending
IsChunk-Holds b pending h some_entry = record {
  some_entry = omega (arith, h.count_is);
  short = omega (arith, h.size_is, h.short, length-chunk_bytes pending);
  fits = h.fits;
}

-- The blocks after a block is written, whatever the builder is then.
module _ (before : List ℕ) (empty : BloomFilter) (done : List KeyValuePair) (w : Writer)
    (h : Written before empty done w) where
  file_of-write_block : (write_block w).file ≡ before ++ chunks_bytes (h.chunks ++ (h.pending ∷ []))
  unfolding write_block freeze_block
  file_of-write_block =
      rw
        (
          h.file_is,
          block_bytes-Holds w.builder h.pending h.holds,
          chunks_bytes-append h.chunks h.pending,
          append_assoc,
        )
        refl

  bloom_of-write_block :
      (write_block w).bloom ≡ add_all (keys_of (concat (h.chunks ++ (h.pending ∷ [])))) empty
  unfolding write_block freeze_block
  bloom_of-write_block =
      rw
        (
          h.bloom_is,
          h.holds.entries_are,
          add_keys-serialize h.pending (add_all (keys_of (concat h.chunks)) empty) h.holds.fits,
          concat-append h.chunks h.pending,
          keys_of-append (concat h.chunks) h.pending,
          add_all-append (keys_of (concat h.chunks)) (keys_of h.pending) empty,
        )
        refl

  pub Written-write_block :
      (b : BlockBuilder)
      → Holds b []
      → 0 < w.builder.count
      → Written before empty done (record (write_block w) { builder = b })
  unfolding opened
  Written-write_block b none_yet some_entry = record {
    chunks = h.chunks ++ (h.pending ∷ []);
    pending = [];
    file_is = file_of-write_block;
    done_is = rw (h.done_is, concat-append h.chunks h.pending, append-nil) refl;
    are_chunks =
        All-append IsChunk h.chunks (h.pending ∷ []) h.are_chunks
          (IsChunk-Holds w.builder h.pending h.holds some_entry, tt);
    holds = none_yet;
    keys_are =
        unfold write_block in
        (h.keys_are
          ∙ sym (opened_all-append h.chunks h.pending)
          ∙ sym (append-nil (opened_all (h.chunks ++ (h.pending ∷ [])))));
    offsets_are =
        unfold write_block in
        rw
          (
            h.offsets_are,
            h.file_is,
            length-append before (chunks_bytes h.chunks),
            starts-append (length before) h.chunks h.pending,
          )
          refl;
    bloom_is = bloom_of-write_block;
  }
