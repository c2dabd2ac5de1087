-- ===== src/Table/Writes.antt =====
-- The entries of Write, one after another, up to the last block.
use keyvaluedb.Prelude.{
  ℕ, suc, ◌+◌, ◌^◌, ◌≤◌, ◌<◌, ◌≡◌, refl, sym, ◌∙◌, ◌⊎◌, inl, inr, Bool, true, false, none, some,
  List, [], ◌∷◌, ◌++◌, append-nil, append_assoc, arith, ltb, ◌==◌, ltb→lt, Bool-cases, length, All,
}
use keyvaluedb.Bloom.{BloomFilter}
use keyvaluedb.Bloom.Laws.{add_all}
use keyvaluedb.Types.{KeyValuePair}
use keyvaluedb.Table.Builder.{
  write_entries, serialize, wire_size, BlockBuilder, block_builder, try_append, reset_builder,
}
use keyvaluedb.Table.Write.{
  sstable_block_size, write_header, Writer, push_first_key, write_block, append_loop,
  write_entry_to, write_entries_to, write_last_block, first_key, last_key, empty_filter,
  write_blocks,
}
use keyvaluedb.Table.Chunks.{FitsBlock, IsChunk, chunks_bytes, concat}
use keyvaluedb.Table.Pieces.{opened, opened_all, starts, keys_of}
use keyvaluedb.Table.Written.{
  Written-opened, Holds, Written, taken, Written-taken, Written-write_block,
}

-- TryAppend refuses an entry only where it says so, behind another one and over the size.
pub try_append-allowed :
    (kv : KeyValuePair) (b : BlockBuilder) → try_append (serialize kv) true b ≡ some (taken kv b)
unfolding try_append
try_append-allowed kv b = refl

pub try_append-cases :
    (kv : KeyValuePair) (b : BlockBuilder)
    → ((try_append (serialize kv) false b ≡ some (taken kv b))
        × ((b.count ≡ 0) ⊎ (4 + (b.data_size + wire_size (serialize kv)) ≤ b.block_size)))
      ⊎ ((try_append (serialize kv) false b ≡ none) × (0 < b.count))
unfolding try_append
try_append-cases kv b =
    let room = ltb b.block_size (4 + (b.data_size + wire_size (serialize kv))) in
    elim (Bool-cases (ltb 0 b.count)) [
      | inl some_entry ↦ elim (Bool-cases room) [
        | inl over ↦ inr (rw (some_entry, over) refl, ltb→lt 0 b.count some_entry)
        | inr fits ↦ inl (rw (some_entry, fits) refl, inr (ground (arith, fits)))
      ]
      | inr empty ↦ inl (rw empty refl, inl (ground (arith, empty)))
    ]

Holds-reset_builder :
    (b : BlockBuilder) → b.block_size ≡ sstable_block_size → Holds (reset_builder b) []
unfolding reset_builder
Holds-reset_builder b size = record {
  entries_are = refl;
  count_is = refl;
  size_is = unfold write_entries in refl;
  short = omega arith;
  size = size;
  fits = tt;
}

wire_size-lt : (kv : KeyValuePair) → FitsBlock kv → 4 + wire_size (serialize kv) < 2 ^ 32
unfolding wire_size serialize
wire_size-lt kv fits = omega (arith, fits.0)

module _ (n : ℕ) (kv : KeyValuePair) (allow : Bool) (w : Writer) where
  pub append_loop-some :
      (b : BlockBuilder)
      → try_append (serialize kv) allow w.builder ≡ some b
      → append_loop (suc n) kv allow w ≡ record w { builder = b }
  unfolding append_loop
  append_loop-some b e = rw (append_loop, e) refl

  pub append_loop-none :
      try_append (serialize kv) allow w.builder ≡ none
      → append_loop (suc n) kv allow w
        ≡ append_loop n kv true (
            push_first_key kv.key
              (record (write_block w) { builder = reset_builder (write_block w).builder }))
  unfolding append_loop
  append_loop-none e = rw (append_loop, e) refl

none_pending : (pending : List KeyValuePair) (n : ℕ) → n ≡ length pending → n ≡ 0 → pending ≡ []
none_pending [] n e empty = refl
none_pending (kv ∷ kvs) n e empty = absurd (omega (arith, e, empty))

Holds-empty :
    (b : BlockBuilder) (pending : List KeyValuePair)
    → Holds b pending
    → b.count ≡ 0
    → b.data_size ≡ 0
Holds-empty b [] h empty = h.size_is ∙ (unfold write_entries in refl)
Holds-empty b (kv ∷ kvs) h empty = absurd (omega (arith, empty, h.count_is))

module _ (before : List ℕ) (filter : BloomFilter) (done : List KeyValuePair) (kv : KeyValuePair)
    (fits : FitsBlock kv) where
  -- An entry taken into an empty block.
  Written-first :
      (w : Writer) (n : ℕ)
      → Written before filter done w
      → w.builder.count ≡ 0
      → Written before filter
          (done ++ (kv ∷ []))
          (append_loop (suc n) kv true (push_first_key kv.key w))
  unfolding push_first_key
  Written-first w n h empty =
      rw
        (append_loop-some n kv true (push_first_key kv.key w) (taken kv w.builder)
          (try_append-allowed kv w.builder))
        (Written-opened before filter done kv w h fits
          (none_pending h.pending w.builder.count h.holds.count_is empty)
          (omega (arith, Holds-empty w.builder h.pending h.holds empty, wire_size-lt kv fits)))

  -- An entry that comes behind others.
  Written-next :
      (w : Writer)
      → Written before filter done w
      → (w.builder.count == 0) ≡ false
      → Written before filter (done ++ (kv ∷ [])) (append_loop 2 kv false w)
  Written-next w h some_entry = elim (try_append-cases kv w.builder) [
    | inl (e, inl empty) ↦ absurd (ground (arith, empty, some_entry))
    | inl (e, inr room) ↦ rw (append_loop-some 1 kv false w (taken kv w.builder) e) (
        Written-taken before filter done kv w h fits (ground (arith, some_entry))
          (omega (arith, room, h.holds.size)))
    | inr (e, positive) ↦ rw (append_loop-none 1 kv false w e) (
        Written-first _ 0
          (Written-write_block before filter done w h _
            (Holds-reset_builder (write_block w).builder (unfold write_block in h.holds.size))
            positive)
          (unfold reset_builder in refl))
  ]

  Written-write_entry_to :
      (w : Writer)
      → Written before filter done w
      → Written before filter (done ++ (kv ∷ [])) (write_entry_to kv w)
  unfolding write_entry_to
  Written-write_entry_to w h = elim (Bool-cases (w.builder.count == 0)) [
    | inl empty ↦ rw empty (Written-first w 1 h (ground (arith, empty)))
    | inr some_entry ↦ rw some_entry (Written-next w h some_entry)
  ]

pub Written-write_entries_to :
    (before : List ℕ) (filter : BloomFilter) (done kvs : List KeyValuePair) (w : Writer)
    → Written before filter done w
    → All FitsBlock kvs
    → Written before filter (done ++ kvs) (write_entries_to kvs w)
unfolding write_entries_to
Written-write_entries_to before filter done [] w h fits = rw append-nil h
Written-write_entries_to before filter done (kv ∷ kvs) w h fits =
    let next = Written-write_entry_to before filter done kv fits.0 w h in
    let rest = Written-write_entries_to before filter (done ++ (kv ∷ [])) kvs _ next fits.1 in
    rw append_assoc at rest

-- A writer whose file holds all of its entries, in whole blocks.
pub record Blocks (before : List ℕ) (filter : BloomFilter) (done : List KeyValuePair) (w : Writer)
    : Type 0 where
  pub chunks : List (List KeyValuePair)
  pub file_is : w.file ≡ before ++ chunks_bytes chunks
  pub done_is : done ≡ concat chunks
  pub are_chunks : All IsChunk chunks
  pub keys_are : w.first_keys ≡ opened_all chunks
  pub offsets_are : w.offsets ≡ starts (length before) chunks
  pub bloom_is : w.bloom ≡ add_all (keys_of done) filter

Blocks-Written :
    (before : List ℕ) (filter : BloomFilter) (done : List KeyValuePair) (w : Writer)
    → Written before filter done w
    → w.builder.count ≡ 0
    → Blocks before filter done w
Blocks-Written before filter done w h empty =
    let none_left = none_pending h.pending w.builder.count h.holds.count_is empty in
    let whole : done ≡ concat h.chunks = h.done_is ∙ rw (none_left, append-nil) refl in
    record {
      chunks = h.chunks;
      file_is = h.file_is;
      done_is = whole;
      are_chunks = h.are_chunks;
      keys_are = h.keys_are ∙ rw none_left (unfold opened in rw append-nil refl);
      offsets_are = h.offsets_are;
      bloom_is = rw whole h.bloom_is;
    }

Blocks-write_last_block :
    (before : List ℕ) (filter : BloomFilter) (done : List KeyValuePair) (w : Writer)
    → Written before filter done w
    → Blocks before filter done (write_last_block w)
unfolding write_last_block
Blocks-write_last_block before filter done w h = elim (Bool-cases (ltb 0 w.builder.count)) [
  | inl some_entry ↦
      let last =
        Written-write_block before filter done w h _ (Holds-reset_builder w.builder h.holds.size)
          (ltb→lt 0 w.builder.count some_entry) in
      let whole = Blocks-Written before filter done _ last (unfold reset_builder in refl) in
      rw some_entry (record {
        chunks = whole.chunks;
        file_is = whole.file_is;
        done_is = whole.done_is;
        are_chunks = whole.are_chunks;
        keys_are = whole.keys_are;
        offsets_are = whole.offsets_are;
        bloom_is = whole.bloom_is;
      })
  | inr empty ↦ rw empty (Blocks-Written before filter done w h (ground (arith, empty)))
]

Holds-block_builder : Holds (block_builder sstable_block_size) []
Holds-block_builder = record {
  entries_are = refl;
  count_is = refl;
  size_is = unfold write_entries in refl;
  short = omega arith;
  size = refl;
  fits = tt;
}

-- The writer at the start of the loop.
abbrev pub start_writer : List ℕ → BloomFilter → Writer
start_writer before filter = record {
  file = before;
  offsets = [];
  first_keys = [];
  bloom = filter;
  builder = block_builder sstable_block_size;
}

pub Written-start :
    (before : List ℕ) (filter : BloomFilter) → Written before filter [] (start_writer before filter)
Written-start before filter = record {
  chunks = [];
  pending = [];
  file_is = unfold chunks_bytes in sym (append-nil before);
  done_is = unfold concat in refl;
  are_chunks = tt;
  holds = Holds-block_builder;
  keys_are = unfold opened_all opened in refl;
  offsets_are = unfold starts in refl;
  bloom_is = unfold concat add_all in refl;
}

pub Blocks-write_blocks :
    (filter_sizes : ℕ → ℕ × ℕ) (kvs : List KeyValuePair)
    → All FitsBlock kvs
    → Blocks
        (write_header (length kvs) (first_key kvs) (last_key kvs))
        (empty_filter filter_sizes (length kvs))
        kvs
        (write_blocks filter_sizes kvs)
unfolding write_blocks
Blocks-write_blocks filter_sizes kvs fits =
    let before = write_header (length kvs) (first_key kvs) (last_key kvs) in
    let filter = empty_filter filter_sizes (length kvs) in
    Blocks-write_last_block before filter kvs _
      (Written-write_entries_to before filter [] kvs _ (Written-start before filter) fits)
