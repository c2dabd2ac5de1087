-- ===== src/Table/Flushed.antt =====
-- What WriteFromWalk has built, beside what Write would have written of the same entries.
use keyvaluedb.Prelude.{
  ℕ, suc, ◌+◌, ◌%◌, ◌^◌, ◌<◌, ◌≡◌, refl, ap, inl, inr, true, false, none, some, List, [], ◌∷◌, ◌++◌,
  append-nil, arith, ◌==◌, if◌then◌else◌, Bool-cases, length,
}
use keyvaluedb.Types.{KeyValuePair}
use keyvaluedb.Table.Builder.{serialize, BlockBuilder, try_append, reset_builder}
use keyvaluedb.Table.Write.{Writer, push_first_key, write_block, append_loop, write_entry_to}
use keyvaluedb.Table.Written.{taken}
use keyvaluedb.Table.Writes.{
  try_append-allowed, try_append-cases, append_loop-some, append_loop-none,
}
use keyvaluedb.Table.Flush.{BlockData, Flush, push_block, best_loop, write_all}

-- The key that Write has listed already for the block that is not full.
abbrev listed : ℕ → List ℕ → List (List ℕ)
listed count key = if count == 0 then [] else key ∷ []

-- The blocks in memory are those of the writer's file, which began with `before`.
pub record Mirrors (before : List ℕ) (f : Flush) (w : Writer) : Type 0 where
  pub builder_is : f.builder ≡ w.builder
  pub bloom_is : f.bloom ≡ w.bloom
  pub file_is : (write_all f.blocks before).0 ≡ w.file
  pub offsets_are : (write_all f.blocks before).1 ≡ w.offsets
  pub keys_are :
      (write_all f.blocks before).2 ++ listed w.builder.count f.block_first_key ≡ w.first_keys

write_all-append :
    (blocks : List BlockData) (b : BlockData) (file : List ℕ)
    → write_all (blocks ++ (b ∷ [])) file ≡ (
      (write_all blocks file).0 ++ b.bytes,
      (write_all blocks file).1 ++ (length (write_all blocks file).0 ∷ []),
      (write_all blocks file).2 ++ (b.first_key ∷ []),
    )
unfolding write_all
write_all-append [] b file = refl
write_all-append (c ∷ blocks) b file = rw (write_all-append blocks b (file ++ c.bytes)) refl

count_next : (n : ℕ) → n + 1 < 2 ^ 32 → ((n + 1) % 2 ^ 32 == 0) ≡ false
count_next n h = ground (arith, h)

module _ (before : List ℕ) (kv : KeyValuePair) where
  -- An entry behind others of its block.
  Mirrors-taken :
      (f : Flush) (w : Writer)
      → Mirrors before f w
      → (w.builder.count == 0) ≡ false
      → w.builder.count + 1 < 2 ^ 32
      → Mirrors before
          (record f { builder = taken kv f.builder })
          (record w { builder = taken kv w.builder })
  Mirrors-taken f w m some_entry small = record {
    builder_is = ap (taken kv) m.builder_is;
    bloom_is = m.bloom_is;
    file_is = m.file_is;
    offsets_are = m.offsets_are;
    keys_are = rw (count_next w.builder.count small) (rw some_entry at m.keys_are);
  }

  -- The first entry of a block.
  Mirrors-opened :
      (f : Flush) (w : Writer) (key : List ℕ)
      → Mirrors before f w
      → w.builder.count ≡ 0
      → key ≡ kv.key
      → Mirrors before
          (record f { builder = taken kv f.builder; block_first_key = key })
          (record (push_first_key kv.key w) { builder = taken kv w.builder })
  unfolding push_first_key
  Mirrors-opened f w key m empty same = record {
    builder_is = ap (taken kv) m.builder_is;
    bloom_is = m.bloom_is;
    file_is = m.file_is;
    offsets_are = m.offsets_are;
    keys_are =
        rw
          (count_next w.builder.count (omega (arith, empty)), ← m.keys_are, empty, append-nil, same)
          refl;
  }

  -- A full block goes to memory and to the file.
  pub Mirrors-write_block :
      (f : Flush) (w : Writer)
      → Mirrors before f w
      → (w.builder.count == 0) ≡ false
      → Mirrors before
          (record (push_block f) { builder = reset_builder (push_block f).builder })
          (record (write_block w) { builder = reset_builder (write_block w).builder })
  unfolding push_block write_block reset_builder
  Mirrors-write_block f w m some_entry = record {
    builder_is = ap reset_builder m.builder_is;
    bloom_is = rw (m.builder_is, m.bloom_is) refl;
    file_is = rw (write_all-append f.blocks _ before, m.file_is, m.builder_is, m.bloom_is) refl;
    offsets_are = rw (write_all-append f.blocks _ before, m.file_is, m.offsets_are) refl;
    keys_are = rw (write_all-append f.blocks _ before, append-nil) (rw some_entry at m.keys_are);
  }

module _ (n : ℕ) (kv : KeyValuePair) (f : Flush) where
  best_loop-some :
      (b : BlockBuilder)
      → try_append (serialize kv) (f.builder.count == 0) f.builder ≡ some b
      → best_loop (suc n) kv f ≡ record f { builder = b }
  unfolding best_loop
  best_loop-some b e = rw (best_loop, e) refl

  best_loop-none :
      try_append (serialize kv) (f.builder.count == 0) f.builder ≡ none
      → best_loop (suc n) kv f
        ≡ best_loop n kv (record (push_block f) {
          builder = reset_builder (push_block f).builder;
          block_first_key = f.prev_key;
        })
  unfolding best_loop
  best_loop-none e = rw (best_loop, e) refl

-- What flushBest does before its loop.
abbrev pub started : Flush → Flush
started f = if f.builder.count == 0 then record f { block_first_key = f.prev_key } else f

module _ (before : List ℕ) (kv : KeyValuePair) where
  -- Both loops take the first entry of a block at once.
  Mirrors-loops :
      (f : Flush) (w : Writer) (n : ℕ) (key : List ℕ)
      → Mirrors before f w
      → w.builder.count ≡ 0
      → key ≡ kv.key
      → Mirrors before
          (best_loop (suc n) kv (record f { block_first_key = key }))
          (append_loop (suc n) kv true (push_first_key kv.key w))
  unfolding push_first_key
  Mirrors-loops f w n key m empty same =
      let e : (f.builder.count == 0) ≡ true = rw (m.builder_is, empty) refl in
      rw
        (
          best_loop-some n kv (record f { block_first_key = key }) (taken kv f.builder)
              (rw e (try_append-allowed kv f.builder)),
          append_loop-some n kv true (push_first_key kv.key w) (taken kv w.builder)
              (try_append-allowed kv w.builder),
        )
        (Mirrors-opened before kv f w key m empty same)

  Mirrors-room :
      (f : Flush) (w : Writer)
      → Mirrors before f w
      → (w.builder.count == 0) ≡ false
      → w.builder.count + 1 < 2 ^ 32
      → try_append (serialize kv) false w.builder ≡ some (taken kv w.builder)
      → Mirrors before (best_loop 2 kv (started f)) (write_entry_to kv w)
  unfolding write_entry_to
  Mirrors-room f w m some_entry small room =
      let e : (f.builder.count == 0) ≡ false = rw m.builder_is some_entry in
      rw
        (
          e,
          some_entry,
          best_loop-some 1 kv f (taken kv f.builder) (rw (e, m.builder_is) room),
          append_loop-some 1 kv false w (taken kv w.builder) room,
        )
        (Mirrors-taken before kv f w m some_entry small)

  Mirrors-full :
      (f : Flush) (w : Writer)
      → Mirrors before f w
      → f.prev_key ≡ kv.key
      → (w.builder.count == 0) ≡ false
      → try_append (serialize kv) false w.builder ≡ none
      → Mirrors before (best_loop 2 kv (started f)) (write_entry_to kv w)
  unfolding write_entry_to
  Mirrors-full f w m same some_entry full =
      let e : (f.builder.count == 0) ≡ false = rw m.builder_is some_entry in
      rw
        (
          e,
          some_entry,
          best_loop-none 1 kv f (rw (e, m.builder_is) full),
          append_loop-none 1 kv false w full,
        )
        (Mirrors-loops _ _ 0 f.prev_key (Mirrors-write_block before kv f w m some_entry)
          (unfold reset_builder in refl) same)

  -- One entry goes into both alike.
  pub Mirrors-best_loop :
      (f : Flush) (w : Writer)
      → Mirrors before f w
      → f.prev_key ≡ kv.key
      → w.builder.count + 1 < 2 ^ 32
      → Mirrors before (best_loop 2 kv (started f)) (write_entry_to kv w)
  Mirrors-best_loop f w m same small = elim (Bool-cases (w.builder.count == 0)) [
    | inl empty ↦
        let e : (f.builder.count == 0) ≡ true = rw m.builder_is empty in
        unfold write_entry_to in
        rw (e, empty) (Mirrors-loops f w 1 f.prev_key m (ground (arith, empty)) same)
    | inr some_entry ↦ elim (try_append-cases kv w.builder) [
      | inl (room, why) ↦ Mirrors-room f w m some_entry small room
      | inr (full, why) ↦ Mirrors-full f w m same some_entry full
    ]
  ]
