-- ===== src/Manifest/Catalog.antt =====
-- Manifest::Recover and Manifest::Compact (src/manifest.cpp) over the bytes of the file. One round of
-- the loop that both have is `read_step`: `none` is its `break`.
use keyvaluedb.Prelude.{
  ℕ, zero, suc, ◌-◌, Bool, false, Option, none, some, List, [], ◌∷◌, ◌++◌, length, take, ◌==◌, leb,
  ◌||◌, contains, insert, if◌then◌else◌, ◌>>=◌, ◌>>◌, guard,
}
use keyvaluedb.Bytes.{split_at, read_u16, read_u32, read_u64}
use keyvaluedb.Crc32.{checksum}
use keyvaluedb.Manifest.Format.{
  Metadata, type_add_sstable, type_remove_sstable, type_abort_batch, add_sstable, add_abort_batch,
}

-- What the loop collects; a pair of `aborts` is a batch and its fence.
pub record Log : Type 0 where
  pub results : List Metadata
  pub removed : List ℕ
  pub aborts : List (ℕ × ℕ)

-- The bytes between two cursors: `body_end - body_start` of them.
unfoldable pub between : List ℕ → List ℕ → List ℕ
between from to = take (length from - length to) from

-- The check of a body that was read again, `bs` behind its type and `rest` behind it
unfoldable pub body_fits : ℕ → ℕ → List ℕ → List ℕ → Bool
unfolding between
body_fits sum type bs rest = checksum (type ∷ between bs rest) == sum

unfoldable pub read_add : ℕ → List ℕ → Log → Option (List ℕ × Log)
read_add sum bs log = do
  (seq, bs1) ← read_u64 bs
  (entry_count, bs2) ← read_u64 bs1
  (min_key_len, bs3) ← read_u32 bs2
  (max_key_len, bs4) ← read_u32 bs3
  (file_size, bs5) ← read_u64 bs4
  (level, bs6) ← read_u32 bs5
  (path_len, bs7) ← read_u16 bs6
  (path, rest) ← split_at path_len bs7
  guard (body_fits sum type_add_sstable bs rest)
  some (
    rest,
    record log {
      results =
          log.results
          ++ (record {
            filepath = path;
            manifest_seq = seq;
            entry_count = entry_count;
            min_key_len = min_key_len;
            max_key_len = max_key_len;
            file_size = file_size;
            level = level;
            aborted_batch_ts = [];
          }
              ∷ []);
    },
  )

unfoldable pub read_remove : ℕ → List ℕ → Log → Option (List ℕ × Log)
read_remove sum bs log = do
  (seq, rest) ← read_u64 bs
  guard (body_fits sum type_remove_sstable bs rest)
  some (rest, record log { removed = log.removed ++ (seq ∷ []) })

-- A record with no fence, of an older format, is known by the file's end; its fence is the batch.
unfoldable pub read_fence : ℕ → List ℕ → ℕ × List ℕ
read_fence batch_ts bs = elim (read_u64 bs) [
  | none ↦ (batch_ts, bs)
  | some (fence_seq, rest) ↦ (fence_seq, rest)
]

unfoldable pub read_abort : ℕ → List ℕ → Log → Option (List ℕ × Log)
read_abort sum bs log = do
  (batch_ts, after_ts) ← read_u64 bs
  let fence = read_fence batch_ts after_ts
  guard (body_fits sum type_abort_batch bs fence.1)
  some (fence.1, record log { aborts = log.aborts ++ ((batch_ts, fence.0) ∷ []) })

unfoldable pub read_payload : ℕ → List ℕ → Log → Option (List ℕ × Log)
read_payload sum [] log = none
read_payload sum (type ∷ bs) log =
    if type == type_add_sstable
    then read_add sum bs log
    else if type == type_remove_sstable
    then read_remove sum bs log
    else if type == type_abort_batch
    then read_abort sum bs log
    else none

unfoldable pub read_step : List ℕ → Log → Option (List ℕ × Log)
unfolding read_payload
read_step bs log = do (sum, after_sum) ← read_u32 bs; read_payload sum after_sum log

-- Each round reads five bytes at least: the length of the file is fuel enough.
unfoldable pub read_loop : ℕ → List ℕ → Log → Log
read_loop zero bs log = log
read_loop (suc fuel) bs log = elim (read_step bs log) [
  | none ↦ log
  | some (rest, log') ↦ read_loop fuel rest log'
]

unfoldable pub read_file : List ℕ → Log
unfolding read_loop
read_file file = read_loop (length file) file (record { results = []; removed = []; aborts = [] })

-- The tables that no record removes
unfoldable pub surviving : List ℕ → List Metadata → List Metadata
surviving removed [] = []
surviving removed (m ∷ ms) =
    let rest = surviving removed ms in if contains m.manifest_seq removed then rest else m ∷ rest

unfoldable pub mark_aborted : ℕ → ℕ → List Metadata → List Metadata
mark_aborted batch_ts fence_seq [] = []
mark_aborted batch_ts fence_seq (m ∷ ms) =
    (if leb m.manifest_seq fence_seq
      then record m { aborted_batch_ts = insert batch_ts m.aborted_batch_ts }
      else m)
    ∷ mark_aborted batch_ts fence_seq ms

unfoldable pub apply_aborts : List (ℕ × ℕ) → List Metadata → List Metadata
apply_aborts [] ms = ms
apply_aborts ((batch_ts, fence_seq) ∷ aborts) ms =
    apply_aborts aborts (mark_aborted batch_ts fence_seq ms)

-- Manifest::Recover, from the bytes of the file to its result
unfoldable pub recover_catalog : List ℕ → List Metadata
unfolding read_file surviving apply_aborts mark_aborted
recover_catalog file =
    let log = read_file file in apply_aborts log.aborts (surviving log.removed log.results)

-- A table that an abort record still applies to
unfoldable pub is_needed : ℕ → List Metadata → Bool
is_needed fence_seq [] = false
is_needed fence_seq (m ∷ ms) = leb m.manifest_seq fence_seq || is_needed fence_seq ms

unfoldable pub needed_aborts : List (ℕ × ℕ) → List Metadata → List (ℕ × ℕ)
unfolding is_needed
needed_aborts [] catalog = []
needed_aborts ((batch_ts, fence_seq) ∷ aborts) catalog =
    let rest = needed_aborts aborts catalog in
    if is_needed fence_seq catalog then (batch_ts, fence_seq) ∷ rest else rest

unfoldable pub write_catalog : List Metadata → List ℕ
write_catalog [] = []
write_catalog (m ∷ ms) = add_sstable m.manifest_seq m ++ write_catalog ms

unfoldable pub write_aborts : List (ℕ × ℕ) → List ℕ
write_aborts [] = []
write_aborts ((batch_ts, fence_seq) ∷ aborts) =
    add_abort_batch batch_ts fence_seq ++ write_aborts aborts

-- Manifest::Compact, from the old bytes of the file to the new ones
unfoldable pub compact_file : List ℕ → List ℕ
unfolding read_file surviving needed_aborts write_catalog write_aborts
compact_file file =
    let log = read_file file in
    let catalog = surviving log.removed log.results in
    write_catalog catalog ++ write_aborts (needed_aborts log.aborts catalog)
