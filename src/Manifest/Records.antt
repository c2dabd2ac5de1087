-- ===== src/Manifest/Records.antt =====
-- One round of the manifest's loop on the bytes of one record.
use keyvaluedb.Prelude.{
  ℕ, ◌<◌, ◌^◌, ◌-◌, ◌≡◌, refl, ◌∙◌, true, some, List, [], ◌∷◌, ◌++◌, length, take, ==_iff,
  append_assoc, length-append, arith,
}
use keyvaluedb.Bytes.{write_u16, write_u32, write_u64}
use keyvaluedb.Bytes.Fields.{
  split_at-append, read_u16-write_u16, read_u32-write_u32, read_u64-write_u64,
}
use keyvaluedb.Crc32.{checksum}
use keyvaluedb.Crc32.Laws.{checksum-lt}
use keyvaluedb.Manifest.Format.{
  Metadata, type_add_sstable, type_remove_sstable, type_abort_batch, write_record, add_payload,
  abort_payload, add_sstable, remove_sstable, add_abort_batch,
}
use keyvaluedb.Manifest.Catalog.{
  Log, between, body_fits, read_add, read_remove, read_abort, read_fence, read_payload, read_step,
}

-- What a caller of the manifest asked to be written.
pub data Record : Type 0 where
  add : ℕ → Metadata → Record
  remove : ℕ → Record
  abort : ℕ → ℕ → Record

unfoldable pub encode : Record → List ℕ
encode (add seq m) = add_sstable seq m
encode (remove seq) = remove_sstable seq
encode (abort batch_ts fence_seq) = add_abort_batch batch_ts fence_seq

unfoldable pub encode_all : List Record → List ℕ
encode_all [] = []
encode_all (r ∷ rs) = encode r ++ encode_all rs

-- What the manifest keeps of a table.
abbrev pub stored : ℕ → Metadata → Metadata
stored seq m = record m { manifest_seq = seq; aborted_batch_ts = [] }

unfoldable pub note : Record → Log → Log
note (add seq m) log = record log { results = log.results ++ (stored seq m ∷ []) }
note (remove seq) log = record log { removed = log.removed ++ (seq ∷ []) }
note (abort batch_ts fence_seq) log = record log {
  aborts = log.aborts ++ ((batch_ts, fence_seq) ∷ []);
}

unfoldable pub note_all : List Record → Log → Log
note_all [] log = log
note_all (r ∷ rs) log = note_all rs (note r log)

-- The fields fit their widths.
abbrev pub FitsTable : ℕ → Metadata → Type 0
FitsTable seq m =
    (seq < 2 ^ 64)
    × (m.entry_count < 2 ^ 64)
    × (m.min_key_len < 2 ^ 32)
    × (m.max_key_len < 2 ^ 32)
    × (m.file_size < 2 ^ 64)
    × (m.level < 2 ^ 32)
    × (length m.filepath < 2 ^ 16)

abbrev pub Fits : Record → Type 0
Fits (add seq m) = FitsTable seq m
Fits (remove seq) = seq < 2 ^ 64
Fits (abort batch_ts fence_seq) = (batch_ts < 2 ^ 64) × (fence_seq < 2 ^ 64)

take-append : (xs ys : List ℕ) → take (length xs) (xs ++ ys) ≡ xs
take-append [] ys = refl
take-append (x ∷ xs) ys = rw (take-append xs ys)

between-append : (xs rest : List ℕ) → between (xs ++ rest) rest ≡ xs
unfolding between
between-append xs rest =
    let n : length (xs ++ rest) - length rest ≡ length xs = omega (arith, length-append xs rest) in
    rw n (take-append xs rest)

body_fits-append :
    (type : ℕ) (payload rest : List ℕ)
    → body_fits (checksum (type ∷ payload)) type (payload ++ rest) rest ≡ true
unfolding body_fits
body_fits-append type payload rest = rw (between-append payload rest) ((==_iff _ _).1 refl)

write_record-append :
    (type : ℕ) (payload rest : List ℕ)
    → write_record type payload ++ rest
      ≡ write_u32 (checksum (type ∷ payload)) ++ (type ∷ (payload ++ rest))
unfolding write_record
write_record-append type payload rest =
    append_assoc (write_u32 (checksum (type ∷ payload))) (type ∷ payload) rest

read_step-write_record :
    (type : ℕ) (payload rest : List ℕ) (log : Log)
    → read_step (write_record type payload ++ rest) log
      ≡ read_payload (checksum (type ∷ payload)) (type ∷ (payload ++ rest)) log
unfolding read_step
read_step-write_record type payload rest log = rw (
  write_record-append type payload rest,
  read_u32-write_u32 (checksum (type ∷ payload)) (type ∷ (payload ++ rest))
      (checksum-lt (type ∷ payload)),
)

add_payload-append :
    (seq : ℕ) (m : Metadata) (rest : List ℕ)
    → add_payload seq m ++ rest
      ≡ write_u64 seq
        ++ (write_u64 m.entry_count
            ++ (write_u32 m.min_key_len
                ++ (write_u32 m.max_key_len
                    ++ (write_u64 m.file_size
                        ++ (write_u32 m.level
                            ++ (write_u16 (length m.filepath) ++ (m.filepath ++ rest)))))))
unfolding add_payload
add_payload-append seq m rest = simp append_assoc

-- The bytes of an add record behind its type, and what follows the record.
abbrev add_bytes : ℕ → Metadata → List ℕ → List ℕ
add_bytes seq m rest =
    write_u64 seq
    ++ (write_u64 m.entry_count
        ++ (write_u32 m.min_key_len
            ++ (write_u32 m.max_key_len
                ++ (write_u64 m.file_size
                    ++ (write_u32 m.level
                        ++ (write_u16 (length m.filepath) ++ (m.filepath ++ rest)))))))

read_add-add_bytes :
    (sum seq : ℕ) (m : Metadata) (rest : List ℕ) (log : Log)
    → FitsTable seq m
    → body_fits sum type_add_sstable (add_bytes seq m rest) rest ≡ true
    → read_add sum (add_bytes seq m rest) log ≡ some (rest, note (add seq m) log)
unfolding read_add note
read_add-add_bytes sum seq m rest log (h0, h1, h2, h3, h4, h5, h6) fits = rw (
  read_u64-write_u64 seq _ h0,
  read_u64-write_u64 m.entry_count _ h1,
  read_u32-write_u32 m.min_key_len _ h2,
  read_u32-write_u32 m.max_key_len _ h3,
  read_u64-write_u64 m.file_size _ h4,
  read_u32-write_u32 m.level _ h5,
  read_u16-write_u16 (length m.filepath) _ h6,
  split_at-append m.filepath rest,
  fits,
)

read_add-payload :
    (seq : ℕ) (m : Metadata) (rest : List ℕ) (log : Log)
    → FitsTable seq m
    → read_add (checksum (type_add_sstable ∷ add_payload seq m)) (add_payload seq m ++ rest) log
      ≡ some (rest, note (add seq m) log)
read_add-payload seq m rest log h = rw (add_payload-append seq m rest) (
    read_add-add_bytes _ seq m rest log h (
      rw (add_payload-append seq m rest) at
        (body_fits-append type_add_sstable (add_payload seq m) rest)))

read_remove-payload :
    (seq : ℕ) (rest : List ℕ) (log : Log)
    → seq < 2 ^ 64
    → read_remove (checksum (type_remove_sstable ∷ write_u64 seq)) (write_u64 seq ++ rest) log
      ≡ some (rest, note (remove seq) log)
unfolding read_remove note
read_remove-payload seq rest log h =
    rw (read_u64-write_u64 seq rest h, body_fits-append type_remove_sstable (write_u64 seq) rest)

read_fence-write_u64 :
    (batch_ts fence_seq : ℕ) (rest : List ℕ)
    → fence_seq < 2 ^ 64
    → read_fence batch_ts (write_u64 fence_seq ++ rest) ≡ (fence_seq, rest)
unfolding read_fence
read_fence-write_u64 batch_ts fence_seq rest h =
    rw (read_u64-write_u64 fence_seq rest h, read_fence)

read_abort-bytes :
    (sum batch_ts fence_seq : ℕ) (rest : List ℕ) (log : Log)
    → Fits (abort batch_ts fence_seq)
    → body_fits sum type_abort_batch (write_u64 batch_ts ++ (write_u64 fence_seq ++ rest)) rest
      ≡ true
    → read_abort sum (write_u64 batch_ts ++ (write_u64 fence_seq ++ rest)) log
      ≡ some (rest, note (abort batch_ts fence_seq) log)
unfolding read_abort note
read_abort-bytes sum batch_ts fence_seq rest log h fits = rw (
  read_u64-write_u64 batch_ts (write_u64 fence_seq ++ rest) h.0,
  read_fence-write_u64 batch_ts fence_seq rest h.1,
  fits,
)

read_abort-payload :
    (batch_ts fence_seq : ℕ) (rest : List ℕ) (log : Log)
    → Fits (abort batch_ts fence_seq)
    → read_abort
        (checksum (type_abort_batch ∷ abort_payload batch_ts fence_seq))
        (abort_payload batch_ts fence_seq ++ rest)
        log
      ≡ some (rest, note (abort batch_ts fence_seq) log)
read_abort-payload batch_ts fence_seq rest log h =
    let bytes : abort_payload batch_ts fence_seq ++ rest
        ≡ write_u64 batch_ts ++ (write_u64 fence_seq ++ rest) =
      unfold abort_payload in append_assoc (write_u64 batch_ts) (write_u64 fence_seq) rest in
    rw bytes (
      read_abort-bytes _ batch_ts fence_seq rest log h
        (rw bytes at (body_fits-append type_abort_batch (abort_payload batch_ts fence_seq) rest)))

pub read_step-encode :
    (r : Record) (rest : List ℕ) (log : Log)
    → Fits r
    → read_step (encode r ++ rest) log ≡ some (rest, note r log)
unfolding encode add_sstable remove_sstable add_abort_batch read_payload
read_step-encode (add seq m) rest log h =
    read_step-write_record type_add_sstable (add_payload seq m) rest log
    ∙ read_add-payload seq m rest log h
read_step-encode (remove seq) rest log h =
    read_step-write_record type_remove_sstable (write_u64 seq) rest log
    ∙ read_remove-payload seq rest log h
read_step-encode (abort t f) rest log h =
    read_step-write_record type_abort_batch (abort_payload t f) rest log
    ∙ read_abort-payload t f rest log h
