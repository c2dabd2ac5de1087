-- ===== src/Manifest/Loop.antt =====
-- The manifest's loop on the bytes of a list of records.
use keyvaluedb.Prelude.{
  ℕ, zero, suc, ◌≤◌, ◌≡◌, refl, none, List, [], ◌∷◌, ◌++◌, length, All, append_assoc, length-append,
  arith,
}
use keyvaluedb.Bytes.{read_u32, write_u32, write_u64}
use keyvaluedb.Manifest.Format.{
  type_add_sstable, type_remove_sstable, type_abort_batch, write_record, add_payload, abort_payload,
  add_sstable, remove_sstable, add_abort_batch,
}
use keyvaluedb.Manifest.Catalog.{Log, read_step, read_loop, read_file}
use keyvaluedb.Manifest.Records.{
  Record, add, remove, abort, encode, encode_all, note, note_all, Fits, read_step-encode,
}

-- The cursor stands where no record can be read.
abbrev pub Ends : List ℕ → Type 0
Ends tail = (log : Log) → read_step tail log ≡ none

pub Ends-nil : Ends []
unfolding read_step read_u32
Ends-nil log = refl

read_loop-encode_all :
    (fuel : ℕ) (rs : List Record) (tail : List ℕ) (log : Log)
    → length rs ≤ fuel
    → All Fits rs
    → Ends tail
    → read_loop fuel (encode_all rs ++ tail) log ≡ note_all rs log
unfolding read_loop note_all encode_all
read_loop-encode_all zero [] tail log h fit ends = refl
read_loop-encode_all (suc fuel) [] tail log h fit ends = rw (ends log, read_loop)
read_loop-encode_all zero (r ∷ rs) tail log h fit ends = absurd (omega arith)
read_loop-encode_all (suc fuel) (r ∷ rs) tail log h fit ends =
    rw
      (
        append_assoc (encode r) (encode_all rs) tail,
        read_step-encode r (encode_all rs ++ tail) log fit.0,
        read_loop,
      )
      (read_loop-encode_all fuel rs tail (note r log) (omega arith) fit.1 ends)

length-write_record : (type : ℕ) (payload : List ℕ) → 5 ≤ length (write_record type payload)
unfolding write_record write_u32
length-write_record type payload = omega arith

length-encode : (r : Record) → 5 ≤ length (encode r)
unfolding encode add_sstable remove_sstable add_abort_batch
length-encode (add seq m) = length-write_record type_add_sstable (add_payload seq m)
length-encode (remove seq) = length-write_record type_remove_sstable (write_u64 seq)
length-encode (abort t f) = length-write_record type_abort_batch (abort_payload t f)

length-le-encode_all : (rs : List Record) → length rs ≤ length (encode_all rs)
unfolding encode_all
length-le-encode_all [] = omega arith
length-le-encode_all (r ∷ rs) =
    omega
      (arith, length-le-encode_all rs, length-encode r, length-append (encode r) (encode_all rs))

-- The empty log.
abbrev pub fresh : Log
fresh = record { results = []; removed = []; aborts = [] }

-- Reading the records of a file, up to where no record can be read, gives them all, in order.
pub read_file-encode_all :
    (rs : List Record) (tail : List ℕ)
    → All Fits rs
    → Ends tail
    → read_file (encode_all rs ++ tail) ≡ note_all rs fresh
unfolding read_file
read_file-encode_all rs tail fit ends =
    read_loop-encode_all (length (encode_all rs ++ tail)) rs tail fresh
      (omega (arith, length-append (encode_all rs) tail, length-le-encode_all rs)) fit ends
