-- ===== src/Table/Chunks.antt =====
-- A block read back by the stream, and a file of blocks.
use keyvaluedb.Prelude.{
  ℕ, zero, suc, ◌+◌, ◌%◌, ◌^◌, ◌≤◌, ◌<◌, ◌≡◌, refl, ap, Bool, true, false, List, [], ◌∷◌, ◌++◌, map,
  append-nil, append_assoc, arith, ltb, ◌==◌, if◌then◌else◌, lt→ltb, length, take, length-append,
  All,
}
use keyvaluedb.Types.{KeyValuePair}
use keyvaluedb.Bytes.{write_u32, write_u64}
use keyvaluedb.Crc32.{checksum}
use keyvaluedb.Crc32.Laws.{checksum-lt}
use keyvaluedb.Table.Stream.{get, get_u32, get_bytes-append, get_u32-write_u32, get_u64-write_u64}
use keyvaluedb.Table.Builder.{
  serialize, wire_size, key_of, value_of, write_entry, write_entries, frame,
}
use keyvaluedb.Table.Read.{entries, get_entry, get_entries, get_block, read_blocks}

-- A block of this entry alone can state its size.
abbrev pub FitsBlock : KeyValuePair → Type 0
FitsBlock kv = (21 + length kv.key + length kv.value < 2 ^ 32) × (kv.timestamp < 2 ^ 64)

pub take_all {ℓ} : {A : Type ℓ} (n : ℕ) (xs : List A) → n ≡ length xs → take n xs ≡ xs
take_all zero [] h = refl
take_all zero (x ∷ xs) h = absurd (omega arith)
take_all (suc n) [] h = refl
take_all (suc n) (x ∷ xs) h = ap (λ l. x ∷ l) (take_all n xs (omega arith))

module _ (kv : KeyValuePair) (fits : FitsBlock kv) where
  pub key_of-serialize : key_of (serialize kv) ≡ kv.key
  unfolding key_of serialize
  key_of-serialize = take_all (length kv.key % 2 ^ 32) kv.key (omega (arith, fits.0))

  pub value_of-serialize : value_of (serialize kv) ≡ kv.value
  unfolding value_of serialize
  value_of-serialize = take_all (length kv.value % 2 ^ 32) kv.value (omega (arith, fits.0))

  key_mod : length kv.key % 2 ^ 32 ≡ length kv.key
  key_mod = omega (arith, fits.0)

  value_mod : length kv.value % 2 ^ 32 ≡ length kv.value
  value_mod = omega (arith, fits.0)

  pub write_entry-serialize :
      (rest : List ℕ)
      → write_entry (serialize kv) ++ rest
        ≡ write_u32 (length kv.key)
          ++ (kv.key
              ++ (write_u32 (length kv.value)
                  ++ (kv.value
                      ++ (write_u64 kv.timestamp ++ ((if kv.is_tombstone then 1 else 0) ∷ rest)))))
  write_entry-serialize rest =
      unfold write_entry in
      rw (key_of-serialize, value_of-serialize)
        (unfold serialize in rw (key_mod, value_mod) (simp append_assoc))

  pub length-write_entry : length (write_entry (serialize kv)) ≡ wire_size (serialize kv)
  length-write_entry =
      unfold write_entry in
      rw (key_of-serialize, value_of-serialize)
        (unfold wire_size serialize write_u32 write_u64 in
          rw (length-append kv.key _, length-append kv.value _, key_mod, value_mod) (omega arith))

pub flag_of : (b : Bool) → ((if b then 1 else 0) % 2 == 1) ≡ b
flag_of true = refl
flag_of false = refl

pub get_entry-write_entry :
    (kv : KeyValuePair) (rest : List ℕ)
    → FitsBlock kv
    → get_entry (write_entry (serialize kv) ++ rest) ≡ (kv, rest)
unfolding get_entry get
get_entry-write_entry kv rest fits =
    let r4 = (if kv.is_tombstone then 1 else 0) ∷ rest in
    let r3 = write_u64 kv.timestamp ++ r4 in
    let r2 = kv.value ++ r3 in
    let r1 = write_u32 (length kv.value) ++ r2 in
    rw
      (
        write_entry-serialize kv fits rest,
        get_u32-write_u32 (length kv.key) (kv.key ++ r1) (omega (arith, fits.0)),
        get_bytes-append kv.key r1,
        get_u32-write_u32 (length kv.value) r2 (omega (arith, fits.0)),
        get_bytes-append kv.value r3,
        get_u64-write_u64 kv.timestamp r4 fits.1,
        flag_of kv.is_tombstone,
      )
      refl

pub get_entries-write_entries :
    (kvs : List KeyValuePair) (rest : List ℕ)
    → All FitsBlock kvs
    → get_entries (length kvs) (write_entries (map serialize kvs) ++ rest) ≡ kvs
unfolding get_entries write_entries
get_entries-write_entries [] rest fits = refl
get_entries-write_entries (kv ∷ kvs) rest fits =
    let more = write_entries (map serialize kvs) ++ rest in
    rw (append_assoc, get_entry-write_entry kv more fits.0)
      (ap (λ l. kv ∷ l) (get_entries-write_entries kvs rest fits.1))

pub frame-append :
    (bytes rest : List ℕ)
    → frame bytes ++ rest
      ≡ write_u32 (checksum bytes) ++ (0 ∷ (write_u32 (length bytes) ++ (bytes ++ rest)))
unfolding frame
frame-append bytes rest = simp append_assoc

pub get_block-frame :
    (bytes rest : List ℕ) → length bytes < 2 ^ 32 → get_block (frame bytes ++ rest) ≡ (bytes, rest)
unfolding get_block
get_block-frame bytes rest h =
    rw
      (
        frame-append bytes rest,
        get_u32-write_u32 (checksum bytes) (0 ∷ (write_u32 (length bytes) ++ (bytes ++ rest)))
            (checksum-lt bytes),
        get_u32-write_u32 (length bytes) (bytes ++ rest) h,
        get_bytes-append bytes rest,
      )
      refl

-- The bytes of a block of these entries.
unfoldable pub chunk_bytes : List KeyValuePair → List ℕ
chunk_bytes c = write_u32 (length c) ++ write_entries (map serialize c)

unfoldable pub chunks_bytes : List (List KeyValuePair) → List ℕ
chunks_bytes [] = []
chunks_bytes (c ∷ cs) = frame (chunk_bytes c) ++ chunks_bytes cs

unfoldable pub concat : List (List KeyValuePair) → List KeyValuePair
concat [] = []
concat (c ∷ cs) = c ++ concat cs

-- A block holds an entry, and its size and its entries' fit their fields.
pub record IsChunk (c : List KeyValuePair) : Type 0 where
  pub some_entry : 0 < length c
  pub short : length (chunk_bytes c) < 2 ^ 32
  pub fits : All FitsBlock c

pub length-write_entries :
    (kvs : List KeyValuePair)
    → All FitsBlock kvs
    → length kvs ≤ length (write_entries (map serialize kvs))
unfolding write_entries wire_size
length-write_entries [] fits = omega arith
length-write_entries (kv ∷ kvs) fits =
    rw (length-append (write_entry (serialize kv)) (write_entries (map serialize kvs)))
      (omega (arith, length-write_entries kvs fits.1, length-write_entry kv fits.0))

pub length-chunk_bytes :
    (c : List KeyValuePair) → length (chunk_bytes c) ≡ 4 + length (write_entries (map serialize c))
unfolding chunk_bytes write_u32
length-chunk_bytes c = omega arith

pub IsChunk-count : (c : List KeyValuePair) → IsChunk c → length c < 2 ^ 32
IsChunk-count c h = omega (arith, length-write_entries c h.fits, h.short, length-chunk_bytes c)

ltb_none : (n : ℕ) → ltb n (n + 0) ≡ false
ltb_none n = ground arith

get_u32-chunk_bytes :
    (c : List KeyValuePair)
    → IsChunk c
    → get_u32 (chunk_bytes c) ≡ (length c, write_entries (map serialize c))
get_u32-chunk_bytes c h =
    unfold chunk_bytes in
    get_u32-write_u32 (length c) (write_entries (map serialize c)) (IsChunk-count c h)

-- The loop over the blocks reads a file of blocks to the end.
pub read_blocks-chunks_bytes :
    (fuel : ℕ) (chunks : List (List KeyValuePair)) (rest : List ℕ) (found : List KeyValuePair)
    → All IsChunk chunks
    → length chunks ≤ fuel
    → read_blocks fuel (length found + length (concat chunks)) (chunks_bytes chunks ++ rest) found
      ≡ entries (found ++ concat chunks)
unfolding read_blocks concat chunks_bytes
read_blocks-chunks_bytes zero [] rest found hs h = rw (ltb_none (length found), append-nil) refl
read_blocks-chunks_bytes (suc n) [] rest found hs h = rw (ltb_none (length found), append-nil) refl
read_blocks-chunks_bytes zero (c ∷ chunks) rest found hs h = absurd (omega arith)
read_blocks-chunks_bytes (suc n) (c ∷ chunks) rest found hs h =
    let more = read_blocks-chunks_bytes n chunks rest (found ++ c) hs.1 (omega arith) in
    let read = rw append-nil at (get_entries-write_entries c [] hs.0.fits) in
    let total : length found + length (c ++ concat chunks)
        ≡ length (found ++ c) + length (concat chunks) =
      omega (arith, length-append c (concat chunks), length-append found c) in
    rw
      (
        total,
        lt→ltb (length found) (length (found ++ c) + length (concat chunks))
            (omega (arith, length-append found c, hs.0.some_entry)),
        append_assoc,
        get_block-frame (chunk_bytes c) (chunks_bytes chunks ++ rest) hs.0.short,
        get_u32-chunk_bytes c hs.0,
        read,
        more,
        append_assoc,
      )
      refl
