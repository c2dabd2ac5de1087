-- ===== src/Table/Open.antt =====
-- ReadMetadata on a file that Write wrote.
use keyvaluedb.Prelude.{
  ℕ, ◌+◌, ◌-◌, ◌^◌, ◌<◌, ◌≡◌, refl, ◌∙◌, true, false, Option, some, List, [], ◌∷◌, ◌++◌, append-nil,
  append_assoc, arith, ltb, leb, ◌==◌, length, take, drop, length-append,
}
use keyvaluedb.Bytes.{read_u32, write_u16, write_u32, write_u64}
use keyvaluedb.Bytes.Fields.{read_u16-write_u16, read_u32-write_u32}
use keyvaluedb.Crc32.{checksum}
use keyvaluedb.Crc32.Laws.{checksum-lt}
use keyvaluedb.Bloom.{BloomFilter}
use keyvaluedb.Table.Write.{
  sstable_magic, sstable_version, sstable_block_size, sstable_footer_magic, write_header,
  write_metadata, write_tail,
}
use keyvaluedb.Table.RoundTrip.{write_header-append}
use keyvaluedb.Table.Metadata.{
  TableMetadata, metadata, check_body, Header, read_header, read_footer, read_behind_header,
  read_metadata, read_body,
}
use keyvaluedb.Table.Parse.{
  Joins, IsShort, Storable, parsed, aborted_list, read_joined-write_u64, join_halves_same,
  read_body-write_metadata, take-append, drop-append,
}

abbrev header_of : ℕ → List ℕ → List ℕ → Header
header_of count min_key max_key = record {
  magic = sstable_magic;
  version = sstable_version;
  count = count;
  minkl = length min_key;
  maxkl = length max_key;
}

read_header-write_header :
    (count : ℕ) (min_key max_key rest : List ℕ)
    → count < 2 ^ 32
    → IsShort min_key
    → IsShort max_key
    → read_header (write_header count min_key max_key ++ rest)
      ≡ some (header_of count min_key max_key)
unfolding read_header
read_header-write_header count min_key max_key rest h short_min short_max =
    let r5 = write_u16 (length max_key) ++ rest in
    let r4 = write_u16 (length min_key) ++ r5 in
    let r3 = 0 ∷ 0 ∷ 0 ∷ 0 ∷ r4 in
    let r2 = write_u32 count ++ r3 in
    let r1 = write_u32 sstable_block_size ++ r2 in
    rw
      (
        write_header-append count min_key max_key rest,
        read_u32-write_u32 sstable_magic (write_u32 sstable_version ++ r1) (omega arith),
        read_u32-write_u32 sstable_version r1 (omega arith),
        read_u32-write_u32 sstable_block_size r2 (omega arith),
        read_u32-write_u32 count r3 h,
        read_u16-write_u16 (length min_key) r5 short_min,
        read_u16-write_u16 (length max_key) rest short_max,
      )
      refl

drop-back : (xs ys : List ℕ) (n : ℕ) → length ys ≡ n → drop (length (xs ++ ys) - n) (xs ++ ys) ≡ ys
drop-back xs ys n h =
    let cut : length (xs ++ ys) - n ≡ length xs = omega (arith, h, length-append xs ys) in
    rw (cut, drop-append xs ys) refl

take-back : (xs ys : List ℕ) (n : ℕ) → length ys ≡ n → take (length (xs ++ ys) - n) (xs ++ ys) ≡ xs
take-back xs ys n h =
    let cut : length (xs ++ ys) - n ≡ length xs = omega (arith, h, length-append xs ys) in
    rw (cut, take-append xs ys) refl

footer : ℕ → List ℕ
footer off = write_u64 off ++ write_u32 sstable_footer_magic

length-footer : (off : ℕ) → length (footer off) ≡ 12
unfolding footer write_u64 write_u32
length-footer off = refl

footer_bytes : (off : ℕ) → footer off ≡ write_u64 off ++ write_u32 sstable_footer_magic
unfolding footer
footer_bytes off = refl

read_footer_magic : read_u32 (write_u32 sstable_footer_magic) ≡ some (sstable_footer_magic, [])
unfolding read_u32 write_u32
read_footer_magic = refl

read_footer-append :
    (front : List ℕ) (off : ℕ)
    → Joins off
    → read_footer (front ++ footer off) ≡ some (off, sstable_footer_magic)
unfolding read_footer
read_footer-append front off h =
    rw
      (
        drop-back front (footer off) 12 (length-footer off),
        footer_bytes off,
        read_joined-write_u64 off (write_u32 sstable_footer_magic) h.0,
        join_halves_same off h,
        read_footer_magic,
      )
      refl

read_sum : (n : ℕ) → n < 2 ^ 32 → read_u32 (write_u32 n) ≡ some (n, [])
read_sum n h = rw append-nil at (read_u32-write_u32 n [] h)

==-same : (n : ℕ) → (n == n) ≡ true
==-same n = ground arith

check_body-checksum :
    (md : List ℕ) (meta : TableMetadata)
    → check_body (md ++ write_u32 (checksum md)) (some meta) ≡ metadata meta
unfolding check_body
check_body-checksum md meta =
    let sum = write_u32 (checksum md) in
    let long : leb 4 (length (md ++ sum)) ≡ true =
      unfold write_u32 in ground (arith, length-append md (write_u32 (checksum md))) in
    rw
      (
        long,
        drop-back md sum 4 (unfold write_u32 in refl),
        read_sum (checksum md) (checksum-lt md),
        take-back md sum 4 (unfold write_u32 in refl),
        ==-same (checksum md),
      )
      refl

read_behind_header-footer :
    (file : List ℕ) (h : Header) (off : ℕ)
    → read_footer file ≡ some (off, sstable_footer_magic)
    → ltb (length file) (off + 12) ≡ false
    → read_behind_header file h
      ≡ check_body (take (length file - off - 12) (drop off file)) (
          read_body h.count
            (length file)
            h.minkl
            h.maxkl
            (take (length file - off - 12) (drop off file)))
unfolding read_behind_header
read_behind_header-footer file h off e long = rw (read_behind_header, e, long) refl

read_metadata-header :
    (file : List ℕ) (count : ℕ) (min_key max_key : List ℕ)
    → read_header file ≡ some (header_of count min_key max_key)
    → ltb (length file) 36 ≡ false
    → read_metadata file ≡ read_behind_header file (header_of count min_key max_key)
unfolding read_metadata
read_metadata-header file count min_key max_key e long = rw (read_metadata, e, long) refl

-- The metadata that a table was written with comes back, where its lengths fit their fields and the
-- numbers keep the signs of their halves clear.
module _ (count : ℕ) (min_key max_key blocks : List ℕ) (bloom : BloomFilter)
    (aborted : Option (List ℕ)) (offsets : List ℕ) (keys : List (List ℕ)) where
  abbrev front : List ℕ
  front = write_header count min_key max_key ++ blocks

  abbrev region : List ℕ
  region = write_metadata min_key max_key bloom aborted offsets keys

  abbrev covered : List ℕ
  covered = region ++ write_u32 (checksum region)

  abbrev pub whole : List ℕ
  whole = front ++ write_tail region (length front)

  whole_parts : whole ≡ front ++ (covered ++ footer (length front))
  unfolding write_tail footer
  whole_parts = simp append_assoc

  length-whole : length whole ≡ length front + length covered + 12
  length-whole = rw whole_parts (
      omega (
        arith,
        length-append front (covered ++ footer (length front)),
        length-append covered (footer (length front)),
        length-footer (length front),
      ))

  buffer : take (length whole - length front - 12) (drop (length front) whole) ≡ covered
  buffer =
      let cut : length whole - length front - 12 ≡ length (covered ++ footer (length front)) - 12 =
        omega (
          arith,
          length-whole,
          length-append covered (footer (length front)),
          length-footer (length front),
        ) in
      rw
        (
          cut,
          whole_parts,
          drop-append front (covered ++ footer (length front)),
          take-back covered (footer (length front)) 12 (length-footer (length front)),
        )
        refl

  footer_of : Joins (length front) → read_footer whole ≡ some (length front, sstable_footer_magic)
  footer_of place =
      rw (whole_parts, ← append_assoc front covered (footer (length front)))
        (read_footer-append (front ++ covered) (length front) place)

  long_enough : ltb (length whole) (length front + 12) ≡ false
  long_enough = ground (arith, length-whole)

  header_read :
      count < 2 ^ 32
      → IsShort min_key
      → IsShort max_key
      → read_header whole ≡ some (header_of count min_key max_key)
  header_read fits short_min short_max =
      rw
        (append_assoc (write_header count min_key max_key) blocks
          (write_tail region (length front)))
        (read_header-write_header count min_key max_key _ fits short_min short_max)

  length-header : length (write_header count min_key max_key) ≡ 24
  unfolding write_header write_u32 write_u16
  length-header = refl

  big_enough : ltb (length whole) 36 ≡ false
  big_enough = ground (
    arith,
    length-whole,
    length-header,
    length-append (write_header count min_key max_key) blocks,
  )

  read_behind_header-whole :
      Joins (length front)
      → Storable min_key max_key bloom aborted offsets keys
      → read_behind_header whole (header_of count min_key max_key)
        ≡ metadata
            (parsed count (length whole) min_key max_key bloom (aborted_list aborted) offsets keys)
  read_behind_header-whole place h =
      read_behind_header-footer whole (header_of count min_key max_key) (length front)
        (footer_of place) long_enough
      ∙ rw
          (
            buffer,
            read_body-write_metadata count (length whole) min_key max_key bloom aborted offsets keys
                (write_u32 (checksum region)) h,
          )
          (check_body-checksum region _)

  pub read_metadata-write_tail :
      count < 2 ^ 32
      → IsShort min_key
      → IsShort max_key
      → Joins (length front)
      → Storable min_key max_key bloom aborted offsets keys
      → read_metadata whole
        ≡ metadata
            (parsed count (length whole) min_key max_key bloom (aborted_list aborted) offsets keys)
  read_metadata-write_tail fits short_min short_max place h =
      read_metadata-header whole count min_key max_key (header_read fits short_min short_max)
        big_enough
      ∙ read_behind_header-whole place h
