-- ===== src/Table/Parse.antt =====
-- The metadata of a table, parsed (`Table/Metadata`) from what Write wrote.
use keyvaluedb.Prelude.{
  ◌≤◌, contains, insert, ℕ, ◌+◌, ◌-◌, ◌/◌, ◌%◌, ◌^◌, ◌<◌, ◌≡◌, refl, sym, ap, false, Option, none,
  some, List, [], ◌∷◌, ◌++◌, append-nil, append_assoc, arith, ◌==◌, if◌then◌else◌, lt→ltb, length,
  take, drop, length-append, All,
}
use keyvaluedb.Bytes.{write_u16, write_u32, write_u64}
use keyvaluedb.Bytes.Fields.{split_at-append, read_u16-write_u16, read_u32-write_u32}
use keyvaluedb.Bloom.{BloomFilter, from_raw}
use keyvaluedb.Table.Write.{write_numbers, write_first_keys, write_aborted, write_metadata}
use keyvaluedb.Table.Chunks.{take_all}
use keyvaluedb.Table.Metadata.{
  TableMetadata, widen, join_halves, read_joined, read_joined_all, insert_all, read_first_keys,
  least, greatest, raw_bloom, take_bloom, read_bloom, read_body,
}

-- A number whose low half keeps its sign clear comes back as it was.
abbrev pub Joins : ℕ → Type 0
Joins n = (n < 2 ^ 64) × (n % 2 ^ 32 < 2 ^ 31)

write_u64_halves : (n : ℕ) → write_u64 n ≡ write_u32 (n % 2 ^ 32) ++ write_u32 (n / 2 ^ 32)
unfolding write_u64 write_u32
write_u64_halves n =
    let e0 : n % 2 ^ 32 % 256 ≡ n % 256 = omega arith in
    let e1 : n % 2 ^ 32 / 2 ^ 8 % 256 ≡ n / 2 ^ 8 % 256 = omega arith in
    let e2 : n % 2 ^ 32 / 2 ^ 16 % 256 ≡ n / 2 ^ 16 % 256 = omega arith in
    let e3 : n % 2 ^ 32 / 2 ^ 24 % 256 ≡ n / 2 ^ 24 % 256 = omega arith in
    let e5 : n / 2 ^ 32 / 2 ^ 8 % 256 ≡ n / 2 ^ 40 % 256 = omega arith in
    let e6 : n / 2 ^ 32 / 2 ^ 16 % 256 ≡ n / 2 ^ 48 % 256 = omega arith in
    let e7 : n / 2 ^ 32 / 2 ^ 24 % 256 ≡ n / 2 ^ 56 % 256 = omega arith in
    rw (e0, e1, e2, e3, e5, e6, e7) refl

pub read_joined-write_u64 :
    (n : ℕ) (rest : List ℕ)
    → n < 2 ^ 64
    → read_joined (write_u64 n ++ rest) ≡ some (join_halves (n % 2 ^ 32) (n / 2 ^ 32), rest)
unfolding read_joined
read_joined-write_u64 n rest h =
    rw
      (
        write_u64_halves n,
        append_assoc,
        read_u32-write_u32 (n % 2 ^ 32) (write_u32 (n / 2 ^ 32) ++ rest) (omega arith),
        read_u32-write_u32 (n / 2 ^ 32) rest (omega arith),
      )
      refl

pub join_halves_same : (n : ℕ) → Joins n → join_halves (n % 2 ^ 32) (n / 2 ^ 32) ≡ n
unfolding join_halves widen
join_halves_same n h = rw (lt→ltb (n % 2 ^ 32) (2 ^ 31) h.1) (omega arith)

pub read_joined_all-write_numbers :
    (ns : List ℕ) (rest : List ℕ)
    → All Joins ns
    → read_joined_all (length ns) (write_numbers ns ++ rest) ≡ some (ns, rest)
unfolding read_joined_all write_numbers
read_joined_all-write_numbers [] rest h = refl
read_joined_all-write_numbers (n ∷ ns) rest h =
    rw
      (
        append_assoc,
        read_joined-write_u64 n (write_numbers ns ++ rest) h.0.0,
        join_halves_same n h.0,
        read_joined_all-write_numbers ns rest h.1,
      )
      refl

-- The places of the keys in their buffer, and their lengths.
unfoldable pub places_of : ℕ → List (List ℕ) → List ℕ
places_of n [] = []
places_of n (k ∷ ks) = n ∷ places_of (n + 2 + length k) ks

unfoldable pub lengths_of : List (List ℕ) → List ℕ
lengths_of [] = []
lengths_of (k ∷ ks) = length k ∷ lengths_of ks

abbrev pub IsShort : List ℕ → Type 0
IsShort k = length k < 2 ^ 16

pub write_first_keys-cons :
    (k : List ℕ) (ks : List (List ℕ)) (rest : List ℕ)
    → IsShort k
    → write_first_keys (k ∷ ks) ++ rest
      ≡ write_u16 (length k) ++ (k ++ (write_first_keys ks ++ rest))
unfolding write_first_keys
write_first_keys-cons k ks rest h =
    rw (take_all (length k % 2 ^ 16) k (omega arith)) (simp append_assoc)

pub length-write_first_keys :
    (k : List ℕ) (ks : List (List ℕ))
    → IsShort k
    → length (write_first_keys (k ∷ ks)) ≡ 2 + length k + length (write_first_keys ks)
unfolding write_first_keys write_u16
length-write_first_keys k ks h =
    rw (take_all (length k % 2 ^ 16) k (omega arith))
      (omega (arith, length-append k (write_first_keys ks)))

pub read_first_keys-write_first_keys :
    (ks : List (List ℕ)) (place : ℕ) (rest : List ℕ)
    → All IsShort ks
    → place + length (write_first_keys ks) < 2 ^ 32
    → read_first_keys (length ks) place (write_first_keys ks ++ rest)
      ≡ some (places_of place ks, lengths_of ks, rest)
unfolding read_first_keys places_of lengths_of
read_first_keys-write_first_keys [] place rest h small = unfold write_first_keys in refl
read_first_keys-write_first_keys (k ∷ ks) place rest h small =
    let size = length-write_first_keys k ks h.0 in
    let same : place % 2 ^ 32 ≡ place = omega (arith, small) in
    rw
      (
        write_first_keys-cons k ks rest h.0,
        read_u16-write_u16 (length k) (k ++ (write_first_keys ks ++ rest)) h.0,
        split_at-append k (write_first_keys ks ++ rest),
        read_first_keys-write_first_keys ks (place + 2 + length k) rest h.1
            (omega (arith, small, size)),
        same,
      )
      refl

-- A filter with bytes, all of whose numbers fit their fields.
pub record IsStored (f : BloomFilter) : Type 0 where
  pub bits_fit : f.bits < 2 ^ 32
  pub some_bits : 0 < f.bits
  pub count_fits : f.hash_count < 2 ^ 32
  pub size_is : length f.bytes ≡ (f.bits + 7) / 8

pub take-append : (xs ys : List ℕ) → take (length xs) (xs ++ ys) ≡ xs
take-append [] ys = refl
take-append (x ∷ xs) ys = ap (λ l. x ∷ l) (take-append xs ys)

pub read_bloom-append :
    (f : BloomFilter) (rest : List ℕ)
    → IsStored f
    → read_bloom (
        write_u32 f.bits
        ++ (write_u32 f.hash_count ++ (write_u32 (length f.bytes) ++ (f.bytes ++ rest))))
      ≡ some (f, rest)
unfolding read_bloom take_bloom raw_bloom from_raw
read_bloom-append f rest h =
    let r2 = write_u32 (length f.bytes) ++ (f.bytes ++ rest) in
    let positive : (length f.bytes == 0) ≡ false = ground (arith, h.size_is, h.some_bits) in
    rw
      (
        read_u32-write_u32 f.bits (write_u32 f.hash_count ++ r2) h.bits_fit,
        read_u32-write_u32 f.hash_count r2 h.count_fits,
        read_u32-write_u32 (length f.bytes) (f.bytes ++ rest)
            (omega (arith, h.size_is, h.bits_fit)),
        positive,
        ← h.size_is,
        split_at-append f.bytes rest,
        take-append f.bytes rest,
      )
      refl

-- The set of aborted batches: none, or a list that fits.
abbrev pub aborted_list : Option (List ℕ) → List ℕ
aborted_list none = []
aborted_list (some ts) = ts

aborted_count :
    (aborted : Option (List ℕ))
    → write_aborted aborted
      ≡ write_u32 (length (aborted_list aborted)) ++ write_numbers (aborted_list aborted)
unfolding write_aborted write_numbers
aborted_count none = sym (append-nil (write_u32 0))
aborted_count (some ts) = refl

pub drop-append : (xs ys : List ℕ) → drop (length xs) (xs ++ ys) ≡ ys
drop-append [] ys = refl
drop-append (x ∷ xs) ys = drop-append xs ys

-- What ReadMetadata gives for these parts.
unfoldable pub parsed :
    ℕ → ℕ → List ℕ → List ℕ → BloomFilter → List ℕ → List ℕ → List (List ℕ) → TableMetadata
parsed entry_count file_size min_key max_key bloom aborted offsets keys =
    let shortest = least 0xFFFFFFFF (lengths_of keys) in
    record {
      entry_count = widen entry_count;
      file_size = file_size;
      min_key = min_key;
      max_key = max_key;
      min_key_len = if shortest == 0xFFFFFFFF then 0 else shortest;
      max_key_len = greatest 0 (lengths_of keys);
      bloom = bloom;
      block_offsets = offsets;
      block_first_key_buf = write_first_keys keys;
      first_key_offsets = places_of 0 keys;
      aborted_batch_ts = insert_all aborted [];
    }

pub record Storable (min_key max_key : List ℕ) (bloom : BloomFilter) (aborted : Option (List ℕ))
    (offsets : List ℕ) (keys : List (List ℕ)) : Type 0 where
  pub filter : IsStored bloom
  pub aborted_fits : length (aborted_list aborted) < 2 ^ 32
  pub aborted_joins : All Joins (aborted_list aborted)
  pub blocks_fit : length offsets < 2 ^ 32
  pub offsets_join : All Joins offsets
  pub same_blocks : length offsets ≡ length keys
  pub keys_fit : All IsShort keys
  pub index_fits : length (write_first_keys keys) < 2 ^ 32

take-front : (xs rest : List ℕ) → take (length (xs ++ rest) - length rest) (xs ++ rest) ≡ xs
take-front xs rest =
    let cut : length (xs ++ rest) - length rest ≡ length xs =
      omega (arith, length-append xs rest) in
    rw (cut, take-append xs rest) refl

write_metadata-append :
    (min_key max_key : List ℕ) (bloom : BloomFilter) (aborted : Option (List ℕ)) (offsets : List ℕ)
    (keys : List (List ℕ)) (rest : List ℕ)
    → write_metadata min_key max_key bloom aborted offsets keys ++ rest
      ≡ min_key
        ++ (max_key
            ++ (write_u32 bloom.bits
                ++ (write_u32 bloom.hash_count
                    ++ (write_u32 (length bloom.bytes)
                        ++ (bloom.bytes
                            ++ (write_u32 (length (aborted_list aborted))
                                ++ (write_numbers (aborted_list aborted)
                                    ++ (write_u32 (length offsets)
                                        ++ (write_numbers offsets
                                            ++ (write_first_keys keys ++ rest))))))))))
unfolding write_metadata
write_metadata-append min_key max_key bloom aborted offsets keys rest =
    rw (aborted_count aborted) (simp append_assoc)

pub read_body-write_metadata :
    (entry_count file_size : ℕ) (min_key max_key : List ℕ) (bloom : BloomFilter)
    (aborted : Option (List ℕ)) (offsets : List ℕ) (keys : List (List ℕ)) (rest : List ℕ)
    → Storable min_key max_key bloom aborted offsets keys
    → read_body entry_count file_size
        (length min_key)
        (length max_key)
        (write_metadata min_key max_key bloom aborted offsets keys ++ rest)
      ≡ some
          (parsed entry_count file_size min_key max_key bloom (aborted_list aborted) offsets keys)
unfolding read_body parsed
read_body-write_metadata entry_count file_size min_key max_key bloom aborted offsets keys rest h =
    let ts = aborted_list aborted in
    let r4 = write_first_keys keys ++ rest in
    let r3 = write_numbers offsets ++ r4 in
    let r2 = write_u32 (length offsets) ++ r3 in
    let r1 = write_numbers ts ++ r2 in
    let r0 = write_u32 (length ts) ++ r1 in
    let b =
      write_u32 bloom.bits
      ++ (write_u32 bloom.hash_count ++ (write_u32 (length bloom.bytes) ++ (bloom.bytes ++ r0))) in
    rw
      (
        write_metadata-append min_key max_key bloom aborted offsets keys rest,
        split_at-append min_key (max_key ++ b),
        split_at-append max_key b,
        read_bloom-append bloom r0 h.filter,
        read_u32-write_u32 (length ts) r1 h.aborted_fits,
        read_joined_all-write_numbers ts r2 h.aborted_joins,
        read_u32-write_u32 (length offsets) r3 h.blocks_fit,
        read_joined_all-write_numbers offsets r4 h.offsets_join,
        h.same_blocks,
        read_first_keys-write_first_keys keys 0 rest h.keys_fit (omega (arith, h.index_fits)),
        take-front (write_first_keys keys) rest,
      )
      refl

-- The timestamp of an aborted batch whose low 32 bits have their sign set, but for those whose high
-- 32 bits are all set, is read as another one, so that the set does not hold it.
pub read_joined_all-signed :
    (ts : ℕ) (rest : List ℕ)
    → ts + 2 ^ 32 < 2 ^ 64
    → 2 ^ 31 ≤ ts % 2 ^ 32
    → (back : ℕ) × (read_joined_all 1 (write_numbers (ts ∷ []) ++ rest) ≡ some (back ∷ [], rest))
      × (contains ts (insert_all (back ∷ []) []) ≡ false)
unfolding read_joined_all write_numbers insert_all insert
read_joined_all-signed ts rest small signed = (
  join_halves (ts % 2 ^ 32) (ts / 2 ^ 32),
  rw (append-nil, read_joined-write_u64 ts rest (omega arith)) refl,
  unfold join_halves widen in ground arith,
)
