-- ===== src/Table/Metadata.antt =====
-- SSTable::ReadMetadata with no cache (src/sstable.cpp), on the bytes of a file that opens.
use keyvaluedb.Prelude.{
  ◌%◌, ℕ, zero, suc, ◌+◌, ◌-◌, ◌*◌, ◌/◌, ◌^◌, not, Option, none, some, List, [], ◌∷◌, ltb, leb,
  ◌==◌, if◌then◌else◌, insert, ◌>>=◌, length, take, drop,
}
use keyvaluedb.Bytes.{split_at, read_u16, read_u32}
use keyvaluedb.Crc32.{checksum}
use keyvaluedb.Bloom.{BloomFilter, from_raw}
use keyvaluedb.Table.Write.{sstable_magic, sstable_version, sstable_footer_magic}

-- The fields of SSTable::Metadata that come from a file
pub record TableMetadata : Type 0 where
  pub entry_count : ℕ
  pub file_size : ℕ
  pub min_key : List ℕ
  pub max_key : List ℕ
  pub min_key_len : ℕ
  pub max_key_len : ℕ
  pub bloom : BloomFilter
  pub block_offsets : List ℕ
  pub block_first_key_buf : List ℕ
  pub first_key_offsets : List ℕ
  pub aborted_batch_ts : List ℕ

-- An exception, a read outside the buffer, or the metadata
pub data MetadataResult : Type 0 where
  refused : MetadataResult
  out_of_bounds : MetadataResult
  metadata : TableMetadata → MetadataResult

-- `r32` gives an `int`, which 64 bits extend by its sign.
unfoldable pub widen : ℕ → ℕ
widen n = if ltb n (2 ^ 31) then n else n + 2 ^ 64 - 2 ^ 32

-- `uint64_t(r32(p))|(uint64_t(r32(p+4))<<32)`: a low half with its sign set covers the high one.
unfoldable pub join_halves : ℕ → ℕ → ℕ
join_halves low high = if ltb low (2 ^ 31) then low + high * 2 ^ 32 else widen low

unfoldable pub read_joined : List ℕ → Option (ℕ × List ℕ)
read_joined p = do (low, p1) ← read_u32 p; (high, p2) ← read_u32 p1; some (join_halves low high, p2)

unfoldable pub read_joined_all : ℕ → List ℕ → Option (List ℕ × List ℕ)
read_joined_all zero p = some ([], p)
read_joined_all (suc n) p = do
  (v, p1) ← read_joined p
  (vs, p2) ← read_joined_all n p1
  some (v ∷ vs, p2)

unfoldable pub insert_all : List ℕ → List ℕ → List ℕ
insert_all [] s = s
insert_all (v ∷ vs) s = insert_all vs (insert v s)

-- The loop over the first keys: their places in their buffer, their lengths and what follows
unfoldable pub read_first_keys : ℕ → ℕ → List ℕ → Option (List ℕ × List ℕ × List ℕ)
read_first_keys zero place p = some ([], [], p)
read_first_keys (suc n) place p = do
  (kl, p1) ← read_u16 p
  (key, p2) ← split_at kl p1
  (places, lens, p3) ← read_first_keys n (place + 2 + kl) p2
  some (place % 2 ^ 32 ∷ places, kl ∷ lens, p3)

unfoldable pub least : ℕ → List ℕ → ℕ
least m [] = m
least m (n ∷ ns) = least (if ltb n m then n else m) ns

unfoldable pub greatest : ℕ → List ℕ → ℕ
greatest m [] = m
greatest m (n ∷ ns) = greatest (if ltb m n then n else m) ns

-- FromRaw, where the filter has bytes; `p` points behind its three numbers.
unfoldable pub raw_bloom : ℕ → ℕ → ℕ → List ℕ → Option (BloomFilter × List ℕ)
raw_bloom bb bh bz p = do
  (bytes, rest) ← split_at ((bb + 7) / 8) p
  (raw, behind) ← split_at bz p
  some (from_raw p bb bh, behind)

unfoldable pub take_bloom : ℕ → ℕ → ℕ → List ℕ → Option (BloomFilter × List ℕ)
take_bloom bb bh bz p =
    if bz == 0
    then some (record { bits = 0; hash_count = 0; bytes = [] }, p)
    else raw_bloom bb bh bz p

unfoldable pub read_bloom : List ℕ → Option (BloomFilter × List ℕ)
read_bloom p = do
  (bb, p1) ← read_u32 p
  (bh, p2) ← read_u32 p1
  (bz, p3) ← read_u32 p2
  take_bloom bb bh bz p3

-- The part of the buffer before its checksum, of a file with these numbers in its header
unfoldable pub read_body : ℕ → ℕ → ℕ → ℕ → List ℕ → Option TableMetadata
read_body entry_count file_size minkl maxkl buf = do
  (min_key, p1) ← split_at minkl buf
  (max_key, p2) ← split_at maxkl p1
  (bloom, p3) ← read_bloom p2
  (aborted_count, p4) ← read_u32 p3
  (aborted, p5) ← read_joined_all aborted_count p4
  (bc, p6) ← read_u32 p5
  (offsets, p7) ← read_joined_all bc p6
  (places, lens, p8) ← read_first_keys bc 0 p7
  let shortest = least 0xFFFFFFFF lens
  some (record {
    entry_count = widen entry_count;
    file_size = file_size;
    min_key = min_key;
    max_key = max_key;
    min_key_len = if shortest == 0xFFFFFFFF then 0 else shortest;
    max_key_len = greatest 0 lens;
    bloom = bloom;
    block_offsets = offsets;
    block_first_key_buf = take (length p7 - length p8) p7;
    first_key_offsets = places;
    aborted_batch_ts = insert_all aborted [];
  })

-- The test of MetaCRC, by the last four bytes of the buffer
unfoldable pub check_body : List ℕ → Option TableMetadata → MetadataResult
check_body buf body =
    let size = length buf in
    let covered = take (size - 4) buf in
    elim body [
      | none ↦ out_of_bounds
      | some meta ↦
          if leb 4 size
          then (elim (read_u32 (drop (size - 4) buf)) [
            | none ↦ out_of_bounds
            | some (sum, more) ↦ if checksum covered == sum then metadata meta else refused
          ])
          else metadata meta
    ]

pub record Header : Type 0 where
  pub magic : ℕ
  pub version : ℕ
  pub count : ℕ
  pub minkl : ℕ
  pub maxkl : ℕ

unfoldable pub read_header : List ℕ → Option Header
read_header file = do
  (magic, p1) ← read_u32 file
  (version, p2) ← read_u32 p1
  (block_size, p3) ← read_u32 p2
  (count, p4) ← read_u32 p3
  (minkl, p5) ← read_u16 (drop 4 p4)
  (maxkl, p6) ← read_u16 p5
  some (record { magic = magic; version = version; count = count; minkl = minkl; maxkl = maxkl })

-- Where the metadata starts, and the last number
unfoldable pub read_footer : List ℕ → Option (ℕ × ℕ)
read_footer file = do
  (filter_off, p) ← read_joined (drop (length file - 12) file)
  (magic, q) ← read_u32 p
  some (filter_off, magic)

unfoldable pub read_behind_header : List ℕ → Header → MetadataResult
read_behind_header file h = elim (read_footer file) [
  | none ↦ out_of_bounds
  | some (filter_off, magic) ↦
      let buf = take (length file - filter_off - 12) (drop filter_off file) in
      let result = check_body buf (read_body h.count (length file) h.minkl h.maxkl buf) in
      if not (magic == sstable_footer_magic)
      then refused
      else if ltb (length file) (filter_off + 12)
      then out_of_bounds
      else result
]

unfoldable pub read_metadata : List ℕ → MetadataResult
read_metadata file = elim (read_header file) [
  | none ↦ refused
  | some h ↦
      let result = read_behind_header file h in
      if ltb (length file) 36
      then refused
      else if not (h.magic == sstable_magic)
      then refused
      else if not (h.version == sstable_version)
      then refused
      else result
]
