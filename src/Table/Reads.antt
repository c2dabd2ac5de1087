-- ===== src/Table/Reads.antt =====
-- A lookup in a table file, from the bytes that Write wrote.
use keyvaluedb.Prelude.{
  ℕ, ◌+◌, ◌^◌, ◌≤◌, ◌<◌, ◌≡◌, refl, sym, ap, ◌∙◌, Option, List, [], ◌∷◌, ◌++◌, append_assoc, arith,
  ◌==◌, if◌then◌else◌, length, length-append, All,
}
use keyvaluedb.Types.{KeyValuePair}
use keyvaluedb.Table.Write.{
  write_first_keys, write_tail, write_metadata, empty_filter, first_key, last_key, write_header,
  write_blocks, write, Writer,
}
use keyvaluedb.Table.Chunks.{FitsBlock, chunks_bytes, concat}
use keyvaluedb.Table.Pieces.{keys_of}
use keyvaluedb.Table.Writes.{Blocks, Blocks-write_blocks}
use keyvaluedb.Table.RoundTrip.{length-concat}
use keyvaluedb.Table.Metadata.{TableMetadata, metadata, read_metadata}
use keyvaluedb.Table.Lookup.{found, lookup_key, lookup_in}
use keyvaluedb.Table.Scan.{first_version}
use keyvaluedb.Table.Parse.{Joins, IsShort, Storable, parsed, aborted_list, places_of}
use keyvaluedb.Table.Open.{whole, read_metadata-write_tail}
use keyvaluedb.Table.Locate.{Ascending}
use keyvaluedb.Table.Fetch.{
  length-index, All-IsFilled, length-starts, length-opened_all, starts-Joins, HasShortKey,
  opened_all-IsShort,
}
use keyvaluedb.Table.Found.{IsStored-add_all}
use keyvaluedb.Table.LookupWrite.{Describes, lookup_in-Describes}

-- A table whose parts fit their fields, and whose numbers ReadMetadata reads as they are.
pub record Writable (filter_sizes : ℕ → ℕ × ℕ) (kvs : List KeyValuePair) (aborted : Option (List ℕ))
    : Type 0 where
  pub fits : All FitsBlock kvs
  pub short : All HasShortKey kvs
  pub count_fits : length kvs < 2 ^ 32
  pub filter_fits : (filter_sizes (if length kvs == 0 then 1 else length kvs)).0 < 2 ^ 32
  pub file_fits : length (write_blocks filter_sizes kvs).file < 2 ^ 31
  pub aborted_fits : length (aborted_list aborted) < 2 ^ 32
  pub aborted_joins : All Joins (aborted_list aborted)

first_key-IsShort : (kvs : List KeyValuePair) → All HasShortKey kvs → IsShort (first_key kvs)
unfolding first_key
first_key-IsShort [] h = omega arith
first_key-IsShort (kv ∷ kvs) h = h.0

last_key-IsShort : (kvs : List KeyValuePair) → All HasShortKey kvs → IsShort (last_key kvs)
unfolding last_key
last_key-IsShort [] h = omega arith
last_key-IsShort (kv ∷ []) h = h.0
last_key-IsShort (kv ∷ next ∷ kvs) h = last_key-IsShort (next ∷ kvs) h.1

lookup_key-metadata :
    (file key : List ℕ) (read_ts : ℕ) (m : TableMetadata)
    → read_metadata file ≡ metadata m
    → lookup_key file key read_ts ≡ found (lookup_in file m key read_ts)
unfolding lookup_key
lookup_key-metadata file key read_ts m e = rw (lookup_key, e) refl

module _ (filter_sizes : ℕ → ℕ × ℕ) (kvs : List KeyValuePair) (aborted : Option (List ℕ))
    (h : Writable filter_sizes kvs aborted) where
  b :
      Blocks
        (write_header (length kvs) (first_key kvs) (last_key kvs))
        (empty_filter filter_sizes (length kvs))
        kvs
        (write_blocks filter_sizes kvs)
  b = Blocks-write_blocks filter_sizes kvs h.fits

  w : Writer
  w = write_blocks filter_sizes kvs

  short_keys : All HasShortKey (concat b.chunks)
  short_keys = rw b.done_is at h.short

  before : List ℕ
  before = write_header (length kvs) (first_key kvs) (last_key kvs)

  file_size : length before + length (chunks_bytes b.chunks) < 2 ^ 31
  unfolding before
  file_size =
      omega (arith, h.file_fits, ap length b.file_is, length-append before (chunks_bytes b.chunks))

  blocks : length b.chunks ≤ length kvs
  blocks = omega (arith, length-concat b.chunks b.are_chunks, ap length b.done_is)

  storable : Storable (first_key kvs) (last_key kvs) w.bloom aborted w.offsets w.first_keys
  unfolding before w
  storable = record {
    filter =
        rw b.bloom_is (unfold empty_filter in IsStored-add_all (keys_of kvs) _ _ h.filter_fits);
    aborted_fits = h.aborted_fits;
    aborted_joins = h.aborted_joins;
    blocks_fit =
        rw b.offsets_are
          (omega (arith, length-starts (length before) b.chunks, blocks, h.count_fits));
    offsets_join = rw b.offsets_are (starts-Joins (length before) b.chunks file_size);
    same_blocks =
        rw (b.offsets_are, b.keys_are)
          (length-starts (length before) b.chunks
            ∙ sym (length-opened_all b.chunks (All-IsFilled b.chunks b.are_chunks)));
    keys_fit = rw b.keys_are (opened_all-IsShort b.chunks short_keys);
    index_fits =
        rw b.keys_are (omega (arith, file_size, length-index b.chunks b.are_chunks short_keys));
  }

  -- The file that Write wrote, with its blocks.
  parts : List ℕ
  parts =
      whole (length kvs) (first_key kvs) (last_key kvs) (chunks_bytes b.chunks) w.bloom aborted
        w.offsets w.first_keys

  write-parts : write filter_sizes kvs aborted ≡ parts
  unfolding write parts before w
  write-parts = rw b.file_is refl

  md : TableMetadata
  md =
      parsed (length kvs) (length parts) (first_key kvs) (last_key kvs) w.bloom
        (aborted_list aborted) w.offsets w.first_keys

  place : Joins (length (before ++ chunks_bytes b.chunks))
  place =
      let size = length-append before (chunks_bytes b.chunks) in
      (omega (arith, size, file_size), omega (arith, size, file_size))

  read_back : read_metadata parts ≡ metadata md
  unfolding parts md w before
  read_back =
      read_metadata-write_tail (length kvs) (first_key kvs) (last_key kvs) (chunks_bytes b.chunks)
        w.bloom aborted w.offsets w.first_keys h.count_fits (first_key-IsShort kvs h.short)
        (last_key-IsShort kvs h.short) place storable

  rest_of_file : List ℕ
  rest_of_file =
      write_tail
        (write_metadata (first_key kvs) (last_key kvs) w.bloom aborted w.offsets w.first_keys)
        (length (before ++ chunks_bytes b.chunks))

  describes :
      Ascending kvs
      → Describes parts md before rest_of_file
          (aborted_list aborted)
          (filter_sizes (if length kvs == 0 then 1 else length kvs)).0
          (filter_sizes (if length kvs == 0 then 1 else length kvs)).1
          b.chunks
  unfolding parts md w before rest_of_file parsed
  describes order = record {
    file_is = simp append_assoc;
    offsets_are = b.offsets_are;
    keys_are = ap write_first_keys b.keys_are;
    places_are = ap (places_of 0) b.keys_are;
    bloom_is = rw (← b.done_is) (unfold empty_filter in b.bloom_is);
    aborted_are = refl;
    are_chunks = b.are_chunks;
    short = short_keys;
    order = rw b.done_is at order;
  }

  lookup_in-parts :
      (key : List ℕ) (read_ts : ℕ)
      → Ascending kvs
      → lookup_in parts md key read_ts ≡ first_version (aborted_list aborted) key read_ts kvs
  lookup_in-parts key read_ts order =
      lookup_in-Describes parts md before rest_of_file (aborted_list aborted) _ _ b.chunks
        (describes order) key read_ts
      ∙ sym (ap (first_version (aborted_list aborted) key read_ts) b.done_is)

-- A lookup in a table file whose keys ascend strictly and whose parts fit their fields, the blocks
-- below 2^31 bytes and each aborted timestamp below 2^64 with low 32 bits below 2^31, finds what a walk over the entries that Write was given finds: the key's version, where its timestamp is at
-- most the reader's and not that of an aborted batch. The value of a tombstone is empty.
pub lookup_key-write :
    (filter_sizes : ℕ → ℕ × ℕ) (kvs : List KeyValuePair) (aborted : Option (List ℕ)) (key : List ℕ)
    (read_ts : ℕ)
    → Writable filter_sizes kvs aborted
    → Ascending kvs
    → lookup_key (write filter_sizes kvs aborted) key read_ts
      ≡ found (first_version (aborted_list aborted) key read_ts kvs)
lookup_key-write filter_sizes kvs aborted key read_ts h order =
    rw
      (
        write-parts filter_sizes kvs aborted h,
        lookup_key-metadata (parts filter_sizes kvs aborted h) key read_ts
            (md filter_sizes kvs aborted h) (read_back filter_sizes kvs aborted h),
      )
      (ap found (lookup_in-parts filter_sizes kvs aborted h key read_ts order))
