-- ===== src/Tests/Table.antt =====
-- Tables at concrete inputs.
use keyvaluedb.Prelude.{
  All, none, refl, length, contains, ◌++◌, ℕ, ◌*◌, ◌≡◌, Bool, true, false, some, List, [], ◌∷◌,
  arith,
}
use mathlib.Core.List.{Mem}
use keyvaluedb.Types.{KeyValuePair}
use keyvaluedb.Tree.Keys.{key_le, key_eq}
use keyvaluedb.Bytes.{write_u16, write_u32, write_u64}
use keyvaluedb.Table.Builder.{
  serialize, wire_size, try_append, freeze_block, reset_builder, block_bytes, frame, write_entries,
  write_entry, key_of, value_of,
}
use keyvaluedb.Table.Write.{
  write, write_blocks, write_numbers, write_last_block, write_entries_to, write_entry_to,
  append_loop, write_block, push_first_key, write_header, first_key, last_key,
}
use keyvaluedb.Table.Metadata.{read_joined_all, insert_all}
use keyvaluedb.Table.Flush.{write_from_walk}
use keyvaluedb.Table.Flushes.{newest, newest_from}
use keyvaluedb.Table.FlushWrite.{write_from_walk-newest}
use keyvaluedb.Table.Parse.{read_joined_all-signed}
use keyvaluedb.Table.Scan.{first_version}
use keyvaluedb.Table.Reads.{Writable, lookup_key-write}
use keyvaluedb.Table.Read.{entries, read_all}
use keyvaluedb.Table.Lookup.{found, lookup_key}
use keyvaluedb.Table.RoundTrip.{read_all-write}
use keyvaluedb.Table.Merge.{
  MergeBounds, compact, merge_all, next_key, least_key, drain_all, drain, add_version, kept_of,
  is_kept,
}
use keyvaluedb.Table.Chunks.{concat}
use keyvaluedb.Table.Batches.{FitsTable, compact-FitsTable}
use keyvaluedb.Table.Merged.{KeepsAll, compact-tombstone}
use keyvaluedb.Table.Visible.{InOrder, merge_all-newest}
use keyvaluedb.Scan.Stamps.{stamp}

abbrev pub pair : ℕ → ℕ → ℕ → Bool → KeyValuePair
pair k v ts gone = record { key = k ∷ []; value = v ∷ []; timestamp = ts; is_tombstone = gone }

abbrev pub table : List KeyValuePair
table = pair 1 10 5 false ∷ pair 2 20 9 false ∷ pair 4 0 7 true ∷ []

abbrev pub sizes : ℕ → ℕ × ℕ
sizes n = (n * 10, 7)

read_all-write_example : read_all 3 (write sizes table (some (9 ∷ []))) ≡ entries table
read_all-write_example =
    read_all-write sizes table (some (9 ∷ [])) 3
      ((omega arith, omega arith), ((omega arith, omega arith), ((omega arith, omega arith), tt)))
      (omega arith) (omega arith)

table_size : length (write_blocks sizes table).file ≡ 94
unfolding write_blocks write_last_block write_entries_to write_entry_to append_loop try_append
    serialize wire_size write_block freeze_block push_first_key reset_builder block_bytes frame
    write_entries write_entry key_of value_of write_header write_u16 write_u32 write_u64 first_key
    last_key
table_size = refl

pub table-Writable : Writable sizes table (some (9 ∷ []))
table-Writable = record {
  fits =
      ((omega arith, omega arith), ((omega arith, omega arith), ((omega arith, omega arith), tt)));
  short = (omega arith, (omega arith, (omega arith, tt)));
  count_fits = omega arith;
  filter_fits = omega arith;
  file_fits = omega (arith, table_size);
  aborted_fits = omega arith;
  aborted_joins = ((omega arith, omega arith), tt);
}

lookup_key-write_example :
    lookup_key (write sizes table (some (9 ∷ []))) (1 ∷ []) 6 ≡ found (some (10 ∷ []))
unfolding first_version key_eq
lookup_key-write_example =
    lookup_key-write sizes table (some (9 ∷ [])) (1 ∷ []) 6 table-Writable
      (unfold key_le in ((refl, (refl, tt)), ((refl, tt), (tt, tt))))

read_joined_all-signed_example :
    (back : ℕ) × (read_joined_all 1 (write_numbers (0x80000005 ∷ []) ++ []) ≡ some (back ∷ [], []))
    × (contains 0x80000005 (insert_all (back ∷ []) []) ≡ false)
read_joined_all-signed_example = read_joined_all-signed 0x80000005 [] (omega arith) (omega arith)

abbrev walk : List KeyValuePair
walk = pair 1 10 5 false ∷ pair 1 11 3 false ∷ pair 2 20 9 false ∷ []

newest_of_walk : newest walk ≡ pair 1 10 5 false ∷ pair 2 20 9 false ∷ []
unfolding newest newest_from key_eq
newest_of_walk = refl

write_from_walk-newest_example :
    write_from_walk sizes walk 3 none ≡ write (λ n. sizes 3) (newest walk) none
write_from_walk-newest_example = write_from_walk-newest sizes walk 3 none (
  ((omega arith, omega arith), omega arith),
  (((omega arith, omega arith), omega arith), (((omega arith, omega arith), omega arith), tt)),
)

abbrev last_level : MergeBounds
last_level = record { is_last_level = true; range_lower = []; range_upper = []; visible_ts = 9 }

compact-tombstone_example :
    compact 5 last_level 100 ((pair 1 0 5 true ∷ pair 2 20 6 false ∷ []) ∷ []) ≡ []
unfolding key_eq key_le
compact-tombstone_example =
    compact-tombstone 5 100 last_level (pair 1 0 5 true) (pair 2 20 6 false) [] refl refl
      (omega arith) refl

abbrev middle_level : MergeBounds
middle_level = record { is_last_level = false; range_lower = []; range_upper = []; visible_ts = 6 }

middle_level-KeepsAll : KeepsAll middle_level
middle_level-KeepsAll = record { not_last = refl; no_lower = refl; no_upper = refl }

-- Other versions of the first two keys
abbrev older_table : List KeyValuePair
older_table = pair 1 11 4 false ∷ pair 2 21 3 false ∷ []

merged_tables :
    merge_all 5 middle_level (older_table ∷ table ∷ [])
    ≡ pair 1 10 5 false ∷ pair 2 21 3 false ∷ pair 2 20 9 false ∷ pair 4 0 7 true ∷ []
unfolding merge_all next_key least_key drain_all drain add_version kept_of is_kept key_eq key_le
merged_tables = refl

merge_all-newest_example :
    InOrder (merge_all 5 middle_level (older_table ∷ table ∷ []))
    × All
        (λ (kv : KeyValuePair). Mem kv (concat (older_table ∷ table ∷ [])))
        (merge_all 5 middle_level (older_table ∷ table ∷ []))
    × ((key : List ℕ)
        → stamp key 8 (merge_all 5 middle_level (older_table ∷ table ∷ []))
          ≡ stamp key 8 (concat (older_table ∷ table ∷ [])))
unfolding key_le concat
merge_all-newest_example =
    merge_all-newest middle_level middle_level-KeepsAll 5 8 (older_table ∷ table ∷ [])
      (((refl, tt), (tt, tt)), (((refl, (refl, tt)), ((refl, tt), (tt, tt))), tt)) (omega arith)
      (omega arith)

compact-FitsTable_example :
    All (FitsTable 60) (compact 3 middle_level 60 (table ∷ []))
    × (concat (compact 3 middle_level 60 (table ∷ [])) ≡ merge_all 3 middle_level (table ∷ []))
compact-FitsTable_example = compact-FitsTable 3 60 middle_level (table ∷ [])
