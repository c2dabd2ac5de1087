-- ===== src/Tests/Reads.antt =====
-- Lookups of the engine at concrete inputs, with trees of one version.
use keyvaluedb.Prelude.{
  ℕ, ◌≡◌, refl, sym, ap, inl, inr, true, false, ◌&&◌, Option, none, some, List, [], ◌∷◌, arith, leb,
  ◌==◌, length, if◌then◌else◌, Bool-cases, ◌>>=◌,
}
use keyvaluedb.Types.{KeyValuePair}
use keyvaluedb.Tree.Keys.{key_eq, key_eq_iff, key_le}
use keyvaluedb.MemTable.{TreeOps, MemTable}
use keyvaluedb.Scan.Stamps.{stamp, stamp_of}
use keyvaluedb.Engine.State.{Engine}
use keyvaluedb.Engine.Lookup.{
  TableEntry, CacheGet, reply, non_empty, find_in_table, is_level0, is_deeper, lookup_value,
}
use keyvaluedb.Engine.Reads.{Answers, table_versions}
use keyvaluedb.Engine.Newest.{
  TreeAnswers, memtable_versions, ReadsInOrder, all_versions, lookup_value-newest,
}
use keyvaluedb.Bloom.{might_contain}
use keyvaluedb.Table.Write.{write}
use keyvaluedb.Table.Lookup.{LookupResult, failed, found}
use keyvaluedb.Table.Scan.{first_version}
use keyvaluedb.Table.Reads.{lookup_key-write}
use keyvaluedb.Tests.Table.{pair, table, sizes, table-Writable}
use keyvaluedb.Tests.Engine.{fresh, no_cache}
use mathlib.Core.List.{mem-cons_self}
use mathlib.Core.Path.{subst}

abbrev lookup_one : List ℕ → ℕ → KeyValuePair → Option (List ℕ)
lookup_one key read_ts kv =
    if key_eq kv.key key && leb kv.timestamp read_ts
    then (if kv.is_tombstone then none else some kv.value)
    else none

abbrev single : TreeOps KeyValuePair
single = record {
  new_tree = pair 0 0 0 true;
  tree_insert = λ key value ts tomb kv. record {
    key = key;
    value = value;
    timestamp = ts;
    is_tombstone = tomb;
  };
  tree_lookup = lookup_one;
  memory_usage = λ kv. 0;
  size = λ kv. 1;
  export_tree = λ kv. kv ∷ [];
  tree_add_aborted = λ ts kv. kv;
}

abbrev one_version : KeyValuePair → List KeyValuePair
one_version kv = kv ∷ []

single-TreeAnswers : TreeAnswers single one_version
unfolding stamp stamp_of
single-TreeAnswers key read_ts kv live =
    elim (Bool-cases (key_eq kv.key key && leb kv.timestamp read_ts)) [
      | inr e ↦ rw e (ground arith)
      | inl e ↦
          let same : kv.key ≡ key = (key_eq_iff kv.key key).0 (ground arith) in
          subst (λ (o : Option (List ℕ)). Answers key read_ts (kv ∷ []) o)
            (sym (alive e (live.0 same))) (kv, mem-cons_self, same, refl, rw e (omega arith))
    ]
  where
    alive :
        (key_eq kv.key key && leb kv.timestamp read_ts) ≡ true
        → kv.is_tombstone ≡ false
        → lookup_one key read_ts kv ≡ some kv.value
    alive e f = ground arith

abbrev miss : CacheGet (Unit {0})
miss key read_ts c = (none, c)

abbrev no_files : List ℕ → List ℕ
no_files path = []

abbrev memtable : KeyValuePair → MemTable KeyValuePair
memtable kv = record { tree = kv; id = 0; max_bytes = 4; frozen = false }

abbrev two_memtables : Engine KeyValuePair (Unit {0})
two_memtables = record {
  global_ts = 9;
  batch_increment_gap = 3;
  batch_in_progress = false;
  batch_ts = 0;
  batch_touched = false;
  batch_commit_seq = 0;
  next_table_id = 1;
  memtable_max_bytes = 4;
  sstable_seq = 0;
  requested_seq = 0;
  synced_seq = 0;
  pending = 0;
  active = memtable (pair 1 5 8 false);
  frozen = memtable (pair 1 4 3 false) ∷ [];
  tables = [];
  manifest = [];
  wal = fresh.wal;
  kv_cache = tt;
}

-- Memtables with another key; the frozen one has the identity 0.
abbrev with_tables : Engine KeyValuePair (Unit {0})
with_tables = record two_memtables {
  active = memtable (pair 3 5 8 false);
  frozen = memtable (pair 3 4 3 false) ∷ [];
}

abbrev table_entry : ℕ → ℕ → TableEntry
table_entry level id = record {
  filepath = id ∷ [];
  level = level;
  source_table_id = id;
  min_key = 1 ∷ [];
  max_key = 4 ∷ [];
  bloom = record { bits = 8; hash_count = 1; bytes = 255 ∷ [] };
}

-- One table that was written before, of the level 1, and one that was written from the frozen
-- memtable, whose file is empty
abbrev two_tables : List TableEntry
two_tables = table_entry 1 7 ∷ table_entry 0 0 ∷ []

abbrev versions_of : TableEntry → List KeyValuePair
versions_of t = if t.source_table_id == 7 then table else pair 3 4 3 false ∷ []

abbrev files : List ℕ → List ℕ
files [] = []
files (id ∷ path) = if id == 7 then write sizes table (some (9 ∷ [])) else []

found_in_table : find_in_table files (1 ∷ []) 9 (table_entry 1 7) ≡ some (10 ∷ [])
unfolding find_in_table first_version key_eq key_le
found_in_table =
    ap (λ (r : LookupResult). elim r [ failed ↦ none | found v ↦ v ])
      (lookup_key-write sizes table (some (9 ∷ [])) (1 ∷ []) 9 table-Writable
        ((refl, (refl, tt)), ((refl, tt), (tt, tt))))

table-Answers : Answers (1 ∷ []) 9 table (find_in_table files (1 ∷ []) 9 (table_entry 1 7))
unfolding stamp stamp_of key_eq
table-Answers =
    subst (λ (o : Option (List ℕ)). Answers (1 ∷ []) 9 table o) (sym found_in_table)
      (pair 1 10 5 false, mem-cons_self, refl, refl, refl)

with_tables-ReadsInOrder :
    ReadsInOrder single one_version versions_of files two_tables (1 ∷ []) with_tables
unfolding memtable_versions table_versions stamp stamp_of key_eq key_le is_level0 is_deeper
    might_contain
with_tables-ReadsInOrder = record {
  trees = single-TreeAnswers;
  live = ((λ e. refl, tt), ((λ e. refl, tt), tt));
  memtables = (inl refl, (inl refl, tt));
  covers = (
    ((refl, refl, refl), ((refl, refl, refl), ((refl, refl, refl), tt))),
    (((refl, refl, refl), tt), tt),
  );
  answers = (λ e. table-Answers, (λ e. cc, tt));
  copied = (λ e. cc, (λ e. omega arith, tt));
  level0 = (inl refl, (inl refl, tt));
  deeper = (inr (omega arith), (inl refl, tt));
  level0_first = inl refl;
  memtables_first = inl refl;
}

lookup_value-newest_example :
    (o : Option (List ℕ)) × Answers
      (1 ∷ [])
      9
      (all_versions single no_cache miss one_version versions_of files two_tables with_tables)
      o
    × ((lookup_value single no_cache miss files two_tables (1 ∷ []) with_tables).1
        ≡ reply (o >>= non_empty))
lookup_value-newest_example =
    lookup_value-newest single no_cache miss one_version versions_of files two_tables (1 ∷ [])
      with_tables with_tables-ReadsInOrder (omega arith) (λ v e. cc)

-- A memtable is full with four bytes in its value.
abbrev sized : TreeOps KeyValuePair
sized = record single { memory_usage = λ kv. length kv.value }
