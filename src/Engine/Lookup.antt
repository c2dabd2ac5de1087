-- ===== src/Engine/Lookup.antt =====
-- LSMTreeEngine::Lookup (src/engine.cpp), run from start to end with no other thread between. A table
-- is looked up in the bytes of its file, as where the block cache has nothing of it. The snapshots
-- that it acquires and releases are left out.
use keyvaluedb.Prelude.{
  ℕ, Bool, not, ◌&&◌, ◌||◌, Option, none, some, List, [], ◌∷◌, map, ltb, ◌==◌, if◌then◌else◌,
  contains, length,
}
use mathlib.Core.List.{reverse}
use keyvaluedb.Bloom.{BloomFilter, might_contain}
use keyvaluedb.Tree.Keys.{key_le}
use keyvaluedb.MemTable.{TreeOps, MemTable, memtable_lookup}
use keyvaluedb.Table.Lookup.{failed, found, lookup_key}
use keyvaluedb.Engine.State.{CacheOps, Engine}

-- The fields of SSTable::Metadata that a lookup reads
pub record TableEntry : Type 0 where
  pub filepath : List ℕ
  pub level : ℕ
  pub source_table_id : ℕ
  pub min_key : List ℕ
  pub max_key : List ℕ
  pub bloom : BloomFilter

-- The call of KVCache::Get, for which the cache notes the use
abbrev pub CacheGet : Type 0 → Type 0
CacheGet Cache = List ℕ → ℕ → Cache → Option (List ℕ) × Cache

-- A write behind the four places of `scanned_ids`, or the value where the call returns true
pub data LookupReply : Type 0 where
  overrun : LookupReply
  reply : Option (List ℕ) → LookupReply

-- A search that goes on where it has found nothing
abbrev pub or_else : Option (List ℕ) → Option (List ℕ) → Option (List ℕ)
or_else none o = o
or_else (some v) o = some v

unfoldable pub non_empty : List ℕ → Option (List ℕ)
non_empty [] = none
non_empty (b ∷ bs) = some (b ∷ bs)

-- The tests that pass a table by
unfoldable pub is_skipped : List ℕ → List ℕ → TableEntry → Bool
is_skipped scanned key t =
    contains t.source_table_id scanned
    || ((not (length t.min_key == 0) && not (key_le t.min_key key))
        || ((not (length t.max_key == 0) && not (key_le key t.max_key))
            || (ltb 0 t.bloom.bits && not (might_contain key t.bloom))))

-- The call of LookupKey; an exception is caught.
unfoldable pub find_in_table : (List ℕ → List ℕ) → List ℕ → ℕ → TableEntry → Option (List ℕ)
find_in_table files key read_ts t = elim (lookup_key (files t.filepath) key read_ts) [
  | failed ↦ none
  | found v ↦ v
]

-- Each of the two loops over the tables, with its test of the level
unfoldable pub lookup_tables :
    (TableEntry → Bool)
    → (List ℕ → List ℕ)
    → List ℕ
    → List ℕ
    → ℕ
    → List TableEntry
    → Option (List ℕ)
lookup_tables wanted files scanned key read_ts [] = none
lookup_tables wanted files scanned key read_ts (t ∷ tables) =
    let rest = lookup_tables wanted files scanned key read_ts tables in
    if not (wanted t) || is_skipped scanned key t
    then rest
    else or_else (find_in_table files key read_ts t) rest

unfoldable pub is_level0 : TableEntry → Bool
is_level0 t = t.level == 0

unfoldable pub is_deeper : TableEntry → Bool
is_deeper t = not (t.level == 0)

-- Level 0 from the newest table on, then the other levels in their order
unfoldable pub lookup_snapshot :
    (List ℕ → List ℕ) → List ℕ → List ℕ → ℕ → List TableEntry → Option (List ℕ)
lookup_snapshot files scanned key read_ts tables =
    or_else (lookup_tables is_level0 files scanned key read_ts (reverse tables))
      (lookup_tables is_deeper files scanned key read_ts tables)

module _ {Tree Cache : Type 0} (ops : TreeOps Tree) (cache : CacheOps Cache)
    (cache_get : CacheGet Cache) where
  -- The active memtable, or the frozen ones from the back
  unfoldable pub lookup_memtables : List ℕ → ℕ → List (MemTable Tree) → Option (List ℕ)
  lookup_memtables key read_ts [] = none
  lookup_memtables key read_ts (m ∷ ms) =
      or_else (memtable_lookup ops key read_ts m) (lookup_memtables key read_ts ms)

  -- What the search ends with: an empty value is none, and another goes to the cache.
  unfoldable pub finish :
      List ℕ → ℕ → Option (List ℕ) → Engine Tree Cache → Engine Tree Cache × LookupReply
  finish key read_ts none e = (e, reply none)
  finish key read_ts (some []) e = (e, reply none)
  finish key read_ts (some (b ∷ bs)) e = (
    record e { kv_cache = cache.cache_put key (b ∷ bs) read_ts e.kv_cache },
    reply (some (b ∷ bs)),
  )

  -- Lookup behind a miss of the cache
  unfoldable pub search_all :
      (List ℕ → List ℕ)
      → List TableEntry
      → List ℕ
      → Engine Tree Cache
      → Engine Tree Cache × LookupReply
  search_all files tables key e =
      elim (lookup_memtables key e.global_ts (e.active ∷ reverse e.frozen)) [
        | some v ↦ finish key e.global_ts (some v) e
        | none ↦
            if ltb 4 (length e.frozen)
            then (e, overrun)
            else finish key e.global_ts
                (lookup_snapshot files (map (λ (m : MemTable Tree). m.id) e.frozen) key e.global_ts
                  tables)
                e
      ]

  unfoldable pub lookup_value :
      (List ℕ → List ℕ)
      → List TableEntry
      → List ℕ
      → Engine Tree Cache
      → Engine Tree Cache × LookupReply
  lookup_value files tables key e =
      let got = cache_get key e.global_ts e.kv_cache in
      let e1 : Engine Tree Cache = record e { kv_cache = got.1 } in
      elim got.0 [ some v ↦ (e1, reply (non_empty v)) | none ↦ search_all files tables key e1 ]
