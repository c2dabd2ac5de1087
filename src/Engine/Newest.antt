-- ===== src/Engine/Newest.antt =====
-- A lookup of the engine finds the newest version.
use keyvaluedb.Prelude.{
  ℕ, ◌≤◌, ◌≡◌, refl, inl, inr, true, false, Option, none, some, List, [], ◌∷◌, ◌++◌, map, contains,
  arith, ltb, Option-cases, ◌>>=◌, length, All,
}
use mathlib.Core.List.{reverse, reverse_aux}
use keyvaluedb.Types.{KeyValuePair}
use keyvaluedb.Scan.Stamps.{stamp}
use keyvaluedb.MemTable.{TreeOps, MemTable, memtable_lookup}
use keyvaluedb.Engine.State.{CacheOps, Engine}
use keyvaluedb.Engine.Lookup.{
  TableEntry, CacheGet, reply, find_in_table, non_empty, is_level0, is_deeper, lookup_snapshot,
  lookup_memtables, finish, search_all, lookup_value,
}
use keyvaluedb.Engine.Reads.{
  Covers, Answers, IsNewer, NoTombstone, Answers-first, Answers-rest, Answers-or_else, stamp_nil,
  table_versions, LayeredTables, IsSound, Answers-lookup_tables,
}

All-reverse_aux :
    (P : TableEntry → Type 0) (xs ys : List TableEntry)
    → All P xs
    → All P ys
    → All P (reverse_aux xs ys)
All-reverse_aux P [] ys h done = done
All-reverse_aux P (x ∷ xs) ys h done = All-reverse_aux P xs (x ∷ ys) h.1 (h.0, done)

All-reverse : (P : TableEntry → Type 0) (xs : List TableEntry) → All P xs → All P (reverse xs)
All-reverse P xs h = All-reverse_aux P xs [] h tt

module _ {Tree : Type 0} (ops : TreeOps Tree) (versions : Tree → List KeyValuePair) where
  -- A tree with no tombstone of a key answers by the newest of its versions.
  abbrev pub TreeAnswers : Type 0
  TreeAnswers =
      (key : List ℕ) (read_ts : ℕ) (tree : Tree)
      → NoTombstone key (versions tree)
      → Answers key read_ts (versions tree) (ops.tree_lookup key read_ts tree)

  unfoldable pub memtable_versions : List (MemTable Tree) → List KeyValuePair
  memtable_versions [] = []
  memtable_versions (m ∷ ms) = versions m.tree ++ memtable_versions ms

  -- Each memtable holds newer versions of the key than those behind it.
  abbrev pub LayeredMemTables : List ℕ → ℕ → List (MemTable Tree) → Type 0
  LayeredMemTables key read_ts [] = Unit
  LayeredMemTables key read_ts (m ∷ ms) =
      IsNewer key read_ts (versions m.tree) (memtable_versions ms) × LayeredMemTables key read_ts ms

module _ {Tree Cache : Type 0} (ops : TreeOps Tree) (cache : CacheOps Cache)
    (cache_get : CacheGet Cache) (versions : Tree → List KeyValuePair) where
  Answers-lookup_memtables :
      (key : List ℕ) (read_ts : ℕ) (ms : List (MemTable Tree))
      → TreeAnswers ops versions
      → All (λ (m : MemTable Tree). NoTombstone key (versions m.tree)) ms
      → LayeredMemTables ops versions key read_ts ms
      → Answers key read_ts
          (memtable_versions ops versions ms)
          (lookup_memtables ops cache cache_get key read_ts ms)
  unfolding lookup_memtables memtable_versions memtable_lookup
  Answers-lookup_memtables key read_ts [] law live order = stamp_nil key read_ts
  Answers-lookup_memtables key read_ts (m ∷ ms) law live order =
      Answers-or_else key read_ts (versions m.tree) _ _ _ order.0 (law key read_ts m.tree live.0)
        (Answers-lookup_memtables key read_ts ms law live.1 order.1)

  finish-reply :
      (key : List ℕ) (read_ts : ℕ) (o : Option (List ℕ)) (e : Engine Tree Cache)
      → (finish ops cache cache_get key read_ts o e).1 ≡ reply (o >>= non_empty)
  unfolding finish non_empty
  finish-reply key read_ts none e = refl
  finish-reply key read_ts (some []) e = refl
  finish-reply key read_ts (some (b ∷ bs)) e = refl

-- The promises that a lookup rests on: those of the trees and tables, and that what is searched first
-- is newer. A table that was written from a memtable that is still frozen promises no answer, and has
-- no newer version of the key than the memtables.
pub record ReadsInOrder {Tree Cache : Type 0} (ops : TreeOps Tree)
    (versions : Tree → List KeyValuePair) (versions_of : TableEntry → List KeyValuePair)
    (files : List ℕ → List ℕ) (tables : List TableEntry) (key : List ℕ) (e : Engine Tree Cache)
    : Type 0 where
  pub trees : TreeAnswers ops versions
  pub live :
      All (λ (m : MemTable Tree). NoTombstone key (versions m.tree)) (e.active ∷ reverse e.frozen)
  pub memtables : LayeredMemTables ops versions key e.global_ts (e.active ∷ reverse e.frozen)
  pub covers : All (λ (t : TableEntry). Covers t (versions_of t)) tables
  pub answers :
      All
        (λ (t : TableEntry).
          contains t.source_table_id (map (λ (m : MemTable Tree). m.id) e.frozen) ≡ false
          → Answers key e.global_ts (versions_of t) (find_in_table files key e.global_ts t))
        tables
  pub copied :
      All
        (λ (t : TableEntry).
          contains t.source_table_id (map (λ (m : MemTable Tree). m.id) e.frozen) ≡ true
          → stamp key e.global_ts (versions_of t)
            ≤ stamp key e.global_ts (memtable_versions ops versions (e.active ∷ reverse e.frozen)))
        tables
  pub level0 : LayeredTables versions_of is_level0 key e.global_ts (reverse tables)
  pub deeper : LayeredTables versions_of is_deeper key e.global_ts tables
  pub level0_first :
      IsNewer key e.global_ts
        (table_versions versions_of is_level0 (reverse tables))
        (table_versions versions_of is_deeper tables)
  pub memtables_first :
      IsNewer key e.global_ts (memtable_versions ops versions (e.active ∷ reverse e.frozen)) (
        table_versions versions_of is_level0 (reverse tables)
        ++ table_versions versions_of is_deeper tables)

module _ {Tree Cache : Type 0} (ops : TreeOps Tree) (cache : CacheOps Cache)
    (cache_get : CacheGet Cache) (versions : Tree → List KeyValuePair)
    (versions_of : TableEntry → List KeyValuePair) (files : List ℕ → List ℕ) where
  -- All versions that the engine has, in the order in which a lookup searches them
  unfoldable pub all_versions : List TableEntry → Engine Tree Cache → List KeyValuePair
  all_versions tables e =
      memtable_versions ops versions (e.active ∷ reverse e.frozen)
      ++ (table_versions versions_of is_level0 (reverse tables)
          ++ table_versions versions_of is_deeper tables)

  -- Behind a search of the memtables that finds nothing
  IsSound-tables :
      (tables : List TableEntry) (key : List ℕ) (e : Engine Tree Cache)
      → ReadsInOrder ops versions versions_of files tables key e
      → stamp key e.global_ts (memtable_versions ops versions (e.active ∷ reverse e.frozen)) ≡ 0
      → All
          (λ (t : TableEntry).
            IsSound files
              (map (λ (m : MemTable Tree). m.id) e.frozen)
              key
              e.global_ts
              t
              (versions_of t))
          tables
  IsSound-tables tables key e h none_there = from tables h.covers h.answers h.copied
    where
      from :
          (ts : List TableEntry)
          → All (λ (t : TableEntry). Covers t (versions_of t)) ts
          → All
              (λ (t : TableEntry).
                contains t.source_table_id (map (λ (m : MemTable Tree). m.id) e.frozen) ≡ false
                → Answers key e.global_ts (versions_of t) (find_in_table files key e.global_ts t))
              ts
          → All
              (λ (t : TableEntry).
                contains t.source_table_id (map (λ (m : MemTable Tree). m.id) e.frozen) ≡ true
                → stamp key e.global_ts (versions_of t)
                  ≤ stamp key e.global_ts
                      (memtable_versions ops versions (e.active ∷ reverse e.frozen)))
              ts
          → All
              (λ (t : TableEntry).
                IsSound files
                  (map (λ (m : MemTable Tree). m.id) e.frozen)
                  key
                  e.global_ts
                  t
                  (versions_of t))
              ts
      from [] c a d = tt
      from (t ∷ ts) c a d = (
        record { covers = c.0; answers = a.0; gone = λ s. omega (arith, d.0 s, none_there) },
        from ts c.1 a.1 d.1,
      )

  Answers-lookup_snapshot :
      (tables : List TableEntry) (key : List ℕ) (e : Engine Tree Cache)
      → ReadsInOrder ops versions versions_of files tables key e
      → stamp key e.global_ts (memtable_versions ops versions (e.active ∷ reverse e.frozen)) ≡ 0
      → Answers key e.global_ts
          (table_versions versions_of is_level0 (reverse tables)
            ++ table_versions versions_of is_deeper tables)
          (lookup_snapshot files
            (map (λ (m : MemTable Tree). m.id) e.frozen)
            key
            e.global_ts
            tables)
  unfolding lookup_snapshot
  Answers-lookup_snapshot tables key e h none_there =
      let scanned = map (λ (m : MemTable Tree). m.id) e.frozen in
      let sound = IsSound-tables tables key e h none_there in
      Answers-or_else key e.global_ts _ _ _ _ h.level0_first
        (Answers-lookup_tables versions_of is_level0 files scanned key e.global_ts (reverse tables)
          (All-reverse _ tables sound) h.level0)
        (Answers-lookup_tables versions_of is_deeper files scanned key e.global_ts tables sound
          h.deeper)

  Answers-search_all :
      (tables : List TableEntry) (key : List ℕ) (e : Engine Tree Cache)
      → ReadsInOrder ops versions versions_of files tables key e
      → length e.frozen ≤ 4
      → (o : Option (List ℕ)) × Answers key e.global_ts (all_versions tables e) o
        × ((search_all ops cache cache_get files tables key e).1 ≡ reply (o >>= non_empty))
  unfolding search_all all_versions
  Answers-search_all tables key e h few =
      let ms = e.active ∷ reverse e.frozen in
      let first =
        Answers-lookup_memtables ops cache cache_get versions key e.global_ts ms h.trees h.live
          h.memtables in
      let scanned = map (λ (m : MemTable Tree). m.id) e.frozen in
      let fits : ltb 4 (length e.frozen) ≡ false = ground arith in
      elim (Option-cases (lookup_memtables ops cache cache_get key e.global_ts ms)) [
        | inl f ↦ (
          lookup_snapshot files scanned key e.global_ts tables,
          Answers-rest key e.global_ts _ _ _ (rw f at first)
              (Answers-lookup_snapshot tables key e h (rw f at first)),
          rw (search_all, f, fits) (finish-reply ops cache cache_get versions key e.global_ts _ e),
        )
        | inr (v, f) ↦ (
          some v,
          Answers-first key e.global_ts _ _ v h.memtables_first (rw f at first),
          rw (search_all, f) (finish-reply ops cache cache_get versions key e.global_ts (some v) e),
        )
      ]

  -- The cache's answer, or that of the search
  search_again :
      (tables : List TableEntry) (key : List ℕ) (e : Engine Tree Cache) (c : Cache)
      → ReadsInOrder ops versions versions_of files tables key e
      → ReadsInOrder ops versions versions_of files tables key (record e { kv_cache = c })
  search_again tables key e c h = record {
    trees = h.trees;
    live = h.live;
    memtables = h.memtables;
    covers = h.covers;
    answers = h.answers;
    copied = h.copied;
    level0 = h.level0;
    deeper = h.deeper;
    level0_first = h.level0_first;
    memtables_first = h.memtables_first;
  }

  -- Where the trees answer by their newest versions, and so do the tables that were not written from a
  -- memtable that is still frozen, the others have no newer version of the key than the memtables, each
  -- table's bounds and filter cover its keys, what is searched first is newer, no memtable has a
  -- tombstone of the key, at most four memtables are frozen and a cached value is right: a lookup has the value of the newest visible version of all that the engine has, and finds
  -- nothing where there is none or where that value is empty.
  pub lookup_value-newest :
      (tables : List TableEntry) (key : List ℕ) (e : Engine Tree Cache)
      → ReadsInOrder ops versions versions_of files tables key e
      → length e.frozen ≤ 4
      → ((v : List ℕ)
          → (cache_get key e.global_ts e.kv_cache).0 ≡ some v
          → Answers key e.global_ts (all_versions tables e) (some v))
      → (o : Option (List ℕ)) × Answers key e.global_ts (all_versions tables e) o
        × ((lookup_value ops cache cache_get files tables key e).1 ≡ reply (o >>= non_empty))
  unfolding lookup_value all_versions
  lookup_value-newest tables key e h few cached =
      elim (Option-cases (cache_get key e.global_ts e.kv_cache).0) [
        | inr (v, f) ↦ (some v, cached v f, rw (lookup_value, f) refl)
        | inl f ↦
            let c = (cache_get key e.global_ts e.kv_cache).1 in
            let found =
              Answers-search_all tables key (record e { kv_cache = c })
                (search_again tables key e c h) few in
            (found.0, found.1, rw (lookup_value, f) found.2)
      ]
