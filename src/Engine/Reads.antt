-- ===== src/Engine/Reads.antt =====
-- What a lookup of the engine answers, where its sources keep what they promise.
use keyvaluedb.Prelude.{
  ℕ, ◌+◌, ◌≤◌, ◌≡◌, refl, ◌⊎◌, inl, inr, Bool, true, false, Option, none, some, List, [], ◌∷◌, ◌++◌,
  arith, if◌then◌else◌, Bool-cases, contains, All,
}
use mathlib.Core.List.{Mem, mem-append_right}
use mathlib.Core.List.Memᴰ
use mathlib.Core.Logic.{∥∥₁_map}
use keyvaluedb.Types.{KeyValuePair}
use keyvaluedb.Bloom.{might_contain}
use keyvaluedb.Tree.Keys.{key_le, key_eq, key_eq_iff}
use keyvaluedb.Scan.Stamps.{stamp, stamp-append, stamp_of-ne}
use keyvaluedb.Engine.Lookup.{TableEntry, or_else, is_skipped, find_in_table, lookup_tables}

-- An answer for a key from these versions: nothing where none is visible, or the newest one's value.
abbrev pub Answers : List ℕ → ℕ → List KeyValuePair → Option (List ℕ) → Type 0
Answers key read_ts kvs none = stamp key read_ts kvs ≡ 0
Answers key read_ts kvs (some v) =
    (kv : KeyValuePair) × Mem kv kvs
    × (kv.key ≡ key)
    × (kv.value ≡ v)
    × (kv.timestamp + 1 ≡ stamp key read_ts kvs)

-- What is visible of the key in the first versions is newer than in the others.
abbrev pub IsNewer : List ℕ → ℕ → List KeyValuePair → List KeyValuePair → Type 0
IsNewer key read_ts newer older =
    (stamp key read_ts newer ≡ 0) ⊎ (stamp key read_ts older ≤ stamp key read_ts newer)

mem_append_left : {kv : KeyValuePair} (xs ys : List KeyValuePair) → Mem kv xs → Mem kv (xs ++ ys)
mem_append_left xs ys h = ∥∥₁_map h (Memᴰ.append_left ys)

pub Answers-first :
    (key : List ℕ) (read_ts : ℕ) (newer older : List KeyValuePair) (v : List ℕ)
    → IsNewer key read_ts newer older
    → Answers key read_ts newer (some v)
    → Answers key read_ts (newer ++ older) (some v)
Answers-first key read_ts newer older v order (kv, here, same, value, stamped) = (
  kv,
  mem_append_left newer older here,
  same,
  value,
  omega (arith, order, stamped, stamp-append key read_ts newer older),
)

pub Answers-rest :
    (key : List ℕ) (read_ts : ℕ) (newer older : List KeyValuePair) (o : Option (List ℕ))
    → stamp key read_ts newer ≡ 0
    → Answers key read_ts older o
    → Answers key read_ts (newer ++ older) o
Answers-rest key read_ts newer older none gone h =
    omega (arith, gone, h, stamp-append key read_ts newer older)
Answers-rest key read_ts newer older (some v) gone (kv, here, same, value, stamped) = (
  kv,
  mem-append_right newer here,
  same,
  value,
  omega (arith, gone, stamped, stamp-append key read_ts newer older),
)

pub Answers-or_else :
    (key : List ℕ) (read_ts : ℕ) (newer older : List KeyValuePair) (o1 o2 : Option (List ℕ))
    → IsNewer key read_ts newer older
    → Answers key read_ts newer o1
    → Answers key read_ts older o2
    → Answers key read_ts (newer ++ older) (or_else o1 o2)
Answers-or_else key read_ts newer older none o2 order h1 h2 =
    Answers-rest key read_ts newer older o2 h1 h2
Answers-or_else key read_ts newer older (some v) o2 order h1 h2 =
    Answers-first key read_ts newer older v order h1

-- No version of the key is a tombstone.
abbrev pub NoTombstone : List ℕ → List KeyValuePair → Type 0
NoTombstone key kvs = All (λ (kv : KeyValuePair). (kv.key ≡ key) → kv.is_tombstone ≡ false) kvs

-- The keys of a table lie between its bounds and are in its filter.
abbrev pub Covers : TableEntry → List KeyValuePair → Type 0
Covers t kvs =
    All
      (λ (kv : KeyValuePair).
        (key_le t.min_key kv.key ≡ true)
        × (key_le kv.key t.max_key ≡ true)
        × (might_contain kv.key t.bloom ≡ true))
      kvs

pub stamp_nil : (key : List ℕ) (read_ts : ℕ) → stamp key read_ts [] ≡ 0
unfolding stamp
stamp_nil key read_ts = refl

-- A table that has the key is not passed by.
covered-is_skipped :
    (scanned : List ℕ) (t : TableEntry) (kv : KeyValuePair)
    → contains t.source_table_id scanned ≡ false
    → (key_le t.min_key kv.key ≡ true)
      × (key_le kv.key t.max_key ≡ true)
      × (might_contain kv.key t.bloom ≡ true)
    → is_skipped scanned kv.key t ≡ true
    → ⊥
unfolding is_skipped
covered-is_skipped scanned t kv fresh covers skip = ground (arith, covers.0, covers.1, covers.2)

stamp-is_skipped :
    (scanned key : List ℕ) (read_ts : ℕ) (t : TableEntry) (kvs : List KeyValuePair)
    → contains t.source_table_id scanned ≡ false
    → is_skipped scanned key t ≡ true
    → Covers t kvs
    → stamp key read_ts kvs ≡ 0
unfolding stamp
stamp-is_skipped scanned key read_ts t [] fresh skip covers = refl
stamp-is_skipped scanned key read_ts t (kv ∷ kvs) fresh skip covers = omega (
  arith,
  stamp-is_skipped scanned key read_ts t kvs fresh skip covers.1,
  stamp_of-ne key read_ts kv (other (Bool-cases (key_eq kv.key key))),
)
  where
    other : (key_eq kv.key key ≡ true) ⊎ (key_eq kv.key key ≡ false) → key_eq kv.key key ≡ false
    other (inl same) =
        absurd (
          covered-is_skipped scanned t kv fresh covers.0 (rw ((key_eq_iff kv.key key).0 same) skip))
    other (inr ne) = ne

-- The tables that a loop looks at, with the versions that they hold
module _ (versions_of : TableEntry → List KeyValuePair) (wanted : TableEntry → Bool) where
  unfoldable pub table_versions : List TableEntry → List KeyValuePair
  table_versions [] = []
  table_versions (t ∷ tables) = (if wanted t then versions_of t else []) ++ table_versions tables

  -- Each table holds newer versions of the key than those behind it.
  abbrev pub LayeredTables : List ℕ → ℕ → List TableEntry → Type 0
  LayeredTables key read_ts [] = Unit
  LayeredTables key read_ts (t ∷ tables) =
      IsNewer key read_ts (if wanted t then versions_of t else []) (table_versions tables)
      × LayeredTables key read_ts tables

-- A table that has only keys within its bounds. It answers by its newest version, unless it was
-- written from one of these memtables, and then it has no version of the key to add.
pub record IsSound (files : List ℕ → List ℕ) (scanned key : List ℕ) (read_ts : ℕ) (t : TableEntry)
    (kvs : List KeyValuePair) : Type 0 where
  pub answers :
      contains t.source_table_id scanned ≡ false
      → Answers key read_ts kvs (find_in_table files key read_ts t)
  pub covers : Covers t kvs
  pub gone : contains t.source_table_id scanned ≡ true → stamp key read_ts kvs ≡ 0

-- A table that is not passed by was not written from one of the memtables.
not_skipped-fresh :
    (scanned key : List ℕ) (t : TableEntry)
    → is_skipped scanned key t ≡ false
    → contains t.source_table_id scanned ≡ false
unfolding is_skipped
not_skipped-fresh scanned key t s = ground (arith, s)

module _ (versions_of : TableEntry → List KeyValuePair) (wanted : TableEntry → Bool)
    (files : List ℕ → List ℕ) (scanned key : List ℕ) (read_ts : ℕ) where
  stamp-passed :
      (t : TableEntry)
      → IsSound files scanned key read_ts t (versions_of t)
      → is_skipped scanned key t ≡ true
      → stamp key read_ts (versions_of t) ≡ 0
  stamp-passed t h skip = elim (Bool-cases (contains t.source_table_id scanned)) [
    | inl e ↦ h.gone e
    | inr e ↦ stamp-is_skipped scanned key read_ts t (versions_of t) e skip h.covers
  ]

  pub Answers-lookup_tables :
      (tables : List TableEntry)
      → All (λ (t : TableEntry). IsSound files scanned key read_ts t (versions_of t)) tables
      → LayeredTables versions_of wanted key read_ts tables
      → Answers key read_ts
          (table_versions versions_of wanted tables)
          (lookup_tables wanted files scanned key read_ts tables)
  unfolding lookup_tables table_versions
  Answers-lookup_tables [] sound order = stamp_nil key read_ts
  Answers-lookup_tables (t ∷ tables) sound order =
      let ih = Answers-lookup_tables tables sound.1 order.1 in
      elim (Bool-cases (wanted t)) [
        | inr e ↦ rw e ih
        | inl e ↦ elim (Bool-cases (is_skipped scanned key t)) [
          | inl s ↦
              rw (e, s) (Answers-rest key read_ts (versions_of t) _ _ (stamp-passed t sound.0 s) ih)
          | inr s ↦
              rw (e, s)
                (Answers-or_else key read_ts (versions_of t) _ _ _ (rw e at order.0)
                  (sound.0.answers (not_skipped-fresh scanned key t s)) ih)
        ]
      ]
