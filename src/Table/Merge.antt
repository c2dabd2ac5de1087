-- ===== src/Table/Merge.antt =====
-- The merge of SSTable::Compact (src/sstable.cpp). A source is the list of the entries that its
-- iterator is still to yield, with the aborted ones left out by the iterator.
use keyvaluedb.Prelude.{
  ℕ, zero, suc, ◌+◌, Bool, not, ◌&&◌, ◌||◌, Option, none, some, List, [], ◌∷◌, ◌++◌, ltb, leb, ◌==◌,
  if◌then◌else◌, length,
}
use keyvaluedb.Types.{KeyValuePair}
use keyvaluedb.Tree.Keys.{key_le, key_eq}

-- The arguments of Compact that the merge reads; an empty bound is none.
pub record MergeBounds : Type 0 where
  pub is_last_level : Bool
  pub range_lower : List ℕ
  pub range_upper : List ℕ
  pub visible_ts : ℕ

-- The least key at the head of a source
unfoldable pub least_key : List (List KeyValuePair) → Option (List ℕ)
least_key [] = none
least_key ([] ∷ sources) = least_key sources
least_key ((kv ∷ kvs) ∷ sources) = elim (least_key sources) [
  | none ↦ some kv.key
  | some key ↦ some (if key_le kv.key key then kv.key else key)
]

pub record Versions : Type 0 where
  pub vis_winner : Option KeyValuePair
  pub future : List KeyValuePair

unfoldable pub add_version : ℕ → KeyValuePair → Versions → Versions
add_version visible_ts cur v =
    if leb cur.timestamp visible_ts
    then record v {
      vis_winner = elim v.vis_winner [
        | none ↦ some cur
        | some winner ↦ if ltb winner.timestamp cur.timestamp then some cur else some winner
      ];
    }
    else record v { future = v.future ++ (cur ∷ []) }

-- The entries of the key at the head of one source, and of all of them
unfoldable pub drain : ℕ → List ℕ → List KeyValuePair → Versions → Versions × List KeyValuePair
drain visible_ts key [] v = (v, [])
drain visible_ts key (kv ∷ kvs) v =
    let rest = drain visible_ts key kvs (add_version visible_ts kv v) in
    if key_eq kv.key key then rest else (v, kv ∷ kvs)

unfoldable pub drain_all :
    ℕ → List ℕ → List (List KeyValuePair) → Versions → Versions × List (List KeyValuePair)
drain_all visible_ts key [] v = (v, [])
drain_all visible_ts key (source ∷ sources) v =
    let one = drain visible_ts key source v in
    let rest = drain_all visible_ts key sources one.0 in (rest.0, one.1 ∷ rest.1)

-- Is the winner written?
unfoldable pub is_kept : MergeBounds → KeyValuePair → Bool
is_kept c kv =
    not (kv.is_tombstone && c.is_last_level)
    && ((length c.range_lower == 0 || key_le c.range_lower kv.key)
        && (length c.range_upper == 0 || key_le kv.key c.range_upper))

unfoldable pub kept_of : MergeBounds → Option KeyValuePair → List KeyValuePair
kept_of c none = []
kept_of c (some kv) = if is_kept c kv then kv ∷ [] else []

-- The lambda nextKey. Its loop over `future` does nothing: each `continue` goes on with the next one.
unfoldable pub next_key :
    MergeBounds → List (List KeyValuePair) → List KeyValuePair × List (List KeyValuePair)
next_key c sources = elim (least_key sources) [
  | none ↦ ([], sources)
  | some key ↦
      let drained =
        drain_all c.visible_ts key sources (record { vis_winner = none; future = [] }) in
      (kept_of c drained.0.vis_winner ++ drained.0.future, drained.1)
]

-- The entries that the outer loop puts into its batches, on fuel: it ends where nextKey gives none.
unfoldable pub merge_all : ℕ → MergeBounds → List (List KeyValuePair) → List KeyValuePair
merge_all zero c sources = []
merge_all (suc n) c sources =
    let next = next_key c sources in
    let rest = merge_all n c next.1 in elim next.0 [ [] ↦ [] | kv ∷ kvs ↦ (kv ∷ kvs) ++ rest ]

-- The batches that go to a table each
unfoldable pub batches : ℕ → List KeyValuePair → ℕ → List KeyValuePair → List (List KeyValuePair)
batches max_size batch approx [] = if length batch == 0 then [] else batch ∷ []
batches max_size batch approx (kv ∷ kvs) =
    let es = length kv.key + length kv.value + 24 in
    let cut = batches max_size (kv ∷ []) es kvs in
    let more = batches max_size (batch ++ (kv ∷ [])) (approx + es) kvs in
    if not (length batch == 0) && ltb max_size (approx + es) then batch ∷ cut else more

unfoldable pub compact : ℕ → MergeBounds → ℕ → List (List KeyValuePair) → List (List KeyValuePair)
compact fuel c max_sstable_size sources = batches max_sstable_size [] 0 (merge_all fuel c sources)
