-- ===== src/Table/Merged.antt =====
-- What the merge of Compact yields, and where it ends too early.
use keyvaluedb.Prelude.{ℕ, zero, suc, ◌≤◌, ◌≡◌, refl, true, false, List, [], ◌∷◌, arith, leb}
use keyvaluedb.Types.{KeyValuePair}
use keyvaluedb.Tree.Keys.{key_eq, key_eq_refl}
use keyvaluedb.Table.Merge.{
  MergeBounds, least_key, add_version, drain, drain_all, is_kept, kept_of, next_key, merge_all,
  batches, compact,
}

le_leb : (a b : ℕ) → a ≤ b → leb a b ≡ true
le_leb a b h = ground arith

next_key-tombstone :
    (c : MergeBounds) (kv next : KeyValuePair) (rest : List KeyValuePair)
    → c.is_last_level ≡ true
    → kv.is_tombstone ≡ true
    → kv.timestamp ≤ c.visible_ts
    → key_eq next.key kv.key ≡ false
    → next_key c ((kv ∷ next ∷ rest) ∷ []) ≡ ([], (next ∷ rest) ∷ [])
unfolding next_key least_key drain_all drain add_version kept_of is_kept
next_key-tombstone c kv next rest last gone visible other =
    rw (key_eq_refl kv.key, other, le_leb kv.timestamp c.visible_ts visible, gone, last) refl

merge_all-tombstone :
    (fuel : ℕ) (c : MergeBounds) (kv next : KeyValuePair) (rest : List KeyValuePair)
    → c.is_last_level ≡ true
    → kv.is_tombstone ≡ true
    → kv.timestamp ≤ c.visible_ts
    → key_eq next.key kv.key ≡ false
    → merge_all fuel c ((kv ∷ next ∷ rest) ∷ []) ≡ []
unfolding merge_all
merge_all-tombstone zero c kv next rest last gone visible other = refl
merge_all-tombstone (suc n) c kv next rest last gone visible other =
    rw (merge_all, next_key-tombstone c kv next rest last gone visible other) refl

-- In a merge of one source of two entries or more, on the last level, a first entry that is a visible
-- tombstone, whose next entry has another key, ends the merge: nothing of what follows reaches a
-- table.
pub compact-tombstone :
    (fuel max_sstable_size : ℕ) (c : MergeBounds) (kv next : KeyValuePair)
    (rest : List KeyValuePair)
    → c.is_last_level ≡ true
    → kv.is_tombstone ≡ true
    → kv.timestamp ≤ c.visible_ts
    → key_eq next.key kv.key ≡ false
    → compact fuel c max_sstable_size ((kv ∷ next ∷ rest) ∷ []) ≡ []
unfolding compact batches
compact-tombstone fuel max_sstable_size c kv next rest last gone visible other =
    rw (merge_all-tombstone fuel c kv next rest last gone visible other) refl

-- A merge that writes all winners: not for the last level, and with no bounds.
pub record KeepsAll (c : MergeBounds) : Type 0 where
  pub not_last : c.is_last_level ≡ false
  pub no_lower : c.range_lower ≡ []
  pub no_upper : c.range_upper ≡ []

pub is_kept-KeepsAll : (c : MergeBounds) (kv : KeyValuePair) → KeepsAll c → is_kept c kv ≡ true
unfolding is_kept
is_kept-KeepsAll c kv h = rw (h.not_last, h.no_lower, h.no_upper) (ground arith)
