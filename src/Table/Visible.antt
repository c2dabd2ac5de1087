-- ===== src/Table/Visible.antt =====
-- The merge of Compact keeps what a reader at its timestamp sees, in the order of the keys.
use keyvaluedb.Prelude.{
  ℕ, zero, suc, ◌≤◌, ◌<◌, ◌≡◌, refl, sym, ap, ◌∙◌, ◌⊎◌, inl, inr, true, Option, none, some, List,
  [], ◌∷◌, ◌++◌, arith, if◌then◌else◌, Bool-cases, Option-cases, length, All, All-append,
}
use mathlib.Core.List.{Mem}
use mathlib.Core.Option.{some-injective, none-ne-some}
use mathlib.Core.Path.{subst}
use keyvaluedb.Types.{KeyValuePair}
use keyvaluedb.Tree.Keys.{key_le, key_eq, key_le_refl, key_le_trans, key_le_total}
use keyvaluedb.Table.Chunks.{concat}
use keyvaluedb.Table.Locate.{All-map}
use keyvaluedb.Table.Merge.{
  MergeBounds, Versions, least_key, add_version, drain, drain_all, kept_of, next_key, merge_all,
}
use keyvaluedb.Table.Merged.{KeepsAll, is_kept-KeepsAll}
use keyvaluedb.Table.Drained.{
  winners, written, Drains, Drains-drain_all, HasHead, drain_all-shorter,
}
use keyvaluedb.Scan.Stamps.{stamp, stamp-append}
use keyvaluedb.Scan.Range.{All-Mem}

-- The keys do not descend.
abbrev pub InOrder : List KeyValuePair → Type 0
InOrder [] = Unit
InOrder (kv ∷ kvs) = All (λ (x : KeyValuePair). key_le kv.key x.key ≡ true) kvs × InOrder kvs

kept_of-KeepsAll :
    (c : MergeBounds) (o : Option KeyValuePair) → KeepsAll c → kept_of c o ≡ winners o
unfolding kept_of
kept_of-KeepsAll c none h = refl
kept_of-KeepsAll c (some kv) h = rw (is_kept-KeepsAll c kv h) refl

least_head :
    (read_ts : ℕ) (key : List ℕ) (kv : KeyValuePair) (sources : List (List KeyValuePair))
    (o : Option (List ℕ))
    → ((k : List ℕ) → o ≡ some k → HasHead read_ts k sources)
    → elim o [ none ↦ some kv.key | some k ↦ some (if key_le kv.key k then kv.key else k) ]
      ≡ some key
    → (kv.key ≡ key) ⊎ HasHead read_ts key sources
least_head read_ts key kv sources none later e = inl (some-injective kv.key key e)
least_head read_ts key kv sources (some k) later e = elim (Bool-cases (key_le kv.key k)) [
  | inl l ↦ inl (some-injective kv.key key (rw l at e))
  | inr l ↦ inr (later key (rw l at e))
]

least_key-HasHead :
    (read_ts : ℕ) (key : List ℕ) (sources : List (List KeyValuePair))
    → least_key sources ≡ some key
    → HasHead read_ts key sources
unfolding least_key
least_key-HasHead read_ts key [] e = absurd (none-ne-some key e)
least_key-HasHead read_ts key ([] ∷ sources) e = least_key-HasHead read_ts key sources e
least_key-HasHead read_ts key ((kv ∷ kvs) ∷ sources) e =
    least_head read_ts key kv sources (least_key sources)
      (λ k f. least_key-HasHead read_ts k sources f) e

Above : List ℕ → List KeyValuePair → Type 0
Above key kvs = All (λ (x : KeyValuePair). key_le key x.key ≡ true) kvs

Above-trans :
    (k key : List ℕ) (kvs : List KeyValuePair) → key_le key k ≡ true → Above k kvs → Above key kvs
unfolding Above
Above-trans k key [] le all = tt
Above-trans k key (x ∷ xs) le all =
    (key_le_trans key k x.key le all.0, Above-trans k key xs le all.1)

least_key-none :
    (sources : List (List KeyValuePair)) → least_key sources ≡ none → concat sources ≡ []
unfolding least_key concat
least_key-none [] e = refl
least_key-none ([] ∷ sources) e = least_key-none sources e
least_key-none ((kv ∷ kvs) ∷ sources) e = absurd (of (least_key sources) e)
  where
    of :
        (o : Option (List ℕ))
        → elim o [ none ↦ some kv.key | some k ↦ some (if key_le kv.key k then kv.key else k) ]
          ≡ none
        → ⊥
    of none e = none-ne-some kv.key (sym e)
    of (some k) e = none-ne-some (if key_le kv.key k then kv.key else k) (sym e)

Above-least_head :
    (key : List ℕ) (kv : KeyValuePair) (kvs : List KeyValuePair)
    (sources : List (List KeyValuePair)) (o : Option (List ℕ))
    → Above kv.key kvs
    → (o ≡ none → concat sources ≡ [])
    → ((k : List ℕ) → o ≡ some k → Above k (concat sources))
    → elim o [ none ↦ some kv.key | some k ↦ some (if key_le kv.key k then kv.key else k) ]
      ≡ some key
    → Above key (kv ∷ (kvs ++ concat sources))
unfolding Above
Above-least_head key kv kvs sources none up gone later e =
    subst (λ (k : List ℕ). Above k (kv ∷ (kvs ++ concat sources))) (some-injective kv.key key e)
      (
        key_le_refl kv.key,
        All-append _ kvs (concat sources) up (subst (Above kv.key) (sym (gone refl)) tt),
      )
Above-least_head key kv kvs sources (some k) up gone later e = elim (Bool-cases (key_le kv.key k)) [
  | inl l ↦
      subst (λ (k : List ℕ). Above k (kv ∷ (kvs ++ concat sources)))
        (some-injective kv.key key (rw l at e))
        (
          key_le_refl kv.key,
          All-append _ kvs (concat sources) up
              (Above-trans k kv.key (concat sources) l (later k refl)),
        )
  | inr l ↦
      let le : key_le k kv.key ≡ true = ground (arith, l, key_le_total kv.key k) in
      subst (λ (k : List ℕ). Above k (kv ∷ (kvs ++ concat sources)))
        (some-injective k key (rw l at e))
        (le, All-append _ kvs (concat sources) (Above-trans kv.key k kvs le up) (later k refl))
]

-- The least key is at most every key.
least_key-Above :
    (key : List ℕ) (sources : List (List KeyValuePair))
    → All InOrder sources
    → least_key sources ≡ some key
    → Above key (concat sources)
unfolding least_key concat
least_key-Above key [] up e = absurd (none-ne-some key e)
least_key-Above key ([] ∷ sources) up e = least_key-Above key sources up.1 e
least_key-Above key ((kv ∷ kvs) ∷ sources) up e =
    Above-least_head key kv kvs sources (least_key sources) (unfold Above in up.0.0)
      (least_key-none sources) (λ k f. least_key-Above k sources up.1 f) e

drain-InOrder :
    (read_ts : ℕ) (key : List ℕ) (kvs : List KeyValuePair) (v : Versions)
    → InOrder kvs
    → InOrder (drain read_ts key kvs v).1
unfolding drain
drain-InOrder read_ts key [] v up = tt
drain-InOrder read_ts key (kv ∷ kvs) v up = elim (Bool-cases (key_eq kv.key key)) [
  | inl e ↦ rw e (drain-InOrder read_ts key kvs (add_version read_ts kv v) up.1)
  | inr e ↦ rw e up
]

drain_all-InOrder :
    (read_ts : ℕ) (key : List ℕ) (sources : List (List KeyValuePair)) (v : Versions)
    → All InOrder sources
    → All InOrder (drain_all read_ts key sources v).1
unfolding drain_all
drain_all-InOrder read_ts key [] v up = tt
drain_all-InOrder read_ts key (src ∷ sources) v up = (
  drain-InOrder read_ts key src v up.0,
  drain_all-InOrder read_ts key sources (drain read_ts key src v).0 up.1,
)

InOrder-same :
    (key : List ℕ) (ws kvs : List KeyValuePair)
    → All (λ (x : KeyValuePair). x.key ≡ key) ws
    → Above key kvs
    → InOrder kvs
    → InOrder (ws ++ kvs)
unfolding Above
InOrder-same key [] kvs same above up = up
InOrder-same key (w ∷ ws) kvs same above up = (
  All-append (λ (x : KeyValuePair). key_le w.key x.key ≡ true) ws kvs
      (All-map (λ (x : KeyValuePair). x.key ≡ key) _ ws (λ x e. rw (same.0, e) (key_le_refl key))
        same.1)
      (rw (same.0) above),
  InOrder-same key ws kvs same.1 above up,
)

not_empty :
    (xs rest : List KeyValuePair)
    → 0 < length xs
    → elim xs [ [] ↦ [] | kv ∷ kvs ↦ (kv ∷ kvs) ++ rest ] ≡ xs ++ rest
not_empty [] rest h = absurd (omega (arith, h))
not_empty (x ∷ xs) rest h = refl

abbrev no_versions : Versions
no_versions = record { vis_winner = none; future = [] }

nothing : (kvs : List KeyValuePair) → length kvs ≤ 0 → kvs ≡ []
nothing [] h = refl
nothing (kv ∷ kvs) h = absurd (omega (arith, h))

module _ (c : MergeBounds) (keeps : KeepsAll c) where
  abbrev drained : List ℕ → List (List KeyValuePair) → Versions × List (List KeyValuePair)
  drained key sources = drain_all c.visible_ts key sources no_versions

  Drains-drained :
      (key : List ℕ) (sources : List (List KeyValuePair))
      → Drains c.visible_ts key
          (concat sources)
          no_versions
          (drained key sources).0
          (concat (drained key sources).1)
  Drains-drained key sources = Drains-drain_all c.visible_ts key sources no_versions tt

  next_key-none :
      (sources : List (List KeyValuePair))
      → least_key sources ≡ none
      → next_key c sources ≡ ([], sources)
  unfolding next_key
  next_key-none sources e = rw (next_key, e) refl

  next_key-some :
      (sources : List (List KeyValuePair)) (key : List ℕ)
      → least_key sources ≡ some key
      → next_key c sources ≡ (written (drained key sources).0, (drained key sources).1)
  unfolding next_key
  next_key-some sources key e =
      rw (next_key, e, kept_of-KeepsAll c (drained key sources).0.vis_winner keeps) refl

  merge_all-end :
      (n : ℕ) (sources : List (List KeyValuePair))
      → least_key sources ≡ none
      → merge_all n c sources ≡ []
  unfolding merge_all
  merge_all-end zero sources e = refl
  merge_all-end (suc n) sources e = rw (merge_all, next_key-none sources e) refl

  -- What a round that writes something is followed by
  abbrev glue : ℕ → List KeyValuePair × List (List KeyValuePair) → List KeyValuePair
  glue n next = elim next.0 [ [] ↦ [] | kv ∷ kvs ↦ (kv ∷ kvs) ++ merge_all n c next.1 ]

  merge_all-suc :
      (n : ℕ) (sources : List (List KeyValuePair))
      → merge_all (suc n) c sources ≡ glue n (next_key c sources)
  unfolding merge_all
  merge_all-suc n sources = refl

  merge_all-round :
      (n : ℕ) (sources : List (List KeyValuePair)) (key : List ℕ)
      → least_key sources ≡ some key
      → merge_all (suc n) c sources
        ≡ written (drained key sources).0 ++ merge_all n c (drained key sources).1
  merge_all-round n sources key e =
      let took =
        drain_all-shorter c.visible_ts key sources no_versions
          (least_key-HasHead c.visible_ts key sources e) tt in
      merge_all-suc n sources
      ∙ ap (glue n) (next_key-some sources key e)
      ∙ not_empty (written (drained key sources).0) (merge_all n c (drained key sources).1)
          ((Drains-drained key sources).taken took)

  merge_all-All :
      (P : KeyValuePair → Type 0) (n : ℕ) (sources : List (List KeyValuePair))
      → All P (concat sources)
      → All P (merge_all n c sources)
  merge_all-All P zero sources all = unfold merge_all in tt
  merge_all-All P (suc n) sources all = elim (Option-cases (least_key sources)) [
    | inl e ↦ rw (merge_all-end (suc n) sources e) tt
    | inr (key, e) ↦
        let took = Drains-drained key sources in
        rw (merge_all-round n sources key e) (
          All-append P _ _ (took.each P all tt)
            (merge_all-All P n (drained key sources).1 (took.left P all)))
  ]

  merge_all-InOrder :
      (n : ℕ) (sources : List (List KeyValuePair))
      → All InOrder sources
      → InOrder (merge_all n c sources)
  merge_all-InOrder zero sources up = unfold merge_all in tt
  merge_all-InOrder (suc n) sources up = elim (Option-cases (least_key sources)) [
    | inl e ↦ rw (merge_all-end (suc n) sources e) tt
    | inr (key, e) ↦
        let took = Drains-drained key sources in
        let above = least_key-Above key sources up e in
        rw (merge_all-round n sources key e) (
          InOrder-same key _ _ (took.same tt)
            (unfold Above in
              merge_all-All (λ (x : KeyValuePair). key_le key x.key ≡ true) n
                (drained key sources).1 (took.left _ above))
            (merge_all-InOrder n (drained key sources).1
              (drain_all-InOrder c.visible_ts key sources no_versions up)))
  ]

  merge_all-stamp :
      (q : List ℕ) (r n : ℕ) (sources : List (List KeyValuePair))
      → c.visible_ts ≤ r
      → length (concat sources) ≤ n
      → stamp q r (merge_all n c sources) ≡ stamp q r (concat sources)
  unfolding stamp
  merge_all-stamp q r zero sources le few =
      let gone = nothing (concat sources) few in unfold merge_all in rw gone refl
  merge_all-stamp q r (suc n) sources le few = elim (Option-cases (least_key sources)) [
    | inl e ↦ rw (merge_all-end (suc n) sources e, least_key-none sources e) refl
    | inr (key, e) ↦
        let took = Drains-drained key sources in
        let shorter =
          drain_all-shorter c.visible_ts key sources no_versions
            (least_key-HasHead c.visible_ts key sources e) tt in
        let ih = merge_all-stamp q r n (drained key sources).1 le (omega (arith, few, shorter)) in
        rw (merge_all-round n sources key e) (
          omega (
            arith,
            ih,
            took.stamps q r le,
            stamp-append q r (written (drained key sources).0)
                (merge_all n c (drained key sources).1),
          ))
  ]

  -- A merge of any sources whose keys do not descend, not for the last level and with no bounds, yields
  -- entries of the sources, in the order of their keys. A reader at the merge's timestamp or later sees
  -- of each key the version that it saw before. As many rounds as there are entries are enough.
  pub merge_all-newest :
      (fuel read_ts : ℕ) (sources : List (List KeyValuePair))
      → All InOrder sources
      → length (concat sources) ≤ fuel
      → c.visible_ts ≤ read_ts
      → InOrder (merge_all fuel c sources)
        × All (λ (kv : KeyValuePair). Mem kv (concat sources)) (merge_all fuel c sources)
        × ((key : List ℕ)
            → stamp key read_ts (merge_all fuel c sources) ≡ stamp key read_ts (concat sources))
  merge_all-newest fuel read_ts sources up enough le = (
    merge_all-InOrder fuel sources up,
    merge_all-All (λ (kv : KeyValuePair). Mem kv (concat sources)) fuel sources
        (All-Mem (concat sources)),
    λ key. merge_all-stamp key read_ts fuel sources le enough,
  )
