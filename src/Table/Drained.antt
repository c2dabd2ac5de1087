-- ===== src/Table/Drained.antt =====
-- What a round of the merge of Compact takes from its sources.
use keyvaluedb.Prelude.{
  ℕ, ◌≤◌, ◌<◌, max, ◌≡◌, refl, ◌∙◌, ◌⊎◌, inl, inr, true, Option, none, some, List, [], ◌∷◌, ◌++◌,
  arith, ltb, leb, if◌then◌else◌, Bool-cases, length, length-append, All, All-append,
}
use keyvaluedb.Types.{KeyValuePair}
use keyvaluedb.Tree.Keys.{key_eq, key_eq_iff}
use keyvaluedb.Table.Chunks.{concat}
use keyvaluedb.Table.Locate.{All-append_left, All-append_right}
use keyvaluedb.Table.Merge.{Versions, add_version, drain, drain_all}
use keyvaluedb.Scan.Stamps.{stamp, stamp_of, stamp-append}

abbrev pub winners : Option KeyValuePair → List KeyValuePair
winners none = []
winners (some kv) = kv ∷ []

-- The entries that a round writes, where its winner is kept
abbrev pub written : Versions → List KeyValuePair
written v = winners v.vis_winner ++ v.future

module _ (read_ts : ℕ) (key : List ℕ) where
  -- The winner is a version of the key that is visible.
  abbrev pub IsWinner : Option KeyValuePair → Type 0
  IsWinner none = Unit
  IsWinner (some w) = (w.key ≡ key) × (w.timestamp ≤ read_ts)

  IsWinner-add_version :
      (cur : KeyValuePair) (v : Versions)
      → cur.key ≡ key
      → IsWinner v.vis_winner
      → IsWinner (add_version read_ts cur v).vis_winner
  unfolding add_version
  IsWinner-add_version cur v same h = elim (Bool-cases (leb cur.timestamp read_ts)) [
    | inr e ↦ rw e h
    | inl e ↦ rw e (of e v.vis_winner h)
  ]
    where
      of :
          leb cur.timestamp read_ts ≡ true
          → (o : Option KeyValuePair) → IsWinner o
          → IsWinner (elim o [
            | none ↦ some cur
            | some winner ↦ if ltb winner.timestamp cur.timestamp then some cur else some winner
          ])
      of e none h = (same, ground (arith, e))
      of e (some w) h = elim (Bool-cases (ltb w.timestamp cur.timestamp)) [
        | inl l ↦ rw l (same, ground (arith, e))
        | inr l ↦ rw l h
      ]

  -- A version of the key adds what is visible of it.
  stamp-add_version :
      (q : List ℕ) (r : ℕ) (cur : KeyValuePair) (v : Versions)
      → read_ts ≤ r
      → cur.key ≡ key
      → IsWinner v.vis_winner
      → stamp q r (written (add_version read_ts cur v))
        ≡ max (stamp_of q r cur) (stamp q r (written v))
  unfolding add_version stamp
  stamp-add_version q r cur v le same h = of v.vis_winner v.future h
    where
      of :
          (o : Option KeyValuePair) (f : List KeyValuePair)
          → IsWinner o
          → stamp q r (written (add_version read_ts cur (record { vis_winner = o; future = f })))
            ≡ max (stamp_of q r cur) (stamp q r (winners o ++ f))
      of none f h = elim (Bool-cases (leb cur.timestamp read_ts)) [
        | inl e ↦ rw e refl
        | inr e ↦ rw e (omega (arith, stamp-append q r f (cur ∷ [])))
      ]
      of (some w) f h = elim (Bool-cases (leb cur.timestamp read_ts)) [
        | inr e ↦ rw e (omega (arith, stamp-append q r f (cur ∷ [])))
        | inl e ↦ elim (Bool-cases (ltb w.timestamp cur.timestamp)) [
          | inl l ↦ rw (e, l) (unfold stamp_of in rw (same, h.0) (ground (arith, l, e, h.1, le)))
          | inr l ↦ rw (e, l) (unfold stamp_of in rw (same, h.0) (ground (arith, l, e, h.1, le)))
        ]
      ]

  -- A round writes something once it has taken a version.
  sizes-add_version :
      (cur : KeyValuePair) (v : Versions) → 0 < length (written (add_version read_ts cur v))
  unfolding add_version
  sizes-add_version cur v = of v.vis_winner v.future
    where
      of :
          (o : Option KeyValuePair) (f : List KeyValuePair)
          → 0 < length (written (add_version read_ts cur (record { vis_winner = o; future = f })))
      of none f = elim (Bool-cases (leb cur.timestamp read_ts)) [
        | inl e ↦ rw e (omega arith)
        | inr e ↦ rw e (omega (arith, length-append f (cur ∷ [])))
      ]
      of (some w) f = elim (Bool-cases (leb cur.timestamp read_ts)) [
        | inr e ↦ rw e (omega arith)
        | inl e ↦ elim (Bool-cases (ltb w.timestamp cur.timestamp)) [
          | inl l ↦ rw (e, l) (omega arith)
          | inr l ↦ rw (e, l) (omega arith)
        ]
      ]

  All-add_version :
      (P : KeyValuePair → Type 0) (cur : KeyValuePair) (v : Versions)
      → P cur
      → All P (written v)
      → All P (written (add_version read_ts cur v))
  unfolding add_version
  All-add_version P cur v p h = of v.vis_winner v.future h
    where
      of :
          (o : Option KeyValuePair) (f : List KeyValuePair)
          → All P (winners o ++ f)
          → All P (written (add_version read_ts cur (record { vis_winner = o; future = f })))
      of none f h = elim (Bool-cases (leb cur.timestamp read_ts)) [
        | inl e ↦ rw e (p, h)
        | inr e ↦ rw e (All-append P f (cur ∷ []) h (p, tt))
      ]
      of (some w) f h = elim (Bool-cases (leb cur.timestamp read_ts)) [
        | inr e ↦ rw e (h.0, All-append P f (cur ∷ []) h.1 (p, tt))
        | inl e ↦ elim (Bool-cases (ltb w.timestamp cur.timestamp)) [
          | inl l ↦ rw (e, l) (p, h.1)
          | inr l ↦ rw (e, l) h
        ]
      ]

  -- What is drained from entries, in the order in which it is taken: nothing visible is lost, nothing
  -- comes in, and what is taken is of the key.
  pub record Drains (kvs : List KeyValuePair) (v v' : Versions) (rest : List KeyValuePair)
      : Type 1 where
    pub winner : IsWinner v'.vis_winner
    pub stamps :
        (q : List ℕ) (r : ℕ)
        → read_ts ≤ r
        → max (stamp q r (written v')) (stamp q r rest)
          ≡ max (stamp q r (written v)) (stamp q r kvs)
    pub shorter : length rest ≤ length kvs
    pub taken : length rest < length kvs → 0 < length (written v')
    pub still : 0 < length (written v) → 0 < length (written v')
    pub each : (P : KeyValuePair → Type 0) → All P kvs → All P (written v) → All P (written v')
    pub left : (P : KeyValuePair → Type 0) → All P kvs → All P rest
    pub same :
        All (λ (x : KeyValuePair). x.key ≡ key) (written v)
        → All (λ (x : KeyValuePair). x.key ≡ key) (written v')

  Drains-none :
      (kvs : List KeyValuePair) (v : Versions) → IsWinner v.vis_winner → Drains kvs v v kvs
  Drains-none kvs v h = record {
    winner = h;
    stamps = λ q r le. refl;
    shorter = omega arith;
    taken = λ t. ground (arith, t);
    still = λ t. t;
    each = λ P all done. done;
    left = λ P all. all;
    same = λ all. all;
  }

  pub Drains-drain :
      (kvs : List KeyValuePair) (v : Versions)
      → IsWinner v.vis_winner
      → Drains kvs v (drain read_ts key kvs v).0 (drain read_ts key kvs v).1
  unfolding drain stamp
  Drains-drain [] v h = Drains-none [] v h
  Drains-drain (kv ∷ kvs) v h = elim (Bool-cases (key_eq kv.key key)) [
    | inr e ↦ rw e (Drains-none (kv ∷ kvs) v h)
    | inl e ↦
        let same = (key_eq_iff kv.key key).0 e in
        let ih = Drains-drain kvs (add_version read_ts kv v) (IsWinner-add_version kv v same h) in
        rw e (record {
          winner = ih.winner;
          stamps = λ q r le. ih.stamps q r le ∙ omega (arith, stamp-add_version q r kv v le same h);
          shorter = omega (arith, ih.shorter);
          taken = λ t. ih.still (sizes-add_version kv v);
          still = λ t. ih.still (sizes-add_version kv v);
          each = λ P all done. ih.each P all.1 (All-add_version P kv v all.0 done);
          left = λ P all. ih.left P all.1;
          same = λ all. ih.same (All-add_version _ kv v same all);
        })
  ]

  pub Drains-drain_all :
      (sources : List (List KeyValuePair)) (v : Versions)
      → IsWinner v.vis_winner
      → Drains
          (concat sources)
          v
          (drain_all read_ts key sources v).0
          (concat (drain_all read_ts key sources v).1)
  unfolding drain_all concat
  Drains-drain_all [] v h = Drains-none [] v h
  Drains-drain_all (src ∷ sources) v h =
      let one = Drains-drain src v h in
      let v' = (drain read_ts key src v).0 in
      let rest = (drain read_ts key src v).1 in
      let ih = Drains-drain_all sources v' one.winner in
      let later = concat (drain_all read_ts key sources v').1 in
      let longs = length-append src (concat sources) in
      let longs' = length-append rest later in
      record {
        winner = ih.winner;
        stamps = λ q r le. omega (
          arith,
          ih.stamps q r le,
          one.stamps q r le,
          stamp-append q r src (concat sources),
          stamp-append q r rest later,
        );
        shorter = omega (arith, ih.shorter, one.shorter, longs, longs');
        taken = λ t. elim (Bool-cases (ltb (length rest) (length src))) [
          | inl e ↦ ih.still (one.taken (ground (arith, e)))
          | inr e ↦ ih.taken (ground (arith, e, t, longs, longs'))
        ];
        still = λ t. ih.still (one.still t);
        each = λ P all done.
            ih.each P (All-append_right P src (concat sources) all)
              (one.each P (All-append_left P src (concat sources) all) done);
        left = λ P all.
            All-append P rest later (one.left P (All-append_left P src (concat sources) all))
              (ih.left P (All-append_right P src (concat sources) all));
        same = λ all. ih.same (one.same all);
      }

  -- A source has a version of the key at its head.
  abbrev pub HasHead : List (List KeyValuePair) → Type 0
  HasHead [] = ⊥
  HasHead ([] ∷ sources) = HasHead sources
  HasHead ((kv ∷ kvs) ∷ sources) = (kv.key ≡ key) ⊎ HasHead sources

  drain_head :
      (kv : KeyValuePair) (kvs : List KeyValuePair) (v : Versions)
      → kv.key ≡ key
      → IsWinner v.vis_winner
      → length (drain read_ts key (kv ∷ kvs) v).1 ≤ length kvs
  unfolding drain
  drain_head kv kvs v same h =
      rw ((key_eq_iff kv.key key).1 same)
        (Drains-drain kvs (add_version read_ts kv v) (IsWinner-add_version kv v same h)).shorter

  -- So a round takes something.
  pub drain_all-shorter :
      (sources : List (List KeyValuePair)) (v : Versions)
      → HasHead sources
      → IsWinner v.vis_winner
      → length (concat (drain_all read_ts key sources v).1) < length (concat sources)
  unfolding drain drain_all concat
  drain_all-shorter [] v head h = absurd head
  drain_all-shorter ([] ∷ sources) v head h = drain_all-shorter sources v head h
  drain_all-shorter ((kv ∷ kvs) ∷ sources) v (inl same) h =
      let one = Drains-drain (kv ∷ kvs) v h in
      let later = Drains-drain_all sources (drain read_ts key (kv ∷ kvs) v).0 one.winner in
      let left = concat (drain_all read_ts key sources (drain read_ts key (kv ∷ kvs) v).0).1 in
      omega (
        arith,
        drain_head kv kvs v same h,
        later.shorter,
        length-append (kv ∷ kvs) (concat sources),
        length-append (drain read_ts key (kv ∷ kvs) v).1 left,
      )
  drain_all-shorter ((kv ∷ kvs) ∷ sources) v (inr head) h =
      let one = Drains-drain (kv ∷ kvs) v h in
      let left = concat (drain_all read_ts key sources (drain read_ts key (kv ∷ kvs) v).0).1 in
      omega (
        arith,
        one.shorter,
        drain_all-shorter sources (drain read_ts key (kv ∷ kvs) v).0 head one.winner,
        length-append (kv ∷ kvs) (concat sources),
        length-append (drain read_ts key (kv ∷ kvs) v).1 left,
      )
