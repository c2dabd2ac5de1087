-- ===== src/Scan/Newest.antt =====
-- What a caller reads from a RangeIterator.
use keyvaluedb.Prelude.{
  ℕ, zero, suc, ◌≤◌, ◌≡◌, refl, sym, inl, inr, true, false, ◌&&◌, Option, none, some, List, [], ◌∷◌,
  arith, ltb, leb, Bool-cases, Option-cases, All,
}
use keyvaluedb.Types.{KeyValuePair}
use keyvaluedb.Protocol.{RangeBound}
use keyvaluedb.Table.Locate.{key_lt, Ascending}
use keyvaluedb.Scan.{
  Source, same_key, other_keys, advance, best_of, better, above_upper, find_next, collect,
}
use keyvaluedb.Scan.Stamps.{stamp, heap_stamp, total}
use keyvaluedb.Scan.Heap.{whole, AllSources, AllSources-advance, All-same_key, All-other_keys}
use keyvaluedb.Scan.Rounds.{IsHeap, Outcome, Round, find_next-Outcome, AllLater-tail}

collect-none :
    (n read_ts : ℕ) (upper : RangeBound) (heap : List Source)
    → (find_next (suc n) read_ts upper heap).0 ≡ none
    → collect (suc n) read_ts upper heap ≡ []
unfolding collect
collect-none n read_ts upper heap e = rw (collect, e) refl

collect-some :
    (n read_ts : ℕ) (upper : RangeBound) (heap : List Source) (kv : KeyValuePair)
    → (find_next (suc n) read_ts upper heap).0 ≡ some kv
    → collect (suc n) read_ts upper heap
      ≡ kv ∷ collect n read_ts upper (find_next (suc n) read_ts upper heap).1
unfolding collect
collect-some n read_ts upper heap kv e = rw (collect, e) refl

-- A predicate of all entries holds of what is found and of what stays.
module _ (P : KeyValuePair → Type 0) where
  AllFound : Option KeyValuePair → List Source → Type 0
  AllFound none rest = AllSources (All P) rest
  AllFound (some kv) rest = P kv × AllSources (All P) rest

  AllBest : Option KeyValuePair → Type 0
  AllBest none = Unit
  AllBest (some kv) = P kv

  AllBest-better :
      (read_ts : ℕ) (best : Option KeyValuePair) (kv : KeyValuePair)
      → AllBest best
      → P kv
      → AllBest (better read_ts best kv)
  unfolding AllBest better
  AllBest-better read_ts none kv h p = elim (Bool-cases (leb kv.timestamp read_ts)) [
    | inl e ↦ rw e p
    | inr e ↦ rw e tt
  ]
  AllBest-better read_ts (some best) kv h p =
      elim (Bool-cases (leb kv.timestamp read_ts && ltb best.timestamp kv.timestamp)) [
        | inl e ↦ rw e p
        | inr e ↦ rw e h
      ]

  AllBest-best_of :
      (read_ts : ℕ) (best : Option KeyValuePair) (same : List Source)
      → AllBest best
      → AllSources (All P) same
      → AllBest (best_of read_ts best same)
  unfolding best_of
  AllBest-best_of read_ts best [] h all = h
  AllBest-best_of read_ts best (s ∷ same) h all =
      AllBest-best_of read_ts (better read_ts best s.current) same
        (AllBest-better read_ts best s.current h all.0.0) all.1

  find_next-All :
      (fuel read_ts : ℕ) (upper : RangeBound) (heap : List Source)
      → AllSources (All P) heap
      → AllFound (find_next fuel read_ts upper heap).0 (find_next fuel read_ts upper heap).1
  unfolding find_next AllFound
  find_next-All zero read_ts upper heap all = all
  find_next-All (suc n) read_ts upper [] all = all
  find_next-All (suc n) read_ts upper (s ∷ heap) all =
      let key = s.current.key in
      let same_all : AllSources (All P) (s ∷ same_key key heap) =
        (all.0, All-same_key (λ (x : Source). All P (whole x)) key heap all.1) in
      let left_all : AllSources (All P) (advance (s ∷ same_key key heap) (other_keys key heap)) =
        AllSources-advance (All P) (s ∷ same_key key heap) (other_keys key heap)
          (AllLater-tail (All P) (s ∷ same_key key heap) (λ x h. h.1) same_all)
          (All-other_keys (λ (x : Source). All P (whole x)) key heap all.1) in
      let best_all =
        AllBest-best_of read_ts none (s ∷ same_key key heap) (unfold AllBest in tt) same_all in
      elim (Bool-cases (above_upper upper key)) [
        | inl e ↦ rw e all.1
        | inr e ↦ elim (Option-cases (best_of read_ts none (s ∷ same_key key heap))) [
          | inl e1 ↦
              rw (e, e1)
                (find_next-All n read_ts upper
                  (advance (s ∷ same_key key heap) (other_keys key heap)) left_all)
          | inr (kv, e1) ↦ rw (e, e1) (unfold AllBest in rw e1 at best_all, left_all)
        ]
      ]

  pub collect-All :
      (fuel read_ts : ℕ) (upper : RangeBound) (heap : List Source)
      → AllSources (All P) heap
      → All P (collect fuel read_ts upper heap)
  unfolding AllFound
  collect-All zero read_ts upper heap all = unfold collect in tt
  collect-All (suc n) read_ts upper heap all =
      let found = find_next-All (suc n) read_ts upper heap all in
      let rest = (find_next (suc n) read_ts upper heap).1 in
      elim (Option-cases (find_next (suc n) read_ts upper heap).0) [
        | inl e ↦ rw (collect-none n read_ts upper heap e) tt
        | inr (kv, e) ↦
            let both : P kv × AllSources (All P) rest = rw e at found in
            rw (collect-some n read_ts upper heap kv e)
              (both.0, collect-All n read_ts upper rest both.1)
      ]

module _ (read_ts : ℕ) (upper : RangeBound) where
  -- A version that a scan may give
  unfoldable pub Fits : KeyValuePair → Type 0
  Fits kv = (kv.timestamp ≤ read_ts) × (above_upper upper kv.key ≡ false)

  pub collect-Ascending :
      (fuel : ℕ) (heap : List Source)
      → IsHeap heap
      → total heap ≤ fuel
      → Ascending (collect fuel read_ts upper heap) × All Fits (collect fuel read_ts upper heap)
  unfolding Fits
  collect-Ascending zero heap h enough = unfold collect in (tt, tt)
  collect-Ascending (suc n) heap h enough =
      let found = find_next-Outcome read_ts upper (suc n) heap h enough in
      let rest = (find_next (suc n) read_ts upper heap).1 in
      elim (Option-cases (find_next (suc n) read_ts upper heap).0) [
        | inl e ↦ rw (collect-none n read_ts upper heap e) (tt, tt)
        | inr (kv, e) ↦
            let round : Round read_ts upper heap kv rest = rw e at found in
            let ih = collect-Ascending n rest round.is_heap (omega (arith, round.less)) in
            rw (collect-some n read_ts upper heap kv e) (
              (
                collect-All (λ (x : KeyValuePair). key_lt kv.key x.key ≡ true) n read_ts upper rest
                    round.above,
                ih.0,
              ),
              ((round.visible, round.in_range), ih.1),
            )
      ]

  pub collect-stamp :
      (fuel : ℕ) (heap : List Source) (key : List ℕ)
      → IsHeap heap
      → total heap ≤ fuel
      → above_upper upper key ≡ false
      → stamp key read_ts (collect fuel read_ts upper heap) ≡ heap_stamp key read_ts heap
  unfolding stamp
  collect-stamp zero [] key h enough below = unfold collect heap_stamp in refl
  collect-stamp zero (s ∷ heap) key h enough below = absurd (unfold total in omega arith)
  collect-stamp (suc n) heap key h enough below =
      let found = find_next-Outcome read_ts upper (suc n) heap h enough in
      let rest = (find_next (suc n) read_ts upper heap).1 in
      elim (Option-cases (find_next (suc n) read_ts upper heap).0) [
        | inl e ↦
            let out : Outcome read_ts upper heap none rest = rw e at found in
            rw (collect-none n read_ts upper heap e) (sym (out key below))
        | inr (kv, e) ↦
            let round : Round read_ts upper heap kv rest = rw e at found in
            let ih = collect-stamp n rest key round.is_heap (omega (arith, round.less)) below in
            rw (collect-some n read_ts upper heap kv e) (omega (arith, ih, round.stamps key))
      ]
