-- ===== src/Scan/Rounds.antt =====
-- One call of FindNext.
use keyvaluedb.Prelude.{
  ℕ, zero, suc, ◌≤◌, ◌<◌, max, ◌≡◌, refl, sym, ◌∙◌, inl, inr, true, false, Option, none, some, List,
  [], ◌∷◌, arith, Bool-cases, Option-cases,
}
use mathlib.Core.Path.{subst}
use keyvaluedb.Types.{KeyValuePair}
use keyvaluedb.Protocol.{RangeBound}
use keyvaluedb.Tree.Keys.{key_eq, key_eq_iff, key_eq_refl}
use keyvaluedb.Table.Locate.{key_lt, Ascending}
use keyvaluedb.Scan.{Source, same_key, other_keys, advance, best_of, above_upper, find_next}
use keyvaluedb.Scan.Stamps.{stamp_of, heap_stamp, total, AllOf, best_stamp, best_of-AllOf, Visible}
use keyvaluedb.Scan.Heap.{
  whole, InOrder, AllSources, AllLater, Above, AllSources-advance, InOrder-advance,
  heap_stamp-advance, heap_stamp-currents, heap_stamp-same_key, AllOf-same_key, All-same_key,
  All-other_keys, InOrder-other_keys, Above-other_keys, Above-AllLater, Above-trans, Above-Starts,
}
use keyvaluedb.Scan.Totals.{
  total-advance, total-same_key, above_upper-lt, heap_stamp-Above, best_of-stamp,
}

-- A heap in order, of sources whose keys ascend.
pub record IsHeap (heap : List Source) : Type 0 where
  pub order : InOrder heap
  pub up : AllSources Ascending heap

pub AllLater-tail :
    (Q : List KeyValuePair → Type 0) (same : List Source)
    → ((s : Source) → Q (whole s) → Q s.later)
    → AllSources Q same
    → AllLater Q same
AllLater-tail Q [] f all = tt
AllLater-tail Q (s ∷ same) f all = (f s all.0, AllLater-tail Q same f all.1)

-- What one round of the loop leaves in the heap
module _ (s : Source) (heap : List Source) where
  same : List Source
  same = s ∷ same_key s.current.key heap

  left : List Source
  unfolding same
  left = advance same (other_keys s.current.key heap)

module _ (s : Source) (heap : List Source) (h : IsHeap (s ∷ heap)) where
  of_key : AllOf s.current.key (same s heap)
  unfolding same
  of_key = (key_eq_refl s.current.key, AllOf-same_key s.current.key heap)

  same-up : AllSources Ascending (same s heap)
  unfolding same
  same-up = (h.up.0, All-same_key (λ (x : Source). Ascending (whole x)) s.current.key heap h.up.1)

  left-IsHeap : IsHeap (left s heap)
  unfolding left
  left-IsHeap = record {
    order =
        InOrder-advance (same s heap) (other_keys s.current.key heap)
          (InOrder-other_keys s.current.key heap h.order.1);
    up =
        AllSources-advance Ascending (same s heap) (other_keys s.current.key heap)
          (AllLater-tail Ascending (same s heap) (λ x up. up.1) same-up)
          (All-other_keys (λ (x : Source). Ascending (whole x)) s.current.key heap h.up.1);
  }

  left-Above : AllSources (Above s.current.key) (left s heap)
  unfolding left
  left-Above =
      AllSources-advance (Above s.current.key) (same s heap) (other_keys s.current.key heap)
        (Above-AllLater s.current.key (same s heap) of_key same-up)
        (Above-other_keys s.current.key heap h.order.0 h.order.1 h.up.1)

  left-total : total (left s heap) < total (s ∷ heap)
  unfolding left same total
  left-total = omega (
    arith,
    total-advance (s ∷ same_key s.current.key heap) (other_keys s.current.key heap),
    total-same_key s.current.key heap,
  )

  left-stamp :
      (key : List ℕ) (read_ts : ℕ)
      → heap_stamp key read_ts (s ∷ heap)
        ≡ max
            (best_stamp key read_ts (best_of read_ts none (same s heap)))
            (heap_stamp key read_ts (left s heap))
  unfolding left same heap_stamp
  left-stamp key read_ts = omega (
    arith,
    heap_stamp-advance key read_ts (same s heap) (other_keys s.current.key heap),
    heap_stamp-currents key read_ts (same s heap),
    heap_stamp-same_key key read_ts s.current.key heap,
    best_of-stamp s.current.key key read_ts (same s heap) of_key,
  )

-- What FindNext says: where it ends, nothing in range is visible; otherwise it has the newest visible
-- version of the least key that has one, and the heap has what is visible of the other keys.
pub record Round (read_ts : ℕ) (upper : RangeBound) (heap : List Source) (kv : KeyValuePair)
    (rest : List Source) : Type 0 where
  pub visible : kv.timestamp ≤ read_ts
  pub in_range : above_upper upper kv.key ≡ false
  pub is_heap : IsHeap rest
  pub above : AllSources (Above kv.key) rest
  pub less : total rest < total heap
  pub stamps :
      (key : List ℕ)
      → heap_stamp key read_ts heap ≡ max (stamp_of key read_ts kv) (heap_stamp key read_ts rest)

abbrev pub Outcome : ℕ → RangeBound → List Source → Option KeyValuePair → List Source → Type 0
Outcome read_ts upper heap none rest =
    (key : List ℕ) → above_upper upper key ≡ false → heap_stamp key read_ts heap ≡ 0
Outcome read_ts upper heap (some kv) rest = Round read_ts upper heap kv rest

-- An outcome for what a round that found nothing left is one for the heap before.
Outcome-later :
    (read_ts : ℕ) (upper : RangeBound) (before after : List Source) (found : Option KeyValuePair)
    (rest : List Source)
    → total after < total before
    → ((key : List ℕ) → heap_stamp key read_ts before ≡ heap_stamp key read_ts after)
    → Outcome read_ts upper after found rest
    → Outcome read_ts upper before found rest
Outcome-later read_ts upper before after none rest less same out =
    λ key below. same key ∙ out key below
Outcome-later read_ts upper before after (some kv) rest less same out = record {
  visible = out.visible;
  in_range = out.in_range;
  is_heap = out.is_heap;
  above = out.above;
  less = omega (arith, out.less);
  stamps = λ key. same key ∙ out.stamps key;
}

Above-whole :
    (key : List ℕ) (s : Source) (heap : List Source)
    → IsHeap (s ∷ heap)
    → key_lt key s.current.key ≡ true
    → AllSources (Above key) (s ∷ heap)
Above-whole key s heap h lt = (
  (lt, Above-trans key s.current.key s.later lt h.up.0.0),
  Above-Starts key s.current.key heap lt h.order.0 h.up.1,
)

module _ (read_ts : ℕ) (upper : RangeBound) (s : Source) (heap : List Source)
    (h : IsHeap (s ∷ heap)) where
  Outcome-above :
      above_upper upper s.current.key ≡ true → Outcome read_ts upper (s ∷ heap) none heap
  Outcome-above e = λ key below.
      heap_stamp-Above key read_ts (s ∷ heap)
        (Above-whole key s heap h (above_upper-lt upper s.current.key key e below))

  Visible-found :
      (kv : KeyValuePair)
      → best_of read_ts none (same s heap) ≡ some kv
      → (key_eq kv.key s.current.key ≡ true) × (kv.timestamp ≤ read_ts)
  unfolding Visible
  Visible-found kv e =
      rw e at (best_of-AllOf s.current.key read_ts none (same s heap) tt (of_key s heap h)).0

  Round-found :
      (kv : KeyValuePair)
      → best_of read_ts none (same s heap) ≡ some kv
      → above_upper upper s.current.key ≡ false
      → Round read_ts upper (s ∷ heap) kv (left s heap)
  unfolding best_stamp
  Round-found kv e below =
      let seen = Visible-found kv e in
      let same_keys = (key_eq_iff kv.key s.current.key).0 seen.0 in
      record {
        visible = seen.1;
        in_range = rw same_keys below;
        is_heap = left-IsHeap s heap h;
        above =
            subst (λ (k : List ℕ). AllSources (Above k) (left s heap)) (sym same_keys)
              (left-Above s heap h);
        less = left-total s heap h;
        stamps = λ key. rw e at (left-stamp s heap h key read_ts);
      }

  stamps-none :
      best_of read_ts none (same s heap) ≡ none
      → (key : List ℕ) → heap_stamp key read_ts (s ∷ heap) ≡ heap_stamp key read_ts (left s heap)
  unfolding best_stamp
  stamps-none e key =
      let stamps = rw e at (left-stamp s heap h key read_ts) in omega (arith, stamps)

module _ (read_ts : ℕ) (upper : RangeBound) where
  pub find_next-Outcome :
      (fuel : ℕ) (heap : List Source)
      → IsHeap heap
      → total heap ≤ fuel
      → Outcome read_ts upper heap
          (find_next fuel read_ts upper heap).0
          (find_next fuel read_ts upper heap).1
  unfolding find_next same left
  find_next-Outcome zero [] h enough = λ key below. unfold heap_stamp in refl
  find_next-Outcome (suc n) [] h enough = λ key below. unfold heap_stamp in refl
  find_next-Outcome zero (s ∷ heap) h enough = absurd (unfold total in omega arith)
  find_next-Outcome (suc n) (s ∷ heap) h enough =
      let again =
        find_next-Outcome n (left s heap) (left-IsHeap s heap h)
          (omega (arith, left-total s heap h)) in
      elim (Bool-cases (above_upper upper s.current.key)) [
        | inl e ↦ rw e (Outcome-above read_ts upper s heap h e)
        | inr e ↦ elim (Option-cases (best_of read_ts none (same s heap))) [
          | inl e1 ↦
              rw (e, e1)
                (Outcome-later read_ts upper (s ∷ heap) (left s heap) _ _ (left-total s heap h)
                  (stamps-none read_ts upper s heap h e1) again)
          | inr (kv, e1) ↦ rw (e, e1) (Round-found read_ts upper s heap h kv e1 e)
        ]
      ]
