-- ===== src/Snapshots.antt =====
-- The tracker of active snapshots (include/kvdb/snp_tracker.hpp), its calls one after another. A slot
-- that `acquire` returns is what it leaves in the thread's `slot_`, with `none` for -1; `release` gets
-- what `slot_` holds. The hash of the thread is a parameter.
use keyvaluedb.Prelude.{
  ℕ, zero, suc, ◌+◌, ◌-◌, ◌%◌, ◌^◌, ◌≤◌, ◌<◌, min, ◌≡◌, sym, ap, ◌∙◌, ◌≢◌, inl, inr, Bool, true,
  false, not, ◌&&◌, Option, none, some, List, [], ◌∷◌, arith, ltb, ◌==◌, if◌then◌else◌,
  Option-cases, length, get_or, set, get_or-set_self, get_or-set_ne, All,
}

abbrev pub slot_count : ℕ
slot_count = 256

pub record Tracker : Type 0 where
  pub slots : List ℕ
  pub active : List ℕ
  pub fallback_used : Bool

-- The loop of Acquire from its round `t` on: the slot that it takes
unfoldable pub probe : ℕ → ℕ → ℕ → List ℕ → Option ℕ
probe zero start t slots = none
probe (suc fuel) start t slots =
    let rest = probe fuel start (t + 1) slots in
    if get_or slots ((start + t) % slot_count) 0 == 0 then some ((start + t) % slot_count) else rest

unfoldable acquire_at : Option ℕ → ℕ → Tracker → Tracker
acquire_at none read_ts t = record t { fallback_used = true; active = read_ts ∷ t.active }
acquire_at (some i) read_ts t = record t { slots = set t.slots i read_ts }

-- Acquire in the thread whose hash is `thread`
unfoldable pub acquire : ℕ → ℕ → Tracker → Tracker × Option ℕ
unfolding probe acquire_at
acquire thread read_ts t =
    let slot = probe slot_count (thread % slot_count) 0 t.slots in (acquire_at slot read_ts t, slot)

-- `active_.erase(it)`: one of the equal elements
unfoldable pub erase_one : ℕ → List ℕ → List ℕ
erase_one x [] = []
erase_one x (y ∷ ys) = let rest = erase_one x ys in if y == x then ys else y ∷ rest

no_active : List ℕ → Bool
no_active [] = true
no_active (x ∷ xs) = false

unfoldable pub release : Option ℕ → ℕ → Tracker → Tracker
unfolding erase_one no_active
release (some i) read_ts t = record t { slots = set t.slots i 0 }
release none read_ts t =
    let active = erase_one read_ts t.active in
    record t {
      active = active;
      fallback_used = if no_active active then false else t.fallback_used;
    }

unfoldable pub min_slots : List ℕ → ℕ → ℕ
min_slots [] min_ts = min_ts
min_slots (ts ∷ slots) min_ts =
    let here = min_slots slots ts in
    let rest = min_slots slots min_ts in if not (ts == 0) && ltb ts min_ts then here else rest

-- The least of a list and a number
unfoldable pub min_active : List ℕ → ℕ → ℕ
min_active [] min_ts = min_ts
min_active (ts ∷ active) min_ts = min_active active (min ts min_ts)

unfoldable pub min_active_ts : Tracker → ℕ
unfolding min_slots min_active
min_active_ts t =
    let from_slots = min_slots t.slots (2 ^ 64 - 1) in
    if t.fallback_used then min_active t.active from_slots else from_slots

min_slots-le : (slots : List ℕ) (n : ℕ) → min_slots slots n ≤ n
unfolding min_slots
min_slots-le [] n = omega arith
min_slots-le (s ∷ slots) n = ground (arith, min_slots-le slots n, min_slots-le slots s)

min_active-le : (active : List ℕ) (n : ℕ) → min_active active n ≤ n
unfolding min_active
min_active-le [] n = omega arith
min_active-le (s ∷ active) n = omega (arith, min_active-le active (min s n))

min_slots-get :
    (slots : List ℕ) (i ts n : ℕ) → get_or slots i 0 ≡ ts → ts ≢ 0 → min_slots slots n ≤ ts
unfolding min_slots
min_slots-get [] i ts n h k = absurd (k (sym h))
min_slots-get (s ∷ slots) zero ts n h k =
    ground (arith, h, k, min_slots-le slots s, min_slots-le slots n)
min_slots-get (s ∷ slots) (suc i) ts n h k =
    ground (arith, min_slots-get slots i ts s h k, min_slots-get slots i ts n h k)

-- A snapshot in a slot bounds the minimum.
min_active_ts-slot :
    (t : Tracker) (i ts : ℕ) → get_or t.slots i 0 ≡ ts → ts ≢ 0 → min_active_ts t ≤ ts
unfolding min_active_ts
min_active_ts-slot t i ts h k = ground (
  arith,
  min_slots-get t.slots i ts (2 ^ 64 - 1) h k,
  min_active-le t.active (min_slots t.slots (2 ^ 64 - 1)),
)

-- The calls of other threads.
pub data Event : Type 0 where
  acquired : ℕ → ℕ → Event
  released : Option ℕ → ℕ → Event

unfoldable pub happen : Event → Tracker → Tracker
happen (acquired thread ts) t = (acquire thread ts t).0
happen (released slot ts) t = release slot ts t

unfoldable pub run : List Event → Tracker → Tracker
run [] t = t
run (e ∷ es) t = run es (happen e t)

-- No call gives the slot back.
abbrev pub Keeps : ℕ → Event → Type 0
Keeps i (acquired thread ts) = Unit
Keeps i (released none ts) = Unit
Keeps i (released (some j) ts) = j ≢ i

-- A slot that the loop takes is free.
probe-free :
    (fuel start t : ℕ) (slots : List ℕ) (i : ℕ)
    → probe fuel start t slots ≡ some i
    → get_or slots i 0 ≡ 0
unfolding probe
probe-free zero start t slots i h = cc
probe-free (suc fuel) start t slots i h = ground (arith, h, probe-free fuel start (t + 1) slots i)

get_or-acquire :
    (thread ts : ℕ) (t : Tracker) (i held : ℕ)
    → get_or t.slots i 0 ≡ held
    → held ≢ 0
    → get_or (acquire thread ts t).0.slots i 0 ≡ held
unfolding acquire acquire_at
get_or-acquire thread ts t i held h k =
    elim (Option-cases (probe slot_count (thread % slot_count) 0 t.slots)) [
      | inl e ↦ rw e h
      | inr (j, e) ↦
          let free = probe-free slot_count (thread % slot_count) 0 t.slots j e in
          rw e (
            get_or-set_ne t.slots j i ts 0
              (λ same. k (sym h ∙ ap (λ (n : ℕ). get_or t.slots n 0) (sym same) ∙ free))
            ∙ h)
    ]

get_or-happen :
    (e : Event) (t : Tracker) (i held : ℕ)
    → get_or t.slots i 0 ≡ held
    → held ≢ 0
    → Keeps i e
    → get_or (happen e t).slots i 0 ≡ held
unfolding happen release
get_or-happen (acquired thread ts) t i held h k keep = get_or-acquire thread ts t i held h k
get_or-happen (released none ts) t i held h k keep = h
get_or-happen (released (some j) ts) t i held h k keep = get_or-set_ne t.slots j i 0 0 keep ∙ h

probe-lt :
    (fuel start t : ℕ) (slots : List ℕ) (i : ℕ) → probe fuel start t slots ≡ some i → i < slot_count
unfolding probe
probe-lt zero start t slots i h = cc
probe-lt (suc fuel) start t slots i h = ground (arith, h, probe-lt fuel start (t + 1) slots i)

acquire-slot :
    (thread ts : ℕ) (t : Tracker) (i : ℕ)
    → length t.slots ≡ slot_count
    → (acquire thread ts t).1 ≡ some i
    → get_or (acquire thread ts t).0.slots i 0 ≡ ts
unfolding acquire acquire_at
acquire-slot thread ts t i full took = rw took (
    get_or-set_self t.slots i ts 0
      (omega (arith, full, probe-lt slot_count (thread % slot_count) 0 t.slots i took)))

get_or-run :
    (es : List Event) (t : Tracker) (i held : ℕ)
    → get_or t.slots i 0 ≡ held
    → held ≢ 0
    → All (Keeps i) es
    → get_or (run es t).slots i 0 ≡ held
unfolding run
get_or-run [] t i held h k keep = h
get_or-run (e ∷ es) t i held h k keep =
    get_or-run es (happen e t) i held (get_or-happen e t i held h k keep.0) k keep.1

-- A snapshot that Acquire put into one of the 256 slots, of a timestamp that is not 0, bounds
-- MinActiveTS through all calls of Acquire and Release that follow, if none gives its slot back.
pub min_active_ts-run :
    (thread ts : ℕ) (t : Tracker) (i : ℕ) (es : List Event)
    → length t.slots ≡ slot_count
    → ts ≢ 0
    → (acquire thread ts t).1 ≡ some i
    → All (Keeps i) es
    → min_active_ts (run es (acquire thread ts t).0) ≤ ts
min_active_ts-run thread ts t i es full k took keep =
    let t' : Tracker = (acquire thread ts t).0 in
    min_active_ts-slot (run es t') i ts
      (get_or-run es t' i ts (acquire-slot thread ts t i full took) k keep) k
