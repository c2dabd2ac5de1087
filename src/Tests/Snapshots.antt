-- ===== src/Tests/Snapshots.antt =====
-- The tracker at a concrete input.
use keyvaluedb.Prelude.{ℕ, zero, suc, ◌≤◌, ◌≡◌, refl, false, some, List, [], ◌∷◌}
use keyvaluedb.Snapshots.{
  Tracker, slot_count, probe, acquire, min_active_ts, Event, acquired, released, run,
  min_active_ts-run,
}

abbrev zeros : ℕ → List ℕ
zeros zero = []
zeros (suc n) = 0 ∷ zeros n

abbrev idle : Tracker
idle = record { slots = zeros slot_count; active = []; fallback_used = false }

acquire-idle : (acquire 259 7 idle).1 ≡ some 3
unfolding acquire probe
acquire-idle = refl

abbrev others : List Event
others = acquired 259 5 ∷ released (some 4) 5 ∷ acquired 1 9 ∷ []

min_active_ts-run_example : min_active_ts (run others (acquire 259 7 idle).0) ≤ 7
min_active_ts-run_example =
    min_active_ts-run 259 7 idle 3 others refl (λ e. cc) acquire-idle (tt, ((λ e. cc), (tt, tt)))
