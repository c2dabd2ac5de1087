-- ===== src/Prelude/Sets.antt =====
-- Sets of 64-bit numbers (`std::unordered_set<uint64_t>`), as lists. Iteration order, which the
-- standard leaves open, is the order of insertion, last first.
use Prim.Native.Nat.{ℕ}
use mathlib.Core.Path.{◌≡◌}
use mathlib.Core.Bool.{Bool, false, ◌||◌}
use mathlib.Core.List.{List, [], ◌∷◌}
use native.Mathlib.Omega.{arith}
use keyvaluedb.Prelude.Tests.{◌==◌, if◌then◌else◌}

-- s.count(x)
abbrev pub contains : ℕ → List ℕ → Bool
contains x [] = false
contains x (y ∷ ys) = y == x || contains x ys

-- s.insert(x)
unfoldable pub insert : ℕ → List ℕ → List ℕ
insert x s = if contains x s then s else x ∷ s

-- s.erase(x)
unfoldable pub erase : ℕ → List ℕ → List ℕ
erase x [] = []
erase x (y ∷ ys) = let rest = erase x ys in if y == x then rest else y ∷ rest

pub contains-insert : (x y : ℕ) (s : List ℕ) → contains y (insert x s) ≡ (x == y || contains y s)
unfolding insert
contains-insert x y s = ground arith

pub contains-erase :
    (x y : ℕ) (s : List ℕ) → contains y (erase x s) ≡ (if x == y then false else contains y s)
unfolding erase
contains-erase x y [] = ground arith
contains-erase x y (z ∷ s) = ground (arith, contains-erase x y s)
