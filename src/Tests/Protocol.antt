-- ===== src/Tests/Protocol.antt =====
-- The encodings of the protocol at concrete inputs.
use keyvaluedb.Prelude.{ℕ, ◌≡◌, true, false, some, List, [], ◌∷◌, ◌++◌, arith}
use keyvaluedb.Protocol.{RangeBound, send_range_bound, recv_range_bound}
use keyvaluedb.Protocol.Wire.{normal, recv_range_bound-send_range_bound}

-- Each call takes one byte.
abbrev send_one : List ℕ → List ℕ → ℕ
send_one out bytes = 1

abbrev recv_one : List ℕ → ℕ → ℕ
recv_one incoming len = 1

abbrev exclusive_bound : RangeBound
exclusive_bound = record { key = 7 ∷ 9 ∷ []; inclusive = false }

recv_range_bound-send_range_bound_example :
    (send_range_bound send_one [] exclusive_bound).1 ≡ true
    × (recv_range_bound recv_one ((send_range_bound send_one [] exclusive_bound).0 ++ (5 ∷ []))
        ≡ some (normal exclusive_bound, 5 ∷ []))
recv_range_bound-send_range_bound_example =
    recv_range_bound-send_range_bound send_one recv_one exclusive_bound (5 ∷ [])
      (λ out bytes h. omega arith) (λ incoming len h asked. (omega arith, omega (arith, asked)))
      (omega arith)
