-- ===== src/Protocol.antt =====
-- The encodings of src/protocol.cpp. A socket is the bytes that went out, and the bytes that are
-- still to come in; how many of them one call of the system's send or recv takes is a parameter, a
-- function of these bytes. A return value of 0 stands for an error too.
pub mod Wire
use keyvaluedb.Prelude.{
  ℕ, zero, suc, ◌+◌, ◌-◌, ◌*◌, ◌/◌, ◌%◌, ◌^◌, ◌≤◌, ◌<◌, min, max, ◌≡◌, refl, sym, ap, ◌∙◌, ◌≢◌, ◌↔◌,
  ◌⊎◌, inl, inr, Bool, true, false, not, ◌&&◌, ◌||◌, Option, none, some, List, [], ◌∷◌, ◌++◌, map,
  append-nil, append_assoc, arith, ltb, leb, ◌==◌, if◌then◌else◌, ltb→lt, lt→ltb, leb→le, ==_iff,
  tests, Bool-cases, Option-cases, contains, insert, erase, contains-insert, contains-erase, ◌>>=◌,
  ◌>>◌, guard, >>=-eq-some, length, get_elem?, get_or, set, take, drop, length-append, length-set,
  get_or-set_self, get_or-set_ne, take-append-drop, All, All-append,
}
use keyvaluedb.Bytes.{write_u32, read_u32}

pub record RangeBound : Type 0 where
  pub key : List ℕ
  pub inclusive : Bool

unfoldable pub unbounded : RangeBound
unbounded = record { key = []; inclusive = true }

-- The loop of SendAll: the bytes out, and whether all went. Its fuel is the number of bytes.
unfoldable pub send_loop : (List ℕ → List ℕ → ℕ) → ℕ → List ℕ → List ℕ → List ℕ × Bool
send_loop amount fuel out [] = (out, true)
send_loop amount zero out (b ∷ bs) = (out, false)
send_loop amount (suc n) out (b ∷ bs) =
    let sent = amount out (b ∷ bs) in
    let rest = send_loop amount n (out ++ take sent (b ∷ bs)) (drop sent (b ∷ bs)) in
    if sent == 0 then (out, false) else rest

unfoldable pub send_all : (List ℕ → List ℕ → ℕ) → List ℕ → List ℕ → List ℕ × Bool
send_all amount out bytes = send_loop amount (length bytes) out bytes

-- The loop of RecvAll; `none` where the connection ends before.
unfoldable pub recv_loop : (List ℕ → ℕ → ℕ) → ℕ → ℕ → List ℕ → Option (List ℕ × List ℕ)
recv_loop amount fuel zero incoming = some ([], incoming)
recv_loop amount zero (suc m) incoming = none
recv_loop amount (suc n) (suc m) incoming =
    let received = amount incoming (suc m) in
    let rest = recv_loop amount n (suc m - received) (drop received incoming) in
    if received == 0 then none else elim rest [
      | none ↦ none
      | some (bytes, after) ↦ some (take received incoming ++ bytes, after)
    ]

unfoldable pub recv_all : (List ℕ → ℕ → ℕ) → ℕ → List ℕ → Option (List ℕ × List ℕ)
recv_all amount len incoming = recv_loop amount len len incoming

unfoldable pub send_uint32 : (List ℕ → List ℕ → ℕ) → List ℕ → ℕ → List ℕ × Bool
send_uint32 amount out v = send_all amount out (write_u32 v)

unfoldable pub recv_uint32 : (List ℕ → ℕ → ℕ) → List ℕ → Option (ℕ × List ℕ)
recv_uint32 amount incoming = elim (recv_all amount 4 incoming) [
  | none ↦ none
  | some (buf, after) ↦ elim (read_u32 buf) [ none ↦ none | some (v, left) ↦ some (v, after) ]
]

unfoldable pub send_string : (List ℕ → List ℕ → ℕ) → List ℕ → List ℕ → List ℕ × Bool
send_string amount out s =
    let first = send_uint32 amount out (length s % 2 ^ 32) in
    if first.1 then send_all amount first.0 s else first

unfoldable pub recv_string : (List ℕ → ℕ → ℕ) → List ℕ → Option (List ℕ × List ℕ)
recv_string amount incoming = elim (recv_uint32 amount incoming) [
  | none ↦ none
  | some (len, after) ↦ recv_all amount len after
]

unfoldable pub flag_of : Bool → ℕ
flag_of true = 1
flag_of false = 2

unfoldable pub send_range_bound : (List ℕ → List ℕ → ℕ) → List ℕ → RangeBound → List ℕ × Bool
send_range_bound amount out bound =
    if length bound.key == 0
    then send_all amount out (0 ∷ [])
    else let first = send_all amount out (flag_of bound.inclusive ∷ []) in
      if first.1 then send_string amount first.0 bound.key else first

unfoldable pub recv_range_bound : (List ℕ → ℕ → ℕ) → List ℕ → Option (RangeBound × List ℕ)
recv_range_bound amount incoming = elim (recv_all amount 1 incoming) [
  | none ↦ none
  | some ([], after) ↦ none
  | some (flag ∷ more, after) ↦
      if flag == 0 then some (unbounded, after) else elim (recv_string amount after) [
        | none ↦ none
        | some (key, left) ↦ some (record { key = key; inclusive = flag == 1 }, left)
      ]
]
