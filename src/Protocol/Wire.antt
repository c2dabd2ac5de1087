-- ===== src/Protocol/Wire.antt =====
-- What the encodings of src/protocol.cpp send is what they receive, however the bytes are cut.
use keyvaluedb.Prelude.{
  ℕ, zero, suc, ◌-◌, ◌%◌, ◌^◌, ◌≤◌, ◌<◌, ◌≡◌, refl, sym, inl, inr, Bool, true, false, some, List,
  [], ◌∷◌, ◌++◌, append-nil, append_assoc, arith, ◌==◌, if◌then◌else◌, Bool-cases, length, take,
  drop, take-append-drop,
}
use keyvaluedb.Bytes.{write_u32, read_u32}
use keyvaluedb.Bytes.Fields.{read_u32-write_u32}
use keyvaluedb.Protocol.{
  RangeBound, unbounded, flag_of, send_loop, send_all, recv_loop, recv_all, send_uint32,
  recv_uint32, send_string, recv_string, send_range_bound, recv_range_bound,
}

-- A send that fails on no call takes a byte or more.
abbrev pub Sends : (List ℕ → List ℕ → ℕ) → Type 0
Sends amount = (out bytes : List ℕ) → 1 ≤ length bytes → 1 ≤ amount out bytes

-- A recv gives a byte or more of those asked for, as long as some are to come.
abbrev pub Receives : (List ℕ → ℕ → ℕ) → Type 0
Receives amount =
    (incoming : List ℕ) (len : ℕ)
    → 1 ≤ length incoming
    → 1 ≤ len
    → (1 ≤ amount incoming len) × (amount incoming len ≤ len)

length-drop : (n : ℕ) (xs : List ℕ) → length (drop n xs) ≡ length xs - n
length-drop zero xs = omega arith
length-drop (suc n) [] = omega arith
length-drop (suc n) (x ∷ xs) = rw (length-drop n xs) (omega arith)

ne_zero : (n : ℕ) → 1 ≤ n → (n == 0) ≡ false
ne_zero n h = ground arith

send_loop-Sends :
    (amount : List ℕ → List ℕ → ℕ) (fuel : ℕ) (out bytes : List ℕ)
    → Sends amount
    → length bytes ≤ fuel
    → send_loop amount fuel out bytes ≡ (out ++ bytes, true)
unfolding send_loop
send_loop-Sends amount zero out [] sends enough = rw (append-nil out) refl
send_loop-Sends amount (suc n) out [] sends enough = rw (append-nil out) refl
send_loop-Sends amount zero out (b ∷ bs) sends enough = absurd (omega arith)
send_loop-Sends amount (suc n) out (b ∷ bs) sends enough =
    let sent = amount out (b ∷ bs) in
    let some_sent = sends out (b ∷ bs) (omega arith) in
    let some_sent_test = ne_zero sent some_sent in
    let shorter = length-drop sent (b ∷ bs) in
    rw
      (
        some_sent_test,
        send_loop-Sends amount n (out ++ take sent (b ∷ bs)) (drop sent (b ∷ bs)) sends
            (omega arith),
        append_assoc out (take sent (b ∷ bs)) (drop sent (b ∷ bs)),
        take-append-drop sent (b ∷ bs),
      )
      refl

take-append : (n : ℕ) (xs ys : List ℕ) → n ≤ length xs → take n (xs ++ ys) ≡ take n xs
take-append zero xs ys h = refl
take-append (suc n) [] ys h = absurd (omega arith)
take-append (suc n) (x ∷ xs) ys h = rw (take-append n xs ys (omega arith)) refl

drop-append : (n : ℕ) (xs ys : List ℕ) → n ≤ length xs → drop n (xs ++ ys) ≡ drop n xs ++ ys
drop-append zero xs ys h = refl
drop-append (suc n) [] ys h = absurd (omega arith)
drop-append (suc n) (x ∷ xs) ys h = drop-append n xs ys (omega arith)

recv_loop-Receives :
    (amount : List ℕ → ℕ → ℕ) (fuel : ℕ) (bytes rest : List ℕ)
    → Receives amount
    → length bytes ≤ fuel
    → recv_loop amount fuel (length bytes) (bytes ++ rest) ≡ some (bytes, rest)
unfolding recv_loop
recv_loop-Receives amount zero [] rest receives enough = refl
recv_loop-Receives amount (suc n) [] rest receives enough = refl
recv_loop-Receives amount zero (b ∷ bs) rest receives enough = absurd (omega arith)
recv_loop-Receives amount (suc n) (b ∷ bs) rest receives enough =
    let received = amount (b ∷ bs ++ rest) (suc (length bs)) in
    let law = receives (b ∷ bs ++ rest) (suc (length bs)) (omega arith) (omega arith) in
    let shorter = length-drop received (b ∷ bs) in
    rw
      (
        ne_zero received law.0,
        drop-append received (b ∷ bs) rest law.1,
        sym shorter,
        recv_loop-Receives amount n (drop received (b ∷ bs)) rest receives
            (omega (arith, shorter, law.0)),
        take-append received (b ∷ bs) rest law.1,
        take-append-drop received (b ∷ bs),
      )
      refl

send_all-Sends :
    (amount : List ℕ → List ℕ → ℕ) (out bytes : List ℕ)
    → Sends amount
    → send_all amount out bytes ≡ (out ++ bytes, true)
unfolding send_all
send_all-Sends amount out bytes sends =
    send_loop-Sends amount (length bytes) out bytes sends (omega arith)

recv_all-Receives :
    (amount : List ℕ → ℕ → ℕ) (bytes rest : List ℕ)
    → Receives amount
    → recv_all amount (length bytes) (bytes ++ rest) ≡ some (bytes, rest)
unfolding recv_all
recv_all-Receives amount bytes rest receives =
    recv_loop-Receives amount (length bytes) bytes rest receives (omega arith)

four :
    (amount : List ℕ → ℕ → ℕ) (v : ℕ) (rest : List ℕ)
    → Receives amount
    → recv_all amount 4 (write_u32 v ++ rest) ≡ some (write_u32 v, rest)
unfolding write_u32
four amount v rest receives = recv_all-Receives amount _ rest receives

recv_uint32-some :
    (amount : List ℕ → ℕ → ℕ) (incoming buf after left : List ℕ) (v : ℕ)
    → recv_all amount 4 incoming ≡ some (buf, after)
    → read_u32 buf ≡ some (v, left)
    → recv_uint32 amount incoming ≡ some (v, after)
unfolding recv_uint32
recv_uint32-some amount incoming buf after left v got read = rw (recv_uint32, got, read) refl

read_back : (v : ℕ) → v < 2 ^ 32 → read_u32 (write_u32 v) ≡ some (v, [])
unfolding write_u32
read_back v bound = read_u32-write_u32 v [] bound

recv_uint32-Receives :
    (amount : List ℕ → ℕ → ℕ) (v : ℕ) (rest : List ℕ)
    → Receives amount
    → v < 2 ^ 32
    → recv_uint32 amount (write_u32 v ++ rest) ≡ some (v, rest)
recv_uint32-Receives amount v rest receives bound =
    recv_uint32-some amount (write_u32 v ++ rest) (write_u32 v) rest [] v
      (four amount v rest receives) (read_back v bound)

recv_string-Receives :
    (amount : List ℕ → ℕ → ℕ) (s rest : List ℕ)
    → Receives amount
    → length s < 2 ^ 32
    → recv_string amount (write_u32 (length s % 2 ^ 32) ++ (s ++ rest)) ≡ some (s, rest)
unfolding recv_string
recv_string-Receives amount s rest receives bound =
    rw (same, recv_string, recv_uint32-Receives amount (length s) (s ++ rest) receives bound)
      (recv_all-Receives amount s rest receives)
  where
    same : length s % 2 ^ 32 ≡ length s
    same = omega (arith, bound)

send_string-Sends :
    (amount : List ℕ → List ℕ → ℕ) (out s : List ℕ)
    → Sends amount
    → send_string amount out s ≡ (out ++ (write_u32 (length s % 2 ^ 32) ++ s), true)
unfolding send_string send_uint32
send_string-Sends amount out s sends =
    rw
      (
        send_all-Sends amount out (write_u32 (length s % 2 ^ 32)) sends,
        send_all-Sends amount (out ++ write_u32 (length s % 2 ^ 32)) s sends,
        append_assoc out (write_u32 (length s % 2 ^ 32)) s,
      )
      refl

-- The bytes of a bound
unfoldable pub bound_bytes : RangeBound → List ℕ
bound_bytes bound =
    if length bound.key == 0
    then 0 ∷ []
    else flag_of bound.inclusive ∷ (write_u32 (length bound.key % 2 ^ 32) ++ bound.key)

send_range_bound-Sends :
    (amount : List ℕ → List ℕ → ℕ) (out : List ℕ) (bound : RangeBound)
    → Sends amount
    → send_range_bound amount out bound ≡ (out ++ bound_bytes bound, true)
unfolding send_range_bound bound_bytes
send_range_bound-Sends amount out bound sends = elim (Bool-cases (length bound.key == 0)) [
  | inl e ↦ rw e (send_all-Sends amount out (0 ∷ []) sends)
  | inr e ↦
      let flag = flag_of bound.inclusive ∷ [] in
      rw
        (
          e,
          send_all-Sends amount out flag sends,
          send_string-Sends amount (out ++ flag) bound.key sends,
          append_assoc out flag (write_u32 (length bound.key % 2 ^ 32) ++ bound.key),
        )
        refl
]

-- The bound that comes back: without a key, it is `Unbounded()`.
unfoldable pub normal : RangeBound → RangeBound
normal bound = if length bound.key == 0 then unbounded else bound

recv_range_bound-flag :
    (amount : List ℕ → ℕ → ℕ) (flag : ℕ) (key rest : List ℕ)
    → Receives amount
    → length key < 2 ^ 32
    → (flag == 0) ≡ false
    → recv_range_bound amount (flag ∷ (write_u32 (length key % 2 ^ 32) ++ (key ++ rest)))
      ≡ some (record { key = key; inclusive = flag == 1 }, rest)
unfolding recv_range_bound
recv_range_bound-flag amount flag key rest receives fits keyed =
    rw
      (
        recv_range_bound,
        recv_all-Receives amount (flag ∷ []) (write_u32 (length key % 2 ^ 32) ++ (key ++ rest))
            receives,
        keyed,
        recv_string-Receives amount key rest receives fits,
      )
      refl

recv_range_bound-keyed :
    (amount : List ℕ → ℕ → ℕ) (key rest : List ℕ) (inclusive : Bool)
    → Receives amount
    → length key < 2 ^ 32
    → recv_range_bound amount
        (flag_of inclusive ∷ (write_u32 (length key % 2 ^ 32) ++ (key ++ rest)))
      ≡ some (record { key = key; inclusive = inclusive }, rest)
unfolding flag_of
recv_range_bound-keyed amount key rest true receives fits =
    recv_range_bound-flag amount 1 key rest receives fits refl
recv_range_bound-keyed amount key rest false receives fits =
    recv_range_bound-flag amount 2 key rest receives fits refl

recv_range_bound-Receives :
    (amount : List ℕ → ℕ → ℕ) (bound : RangeBound) (rest : List ℕ)
    → Receives amount
    → length bound.key < 2 ^ 32
    → recv_range_bound amount (bound_bytes bound ++ rest) ≡ some (normal bound, rest)
unfolding bound_bytes normal recv_range_bound
recv_range_bound-Receives amount bound rest receives fits =
    elim (Bool-cases (length bound.key == 0)) [
      | inl e ↦ rw (e, recv_range_bound, recv_all-Receives amount (0 ∷ []) rest receives) refl
      | inr e ↦
          rw (e, append_assoc (write_u32 (length bound.key % 2 ^ 32)) bound.key rest)
            (recv_range_bound-keyed amount bound.key rest bound.inclusive receives fits)
    ]

-- Where send never fails and recv gives a byte or more as long as some are to come, a bound whose
-- key's length fits its field is sent whole and comes back as itself, or as Unbounded() where it has
-- no key. What follows it on the connection is left, however the calls cut the bytes.
pub recv_range_bound-send_range_bound :
    (sending : List ℕ → List ℕ → ℕ) (receiving : List ℕ → ℕ → ℕ) (bound : RangeBound)
    (rest : List ℕ)
    → Sends sending
    → Receives receiving
    → length bound.key < 2 ^ 32
    → (send_range_bound sending [] bound).1 ≡ true
      × (recv_range_bound receiving ((send_range_bound sending [] bound).0 ++ rest)
          ≡ some (normal bound, rest))
recv_range_bound-send_range_bound sending receiving bound rest sends receives fits =
    rw (send_range_bound-Sends sending [] bound sends)
      (refl, recv_range_bound-Receives receiving bound rest receives fits)
