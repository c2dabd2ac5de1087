-- ===== src/Bytes/Fields.antt =====
-- Reading back what was written, and reading from an input that was cut short or made longer.
use keyvaluedb.Prelude.{
  ℕ, zero, suc, ◌+◌, ◌^◌, ◌<◌, ◌≡◌, refl, ap, none, some, List, [], ◌∷◌, ◌++◌, arith, length,
  Option-cases, inl, inr,
}
use keyvaluedb.Bytes.{split_at, write_u16, write_u32, write_u64, read_u16, read_u32, read_u64}

pub split_at-append : (xs rest : List ℕ) → split_at (length xs) (xs ++ rest) ≡ some (xs, rest)
unfolding split_at
split_at-append [] rest = refl
split_at-append (x ∷ xs) rest = rw (split_at-append xs rest)

pub read_u16-write_u16 :
    (v : ℕ) (rest : List ℕ) → v < 2 ^ 16 → read_u16 (write_u16 v ++ rest) ≡ some (v, rest)
unfolding read_u16 write_u16
read_u16-write_u16 v rest h = ap (λ (n : ℕ). some (n, rest)) (omega arith)

pub read_u32-write_u32 :
    (v : ℕ) (rest : List ℕ) → v < 2 ^ 32 → read_u32 (write_u32 v ++ rest) ≡ some (v, rest)
unfolding read_u32 write_u32
read_u32-write_u32 v rest h = ap (λ (n : ℕ). some (n, rest)) (omega arith)

pub read_u64-write_u64 :
    (v : ℕ) (rest : List ℕ) → v < 2 ^ 64 → read_u64 (write_u64 v ++ rest) ≡ some (v, rest)
unfolding read_u64 write_u64
read_u64-write_u64 v rest h = ap (λ (n : ℕ). some (n, rest)) (omega arith)

-- A successful read leaves a shorter cursor.
pub split_at_takes :
    (n : ℕ) (bs front rest : List ℕ)
    → split_at n bs ≡ some (front, rest)
    → length bs ≡ n + length rest
unfolding split_at
split_at_takes zero bs front rest e = ground arith
split_at_takes (suc n) [] front rest e = ground arith
split_at_takes (suc n) (b ∷ bs) front rest e = elim (Option-cases (split_at n bs)) [
  | inl q ↦ cc (e, q)
  | inr ((f, r), q) ↦ ground (arith, split_at_takes n bs f r q, q)
]

pub split_at_short : (n : ℕ) (bs : List ℕ) → length bs < n → split_at n bs ≡ none
unfolding split_at
split_at_short zero bs h = elim h [ ]
split_at_short (suc n) [] h = refl
split_at_short (suc n) (b ∷ bs) h = rw (split_at_short n bs (omega arith))

pub read_u32_takes :
    (bs : List ℕ) (v : ℕ) (rest : List ℕ)
    → read_u32 bs ≡ some (v, rest)
    → length bs ≡ 4 + length rest
unfolding read_u32
read_u32_takes [] v rest e = cc
read_u32_takes (a ∷ []) v rest e = cc
read_u32_takes (a ∷ b ∷ []) v rest e = cc
read_u32_takes (a ∷ b ∷ c ∷ []) v rest e = cc
read_u32_takes (a ∷ b ∷ c ∷ d ∷ bs) v rest e = ground arith

-- What follows an input that suffices does not change what is read from it.
pub split_at-append_some :
    (n : ℕ) (bs more front rest : List ℕ)
    → split_at n bs ≡ some (front, rest)
    → split_at n (bs ++ more) ≡ some (front, rest ++ more)
unfolding split_at
split_at-append_some zero bs more front rest e = ground arith
split_at-append_some (suc n) [] more front rest e = cc
split_at-append_some (suc n) (b ∷ bs) more front rest e = elim (Option-cases (split_at n bs)) [
  | inl q ↦ cc (e, q)
  | inr ((f, r), q) ↦ ground (arith, split_at-append_some n bs more f r q, q)
]

pub read_u32-append_some :
    (bs more : List ℕ) (v : ℕ) (rest : List ℕ)
    → read_u32 bs ≡ some (v, rest)
    → read_u32 (bs ++ more) ≡ some (v, rest ++ more)
unfolding read_u32
read_u32-append_some [] more v rest e = cc
read_u32-append_some (a ∷ []) more v rest e = cc
read_u32-append_some (a ∷ b ∷ []) more v rest e = cc
read_u32-append_some (a ∷ b ∷ c ∷ []) more v rest e = cc
read_u32-append_some (a ∷ b ∷ c ∷ d ∷ bs) more v rest e = ground arith
