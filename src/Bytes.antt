-- ===== src/Bytes.antt =====
-- Bytes as numbers below 256, and the little-endian fields that the log, the manifest and the wire
-- share. A read cursor is the list of the bytes that are still to be read, so that the source's
-- test `pos + n > size` is that the list has fewer than n elements.
pub mod Fields
use keyvaluedb.Prelude.{ℕ, zero, suc, ◌+◌, ◌*◌, ◌/◌, ◌%◌, ◌^◌, Option, none, some, List, [], ◌∷◌}

-- The next n bytes and what follows them; `none` where fewer are left.
unfoldable pub split_at : ℕ → List ℕ → Option (List ℕ × List ℕ)
split_at zero bs = some ([], bs)
split_at (suc n) [] = none
split_at (suc n) (b ∷ bs) = elim (split_at n bs) [
  | none ↦ none
  | some (front, rest) ↦ some (b ∷ front, rest)
]

unfoldable pub write_u16 : ℕ → List ℕ
write_u16 v = v % 256 ∷ v / 2 ^ 8 % 256 ∷ []

unfoldable pub write_u32 : ℕ → List ℕ
write_u32 v = v % 256 ∷ v / 2 ^ 8 % 256 ∷ v / 2 ^ 16 % 256 ∷ v / 2 ^ 24 % 256 ∷ []

unfoldable pub write_u64 : ℕ → List ℕ
write_u64 v =
    v % 256
    ∷ v / 2 ^ 8 % 256
    ∷ v / 2 ^ 16 % 256
    ∷ v / 2 ^ 24 % 256
    ∷ v / 2 ^ 32 % 256
    ∷ v / 2 ^ 40 % 256
    ∷ v / 2 ^ 48 % 256
    ∷ v / 2 ^ 56 % 256
    ∷ []

-- The source joins the shifted bytes by `|`: on bytes, whose bits do not meet, that is their sum.
unfoldable pub read_u16 : List ℕ → Option (ℕ × List ℕ)
read_u16 (b0 ∷ b1 ∷ rest) = some (b0 + b1 * 2 ^ 8, rest)
read_u16 _ = none

unfoldable pub read_u32 : List ℕ → Option (ℕ × List ℕ)
read_u32 (b0 ∷ b1 ∷ b2 ∷ b3 ∷ rest) = some (b0 + b1 * 2 ^ 8 + b2 * 2 ^ 16 + b3 * 2 ^ 24, rest)
read_u32 _ = none

unfoldable pub read_u64 : List ℕ → Option (ℕ × List ℕ)
read_u64 (b0 ∷ b1 ∷ b2 ∷ b3 ∷ b4 ∷ b5 ∷ b6 ∷ b7 ∷ rest) = some (
  b0
      + b1 * 2 ^ 8
      + b2 * 2 ^ 16
      + b3 * 2 ^ 24
      + b4 * 2 ^ 32
      + b5 * 2 ^ 40
      + b6 * 2 ^ 48
      + b7 * 2 ^ 56,
  rest,
)
read_u64 _ = none
