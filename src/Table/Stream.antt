-- ===== src/Table/Stream.antt =====
-- Reading a stream of bytes (`std::istream`, in src/sstable.cpp): the list of the bytes that are
-- still to be read. `get` gives EOF at the end, which the casts turn into 255, and `read` leaves the
-- rest of a buffer of zeros as it is.
use keyvaluedb.Prelude.{
  ℕ, zero, suc, ◌+◌, ◌*◌, ◌^◌, ◌<◌, ◌≡◌, refl, ap, List, [], ◌∷◌, ◌++◌, arith, length,
}
use keyvaluedb.Bytes.{write_u32, write_u64}

unfoldable pub get : List ℕ → ℕ × List ℕ
get [] = (255, [])
get (b ∷ bs) = (b, bs)

-- SSTable::ReadUint32LE
unfoldable pub get_u32 : List ℕ → ℕ × List ℕ
get_u32 s =
    let a = get s in
    let b = get a.1 in
    let c = get b.1 in let d = get c.1 in (a.0 + b.0 * 2 ^ 8 + c.0 * 2 ^ 16 + d.0 * 2 ^ 24, d.1)

-- The eight rounds by which ReadAll reads a timestamp
unfoldable pub get_u64 : List ℕ → ℕ × List ℕ
get_u64 s = let low = get_u32 s in let high = get_u32 low.1 in (low.0 + high.0 * 2 ^ 32, high.1)

unfoldable pub get_bytes : ℕ → List ℕ → List ℕ × List ℕ
get_bytes zero s = ([], s)
get_bytes (suc n) [] = let rest = get_bytes n [] in (0 ∷ rest.0, [])
get_bytes (suc n) (b ∷ s) = let rest = get_bytes n s in (b ∷ rest.0, rest.1)

pub get_bytes-append : (xs rest : List ℕ) → get_bytes (length xs) (xs ++ rest) ≡ (xs, rest)
unfolding get_bytes
get_bytes-append [] rest = refl
get_bytes-append (x ∷ xs) rest = rw (get_bytes-append xs rest) refl

pub get_u32-write_u32 :
    (v : ℕ) (rest : List ℕ) → v < 2 ^ 32 → get_u32 (write_u32 v ++ rest) ≡ (v, rest)
unfolding get_u32 get write_u32
get_u32-write_u32 v rest h = ap (λ (n : ℕ). (n, rest)) (omega arith)

pub get_u64-write_u64 :
    (v : ℕ) (rest : List ℕ) → v < 2 ^ 64 → get_u64 (write_u64 v ++ rest) ≡ (v, rest)
unfolding get_u64 get_u32 get write_u64
get_u64-write_u64 v rest h = ap (λ (n : ℕ). (n, rest)) (omega arith)
