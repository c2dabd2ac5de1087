-- ===== src/Crc32.antt =====
-- The CRC-32 of include/kvdb/internal/crc32.hpp, one table lookup for each byte. The log and the
-- manifest write it before each record.
pub mod Table
pub mod Laws
use Prim.Native.Nat.{bit_and, bit_xor}
use keyvaluedb.Prelude.{ℕ, ◌/◌, ◌%◌, ◌^◌, List, [], ◌∷◌, get_or}
use keyvaluedb.Crc32.Table.{crc_table}

-- `value_` after `CRC32()` and `Reset()`
abbrev pub crc_init : ℕ
crc_init = 0xFFFFFFFF

unfoldable pub crc_byte : ℕ → ℕ → ℕ
unfolding crc_table
crc_byte value b = bit_xor (value / 2 ^ 8) (get_or crc_table (bit_and (bit_xor value b) 0xFF) 0)

unfoldable pub update : ℕ → List ℕ → ℕ
update value [] = value
update value (b ∷ bs) = update (crc_byte value b) bs

-- The result is a `uint32_t`.
unfoldable pub finalize : ℕ → ℕ
finalize value = bit_xor value 0xFFFFFFFF % 2 ^ 32

-- A fresh `CRC32`, one `Update` and `Finalize`, as the writers call them.
unfoldable pub checksum : List ℕ → ℕ
checksum bs = finalize (update crc_init bs)
