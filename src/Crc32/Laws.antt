-- ===== src/Crc32/Laws.antt =====
-- Feeding a record in pieces, as the readers do, and at once, as the writers do.
use keyvaluedb.Prelude.{ℕ, ◌<◌, ◌^◌, arith, ◌≡◌, refl, List, [], ◌∷◌, ◌++◌}
use keyvaluedb.Crc32.{update, finalize, checksum, crc_byte}

pub update-append :
    (value : ℕ) (xs ys : List ℕ) → update value (xs ++ ys) ≡ update (update value xs) ys
unfolding update
update-append value [] ys = refl
update-append value (x ∷ xs) ys = update-append (crc_byte value x) xs ys

pub checksum-lt : (bs : List ℕ) → checksum bs < 2 ^ 32
unfolding checksum finalize
checksum-lt bs = omega arith

-- The standard check value of this CRC, for the digits 1 to 9.
check_value : checksum (49 ∷ 50 ∷ 51 ∷ 52 ∷ 53 ∷ 54 ∷ 55 ∷ 56 ∷ 57 ∷ []) ≡ 0xCBF43926
unfolding checksum update finalize crc_byte
check_value = refl
