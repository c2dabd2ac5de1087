-- ===== src/Bloom/Bits.antt =====
-- One bit of a byte, by evaluation over all bytes and places.
use Prim.Native.Nat.{bit_and, bit_or}
use keyvaluedb.Prelude.{
  if◌then◌else◌, Bool-cases, inl, inr, ℕ, zero, suc, ◌%◌, ◌^◌, ◌<◌, ◌≡◌, refl, Bool, true, false,
  not, ◌||◌, arith, ◌==◌,
}

-- Does a test succeed on all numbers under a limit?
every : (ℕ → Bool) → ℕ → Bool
every test zero = true
every test (suc limit) = if test limit then every test limit else false

every-at : (test : ℕ → Bool) (limit x : ℕ) → x < limit → every test limit ≡ true → test x ≡ true
unfolding every
every-at test zero x small h = absurd (omega arith)
every-at test (suc limit) x small h = elim (Bool-cases (test limit)) [
  | inr failed ↦ cc (h, failed)
  | inl passed ↦ ground (arith, passed, every-at test limit x, h)
]

-- The bit that is set is set.
has_set : ℕ → ℕ → Bool
has_set b j = not (bit_and (bit_or b (2 ^ j) % 256) (2 ^ j) == 0)

has_set_all : every (λ b. every (has_set b) 8) 256 ≡ true
unfolding every has_set
has_set_all = refl

pub set_bit_sets :
    (b j : ℕ) → b < 256 → j < 8 → (bit_and (bit_or b (2 ^ j) % 256) (2 ^ j) == 0) ≡ false
unfolding has_set
set_bit_sets b j hb hj =
    let row = every-at (λ b. every (has_set b) 8) 256 b hb has_set_all in
    ground (arith, every-at (has_set b) 8 j hj row)

-- A bit that was set stays set.
keeps : ℕ → ℕ → ℕ → Bool
keeps b j k = bit_and b (2 ^ k) == 0 || not (bit_and (bit_or b (2 ^ j) % 256) (2 ^ k) == 0)

keeps_all : every (λ b. every (λ j. every (keeps b j) 8) 8) 256 ≡ true
unfolding every keeps
keeps_all = refl

pub set_bit_keeps :
    (b j k : ℕ)
    → b < 256
    → j < 8
    → k < 8
    → (bit_and b (2 ^ k) == 0) ≡ false
    → (bit_and (bit_or b (2 ^ j) % 256) (2 ^ k) == 0) ≡ false
unfolding keeps
set_bit_keeps b j k hb hj hk h =
    let plane = every-at (λ b. every (λ j. every (keeps b j) 8) 8) 256 b hb keeps_all in
    let row = every-at (λ j. every (keeps b j) 8) 8 j hj plane in
    ground (arith, h, every-at (keeps b j) 8 k hk row)
