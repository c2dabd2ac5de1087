-- ===== src/Bloom.antt =====
-- The Bloom filter of a table (include/kvdb/bloom.hpp). The sizes that the constructor computes in
-- `double` are parameters; a byte is a number below 256.
pub mod Bits
pub mod Laws
use Prim.Native.Nat.{bit_and, bit_or, bit_xor}
use keyvaluedb.Prelude.{
  ℕ, zero, suc, ◌+◌, ◌-◌, ◌*◌, ◌/◌, ◌%◌, ◌^◌, ◌≤◌, ◌<◌, min, max, ◌≡◌, refl, sym, ap, ◌∙◌, ◌≢◌, ◌↔◌,
  ◌⊎◌, inl, inr, Bool, true, false, not, ◌&&◌, ◌||◌, Option, none, some, List, [], ◌∷◌, ◌++◌, map,
  append-nil, append_assoc, arith, ltb, leb, ◌==◌, if◌then◌else◌, ltb→lt, lt→ltb, leb→le, ==_iff,
  tests, Bool-cases, Option-cases, contains, insert, erase, contains-insert, contains-erase, ◌>>=◌,
  ◌>>◌, guard, >>=-eq-some, length, get_elem?, get_or, set, take, drop, length-append, length-set,
  get_or-set_self, get_or-set_ne, take-append-drop, All, All-append,
}

pub record BloomFilter : Type 0 where
  pub bits : ℕ
  pub hash_count : ℕ
  pub bytes : List ℕ

unfoldable pub zeros : ℕ → List ℕ
zeros zero = []
zeros (suc n) = 0 ∷ zeros n

-- The constructor, from the numbers of bits and of hashes that it rounds to
unfoldable pub new_filter : ℕ → ℕ → BloomFilter
unfolding zeros
new_filter rounded_bits rounded_count =
    let bits = if ltb rounded_bits 64 then 64 else rounded_bits in
    let at_least = if ltb rounded_count 1 then 1 else rounded_count in
    record {
      bits = bits;
      hash_count = if ltb 30 at_least then 30 else at_least;
      bytes = zeros ((bits + 7) / 8);
    }

hash1_from : ℕ → List ℕ → ℕ
hash1_from h [] = h
hash1_from h (c ∷ cs) = hash1_from (bit_xor h c * 16777619 % 2 ^ 32) cs

unfoldable pub hash1 : List ℕ → ℕ
unfolding hash1_from
hash1 key = hash1_from 2166136261 key

-- `c + (h << 6) + (h << 16) - h` on 32 bits
hash2_from : ℕ → List ℕ → ℕ
hash2_from h [] = h
hash2_from h (c ∷ cs) = hash2_from ((c + h * 2 ^ 6 + h * 2 ^ 16 + 2 ^ 32 - h) % 2 ^ 32) cs

unfoldable pub hash2 : List ℕ → ℕ
unfolding hash2_from
hash2 key = hash2_from 0 key

-- The place of the i-th bit of a key
unfoldable pub bit_of : BloomFilter → List ℕ → ℕ → ℕ
unfolding hash1 hash2
bit_of f key i = (hash1 key + i * hash2 key) % f.bits

unfoldable pub set_bit : ℕ → List ℕ → List ℕ
set_bit bit bytes = set bytes (bit / 8) (bit_or (get_or bytes (bit / 8) 0) (2 ^ (bit % 8)) % 256)

unfoldable pub has_bit : ℕ → List ℕ → Bool
has_bit bit bytes = not (bit_and (get_or bytes (bit / 8) 0) (2 ^ (bit % 8)) == 0)

-- The loops of Add and MightContain over the rounds left
unfoldable pub add_from : ℕ → ℕ → List ℕ → BloomFilter → BloomFilter
unfolding bit_of set_bit
add_from zero i key f = f
add_from (suc n) i key f =
    add_from n (i + 1) key (record f { bytes = set_bit (bit_of f key i) f.bytes })

unfoldable pub add : List ℕ → BloomFilter → BloomFilter
unfolding add_from
add key f = add_from f.hash_count 0 key f

unfoldable pub contains_from : ℕ → ℕ → List ℕ → BloomFilter → Bool
unfolding bit_of has_bit
contains_from zero i key f = true
contains_from (suc n) i key f =
    let rest = contains_from n (i + 1) key f in
    if has_bit (bit_of f key i) f.bytes then rest else false

unfoldable pub might_contain : List ℕ → BloomFilter → Bool
unfolding contains_from
might_contain key f = contains_from f.hash_count 0 key f

-- FromRaw
unfoldable pub from_raw : List ℕ → ℕ → ℕ → BloomFilter
from_raw raw bit_count count = record {
  bits = bit_count;
  hash_count = count;
  bytes = take ((bit_count + 7) / 8) raw;
}
