-- ===== src/Bloom/Laws.antt =====
-- The filter never denies a key that was added.
use keyvaluedb.Prelude.{
  ℕ, zero, suc, ◌+◌, ◌*◌, ◌/◌, ◌%◌, ◌^◌, ◌≤◌, ◌<◌, ◌≡◌, refl, sym, ap, ◌∙◌, inl, inr, true, not,
  List, [], ◌∷◌, ◌++◌, arith, ltb, ◌==◌, if◌then◌else◌, ==_iff, Bool-cases, length, get_or, set,
  take, length-set, get_or-set_self, get_or-set_ne, All,
}
use Prim.Native.Nat.{bit_or}
use native.Mathlib.Nat.{mod-lt}
use keyvaluedb.Bloom.{
  from_raw, hash1, hash2, BloomFilter, zeros, new_filter, bit_of, set_bit, has_bit, add_from, add,
  contains_from, might_contain,
}
use keyvaluedb.Bloom.Bits.{set_bit_sets, set_bit_keeps}

-- There is a bit, the bytes hold all of them, and are bytes.
pub record IsSized (f : BloomFilter) : Type 0 where
  pub some_bits : 0 < f.bits
  pub held : f.bits ≤ 8 * length f.bytes
  pub are_bytes : All (λ b. b < 256) f.bytes

get_or-IsByte : (bytes : List ℕ) (i : ℕ) → All (λ b. b < 256) bytes → get_or bytes i 0 < 256
get_or-IsByte [] i h = omega arith
get_or-IsByte (b ∷ bytes) zero h = h.0
get_or-IsByte (b ∷ bytes) (suc i) h = get_or-IsByte bytes i h.1

set-IsByte :
    (bytes : List ℕ) (i v : ℕ)
    → All (λ b. b < 256) bytes
    → v < 256
    → All (λ b. b < 256) (set bytes i v)
set-IsByte [] i v h k = tt
set-IsByte (b ∷ bytes) zero v h k = (k, h.1)
set-IsByte (b ∷ bytes) (suc i) v h k = (h.0, set-IsByte bytes i v h.1 k)

has_bit-set_bit :
    (bit : ℕ) (bytes : List ℕ)
    → bit < 8 * length bytes
    → All (λ b. b < 256) bytes
    → has_bit bit (set_bit bit bytes) ≡ true
unfolding has_bit set_bit
has_bit-set_bit bit bytes lt h =
    rw
      (
        get_or-set_self bytes (bit / 8) (bit_or (get_or bytes (bit / 8) 0) (2 ^ (bit % 8)) % 256) 0
            (omega arith),
        set_bit_sets (get_or bytes (bit / 8) 0) (bit % 8) (get_or-IsByte bytes (bit / 8) h)
            (omega arith),
      )
      refl

has_bit-set_bit_keeps :
    (bit other : ℕ) (bytes : List ℕ)
    → bit < 8 * length bytes
    → All (λ b. b < 256) bytes
    → has_bit other bytes ≡ true
    → has_bit other (set_bit bit bytes) ≡ true
unfolding has_bit set_bit
has_bit-set_bit_keeps bit other bytes lt h k = elim (Bool-cases (bit / 8 == other / 8)) [
  | inl e ↦
      let same : bit / 8 ≡ other / 8 = (==_iff _ _).0 e in
      rw
        (
          same,
          get_or-set_self bytes (other / 8)
              (bit_or (get_or bytes (other / 8) 0) (2 ^ (bit % 8)) % 256) 0 (omega arith),
        )
        (ap not (
          set_bit_keeps (get_or bytes (other / 8) 0) (bit % 8) (other % 8)
            (get_or-IsByte bytes (other / 8) h) (omega arith) (omega arith) (ground (arith, k))))
  | inr e ↦
      rw
        (get_or-set_ne bytes (bit / 8) (other / 8)
          (bit_or (get_or bytes (bit / 8) 0) (2 ^ (bit % 8)) % 256) 0 (λ s. ground (arith, e, s)))
        k
]

-- What setting bits keeps of a filter.
pub record Grows (f g : BloomFilter) : Type 0 where
  pub same_bits : g.bits ≡ f.bits
  pub same_count : g.hash_count ≡ f.hash_count
  pub same_length : length g.bytes ≡ length f.bytes
  pub sized : IsSized g
  pub keeps : (bit : ℕ) → has_bit bit f.bytes ≡ true → has_bit bit g.bytes ≡ true

Grows-set_bit :
    (f : BloomFilter) (bit : ℕ)
    → IsSized f
    → bit < f.bits
    → Grows f (record f { bytes = set_bit bit f.bytes })
Grows-set_bit f bit s lt = record {
  same_bits = refl;
  same_count = refl;
  same_length =
      unfold set_bit in
      length-set f.bytes (bit / 8) (bit_or (get_or f.bytes (bit / 8) 0) (2 ^ (bit % 8)) % 256);
  sized = record {
    some_bits = s.some_bits;
    held =
        unfold set_bit in
        omega (
          arith,
          s.held,
          length-set f.bytes (bit / 8) (bit_or (get_or f.bytes (bit / 8) 0) (2 ^ (bit % 8)) % 256),
        );
    are_bytes = unfold set_bit in set-IsByte f.bytes (bit / 8) _ s.are_bytes (omega arith);
  };
  keeps = λ b h. has_bit-set_bit_keeps bit b f.bytes (omega (arith, s.held)) s.are_bytes h;
}

Grows-trans : (f g k : BloomFilter) → Grows f g → Grows g k → Grows f k
Grows-trans f g k a b = record {
  same_bits = b.same_bits ∙ a.same_bits;
  same_count = b.same_count ∙ a.same_count;
  same_length = b.same_length ∙ a.same_length;
  sized = b.sized;
  keeps = λ bit h. b.keeps bit (a.keeps bit h);
}

bit_of-lt : (f : BloomFilter) (key : List ℕ) (i : ℕ) → IsSized f → bit_of f key i < f.bits
unfolding bit_of
bit_of-lt f key i s = mod-lt (hash1 key + i * hash2 key) s.some_bits

Grows-refl : (f : BloomFilter) → IsSized f → Grows f f
Grows-refl f s = record {
  same_bits = refl;
  same_count = refl;
  same_length = refl;
  sized = s;
  keeps = λ b h. h;
}

pub Grows-add_from :
    (n i : ℕ) (key : List ℕ) (f : BloomFilter) → IsSized f → Grows f (add_from n i key f)
unfolding add_from
Grows-add_from zero i key f s = Grows-refl f s
Grows-add_from (suc n) i key f s =
    let step = Grows-set_bit f (bit_of f key i) s (bit_of-lt f key i s) in
    Grows-trans f _ _ step (Grows-add_from n (i + 1) key _ step.sized)

-- All bits of the key from the i-th on are set.
HasBits : ℕ → ℕ → List ℕ → BloomFilter → Type 0
HasBits zero i key f = Unit
HasBits (suc n) i key f = (has_bit (bit_of f key i) f.bytes ≡ true) × HasBits n (i + 1) key f

bit_of-Grows :
    (f g : BloomFilter) (key : List ℕ) (i : ℕ) → Grows f g → bit_of g key i ≡ bit_of f key i
unfolding bit_of
bit_of-Grows f g key i h = ap (λ (m : ℕ). (hash1 key + i * hash2 key) % m) h.same_bits

HasBits-Grows :
    (n i : ℕ) (key : List ℕ) (f g : BloomFilter) → Grows f g → HasBits n i key f → HasBits n i key g
unfolding HasBits
HasBits-Grows zero i key f g h b = tt
HasBits-Grows (suc n) i key f g h b = (
  rw (bit_of-Grows f g key i h) (h.keeps (bit_of f key i) b.0),
  HasBits-Grows n (i + 1) key f g h b.1,
)

HasBits-add_from :
    (n i : ℕ) (key : List ℕ) (f : BloomFilter) → IsSized f → HasBits n i key (add_from n i key f)
unfolding HasBits add_from
HasBits-add_from zero i key f s = tt
HasBits-add_from (suc n) i key f s =
    let step = Grows-set_bit f (bit_of f key i) s (bit_of-lt f key i s) in
    let rest = Grows-add_from n (i + 1) key _ step.sized in
    (
      rw (bit_of-Grows f _ key i (Grows-trans f _ _ step rest)) (
          rest.keeps (bit_of f key i) (
            has_bit-set_bit (bit_of f key i) f.bytes (omega (arith, s.held, bit_of-lt f key i s))
              s.are_bytes)),
      HasBits-add_from n (i + 1) key _ step.sized,
    )

contains_from-HasBits :
    (n i : ℕ) (key : List ℕ) (f : BloomFilter) → HasBits n i key f → contains_from n i key f ≡ true
unfolding contains_from HasBits
contains_from-HasBits zero i key f h = refl
contains_from-HasBits (suc n) i key f h = rw (h.0) (contains_from-HasBits n (i + 1) key f h.1)

-- A filter to which keys were added one after another.
unfoldable pub add_all : List (List ℕ) → BloomFilter → BloomFilter
add_all [] f = f
add_all (key ∷ keys) f = add_all keys (add key f)

pub Grows-add : (key : List ℕ) (f : BloomFilter) → IsSized f → Grows f (add key f)
unfolding add
Grows-add key f s = Grows-add_from f.hash_count 0 key f s

pub Grows-add_all : (keys : List (List ℕ)) (f : BloomFilter) → IsSized f → Grows f (add_all keys f)
unfolding add_all
Grows-add_all [] f s = Grows-refl f s
Grows-add_all (key ∷ keys) f s =
    let step = Grows-add key f s in
    Grows-trans f _ _ step (Grows-add_all keys (add key f) step.sized)

pub might_contain-add_all :
    (before : List (List ℕ)) (key : List ℕ) (after : List (List ℕ)) (f : BloomFilter)
    → IsSized f
    → might_contain key (add_all after (add key (add_all before f))) ≡ true
unfolding might_contain add add_all
might_contain-add_all before key after f s =
    let g : BloomFilter = add_all before f in
    let b = Grows-add_all before f s in
    let a = Grows-add_from g.hash_count 0 key g b.sized in
    let c = Grows-add_all after (add_from g.hash_count 0 key g) a.sized in
    rw (c.same_count, a.same_count)
      (contains_from-HasBits g.hash_count 0 key _
        (HasBits-Grows g.hash_count 0 key _ _ c (HasBits-add_from g.hash_count 0 key g b.sized)))

length-zeros : (n : ℕ) → length (zeros n) ≡ n
unfolding zeros
length-zeros zero = refl
length-zeros (suc n) = ap suc (length-zeros n)

All-zeros : (n : ℕ) → All (λ b. b < 256) (zeros n)
unfolding zeros
All-zeros zero = tt
All-zeros (suc n) = (omega arith, All-zeros n)

pub IsSized-new_filter : (bits count : ℕ) → IsSized (new_filter bits count)
unfolding new_filter
IsSized-new_filter bits count = record {
  some_bits = ground arith;
  held = ground (arith, length-zeros (((if ltb bits 64 then 64 else bits) + 7) / 8));
  are_bytes = All-zeros _;
}

pub length-new_filter :
    (bits count : ℕ) → length (new_filter bits count).bytes ≡ ((new_filter bits count).bits + 7) / 8
unfolding new_filter
length-new_filter bits count = length-zeros _

take-all : (n : ℕ) (xs : List ℕ) → length xs ≡ n → take n xs ≡ xs
take-all zero [] h = refl
take-all zero (x ∷ xs) h = absurd (omega arith)
take-all (suc n) [] h = refl
take-all (suc n) (x ∷ xs) h = ap (λ (l : List ℕ). x ∷ l) (take-all n xs (omega arith))

-- FromRaw of what a filter's accessors give is the filter, whatever keys it holds.
pub from_raw-add_all :
    (keys : List (List ℕ)) (bits count : ℕ) (f : BloomFilter)
    → f ≡ add_all keys (new_filter bits count)
    → from_raw f.bytes f.bits f.hash_count ≡ f
unfolding from_raw
from_raw-add_all keys bits count f same =
    let grown = Grows-add_all keys (new_filter bits count) (IsSized-new_filter bits count) in
    let long : length f.bytes ≡ (f.bits + 7) / 8 = rw same (
      grown.same_length
      ∙ length-new_filter bits count
      ∙ ap (λ (n : ℕ). (n + 7) / 8) (sym grown.same_bits)) in
    rw (take-all ((f.bits + 7) / 8) f.bytes long) refl

pub add_all-append :
    (xs ys : List (List ℕ)) (f : BloomFilter) → add_all (xs ++ ys) f ≡ add_all ys (add_all xs f)
unfolding add_all
add_all-append [] ys f = refl
add_all-append (x ∷ xs) ys f = add_all-append xs ys (add x f)

-- A filter of any sizes, to which keys were added and which was read back from its bytes, denies
-- none of the keys.
pub might_contain-from_raw :
    (before : List (List ℕ)) (key : List ℕ) (after : List (List ℕ)) (bits count : ℕ)
    (f : BloomFilter)
    → f ≡ add_all (before ++ key ∷ after) (new_filter bits count)
    → might_contain key (from_raw f.bytes f.bits f.hash_count) ≡ true
unfolding add_all add
might_contain-from_raw before key after bits count f same =
    rw (from_raw-add_all (before ++ key ∷ after) bits count f same) (
      rw (same, add_all-append before (key ∷ after) (new_filter bits count), add_all)
        (might_contain-add_all before key after (new_filter bits count)
          (IsSized-new_filter bits count)))
