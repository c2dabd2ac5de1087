-- ===== src/Tests/Bloom.antt =====
-- The filter at concrete inputs.
use keyvaluedb.Prelude.{◌≡◌, refl, true, [], ◌∷◌}
use keyvaluedb.Bloom.{BloomFilter, new_filter, from_raw, might_contain}
use keyvaluedb.Bloom.Laws.{add_all, might_contain-from_raw}

abbrev two_keys : BloomFilter
two_keys = add_all ((1 ∷ 2 ∷ []) ∷ (7 ∷ []) ∷ []) (new_filter 64 3)

might_contain-from_raw_example :
    might_contain (7 ∷ []) (from_raw two_keys.bytes two_keys.bits two_keys.hash_count) ≡ true
might_contain-from_raw_example =
    might_contain-from_raw ((1 ∷ 2 ∷ []) ∷ []) (7 ∷ []) [] 64 3 two_keys refl
