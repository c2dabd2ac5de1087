-- ===== src/Table/Found.antt =====
-- LookupKey on a table that Write wrote.
use keyvaluedb.Prelude.{
  ℕ, zero, suc, ◌+◌, ◌-◌, ◌/◌, ◌^◌, ◌<◌, ◌≡◌, refl, sym, ap, ◌∙◌, ◌⊎◌, inl, inr, Bool, true, false,
  ◌||◌, Option, none, some, List, [], ◌∷◌, ◌++◌, arith, ltb, ◌==◌, if◌then◌else◌, ltb→lt,
  Bool-cases, contains, insert, contains-insert,
}
use keyvaluedb.Types.{KeyValuePair}
use keyvaluedb.Bloom.{new_filter, might_contain}
use keyvaluedb.Bloom.Laws.{
  add_all, add_all-append, might_contain-add_all, Grows-add_all, IsSized-new_filter,
  length-new_filter,
}
use keyvaluedb.Tree.Keys.{key_eq, key_eq_iff}
use keyvaluedb.Table.Pieces.{keys_of}
use keyvaluedb.Table.Metadata.{TableMetadata, insert_all}
use keyvaluedb.Table.Lookup.{search_blocks, search_block}
use keyvaluedb.Table.Scan.{first_version}
use keyvaluedb.Table.Parse.{IsStored}
use keyvaluedb.Table.Locate.{Others}

-- A set as it is inserted has the same members.
pub contains-insert_all :
    (x : ℕ) (ts s : List ℕ) → contains x (insert_all ts s) ≡ (contains x ts || contains x s)
unfolding insert_all
contains-insert_all x [] s = refl
contains-insert_all x (t ∷ ts) s =
    rw (contains-insert_all x ts (insert t s), contains-insert t x s) (ground arith)

pub first_version-members :
    (a b key : List ℕ) (read_ts : ℕ) (kvs : List KeyValuePair)
    → ((x : ℕ) → contains x a ≡ contains x b)
    → first_version a key read_ts kvs ≡ first_version b key read_ts kvs
unfolding first_version
first_version-members a b key read_ts [] h = refl
first_version-members a b key read_ts (kv ∷ kvs) h =
    rw (h kv.timestamp, first_version-members a b key read_ts kvs h) refl

-- A key is in a table or not.
keys_of-cases :
    (key : List ℕ) (kvs : List KeyValuePair)
    → Others key kvs
      ⊎ ((before : List (List ℕ)) × (after : List (List ℕ)) × (keys_of kvs ≡ before ++ key ∷ after))
keys_of-cases key [] = inl tt
keys_of-cases key (kv ∷ kvs) = elim (Bool-cases (key_eq kv.key key)) [
  | inl e ↦ inr ([], keys_of kvs, ap (λ k. k ∷ keys_of kvs) ((key_eq_iff kv.key key).0 e))
  | inr e ↦ elim (keys_of-cases key kvs) [
    | inl others ↦ inl (e, others)
    | inr (before, after, same) ↦ inr (kv.key ∷ before, after, ap (λ ks. kv.key ∷ ks) same)
  ]
]

-- A filter that denies a key has not seen it.
pub denied-Others :
    (key : List ℕ) (kvs : List KeyValuePair) (bits count : ℕ)
    → might_contain key (add_all (keys_of kvs) (new_filter bits count)) ≡ false
    → Others key kvs
unfolding add_all
denied-Others key kvs bits count h = elim (keys_of-cases key kvs) [
  | inl others ↦ others
  | inr (before, after, same) ↦
      let kept =
        might_contain-add_all before key after (new_filter bits count)
          (IsSized-new_filter bits count) in
      let denied = rw (same, add_all-append before (key ∷ after) (new_filter bits count)) at h in
      absurd (ground (arith, kept, denied))
]

pub IsStored-add_all :
    (keys : List (List ℕ)) (bits count : ℕ)
    → bits < 2 ^ 32
    → IsStored (add_all keys (new_filter bits count))
IsStored-add_all keys bits count h =
    let g = Grows-add_all keys (new_filter bits count) (IsSized-new_filter bits count) in
    record {
      bits_fit = rw g.same_bits (unfold new_filter in ground arith);
      some_bits = rw g.same_bits (unfold new_filter in ground arith);
      count_fits = rw g.same_count (unfold new_filter in ground arith);
      size_is =
          g.same_length
          ∙ length-new_filter bits count
          ∙ ap (λ (n : ℕ). (n + 7) / 8) (sym g.same_bits);
    }

same_either : (b : Bool) (o : Option (List ℕ)) → (if b then o else o) ≡ o
same_either true o = refl
same_either false o = refl

not_before : (n : ℕ) → 0 < n → (suc (n - 1) == suc n) ≡ false
not_before n h = ground (arith, h)

-- The three searches around the target.
search_blocks-target :
    (file : List ℕ) (meta : TableMetadata) (key : List ℕ) (read_ts t : ℕ) (result : Option (List ℕ))
    → search_block file meta key read_ts t ≡ result
    → (0 < t → search_block file meta key read_ts (t - 1) ≡ none)
    → search_block file meta key read_ts (t + 1) ≡ none
    → search_blocks file meta key read_ts t ≡ result
unfolding search_blocks
search_blocks-target file meta key read_ts t (some v) at before behind = rw (search_blocks, at) refl
search_blocks-target file meta key read_ts t none at before behind = elim (Bool-cases (ltb 0 t)) [
  | inl e ↦ rw (search_blocks, at, e, before (ltb→lt 0 t e), behind) (same_either _ none)
  | inr e ↦ rw (search_blocks, at, e, behind) (same_either _ none)
]

-- Each block gives nothing, but for the one before the first that starts above the key.
pub search_blocks-version_at :
    (file : List ℕ) (meta : TableMetadata) (key : List ℕ) (read_ts u : ℕ) (result : Option (List ℕ))
    → ((i : ℕ) → search_block file meta key read_ts i ≡ (if suc i == u then result else none))
    → (u ≡ 0 → result ≡ none)
    → search_blocks file meta key read_ts (if ltb 0 u then u - 1 else 0) ≡ result
search_blocks-version_at file meta key read_ts zero result h z =
    search_blocks-target file meta key read_ts 0 result (h 0 ∙ sym (z refl)) (λ e. h (0 - 1)) (h 1)
search_blocks-version_at file meta key read_ts (suc n) result h z =
    let t : (if ltb 0 (suc n) then suc n - 1 else 0) ≡ n = ground arith in
    let here : (suc n == suc n) ≡ true = ground arith in
    let there : (suc (n + 1) == suc n) ≡ false = ground arith in
    rw t (
      search_blocks-target file meta key read_ts n result (rw here at (h n))
        (λ e. h (n - 1) ∙ rw (not_before n e) refl) (rw there at (h (n + 1))))
