-- ===== src/Table/LookupWrite.antt =====
-- LookupKey on a table that Write wrote: the search in its parts, and the whole.
use keyvaluedb.Prelude.{
  ℕ, suc, ◌+◌, ◌-◌, ◌≡◌, refl, sym, ap, ◌∙◌, inl, inr, Bool, true, false, not, ◌&&◌, Option, none,
  List, [], ◌∷◌, ◌++◌, arith, ltb, ◌==◌, if◌then◌else◌, Bool-cases, length, All,
}
use keyvaluedb.Types.{KeyValuePair}
use keyvaluedb.Bytes.{write_u16}
use keyvaluedb.Bloom.{new_filter, might_contain}
use keyvaluedb.Bloom.Laws.{add_all}
use keyvaluedb.Table.Write.{write_first_keys}
use keyvaluedb.Table.Chunks.{IsChunk, chunks_bytes, concat}
use keyvaluedb.Table.Pieces.{opened, opened_all, starts, keys_of}
use keyvaluedb.Table.Metadata.{TableMetadata, insert_all}
use keyvaluedb.Table.Lookup.{lookup_in, search_blocks, search_block, target_of}
use keyvaluedb.Table.Scan.{first_version}
use keyvaluedb.Table.Parse.{places_of}
use keyvaluedb.Table.Target.{upto, upto-le, target_loop-upto}
use keyvaluedb.Table.Locate.{
  Ascending, IsFilled, version_at-concat, first_version-Others, first_version-upto_zero,
}
use keyvaluedb.Table.Fetch.{
  search-version_at, All-IsFilled, HasShortKey, opened_all-IsShort, opened_all-InOrder,
}
use keyvaluedb.Table.Found.{
  contains-insert_all, first_version-members, denied-Others, search_blocks-version_at,
}

length-places_of : (n : ℕ) (ks : List (List ℕ)) → length (places_of n ks) ≡ length ks
unfolding places_of
length-places_of n [] = refl
length-places_of n (k ∷ ks) = ap suc (length-places_of (n + 2 + length k) ks)

-- An empty index is that of no entries.
no_keys :
    (chunks : List (List KeyValuePair))
    → All IsFilled chunks
    → (length (write_first_keys (opened_all chunks)) == 0) ≡ true
    → concat chunks ≡ []
unfolding write_first_keys opened_all opened concat write_u16
no_keys [] h e = refl
no_keys ([] ∷ cs) h e = absurd (omega (arith, h.0))
no_keys ((kv ∷ c) ∷ cs) h e = absurd (ground (arith, e))

negated : (b : Bool) → not b ≡ true → b ≡ false
negated b h = ground (arith, h)

both_true : (a b : Bool) → (a && b) ≡ true → b ≡ true
both_true a b h = ground (arith, h)

-- A file and metadata that are those of these blocks.
pub record Describes (file : List ℕ) (m : TableMetadata) (before rest ts : List ℕ) (bits count : ℕ)
    (chunks : List (List KeyValuePair)) : Type 0 where
  pub file_is : file ≡ before ++ (chunks_bytes chunks ++ rest)
  pub offsets_are : m.block_offsets ≡ starts (length before) chunks
  pub keys_are : m.block_first_key_buf ≡ write_first_keys (opened_all chunks)
  pub places_are : m.first_key_offsets ≡ places_of 0 (opened_all chunks)
  pub bloom_is : m.bloom ≡ add_all (keys_of (concat chunks)) (new_filter bits count)
  pub aborted_are : m.aborted_batch_ts ≡ insert_all ts []
  pub are_chunks : All IsChunk chunks
  pub short : All HasShortKey (concat chunks)
  pub order : Ascending (concat chunks)

module _ (file : List ℕ) (m : TableMetadata) (before rest ts : List ℕ) (bits count : ℕ)
    (chunks : List (List KeyValuePair)) (d : Describes file m before rest ts bits count chunks)
    (key : List ℕ) (read_ts : ℕ) where
  u : ℕ
  u = upto key (opened_all chunks)

  result : Option (List ℕ)
  result = first_version m.aborted_batch_ts key read_ts (concat chunks)

  filled : All IsFilled chunks
  filled = All-IsFilled chunks d.are_chunks

  target_is : target_of m key ≡ (if ltb 0 u then u - 1 else 0)
  unfolding target_of u
  target_is =
      let ks = opened_all chunks in
      rw
        (
          d.places_are,
          d.keys_are,
          length-places_of 0 ks,
          target_loop-upto (length ks) ks key 0 (length ks) (opened_all-IsShort chunks d.short)
              (opened_all-InOrder chunks d.order) (omega arith) (omega arith) (omega arith)
              (upto-le key ks),
        )
        refl

  search_is : (i : ℕ) → search_block file m key read_ts i ≡ (if suc i == u then result else none)
  unfolding search_block u result
  search_is i =
      let at = search-version_at m.aborted_batch_ts key read_ts before chunks rest i d.are_chunks in
      rw (search_block, d.offsets_are, d.file_is, at)
        (version_at-concat m.aborted_batch_ts key read_ts chunks i filled d.order)

  blocks_searched : search_blocks file m key read_ts (target_of m key) ≡ result
  unfolding u result
  blocks_searched = rw target_is (
      search_blocks-version_at file m key read_ts u result search_is
        (first_version-upto_zero m.aborted_batch_ts key read_ts chunks filled d.order))

  no_index : (length m.block_first_key_buf == 0) ≡ true → result ≡ none
  unfolding result first_version
  no_index h = rw (no_keys chunks filled (rw d.keys_are at h)) refl

  denied : not (might_contain key m.bloom) ≡ true → result ≡ none
  unfolding result
  denied h = first_version-Others m.aborted_batch_ts key read_ts (concat chunks) (
      denied-Others key (concat chunks) bits count
        (rw d.bloom_is at (negated (might_contain key m.bloom) h)))

  same_members : result ≡ first_version ts key read_ts (concat chunks)
  unfolding result
  same_members =
      first_version-members m.aborted_batch_ts ts key read_ts (concat chunks)
        (λ x. rw d.aborted_are (contains-insert_all x ts [] ∙ ground arith))

  lookup_in-result : lookup_in file m key read_ts ≡ result
  unfolding lookup_in
  lookup_in-result = elim (Bool-cases (length m.block_first_key_buf == 0)) [
    | inl e ↦ rw (lookup_in, e) (sym (no_index e))
    | inr e ↦ elim (Bool-cases (ltb 0 m.bloom.bits && not (might_contain key m.bloom))) [
      | inl b ↦ rw (lookup_in, e, b) (sym (denied (both_true (ltb 0 m.bloom.bits) _ b)))
      | inr b ↦ rw (lookup_in, e, b) blocks_searched
    ]
  ]

  pub lookup_in-Describes :
      lookup_in file m key read_ts ≡ first_version ts key read_ts (concat chunks)
  lookup_in-Describes = lookup_in-result ∙ same_members
