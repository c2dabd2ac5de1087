-- ===== src/Table/Pieces.antt =====
-- Blocks put behind one another: their entries, bytes, listed keys and places.
use keyvaluedb.Prelude.{
  ℕ, ◌+◌, ◌<◌, ◌≡◌, refl, ap, List, [], ◌∷◌, ◌++◌, map, append-nil, append_assoc, arith, length,
  length-append, All,
}
use keyvaluedb.Bloom.{BloomFilter, add}
use keyvaluedb.Bloom.Laws.{add_all}
use keyvaluedb.Types.{KeyValuePair}
use keyvaluedb.Table.Builder.{add_keys, serialize, write_entry, write_entries, frame}
use keyvaluedb.Table.Chunks.{key_of-serialize, FitsBlock, chunk_bytes, chunks_bytes, concat}

-- The key that the index lists for the entries of a block.
unfoldable pub opened : List KeyValuePair → List (List ℕ)
opened [] = []
opened (kv ∷ kvs) = kv.key ∷ []

unfoldable pub opened_all : List (List KeyValuePair) → List (List ℕ)
opened_all [] = []
opened_all (c ∷ cs) = opened c ++ opened_all cs

-- Where the blocks start, the first one at the given place.
unfoldable pub starts : ℕ → List (List KeyValuePair) → List ℕ
starts n [] = []
starts n (c ∷ cs) = n ∷ starts (n + length (frame (chunk_bytes c))) cs

abbrev pub keys_of : List KeyValuePair → List (List ℕ)
keys_of [] = []
keys_of (kv ∷ kvs) = kv.key ∷ keys_of kvs

pub map-append :
    (xs ys : List KeyValuePair) → map serialize (xs ++ ys) ≡ map serialize xs ++ map serialize ys
map-append [] ys = refl
map-append (x ∷ xs) ys = ap (λ l. serialize x ∷ l) (map-append xs ys)

pub write_entries-append :
    (xs : List KeyValuePair) (kv : KeyValuePair)
    → length (write_entries (map serialize (xs ++ (kv ∷ []))))
      ≡ length (write_entries (map serialize xs)) + length (write_entry (serialize kv))
unfolding write_entries
write_entries-append [] kv = rw append-nil (omega arith)
write_entries-append (x ∷ xs) kv =
    rw
      (
        length-append (write_entry (serialize x)) (write_entries (map serialize (xs ++ (kv ∷ [])))),
        length-append (write_entry (serialize x)) (write_entries (map serialize xs)),
        write_entries-append xs kv,
      )
      (omega arith)

pub concat-append :
    (cs : List (List KeyValuePair)) (c : List KeyValuePair)
    → concat (cs ++ (c ∷ [])) ≡ concat cs ++ c
unfolding concat
concat-append [] c = append-nil c
concat-append (d ∷ cs) c = rw (concat-append cs c, append_assoc) refl

pub chunks_bytes-append :
    (cs : List (List KeyValuePair)) (c : List KeyValuePair)
    → chunks_bytes (cs ++ (c ∷ [])) ≡ chunks_bytes cs ++ frame (chunk_bytes c)
unfolding chunks_bytes
chunks_bytes-append [] c = append-nil _
chunks_bytes-append (d ∷ cs) c = rw (chunks_bytes-append cs c, append_assoc) refl

pub opened-append :
    (kvs : List KeyValuePair) (kv : KeyValuePair)
    → 0 < length kvs
    → opened (kvs ++ (kv ∷ [])) ≡ opened kvs
unfolding opened
opened-append [] kv h = absurd (omega arith)
opened-append (x ∷ kvs) kv h = refl

pub opened_all-append :
    (cs : List (List KeyValuePair)) (c : List KeyValuePair)
    → opened_all (cs ++ (c ∷ [])) ≡ opened_all cs ++ opened c
unfolding opened_all
opened_all-append [] c = append-nil _
opened_all-append (d ∷ cs) c = rw (opened_all-append cs c, append_assoc) refl

pub starts-append :
    (n : ℕ) (cs : List (List KeyValuePair)) (c : List KeyValuePair)
    → starts n (cs ++ (c ∷ [])) ≡ starts n cs ++ ((n + length (chunks_bytes cs)) ∷ [])
unfolding starts chunks_bytes
starts-append n [] c = ap (λ (m : ℕ). m ∷ []) (omega arith)
starts-append n (d ∷ cs) c =
    rw
      (
        starts-append (n + length (frame (chunk_bytes d))) cs c,
        length-append (frame (chunk_bytes d)) (chunks_bytes cs),
      )
      (ap (λ (m : ℕ). n ∷ (starts (n + length (frame (chunk_bytes d))) cs ++ (m ∷ [])))
        (omega arith))

pub keys_of-append : (xs ys : List KeyValuePair) → keys_of (xs ++ ys) ≡ keys_of xs ++ keys_of ys
keys_of-append [] ys = refl
keys_of-append (x ∷ xs) ys = ap (λ l. x.key ∷ l) (keys_of-append xs ys)

pub add_keys-serialize :
    (kvs : List KeyValuePair) (bloom : BloomFilter)
    → All FitsBlock kvs
    → add_keys (map serialize kvs) bloom ≡ add_all (keys_of kvs) bloom
unfolding add_keys add_all
add_keys-serialize [] bloom fits = refl
add_keys-serialize (kv ∷ kvs) bloom fits =
    rw (add_keys, key_of-serialize kv fits.0) (add_keys-serialize kvs (add kv.key bloom) fits.1)
