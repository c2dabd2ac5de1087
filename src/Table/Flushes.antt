-- ===== src/Table/Flushes.antt =====
-- WriteFromWalk writes the table that Write writes of the newest version of each key.
use keyvaluedb.Prelude.{
  ℕ, ◌+◌, ◌^◌, ◌<◌, ◌≡◌, refl, sym, ap, ◌∙◌, inl, inr, Bool, true, false, List, [], ◌∷◌, ◌++◌,
  append_assoc, arith, ltb, ◌==◌, if◌then◌else◌, Bool-cases, length, length-append, All, All-append,
}
use keyvaluedb.Types.{KeyValuePair}
use keyvaluedb.Bloom.{BloomFilter}
use keyvaluedb.Tree.Keys.{key_eq, key_eq_iff}
use keyvaluedb.Table.Write.{Writer, write_entry_to, write_entries_to, first_key, last_key}
use keyvaluedb.Table.Chunks.{FitsBlock, length-write_entries}
use keyvaluedb.Table.Writes.{Written-write_entries_to, Written-start, start_writer}
use keyvaluedb.Table.Flush.{
  Flush, best_loop, flush_best, walk_step, walk_all, write_all, start_flush,
}
use keyvaluedb.Table.Flushed.{Mirrors, Mirrors-best_loop, started}

-- Of each run of entries with one key, the version with the greatest timestamp, the first such.
unfoldable pub newest_from : KeyValuePair → List KeyValuePair → List KeyValuePair
newest_from best [] = best ∷ []
newest_from best (kv ∷ kvs) =
    let merged = newest_from (if ltb best.timestamp kv.timestamp then kv else best) kvs in
    let next = newest_from kv kvs in if key_eq kv.key best.key then merged else best ∷ next

unfoldable pub newest : List KeyValuePair → List KeyValuePair
newest [] = []
newest (kv ∷ kvs) = newest_from kv kvs

-- An entry that a block can hold, with a key.
abbrev pub IsFlushable : KeyValuePair → Type 0
IsFlushable kv = FitsBlock kv × (0 < length kv.key)

-- What was flushed is what the writer wrote.
pub record Flushed (before : List ℕ) (filter : BloomFilter) (done : List KeyValuePair) (f : Flush)
    : Type 0 where
  pub mirrors : Mirrors before f (write_entries_to done (start_writer before filter))
  pub min_is : f.min_key ≡ first_key done
  pub max_is : f.max_key ≡ last_key done
  pub written_is : f.written ≡ length done
  pub fits : All IsFlushable done

write_entries_to-append :
    (done : List KeyValuePair) (kv : KeyValuePair) (w : Writer)
    → write_entries_to (done ++ (kv ∷ [])) w ≡ write_entry_to kv (write_entries_to done w)
unfolding write_entries_to
write_entries_to-append [] kv w = refl
write_entries_to-append (x ∷ done) kv w = write_entries_to-append done kv (write_entry_to x w)

last_key-append :
    (done : List KeyValuePair) (kv : KeyValuePair) → last_key (done ++ (kv ∷ [])) ≡ kv.key
unfolding last_key
last_key-append [] kv = refl
last_key-append (x ∷ []) kv = refl
last_key-append (x ∷ y ∷ done) kv = last_key-append (y ∷ done) kv

first_key-append :
    (done : List KeyValuePair) (kv : KeyValuePair)
    → All IsFlushable done
    → (if length (first_key done) == 0 then kv.key else first_key done)
      ≡ first_key (done ++ (kv ∷ []))
unfolding first_key
first_key-append [] kv h = refl
first_key-append (x ∷ done) kv h = ground (arith, h.0.1)

All-fits : (kvs : List KeyValuePair) → All IsFlushable kvs → All FitsBlock kvs
All-fits [] h = tt
All-fits (kv ∷ kvs) h = (h.0.0, All-fits kvs h.1)

count_small :
    (before : List ℕ) (filter : BloomFilter) (done : List KeyValuePair)
    → All IsFlushable done
    → (write_entries_to done (start_writer before filter)).builder.count + 1 < 2 ^ 32
count_small before filter done h =
    let w =
      Written-write_entries_to before filter [] done (start_writer before filter)
        (Written-start before filter) (All-fits done h) in
    omega (
      arith,
      w.holds.count_is,
      w.holds.size_is,
      w.holds.short,
      length-write_entries w.pending w.holds.fits,
    )

if_then : (b : Bool) (x y : Flush) → b ≡ true → (if b then x else y) ≡ x
if_then b x y h = rw h refl

if_else : (b : Bool) (x y : Flush) → b ≡ false → (if b then x else y) ≡ y
if_else b x y h = rw h refl

-- What flushBest does where there is a best version.
abbrev flushed_of : Flush → Flush
flushed_of f = record (best_loop 2 (record f.best { key = f.prev_key }) (started f)) {
  min_key = if length f.min_key == 0 then f.prev_key else f.min_key;
  max_key = f.prev_key;
  written = f.written + 1;
  has_best = false;
}

flush_best-some : (f : Flush) → f.has_best ≡ true → flush_best f ≡ flushed_of f
unfolding flush_best
flush_best-some f h = if_then f.has_best (flushed_of f) f h

-- The same, with the best version as it stands.
abbrev flushed_with : KeyValuePair → Flush → Flush
flushed_with kv f = record (best_loop 2 kv (started f)) {
  min_key = if length f.min_key == 0 then f.prev_key else f.min_key;
  max_key = f.prev_key;
  written = f.written + 1;
  has_best = false;
}

flush_best-with :
    (f : Flush) → f.has_best ≡ true → f.prev_key ≡ f.best.key → flush_best f ≡ flushed_with f.best f
flush_best-with f has same =
    let keyed : KeyValuePair = record f.best { key = f.prev_key } in
    let kv_is : keyed ≡ f.best = ap (λ (k : List ℕ). record f.best { key = k }) same in
    flush_best-some f has ∙ ap (λ (kv : KeyValuePair). flushed_with kv f) kv_is

flush_best-none : (f : Flush) → f.has_best ≡ false → flush_best f ≡ f
unfolding flush_best
flush_best-none f h = if_else f.has_best (flushed_of f) f h

-- The round that comes to another key.
walk_step-next :
    (kv : KeyValuePair) (f : Flush)
    → key_eq kv.key f.prev_key ≡ false
    → walk_step kv f ≡ record (flush_best f) { prev_key = kv.key; best = kv; has_best = true }
unfolding walk_step
walk_step-next kv f h = if_else (key_eq kv.key f.prev_key) _ _ h

no_empty_key : (key : List ℕ) → 0 < length key → key_eq key [] ≡ false
unfolding key_eq
no_empty_key [] h = absurd (omega arith)
no_empty_key (x ∷ key) h = refl

module _ (before : List ℕ) (filter : BloomFilter) where
  Flushed-same :
      (done : List KeyValuePair) (f g : Flush)
      → f ≡ g
      → Flushed before filter done g
      → Flushed before filter done f
  Flushed-same done f g e h = rw e h

  Flushed-flush_best :
      (done : List KeyValuePair) (f : Flush)
      → Flushed before filter done f
      → f.has_best ≡ true
      → f.prev_key ≡ f.best.key
      → IsFlushable f.best
      → Flushed before filter (done ++ (f.best ∷ [])) (flush_best f)
  Flushed-flush_best done f h has same fits =
      let m =
        Mirrors-best_loop before f.best f (write_entries_to done (start_writer before filter))
          h.mirrors same (count_small before filter done h.fits) in
      Flushed-same _ (flush_best f) (flushed_with f.best f) (flush_best-with f has same) (record {
        mirrors = rw (write_entries_to-append done f.best (start_writer before filter)) (record {
          builder_is = m.builder_is;
          bloom_is = m.bloom_is;
          file_is = m.file_is;
          offsets_are = m.offsets_are;
          keys_are = m.keys_are;
        });
        min_is = rw (h.min_is, same) (first_key-append done f.best h.fits);
        max_is = same ∙ sym (last_key-append done f.best);
        written_is = omega (arith, h.written_is, length-append done (f.best ∷ []));
        fits = All-append IsFlushable done (f.best ∷ []) h.fits (fits, tt);
      })

  -- The round that takes another version of the same key, and the one that takes the next key,
  -- change nothing that was flushed.
  Flushed-fields :
      (done : List KeyValuePair) (f : Flush) (key : List ℕ) (kv : KeyValuePair) (has : Bool)
      → Flushed before filter done f
      → Flushed before filter done (record f { prev_key = key; best = kv; has_best = has })
  Flushed-fields done f key kv has h = record {
    mirrors = record {
      builder_is = h.mirrors.builder_is;
      bloom_is = h.mirrors.bloom_is;
      file_is = h.mirrors.file_is;
      offsets_are = h.mirrors.offsets_are;
      keys_are = h.mirrors.keys_are;
    };
    min_is = h.min_is;
    max_is = h.max_is;
    written_is = h.written_is;
    fits = h.fits;
  }

  Flushed-walk_all :
      (kvs done : List KeyValuePair) (f : Flush)
      → Flushed before filter done f
      → f.has_best ≡ true
      → f.prev_key ≡ f.best.key
      → IsFlushable f.best
      → All IsFlushable kvs
      → Flushed before filter (done ++ newest_from f.best kvs) (flush_best (walk_all kvs f))
  unfolding walk_all walk_step newest_from
  Flushed-walk_all [] done f h has same fits rest = Flushed-flush_best done f h has same fits
  Flushed-walk_all (kv ∷ kvs) done f h has same fits rest =
      elim (Bool-cases (key_eq kv.key f.prev_key)) [
        | inl e ↦
            let equal : kv.key ≡ f.prev_key = (key_eq_iff kv.key f.prev_key).0 e in
            let e2 : key_eq kv.key f.best.key ≡ true = rw same at e in
            elim (Bool-cases (ltb f.best.timestamp kv.timestamp)) [
              | inl newer ↦
                  rw (e, e2, newer)
                    (Flushed-walk_all kvs done (record f { best = kv })
                      (Flushed-fields done f f.prev_key kv f.has_best h) has (sym equal) rest.0
                      rest.1)
              | inr older ↦ rw (e, e2, older) (Flushed-walk_all kvs done f h has same fits rest.1)
            ]
        | inr e ↦
            let e2 : key_eq kv.key f.best.key ≡ false = rw same at e in
            let flushed = Flushed-flush_best done f h has same fits in
            let next =
              Flushed-walk_all kvs (done ++ (f.best ∷ []))
                (record (flush_best f) { prev_key = kv.key; best = kv; has_best = true })
                (Flushed-fields _ (flush_best f) kv.key kv true flushed) refl refl rest.0 rest.1 in
            rw (e, e2) (rw append_assoc at next)
      ]

  Flushed-start : Flushed before filter [] (start_flush filter)
  unfolding start_flush write_entries_to
  Flushed-start = record {
    mirrors = record {
      builder_is = refl;
      bloom_is = refl;
      file_is = unfold write_all in refl;
      offsets_are = unfold write_all in refl;
      keys_are = unfold write_all in refl;
    };
    min_is = unfold first_key in refl;
    max_is = unfold last_key in refl;
    written_is = refl;
    fits = tt;
  }

  -- A walk from the start.
  pub Flushed-walk :
      (walk : List KeyValuePair)
      → All IsFlushable walk
      → Flushed before filter (newest walk) (flush_best (walk_all walk (start_flush filter)))
  unfolding walk_all newest
  Flushed-walk [] fits =
      rw (flush_best-none (start_flush filter) (unfold start_flush in refl)) Flushed-start
  Flushed-walk (kv ∷ kvs) fits =
      let start = start_flush filter in
      rw
        (
          walk_step-next kv start (unfold start_flush in no_empty_key kv.key fits.0.1),
          flush_best-none start (unfold start_flush in refl),
        )
        (Flushed-walk_all kvs [] (record start { prev_key = kv.key; best = kv; has_best = true })
          (Flushed-fields [] start kv.key kv true Flushed-start) refl refl fits.0 fits.1)
