-- ===== src/Manifest/Compaction.antt =====
-- Manifest::Compact (src/manifest.cpp) changes the file and not what Manifest::Recover returns.
use keyvaluedb.Prelude.{
  ℕ, ◌<◌, ◌^◌, ◌≡◌, refl, ◌∙◌, ap, sym, false, List, [], ◌∷◌, ◌++◌, All, All-append, map, contains,
  append-nil, append_assoc, arith, Bool-cases, inl, inr,
}
use mathlib.Core.Path.{ap₂}
use keyvaluedb.Manifest.Format.{Metadata}
use keyvaluedb.Manifest.Catalog.{
  mark_aborted, apply_aborts, recover_catalog, is_needed, needed_aborts, write_catalog,
  write_aborts, compact_file,
}
use keyvaluedb.Manifest.Records.{Record, add, remove, abort, encode, encode_all, Fits, FitsTable}
use keyvaluedb.Manifest.Loop.{Ends, Ends-nil, fresh, read_file-encode_all}
use keyvaluedb.Manifest.Recovery.{
  tables, removes, aborts, live, unmarked, note_all-parts, surviving-live, recover_catalog-parts,
  map-unmarked-tables,
}

abbrev add_all : List Metadata → List Record
add_all [] = []
add_all (m ∷ ms) = add m.manifest_seq m ∷ add_all ms

abbrev abort_all : List (ℕ × ℕ) → List Record
abort_all [] = []
abort_all ((t, f) ∷ l) = abort t f ∷ abort_all l

-- The records that compaction writes for records that it reads.
abbrev compacted : List Record → List Record
compacted rs =
    let catalog = live (removes rs) (tables rs) in
    add_all catalog ++ abort_all (needed_aborts (aborts rs) catalog)

write_catalog-add_all : (ms : List Metadata) → write_catalog ms ≡ encode_all (add_all ms)
unfolding write_catalog encode_all encode
write_catalog-add_all [] = refl
write_catalog-add_all (m ∷ ms) = rw (write_catalog-add_all ms)

write_aborts-abort_all : (l : List (ℕ × ℕ)) → write_aborts l ≡ encode_all (abort_all l)
unfolding write_aborts encode_all encode
write_aborts-abort_all [] = refl
write_aborts-abort_all ((t, f) ∷ l) = rw (write_aborts-abort_all l)

encode_all-append : (xs ys : List Record) → encode_all (xs ++ ys) ≡ encode_all xs ++ encode_all ys
unfolding encode_all
encode_all-append [] ys = refl
encode_all-append (x ∷ xs) ys =
    rw (encode_all-append xs ys) (sym (append_assoc (encode x) (encode_all xs) (encode_all ys)))

compact_file-parts :
    (rs : List Record) (tail : List ℕ)
    → All Fits rs
    → Ends tail
    → compact_file (encode_all rs ++ tail) ≡ encode_all (compacted rs) ++ []
compact_file-parts rs tail fit ends =
    let catalog : List Metadata = live (removes rs) (tables rs) in
    unfold compact_file in
    rw (read_file-encode_all rs tail fit ends, note_all-parts rs fresh)
      (rw (surviving-live (removes rs) (tables rs)) (
        ap₂ (λ (xs ys : List ℕ). xs ++ ys) (write_catalog-add_all catalog)
          (write_aborts-abort_all (needed_aborts (aborts rs) catalog))
        ∙ sym (encode_all-append (add_all catalog) (abort_all (needed_aborts (aborts rs) catalog)))
        ∙ sym (append-nil _)))

-- What the compacted records hold.
tables-compacted :
    (ms : List Metadata) (l : List (ℕ × ℕ)) → tables (add_all ms ++ abort_all l) ≡ map unmarked ms
tables-compacted [] [] = refl
tables-compacted [] ((t, f) ∷ l) = tables-compacted [] l
tables-compacted (m ∷ ms) l = rw (tables-compacted ms l)

removes-compacted :
    (ms : List Metadata) (l : List (ℕ × ℕ)) → removes (add_all ms ++ abort_all l) ≡ []
removes-compacted [] [] = refl
removes-compacted [] ((t, f) ∷ l) = removes-compacted [] l
removes-compacted (m ∷ ms) l = removes-compacted ms l

aborts-compacted : (ms : List Metadata) (l : List (ℕ × ℕ)) → aborts (add_all ms ++ abort_all l) ≡ l
aborts-compacted [] [] = refl
aborts-compacted [] ((t, f) ∷ l) = rw (aborts-compacted [] l)
aborts-compacted (m ∷ ms) l = aborts-compacted ms l

live-nil : (ms : List Metadata) → live [] ms ≡ ms
live-nil [] = refl
live-nil (m ∷ ms) = rw (live-nil ms)

-- They fit their fields where the records read did.
Fits-live :
    (gone : List ℕ) (rs : List Record)
    → All Fits rs
    → All (λ m. FitsTable m.manifest_seq m) (live gone (tables rs))
Fits-live gone [] h = tt
Fits-live gone (add seq m ∷ rs) h = elim (Bool-cases (contains seq gone)) [
  | inl e ↦ rw e (Fits-live gone rs h.1)
  | inr e ↦ rw e (h.0, Fits-live gone rs h.1)
]
Fits-live gone (remove seq ∷ rs) h = Fits-live gone rs h.1
Fits-live gone (abort t f ∷ rs) h = Fits-live gone rs h.1

Fits-add_all :
    (ms : List Metadata) → All (λ m. FitsTable m.manifest_seq m) ms → All Fits (add_all ms)
Fits-add_all [] h = tt
Fits-add_all (m ∷ ms) h = (h.0, Fits-add_all ms h.1)

FitsAbort : ℕ × ℕ → Type 0
FitsAbort p = (p.0 < 2 ^ 64) × (p.1 < 2 ^ 64)

Fits-aborts : (rs : List Record) → All Fits rs → All FitsAbort (aborts rs)
unfolding FitsAbort
Fits-aborts [] h = tt
Fits-aborts (add seq m ∷ rs) h = Fits-aborts rs h.1
Fits-aborts (remove seq ∷ rs) h = Fits-aborts rs h.1
Fits-aborts (abort t f ∷ rs) h = (h.0, Fits-aborts rs h.1)

Fits-needed :
    (l : List (ℕ × ℕ)) (ms : List Metadata)
    → All FitsAbort l
    → All Fits (abort_all (needed_aborts l ms))
unfolding needed_aborts FitsAbort
Fits-needed [] ms h = tt
Fits-needed ((t, f) ∷ l) ms h = elim (Bool-cases (is_needed f ms)) [
  | inl e ↦ rw e (h.0, Fits-needed l ms h.1)
  | inr e ↦ rw e (Fits-needed l ms h.1)
]

Fits-compacted : (rs : List Record) → All Fits rs → All Fits (compacted rs)
Fits-compacted rs h =
    All-append Fits _ _ (Fits-add_all _ (Fits-live (removes rs) rs h))
      (Fits-needed _ _ (Fits-aborts rs h))

-- An abort that no table needs marks none, and marking leaves the tables' numbers alone.
mark_aborted-unneeded :
    (t f : ℕ) (ms : List Metadata) → is_needed f ms ≡ false → mark_aborted t f ms ≡ ms
unfolding mark_aborted is_needed
mark_aborted-unneeded t f [] h = refl
mark_aborted-unneeded t f (m ∷ ms) h = ground (arith, mark_aborted-unneeded t f ms)

is_needed-mark_aborted :
    (g t f : ℕ) (ms : List Metadata) → is_needed g (mark_aborted t f ms) ≡ is_needed g ms
unfolding mark_aborted is_needed
is_needed-mark_aborted g t f [] = refl
is_needed-mark_aborted g t f (m ∷ ms) = ground (arith, is_needed-mark_aborted g t f ms)

apply_aborts-needed :
    (l : List (ℕ × ℕ)) (catalog ms : List Metadata)
    → ((f : ℕ) → is_needed f ms ≡ is_needed f catalog)
    → apply_aborts (needed_aborts l catalog) ms ≡ apply_aborts l ms
unfolding apply_aborts needed_aborts
apply_aborts-needed [] catalog ms h = refl
apply_aborts-needed ((t, f) ∷ l) catalog ms h = elim (Bool-cases (is_needed f catalog)) [
  | inl e ↦ rw e (
      apply_aborts-needed l catalog (mark_aborted t f ms)
        (λ g. is_needed-mark_aborted g t f ms ∙ h g))
  | inr e ↦ rw (e, mark_aborted-unneeded t f ms (h f ∙ e)) (apply_aborts-needed l catalog ms h)
]

needed_aborts-needed :
    (l : List (ℕ × ℕ)) (ms : List Metadata)
    → needed_aborts (needed_aborts l ms) ms ≡ needed_aborts l ms
unfolding needed_aborts
needed_aborts-needed [] ms = refl
needed_aborts-needed ((t, f) ∷ l) ms = elim (Bool-cases (is_needed f ms)) [
  | inl e ↦ rw (e, e) (ap (λ (k : List (ℕ × ℕ)). (t, f) ∷ k) (needed_aborts-needed l ms))
  | inr e ↦ rw e (needed_aborts-needed l ms)
]

-- The live tables of the compacted records are those of the records.
live-compacted :
    (rs : List Record)
    → live (removes (compacted rs)) (tables (compacted rs)) ≡ live (removes rs) (tables rs)
live-compacted rs =
    let catalog : List Metadata = live (removes rs) (tables rs) in
    let needed : List (ℕ × ℕ) = needed_aborts (aborts rs) catalog in
    rw (removes-compacted catalog needed, tables-compacted catalog needed)
      (live-nil (map unmarked catalog) ∙ map-unmarked-tables (removes rs) rs)

-- Recovery after compaction returns what it returned before, the sets of aborted batches included,
-- on a manifest of records that a crash may have cut off.
pub recover_catalog-compact_file :
    (rs : List Record) (tail : List ℕ)
    → All Fits rs
    → Ends tail
    → recover_catalog (compact_file (encode_all rs ++ tail))
      ≡ recover_catalog (encode_all rs ++ tail)
recover_catalog-compact_file rs tail fit ends =
    let catalog : List Metadata = live (removes rs) (tables rs) in
    rw
      (
        compact_file-parts rs tail fit ends,
        recover_catalog-parts rs tail fit ends,
        recover_catalog-parts (compacted rs) [] (Fits-compacted rs fit) Ends-nil,
        live-compacted rs,
        aborts-compacted catalog (needed_aborts (aborts rs) catalog),
      )
      (apply_aborts-needed (aborts rs) catalog catalog (λ f. refl))

-- Compacting twice is compacting once.
compact_file-compact_file :
    (rs : List Record) (tail : List ℕ)
    → All Fits rs
    → Ends tail
    → compact_file (compact_file (encode_all rs ++ tail)) ≡ compact_file (encode_all rs ++ tail)
compact_file-compact_file rs tail fit ends =
    let catalog : List Metadata = live (removes rs) (tables rs) in
    rw (
      compact_file-parts rs tail fit ends,
      compact_file-parts (compacted rs) [] (Fits-compacted rs fit) Ends-nil,
      live-compacted rs,
      aborts-compacted catalog (needed_aborts (aborts rs) catalog),
      needed_aborts-needed (aborts rs) catalog,
    )
