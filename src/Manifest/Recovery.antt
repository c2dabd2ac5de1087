-- ===== src/Manifest/Recovery.antt =====
-- What Manifest::Recover returns and what Manifest::Compact keeps, against the records written.
use keyvaluedb.Prelude.{
  ℕ, ◌≡◌, refl, ◌∙◌, ap, Bool, false, List, [], ◌∷◌, ◌++◌, All, map, ◌==◌, leb, ◌||◌, ◌&&◌,
  contains, contains-insert, if◌then◌else◌, append-nil, append_assoc, arith, Bool-cases, inl, inr,
}
use keyvaluedb.Manifest.Format.{Metadata}
use keyvaluedb.Manifest.Catalog.{Log, surviving, mark_aborted, apply_aborts, recover_catalog}
use keyvaluedb.Manifest.Records.{
  Record, add, remove, abort, encode_all, stored, note, note_all, Fits,
}
use keyvaluedb.Manifest.Loop.{Ends, fresh, read_file-encode_all}

-- The tables that records add, in order.
abbrev pub tables : List Record → List Metadata
tables [] = []
tables (add seq m ∷ rs) = stored seq m ∷ tables rs
tables (r ∷ rs) = tables rs

abbrev pub removes : List Record → List ℕ
removes [] = []
removes (remove seq ∷ rs) = seq ∷ removes rs
removes (r ∷ rs) = removes rs

abbrev pub aborts : List Record → List (ℕ × ℕ)
aborts [] = []
aborts (abort t f ∷ rs) = (t, f) ∷ aborts rs
aborts (r ∷ rs) = aborts rs

-- The tables whose number no record removes.
abbrev pub live : List ℕ → List Metadata → List Metadata
live gone [] = []
live gone (m ∷ ms) = if contains m.manifest_seq gone then live gone ms else m ∷ live gone ms

-- The batch was aborted with a fence at or above the table's number.
abbrev pub is_aborted_in : ℕ → ℕ → List (ℕ × ℕ) → Bool
is_aborted_in t seq [] = false
is_aborted_in t seq ((ts, fence) ∷ l) = (leb seq fence && ts == t) || is_aborted_in t seq l

abbrev pub unmarked : Metadata → Metadata
unmarked m = record m { aborted_batch_ts = [] }

pub note_all-parts :
    (rs : List Record) (log : Log)
    → note_all rs log ≡ record {
      results = log.results ++ tables rs;
      removed = log.removed ++ removes rs;
      aborts = log.aborts ++ aborts rs;
    }
unfolding note_all note
note_all-parts [] log = simp append-nil
note_all-parts (add seq m ∷ rs) log = note_all-parts rs (note (add seq m) log) ∙ simp append_assoc
note_all-parts (remove seq ∷ rs) log = note_all-parts rs (note (remove seq) log) ∙ simp append_assoc
note_all-parts (abort t f ∷ rs) log = note_all-parts rs (note (abort t f) log) ∙ simp append_assoc

pub surviving-live : (gone : List ℕ) (ms : List Metadata) → surviving gone ms ≡ live gone ms
unfolding surviving
surviving-live gone [] = refl
surviving-live gone (m ∷ ms) = rw (surviving-live gone ms)

-- Marking changes the sets of aborted batches only.
map-mark_aborted :
    (t f : ℕ) (ms : List Metadata) → map unmarked (mark_aborted t f ms) ≡ map unmarked ms
unfolding mark_aborted
map-mark_aborted t f [] = refl
map-mark_aborted t f (m ∷ ms) = ground (arith, map-mark_aborted t f ms)

map-apply_aborts :
    (l : List (ℕ × ℕ)) (ms : List Metadata) → map unmarked (apply_aborts l ms) ≡ map unmarked ms
unfolding apply_aborts
map-apply_aborts [] ms = refl
map-apply_aborts ((t, f) ∷ l) ms =
    map-apply_aborts l (mark_aborted t f ms) ∙ map-mark_aborted t f ms

pub map-unmarked-tables :
    (gone : List ℕ) (rs : List Record)
    → map unmarked (live gone (tables rs)) ≡ live gone (tables rs)
map-unmarked-tables gone [] = refl
map-unmarked-tables gone (add seq m ∷ rs) = ground (arith, map-unmarked-tables gone rs)
map-unmarked-tables gone (remove seq ∷ rs) = map-unmarked-tables gone rs
map-unmarked-tables gone (abort t f ∷ rs) = map-unmarked-tables gone rs

-- The set of aborted batches of each table is given by `P`.
abbrev Marks : (ℕ → ℕ → Bool) → List Metadata → Type 0
Marks P = All (λ m. (t : ℕ) → contains t m.aborted_batch_ts ≡ P t m.manifest_seq)

Marks-mark_aborted :
    (ts f : ℕ) (P : ℕ → ℕ → Bool) (ms : List Metadata)
    → Marks P ms
    → Marks (λ t seq. P t seq || (leb seq f && ts == t)) (mark_aborted ts f ms)
unfolding mark_aborted
Marks-mark_aborted ts f P [] h = tt
Marks-mark_aborted ts f P (m ∷ ms) h = (
  λ t. ground (arith, h.0 t, contains-insert ts t m.aborted_batch_ts),
  Marks-mark_aborted ts f P ms h.1,
)

Marks-eq :
    (P Q : ℕ → ℕ → Bool) (ms : List Metadata)
    → ((t seq : ℕ) → P t seq ≡ Q t seq)
    → Marks P ms
    → Marks Q ms
Marks-eq P Q [] e h = tt
Marks-eq P Q (m ∷ ms) e h = (λ t. h.0 t ∙ e t m.manifest_seq, Marks-eq P Q ms e h.1)

Marks-apply_aborts :
    (l : List (ℕ × ℕ)) (P : ℕ → ℕ → Bool) (ms : List Metadata)
    → Marks P ms
    → Marks (λ t seq. P t seq || is_aborted_in t seq l) (apply_aborts l ms)
unfolding apply_aborts
Marks-apply_aborts [] P ms h = Marks-eq P _ ms (λ t seq. ground arith) h
Marks-apply_aborts ((ts, f) ∷ l) P ms h =
    Marks-eq _ _ (apply_aborts l (mark_aborted ts f ms)) (λ t seq. ground arith)
      (Marks-apply_aborts l (λ t seq. P t seq || (leb seq f && ts == t)) (mark_aborted ts f ms)
        (Marks-mark_aborted ts f P ms h))

Marks-live : (gone : List ℕ) (rs : List Record) → Marks (λ t seq. false) (live gone (tables rs))
Marks-live gone [] = tt
Marks-live gone (add seq m ∷ rs) = elim (Bool-cases (contains seq gone)) [
  | inl e ↦ rw e (Marks-live gone rs)
  | inr e ↦ rw e (λ t. refl, Marks-live gone rs)
]
Marks-live gone (remove seq ∷ rs) = Marks-live gone rs
Marks-live gone (abort t f ∷ rs) = Marks-live gone rs

pub recover_catalog-parts :
    (rs : List Record) (tail : List ℕ)
    → All Fits rs
    → Ends tail
    → recover_catalog (encode_all rs ++ tail)
      ≡ apply_aborts (aborts rs) (live (removes rs) (tables rs))
recover_catalog-parts rs tail fit ends =
    unfold recover_catalog in
    rw (read_file-encode_all rs tail fit ends, note_all-parts rs fresh)
      (ap (apply_aborts (aborts rs)) (surviving-live (removes rs) (tables rs)))

-- Recovery of a manifest that was cut off behind whole records. Up to the sets of aborted batches it
-- returns the tables that were added and whose number no record removes, in order; and a batch is
-- in the set of a table just where it was aborted with a fence at or above the table's number.
pub recover_catalog-encode_all :
    (rs : List Record) (tail : List ℕ)
    → All Fits rs
    → Ends tail
    → (map unmarked (recover_catalog (encode_all rs ++ tail)) ≡ live (removes rs) (tables rs))
      × All
          (λ m.
            (t : ℕ) → contains t m.aborted_batch_ts ≡ is_aborted_in t m.manifest_seq (aborts rs))
          (recover_catalog (encode_all rs ++ tail))
recover_catalog-encode_all rs tail fit ends = rw (recover_catalog-parts rs tail fit ends) (
  map-apply_aborts (aborts rs) (live (removes rs) (tables rs))
      ∙ map-unmarked-tables (removes rs) rs,
  Marks-apply_aborts (aborts rs) (λ t seq. false) _ (Marks-live (removes rs) rs),
)
