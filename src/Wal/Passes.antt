-- ===== src/Wal/Passes.antt =====
-- The loops of the two passes over the bytes of a list of records.
use keyvaluedb.Prelude.{
  ◌⊎◌, inl, inr, ℕ, zero, suc, ◌+◌, ◌≤◌, ◌<◌, ◌≡◌, refl, ◌∙◌, ap, sym, none, some, List, [], ◌∷◌,
  ◌++◌, length, All, arith, append_assoc, length-append,
}
use keyvaluedb.Bytes.{read_u32, write_u32, write_u64}
use keyvaluedb.Wal.Format.{
  begin_sentinel, Record, put, abort, batch_begin, batch_commit, checkpoint, encode, encode_all,
  serialize_record, sentinel_record, checkpoint_record, entry_body,
}
use keyvaluedb.Wal.Scan.{Checkpoint, find_step, find_checkpoint, Replay, replay_step, replay}
use keyvaluedb.Wal.Records.{
  Fits, find_step-put, find_step-abort, find_step-checkpoint, find_step-batch_begin,
  find_step-batch_commit, replay_step-put, replay_step-abort, replay_step-batch_begin,
  replay_step-batch_commit,
}
use keyvaluedb.Wal.Replay.{replay_record, replay_all}

-- No record can be read from these bytes: both passes stop there.
pub record Ends (tail : List ℕ) : Type 0 where
  pub first : (c : Checkpoint) → find_step tail c ≡ none
  pub second : (s : Replay) → replay_step tail s ≡ none

pub Ends-nil : Ends []
unfolding find_step replay_step read_u32
Ends-nil = record { first = λ c. refl; second = λ s. refl }

-- Records that the first pass reads through.
abbrev pub IsScanned : Record → Type 0
IsScanned (batch_begin ts) = ⊥
IsScanned (batch_commit ts) = ⊥
IsScanned r = Unit

-- Records behind the last checkpoint.
abbrev pub IsLate : Record → Type 0
IsLate (checkpoint ts batch_ts) = ⊥
IsLate r = Unit

pub encode_all-append :
    (xs ys : List Record) → encode_all (xs ++ ys) ≡ encode_all xs ++ encode_all ys
unfolding encode_all
encode_all-append [] ys = refl
encode_all-append (x ∷ xs) ys =
    rw (encode_all-append xs ys) (sym (append_assoc (encode x) (encode_all xs) (encode_all ys)))

encode_all-cons :
    (r : Record) (rs : List Record) (tail : List ℕ)
    → encode_all (r ∷ rs) ++ tail ≡ encode r ++ (encode_all rs ++ tail)
unfolding encode_all
encode_all-cons r rs tail = append_assoc (encode r) (encode_all rs) tail

-- The loops, one round at a time.
pub replay-next :
    (fuel : ℕ) (bs rest : List ℕ) (s s' : Replay)
    → replay_step bs s ≡ some (rest, s')
    → replay (suc fuel) bs s ≡ replay fuel rest s'
unfolding replay
replay-next fuel bs rest s s' e = rw (e, replay)

pub replay-stop :
    (fuel : ℕ) (bs : List ℕ) (s : Replay) → replay_step bs s ≡ none → replay fuel bs s ≡ s
unfolding replay
replay-stop zero bs s e = refl
replay-stop (suc fuel) bs s e = rw (e, replay)

pub find-next :
    (fuel : ℕ) (bs rest : List ℕ) (c c' : Checkpoint)
    → find_step bs c ≡ some (rest, c')
    → find_checkpoint (suc fuel) bs c ≡ find_checkpoint fuel rest c'
unfolding find_checkpoint
find-next fuel bs rest c c' e = rw (e, find_checkpoint)

pub find-stop :
    (fuel : ℕ) (bs : List ℕ) (c : Checkpoint)
    → find_step bs c ≡ none
    → find_checkpoint fuel bs c ≡ c
unfolding find_checkpoint
find-stop zero bs c e = refl
find-stop (suc fuel) bs c e = rw (e, find_checkpoint)

replay_step-encode :
    (r : Record) (rest : List ℕ) (s : Replay)
    → Fits r
    → IsLate r
    → replay_step (encode r ++ rest) s ≡ some (rest, replay_record r s)
unfolding replay_record
replay_step-encode (put k v t) rest s fit late = replay_step-put k v t rest fit s
replay_step-encode (abort t) rest s fit late = replay_step-abort t rest fit s
replay_step-encode (batch_begin t) rest s fit late = replay_step-batch_begin t rest fit s
replay_step-encode (batch_commit t) rest s fit late = replay_step-batch_commit t rest fit s
replay_step-encode (checkpoint t b) rest s fit late = absurd late

-- The second pass over records does what the records say, with a round of fuel for each.
pub replay-encode_all :
    (fuel : ℕ) (rs : List Record) (tail : List ℕ) (s : Replay)
    → length rs ≤ fuel
    → All Fits rs
    → All IsLate rs
    → Ends tail
    → replay fuel (encode_all rs ++ tail) s ≡ replay_all rs s
unfolding replay_all
replay-encode_all fuel [] tail s h fit late e =
    unfold encode_all in replay-stop fuel tail s (e.second s)
replay-encode_all zero (r ∷ rs) tail s h fit late e = absurd (omega arith)
replay-encode_all (suc fuel) (r ∷ rs) tail s h fit late e = rw (encode_all-cons r rs tail) (
    replay-next fuel _ _ s (replay_record r s)
      (replay_step-encode r (encode_all rs ++ tail) s fit.0 late.0)
    ∙ replay-encode_all fuel rs tail (replay_record r s) (omega arith) fit.1 late.1 e)

-- The first pass keeps what it has found over records behind the last checkpoint, also where it
-- stops at a batch sentinel.
find_step-late :
    (r : Record) (rest : List ℕ) (c : Checkpoint)
    → Fits r
    → IsLate r
    → length rest + 8 < begin_sentinel
    → (find_step (encode r ++ rest) c ≡ some (rest, c)) ⊎ (find_step (encode r ++ rest) c ≡ none)
find_step-late (put k v t) rest c fit late small = inl (find_step-put k v t rest fit c)
find_step-late (abort t) rest c fit late small = inl (find_step-abort t rest fit c)
find_step-late (batch_begin t) rest c fit late small = inr (find_step-batch_begin t rest c small)
find_step-late (batch_commit t) rest c fit late small = inr (find_step-batch_commit t rest c small)
find_step-late (checkpoint t b) rest c fit late small = absurd late

pub length-encode : (r : Record) → 12 ≤ length (encode r)
unfolding encode serialize_record sentinel_record checkpoint_record entry_body write_u32 write_u64
length-encode (put k v t) = simp length-append (omega arith)
length-encode (abort t) = omega arith
length-encode (batch_begin t) = omega arith
length-encode (batch_commit t) = omega arith
length-encode (checkpoint t b) = omega arith

pub find-late :
    (fuel : ℕ) (rs : List Record) (tail : List ℕ) (c : Checkpoint)
    → All Fits rs
    → All IsLate rs
    → ((c' : Checkpoint) → find_step tail c' ≡ none)
    → length (encode_all rs ++ tail) < begin_sentinel
    → find_checkpoint fuel (encode_all rs ++ tail) c ≡ c
find-late fuel [] tail c fit late e small = unfold encode_all in find-stop fuel tail c (e c)
find-late zero (r ∷ rs) tail c fit late e small = unfold find_checkpoint in refl
find-late (suc fuel) (r ∷ rs) tail c fit late e small =
    let short : length (encode_all rs ++ tail) + 12 < begin_sentinel + 1 = omega (
      arith,
      length-encode r,
      length-append (encode r) (encode_all rs ++ tail),
      ap (λ (l : List ℕ). length l) (encode_all-cons r rs tail),
    ) in
    elim (find_step-late r (encode_all rs ++ tail) c fit.0 late.0 (omega arith)) [
      | inl p ↦
          rw (encode_all-cons r rs tail)
            (find-next fuel _ _ c c p ∙ find-late fuel rs tail c fit.1 late.1 e (omega arith))
      | inr p ↦ rw (encode_all-cons r rs tail) (find-stop (suc fuel) _ c p)
    ]

-- The first pass over what stands before a checkpoint goes on to it.
find_step-scanned :
    (r : Record) (rest : List ℕ) (c : Checkpoint)
    → Fits r
    → IsScanned r
    → (c' : Checkpoint) × (find_step (encode r ++ rest) c ≡ some (rest, c'))
find_step-scanned (put k v t) rest c fit scanned = (c, find_step-put k v t rest fit c)
find_step-scanned (abort t) rest c fit scanned = (c, find_step-abort t rest fit c)
find_step-scanned (batch_begin t) rest c fit scanned = absurd scanned
find_step-scanned (batch_commit t) rest c fit scanned = absurd scanned
find_step-scanned (checkpoint t b) rest c fit scanned =
    (record { tail = rest; found_ts = t; batch_ts = b }, find_step-checkpoint t b rest c fit)

pub find-encode_all :
    (fuel : ℕ) (before after : List Record) (ts batch_ts : ℕ) (tail : List ℕ) (c : Checkpoint)
    → length before < fuel
    → All Fits before
    → All IsScanned before
    → Fits (checkpoint ts batch_ts)
    → All Fits after
    → All IsLate after
    → Ends tail
    → length (encode_all after ++ tail) < begin_sentinel
    → find_checkpoint fuel
        (encode_all before ++ (encode (checkpoint ts batch_ts) ++ (encode_all after ++ tail)))
        c
      ≡ record { tail = encode_all after ++ tail; found_ts = ts; batch_ts = batch_ts }
find-encode_all zero before after ts b tail c h fb sb fc fa la e small = absurd (omega arith)
find-encode_all (suc fuel) [] after ts b tail c h fb sb fc fa la e small =
    unfold encode_all in
    find-next fuel _ _ c _ (find_step-checkpoint ts b (encode_all after ++ tail) c fc)
    ∙ find-late fuel after tail _ fa la e.first small
find-encode_all (suc fuel) (r ∷ rs) after ts b tail c h fb sb fc fa la e small =
    let rest : List ℕ = encode (checkpoint ts b) ++ (encode_all after ++ tail) in
    let (c', p) = find_step-scanned r (encode_all rs ++ rest) c fb.0 sb.0 in
    rw (encode_all-cons r rs rest) (
      find-next fuel _ _ c c' p
      ∙ find-encode_all fuel rs after ts b tail c' (omega arith) fb.1 sb.1 fc fa la e small)

-- The number of records is at most that of their bytes.
pub length-le-encode_all : (rs : List Record) → length rs ≤ length (encode_all rs)
unfolding encode_all
length-le-encode_all [] = omega arith
length-le-encode_all (r ∷ rs) =
    omega
      (arith, length-le-encode_all rs, length-encode r, length-append (encode r) (encode_all rs))
