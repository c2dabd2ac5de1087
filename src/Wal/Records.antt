-- ===== src/Wal/Records.antt =====
-- One round of each pass on the bytes of one record (`Format`, `Scan`).
use keyvaluedb.Prelude.{
  ◌+◌, ℕ, ◌<◌, ◌^◌, ◌≡◌, refl, true, false, none, some, List, [], ◌++◌, length, ◌==◌, ==_iff, ◌>>=◌,
  append-nil, append_assoc, arith,
}
use keyvaluedb.Types.{KeyValuePair}
use keyvaluedb.Bytes.{split_at, write_u32, write_u64}
use keyvaluedb.Bytes.Fields.{
  split_at_short, split_at-append, read_u32-write_u32, read_u64-write_u64,
}
use keyvaluedb.Crc32.{crc_init, update, finalize, checksum}
use keyvaluedb.Crc32.Laws.{update-append, checksum-lt}
use keyvaluedb.Wal.Format.{
  checkpoint_sentinel, abort_sentinel, commit_sentinel, begin_sentinel, entry_body,
  serialize_record, sentinel_record, checkpoint_record, Record, put, abort, batch_begin,
  batch_commit, checkpoint, encode,
}
use keyvaluedb.Wal.Scan.{
  uint64_from, read_entry, Checkpoint, read_checkpoint, find_body, find_step, Replay, replay_body,
  replay_step, replay_entry, replay_abort, replay_begin, replay_commit,
}

-- An entry as recovery rebuilds it: the tombstone flag is not in the log.
abbrev pub recovered : List ℕ → List ℕ → ℕ → KeyValuePair
recovered key value ts = record { key = key; value = value; timestamp = ts; is_tombstone = false }

pub ==-refl : (n : ℕ) → (n == n) ≡ true
==-refl n = (==_iff n n).1 refl

pub uint64_from-write_u64 :
    (ts : ℕ) (rest : List ℕ) → ts < 2 ^ 64 → uint64_from (write_u64 ts ++ rest) ≡ ts
unfolding uint64_from
uint64_from-write_u64 ts rest h = rw (read_u64-write_u64 ts rest h, uint64_from)

pub split_at-write_u64 :
    (ts : ℕ) (rest : List ℕ) → split_at 8 (write_u64 ts ++ rest) ≡ some (write_u64 ts, rest)
unfolding write_u64 split_at
split_at-write_u64 ts rest = refl

crc_of_pieces :
    (key value : List ℕ) (ts : ℕ)
    → finalize (
        update
          (update
            (update
              (update (update crc_init (write_u32 (length key))) key)
              (write_u32 (length value)))
            value)
          (write_u64 ts))
      ≡ checksum (entry_body key value ts)
unfolding checksum entry_body
crc_of_pieces key value ts = simp update-append

uint64_from_alone : (ts : ℕ) → ts < 2 ^ 64 → uint64_from (write_u64 ts) ≡ ts
uint64_from_alone ts h = rw append-nil at (uint64_from-write_u64 ts [] h)

pub read_entry-body :
    (key value : List ℕ) (ts : ℕ) (rest : List ℕ)
    → length value < 2 ^ 32
    → ts < 2 ^ 64
    → read_entry
        (checksum (entry_body key value ts))
        (length key)
        (key ++ (write_u32 (length value) ++ (value ++ (write_u64 ts ++ rest))))
      ≡ some (recovered key value ts, rest)
unfolding read_entry
read_entry-body key value ts rest hv ht = simp (
  split_at-append,
  read_u32-write_u32 (length value) (value ++ (write_u64 ts ++ rest)) hv,
  split_at-write_u64,
  crc_of_pieces,
  ==-refl,
  uint64_from_alone ts ht,
)

-- Both passes read the checksum and the length of a record, and then its body.
module _ (sum len : ℕ) (rest : List ℕ) (hs : sum < 2 ^ 32) (hl : len < 2 ^ 32) where
  pub find_step-header :
      (c : Checkpoint)
      → find_step (write_u32 sum ++ (write_u32 len ++ rest)) c ≡ find_body sum len rest c
  unfolding find_step
  find_step-header c =
      simp (read_u32-write_u32 sum (write_u32 len ++ rest) hs, read_u32-write_u32 len rest hl)

  pub replay_step-header :
      (s : Replay)
      → replay_step (write_u32 sum ++ (write_u32 len ++ rest)) s ≡ replay_body sum len rest s
  unfolding replay_step
  replay_step-header s =
      simp (read_u32-write_u32 sum (write_u32 len ++ rest) hs, read_u32-write_u32 len rest hl)

-- What the log writes fits its fields, and no key is as long as a sentinel.
abbrev pub Fits : Record → Type 0
Fits (put key value ts) = (length key < begin_sentinel) × (length value < 2 ^ 32) × (ts < 2 ^ 64)
Fits (abort ts) = ts < 2 ^ 64
Fits (batch_begin ts) = ts < 2 ^ 64
Fits (batch_commit ts) = ts < 2 ^ 64
Fits (checkpoint ts batch_ts) = (ts < 2 ^ 64) × (batch_ts < 2 ^ 64)

pub ==-lt : (n m : ℕ) → n < m → (n == m) ≡ false
==-lt n m h = ground arith

-- A key length below the sentinels takes both passes to an entry.
module _ (sum len : ℕ) (bs : List ℕ) (h : len < begin_sentinel) where
  pub find_body-entry :
      (c : Checkpoint) → find_body sum len bs c ≡ (read_entry sum len bs >>= λ r. some (r.1, c))
  unfolding find_body
  find_body-entry c =
      simp (==-lt len checkpoint_sentinel (omega arith), ==-lt len abort_sentinel (omega arith))

  pub replay_body-entry :
      (s : Replay)
      → replay_body sum len bs s ≡ (read_entry sum len bs >>= λ r. some (r.1, replay_entry r.0 s))
  unfolding replay_body
  replay_body-entry s = simp (
    ==-lt len checkpoint_sentinel (omega arith),
    ==-lt len begin_sentinel (omega arith),
    ==-lt len commit_sentinel (omega arith),
    ==-lt len abort_sentinel (omega arith),
  )

pub encode-put-append :
    (key value : List ℕ) (ts : ℕ) (rest : List ℕ)
    → encode (put key value ts) ++ rest
      ≡ write_u32 (checksum (entry_body key value ts))
        ++ (write_u32 (length key)
            ++ (key ++ (write_u32 (length value) ++ (value ++ (write_u64 ts ++ rest)))))
encode-put-append key value ts rest =
    unfold encode serialize_record in rw append_assoc (unfold entry_body in simp append_assoc)

module _ (key value : List ℕ) (ts : ℕ) (rest : List ℕ) (h : Fits (put key value ts)) where
  pub find_step-put :
      (c : Checkpoint) → find_step (encode (put key value ts) ++ rest) c ≡ some (rest, c)
  find_step-put c = rw (
    encode-put-append key value ts rest,
    find_step-header _ (length key) _ (checksum-lt (entry_body key value ts)) (omega arith) c,
    find_body-entry _ (length key) _ h.0 c,
    read_entry-body key value ts rest h.1 h.2,
  )

  pub replay_step-put :
      (s : Replay)
      → replay_step (encode (put key value ts) ++ rest) s
        ≡ some (rest, replay_entry (recovered key value ts) s)
  replay_step-put s = rw (
    encode-put-append key value ts rest,
    replay_step-header _ (length key) _ (checksum-lt (entry_body key value ts)) (omega arith) s,
    replay_body-entry _ (length key) _ h.0 s,
    read_entry-body key value ts rest h.1 h.2,
  )

sentinel_record-append :
    (sentinel ts : ℕ) (rest : List ℕ)
    → sentinel_record sentinel ts ++ rest
      ≡ write_u32 (checksum (write_u32 sentinel ++ write_u64 ts))
        ++ (write_u32 sentinel ++ (write_u64 ts ++ rest))
sentinel_record-append sentinel ts rest = unfold sentinel_record in simp append_assoc

module _ (ts : ℕ) (rest : List ℕ) (h : ts < 2 ^ 64) where
  pub find_step-abort : (c : Checkpoint) → find_step (encode (abort ts) ++ rest) c ≡ some (rest, c)
  unfolding encode find_body
  find_step-abort c = rw (
    sentinel_record-append abort_sentinel ts rest,
    find_step-header _ abort_sentinel _ (checksum-lt _) (omega arith) c,
    split_at-write_u64 ts rest,
  )

  pub replay_step-abort :
      (s : Replay) → replay_step (encode (abort ts) ++ rest) s ≡ some (rest, replay_abort ts s)
  unfolding encode replay_body
  replay_step-abort s = rw (
    sentinel_record-append abort_sentinel ts rest,
    replay_step-header _ abort_sentinel _ (checksum-lt _) (omega arith) s,
    split_at-write_u64 ts rest,
    uint64_from_alone ts h,
  )

  pub replay_step-batch_begin :
      (s : Replay)
      → replay_step (encode (batch_begin ts) ++ rest) s ≡ some (rest, replay_begin ts s)
  unfolding encode replay_body
  replay_step-batch_begin s = rw (
    sentinel_record-append begin_sentinel ts rest,
    replay_step-header _ begin_sentinel _ (checksum-lt _) (omega arith) s,
    split_at-write_u64 ts rest,
    uint64_from_alone ts h,
  )

  pub replay_step-batch_commit :
      (s : Replay)
      → replay_step (encode (batch_commit ts) ++ rest) s ≡ some (rest, replay_commit ts s)
  unfolding encode replay_body
  replay_step-batch_commit s = rw (
    sentinel_record-append commit_sentinel ts rest,
    replay_step-header _ commit_sentinel _ (checksum-lt _) (omega arith) s,
    split_at-write_u64 ts rest,
    uint64_from_alone ts h,
  )

pub checkpoint_record-append :
    (ts batch_ts : ℕ) (rest : List ℕ)
    → checkpoint_record ts batch_ts ++ rest
      ≡ write_u32 (checksum (write_u32 checkpoint_sentinel ++ (write_u64 ts ++ write_u64 batch_ts)))
        ++ (write_u32 checkpoint_sentinel ++ (write_u64 ts ++ (write_u64 batch_ts ++ rest)))
checkpoint_record-append ts batch_ts rest = unfold checkpoint_record in simp append_assoc

split_at-write_u64_pair :
    (a b : ℕ) (rest : List ℕ)
    → split_at 16 (write_u64 a ++ (write_u64 b ++ rest)) ≡ some (write_u64 a ++ write_u64 b, rest)
unfolding write_u64 split_at
split_at-write_u64_pair a b rest = refl

pub crc_of_two : (xs ys : List ℕ) → finalize (update (update crc_init xs) ys) ≡ checksum (xs ++ ys)
unfolding checksum
crc_of_two xs ys = rw update-append

-- A whole checkpoint record moves the cursor of the first pass and sets all of its variables.
pub find_step-checkpoint :
    (ts batch_ts : ℕ) (rest : List ℕ) (c : Checkpoint)
    → Fits (checkpoint ts batch_ts)
    → find_step (encode (checkpoint ts batch_ts) ++ rest) c
      ≡ some (rest, record { tail = rest; found_ts = ts; batch_ts = batch_ts })
unfolding encode find_body read_checkpoint
find_step-checkpoint ts batch_ts rest c h = rw (
  checkpoint_record-append ts batch_ts rest,
  find_step-header _ checkpoint_sentinel _ (checksum-lt _) (omega arith) c,
  split_at-write_u64 ts (write_u64 batch_ts ++ rest),
  split_at-write_u64_pair ts batch_ts rest,
  crc_of_two (write_u32 checkpoint_sentinel) (write_u64 ts ++ write_u64 batch_ts),
  ==-refl (checksum (write_u32 checkpoint_sentinel ++ (write_u64 ts ++ write_u64 batch_ts))),
  uint64_from_alone ts h.0,
  uint64_from-write_u64 batch_ts rest h.1,
)

-- The first pass knows no batch sentinel: it takes one for the length of a key, and where less than
-- that length follows it stops.
module _ (ts : ℕ) (rest : List ℕ) (c : Checkpoint) where
  pub find_step-batch_begin :
      length rest + 8 < begin_sentinel → find_step (encode (batch_begin ts) ++ rest) c ≡ none
  unfolding encode find_body read_entry
  find_step-batch_begin h = rw (
    sentinel_record-append begin_sentinel ts rest,
    find_step-header _ begin_sentinel _ (checksum-lt _) (omega arith) c,
    split_at_short begin_sentinel (write_u64 ts ++ rest) (unfold write_u64 in omega arith),
  )

  pub find_step-batch_commit :
      length rest + 8 < begin_sentinel → find_step (encode (batch_commit ts) ++ rest) c ≡ none
  unfolding encode find_body read_entry
  find_step-batch_commit h = rw (
    sentinel_record-append commit_sentinel ts rest,
    find_step-header _ commit_sentinel _ (checksum-lt _) (omega arith) c,
    split_at_short commit_sentinel (write_u64 ts ++ rest) (unfold write_u64 in omega arith),
  )
