-- ===== src/Cache.antt =====
-- The key-value cache (include/kvdb/kv_cache.hpp). A pointer to an entry is its index; `none` is
-- kEmpty or nullptr. The number of buckets is a power of two, so that `& mask` is `%`. std::hash is a
-- parameter. A result `none` of a call is a probe that goes round the buckets for ever.
pub mod Shards
pub mod Rooms
pub mod Probes
pub mod Calls
pub mod Endings
pub mod Runs
use keyvaluedb.Prelude.{
  ℕ, zero, suc, ◌+◌, ◌-◌, ◌*◌, ◌/◌, ◌%◌, ◌^◌, ◌≤◌, ◌<◌, min, max, ◌≡◌, refl, sym, ap, ◌∙◌, ◌≢◌, ◌↔◌,
  ◌⊎◌, inl, inr, Bool, true, false, not, ◌&&◌, ◌||◌, Option, none, some, List, [], ◌∷◌, ◌++◌, map,
  append-nil, append_assoc, arith, ltb, leb, ◌==◌, if◌then◌else◌, ltb→lt, lt→ltb, leb→le, ==_iff,
  tests, Bool-cases, Option-cases, contains, insert, erase, contains-insert, contains-erase, ◌>>=◌,
  ◌>>◌, guard, >>=-eq-some, length, get_elem?, get_or, set, take, drop, length-append, length-set,
  get_or-set_self, get_or-set_ne, take-append-drop, All, All-append,
}
use keyvaluedb.Tree.Keys.{key_eq}

pub record Entry : Type 0 where
  pub value : List ℕ
  pub key : List ℕ
  pub timestamp : ℕ
  pub prev : Option ℕ
  pub next : Option ℕ

pub record Bucket : Type 0 where
  pub hash : ℕ
  pub idx : Option ℕ

pub record Shard : Type 0 where
  pub buckets : List Bucket
  pub entries : List Entry
  pub lru_head : Option ℕ
  pub lru_tail : Option ℕ
  pub entry_count : ℕ
  pub max_entries : ℕ
  pub max_bytes : ℕ
  pub current_bytes : ℕ

abbrev pub no_entry : Entry
no_entry = record { value = []; key = []; timestamp = 0; prev = none; next = none }

abbrev pub no_bucket : Bucket
no_bucket = record { hash = 0; idx = none }

unfoldable pub repeated {ℓ} : {A : Type ℓ} → ℕ → A → List A
repeated zero a = []
repeated (suc n) a = a ∷ repeated n a

-- The loop that doubles `bc`, on fuel
unfoldable pub double_until : ℕ → ℕ → ℕ → ℕ
double_until zero bc size = bc
double_until (suc n) bc size =
    let more = double_until n (bc * 2) size in if ltb bc size then more else bc

-- Shard::Init
unfoldable pub new_shard : ℕ → ℕ → Shard
new_shard per_e per_b = record {
  buckets = repeated (double_until (per_e * 2) 1 (per_e * 2)) no_bucket;
  entries = repeated per_e no_entry;
  lru_head = none;
  lru_tail = none;
  entry_count = 0;
  max_entries = per_e;
  max_bytes = per_b;
  current_bytes = 0;
}

abbrev pub entry_at : Shard → ℕ → Entry
entry_at s i = get_or s.entries i no_entry

abbrev pub bucket_at : List Bucket → ℕ → Bucket
bucket_at bs i = get_or bs i no_bucket

unfoldable pub set_next : Option ℕ → Option ℕ → List Entry → List Entry
set_next none to es = es
set_next (some i) to es = set es i (record (get_or es i no_entry) { next = to })

unfoldable pub set_prev : Option ℕ → Option ℕ → List Entry → List Entry
set_prev none to es = es
set_prev (some i) to es = set es i (record (get_or es i no_entry) { prev = to })

-- An end of the list, where the neighbour is missing
unfoldable pub end_or : Option ℕ → Option ℕ → Option ℕ → Option ℕ
end_or none to old = to
end_or (some i) to old = old

unfoldable pub lru_remove : ℕ → Shard → Shard
lru_remove i s =
    let e = entry_at s i in
    let es = set_next e.prev e.next s.entries in
    record s {
      entries = set_prev e.next e.prev es;
      lru_head = end_or e.prev e.next s.lru_head;
      lru_tail = end_or e.next e.prev s.lru_tail;
    }

unfoldable pub lru_push_front : ℕ → Shard → Shard
lru_push_front i s =
    let es = set s.entries i (record (entry_at s i) { prev = none; next = s.lru_head }) in
    record s {
      entries = set_prev s.lru_head (some i) es;
      lru_head = some i;
      lru_tail = end_or s.lru_head (some i) s.lru_tail;
    }

-- A probe ends at a free bucket or at a match, or runs for ever.
pub data Probe : Type 0 where
  free : ℕ → Probe
  slot : ℕ → ℕ → Probe
  endless : Probe

unfoldable pub is_match : List Entry → List ℕ → ℕ → ℕ → ℕ → Bool
is_match entries key hash bucket_hash idx =
    bucket_hash == hash && key_eq (get_or entries idx no_entry).key key

-- The loop of FindSlot, on fuel; a slot comes with the entry that the bucket names.
unfoldable pub probe_slot : ℕ → List Bucket → List Entry → List ℕ → ℕ → ℕ → Probe
probe_slot zero buckets entries key hash i = endless
probe_slot (suc n) buckets entries key hash i =
    let again = probe_slot n buckets entries key hash ((i + 1) % length buckets) in
    elim (bucket_at buckets i).idx [
      | none ↦ free i
      | some idx ↦
          if is_match entries key hash (bucket_at buckets i).hash idx then slot i idx else again
    ]

-- The loops that look for a free bucket
unfoldable pub probe_free : ℕ → List Bucket → ℕ → Option ℕ
probe_free zero buckets i = none
probe_free (suc n) buckets i =
    let again = probe_free n buckets ((i + 1) % length buckets) in
    elim (bucket_at buckets i).idx [ none ↦ some i | some idx ↦ again ]
