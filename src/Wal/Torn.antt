-- ===== src/Wal/Torn.antt =====
-- A crash in the middle of a write: what is left of an entry's record stops both passes.
use keyvaluedb.Prelude.{
  Bool, true, false, ℕ, ◌≡◌, ◌≢◌, ◌∙◌, sym, Option, none, some, List, [], ◌∷◌, ◌++◌, length, arith,
  Option-cases, inl, inr, ◌>>=◌, >>=-eq-some, guard, append-nil,
}
use keyvaluedb.Types.{KeyValuePair}
use keyvaluedb.Bytes.{split_at, read_u32, write_u32, write_u64}
use keyvaluedb.Bytes.Fields.{split_at-append_some, read_u32-append_some, read_u32-write_u32}
use keyvaluedb.Crc32.{checksum}
use keyvaluedb.Crc32.Laws.{checksum-lt}
use keyvaluedb.Wal.Format.{put, encode, entry_body}
use keyvaluedb.Wal.Scan.{read_entry, Checkpoint, find_step, Replay, replay_step}
use keyvaluedb.Wal.Records.{
  Fits, recovered, encode-put-append, read_entry-body, find_body-entry, replay_body-entry,
}
use keyvaluedb.Wal.Passes.{Ends}

guarded :
    (b : Bool) (p q : KeyValuePair × List ℕ) (more : List ℕ)
    → ◌>>=◌ {B = KeyValuePair × List ℕ} (guard b) (λ _. some p) ≡ some q
    → ◌>>=◌ {B = KeyValuePair × List ℕ} (guard b) (λ _. some (p.0, p.1 ++ more))
      ≡ some (q.0, q.1 ++ more)
guarded true p q more e = ground arith
guarded false p q more e = cc

-- An entry that was read whole is read the same where more follows.
read_entry-append_some :
    (sum len : ℕ) (bs more : List ℕ) (kv : KeyValuePair) (rest : List ℕ)
    → read_entry sum len bs ≡ some (kv, rest)
    → read_entry sum len (bs ++ more) ≡ some (kv, rest ++ more)
unfolding read_entry
read_entry-append_some sum len bs more kv rest e =
    let (k, ek, e1) = >>=-eq-some (split_at len bs) _ e in
    let (n, en, e2) = >>=-eq-some (read_u32 k.1) _ e1 in
    let (v, ev, e3) = >>=-eq-some (split_at n.0 n.1) _ e2 in
    let (t, et, e4) = >>=-eq-some (split_at 8 v.1) _ e3 in
    rw
      (
        split_at-append_some len bs more k.0 k.1 ek,
        read_u32-append_some k.1 more n.0 n.1 en,
        split_at-append_some n.0 n.1 more v.0 v.1 ev,
        split_at-append_some 8 v.1 more t.0 t.1 et,
      )
      (guarded _ _ (kv, rest) more e4)

append-ne-nil : (xs : List ℕ) (x : ℕ) (ys : List ℕ) → xs ++ (x ∷ ys) ≢ []
append-ne-nil [] x ys e = cc
append-ne-nil (y ∷ xs) x ys e = cc

same_number :
    {m n : ℕ} {xs ys : List ℕ} → ◌≡◌ {A = Option (ℕ × List ℕ)} (some (m, xs)) (some (n, ys)) → m ≡ n
same_number e = cc

same_rest {ℓ} :
    {A : Type ℓ} {a b : A} {xs ys : List ℕ}
    → ◌≡◌ {A = Option (A × List ℕ)} (some (a, xs)) (some (b, ys))
    → xs ≡ ys
same_rest e = cc

module _ (key value : List ℕ) (ts : ℕ) (front : List ℕ) (x : ℕ) (more : List ℕ)
    (fit : Fits (put key value ts)) (cut : encode (put key value ts) ≡ front ++ (x ∷ more)) where
  -- The header of the record, if it is there, is whole, and the entry behind it is not.
  torn_entry :
      (sum len : ℕ) (after_sum after_len : List ℕ)
      → read_u32 front ≡ some (sum, after_sum)
      → read_u32 after_sum ≡ some (len, after_len)
      → (len ≡ length key) × (read_entry sum len after_len ≡ none)
  torn_entry sum len after_sum after_len e1 e2 =
      let crc : ℕ = checksum (entry_body key value ts) in
      let body : List ℕ = key ++ (write_u32 (length value) ++ (value ++ (write_u64 ts ++ []))) in
      let whole : front ++ (x ∷ more) ≡ write_u32 crc ++ (write_u32 (length key) ++ body) =
        sym cut ∙ sym (append-nil _) ∙ encode-put-append key value ts [] in
      let p1 : ◌≡◌ {A = Option (ℕ × List ℕ)} (some (crc, write_u32 (length key) ++ body))
          (some (sum, after_sum ++ (x ∷ more))) =
        sym (
          read_u32-write_u32 crc (write_u32 (length key) ++ body)
            (checksum-lt (entry_body key value ts)))
        ∙ rw (← whole) (read_u32-append_some front (x ∷ more) sum after_sum e1) in
      let p2 : ◌≡◌ {A = Option (ℕ × List ℕ)} (some (length key, body))
          (some (len, after_len ++ (x ∷ more))) =
        sym (read_u32-write_u32 (length key) body (omega arith))
        ∙ rw (same_rest p1) (read_u32-append_some after_sum (x ∷ more) len after_len e2) in
      (
        sym (same_number p2),
        elim (Option-cases (read_entry sum len after_len)) [
          | inl e ↦ e
          | inr ((kv, rest), e) ↦ absurd (
              append-ne-nil rest x more (
                same_rest {a = kv} {b = recovered key value ts} (
                  sym (read_entry-append_some sum len after_len (x ∷ more) kv rest e)
                  ∙ rw (← same_rest p2, ← same_number p2, ← same_number p1)
                      (read_entry-body key value ts [] fit.1 fit.2))))
        ],
      )

  torn_first : (c : Checkpoint) (p : List ℕ × Checkpoint) → find_step front c ≡ some p → ⊥
  unfolding find_step
  torn_first c p e =
      let (a, ea, e1) = >>=-eq-some (read_u32 front) _ e in
      let (b, eb, e2) = >>=-eq-some (read_u32 a.1) _ e1 in
      let (same, torn) = torn_entry a.0 b.0 a.1 b.1 ea eb in
      cc (e2, find_body-entry a.0 b.0 b.1 (omega arith) c, torn)

  torn_second : (s : Replay) (p : List ℕ × Replay) → replay_step front s ≡ some p → ⊥
  unfolding replay_step
  torn_second s p e =
      let (a, ea, e1) = >>=-eq-some (read_u32 front) _ e in
      let (b, eb, e2) = >>=-eq-some (read_u32 a.1) _ e1 in
      let (same, torn) = torn_entry a.0 b.0 a.1 b.1 ea eb in
      cc (e2, replay_body-entry a.0 b.0 b.1 (omega arith) s, torn)

  -- A proper prefix of an entry's record stops both passes of recovery.
  pub Ends-torn : Ends front
  Ends-torn = record {
    first = λ c. elim (Option-cases (find_step front c)) [
      | inl e ↦ e
      | inr (p, e) ↦ absurd (torn_first c p e)
    ];
    second = λ s. elim (Option-cases (replay_step front s)) [
      | inl e ↦ e
      | inr (p, e) ↦ absurd (torn_second s p e)
    ];
  }
