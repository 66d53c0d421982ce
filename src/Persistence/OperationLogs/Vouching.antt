-- ===== src/Persistence/OperationLogs/Vouching.antt =====
-- What the last hash of an operation's log vouches for (persistence/audit_repository.py).
use trustworthy_personal_kno.Prelude.{
  ℕ, ◌≡◌, ◌≢◌, refl, sym, ap, ◌∙◌, subst, Bool, true, false, Option, none, some, List, [], ◌∷◌,
  Member, map, ◌==◌, nat_eq, text_eq, ==→eq, ==-self, Bool-cases, inl, inr, ◌⊎◌, Text, ok,
  some-injective,
}
use trustworthy_personal_kno.Persistence.OperationLogs.{
  Hash, OperationLogRecord, Log, latest, expected_link, same_link, append_operation_log, entries,
}
use trustworthy_personal_kno.Persistence.OperationLogs.Chains.{
  first, IsChain, latest-entries, same_link-eq, append-IsChain,
}

-- A log that begins empty and to which only `append_operation_log` adds.
pub data Appended (hash : Hash) : Log → Type 0 where
  empty : Appended hash []
  append :
      (exists : Bool) (r : OperationLogRecord) (log after : Log)
      → Appended hash log
      → append_operation_log hash exists r log ≡ ok after
      → Appended hash after

-- Two entries of two logs with different inputs and one hash.
pub record Collision (hash : Hash) (rs ss : Log) : Type 0 where
  pub one : OperationLogRecord
  pub two : OperationLogRecord
  pub in_first : Member one rs
  pub in_second : Member two ss
  pub same_hash :
      hash one.operation_id one.step_number one.payload one.previous_entry_hash
      ≡ hash two.operation_id two.step_number two.payload two.previous_entry_hash
  pub different : (one.payload ≢ two.payload) ⊎ (one.previous_entry_hash ≢ two.previous_entry_hash)

abbrev pub payloads : Log → List Text
payloads = map (λ (r : OperationLogRecord). r.payload)

apart : (a b : Text) → (a == b) ≡ false → a ≢ b
apart a b h e = cc (sym h ∙ subst (λ x. (a == x) ≡ true) e (==-self a))

apart_link : (a b : Option ℕ) → same_link a b ≡ false → a ≢ b
apart_link none none h e = cc
apart_link none (some b) h e = cc
apart_link (some a) none h e = cc
apart_link (some a) (some b) h e =
    cc (sym h ∙ subst (λ x. same_link (some a) x ≡ true) e (==-self a))

later-Collision :
    (hash : Hash) (r s : OperationLogRecord) (rs ss : Log)
    → Collision hash rs ss
    → Collision hash (r ∷ rs) (s ∷ ss)
later-Collision hash r s rs ss found = record {
  one = found.one;
  two = found.two;
  in_first = inr found.in_first;
  in_second = inr found.in_second;
  same_hash = found.same_hash;
  different = found.different;
}

-- Two chains with one last hash.
last_entry_vouches :
    (hash : Hash) (rs ss : Log)
    → IsChain hash rs
    → IsChain hash ss
    → expected_link (first rs) ≡ expected_link (first ss)
    → (payloads rs ≡ payloads ss) ⊎ Collision hash rs ss
last_entry_vouches hash [] [] c d e = inl refl
last_entry_vouches hash [] (s ∷ ss) c d e = cc
last_entry_vouches hash (r ∷ rs) [] c d e = cc
last_entry_vouches hash (r ∷ rs) (s ∷ ss) (step, link, own, c) (step', link', own', d) e =
    let same : hash r.operation_id r.step_number r.payload r.previous_entry_hash
        ≡ hash s.operation_id s.step_number s.payload s.previous_entry_hash =
      sym own ∙ some-injective _ _ e ∙ own' in
    elim (Bool-cases (r.payload == s.payload)) [
      | inr b ↦ inr (record {
        one = r;
        two = s;
        in_first = inl refl;
        in_second = inl refl;
        same_hash = same;
        different = inl (apart r.payload s.payload b);
      })
      | inl b ↦ elim (Bool-cases (same_link r.previous_entry_hash s.previous_entry_hash)) [
        | inr k ↦ inr (record {
          one = r;
          two = s;
          in_first = inl refl;
          in_second = inl refl;
          same_hash = same;
          different = inr (apart_link r.previous_entry_hash s.previous_entry_hash k);
        })
        | inl k ↦ elim (last_entry_vouches hash rs ss c d (sym link ∙ same_link-eq _ _ k ∙ link')) [
          | inr found ↦ inr (later-Collision hash r s rs ss found)
          | inl rest ↦ inl (λ i. ==→eq r.payload s.payload b i ∷ rest i)
        ]
      ]
    ]

Appended-IsChain :
    (hash : Hash) (operation : Text) (log : Log)
    → Appended hash log
    → IsChain hash (entries operation log)
Appended-IsChain hash operation _ empty = tt
Appended-IsChain hash operation _ (append exists r log after a h) =
    append-IsChain hash exists r log after operation (Appended-IsChain hash operation log a) h

-- The last hash of an operation vouches for its whole log. Of two logs to which only
-- `append_operation_log` added, where the latest entries of an operation have one hash, the payloads
-- of the operation are the same in the same order, unless an entry of the one and an entry of the
-- other differ in their payload or their link and yet their operation, step, payload and link are
-- hashed to one value.
pub last_hash_vouches :
    (hash : Hash) (operation : Text) (log log' : Log) (r r' : OperationLogRecord)
    → Appended hash log
    → Appended hash log'
    → latest operation log ≡ some r
    → latest operation log' ≡ some r'
    → r.entry_hash ≡ r'.entry_hash
    → (payloads (entries operation log) ≡ payloads (entries operation log'))
      ⊎ Collision hash (entries operation log) (entries operation log')
last_hash_vouches hash operation log log' r r' a a' e e' same =
    let c = Appended-IsChain hash operation log a in
    let c' = Appended-IsChain hash operation log' a' in
    last_entry_vouches hash (entries operation log) (entries operation log') c c' (
      ap expected_link (sym (latest-entries hash operation log c) ∙ e)
      ∙ ap some same
      ∙ ap expected_link (sym e' ∙ latest-entries hash operation log' c'))
