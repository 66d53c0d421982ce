-- ===== src/Persistence/OperationLogs/Chains.antt =====
-- The chain of an operation's log entries (persistence/audit_repository.py, domain/audit_hash.py).
use trustworthy_personal_kno.Prelude.{
  ℕ, suc, ◌+◌, ◌≡◌, refl, ap, ◌∙◌, subst, Bool, true, false, ◌&&◌, Option, none, some, [], ◌∷◌, ltb,
  length, ◌==◌, nat_eq, text_eq, ==→eq, Bool-cases, and_split, inl, inr, Text, ok, require_inv,
  ok_injective, arith,
}
use trustworthy_personal_kno.Persistence.OperationLogs.{
  Hash, OperationLogRecord, Log, newer, latest, expected_step, expected_link, same_link,
  entry_hash_of, append_operation_log, entries,
}

abbrev pub first : Log → Option OperationLogRecord
first [] = none
first (r ∷ rs) = some r

-- The steps count down to 0, each entry is linked to the one before it, and each hash is that of its
-- entry.
abbrev pub IsChain : Hash → Log → Type 0
IsChain hash [] = Unit
IsChain hash (r ∷ rs) =
    (r.step_number ≡ length rs)
    × (r.previous_entry_hash ≡ expected_link (first rs))
    × (r.entry_hash ≡ entry_hash_of hash r)
    × IsChain hash rs

newest_first :
    (hash : Hash) (r : OperationLogRecord) (rs : Log)
    → IsChain hash (r ∷ rs)
    → newer r (first rs) ≡ r
newest_first hash r [] c = refl
newest_first hash r (s ∷ ss) (step, link, own, chain) = rw later refl
  where
    higher : (a b n : ℕ) → a ≡ suc n → b ≡ n → ltb a b ≡ false
    higher a b n e f = ground arith

    later : ltb r.step_number s.step_number ≡ false
    later = higher r.step_number s.step_number (length ss) step chain.0

pub latest-entries :
    (hash : Hash) (operation : Text) (log : Log)
    → IsChain hash (entries operation log)
    → latest operation log ≡ first (entries operation log)
unfolding latest
latest-entries hash operation [] c = refl
latest-entries hash operation (r ∷ rs) c = elim (Bool-cases (r.operation_id == operation)) [
  | inl b ↦
      let chain : IsChain hash (r ∷ entries operation rs) = rw b at c in
      let (step, link, own, rest) = chain in
      rw b (
        ap (λ o. some (newer r o)) (latest-entries hash operation rs rest)
        ∙ ap some (newest_first hash r (entries operation rs) chain))
  | inr b ↦ rw b (latest-entries hash operation rs (rw b at c))
]

pub same_link-eq : (a b : Option ℕ) → same_link a b ≡ true → a ≡ b
same_link-eq none none h = refl
same_link-eq none (some b) h = cc
same_link-eq (some a) none h = cc
same_link-eq (some a) (some b) h = ap some (==→eq a b h)

step-length : (hash : Hash) (rs : Log) → IsChain hash rs → expected_step (first rs) ≡ length rs
step-length hash [] c = refl
step-length hash (r ∷ rs) c = next r.step_number (length rs) c.0
  where
    next : (a n : ℕ) → a ≡ n → a + 1 ≡ suc n
    next a n e = omega arith

-- Appending to the log keeps the chain of each operation: its steps count from 0 without a gap, each
-- entry is linked to the one before it, and each hash is that of its entry.
pub append-IsChain :
    (hash : Hash) (exists : Bool) (r : OperationLogRecord) (log after : Log) (operation : Text)
    → IsChain hash (entries operation log)
    → append_operation_log hash exists r log ≡ ok after
    → IsChain hash (entries operation after)
unfolding append_operation_log
append-IsChain hash exists r log after operation c h =
    let (there, h₁) = require_inv exists _ _ h in
    let (placed, h₂) = require_inv _ _ _ h₁ in
    let (hashed, h₃) = require_inv (r.entry_hash == entry_hash_of hash r) _ _ h₂ in
    let (unique, h₄) = require_inv _ _ _ h₃ in
    let longer : IsChain hash (entries operation (r ∷ log)) =
      elim (Bool-cases (r.operation_id == operation)) [
        | inr b ↦ rw b c
        | inl b ↦ rw b (grown (==→eq _ _ b) placed (==→eq _ _ hashed))
      ] in
    subst (λ x. IsChain hash (entries operation x)) (ok_injective h₄) longer
  where
    grown :
        r.operation_id ≡ operation
        → (r.step_number == expected_step (latest r.operation_id log)
            && same_link r.previous_entry_hash (expected_link (latest r.operation_id log)))
          ≡ true
        → r.entry_hash ≡ entry_hash_of hash r
        → IsChain hash (r ∷ entries operation log)
    grown same placed hashed =
        let last : latest r.operation_id log ≡ first (entries operation log) =
          ap (λ o. latest o log) same ∙ latest-entries hash operation log c in
        let (step, link) =
          and_split (r.step_number == expected_step (latest r.operation_id log)) _ placed in
        (
          ==→eq _ _ step ∙ ap expected_step last ∙ step-length hash (entries operation log) c,
          same_link-eq _ _ link ∙ ap expected_link last,
          hashed,
          c,
        )
