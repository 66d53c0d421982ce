-- ===== src/Persistence/OperationLogs.antt =====
-- persistence/audit_repository.py: the log of the steps of operations, chained by hashes. The hash
-- function (domain/audit_hash.py) is an argument; its input is the operation, the step, the link,
-- and one text for the canonical JSON of the other fields.
pub mod Chains
pub mod Vouching
mod Examples
use trustworthy_personal_kno.Prelude.{
  ℕ, suc, ◌+◌, ◌≡◌, Bool, true, false, not, ◌&&◌, ◌||◌, Option, none, some, List, [], ◌∷◌, filter,
  any, ltb, length, ◌==◌, nat_eq, text_eq, if◌then◌else◌, Text, Result, ok, raised, ◌>>=◌, ◌>>◌,
  require,
}
use trustworthy_personal_kno.Domain.Errors.{Error, invariant_violation, duplicate_record}

abbrev pub Hash : Type 0
Hash = Text → ℕ → Text → Option ℕ → ℕ

pub record OperationLogRecord : Type 0 where
  pub id : ℕ
  pub operation_id : Text
  pub step_number : ℕ
  pub payload : Text
  pub previous_entry_hash : Option ℕ
  pub entry_hash : ℕ

-- The table, the row that was added last at its front.
abbrev pub Log : Type 0
Log = List OperationLogRecord

abbrev pub newer : OperationLogRecord → Option OperationLogRecord → OperationLogRecord
newer r none = r
newer r (some s) = if ltb r.step_number s.step_number then s else r

-- `get_latest_operation_log`: the row of the operation with the highest step.
pub latest : Text → Log → Option OperationLogRecord
latest operation [] = none
latest operation (r ∷ rs) =
    let rest = latest operation rs in
    if r.operation_id == operation then some (newer r rest) else rest

abbrev pub expected_step : Option OperationLogRecord → ℕ
expected_step none = 0
expected_step (some r) = r.step_number + 1

abbrev pub expected_link : Option OperationLogRecord → Option ℕ
expected_link none = none
expected_link (some r) = some r.entry_hash

-- `a == b`, where one may be `None`.
abbrev pub same_link : Option ℕ → Option ℕ → Bool
same_link none none = true
same_link none (some b) = false
same_link (some a) none = false
same_link (some a) (some b) = a == b

abbrev pub entry_hash_of : Hash → OperationLogRecord → ℕ
entry_hash_of hash r = hash r.operation_id r.step_number r.payload r.previous_entry_hash

-- `append_operation_log`; `exists` is what `_entity_exists` returned for the target.
pub append_operation_log : Hash → Bool → OperationLogRecord → Log → Result Error Log
append_operation_log hash exists r log = do
  let previous = latest r.operation_id log
  require exists invariant_violation
  require
      (r.step_number == expected_step previous
        && same_link r.previous_entry_hash (expected_link previous))
      invariant_violation
  require (r.entry_hash == entry_hash_of hash r) invariant_violation
  require
      (not (
        any
          (λ (x : OperationLogRecord).
            x.id == r.id
            || x.entry_hash == r.entry_hash
            || x.operation_id == r.operation_id && x.step_number == r.step_number)
          log))
      duplicate_record
  ok (r ∷ log)

-- The rows of one operation, the last one first.
abbrev pub entries : Text → Log → Log
entries operation = filter (λ (r : OperationLogRecord). r.operation_id == operation)
