-- ===== src/Persistence/Leases.antt =====
-- persistence/audit_repository.py: the idempotency records, that is, who may execute an operation.
-- A time is a number. A lease duration that is not positive is 0. An operation that raises leaves
-- the table as it was; within its transaction the row that was read is the row that is updated.
pub mod Rows
pub mod Acquiring
pub mod Exclusion
mod Examples
use trustworthy_personal_kno.Prelude.{
  ℕ, suc, ◌+◌, ◌≡◌, Bool, true, false, not, ◌&&◌, ◌||◌, Option, none, some, List, [], ◌∷◌, ltb, leb,
  ◌==◌, nat_eq, text_eq, if◌then◌else◌, Text, strip, Result, ok, raised, ◌>>=◌, ◌>>◌, require,
}
use trustworthy_personal_kno.Domain.Enums.Execution.{IdempotencyStatus, idempotency_status_eq}
use trustworthy_personal_kno.Domain.Errors.{
  Error, invariant_violation, record_not_found, duplicate_record, concurrent_modification,
  idempotency_conflict, operation_in_progress, value_error,
}
use trustworthy_personal_kno.Domain.Machine.{require_transition}
use trustworthy_personal_kno.Domain.Transitions.Execution.{idempotency_status_machine}

-- domain/audit.py; a result is the pair of its type and its id, which are given together.
pub record IdempotencyRecord : Type 0 where
  pub id : ℕ
  pub scope : Text
  pub idempotency_key : Text
  pub request_hash : ℕ
  pub status : IdempotencyStatus
  pub outcome : Option (ℕ × ℕ)
  pub lease_owner : Option Text
  pub lease_expires_at : Option ℕ
  pub attempt : ℕ
  pub error_category : Option Text
  pub revision : ℕ
  pub expires_at : Option ℕ

abbrev pub Records : Type 0
Records = List IdempotencyRecord

-- `session.get(IdempotencyRecordTable, id)`.
pub get_record : Records → ℕ → Option IdempotencyRecord
get_record [] id = none
get_record (r ∷ rs) id = if r.id == id then some r else get_record rs id

abbrev pub has_key : Text → Text → IdempotencyRecord → Bool
has_key scope key r = r.scope == scope && r.idempotency_key == key

-- `SELECT ... WHERE scope = ... AND idempotency_key = ...`.
pub find_key : Records → Text → Text → Option IdempotencyRecord
find_key [] scope key = none
find_key (r ∷ rs) scope key = if has_key scope key r then some r else find_key rs scope key

pub put_record : Records → IdempotencyRecord → Records
put_record [] row = []
put_record (r ∷ rs) row = if r.id == row.id then row ∷ rs else r ∷ put_record rs row

abbrev pub is_given : Option IdempotencyRecord → Bool
is_given none = false
is_given (some r) = true

abbrev pub is_text : Text → Bool
is_text [] = false
is_text (c ∷ s) = true

-- What a caller asks for, and the moment.
pub record Acquisition : Type 0 where
  pub scope : Text
  pub idempotency_key : Text
  pub request_hash : ℕ
  pub lease_owner : Text
  pub lease_duration : ℕ
  pub now : ℕ
  pub expires_at : Option ℕ

abbrev pub new_record : Acquisition → ℕ → IdempotencyRecord
new_record a fresh = record {
  id = fresh;
  scope = strip a.scope;
  idempotency_key = strip a.idempotency_key;
  request_hash = a.request_hash;
  status = IdempotencyStatus.in_progress;
  outcome = none;
  lease_owner = some a.lease_owner;
  lease_expires_at = some (a.now + a.lease_duration);
  attempt = 1;
  error_category = none;
  revision = 1;
  expires_at = a.expires_at;
}

-- `lease_expires_at is not None and lease_expires_at > acquired_at`.
abbrev pub is_leased : Option ℕ → ℕ → Bool
is_leased none now = false
is_leased (some t) now = ltb now t

abbrev pub taken_over : Acquisition → IdempotencyRecord → IdempotencyRecord
taken_over a r = record r {
  lease_owner = some a.lease_owner;
  lease_expires_at = some (a.now + a.lease_duration);
  attempt = r.attempt + 1;
  revision = r.revision + 1;
}

-- The rest of `acquire_idempotency_key`, by the status of the record with the key.
pub resume_as :
    IdempotencyStatus
    → Acquisition
    → Records
    → IdempotencyRecord
    → Result Error (Records × IdempotencyRecord)
resume_as IdempotencyStatus.succeeded a records r = ok (records, r)
resume_as IdempotencyStatus.unknown a records r = raised operation_in_progress
resume_as IdempotencyStatus.failed a records r = raised operation_in_progress
resume_as IdempotencyStatus.in_progress a records r =
    if is_leased r.lease_expires_at a.now
    then raised operation_in_progress
    else ok (put_record records (taken_over a r), taken_over a r)

-- The insertion of a new record, or the record that stands in its way. The record is stored with
-- its scope and key stripped; the row in the way is looked up by the scope and key that were given.
pub insert_or_resume : Records → ℕ → Acquisition → Result Error (Records × IdempotencyRecord)
insert_or_resume records fresh a =
    if is_given (find_key records (strip a.scope) (strip a.idempotency_key))
      || is_given (get_record records fresh)
    then elim (find_key records a.scope a.idempotency_key) [
      | none ↦ raised duplicate_record
      | some r ↦ do
        require (r.request_hash == a.request_hash) idempotency_conflict
        resume_as r.status a records r
    ]
    else ok (new_record a fresh ∷ records, new_record a fresh)

-- `acquire_idempotency_key`; `fresh` is the id that `IdempotencyRecordId.generate()` returned.
pub acquire : Records → ℕ → Acquisition → Result Error (Records × IdempotencyRecord)
acquire records fresh a = do
  require (leb 1 a.lease_duration) invariant_violation
  require (is_text (strip a.scope) && is_text (strip a.idempotency_key)) value_error
  insert_or_resume records fresh a

abbrev pub or_not_found : Option IdempotencyRecord → Result Error IdempotencyRecord
or_not_found none = raised record_not_found
or_not_found (some r) = ok r

-- What `_finish_idempotency` is asked to write.
pub record Finish : Type 0 where
  pub target : IdempotencyStatus
  pub reconcile_unknown : Bool
  pub outcome : Option (ℕ × ℕ)
  pub error_category : Option Text

abbrev pub finished_record : Finish → ℕ → IdempotencyRecord → IdempotencyRecord
finished_record f revision r = record r {
  status = f.target;
  outcome = f.outcome;
  lease_owner = none;
  lease_expires_at = none;
  error_category = f.error_category;
  revision = revision + 1;
}

-- `_finish_idempotency`
pub finish_idempotency : Records → ℕ → ℕ → Finish → Result Error (Records × IdempotencyRecord)
finish_idempotency records id revision f = do
  r ← or_not_found (get_record records id)
  require (r.revision == revision) concurrent_modification
  require (not (r.status == IdempotencyStatus.unknown && not f.reconcile_unknown))
      invariant_violation
  target ← require_transition r.status f.target
  let updated = finished_record f revision r
  ok (put_record records updated, updated)

-- `complete_idempotent_operation`; `exists` is what `_entity_exists` returned for the result.
pub complete_operation :
    Records → ℕ → Bool → ℕ × ℕ → ℕ → Bool → Result Error (Records × IdempotencyRecord)
complete_operation records id exists outcome revision reconcile = do
  require exists invariant_violation
  finish_idempotency records id revision (record {
    target = IdempotencyStatus.succeeded;
    reconcile_unknown = reconcile;
    outcome = some outcome;
    error_category = none;
  })

-- `fail_idempotent_operation`
abbrev pub fail_operation :
    Records → ℕ → ℕ → Text → Bool → Result Error (Records × IdempotencyRecord)
fail_operation records id revision category reconcile =
    finish_idempotency records id revision (record {
      target = IdempotencyStatus.failed;
      reconcile_unknown = reconcile;
      outcome = none;
      error_category = some category;
    })

-- `mark_idempotent_operation_unknown`
abbrev pub mark_unknown : Records → ℕ → ℕ → Text → Result Error (Records × IdempotencyRecord)
mark_unknown records id revision category = finish_idempotency records id revision (record {
  target = IdempotencyStatus.unknown;
  reconcile_unknown = false;
  outcome = none;
  error_category = some category;
})
