-- ===== src/Persistence/Leases/Examples.antt =====
-- Two workers and one operation (persistence/audit_repository.py).
use trustworthy_personal_kno.Prelude.{
  ℕ, ◌≡◌, refl, false, none, some, [], ◌∷◌, codes, ok, raised, arith, strip, lstrip, rstrip, ◌==◌,
  nat_eq, if◌then◌else◌,
}
use trustworthy_personal_kno.Domain.Enums.Execution.{IdempotencyStatus}
use trustworthy_personal_kno.Domain.Errors.{
  concurrent_modification, idempotency_conflict, operation_in_progress,
}
use trustworthy_personal_kno.Persistence.Leases.{
  IdempotencyRecord, Acquisition, Finish, get_record, find_key, put_record, taken_over,
  finished_record, resume_as, insert_or_resume, acquire, finish_idempotency,
}
use trustworthy_personal_kno.Persistence.Leases.Acquiring.{IsStripped}
use trustworthy_personal_kno.Persistence.Leases.Exclusion.{
  acquire_excludes, takeover_fences, success_replayed,
}

abbrev first : Acquisition
first = record {
  scope = codes "publish";
  idempotency_key = codes "note-1";
  request_hash = 7;
  lease_owner = codes "worker-1";
  lease_duration = 10;
  now = 100;
  expires_at = none;
}

-- The other worker, at the given moment.
abbrev second : ℕ → Acquisition
second now = record first { lease_owner = codes "worker-2"; now = now }

abbrev leased : IdempotencyRecord
leased = record {
  id = 1;
  scope = codes "publish";
  idempotency_key = codes "note-1";
  request_hash = 7;
  status = IdempotencyStatus.in_progress;
  outcome = none;
  lease_owner = some (codes "worker-1");
  lease_expires_at = some 110;
  attempt = 1;
  error_category = none;
  revision = 1;
  expires_at = none;
}

abbrev success : Finish
success = record {
  target = IdempotencyStatus.succeeded;
  reconcile_unknown = false;
  outcome = some (3, 4);
  error_category = none;
}

stripped : IsStripped first
unfolding strip lstrip rstrip
stripped = (refl, refl)

granted : acquire [] 1 first ≡ ok (leased ∷ [], leased)
unfolding acquire insert_or_resume find_key get_record strip lstrip rstrip
granted = refl

taken :
    acquire (leased ∷ []) 2 (second 120)
    ≡ ok (taken_over (second 120) leased ∷ [], taken_over (second 120) leased)
unfolding acquire insert_or_resume find_key get_record resume_as put_record strip lstrip rstrip
taken = refl

reported :
    finish_idempotency (leased ∷ []) 1 1 success
    ≡ ok (finished_record success 1 leased ∷ [], finished_record success 1 leased)
unfolding finish_idempotency get_record put_record
reported = refl

acquire_excludes_example :
    acquire (leased ∷ []) 2 (second 105)
    ≡ raised (
        if first.request_hash == first.request_hash
        then operation_in_progress
        else idempotency_conflict)
acquire_excludes_example =
    acquire_excludes [] (leased ∷ []) 1 2 first (second 105) leased tt stripped granted refl
      (refl, refl) (omega arith) (omega arith)

takeover_fences_example :
    finish_idempotency (taken_over (second 120) leased ∷ []) 1 1 success
    ≡ raised concurrent_modification
takeover_fences_example =
    takeover_fences [] (leased ∷ []) (taken_over (second 120) leased ∷ []) 1 2 first (second 120)
      leased (taken_over (second 120) leased) success tt stripped granted refl (refl, refl) taken

success_replayed_example :
    acquire (finished_record success 1 leased ∷ []) 2 (second 130)
    ≡ ok (finished_record success 1 leased ∷ [], finished_record success 1 leased)
success_replayed_example =
    success_replayed [] (leased ∷ []) (finished_record success 1 leased ∷ []) 1 2 first (second 130)
      leased (finished_record success 1 leased) success tt stripped granted refl refl reported
      (refl, refl) (omega arith) refl
