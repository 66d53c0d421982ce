-- ===== src/Persistence/Leases/Exclusion.antt =====
-- Leases of idempotent operations (persistence/audit_repository.py): who holds one, and for how long.
use trustworthy_personal_kno.Prelude.{
  ℕ, ◌+◌, ◌≡◌, ◌<◌, ◌≤◌, refl, sym, ap, ◌∙◌, subst, true, false, not, ◌&&◌, some, Bool-cases, inl,
  inr, ◌==◌, nat_eq, text_eq, ==-self, ok, raised, require, require_inv, bind_inv, ok_injective,
  some-injective, if◌then◌else◌, arith, lt→ltb, le→leb, ◌>>◌,
}
use trustworthy_personal_kno.Domain.Enums.Execution.{IdempotencyStatus, idempotency_status_eq}
use trustworthy_personal_kno.Domain.Errors.{
  concurrent_modification, idempotency_conflict, operation_in_progress,
}
use trustworthy_personal_kno.Domain.Machine.{require_transition}
use trustworthy_personal_kno.Domain.Transitions.Execution.{idempotency_status_machine}
use trustworthy_personal_kno.Persistence.Leases.{
  IdempotencyRecord, Records, Acquisition, Finish, get_record, find_key, put_record, is_leased,
  is_text, taken_over, resume_as, insert_or_resume, acquire, or_not_found, finished_record,
  finish_idempotency,
}
use trustworthy_personal_kno.Persistence.Leases.Rows.{Unique, put_record_found}
use trustworthy_personal_kno.Persistence.Leases.Acquiring.{
  IsStripped, Granted, find_key-has_key, acquire_inv, insert_or_resume_inv, acquire-Granted,
  acquire-Unique,
}

-- Two acquisitions of one operation.
abbrev pub SameKey : Acquisition → Acquisition → Type 0
SameKey a b = (b.scope ≡ a.scope) × (b.idempotency_key ≡ a.idempotency_key)

blocked : (t now : ℕ) → now < t → is_leased (some t) now ≡ true
blocked t now h = lt→ltb now t h

resume_blocked :
    (b : Acquisition) (after : Records) (r : IdempotencyRecord) (end : ℕ)
    → r.status ≡ IdempotencyStatus.in_progress
    → r.lease_expires_at ≡ some end
    → b.now < end
    → resume_as r.status b after r ≡ raised operation_in_progress
unfolding resume_as
resume_blocked b after r end running_now leased early =
    rw running_now (rw leased (rw (blocked end b.now early) refl))

judge_blocked :
    (b : Acquisition) (after : Records) (r : IdempotencyRecord) (end hash : ℕ)
    → r.request_hash ≡ hash
    → r.status ≡ IdempotencyStatus.in_progress
    → r.lease_expires_at ≡ some end
    → b.now < end
    → (require (r.request_hash == b.request_hash) idempotency_conflict
        >> resume_as r.status b after r)
      ≡ raised (if hash == b.request_hash then operation_in_progress else idempotency_conflict)
judge_blocked b after r end hash same_request running_now leased early =
    subst (λ x. Judged x) same_request
      (elim (Bool-cases (r.request_hash == b.request_hash)) [
        | inl same ↦ rw same (resume_blocked b after r end running_now leased early)
        | inr different ↦ rw different refl
      ])
  where
    Judged : ℕ → Type 0
    Judged x =
        (require (r.request_hash == b.request_hash) idempotency_conflict
          >> resume_as r.status b after r)
        ≡ raised (if x == b.request_hash then operation_in_progress else idempotency_conflict)

-- While a lease runs, nobody else gets it: over unique ids and a stripped key, another call with the
-- same key and a lease of some duration raises, for the same request because the operation is in
-- progress, for another one because the key is in conflict.
pub acquire_excludes :
    (records after : Records) (fresh other : ℕ) (a b : Acquisition) (r : IdempotencyRecord)
    → Unique records
    → IsStripped a
    → acquire records fresh a ≡ ok (after, r)
    → r.status ≡ IdempotencyStatus.in_progress
    → SameKey a b
    → 1 ≤ b.lease_duration
    → b.now < a.now + a.lease_duration
    → acquire after other b
      ≡ raised
          (if a.request_hash == b.request_hash then operation_in_progress else idempotency_conflict)
unfolding acquire insert_or_resume
acquire_excludes records after fresh other a b r u (s, k) h running_now (scope, key) long early =
    let g : Granted a after r = acquire-Granted records after fresh a r u (s, k) h running_now in
    let (texts, returned) = acquire_inv records after fresh a r h in
    rw (le→leb 1 b.lease_duration long) (
      rw (scope, key, texts)
        (rw (s, k, g.by_key)
          (judge_blocked b after r (a.now + a.lease_duration) a.request_hash g.same_request
            running_now g.leased early)))

next_revision : (n : ℕ) → (n + 1 == n) ≡ false
next_revision n = ground arith

fenced :
    (later : Records) (r : IdempotencyRecord) (f : Finish) (b : Acquisition)
    → get_record later r.id ≡ some (taken_over b r)
    → finish_idempotency later r.id r.revision f ≡ raised concurrent_modification
unfolding finish_idempotency
fenced later r f b taken = rw taken (rw (next_revision r.revision) refl)

-- Over unique ids and a stripped key, a lease that was taken over is lost: the one who held it before
-- cannot end the operation any more, whatever it reports, since the revision that it knows is no
-- longer that of the record.
pub takeover_fences :
    (records after later : Records) (fresh other : ℕ) (a b : Acquisition) (r r' : IdempotencyRecord)
    (f : Finish)
    → Unique records
    → IsStripped a
    → acquire records fresh a ≡ ok (after, r)
    → r.status ≡ IdempotencyStatus.in_progress
    → SameKey a b
    → acquire after other b ≡ ok (later, r')
    → finish_idempotency later r.id r.revision f ≡ raised concurrent_modification
takeover_fences records after later fresh other a b r r' f u (s, k) h running_now (scope, key) h' =
    let g : Granted a after r = acquire-Granted records after fresh a r u (s, k) h running_now in
    let there : find_key after b.scope b.idempotency_key ≡ some r = rw (scope, key) g.by_key in
    elim (insert_or_resume_inv after later other b r' (acquire_inv after later other b r' h').1) [
      | inl (absent, unused, e, e') ↦
          absurd (not_absent (rw (scope, key, s, k, g.by_key) at absent))
      | inr (row, found, asked, inl (succeeded, e, e')) ↦
          let same : row ≡ r = some-injective _ _ (sym found ∙ there) in
          cc (running_now, succeeded, ap (λ (x : IdempotencyRecord). x.status) same)
      | inr (row, found, asked, inr (running, e, e')) ↦
          let same : row ≡ r = some-injective _ _ (sym found ∙ there) in
          let u' : Unique after = acquire-Unique records after fresh a r u h in
          let taken : get_record later r.id ≡ some (taken_over b r) =
            subst (λ x. get_record x r.id ≡ some (taken_over b r))
              (ap (λ x. put_record after (taken_over b x)) (sym same) ∙ sym e)
              (put_record_found after b.scope b.idempotency_key r (taken_over b r) u' there refl
                (find_key-has_key after b.scope b.idempotency_key r there)).1 in
          fenced later r f b taken
    ]
  where
    not_absent : true ≡ false → ⊥
    not_absent e = cc

-- What ends an operation writes the finished record.
finished :
    (after done : Records) (r r' : IdempotencyRecord) (f : Finish)
    → get_record after r.id ≡ some r
    → finish_idempotency after r.id r.revision f ≡ ok (done, r')
    → (put_record after (finished_record f r.revision r) ≡ done)
      × (finished_record f r.revision r ≡ r')
unfolding finish_idempotency
finished after done r r' f found h =
    let (row, e, h₁) = bind_inv (or_not_found (get_record after r.id)) _ h in
    let same : row ≡ r = ok_injective (sym e ∙ ap or_not_found found) in
    let (current, h₂) = require_inv (row.revision == r.revision) _ _ h₁ in
    let (reconciled, h₃) =
      require_inv (not (row.status == IdempotencyStatus.unknown && not f.reconcile_unknown)) _ _
        h₂ in
    let (target, allowed, h₄) = bind_inv (require_transition row.status f.target) _ h₃ in
    let written = ok_injective h₄ in
    (
      ap (λ x. put_record after (finished_record f r.revision x)) (sym same)
          ∙ ap (λ (t : Records × IdempotencyRecord). t.0) written,
      ap (λ x. finished_record f r.revision x) (sym same)
          ∙ ap (λ (t : Records × IdempotencyRecord). t.1) written,
    )

replays :
    (done : Records) (other : ℕ) (b : Acquisition) (r' : IdempotencyRecord)
    → r'.status ≡ IdempotencyStatus.succeeded
    → IsStripped b
    → find_key done b.scope b.idempotency_key ≡ some r'
    → (is_text b.scope && is_text b.idempotency_key) ≡ true
    → r'.request_hash ≡ b.request_hash
    → 1 ≤ b.lease_duration
    → acquire done other b ≡ ok (done, r')
unfolding acquire insert_or_resume resume_as
replays done other b r' succeeded (s, k) stored texts same long =
    rw (le→leb 1 b.lease_duration long)
      (rw (s, k, texts) (rw stored (rw (same_beq _ _ same) (rw succeeded refl))))
  where
    same_beq : (x y : ℕ) → x ≡ y → (x == y) ≡ true
    same_beq x y e = subst (λ z. (x == z) ≡ true) e (==-self x)

-- Over unique ids and a stripped key, once the holder has reported success, each further call with
-- the same key, the same request and a lease of some duration returns the finished record and changes
-- nothing.
pub success_replayed :
    (records after done : Records) (fresh other : ℕ) (a b : Acquisition) (r r' : IdempotencyRecord)
    (f : Finish)
    → Unique records
    → IsStripped a
    → acquire records fresh a ≡ ok (after, r)
    → r.status ≡ IdempotencyStatus.in_progress
    → f.target ≡ IdempotencyStatus.succeeded
    → finish_idempotency after r.id r.revision f ≡ ok (done, r')
    → SameKey a b
    → 1 ≤ b.lease_duration
    → b.request_hash ≡ a.request_hash
    → acquire done other b ≡ ok (done, r')
success_replayed records after done fresh other a b r r' f u (s, k) h running_now target h'
      (scope, key) long request =
    let g : Granted a after r = acquire-Granted records after fresh a r u (s, k) h running_now in
    let (texts, returned) = acquire_inv records after fresh a r h in
    let u' : Unique after = acquire-Unique records after fresh a r u h in
    let (done_is, row_is) = finished after done r r' f g.by_id h' in
    let stored : find_key done a.scope a.idempotency_key ≡ some r' =
      subst (λ x. find_key x a.scope a.idempotency_key ≡ some (finished_record f r.revision r))
        done_is
        (put_record_found after a.scope a.idempotency_key r (finished_record f r.revision r) u'
          g.by_key refl (find_key-has_key after a.scope a.idempotency_key r g.by_key)).0
      ∙ ap some row_is in
    replays done other b r' (sym (ap (λ (x : IdempotencyRecord). x.status) row_is) ∙ target)
      (rw (scope, key) (s, k)) (rw (scope, key) stored) (rw (scope, key) (rw (s, k) at texts))
      (sym (ap (λ (x : IdempotencyRecord). x.request_hash) row_is) ∙ g.same_request ∙ sym request)
      long
