-- ===== src/Persistence/Leases/Acquiring.antt =====
-- The ways in which `acquire_idempotency_key` (persistence/audit_repository.py) returns.
use trustworthy_personal_kno.Prelude.{
  ℕ, ◌+◌, ◌≡◌, refl, sym, ap, subst, Bool, true, false, ◌&&◌, ◌||◌, Option, none, some, [], ◌∷◌,
  Bool-cases, Option-cases, inl, inr, ◌⊎◌, ◌==◌, nat_eq, text_eq, ==→eq, ==-self, Text, strip, ok,
  require_inv, ok_injective, some-injective, arith, leb,
}
use trustworthy_personal_kno.Domain.Enums.Execution.{IdempotencyStatus, idempotency_status_eq}
use trustworthy_personal_kno.Domain.Errors.{invariant_violation, idempotency_conflict, value_error}
use trustworthy_personal_kno.Persistence.Leases.{
  IdempotencyRecord, Records, Acquisition, get_record, find_key, put_record, has_key, is_given,
  is_leased, is_text, new_record, taken_over, resume_as, insert_or_resume, acquire,
}
use trustworthy_personal_kno.Persistence.Leases.Rows.{
  Unique, put_record_found, put_record-Unique, get_record-All,
}

-- The scope and the key have no white space around them.
abbrev pub IsStripped : Acquisition → Type 0
IsStripped a = (strip a.scope ≡ a.scope) × (strip a.idempotency_key ≡ a.idempotency_key)

-- What an acquisition leaves behind for the one who may execute the operation.
pub record Granted (a : Acquisition) (after : Records) (r : IdempotencyRecord) : Type 0 where
  pub by_key : find_key after a.scope a.idempotency_key ≡ some r
  pub by_id : get_record after r.id ≡ some r
  pub leased : r.lease_expires_at ≡ some (a.now + a.lease_duration)
  pub same_request : r.request_hash ≡ a.request_hash

in_the_way : {x y : Bool} → (x || y) ≡ false → (x ≡ false) × (y ≡ false)
in_the_way {x = x} {y = y} h = ground arith

pub find_key-has_key :
    (rs : Records) (scope key : Text) (r : IdempotencyRecord)
    → find_key rs scope key ≡ some r
    → has_key scope key r ≡ true
unfolding find_key
find_key-has_key [] scope key r h = cc
find_key-has_key (x ∷ rs) scope key r h = elim (Bool-cases (has_key scope key x)) [
  | inl b ↦ subst (λ t. has_key scope key t ≡ true) (some-injective _ _ (rw (b, find_key) at h)) b
  | inr b ↦ find_key-has_key rs scope key r (rw (b, find_key) at h)
]

resume_as_inv :
    (a : Acquisition) (records after : Records) (row r : IdempotencyRecord) (s : IdempotencyStatus)
    → resume_as s a records row ≡ ok (after, r)
    → ((s ≡ IdempotencyStatus.succeeded) × (after ≡ records) × (r ≡ row))
      ⊎ ((s ≡ IdempotencyStatus.in_progress)
          × (after ≡ put_record records (taken_over a row))
          × (r ≡ taken_over a row))
unfolding resume_as
resume_as_inv a records after row r IdempotencyStatus.succeeded h =
    let e = ok_injective h in
    inl (
      refl,
      sym (ap (λ (t : Records × IdempotencyRecord). t.0) e),
      sym (ap (λ (t : Records × IdempotencyRecord). t.1) e),
    )
resume_as_inv a records after row r IdempotencyStatus.unknown h = cc
resume_as_inv a records after row r IdempotencyStatus.failed h = cc
resume_as_inv a records after row r IdempotencyStatus.in_progress h =
    elim (Bool-cases (is_leased row.lease_expires_at a.now)) [
      | inl b ↦ cc (rw b at h)
      | inr b ↦
          let e = ok_injective (rw b at h) in
          inr (
            refl,
            sym (ap (λ (t : Records × IdempotencyRecord). t.0) e),
            sym (ap (λ (t : Records × IdempotencyRecord). t.1) e),
          )
    ]

-- An acquisition inserted a record, found one that succeeded, or took one over.
pub insert_or_resume_inv :
    (records after : Records) (fresh : ℕ) (a : Acquisition) (r : IdempotencyRecord)
    → insert_or_resume records fresh a ≡ ok (after, r)
    → ((is_given (find_key records (strip a.scope) (strip a.idempotency_key)) ≡ false)
        × (get_record records fresh ≡ none)
        × (after ≡ new_record a fresh ∷ records)
        × (r ≡ new_record a fresh))
      ⊎ ((row : IdempotencyRecord) × (find_key records a.scope a.idempotency_key ≡ some row)
          × (row.request_hash ≡ a.request_hash)
          × (((row.status ≡ IdempotencyStatus.succeeded) × (after ≡ records) × (r ≡ row))
              ⊎ ((row.status ≡ IdempotencyStatus.in_progress)
                  × (after ≡ put_record records (taken_over a row))
                  × (r ≡ taken_over a row))))
unfolding insert_or_resume
insert_or_resume_inv records after fresh a r h =
    elim (Bool-cases (
      is_given (find_key records (strip a.scope) (strip a.idempotency_key))
      || is_given (get_record records fresh))) [
        | inr b ↦
            let e = ok_injective (rw (b, insert_or_resume) at h) in
            inl (
              (in_the_way b).0,
              not_given (get_record records fresh) (in_the_way b).1,
              sym (ap (λ (t : Records × IdempotencyRecord). t.0) e),
              sym (ap (λ (t : Records × IdempotencyRecord). t.1) e),
            )
        | inl b ↦ elim (Option-cases (find_key records a.scope a.idempotency_key)) [
          | inl k ↦ cc (rw (k, insert_or_resume) at (rw (b, insert_or_resume) at h))
          | inr (row, k) ↦
              let (same, resumed) =
                require_inv (row.request_hash == a.request_hash) idempotency_conflict
                  (resume_as row.status a records row)
                  (rw (k, insert_or_resume) at (rw (b, insert_or_resume) at h)) in
              inr (row, k, ==→eq _ _ same, resume_as_inv a records after row r row.status resumed)
        ]
      ]
  where
    not_given : (o : Option IdempotencyRecord) → is_given o ≡ false → o ≡ none
    not_given none h = refl
    not_given (some x) h = cc

-- An acquisition that returned passed the checks of its arguments.
pub acquire_inv :
    (records after : Records) (fresh : ℕ) (a : Acquisition) (r : IdempotencyRecord)
    → acquire records fresh a ≡ ok (after, r)
    → ((is_text (strip a.scope) && is_text (strip a.idempotency_key)) ≡ true)
      × (insert_or_resume records fresh a ≡ ok (after, r))
unfolding acquire
acquire_inv records after fresh a r h =
    let (positive, h₁) = require_inv (leb 1 a.lease_duration) invariant_violation _ h in
    require_inv (is_text (strip a.scope) && is_text (strip a.idempotency_key)) value_error
      (insert_or_resume records fresh a) h₁

both : (x y : Bool) → x ≡ true → y ≡ true → (x && y) ≡ true
both x y h k = ground arith

inserted-Granted :
    (records : Records) (fresh : ℕ) (a : Acquisition)
    → IsStripped a
    → Granted a (new_record a fresh ∷ records) (new_record a fresh)
unfolding find_key get_record
inserted-Granted records fresh a (s, k) = record {
  by_key = rw own refl;
  by_id = rw ==-self refl;
  leased = refl;
  same_request = refl;
}
  where
    own : has_key a.scope a.idempotency_key (new_record a fresh) ≡ true
    own = rw (s, k) (both _ _ (==-self a.scope) (==-self a.idempotency_key))

taken_over-Granted :
    (records : Records) (a : Acquisition) (row : IdempotencyRecord)
    → Unique records
    → find_key records a.scope a.idempotency_key ≡ some row
    → row.request_hash ≡ a.request_hash
    → Granted a (put_record records (taken_over a row)) (taken_over a row)
taken_over-Granted records a row u found same =
    let (key, id) =
      put_record_found records a.scope a.idempotency_key row (taken_over a row) u found refl
        (find_key-has_key records a.scope a.idempotency_key row found) in
    record { by_key = key; by_id = id; leased = refl; same_request = same }

-- Who gets a record in progress holds its lease.
pub acquire-Granted :
    (records after : Records) (fresh : ℕ) (a : Acquisition) (r : IdempotencyRecord)
    → Unique records
    → IsStripped a
    → acquire records fresh a ≡ ok (after, r)
    → r.status ≡ IdempotencyStatus.in_progress
    → Granted a after r
acquire-Granted records after fresh a r u s h running_now =
    elim (insert_or_resume_inv records after fresh a r (acquire_inv records after fresh a r h).1) [
      | inl (absent, unused, e, f) ↦
          subst (λ (t : Records × IdempotencyRecord). Granted a t.0 t.1) (ap2 (sym e) (sym f))
            (inserted-Granted records fresh a s)
      | inr (row, found, same, inl (done, e, f)) ↦
          cc (sym running_now, ap (λ (x : IdempotencyRecord). x.status) f, done)
      | inr (row, found, same, inr (running, e, f)) ↦
          subst (λ (t : Records × IdempotencyRecord). Granted a t.0 t.1) (ap2 (sym e) (sym f))
            (taken_over-Granted records a row u found same)
    ]
  where
    ap2 :
        {x x' : Records} {y y' : IdempotencyRecord}
        → x ≡ x'
        → y ≡ y'
        → ◌≡◌ {A = Records × IdempotencyRecord} (x, y) (x', y')
    ap2 e f = λ i. (e i, f i)

-- Ids stay unique.
pub acquire-Unique :
    (records after : Records) (fresh : ℕ) (a : Acquisition) (r : IdempotencyRecord)
    → Unique records
    → acquire records fresh a ≡ ok (after, r)
    → Unique after
acquire-Unique records after fresh a r u h =
    elim (insert_or_resume_inv records after fresh a r (acquire_inv records after fresh a r h).1) [
      | inl (absent, unused, e, f) ↦ subst Unique (sym e) (get_record-All records fresh unused, u)
      | inr (row, found, same, inl (done, e, f)) ↦ subst Unique (sym e) u
      | inr (row, found, same, inr (running, e, f)) ↦
          subst Unique (sym e) (put_record-Unique records (taken_over a row) u)
    ]
