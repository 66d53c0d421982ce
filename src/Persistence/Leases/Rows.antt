-- ===== src/Persistence/Leases/Rows.antt =====
-- The rows of the idempotency table (persistence/audit_repository.py): ids stay unique, and a row
-- that is written is the row that is found.
use trustworthy_personal_kno.Prelude.{
  ℕ, ◌≡◌, ◌≢◌, refl, sym, ap, ◌∙◌, subst, true, false, none, some, [], ◌∷◌, All, Bool-cases, inl,
  inr, ◌==◌, nat_eq, text_eq, ==→eq, ==-self, Text, some-injective,
}
use trustworthy_personal_kno.Persistence.Leases.{
  IdempotencyRecord, Records, get_record, has_key, find_key, put_record,
}

-- The primary key: no two rows have one id.
abbrev pub Unique : Records → Type 0
Unique [] = Unit
Unique (r ∷ rs) = All (λ s. s.id ≢ r.id) rs × Unique rs

nat_beq_ne : (a b : ℕ) → a ≢ b → (a == b) ≡ false
nat_beq_ne a b n = elim (Bool-cases (a == b)) [ inl h ↦ absurd (n (==→eq a b h)) | inr h ↦ h ]

ne_of_beq : (a b : ℕ) → (a == b) ≡ false → a ≢ b
ne_of_beq a b h e = cc (sym h ∙ (subst (λ x. (a == x) ≡ true) e (==-self a)))

find_key_id :
    (rs : Records) (scope key : Text) (id : ℕ) (found : IdempotencyRecord)
    → All (λ s. s.id ≢ id) rs
    → find_key rs scope key ≡ some found
    → found.id ≢ id
unfolding find_key
find_key_id [] scope key id found a h = cc
find_key_id (r ∷ rs) scope key id found a h = elim (Bool-cases (has_key scope key r)) [
  | inl b ↦ subst (λ x. x.id ≢ id) (some-injective _ _ (rw (b, find_key) at h)) a.0
  | inr b ↦ find_key_id rs scope key id found a.1 (rw (b, find_key) at h)
]

-- The row that replaces the one found by a key is found by the key, and by its id.
pub put_record_found :
    (rs : Records) (scope key : Text) (found row : IdempotencyRecord)
    → Unique rs
    → find_key rs scope key ≡ some found
    → row.id ≡ found.id
    → has_key scope key row ≡ true
    → (find_key (put_record rs row) scope key ≡ some row)
      × (get_record (put_record rs row) row.id ≡ some row)
unfolding find_key put_record get_record
put_record_found [] scope key found row u h e k = cc
put_record_found (r ∷ rs) scope key found row u h e k = elim (Bool-cases (has_key scope key r)) [
  | inl b ↦
      let same : r.id ≡ row.id =
        ap (λ (x : IdempotencyRecord). x.id) (some-injective _ _ (rw (b, find_key) at h)) ∙ sym e in
      let hit : (r.id == row.id) ≡ true = subst (λ x. (r.id == x) ≡ true) same (==-self r.id) in
      (rw hit (rw k refl), rw hit (rw ==-self refl))
  | inr b ↦
      let later = rw (b, find_key) at h in
      let miss : (r.id == row.id) ≡ false =
        nat_beq_ne r.id row.id
          (λ same. find_key_id rs scope key r.id found u.0 later (sym (same ∙ e))) in
      let (f, g) = put_record_found rs scope key found row u.1 later e k in
      (rw miss (rw b f), rw miss (rw miss g))
]

put_record-All :
    (id : ℕ) (rs : Records) (row : IdempotencyRecord)
    → All (λ s. s.id ≢ id) rs
    → All (λ s. s.id ≢ id) (put_record rs row)
unfolding put_record
put_record-All id [] row a = tt
put_record-All id (r ∷ rs) row a = elim (Bool-cases (r.id == row.id)) [
  | inl b ↦ rw b (subst (λ x. x ≢ id) (==→eq _ _ b) a.0, a.1)
  | inr b ↦ rw b (a.0, put_record-All id rs row a.1)
]

pub put_record-Unique :
    (rs : Records) (row : IdempotencyRecord) → Unique rs → Unique (put_record rs row)
unfolding put_record
put_record-Unique [] row u = tt
put_record-Unique (r ∷ rs) row u = elim (Bool-cases (r.id == row.id)) [
  | inl b ↦ rw b (subst (λ x. All (λ s. s.id ≢ x) rs) (==→eq _ _ b) u.0, u.1)
  | inr b ↦ rw b (put_record-All r.id rs row u.0, put_record-Unique rs row u.1)
]

pub get_record-All : (rs : Records) (id : ℕ) → get_record rs id ≡ none → All (λ s. s.id ≢ id) rs
unfolding get_record
get_record-All [] id h = tt
get_record-All (r ∷ rs) id h = elim (Bool-cases (r.id == id)) [
  | inl b ↦ cc (rw (b, get_record) at h)
  | inr b ↦ (ne_of_beq r.id id b, get_record-All rs id (rw (b, get_record) at h))
]
