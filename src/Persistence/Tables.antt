-- ===== src/Persistence/Tables.antt =====
-- The access to a table that the repositories share (persistence/publication_repository.py,
-- `_required_row` and `_cas`): a row by its primary key, and an UPDATE that has to select a row.
use trustworthy_personal_kno.Prelude.{
  ℕ, ◌≡◌, ◌≢◌, refl, sym, ap, ◌∙◌, subst, Bool, true, false, ◌||◌, List, [], ◌∷◌, map, any,
  contains, distinct, absent_key, All, All-map, ◌==◌, nat_eq, ==→eq, ==-self, if◌then◌else◌, Result,
  ok, raised, ok_injective, Bool-cases, and_split, inl, inr, arith,
}
use trustworthy_personal_kno.Domain.Errors.{Error, record_not_found, concurrent_modification}

module _ {A : Type 0} (id : A → ℕ) where
  -- `_required_row`
  unfoldable pub required_row : List A → ℕ → Result Error A
  required_row [] n = raised record_not_found
  required_row (x ∷ rows) n = let rest = required_row rows n in if id x == n then ok x else rest

  abbrev pub rewritten : (A → Bool) → (A → A) → List A → List A
  rewritten selected update rows = map (λ x. if selected x then update x else x) rows

  -- `_cas`: where the UPDATE selects no row, the error tells whether the row is there.
  unfoldable pub cas : (A → Bool) → ℕ → (A → A) → List A → Result Error (List A)
  cas selected n update rows =
      if any selected rows
      then ok (rewritten selected update rows)
      else if any (λ x. id x == n) rows
      then raised concurrent_modification
      else raised record_not_found

  pub cas_inv :
      (selected : A → Bool) (n : ℕ) (update : A → A) (rows rows' : List A)
      → cas selected n update rows ≡ ok rows'
      → rows' ≡ rewritten selected update rows
  unfolding cas
  cas_inv selected n update rows rows' h = elim (Bool-cases (any selected rows)) [
    | inl hit ↦ sym (ok_injective (rw hit at h))
    | inr miss ↦ elim (Bool-cases (any (λ x. id x == n) rows)) [
      | inl there ↦ cc (rw (miss, there) at h)
      | inr gone ↦ cc (rw (miss, gone) at h)
    ]
  ]

  pub required_row_id : (rows : List A) (n : ℕ) (r : A) → required_row rows n ≡ ok r → id r ≡ n
  unfolding required_row
  required_row_id [] n r h = cc
  required_row_id (x ∷ rows) n r h = elim (Bool-cases (id x == n)) [
    | inl b ↦ subst (λ y. id y ≡ n) (ok_injective (rw (b, required_row) at h)) (==→eq _ _ b)
    | inr b ↦ required_row_id rows n r (rw (b, required_row) at h)
  ]

  -- The row that an UPDATE selects is found with its new values.
  pub required_row-rewritten :
      (selected : A → Bool) (update : A → A) (rows : List A) (n : ℕ) (r : A)
      → ((x : A) → id (update x) ≡ id x)
      → required_row rows n ≡ ok r
      → selected r ≡ true
      → required_row (rewritten selected update rows) n ≡ ok (update r)
  unfolding required_row
  required_row-rewritten selected update [] n r same h s = cc
  required_row-rewritten selected update (x ∷ rows) n r same h s = elim (Bool-cases (id x == n)) [
    | inl b ↦
        let e : x ≡ r = ok_injective (rw (b, required_row) at h) in
        subst (λ y. required_row (rewritten selected update (y ∷ rows)) n ≡ ok (update r)) (sym e)
          (rw (s, required_row, same r, subst (λ y. (id y == n) ≡ true) e b))
    | inr b ↦
        rw (required_row, kept x b)
          (required_row-rewritten selected update rows n r same (rw (b, required_row) at h) s)
  ]
    where
      kept : (x : A) → (id x == n) ≡ false → (id (if selected x then update x else x) == n) ≡ false
      kept x b = elim (Bool-cases (selected x)) [
        | inl hit ↦ rw (hit, same x) b
        | inr miss ↦ rw miss b
      ]

  -- All other rows are found as they were.
  pub required_row-others :
      (selected : A → Bool) (update : A → A) (rows : List A) (k n : ℕ)
      → ((x : A) → id (update x) ≡ id x)
      → ((x : A) → selected x ≡ true → id x ≡ k)
      → n ≢ k
      → required_row (rewritten selected update rows) n ≡ required_row rows n
  unfolding required_row
  required_row-others selected update [] k n same only other = refl
  required_row-others selected update (x ∷ rows) k n same only other =
      elim (Bool-cases (selected x)) [
        | inr miss ↦
            rw (miss, required_row, required_row-others selected update rows k n same only other)
        | inl hit ↦
            rw (hit, required_row, same x, elsewhere (only x hit))
              (required_row-others selected update rows k n same only other)
      ]
    where
      elsewhere : id x ≡ k → (id x == n) ≡ false
      elsewhere e = elim (Bool-cases (id x == n)) [
        | inl b ↦ absurd (other (sym (==→eq _ _ b) ∙ e))
        | inr b ↦ b
      ]

  -- An UPDATE succeeds where it selects a row that is there.
  pub cas_hits :
      (selected : A → Bool) (n k : ℕ) (update : A → A) (rows : List A) (r : A)
      → required_row rows n ≡ ok r
      → selected r ≡ true
      → cas selected k update rows ≡ ok (rewritten selected update rows)
  unfolding cas required_row
  cas_hits selected n k update rows r h s = rw (hit rows h) refl
    where
      either : (a : Bool) {b : Bool} → b ≡ true → (a || b) ≡ true
      either a e = ground arith

      hit : (xs : List A) → required_row xs n ≡ ok r → any selected xs ≡ true
      hit [] h = cc
      hit (x ∷ xs) h = elim (Bool-cases (id x == n)) [
        | inl b ↦ rw (ok_injective (rw (b, required_row) at h)) (rw s refl)
        | inr b ↦ either (selected x) (hit xs (rw (b, required_row) at h))
      ]

  pub required_row-All :
      (P : A → Type 0) (rows : List A) (n : ℕ) (r : A)
      → All P rows
      → required_row rows n ≡ ok r
      → P r
  unfolding required_row
  required_row-All P [] n r a h = cc
  required_row-All P (x ∷ rows) n r a h = elim (Bool-cases (id x == n)) [
    | inl b ↦ subst P (ok_injective (rw (b, required_row) at h)) a.0
    | inr b ↦ required_row-All P rows n r a.1 (rw (b, required_row) at h)
  ]

  -- Where the primary keys differ, the row that is found is the only one with its key.
  pub required_row-Only :
      (rows : List A) (n : ℕ) (r : A)
      → distinct (map id rows) ≡ true
      → required_row rows n ≡ ok r
      → All (λ x. id x ≡ n → x ≡ r) rows
  unfolding required_row
  required_row-Only [] n r d h = tt
  required_row-Only (x ∷ rows) n r d h =
      let (fresh, rest) = and_split (if contains (map id rows) (id x) then false else true) _ d in
      elim (Bool-cases (id x == n)) [
        | inl b ↦
            let e : x ≡ r = ok_injective (rw (b, required_row) at h) in
            (
              λ same. e,
              All-map _ _ rows (λ y none_left same. absurd (none_left (same ∙ sym (==→eq _ _ b))))
                  (absent_key id rows (id x) (negated _ fresh)),
            )
        | inr b ↦ (
          λ same. cc (sym b ∙ ap (λ i. i == n) same ∙ ==-self n),
          required_row-Only rows n r rest (rw (b, required_row) at h),
        )
      ]
    where
      negated : (b : Bool) → (if b then false else true) ≡ true → b ≡ false
      negated b h = ground arith

  -- The same two facts of an UPDATE that returned.
  module _ (selected : A → Bool) (k : ℕ) (update : A → A) (rows rows' : List A)
      (keeps : (x : A) → id (update x) ≡ id x) (done : cas selected k update rows ≡ ok rows') where
    pub cas_found :
        (n : ℕ) (r : A)
        → required_row rows n ≡ ok r
        → selected r ≡ true
        → required_row rows' n ≡ ok (update r)
    cas_found n r h s =
        ap (λ xs. required_row xs n) (cas_inv selected k update rows rows' done)
        ∙ required_row-rewritten selected update rows n r keeps h s

    pub cas_others :
        (n : ℕ)
        → ((x : A) → selected x ≡ true → id x ≡ k)
        → n ≢ k
        → required_row rows' n ≡ required_row rows n
    cas_others n only other =
        ap (λ xs. required_row xs n) (cas_inv selected k update rows rows' done)
        ∙ required_row-others selected update rows k n keeps only other
