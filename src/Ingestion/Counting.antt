-- ===== src/Ingestion/Counting.antt =====
-- Counting in lists, for code that counts by `Counter` and keeps order by `sorted`.
use trustworthy_personal_kno.Prelude.{
  ℕ, suc, ◌+◌, ◌≤◌, ◌≡◌, refl, sym, ap, ◌∙◌, Bool, true, false, List, [], ◌∷◌, ◌++◌, map, filter,
  contains, distinct, Member, All, Bool-cases, and_split, inl, inr, leb, ◌==◌, nat_eq, ==→eq,
  if◌then◌else◌, arith,
}

module _ {A : Type 0} where
  -- `sum(1 for x in xs if p(x))`
  abbrev pub count : (A → Bool) → List A → ℕ
  count p [] = 0
  count p (x ∷ xs) = let rest = count p xs in if p x then suc rest else rest

  -- `sorted(xs, key=...)` is stable: an element goes before the first that is greater.
  pub insert_by : (A → A → Bool) → A → List A → List A
  insert_by before x [] = x ∷ []
  insert_by before x (y ∷ ys) =
      let rest = insert_by before x ys in if before y x then y ∷ rest else x ∷ (y ∷ ys)

  unfoldable pub sort_by : (A → A → Bool) → List A → List A
  unfolding insert_by
  sort_by before [] = []
  sort_by before (x ∷ xs) = insert_by before x (sort_by before xs)

  count-insert :
      (before : A → A → Bool) (p : A → Bool) (x : A) (xs : List A)
      → count p (insert_by before x xs) ≡ (if p x then suc (count p xs) else count p xs)
  unfolding insert_by
  count-insert before p x [] = refl
  count-insert before p x (y ∷ ys) = elim (Bool-cases (before y x)) [
    | inl b ↦ rw b (ground (arith, count-insert before p x ys))
    | inr b ↦ rw b refl
  ]

  -- Sorting keeps what is counted.
  pub count-sort :
      (before : A → A → Bool) (p : A → Bool) (xs : List A)
      → count p (sort_by before xs) ≡ count p xs
  unfolding sort_by
  count-sort before p [] = refl
  count-sort before p (x ∷ xs) =
      count-insert before p x (sort_by before xs)
      ∙ ap (λ n. if p x then suc n else n) (count-sort before p xs)

  pub count-append : (p : A → Bool) (xs ys : List A) → count p (xs ++ ys) ≡ count p xs + count p ys
  count-append p [] ys = omega arith
  count-append p (x ∷ xs) ys = ground (arith, count-append p xs ys)

  pub count-filter-le : (p q : A → Bool) (xs : List A) → count q (filter p xs) ≤ count q xs
  count-filter-le p q [] = omega arith
  count-filter-le p q (x ∷ xs) = elim (Bool-cases (p x)) [
    | inl b ↦ rw b (ground (arith, count-filter-le p q xs))
    | inr b ↦ rw b (ground (arith, count-filter-le p q xs))
  ]

  pub count-le :
      (p q : A → Bool) (xs : List A)
      → All (λ x. p x ≡ true → q x ≡ true) xs
      → count p xs ≤ count q xs
  count-le p q [] a = omega arith
  count-le p q (x ∷ xs) a = elim (Bool-cases (p x)) [
    | inl b ↦ rw (b, a.0 b) (omega (arith, count-le p q xs a.1))
    | inr b ↦ rw b (ground (arith, count-le p q xs a.1))
  ]

  pub count-zero : (p : A → Bool) (xs : List A) → All (λ x. p x ≡ false) xs → count p xs ≡ 0
  count-zero p [] a = refl
  count-zero p (x ∷ xs) a = rw a.0 (omega (arith, count-zero p xs a.1))

  pub count-Member :
      (p : A → Bool) (xs : List A) (x : A) → Member x xs → p x ≡ true → 1 ≤ count p xs
  count-Member p [] x m h = absurd m
  count-Member p (y ∷ xs) x (inl e) h = rw (ap p e ∙ h) (omega arith)
  count-Member p (y ∷ xs) x (inr m) h = ground (arith, count-Member p xs x m h)

  -- Where the elements that pass one test and another make a number 1, either there are none or it is 1.
  pub count-filter_or :
      (p q : A → Bool) (n : ℕ) (xs : List A)
      → ((x : A) → q x ≡ true → p x ≡ true → n ≡ 1)
      → count q xs ≤ n
      → count q (filter p xs) ≤ 1
  count-filter_or p q n xs h le = elim (Bool-cases (leb 1 (count q (filter p xs)))) [
    | inl b ↦ omega (arith, count-filter-le p q xs, le, some_one xs (ground arith))
    | inr b ↦ ground arith
  ]
    where
      some_one : (ys : List A) → 1 ≤ count q (filter p ys) → n ≡ 1
      some_one [] b = absurd (omega arith)
      some_one (y ∷ ys) b = elim (Bool-cases (p y)) [
        | inr c ↦ some_one ys (rw c at b)
        | inl c ↦ elim (Bool-cases (q y)) [ inl d ↦ h y d c | inr d ↦ some_one ys (rw (c, d) at b) ]
      ]

  pub count-filter_all :
      (p q : A → Bool) (xs : List A)
      → ((x : A) → q x ≡ true → p x ≡ true)
      → count q (filter p xs) ≡ count q xs
  count-filter_all p q [] h = refl
  count-filter_all p q (x ∷ xs) h = elim (Bool-cases (q x)) [
    | inl b ↦ rw (h x b) (rw b (ap (λ n. suc n) (count-filter_all p q xs h)))
    | inr b ↦ elim (Bool-cases (p x)) [
      | inl c ↦ rw c (rw b (count-filter_all p q xs h))
      | inr c ↦ rw (b, c) (count-filter_all p q xs h)
    ]
  ]

pub count-map :
    {A B : Type 0} (f : A → B) (p : B → Bool) (xs : List A)
    → count p (map f xs) ≡ count (λ x. p (f x)) xs
count-map f p [] = refl
count-map f p (x ∷ xs) = ap (λ n. if p (f x) then suc n else n) (count-map f p xs)

-- `Counter(xs)[a]`
abbrev pub occurs : ℕ → List ℕ → ℕ
occurs a = count (λ x. x == a)

pub occurs-absent : (xs : List ℕ) (a : ℕ) → contains xs a ≡ false → occurs a xs ≡ 0
occurs-absent [] a h = refl
occurs-absent (x ∷ xs) a h = elim (Bool-cases (x == a)) [
  | inl b ↦ cc (rw b at h)
  | inr b ↦ rw b (omega (arith, occurs-absent xs a (rw b at h)))
]

pub occurs-present : (xs : List ℕ) (a : ℕ) → contains xs a ≡ true → 1 ≤ occurs a xs
occurs-present [] a h = cc
occurs-present (x ∷ xs) a h = elim (Bool-cases (x == a)) [
  | inl b ↦ rw b (omega arith)
  | inr b ↦ rw b (omega (arith, occurs-present xs a (rw b at h)))
]

-- Where the keys differ, at most one element has a key.
pub count-distinct :
    {A : Type 0} (key : A → ℕ) (xs : List A) (a : ℕ)
    → distinct (map key xs) ≡ true
    → count (λ x. key x == a) xs ≤ 1
count-distinct key [] a d = omega arith
count-distinct key (x ∷ xs) a d =
    let (fresh, rest) = and_split (if contains (map key xs) (key x) then false else true) _ d in
    elim (Bool-cases (key x == a)) [
      | inl b ↦ rw b (
          omega (
            arith,
            counted key xs a,
            occurs-absent (map key xs) a
                (ap (contains (map key xs)) (sym (==→eq _ _ b)) ∙ negated _ fresh),
          ))
      | inr b ↦ rw b (count-distinct key xs a rest)
    ]
  where
    negated : (b : Bool) → (if b then false else true) ≡ true → b ≡ false
    negated b h = ground arith

    counted :
        {A : Type 0} (key : A → ℕ) (xs : List A) (a : ℕ)
        → count (λ x. key x == a) xs ≡ occurs a (map key xs)
    counted key [] a = refl
    counted key (x ∷ xs) a = ap (λ n. if key x == a then suc n else n) (counted key xs a)

-- Sorting keeps the elements, and what holds of them.
module _ {A : Type 0} (before : A → A → Bool) where
  insert-Member :
      (x : A) (xs : List A) (y : A) → Member y (x ∷ xs) → Member y (insert_by before x xs)
  unfolding insert_by
  insert-Member x [] y m = m
  insert-Member x (z ∷ zs) y m = elim (Bool-cases (before z x)) [
    | inr b ↦ rw b m
    | inl b ↦ rw b (later (insert-Member x zs y) m)
  ]
    where
      later :
          (Member y (x ∷ zs) → Member y (insert_by before x zs))
          → Member y (x ∷ (z ∷ zs))
          → Member y (z ∷ insert_by before x zs)
      later ih (inl here) = inr (ih (inl here))
      later ih (inr (inl here)) = inl here
      later ih (inr (inr m')) = inr (ih (inr m'))

  pub sort-Member : (xs : List A) (y : A) → Member y xs → Member y (sort_by before xs)
  unfolding sort_by
  sort-Member [] y m = m
  sort-Member (x ∷ xs) y (inl here) = insert-Member x (sort_by before xs) y (inl here)
  sort-Member (x ∷ xs) y (inr m) = insert-Member x (sort_by before xs) y (inr (sort-Member xs y m))

  insert-All :
      (P : A → Type 0) (x : A) (xs : List A) → P x → All P xs → All P (insert_by before x xs)
  unfolding insert_by
  insert-All P x [] p a = (p, tt)
  insert-All P x (z ∷ zs) p a = elim (Bool-cases (before z x)) [
    | inr b ↦ rw b (p, a)
    | inl b ↦ rw b (a.0, insert-All P x zs p a.1)
  ]

  pub sort-All : (P : A → Type 0) (xs : List A) → All P xs → All P (sort_by before xs)
  unfolding sort_by
  sort-All P [] a = tt
  sort-All P (x ∷ xs) a = insert-All P x (sort_by before xs) a.0 (sort-All P xs a.1)

-- Where one element passes a test, two that pass it are the same.
pub count-Unique :
    {A : Type 0} (p : A → Bool) (xs : List A) (x y : A)
    → count p xs ≤ 1
    → Member x xs
    → Member y xs
    → p x ≡ true
    → p y ≡ true
    → x ≡ y
count-Unique p (z ∷ zs) x y le (inl s) (inl t) h k = sym s ∙ t
count-Unique p (z ∷ zs) x y le (inl s) (inr n) h k =
    let some_more = count-Member p zs y n k in
    absurd (omega (arith, rw (ap p s ∙ h) at le, some_more))
count-Unique p (z ∷ zs) x y le (inr m) (inl t) h k =
    let some_more = count-Member p zs x m h in
    absurd (omega (arith, rw (ap p t ∙ k) at le, some_more))
count-Unique p (z ∷ zs) x y le (inr m) (inr n) h k =
    count-Unique p zs x y (ground (arith, le)) m n h k
count-Unique p [] x y le m n h k = absurd m
