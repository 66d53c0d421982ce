-- ===== src/Prelude/Lists.antt =====
-- Lists measured by native numbers, membership tests, and predicates over lists.
use Prim.Native.Nat.{ℕ, zero, suc, ◌+◌}
use mathlib.Core.Path.{◌≡◌, refl, sym, ap, ◌∙◌, subst}
use mathlib.Core.Logic.{◌⊎◌, inl, inr}
use mathlib.Core.Bool.{Bool, true, false, ◌&&◌, ◌||◌, false≢true}
use mathlib.Core.Option.{Option, none, some}
use mathlib.Core.List.{List, [], ◌∷◌, ◌++◌, map}
use native.Mathlib.Omega.{arith}
use trustworthy_personal_kno.Prelude.Tests.{
  Eq, ◌==◌, if◌then◌else◌, ==-self, ==→eq, Bool-cases, and_split,
}

module _ {ℓ} {A : Type ℓ} where
  abbrev pub length : List A → ℕ
  length [] = 0
  length (x ∷ xs) = suc (length xs)

  abbrev pub take : ℕ → List A → List A
  take zero xs = []
  take (suc n) [] = []
  take (suc n) (x ∷ xs) = x ∷ take n xs

  -- `any(p(x) for x in xs)` and `all(p(x) for x in xs)`.
  abbrev pub any : (A → Bool) → List A → Bool
  any p [] = false
  any p (x ∷ xs) = p x || any p xs

  abbrev pub all : (A → Bool) → List A → Bool
  all p [] = true
  all p (x ∷ xs) = p x && all p xs

  -- `[x for x in xs if p(x)]`.
  abbrev pub filter : (A → Bool) → List A → List A
  filter p [] = []
  filter p (x ∷ xs) = let rest = filter p xs in if p x then x ∷ rest else rest

  pub length-append : (xs ys : List A) → length (xs ++ ys) ≡ length xs + length ys
  length-append [] ys = omega arith
  length-append (x ∷ xs) ys = omega (arith, length-append xs ys)

-- `x` stands in the list.
abbrev pub Member : {A : Type 0} → A → List A → Type 0
Member a [] = ⊥
Member a (x ∷ xs) = (x ≡ a) ⊎ Member a xs

-- A predicate of every element.
abbrev pub All {ℓ κ} : {A : Type ℓ} → (A → Type κ) → List A → Type κ
All P [] = Unit
All P (x ∷ xs) = P x × All P xs

module _ {ℓ} {A : Type ℓ} ⦃e : Eq A⦄ where
  -- `a in xs`.
  abbrev pub contains : List A → A → Bool
  contains [] a = false
  contains (x ∷ xs) a = x == a || contains xs a

  -- `len(set(xs)) == len(xs)`: no element stands twice.
  abbrev pub distinct : List A → Bool
  distinct [] = true
  distinct (x ∷ xs) = (if contains xs x then false else true) && distinct xs

  -- `set(xs).issubset(ys)`.
  abbrev pub subset : List A → List A → Bool
  subset [] ys = true
  subset (x ∷ xs) ys = contains ys x && subset xs ys

-- The first value, or else the second.
abbrev pub or_else {ℓ} : {A : Type ℓ} → Option A → Option A → Option A
or_else none o = o
or_else (some a) o = some a

-- The elements that a filter keeps are those of the list that pass the test.
pub filter-Member :
    {A : Type 0} (p : A → Bool) (xs : List A) (a : A)
    → Member a (filter p xs)
    → Member a xs × (p a ≡ true)
filter-Member p [] a m = absurd m
filter-Member p (x ∷ xs) a m = elim (Bool-cases (p x)) [
  | inl e ↦ kept p x xs a e (filter-Member p xs a) (rw e at m)
  | inr e ↦ let (n, t) = filter-Member p xs a (rw e at m) in (inr n, t)
]
  where
    kept :
        {A : Type 0} (p : A → Bool) (x : A) (xs : List A) (a : A)
        → p x ≡ true
        → (Member a (filter p xs) → Member a xs × (p a ≡ true))
        → Member a (x ∷ filter p xs)
        → Member a (x ∷ xs) × (p a ≡ true)
    kept p x xs a e ih (inl same) = (inl same, rw (← same) e)
    kept p x xs a e ih (inr later) = let (n, t) = ih later in (inr n, t)

module _ {A : Type 0} ⦃e : Eq A⦄ where
  pub contains-Member : (xs : List A) (a : A) → contains xs a ≡ true → Member a xs
  contains-Member [] a h = absurd (false≢true h)
  contains-Member (x ∷ xs) a h = elim (Bool-cases (x == a)) [
    | inl here ↦ inl (==→eq x a here)
    | inr later ↦ inr (contains-Member xs a (rw later at h))
  ]

  pub Member-contains : (xs : List A) (a : A) → Member a xs → contains xs a ≡ true
  Member-contains [] a m = absurd m
  Member-contains (x ∷ xs) a (inl same) = rw same (rw ==-self refl)
  Member-contains (x ∷ xs) a (inr later) = elim (Bool-cases (x == a)) [
    | inl here ↦ rw here refl
    | inr other ↦ rw other (Member-contains xs a later)
  ]

  pub subset-All : (xs ys : List A) → subset xs ys ≡ true → All (λ x. Member x ys) xs
  subset-All [] ys h = tt
  subset-All (x ∷ xs) ys h =
      let (first, rest) = and_split (contains ys x) (subset xs ys) h in
      (contains-Member ys x first, subset-All xs ys rest)

-- A predicate of every element, along a list that grows.
module _ {A : Type 0} where
  pub All-append : (P : A → Type 0) (xs ys : List A) → All P xs → All P ys → All P (xs ++ ys)
  All-append P [] ys h k = k
  All-append P (x ∷ xs) ys h k = (h.0, All-append P xs ys h.1 k)

  pub All-map : (P Q : A → Type 0) (xs : List A) → ((a : A) → P a → Q a) → All P xs → All Q xs
  All-map P Q [] f h = tt
  All-map P Q (x ∷ xs) f h = (f x h.0, All-map P Q xs f h.1)

  pub All-both : (P Q : A → Type 0) (xs : List A) → All P xs → All Q xs → All (λ a. P a × Q a) xs
  All-both P Q [] h k = tt
  All-both P Q (x ∷ xs) h k = ((h.0, k.0), All-both P Q xs h.1 k.1)

  pub Member-append_left : (a : A) (xs ys : List A) → Member a xs → Member a (xs ++ ys)
  Member-append_left a [] ys m = absurd m
  Member-append_left a (x ∷ xs) ys (inl e) = inl e
  Member-append_left a (x ∷ xs) ys (inr m) = inr (Member-append_left a xs ys m)

  pub Member-append_right : (a : A) (xs ys : List A) → Member a ys → Member a (xs ++ ys)
  Member-append_right a [] ys m = m
  Member-append_right a (x ∷ xs) ys m = inr (Member-append_right a xs ys m)

  pub All-Member_self : (xs : List A) → All (λ x. Member x xs) xs
  All-Member_self [] = tt
  All-Member_self (x ∷ xs) = (
    inl refl,
    All-map (λ a. Member a xs) (λ a. Member a (x ∷ xs)) xs (λ a m. inr m) (All-Member_self xs),
  )

still_fresh :
    (b : Bool)
    → (if b then false else true) ≡ true
    → ((if b || false then false else true) && true) ≡ true
still_fresh b h = ground arith

or_split : (a b : Bool) → (a || b) ≡ false → (a ≡ false) × (b ≡ false)
or_split a b h = ground arith

module _ {A : Type 0} ⦃e : Eq A⦄ where
  ==-sym : (a b : A) → (a == b) ≡ (b == a)
  ==-sym a b = elim (Bool-cases (a == b)) [
    | inl same ↦ rw (==→eq a b same) refl
    | inr other ↦ elim (Bool-cases (b == a)) [
      | inl same ↦ rw (==→eq b a same) refl
      | inr other' ↦ rw other (rw other' refl)
    ]
  ]

  contains-snoc : (xs : List A) (c x : A) → contains (xs ++ (c ∷ [])) x ≡ contains xs x || c == x
  contains-snoc [] c x = ground arith
  contains-snoc (y ∷ xs) c x = ground (arith, contains-snoc xs c x)

  pub distinct-snoc :
      (xs : List A) (c : A)
      → distinct xs ≡ true
      → contains xs c ≡ false
      → distinct (xs ++ (c ∷ [])) ≡ true
  distinct-snoc [] c d n = refl
  distinct-snoc (x ∷ xs) c d n =
      let (fresh, rest) = and_split _ (distinct xs) d in
      let (other, absent) = or_split (x == c) (contains xs c) n in
      rw (distinct-snoc xs c rest absent, contains-snoc xs c x, ==-sym c x, other)
        (still_fresh (contains xs x) fresh)

module _ {A K : Type 0} ⦃e : Eq K⦄ (key : A → K) where
  -- No element has a key that the keys do not contain.
  pub absent_key :
      (xs : List A) (a : K) → contains (map key xs) a ≡ false → All (λ x. key x ≡ a → ⊥) xs
  absent_key [] a h = tt
  absent_key (x ∷ xs) a h = elim (Bool-cases (key x == a)) [
    | inl b ↦ cc (rw b at h)
    | inr b ↦ (λ same. differs x a same b, absent_key xs a (rw b at h))
  ]
    where
      differs : (x : A) (a : K) → key x ≡ a → (key x == a) ≡ false → ⊥
      differs x a same b = false≢true (sym b ∙ ap (λ i. i == a) same ∙ ==-self a)

  -- Where the keys differ, an element is the only one with its key.
  pub distinct-Only :
      (xs : List A) (a : A)
      → distinct (map key xs) ≡ true
      → Member a xs
      → All (λ x. key x ≡ key a → x ≡ a) xs
  distinct-Only [] a d m = tt
  distinct-Only (x ∷ xs) a d m =
      let (fresh, rest) = and_split (if contains (map key xs) (key x) then false else true) _ d in
      split m (absent_key xs (key x) (negated _ fresh)) (distinct-Only xs a rest)
    where
      negated : (b : Bool) → (if b then false else true) ≡ true → b ≡ false
      negated b h = ground arith

      split :
          Member a (x ∷ xs)
          → All (λ y. key y ≡ key x → ⊥) xs
          → (Member a xs → All (λ y. key y ≡ key a → y ≡ a) xs)
          → All (λ y. key y ≡ key a → y ≡ a) (x ∷ xs)
      split (inl here) none_left ih = (
        λ same. here,
        All-map _ _ xs (λ y other same. absurd (other (same ∙ ap key (sym here)))) none_left,
      )
      split (inr later) none_left ih = (λ same. absurd (at xs none_left later (sym same)), ih later)
        where
          at : (ys : List A) → All (λ y. key y ≡ key x → ⊥) ys → Member a ys → key a ≡ key x → ⊥
          at [] h m same = m
          at (y ∷ ys) h (inl e') same = h.0 (ap key e' ∙ same)
          at (y ∷ ys) h (inr m) same = at ys h.1 m same

module _ {A : Type 0} where
  -- What a filter keeps has what its test gives.
  pub All-filter :
      (p : A → Bool) (Q : A → Type 0) (xs : List A)
      → ((x : A) → p x ≡ true → Q x)
      → All Q (filter p xs)
  All-filter p Q [] f = tt
  All-filter p Q (x ∷ xs) f = elim (Bool-cases (p x)) [
    | inl b ↦ rw b (f x b, All-filter p Q xs f)
    | inr b ↦ rw b (All-filter p Q xs f)
  ]

  pub All-filter_kept :
      (p : A → Bool) (Q : A → Type 0) (xs : List A) → All Q xs → All Q (filter p xs)
  All-filter_kept p Q [] a = tt
  All-filter_kept p Q (x ∷ xs) a = elim (Bool-cases (p x)) [
    | inl b ↦ rw b (a.0, All-filter_kept p Q xs a.1)
    | inr b ↦ rw b (All-filter_kept p Q xs a.1)
  ]

  pub All-Member : (Q : A → Type 0) (xs : List A) (x : A) → All Q xs → Member x xs → Q x
  All-Member Q [] x a m = absurd m
  All-Member Q (y ∷ xs) x a (inl e) = subst Q e a.0
  All-Member Q (y ∷ xs) x a (inr m) = All-Member Q xs x a.1 m

pub all_of : {A : Type 0} (P : A → Type 0) (xs : List A) → ((x : A) → Member x xs → P x) → All P xs
all_of P [] f = tt
all_of P (x ∷ xs) f = (f x (inl refl), all_of P xs (λ y m. f y (inr m)))

-- An element that passes the test is kept.
pub Member-filter :
    {A : Type 0} (p : A → Bool) (xs : List A) (a : A)
    → Member a xs
    → p a ≡ true
    → Member a (filter p xs)
Member-filter p [] a m h = m
Member-filter p (x ∷ xs) a (inl e) h = elim (Bool-cases (p x)) [
  | inl b ↦ rw b (inl e)
  | inr b ↦ absurd (false≢true (sym b ∙ ap p e ∙ h))
]
Member-filter p (x ∷ xs) a (inr m) h = elim (Bool-cases (p x)) [
  | inl b ↦ rw b (inr (Member-filter p xs a m h))
  | inr b ↦ rw b (Member-filter p xs a m h)
]
