-- ===== src/Prelude/Strings/Laws.antt =====
-- `str.strip` and `str.lower` are idempotent and commute.
use Prim.Native.Nat.{ℕ}
use mathlib.Core.Path.{◌≡◌, refl, ap, sym, ◌∙◌}
use mathlib.Core.Logic.{◌⊎◌, inl, inr}
use mathlib.Core.Bool.{false}
use mathlib.Core.List.{[], ◌∷◌, ◌++◌, reverse, reverse-cons, reverse-append, reverse-reverse}
use native.Mathlib.Omega.{arith}
use Prim.Native.Nat.{◌≤◌}
use mathlib.Core.List.{List}
use trustworthy_personal_kno.Prelude.Tests.{Bool-cases}
use trustworthy_personal_kno.Prelude.Lists.{length, length-append}
use trustworthy_personal_kno.Prelude.Strings.{
  Text, is_space, lower_code, lstrip, rstrip, strip, lower,
}

lower_code_twice : (c : ℕ) → lower_code (lower_code c) ≡ lower_code c
lower_code_twice c = ground arith

is_space-lower_code : (c : ℕ) → is_space (lower_code c) ≡ is_space c
is_space-lower_code c = ground arith

pub lower-lower : (s : Text) → lower (lower s) ≡ lower s
unfolding lower
lower-lower [] = refl
lower-lower (c ∷ s) = λ i. lower_code_twice c i ∷ lower-lower s i

lower-append : (s t : Text) → lower (s ++ t) ≡ lower s ++ lower t
unfolding lower
lower-append [] t = refl
lower-append (c ∷ s) t = ap (λ r. lower_code c ∷ r) (lower-append s t)

lower-cons : (c : ℕ) (s : Text) → lower (c ∷ s) ≡ lower_code c ∷ lower s
unfolding lower
lower-cons c s = refl

lower-nil : lower [] ≡ []
unfolding lower
lower-nil = refl

lower-reverse : (s : Text) → lower (reverse s) ≡ reverse (lower s)
lower-reverse [] = rw lower-nil
lower-reverse (c ∷ s) =
    ap lower (reverse-cons c s)
    ∙ lower-append (reverse s) (c ∷ [])
    ∙ ap (λ r. r ++ lower (c ∷ [])) (lower-reverse s)
    ∙ ap (λ r. reverse (lower s) ++ r) (lower-cons c [] ∙ ap (λ r. lower_code c ∷ r) lower-nil)
    ∙ sym (reverse-cons (lower_code c) (lower s))
    ∙ ap reverse (sym (lower-cons c s))

lstrip-lower : (s : Text) → lstrip (lower s) ≡ lower (lstrip s)
unfolding lstrip lower
lstrip-lower [] = refl
lstrip-lower (c ∷ s) = elim (Bool-cases (is_space c)) [
  | inl e ↦ rw (is_space-lower_code c) (rw e (lstrip-lower s))
  | inr e ↦ rw (is_space-lower_code c) (rw e refl)
]

-- What is left begins with no white space.
lstrip-cases :
    (s : Text)
    → (lstrip s ≡ []) ⊎ ((c : ℕ) × (t : Text) × (lstrip s ≡ c ∷ t) × (is_space c ≡ false))
unfolding lstrip
lstrip-cases [] = inl refl
lstrip-cases (c ∷ s) = elim (Bool-cases (is_space c)) [
  | inl e ↦ rw e (lstrip-cases s)
  | inr e ↦ rw e (inr (c, s, refl, e))
]

lstrip-cons : (c : ℕ) (s : Text) → is_space c ≡ false → lstrip (c ∷ s) ≡ c ∷ s
unfolding lstrip
lstrip-cons c s e = rw e

lstrip-lstrip : (s : Text) → lstrip (lstrip s) ≡ lstrip s
lstrip-lstrip s = elim (lstrip-cases s) [
  | inl e ↦ rw e (unfold lstrip in refl)
  | inr (c, t, e, n) ↦ rw e (lstrip-cons c t n)
]

lstrip-snoc :
    (s : Text) (c : ℕ) → is_space c ≡ false → lstrip (s ++ (c ∷ [])) ≡ lstrip s ++ (c ∷ [])
unfolding lstrip
lstrip-snoc [] c e = rw e
lstrip-snoc (d ∷ s) c e = elim (Bool-cases (is_space d)) [
  | inl f ↦ rw f (lstrip-snoc s c e)
  | inr f ↦ rw f
]

rstrip-cons : (c : ℕ) (s : Text) → is_space c ≡ false → rstrip (c ∷ s) ≡ c ∷ rstrip s
unfolding rstrip
rstrip-cons c s e =
    ap (λ r. reverse (lstrip r)) (reverse-cons c s)
    ∙ ap reverse (lstrip-snoc (reverse s) c e)
    ∙ reverse-append (lstrip (reverse s)) (c ∷ [])

rstrip-rstrip : (s : Text) → rstrip (rstrip s) ≡ rstrip s
unfolding rstrip
rstrip-rstrip s =
    ap (λ r. reverse (lstrip r)) (reverse-reverse (lstrip (reverse s)))
    ∙ ap reverse (lstrip-lstrip (reverse s))

rstrip-lower : (s : Text) → rstrip (lower s) ≡ lower (rstrip s)
unfolding rstrip
rstrip-lower s =
    ap (λ r. reverse (lstrip r)) (sym (lower-reverse s))
    ∙ ap reverse (lstrip-lower (reverse s))
    ∙ sym (lower-reverse (lstrip (reverse s)))

-- White space off the right end leaves the left end stripped.
lstrip-strip : (s : Text) → lstrip (rstrip (lstrip s)) ≡ rstrip (lstrip s)
lstrip-strip s = elim (lstrip-cases s) [
  | inl e ↦ rw e (unfold rstrip lstrip in refl)
  | inr (c, t, e, n) ↦ rw e (rw (rstrip-cons c t n) (lstrip-cons c (rstrip t) n))
]

pub strip-strip : (s : Text) → strip (strip s) ≡ strip s
unfolding strip
strip-strip s = ap rstrip (lstrip-strip s) ∙ rstrip-rstrip (lstrip s)

pub strip-lower : (s : Text) → strip (lower s) ≡ lower (strip s)
unfolding strip
strip-lower s = ap rstrip (lstrip-lower s) ∙ rstrip-lower (lstrip s)

length-lstrip : (s : Text) → length (lstrip s) ≤ length s
unfolding lstrip
length-lstrip [] = omega arith
length-lstrip (c ∷ s) = elim (Bool-cases (is_space c)) [
  | inl space ↦ rw space (omega (arith, length-lstrip s))
  | inr other ↦ rw other (omega arith)
]

pub length-reverse {ℓ} : {A : Type ℓ} (xs : List A) → length (reverse xs) ≡ length xs
length-reverse [] = refl
length-reverse (x ∷ xs) =
    ap length (reverse-cons x xs)
    ∙ omega (arith, length-append (reverse xs) (x ∷ []), length-reverse xs)

pub length-strip : (s : Text) → length (strip s) ≤ length s
unfolding strip rstrip
length-strip s = omega (
  arith,
  length-reverse {0} (lstrip (reverse (lstrip s))),
  length-lstrip (reverse (lstrip s)),
  length-reverse {0} (lstrip s),
  length-lstrip s,
)
