-- ===== src/Prelude/Results.antt =====
-- Code that may raise: a value, or the exception that it raised.
use mathlib.Core.Path.{◌≡◌, refl}
use mathlib.Core.Bool.{Bool, true, false}
use mathlib.Core.Logic.{◌⊎◌, inl, inr}

pub data Result {ℓ κ} (E : Type κ) (A : Type ℓ) : Type (ℓ ⊔ κ) where
  ok : A → Result E A
  raised : E → Result E A

infixl 5 ◌>>=◌ ◌>>◌
abbrev pub ◌>>=◌ {ℓ κ μ} :
    {E : Type κ} {A : Type ℓ} {B : Type μ} → Result E A → (A → Result E B) → Result E B
ok a >>= f = f a
raised e >>= f = raised e

abbrev pub ◌>>◌ {ℓ κ} : {E : Type κ} {B : Type ℓ} → Result E (Unit {0}) → Result E B → Result E B
m >> k = m >>= λ _. k

-- `if not b: raise e`.
abbrev pub require {κ} : {E : Type κ} → Bool → E → Result E (Unit {0})
require true e = ok tt
require false e = raised e

pub Result-cases {ℓ κ} :
    {E : Type κ} {A : Type ℓ} (r : Result E A) → ((a : A) × (r ≡ ok a)) ⊎ ((e : E) × (r ≡ raised e))
Result-cases (ok a) = inl (a, refl)
Result-cases (raised e) = inr (e, refl)

module _ {ℓ κ} {E : Type κ} {A : Type ℓ} where
  pub ok_injective : {a b : A} → ◌≡◌ {A = Result E A} (ok a) (ok b) → a ≡ b
  ok_injective h = cc

  pub raised-ne-ok : {e : E} {a : A} → raised e ≡ ok a → ⊥
  raised-ne-ok h = cc

-- Inversion of a step that returned.
pub bind_inv {ℓ κ μ} :
    {E : Type κ} {A : Type ℓ} {B : Type μ} (m : Result E A) (f : A → Result E B) {b : B}
    → (m >>= f) ≡ ok b
    → (a : A) × (m ≡ ok a) × (f a ≡ ok b)
bind_inv (ok a) f h = (a, refl, h)
bind_inv (raised e) f h = absurd (raised-ne-ok h)

pub require_inv {ℓ κ} :
    {E : Type κ} {A : Type ℓ} (b : Bool) (e : E) (k : Result E A) {a : A}
    → (require b e >> k) ≡ ok a
    → (b ≡ true) × (k ≡ ok a)
require_inv true e k h = (refl, h)
require_inv false e k h = absurd (raised-ne-ok h)

pub then_inv {ℓ κ} :
    {E : Type κ} {A : Type ℓ} (m : Result E (Unit {0})) (k : Result E A) {a : A}
    → (m >> k) ≡ ok a
    → (m ≡ ok tt) × (k ≡ ok a)
then_inv (ok u) k h = (refl, h)
then_inv (raised e) k h = absurd (raised-ne-ok h)

-- A step that returns, within a call.
pub bind_ok {ℓ κ μ} :
    {E : Type κ} {A : Type ℓ} {B : Type μ} (m : Result E A) (f : A → Result E B) {a : A}
    {r : Result E B}
    → m ≡ ok a
    → f a ≡ r
    → (m >>= f) ≡ r
bind_ok m f e h = rw e h

pub require_ok {ℓ κ} :
    {E : Type κ} {A : Type ℓ} (b : Bool) (e : E) (k : Result E A) {r : Result E A}
    → b ≡ true
    → k ≡ r
    → (require b e >> k) ≡ r
require_ok b e k t h = rw t h
