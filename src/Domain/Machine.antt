-- ===== src/Domain/Machine.antt =====
-- domain/transitions.py: `can_transition` and `require_transition` over one row of `_TRANSITIONS`.
-- The source compares the types of the two values at run time; here they are of one type.
use trustworthy_personal_kno.Prelude.{Bool, List, Eq, contains, Result, ok, raised, if◌then◌else◌}
use trustworthy_personal_kno.Domain.Errors.{Error, invalid_state_transition}

-- One entry of `_TRANSITIONS`: the declared targets of each status.
pub record StateMachine (S : Type 0) : Type 0 where
  pub next : S → List S

module _ {S : Type 0} ⦃e : Eq S⦄ ⦃m : StateMachine S⦄ where
  abbrev pub can_transition : S → S → Bool
  can_transition current target = contains (m.next current) target

  abbrev pub require_transition : S → S → Result Error S
  require_transition current target =
      if can_transition current target then ok target else raised invalid_state_transition
