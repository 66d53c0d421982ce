-- ===== src/Domain/Transitions/Traces.antt =====
-- Series of statuses, each accepted by `require_transition` (domain/transitions.py).
use trustworthy_personal_kno.Prelude.{
  ℕ, ◌+◌, ◌≤◌, ◌<◌, ◌≡◌, true, List, [], ◌∷◌, Eq, ok, arith, length,
}
use trustworthy_personal_kno.Domain.Machine.{StateMachine, can_transition, require_transition}

module _ {S : Type 0} ⦃e : Eq S⦄ ⦃m : StateMachine S⦄ where
  -- `Trace s ts u`: from `s` the record takes the statuses `ts` in turn and ends in `u`.
  pub data Trace : S → List S → S → Type 0 where
    here : {s : S} → Trace s [] s
    next :
        {s t u : S} {ts : List S}
        → require_transition s t ≡ ok t
        → Trace t ts u
        → Trace s (t ∷ ts) u

  pub accepted : (s t : S) → require_transition s t ≡ ok t → can_transition s t ≡ true
  accepted s t h = ground arith

  -- Where every declared transition lowers a rank, a record changes at most that often.
  pub Trace-rank :
      (rank : S → ℕ)
      → ((s t : S) → can_transition s t ≡ true → rank t < rank s)
      → {s u : S} {ts : List S} → Trace s ts u
      → length ts + rank u ≤ rank s
  Trace-rank rank falls here = omega arith
  Trace-rank rank falls {s = s} (next {t = t} h rest) =
      omega (arith, falls s t (accepted s t h), Trace-rank rank falls rest)
