-- ===== src/Governance/RiskLevels/Spelling.antt =====
-- `classify_risk` of governance/quality.py.
use trustworthy_personal_kno.Prelude.{◌≡◌, refl, some, Text, lower, strip, ap, ◌∙◌, text_eq}
use trustworthy_personal_kno.Prelude.Strings.Laws.{lower-lower, strip-strip, strip-lower}
use trustworthy_personal_kno.Governance.Contracts.{ClaimDraft}
use trustworthy_personal_kno.Governance.RiskLevels.{classify_risk}

normal_twice : (s : Text) → lower (strip (lower (strip s))) ≡ lower (strip s)
normal_twice s = ap lower (strip-lower (strip s) ∙ ap lower (strip-strip s)) ∙ lower-lower (strip s)

-- The claim with another domain in its scope.
abbrev pub in_domain : ClaimDraft → Text → ClaimDraft
in_domain claim domain = record claim { scope = record (claim.scope) { domain = some domain } }

-- White space around the domain of a claim and the case of its letters make no difference: two
-- domains with one stripped lower-case form give one risk, which is that of this form.
pub risk_ignores_spelling :
    (claim : ClaimDraft) (domain other : Text)
    → lower (strip domain) ≡ lower (strip other)
    → (classify_risk (in_domain claim domain) ≡ classify_risk (in_domain claim other))
      × (classify_risk (in_domain claim domain)
          ≡ classify_risk (in_domain claim (lower (strip domain))))
unfolding classify_risk
risk_ignores_spelling claim domain other same = (rw same refl, rw (normal_twice domain) refl)
