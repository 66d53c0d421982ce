-- ===== src/Answer/Service/Drafts.antt =====
-- What stands behind an answer of `TrustedAnswerService.stream` (answer/service.py), from its evidence on.
use trustworthy_personal_kno.Prelude.{
  nat_eq, ℕ, suc, ◌≡◌, refl, sym, ap, ◌∙◌, subst, Option, none, some, List, [], ◌∷◌, Result, ok,
  Text, Bool-cases, Option-cases, Result-cases, inl, inr, ◌⊎◌, ◌==◌, then_inv, ok_injective,
  some-injective, ◌>>◌,
}
use trustworthy_personal_kno.Domain.Enums.Execution.{AnswerRunStatus, answer_run_status_eq}
use trustworthy_personal_kno.Publication.Contracts.{RetrievalResult}
use trustworthy_personal_kno.Answer.Contracts.{
  Digest, Identifier, RefusalCode, AnswerEventType, QueryPlan, AnswerEvidence, AnswerDraft,
  CitationVerificationOutput, AnswerCitation,
}
use trustworthy_personal_kno.Answer.Runs.{AnswerRunRecord, refuse, complete_answer}
use trustworthy_personal_kno.Answer.Rendering.{Line, render_verified_answer}
use trustworthy_personal_kno.Answer.Rendering.Numbering.{IsNumbered, render-IsNumbered}
use trustworthy_personal_kno.Answer.Verification.{
  AnswerError, validate_citation_closed_set, validate_semantic_support,
}
use trustworthy_personal_kno.Answer.Verification.Grounding.{AllGrounded, validated_grounded}
use trustworthy_personal_kno.Answer.Results.{
  AnsweredResult, AnswerResult, answered, refused, AnswerEvent, progress, RefusedResult,
  reason_text,
}
use trustworthy_personal_kno.Answer.Environment.{
  AnswerSettings, IndexGeneration, Store, Gateways, Runtime, generation_ids,
}
use trustworthy_personal_kno.Answer.Sessions.{Outcome, emit, refuse_run, put_snapshot}
use trustworthy_personal_kno.Answer.Service.{
  checked, complete_run, complete, judge_draft, answer_from, verified_result,
}

-- One of the events shows the answer.
abbrev pub ShowsIn : List AnswerEvent → AnsweredResult → Type 0
ShowsIn [] r = ⊥
ShowsIn (e ∷ es) r = (e.result ≡ some (answered r)) ⊎ ShowsIn es r

abbrev pub Shows : Outcome → AnsweredResult → Type 0
Shows out r = ShowsIn out.events r

pub emit-Shows :
    (n : ℕ) (t : AnswerEventType) (id : Identifier) (out : Outcome) (r : AnsweredResult)
    → Shows (emit (progress n t id) out) r
    → Shows out r
emit-Shows n t id out r (inl h) = cc
emit-Shows n t id out r (inr h) = h

refused_shows :
    (x : RefusedResult) (r : AnsweredResult)
    → (◌≡◌ {A = Option AnswerResult} (some (refused x)) (some (answered r))) ⊎ ⊥
    → ⊥
refused_shows x r (inl h) = cc
refused_shows x r (inr h) = h

answered_shows :
    (x r : AnsweredResult)
    → (◌≡◌ {A = Option AnswerResult} (some (answered x)) (some (answered r))) ⊎ ⊥
    → x ≡ r
answered_shows x r (inl h) = cc
answered_shows x r (inr h) = absurd h

module _ (rt : Runtime) where
  pub refuse_run-Shows :
      (store : Store) (run : AnswerRunRecord) (reason : RefusalCode)
      (generation_id : Option Identifier) (plan_hash : Option Digest) (now n : ℕ)
      (r : AnsweredResult)
      → Shows (refuse_run rt store run reason generation_id plan_hash now n) r
      → ⊥
  unfolding refuse_run
  refuse_run-Shows store run reason generation_id plan_hash now n r h =
      elim (Result-cases
        (refuse store.runs run.id (reason_text reason) generation_id plan_hash run.revision now)) [
          | inl ((runs, row), e) ↦
              refused_shows (record { run_id = row.id; reason_code = reason }) r
                (rw (e, refuse_run) at h)
          | inr (e, k) ↦ rw (k, refuse_run) at h
        ]

module _ (rt : Runtime) (gw : Gateways) (settings : AnswerSettings) (now : ℕ) where
  complete_run-Shows :
      (store : Store) (run : AnswerRunRecord) (p : QueryPlan) (n : ℕ) (result : AnsweredResult)
      (snapshots : List (Digest × Text)) (hash : Digest) (r : AnsweredResult)
      → Shows (complete_run rt gw settings now store run p n result snapshots hash) r
      → result ≡ r
  unfolding complete_run
  complete_run-Shows store run p n result snapshots hash r h =
      elim (Result-cases (
        complete_answer store.runs (generation_ids store.generations) run.id result.generation_id
          (rt.plan_hash p) hash (rt.citation_hash result.citations) run.revision now)) [
            | inr (e, k) ↦ absurd (rw (k, complete_run) at h)
            | inl ((runs, row), k) ↦ elim (Bool-cases (row.status == AnswerRunStatus.answered)) [
              | inl b ↦ answered_shows result r (rw b at (rw (k, complete_run) at h))
              | inr b ↦ absurd (rw b at (rw (k, complete_run) at h))
            ]
          ]

  complete-Shows :
      (store : Store) (run : AnswerRunRecord) (p : QueryPlan) (n : ℕ) (result r : AnsweredResult)
      → Shows (complete rt gw settings now store run p n result) r
      → result ≡ r
  unfolding complete
  complete-Shows store run p n result r h =
      elim (Result-cases (put_snapshot rt store.snapshots result)) [
        | inr (e, k) ↦ absurd (rw (k, complete) at h)
        | inl ((snapshots, hash), k) ↦
            complete_run-Shows store run p n result snapshots hash r (rw (k, complete) at h)
      ]

  -- The checks behind a draft that was accepted.
  checked_inv :
      (draft : AnswerDraft) (evidence : List AnswerEvidence)
      (verification : CitationVerificationOutput) (lines : List Line) (cs : List AnswerCitation)
      → checked rt gw settings now draft evidence ≡ some (verification, lines, cs)
      → (gw.verify draft evidence ≡ some verification)
        × AllGrounded evidence verification.decisions 0 draft.claims
        × IsNumbered draft evidence lines cs
  unfolding checked
  checked_inv draft evidence verification lines cs h =
      elim (Option-cases (gw.verify draft evidence)) [
        | inl none_given ↦ absurd (none_some (rw (none_given, checked) at h))
        | inr (v, given) ↦ elim (Result-cases (steps v)) [
          | inr (e, k) ↦ absurd (none_some (rw (k, checked) at (rw (given, checked) at h)))
          | inl ((lines', cs'), k) ↦
              let same : ◌≡◌
                  {A = Option (CitationVerificationOutput × List Line × List AnswerCitation)}
                  (some (v, lines', cs')) (some (verification, lines, cs)) =
                rw (k, checked) at (rw (given, checked) at h) in
              let (closed, k₁) =
                then_inv
                  (validate_citation_closed_set draft evidence settings.max_answer_claims
                    settings.max_claim_characters)
                  _ k in
              let (supported, rendered) = then_inv (validate_semantic_support draft v) _ k₁ in
              accept v lines' cs' given closed supported rendered (some-injective _ _ same)
        ]
      ]
    where
      steps : CitationVerificationOutput → Result AnswerError (List Line × List AnswerCitation)
      steps v = do
        validate_citation_closed_set draft evidence settings.max_answer_claims
            settings.max_claim_characters
        validate_semantic_support draft v
        render_verified_answer draft evidence

      none_some : {A : Type 0} {a : A} → ◌≡◌ {A = Option A} none (some a) → ⊥
      none_some e = cc

      accept :
          (v : CitationVerificationOutput) (lines' : List Line) (cs' : List AnswerCitation)
          → gw.verify draft evidence ≡ some v
          → validate_citation_closed_set draft evidence settings.max_answer_claims
              settings.max_claim_characters
            ≡ ok tt
          → validate_semantic_support draft v ≡ ok tt
          → render_verified_answer draft evidence ≡ ok (lines', cs')
          → ◌≡◌ {A = CitationVerificationOutput × List Line × List AnswerCitation}
              (v, lines', cs')
              (verification, lines, cs)
          → (gw.verify draft evidence ≡ some verification)
            × AllGrounded evidence verification.decisions 0 draft.claims
            × IsNumbered draft evidence lines cs
      accept v lines' cs' given closed supported rendered same =
          let (lines₀, cs₀, r, n) =
            render-IsNumbered draft evidence settings.max_answer_claims
              settings.max_claim_characters closed in
          let v_same : v ≡ verification =
            ap (λ (t : CitationVerificationOutput × List Line × List AnswerCitation). t.0) same in
          let shown : ◌≡◌ {A = List Line × List AnswerCitation} (lines₀, cs₀) (lines, cs) =
            ok_injective (sym r ∙ rendered)
            ∙ ap (λ (t : CitationVerificationOutput × List Line × List AnswerCitation). (t.1, t.2))
                same in
          (
            given ∙ ap some v_same,
            subst (λ x. AllGrounded evidence x.decisions 0 draft.claims) v_same
                (validated_grounded draft evidence v settings.max_answer_claims
                  settings.max_claim_characters closed supported),
            subst (λ (x : List Line × List AnswerCitation). IsNumbered draft evidence x.0 x.1) shown
                n,
          )

  -- What stands behind an answer, from the evidence on.
  pub record Drafted (generation : IndexGeneration) (evidence : List AnswerEvidence)
      (r : AnsweredResult) : Type 0 where
    pub of_generation : r.generation_id ≡ generation.id
    pub draft : AnswerDraft
    pub claimed : r.claims ≡ draft.claims
    pub verification : CitationVerificationOutput
    pub verified : gw.verify draft evidence ≡ some verification
    pub grounded : AllGrounded evidence verification.decisions 0 draft.claims
    pub numbered : IsNumbered draft evidence r.answer_lines r.citations

  judge_draft-Shows :
      (store : Store) (run : AnswerRunRecord) (p : QueryPlan) (generation : IndexGeneration)
      (retrieval : RetrievalResult) (evidence : List AnswerEvidence) (n : ℕ) (draft : AnswerDraft)
      (r : AnsweredResult)
      → Shows (judge_draft rt gw settings now store run p generation retrieval evidence n draft) r
      → Drafted generation evidence r
  unfolding judge_draft
  judge_draft-Shows store run p generation retrieval evidence n draft r h =
      elim (Option-cases (checked rt gw settings now draft evidence)) [
        | inl k ↦ absurd (refuse_run-Shows rt store run _ _ _ now n r (rw (k, judge_draft) at h))
        | inr ((verification, lines, citations), k) ↦
            let result : AnsweredResult =
              verified_result run generation retrieval draft lines citations in
            let (verified, grounded, numbered) =
              checked_inv draft evidence verification lines citations k in
            let same : result ≡ r = complete-Shows store run p (suc n) result r (
              emit-Shows n AnswerEventType.verified run.id
                (complete rt gw settings now store run p (suc n) result) r
                (rw (k, judge_draft) at h)) in
            subst (Drafted generation evidence) same (record {
              of_generation = refl;
              draft = draft;
              claimed = refl;
              verification = verification;
              verified = verified;
              grounded = grounded;
              numbered = numbered;
            })
      ]

  pub answer_from-Shows :
      (store : Store) (run : AnswerRunRecord) (p : QueryPlan) (generation : IndexGeneration)
      (retrieval : RetrievalResult) (evidence : List AnswerEvidence) (n : ℕ) (r : AnsweredResult)
      → Shows (answer_from rt gw settings now store run p generation retrieval evidence n) r
      → Drafted generation evidence r
  unfolding answer_from
  answer_from-Shows store run p generation retrieval evidence n r h =
      elim (Option-cases (gw.generate p evidence)) [
        | inl k ↦ absurd (refuse_run-Shows rt store run _ _ _ now n r (rw (k, answer_from) at h))
        | inr (draft, k) ↦
            judge_draft-Shows store run p generation retrieval evidence n draft r
              (rw (k, answer_from) at h)
      ]
