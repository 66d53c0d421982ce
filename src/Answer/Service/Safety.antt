-- ===== src/Answer/Service/Safety.antt =====
-- An answer that `TrustedAnswerService.stream` (answer/service.py) shows is grounded in evidence.
use trustworthy_personal_kno.Prelude.{
  nat_eq, ℕ, suc, ◌≤◌, ◌≡◌, sym, ap, ◌∙◌, subst, true, false, Option, none, some, List, ok, arith,
  Bool-cases, Option-cases, Result-cases, inl, inr, ◌⊎◌, ltb, length, ◌==◌, bind_inv, require_inv,
  ok_injective,
}
use trustworthy_personal_kno.Domain.Enums.Execution.{answer_run_status_eq}
use trustworthy_personal_kno.Publication.Contracts.{RetrievalResult}
use trustworthy_personal_kno.Answer.Contracts.{
  Identifier, AnswerEventType, AnswerRequest, QueryPlan, AnswerEvidence, AnswerDraft,
  CitationVerificationOutput,
}
use trustworthy_personal_kno.Answer.Runs.{AnswerRunRecord, find_run, add_run}
use trustworthy_personal_kno.Answer.Planning.{retrieval_query_for_plan}
use trustworthy_personal_kno.Answer.Rendering.Numbering.{IsNumbered}
use trustworthy_personal_kno.Answer.Verification.Grounding.{AllGrounded}
use trustworthy_personal_kno.Answer.Results.{AnsweredResult, AnswerResult, answered}
use trustworthy_personal_kno.Answer.Environment.{
  AnswerSettings, IndexGeneration, Store, Gateways, Runtime, lift_error, active_generation,
}
use trustworthy_personal_kno.Answer.Sessions.{Outcome, begin, replay, operation_of, new_run, ends}
use trustworthy_personal_kno.Answer.Service.{
  weigh_evidence, search_for, execute, stream, version_missing,
}
use trustworthy_personal_kno.Answer.Service.Drafts.{
  Shows, emit-Shows, refuse_run-Shows, Drafted, answer_from-Shows,
}

-- What `begin` returns.
abbrev Began : Type 0
Began = Store × AnswerRunRecord × Option AnswerResult

-- What stands behind an answer: the active generation, the plan, the hits and the evidence that the
-- gateways gave, a draft whose claims are those of the answer, and the decisions on them.
pub record IsTrusted (rt : Runtime) (gw : Gateways) (settings : AnswerSettings) (now : ℕ)
    (request : AnswerRequest) (generations : List IndexGeneration) (r : AnsweredResult)
    : Type 0 where
  pub generation : IndexGeneration
  pub active : active_generation generations ≡ some generation
  pub of_generation : r.generation_id ≡ generation.id
  pub plan : QueryPlan
  pub planned : gw.plan request ≡ some plan
  pub retrieval : RetrievalResult
  pub retrieved :
      gw.retrieve
        (retrieval_query_for_plan request plan now)
        generation.id
        generation.generation_number
      ≡ some retrieval
  pub evidence : List AnswerEvidence
  pub resolved : gw.resolve retrieval ≡ some evidence
  pub enough : settings.min_evidence_count ≤ length evidence
  pub versioned : version_missing rt gw settings now plan.target_version evidence ≡ false
  pub draft : AnswerDraft
  pub claimed : r.claims ≡ draft.claims
  pub verification : CitationVerificationOutput
  pub verified : gw.verify draft evidence ≡ some verification
  pub grounded : AllGrounded evidence verification.decisions 0 draft.claims
  pub numbered : IsNumbered draft evidence r.answer_lines r.citations

ltb-le : (a b : ℕ) → ltb a b ≡ false → b ≤ a
ltb-le a b h = ground arith

module _ (rt : Runtime) (gw : Gateways) (settings : AnswerSettings) (now : ℕ) where
  -- What stands behind an answer, from the hits on.
  record Evidenced (p : QueryPlan) (generation : IndexGeneration) (retrieval : RetrievalResult)
      (r : AnsweredResult) : Type 0 where
    evidence : List AnswerEvidence
    resolved : gw.resolve retrieval ≡ some evidence
    enough : settings.min_evidence_count ≤ length evidence
    versioned : version_missing rt gw settings now p.target_version evidence ≡ false
    drafted : Drafted rt gw settings now generation evidence r

  weigh_evidence-Shows :
      (store : Store) (run : AnswerRunRecord) (p : QueryPlan) (generation : IndexGeneration)
      (retrieval : RetrievalResult) (n : ℕ) (r : AnsweredResult)
      → Shows (weigh_evidence rt gw settings now store run p generation retrieval n) r
      → Evidenced p generation retrieval r
  unfolding weigh_evidence
  weigh_evidence-Shows store run p generation retrieval n r h =
      elim (Option-cases (gw.resolve retrieval)) [
        | inl k ↦ absurd (refuse_run-Shows rt store run _ _ _ now n r (rw (k, weigh_evidence) at h))
        | inr (evidence, k) ↦
            elim (Bool-cases (ltb (length evidence) settings.min_evidence_count)) [
              | inl few ↦ absurd (
                  refuse_run-Shows rt store run _ _ _ now n r
                    (rw few at (rw (k, weigh_evidence) at h)))
              | inr enough ↦
                  elim (Bool-cases (version_missing rt gw settings now p.target_version evidence)) [
                    | inl missing ↦ absurd (
                        refuse_run-Shows rt store run _ _ _ now n r
                          (rw missing at (rw enough at (rw (k, weigh_evidence) at h))))
                    | inr there ↦ record {
                      evidence = evidence;
                      resolved = k;
                      enough = ltb-le (length evidence) settings.min_evidence_count enough;
                      versioned = there;
                      drafted =
                          answer_from-Shows rt gw settings now store run p generation retrieval
                            evidence n r (rw there at (rw enough at (rw (k, weigh_evidence) at h)));
                    }
                  ]
            ]
      ]

  search_for-Shows :
      (request : AnswerRequest) (store : Store) (run : AnswerRunRecord) (p : QueryPlan) (n : ℕ)
      (r : AnsweredResult)
      → gw.plan request ≡ some p
      → Shows (search_for rt gw settings now request store run p n) r
      → IsTrusted rt gw settings now request store.generations r
  unfolding search_for
  search_for-Shows request store run p n r planned h =
      elim (Option-cases (active_generation store.generations)) [
        | inl k ↦ absurd (refuse_run-Shows rt store run _ _ _ now n r (rw (k, search_for) at h))
        | inr (g, k) ↦
            elim (Option-cases
              (gw.retrieve (retrieval_query_for_plan request p now) g.id g.generation_number)) [
                | inl m ↦ absurd (
                    refuse_run-Shows rt store run _ _ _ now n r
                      (rw (m, search_for) at (rw (k, search_for) at h)))
                | inr (retrieval, m) ↦
                    let e : Evidenced p g retrieval r =
                      weigh_evidence-Shows store run p g retrieval (suc n) r (
                        emit-Shows n AnswerEventType.retrieved run.id
                          (weigh_evidence rt gw settings now store run p g retrieval (suc n)) r
                          (rw (m, search_for) at (rw (k, search_for) at h))) in
                    record {
                      generation = g;
                      active = k;
                      of_generation = e.drafted.of_generation;
                      plan = p;
                      planned = planned;
                      retrieval = retrieval;
                      retrieved = m;
                      evidence = e.evidence;
                      resolved = e.resolved;
                      enough = e.enough;
                      versioned = e.versioned;
                      draft = e.drafted.draft;
                      claimed = e.drafted.claimed;
                      verification = e.drafted.verification;
                      verified = e.drafted.verified;
                      grounded = e.drafted.grounded;
                      numbered = e.drafted.numbered;
                    }
              ]
      ]

  execute-Shows :
      (request : AnswerRequest) (store : Store) (run : AnswerRunRecord) (n : ℕ) (r : AnsweredResult)
      → Shows (execute rt gw settings now request store run n) r
      → IsTrusted rt gw settings now request store.generations r
  unfolding execute
  execute-Shows request store run n r h = elim (Option-cases (gw.plan request)) [
    | inl k ↦ absurd (refuse_run-Shows rt store run _ _ _ now n r (rw (k, execute) at h))
    | inr (p, k) ↦ search_for-Shows request store run p (suc n) r k (
        emit-Shows n AnswerEventType.planned run.id
          (search_for rt gw settings now request store run p (suc n)) r (rw (k, execute) at h))
  ]

  -- A run that begins is the stored one of the operation, or it is new.
  begin_inv :
      (request : AnswerRequest) (fresh : Identifier) (store store' : Store) (run : AnswerRunRecord)
      (known : Option AnswerResult)
      → begin rt request fresh now store ≡ ok (store', run, known)
      → ((find_run store.runs (operation_of rt request fresh) ≡ some run)
          × (run.question_hash == rt.question_hash request ≡ true)
          × (replay rt store.snapshots run ≡ ok known)
          × (store.generations ≡ store'.generations))
        ⊎ ((known ≡ none) × (store.generations ≡ store'.generations))
  unfolding begin
  begin_inv request fresh store store' run known h =
      elim (Option-cases (find_run store.runs (operation_of rt request fresh))) [
        | inl k ↦
            let (runs, added, same) =
              bind_inv (lift_error (add_run store.runs (new_run rt request fresh now))) _
                (rw (k, begin) at h) in
            let e = ok_injective same in
            inr (sym (ap (λ (t : Began). t.2) e), ap (λ (t : Began). t.0.generations) e)
        | inr (existing, k) ↦
            let (asked, h₁) =
              require_inv (existing.question_hash == rt.question_hash request) _ _
                (rw (k, begin) at h) in
            let (result, replayed, same) = bind_inv (replay rt store.snapshots existing) _ h₁ in
            let e = ok_injective same in
            inl (
              k ∙ ap (λ (t : Began). some t.1) e,
              subst (λ (t : Began). t.1.question_hash == rt.question_hash request ≡ true) e asked,
              subst (λ (t : Began). replay rt store.snapshots t.1 ≡ ok t.2) e replayed,
              ap (λ (t : Began). t.0.generations) e,
            )
      ]

  -- Every answer that a stream shows is trusted, or it is the stored answer of the run that the
  -- operation began earlier with the same question. Trusted means: it belongs to the active
  -- generation, rests on at least the configured number of pieces of evidence for the retrieved
  -- hits, one of which names the version asked for, each of its claims is supported by a decision
  -- on chunks of this evidence that the claim cites, and its citations are numbered from 1 and repeat
  -- the lineage of the evidence.
  pub stream_answers-IsTrusted :
      (request : AnswerRequest) (fresh : Identifier) (store : Store) (r : AnsweredResult)
      → Shows (stream rt gw settings now request fresh store) r
      → ((run : AnswerRunRecord) × (find_run store.runs (operation_of rt request fresh) ≡ some run)
          × (run.question_hash == rt.question_hash request ≡ true)
          × (replay rt store.snapshots run ≡ ok (some (answered r))))
        ⊎ IsTrusted rt gw settings now request store.generations r
  unfolding stream
  stream_answers-IsTrusted request fresh store r h =
      elim (Bool-cases (ltb settings.max_question_characters (length request.question))) [
        | inl long ↦ absurd (rw (long, stream) at h)
        | inr short ↦ elim (Result-cases (begin rt request fresh now store)) [
          | inr (e, k) ↦ absurd (rw (k, short, stream) at h)
          | inl ((store', run, known), k) ↦ known-Shows store' run known k (
              emit-Shows 1 AnswerEventType.accepted run.id (rest store' run known) r
                (rw (k, short, stream) at h))
        ]
      ]
    where
      rest : Store → AnswerRunRecord → Option AnswerResult → Outcome
      rest store' run known = elim known [
        | some result ↦ ends store' 2 result
        | none ↦ execute rt gw settings now request store' run 2
      ]

      known-Shows :
          (store' : Store) (run : AnswerRunRecord) (known : Option AnswerResult)
          → begin rt request fresh now store ≡ ok (store', run, known)
          → Shows (rest store' run known) r
          → ((run : AnswerRunRecord) × (find_run store.runs (operation_of rt request fresh)
                ≡ some run)
              × (run.question_hash == rt.question_hash request ≡ true)
              × (replay rt store.snapshots run ≡ ok (some (answered r))))
            ⊎ IsTrusted rt gw settings now request store.generations r
      known-Shows store' run none k shown =
          let same : store.generations ≡ store'.generations =
            elim (begin_inv request fresh store store' run none k) [
              | inl (a, b, c, e) ↦ e
              | inr (a, e) ↦ e
            ] in
          inr (
            subst (λ gs. IsTrusted rt gw settings now request gs r) (sym same)
              (execute-Shows request store' run 2 r shown))
      known-Shows store' run (some result) k (inr none_shown) = absurd none_shown
      known-Shows store' run (some result) k (inl shown) =
          elim (begin_inv request fresh store store' run (some result) k) [
            | inl (found, asked, replayed, e) ↦ inl (run, found, asked, replayed ∙ ap ok shown)
            | inr (impossible, e) ↦ cc
          ]
