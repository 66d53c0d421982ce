-- ===== src/Answer/Service/Outcomes.antt =====
-- The protocol of `TrustedAnswerService.stream` (answer/service.py).
use trustworthy_personal_kno.Prelude.{
  ℕ, suc, ◌≡◌, refl, Option, none, some, List, [], ◌∷◌, All, Text, Bool-cases, Option-cases,
  Result-cases, inl, inr, ltb, length, ◌==◌,
}
use trustworthy_personal_kno.Domain.Enums.Execution.{AnswerRunStatus, answer_run_status_eq}
use trustworthy_personal_kno.Publication.Contracts.{RetrievalResult}
use trustworthy_personal_kno.Answer.Contracts.{
  Digest, Identifier, RefusalCode, AnswerEventType, AnswerRequest, QueryPlan, AnswerEvidence,
  AnswerDraft,
}
use trustworthy_personal_kno.Answer.Runs.{AnswerRunRecord, refuse, complete_answer}
use trustworthy_personal_kno.Answer.Planning.{retrieval_query_for_plan}
use trustworthy_personal_kno.Answer.Results.{
  AnsweredResult, AnswerResult, AnswerEvent, progress, reason_text,
}
use trustworthy_personal_kno.Answer.Environment.{
  AnswerSettings, IndexGeneration, Store, Gateways, Runtime, Failure, active_generation,
  generation_ids,
}
use trustworthy_personal_kno.Answer.Sessions.{Outcome, emit, begin, refuse_run, ends, put_snapshot}
use trustworthy_personal_kno.Answer.Service.{
  checked, complete_run, complete, judge_draft, answer_from, weigh_evidence, search_for, execute,
  stream, version_missing, verified_result,
}

-- Events numbered from the given number on.
abbrev pub Numbered : ℕ → List AnswerEvent → Type 0
Numbered n [] = Unit
Numbered n (e ∷ es) = (e.event_id ≡ n) × Numbered (suc n) es

abbrev pub HasResult : Option AnswerResult → Type 0
HasResult none = ⊥
HasResult (some r) = Unit

-- The last event, and no other, has a result.
abbrev pub TerminalLast : List AnswerEvent → Type 0
TerminalLast [] = ⊥
TerminalLast (e ∷ []) = HasResult e.result
TerminalLast (e ∷ f ∷ es) = (e.result ≡ none) × TerminalLast (f ∷ es)

-- The events of a generator that ended well, or by an error.
abbrev pub Protocol : Option Failure → List AnswerEvent → Type 0
Protocol none es = TerminalLast es
Protocol (some f) es = All (λ e. e.result ≡ none) es

abbrev Stage : ℕ → Outcome → Type 0
Stage n out = Numbered n out.events × Protocol out.failure out.events

emit-Protocol :
    (f : Option Failure) (n : ℕ) (t : AnswerEventType) (id : Identifier) (es : List AnswerEvent)
    → Protocol f es
    → Protocol f (progress n t id ∷ es)
emit-Protocol none n t id [] h = absurd h
emit-Protocol none n t id (e ∷ es) h = (refl, h)
emit-Protocol (some f) n t id es h = (refl, h)

emit-Stage :
    (n : ℕ) (t : AnswerEventType) (id : Identifier) (out : Outcome)
    → Stage (suc n) out
    → Stage n (emit (progress n t id) out)
emit-Stage n t id out h = ((refl, h.0), emit-Protocol out.failure n t id out.events h.1)

module _ (rt : Runtime) where
  refuse_run-Stage :
      (store : Store) (run : AnswerRunRecord) (reason : RefusalCode)
      (generation_id : Option Identifier) (plan_hash : Option Digest) (now n : ℕ)
      → Stage n (refuse_run rt store run reason generation_id plan_hash now n)
  unfolding refuse_run
  refuse_run-Stage store run reason generation_id plan_hash now n =
      elim (Result-cases
        (refuse store.runs run.id (reason_text reason) generation_id plan_hash run.revision now)) [
          | inl ((runs, row), e) ↦ rw (e, refuse_run) ((refl, tt), tt)
          | inr (e, h) ↦ rw (h, refuse_run) (tt, tt)
        ]

module _ (rt : Runtime) (gw : Gateways) (settings : AnswerSettings) (now : ℕ) where
  complete_run-Stage :
      (store : Store) (run : AnswerRunRecord) (p : QueryPlan) (n : ℕ) (result : AnsweredResult)
      (snapshots : List (Digest × Text)) (hash : Digest)
      → Stage n (complete_run rt gw settings now store run p n result snapshots hash)
  unfolding complete_run
  complete_run-Stage store run p n result snapshots hash =
      elim (Result-cases (
        complete_answer store.runs (generation_ids store.generations) run.id result.generation_id
          (rt.plan_hash p) hash (rt.citation_hash result.citations) run.revision now)) [
            | inr (e, k) ↦ rw (k, complete_run) (tt, tt)
            | inl ((runs, row), k) ↦
                rw (k, complete_run)
                  (elim (Bool-cases (row.status == AnswerRunStatus.answered)) [
                    | inl b ↦ rw b ((refl, tt), tt)
                    | inr b ↦ rw b (tt, tt)
                  ])
          ]

  complete-Stage :
      (store : Store) (run : AnswerRunRecord) (p : QueryPlan) (n : ℕ) (result : AnsweredResult)
      → Stage n (complete rt gw settings now store run p n result)
  unfolding complete
  complete-Stage store run p n result =
      elim (Result-cases (put_snapshot rt store.snapshots result)) [
        | inr (e, h) ↦ rw (h, complete) (tt, tt)
        | inl ((snapshots, hash), h) ↦
            rw (h, complete) (complete_run-Stage store run p n result snapshots hash)
      ]

  judge_draft-Stage :
      (store : Store) (run : AnswerRunRecord) (p : QueryPlan) (generation : IndexGeneration)
      (retrieval : RetrievalResult) (evidence : List AnswerEvidence) (n : ℕ) (draft : AnswerDraft)
      → Stage n (judge_draft rt gw settings now store run p generation retrieval evidence n draft)
  unfolding judge_draft
  judge_draft-Stage store run p generation retrieval evidence n draft =
      elim (Option-cases (checked rt gw settings now draft evidence)) [
        | inl k ↦ rw (k, judge_draft) (refuse_run-Stage rt store run _ _ _ now n)
        | inr ((verification, lines, citations), k) ↦
            rw (k, judge_draft)
              (emit-Stage n _ _
                (complete rt gw settings now store run p (suc n)
                  (verified_result run generation retrieval draft lines citations))
                (complete-Stage store run p (suc n)
                  (verified_result run generation retrieval draft lines citations)))
      ]

  answer_from-Stage :
      (store : Store) (run : AnswerRunRecord) (p : QueryPlan) (generation : IndexGeneration)
      (retrieval : RetrievalResult) (evidence : List AnswerEvidence) (n : ℕ)
      → Stage n (answer_from rt gw settings now store run p generation retrieval evidence n)
  unfolding answer_from
  answer_from-Stage store run p generation retrieval evidence n =
      elim (Option-cases (gw.generate p evidence)) [
        | inl h ↦ rw (h, answer_from) (refuse_run-Stage rt store run _ _ _ now n)
        | inr (draft, h) ↦
            rw (h, answer_from)
              (judge_draft-Stage store run p generation retrieval evidence n draft)
      ]

  weigh_evidence-Stage :
      (store : Store) (run : AnswerRunRecord) (p : QueryPlan) (generation : IndexGeneration)
      (retrieval : RetrievalResult) (n : ℕ)
      → Stage n (weigh_evidence rt gw settings now store run p generation retrieval n)
  unfolding weigh_evidence
  weigh_evidence-Stage store run p generation retrieval n =
      elim (Option-cases (gw.resolve retrieval)) [
        | inl h ↦ rw (h, weigh_evidence) (refuse_run-Stage rt store run _ _ _ now n)
        | inr (evidence, h) ↦
            rw (h, weigh_evidence)
              (elim (Bool-cases (ltb (length evidence) settings.min_evidence_count)) [
                | inl few ↦ rw few (refuse_run-Stage rt store run _ _ _ now n)
                | inr enough ↦
                    rw enough
                      (elim (Bool-cases
                        (version_missing rt gw settings now p.target_version evidence)) [
                          | inl missing ↦ rw missing (refuse_run-Stage rt store run _ _ _ now n)
                          | inr there ↦
                              rw there
                                (answer_from-Stage store run p generation retrieval evidence n)
                        ])
              ])
      ]

  search_for-Stage :
      (request : AnswerRequest) (store : Store) (run : AnswerRunRecord) (p : QueryPlan) (n : ℕ)
      → Stage n (search_for rt gw settings now request store run p n)
  unfolding search_for
  search_for-Stage request store run p n =
      elim (Option-cases (active_generation store.generations)) [
        | inl h ↦ rw (h, search_for) (refuse_run-Stage rt store run _ _ _ now n)
        | inr (g, h) ↦
            rw (h, search_for)
              (elim (Option-cases
                (gw.retrieve (retrieval_query_for_plan request p now) g.id g.generation_number)) [
                  | inl k ↦ rw (k, search_for) (refuse_run-Stage rt store run _ _ _ now n)
                  | inr (retrieval, k) ↦
                      rw (k, search_for)
                        (emit-Stage n _ _
                          (weigh_evidence rt gw settings now store run p g retrieval (suc n))
                          (weigh_evidence-Stage store run p g retrieval (suc n)))
                ])
      ]

  execute-Stage :
      (request : AnswerRequest) (store : Store) (run : AnswerRunRecord) (n : ℕ)
      → Stage n (execute rt gw settings now request store run n)
  unfolding execute
  execute-Stage request store run n = elim (Option-cases (gw.plan request)) [
    | inl h ↦ rw (h, execute) (refuse_run-Stage rt store run _ _ _ now n)
    | inr (p, h) ↦
        rw (h, execute)
          (emit-Stage n _ _ (search_for rt gw settings now request store run p (suc n))
            (search_for-Stage request store run p (suc n)))
  ]

  -- Whatever the gateways return, the events are numbered from 1 on without a gap; a stream that
  -- ends without an error has exactly one event with a result, its last; and a stream that an error
  -- ends has shown no result.
  pub stream-Protocol :
      (request : AnswerRequest) (fresh : Identifier) (store : Store)
      → Numbered 1 (stream rt gw settings now request fresh store).events
        × Protocol
            (stream rt gw settings now request fresh store).failure
            (stream rt gw settings now request fresh store).events
  unfolding stream
  stream-Protocol request fresh store =
      elim (Bool-cases (ltb settings.max_question_characters (length request.question))) [
        | inl long ↦ rw long (tt, tt)
        | inr short ↦ rw short (elim (Result-cases (begin rt request fresh now store)) [
          | inr (e, h) ↦ rw (h, stream) (tt, tt)
          | inl ((store', run, known), h) ↦ rw (h, stream) (accepted store' run known)
        ])
      ]
    where
      accepted :
          (store' : Store) (run : AnswerRunRecord) (known : Option AnswerResult)
          → Stage 1 (
              emit (progress 1 AnswerEventType.accepted run.id) (elim known [
                | some result ↦ ends store' 2 result
                | none ↦ execute rt gw settings now request store' run 2
              ]))
      accepted store' run none =
          emit-Stage 1 _ _ (execute rt gw settings now request store' run 2)
            (execute-Stage request store' run 2)
      accepted store' run (some r) = ((refl, (refl, tt)), (refl, tt))
