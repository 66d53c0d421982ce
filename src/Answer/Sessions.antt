-- ===== src/Answer/Sessions.antt =====
-- answer/service.py: how a run begins, is replayed, and is refused. The snapshot store is
-- answer/snapshot_store.py without its file system: a map from digests to the bytes written.
use trustworthy_personal_kno.Prelude.{
  ℕ, ◌&&◌, Option, none, some, List, [], ◌∷◌, leb, ◌==◌, nat_eq, text_eq, length, if◌then◌else◌,
  Text, Result, ok, raised, ◌>>=◌, ◌>>◌, require,
}
use trustworthy_personal_kno.Domain.Enums.Publication.{index_generation_status_eq}
use trustworthy_personal_kno.Domain.Enums.Execution.{AnswerRunStatus, answer_run_status_eq}
use trustworthy_personal_kno.Answer.Contracts.{Digest, Identifier, RefusalCode, AnswerRequest}
use trustworthy_personal_kno.Answer.Runs.{AnswerRunRecord, find_run, add_run, refuse}
use trustworthy_personal_kno.Answer.Results.{
  AnsweredResult, AnswerResult, AnswerEvent, reason_text, parse_reason, terminal_event, answered,
  refused,
}
use trustworthy_personal_kno.Answer.Environment.{
  Store, Runtime, Failure, find_snapshot, stored_scope, lift_error, or_raise, is_generation, stored,
  operation_reused, missing_snapshot_hash, lineage_changed, missing_reason, invalid_reason,
  snapshot_too_large, snapshot_conflict, snapshot_unavailable, snapshot_invalid,
}

-- The result of running the generator to its end: the events that it yielded, the error that left
-- it, if any, and the store afterwards.
pub record Outcome : Type 0 where
  pub store : Store
  pub events : List AnswerEvent
  pub failure : Option Failure

abbrev pub emit : AnswerEvent → Outcome → Outcome
emit event out = record out { events = event ∷ out.events }

abbrev pub fails : Store → Failure → Outcome
fails store failure = record { store = store; events = []; failure = some failure }

abbrev pub ends : Store → ℕ → AnswerResult → Outcome
ends store event_id result = record {
  store = store;
  events = terminal_event event_id result ∷ [];
  failure = none;
}

module _ (rt : Runtime) where
  -- `AnswerSnapshotStore.put` and `.get`.
  unfoldable pub put_snapshot :
      List (Digest × Text) → AnsweredResult → Result Failure (List (Digest × Text) × Digest)
  put_snapshot snapshots r = do
    let raw = rt.write r
    let hash = rt.answer_hash r
    require (leb (length raw) rt.max_bytes) snapshot_too_large
    elim (find_snapshot snapshots hash) [
      | none ↦ ok ((hash, raw) ∷ snapshots, hash)
      | some old ↦ if old == raw then ok (snapshots, hash) else raised snapshot_conflict
    ]

  unfoldable pub get_snapshot : List (Digest × Text) → Digest → Result Failure AnsweredResult
  get_snapshot snapshots hash = do
    raw ← or_raise (find_snapshot snapshots hash) snapshot_unavailable
    require (leb (length raw) rt.max_bytes) snapshot_too_large
    r ← or_raise (rt.read raw) snapshot_invalid
    require (rt.answer_hash r == hash) snapshot_invalid
    ok r

  -- The result of a run that has ended.
  pub replay_answered : List (Digest × Text) → AnswerRunRecord → Result Failure AnswerResult
  replay_answered snapshots run = do
    hash ← or_raise run.answer_hash missing_snapshot_hash
    r ← get_snapshot snapshots hash
    require (r.run_id == run.id && is_generation run.generation_id r.generation_id) lineage_changed
    ok (answered r)

  unfoldable pub replay_as :
      AnswerRunStatus
      → List (Digest × Text)
      → AnswerRunRecord
      → Result Failure (Option AnswerResult)
  replay_as AnswerRunStatus.in_progress snapshots run = ok none
  replay_as AnswerRunStatus.answered snapshots run = do
    r ← replay_answered snapshots run
    ok (some r)
  replay_as AnswerRunStatus.refused snapshots run = do
    text ← or_raise run.refusal_code missing_reason
    reason ← or_raise (parse_reason text) invalid_reason
    ok (some (refused (record { run_id = run.id; reason_code = reason })))
  replay_as AnswerRunStatus.failed snapshots run =
      ok (some (refused (record { run_id = run.id; reason_code = RefusalCode.policy_blocked })))

  -- `_replay`
  abbrev pub replay : List (Digest × Text) → AnswerRunRecord → Result Failure (Option AnswerResult)
  replay snapshots run = replay_as run.status snapshots run

  abbrev pub operation_of : AnswerRequest → Identifier → Text
  operation_of request fresh = elim (request.operation_id) [
    | none ↦ rt.operation_id_for (rt.question_hash request) fresh
    | some id ↦ id
  ]

  abbrev pub new_run : AnswerRequest → Identifier → ℕ → AnswerRunRecord
  new_run request fresh now = record {
    id = fresh;
    operation_id = operation_of request fresh;
    question_hash = rt.question_hash request;
    plan_hash = none;
    scope = stored_scope request.scope;
    generation_id = none;
    status = AnswerRunStatus.in_progress;
    refusal_code = none;
    answer_hash = none;
    citation_manifest_hash = none;
    revision = 1;
    started_at = now;
    completed_at = none;
  }

  -- `_begin`; `fresh` is the id that `AnswerRunId.generate()` returned.
  unfoldable pub begin :
      AnswerRequest
      → Identifier
      → ℕ
      → Store
      → Result Failure (Store × AnswerRunRecord × Option AnswerResult)
  begin request fresh now store = elim (find_run store.runs (operation_of request fresh)) [
    | some existing ↦ do
      require (existing.question_hash == rt.question_hash request) operation_reused
      result ← replay store.snapshots existing
      ok (store, existing, result)
    | none ↦ do
      runs ← lift_error (add_run store.runs (new_run request fresh now))
      ok (record store { runs = runs }, new_run request fresh now, none)
  ]

  -- `_refuse`, and the terminal event behind it.
  unfoldable pub refuse_run :
      Store → AnswerRunRecord → RefusalCode → Option Identifier → Option Digest → ℕ → ℕ → Outcome
  refuse_run store run reason generation_id plan_hash now event_id =
      elim (refuse store.runs run.id (reason_text reason) generation_id plan_hash run.revision
        now) [
          | raised e ↦ fails store (stored e)
          | ok (runs, row) ↦
              ends (record store { runs = runs }) event_id
                (refused (record { run_id = row.id; reason_code = reason }))
        ]
