-- ===== src/Lib.antt =====
-- A model of the assistant's control logic: the knowledge lifecycle, the quality policy, the
-- publication of notes, retrieval, and the trusted answer service.
--
-- The program turns notes into claims, judges each claim against collected evidence, publishes the
-- trusted ones to a vault and a vector index, and answers questions from what is published. Its
-- durable state is a relational control plane: every record has a status, and statuses change only
-- along declared transitions. Paths below stand under src/trustworthy_kb/.
--
-- Prelude: texts as lists of code points, Boolean tests, lists, code that raises.
-- Domain: domain/enums.py (Enums), the errors of domain/ and persistence/ (Errors), and
--   domain/transitions.py (Machine is `can_transition` and `require_transition`; Transitions has
--   one module for each group of `_TRANSITIONS`). A series of accepted changes is a `Trace`.
-- Governance: governance/contracts.py (Contracts) and governance/quality.py, the policy that decides
--   about a claim (RiskLevels, Metrics, and Quality for `evaluate`). Scores are millionths; a
--   computed score is an exact ratio, where the source has a float.
-- Persistence: the idempotency records of persistence/audit_repository.py (Leases): who may execute
--   an operation, for how long, and what a repeated call gets; its chained operation log
--   (OperationLogs); and of persistence/publication_repository.py the promotion and the rollback of an
--   index generation (Generations), the status changes, the activation of a publication, and the
--   deletion and restoration of a note (Publications), over tables as lists of rows (Tables). The
--   promotion and the rollback have one body, up to the status that they expect of the target's jobs:
--   it is `switch_generation`.
-- Ingestion: ingestion/manifest.py and ingestion/planner.py, the plan of the changes from a scan and
--   the known documents (Planning, with `Counter` and `sorted` in Counting), and the structural diff
--   of ingestion/diff.py (Diff).
-- Publication: publication/contracts.py (Contracts), publication/retrieval.py (Retrieval),
--   publication/chunking.py, the split of a curated note into chunks (Markdown, Chunking),
--   publication/indexing.py over the port of the vector index (Indexing), and the reconciliation of
--   the control plane with the vault and the index (Reconciliation).
-- Answer: answer/contracts.py (Contracts), answer/planning.py (Planning), answer/verification.py
--   (Verification), answer/rendering.py (Rendering), answer/evidence.py (Evidence),
--   persistence/answer_repository.py over the constraints of persistence/answer_tables.py (Runs), the
--   results and events (Results), the
--   settings, the stored state and the gateways (Environment), the begin, the replay and the refusal
--   of a run (Sessions, with answer/snapshot_store.py as a map from digests to bytes), and `stream`
--   of answer/service.py (Service).
--
-- Correspondence. A generator is a function to the list of the events that it yields, the error
-- that leaves it, if any, and the store afterwards (`Outcome`). `stream` is composed of one function
-- for each stage, in the order of the source: `begin`, `execute`, `search_for`, `weigh_evidence`,
-- `answer_from`, `judge_draft`, `complete`. A unit of work that raises leaves the store as it was.
-- One reading of the clock serves a whole call. Identifiers and digests are numbers, since they are
-- only compared and, in ingestion, sorted. No function needs fuel: each loop runs over a list.
--
-- Outside of the model, and arguments of it: the model calls (planner, generator, verifier,
-- reranker), the embedding and the vector index, the hash function, JSON, Unicode case folding, and
-- the file system. No hypothesis about them is made, but for those a theorem names. `stream` takes
-- the evidence resolver as an argument too; Evidence models the one that the source gives it.
--
-- Not modelled: the text of messages and of the rendered sources, the HTTP interface, configuration
-- loading, migrations, the extraction, fetching and search of evidence, the publication saga's
-- effects, the import of documents after the plan, and the other operations of the repositories.
pub mod Prelude
pub mod Domain
pub mod Governance
pub mod Ingestion
pub mod Persistence
pub mod Publication
pub mod Answer
