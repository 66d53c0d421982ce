-- ===== src/Publication/Reconciliation.antt =====
-- publication/reconciliation.py: `PublicationReconciler`, over the ports of publication/ports.py. The
-- vault is a read that returns the version of the note, or `none` where it raises.
pub mod Settling
mod Examples
use trustworthy_personal_kno.Prelude.{
  ℕ, Bool, true, false, not, Option, none, some, List, [], ◌∷◌, map, filter, contains, ◌==◌, nat_eq,
  if◌then◌else◌, Text,
}
use trustworthy_personal_kno.Publication.Contracts.{
  KnowledgeChunk, IndexProbe, ReconciliationSeverity, healthy, repairable, blocked,
  ExpectedPublication, FindingCode, vault_verification_failed, index_verification_failed,
  publication_healthy, index_drift, index_repair_failed, index_repaired, ReconciliationFinding,
}
use trustworthy_personal_kno.Publication.Indexing.{
  VectorIndex, Embedding, same_probes, probe_of, chunk_ids, index_chunks,
}

-- `_finding`
abbrev pub finding :
    ExpectedPublication → FindingCode → ReconciliationSeverity → Bool → ReconciliationFinding
finding p code severity repaired = record {
  code = code;
  severity = severity;
  note_id = p.artifact.note_id;
  curated_version_id = p.artifact.curated_version_id;
  relative_path = p.final_relative_path;
  repaired = repaired;
}

-- The fields of a `PublicationReconciler`; the digest and the path name the note in the vault.
pub record Reconciler (S : Type 0) : Type 0 where
  pub verify : Text → ℕ → Option (Option ℕ)
  pub index : VectorIndex S
  pub embedding : Embedding
  pub repair_index : Bool

abbrev is_version : ℕ → Option (Option ℕ) → Bool
is_version v none = false
is_version v (some none) = false
is_version v (some (some n)) = n == v

module _ {S : Type 0} (r : Reconciler S) where
  -- `_verify_vault`: whether it verifies.
  abbrev pub vault_verified : ExpectedPublication → Bool
  vault_verified p =
      is_version p.artifact.curated_version_id
        (r.verify p.final_relative_path p.artifact.content_hash)

  abbrev pub list_probes : S → ExpectedPublication → Option (List IndexProbe)
  list_probes s p =
      r.index.list_probes_for_version s p.generation_number p.artifact.curated_version_id

  abbrev pub as_expected : ExpectedPublication → List IndexProbe → Bool
  as_expected p probes = same_probes probes (map probe_of p.chunks)

  abbrev pub unexpected_ids : ExpectedPublication → List IndexProbe → List ℕ
  unexpected_ids p probes =
      filter (λ n. not (contains (chunk_ids p.chunks) n))
        (map (λ (q : IndexProbe). q.chunk_id) probes)

  abbrev pub converged : ExpectedPublication → Option (List IndexProbe) → ReconciliationFinding
  converged p none = finding p index_repair_failed blocked false
  converged p (some probes) =
      if as_expected p probes
      then finding p index_repaired repairable true
      else finding p index_repair_failed blocked false

  abbrev pub after_index : ExpectedPublication → S × Option ℕ → S × ReconciliationFinding
  after_index p (s, none) = (s, finding p index_repair_failed blocked false)
  after_index p (s, some n) = (s, converged p (list_probes s p))

  abbrev pub after_delete : ExpectedPublication → S × Bool → S × ReconciliationFinding
  after_delete p (s, false) = (s, finding p index_repair_failed blocked false)
  after_delete p (s, true) = after_index p (index_chunks r.index r.embedding s p.chunks)

  abbrev pub delete_unexpected : S → ExpectedPublication → List ℕ → S × Bool
  delete_unexpected s p [] = (s, true)
  delete_unexpected s p (n ∷ ns) = r.index.delete_chunks s p.generation_number (n ∷ ns)

  abbrev pub on_probes :
      S → ExpectedPublication → Option (List IndexProbe) → S × ReconciliationFinding
  on_probes s p none = (s, finding p index_verification_failed blocked false)
  on_probes s p (some probes) =
      if as_expected p probes
      then (s, finding p publication_healthy healthy false)
      else if r.repair_index
      then after_delete p (delete_unexpected s p (unexpected_ids p probes))
      else (s, finding p index_drift repairable false)

  -- `_verify_index`
  unfoldable pub verify_index : S → ExpectedPublication → S × ReconciliationFinding
  verify_index s p = on_probes s p (list_probes s p)

  -- One round of the loop of `reconcile`.
  unfoldable pub reconcile_one : S → ExpectedPublication → S × ReconciliationFinding
  unfolding verify_index
  reconcile_one s p =
      if vault_verified p
      then verify_index s p
      else (s, finding p vault_verification_failed blocked false)

  -- `PublicationReconciler.reconcile`: the findings of the report, and the state of the index.
  unfoldable pub reconcile : S → List ExpectedPublication → S × List ReconciliationFinding
  unfolding reconcile_one
  reconcile s [] = (s, [])
  reconcile s (p ∷ ps) =
      let (s', found) = reconcile_one s p in
      let (s'', rest) = reconcile s' ps in (s'', found ∷ rest)

-- `ReconciliationReport.blocked`
abbrev pub is_blocked : ReconciliationSeverity → Bool
is_blocked blocked = true
is_blocked _ = false
