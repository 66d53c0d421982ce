-- ===== src/Publication/Reconciliation/Examples.antt =====
-- A drifted index of one publication that is repaired (publication/reconciliation.py). The index is
-- the list of its probes.
use trustworthy_personal_kno.Prelude.{
  ◌≡◌, refl, true, false, not, none, some, List, [], ◌∷◌, ◌++◌, map, filter, contains, codes, ◌==◌,
  nat_eq,
}
use trustworthy_personal_kno.Domain.Enums.Source.{Sensitivity}
use trustworthy_personal_kno.Domain.Enums.Claim.{ClaimStatus}
use trustworthy_personal_kno.Publication.Contracts.{
  KnowledgeChunk, IndexedChunk, IndexProbe, healthy, blocked, publication_healthy, index_repaired,
  repairable, vault_verification_failed, ExpectedPublication,
}
use trustworthy_personal_kno.Publication.Indexing.{VectorIndex, probe_of, index_chunks}
use trustworthy_personal_kno.Publication.Reconciliation.{
  Reconciler, finding, vault_verified, list_probes, verify_index, reconcile_one,
}
use trustworthy_personal_kno.Publication.Reconciliation.Settling.{IsSettled, round_settles}

abbrev probes_index : VectorIndex (List IndexProbe)
probes_index = record {
  ensure_generation = λ s n d. (s, true);
  upsert = λ s n ks. (s ++ map (λ (k : IndexedChunk). probe_of k.chunk) ks, true);
  fetch_probes = λ s n ids. some (filter (λ (q : IndexProbe). contains ids q.chunk_id) s);
  delete_chunks = λ s n ids. (filter (λ (q : IndexProbe). not (contains ids q.chunk_id)) s, true);
  list_probes_for_version =
      λ s n v. some (filter (λ (q : IndexProbe). q.curated_version_id == v) s);
}

abbrev reconciler : Reconciler (List IndexProbe)
reconciler = record {
  verify = λ path digest. some (some 11);
  index = probes_index;
  embedding = record {
    model_name = codes "m";
    dimension = 1;
    embed_documents = λ ts. some (map (λ t. 1 ∷ []) ts);
  };
  repair_index = true;
}

abbrev chunk : KnowledgeChunk
chunk = record {
  chunk_id = 100;
  note_id = 1;
  curated_version_id = 11;
  claim_ids = 5 ∷ [];
  text = codes "text";
  heading_path = [];
  ordinal = 0;
  quality_status = ClaimStatus.verified;
  sensitivity = Sensitivity.private;
  valid_from = none;
  valid_to = none;
  freshness_at = none;
  generation_id = 9;
  generation_number = 1;
  embedding_model = codes "m";
  chunker_version = codes "v1";
  content_hash = 7;
}

abbrev publication : ExpectedPublication
publication = record {
  artifact = record {
    note_id = 1;
    curated_version_id = 11;
    body_markdown = codes "text";
    claim_ids = 5 ∷ [];
    content_hash = 7;
  };
  final_relative_path = codes "notes/a.md";
  generation_number = 1;
  chunks = chunk ∷ [];
}

-- A chunk of the version that should not be there.
abbrev drifted : List IndexProbe
drifted = record { chunk_id = 101; curated_version_id = 11; content_hash = 6 } ∷ []

repairs :
    reconcile_one reconciler drifted publication
    ≡ (probe_of chunk ∷ [], finding publication index_repaired repairable true)
unfolding reconcile_one verify_index index_chunks
repairs = refl

round_settles_example :
    (vault_verified reconciler publication ≡ false
      → reconcile_one reconciler drifted publication
        ≡ (drifted, finding publication vault_verification_failed blocked false))
    × (list_probes reconciler drifted publication ≡ none
        → ((reconcile_one reconciler drifted publication).0 ≡ drifted)
          × ((reconcile_one reconciler drifted publication).1.severity ≡ blocked))
    × (reconciler.repair_index ≡ false → (reconcile_one reconciler drifted publication).0 ≡ drifted)
    × ((reconcile_one reconciler drifted publication).1.severity ≡ healthy
        → (reconcile_one reconciler drifted publication).0 ≡ drifted)
    × (IsSettled reconciler publication (reconcile_one reconciler drifted publication).1
        → reconcile_one reconciler (reconcile_one reconciler drifted publication).0 publication ≡ (
          (reconcile_one reconciler drifted publication).0,
          finding publication publication_healthy healthy false,
        ))
round_settles_example = round_settles reconciler publication drifted
