-- ===== src/Publication/Retrieval/Examples.antt =====
-- `HybridRetriever` (publication/retrieval.py) over an index of two chunks: the version of one of
-- them is current, that of the other was replaced.
use trustworthy_personal_kno.Prelude.{
  ℕ, ◌≤◌, ◌≡◌, refl, true, false, none, some, List, [], ◌∷◌, codes, ok, All, length,
}
use trustworthy_personal_kno.Domain.Enums.Source.{Sensitivity}
use trustworthy_personal_kno.Domain.Enums.Claim.{ClaimStatus}
use trustworthy_personal_kno.Publication.Contracts.{
  KnowledgeChunk, RetrievalMode, RetrievalQuery, VectorSearchHit, RetrievalResult,
}
use trustworthy_personal_kno.Publication.Retrieval.{
  CurrentVersion, HybridRetriever, first_of_each, current_of, candidate_by_id, reordered,
  accepted_order, search, resolve_current, retrieve,
}
use trustworthy_personal_kno.Publication.Retrieval.Current.{
  IsCurrent, retrieve-AllCurrent, Marked, retrieve_marks_bm25,
}

abbrev chunk : ℕ → ℕ → ℕ → KnowledgeChunk
chunk id note version = record {
  chunk_id = id;
  note_id = note;
  curated_version_id = version;
  claim_ids = [];
  text = codes "text";
  heading_path = [];
  ordinal = 0;
  valid_from = none;
  valid_to = none;
  freshness_at = none;
  generation_id = 9;
  generation_number = 1;
  embedding_model = codes "model";
  chunker_version = codes "markdown-v1";
  content_hash = 7;
  quality_status = ClaimStatus.verified;
  sensitivity = Sensitivity.private;
}

abbrev found : List VectorSearchHit
found =
    record { chunk = chunk 100 1 11; score = 5 } ∷ record { chunk = chunk 101 2 20; score = 4 } ∷ []

abbrev versions : List (ℕ × CurrentVersion)
versions =
    (1, record { curated_version_id = 11; generation_id = 9 })
    ∷ (2, record { curated_version_id = 21; generation_id = 9 })
    ∷ []

-- The embedding raises.
abbrev retriever : HybridRetriever
retriever = record {
  embed_query = λ text. none;
  dimension = 3;
  hybrid_search = λ request. some found;
  resolve_current_versions = λ notes. some versions;
  reranker = none;
  allow_bm25_only = true;
  rrf_k = 60;
}

abbrev query : RetrievalQuery
query = record {
  text = codes "query";
  top_k = 5;
  candidate_k = 30;
  allowed_quality_statuses = ClaimStatus.verified ∷ [];
  max_sensitivity = Sensitivity.private;
  at = 0;
  allow_stale = false;
}

abbrev only_current : RetrievalResult
only_current = record {
  hits = record { chunk = chunk 100 1 11; retrieval_score = 5; rerank_score = none } ∷ [];
  mode = RetrievalMode.bm25_only;
  degraded = true;
  generation_id = 9;
}

returned : retrieve retriever query 9 4 ≡ ok only_current
unfolding retrieve first_of_each current_of candidate_by_id reordered accepted_order
returned = refl

retrieve-AllCurrent_example :
    (dense : List ℕ) × (candidates : List VectorSearchHit) × (current : List (ℕ × CurrentVersion))
    × (search retriever query 4 dense ≡ ok candidates)
    × (resolve_current retriever candidates ≡ ok current)
    × All (IsCurrent candidates current 9) only_current.hits
    × (length only_current.hits ≤ 5)
    × (only_current.generation_id ≡ 9)
retrieve-AllCurrent_example = retrieve-AllCurrent retriever query 9 4 only_current returned

retrieve_marks_bm25_example : Marked retriever query only_current
retrieve_marks_bm25_example = retrieve_marks_bm25 retriever query 9 4 only_current returned
