-- ===== src/Publication/Retrieval.antt =====
-- publication/retrieval.py: `HybridRetriever`. The embedding, the index, the control plane and the
-- reranker are gateways: a call that raises is `none`. Vectors are lists of the numbers that stand
-- for their coordinates. A dict is an association list with one entry for each key.
pub mod Current
mod Examples
use trustworthy_personal_kno.Prelude.{
  ℕ, min, Bool, true, false, not, ◌&&◌, ◌||◌, Option, none, some, List, [], ◌∷◌, map, take, filter,
  any, all, contains, distinct, length, ◌==◌, nat_eq, or_else, if◌then◌else◌, Text, Result, ok,
  raised, ◌>>=◌, ◌>>◌, require,
}
use trustworthy_personal_kno.Publication.Contracts.{
  KnowledgeChunk, RetrievalMode, RetrievalQuery, VectorSearchHit, VectorSearchRequest, RerankItem,
  RetrievalHit, RetrievalResult,
}

pub data RetrievalError : Type 0 where
  query_embedding_failed index_search_failed control_plane_lookup_failed : RetrievalError

-- The current version of a note, and the generation that serves it.
pub record CurrentVersion : Type 0 where
  pub curated_version_id : ℕ
  pub generation_id : ℕ

abbrev pub Reranker : Type 0
Reranker = Text → List RerankItem → ℕ → Option (List RerankItem)

-- The fields of a `HybridRetriever`.
pub record HybridRetriever : Type 0 where
  pub embed_query : Text → Option (List ℕ)
  pub dimension : ℕ
  pub hybrid_search : VectorSearchRequest → Option (List VectorSearchHit)
  pub resolve_current_versions : List ℕ → Option (List (ℕ × CurrentVersion))
  pub reranker : Option Reranker
  pub allow_bm25_only : Bool
  pub rrf_k : ℕ

-- `tuple(dict.fromkeys(xs))`, given what was seen before.
pub first_of_each : List ℕ → List ℕ → List ℕ
first_of_each seen [] = []
first_of_each seen (x ∷ xs) =
    let again = first_of_each seen xs in
    let first = x ∷ first_of_each (x ∷ seen) xs in if contains seen x then again else first

abbrev pub note_ids : List VectorSearchHit → List ℕ
note_ids candidates = first_of_each [] (map (λ (h : VectorSearchHit). h.chunk.note_id) candidates)

-- `current.get(note_id)`
pub current_of : List (ℕ × CurrentVersion) → ℕ → Option CurrentVersion
current_of [] note = none
current_of ((n, v) ∷ rest) note = if n == note then some v else current_of rest note

abbrev pub serves : Option CurrentVersion → ℕ → ℕ → Bool
serves none version generation = false
serves (some v) version generation =
    v.curated_version_id == version && v.generation_id == generation

abbrev pub is_active : List (ℕ × CurrentVersion) → ℕ → VectorSearchHit → Bool
is_active current generation h =
    serves (current_of current h.chunk.note_id) h.chunk.curated_version_id generation

-- `candidate_by_id.get(chunk_id)`: the last candidate with the id.
pub candidate_by_id : List VectorSearchHit → ℕ → Option VectorSearchHit
candidate_by_id [] id = none
candidate_by_id (h ∷ hs) id =
    or_else (candidate_by_id hs id) (if h.chunk.chunk_id == id then some h else none)

abbrev pub baseline : List VectorSearchHit → List RetrievalHit
baseline = map (λ (h : VectorSearchHit). record {
  chunk = h.chunk;
  retrieval_score = h.score;
  rerank_score = none;
})

-- The hits in the order of the reranker, or `none` where it names an unknown candidate.
pub reordered : List VectorSearchHit → List RerankItem → Option (List RetrievalHit)
reordered candidates [] = some []
reordered candidates (item ∷ items) = elim (candidate_by_id candidates item.chunk_id) [
  | none ↦ none
  | some h ↦ elim (reordered candidates items) [
    | none ↦ none
    | some rest ↦ some (
        record { chunk = h.chunk; retrieval_score = h.score; rerank_score = some item.score }
        ∷ rest)
  ]
]

-- The order of the reranker, where it is an order of some of the candidates.
unfoldable pub accepted_order : List VectorSearchHit → List RerankItem → Option (List RetrievalHit)
accepted_order candidates items =
    if distinct (map (λ (i : RerankItem). i.chunk_id) items)
    then reordered candidates items
    else none

abbrev pub rerank_items : List VectorSearchHit → List RerankItem
rerank_items = map (λ (h : VectorSearchHit). record {
  chunk_id = h.chunk.chunk_id;
  text = h.chunk.text;
  score = h.score;
})

abbrev pub reranked_by :
    Reranker → RetrievalQuery → List VectorSearchHit → Option (List RetrievalHit)
reranked_by call query candidates =
    elim (call query.text (rerank_items candidates)
      (min query.candidate_k (length (rerank_items candidates)))) [
        | none ↦ none
        | some items ↦ accepted_order candidates items
      ]

-- `_rerank`: the hits, and whether they are degraded.
abbrev pub rerank :
    Option Reranker → RetrievalQuery → List VectorSearchHit → List RetrievalHit × Bool
rerank none query candidates = (baseline candidates, true)
rerank (some call) query [] = ([], false)
rerank (some call) query (h ∷ hs) = elim (reranked_by call query (h ∷ hs)) [
  | none ↦ (baseline (h ∷ hs), true)
  | some hits ↦ (hits, false)
]

module _ (retriever : HybridRetriever) where
  -- `embed_query`, and the check of its dimension.
  abbrev pub embedded : Text → Option (List ℕ)
  embedded text = elim (retriever.embed_query text) [
    | none ↦ none
    | some v ↦ if length v == retriever.dimension then some v else none
  ]

  -- The vector, the mode, and whether the mode is degraded.
  abbrev pub query_vector : Text → Result RetrievalError (List ℕ × RetrievalMode)
  query_vector text = elim (embedded text) [
    | some v ↦ ok (v, RetrievalMode.hybrid)
    | none ↦
        if retriever.allow_bm25_only
        then ok ([], RetrievalMode.bm25_only)
        else raised RetrievalError.query_embedding_failed
  ]

  abbrev pub is_bm25 : RetrievalMode → Bool
  is_bm25 RetrievalMode.hybrid = false
  is_bm25 RetrievalMode.bm25_only = true

  abbrev pub search_request : RetrievalQuery → ℕ → List ℕ → VectorSearchRequest
  search_request query number dense = record {
    query = query;
    dense = dense;
    generation_number = number;
    rrf_k = retriever.rrf_k;
  }

  abbrev pub search : RetrievalQuery → ℕ → List ℕ → Result RetrievalError (List VectorSearchHit)
  search query number dense = elim (retriever.hybrid_search (search_request query number dense)) [
    | none ↦ raised RetrievalError.index_search_failed
    | some candidates ↦ ok candidates
  ]

  -- `_resolve_current`
  abbrev pub resolve_current :
      List VectorSearchHit → Result RetrievalError (List (ℕ × CurrentVersion))
  resolve_current [] = ok []
  resolve_current (h ∷ hs) = elim (retriever.resolve_current_versions (note_ids (h ∷ hs))) [
    | none ↦ raised RetrievalError.control_plane_lookup_failed
    | some values ↦ ok values
  ]

  -- The candidates that the control plane serves, ranked, and the first of them.
  abbrev pub served :
      RetrievalQuery
      → ℕ
      → RetrievalMode
      → List VectorSearchHit
      → List (ℕ × CurrentVersion)
      → RetrievalResult
  served query generation_id mode candidates current =
      let (ranked, degraded) =
        rerank retriever.reranker query (filter (is_active current generation_id) candidates) in
      record {
        hits = take query.top_k ranked;
        mode = mode;
        degraded = is_bm25 mode || degraded;
        generation_id = generation_id;
      }

  -- `retrieve`
  unfoldable pub retrieve : RetrievalQuery → ℕ → ℕ → Result RetrievalError RetrievalResult
  retrieve query generation_id number = do
    (dense, mode) ← query_vector query.text
    candidates ← search query number dense
    current ← resolve_current candidates
    ok (served query generation_id mode candidates current)
