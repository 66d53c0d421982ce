-- ===== src/Publication/Indexing.antt =====
-- publication/indexing.py: `GenerationIndexer`, over the ports of publication/ports.py. The index is
-- a state of its own: a write returns the state afterwards, and whether it returned or raised; a
-- read that raises is `none`. Vectors are lists of the numbers that stand for their coordinates.
use trustworthy_personal_kno.Prelude.{
  ℕ, Bool, true, false, ◌&&◌, Option, none, some, List, [], ◌∷◌, map, any, all, length, ◌==◌,
  nat_eq, text_eq, if◌then◌else◌, Text,
}
use trustworthy_personal_kno.Publication.Contracts.{KnowledgeChunk, IndexedChunk, IndexProbe}

-- `VectorIndexGateway`, the operations that indexing and reconciliation call.
pub record VectorIndex (S : Type 0) : Type 0 where
  pub ensure_generation : S → ℕ → ℕ → S × Bool
  pub upsert : S → ℕ → List IndexedChunk → S × Bool
  pub fetch_probes : S → ℕ → List ℕ → Option (List IndexProbe)
  pub delete_chunks : S → ℕ → List ℕ → S × Bool
  pub list_probes_for_version : S → ℕ → ℕ → Option (List IndexProbe)

-- `EmbeddingGateway`
pub record Embedding : Type 0 where
  pub model_name : Text
  pub dimension : ℕ
  pub embed_documents : List Text → Option (List (List ℕ))

abbrev pub same_probe : IndexProbe → IndexProbe → Bool
same_probe p q =
    p.chunk_id == q.chunk_id
    && (p.curated_version_id == q.curated_version_id && p.content_hash == q.content_hash)

-- Equality of the sets of identities.
abbrev pub same_probes : List IndexProbe → List IndexProbe → Bool
same_probes ps qs =
    all (λ p. any (same_probe p) qs) ps && all (λ q. any (λ p. same_probe p q) ps) qs

-- The identity of a chunk, as a probe shows it.
abbrev pub probe_of : KnowledgeChunk → IndexProbe
probe_of k = record {
  chunk_id = k.chunk_id;
  curated_version_id = k.curated_version_id;
  content_hash = k.content_hash;
}

abbrev pub chunk_ids : List KnowledgeChunk → List ℕ
chunk_ids = map (λ (k : KnowledgeChunk). k.chunk_id)

-- All of one generation, and embedded by this model.
abbrev pub is_uniform : Text → KnowledgeChunk → List KnowledgeChunk → Bool
is_uniform model first chunks =
    all
      (λ (k : KnowledgeChunk).
        k.generation_number == first.generation_number
        && (k.generation_id == first.generation_id && k.embedding_model == model))
      chunks

abbrev zip_dense : List KnowledgeChunk → List (List ℕ) → List IndexedChunk
zip_dense [] vs = []
zip_dense (k ∷ ks) [] = []
zip_dense (k ∷ ks) (v ∷ vs) = record { chunk = k; dense = v } ∷ zip_dense ks vs

module _ {S : Type 0} (index : VectorIndex S) (embedding : Embedding) where
  -- The state of the index, and the number returned, if the call did not raise.
  abbrev pub Outcome : Type 0
  Outcome = S × Option ℕ

  abbrev read_back : List KnowledgeChunk → Option (List IndexProbe) → Option ℕ
  read_back chunks none = none
  read_back chunks (some probes) =
      if same_probes probes (map probe_of chunks) && length probes == length chunks
      then some (length chunks)
      else none

  abbrev written_to : ℕ → List KnowledgeChunk → S × Bool → Outcome
  written_to generation chunks (s, false) = (s, none)
  written_to generation chunks (s, true) =
      (s, read_back chunks (index.fetch_probes s generation (chunk_ids chunks)))

  abbrev embedded : S → ℕ → List KnowledgeChunk → Option (List (List ℕ)) → Outcome
  embedded s generation chunks none = (s, none)
  embedded s generation chunks (some vectors) =
      if length vectors == length chunks && all (λ v. length v == embedding.dimension) vectors
      then written_to generation chunks (index.upsert s generation (zip_dense chunks vectors))
      else (s, none)

  abbrev ensured : ℕ → List KnowledgeChunk → S × Bool → Outcome
  ensured generation chunks (s, false) = (s, none)
  ensured generation chunks (s, true) =
      embedded s generation chunks
        (embedding.embed_documents (map (λ (k : KnowledgeChunk). k.text) chunks))

  -- `GenerationIndexer.index`
  unfoldable pub index_chunks : S → List KnowledgeChunk → Outcome
  index_chunks s [] = (s, none)
  index_chunks s (k ∷ ks) =
      if is_uniform embedding.model_name k (k ∷ ks)
      then ensured k.generation_number (k ∷ ks)
          (index.ensure_generation s k.generation_number embedding.dimension)
      else (s, none)

  abbrev gone : ℕ → Option (List IndexProbe) → Option ℕ
  gone n none = none
  gone n (some []) = some n
  gone n (some (p ∷ ps)) = none

  abbrev deleted_from : ℕ → List KnowledgeChunk → S × Bool → Outcome
  deleted_from generation chunks (s, false) = (s, none)
  deleted_from generation chunks (s, true) =
      (s, gone (length chunks) (index.fetch_probes s generation (chunk_ids chunks)))

  -- `GenerationIndexer.delete`
  unfoldable pub delete_indexed : S → List KnowledgeChunk → Outcome
  delete_indexed s [] = (s, some 0)
  delete_indexed s (k ∷ ks) =
      if all (λ (x : KnowledgeChunk). x.generation_number == k.generation_number) ks
      then deleted_from k.generation_number (k ∷ ks)
          (index.delete_chunks s k.generation_number (chunk_ids (k ∷ ks)))
      else (s, none)
