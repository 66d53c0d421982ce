-- ===== src/Publication/Retrieval/Current.antt =====
-- What `HybridRetriever.retrieve` (publication/retrieval.py) returns is current in the control plane.
use trustworthy_personal_kno.Prelude.{
  min, ℕ, suc, zero, ◌≤◌, ◌≡◌, refl, sym, ap, ◌∙◌, subst, Bool, true, Option, none, some, List, [],
  ◌∷◌, ok, All, Member, arith, Bool-cases, Option-cases, and_split, inl, inr, ◌==◌, nat_eq, ==→eq,
  ok_injective, bind_inv, filter-Member, filter, take, length, map, distinct, All-map,
  some-injective, ◌||◌, ◌⊎◌, ==-self, Text,
}
use trustworthy_personal_kno.Publication.Contracts.{
  RetrievalMode, RetrievalQuery, VectorSearchHit, RerankItem, RetrievalHit, RetrievalResult,
}
use trustworthy_personal_kno.Publication.Retrieval.{
  rerank_items, CurrentVersion, Reranker, HybridRetriever, current_of, serves, is_active,
  candidate_by_id, baseline, reordered, accepted_order, reranked_by, rerank, query_vector, search,
  resolve_current, retrieve, embedded, is_bm25,
}

-- The hit is a candidate, and the control plane serves its version of the note in the generation.
pub record IsCurrent (candidates : List VectorSearchHit) (current : List (ℕ × CurrentVersion))
    (generation_id : ℕ) (hit : RetrievalHit) : Type 0 where
  pub candidate : VectorSearchHit
  pub found : Member candidate candidates
  pub same_chunk : hit.chunk ≡ candidate.chunk
  pub same_score : hit.retrieval_score ≡ candidate.score
  pub version : CurrentVersion
  pub listed : current_of current hit.chunk.note_id ≡ some version
  pub same_version : version.curated_version_id ≡ hit.chunk.curated_version_id
  pub same_generation : version.generation_id ≡ generation_id

-- The hit repeats a candidate.
record Repeats (candidates : List VectorSearchHit) (hit : RetrievalHit) : Type 0 where
  candidate : VectorSearchHit
  found : Member candidate candidates
  same_chunk : hit.chunk ≡ candidate.chunk
  same_score : hit.retrieval_score ≡ candidate.score

candidate_by_id-Member :
    (candidates : List VectorSearchHit) (id : ℕ) (h : VectorSearchHit)
    → candidate_by_id candidates id ≡ some h
    → Member h candidates
unfolding candidate_by_id
candidate_by_id-Member [] id h e = cc
candidate_by_id-Member (c ∷ cs) id h e = elim (Option-cases (candidate_by_id cs id)) [
  | inr (later, k) ↦ inr (candidate_by_id-Member cs id h (k ∙ (rw (k, candidate_by_id) at e)))
  | inl k ↦ elim (Bool-cases (c.chunk.chunk_id == id)) [
    | inl b ↦ inl (some-injective _ _ (rw b at (rw (k, candidate_by_id) at e)))
    | inr b ↦ cc (rw b at (rw (k, candidate_by_id) at e))
  ]
]

baseline-Repeats :
    (candidates rest : List VectorSearchHit)
    → ((h : VectorSearchHit) → Member h rest → Member h candidates)
    → All (Repeats candidates) (baseline rest)
baseline-Repeats candidates [] f = tt
baseline-Repeats candidates (h ∷ hs) f = (
  record { candidate = h; found = f h (inl refl); same_chunk = refl; same_score = refl },
  baseline-Repeats candidates hs (λ x m. f x (inr m)),
)

reordered-Repeats :
    (candidates : List VectorSearchHit) (items : List RerankItem) (hits : List RetrievalHit)
    → reordered candidates items ≡ some hits
    → All (Repeats candidates) hits
unfolding reordered
reordered-Repeats candidates [] hits e = subst (All (Repeats candidates)) (some-injective _ _ e) tt
reordered-Repeats candidates (item ∷ items) hits e =
    elim (Option-cases (candidate_by_id candidates item.chunk_id)) [
      | inl k ↦ cc (rw (k, reordered) at e)
      | inr (h, k) ↦ elim (Option-cases (reordered candidates items)) [
        | inl k' ↦ cc (rw k' at (rw (k, reordered) at e))
        | inr (rest, k') ↦
            subst (All (Repeats candidates))
              (some-injective _ _ (rw k' at (rw (k, reordered) at e)))
              (
                record {
                  candidate = h;
                  found = candidate_by_id-Member candidates item.chunk_id h k;
                  same_chunk = refl;
                  same_score = refl;
                },
                reordered-Repeats candidates items rest k',
              )
      ]
    ]

accepted_order-Repeats :
    (candidates : List VectorSearchHit) (items : List RerankItem) (hits : List RetrievalHit)
    → accepted_order candidates items ≡ some hits
    → All (Repeats candidates) hits
unfolding accepted_order
accepted_order-Repeats candidates items hits e =
    elim (Bool-cases (distinct (map (λ (i : RerankItem). i.chunk_id) items))) [
      | inl b ↦ reordered-Repeats candidates items hits (rw (b, accepted_order) at e)
      | inr b ↦ cc (rw (b, accepted_order) at e)
    ]

reranked_by-Repeats :
    (call : Reranker) (query : RetrievalQuery) (candidates : List VectorSearchHit)
    (hits : List RetrievalHit)
    → reranked_by call query candidates ≡ some hits
    → All (Repeats candidates) hits
reranked_by-Repeats call query candidates hits e =
    elim (Option-cases (
      call query.text (rerank_items candidates)
        (min query.candidate_k (length (rerank_items candidates))))) [
          | inl k ↦ cc (rw (k, reranked_by) at e)
          | inr (items, k) ↦ accepted_order-Repeats candidates items hits (rw (k, reranked_by) at e)
        ]

rerank-Repeats :
    (reranker : Option Reranker) (query : RetrievalQuery) (candidates : List VectorSearchHit)
    → All (Repeats candidates) (rerank reranker query candidates).0
rerank-Repeats none query candidates = baseline-Repeats candidates candidates (λ h m. m)
rerank-Repeats (some call) query [] = tt
rerank-Repeats (some call) query (c ∷ cs) = elim (Option-cases (reranked_by call query (c ∷ cs))) [
  | inl k ↦ rw (k, rerank) (baseline-Repeats (c ∷ cs) (c ∷ cs) (λ h m. m))
  | inr (hits, k) ↦ rw (k, rerank) (reranked_by-Repeats call query (c ∷ cs) hits k)
]

take-All : {A : Type 0} (P : A → Type 0) (n : ℕ) (xs : List A) → All P xs → All P (take n xs)
take-All P zero xs h = tt
take-All P (suc n) [] h = tt
take-All P (suc n) (x ∷ xs) h = (h.0, take-All P n xs h.1)

length-take : {A : Type 0} (n : ℕ) (xs : List A) → length (take n xs) ≤ n
length-take zero xs = omega arith
length-take (suc n) [] = omega arith
length-take (suc n) (x ∷ xs) = omega (arith, length-take n xs)

serves_inv :
    (o : Option CurrentVersion) (version generation : ℕ)
    → serves o version generation ≡ true
    → (v : CurrentVersion) × (o ≡ some v)
      × (v.curated_version_id ≡ version)
      × (v.generation_id ≡ generation)
serves_inv none version generation h = cc
serves_inv (some v) version generation h =
    let (a, b) = and_split (v.curated_version_id == version) (v.generation_id == generation) h in
    (v, refl, ==→eq _ _ a, ==→eq _ _ b)

Repeats-IsCurrent :
    (candidates : List VectorSearchHit) (current : List (ℕ × CurrentVersion)) (generation_id : ℕ)
    (hit : RetrievalHit)
    → Repeats (filter (is_active current generation_id) candidates) hit
    → IsCurrent candidates current generation_id hit
Repeats-IsCurrent candidates current generation_id hit h =
    let (member, active) =
      filter-Member (is_active current generation_id) candidates h.candidate h.found in
    let (v, listed, version, generation) =
      serves_inv (current_of current h.candidate.chunk.note_id) h.candidate.chunk.curated_version_id
        generation_id active in
    record {
      candidate = h.candidate;
      found = member;
      same_chunk = h.same_chunk;
      same_score = h.same_score;
      version = v;
      listed = rw h.same_chunk listed;
      same_version = rw h.same_chunk version;
      same_generation = generation;
    }

module _ (retriever : HybridRetriever) where
  -- A query that returns a result has searched the index for candidates and has asked the control
  -- plane for their notes. Each hit repeats the chunk and the score of a candidate whose version of
  -- the note is the current one in the generation asked for, and there are at most `top_k` hits.
  pub retrieve-AllCurrent :
      (query : RetrievalQuery) (generation_id number : ℕ) (result : RetrievalResult)
      → retrieve retriever query generation_id number ≡ ok result
      → (dense : List ℕ) × (candidates : List VectorSearchHit) × (current : List
          (ℕ × CurrentVersion))
        × (search retriever query number dense ≡ ok candidates)
        × (resolve_current retriever candidates ≡ ok current)
        × All (IsCurrent candidates current generation_id) result.hits
        × (length result.hits ≤ query.top_k)
        × (result.generation_id ≡ generation_id)
  unfolding retrieve
  retrieve-AllCurrent query generation_id number result h =
      let ((dense, mode), embedded, h₁) = bind_inv (query_vector retriever query.text) _ h in
      let (candidates, searched, h₂) = bind_inv (search retriever query number dense) _ h₁ in
      let (current, resolved, h₃) = bind_inv (resolve_current retriever candidates) _ h₂ in
      let same = ok_injective h₃ in
      let ranked =
        rerank retriever.reranker query (filter (is_active current generation_id) candidates) in
      (
        dense,
        candidates,
        current,
        searched,
        resolved,
        subst (λ (r : RetrievalResult). All (IsCurrent candidates current generation_id) r.hits)
            same
            (take-All _ query.top_k ranked.0 (
              All-map _ _ ranked.0 (Repeats-IsCurrent candidates current generation_id)
                (rerank-Repeats retriever.reranker query _))),
        subst (λ (r : RetrievalResult). length r.hits ≤ query.top_k) same
            (length-take query.top_k ranked.0),
        sym (ap (λ (r : RetrievalResult). r.generation_id) same),
      )

  -- The embedding gives a vector of the dimension of the index.
  pub record HasVector (text : Text) : Type 0 where
    pub vector : List ℕ
    pub given : retriever.embed_query text ≡ some vector
    pub fits : length vector ≡ retriever.dimension

  -- A result beside its query: with such a vector the mode is hybrid, and without one the result is
  -- marked in its mode and as degraded, and the retriever allows that.
  abbrev pub Marked : RetrievalQuery → RetrievalResult → Type 0
  Marked query result =
      (HasVector query.text × (result.mode ≡ RetrievalMode.hybrid))
      ⊎ ((HasVector query.text → ⊥)
          × (result.mode ≡ RetrievalMode.bm25_only)
          × (result.degraded ≡ true)
          × (retriever.allow_bm25_only ≡ true))

  embedded_inv : (text : Text) (v : List ℕ) → embedded retriever text ≡ some v → HasVector text
  embedded_inv text v e = elim (Option-cases (retriever.embed_query text)) [
    | inl k ↦ cc (rw (k, embedded) at e)
    | inr (w, k) ↦ elim (Bool-cases (length w == retriever.dimension)) [
      | inl b ↦ record { vector = w; given = k; fits = ==→eq _ _ b }
      | inr b ↦ cc (rw (k, embedded, b) at e)
    ]
  ]

  embedded_absent : (text : Text) → embedded retriever text ≡ none → HasVector text → ⊥
  embedded_absent text e has =
      cc (rw (has.given, embedded, has.fits, ==-self retriever.dimension) at e)

  vector-Marked :
      (query : RetrievalQuery) (v : List ℕ × RetrievalMode) (r : RetrievalResult)
      → query_vector retriever query.text ≡ ok v
      → v.1 ≡ r.mode
      → (r.mode ≡ RetrievalMode.bm25_only → r.degraded ≡ true)
      → Marked query r
  vector-Marked query v r e same marked = elim (Option-cases (embedded retriever query.text)) [
    | inr (w, k) ↦ inl (
      embedded_inv query.text w k,
      sym same
          ∙ sym
              (ap (λ (t : List ℕ × RetrievalMode). t.1) (ok_injective (rw (k, query_vector) at e))),
    )
    | inl k ↦ elim (Bool-cases retriever.allow_bm25_only) [
      | inl b ↦
          let without : r.mode ≡ RetrievalMode.bm25_only =
            sym same
            ∙ sym (
                ap (λ (t : List ℕ × RetrievalMode). t.1)
                  (ok_injective (rw b at (rw (k, query_vector) at e)))) in
          inr (embedded_absent query.text k, without, marked without, b)
      | inr b ↦ cc (rw b at (rw (k, query_vector) at e))
    ]
  ]

  -- A retrieval that returns, with or without a query vector: where the embedding gives a vector of the
  -- dimension of the index, the mode of the result is hybrid; where it gives none, or one of another
  -- dimension, the result has the mode without vectors and is marked as degraded, and the retriever
  -- allows this mode.
  pub retrieve_marks_bm25 :
      (query : RetrievalQuery) (generation_id number : ℕ) (result : RetrievalResult)
      → retrieve retriever query generation_id number ≡ ok result
      → Marked query result
  unfolding retrieve
  retrieve_marks_bm25 query generation_id number result h =
      let ((dense, mode), embedded, h₁) = bind_inv (query_vector retriever query.text) _ h in
      let (candidates, searched, h₂) = bind_inv (search retriever query number dense) _ h₁ in
      let (current, resolved, h₃) = bind_inv (resolve_current retriever candidates) _ h₂ in
      let same = ok_injective h₃ in
      let of_mode : mode ≡ result.mode = ap (λ (r : RetrievalResult). r.mode) same in
      vector-Marked query (dense, mode) result embedded of_mode
        (λ without.
          sym (ap (λ (r : RetrievalResult). r.degraded) same)
          ∙ marked mode
              (rerank retriever.reranker query
                (filter (is_active current generation_id) candidates)).1
              (of_mode ∙ without))
    where
      marked :
          (m : RetrievalMode) (b : Bool)
          → m ≡ RetrievalMode.bm25_only
          → (is_bm25 retriever m || b) ≡ true
      marked RetrievalMode.hybrid b e = cc
      marked RetrievalMode.bm25_only b e = refl
