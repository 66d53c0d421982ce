-- ===== src/Publication/Chunking/Labels.antt =====
-- What publication/chunking.py writes on a chunk, compared with the claims that it names.
use trustworthy_personal_kno.Prelude.{
  ℕ, suc, ◌+◌, ◌≤◌, min, max, ◌≡◌, refl, sym, ap, ◌∙◌, subst, not, ◌||◌, Option, none, some,
  some-injective, List, [], ◌∷◌, ◌++◌, map, All, All-append, All-map, All-both, length, ltb,
  Bool-cases, Option-cases, inl, inr, if◌then◌else◌, Text, strip, ok, require_inv, bind_inv,
  ok_injective, arith, nat_eq,
}
use trustworthy_personal_kno.Prelude.Strings.Laws.{length-strip}
use trustworthy_personal_kno.Domain.Enums.Source.{Sensitivity}
use trustworthy_personal_kno.Domain.Enums.Claim.{ClaimStatus}
use trustworthy_personal_kno.Publication.Contracts.{CurationClaim, KnowledgeChunk}
use trustworthy_personal_kno.Publication.Markdown.{
  chunking_error, Section, is_empty, chunk_text, claim_sections,
}
use trustworthy_personal_kno.Publication.Chunking.{
  find_claim, new_chunk, select_claims, quality_order, quality_rank, sensitivity_order,
  worst_quality, highest_sensitivity, merge_option, fold_times, aggregate_times, Times, ChunkScope,
  label, batch_chunk, batch_chunks, section_chunks, chunk, claim_ids, batches, same_set,
  all_claim_ids,
}
use trustworthy_personal_kno.Publication.Chunking.Batching.{batches_cover}

-- A time that is given has one that it is related to.
abbrev pub Reaches : (ℕ → ℕ → Type 0) → Option ℕ → Option ℕ → Type 0
Reaches R o o' = (t : ℕ) → o ≡ some t → (t' : ℕ) × (o' ≡ some t') × R t t'

module _ (R : ℕ → ℕ → Type 0) (f : ℕ → ℕ → ℕ) (same : (m : ℕ) → R m m)
    (left : (m n : ℕ) → R m (f m n)) (right : (x m n : ℕ) → R x n → R x (f m n)) where
  merge_left : (o rest : Option ℕ) → Reaches R o (merge_option f o rest)
  merge_left none rest t e = cc
  merge_left (some m) none t e = (m, refl, subst (λ x. R x m) (some-injective _ _ e) (same m))
  merge_left (some m) (some n) t e =
      (f m n, refl, subst (λ x. R x (f m n)) (some-injective _ _ e) (left m n))

  merge_right : (o o' rest : Option ℕ) → Reaches R o rest → Reaches R o (merge_option f o' rest)
  merge_right o none rest h t e = h t e
  merge_right o (some m) none h t e = let (t', e', r) = h t e in cc
  merge_right o (some m) (some n) h t e =
      let (t', e', r) = h t e in
      (f m n, refl, right t m n (subst (R t) (sym (some-injective _ _ e')) r))

  fold_times_lem :
      (field : CurationClaim → Option ℕ) (ks : List CurationClaim)
      → All (λ k. Reaches R (field k) (fold_times f field ks)) ks
  unfolding fold_times
  fold_times_lem field [] = tt
  fold_times_lem field (k ∷ ks) = (
    merge_left (field k) (fold_times f field ks),
    All-map _ _ ks (λ x h. merge_right (field x) (field k) (fold_times f field ks) h)
        (fold_times_lem field ks),
  )

abbrev Later : ℕ → ℕ → Type 0
Later t t' = t ≤ t'

abbrev Earlier : ℕ → ℕ → Type 0
Earlier t t' = t' ≤ t

-- One status is at most as good as another, by `_QUALITY_ORDER`.
abbrev pub NoBetter : ClaimStatus → ClaimStatus → Type 0
NoBetter worse s =
    (m : ℕ) × (n : ℕ) × (quality_order s ≡ some m) × (quality_order worse ≡ some n) × (m ≤ n)

quality_rank_inv : (s : ClaimStatus) (n : ℕ) → quality_rank s ≡ ok n → quality_order s ≡ some n
quality_rank_inv s n h = ground arith

worst_quality_lem :
    (best : ClaimStatus) (rank : ℕ) (ks : List CurationClaim) (s : ClaimStatus)
    → quality_order best ≡ some rank
    → worst_quality best rank ks ≡ ok s
    → NoBetter s best × All (λ k. NoBetter s k.status) ks
unfolding worst_quality
worst_quality_lem best rank [] s e h = ((rank, rank, e, rw (← ok_injective h) e, omega arith), tt)
worst_quality_lem best rank (k ∷ ks) s e h =
    let (r, ranked, h') = bind_inv (quality_rank k.status) _ h in
    let own = quality_rank_inv k.status r ranked in
    let ((m, n, em, en, le), rest) =
      worst_quality_lem (if ltb rank r then k.status else best) (max rank r) ks s (chosen r own)
        h' in
    let same = some-injective _ _ (sym em ∙ chosen r own) in
    ((rank, n, e, en, omega (arith, same)), ((r, n, own, en, omega (arith, same)), rest))
  where
    chosen :
        (r : ℕ)
        → quality_order k.status ≡ some r
        → quality_order (if ltb rank r then k.status else best) ≡ some (max rank r)
    chosen r own = elim (Bool-cases (ltb rank r)) [
      | inl more ↦ rw more (own ∙ ap some (ground arith))
      | inr less ↦ rw less (e ∙ ap some (ground arith))
    ]

highest_sensitivity_lem :
    (best : Sensitivity) (ks : List CurationClaim)
    → (sensitivity_order best ≤ sensitivity_order (highest_sensitivity best ks))
      × All
          (λ k. sensitivity_order k.sensitivity ≤ sensitivity_order (highest_sensitivity best ks))
          ks
unfolding highest_sensitivity
highest_sensitivity_lem best [] = (omega arith, tt)
highest_sensitivity_lem best (k ∷ ks) =
    let (h, rest) =
      highest_sensitivity_lem
        (if ltb (sensitivity_order best) (sensitivity_order k.sensitivity)
          then k.sensitivity
          else best)
        ks in
    let picked = pick in (omega (arith, h, picked.0), (omega (arith, h, picked.1), rest))
  where
    pick :
        (sensitivity_order best
          ≤ sensitivity_order (
              if ltb (sensitivity_order best) (sensitivity_order k.sensitivity)
              then k.sensitivity
              else best))
        × (sensitivity_order k.sensitivity
            ≤ sensitivity_order (
                if ltb (sensitivity_order best) (sensitivity_order k.sensitivity)
                then k.sensitivity
                else best))
    pick = elim (Bool-cases (ltb (sensitivity_order best) (sensitivity_order k.sensitivity))) [
      | inl more ↦ rw more (ground arith)
      | inr less ↦ rw less (ground arith)
    ]

-- The chunk claims no more than this claim of it does.
pub record Within (c : CurationClaim) (k : KnowledgeChunk) : Type 0 where
  pub as_sensitive : sensitivity_order c.sensitivity ≤ sensitivity_order k.sensitivity
  pub no_better : NoBetter k.quality_status c.status
  pub starts_later : Reaches Later c.valid_from k.valid_from
  pub ends_earlier : Reaches Earlier c.valid_to k.valid_to
  pub as_fresh : Reaches Earlier c.freshness_at k.freshness_at

-- Each id of the chunk is that of a claim, and the chunk claims no more than any of them.
abbrev pub IsLabelled : List CurationClaim → KnowledgeChunk → Type 0
IsLabelled claims k =
    All (λ id. (c : CurationClaim) × (find_claim claims id ≡ some c) × Within c k) k.claim_ids

-- The ordinals go up from this number without a gap.
abbrev pub Numbered : ℕ → List KnowledgeChunk → Type 0
Numbered n [] = Unit
Numbered n (k ∷ ks) = (k.ordinal ≡ n) × Numbered (suc n) ks

select_claims_lem :
    (P : CurationClaim → Type 0) (claims : List CurationClaim) (ids : List ℕ)
    (selected : List CurationClaim)
    → select_claims claims ids ≡ ok selected
    → All P selected
    → All (λ id. (c : CurationClaim) × (find_claim claims id ≡ some c) × P c) ids
unfolding select_claims
select_claims_lem P claims [] selected h a = tt
select_claims_lem P claims (id ∷ ids) selected h a = elim (Option-cases (find_claim claims id)) [
  | inl unknown ↦ cc (rw unknown at h)
  | inr (c, known) ↦
      let (rest, e, h') = bind_inv (select_claims claims ids) _ (rw known at h) in
      let both : All P (c ∷ rest) = subst (All P) (sym (ok_injective h')) a in
      ((c, known, both.0), select_claims_lem P claims ids rest e both.1)
]

aggregate_times_lem :
    (ks : List CurationClaim) (times : Times)
    → aggregate_times ks ≡ ok times
    → All (λ x. Reaches Later x.valid_from times.valid_from) ks
      × All (λ x. Reaches Earlier x.valid_to times.valid_to) ks
      × All (λ x. Reaches Earlier x.freshness_at times.freshness_at) ks
unfolding aggregate_times
aggregate_times_lem ks times h =
    let (overlapping, t) = require_inv _ _ _ h in
    subst
      (λ (o : Times).
        All (λ x. Reaches Later x.valid_from o.valid_from) ks
        × All (λ x. Reaches Earlier x.valid_to o.valid_to) ks
        × All (λ x. Reaches Earlier x.freshness_at o.freshness_at) ks)
      (ok_injective t)
      (
        fold_times_lem Later max (λ m. omega arith) (λ m n. omega arith) (λ x m n r. omega arith)
            (λ x. x.valid_from) ks,
        fold_times_lem Earlier min (λ m. omega arith) (λ m n. omega arith) (λ x m n r. omega arith)
            (λ x. x.valid_to) ks,
        fold_times_lem Earlier min (λ m. omega arith) (λ m n. omega arith) (λ x m n r. omega arith)
            (λ x. x.freshness_at) ks,
      )

module _ (s : ChunkScope) (path : List Text) where
  abbrev Shown : ℕ → List Text → KnowledgeChunk → Type 0
  Shown ordinal batch k =
      IsLabelled s.claims k × (k.ordinal ≡ ordinal) × (k.text ≡ strip (chunk_text path batch))

  label-Shown :
      (ordinal : ℕ) (batch : List Text) (ids : List ℕ) (selected : List CurationClaim)
      (k : KnowledgeChunk)
      → select_claims s.claims ids ≡ ok selected
      → label s path ordinal batch ids selected ≡ ok k
      → Shown ordinal batch k
  unfolding label
  label-Shown ordinal batch ids [] k chosen h = cc
  label-Shown ordinal batch ids (c ∷ cs) k chosen h =
      let (times, timed, h₁) = bind_inv (aggregate_times (c ∷ cs)) _ h in
      let (rank, ranked, h₂) = bind_inv (quality_rank c.status) _ h₁ in
      let (quality, worst, h₃) = bind_inv (worst_quality c.status rank cs) _ h₂ in
      let (starts, ends, fresh) = aggregate_times_lem (c ∷ cs) times timed in
      let (own, others) =
        worst_quality_lem c.status rank cs quality (quality_rank_inv c.status rank ranked) worst in
      let within =
        All-both _ _ (c ∷ cs) (All-both _ _ (c ∷ cs) starts (All-both _ _ (c ∷ cs) ends fresh)) (
          All-both (λ x. NoBetter quality x.status)
            (λ x.
              sensitivity_order x.sensitivity
              ≤ sensitivity_order (highest_sensitivity c.sensitivity cs))
            (c ∷ cs) (own, others) (highest_sensitivity_lem c.sensitivity cs)) in
      subst (Shown ordinal batch) (ok_injective h₃) (
        select_claims_lem
            (λ x. Within x (
              new_chunk s path ordinal batch ids quality (highest_sensitivity c.sensitivity cs)
                times))
            s.claims ids (c ∷ cs) chosen
            (All-map _ _ (c ∷ cs)
              (λ x w. record {
                as_sensitive = w.1.1;
                no_better = w.1.0;
                starts_later = w.0.0;
                ends_earlier = w.0.1.0;
                as_fresh = w.0.1.1;
              })
              within),
        refl,
        refl,
      )

  batch_chunk-Shown :
      (ordinal : ℕ) (batch : List Text) (k : KnowledgeChunk)
      → batch_chunk s path ordinal batch ≡ ok k
      → Shown ordinal batch k
  unfolding batch_chunk
  batch_chunk-Shown ordinal batch k h =
      let (selected, chosen, h') = bind_inv (select_claims s.claims (claim_ids batch)) _ h in
      label-Shown ordinal batch (claim_ids batch) selected k chosen h'

  -- What is shown of the chunks of one call.
  abbrev pub AreShown : ℕ → List KnowledgeChunk → Type 0
  AreShown n ks =
      All (λ k. IsLabelled s.claims k × (length k.text ≤ s.chunker.hard_max_characters)) ks
      × Numbered n ks

  batch_chunks-AreShown :
      (ordinal : ℕ) (bs : List (List Text)) (ks : List KnowledgeChunk)
      → All (λ b. (1 ≤ length b) × (length (chunk_text path b) ≤ s.chunker.hard_max_characters)) bs
      → batch_chunks s path ordinal bs ≡ ok ks
      → AreShown ordinal ks
  unfolding batch_chunks
  batch_chunks-AreShown ordinal [] ks a h = subst (AreShown ordinal) (ok_injective h) (tt, tt)
  batch_chunks-AreShown ordinal (b ∷ bs) ks a h =
      let (k, one, h₁) = bind_inv (batch_chunk s path ordinal b) _ h in
      let (rest, others, h₂) = bind_inv (batch_chunks s path (suc ordinal) bs) _ h₁ in
      let (labelled, numbered, text) = batch_chunk-Shown ordinal b k one in
      let (all_labelled, all_numbered) = batch_chunks-AreShown (suc ordinal) bs rest a.1 others in
      subst (AreShown ordinal) (ok_injective h₂) (
        (
          (labelled, omega (arith, ap length text, length-strip (chunk_text path b), a.0.1)),
          all_labelled,
        ),
        (numbered, all_numbered),
      )

Numbered-append :
    (n : ℕ) (ks rest : List KnowledgeChunk)
    → Numbered n ks
    → Numbered (n + length ks) rest
    → Numbered n (ks ++ rest)
Numbered-append n [] rest h k = subst (λ m. Numbered m rest) (omega arith) k
Numbered-append n (x ∷ ks) rest h k =
    (h.0, Numbered-append (suc n) ks rest h.1 (subst (λ m. Numbered m rest) (omega arith) k))

module _ (s : ChunkScope) where
  section_chunks-AreShown :
      (ordinal : ℕ) (xs : List Section) (ks : List KnowledgeChunk)
      → section_chunks s ordinal xs ≡ ok ks
      → AreShown s [] ordinal ks
  unfolding section_chunks
  section_chunks-AreShown ordinal [] ks h = subst (AreShown s [] ordinal) (ok_injective h) (tt, tt)
  section_chunks-AreShown ordinal (x ∷ xs) ks h =
      let (bs, packed, h₁) = bind_inv (batches s.chunker x.heading_path x.lines) _ h in
      let (chunks, labelled, h₂) = bind_inv (batch_chunks s x.heading_path ordinal bs) _ h₁ in
      let (rest, others, h₃) = bind_inv (section_chunks s (ordinal + length chunks) xs) _ h₂ in
      let (a, n) =
        batch_chunks-AreShown s x.heading_path ordinal bs chunks
          (batches_cover s.chunker x.heading_path x.lines bs packed).0 labelled in
      let (a', n') = section_chunks-AreShown (ordinal + length chunks) xs rest others in
      subst (AreShown s [] ordinal) (ok_injective h₃)
        (All-append _ chunks rest a a', Numbered-append ordinal chunks rest n n')

  pub chunk_labels :
      (ks : List KnowledgeChunk)
      → chunk s ≡ ok ks
      → All (λ k. IsLabelled s.claims k × (length k.text ≤ s.chunker.hard_max_characters)) ks
        × Numbered 0 ks
  unfolding chunk
  chunk_labels ks h =
      let (valid, h₁) =
        require_inv (not (ltb s.generation_number 1 || is_empty (strip s.embedding_model)))
          chunking_error _ h in
      let (known, h₂) =
        require_inv (same_set (map (λ (k : CurationClaim). k.id) s.claims) s.artifact.claim_ids)
          chunking_error _ h₁ in
      let (sections, parsed, h₃) = bind_inv (claim_sections s.artifact.body_markdown) _ h₂ in
      let (chunks, labelled, h₄) = bind_inv (section_chunks s 0 sections) _ h₃ in
      let (covered, h₅) =
        require_inv (same_set (all_claim_ids chunks) s.artifact.claim_ids) chunking_error _ h₄ in
      subst (AreShown s [] 0) (ok_injective h₅) (section_chunks-AreShown 0 sections chunks labelled)
