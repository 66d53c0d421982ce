-- ===== src/Answer/Rendering/Numbering.antt =====
-- Rendering over evidence that the citation check accepted: it returns, and numbers the citations.
use trustworthy_personal_kno.Prelude.{
  ℕ, suc, ◌≡◌, refl, ap, sym, subst, true, none, some, List, [], ◌∷◌, map, arith, ◌==◌, ==→eq,
  nat_eq, distinct, length, All, Member, All-map, ok, ◌>>=◌, inl, inr, ◌⊎◌, Bool-cases,
}
use trustworthy_personal_kno.Answer.Contracts.{
  Digest, AnswerEvidence, DraftAnswerClaim, AnswerDraft, AnswerCitation,
}
use trustworthy_personal_kno.Answer.Verification.{
  chunk_ids, range_from, validate_citation_closed_set,
}
use trustworthy_personal_kno.Answer.Verification.Grounding.{AllCite, closed_set-AllCite}
use trustworthy_personal_kno.Answer.Rendering.{
  by_chunk, citation, number_citations, number_by_id, Line, render_verified_answer,
}
use trustworthy_personal_kno.Answer.Rendering.Ordering.{
  by_chunk_found, AllHeld, order_claims_returns,
}

by_chunk_id :
    (evidence : List AnswerEvidence) (c : Digest) (e : AnswerEvidence)
    → by_chunk evidence c ≡ some e
    → Member e evidence × (e.chunk_id ≡ c)
by_chunk_id [] c e h = cc
by_chunk_id (x ∷ xs) c e h = ground (arith, by_chunk_id xs c e)

-- A citation names evidence and repeats its lineage.
pub record Cites (evidence : List AnswerEvidence) (c : AnswerCitation) : Type 0 where
  pub source : AnswerEvidence
  pub stands : Member source evidence
  pub same_chunk : c.chunk_id ≡ source.chunk_id
  pub same_note : c.note_id ≡ source.note_id
  pub same_version : c.curated_version_id ≡ source.curated_version_id
  pub same_sources : c.source_version_ids ≡ source.source_version_ids
  pub same_quality : c.quality_status ≡ source.quality_status
  pub same_path : c.vault_path ≡ source.vault_path
  pub same_headings : c.heading_path ≡ source.heading_path

abbrev pub numbers : List AnswerCitation → List ℕ
numbers = map (λ (c : AnswerCitation). c.number)

abbrev pub cited_ids : List AnswerCitation → List Digest
cited_ids = map (λ (c : AnswerCitation). c.chunk_id)

number_citations_returns :
    (evidence : List AnswerEvidence) (number : ℕ) (ids : List Digest)
    → All (λ c. Member c (chunk_ids evidence)) ids
    → (cs : List AnswerCitation) × (number_citations evidence number ids ≡ ok cs)
      × (numbers cs ≡ range_from number (length cs))
      × (cited_ids cs ≡ ids)
      × All (Cites evidence) cs
unfolding number_citations citation
number_citations_returns evidence number [] h = ([], refl, refl, refl, tt)
number_citations_returns evidence number (c ∷ ids) h =
    let (e, found) = by_chunk_found evidence c h.0 in
    let (stands, named) = by_chunk_id evidence c e found in
    let (cs, r, ns, is, all) = number_citations_returns evidence (suc number) ids h.1 in
    (
      citation number e ∷ cs,
      rw (found, number_citations) (rw (r, ◌>>=◌) refl),
      ap (λ r. number ∷ r) ns,
      λ i. named i ∷ is i,
      (
        record {
          source = e;
          stands = stands;
          same_chunk = refl;
          same_note = refl;
          same_version = refl;
          same_sources = refl;
          same_quality = refl;
          same_path = refl;
          same_headings = refl;
        },
        all,
      ),
    )

-- The number that a mark shows is the number of a listed citation of that chunk.
pub record Marks (cs : List AnswerCitation) (chunk_id : Digest) : Type 0 where
  pub target : AnswerCitation
  pub listed : Member target cs
  pub same_chunk : target.chunk_id ≡ chunk_id
  pub shown : number_by_id cs chunk_id ≡ some (target.number)

mark_here :
    (c : AnswerCitation) (cs : List AnswerCitation) (x : Digest)
    → c.chunk_id ≡ x
    → number_by_id cs x ≡ none
    → number_by_id (c ∷ cs) x ≡ some c.number
mark_here c cs x h e = ground arith

number_by_id-Marks : (cs : List AnswerCitation) (x : Digest) → Member x (cited_ids cs) → Marks cs x
number_by_id-Marks cs x m = elim (lookup cs x) [
  | inl found ↦ found
  | inr absent ↦ absurd (missing cs x m absent)
]
  where
    later :
        (c : AnswerCitation) (cs : List AnswerCitation) (x : Digest) → Marks cs x → Marks (c ∷ cs) x
    later c cs x k = record {
      target = k.target;
      listed = inr k.listed;
      same_chunk = k.same_chunk;
      shown = rw (k.shown) refl;
    }

    first :
        (c : AnswerCitation) (cs : List AnswerCitation) (x : Digest)
        → number_by_id cs x ≡ none
        → Marks (c ∷ cs) x ⊎ (number_by_id (c ∷ cs) x ≡ none)
    first c cs x e = elim (Bool-cases (c.chunk_id == x)) [
      | inl same ↦ inl (record {
        target = c;
        listed = inl refl;
        same_chunk = ==→eq c.chunk_id x same;
        shown = mark_here c cs x (==→eq c.chunk_id x same) e;
      })
      | inr other ↦ inr (rw e (rw other refl))
    ]

    lookup : (cs : List AnswerCitation) (x : Digest) → Marks cs x ⊎ (number_by_id cs x ≡ none)
    lookup [] x = inr refl
    lookup (c ∷ cs) x = elim (lookup cs x) [
      | inl found ↦ inl (later c cs x found)
      | inr absent ↦ first c cs x absent
    ]

    missing :
        (cs : List AnswerCitation) (x : Digest)
        → Member x (cited_ids cs)
        → number_by_id cs x ≡ none
        → ⊥
    missing [] x m e = m
    missing (c ∷ cs) x (inl same) e = ground arith
    missing (c ∷ cs) x (inr m) e = missing cs x m (tail_none c cs x e)
      where
        tail_none :
            (c : AnswerCitation) (cs : List AnswerCitation) (x : Digest)
            → number_by_id (c ∷ cs) x ≡ none
            → number_by_id cs x ≡ none
        tail_none c cs x e = ground arith

All-Marks :
    (cs : List AnswerCitation) (ids xs : List Digest)
    → cited_ids cs ≡ ids
    → All (λ x. Member x ids) xs
    → All (Marks cs) xs
All-Marks cs ids xs e h =
    All-map (λ x. Member x ids) (Marks cs) xs
      (λ x m. number_by_id-Marks cs x (subst (λ r. Member x r) (sym e) m)) h

AllHeld-Marks :
    (cs : List AnswerCitation) (ids : List Digest) (claims : List DraftAnswerClaim)
    → cited_ids cs ≡ ids
    → AllHeld ids claims
    → All (λ c. All (Marks cs) c.citation_chunk_ids) claims
AllHeld-Marks cs ids [] e h = tt
AllHeld-Marks cs ids (claim ∷ claims) e h =
    (All-Marks cs ids claim.citation_chunk_ids e h.0, AllHeld-Marks cs ids claims e h.1)

-- The line of a claim: its statement, with the number of each chunk that it cites.
abbrev pub line_of : List AnswerCitation → DraftAnswerClaim → Line
line_of cs c = record {
  statement = c.statement;
  marks = map (number_by_id cs) c.citation_chunk_ids;
}

-- What a rendered answer satisfies.
pub record IsNumbered (draft : AnswerDraft) (evidence : List AnswerEvidence) (lines : List Line)
    (cs : List AnswerCitation) : Type 0 where
  pub consecutive : numbers cs ≡ range_from 1 (length cs)
  pub once : distinct (cited_ids cs) ≡ true
  pub traced : All (Cites evidence) cs
  pub written : lines ≡ map (line_of cs) draft.claims
  pub marked : All (λ c. All (Marks cs) c.citation_chunk_ids) draft.claims

-- Over evidence for which the citation check passed, rendering returns: the citations are numbered
-- from 1 without a gap, each chunk is cited once, each citation has the chunk, the note, the version,
-- the sources, the quality, the path and the headings of a piece of the evidence, and each mark of each line is the number of a listed citation of the chunk that the claim cites.
pub render-IsNumbered :
    (draft : AnswerDraft) (evidence : List AnswerEvidence) (max_claims max_characters : ℕ)
    → validate_citation_closed_set draft evidence max_claims max_characters ≡ ok tt
    → (lines : List Line) × (cs : List AnswerCitation) × (render_verified_answer draft evidence
        ≡ ok (lines, cs))
      × IsNumbered draft evidence lines cs
unfolding render_verified_answer
render-IsNumbered draft evidence max_claims max_characters h =
    let cites : AllCite evidence draft.claims =
      closed_set-AllCite draft evidence max_claims max_characters h in
    let (ordered, r, o, kept, held) =
      order_claims_returns evidence draft.claims [] (record { known = tt; once = refl }) cites in
    let (cs, r', ns, is, traced) = number_citations_returns evidence 1 ordered o.known in
    (
      map (line_of cs) draft.claims,
      cs,
      rw r (rw r' refl),
      record {
        consecutive = ns;
        once = rw is o.once;
        traced = traced;
        written = refl;
        marked = AllHeld-Marks cs ordered draft.claims is held;
      },
    )
