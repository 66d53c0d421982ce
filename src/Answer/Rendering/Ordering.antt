-- ===== src/Answer/Rendering/Ordering.antt =====
-- The order in which answer/rendering.py meets the citations of an answer.
use trustworthy_personal_kno.Prelude.{
  ◌≡◌, refl, true, Option, none, some, List, [], ◌∷◌, ◌++◌, arith, ◌==◌, nat_eq, contains,
  contains-Member, distinct, distinct-snoc, All, Member, All-append, All-map, All-Member_self,
  Member-append_left, Member-append_right, ok, inl, inr, ◌⊎◌, Bool-cases, if◌then◌else◌, or_else,
}
use trustworthy_personal_kno.Answer.Contracts.{Digest, AnswerEvidence, DraftAnswerClaim}
use trustworthy_personal_kno.Answer.Verification.{chunk_ids}
use trustworthy_personal_kno.Answer.Verification.Grounding.{AllCite}
use trustworthy_personal_kno.Answer.Rendering.{by_chunk, order_citations, order_claims}

or_else-some {ℓ} :
    {A : Type ℓ} (o p : Option A)
    → ((a : A) × (o ≡ some a)) ⊎ ((a : A) × (p ≡ some a))
    → (a : A) × (or_else o p ≡ some a)
or_else-some none p (inl (a, e)) = cc
or_else-some none p (inr (a, e)) = (a, e)
or_else-some (some b) p h = (b, refl)

found_here :
    (e : AnswerEvidence) (c : Digest)
    → e.chunk_id ≡ c
    → (if e.chunk_id == c then some e else none) ≡ some e
found_here e c h = ground arith

-- Evidence is found under each of its ids.
pub by_chunk_found :
    (evidence : List AnswerEvidence) (c : Digest)
    → Member c (chunk_ids evidence)
    → (e : AnswerEvidence) × (by_chunk evidence c ≡ some e)
by_chunk_found [] c m = absurd m
by_chunk_found (e ∷ es) c (inl same) = or_else-some (by_chunk es c) _ (inr (e, found_here e c same))
by_chunk_found (e ∷ es) c (inr later) =
    or_else-some (by_chunk es c) _ (inl (by_chunk_found es c later))

-- What the loops over the citations keep: the ids met so far are ids of the evidence, each once.
pub record IsOrder (evidence : List AnswerEvidence) (ordered : List Digest) : Type 0 where
  pub known : All (λ c. Member c (chunk_ids evidence)) ordered
  pub once : distinct ordered ≡ true

-- The loops add to what they have, and hold each of the given ids at the end.
pub record Extends (evidence : List AnswerEvidence) (ids before after : List Digest) : Type 0 where
  pub order : IsOrder evidence after
  pub kept : All (λ c. Member c after) before
  pub held : All (λ c. Member c after) ids

append_new :
    (evidence : List AnswerEvidence) (ordered : List Digest) (c : Digest)
    → IsOrder evidence ordered
    → Member c (chunk_ids evidence)
    → Extends evidence
        (c ∷ [])
        ordered
        (if contains ordered c then ordered else ordered ++ (c ∷ []))
append_new evidence ordered c o m = elim (Bool-cases (contains ordered c)) [
  | inl old ↦ rw old (record {
    order = o;
    kept = All-Member_self ordered;
    held = (contains-Member ordered c old, tt);
  })
  | inr new ↦ rw new (record {
    order = record {
      known = All-append (λ x. Member x (chunk_ids evidence)) ordered (c ∷ []) o.known (m, tt);
      once = distinct-snoc ordered c o.once new;
    };
    kept =
        All-map (λ x. Member x ordered) (λ x. Member x (ordered ++ (c ∷ []))) ordered
          (λ x h. Member-append_left x ordered (c ∷ []) h) (All-Member_self ordered);
    held = (Member-append_right c ordered (c ∷ []) (inl refl), tt);
  })
]

All-Member_trans :
    (xs ys zs : List Digest)
    → All (λ x. Member x ys) xs
    → All (λ y. Member y zs) ys
    → All (λ x. Member x zs) xs
All-Member_trans [] ys zs h k = tt
All-Member_trans (x ∷ xs) ys zs h k = (through ys h.0 k, All-Member_trans xs ys zs h.1 k)
  where
    through : (ys : List Digest) → Member x ys → All (λ y. Member y zs) ys → Member x zs
    through [] m k = absurd m
    through (y ∷ ys) (inl e) k = rw (← e) k.0
    through (y ∷ ys) (inr m) k = through ys m k.1

order_citations_returns :
    (evidence : List AnswerEvidence) (ids ordered : List Digest)
    → IsOrder evidence ordered
    → All (λ c. Member c (chunk_ids evidence)) ids
    → (out : List Digest) × (order_citations evidence ids ordered ≡ ok out)
      × Extends evidence ids ordered out
unfolding order_citations
order_citations_returns evidence [] ordered o h =
    (ordered, refl, record { order = o; kept = All-Member_self ordered; held = tt })
order_citations_returns evidence (c ∷ ids) ordered o h =
    let x : Extends evidence (c ∷ []) ordered
        (if contains ordered c then ordered else ordered ++ (c ∷ [])) =
      append_new evidence ordered c o h.0 in
    let (out, r, y) =
      order_citations_returns evidence ids
        (if contains ordered c then ordered else ordered ++ (c ∷ [])) x.order h.1 in
    let (e, found) = by_chunk_found evidence c h.0 in
    (
      out,
      rw (found, order_citations) r,
      record {
        order = y.order;
        kept = All-Member_trans ordered _ out x.kept y.kept;
        held = ((All-Member_trans (c ∷ []) _ out x.held y.kept).0, y.held);
      },
    )

-- Every cited id of the claims is held.
abbrev pub AllHeld : List Digest → List DraftAnswerClaim → Type 0
AllHeld ids = All (λ (c : DraftAnswerClaim). All (λ x. Member x ids) c.citation_chunk_ids)

pub order_claims_returns :
    (evidence : List AnswerEvidence) (claims : List DraftAnswerClaim) (ordered : List Digest)
    → IsOrder evidence ordered
    → AllCite evidence claims
    → (out : List Digest) × (order_claims evidence claims ordered ≡ ok out)
      × IsOrder evidence out
      × All (λ c. Member c out) ordered
      × AllHeld out claims
unfolding order_claims
order_claims_returns evidence [] ordered o h = (ordered, refl, o, All-Member_self ordered, tt)
order_claims_returns evidence (claim ∷ claims) ordered o h =
    let (mid, r, x) = order_citations_returns evidence claim.citation_chunk_ids ordered o h.0 in
    let (out, r', o', kept, held) = order_claims_returns evidence claims mid x.order h.1 in
    (
      out,
      rw r r',
      o',
      All-Member_trans ordered mid out x.kept kept,
      (All-Member_trans claim.citation_chunk_ids mid out x.held kept, held),
    )
