-- ===== src/Ingestion/Diff/Dicts.antt =====
-- The dicts of blocks by their anchor (ingestion/diff.py).
use trustworthy_personal_kno.Prelude.{
  ℕ, ◌≡◌, refl, ap, ◌∙◌, true, false, none, some, some-injective, List, [], ◌∷◌, map, contains,
  Member, Bool-cases, Option-cases, inl, inr, ◌==◌, nat_eq, ==→eq, ==-self, subst,
}
use trustworthy_personal_kno.Ingestion.Diff.{ParsedBlock, by_anchor, hash_at}

-- A dict of blocks.
hash_at-absent :
    (a : ℕ) (bs : List ParsedBlock)
    → contains (map (λ (c : ParsedBlock). c.anchor) bs) a ≡ false
    → hash_at a bs ≡ none
unfolding hash_at
hash_at-absent a [] h = refl
hash_at-absent a (b ∷ bs) h = elim (Bool-cases (b.anchor == a)) [
  | inl e ↦ cc (rw e at h)
  | inr e ↦ rw (hash_at-absent a bs (rw e at h), e) refl
]

pub hash_at-present :
    (a : ℕ) (bs : List ParsedBlock)
    → contains (map (λ (c : ParsedBlock). c.anchor) bs) a ≡ true
    → hash_at a bs ≡ none
    → ⊥
unfolding hash_at
hash_at-present a [] h e = cc
hash_at-present a (b ∷ bs) h e = elim (Option-cases (hash_at a bs)) [
  | inr (n, found) ↦ cc (rw found at e)
  | inl absent ↦ elim (Bool-cases (b.anchor == a)) [
    | inl c ↦ cc (rw (absent, c) at e)
    | inr c ↦ hash_at-present a bs (rw c at h) absent
  ]
]

pub by_anchor_inv :
    (bs : List ParsedBlock) (b : ParsedBlock)
    → Member b (by_anchor bs)
    → hash_at b.anchor bs ≡ some b.text_hash
unfolding by_anchor hash_at
by_anchor_inv [] b m = absurd m
by_anchor_inv (c ∷ bs) b m =
    elim (Bool-cases (contains (map (λ (d : ParsedBlock). d.anchor) bs) c.anchor)) [
      | inl e ↦ rw (by_anchor_inv bs b (rw e at m)) refl
      | inr e ↦ kept e (by_anchor_inv bs b) (rw e at m)
    ]
  where
    kept :
        contains (map (λ (d : ParsedBlock). d.anchor) bs) c.anchor ≡ false
        → (Member b (by_anchor bs) → hash_at b.anchor bs ≡ some b.text_hash)
        → Member b (c ∷ by_anchor bs)
        → hash_at b.anchor (c ∷ bs) ≡ some b.text_hash
    kept e ih (inr later) = rw (ih later) refl
    kept e ih (inl here) =
        subst (λ (x : ParsedBlock). hash_at x.anchor (c ∷ bs) ≡ some x.text_hash) here
          (rw (hash_at-absent c.anchor bs e, ==-self c.anchor) refl)

-- A block of the list, with its anchor and its digest.
pub record HasBlock (a h : ℕ) (bs : List ParsedBlock) : Type 0 where
  pub block : ParsedBlock
  pub stands : Member block bs
  pub there : block.anchor ≡ a
  pub reads : block.text_hash ≡ h

-- A longer list has the block too.
HasBlock-later :
    (a h : ℕ) (b : ParsedBlock) (bs : List ParsedBlock) → HasBlock a h bs → HasBlock a h (b ∷ bs)
HasBlock-later a h b bs k = record {
  block = k.block;
  stands = inr k.stands;
  there = k.there;
  reads = k.reads;
}

pub hash_at_inv : (a h : ℕ) (bs : List ParsedBlock) → hash_at a bs ≡ some h → HasBlock a h bs
unfolding hash_at
hash_at_inv a h [] e = cc
hash_at_inv a h (b ∷ bs) e = elim (Option-cases (hash_at a bs)) [
  | inr (n, found) ↦
      HasBlock-later a h b bs
        (hash_at_inv a h bs (found ∙ ap some (some-injective _ _ (rw found at e))))
  | inl absent ↦ elim (Bool-cases (b.anchor == a)) [
    | inl c ↦ record {
      block = b;
      stands = inl refl;
      there = ==→eq _ _ c;
      reads = some-injective _ _ (rw (absent, c) at e);
    }
    | inr c ↦ cc (rw (absent, c) at e)
  ]
]

pub hash_at-by_anchor :
    (a h : ℕ) (bs : List ParsedBlock) → hash_at a bs ≡ some h → HasBlock a h (by_anchor bs)
unfolding hash_at by_anchor
hash_at-by_anchor a h [] e = cc
hash_at-by_anchor a h (b ∷ bs) e =
    elim (Bool-cases (contains (map (λ (d : ParsedBlock). d.anchor) bs) b.anchor)) [
      | inr c ↦ rw c (elim (Option-cases (hash_at a bs)) [
        | inr (n, found) ↦
            HasBlock-later a h b (by_anchor bs) (hash_at-by_anchor a h bs (kept n found))
        | inl absent ↦ here absent
      ])
      | inl c ↦ rw c (elim (Option-cases (hash_at a bs)) [
        | inr (n, found) ↦ hash_at-by_anchor a h bs (kept n found)
        | inl absent ↦
            absurd (hash_at-present b.anchor bs c (ap (λ i. hash_at i bs) (at absent) ∙ absent))
      ])
    ]
  where
    kept : (n : ℕ) → hash_at a bs ≡ some n → hash_at a bs ≡ some h
    kept n found = found ∙ ap some (some-injective _ _ (rw found at e))

    at : hash_at a bs ≡ none → b.anchor ≡ a
    at absent = elim (Bool-cases (b.anchor == a)) [
      | inl c ↦ ==→eq _ _ c
      | inr c ↦ cc (rw (absent, c) at e)
    ]

    here : hash_at a bs ≡ none → HasBlock a h (b ∷ by_anchor bs)
    here absent = elim (Bool-cases (b.anchor == a)) [
      | inl c ↦ record {
        block = b;
        stands = inl refl;
        there = ==→eq _ _ c;
        reads = some-injective _ _ (rw (absent, c) at e);
      }
      | inr c ↦ cc (rw (absent, c) at e)
    ]
