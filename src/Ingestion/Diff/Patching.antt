-- ===== src/Ingestion/Diff/Patching.antt =====
-- The structural diff as a patch (ingestion/diff.py): what it makes of the old version.
use trustworthy_personal_kno.Prelude.{
  ℕ, ◌≡◌, refl, sym, ap, ◌∙◌, true, false, not, Option, none, some, some-injective, List, [], ◌∷◌,
  ◌++◌, map, contains, Member, All, filter-Member, Member-filter, Bool-cases, inl, inr, ◌==◌,
  nat_eq, ==→eq, ==-self, or_else, subst, if◌then◌else◌, arith,
}
use trustworthy_personal_kno.Ingestion.Counting.{count, count-Unique}
use trustworthy_personal_kno.Ingestion.Diff.Dicts.{HasBlock}
use trustworthy_personal_kno.Ingestion.Diff.{
  ParsedBlock, BlockRef, ModifiedBlock, MovedBlock, StructuralDiff, remaining,
}

-- Where the diff puts blocks, and the anchors that it takes them from.
abbrev pub modified_ref : ModifiedBlock → BlockRef
modified_ref m = record { anchor = m.anchor; text_hash = m.after_hash }

abbrev pub moved_ref : MovedBlock → BlockRef
moved_ref m = record { anchor = m.to_anchor; text_hash = m.text_hash }

abbrev pub arrivals : StructuralDiff → List BlockRef
arrivals d = d.added ++ (map modified_ref d.modified ++ map moved_ref d.moved)

abbrev pub departures : StructuralDiff → List ℕ
departures d =
    map (λ (r : BlockRef). r.anchor) d.removed ++ map (λ (m : MovedBlock). m.from_anchor) d.moved

abbrev pub ref_at : ℕ → List BlockRef → Option ℕ
ref_at a [] = none
ref_at a (r ∷ rs) = if r.anchor == a then some r.text_hash else ref_at a rs

-- The digest at an anchor after the diff, from the one before it.
abbrev pub patch : StructuralDiff → ℕ → Option ℕ → Option ℕ
patch d a old = or_else (ref_at a (arrivals d)) (if contains (departures d) a then none else old)

pub ref_at_inv :
    (P : ℕ → ℕ → Type 0) (rs : List BlockRef) (a h : ℕ)
    → All (λ (r : BlockRef). P r.anchor r.text_hash) rs
    → ref_at a rs ≡ some h
    → P a h
ref_at_inv P [] a h every e = cc
ref_at_inv P (r ∷ rs) a h every e = elim (Bool-cases (r.anchor == a)) [
  | inl b ↦
      subst (λ i. P i h) (==→eq _ _ b)
        (subst (λ n. P r.anchor n) (some-injective _ _ (rw b at e)) every.0)
  | inr b ↦ ref_at_inv P rs a h every.1 (rw b at e)
]

pub ref_at-Member :
    (rs : List BlockRef) (r : BlockRef) → Member r rs → ref_at r.anchor rs ≡ none → ⊥
ref_at-Member [] r m e = m
ref_at-Member (s ∷ rs) r (inl same) e =
    cc (rw (ap (λ (t : BlockRef). t.anchor) same, ==-self r.anchor) at e)
ref_at-Member (s ∷ rs) r (inr m) e = elim (Bool-cases (s.anchor == r.anchor)) [
  | inl b ↦ cc (rw b at e)
  | inr b ↦ ref_at-Member rs r m (rw b at e)
]

abbrev hash_of : ParsedBlock → ℕ
hash_of b = b.text_hash

abbrev pub anchor_of : ParsedBlock → ℕ
anchor_of b = b.anchor

-- The only block with a digest stands where any other with it stands.
pub unique_anchor :
    (bs : List ParsedBlock) (a c h : ℕ)
    → (count (λ (b : ParsedBlock). b.text_hash == h) bs == 1) ≡ true
    → HasBlock a h bs
    → HasBlock c h bs
    → a ≡ c
unique_anchor bs a c h once x y =
    let one = ==→eq (count (λ (b : ParsedBlock). b.text_hash == h) bs) 1 once in
    sym x.there
    ∙ ap anchor_of (
        count-Unique (λ b. hash_of b == h) bs x.block y.block (omega (arith, one)) x.stands y.stands
          (rw x.reads (==-self h)) (rw y.reads (==-self h)))
    ∙ y.there

pub remaining_inv :
    (ms : List MovedBlock) (bs : List ParsedBlock) (b : ParsedBlock)
    → Member b (remaining ms bs)
    → Member b bs
unfolding remaining
remaining_inv ms bs b m = (filter-Member _ bs b m).0

abbrev pub moved_hashes : List MovedBlock → List ℕ
moved_hashes = map (λ (m : MovedBlock). m.text_hash)

pub remaining-HasBlock :
    (ms : List MovedBlock) (bs : List ParsedBlock) (a h : ℕ)
    → HasBlock a h bs
    → contains (moved_hashes ms) h ≡ false
    → HasBlock a h (remaining ms bs)
unfolding remaining
remaining-HasBlock ms bs a h x fresh = record {
  block = x.block;
  stands =
      Member-filter (λ (b : ParsedBlock). not (contains (moved_hashes ms) b.text_hash)) bs x.block
        x.stands (rw (x.reads, fresh) refl);
  there = x.there;
  reads = x.reads;
}
