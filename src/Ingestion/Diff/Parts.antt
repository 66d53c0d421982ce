-- ===== src/Ingestion/Diff/Parts.antt =====
-- The parts of a structural diff (ingestion/diff.py): what stands in each, and what comes into it.
use trustworthy_personal_kno.Prelude.{
  ℕ, ◌≡◌, refl, sym, ap, ◌∙◌, Bool, true, false, not, Option, none, some, some-injective, List, [],
  ◌∷◌, map, contains, Member, All, All-append, All-Member, all_of, filter-Member, Member-filter,
  Member-append_right, Bool-cases, inl, inr, ◌==◌, nat_eq, ==→eq,
}
use trustworthy_personal_kno.Ingestion.Counting.{sort-Member, sort-All}
use trustworthy_personal_kno.Ingestion.Diff.{
  ParsedBlock, BlockRef, ModifiedBlock, MovedBlock, hash_at, with_hash, move_of, modification_of,
  ref_of, ref_before, is_movable, moves, moved_blocks, modifications, modified_blocks, refs_without,
}
use trustworthy_personal_kno.Ingestion.Diff.Dicts.{HasBlock}

pub map-All :
    {A B : Type 0} (P : B → Type 0) (f : A → B) (xs : List A)
    → All (λ x. P (f x)) xs
    → All P (map f xs)
map-All P f [] a = tt
map-All P f (x ∷ xs) a = (a.0, map-All P f xs a.1)

pub map-Member :
    {A B : Type 0} (f : A → B) (xs : List A) (x : A) → Member x xs → Member (f x) (map f xs)
map-Member f [] x m = m
map-Member f (y ∷ xs) x (inl e) = inl (ap f e)
map-Member f (y ∷ xs) x (inr m) = inr (map-Member f xs x m)

pub contains-map_inv :
    {A : Type 0} (key : A → ℕ) (xs : List A) (a : ℕ)
    → contains (map key xs) a ≡ true
    → (x : A) × (Member x xs × (key x ≡ a))
contains-map_inv key [] a h = cc
contains-map_inv key (x ∷ xs) a h = elim (Bool-cases (key x == a)) [
  | inl b ↦ (x, (inl refl, ==→eq _ _ b))
  | inr b ↦ let (y, found) = contains-map_inv key xs a (rw b at h) in (y, (inr found.0, found.1))
]

with_hash_inv :
    (h : ℕ) (bs : List ParsedBlock) (b : ParsedBlock)
    → with_hash h bs ≡ some b
    → Member b bs × (b.text_hash ≡ h)
unfolding with_hash
with_hash_inv h [] b e = cc
with_hash_inv h (c ∷ bs) b e = elim (Bool-cases (c.text_hash == h)) [
  | inl d ↦
      let same : c ≡ b = some-injective _ _ (rw d at e) in
      (inl same, ap (λ (x : ParsedBlock). x.text_hash) (sym same) ∙ ==→eq _ _ d)
  | inr d ↦ let (m, t) = with_hash_inv h bs b (rw d at e) in (inr m, t)
]

-- A move takes the one block with its digest to the one block with it.
pub record IsMove (old new : List ParsedBlock) (m : MovedBlock) : Type 0 where
  pub from : HasBlock m.from_anchor m.text_hash old
  pub to : HasBlock m.to_anchor m.text_hash new
  pub once : is_movable old new m.text_hash ≡ true

module _ (old new : List ParsedBlock) where
  move_of-IsMove :
      (o : ParsedBlock) (r : Option ParsedBlock)
      → Member o old
      → is_movable old new o.text_hash ≡ true
      → with_hash o.text_hash new ≡ r
      → All (IsMove old new) (move_of o r)
  move_of-IsMove o none m h e = tt
  move_of-IsMove o (some n) m h e = elim (Bool-cases (o.anchor == n.anchor)) [
    | inl b ↦ rw b tt
    | inr b ↦
        let (k, same) = with_hash_inv o.text_hash new n e in
        rw b (
          record {
            from = record { block = o; stands = m; there = refl; reads = refl };
            to = record { block = n; stands = k; there = refl; reads = same };
            once = h;
          },
          tt,
        )
  ]

  moves-IsMove :
      (os : List ParsedBlock)
      → All (λ (o : ParsedBlock). Member o old × (is_movable old new o.text_hash ≡ true)) os
      → All (IsMove old new) (moves new os)
  unfolding moves
  moves-IsMove [] a = tt
  moves-IsMove (o ∷ os) a =
      All-append (IsMove old new) (move_of o (with_hash o.text_hash new)) (moves new os)
        (move_of-IsMove o (with_hash o.text_hash new) a.0.0 a.0.1 refl) (moves-IsMove os a.1)

  pub moved_blocks-IsMove : All (IsMove old new) (moved_blocks old new)
  unfolding moved_blocks
  moved_blocks-IsMove = moves-IsMove _ (
      sort-All _ _ _
        (all_of _ _ (filter-Member (λ (b : ParsedBlock). is_movable old new b.text_hash) old)))

module _ (new : List ParsedBlock) where
  modifications-All :
      (os : List ParsedBlock)
      → All (λ (m : ModifiedBlock). hash_at m.anchor new ≡ some m.after_hash) (modifications new os)
  unfolding modifications
  modifications-All [] = tt
  modifications-All (o ∷ os) =
      All-append _ (modification_of o (hash_at o.anchor new)) (modifications new os)
        (one (hash_at o.anchor new) refl) (modifications-All os)
    where
      one :
          (r : Option ℕ)
          → hash_at o.anchor new ≡ r
          → All
              (λ (m : ModifiedBlock). hash_at m.anchor new ≡ some m.after_hash)
              (modification_of o r)
      one none e = tt
      one (some h) e = (e, tt)

  modifications-Member :
      (os : List ParsedBlock) (o : ParsedBlock) (h : ℕ)
      → Member o os
      → hash_at o.anchor new ≡ some h
      → Member
          (record { anchor = o.anchor; before_hash = o.text_hash; after_hash = h })
          (modifications new os)
  unfolding modifications
  modifications-Member [] o h m e = absurd m
  modifications-Member (p ∷ os) o h (inl same) e = rw same (rw e (inl refl))
  modifications-Member (p ∷ os) o h (inr m) e =
      Member-append_right _ (modification_of p (hash_at p.anchor new)) (modifications new os)
        (modifications-Member os o h m e)

  pub modified_blocks-All :
      (old : List ParsedBlock)
      → All
          (λ (m : ModifiedBlock). hash_at m.anchor new ≡ some m.after_hash)
          (modified_blocks old new)
  unfolding modified_blocks
  modified_blocks-All old = modifications-All _

  pub modified_blocks-Member :
      (old : List ParsedBlock) (o : ParsedBlock) (h : ℕ)
      → Member o old
      → hash_at o.anchor new ≡ some h
      → Member
          (record { anchor = o.anchor; before_hash = o.text_hash; after_hash = h })
          (modified_blocks old new)
  unfolding modified_blocks
  modified_blocks-Member old o h m e = modifications-Member _ o h (sort-Member _ old o m) e

-- Another list has no block at the anchor.
abbrev pub lacks : List ParsedBlock → ParsedBlock → Bool
lacks others b = not (contains (map (λ (c : ParsedBlock). c.anchor) others) b.anchor)

pub refs_without-All :
    (P : BlockRef → Type 0) (others blocks : List ParsedBlock)
    → All (λ b. P (ref_of b)) blocks
    → All P (refs_without others blocks)
unfolding refs_without
refs_without-All P others blocks a = sort-All ref_before P _ (
    map-All P ref_of _
      (all_of _ _ (λ b m. All-Member _ blocks b a (filter-Member (lacks others) blocks b m).0)))

pub refs_without-Member :
    (others blocks : List ParsedBlock) (b : ParsedBlock)
    → Member b blocks
    → contains (map (λ (c : ParsedBlock). c.anchor) others) b.anchor ≡ false
    → Member (ref_of b) (refs_without others blocks)
unfolding refs_without
refs_without-Member others blocks b m h =
    sort-Member ref_before _ _
      (map-Member ref_of _ _ (Member-filter (lacks others) blocks b m (rw h refl)))
