-- ===== src/Ingestion/Diff.antt =====
-- ingestion/diff.py: the structural diff of the blocks of two versions of a note. Anchors and digests
-- are the numbers that they spell. A dict of blocks by their anchor is the list of its values, each
-- the last block with its anchor; nothing depends on their order, since the results are sorted.
pub mod Dicts
pub mod Parts
pub mod Patching
pub mod Changes
pub mod Restoring
pub mod Agreement
mod Examples
use trustworthy_personal_kno.Prelude.{
  ℕ, Bool, true, false, not, ◌&&◌, ◌||◌, Option, none, some, List, [], ◌∷◌, ◌++◌, map, filter,
  contains, length, ltb, ◌==◌, nat_eq, or_else, if◌then◌else◌, Text,
}
use trustworthy_personal_kno.Ingestion.Counting.{count, sort_by}

-- ingestion/types.py
pub record ParsedBlock : Type 0 where
  pub ordinal : ℕ
  pub block_type : Text
  pub anchor : ℕ
  pub text_hash : ℕ
  pub character_count : ℕ
  pub text : Text

pub record BlockRef : Type 0 where
  pub anchor : ℕ
  pub text_hash : ℕ

pub record ModifiedBlock : Type 0 where
  pub anchor : ℕ
  pub before_hash : ℕ
  pub after_hash : ℕ

pub record MovedBlock : Type 0 where
  pub text_hash : ℕ
  pub from_anchor : ℕ
  pub to_anchor : ℕ

pub record DiffCounts : Type 0 where
  pub added : ℕ
  pub removed : ℕ
  pub modified : ℕ
  pub moved : ℕ

pub record StructuralDiff : Type 0 where
  pub added : List BlockRef
  pub removed : List BlockRef
  pub modified : List ModifiedBlock
  pub moved : List MovedBlock
  pub counts : DiffCounts

-- The values of `{block.anchor: block for block in blocks}`.
unfoldable pub by_anchor : List ParsedBlock → List ParsedBlock
by_anchor [] = []
by_anchor (b ∷ bs) =
    let rest = by_anchor bs in
    if contains (map (λ (c : ParsedBlock). c.anchor) bs) b.anchor then rest else b ∷ rest

-- The digest of the block that such a dict has for an anchor.
unfoldable pub hash_at : ℕ → List ParsedBlock → Option ℕ
hash_at a [] = none
hash_at a (b ∷ bs) = or_else (hash_at a bs) (if b.anchor == a then some b.text_hash else none)

abbrev pub same_hash : Option ℕ → Option ℕ → Bool
same_hash none n = false
same_hash (some m) none = false
same_hash (some m) (some n) = m == n

-- The block of a dict with a digest.
unfoldable pub with_hash : ℕ → List ParsedBlock → Option ParsedBlock
with_hash h [] = none
with_hash h (b ∷ bs) = if b.text_hash == h then some b else with_hash h bs

abbrev pub move_of : ParsedBlock → Option ParsedBlock → List MovedBlock
move_of old none = []
move_of old (some new) =
    if old.anchor == new.anchor
    then []
    else record { text_hash = old.text_hash; from_anchor = old.anchor; to_anchor = new.anchor } ∷ []

abbrev pub modification_of : ParsedBlock → Option ℕ → List ModifiedBlock
modification_of old none = []
modification_of old (some h) =
    record { anchor = old.anchor; before_hash = old.text_hash; after_hash = h } ∷ []

abbrev pub ref_of : ParsedBlock → BlockRef
ref_of b = record { anchor = b.anchor; text_hash = b.text_hash }

abbrev pub ref_before : BlockRef → BlockRef → Bool
ref_before r s = ltb r.anchor s.anchor || r.anchor == s.anchor && ltb r.text_hash s.text_hash

-- The blocks of one version that the other does not have at their anchor.
unfoldable pub unmatched : (before after blocks : List ParsedBlock) → List ParsedBlock
unmatched before after blocks =
    filter (λ (b : ParsedBlock). not (same_hash (hash_at b.anchor before) (hash_at b.anchor after)))
      (by_anchor blocks)

-- The digests that one unmatched block of each version has.
abbrev pub is_movable : (old new : List ParsedBlock) → ℕ → Bool
is_movable old new h =
    count (λ (b : ParsedBlock). b.text_hash == h) old == 1
    && count (λ (b : ParsedBlock). b.text_hash == h) new == 1

unfoldable pub moves : (new olds : List ParsedBlock) → List MovedBlock
unfolding with_hash
moves new [] = []
moves new (o ∷ os) = move_of o (with_hash o.text_hash new) ++ moves new os

-- `moved`, of the unmatched blocks.
unfoldable pub moved_blocks : (old new : List ParsedBlock) → List MovedBlock
unfolding moves
moved_blocks old new = moves new (
    sort_by (λ (b : ParsedBlock) c. ltb b.text_hash c.text_hash)
      (filter (λ (b : ParsedBlock). is_movable old new b.text_hash) old))

-- `remaining_old` and `remaining_new`
unfoldable pub remaining : List MovedBlock → List ParsedBlock → List ParsedBlock
remaining moved =
    filter (λ (b : ParsedBlock).
      not (contains (map (λ (m : MovedBlock). m.text_hash) moved) b.text_hash))

unfoldable pub modifications : (new olds : List ParsedBlock) → List ModifiedBlock
unfolding hash_at
modifications new [] = []
modifications new (o ∷ os) = modification_of o (hash_at o.anchor new) ++ modifications new os

-- `modified`, of the remaining blocks.
unfoldable pub modified_blocks : (old new : List ParsedBlock) → List ModifiedBlock
unfolding modifications
modified_blocks old new =
    modifications new (sort_by (λ (b : ParsedBlock) c. ltb b.anchor c.anchor) old)

-- `removed`, of the remaining blocks, and `added`, where the versions change places.
unfoldable pub refs_without : (others blocks : List ParsedBlock) → List BlockRef
refs_without others blocks = sort_by ref_before (
    map ref_of (
      filter
        (λ (b : ParsedBlock). not (contains (map (λ (c : ParsedBlock). c.anchor) others) b.anchor))
        blocks))

abbrev pub diff_of :
    List BlockRef → List BlockRef → List ModifiedBlock → List MovedBlock → StructuralDiff
diff_of added removed modified moved = record {
  added = added;
  removed = removed;
  modified = modified;
  moved = moved;
  counts = record {
    added = length added;
    removed = length removed;
    modified = length modified;
    moved = length moved;
  };
}

-- `structural_diff`
unfoldable pub structural_diff : (before after : List ParsedBlock) → StructuralDiff
unfolding unmatched moved_blocks remaining modified_blocks refs_without
structural_diff before after =
    let unmatched_old = unmatched before after before in
    let unmatched_new = unmatched before after after in
    let moved = moved_blocks unmatched_old unmatched_new in
    let remaining_old = remaining moved unmatched_old in
    let remaining_new = remaining moved unmatched_new in
    diff_of (refs_without remaining_old remaining_new) (refs_without remaining_new remaining_old)
      (modified_blocks remaining_old remaining_new) moved
