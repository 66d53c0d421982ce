-- ===== src/Ingestion/Diff/Agreement.antt =====
-- When a structural diff is empty (ingestion/diff.py).
use trustworthy_personal_kno.Prelude.{
  ℕ, ◌≡◌, ◌↔◌, refl, sym, ap, ◌∙◌, true, not, Option, some, List, [], ◌∷◌, Member, inl, nat_eq,
  ==-self,
}
use trustworthy_personal_kno.Ingestion.Counting.{sort_by}
use trustworthy_personal_kno.Ingestion.Diff.{
  ParsedBlock, StructuralDiff, hash_at, same_hash, unmatched, moves, moved_blocks, remaining,
  modifications, modified_blocks, refs_without, structural_diff, diff_of,
}
use trustworthy_personal_kno.Ingestion.Diff.Patching.{patch}
use trustworthy_personal_kno.Ingestion.Diff.Changes.{unmatched_inv}
use trustworthy_personal_kno.Ingestion.Diff.Restoring.{patch-structural_diff}

abbrev no_changes : StructuralDiff
no_changes = diff_of [] [] [] []

no_members : {A : Type 0} (xs : List A) → ((x : A) → Member x xs → ⊥) → xs ≡ []
no_members [] f = refl
no_members (x ∷ xs) f = absurd (f x (inl refl))

agreeing : (o p : Option ℕ) (h : ℕ) → o ≡ some h → o ≡ p → not (same_hash o p) ≡ true → ⊥
agreeing o p h e same d = cc (rw (← same, e, ==-self h) at d)

module _ (before after : List ParsedBlock)
    (same : (a : ℕ) → hash_at a before ≡ hash_at a after) where
  old_matched : unmatched before after before ≡ []
  old_matched = no_members _ (λ b m.
      let (e, d) = unmatched_inv before after before b m in
      agreeing _ _ b.text_hash e (same b.anchor) d)

  new_matched : unmatched before after after ≡ []
  new_matched = no_members _ (λ b m.
      let (e, d) = unmatched_inv before after after b m in
      agreeing _ _ b.text_hash (same b.anchor ∙ e) (same b.anchor) d)

  nothing_changed : structural_diff before after ≡ no_changes
  unfolding structural_diff moved_blocks moves remaining modified_blocks modifications refs_without
      sort_by
  nothing_changed = rw (old_matched, new_matched) refl

-- The structural diff of two versions is empty, with all counts 0, exactly if at each anchor they have
-- the same digest or both have none: the order of the blocks, their types and their numbers make no
-- difference.
pub structural_diff-no_changes :
    (before after : List ParsedBlock)
    → (structural_diff before after ≡ no_changes) ↔ ((a : ℕ) → hash_at a before ≡ hash_at a after)
structural_diff-no_changes before after = (
  λ e a. sym (ap (λ d. patch d a (hash_at a before)) e) ∙ patch-structural_diff before after a,
  nothing_changed before after,
)
