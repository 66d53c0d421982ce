-- ===== src/Ingestion/Diff/Examples.antt =====
-- The structural diff at a note of four blocks.
use trustworthy_personal_kno.Prelude.{ℕ, ◌≡◌, ◌↔◌, refl, some, List, [], ◌∷◌}
use trustworthy_personal_kno.Ingestion.Counting.{sort_by}
use trustworthy_personal_kno.Ingestion.Diff.Patching.{patch}
use trustworthy_personal_kno.Ingestion.Diff.Restoring.{patch-structural_diff}
use trustworthy_personal_kno.Ingestion.Diff.Agreement.{structural_diff-no_changes}
use trustworthy_personal_kno.Ingestion.Diff.{
  ParsedBlock, by_anchor, hash_at, with_hash, unmatched, moves, moved_blocks, remaining,
  modifications, modified_blocks, refs_without, structural_diff, diff_of,
}

abbrev block : ℕ → ℕ → ParsedBlock
block anchor hash = record {
  ordinal = 0;
  block_type = [];
  anchor = anchor;
  text_hash = hash;
  character_count = 0;
  text = [];
}

-- Block 1 stays, block 2 moves to 5, another stands at 2, block 3 is modified, block 4 goes.
abbrev old_note : List ParsedBlock
old_note = block 1 10 ∷ block 2 20 ∷ block 3 30 ∷ block 4 40 ∷ []

abbrev new_note : List ParsedBlock
new_note = block 1 10 ∷ block 2 21 ∷ block 5 20 ∷ block 3 31 ∷ []

structural_diff_test :
    structural_diff old_note new_note
    ≡ diff_of
        (record { anchor = 2; text_hash = 21 } ∷ [])
        (record { anchor = 4; text_hash = 40 } ∷ [])
        (record { anchor = 3; before_hash = 30; after_hash = 31 } ∷ [])
        (record { text_hash = 20; from_anchor = 2; to_anchor = 5 } ∷ [])
unfolding structural_diff unmatched moved_blocks remaining modified_blocks refs_without moves
    modifications hash_at with_hash by_anchor sort_by
structural_diff_test = refl

patch-structural_diff_example :
    patch (structural_diff old_note new_note) 2 (hash_at 2 old_note) ≡ hash_at 2 new_note
patch-structural_diff_example = patch-structural_diff old_note new_note 2

-- So block 2 has the digest of the block that took its place.
patched_test : hash_at 2 new_note ≡ some 21
unfolding hash_at
patched_test = refl

-- The blocks of the old note in another order.
abbrev reordered : List ParsedBlock
reordered = block 3 30 ∷ block 4 40 ∷ block 1 10 ∷ block 2 20 ∷ []

structural_diff-no_changes_example :
    (structural_diff old_note reordered ≡ diff_of [] [] [] [])
    ↔ ((a : ℕ) → hash_at a old_note ≡ hash_at a reordered)
structural_diff-no_changes_example = structural_diff-no_changes old_note reordered

reordered_test : structural_diff old_note reordered ≡ diff_of [] [] [] []
unfolding structural_diff unmatched moved_blocks remaining modified_blocks refs_without moves
    modifications hash_at with_hash by_anchor sort_by
reordered_test = refl
