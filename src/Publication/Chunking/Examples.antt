-- ===== src/Publication/Chunking/Examples.antt =====
-- A curated note with two claims (publication/chunking.py), of which each fills a chunk.
use trustworthy_personal_kno.Prelude.{
  ◌≤◌, ◌≡◌, refl, none, some, List, [], ◌∷◌, ◌++◌, All, length, Text, codes, strip, lstrip, rstrip,
  ok,
}
use trustworthy_personal_kno.Domain.Enums.Source.{Sensitivity}
use trustworthy_personal_kno.Domain.Enums.Claim.{ClaimStatus}
use trustworthy_personal_kno.Publication.Contracts.{CurationClaim, KnowledgeChunk}
use trustworthy_personal_kno.Publication.Markdown.{
  spell, find_markers, flush, scan_line, scan_lines, claim_sections, splitlines, join_lines,
  chunk_text, heading_text, normalize_text,
}
use trustworthy_personal_kno.Publication.Chunking.{
  MarkdownChunker, ChunkScope, roll_over, push_line, add_line, pack_lines, batches, claim_ids,
  select_claims, worst_quality, highest_sensitivity, fold_times, aggregate_times, label,
  batch_chunk, batch_chunks, section_chunks, chunk,
}
use trustworthy_personal_kno.Publication.Chunking.Batching.{Covers, batches_cover}
use trustworthy_personal_kno.Publication.Chunking.Labels.{IsLabelled, Numbered, chunk_labels}

abbrev small : MarkdownChunker
small = record {
  version = codes "v1";
  target_characters = 20;
  overlap_characters = 6;
  hard_max_characters = 30;
}

abbrev path : List Text
path = codes "T" ∷ codes "H" ∷ []

abbrev lines : List Text
lines = codes "- one" ∷ codes "- two" ∷ codes "- a longer one" ∷ []

abbrev packed : List (List Text)
packed =
    (codes "- one" ∷ [])
    ∷ (codes "- one" ∷ codes "- two" ∷ [])
    ∷ (codes "- two" ∷ [])
    ∷ (codes "- a longer one" ∷ [])
    ∷ []

packs : batches small path lines ≡ ok packed
unfolding batches heading_text join_lines
packs = refl

batches_cover_example :
    All (λ b. (1 ≤ length b) × (length (chunk_text path b) ≤ 30)) packed × Covers 6 [] packed lines
batches_cover_example = batches_cover small path lines packed packs

abbrev name_of : Text → Text
name_of letters = codes "claim_01J8ZQ4M5N6P7R8S9T0VWXAA" ++ letters

abbrev claim : Text → ClaimStatus → CurationClaim
claim letters status = record {
  id = spell 0 (name_of letters);
  status = status;
  sensitivity = Sensitivity.restricted;
  valid_from = some 3;
  valid_to = none;
  freshness_at = none;
}

abbrev verified : CurationClaim
verified = claim (codes "YZ") ClaimStatus.verified

abbrev opinion : CurationClaim
opinion = record (claim (codes "AB") ClaimStatus.opinion) {
  sensitivity = Sensitivity.public;
  valid_from = some 5;
}

abbrev line_of : Text → Text
line_of letters = codes "- x[^" ++ (name_of letters ++ codes "]")

abbrev scope : ChunkScope
scope = record {
  chunker = record {
    version = codes "v1";
    target_characters = 900;
    overlap_characters = 120;
    hard_max_characters = 1600;
  };
  artifact = record {
    note_id = 1;
    curated_version_id = 11;
    body_markdown = codes "# T" ++ (10 ∷ (line_of (codes "YZ") ++ (10 ∷ line_of (codes "AB"))));
    claim_ids = verified.id ∷ opinion.id ∷ [];
    content_hash = 7;
  };
  claims = verified ∷ opinion ∷ [];
  generation_id = 9;
  generation_number = 1;
  embedding_model = codes "m";
  chunk_hash = λ v c n t. n;
}

abbrev chunked : List KnowledgeChunk
chunked =
    record {
      chunk_id = 0;
      note_id = 1;
      curated_version_id = 11;
      claim_ids = verified.id ∷ opinion.id ∷ [];
      text =
          codes "# T"
          ++ (10
              ∷ (codes "## Knowledge"
                  ++ (10 ∷ (10 ∷ (line_of (codes "YZ") ++ (10 ∷ line_of (codes "AB")))))));
      heading_path = codes "T" ∷ codes "Knowledge" ∷ [];
      ordinal = 0;
      quality_status = ClaimStatus.opinion;
      sensitivity = Sensitivity.restricted;
      valid_from = some 5;
      valid_to = none;
      freshness_at = none;
      generation_id = 9;
      generation_number = 1;
      embedding_model = codes "m";
      chunker_version = codes "v1";
      content_hash = 7;
    }
    ∷ []

chunks : chunk scope ≡ ok chunked
unfolding chunk claim_sections scan_lines scan_line find_markers flush splitlines strip lstrip
    rstrip section_chunks batch_chunks batch_chunk label claim_ids select_claims batches pack_lines
    add_line roll_over push_line heading_text join_lines chunk_text aggregate_times worst_quality
    highest_sensitivity fold_times normalize_text
chunks = refl

chunk_labels_example :
    All (λ k. IsLabelled scope.claims k × (length k.text ≤ 1600)) chunked × Numbered 0 chunked
chunk_labels_example = chunk_labels scope chunked chunks
