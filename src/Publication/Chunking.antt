-- ===== src/Publication/Chunking.antt =====
-- publication/chunking.py: `MarkdownChunker`. A text that has to be not empty is stored stripped. The digest of a chunk, of the four parts that name it,
-- is an argument. A dict is a list of claims, of which the last with an id counts.
pub mod Batching
pub mod Labels
mod Examples
use trustworthy_personal_kno.Prelude.{
  ℕ, zero, suc, ◌+◌, min, max, Bool, true, false, not, ◌&&◌, ◌||◌, Option, none, some, List, [],
  ◌∷◌, ◌++◌, map, any, all, contains, subset, length, ltb, leb, or_else, ◌==◌, nat_eq,
  if◌then◌else◌, Text, strip, Result, ok, raised, ◌>>=◌, ◌>>◌, require,
}
use mathlib.Core.List.{reverse}
use trustworthy_personal_kno.Domain.Enums.Source.{Sensitivity}
use trustworthy_personal_kno.Domain.Enums.Claim.{ClaimStatus}
use trustworthy_personal_kno.Publication.Contracts.{CurationClaim, CurationArtifact, KnowledgeChunk}
use trustworthy_personal_kno.Publication.Markdown.{
  ChunkingError, chunking_error, key_error, value_error, Section, is_empty, heading_text,
  chunk_text, find_markers, normalize_text, claim_sections,
}

pub record MarkdownChunker : Type 0 where
  pub version : Text
  pub target_characters : ℕ
  pub overlap_characters : ℕ
  pub hard_max_characters : ℕ

-- `MarkdownChunker.__init__`
pub make_chunker : Text → ℕ → ℕ → ℕ → Result ChunkingError MarkdownChunker
make_chunker version target overlap hard_max = do
  require (not (is_empty (strip version))) value_error
  require (leb 1 overlap && ltb overlap target && leb target hard_max) value_error
  ok (record {
    version = strip version;
    target_characters = target;
    overlap_characters = overlap;
    hard_max_characters = hard_max;
  })

-- `sum(len(item) + 1 for item in lines)`
abbrev pub cost : List Text → ℕ
cost [] = 0
cost (l ∷ ls) = length l + 1 + cost ls

-- The loop of `_overlap_tail` over the lines from the last one on, with the lines selected.
pub overlap_loop : ℕ → List Text → ℕ → List Text → List Text
overlap_loop budget selected used [] = selected
overlap_loop budget selected used (l ∷ ls) =
    let rest = overlap_loop budget (l ∷ selected) (used + (length l + 1)) ls in
    if not (is_empty selected) && ltb budget (used + (length l + 1)) || ltb budget (length l + 1)
    then selected
    else rest

-- `_overlap_tail`
pub overlap_tail : List Text → ℕ → List Text
unfolding overlap_loop
overlap_tail lines budget = overlap_loop budget [] 0 (reverse lines)

-- The variables `batches` and `current` of `_batches`.
pub record Packing : Type 0 where
  pub batches : List (List Text)
  pub current : List Text

module _ (c : MarkdownChunker) (prefix : ℕ) where
  -- A full batch is closed, and the next one starts with the overlap.
  pub roll_over : Packing → Text → Packing
  unfolding overlap_tail
  roll_over p line =
      if not (is_empty p.current)
        && ltb c.target_characters (prefix + cost (p.current ++ (line ∷ [])))
      then record {
        batches = p.batches ++ (p.current ∷ []);
        current = overlap_tail p.current c.overlap_characters;
      }
      else p

  -- The line is added, or opens a batch where it does not fit.
  pub push_line : Packing → Text → Result ChunkingError Packing
  push_line p line =
      if ltb c.hard_max_characters (prefix + cost (p.current ++ (line ∷ [])))
      then (if is_empty p.current
          then raised chunking_error
          else ok (record { batches = p.batches ++ (p.current ∷ []); current = line ∷ [] }))
      else ok (record p { current = p.current ++ (line ∷ []) })

  pub add_line : Packing → Text → Result ChunkingError Packing
  unfolding roll_over push_line
  add_line p line = do
    require (leb (prefix + length line) c.hard_max_characters) chunking_error
    push_line (roll_over p line) line

  pub pack_lines : Packing → List Text → Result ChunkingError Packing
  pack_lines p [] = ok p
  pack_lines p (line ∷ lines) = add_line p line >>= λ p'. pack_lines p' lines

abbrev pub closed : Packing → List (List Text)
closed p = if is_empty p.current then p.batches else p.batches ++ (p.current ∷ [])

-- `MarkdownChunker._batches`
pub batches : MarkdownChunker → List Text → List Text → Result ChunkingError (List (List Text))
unfolding pack_lines add_line
batches c heading_path lines = do
  p ←
      pack_lines c (length (heading_text heading_path) + 2) (record { batches = []; current = [] })
        lines
  ok (closed p)

-- `dict.fromkeys`: each value once, at its first place.
abbrev unique_after : List ℕ → List ℕ → List ℕ
unique_after seen [] = []
unique_after seen (n ∷ ns) =
    let skipped = unique_after seen ns in
    let kept = n ∷ unique_after (n ∷ seen) ns in if contains seen n then skipped else kept

abbrev markers_of : List Text → List ℕ
markers_of [] = []
markers_of (l ∷ ls) = find_markers l ++ markers_of ls

-- `_claim_ids`
pub claim_ids : List Text → List ℕ
claim_ids lines = unique_after [] (markers_of lines)

abbrev pub find_claim : List CurationClaim → ℕ → Option CurationClaim
find_claim [] id = none
find_claim (k ∷ ks) id = or_else (find_claim ks id) (if k.id == id then some k else none)

-- The claims that a batch names, all of them known.
pub select_claims : List CurationClaim → List ℕ → Result ChunkingError (List CurationClaim)
select_claims claims [] = ok []
select_claims claims (id ∷ ids) = do
  let others = select_claims claims ids
  let known = find_claim claims id
  k ← elim known [ none ↦ raised chunking_error | some k ↦ ok k ]
  rest ← others
  ok (k ∷ rest)

-- `_QUALITY_ORDER`, which has three keys.
abbrev pub quality_order : ClaimStatus → Option ℕ
quality_order ClaimStatus.verified = some 0
quality_order ClaimStatus.user_asserted = some 1
quality_order ClaimStatus.opinion = some 2
quality_order _ = none

-- `_SENSITIVITY_ORDER`
abbrev pub sensitivity_order : Sensitivity → ℕ
sensitivity_order Sensitivity.public = 0
sensitivity_order Sensitivity.restricted = 1
sensitivity_order Sensitivity.private = 2

abbrev pub quality_rank : ClaimStatus → Result ChunkingError ℕ
quality_rank s = elim (quality_order s) [ none ↦ raised key_error | some n ↦ ok n ]

-- `max(..., key=_QUALITY_ORDER.__getitem__)`, the first of the greatest.
pub worst_quality : ClaimStatus → ℕ → List CurationClaim → Result ChunkingError ClaimStatus
worst_quality best rank [] = ok best
worst_quality best rank (k ∷ ks) = do
  r ← quality_rank k.status
  worst_quality (if ltb rank r then k.status else best) (max rank r) ks

-- `max(..., key=_SENSITIVITY_ORDER.__getitem__)`
pub highest_sensitivity : Sensitivity → List CurationClaim → Sensitivity
highest_sensitivity best [] = best
highest_sensitivity best (k ∷ ks) =
    highest_sensitivity
      (if ltb (sensitivity_order best) (sensitivity_order k.sensitivity)
        then k.sensitivity
        else best)
      ks

abbrev pub merge_option : (ℕ → ℕ → ℕ) → Option ℕ → Option ℕ → Option ℕ
merge_option f none o = o
merge_option f (some m) none = some m
merge_option f (some m) (some n) = some (f m n)

-- `max(xs) if xs else None` and `min(xs) if xs else None` of the values that are given.
pub fold_times : (ℕ → ℕ → ℕ) → (CurationClaim → Option ℕ) → List CurationClaim → Option ℕ
fold_times f field [] = none
fold_times f field (k ∷ ks) = merge_option f (field k) (fold_times f field ks)

abbrev is_after : Option ℕ → Option ℕ → Bool
is_after none end = false
is_after (some start) none = false
is_after (some start) (some end) = ltb end start

-- What `_aggregate_times` returns.
pub record Times : Type 0 where
  pub valid_from : Option ℕ
  pub valid_to : Option ℕ
  pub freshness_at : Option ℕ

pub aggregate_times : List CurationClaim → Result ChunkingError Times
unfolding fold_times
aggregate_times claims = do
  let from = fold_times max (λ (k : CurationClaim). k.valid_from) claims
  let to = fold_times min (λ (k : CurationClaim). k.valid_to) claims
  require (not (is_after from to)) chunking_error
  ok (record {
    valid_from = from;
    valid_to = to;
    freshness_at = fold_times min (λ (k : CurationClaim). k.freshness_at) claims;
  })

-- What the chunks of one call have in common.
pub record ChunkScope : Type 0 where
  pub chunker : MarkdownChunker
  pub artifact : CurationArtifact
  pub claims : List CurationClaim
  pub generation_id : ℕ
  pub generation_number : ℕ
  pub embedding_model : Text
  pub chunk_hash : ℕ → Text → ℕ → Text → ℕ

module _ (s : ChunkScope) where
  abbrev pub new_chunk :
      List Text → ℕ → List Text → List ℕ → ClaimStatus → Sensitivity → Times → KnowledgeChunk
  new_chunk heading_path ordinal batch ids quality sensitivity times =
      let text = chunk_text heading_path batch in
      record {
        chunk_id =
            s.chunk_hash s.artifact.curated_version_id s.chunker.version ordinal
              (normalize_text text);
        note_id = s.artifact.note_id;
        curated_version_id = s.artifact.curated_version_id;
        claim_ids = ids;
        text = strip text;
        heading_path = heading_path;
        ordinal = ordinal;
        quality_status = quality;
        sensitivity = sensitivity;
        valid_from = times.valid_from;
        valid_to = times.valid_to;
        freshness_at = times.freshness_at;
        generation_id = s.generation_id;
        generation_number = s.generation_number;
        embedding_model = strip s.embedding_model;
        chunker_version = s.chunker.version;
        content_hash = s.artifact.content_hash;
      }

  -- The chunk of one batch; the claims that it names are not empty.
  pub label :
      List Text → ℕ → List Text → List ℕ → List CurationClaim → Result ChunkingError KnowledgeChunk
  label heading_path ordinal batch ids [] = raised chunking_error
  label heading_path ordinal batch ids (k ∷ ks) = do
    times ← aggregate_times (k ∷ ks)
    rank ← quality_rank k.status
    quality ← worst_quality k.status rank ks
    ok (
        new_chunk heading_path ordinal batch ids quality (highest_sensitivity k.sensitivity ks)
          times)

  pub batch_chunk : List Text → ℕ → List Text → Result ChunkingError KnowledgeChunk
  batch_chunk heading_path ordinal batch = do
    let ids = claim_ids batch
    selected ← select_claims s.claims ids
    label heading_path ordinal batch ids selected

  pub batch_chunks : List Text → ℕ → List (List Text) → Result ChunkingError (List KnowledgeChunk)
  batch_chunks heading_path ordinal [] = ok []
  batch_chunks heading_path ordinal (b ∷ bs) = do
    let others = batch_chunks heading_path (suc ordinal) bs
    k ← batch_chunk heading_path ordinal b
    rest ← others
    ok (k ∷ rest)

  pub section_chunks : ℕ → List Section → Result ChunkingError (List KnowledgeChunk)
  section_chunks ordinal [] = ok []
  section_chunks ordinal (x ∷ xs) = do
    bs ← batches s.chunker x.heading_path x.lines
    chunks ← batch_chunks x.heading_path ordinal bs
    rest ← section_chunks (ordinal + length chunks) xs
    ok (chunks ++ rest)

abbrev pub same_set : List ℕ → List ℕ → Bool
same_set xs ys = subset xs ys && subset ys xs

abbrev pub all_claim_ids : List KnowledgeChunk → List ℕ
all_claim_ids [] = []
all_claim_ids (k ∷ ks) = k.claim_ids ++ all_claim_ids ks

-- `MarkdownChunker.chunk`
pub chunk : ChunkScope → Result ChunkingError (List KnowledgeChunk)
chunk s = do
  require (not (ltb s.generation_number 1 || is_empty (strip s.embedding_model))) chunking_error
  require (same_set (map (λ (k : CurationClaim). k.id) s.claims) s.artifact.claim_ids)
      chunking_error
  sections ← claim_sections s.artifact.body_markdown
  chunks ← section_chunks s 0 sections
  require (same_set (all_claim_ids chunks) s.artifact.claim_ids) chunking_error
  ok chunks
