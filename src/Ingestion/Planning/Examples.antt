-- ===== src/Ingestion/Planning/Examples.antt =====
-- A scan (ingestion/planner.py) that finds a note as it was, a note that was moved, and a new one, and
-- misses a fourth.
use trustworthy_personal_kno.Prelude.{
  ℕ, ◌≤◌, ◌≡◌, refl, true, Option, none, some, List, [], ◌∷◌, All, codes, ok,
}
use trustworthy_personal_kno.Domain.Enums.Source.{SourceVersionStatus}
use trustworthy_personal_kno.Ingestion.Counting.{count, sort_by}
use trustworthy_personal_kno.Ingestion.Planning.{
  unchanged, ManifestEntry, IngestionManifest, KnownSource, IngestionPlan, same_path_action,
  same_path_item, created_item, deleted_item, moved_item, find_entry, match_paths, match_moves,
  match_unique_identity, match_all, plan_ingestion,
}
use trustworthy_personal_kno.Ingestion.Planning.Matching.{arrives, concerns}
use trustworthy_personal_kno.Ingestion.Planning.Covering.{plan_covers}

abbrev entry : ℕ → Option ℕ → ℕ → ManifestEntry
entry path file hash = record {
  relative_path = codes "a.md";
  path_key = path;
  size = 3;
  mtime_ns = 0;
  file_key = file;
  content_hash = some hash;
  error_category = none;
}

abbrev source : ℕ → ℕ → Option ℕ → ℕ → KnownSource
source id path file hash = record {
  source_id = id;
  relative_path = codes "a.md";
  path_key = path;
  file_key = file;
  current_version_id = some 100;
  current_content_hash = some hash;
  latest_version_id = some 100;
  latest_content_hash = some hash;
  latest_status = some SourceVersionStatus.quarantined;
  eligible_for_deletion = true;
}

abbrev manifest : IngestionManifest
manifest = record {
  complete = true;
  entries = entry 4 none 70 ∷ entry 1 none 50 ∷ entry 3 (some 20) 61 ∷ [];
  manifest_hash = 9;
}

abbrev sources : List KnownSource
sources = source 12 2 (some 20) 60 ∷ source 11 1 none 50 ∷ source 13 5 none 80 ∷ []

abbrev planned : IngestionPlan
planned = record {
  manifest_hash = 9;
  items =
      record (moved_item (source 11 1 none 50) (entry 1 none 50)) {
        action = unchanged;
        preserve_quarantine = true;
      }
      ∷ moved_item (source 12 2 (some 20) 60) (entry 3 (some 20) 61)
      ∷ created_item (entry 4 none 70)
      ∷ deleted_item (source 13 5 none 80)
      ∷ [];
}

plans : plan_ingestion manifest sources ≡ ok planned
unfolding plan_ingestion match_all match_paths match_unique_identity match_moves find_entry
    same_path_item same_path_action sort_by
plans = refl

plan_covers_example :
    All (λ e. count (arrives e.path_key) planned.items ≡ 1) manifest.entries
    × All
        (λ s.
          (count (concerns s.source_id) planned.items ≤ 1)
          × (s.eligible_for_deletion ≡ true → count (concerns s.source_id) planned.items ≡ 1))
        sources
plan_covers_example = plan_covers manifest sources planned refl refl plans
