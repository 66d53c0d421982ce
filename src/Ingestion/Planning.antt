-- ===== src/Ingestion/Planning.antt =====
-- ingestion/manifest.py and ingestion/planner.py: the manifest of a full scan, and the plan of the
-- changes. Keys and digests are the numbers that they spell, so that numbers are ordered as the texts
-- are. The path key of a path and the digest of a manifest are arguments.
pub mod Matching
pub mod Covering
pub mod Moving
mod Examples
use trustworthy_personal_kno.Prelude.{
  ℕ, Bool, true, false, not, ◌&&◌, ◌||◌, Option, none, some, List, [], ◌∷◌, ◌++◌, map, filter, all,
  contains, distinct, ltb, ◌==◌, nat_eq, or_else, if◌then◌else◌, Text, Result, ok, raised, ◌>>=◌,
  ◌>>◌, require,
}
use trustworthy_personal_kno.Domain.Enums.Source.{SourceVersionStatus, source_version_status_eq}
use trustworthy_personal_kno.Ingestion.Counting.{count, sort_by}

-- domain/enums.py
pub data IngestionAction : Type 0 where
  created updated moved deleted unchanged : IngestionAction

-- The order of the actions' values.
abbrev pub action_rank : IngestionAction → ℕ
action_rank created = 0
action_rank deleted = 1
action_rank moved = 2
action_rank unchanged = 3
action_rank updated = 4

pub data IngestionError : Type 0 where
  ingestion_error : IngestionError

pub record ManifestEntry : Type 0 where
  pub relative_path : Text
  pub path_key : ℕ
  pub size : ℕ
  pub mtime_ns : ℕ
  pub file_key : Option ℕ
  pub content_hash : Option ℕ
  pub error_category : Option Text

pub record IngestionManifest : Type 0 where
  pub complete : Bool
  pub entries : List ManifestEntry
  pub manifest_hash : ℕ

-- `build_manifest`
pub build_manifest :
    (path_key : Text → ℕ) (manifest_hash : List ManifestEntry → ℕ)
    → List ManifestEntry
    → Bool
    → Result IngestionError IngestionManifest
build_manifest path_key manifest_hash entries complete = do
  let ordered = sort_by (λ (e : ManifestEntry) f. ltb e.path_key f.path_key) entries
  require
      (all (λ (e : ManifestEntry). e.path_key == path_key e.relative_path) ordered
        && distinct (map (λ (e : ManifestEntry). e.path_key) ordered))
      ingestion_error
  ok (record { complete = complete; entries = ordered; manifest_hash = manifest_hash ordered })

pub record KnownSource : Type 0 where
  pub source_id : ℕ
  pub relative_path : Text
  pub path_key : ℕ
  pub file_key : Option ℕ
  pub current_version_id : Option ℕ
  pub current_content_hash : Option ℕ
  pub latest_version_id : Option ℕ
  pub latest_content_hash : Option ℕ
  pub latest_status : Option SourceVersionStatus
  pub eligible_for_deletion : Bool

pub record IngestionPlanItem : Type 0 where
  pub action : IngestionAction
  pub relative_path : Text
  pub path_key : ℕ
  pub source_id : Option ℕ
  pub file_key : Option ℕ
  pub content_hash : Option ℕ
  pub base_version_id : Option ℕ
  pub error_category : Option Text
  pub preserve_quarantine : Bool

pub record IngestionPlan : Type 0 where
  pub manifest_hash : ℕ
  pub items : List IngestionPlanItem

abbrev pub is_some {ℓ} : {A : Type ℓ} → Option A → Bool
is_some none = false
is_some (some a) = true

abbrev pub same_option : Option ℕ → Option ℕ → Bool
same_option none none = true
same_option none (some n) = false
same_option (some m) none = false
same_option (some m) (some n) = m == n

abbrev pub has_status : SourceVersionStatus → Option SourceVersionStatus → Bool
has_status s none = false
has_status s (some t) = t == s

-- The action at a path that is known.
unfoldable pub same_path_action : KnownSource → ManifestEntry → IngestionAction
same_path_action known entry =
    if is_some entry.error_category
    then updated
    else if not (
        same_option entry.content_hash
          (or_else known.latest_content_hash known.current_content_hash))
    then updated
    else if has_status SourceVersionStatus.parse_failed known.latest_status
    then updated
    else unchanged

abbrev pub is_unchanged : IngestionAction → Bool
is_unchanged unchanged = true
is_unchanged _ = false

-- `_same_path_item`
unfoldable pub same_path_item : KnownSource → ManifestEntry → IngestionPlanItem
unfolding same_path_action
same_path_item known entry = record {
  action = same_path_action known entry;
  relative_path = entry.relative_path;
  path_key = entry.path_key;
  source_id = some known.source_id;
  file_key = entry.file_key;
  content_hash = entry.content_hash;
  base_version_id = known.current_version_id;
  error_category = entry.error_category;
  preserve_quarantine =
      is_unchanged (same_path_action known entry)
      && has_status SourceVersionStatus.quarantined known.latest_status;
}

abbrev pub moved_item : KnownSource → ManifestEntry → IngestionPlanItem
moved_item source entry = record {
  action = moved;
  relative_path = entry.relative_path;
  path_key = entry.path_key;
  source_id = some source.source_id;
  file_key = entry.file_key;
  content_hash = entry.content_hash;
  base_version_id = source.current_version_id;
  error_category = entry.error_category;
  preserve_quarantine = false;
}

abbrev pub created_item : ManifestEntry → IngestionPlanItem
created_item entry = record {
  action = created;
  relative_path = entry.relative_path;
  path_key = entry.path_key;
  source_id = none;
  file_key = entry.file_key;
  content_hash = entry.content_hash;
  base_version_id = none;
  error_category = entry.error_category;
  preserve_quarantine = false;
}

abbrev pub deleted_item : KnownSource → IngestionPlanItem
deleted_item known = record {
  action = deleted;
  relative_path = known.relative_path;
  path_key = known.path_key;
  source_id = some known.source_id;
  file_key = known.file_key;
  content_hash = none;
  base_version_id = or_else known.current_version_id known.latest_version_id;
  error_category = none;
  preserve_quarantine = false;
}

-- The variables of `plan_ingestion`.
pub record Matched : Type 0 where
  pub known : List ℕ
  pub entries : List ℕ
  pub items : List IngestionPlanItem

-- One pair is matched, and its item is planned.
abbrev pub matched : Matched → KnownSource → ManifestEntry → IngestionPlanItem → Matched
matched st known entry item = record {
  known = known.source_id ∷ st.known;
  entries = entry.path_key ∷ st.entries;
  items = st.items ++ (item ∷ []);
}

-- A dict keeps the last entry of a key.
unfoldable pub find_entry : (ManifestEntry → Bool) → List ManifestEntry → Option ManifestEntry
find_entry p [] = none
find_entry p (e ∷ es) = or_else (find_entry p es) (if p e then some e else none)

abbrev pub match_path : Matched → KnownSource → Option ManifestEntry → Matched
match_path st known none = st
match_path st known (some entry) = matched st known entry (same_path_item known entry)

-- The loop over the common paths: over the known sources by path, those with an entry.
unfoldable pub match_paths : List ManifestEntry → List KnownSource → Matched → Matched
unfolding find_entry same_path_item
match_paths entries [] st = st
match_paths entries (k ∷ ks) st =
    match_paths entries ks
      (match_path st k (find_entry (λ (e : ManifestEntry). e.path_key == k.path_key) entries))

abbrev pub unmatched_known : Matched → List KnownSource → List KnownSource
unmatched_known st = filter (λ (s : KnownSource). not (contains st.known s.source_id))

abbrev pub unmatched_entries : Matched → List ManifestEntry → List ManifestEntry
unmatched_entries st = filter (λ (e : ManifestEntry). not (contains st.entries e.path_key))

-- The value is given, and no other than this.
abbrev pub has_value : Option ℕ → ℕ → Bool
has_value none n = false
has_value (some m) n = m == n

abbrev pub identity_before : Option ℕ → Option ℕ → Bool
identity_before none o = false
identity_before (some m) none = false
identity_before (some m) (some n) = ltb m n

module _ (identity : KnownSource → Option ℕ) (entry_identity : ManifestEntry → Option ℕ) where
  abbrev pub is_unique : List KnownSource → List ManifestEntry → Option ℕ → Bool
  is_unique known entries none = false
  is_unique known entries (some v) =
      count (λ s. has_value (identity s) v) known == 1
      && count (λ e. has_value (entry_identity e) v) entries == 1

  abbrev pub entry_of : List ManifestEntry → Option ℕ → Option ManifestEntry
  entry_of entries none = none
  entry_of entries (some v) = find_entry (λ e. has_value (entry_identity e) v) entries

  abbrev pub match_move : Matched → KnownSource → Option ManifestEntry → Matched
  match_move st source none = st
  match_move st source (some entry) = matched st source entry (moved_item source entry)

  unfoldable pub match_moves : List ManifestEntry → List KnownSource → Matched → Matched
  unfolding find_entry
  match_moves entries [] st = st
  match_moves entries (s ∷ ss) st =
      match_moves entries ss (match_move st s (entry_of entries (identity s)))

  -- The available sources whose identity is unique, by identity.
  abbrev pub candidates : List KnownSource → List ManifestEntry → Matched → List KnownSource
  candidates sources entries st =
      sort_by (λ (s : KnownSource) t. identity_before (identity s) (identity t))
        (filter
          (λ s. is_unique (unmatched_known st sources) (unmatched_entries st entries) (identity s))
          (unmatched_known st sources))

  -- `_match_unique_identity`
  unfoldable pub match_unique_identity : List KnownSource → List ManifestEntry → Matched → Matched
  unfolding match_moves
  match_unique_identity sources entries st =
      match_moves (unmatched_entries st entries) (candidates sources entries st) st

abbrev pub item_before : IngestionPlanItem → IngestionPlanItem → Bool
item_before i j =
    ltb i.path_key j.path_key
    || i.path_key == j.path_key && ltb (action_rank i.action) (action_rank j.action)

-- The matching of `plan_ingestion`: by path, by file, and by content.
unfoldable pub match_all : List ManifestEntry → List KnownSource → Matched
unfolding match_paths match_unique_identity
match_all entries known =
    let by_path =
      match_paths entries (sort_by (λ (s : KnownSource) t. ltb s.path_key t.path_key) known)
        (record { known = []; entries = []; items = [] }) in
    let sources = unmatched_known by_path known in
    let others = unmatched_entries by_path entries in
    match_unique_identity (λ (s : KnownSource). s.latest_content_hash)
      (λ (e : ManifestEntry). e.content_hash) sources others
      (match_unique_identity (λ (s : KnownSource). s.file_key) (λ (e : ManifestEntry). e.file_key)
        sources others by_path)

-- `plan_ingestion`
unfoldable pub plan_ingestion :
    IngestionManifest → List KnownSource → Result IngestionError IngestionPlan
unfolding match_all
plan_ingestion manifest known = do
  require manifest.complete ingestion_error
  require (distinct (map (λ (s : KnownSource). s.path_key) known)) ingestion_error
  let st = match_all manifest.entries known
  let created_items = map created_item (unmatched_entries st manifest.entries)
  let deleted_items = map deleted_item (
      filter (λ (s : KnownSource). not (contains st.known s.source_id) && s.eligible_for_deletion)
        known)
  ok (record {
    manifest_hash = manifest.manifest_hash;
    items = sort_by item_before (st.items ++ (created_items ++ deleted_items));
  })
