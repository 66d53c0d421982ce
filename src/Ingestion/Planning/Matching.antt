-- ===== src/Ingestion/Planning/Matching.antt =====
-- The matching of sources and entries (ingestion/planner.py): the items that it plans, and that
-- nothing is matched twice.
use trustworthy_personal_kno.Prelude.{
  ℕ, suc, ◌+◌, ◌≤◌, ◌≡◌, refl, sym, ap, ◌∙◌, Bool, true, false, not, ◌&&◌, Option, none, some,
  some-injective, List, [], ◌∷◌, ◌++◌, Member, Bool-cases, Option-cases, inl, inr, or_else, ◌==◌,
  nat_eq, ==→eq, if◌then◌else◌, arith,
}
use trustworthy_personal_kno.Domain.Enums.Source.{SourceVersionStatus, source_version_status_eq}
use trustworthy_personal_kno.Ingestion.Counting.{count, count-append, occurs}
use trustworthy_personal_kno.Ingestion.Planning.{
  IngestionAction, updated, deleted, unchanged, ManifestEntry, KnownSource, IngestionPlanItem,
  same_path_action, same_path_item, Matched, matched, find_entry, match_path, match_paths,
  has_value, is_some, same_option, has_status,
}

abbrev pub is_deleted : IngestionAction → Bool
is_deleted deleted = true
is_deleted _ = false

-- The item brings the path to be, with its content.
abbrev pub arrives : ℕ → IngestionPlanItem → Bool
arrives k i = not (is_deleted i.action) && i.path_key == k

-- The item is about the source.
abbrev pub concerns : ℕ → IngestionPlanItem → Bool
concerns s i = has_value i.source_id s

-- The items are those of what is matched.
pub record IsBalanced (st : Matched) : Type 0 where
  pub at : (k : ℕ) → count (arrives k) st.items ≡ occurs k st.entries
  pub of : (s : ℕ) → count (concerns s) st.items ≡ occurs s st.known

count-snoc :
    (p : IngestionPlanItem → Bool) (is : List IngestionPlanItem) (i : IngestionPlanItem) (b : Bool)
    → p i ≡ b
    → count p (is ++ (i ∷ [])) ≡ (if b then suc (count p is) else count p is)
count-snoc p is i b h = count-append p is (i ∷ []) ∙ rw h (last b)
  where
    last :
        (b : Bool)
        → count p is + (if b then suc 0 else 0) ≡ (if b then suc (count p is) else count p is)
    last b = ground arith

pub matched-IsBalanced :
    (st : Matched) (source : KnownSource) (entry : ManifestEntry) (item : IngestionPlanItem)
    → is_deleted item.action ≡ false
    → item.path_key ≡ entry.path_key
    → item.source_id ≡ some source.source_id
    → IsBalanced st
    → IsBalanced (matched st source entry item)
matched-IsBalanced st source entry item kept path owner b = record {
  at = λ k.
      count-snoc (arrives k) st.items item (entry.path_key == k) (rw (kept, path) refl)
      ∙ ap (λ n. if entry.path_key == k then suc n else n) (b.at k);
  of = λ s.
      count-snoc (concerns s) st.items item (source.source_id == s) (rw owner refl)
      ∙ ap (λ n. if source.source_id == s then suc n else n) (b.of s);
}

same_path_kept :
    (k : KnownSource) (e : ManifestEntry) → is_deleted (same_path_item k e).action ≡ false
unfolding same_path_item same_path_action
same_path_kept k e =
    choice (is_some e.error_category)
      (not (same_option e.content_hash (or_else k.latest_content_hash k.current_content_hash)))
      (has_status SourceVersionStatus.parse_failed k.latest_status)
  where
    choice :
        (a b c : Bool)
        → is_deleted
            (if a then updated else if b then updated else if c then updated else unchanged)
          ≡ false
    choice a b c = ground arith

pub find_entry_inv :
    (p : ManifestEntry → Bool) (es : List ManifestEntry) (e : ManifestEntry)
    → find_entry p es ≡ some e
    → Member e es × (p e ≡ true)
unfolding find_entry
find_entry_inv p [] e h = cc
find_entry_inv p (x ∷ es) e h = elim (Option-cases (find_entry p es)) [
  | inr (y, found) ↦
      let same = some-injective _ _ (rw (found, find_entry) at h) in
      let (m, t) = find_entry_inv p es e (found ∙ ap some same) in (inr m, t)
  | inl absent ↦ elim (Bool-cases (p x)) [
    | inl b ↦
        let same : x ≡ e = some-injective _ _ (rw (absent, find_entry, b) at h) in
        (inl same, ap p (sym same) ∙ b)
    | inr b ↦ cc (rw (absent, find_entry, b) at h)
  ]
]

match_path-IsBalanced :
    (st : Matched) (k : KnownSource) (o : Option ManifestEntry)
    → IsBalanced st
    → IsBalanced (match_path st k o)
unfolding same_path_item
match_path-IsBalanced st k none b = b
match_path-IsBalanced st k (some e) b =
    matched-IsBalanced st k e (same_path_item k e) (same_path_kept k e) refl refl b

pub match_paths-IsBalanced :
    (entries : List ManifestEntry) (ks : List KnownSource) (st : Matched)
    → IsBalanced st
    → IsBalanced (match_paths entries ks st)
unfolding match_paths
match_paths-IsBalanced entries [] st b = b
match_paths-IsBalanced entries (k ∷ ks) st b = match_paths-IsBalanced entries ks _ (
    match_path-IsBalanced st k
      (find_entry (λ (e : ManifestEntry). e.path_key == k.path_key) entries) b)

-- What a pass over the sources adds, by an upper bound.
pub grows :
    (n m : ℕ) (b c : Bool) (r : ℕ)
    → (b ≡ true → c ≡ true)
    → m ≤ (if b then suc n else n) + r
    → m ≤ n + (if c then suc r else r)
grows n m true true r h le = omega arith
grows n m true false r h le = cc (h refl)
grows n m false true r h le = omega arith
grows n m false false r h le = le

-- A matching holds at most the keys of these sources more than another one.
abbrev pub Grown : Matched → List KnownSource → Matched → Type 0
Grown st ks st' =
    ((k : ℕ)
      → occurs k st'.entries
        ≤ occurs k st.entries + count (λ (s : KnownSource). s.path_key == k) ks)
    × ((s : ℕ)
        → occurs s st'.known ≤ occurs s st.known + count (λ (x : KnownSource). x.source_id == s) ks)

match_path-Grown :
    (st st' : Matched) (x : KnownSource) (ks : List KnownSource) (o : Option ManifestEntry)
    → ((e : ManifestEntry) → o ≡ some e → e.path_key ≡ x.path_key)
    → Grown (match_path st x o) ks st'
    → Grown st (x ∷ ks) st'
match_path-Grown st st' x ks none at (paths, ids) = (
  λ k. grows (occurs k st.entries) _ false (x.path_key == k) _ (λ h. cc) (paths k),
  λ s. grows (occurs s st.known) _ false (x.source_id == s) _ (λ h. cc) (ids s),
)
match_path-Grown st st' x ks (some e) at (paths, ids) = (
  λ k.
      grows (occurs k st.entries) _ (e.path_key == k) (x.path_key == k) _
        (λ h. ap (λ p. p == k) (sym (at e refl)) ∙ h) (paths k),
  λ s. grows (occurs s st.known) _ (x.source_id == s) (x.source_id == s) _ (λ h. h) (ids s),
)

pub match_paths-Grown :
    (entries : List ManifestEntry) (ks : List KnownSource) (st : Matched)
    → Grown st ks (match_paths entries ks st)
unfolding match_paths
match_paths-Grown entries [] st = (λ k. omega arith, λ s. omega arith)
match_paths-Grown entries (x ∷ ks) st =
    match_path-Grown st (match_paths entries (x ∷ ks) st) x ks
      (find_entry (λ (e : ManifestEntry). e.path_key == x.path_key) entries)
      (λ e found. ==→eq e.path_key x.path_key (find_entry_inv _ entries e found).1)
      (match_paths-Grown entries ks _)
