-- ===== src/Ingestion/Planning/Covering.antt =====
-- The plan of a scan (ingestion/planner.py): one item for each entry, at most one for each source.
use trustworthy_personal_kno.Prelude.{
  ℕ, ◌+◌, ◌≤◌, ◌≡◌, refl, sym, ap, ◌∙◌, subst, Bool, true, false, not, ◌&&◌, Option, List, [], ◌++◌,
  map, filter, contains, distinct, distinct-Only, Member, Member-filter, All, All-filter,
  All-filter_kept, all_of, Bool-cases, inl, inr, ◌==◌, nat_eq, ==→eq, ==-self, ltb, ok, require_inv,
  ok_injective, arith,
}
use trustworthy_personal_kno.Ingestion.Counting.{
  count, count-append, count-map, count-sort, count-zero, count-filter-le, count-filter_all,
  count-Member, count-distinct, occurs, occurs-absent, occurs-present, sort_by,
}
use trustworthy_personal_kno.Ingestion.Planning.{
  ManifestEntry, IngestionManifest, KnownSource, IngestionPlan, ingestion_error, created_item,
  deleted_item, Matched, match_paths, unmatched_known, unmatched_entries, match_unique_identity,
  match_all, item_before, plan_ingestion,
}
use trustworthy_personal_kno.Ingestion.Planning.Matching.{
  IsBalanced, arrives, concerns, match_paths-IsBalanced, match_paths-Grown,
}
use trustworthy_personal_kno.Ingestion.Planning.Moving.{
  match_unique-IsBalanced, match_unique-ids, match_unique-paths,
}

-- What holds of the matching: its items are those of the matched, nothing is matched twice.
record IsMatching (entries : List ManifestEntry) (st : Matched) : Type 0 where
  pub balanced : IsBalanced st
  pub ids : (s : ℕ) → occurs s st.known ≤ 1
  pub paths : (e : ManifestEntry) → Member e entries → occurs e.path_key st.entries ≤ 1

module _ (entries : List ManifestEntry) (known : List KnownSource)
    (by_id : distinct (map (λ (s : KnownSource). s.source_id) known) ≡ true)
    (by_path : distinct (map (λ (s : KnownSource). s.path_key) known) ≡ true)
    (by_entry : distinct (map (λ (e : ManifestEntry). e.path_key) entries) ≡ true) where
  abbrev after_paths : Matched
  after_paths =
      match_paths entries (sort_by (λ (s : KnownSource) t. ltb s.path_key t.path_key) known)
        (record { known = []; entries = []; items = [] })

  paths-IsMatching : IsMatching entries after_paths
  paths-IsMatching =
      let sorted = sort_by (λ (s : KnownSource) t. ltb s.path_key t.path_key) known in
      let (paths, ids) =
        match_paths-Grown entries sorted (record { known = []; entries = []; items = [] }) in
      record {
        balanced =
            match_paths-IsBalanced entries sorted (record { known = []; entries = []; items = [] })
              (record { at = λ k. refl; of = λ s. refl });
        ids = λ s. omega (
          arith,
          ids s,
          count-sort (λ (s : KnownSource) t. ltb s.path_key t.path_key)
              (λ (x : KnownSource). x.source_id == s) known,
          count-distinct (λ (x : KnownSource). x.source_id) known s by_id,
        );
        paths = λ e m. omega (
          arith,
          paths e.path_key,
          count-sort (λ (s : KnownSource) t. ltb s.path_key t.path_key)
              (λ (x : KnownSource). x.path_key == e.path_key) known,
          count-distinct (λ (x : KnownSource). x.path_key) known e.path_key by_path,
        );
      }

  unique-IsMatching :
      (identity : KnownSource → Option ℕ) (entry_identity : ManifestEntry → Option ℕ)
      (before st : Matched)
      → IsMatching entries st
      → IsMatching entries (
          match_unique_identity identity entry_identity
            (unmatched_known before known)
            (unmatched_entries before entries)
            st)
  unique-IsMatching identity entry_identity before st i = record {
    balanced = match_unique-IsBalanced identity entry_identity _ _ st i.balanced;
    ids = λ s.
        match_unique-ids identity entry_identity (unmatched_known before known)
          (unmatched_entries before entries) st s
          (omega (
            arith,
            count-filter-le (λ (x : KnownSource). not (contains before.known x.source_id))
                (λ (x : KnownSource). x.source_id == s) known,
            count-distinct (λ (x : KnownSource). x.source_id) known s by_id,
          ))
          (i.ids s);
    paths = λ e m.
        match_unique-paths identity entry_identity (unmatched_known before known)
          (unmatched_entries before entries) st e
          (All-filter_kept (λ (x : ManifestEntry). not (contains before.entries x.path_key)) _
            entries (distinct-Only (λ (x : ManifestEntry). x.path_key) entries e by_entry m))
          (i.paths e m);
  }

  match_all-IsMatching : IsMatching entries (match_all entries known)
  unfolding match_all
  match_all-IsMatching =
      let i = paths-IsMatching in
      let j =
        unique-IsMatching (λ (s : KnownSource). s.file_key) (λ (e : ManifestEntry). e.file_key)
          after_paths after_paths i in
      unique-IsMatching (λ (s : KnownSource). s.latest_content_hash)
        (λ (e : ManifestEntry). e.content_hash) after_paths _ j

module _ (st : Matched) (i : IsBalanced st) where
  -- The items of an entry: the one matched, or a new one.
  entry_items :
      (entries : List ManifestEntry) (sources : List KnownSource) (e : ManifestEntry)
      → Member e entries
      → count (λ (x : ManifestEntry). x.path_key == e.path_key) entries ≤ 1
      → occurs e.path_key st.entries ≤ 1
      → count (arrives e.path_key) (
          st.items ++ (map created_item (unmatched_entries st entries) ++ map deleted_item sources))
        ≡ 1
  entry_items entries sources e m once le =
      let own = λ (x : ManifestEntry). x.path_key == e.path_key in
      let total =
        count-append (arrives e.path_key) st.items
          (map created_item (unmatched_entries st entries) ++ map deleted_item sources)
        ∙ ap (λ n. count (arrives e.path_key) st.items + n)
            (count-append (arrives e.path_key) (map created_item (unmatched_entries st entries))
              (map deleted_item sources)) in
      let new = count-map created_item (arrives e.path_key) (unmatched_entries st entries) in
      let none_old =
        count-map deleted_item (arrives e.path_key) sources
        ∙ count-zero (λ (x : KnownSource). false) sources (all_of _ sources (λ x n. refl)) in
      let there = count-Member own entries e m (==-self e.path_key) in
      elim (Bool-cases (contains st.entries e.path_key)) [
        | inl old ↦ omega (
          arith,
          total,
          i.at e.path_key,
          new,
          none_old,
          le,
          occurs-present st.entries e.path_key old,
          count-zero own (unmatched_entries st entries) (none_left old),
        )
        | inr fresh ↦ omega (
          arith,
          total,
          i.at e.path_key,
          new,
          none_old,
          occurs-absent st.entries e.path_key fresh,
          there,
          once,
          count-filter_all (λ (x : ManifestEntry). not (contains st.entries x.path_key)) own entries
              (passes fresh),
        )
      ]
    where
      negated : (b : Bool) → not b ≡ true → b ≡ false
      negated b h = ground arith

      none_left :
          contains st.entries e.path_key ≡ true
          → All
              (λ (x : ManifestEntry). (x.path_key == e.path_key) ≡ false)
              (unmatched_entries st entries)
      none_left old = All-filter _ _ entries (λ x new.
          elim (Bool-cases (x.path_key == e.path_key)) [
            | inl b ↦ cc (sym (negated _ new) ∙ ap (contains st.entries) (==→eq _ _ b) ∙ old)
            | inr b ↦ b
          ])

      passes :
          contains st.entries e.path_key ≡ false
          → (x : ManifestEntry) → (x.path_key == e.path_key) ≡ true
          → not (contains st.entries x.path_key) ≡ true
      passes fresh x b = ap not (ap (contains st.entries) (==→eq _ _ b) ∙ fresh)

  -- The items of a source: the one matched, or its deletion.
  source_items :
      (known : List KnownSource) (entries : List ManifestEntry) (s : KnownSource)
      → Member s known
      → count (λ (x : KnownSource). x.source_id == s.source_id) known ≤ 1
      → occurs s.source_id st.known ≤ 1
      → (n : ℕ) × (n
          ≡ count (concerns s.source_id) (
              st.items
              ++ (map created_item entries
                  ++ map deleted_item (
                      filter
                        (λ (x : KnownSource).
                          not (contains st.known x.source_id) && x.eligible_for_deletion)
                        known))))
        × (n ≤ 1)
        × (s.eligible_for_deletion ≡ true → n ≡ 1)
  source_items known entries s m once le =
      let own = λ (x : KnownSource). x.source_id == s.source_id in
      let keep =
        λ (x : KnownSource). not (contains st.known x.source_id) && x.eligible_for_deletion in
      let total =
        count-append (concerns s.source_id) st.items
          (map created_item entries ++ map deleted_item (filter keep known))
        ∙ ap (λ n. count (concerns s.source_id) st.items + n)
            (count-append (concerns s.source_id) (map created_item entries)
              (map deleted_item (filter keep known))) in
      let no_new =
        count-map created_item (concerns s.source_id) entries
        ∙ count-zero (λ (x : ManifestEntry). false) entries (all_of _ entries (λ x n. refl)) in
      let gone = count-map deleted_item (concerns s.source_id) (filter keep known) in
      let few = count-filter-le keep own known in
      elim (Bool-cases (contains st.known s.source_id)) [
        | inl old ↦
            let rest = count-zero own (filter keep known) (none_left old) in
            (
              _,
              refl,
              omega (arith, total, i.of s.source_id, no_new, gone, rest, le),
              λ eligible. omega (
                arith,
                total,
                i.of s.source_id,
                no_new,
                gone,
                rest,
                le,
                occurs-present st.known s.source_id old,
              ),
            )
        | inr fresh ↦ (
          _,
          refl,
          omega (
            arith,
            total,
            i.of s.source_id,
            no_new,
            gone,
            few,
            once,
            occurs-absent st.known s.source_id fresh,
          ),
          λ eligible. omega (
            arith,
            total,
            i.of s.source_id,
            no_new,
            gone,
            few,
            once,
            occurs-absent st.known s.source_id fresh,
            count-Member own (filter keep known) s
                (Member-filter keep known s m (both fresh eligible)) (==-self s.source_id),
          ),
        )
      ]
    where
      both :
          contains st.known s.source_id ≡ false
          → s.eligible_for_deletion ≡ true
          → (not (contains st.known s.source_id) && s.eligible_for_deletion) ≡ true
      both fresh eligible = rw (fresh, eligible) refl

      negated : (b c : Bool) → (not b && c) ≡ true → b ≡ false
      negated b c h = ground arith

      none_left :
          contains st.known s.source_id ≡ true
          → All
              (λ (x : KnownSource). (x.source_id == s.source_id) ≡ false)
              (filter
                (λ (x : KnownSource).
                  not (contains st.known x.source_id) && x.eligible_for_deletion)
                known)
      none_left old = All-filter _ _ known (λ x new.
          elim (Bool-cases (x.source_id == s.source_id)) [
            | inl b ↦ cc (sym (negated _ _ new) ∙ ap (contains st.known) (==→eq _ _ b) ∙ old)
            | inr b ↦ b
          ])

-- Over distinct ids of the sources and distinct paths of the entries, a plan has exactly one item that
-- brings the path of each entry, at most one item about each source, and exactly one about each source
-- that may be deleted: nothing that was scanned is passed over or handled twice.
pub plan_covers :
    (m : IngestionManifest) (known : List KnownSource) (p : IngestionPlan)
    → distinct (map (λ (s : KnownSource). s.source_id) known) ≡ true
    → distinct (map (λ (e : ManifestEntry). e.path_key) m.entries) ≡ true
    → plan_ingestion m known ≡ ok p
    → All (λ e. count (arrives e.path_key) p.items ≡ 1) m.entries
      × All
          (λ s.
            (count (concerns s.source_id) p.items ≤ 1)
            × (s.eligible_for_deletion ≡ true → count (concerns s.source_id) p.items ≡ 1))
          known
unfolding plan_ingestion
plan_covers m known p by_id by_entry h =
    let (complete, h₁) = require_inv m.complete ingestion_error _ h in
    let (by_path, h₂) =
      require_inv (distinct (map (λ (s : KnownSource). s.path_key) known)) ingestion_error _ h₁ in
    let st = match_all m.entries known in
    let i = match_all-IsMatching m.entries known by_id by_path by_entry in
    let deletions =
      filter (λ (s : KnownSource). not (contains st.known s.source_id) && s.eligible_for_deletion)
        known in
    let items =
      st.items
      ++ (map created_item (unmatched_entries st m.entries) ++ map deleted_item deletions) in
    subst
      (λ (q : IngestionPlan).
        All (λ e. count (arrives e.path_key) q.items ≡ 1) m.entries
        × All
            (λ s.
              (count (concerns s.source_id) q.items ≤ 1)
              × (s.eligible_for_deletion ≡ true → count (concerns s.source_id) q.items ≡ 1))
            known)
      (ok_injective h₂)
      (
        all_of _ m.entries (λ e n.
            count-sort item_before (arrives e.path_key) items
            ∙ entry_items st i.balanced m.entries deletions e n
                (count-distinct (λ (x : ManifestEntry). x.path_key) m.entries e.path_key by_entry)
                (i.paths e n)),
        all_of _ known (λ s n.
            let (total, same, few, one) =
              source_items st i.balanced known (unmatched_entries st m.entries) s n
                (count-distinct (λ (x : KnownSource). x.source_id) known s.source_id by_id)
                (i.ids s.source_id) in
            let sorted = count-sort item_before (concerns s.source_id) items in
            (omega (arith, same, few, sorted), λ eligible. sorted ∙ sym same ∙ one eligible)),
      )
