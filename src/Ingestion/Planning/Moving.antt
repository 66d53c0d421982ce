-- ===== src/Ingestion/Planning/Moving.antt =====
-- The matching by a unique identity (ingestion/planner.py): nothing is matched twice.
use trustworthy_personal_kno.Prelude.{
  ℕ, ◌+◌, ◌≤◌, ◌≡◌, refl, sym, ap, ◌∙◌, subst, Bool, true, false, not, Option, none, some, List, [],
  ◌∷◌, filter, contains, Member, filter-Member, All, All-filter, All-Member, Bool-cases, and_split,
  inl, inr, ◌==◌, nat_eq, ==→eq, ==-self, arith,
}
use trustworthy_personal_kno.Ingestion.Counting.{
  count, count-sort, count-filter-le, count-zero, count-filter_or, occurs, occurs-absent,
}
use trustworthy_personal_kno.Ingestion.Planning.{
  ManifestEntry, KnownSource, moved_item, Matched, unmatched_known, unmatched_entries, has_value,
  is_unique, entry_of, match_move, match_moves, match_unique_identity, identity_before, candidates,
}
use trustworthy_personal_kno.Ingestion.Planning.Matching.{
  IsBalanced, matched-IsBalanced, grows, find_entry_inv,
}

has_value_inv : (o : Option ℕ) (n : ℕ) → has_value o n ≡ true → o ≡ some n
has_value_inv none n h = cc
has_value_inv (some m) n h = ap some (==→eq m n h)

all_false : (xs : List KnownSource) → All (λ (x : KnownSource). ◌≡◌ {A = Bool} false false) xs
all_false [] = tt
all_false (x ∷ xs) = (refl, all_false xs)

-- A source's identity is that of an entry.
abbrev shares : Option ℕ → Option ℕ → Bool
shares none i = false
shares (some w) i = has_value i w

module _ (identity : KnownSource → Option ℕ) (entry_identity : ManifestEntry → Option ℕ) where
  match_move-IsBalanced :
      (st : Matched) (s : KnownSource) (o : Option ManifestEntry)
      → IsBalanced st
      → IsBalanced (match_move identity entry_identity st s o)
  match_move-IsBalanced st s none b = b
  match_move-IsBalanced st s (some e) b =
      matched-IsBalanced st s e (moved_item s e) refl refl refl b

  match_moves-IsBalanced :
      (entries : List ManifestEntry) (ss : List KnownSource) (st : Matched)
      → IsBalanced st
      → IsBalanced (match_moves identity entry_identity entries ss st)
  unfolding match_moves
  match_moves-IsBalanced entries [] st b = b
  match_moves-IsBalanced entries (s ∷ ss) st b =
      match_moves-IsBalanced entries ss _
        (match_move-IsBalanced st s (entry_of identity entry_identity entries (identity s)) b)

  -- An entry that is found has the identity that was sought.
  entry_of_inv :
      (entries : List ManifestEntry) (o : Option ℕ) (e : ManifestEntry)
      → entry_of identity entry_identity entries o ≡ some e
      → Member e entries × (v : ℕ) × (o ≡ some v) × (entry_identity e ≡ some v)
  entry_of_inv entries none e h = cc
  entry_of_inv entries (some v) e h =
      let (m, t) = find_entry_inv (λ x. has_value (entry_identity x) v) entries e h in
      (m, v, refl, has_value_inv _ v t)

  -- What the moves add at a path is at most what passes a test that these sources pass.
  match_moves-paths :
      (entries : List ManifestEntry) (k : ℕ) (q : KnownSource → Bool)
      → ((x : KnownSource) (e : ManifestEntry)
          → entry_of identity entry_identity entries (identity x) ≡ some e
          → e.path_key ≡ k
          → q x ≡ true)
      → (ss : List KnownSource) (st : Matched)
      → occurs k (match_moves identity entry_identity entries ss st).entries
        ≤ occurs k st.entries + count q ss
  unfolding match_moves
  match_moves-paths entries k q test [] st = omega arith
  match_moves-paths entries k q test (x ∷ ss) st =
      by (entry_of identity entry_identity entries (identity x)) (test x)
        (λ st'. match_moves-paths entries k q test ss st')
    where
      by :
          (o : Option ManifestEntry)
          → ((e : ManifestEntry) → o ≡ some e → e.path_key ≡ k → q x ≡ true)
          → ((st' : Matched)
              → occurs k (match_moves identity entry_identity entries ss st').entries
                ≤ occurs k st'.entries + count q ss)
          → occurs k
              (match_moves identity entry_identity entries ss
                (match_move identity entry_identity st x o)).entries
            ≤ occurs k st.entries + count q (x ∷ ss)
      by none passes ih = grows (occurs k st.entries) _ false (q x) _ (λ h. cc) (ih st)
      by (some e) passes ih =
          grows (occurs k st.entries) _ (e.path_key == k) (q x) _ (λ h. passes e refl (==→eq _ _ h))
            (ih (match_move identity entry_identity st x (some e)))

  match_moves-ids :
      (entries : List ManifestEntry) (s : ℕ) (ss : List KnownSource) (st : Matched)
      → occurs s (match_moves identity entry_identity entries ss st).known
        ≤ occurs s st.known + count (λ (x : KnownSource). x.source_id == s) ss
  unfolding match_moves
  match_moves-ids entries s [] st = omega arith
  match_moves-ids entries s (x ∷ ss) st =
      by (entry_of identity entry_identity entries (identity x))
        (λ st'. match_moves-ids entries s ss st')
    where
      by :
          (o : Option ManifestEntry)
          → ((st' : Matched)
              → occurs s (match_moves identity entry_identity entries ss st').known
                ≤ occurs s st'.known + count (λ (y : KnownSource). y.source_id == s) ss)
          → occurs s
              (match_moves identity entry_identity entries ss
                (match_move identity entry_identity st x o)).known
            ≤ occurs s st.known + count (λ (y : KnownSource). y.source_id == s) (x ∷ ss)
      by none ih = grows (occurs s st.known) _ false (x.source_id == s) _ (λ h. cc) (ih st)
      by (some e) ih =
          grows (occurs s st.known) _ (x.source_id == s) (x.source_id == s) _ (λ h. h)
            (ih (match_move identity entry_identity st x (some e)))

  pub match_unique-IsBalanced :
      (sources : List KnownSource) (entries : List ManifestEntry) (st : Matched)
      → IsBalanced st
      → IsBalanced (match_unique_identity identity entry_identity sources entries st)
  unfolding match_unique_identity
  match_unique-IsBalanced sources entries st b =
      match_moves-IsBalanced (unmatched_entries st entries)
        (candidates identity entry_identity sources entries st) st b

  -- Of the candidates no more pass a test than of the available sources.
  count-candidates :
      (sources : List KnownSource) (entries : List ManifestEntry) (st : Matched)
      (q : KnownSource → Bool)
      → count q (candidates identity entry_identity sources entries st)
        ≤ count q (unmatched_known st sources)
  count-candidates sources entries st q = omega (
    arith,
    count-sort (λ (s : KnownSource) t. identity_before (identity s) (identity t)) q
        (filter
          (λ s.
            is_unique identity entry_identity (unmatched_known st sources)
              (unmatched_entries st entries) (identity s))
          (unmatched_known st sources)),
    count-filter-le
        (λ s.
          is_unique identity entry_identity (unmatched_known st sources)
            (unmatched_entries st entries) (identity s))
        q (unmatched_known st sources),
  )

  -- At most one candidate has a given identity.
  candidates-Few :
      (sources : List KnownSource) (entries : List ManifestEntry) (st : Matched) (o : Option ℕ)
      → count (λ x. shares o (identity x)) (candidates identity entry_identity sources entries st)
        ≤ 1
  candidates-Few sources entries st o = omega (
    arith,
    count-sort (λ (s : KnownSource) t. identity_before (identity s) (identity t))
        (λ x. shares o (identity x)) (filter unique (unmatched_known st sources)),
    few o,
  )
    where
      unique : KnownSource → Bool
      unique s =
          is_unique identity entry_identity (unmatched_known st sources)
            (unmatched_entries st entries) (identity s)

      one :
          (w : ℕ) (i : Option ℕ)
          → has_value i w ≡ true
          → is_unique identity entry_identity
              (unmatched_known st sources)
              (unmatched_entries st entries)
              i
            ≡ true
          → count (λ x. has_value (identity x) w) (unmatched_known st sources) ≡ 1
      one w none h u = cc
      one w (some v) h u =
          subst (λ n. count (λ x. has_value (identity x) n) (unmatched_known st sources) ≡ 1)
            (==→eq v w h)
            (==→eq _ _
              (and_split (count (λ x. has_value (identity x) v) (unmatched_known st sources) == 1) _
                u).0)

      few :
          (o : Option ℕ)
          → count (λ x. shares o (identity x)) (filter unique (unmatched_known st sources)) ≤ 1
      few none = omega (
        arith,
        count-zero (λ (x : KnownSource). false) (filter unique (unmatched_known st sources))
            (all_false (filter unique (unmatched_known st sources))),
      )
      few (some w) =
          count-filter_or unique (λ x. has_value (identity x) w)
            (count (λ x. has_value (identity x) w) (unmatched_known st sources))
            (unmatched_known st sources) (λ x h u. one w (identity x) h u) (omega arith)

  -- A source is matched at most once.
  pub match_unique-ids :
      (sources : List KnownSource) (entries : List ManifestEntry) (st : Matched) (s : ℕ)
      → count (λ (x : KnownSource). x.source_id == s) sources ≤ 1
      → occurs s st.known ≤ 1
      → occurs s (match_unique_identity identity entry_identity sources entries st).known ≤ 1
  unfolding match_unique_identity
  match_unique-ids sources entries st s once le =
      let own = λ (x : KnownSource). x.source_id == s in
      let grown =
        match_moves-ids (unmatched_entries st entries) s
          (candidates identity entry_identity sources entries st) st in
      let few = count-candidates sources entries st own in
      elim (Bool-cases (contains st.known s)) [
        | inl old ↦
            omega
              (arith, le, grown, few, count-zero own (unmatched_known st sources) (none_left old))
        | inr new ↦ omega (
          arith,
          occurs-absent st.known s new,
          once,
          grown,
          few,
          count-filter-le (λ (x : KnownSource). not (contains st.known x.source_id)) own sources,
        )
      ]
    where
      negated : (b : Bool) → not b ≡ true → b ≡ false
      negated b h = ground arith

      none_left :
          contains st.known s ≡ true
          → All (λ (x : KnownSource). (x.source_id == s) ≡ false) (unmatched_known st sources)
      none_left old = All-filter _ _ sources (λ x new. elim (Bool-cases (x.source_id == s)) [
        | inl b ↦ cc (sym (negated _ new) ∙ ap (contains st.known) (==→eq _ _ b) ∙ old)
        | inr b ↦ b
      ])

  -- A path is matched at most once, if it is that of one entry.
  pub match_unique-paths :
      (sources : List KnownSource) (entries : List ManifestEntry) (st : Matched) (e : ManifestEntry)
      → All (λ (x : ManifestEntry). x.path_key ≡ e.path_key → x ≡ e) entries
      → occurs e.path_key st.entries ≤ 1
      → occurs e.path_key (match_unique_identity identity entry_identity sources entries st).entries
        ≤ 1
  unfolding match_unique_identity
  match_unique-paths sources entries st e sole le =
      elim (Bool-cases (contains st.entries e.path_key)) [
        | inl old ↦ omega (
          arith,
          le,
          match_moves-paths (unmatched_entries st entries) e.path_key (λ x. false)
              (λ x f found same. absurd (gone old f (entry_of_inv _ _ f found).0 same))
              (candidates identity entry_identity sources entries st) st,
          count-zero (λ (x : KnownSource). false)
              (candidates identity entry_identity sources entries st)
              (all_false (candidates identity entry_identity sources entries st)),
        )
        | inr new ↦ omega (
          arith,
          occurs-absent st.entries e.path_key new,
          match_moves-paths (unmatched_entries st entries) e.path_key
              (λ x. shares (entry_identity e) (identity x))
              (λ x f found same. its_identity x f (entry_of_inv _ _ f found) same)
              (candidates identity entry_identity sources entries st) st,
          candidates-Few sources entries st (entry_identity e),
        )
      ]
    where
      its_identity :
          (x : KnownSource) (f : ManifestEntry)
          → Member f (unmatched_entries st entries)
            × (v : ℕ) × (identity x ≡ some v)
            × (entry_identity f ≡ some v)
          → f.path_key ≡ e.path_key
          → shares (entry_identity e) (identity x) ≡ true
      its_identity x f (m, v, left, right) same =
          let (n, fresh) =
            filter-Member (λ (y : ManifestEntry). not (contains st.entries y.path_key)) entries f
              m in
          let own : f ≡ e = All-Member _ entries f sole n same in
          rw left (rw (sym (ap entry_identity own) ∙ right) (==-self v))

      negated : (b : Bool) → not b ≡ true → b ≡ false
      negated b h = ground arith

      gone :
          contains st.entries e.path_key ≡ true
          → (f : ManifestEntry) → Member f (unmatched_entries st entries)
          → f.path_key ≡ e.path_key
          → ⊥
      gone old f m same =
          let (n, fresh) =
            filter-Member (λ (x : ManifestEntry). not (contains st.entries x.path_key)) entries f
              m in
          cc (sym (negated _ fresh) ∙ ap (contains st.entries) same ∙ old)
