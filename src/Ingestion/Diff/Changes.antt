-- ===== src/Ingestion/Diff/Changes.antt =====
-- What arrives and what departs by a structural diff, beside the two versions (ingestion/diff.py).
use trustworthy_personal_kno.Prelude.{
  ℕ, ◌≡◌, refl, sym, ap, ◌∙◌, Bool, true, not, none, some, List, map, contains, Member-contains,
  Member, All, All-append, All-Member, all_of, filter-Member, Member-filter, Member-append_left,
  Member-append_right, Bool-cases, Option-cases, and_split, inl, inr, nat_eq, subst,
}
use trustworthy_personal_kno.Ingestion.Diff.Dicts.{
  by_anchor_inv, hash_at-present, HasBlock, hash_at_inv, hash_at-by_anchor,
}
use trustworthy_personal_kno.Ingestion.Diff.Parts.{
  map-All, map-Member, contains-map_inv, IsMove, moved_blocks-IsMove, modified_blocks-All,
  modified_blocks-Member, refs_without-All, refs_without-Member,
}
use trustworthy_personal_kno.Ingestion.Diff.{
  ParsedBlock, BlockRef, MovedBlock, by_anchor, hash_at, same_hash, ref_of, unmatched, moved_blocks,
  remaining, modified_blocks, refs_without, structural_diff,
}
use trustworthy_personal_kno.Ingestion.Diff.Patching.{
  modified_ref, moved_ref, arrivals, departures, ref_at, ref_at-Member, anchor_of, unique_anchor,
  remaining_inv, moved_hashes, remaining-HasBlock,
}

module _ (before after : List ParsedBlock) where
  abbrev pub differs_at : ℕ → Bool
  differs_at a = not (same_hash (hash_at a before) (hash_at a after))

  pub unmatched_inv :
      (bs : List ParsedBlock) (b : ParsedBlock)
      → Member b (unmatched before after bs)
      → (hash_at b.anchor bs ≡ some b.text_hash) × (differs_at b.anchor ≡ true)
  unfolding unmatched
  unmatched_inv bs b m =
      let (k, d) = filter-Member (λ (b : ParsedBlock). differs_at b.anchor) (by_anchor bs) b m in
      (by_anchor_inv bs b k, d)

  unmatched-HasBlock :
      (bs : List ParsedBlock) (a h : ℕ)
      → hash_at a bs ≡ some h
      → differs_at a ≡ true
      → HasBlock a h (unmatched before after bs)
  unfolding unmatched
  unmatched-HasBlock bs a h e d =
      let x = hash_at-by_anchor a h bs e in
      record {
        block = x.block;
        stands =
            Member-filter (λ (b : ParsedBlock). differs_at b.anchor) (by_anchor bs) x.block x.stands
              (ap differs_at x.there ∙ d);
        there = x.there;
        reads = x.reads;
      }

  abbrev old : List ParsedBlock
  old = unmatched before after before

  abbrev new : List ParsedBlock
  new = unmatched before after after

  abbrev moves_between : List MovedBlock
  moves_between = moved_blocks old new

  abbrev old_rest : List ParsedBlock
  old_rest = remaining moves_between old

  abbrev new_rest : List ParsedBlock
  new_rest = remaining moves_between new

  -- A digest that is moved is that of a move.
  moved_by :
      (h : ℕ)
      → contains (moved_hashes moves_between) h ≡ true
      → (m : MovedBlock) × (Member m moves_between × (IsMove old new m × (m.text_hash ≡ h)))
  moved_by h c =
      let (m, found) = contains-map_inv (λ (m : MovedBlock). m.text_hash) moves_between h c in
      (m, (found.0, (All-Member _ moves_between m (moved_blocks-IsMove old new) found.0, found.1)))

  new_rest_inv : (b : ParsedBlock) → Member b new_rest → hash_at b.anchor after ≡ some b.text_hash
  new_rest_inv b m = (unmatched_inv after b (remaining_inv moves_between new b m)).0

  new_rest-hash_at : (a h : ℕ) → hash_at a new_rest ≡ some h → hash_at a after ≡ some h
  new_rest-hash_at a h e =
      let x = hash_at_inv a h new_rest e in
      ap (λ i. hash_at i after) (sym x.there) ∙ new_rest_inv x.block x.stands ∙ ap some x.reads

  -- What arrives stands in the new version.
  pub arrivals-All :
      All
        (λ (r : BlockRef). hash_at r.anchor after ≡ some r.text_hash)
        (arrivals (structural_diff before after))
  unfolding structural_diff
  arrivals-All =
      All-append _ _ _ (refs_without-All _ old_rest new_rest (all_of _ new_rest new_rest_inv)) (
        All-append _ _ _
          (map-All _ modified_ref _ (
            all_of _ _ (λ m k.
              new_rest-hash_at m.anchor m.after_hash
                (All-Member _ _ m (modified_blocks-All new_rest old_rest) k))))
          (map-All _ moved_ref _
            (all_of _ _ (λ m k. lands m (All-Member _ _ m (moved_blocks-IsMove old new) k)))))
    where
      lands : (m : MovedBlock) → IsMove old new m → hash_at m.to_anchor after ≡ some m.text_hash
      lands m is =
          ap (λ i. hash_at i after) (sym is.to.there)
          ∙ (unmatched_inv after is.to.block is.to.stands).0
          ∙ ap some is.to.reads

  no_arrival :
      (r : BlockRef) (a : ℕ) (rs : List BlockRef)
      → Member r rs
      → r.anchor ≡ a
      → ref_at a rs ≡ none
      → ⊥
  no_arrival r a rs m e absent = ref_at-Member rs r m (ap (λ i. ref_at i rs) e ∙ absent)

  -- A digest that an anchor comes to have arrives there.
  pub arrived :
      (a h : ℕ)
      → hash_at a after ≡ some h
      → differs_at a ≡ true
      → ref_at a (arrivals (structural_diff before after)) ≡ none
      → ⊥
  unfolding structural_diff
  arrived a h e d absent =
      let x = unmatched-HasBlock after a h e d in
      elim (Bool-cases (contains (moved_hashes moves_between) h)) [
        | inl c ↦
            let (m, found) = moved_by h c in
            let is = found.1.0 in
            no_arrival (moved_ref m) a _
              (Member-append_right _ (refs_without old_rest new_rest) _ (
                Member-append_right _ (map modified_ref (modified_blocks old_rest new_rest)) _
                  (map-Member moved_ref _ m found.0)))
              (unique_anchor new m.to_anchor a m.text_hash (and_split _ _ is.once).1 is.to
                (subst (λ n. HasBlock a n new) (sym found.1.1) x))
              absent
        | inr c ↦ stays (remaining-HasBlock moves_between new a h x c)
      ]
    where
      modified_arrives :
          (n : ℕ) (o : ParsedBlock)
          → Member o old_rest
          → o.anchor ≡ a
          → hash_at a new_rest ≡ some n
          → ⊥
      modified_arrives n o m at found =
          no_arrival (record { anchor = o.anchor; text_hash = n }) a _
            (Member-append_right _ (refs_without old_rest new_rest) _ (
              Member-append_left _ _ (map moved_ref moves_between) (
                map-Member modified_ref _ _ (
                  modified_blocks-Member new_rest old_rest o n m
                    (ap (λ i. hash_at i new_rest) at ∙ found)))))
            at absent

      stays : HasBlock a h new_rest → ⊥
      stays y = elim (Bool-cases (contains (map anchor_of old_rest) a)) [
        | inr c ↦
            no_arrival (ref_of y.block) a _
              (Member-append_left _ (refs_without old_rest new_rest) _ (
                refs_without-Member old_rest new_rest y.block y.stands
                  (ap (contains (map anchor_of old_rest)) y.there ∙ c)))
              y.there absent
        | inl c ↦
            let (o, found) = contains-map_inv anchor_of old_rest a c in
            elim (Option-cases (hash_at a new_rest)) [
              | inr (n, has) ↦ modified_arrives n o found.0 found.1 has
              | inl lacking ↦
                  hash_at-present a new_rest
                    (ap (contains (map anchor_of new_rest)) (sym y.there)
                      ∙ Member-contains _ _ (map-Member anchor_of new_rest y.block y.stands))
                    lacking
            ]
      ]

  -- Only anchors that change are left.
  pub departures-All : All (λ a. differs_at a ≡ true) (departures (structural_diff before after))
  unfolding structural_diff
  departures-All =
      All-append _ _ _
        (map-All _ (λ (r : BlockRef). r.anchor) _
          (refs_without-All (λ (r : BlockRef). differs_at r.anchor ≡ true) new_rest old_rest
            (all_of _ old_rest
              (λ b m. (unmatched_inv before b (remaining_inv moves_between old b m)).1))))
        (map-All _ (λ (m : MovedBlock). m.from_anchor) _
          (all_of _ _ (λ m k. leaves m (All-Member _ _ m (moved_blocks-IsMove old new) k))))
    where
      leaves : (m : MovedBlock) → IsMove old new m → differs_at m.from_anchor ≡ true
      leaves m is =
          ap differs_at (sym is.from.there) ∙ (unmatched_inv before is.from.block is.from.stands).1

  -- A block whose anchor is no more departs.
  pub departed :
      (a h : ℕ)
      → hash_at a before ≡ some h
      → hash_at a after ≡ none
      → contains (departures (structural_diff before after)) a ≡ true
  unfolding structural_diff
  departed a h e gone =
      let x = unmatched-HasBlock before a h e (rw (e, gone) refl) in
      elim (Bool-cases (contains (moved_hashes moves_between) h)) [
        | inl c ↦
            let (m, found) = moved_by h c in
            let is = found.1.0 in
            Member-contains _ a (
              Member-append_right _ (map (λ (r : BlockRef). r.anchor) _) _ (
                subst (λ i. Member i (map (λ (m : MovedBlock). m.from_anchor) moves_between))
                  (unique_anchor old m.from_anchor a m.text_hash (and_split _ _ is.once).0 is.from
                    (subst (λ n. HasBlock a n old) (sym found.1.1) x))
                  (map-Member (λ (m : MovedBlock). m.from_anchor) _ m found.0)))
        | inr c ↦ removed_from (remaining-HasBlock moves_between old a h x c)
      ]
    where
      removed_from :
          HasBlock a h old_rest → contains (departures (structural_diff before after)) a ≡ true
      removed_from y = elim (Bool-cases (contains (map anchor_of new_rest) a)) [
        | inl c ↦
            let (n, found) = contains-map_inv anchor_of new_rest a c in
            cc (sym gone, ap (λ i. hash_at i after) (sym found.1) ∙ new_rest_inv n found.0)
        | inr c ↦ Member-contains _ a (
            Member-append_left _ _ (map (λ (m : MovedBlock). m.from_anchor) moves_between) (
              subst
                (λ i. Member i (map (λ (r : BlockRef). r.anchor) (refs_without new_rest old_rest)))
                y.there
                (map-Member (λ (r : BlockRef). r.anchor) _ _
                  (refs_without-Member new_rest old_rest y.block y.stands
                    (ap (contains (map anchor_of new_rest)) y.there ∙ c)))))
      ]
