-- ===== src/Answer/Evidence/Locating.antt =====
-- What the evidence of answer/evidence.py is backed by.
use trustworthy_personal_kno.Prelude.{
  ℕ, ◌≡◌, ◌≢◌, refl, sym, ap, ◌∙◌, subst, true, Option, none, some, some-injective, List, [], ◌∷◌,
  map, distinct, subset-All, filter-Member, Member, All, All-map, All-Member, All-Member_self,
  Bool-cases, Option-cases, and_split, inl, inr, ◌==◌, nat_eq, ==→eq, ok, bind_inv, ok_injective,
}
use trustworthy_personal_kno.Domain.Enums.Publication.{
  CuratedVersionStatus, curated_version_status_eq,
}
use trustworthy_personal_kno.Persistence.Tables.{required_row_id}
use trustworthy_personal_kno.Persistence.Generations.{NoteRow, ControlPlane, is_null, is_value}
use trustworthy_personal_kno.Persistence.Publications.{
  VersionRow, Tables, any_note_row, curated_row, list_active_notes,
}
use trustworthy_personal_kno.Persistence.Publications.Recycling.{prepare_note_deletion}
use trustworthy_personal_kno.Persistence.Publications.Recycling.Returning.{deletion-Gone}
use trustworthy_personal_kno.Publication.Contracts.{RetrievalHit, RetrievalResult}
use trustworthy_personal_kno.Answer.Contracts.{AnswerEvidence}
use trustworthy_personal_kno.Answer.Evidence.{
  SnapshotArtifact, LocatedHit, find_note, is_served, serving_note, with_row, locate, belongs,
  evidence_of, with_snapshot, with_evidence, resolve,
}

-- A piece of evidence repeats the chunk of a hit, and names its note, its version, the generation of
-- the result, and the sources of the snapshot; the note is live, and points to the version of the hit
-- in the generation of the result; this version is active, and its snapshot has the claims of the
-- chunk.
pub record IsBacked (t : Tables) (snapshots : ℕ → Option SnapshotArtifact)
    (result : RetrievalResult) (e : AnswerEvidence) : Type 0 where
  pub hit : RetrievalHit
  pub note : NoteRow
  pub version : VersionRow
  pub artifact : SnapshotArtifact
  pub retrieved : Member hit result.hits
  pub same_chunk : e.chunk_id ≡ hit.chunk.chunk_id
  pub same_text : e.text ≡ hit.chunk.text
  pub same_claims : e.claim_ids ≡ hit.chunk.claim_ids
  pub same_quality : e.quality_status ≡ hit.chunk.quality_status
  pub same_sensitivity : e.sensitivity ≡ hit.chunk.sensitivity
  pub same_headings : e.heading_path ≡ hit.chunk.heading_path
  pub of_note : e.note_id ≡ note.id
  pub at_path : e.vault_path ≡ note.canonical_path
  pub of_version : e.curated_version_id ≡ version.id
  pub in_generation : e.generation_id ≡ result.generation_id
  pub sources : e.source_version_ids ≡ artifact.source_version_ids
  pub present : Member note t.plane.notes
  pub live : note.deleted_at ≡ none
  pub current : note.current_curated_version_id ≡ some version.id
  pub served : note.active_index_generation_id ≡ some result.generation_id
  pub found : curated_row t.versions version.id ≡ ok version
  pub active : version.status ≡ CuratedVersionStatus.active
  pub of_chunk : hit.chunk.curated_version_id ≡ version.id
  pub stored : snapshots version.content_hash ≡ some artifact
  pub claims : All (λ id. Member id artifact.claim_ids) hit.chunk.claim_ids

-- What the first loop guarantees of a row.
record IsRow (t : Tables) (result : RetrievalResult) (l : LocatedHit) : Type 0 where
  pub retrieved : Member l.hit result.hits
  pub present : Member l.note t.plane.notes
  pub live : l.note.deleted_at ≡ none
  pub current : l.note.current_curated_version_id ≡ some l.version.id
  pub served : l.note.active_index_generation_id ≡ some result.generation_id
  pub found : curated_row t.versions l.version.id ≡ ok l.version
  pub of_chunk : l.hit.chunk.curated_version_id ≡ l.version.id

null_none : (o : Option ℕ) → is_null o ≡ true → o ≡ none
null_none none h = refl
null_none (some n) h = cc

value_some : (o : Option ℕ) (n : ℕ) → is_value o n ≡ true → o ≡ some n
value_some none n h = cc
value_some (some m) n h = ap some (==→eq m n h)

find_note_Member :
    (ns : List NoteRow) (id : ℕ) (n : NoteRow)
    → find_note ns id ≡ some n
    → Member n ns × (n.id ≡ id)
unfolding find_note
find_note_Member [] id n h = cc
find_note_Member (x ∷ ns) id n h = elim (Option-cases (find_note ns id)) [
  | inr (y, e) ↦
      let same = some-injective _ _ (rw (e, find_note) at h) in
      let (m, i) = find_note_Member ns id n (e ∙ ap some same) in (inr m, i)
  | inl e ↦ elim (Bool-cases (x.id == id)) [
    | inl b ↦
        let same : x ≡ n = some-injective _ _ (rw (e, find_note, b) at h) in
        (inl same, ap (λ (y : NoteRow). y.id) (sym same) ∙ ==→eq _ _ b)
    | inr b ↦ cc (rw (e, find_note, b) at h)
  ]
]

serving_note_inv :
    (result : RetrievalResult) (hit : RetrievalHit) (o : Option NoteRow) (n : NoteRow)
    → serving_note result hit o ≡ some n
    → (o ≡ some n) × (is_served result hit n ≡ true)
serving_note_inv result hit none n h = cc
serving_note_inv result hit (some m) n h = elim (Bool-cases (is_served result hit m)) [
  | inl b ↦
      let same : m ≡ n = some-injective _ _ (rw b at h) in
      (ap some same, ap (is_served result hit) (sym same) ∙ b)
  | inr b ↦ cc (rw b at h)
]

module _ (t : Tables) (result : RetrievalResult) where
  found_hit-IsRow :
      (hit : RetrievalHit) (n : NoteRow) (v : VersionRow)
      → Member hit result.hits
      → serving_note result hit
          (find_note (list_active_notes t.plane.notes result.generation_id) hit.chunk.note_id)
        ≡ some n
      → curated_row t.versions hit.chunk.curated_version_id ≡ ok v
      → IsRow t result (record { hit = hit; note = n; version = v })
  unfolding list_active_notes
  found_hit-IsRow hit n v retrieved serving found =
      let (there, valid) = serving_note_inv result hit _ n serving in
      let (current, served) =
        and_split (is_value n.current_curated_version_id hit.chunk.curated_version_id) _ valid in
      let (m, own) =
        find_note_Member (list_active_notes t.plane.notes result.generation_id) hit.chunk.note_id n
          there in
      let (present, active) = filter-Member _ t.plane.notes n m in
      let named =
        required_row_id (λ (x : VersionRow). x.id) t.versions hit.chunk.curated_version_id v
          found in
      record {
        retrieved = retrieved;
        present = present;
        live = null_none _ (and_split (is_null n.deleted_at) _ active).0;
        current = value_some _ _ current ∙ ap some (sym named);
        served = value_some _ _ served;
        found = ap (curated_row t.versions) named ∙ found;
        of_chunk = sym named;
      }

  locate-AreRows :
      (hits : List RetrievalHit) (rows : List LocatedHit)
      → All (λ h. Member h result.hits) hits
      → locate t result hits ≡ ok rows
      → All (IsRow t result) rows
  unfolding locate
  locate-AreRows [] rows a h = subst (All (IsRow t result)) (ok_injective h) tt
  locate-AreRows (hit ∷ hits) rows a h =
      by
        (serving_note result hit
          (find_note (list_active_notes t.plane.notes result.generation_id) hit.chunk.note_id))
        refl h (locate-AreRows hits)
    where
      by :
          (o : Option NoteRow)
          → serving_note result hit
              (find_note (list_active_notes t.plane.notes result.generation_id) hit.chunk.note_id)
            ≡ o
          → with_row t hit o (locate t result hits) ≡ ok rows
          → ((rest : List LocatedHit)
              → All (λ h. Member h result.hits) hits
              → locate t result hits ≡ ok rest
              → All (IsRow t result) rest)
          → All (IsRow t result) rows
      by none e k ih = ih rows a.1 k
      by (some n) e k ih =
          let (v, found, k₁) = bind_inv (curated_row t.versions hit.chunk.curated_version_id) _ k in
          let (rest, later, k₂) = bind_inv (locate t result hits) _ k₁ in
          subst (All (IsRow t result)) (ok_injective k₂)
            (found_hit-IsRow hit n v a.0 e found, ih rest a.1 later)

  module _ (snapshots : ℕ → Option SnapshotArtifact) where
    backed :
        (l : LocatedHit) (artifact : SnapshotArtifact)
        → IsRow t result l
        → l.version.status ≡ CuratedVersionStatus.active
        → snapshots l.version.content_hash ≡ some artifact
        → belongs l artifact ≡ true
        → IsBacked t snapshots result (evidence_of result l artifact)
    backed l artifact r active stored h =
        let (note_named, h₁) = and_split (artifact.note_id == l.note.id) _ h in
        let (version_named, claims) =
          and_split (artifact.curated_version_id == l.version.id) _ h₁ in
        record {
          hit = l.hit;
          note = l.note;
          version = l.version;
          artifact = artifact;
          retrieved = r.retrieved;
          same_chunk = refl;
          same_text = refl;
          same_claims = refl;
          same_quality = refl;
          same_sensitivity = refl;
          same_headings = refl;
          of_note = refl;
          at_path = refl;
          of_version = refl;
          in_generation = refl;
          sources = refl;
          present = r.present;
          live = r.live;
          current = r.current;
          served = r.served;
          found = r.found;
          active = active;
          of_chunk = r.of_chunk;
          stored = stored;
          claims = subset-All l.hit.chunk.claim_ids artifact.claim_ids claims;
        }

    with_evidence-AreBacked :
        (rows : List LocatedHit)
        → All (IsRow t result) rows
        → All (IsBacked t snapshots result) (with_evidence snapshots result rows)
    unfolding with_evidence
    with_evidence-AreBacked [] a = tt
    with_evidence-AreBacked (l ∷ ls) a =
        elim (Bool-cases (l.version.status == CuratedVersionStatus.active)) [
          | inr b ↦ rw b (with_evidence-AreBacked ls a.1)
          | inl b ↦ rw b (
              by (snapshots l.version.content_hash) refl (==→eq _ _ b)
                (with_evidence-AreBacked ls a.1))
        ]
      where
        by :
            (o : Option SnapshotArtifact)
            → snapshots l.version.content_hash ≡ o
            → l.version.status ≡ CuratedVersionStatus.active
            → All (IsBacked t snapshots result) (with_evidence snapshots result ls)
            → All
                (IsBacked t snapshots result)
                (with_snapshot result l o (with_evidence snapshots result ls))
        by none e active rest = rest
        by (some artifact) e active rest = elim (Bool-cases (belongs l artifact)) [
          | inl c ↦ rw c (backed l artifact a.0 active e c, rest)
          | inr c ↦ rw c rest
        ]

    pub resolve-AreBacked :
        (es : List AnswerEvidence)
        → resolve t snapshots result ≡ ok es
        → All (IsBacked t snapshots result) es
    unfolding resolve
    resolve-AreBacked es h =
        let (rows, located, k) = bind_inv (locate t result result.hits) _ h in
        subst (All (IsBacked t snapshots result)) (ok_injective k) (
          with_evidence-AreBacked rows
            (locate-AreRows result.hits rows (All-Member_self result.hits) located))

-- Once a note is deleted, over unique ids, it is evidence no more: whatever the index still returns, no
-- piece of evidence that is resolved afterwards is of this note.
pub deleted_unanswerable :
    (t : Tables) (plane₁ : ControlPlane) (note_id job_id revision job_revision now : ℕ)
    (n : NoteRow) (snapshots : ℕ → Option SnapshotArtifact) (result : RetrievalResult)
    (es : List AnswerEvidence)
    → distinct (map (λ (x : NoteRow). x.id) t.plane.notes) ≡ true
    → any_note_row t.plane.notes note_id ≡ ok n
    → prepare_note_deletion t.plane note_id job_id revision job_revision now ≡ ok plane₁
    → resolve (record t { plane = plane₁ }) snapshots result ≡ ok es
    → All (λ e. e.note_id ≢ note_id) es
deleted_unanswerable t plane₁ note_id job_id revision job_revision now n snapshots result es unique
      found deleted h =
    All-map _ _ es
      (λ e b same.
        let gone =
          All-Member _ plane₁.notes b.note
            (deletion-Gone t.plane plane₁ note_id job_id revision job_revision now n found deleted
              unique)
            b.present (sym b.of_note ∙ same) in
        cc (sym b.live ∙ gone))
      (resolve-AreBacked (record t { plane = plane₁ }) result snapshots es h)
