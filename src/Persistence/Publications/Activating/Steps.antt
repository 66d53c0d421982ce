-- ===== src/Persistence/Publications/Activating/Steps.antt =====
-- The steps of `activate_publication` (persistence/publication_repository.py).
use trustworthy_personal_kno.Prelude.{
  ℕ, ◌+◌, ◌≡◌, ◌≢◌, refl, sym, ap, ◌∙◌, subst, Bool, true, false, ◌&&◌, Option, none, some,
  some-injective, List, [], ◌∷◌, map, All, All-map, Bool-cases, and_split, inl, inr, ◌⊎◌, ◌==◌,
  nat_eq, ==→eq, ==-self, if◌then◌else◌, ok, require_inv, bind_inv, ok_injective, arith,
}
use trustworthy_personal_kno.Domain.Enums.Entity.{entity_type_eq}
use trustworthy_personal_kno.Domain.Enums.Publication.{
  CuratedVersionStatus, curated_version_status_eq, IndexGenerationStatus,
  index_generation_status_eq, index_job_status_eq, publication_run_status_eq,
  knowledge_change_status_eq,
}
use trustworthy_personal_kno.Domain.Machine.{require_transition}
use trustworthy_personal_kno.Domain.Transitions.Publication.{
  curated_version_status_machine, index_generation_status_machine,
}
use trustworthy_personal_kno.Persistence.Tables.{
  cas_inv, rewritten, required_row_id, required_row-rewritten, required_row-others,
  required_row-All,
}
use trustworthy_personal_kno.Persistence.Generations.{
  GenerationRow, NoteRow, is_null, is_active, get_active,
}
use trustworthy_personal_kno.Persistence.Generations.Switch.{
  IsSole, ActiveIs, when_active, get_active_sole, written, set_status_inv, superseded-None,
  none_active,
}
use trustworthy_personal_kno.Persistence.Generations.Notes.{All-mapped}
use trustworthy_personal_kno.Persistence.Publications.{
  VersionRow, curated_row, generation_row, note_row, update_curated_version,
}
use trustworthy_personal_kno.Persistence.Publications.Activating.{
  supersede_version, supersede_generation, activate_generation,
}

pub conj : {a b : Bool} → a ≡ true → b ≡ true → (a && b) ≡ true
conj {a = a} {b = b} h k = ground arith

-- A row that is found by its key and was read with the expected revision is selected.
pub selects : {k r i v : ℕ} → i ≡ k → v ≡ r → (i == k && v == r) ≡ true
selects {k = k} {r = r} e f = conj (ap (λ n. n == k) e ∙ ==-self k) (ap (λ n. n == r) f ∙ ==-self r)

pub note_row_lem :
    (rows : List NoteRow) (n : ℕ) (r : NoteRow)
    → note_row rows n ≡ ok r
    → (r.id ≡ n) × (is_null r.deleted_at ≡ true)
unfolding note_row
note_row_lem [] n r h = cc
note_row_lem (x ∷ rows) n r h = elim (Bool-cases (x.id == n && is_null x.deleted_at)) [
  | inl b ↦
      let (same, live) = and_split (x.id == n) _ b in
      subst (λ y. (y.id ≡ n) × (is_null y.deleted_at ≡ true)) (ok_injective (rw (b, note_row) at h))
        (==→eq _ _ same, live)
  | inr b ↦ note_row_lem rows n r (rw (b, note_row) at h)
]

-- A live note that an UPDATE selects is found with its new values.
pub note_row-rewritten :
    (selected : NoteRow → Bool) (update : NoteRow → NoteRow) (rows : List NoteRow) (n : ℕ)
    (r : NoteRow)
    → ((x : NoteRow) → (update x).id ≡ x.id)
    → ((x : NoteRow) → (update x).deleted_at ≡ x.deleted_at)
    → note_row rows n ≡ ok r
    → selected r ≡ true
    → note_row (rewritten (λ (x : NoteRow). x.id) selected update rows) n ≡ ok (update r)
unfolding note_row
note_row-rewritten selected update [] n r same kept h s = cc
note_row-rewritten selected update (x ∷ rows) n r same kept h s =
    elim (Bool-cases (x.id == n && is_null x.deleted_at)) [
      | inl b ↦
          let e : x ≡ r = ok_injective (rw (b, note_row) at h) in
          subst
            (λ y.
              note_row (rewritten (λ (z : NoteRow). z.id) selected update (y ∷ rows)) n
              ≡ ok (update r))
            (sym e)
            (rw (
              s,
              note_row,
              same r,
              kept r,
              subst (λ (y : NoteRow). (y.id == n && is_null y.deleted_at) ≡ true) e b,
            ))
      | inr b ↦
          rw (note_row, unmoved x b)
            (note_row-rewritten selected update rows n r same kept (rw (b, note_row) at h) s)
    ]
  where
    unmoved :
        (x : NoteRow)
        → (x.id == n && is_null x.deleted_at) ≡ false
        → ((if selected x then update x else x).id == n
            && is_null (if selected x then update x else x).deleted_at)
          ≡ false
    unmoved x b = elim (Bool-cases (selected x)) [
      | inl hit ↦ rw (hit, same x, kept x) b
      | inr miss ↦ rw miss b
    ]

pub supersede_version_lem :
    (versions versions' : List VersionRow) (current : Option ℕ) (version : VersionRow)
    → curated_row versions version.id ≡ ok version
    → supersede_version versions current version ≡ ok versions'
    → (curated_row versions' version.id ≡ ok version)
      × ((id : ℕ)
          → current ≡ some id
          → id ≢ version.id
          → (v : VersionRow) × (curated_row versions' id ≡ ok v)
            × (v.status ≡ CuratedVersionStatus.superseded))
unfolding supersede_version update_curated_version
supersede_version_lem versions versions' none version found h =
    (ap (λ vs. curated_row vs version.id) (sym (ok_injective h)) ∙ found, λ id e other. cc)
supersede_version_lem versions versions' (some current) version found h =
    let (old, e₁, h₁) = bind_inv (curated_row versions current) _ h in
    let named = required_row_id (λ (x : VersionRow). x.id) versions current old e₁ in
    elim (Bool-cases (old.id == version.id)) [
      | inl same ↦ (
        ap (λ vs. curated_row vs version.id) (sym (ok_injective (rw same at h₁))) ∙ found,
        λ id e other. absurd (other (sym (some-injective _ _ e) ∙ sym named ∙ ==→eq _ _ same)),
      )
      | inr different ↦
          let (allowed, e₂, h₂) =
            bind_inv (require_transition old.status CuratedVersionStatus.superseded) _
              (rw different at h₁) in
          let written_down =
            cas_inv (λ (x : VersionRow). x.id) (λ x. x.id == old.id && x.revision == old.revision)
              old.id
              (λ x. record x {
                status = CuratedVersionStatus.superseded;
                revision = old.revision + 1;
              })
              versions versions' h₂ in
          (
            ap (λ vs. curated_row vs version.id) written_down
                ∙ required_row-others (λ (x : VersionRow). x.id)
                    (λ x. x.id == old.id && x.revision == old.revision)
                    (λ x. record x {
                      status = CuratedVersionStatus.superseded;
                      revision = old.revision + 1;
                    })
                    versions old.id version.id (λ x. refl) (λ x s. ==→eq _ _ (and_split _ _ s).0)
                    (λ e. cc (sym different ∙ ap (λ n. old.id == n) e ∙ ==-self old.id))
                ∙ found,
            λ id e other. (
              record old { status = CuratedVersionStatus.superseded; revision = old.revision + 1 },
              ap (λ vs. curated_row vs id) written_down
                  ∙ required_row-rewritten (λ (x : VersionRow). x.id)
                      (λ x. x.id == old.id && x.revision == old.revision)
                      (λ x. record x {
                        status = CuratedVersionStatus.superseded;
                        revision = old.revision + 1;
                      })
                      versions id old (λ x. refl)
                      (ap (curated_row versions) (sym (some-injective _ _ e)) ∙ e₁)
                      (selects {k = old.id} {r = old.revision} refl refl),
              refl,
            ),
          )
    ]

-- An activated generation is the only active one, if no other was before.
activated_lem :
    (g : GenerationRow) (at : Option ℕ) (rows : List GenerationRow)
    → All (λ x. x.status ≡ IndexGenerationStatus.active → x.id ≡ g.id) rows
    → ActiveIs g.id (map (written g IndexGenerationStatus.active at) rows)
activated_lem g at rows a =
    All-mapped (λ x. x.status ≡ IndexGenerationStatus.active → x.id ≡ g.id)
      (λ x. (is_active x ≡ false) ⊎ (x.id ≡ g.id)) (written g IndexGenerationStatus.active at) rows
      (λ x h. elim (Bool-cases (x.id == g.id && x.revision == g.revision)) [
        | inl b ↦ inr (rw b (==→eq _ _ (and_split (x.id == g.id) _ b).0))
        | inr b ↦
            rw b (elim (Bool-cases (is_active x)) [ inl c ↦ inr (h (==→eq _ _ c)) | inr c ↦ inl c ])
      ])
      a

-- After the generation before was superseded, no other than the one to activate is active.
supersede_generation_lem :
    (generations superseded : List GenerationRow) (notes : List NoteRow) (g : GenerationRow)
    (before : Option GenerationRow)
    → get_active generations ≡ before
    → generation_row generations g.id ≡ ok g
    → supersede_generation generations notes before g ≡ ok superseded
    → (generation_row superseded g.id ≡ ok g)
      × ((s : GenerationRow)
          → IsSole s generations
          → All (λ x. x.status ≡ IndexGenerationStatus.active → x.id ≡ g.id) superseded)
unfolding supersede_generation
supersede_generation_lem generations superseded notes g none e found h =
    let same = ok_injective h in
    (
      ap (λ gs. generation_row gs g.id) (sym same) ∙ found,
      λ s sole. subst (All (λ x. x.status ≡ IndexGenerationStatus.active → x.id ≡ g.id)) same (
          All-map (λ x. is_active x ≡ false)
            (λ x. x.status ≡ IndexGenerationStatus.active → x.id ≡ g.id) generations
            (λ x b active. cc (sym b ∙ ap (λ t. t == IndexGenerationStatus.active) active))
            (none_active generations e)),
    )
supersede_generation_lem generations superseded notes g (some old) e found h =
    elim (Bool-cases (old.id == g.id)) [
      | inl b ↦
          let same = ok_injective (rw b at h) in
          (
            ap (λ gs. generation_row gs g.id) (sym same) ∙ found,
            λ s sole.
                subst (All (λ x. x.status ≡ IndexGenerationStatus.active → x.id ≡ g.id)) same (
                  All-map (λ x. (is_active x ≡ false) ⊎ (x ≡ s))
                    (λ x. x.status ≡ IndexGenerationStatus.active → x.id ≡ g.id) generations
                    (λ x k active.
                      ap (λ (y : GenerationRow). y.id)
                        (when_active x k active ∙ sym (get_active_sole generations s old sole e).0)
                      ∙ ==→eq _ _ b)
                    sole),
          )
      | inr b ↦
          let (no_note, h₁) = require_inv _ _ _ (rw b at h) in
          let (allowed, e₁, h₂) =
            bind_inv (require_transition old.status IndexGenerationStatus.superseded) _ h₁ in
          let (present, after) =
            set_status_inv old IndexGenerationStatus.superseded old.activated_at generations
              superseded h₂ in
          (
            ap (λ gs. generation_row gs g.id) after
                ∙ required_row-others (λ (x : GenerationRow). x.id)
                    (λ x. x.id == old.id && x.revision == old.revision)
                    (λ x. record x {
                      status = IndexGenerationStatus.superseded;
                      activated_at = old.activated_at;
                      revision = old.revision + 1;
                    })
                    generations old.id g.id (λ x. refl) (λ x s. ==→eq _ _ (and_split _ _ s).0)
                    (λ k. cc (sym b ∙ ap (λ n. old.id == n) k ∙ ==-self old.id))
                ∙ found,
            λ s sole.
                subst (All (λ x. x.status ≡ IndexGenerationStatus.active → x.id ≡ g.id)) (sym after)
                  (All-mapped (λ x. (is_active x ≡ false) ⊎ (x ≡ s))
                    (λ x. x.status ≡ IndexGenerationStatus.active → x.id ≡ g.id)
                    (written old IndexGenerationStatus.superseded old.activated_at) generations
                    (λ x k active. absurd (
                      superseded-None old old.activated_at x
                        (λ live.
                          when_active x k live ∙ sym (get_active_sole generations s old sole e).0)
                        active))
                    sole),
          )
    ]

pub activate_generation_lem :
    (generations generations' : List GenerationRow) (notes : List NoteRow) (g : GenerationRow)
    (now : ℕ)
    → generation_row generations g.id ≡ ok g
    → activate_generation generations notes g now ≡ ok generations'
    → ((g' : GenerationRow) × (generation_row generations' g.id ≡ ok g')
        × (g'.status ≡ IndexGenerationStatus.active))
      × ((s : GenerationRow) → IsSole s generations → ActiveIs g.id generations')
unfolding activate_generation
activate_generation_lem generations generations' notes g now found h =
    elim (Bool-cases (g.status == IndexGenerationStatus.staging)) [
      | inr other ↦ elim (Bool-cases (g.status == IndexGenerationStatus.active)) [
        | inr neither ↦ cc (rw (other, neither) at h)
        | inl active ↦
            let same = ok_injective (rw (other, active) at h) in
            (
              (g, ap (λ gs. generation_row gs g.id) (sym same) ∙ found, ==→eq _ _ active),
              λ s sole. subst (ActiveIs g.id) same (kept s sole (==→eq _ _ active)),
            )
      ]
      | inl staging ↦
          let (superseded, e₁, e₂) =
            bind_inv (supersede_generation generations notes (get_active generations) g) _
              (rw staging at h) in
          let (present, after) =
            set_status_inv g IndexGenerationStatus.active (some now) superseded generations' e₂ in
          let (there, sole_after) =
            supersede_generation_lem generations superseded notes g (get_active generations) refl
              found e₁ in
          (
            (
              record g {
                status = IndexGenerationStatus.active;
                activated_at = some now;
                revision = g.revision + 1;
              },
              ap (λ gs. generation_row gs g.id) after
                  ∙ required_row-rewritten (λ (x : GenerationRow). x.id)
                      (λ x. x.id == g.id && x.revision == g.revision)
                      (λ x. record x {
                        status = IndexGenerationStatus.active;
                        activated_at = some now;
                        revision = g.revision + 1;
                      })
                      superseded g.id g (λ x. refl) there
                      (selects {k = g.id} {r = g.revision} refl refl),
              refl,
            ),
            λ s sole.
                subst (ActiveIs g.id) (sym after)
                  (activated_lem g (some now) superseded (sole_after s sole)),
          )
    ]
  where
    kept :
        (s : GenerationRow)
        → IsSole s generations
        → g.status ≡ IndexGenerationStatus.active
        → ActiveIs g.id generations
    kept s sole active =
        let own : g ≡ s =
          when_active g
            (required_row-All (λ (x : GenerationRow). x.id) (λ x. (is_active x ≡ false) ⊎ (x ≡ s))
              generations g.id g sole found)
            active in
        All-map (λ x. (is_active x ≡ false) ⊎ (x ≡ s)) (λ x. (is_active x ≡ false) ⊎ (x.id ≡ g.id))
          generations (λ x h. named x own h) sole
      where
        named :
            (x : GenerationRow)
            → g ≡ s
            → (is_active x ≡ false) ⊎ (x ≡ s)
            → (is_active x ≡ false) ⊎ (x.id ≡ g.id)
        named x own (inl b) = inl b
        named x own (inr e) = inr (ap (λ (y : GenerationRow). y.id) (e ∙ sym own))
