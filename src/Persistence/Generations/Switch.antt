-- ===== src/Persistence/Generations/Switch.antt =====
-- What a promotion or a rollback of an index generation (persistence/publication_repository.py)
-- leaves behind.
use trustworthy_personal_kno.Prelude.{
  ℕ, ◌+◌, ◌≡◌, refl, sym, ap, ◌∙◌, subst, Bool, true, false, not, ◌&&◌, ◌||◌, Option, none, some,
  List, [], ◌∷◌, map, filter, any, length, All, All-map, Member, Bool-cases, and_split, inl, inr,
  ◌⊎◌, ◌==◌, nat_eq, ==→eq, ==-self, ok, require_inv, bind_inv, ok_injective, some-injective,
  if◌then◌else◌, arith,
}
use trustworthy_personal_kno.Domain.Enums.Publication.{
  IndexGenerationStatus, index_generation_status_eq, IndexJobStatus, index_job_status_eq,
}
use trustworthy_personal_kno.Domain.Errors.{concurrent_modification}
use trustworthy_personal_kno.Domain.Machine.{require_transition}
use trustworthy_personal_kno.Domain.Transitions.Publication.{
  index_generation_status_machine, index_job_status_machine,
}
use trustworthy_personal_kno.Persistence.Generations.{
  GenerationRow, NoteRow, ControlPlane, is_other_value, is_live, live_on, is_stray, is_active,
  is_row_of, or_invariant, get_generation, get_active, switch_jobs, set_status, switch_notes,
  switch_generation,
}
use trustworthy_personal_kno.Persistence.Generations.Notes.{
  Pointed, starts-Pointed, switch_notes-Pointed, switch_jobs-note, All-mapped, conj,
}

-- The unique index over the ACTIVE status: each active row is this one.
abbrev pub IsSole : GenerationRow → List GenerationRow → Type 0
IsSole s gens = All (λ g. (is_active g ≡ false) ⊎ (g ≡ s)) gens

-- Each active row has this id.
abbrev pub ActiveIs : ℕ → List GenerationRow → Type 0
ActiveIs id gens = All (λ g. (is_active g ≡ false) ⊎ (g.id ≡ id)) gens

-- A row that is active, given what holds of it if it is not inactive.
pub when_active :
    {P : Type 0} (g : GenerationRow)
    → (is_active g ≡ false) ⊎ P
    → g.status ≡ IndexGenerationStatus.active
    → P
when_active g (inl b) h = cc (sym b ∙ ap (λ s. s == IndexGenerationStatus.active) h)
when_active g (inr p) h = p

get_generation_id :
    (gens : List GenerationRow) (id : ℕ) (g : GenerationRow)
    → get_generation gens id ≡ ok g
    → g.id ≡ id
unfolding get_generation
get_generation_id [] id g h = cc
get_generation_id (x ∷ gens) id g h = elim (Bool-cases (x.id == id)) [
  | inl b ↦ subst (λ y. y.id ≡ id) (ok_injective (rw (b, get_generation) at h)) (==→eq _ _ b)
  | inr b ↦ get_generation_id gens id g (rw (b, get_generation) at h)
]

-- The active row that was found is the sole one.
pub get_active_sole :
    (gens : List GenerationRow) (s g : GenerationRow)
    → IsSole s gens
    → get_active gens ≡ some g
    → (g ≡ s) × (is_active g ≡ true)
unfolding get_active
get_active_sole [] s g a h = cc
get_active_sole (x ∷ gens) s g a h = elim (Bool-cases (is_active x)) [
  | inl b ↦
      let same : x ≡ g = some-injective _ _ (rw (b, get_active) at h) in
      (sym same ∙ when_active x a.0 (==→eq _ _ b), subst (λ y. is_active y ≡ true) same b)
  | inr b ↦ get_active_sole gens s g a.1 (rw (b, get_active) at h)
]

-- Where none is found, none is active.
pub none_active :
    (rows : List GenerationRow) → get_active rows ≡ none → All (λ x. is_active x ≡ false) rows
unfolding get_active
none_active [] h = tt
none_active (x ∷ rows) h = elim (Bool-cases (is_active x)) [
  | inl b ↦ cc (rw (b, get_active) at h)
  | inr b ↦ (b, none_active rows (rw (b, get_active) at h))
]

abbrev pub written :
    GenerationRow → IndexGenerationStatus → Option ℕ → GenerationRow → GenerationRow
written g status at x =
    if x.id == g.id && x.revision == g.revision
    then record x { status = status; activated_at = at; revision = g.revision + 1 }
    else x

pub set_status_inv :
    (g : GenerationRow) (status : IndexGenerationStatus) (at : Option ℕ)
    (rows after : List GenerationRow)
    → set_status g status at rows ≡ ok after
    → (any (λ (x : GenerationRow). x.id == g.id && x.revision == g.revision) rows ≡ true)
      × (after ≡ map (written g status at) rows)
unfolding set_status
set_status_inv g status at rows after h =
    let (present, e) = require_inv _ concurrent_modification _ h in (present, sym (ok_injective e))

-- Where the sole active row is superseded, none is active.
pub superseded-None :
    (s : GenerationRow) (at : Option ℕ) (x : GenerationRow)
    → (x.status ≡ IndexGenerationStatus.active → x ≡ s)
    → (written s IndexGenerationStatus.superseded at x).status ≡ IndexGenerationStatus.active
    → ⊥
superseded-None s at x sole h = elim (Bool-cases (x.id == s.id && x.revision == s.revision)) [
  | inl b ↦ cc (rw b at h)
  | inr b ↦
      let same : x ≡ s = sole (rw b at h) in
      cc (
        sym b
        ∙ ap (λ y. y.id == s.id && y.revision == s.revision) same
        ∙ conj (==-self s.id) (==-self s.revision))
]

activated-Id :
    (t : GenerationRow) (at : Option ℕ) (x : GenerationRow)
    → (x.status ≡ IndexGenerationStatus.active → ⊥)
    → (written t IndexGenerationStatus.active at x).status ≡ IndexGenerationStatus.active
    → (written t IndexGenerationStatus.active at x).id ≡ t.id
activated-Id t at x none_active h = elim (Bool-cases (x.id == t.id && x.revision == t.revision)) [
  | inl b ↦ rw b (==→eq x.id t.id (and_split (x.id == t.id) _ b).0)
  | inr b ↦ absurd (none_active (rw b at h))
]

-- An activated row is found.
pub finds_active :
    (t : GenerationRow) (at : Option ℕ) (rows : List GenerationRow)
    → any (λ (x : GenerationRow). x.id == t.id && x.revision == t.revision) rows ≡ true
    → (g : GenerationRow) × (get_active (map (written t IndexGenerationStatus.active at) rows)
        ≡ some g)
unfolding get_active
finds_active t at [] h = cc
finds_active t at (x ∷ rows) h =
    elim (Bool-cases (is_active (written t IndexGenerationStatus.active at x))) [
      | inl b ↦ (written t IndexGenerationStatus.active at x, rw b refl)
      | inr b ↦ let (g, e) = finds_active t at rows (later b h) in (g, rw b e)
    ]
  where
    later :
        is_active (written t IndexGenerationStatus.active at x) ≡ false
        → ((x.id == t.id && x.revision == t.revision)
            || any (λ (y : GenerationRow). y.id == t.id && y.revision == t.revision) rows)
          ≡ true
        → any (λ (y : GenerationRow). y.id == t.id && y.revision == t.revision) rows ≡ true
    later b h = elim (Bool-cases (x.id == t.id && x.revision == t.revision)) [
      | inl hit ↦ cc (rw hit at b)
      | inr miss ↦ rw miss at h
    ]

-- A note that is live and on a generation is on this one, in the words of the code.
settled : (target : ℕ) (x : NoteRow) → Pointed target [] x → is_stray target x ≡ false
settled target x h = elim (Bool-cases (is_live x)) [
  | inr dead ↦ rw dead refl
  | inl live ↦ rw live (other x.active_index_generation_id (λ g at. reached (h live g at)))
]
  where
    reached :
        {g : ℕ} → (g ≡ target) ⊎ ((m : NoteRow) × Member m [] × (is_row_of m x ≡ true)) → g ≡ target
    reached (inl e) = e
    reached (inr (m, none_left, r)) = absurd none_left

    other : (o : Option ℕ) → ((g : ℕ) → o ≡ some g → g ≡ target) → is_other_value o target ≡ false
    other none f = refl
    other (some g) f = rw (f g refl) (ap not (==-self target))

-- The two updates of the table of generations.
two_updates :
    (s source target : GenerationRow) (at at' : Option ℕ)
    (rows superseded after : List GenerationRow)
    → IsSole s rows
    → source ≡ s
    → set_status source IndexGenerationStatus.superseded at rows ≡ ok superseded
    → set_status target IndexGenerationStatus.active at' superseded ≡ ok after
    → ActiveIs target.id after × ((g : GenerationRow) × (get_active after ≡ some g))
two_updates s source target at at' rows superseded after sole same one two =
    let (present, first) =
      set_status_inv source IndexGenerationStatus.superseded at rows superseded one in
    let (present', second) =
      set_status_inv target IndexGenerationStatus.active at' superseded after two in
    let inactive : All (λ x. x.status ≡ IndexGenerationStatus.active → ⊥) superseded =
      subst (All (λ x. x.status ≡ IndexGenerationStatus.active → ⊥)) (sym first) (
        All-mapped _ _ _ rows
          (λ x h. superseded-None source at x (λ live. when_active x h live ∙ sym same)) sole) in
    (
      subst (ActiveIs target.id) (sym second)
          (All-mapped _ _ _ superseded (λ x h. decided x (activated-Id target at' x h)) inactive),
      subst (λ rs. (g : GenerationRow) × (get_active rs ≡ some g)) (sym second)
          (finds_active target at' superseded present'),
    )
  where
    decided :
        (x : GenerationRow)
        → ((written target IndexGenerationStatus.active at' x).status ≡ IndexGenerationStatus.active
            → (written target IndexGenerationStatus.active at' x).id ≡ target.id)
        → (is_active (written target IndexGenerationStatus.active at' x) ≡ false)
          ⊎ ((written target IndexGenerationStatus.active at' x).id ≡ target.id)
    decided x f =
        elim (Bool-cases (is_active (written target IndexGenerationStatus.active at' x))) [
          | inl b ↦ inr (f (==→eq _ _ b))
          | inr b ↦ inl b
        ]

active_id :
    (id : ℕ) (gens : List GenerationRow) (g : GenerationRow)
    → ActiveIs id gens
    → get_active gens ≡ some g
    → g.id ≡ id
unfolding get_active
active_id id [] g a h = cc
active_id id (x ∷ gens) g a h = elim (Bool-cases (is_active x)) [
  | inl b ↦
      subst (λ y. y.id ≡ id) (some-injective _ _ (rw (b, get_active) at h))
        (when_active x a.0 (==→eq _ _ b))
  | inr b ↦ active_id id gens g a.1 (rw (b, get_active) at h)
]

-- A promotion or a rollback that returns, from a table with at most one active generation: the one
-- asked for is found as the active one, no other is active, every live note that is on a generation
-- is on this one, and the number returned is that of the live notes that were on the one before.
pub switch_moves_all :
    (status : IndexJobStatus) (plane plane' : ControlPlane) (generation_id revision now n : ℕ)
    (s : GenerationRow)
    → IsSole s plane.generations
    → switch_generation status plane generation_id revision now ≡ ok (plane', n)
    → ((g : GenerationRow) × (get_active plane'.generations ≡ some g) × (g.id ≡ generation_id))
      × ActiveIs generation_id plane'.generations
      × All (λ x. is_stray generation_id x ≡ false) plane'.notes
      × (n ≡ length (filter (live_on s.id) plane.notes))
unfolding switch_generation
switch_moves_all status plane plane' generation_id revision now n s sole h =
    let (target, e₁, h₁) = bind_inv (get_generation plane.generations generation_id) _ h in
    let (current, h₂) = require_inv (target.revision == revision) _ _ h₁ in
    let (source, e₂, h₃) = bind_inv (or_invariant (get_active plane.generations)) _ h₂ in
    let (different, h₄) = require_inv (not (source.id == target.id)) _ _ h₃ in
    let (to_active, e₃, h₅) =
      bind_inv (require_transition target.status IndexGenerationStatus.active) _ h₄ in
    let (to_superseded, e₄, h₆) =
      bind_inv (require_transition source.status IndexGenerationStatus.superseded) _ h₅ in
    let (none_stray, h₇) = require_inv (not (any (is_stray source.id) plane.notes)) _ _ h₆ in
    let notes = filter (live_on source.id) plane.notes in
    let (jobs, e₅, h₈) = bind_inv (switch_jobs plane.jobs source.id target.id status notes) _ h₇ in
    let (superseded, e₆, h₉) =
      bind_inv
        (set_status source IndexGenerationStatus.superseded source.activated_at plane.generations) _
        h₈ in
    let (activated, e₇, hₐ) =
      bind_inv (set_status target IndexGenerationStatus.active (some now) superseded) _ h₉ in
    let (last, e₈, hₑ) =
      bind_inv (switch_notes target.id now jobs (record plane { generations = activated })) _ hₐ in
    let done = ok_injective hₑ in
    let named : target.id ≡ generation_id =
      get_generation_id plane.generations generation_id target e₁ in
    let (is_sole, active) =
      get_active_sole plane.generations s source sole
        (found (get_active plane.generations) source e₂) in
    let (only, (g, shown)) =
      two_updates s source target source.activated_at (some now) plane.generations superseded
        activated sole is_sole e₆ e₇ in
    let (kept, moved) =
      switch_notes-Pointed target.id now jobs (record plane { generations = activated }) last
        (subst (λ ns. All (Pointed target.id ns) plane.notes)
          (sym (switch_jobs-note plane.jobs source.id target.id status notes jobs e₅))
          (starts-Pointed source.id target.id plane.notes (negated _ none_stray)))
        e₈ in
    let generations : activated ≡ plane'.generations =
      sym kept ∙ ap (λ (t : ControlPlane × ℕ). t.0.generations) done in
    (
      (
        g,
        ap get_active (sym generations) ∙ shown,
        active_id target.id activated g only shown ∙ named,
      ),
      subst (λ rs. ActiveIs generation_id rs) generations
          (subst (λ i. ActiveIs i activated) named only),
      subst (λ (t : ControlPlane × ℕ). All (λ x. is_stray generation_id x ≡ false) t.0.notes) done
          (subst (λ i. All (λ x. is_stray i x ≡ false) last.notes) named
            (All-map _ _ last.notes (settled target.id) moved)),
      sym (ap (λ (t : ControlPlane × ℕ). t.1) done)
          ∙ ap (λ (x : GenerationRow). length (filter (live_on x.id) plane.notes)) is_sole,
    )
  where
    negated : (b : Bool) → not b ≡ true → b ≡ false
    negated b h = ground arith

    found : (o : Option GenerationRow) (g : GenerationRow) → or_invariant o ≡ ok g → o ≡ some g
    found none g h = cc
    found (some x) g h = ap some (ok_injective h)
