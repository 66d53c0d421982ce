-- ===== src/Persistence/Generations/Notes.antt =====
-- The notes during a switch of generations (persistence/publication_repository.py).
use trustworthy_personal_kno.Prelude.{
  ℕ, ◌≡◌, refl, sym, ap, ◌∙◌, subst, Bool, true, false, not, ◌&&◌, ◌||◌, Option, none, some, List,
  [], ◌∷◌, map, filter, any, All, all_of, Member, Member-filter, Bool-cases, and_split, inl, inr,
  ◌⊎◌, ◌==◌, nat_eq, ==-self, ok, require_inv, bind_inv, ok_injective, some-injective,
  if◌then◌else◌, arith,
}
use trustworthy_personal_kno.Domain.Enums.Publication.{
  index_generation_status_eq, IndexJobStatus, index_job_status_eq,
}
use trustworthy_personal_kno.Domain.Transitions.Publication.{
  index_generation_status_machine, index_job_status_machine,
}
use trustworthy_personal_kno.Persistence.Generations.{
  NoteRow, JobRow, ControlPlane, NoteJobs, is_null, is_value, is_other_value, is_live, live_on,
  is_stray, is_row_of, repointed, set_job, version_of, find_job, switch_jobs, switch_note,
  switch_notes,
}

-- A live note that is on a generation is on this one, or it is still to be switched.
abbrev pub Pointed : ℕ → List NoteRow → NoteRow → Type 0
Pointed target ns x =
    is_live x ≡ true
    → (g : ℕ) → x.active_index_generation_id ≡ some g
    → (g ≡ target) ⊎ ((n : NoteRow) × Member n ns × (is_row_of n x ≡ true))

pub conj : {a b : Bool} → a ≡ true → b ≡ true → (a && b) ≡ true
conj {a = a} {b = b} h k = ground arith

own_row : (x : NoteRow) → is_live x ≡ true → is_row_of x x ≡ true
own_row x h =
    let (present, versioned) = and_split (is_null x.deleted_at) _ h in
    conj (==-self x.id) (conj (==-self x.revision) present)

same_or_other :
    (o : Option ℕ) (g source : ℕ)
    → o ≡ some g
    → is_other_value o source ≡ false
    → is_value o source ≡ true
same_or_other none g source at h = cc
same_or_other (some m) g source at h = negated (m == source) h
  where
    negated : (b : Bool) → not b ≡ false → b ≡ true
    negated b h = ground arith

on_source :
    (source : ℕ) (x : NoteRow) (g : ℕ)
    → is_live x ≡ true
    → x.active_index_generation_id ≡ some g
    → is_stray source x ≡ false
    → live_on source x ≡ true
on_source source x g live at h = conj live (
    same_or_other x.active_index_generation_id g source at
      (second (is_live x) (is_other_value x.active_index_generation_id source) live h))
  where
    second : (a b : Bool) → a ≡ true → (a && b) ≡ false → b ≡ false
    second a b h k = ground arith

pub any-false :
    {A : Type 0} (p : A → Bool) (xs : List A) (x : A) → any p xs ≡ false → Member x xs → p x ≡ false
any-false p [] x h m = absurd m
any-false p (y ∷ xs) x h (inl e) = ap p (sym e) ∙ left (p y) (any p xs) h
  where
    left : (a b : Bool) → (a || b) ≡ false → a ≡ false
    left a b h = ground arith
any-false p (y ∷ xs) x h (inr m) = any-false p xs x (right (p y) (any p xs) h) m
  where
    right : (a b : Bool) → (a || b) ≡ false → b ≡ false
    right a b h = ground arith

-- Before the switch: where no live note is stray, each is on the source, and so to be switched.
pub starts-Pointed :
    (source target : ℕ) (notes : List NoteRow)
    → any (is_stray source) notes ≡ false
    → All (Pointed target (filter (live_on source) notes)) notes
starts-Pointed source target notes h = all_of _ notes (λ x m live g at. inr (
  x,
  Member-filter (live_on source) notes x m
      (on_source source x g live at (any-false (is_stray source) notes x h m)),
  own_row x live,
))

-- One note is switched.
step-Pointed :
    (target : ℕ) (n : NoteRow) (ns : List NoteRow) (x : NoteRow)
    → Pointed target (n ∷ ns) x
    → Pointed target ns (if is_row_of n x then repointed n target x else x)
step-Pointed target n ns x h = elim (Bool-cases (is_row_of n x)) [
  | inl b ↦
      subst (Pointed target ns) (sym (chosen b)) (λ live g at. inl (sym (some-injective _ _ at)))
  | inr b ↦ subst (Pointed target ns) (sym (kept b)) (λ live g at. rest b (h live g at))
]
  where
    chosen :
        is_row_of n x ≡ true
        → (if is_row_of n x then repointed n target x else x) ≡ repointed n target x
    chosen b = rw b refl

    kept : is_row_of n x ≡ false → (if is_row_of n x then repointed n target x else x) ≡ x
    kept b = rw b refl

    rest :
        {g : ℕ}
        → is_row_of n x ≡ false
        → (g ≡ target) ⊎ ((m : NoteRow) × Member m (n ∷ ns) × (is_row_of m x ≡ true))
        → (g ≡ target) ⊎ ((m : NoteRow) × Member m ns × (is_row_of m x ≡ true))
    rest b (inl e) = inl e
    rest b (inr (m, inl e, r)) = cc (sym b ∙ ap (λ k. is_row_of k x) e ∙ r)
    rest b (inr (m, inr later, r)) = inr (m, later, r)

pub All-mapped :
    {A : Type 0} (P Q : A → Type 0) (f : A → A) (xs : List A)
    → ((x : A) → P x → Q (f x))
    → All P xs
    → All Q (map f xs)
All-mapped P Q f [] step h = tt
All-mapped P Q f (x ∷ xs) step h = (step x h.0, All-mapped P Q f xs step h.1)

switch_note_inv :
    (target now : ℕ) (item : NoteJobs) (plane plane' : ControlPlane)
    → switch_note target now item plane ≡ ok plane'
    → (plane'.generations ≡ plane.generations)
      × (plane'.notes
          ≡ map
              (λ x. if is_row_of item.note x then repointed item.note target x else x)
              plane.notes)
unfolding switch_note
switch_note_inv target now item plane plane' h =
    let (present, h₁) = require_inv (any (is_row_of item.note) plane.notes) _ _ h in
    let (jobs, first, h₂) =
      bind_inv (set_job item.source_job IndexJobStatus.delete_pending now plane.jobs) _ h₁ in
    let (jobs', second, h₃) =
      bind_inv (set_job item.target_job IndexJobStatus.active_indexed now jobs) _ h₂ in
    let same = ok_injective h₃ in
    (
      sym (ap (λ (p : ControlPlane). p.generations) same),
      sym (ap (λ (p : ControlPlane). p.notes) same),
    )

pub switch_notes-Pointed :
    (target now : ℕ) (items : List NoteJobs) (plane plane' : ControlPlane)
    → All (Pointed target (map (λ (i : NoteJobs). i.note) items)) plane.notes
    → switch_notes target now items plane ≡ ok plane'
    → (plane'.generations ≡ plane.generations) × All (Pointed target []) plane'.notes
unfolding switch_notes
switch_notes-Pointed target now [] plane plane' a h =
    let same = ok_injective h in
    (
      sym (ap (λ (p : ControlPlane). p.generations) same),
      subst (λ (p : ControlPlane). All (Pointed target []) p.notes) same a,
    )
switch_notes-Pointed target now (item ∷ items) plane plane' a h =
    let (middle, one, rest) = bind_inv (switch_note target now item plane) _ h in
    let (generations, notes) = switch_note_inv target now item plane middle one in
    let moved =
      subst (All (Pointed target (map (λ (i : NoteJobs). i.note) items))) (sym notes)
        (All-mapped _ _ _ plane.notes (step-Pointed target item.note _) a) in
    let (g, p) = switch_notes-Pointed target now items middle plane' moved rest in
    (g ∙ generations, p)

pub switch_jobs-note :
    (jobs : List JobRow) (source target : ℕ) (status : IndexJobStatus) (notes : List NoteRow)
    (items : List NoteJobs)
    → switch_jobs jobs source target status notes ≡ ok items
    → map (λ (i : NoteJobs). i.note) items ≡ notes
unfolding switch_jobs
switch_jobs-note jobs source target status [] items h =
    ap (map (λ (i : NoteJobs). i.note)) (sym (ok_injective h))
switch_jobs-note jobs source target status (n ∷ ns) items h =
    let (version, e₁, h₁) = bind_inv (version_of n.current_curated_version_id) _ h in
    let (source_job, e₂, h₂) = bind_inv (find_job jobs version source) _ h₁ in
    let (target_job, e₃, h₃) = bind_inv (find_job jobs version target) _ h₂ in
    let (statuses, h₄) = require_inv _ _ _ h₃ in
    let (rest, e₅, h₅) = bind_inv (switch_jobs jobs source target status ns) _ h₄ in
    ap (map (λ (i : NoteJobs). i.note)) (sym (ok_injective h₅))
    ∙ ap (λ xs. n ∷ xs) (switch_jobs-note jobs source target status ns rest e₅)
