-- ===== src/Domain/Transitions/Pipeline.antt =====
-- The publication saga as domain/transitions.py declares it.
use trustworthy_personal_kno.Prelude.{◌≡◌, ◌≢◌, refl, true, List, [], ◌∷◌, arith, All}
use trustworthy_personal_kno.Domain.Enums.Publication.{
  PublicationRunStatus, publication_run_status_eq,
}
use trustworthy_personal_kno.Domain.Machine.{can_transition}
use trustworthy_personal_kno.Domain.Transitions.Publication.{publication_run_status_machine}
use trustworthy_personal_kno.Domain.Transitions.Traces.{Trace, here, next, accepted}

abbrev pub Stage : Type 0
Stage = PublicationRunStatus

-- The stages that lie ahead of a run that meets no failure, to the last one.
abbrev pub ahead : Stage → List Stage
ahead PublicationRunStatus.planning =
    PublicationRunStatus.curating ∷ PublicationRunStatus.vault_staged
    ∷ PublicationRunStatus.indexing ∷ PublicationRunStatus.index_verified
    ∷ PublicationRunStatus.vault_published ∷ PublicationRunStatus.activating
    ∷ PublicationRunStatus.completed ∷ []
ahead PublicationRunStatus.curating =
    PublicationRunStatus.vault_staged ∷ PublicationRunStatus.indexing
    ∷ PublicationRunStatus.index_verified ∷ PublicationRunStatus.vault_published
    ∷ PublicationRunStatus.activating ∷ PublicationRunStatus.completed ∷ []
ahead PublicationRunStatus.vault_staged =
    PublicationRunStatus.indexing ∷ PublicationRunStatus.index_verified
    ∷ PublicationRunStatus.vault_published ∷ PublicationRunStatus.activating
    ∷ PublicationRunStatus.completed ∷ []
ahead PublicationRunStatus.indexing =
    PublicationRunStatus.index_verified ∷ PublicationRunStatus.vault_published
    ∷ PublicationRunStatus.activating ∷ PublicationRunStatus.completed ∷ []
ahead PublicationRunStatus.index_verified =
    PublicationRunStatus.vault_published ∷ PublicationRunStatus.activating
    ∷ PublicationRunStatus.completed ∷ []
ahead PublicationRunStatus.vault_published =
    PublicationRunStatus.activating ∷ PublicationRunStatus.completed ∷ []
ahead PublicationRunStatus.activating = PublicationRunStatus.completed ∷ []
ahead PublicationRunStatus.completed = []
ahead PublicationRunStatus.failed = []

ahead_step :
    (s t : Stage) {ts : List Stage}
    → can_transition s t ≡ true
    → t ≢ PublicationRunStatus.failed
    → s ≢ PublicationRunStatus.failed
    → ts ≡ ahead t
    → t ∷ ts ≡ ahead s
ahead_step s t h n m e = ground arith

completed_ahead :
    {s u : Stage} {ts : List Stage}
    → Trace s ts u
    → s ≢ PublicationRunStatus.failed
    → All (λ t. t ≢ PublicationRunStatus.failed) ts
    → u ≡ PublicationRunStatus.completed
    → ts ≡ ahead s
completed_ahead here n a e = rw e
completed_ahead (next {s = s} {t = t} h rest) n a e =
    ahead_step s t (accepted s t h) a.0 n (completed_ahead rest a.0 a.1 e)

-- A publication run that is completed without a failure on the way went through every stage of the
-- saga, in order: none is skipped and none is repeated.
pub publication_in_order :
    {ts : List Stage}
    → Trace PublicationRunStatus.planning ts PublicationRunStatus.completed
    → All (λ t. t ≢ PublicationRunStatus.failed) ts
    → ts ≡ ahead PublicationRunStatus.planning
publication_in_order t a = completed_ahead t (λ e. cc) a refl

-- The way to COMPLETED: a failed run is taken up again at ACTIVATING.
abbrev pub way_out : Stage → List Stage
way_out PublicationRunStatus.failed =
    PublicationRunStatus.activating ∷ PublicationRunStatus.completed ∷ []
way_out s = ahead s

-- From every status, failure included, the declared transitions lead on to COMPLETED.
pub publication_resumable : (s : Stage) → Trace s (way_out s) PublicationRunStatus.completed
publication_resumable PublicationRunStatus.failed = next refl (next refl here)
publication_resumable PublicationRunStatus.completed = here
publication_resumable PublicationRunStatus.planning =
    next refl (next refl (next refl (next refl (next refl (next refl (next refl here))))))
publication_resumable PublicationRunStatus.curating =
    next refl (next refl (next refl (next refl (next refl (next refl here)))))
publication_resumable PublicationRunStatus.vault_staged =
    next refl (next refl (next refl (next refl (next refl here))))
publication_resumable PublicationRunStatus.indexing =
    next refl (next refl (next refl (next refl here)))
publication_resumable PublicationRunStatus.index_verified = next refl (next refl (next refl here))
publication_resumable PublicationRunStatus.vault_published = next refl (next refl here)
publication_resumable PublicationRunStatus.activating = next refl here
