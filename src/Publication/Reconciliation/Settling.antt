-- ===== src/Publication/Reconciliation/Settling.antt =====
-- What a finding of publication/reconciliation.py vouches for.
use trustworthy_personal_kno.Prelude.{
  ℕ, ◌≡◌, refl, Bool, true, false, Option, none, some, List, Bool-cases, inl, inr, ◌⊎◌,
}
use trustworthy_personal_kno.Publication.Contracts.{
  IndexProbe, healthy, repairable, blocked, ExpectedPublication, publication_healthy, index_drift,
  index_repair_failed, index_verification_failed, vault_verification_failed, ReconciliationFinding,
}
use trustworthy_personal_kno.Publication.Indexing.{index_chunks}
use trustworthy_personal_kno.Publication.Reconciliation.{
  finding, Reconciler, vault_verified, list_probes, as_expected, unexpected_ids, converged,
  after_index, after_delete, delete_unexpected, on_probes, verify_index, reconcile_one,
}

module _ {S : Type 0} (r : Reconciler S) (p : ExpectedPublication) where
  -- The index lists exactly the chunks of the publication.
  abbrev pub IsExact : S → Type 0
  IsExact s = (ps : List IndexProbe) × (list_probes r s p ≡ some ps) × (as_expected r p ps ≡ true)

  -- The finding says that all is well, or was mended.
  abbrev pub IsSettled : ReconciliationFinding → Type 0
  IsSettled f = (f.severity ≡ healthy) ⊎ (f.repaired ≡ true)

  -- What a check of the index vouches for.
  record Vouches (s : S) (o : S × ReconciliationFinding) : Type 0 where
    pub exact : IsSettled o.1 → IsExact o.0
    pub untouched : o.1.severity ≡ healthy → o.0 ≡ s
    pub read_only : r.repair_index ≡ false → o.0 ≡ s
    pub unreadable : list_probes r s p ≡ none → (o.0 ≡ s) × (o.1.severity ≡ blocked)

  -- A repair that ended in this state.
  record Repaired (s : S) (o : S × ReconciliationFinding) : Type 0 where
    pub exact : IsSettled o.1 → IsExact o.0
    pub not_healthy : o.1.severity ≡ healthy → ⊥

  failed : (s s' : S) → Repaired s (s', finding p index_repair_failed blocked false)
  failed s s' = record { exact = λ h. never h; not_healthy = λ h. cc }
    where
      never : IsSettled (finding p index_repair_failed blocked false) → IsExact s'
      never (inl h) = cc
      never (inr h) = cc

  converged-Repaired :
      (s s' : S) (o : Option (List IndexProbe))
      → list_probes r s' p ≡ o
      → Repaired s (s', converged r p o)
  converged-Repaired s s' none e = failed s s'
  converged-Repaired s s' (some ps) e = elim (Bool-cases (as_expected r p ps)) [
    | inl b ↦ rw b (record { exact = λ h. (ps, e, b); not_healthy = λ h. cc })
    | inr b ↦ rw b (failed s s')
  ]

  after_index-Repaired : (s : S) (o : S × Option ℕ) → Repaired s (after_index r p o)
  after_index-Repaired s (s', none) = failed s s'
  after_index-Repaired s (s', some n) = converged-Repaired s s' (list_probes r s' p) refl

  after_delete-Repaired : (s : S) (o : S × Bool) → Repaired s (after_delete r p o)
  after_delete-Repaired s (s', false) = failed s s'
  after_delete-Repaired s (s', true) =
      after_index-Repaired s (index_chunks r.index r.embedding s' p.chunks)

  on_probes-Vouches :
      (s : S) (o : Option (List IndexProbe)) → list_probes r s p ≡ o → Vouches s (on_probes r s p o)
  on_probes-Vouches s none e = record {
    exact = λ h. never h;
    untouched = λ h. refl;
    read_only = λ h. refl;
    unreadable = λ h. (refl, refl);
  }
    where
      never : IsSettled (finding p index_verification_failed blocked false) → IsExact s
      never (inl h) = cc
      never (inr h) = cc
  on_probes-Vouches s (some ps) e = elim (Bool-cases (as_expected r p ps)) [
    | inl b ↦ rw b (record {
      exact = λ h. (ps, e, b);
      untouched = λ h. refl;
      read_only = λ h. refl;
      unreadable = λ h. cc;
    })
    | inr b ↦ elim (Bool-cases r.repair_index) [
      | inr off ↦
          rw (b, off)
            (record {
              exact = λ h. drifted h;
              untouched = λ h. refl;
              read_only = λ h. refl;
              unreadable = λ h. cc;
            })
      | inl on ↦
          let repaired =
            after_delete-Repaired s (delete_unexpected r s p (unexpected_ids r p ps)) in
          rw (b, on)
            (record {
              exact = repaired.exact;
              untouched = λ h. absurd (repaired.not_healthy h);
              read_only = λ h. cc;
              unreadable = λ h. cc;
            })
    ]
  ]
    where
      drifted : IsSettled (finding p index_drift repairable false) → IsExact s
      drifted (inl h) = cc
      drifted (inr h) = cc

  exact_healthy :
      (s : S)
      → IsExact s
      → on_probes r s p (list_probes r s p) ≡ (s, finding p publication_healthy healthy false)
  exact_healthy s (ps, listed, same) = rw listed (rw same refl)

  -- One round, whatever the vault, the index and the embedding do: a note that the vault does not
  -- verify, and an index that cannot be read, are reported as blocked and nothing is written; without
  -- repair nothing is written at all; a healthy finding has written nothing; and after a finding that
  -- is healthy or repaired another round finds the publication healthy and writes nothing.
  pub round_settles :
      (s : S)
      → (vault_verified r p ≡ false
          → reconcile_one r s p ≡ (s, finding p vault_verification_failed blocked false))
        × (list_probes r s p ≡ none
            → ((reconcile_one r s p).0 ≡ s) × ((reconcile_one r s p).1.severity ≡ blocked))
        × (r.repair_index ≡ false → (reconcile_one r s p).0 ≡ s)
        × ((reconcile_one r s p).1.severity ≡ healthy → (reconcile_one r s p).0 ≡ s)
        × (IsSettled (reconcile_one r s p).1
            → reconcile_one r (reconcile_one r s p).0 p
              ≡ ((reconcile_one r s p).0, finding p publication_healthy healthy false))
  unfolding reconcile_one verify_index
  round_settles s = elim (Bool-cases (vault_verified r p)) [
    | inr v ↦ rw v (λ h. refl, λ h. (refl, refl), λ h. refl, λ h. refl, λ h. never h)
    | inl v ↦
        let o = on_probes-Vouches s (list_probes r s p) refl in
        rw v (λ h. cc, o.unreadable, o.read_only, o.untouched, λ h. exact_healthy _ (o.exact h))
  ]
    where
      never :
          IsSettled (finding p vault_verification_failed blocked false)
          → ◌≡◌ {A = S × ReconciliationFinding}
              (s, finding p vault_verification_failed blocked false)
              (s, finding p publication_healthy healthy false)
      never (inl h) = cc
      never (inr h) = cc
