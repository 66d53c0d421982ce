-- ===== src/Ingestion/Diff/Restoring.antt =====
-- What a structural diff makes of the old version is the new one (ingestion/diff.py).
use trustworthy_personal_kno.Prelude.{
  ℕ, ◌≡◌, refl, sym, ap, Bool, true, false, not, Option, none, some, List, contains,
  contains-Member, All-Member, Bool-cases, Option-cases, inl, inr, nat_eq, ==→eq, if◌then◌else◌,
  arith,
}
use trustworthy_personal_kno.Ingestion.Diff.{ParsedBlock, hash_at, same_hash, structural_diff}
use trustworthy_personal_kno.Ingestion.Diff.Patching.{
  arrivals, departures, ref_at, patch, ref_at_inv,
}
use trustworthy_personal_kno.Ingestion.Diff.Changes.{
  differs_at, arrivals-All, arrived, departures-All, departed,
}

same_hash_inv : (o p : Option ℕ) → same_hash o p ≡ true → o ≡ p
same_hash_inv none p h = cc
same_hash_inv (some m) none h = cc
same_hash_inv (some m) (some n) h = ap some (==→eq m n h)

negated : (b : Bool) → not b ≡ false → b ≡ true
negated b h = ground arith

module _ (before after : List ParsedBlock) where
  -- The structural diff is complete. For each anchor, the diff and the digest that the old blocks have
  -- there, if any, give the digest that the new blocks have there, or that they have none: an anchor
  -- where an added, a modified or a moved block arrives has that block's digest, one that a removed or
  -- a moved block leaves has none, and every other keeps what it had. Nothing is assumed of the blocks.
  pub patch-structural_diff :
      (a : ℕ) → patch (structural_diff before after) a (hash_at a before) ≡ hash_at a after
  patch-structural_diff a =
      elim (Option-cases (ref_at a (arrivals (structural_diff before after)))) [
        | inr (h, found) ↦ rw found (
            sym (
              ref_at_inv (λ i n. hash_at i after ≡ some n) _ a h (arrivals-All before after) found))
        | inl absent ↦ rw absent (elim (Option-cases (hash_at a after)) [
          | inr (h, e) ↦ elim (Bool-cases (differs_at before after a)) [
            | inl d ↦ absurd (arrived before after a h e d absent)
            | inr d ↦ kept d
          ]
          | inl gone ↦ rw gone (elim (Option-cases (hash_at a before)) [
            | inr (h, e) ↦ rw (departed before after a h e gone) refl
            | inl never ↦ nothing _ never _
          ])
        ])
      ]
    where
      nothing : (o : Option ℕ) → o ≡ none → (b : Bool) → (if b then none else o) ≡ none
      nothing o e true = refl
      nothing o e false = e

      kept :
          differs_at before after a ≡ false
          → (if contains (departures (structural_diff before after)) a
              then none
              else hash_at a before)
            ≡ hash_at a after
      kept d = elim (Bool-cases (contains (departures (structural_diff before after)) a)) [
        | inl c ↦ cc (sym d, All-Member _ _ a (departures-All before after) (contains-Member _ a c))
        | inr c ↦ rw c (same_hash_inv _ _ (negated _ d))
      ]
