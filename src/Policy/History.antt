-- ===== src/Policy/History.antt =====
-- apps/worker/src/policy/feature-policy-store.ts: the history of a store that publishes.
use hyeboard.Prelude.{
  ℕ, ◌+◌, ◌≡◌, refl, sym, subst, ◌⊎◌, inl, inr, List, [], ◌∷◌, arith, ◌==◌, Outcome, ok, throw,
  Outcome-cases, Bool-cases,
}
use hyeboard.Policy.Content.{Fault, policy_conflict}
use hyeboard.Policy.Store.{
  FeaturePolicySnapshot, FeaturePolicyAuditEntry, PublishFeaturePolicyInput,
  MemoryFeaturePolicyStore, new_store, publish, publish_all, entry_of, store_after,
}

-- The entries are those of the revisions `n`, `n - 1` and so on down to 1, each on the one before it.
abbrev pub IsHistory : ℕ → List FeaturePolicyAuditEntry → Type 0
IsHistory n [] = n ≡ 0
IsHistory n (e ∷ es) =
    (e.revision ≡ n)
    × (e.base_revision + 1 ≡ n)
    × (e.snapshot.revision ≡ n)
    × IsHistory e.base_revision es

-- The current snapshot is that of the newest entry, or the empty policy before the first.
abbrev IsNewest : FeaturePolicySnapshot → List FeaturePolicyAuditEntry → Type 0
IsNewest snapshot [] = snapshot ≡ new_store.snapshot
IsNewest snapshot (e ∷ es) = snapshot ≡ e.snapshot

pub record IsContiguous (s : MemoryFeaturePolicyStore) : Type 0 where
  pub newest : IsNewest s.snapshot s.entries
  pub ordered : IsHistory s.snapshot.revision s.entries

pub new_store-IsContiguous : IsContiguous new_store
unfolding new_store
new_store-IsContiguous = record { newest = refl; ordered = refl }

module _ (parse : PublishFeaturePolicyInput → Outcome Fault PublishFeaturePolicyInput) where
  pub publish_cases :
      (s : MemoryFeaturePolicyStore) (input : PublishFeaturePolicyInput) (at : ℕ)
      → ((f : Fault) × (publish parse s input at ≡ throw f))
        ⊎ ((i : PublishFeaturePolicyInput) × (parse input ≡ ok i)
            × (i.base_revision ≡ s.snapshot.revision)
            × (publish parse s input at
                ≡ ok (
                  entry_of s i at,
                  record {
                    snapshot = (entry_of s i at).snapshot;
                    entries = entry_of s i at ∷ s.entries;
                  },
                )))
  unfolding publish
  publish_cases s input at = elim (Outcome-cases (parse input)) [
    | inr (f, q) ↦ inl (f, rw (q, publish))
    | inl (i, q) ↦ elim (Bool-cases (i.base_revision == s.snapshot.revision)) [
      | inr e ↦ inl (policy_conflict s.snapshot.revision, rw (q, publish, e))
      | inl e ↦ inr (i, q, ground arith, rw (q, publish, e))
    ]
  ]

  pub publish-IsContiguous :
      (s : MemoryFeaturePolicyStore) (input : PublishFeaturePolicyInput) (at : ℕ)
      → IsContiguous s
      → IsContiguous (store_after s (publish parse s input at))
  publish-IsContiguous s input at h = elim (publish_cases s input at) [
    | inl (f, q) ↦ rw q h
    | inr (i, p, base, q) ↦ rw q (record {
      newest = refl;
      ordered = (refl, omega arith, refl, subst (λ n. IsHistory n s.entries) (sym base) h.ordered);
    })
  ]

  -- Whatever is published, the store stays contiguous, as a new one is: the revisions of the history
  -- are those from the current one down to 1, without a gap, each entry made on the revision before
  -- it, and the current snapshot is the newest entry's.
  pub publish_all-IsContiguous :
      (s : MemoryFeaturePolicyStore) (inputs : List (PublishFeaturePolicyInput × ℕ))
      → IsContiguous s
      → IsContiguous (publish_all parse s inputs)
  unfolding publish_all
  publish_all-IsContiguous s [] h = h
  publish_all-IsContiguous s ((input, at) ∷ rest) h =
      publish_all-IsContiguous (store_after s (publish parse s input at)) rest
        (publish-IsContiguous s input at h)

  -- Of two publications on the same base revision the second is refused as a conflict, which names the
  -- revision that the first made.
  pub publish_conflict :
      (s s' : MemoryFeaturePolicyStore) (e : FeaturePolicyAuditEntry)
      (first second i j : PublishFeaturePolicyInput) (at later : ℕ)
      → publish parse s first at ≡ ok (e, s')
      → parse first ≡ ok i
      → parse second ≡ ok j
      → j.base_revision ≡ i.base_revision
      → publish parse s' second later ≡ throw (policy_conflict e.revision)
  unfolding publish
  publish_conflict s s' e first second i j at later h p q same =
      elim (Bool-cases (i.base_revision == s.snapshot.revision)) [
        | inr other ↦ ground arith
        | inl base ↦ ground arith
      ]
