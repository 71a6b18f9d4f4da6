-- ===== src/Policy/Audit.antt =====
-- apps/worker/src/policy/feature-policy-store.ts: the entries of a store by their revision.
use hyeboard.Prelude.{
  ℕ, ◌+◌, ◌≤◌, ◌≡◌, refl, inl, inr, false, some, List, [], ◌∷◌, arith, ◌==◌, Outcome, Bool-cases,
  max_safe_integer,
}
use hyeboard.Policy.Content.{Fault}
use hyeboard.Policy.Store.{
  FeaturePolicyAuditEntry, PublishFeaturePolicyInput, MemoryFeaturePolicyStore, find_revision,
  revision, publish, publish_all, store_after,
}
use hyeboard.Policy.History.{IsHistory, IsContiguous, publish_cases, publish-IsContiguous}

find_revision-le :
    (n r : ℕ) (es : List FeaturePolicyAuditEntry) (e : FeaturePolicyAuditEntry)
    → IsHistory n es
    → find_revision r es ≡ some e
    → r ≤ n
find_revision-le n r [] e h q = cc
find_revision-le n r (f ∷ es) e (rev, base, s, h) q = elim (Bool-cases (f.revision == r)) [
  | inl same ↦ ground arith
  | inr other ↦
      let later : find_revision r es ≡ some e = ground arith in
      omega (arith, find_revision-le f.base_revision r es e h later)
]

find_revision-some :
    (n r : ℕ) (es : List FeaturePolicyAuditEntry)
    → IsHistory n es
    → 1 ≤ r
    → r ≤ n
    → (e : FeaturePolicyAuditEntry) × (find_revision r es ≡ some e) × (e.revision ≡ r)
find_revision-some n r [] h low high = let empty : ⊥ = omega arith in elim empty [ ]
find_revision-some n r (f ∷ es) (rev, base, s, h) low high = elim (Bool-cases (f.revision == r)) [
  | inl same ↦ (f, rw same refl, ground arith)
  | inr other ↦
      let below : r ≤ f.base_revision = ground arith in
      let (e, q, v) = find_revision-some f.base_revision r es h low below in
      (e, rw (other, q) refl, v)
]

-- In a contiguous store whose revisions are safe integers, every revision from 1 to the current one
-- has an entry, of that revision, and no other number has.
pub revision_found :
    (s : MemoryFeaturePolicyStore) (r : ℕ)
    → IsContiguous s
    → s.snapshot.revision ≤ max_safe_integer
    → (1 ≤ r
        → r ≤ s.snapshot.revision
        → (e : FeaturePolicyAuditEntry) × (revision s r ≡ some e) × (e.revision ≡ r))
      × ((e : FeaturePolicyAuditEntry)
          → revision s r ≡ some e
          → (1 ≤ r) × (r ≤ s.snapshot.revision))
unfolding revision
revision_found s r h small = (
  λ low high.
      let (e, q, v) = find_revision-some s.snapshot.revision r s.entries h.ordered low high in
      (e, ground arith, v),
  λ e q.
      let found : find_revision r s.entries ≡ some e = ground arith in
      (ground arith, find_revision-le s.snapshot.revision r s.entries e h.ordered found),
)

module _ (parse : PublishFeaturePolicyInput → Outcome Fault PublishFeaturePolicyInput) where
  publish-revision :
      (s : MemoryFeaturePolicyStore) (input : PublishFeaturePolicyInput) (at r : ℕ)
      (e : FeaturePolicyAuditEntry)
      → IsContiguous s
      → revision s r ≡ some e
      → revision (store_after s (publish parse s input at)) r ≡ some e
  unfolding revision
  publish-revision s input at r e h q = elim (publish_cases parse s input at) [
    | inl (f, p) ↦ rw p q
    | inr (i, _, base, p) ↦
        let found : find_revision r s.entries ≡ some e = ground arith in
        let le = find_revision-le s.snapshot.revision r s.entries e h.ordered found in
        let apart : (s.snapshot.revision + 1 == r) ≡ false = ground arith in rw (p, apart) q
  ]

  -- An entry that a contiguous store gives for a revision it gives after every later publication: the
  -- history is only appended to.
  pub publish_all-revision :
      (s : MemoryFeaturePolicyStore) (inputs : List (PublishFeaturePolicyInput × ℕ)) (r : ℕ)
      (e : FeaturePolicyAuditEntry)
      → IsContiguous s
      → revision s r ≡ some e
      → revision (publish_all parse s inputs) r ≡ some e
  unfolding publish_all
  publish_all-revision s [] r e h q = q
  publish_all-revision s ((input, at) ∷ rest) r e h q =
      publish_all-revision (store_after s (publish parse s input at)) rest r e
        (publish-IsContiguous parse s input at h) (publish-revision s input at r e h q)
