-- ===== src/Policy/Restored.antt =====
-- apps/worker/src/policy/feature-policy-store.ts: what a rollback restores.
use hyeboard.Prelude.{
  true, false, ◌≢◌, ◌==◌, ℕ, ◌+◌, ◌≡◌, refl, Bool, Option, none, some, List, ◌∷◌, String, Outcome,
  ok, throw, ◌>>=◌, Option-cases, inl, inr, arith,
}
use hyeboard.Policy.Content.{FeaturePolicyContent, Fault, policy_conflict}
use hyeboard.Policy.Store.{
  FeaturePolicyAuditEntry, PublishFeaturePolicyInput, MemoryFeaturePolicyStore, revision, publish,
  entry_of, publish_all,
}
use hyeboard.Policy.History.{IsContiguous, publish_cases}
use hyeboard.Policy.Audit.{publish_all-revision}
use hyeboard.Policy.Rollback.{
  node_after, passed_on, unknown_university, RollbackFeaturePolicyInput, PolicyNode, pass_on,
  store_answer, found, validate_policy, publish_policy, rollback,
}

-- The publication that a rollback makes of the target's policy.
abbrev pub restoring : RollbackFeaturePolicyInput → FeaturePolicyContent → PublishFeaturePolicyInput
restoring i policy = record {
  base_revision = i.base_revision;
  policy = policy;
  reason = i.reason;
  actor = i.actor;
}

-- What the schema of a publication is relied on for: it passes the policy and the base revision through,
-- and what it made passes unchanged.
pub record IsFaithful (parse : PublishFeaturePolicyInput → Outcome Fault PublishFeaturePolicyInput)
    : Type 0 where
  pub keeps :
      (i j : PublishFeaturePolicyInput)
      → parse i ≡ ok j
      → (j.policy ≡ i.policy) × (j.base_revision ≡ i.base_revision)
  pub again : (i j : PublishFeaturePolicyInput) → parse i ≡ ok j → parse j ≡ ok j

-- A bind that returns has a first part that does.
bind_ok :
    {E A B : Type 0} (m : Outcome E A) (f : A → Outcome E B) (b : B)
    → (m >>= f) ≡ ok b
    → (a : A) × (m ≡ ok a) × (f a ≡ ok b)
bind_ok (ok a) f b h = (a, refl, h)
bind_ok (throw e) f b h = cc

pass_on_ok : {A : Type 0} (m : Outcome Fault A) (a : A) → pass_on m ≡ ok a → m ≡ ok a
pass_on_ok (ok b) a h = cc
pass_on_ok (throw e) a h = cc

store_answer_ok : {A : Type 0} (m : Outcome Fault A) (a : A) → store_answer m ≡ ok a → m ≡ ok a
store_answer_ok (ok b) a h = cc
store_answer_ok (throw f) a h = cc

found_ok :
    (o : Option FeaturePolicyAuditEntry) (e : FeaturePolicyAuditEntry) → found o ≡ ok e → o ≡ some e
found_ok none e h = cc
found_ok (some d) e h = cc

module _ (has_shape : FeaturePolicyContent → Bool) (known : List String) where
  validate_policy_ok :
      (c d : FeaturePolicyContent) → validate_policy has_shape known c ≡ ok d → c ≡ d
  unfolding validate_policy
  validate_policy_ok c d h = elim (Option-cases (unknown_university known c.universities)) [
    | inl q ↦ ground (arith, q)
    | inr (id, q) ↦ ground (arith, q)
  ]

  module _ (parse : PublishFeaturePolicyInput → Outcome Fault PublishFeaturePolicyInput)
      (faithful : IsFaithful parse) where
    -- A publication that returns has put its entry on the history.
    publish_policy_ok :
        (n n' : PolicyNode) (input : PublishFeaturePolicyInput) (at : ℕ) (notified : Bool)
        (e : FeaturePolicyAuditEntry)
        → publish_policy has_shape known parse n input at notified ≡ ok (e, n')
        → (input.base_revision ≡ n.store.snapshot.revision)
          × (e.base_revision ≡ input.base_revision)
          × (e.revision ≡ n.store.snapshot.revision + 1)
          × (e.snapshot
              ≡ record { content = input.policy; revision = n.store.snapshot.revision + 1 })
          × (n'.store ≡ record { snapshot = e.snapshot; entries = e ∷ n.store.entries })
    unfolding publish_policy
    publish_policy_ok n n' input at notified e h =
        let (policy, v, h1) = bind_ok (validate_policy has_shape known input.policy) _ _ h in
        let (parsed, p, h2) = bind_ok (pass_on (parse (record input { policy = policy }))) _ _ h1 in
        let (answer, s, h3) = bind_ok (store_answer (publish parse n.store parsed at)) _ _ h2 in
        let put = store_answer_ok (publish parse n.store parsed at) answer s in
        let kept = faithful.keeps (record input { policy = policy }) parsed (pass_on_ok _ _ p) in
        let valid = validate_policy_ok input.policy policy v in
        elim (publish_cases parse n.store parsed at) [
          | inl (f, q) ↦ let wrong : ⊥ = cc in elim wrong [ ]
          | inr (i, again, base, q) ↦
              let same = faithful.keeps parsed i again in
              let made : answer ≡ (
                entry_of n.store i at,
                record {
                  snapshot = (entry_of n.store i at).snapshot;
                  entries = entry_of n.store i at ∷ n.store.entries;
                },
              ) =
                cc in
              let he : e ≡ entry_of n.store i at = cc in
              let hs : n'.store ≡ record {
                snapshot = (entry_of n.store i at).snapshot;
                entries = entry_of n.store i at ∷ n.store.entries;
              } =
                cc in
              let content : i.policy ≡ input.policy = cc in
              (cc, rw he cc, rw he refl, rw (he, content) refl, rw he hs)
        ]

    -- A publication of a valid policy returns on the store's revision, and is in conflict on another.
    publish_policy_answers :
        (n : PolicyNode) (input j : PublishFeaturePolicyInput) (at : ℕ) (notified : Bool)
        → validate_policy has_shape known input.policy ≡ ok input.policy
        → parse input ≡ ok j
        → (input.base_revision ≡ n.store.snapshot.revision
            → (x : FeaturePolicyAuditEntry × PolicyNode) × (publish_policy has_shape known parse n
                  input at notified
                ≡ ok x))
          × (input.base_revision ≢ n.store.snapshot.revision
              → publish_policy has_shape known parse n input at notified
                ≡ throw (passed_on (policy_conflict n.store.snapshot.revision)))
    unfolding publish_policy publish
    publish_policy_answers n input j at notified v p =
        let again = faithful.again input j p in
        let kept = faithful.keeps input j p in
        (
          λ base.
              let on : (j.base_revision == n.store.snapshot.revision) ≡ true = ground arith in
              let e = entry_of n.store j at in
              let store : MemoryFeaturePolicyStore = record {
                snapshot = e.snapshot;
                entries = e ∷ n.store.entries;
              } in
              ((e, node_after n e store notified), rw (v, p, again, on) refl),
          λ stale.
              let off : (j.base_revision == n.store.snapshot.revision) ≡ false = ground arith in
              rw (v, p, again, off) refl,
        )

    module _
        (parse_rollback : RollbackFeaturePolicyInput
          → Outcome Fault RollbackFeaturePolicyInput) where
      -- A rollback that returns was made on the store's revision, and has made the target's policy the
      -- current one, in a new revision on top of a history that is kept.
      rollback_ok :
          (n n' : PolicyNode) (between : List (PublishFeaturePolicyInput × ℕ))
          (input i : RollbackFeaturePolicyInput) (t e : FeaturePolicyAuditEntry) (at : ℕ)
          (notified : Bool)
          → parse_rollback input ≡ ok i
          → revision n.store i.target_revision ≡ some t
          → rollback has_shape known parse parse_rollback n between input at notified ≡ ok (e, n')
          → let s = publish_all parse n.store between in
            (i.base_revision ≡ s.snapshot.revision)
            × (n'.store.snapshot
                ≡ record { content = t.snapshot.content; revision = s.snapshot.revision + 1 })
            × (n'.store.entries ≡ e ∷ s.entries)
      unfolding rollback
      rollback_ok n n' between input i t e at notified p q r =
          let m : PolicyNode = record n { store = publish_all parse n.store between } in
          let (policy, v, r1) =
            bind_ok (validate_policy has_shape known t.snapshot.content) _ _ (rw (p, q) at r) in
          let (base, _, _, snap, store) =
            publish_policy_ok m n' (restoring i policy) at notified e r1 in
          let same = validate_policy_ok t.snapshot.content policy v in
          (base, rw store (rw same snap), rw store refl)

      -- A rollback of a well-formed request to a revision that the store has, on the store's revision,
      -- with whatever publications in between, returns if the target's policy is still valid and the
      -- schema accepts the publication. Then the current policy is the target's again, in one new
      -- revision on top of the history, which is kept as it was and still has the target. (The store is
      -- contiguous, and the schema of publications passes policies and base revisions through.)
      pub rollback_restores :
          (n : PolicyNode) (between : List (PublishFeaturePolicyInput × ℕ))
          (input i : RollbackFeaturePolicyInput) (t : FeaturePolicyAuditEntry)
          (j : PublishFeaturePolicyInput) (at : ℕ) (notified : Bool)
          → IsContiguous n.store
          → parse_rollback input ≡ ok i
          → revision n.store i.target_revision ≡ some t
          → validate_policy has_shape known t.snapshot.content ≡ ok t.snapshot.content
          → parse (restoring i t.snapshot.content) ≡ ok j
          → i.base_revision ≡ (publish_all parse n.store between).snapshot.revision
          → let s = publish_all parse n.store between in
            (e : FeaturePolicyAuditEntry) × (n' : PolicyNode) × (rollback has_shape known parse
                parse_rollback n between input at notified
              ≡ ok (e, n'))
            × (n'.store.snapshot
                ≡ record { content = t.snapshot.content; revision = s.snapshot.revision + 1 })
            × (n'.store.entries ≡ e ∷ s.entries)
            × (revision s i.target_revision ≡ some t)
      unfolding rollback
      rollback_restores n between input i t j at notified h p q v w base =
          let m : PolicyNode = record n { store = publish_all parse n.store between } in
          let ((e, n'), r) =
            (publish_policy_answers m (restoring i t.snapshot.content) j at notified v w).0 base in
          let result : rollback has_shape known parse parse_rollback n between input at notified
              ≡ ok (e, n') =
            rw (p, q, v) r in
          let (_, snap, entries) = rollback_ok n n' between input i t e at notified p q result in
          (
            e,
            n',
            result,
            snap,
            entries,
            publish_all-revision parse n.store between i.target_revision t h q,
          )
