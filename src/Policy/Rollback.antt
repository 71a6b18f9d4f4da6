-- ===== src/Policy/Rollback.antt =====
-- apps/worker/src/policy/feature-policy-store.ts: `FeaturePolicyRuntime.publish` and `rollback` over the
-- memory store, with `validatePolicy` (feature-policy.ts). What the schema library checks of a policy, of
-- a publication and of a rollback are parameters, and so are the known universities.
use hyeboard.Prelude.{
  ℕ, Bool, false, not, Option, none, some, List, [], ◌∷◌, String, Dict, str_eq, ◌||◌, if◌then◌else◌,
  Outcome, ok, throw, ◌>>=◌,
}
use hyeboard.Policy.Content.{FeaturePolicyContent, UniversityPolicy, Fault, unparsable}
use hyeboard.Policy.Store.{
  AdminActor, FeaturePolicyAuditEntry, PublishFeaturePolicyInput, MemoryFeaturePolicyStore,
  revision, publish, publish_all,
}
use hyeboard.Policy.Runtime.{FeaturePolicyRuntime, publish_answered, invalidate}

-- What a call throws: a fault that is passed on, an invalid policy with the unknown university if it is
-- for one, a revision that is not there, and that the policy is unavailable.
pub data PolicyError : Type 0 where
  passed_on : Fault → PolicyError
  invalid_policy : Option String → PolicyError
  revision_not_found unavailable : PolicyError

pub record RollbackFeaturePolicyInput : Type 0 where
  pub base_revision : ℕ
  pub target_revision : ℕ
  pub reason : String
  pub actor : AdminActor

-- The store and the runtime of a node.
pub record PolicyNode : Type 0 where
  pub store : MemoryFeaturePolicyStore
  pub runtime : FeaturePolicyRuntime

abbrev is_known : List String → String → Bool
is_known [] id = false
is_known (k ∷ ks) id = str_eq k id || is_known ks id

-- The first university that is not among the known ones.
abbrev pub unknown_university : List String → Dict UniversityPolicy → Option String
unknown_university known [] = none
unknown_university known ((id, p) ∷ rest) =
    if not (is_known known id) then some id else unknown_university known rest

-- The error of the schema library is no `HyeboardError`.
abbrev pub rethrown : Fault → PolicyError
rethrown unparsable = unavailable
rethrown f = passed_on f

module _ {A : Type 0} where
  abbrev pub pass_on : Outcome Fault A → Outcome PolicyError A
  pass_on (ok a) = ok a
  pass_on (throw f) = throw (passed_on f)

  abbrev pub store_answer : Outcome Fault A → Outcome PolicyError A
  store_answer (ok a) = ok a
  store_answer (throw f) = throw (rethrown f)

abbrev pub found : Option FeaturePolicyAuditEntry → Outcome PolicyError FeaturePolicyAuditEntry
found none = throw revision_not_found
found (some e) = ok e

-- The notification, which comes back to the runtime that published, if it does not fail.
abbrev pub after_notification : Bool → FeaturePolicyRuntime → ℕ → FeaturePolicyRuntime
after_notification notified r n = if notified then invalidate r n else r

abbrev pub node_after :
    PolicyNode → FeaturePolicyAuditEntry → MemoryFeaturePolicyStore → Bool → PolicyNode
node_after n e store notified = record {
  store = store;
  runtime = after_notification notified (publish_answered n.runtime (ok e)) e.revision;
}

module _ (has_shape : FeaturePolicyContent → Bool) (known : List String) where
  -- `validatePolicy`, with no hard limits.
  unfoldable pub validate_policy : FeaturePolicyContent → Outcome PolicyError FeaturePolicyContent
  validate_policy policy =
      if not (has_shape policy)
      then throw (invalid_policy none)
      else elim (unknown_university known policy.universities) [
        | some id ↦ throw (invalid_policy (some id))
        | none ↦ ok policy
      ]

  module _ (parse : PublishFeaturePolicyInput → Outcome Fault PublishFeaturePolicyInput) where
    unfoldable pub publish_policy :
        PolicyNode
        → PublishFeaturePolicyInput
        → ℕ
        → Bool
        → Outcome PolicyError (FeaturePolicyAuditEntry × PolicyNode)
    publish_policy n input at notified = do
      policy ← validate_policy input.policy
      parsed ← pass_on (parse (record input { policy = policy }))
      answer ← store_answer (publish parse n.store parsed at)
      ok (answer.0, node_after n answer.0 answer.1 notified)

    -- `between` are the publications that reach the store after the target was read.
    unfoldable pub rollback :
        (RollbackFeaturePolicyInput → Outcome Fault RollbackFeaturePolicyInput)
        → PolicyNode
        → List (PublishFeaturePolicyInput × ℕ)
        → RollbackFeaturePolicyInput
        → ℕ
        → Bool
        → Outcome PolicyError (FeaturePolicyAuditEntry × PolicyNode)
    rollback parse_rollback n between input at notified = do
      i ← pass_on (parse_rollback input)
      target ← found (revision n.store i.target_revision)
      policy ← validate_policy target.snapshot.content
      publish_policy (record n { store = publish_all parse n.store between })
          (record {
            base_revision = i.base_revision;
            policy = policy;
            reason = i.reason;
            actor = i.actor;
          })
          at notified
