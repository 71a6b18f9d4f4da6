-- ===== src/Policy/Recovery.antt =====
-- A store in which a policy is replaced and rolled back to, and the theorem at it.
use hyeboard.Prelude.{
  ℕ, ◌+◌, ◌≡◌, refl, arith, true, false, none, some, List, [], ◌∷◌, Outcome, ok, throw, str_eq,
  if◌then◌else◌,
}
use hyeboard.Policy.Content.{
  FeaturePolicyContent, Fault, unparsable, policy_conflict, empty_policy, unset,
}
use hyeboard.Policy.Store.{
  AdminActor, password, FeaturePolicyAuditEntry, PublishFeaturePolicyInput, new_store, revision,
  publish, publish_all, entry_of,
}
use hyeboard.Policy.History.{IsContiguous, new_store-IsContiguous, publish_all-IsContiguous}
use hyeboard.Policy.Runtime.{new_runtime}
use hyeboard.Policy.Rollback.{
  PolicyError, passed_on, RollbackFeaturePolicyInput, PolicyNode, validate_policy, publish_policy,
  rollback,
}
use hyeboard.Policy.Restored.{IsFaithful, restoring, rollback_restores}

abbrev parse : PublishFeaturePolicyInput → Outcome Fault PublishFeaturePolicyInput
parse i = if str_eq i.reason "" then throw unparsable else ok i

abbrev parse_rollback : RollbackFeaturePolicyInput → Outcome Fault RollbackFeaturePolicyInput
parse_rollback i = if str_eq i.reason "" then throw unparsable else ok i

parse-IsFaithful : IsFaithful parse
parse-IsFaithful = record { keeps = λ i j h. ground arith; again = λ i j h. ground arith }

abbrev operator : AdminActor
operator = record { method = password; subject = "operator"; label = none }

-- Everything is switched off.
abbrev closed_policy : FeaturePolicyContent
closed_policy = record {
  whole = record { capabilities = λ key. some false; limits = λ key. unset };
  universities = [];
}

abbrev publication : ℕ → FeaturePolicyContent → PublishFeaturePolicyInput
publication base policy = record {
  base_revision = base;
  policy = policy;
  reason = "exams";
  actor = operator;
}

abbrev publications : List (PublishFeaturePolicyInput × ℕ)
publications = (publication 0 closed_policy, 10) ∷ (publication 1 empty_policy, 20) ∷ []

abbrev node : PolicyNode
node = record { store = publish_all parse new_store publications; runtime = new_runtime }

-- Another publication comes in between.
abbrev between : List (PublishFeaturePolicyInput × ℕ)
between = (publication 2 empty_policy, 30) ∷ []

abbrev request : ℕ → RollbackFeaturePolicyInput
request base = record {
  base_revision = base;
  target_revision = 1;
  reason = "exams again";
  actor = operator;
}

abbrev answer : ℕ → Outcome PolicyError (FeaturePolicyAuditEntry × PolicyNode)
answer base = rollback (λ c. true) [] parse parse_rollback node between (request base) 40 true

conflict : answer 2 ≡ throw (passed_on (policy_conflict 3))
unfolding rollback publish_policy validate_policy new_store publish publish_all revision
conflict = refl

abbrev target : FeaturePolicyAuditEntry
target = entry_of new_store (publication 0 closed_policy) 10

node-IsContiguous : IsContiguous node.store
node-IsContiguous = publish_all-IsContiguous parse new_store publications new_store-IsContiguous

rollback_restores_example :
    let s = publish_all parse node.store between in
    (e : FeaturePolicyAuditEntry) × (n' : PolicyNode) × (answer 3 ≡ ok (e, n'))
    × (n'.store.snapshot ≡ record { content = closed_policy; revision = s.snapshot.revision + 1 })
    × (n'.store.entries ≡ e ∷ s.entries)
    × (revision s 1 ≡ some target)
unfolding validate_policy new_store publish publish_all revision
rollback_restores_example =
    rollback_restores (λ c. true) [] parse parse-IsFaithful parse_rollback node between (request 3)
      (request 3) target (restoring (request 3) closed_policy) 40 true node-IsContiguous refl refl
      refl refl refl
