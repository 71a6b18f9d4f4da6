-- ===== src/Policy/Store.antt =====
-- apps/worker/src/policy/feature-policy-store.ts: `MemoryFeaturePolicyStore`. What the schemas check of
-- a publication is the parameter `parse`; a stored entry, which has been parsed, is parsed and
-- cloned to itself. The instant of a publication is an argument.
use hyeboard.Prelude.{
  ℕ, ◌+◌, min, String, Bool, true, not, ◌&&◌, Option, none, some, List, [], ◌∷◌, ltb, leb, ◌==◌,
  if◌then◌else◌, take, select, length, Outcome, ok, throw, ◌>>=◌, ◌>>◌, ensure, is_positive_safe,
  max_safe_integer,
}
use hyeboard.Policy.Content.{
  FeaturePolicyContent, Fault, policy_conflict, invalid_request, empty_policy,
}

abbrev pub max_history_limit : ℕ
max_history_limit = 100

pub data AdminMethod : Type 0 where
  password github discord : AdminMethod

pub record AdminActor : Type 0 where
  pub method : AdminMethod
  pub subject : String
  pub label : Option String

pub record FeaturePolicySnapshot : Type 0 where
  pub content : FeaturePolicyContent
  pub revision : ℕ

pub record FeaturePolicyAuditEntry : Type 0 where
  pub revision : ℕ
  pub base_revision : ℕ
  pub actor : AdminActor
  pub reason : String
  pub published_at : ℕ
  pub snapshot : FeaturePolicySnapshot

pub record PublishFeaturePolicyInput : Type 0 where
  pub base_revision : ℕ
  pub policy : FeaturePolicyContent
  pub reason : String
  pub actor : AdminActor

-- `entries` has the newest first.
pub record MemoryFeaturePolicyStore : Type 0 where
  pub snapshot : FeaturePolicySnapshot
  pub entries : List FeaturePolicyAuditEntry

unfoldable pub new_store : MemoryFeaturePolicyStore
new_store = record { snapshot = record { content = empty_policy; revision = 0 }; entries = [] }

pub record HistoryPage : Type 0 where
  pub items : List FeaturePolicyAuditEntry
  pub next_before_revision : Option ℕ

-- `parseHistoryInput`, of natural numbers.
abbrev is_before : Option ℕ → Bool
is_before none = true
is_before (some r) = leb r max_safe_integer && not (r == 0)

unfoldable pub parse_history_input : Option ℕ → ℕ → Outcome Fault ℕ
parse_history_input before limit = do
  ensure (is_positive_safe limit) invalid_request
  ensure (is_before before) invalid_request
  ok (min limit max_history_limit)

abbrev pub is_eligible : Option ℕ → FeaturePolicyAuditEntry → Bool
is_eligible none e = true
is_eligible (some before) e = ltb e.revision before

unfoldable pub eligible : Option ℕ → List FeaturePolicyAuditEntry → List FeaturePolicyAuditEntry
eligible none entries = entries
eligible (some before) entries = select (is_eligible (some before)) entries

-- `items.at(-1)!.revision`
abbrev pub last_revision : List FeaturePolicyAuditEntry → Option ℕ
last_revision [] = none
last_revision (e ∷ []) = some e.revision
last_revision (e ∷ f ∷ es) = last_revision (f ∷ es)

unfoldable pub page_of : List FeaturePolicyAuditEntry → ℕ → HistoryPage
page_of entries limit =
    let items = take limit entries in
    record {
      items = items;
      next_before_revision =
          if ltb (length items) (length entries) && ltb 0 (length items)
          then last_revision items
          else none;
    }

unfoldable pub history : MemoryFeaturePolicyStore → Option ℕ → ℕ → Outcome Fault HistoryPage
history s before limit = do
  most ← parse_history_input before limit
  ok (page_of (eligible before s.entries) most)

abbrev pub find_revision : ℕ → List FeaturePolicyAuditEntry → Option FeaturePolicyAuditEntry
find_revision r [] = none
find_revision r (e ∷ es) = if e.revision == r then some e else find_revision r es

unfoldable pub revision : MemoryFeaturePolicyStore → ℕ → Option FeaturePolicyAuditEntry
revision s r = if not (is_positive_safe r) then none else find_revision r s.entries

abbrev pub entry_of :
    MemoryFeaturePolicyStore → PublishFeaturePolicyInput → ℕ → FeaturePolicyAuditEntry
entry_of s i at = record {
  revision = s.snapshot.revision + 1;
  base_revision = i.base_revision;
  actor = i.actor;
  reason = i.reason;
  published_at = at;
  snapshot = record { content = i.policy; revision = s.snapshot.revision + 1 };
}

abbrev pub store_after :
    MemoryFeaturePolicyStore
    → Outcome Fault (FeaturePolicyAuditEntry × MemoryFeaturePolicyStore)
    → MemoryFeaturePolicyStore
store_after s (ok (e, s')) = s'
store_after s (throw e) = s

module _ (parse : PublishFeaturePolicyInput → Outcome Fault PublishFeaturePolicyInput) where
  unfoldable pub publish :
      MemoryFeaturePolicyStore
      → PublishFeaturePolicyInput
      → ℕ
      → Outcome Fault (FeaturePolicyAuditEntry × MemoryFeaturePolicyStore)
  publish s input at = do
    i ← parse input
    ensure (i.base_revision == s.snapshot.revision) (policy_conflict s.snapshot.revision)
    ok (
      entry_of s i at,
      record { snapshot = (entry_of s i at).snapshot; entries = entry_of s i at ∷ s.entries },
    )

  -- Publications, which `serialized` runs one after the other.
  unfoldable pub publish_all :
      MemoryFeaturePolicyStore → List (PublishFeaturePolicyInput × ℕ) → MemoryFeaturePolicyStore
  publish_all s [] = s
  publish_all s ((input, at) ∷ rest) = publish_all (store_after s (publish s input at)) rest
