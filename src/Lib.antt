-- ===== src/Lib.antt =====
-- Hyeboard lets students read their university records. This library models the parts of it that keep
-- state between requests and decide who may do what.
--
-- Parts, by file:
-- Prelude: shared helpers. Tests (Boolean tests on natural numbers), Lists, Texts (identifiers as
--   base64url or hex text), Records (a JavaScript object as an association list: `lookup` is property
--   access, `insert` assignment, `erase` is `delete`, `keep` the copy of what passes a test) Throwing
--   (`Outcome`: a result or a thrown error), Remote (a namespace of named remote objects, and what becomes of
--   a call) and Weights (sums over a table).
-- Refresh: apps/worker/src/vnu/vnu-refresh-control.ts, the state of one principal of VNU: the active
--   pair of access token and refresh grant, the refresh lease, the tombstones of what was revoked, and
--   two rate windows. Refresh/State has the data and `cleanVnuRefreshState`, Refresh/Valid the parser
--   and the comparison, Refresh/Transitions one function per `apply...`, and Refresh/Store the durable
--   object (apps/worker/src/vnu/vnu-refresh-control-durable-object.ts): `mutate`, its methods
--   as the type `Call`, `perform` for one call and `run` for a history of calls at their instants.
--   Refresh/Coordinator has `DurableObjectVnuRefreshControlCoordinator` over a namespace of such objects.
--   The other files prove.
-- Budget: apps/worker/src/vnu/vnu-probe-budget.ts and vnu-probe-budget-durable-object.ts beside it,
--   the budget of one VNU session. Budget/Window has `consumeBudgetWindow`, Budget/Checks the
--   shapes, and Budget/Store one function per method of the object, `step` for a call and `run` for a
--   history. Budget/Coordinator has `DurableObjectVnuProbeBudgetCoordinator`, and Budget/Abandoned its
--   `acquireBrc1Permit` under an abort signal.
-- Resolver: apps/worker/src/vnu/vnu-student-id-resolver.ts. Resolver/Candidates has the codes and the
--   candidates, Resolver/Pool the probes that run at the same time and Resolver/Search the call,
--   `resolveVnuStudentId`: the requests, the order in which they finish and the caller's signal are an
--   `Environment`. Its loop has as many turns of fuel as there are candidates, and one more: each turn
--   settles a probe. Resolver/Sequential has the search one by one that it is compared with.
-- Captcha: apps/worker/src/captcha. Captcha/Local has `LocalCaptchaRelayCoordinator` (captcha-relay.ts),
--   Captcha/Draw the loop of its `prepare`, on fuel of one more than the relays there are,
--   Captcha/Object the durable object (captcha-relay-durable-object.ts) and Captcha/Cloudflare the
--   coordinator over a namespace of them, with its three attempts (captcha-relay-cloudflare.ts).
-- Automation: apps/automation-worker/src. Automation/Lease has `InMemoryJobLeaseStore`
--   (transport/lease.ts), Automation/Events the writer of events, the errors and the cancellation token
--   (transport/events.ts, runtime/errors.ts, runtime/cancellation.ts) and Automation/Worker the life of
--   one message, `process` (runtime/worker.ts), as a function of what each of its calls comes to. A heartbeat
--   is taken up between the steps of the run, not between a terminal event and its acknowledgement.
--   Automation/Broker has `InMemoryStreamsBroker` (transport/broker.ts) and Automation/Control
--   `parseAutomationControl` with the rounds of `AutomationControlConsumer` over it (transport/control.ts):
--   the codec of envelopes, the test of identifiers and the handler are parameters. The
--   Redis store, the stream's client, the loop of the job consumer and the browser are not modelled.
-- Protocol: packages/automation-protocol/src/index.ts. Protocol/Ids has the identifiers, Protocol/Cursor the
--   events, whose schemas are what `EventValue` stands for, and the cursor over them, Protocol/Reader the
--   loop of `consumeEvents` (apps/worker/src/node/automation/backend.ts) over the messages that it gets,
--   and Protocol/Runs puts it together with Automation/Worker. The envelopes are not modelled.
-- Core: packages/core/src/index.ts. Core/Base64 has the base64url coder, Core/Json the exact keys of
--   objects, and Core/Permit the envelope of a cross-detail permit, encrypted and decrypted. The platform's
--   `btoa`, `atob`, AES-GCM with its derived key, and `JSON` with the text coder are the parameter
--   `Platform`; what is relied on is in `IsLawful`, `IsLawfulPlatform` and `IsReadBack` (which is about one
--   payload). The session token and the refresh grant are not modelled.
-- Ha: apps/worker/src/ha/ha-lifecycle.ts. Ha/Lifecycle has the state of `createHaLifecycle` and Ha/Steps
--   what can happen to it, as a relation. The projections for operators and the timers are not modelled.
--   Ha/Config has `parseHaConfig` and `checkSessionEpoch` (apps/worker/src/ha/ha-contracts.ts).
-- Policy: apps/worker/src/policy/feature-policy.ts, with the shapes of packages/schemas/src, and the
--   memory store of apps/worker/src/policy/feature-policy-store.ts beside it. Policy/Content has the data,
--   Policy/Resolve and Policy/University `resolveCapability`, `resolveLimit`, `effectiveUniversity`
--   and `filterDashboardSummary`, Policy/Store `MemoryFeaturePolicyStore`, in which
--   publications run one after the other, Policy/Runtime the cache of `FeaturePolicyRuntime`, with the
--   store's answers as arguments, Policy/Events the open streams of `InProcessFeaturePolicyEvents`, and
--   Policy/Rollback `validatePolicy` with the `publish` and `rollback` of the runtime over that store.
--   What the schema library checks is a parameter. The database stores are not modelled.
-- Lookup: apps/web/src/lib/lookup/bulk-lookup.ts. Lookup/Chunks has `chunkBulkTargets`, on as much
--   fuel as there are targets (each turn takes one or more), Lookup/Bulk `executeBulkLookup`: what the
--   request and the abort signal do in each turn of its loop is an argument, and Lookup/Targets
--   `parseBulkTargets` with `deriveBulkLookupViewState`, over the platform's `split` and `trim`. The
--   parsing of the responses, a check of shapes, is not modelled.
--
-- The worker uses Refresh, Budget, Resolver, Policy, Captcha and Core for a request and Ha for its own life; the
-- web client sends the chunks of Lookup; the automation worker runs apart, and the
-- server reads the events that it publishes through Protocol. The envelope that Budget stores
-- with a permit is the token of Core/Permit.
--
-- Not modelled, besides what the parts above leave out: the routes and the start of the worker
--   (apps/worker/src/app.ts, start.ts), which are calls of a router; the stores of apps/worker/src/node and the
--   policy's durable object, which send SQL statements and scripts to other systems; the sign-in of
--   administrators (apps/worker/src/admin), which rests on the platform's cryptography; the adapters of
--   packages/university-adapters, which fetch and take apart web pages; the schemas of packages/schemas, which
--   are declarations for a library; and of the web client its pages, texts, exports, averages of grades
--   and the coordination of its tabs, which are user interface, floating-point numbers and calls of the browser.
--
-- Conventions. A call of a durable object is one storage transaction and takes the instant that
-- `Date.now()` gives it, a natural number of milliseconds; a call that throws leaves the storage as it was,
-- as a rolled back transaction does. Random identifiers are arguments. A stored value has its declared
-- type: what the parsers check of shapes beyond that (an extra key, a fraction, a string for
-- a number) has no counterpart. Two states that `JSON.stringify` prints alike are those that agree
-- field by field, their tables in the same order; the order of a state's own fields is fixed. An
-- absent table and an empty one are the same. A theorem that needs the keys of a table
-- distinct, which those of every object are, says so. All functions are total, and histories are finite lists.
pub mod Prelude
pub mod Protocol
pub mod Refresh
pub mod Resolver
pub mod Automation
pub mod Budget
pub mod Captcha
pub mod Core
pub mod Ha
pub mod Lookup
pub mod Policy
