-- ===== src/Budget/Coordinator.antt =====
-- apps/worker/src/vnu/vnu-probe-budget.ts: `DurableObjectVnuProbeBudgetCoordinator`, over a namespace
-- with one store for each session. `consume` and `reserve` are one call here, as they are of the object.
use hyeboard.Prelude.{
  ℕ, ◌≡◌, refl, ◌∙◌, sym, ap, inl, inr, Bool, true, false, not, ◌&&◌, List, [], ◌∷◌, ◌++◌, String,
  arith, Outcome, ok, throw, if◌then◌else◌, str_eq, str_eq_iff, is_hex, Bool-cases, Rpc, answered,
  never_sent, reply_lost, is_sent, put,
}
use hyeboard.Budget.Window.{BudgetResult, allowed, refused}
use hyeboard.Budget.Checks.{
  CrossDetailLimits, vnu_probe_budget_limit, vnu_probe_budget_window_seconds, are_valid_limits,
  are_valid_issued_permits, is_valid_consume_input, is_valid_amount,
}
use hyeboard.Budget.Store.{
  BudgetStore, Fault, PermitAnswer, granted, busy, ConsumeAnswer, consumed, invalid, over_budget,
  detail_busy, Call, acquire, release, release_detail, consume, issue, fires, reserves,
  acquire_brc1_permit, release_brc1_permit, consume_cross_detail_permit, issue_cross_detail_permits,
  release_cross_detail_lease, reserve, step, run,
}

-- The errors of the coordinator: plain ones of its assertions, and those that reach the client.
pub data Rejection : Type 0 where
  invalid_identity invalid_request permit_invalid unavailable aborted : Rejection
  rate_limited : ℕ → ℕ → ℕ → Rejection
  too_busy : ℕ → Rejection

pub data Response : Type 0 where
  done : Response
  permit : String → ℕ → Response
  lease : String → ℕ → String → Response

abbrev pub Namespace : Type 0
Namespace = String → BudgetStore

-- The assertions of each method after that of the identity, and before its remote call.
abbrev pub asserted : Call → Bool
asserted (acquire id) = true
asserted (release id) = is_hex 32 id
asserted (release_detail id) = is_hex 32 id
asserted (consume i limits id) = are_valid_limits limits && is_valid_consume_input i
asserted (issue ps limits) = are_valid_limits limits && are_valid_issued_permits ps limits
asserted fires = false
asserted (reserves amount) = is_valid_amount amount

-- What a method makes of the object's reply.
abbrev of_done : Outcome Fault BudgetStore → Outcome Rejection Response
of_done (ok s) = ok done
of_done (throw e) = throw unavailable

abbrev of_charge : Outcome Fault (BudgetResult × BudgetStore) → Outcome Rejection Response
of_charge (ok (allowed, s)) = ok done
of_charge (ok (refused n, s)) =
    throw (rate_limited n vnu_probe_budget_limit vnu_probe_budget_window_seconds)
of_charge (throw e) = throw unavailable

abbrev of_permit : Outcome Fault (PermitAnswer × BudgetStore) → Outcome Rejection Response
of_permit (ok (granted id expires_at, s)) = ok (permit id expires_at)
of_permit (ok (busy n, s)) = throw (too_busy n)
of_permit (throw e) = throw unavailable

abbrev pub of_consume :
    CrossDetailLimits → Outcome Fault (ConsumeAnswer × BudgetStore) → Outcome Rejection Response
of_consume limits (ok (consumed id expires_at envelope, s)) = ok (lease id expires_at envelope)
of_consume limits (ok (over_budget n, s)) =
    throw (rate_limited n limits.budget limits.window_seconds)
of_consume limits (ok (detail_busy n, s)) = throw (too_busy n)
of_consume limits (ok (invalid, s)) = throw permit_invalid
of_consume limits (throw e) = throw unavailable

abbrev pub response : BudgetStore → ℕ → Call → Outcome Rejection Response
response s now (acquire id) = of_permit (acquire_brc1_permit s id now)
response s now (release id) = of_done (release_brc1_permit s id now)
response s now (release_detail id) = of_done (release_cross_detail_lease s id now)
response s now (consume i limits id) =
    of_consume limits (consume_cross_detail_permit s i limits id now)
response s now (issue ps limits) = of_done (issue_cross_detail_permits s ps limits now)
response s now fires = throw unavailable
response s now (reserves amount) = of_charge (reserve s amount now)

abbrev pub replied : Rpc → Outcome Rejection Response → Outcome Rejection Response
replied answered r = r
replied never_sent r = throw unavailable
replied reply_lost r = throw unavailable

abbrev pub reaches : Rpc → String → Call → Bool
reaches rpc key call = is_hex 64 key && asserted call && is_sent rpc

-- A method of the coordinator, without a signal.
unfoldable pub coordinate :
    Rpc → Namespace → String → Call → ℕ → Outcome Rejection Response × Namespace
coordinate rpc ns key call now =
    if not (is_hex 64 key)
    then (throw invalid_identity, ns)
    else if not (asserted call)
    then (throw invalid_request, ns)
    else (
      replied rpc (response (ns key) now call),
      if is_sent rpc then put ns key (step (ns key) now call) else ns,
    )

-- A method of the coordinator, or the alarm of one session's object.
pub data Event : Type 0 where
  request : Rpc → String → Call → Event
  alarm : String → Event

unfoldable pub handle : Namespace → ℕ → Event → Namespace
handle ns now (request rpc key call) = (coordinate rpc ns key call now).1
handle ns now (alarm key) = put ns key (step (ns key) now fires)

unfoldable pub handle_all : Namespace → List (ℕ × Event) → Namespace
handle_all ns [] = ns
handle_all ns ((now, e) ∷ es) = handle_all (handle ns now e) es

-- The calls that one session's object runs.
abbrev pub delivered_by : String → ℕ → Event → List (ℕ × Call)
delivered_by key now (request rpc k call) =
    if reaches rpc k call && str_eq k key then (now, call) ∷ [] else []
delivered_by key now (alarm k) = if str_eq k key then (now, fires) ∷ [] else []

abbrev pub delivered : String → List (ℕ × Event) → List (ℕ × Call)
delivered key [] = []
delivered key ((now, e) ∷ es) = delivered_by key now e ++ delivered key es

run-append : (xs ys : List (ℕ × Call)) (s : BudgetStore) → run s (xs ++ ys) ≡ run (run s xs) ys
unfolding run
run-append [] ys s = refl
run-append ((now, call) ∷ xs) ys s = run-append xs ys (step s now call)

put-run :
    (ns : Namespace) (k key : String) (now : ℕ) (call : Call)
    → put ns k (step (ns k) now call) key
      ≡ run (ns key) (if str_eq k key then (now, call) ∷ [] else [])
unfolding run
put-run ns k key now call = elim (Bool-cases (str_eq k key)) [
  | inr other ↦ rw other refl
  | inl same ↦ rw same (ap (λ j. step (ns j) now call) ((str_eq_iff k key).0 same))
]

pub coordinate-reaches :
    (rpc : Rpc) (ns : Namespace) (k : String) (call : Call) (now : ℕ)
    → (coordinate rpc ns k call now).1
      ≡ (if reaches rpc k call then put ns k (step (ns k) now call) else ns)
unfolding coordinate
coordinate-reaches rpc ns k call now = ground arith

handle-delivered_by :
    (ns : Namespace) (now : ℕ) (e : Event) (key : String)
    → handle ns now e key ≡ run (ns key) (delivered_by key now e)
unfolding handle run
handle-delivered_by ns now (alarm k) key = put-run ns k key now fires
handle-delivered_by ns now (request rpc k call) key =
    ap (λ m. m key) (coordinate-reaches rpc ns k call now)
    ∙ elim (Bool-cases (reaches rpc k call)) [
      | inr lost ↦ rw lost refl
      | inl sent ↦ rw sent (put-run ns k key now call)
    ]

-- Whatever the coordinator is asked, and whatever is lost on the way, the store of a session is what
-- its object makes of the calls delivered to it.
pub handle_all-delivered_calls :
    (es : List (ℕ × Event)) (ns : Namespace) (key : String)
    → handle_all ns es key ≡ run (ns key) (delivered key es)
unfolding handle_all run
handle_all-delivered_calls [] ns key = refl
handle_all-delivered_calls ((now, e) ∷ es) ns key =
    handle_all-delivered_calls es (handle ns now e) key
    ∙ ap (λ s. run s (delivered key es)) (handle-delivered_by ns now e key)
    ∙ sym (run-append (delivered_by key now e) (delivered key es) (ns key))
