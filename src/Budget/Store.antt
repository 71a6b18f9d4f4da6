-- ===== src/Budget/Store.antt =====
-- apps/worker/src/vnu/vnu-probe-budget-durable-object.ts: the class. A call is one storage
-- transaction at the instant `now`; the lease identifiers of `randomHex32` are arguments. A table
-- that is deleted reads as an empty one.
use hyeboard.Prelude.{
  utf16_length, ℕ, ◌+◌, String, Bool, true, false, ◌&&◌, not, Option, none, some, List, [], ◌∷◌,
  ◌++◌, ltb, leb, ◌==◌, str_eq, if◌then◌else◌, Dict, lookup, insert, erase, keep, values,
  all_entries, length, is_hex, is_positive_safe, minimum, Outcome, ok, throw, ◌>>=◌, ◌>>◌, ensure,
  max_safe_integer,
}
use hyeboard.Budget.Window.{
  BudgetWindow, BudgetResult, allowed, refused, consume_budget_window, is_stored_window, is_allowed,
  charged,
}
use hyeboard.Budget.Checks.{
  vnu_probe_budget_limit, vnu_probe_budget_window_seconds, vnu_brc1_permit_limit,
  vnu_brc1_permit_lease_ms, vnu_cross_detail_policy_version, vnu_cross_detail_lease_ms,
  CrossDetailLimits, PermitRecord, IssuedPermit, ConsumeInput, are_valid_limits,
  are_valid_issued_permits, is_valid_consume_input, is_valid_amount,
}

pub record StoredPermit : Type 0 where
  pub granted : PermitRecord
  pub open granted use *
  pub consumed_at : Option ℕ

pub record BudgetStore : Type 0 where
  pub window : Option BudgetWindow
  pub permits : Dict ℕ
  pub detail_permits : Dict StoredPermit
  pub detail_window : Option BudgetWindow
  pub detail_leases : Dict ℕ
  pub alarm : Option ℕ

pub data Fault : Type 0 where
  invalid_store invalid_limits invalid_issuance invalid_amount : Fault

abbrev is_consumed_instant : Option ℕ → Bool
is_consumed_instant none = true
is_consumed_instant (some n) = is_positive_safe n

unfoldable pub is_stored_permit : String → StoredPermit → Bool
is_stored_permit hash p =
    is_hex 64 hash
    && is_hex 64 p.requester_hmac
    && is_hex 64 p.target_hmac
    && is_hex 64 p.revision_hmac
    && is_hex 64 p.row_hmac
    && p.policy_version == vnu_cross_detail_policy_version
    && is_hex 32 p.nonce
    && ltb 0 (utf16_length p.envelope)
    && is_positive_safe p.expires_at
    && is_consumed_instant p.consumed_at

unfoldable pub parse_stored_permits : Dict StoredPermit → Outcome Fault (Dict StoredPermit)
parse_stored_permits m = do ensure (all_entries is_stored_permit m) invalid_store; ok m

unfoldable pub parse_stored_window : Option BudgetWindow → Outcome Fault (Option BudgetWindow)
parse_stored_window w = do ensure (is_stored_window w) invalid_store; ok w

-- `activePermits` and `activeCrossDetailLeases`: what is well formed and has not expired.
abbrev pub is_live_lease : ℕ → String → ℕ → Bool
is_live_lease now id expires_at =
    is_hex 32 id && leb expires_at max_safe_integer && ltb now expires_at

unfoldable pub active_leases : Dict ℕ → ℕ → Dict ℕ
active_leases stored now = keep (is_live_lease now) stored

abbrev pub is_live_permit : ℕ → String → StoredPermit → Bool
is_live_permit now hash p = ltb now p.expires_at

unfoldable pub active_detail_permits : Dict StoredPermit → ℕ → Outcome Fault (Dict StoredPermit)
active_detail_permits stored now = do
  permits ← parse_stored_permits stored
  ok (keep (is_live_permit now) permits)

abbrev pub live_instants : ℕ → List ℕ → List ℕ
live_instants now [] = []
live_instants now (e ∷ es) =
    let rest = live_instants now es in
    if leb e max_safe_integer && ltb now e then e ∷ rest else rest

abbrev pub permit_instants : ℕ → Dict StoredPermit → List ℕ
permit_instants now [] = []
permit_instants now ((hash, p) ∷ m) =
    let rest = permit_instants now m in if ltb now p.expires_at then p.expires_at ∷ rest else rest

-- `rescheduleAlarm`: the earliest live expiry of the three tables.
unfoldable pub reschedule_alarm : BudgetStore → ℕ → Outcome Fault BudgetStore
reschedule_alarm s now = do
  permits ← parse_stored_permits s.detail_permits
  ok (record s {
    alarm = minimum (
        live_instants now (values s.permits)
        ++ (permit_instants now permits ++ live_instants now (values s.detail_leases)));
  })

pub data PermitAnswer : Type 0 where
  granted : String → ℕ → PermitAnswer
  busy : ℕ → PermitAnswer

-- `acquireBrc1Permit`
unfoldable pub acquire_brc1_permit :
    BudgetStore → String → ℕ → Outcome Fault (PermitAnswer × BudgetStore)
acquire_brc1_permit s lease_id now =
    let live = active_leases s.permits now in
    let expires_at = now + vnu_brc1_permit_lease_ms in
    if leb vnu_brc1_permit_limit (length live) then ok (busy 1, s) else (do
      s' ← reschedule_alarm (record s { permits = insert lease_id expires_at live }) now
      ok (granted lease_id expires_at, s'))

abbrev pub is_key {ℓ} : {V : Type ℓ} → Option V → Bool
is_key none = false
is_key (some v) = true

-- `releaseBrc1Permit`
unfoldable pub release_brc1_permit : BudgetStore → String → ℕ → Outcome Fault BudgetStore
release_brc1_permit s lease_id now =
    let live = active_leases s.permits now in
    if not (is_hex 32 lease_id)
    then ok s
    else if not (is_key (lookup lease_id live))
    then ok s
    else reschedule_alarm (record s { permits = erase lease_id live }) now

pub data ConsumeAnswer : Type 0 where
  consumed : String → ℕ → String → ConsumeAnswer
  invalid : ConsumeAnswer
  over_budget : ℕ → ConsumeAnswer
  detail_busy : ℕ → ConsumeAnswer

abbrev pub is_consumed : ConsumeAnswer → Bool
is_consumed (consumed id n e) = true
is_consumed _ = false

-- The presented permit is the stored one, unconsumed, in every binding.
unfoldable pub presents : Option StoredPermit → ConsumeInput → Bool
presents none i = false
presents (some p) i =
    not (is_key p.consumed_at)
    && str_eq p.nonce i.nonce
    && str_eq p.requester_hmac i.requester_hmac
    && str_eq p.target_hmac i.target_hmac
    && str_eq p.revision_hmac i.revision_hmac
    && str_eq p.row_hmac i.row_hmac
    && p.policy_version == i.policy_version

abbrev pub retry_of : BudgetResult → ℕ
retry_of allowed = 0
retry_of (refused n) = n

-- The transaction of `consumeCrossDetailPermit` once the permit `p` is found.
unfoldable pub consume_found :
    BudgetStore
    → Dict StoredPermit
    → Dict ℕ
    → StoredPermit
    → ConsumeInput
    → CrossDetailLimits
    → String
    → ℕ
    → Outcome Fault (ConsumeAnswer × BudgetStore)
consume_found s permits leases p i limits lease_id now = do
  stored ← parse_stored_window s.detail_window
  let charge = consume_budget_window stored 1 now limits.budget limits.window_seconds
  if not (is_allowed charge.result)
      then ok (over_budget (retry_of charge.result), s)
      else if leb limits.concurrency (length leases)
      then ok (detail_busy 1, s)
      else (do
        s' ←
            reschedule_alarm
              (record s {
                detail_permits =
                    insert i.permit_hash (record { granted = p.granted; consumed_at = some now })
                      permits;
                detail_window = some charge.window;
                detail_leases = insert lease_id (now + vnu_cross_detail_lease_ms) leases;
              })
              now
        ok (consumed lease_id (now + vnu_cross_detail_lease_ms) p.envelope, s'))

unfoldable pub consume_cross_detail_permit :
    BudgetStore
    → ConsumeInput
    → CrossDetailLimits
    → String
    → ℕ
    → Outcome Fault (ConsumeAnswer × BudgetStore)
consume_cross_detail_permit s i limits lease_id now = do
  ensure (are_valid_limits limits) invalid_limits
  if not (is_valid_consume_input i) then ok (invalid, s) else (do
    permits ← active_detail_permits s.detail_permits now
    elim (lookup i.permit_hash permits) [
      | none ↦ ok (invalid, s)
      | some p ↦
          if not (presents (some p) i)
          then ok (invalid, s)
          else consume_found s permits (active_leases s.detail_leases now) p i limits lease_id now
    ])

unfoldable pub insert_issued : List IssuedPermit → Dict StoredPermit → Dict StoredPermit
insert_issued [] m = m
insert_issued (p ∷ ps) m =
    insert_issued ps (insert p.permit_hash (record { granted = p.permit; consumed_at = none }) m)

-- `issueCrossDetailPermits`
unfoldable pub issue_cross_detail_permits :
    BudgetStore → List IssuedPermit → CrossDetailLimits → ℕ → Outcome Fault BudgetStore
issue_cross_detail_permits s permits limits now = do
  ensure (are_valid_limits limits) invalid_limits
  ensure (are_valid_issued_permits permits limits) invalid_issuance
  stored ← active_detail_permits s.detail_permits now
  reschedule_alarm (record s { detail_permits = insert_issued permits stored }) now

-- `releaseCrossDetailLease`
unfoldable pub release_cross_detail_lease : BudgetStore → String → ℕ → Outcome Fault BudgetStore
release_cross_detail_lease s lease_id now =
    let live = active_leases s.detail_leases now in
    if not (is_hex 32 lease_id)
    then ok s
    else if not (is_key (lookup lease_id live))
    then ok s
    else reschedule_alarm (record s { detail_leases = erase lease_id live }) now

-- `alarm`: each table is pruned and stored, and the alarm set anew, in this order.
unfoldable pub alarm_fires : BudgetStore → ℕ → Outcome Fault BudgetStore
alarm_fires s now = do
  s1 ← reschedule_alarm (record s { permits = active_leases s.permits now }) now
  permits ← active_detail_permits s1.detail_permits now
  s2 ← reschedule_alarm (record s1 { detail_permits = permits }) now
  reschedule_alarm (record s2 { detail_leases = active_leases s2.detail_leases now }) now

-- `reserve`, and `consume`, which is the same.
unfoldable pub reserve : BudgetStore → ℕ → ℕ → Outcome Fault (BudgetResult × BudgetStore)
reserve s amount now = do
  ensure (is_valid_amount amount) invalid_amount
  stored ← parse_stored_window s.window
  let t =
      consume_budget_window stored amount now vnu_probe_budget_limit vnu_probe_budget_window_seconds
  ok (t.result, record s { window = charged stored t })

pub data Call : Type 0 where
  acquire release release_detail : String → Call
  consume : ConsumeInput → CrossDetailLimits → String → Call
  issue : List IssuedPermit → CrossDetailLimits → Call
  fires : Call
  reserves : ℕ → Call

abbrev pub store_of {ℓ} : {A : Type ℓ} → BudgetStore → Outcome Fault (A × BudgetStore) → BudgetStore
store_of s (ok (a, s')) = s'
store_of s (throw e) = s

abbrev pub store_or : BudgetStore → Outcome Fault BudgetStore → BudgetStore
store_or s (ok s') = s'
store_or s (throw e) = s

-- A call that throws leaves the storage as it was.
unfoldable pub step : BudgetStore → ℕ → Call → BudgetStore
step s now (acquire id) = store_of s (acquire_brc1_permit s id now)
step s now (release id) = store_or s (release_brc1_permit s id now)
step s now (release_detail id) = store_or s (release_cross_detail_lease s id now)
step s now (consume i limits id) = store_of s (consume_cross_detail_permit s i limits id now)
step s now (issue permits limits) = store_or s (issue_cross_detail_permits s permits limits now)
step s now fires = store_or s (alarm_fires s now)
step s now (reserves amount) = store_of s (reserve s amount now)

unfoldable pub run : BudgetStore → List (ℕ × Call) → BudgetStore
run s [] = s
run s ((now, call) ∷ rest) = run (step s now call) rest
