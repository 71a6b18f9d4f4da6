-- ===== src/Budget/Bounds.antt =====
-- apps/worker/src/vnu/vnu-probe-budget-durable-object.ts: how many leases there are at once.
use hyeboard.Prelude.{
  ℕ, ◌+◌, ◌≤◌, ◌≡◌, false, List, [], ◌∷◌, String, arith, Dict, length, length-keep-le,
  length-insert-le, length-erase-le, ok,
}
use hyeboard.Budget.Checks.{CrossDetailLimits, IssuedPermit, ConsumeInput}
use hyeboard.Budget.Store.{
  BudgetStore, Call, acquire, release, release_detail, consume, issue, fires, reserves, step, run,
  acquire_brc1_permit, release_brc1_permit, consume_cross_detail_permit, issue_cross_detail_permits,
  release_cross_detail_lease, alarm_fires, reserve, reschedule_alarm, active_leases, is_live_lease,
  consume_found, ConsumeAnswer, consumed, is_consumed, store_of, store_or,
}

length-active_leases : (m : Dict ℕ) (now : ℕ) → length (active_leases m now) ≤ length m
unfolding active_leases
length-active_leases m now = length-keep-le (is_live_lease now) m

abbrev IsBounded : BudgetStore → Type 0
IsBounded s = length s.permits ≤ 6

acquire-IsBounded :
    (s : BudgetStore) (id : String) (now : ℕ)
    → IsBounded s
    → IsBounded (store_of s (acquire_brc1_permit s id now))
unfolding acquire_brc1_permit reschedule_alarm
acquire-IsBounded s id now b = ground (
  arith,
  length-active_leases s.permits now,
  length-insert-le id (now + 125000) (active_leases s.permits now),
)

release-IsBounded :
    (s : BudgetStore) (id : String) (now : ℕ)
    → IsBounded s
    → IsBounded (store_or s (release_brc1_permit s id now))
unfolding release_brc1_permit reschedule_alarm
release-IsBounded s id now b =
    ground
      (arith, length-active_leases s.permits now, length-erase-le id (active_leases s.permits now))

fires-IsBounded :
    (s : BudgetStore) (now : ℕ) → IsBounded s → IsBounded (store_or s (alarm_fires s now))
unfolding alarm_fires reschedule_alarm
fires-IsBounded s now b = ground (arith, length-active_leases s.permits now)

-- The other calls leave the permits alone.
consume-permits :
    (s : BudgetStore) (i : ConsumeInput) (limits : CrossDetailLimits) (id : String) (now : ℕ)
    → (store_of s (consume_cross_detail_permit s i limits id now)).permits ≡ s.permits
unfolding consume_cross_detail_permit consume_found reschedule_alarm
consume-permits s i limits id now = ground arith

issue-permits :
    (s : BudgetStore) (ps : List IssuedPermit) (limits : CrossDetailLimits) (now : ℕ)
    → (store_or s (issue_cross_detail_permits s ps limits now)).permits ≡ s.permits
unfolding issue_cross_detail_permits reschedule_alarm
issue-permits s ps limits now = ground arith

release_detail-permits :
    (s : BudgetStore) (id : String) (now : ℕ)
    → (store_or s (release_cross_detail_lease s id now)).permits ≡ s.permits
unfolding release_cross_detail_lease reschedule_alarm
release_detail-permits s id now = ground arith

reserve-permits :
    (s : BudgetStore) (amount now : ℕ) → (store_of s (reserve s amount now)).permits ≡ s.permits
unfolding reserve
reserve-permits s amount now = ground arith

step-IsBounded :
    (s : BudgetStore) (now : ℕ) (call : Call) → IsBounded s → IsBounded (step s now call)
unfolding step
step-IsBounded s now (acquire id) b = acquire-IsBounded s id now b
step-IsBounded s now (release id) b = release-IsBounded s id now b
step-IsBounded s now (release_detail id) b = rw (release_detail-permits s id now) b
step-IsBounded s now (consume i limits id) b = rw (consume-permits s i limits id now) b
step-IsBounded s now (issue ps limits) b = rw (issue-permits s ps limits now) b
step-IsBounded s now fires b = fires-IsBounded s now b
step-IsBounded s now (reserves amount) b = rw (reserve-permits s amount now) b

-- From a storage with at most six Brc1 permits no history of calls makes more than six.
pub run-permits_bounded :
    (s : BudgetStore) (history : List (ℕ × Call))
    → length s.permits ≤ 6
    → length (run s history).permits ≤ 6
unfolding run
run-permits_bounded s [] b = b
run-permits_bounded s ((now, call) ∷ rest) b =
    run-permits_bounded (step s now call) rest (step-IsBounded s now call b)

-- A permit that is handed out while the concurrency limit is `limits.concurrency` is one of at most so
-- many leases.
pub consume-leases_bounded :
    (s s' : BudgetStore) (i : ConsumeInput) (limits : CrossDetailLimits) (id : String) (now : ℕ)
    (lease : String) (expires_at : ℕ) (envelope : String)
    → consume_cross_detail_permit s i limits id now ≡ ok (consumed lease expires_at envelope, s')
    → length s'.detail_leases ≤ limits.concurrency
unfolding consume_cross_detail_permit consume_found reschedule_alarm
consume-leases_bounded s s' i limits id now lease expires_at envelope h =
    ground (arith, length-insert-le id (now + 125000) (active_leases s.detail_leases now))

-- A presentation that is refused, for whatever reason, changes nothing, so a permit that was refused
-- for want of budget or capacity can be presented again.
consume_refused_unchanged :
    (s s' : BudgetStore) (i : ConsumeInput) (limits : CrossDetailLimits) (id : String) (now : ℕ)
    (r : ConsumeAnswer)
    → consume_cross_detail_permit s i limits id now ≡ ok (r, s')
    → is_consumed r ≡ false
    → s' ≡ s
unfolding consume_cross_detail_permit consume_found
consume_refused_unchanged s s' i limits id now r h e = ground arith
