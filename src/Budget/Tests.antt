-- ===== src/Budget/Tests.antt =====
-- A session's probe budget through issuance, consumption and expiry, and the theorems at it.
use hyeboard.Prelude.{
  utf16_length, ℕ, ◌≤◌, ◌<◌, ◌≡◌, refl, false, none, some, [], ◌∷◌, String, arith, lookup, insert,
  erase, keep, is_hex, length, minimum, retry_after_seconds, throw, List, answered, never_sent,
  reply_lost,
}
use hyeboard.Budget.Window.{
  current_window, charge_window, consume_budget_window, is_stored_window, charged, spent,
  spent-le-limit,
}
use hyeboard.Budget.Checks.{
  CrossDetailLimits, IssuedPermit, ConsumeInput, are_valid_limits, is_valid_permit_record, distinct,
  are_valid_issued_permits, is_valid_consume_input, is_valid_amount,
}
use hyeboard.Budget.Store.{
  BudgetStore, Call, acquire, release, consume, issue, is_stored_permit, parse_stored_permits,
  parse_stored_window, active_leases, active_detail_permits, reschedule_alarm, acquire_brc1_permit,
  release_brc1_permit, invalid, is_consumed, presents, consume_found, consume_cross_detail_permit,
  insert_issued, issue_cross_detail_permits, release_cross_detail_lease, alarm_fires, reserve, step,
  run,
}
use hyeboard.Budget.Bounds.{run-permits_bounded}
use hyeboard.Budget.SingleUse.{consume_once}
use hyeboard.Budget.Alarm.{IsPending, reschedule_alarm_covers}
use hyeboard.Budget.Coordinator.{Namespace, aborted, Event, request, alarm, handle_all, coordinate}
use hyeboard.Budget.Presented.{is_lease, coordinated_single_use}
use hyeboard.Budget.Abandoned.{
  aborts_meanwhile, acquire_brc1_permit_under, abandoned_permit_released,
}

abbrev hash : String
hash = "aaaaaaaaaaaaaaaaaaaaaaaaaaaaaaaaaaaaaaaaaaaaaaaaaaaaaaaaaaaaaaaa"

abbrev hmac : String
hmac = "0123456789abcdef0123456789abcdef0123456789abcdef0123456789abcdef"

abbrev nonce : String
nonce = "cccccccccccccccccccccccccccccccc"

abbrev first_lease : String
first_lease = "00000000000000000000000000000001"

abbrev second_lease : String
second_lease = "00000000000000000000000000000002"

abbrev limits : CrossDetailLimits
limits = record { max_targets = 2; max_rows = 4; concurrency = 1; budget = 5; window_seconds = 600 }

abbrev issued : IssuedPermit
issued = record {
  permit_hash = hash;
  permit = record {
    requester_hmac = hmac;
    target_hmac = hmac;
    revision_hmac = hmac;
    row_hmac = hmac;
    policy_version = 1;
    nonce = nonce;
    envelope = "sealed";
    expires_at = 600000;
  };
}

abbrev presented : ConsumeInput
presented = record {
  permit_hash = hash;
  nonce = nonce;
  requester_hmac = hmac;
  target_hmac = hmac;
  revision_hmac = hmac;
  row_hmac = hmac;
  policy_version = 1;
}

abbrev empty : BudgetStore
empty = record {
  window = none;
  permits = [];
  detail_permits = [];
  detail_window = none;
  detail_leases = [];
  alarm = none;
}

-- The operations, computed through every definition.
after : BudgetStore → ℕ → Call → BudgetStore
unfolding current_window charge_window consume_budget_window is_stored_window charged utf16_length
    are_valid_limits is_valid_permit_record distinct are_valid_issued_permits is_valid_consume_input
    is_valid_amount is_stored_permit parse_stored_permits parse_stored_window active_leases
    active_detail_permits reschedule_alarm acquire_brc1_permit release_brc1_permit presents
    consume_found consume_cross_detail_permit insert_issued issue_cross_detail_permits
    release_cross_detail_lease alarm_fires reserve step run lookup insert erase keep is_hex minimum
    retry_after_seconds
after s now call = step s now call

abbrev with_permit : BudgetStore
unfolding after
with_permit = after empty 1000 (issue (issued ∷ []) limits)

abbrev spent_permit : BudgetStore
unfolding after
spent_permit = after with_permit 2000 (consume presented limits first_lease)

permit_waits : with_permit.alarm ≡ some 600000
unfolding after
permit_waits = refl

lease_waits : spent_permit.alarm ≡ some 127000
unfolding after
lease_waits = refl

spent-le-limit_example : spent none ((1000, 200) ∷ (2000, 150) ∷ (3000, 100) ∷ []) 300 600 ≤ 300
spent-le-limit_example =
    spent-le-limit 300 600 none 1000 200 ((2000, 150) ∷ (3000, 100) ∷ []) (λ w e. cc) (omega arith)
      (omega arith, omega arith, (omega arith, omega arith, tt))

run-permits_bounded_example :
    length (run empty ((1000, acquire first_lease) ∷ (1000, acquire second_lease) ∷ [])).permits ≤ 6
run-permits_bounded_example =
    run-permits_bounded empty ((1000, acquire first_lease) ∷ (1000, acquire second_lease) ∷ [])
      (omega arith)

consume_once_example : is_consumed invalid ≡ false
unfolding after
consume_once_example =
    consume_once with_permit spent_permit presented presented limits limits first_lease second_lease
      2000 4000 first_lease 127000 "sealed" ((3000, release first_lease) ∷ []) invalid spent_permit
      (refl, tt) refl tt refl refl

reschedule_alarm_covers_example :
    ((a : ℕ) → with_permit.alarm ≡ some a → 1000 < a)
    × ((e : ℕ)
        → 1000 < e
        → IsPending with_permit 1000 e
        → (a : ℕ) × (with_permit.alarm ≡ some a) × (a ≤ e))
unfolding after
reschedule_alarm_covers_example = reschedule_alarm_covers with_permit with_permit 1000 refl

abbrev empty_namespace : Namespace
empty_namespace key = empty

abbrev session_events : List (ℕ × Event)
session_events =
    (1000, request answered hmac (acquire first_lease))
    ∷ (2000, request reply_lost hmac (issue (issued ∷ []) limits))
    ∷ (3000, request never_sent hmac (release first_lease))
    ∷ (4000, alarm hash)
    ∷ []

abandoned_permit_released_example :
    ((acquire_brc1_permit_under aborts_meanwhile answered reply_lost empty_namespace hmac
        first_lease 1000 2000).0
      ≡ throw aborted)
    × (lookup first_lease (
          active_leases
            ((acquire_brc1_permit_under aborts_meanwhile answered reply_lost empty_namespace hmac
                first_lease 1000 2000).1
              hmac).permits
            3000)
        ≡ none)
unfolding after
abandoned_permit_released_example =
    abandoned_permit_released reply_lost empty_namespace hmac first_lease 1000 2000 3000 refl refl
      refl refl (omega arith)

abbrev permit_namespace : Namespace
permit_namespace key = with_permit

-- The same permit is issued to another session.
abbrev later_events : List (ℕ × Event)
later_events =
    (3000, request reply_lost hmac (release first_lease))
    ∷ (3500, alarm hmac)
    ∷ (3600, request answered hash (issue (issued ∷ []) limits))
    ∷ []

coordinated_single_use_example :
    is_lease
      (coordinate answered
        (handle_all
          (coordinate reply_lost permit_namespace hmac
            (consume presented limits first_lease)
            2000).1
          later_events)
        hmac
        (consume presented limits second_lease)
        4000).0
    ≡ false
unfolding after
coordinated_single_use_example =
    coordinated_single_use reply_lost answered permit_namespace hmac presented presented limits
      limits first_lease second_lease 2000 4000 first_lease 127000 "sealed" spent_permit
      later_events (refl, tt) refl refl (refl, tt) refl
