-- ===== src/Automation/Tests.antt =====
-- Leases and runs of jobs, and the theorems at them.
use hyeboard.Prelude.{ℕ, ◌≡◌, refl, true, false, List, [], ◌∷◌, arith, lookup, ok, throw}
use hyeboard.Automation.Lease.{
  LeaseStore, JobLease, owns, is_held, renew, Call, acquires, renews, releases, run,
}
use hyeboard.Automation.Exclusive.{is_acquired_in, lease_exclusive, lost_lease_refused}
use hyeboard.Automation.Events.{
  other_error, error_code, is_retryable, cancel, cancel_all, throw_if_cancelled, shutdown,
  heartbeat, progress, started, succeeded, failed, interim, Effect, published, acked, disconnected,
  released, emit,
}
use hyeboard.Automation.Worker.{
  Called, Attempt, ack, connect, emit_during, perform_job, handle_error, disconnect_browser,
  release_lease, process,
}
use hyeboard.Automation.Effects.{CountsFrom, acks_settled}
use hyeboard.Automation.Acknowledged.{process_acknowledges}

abbrev mine : JobLease
mine = record { job_id = "job"; held_token = "t1"; held_fence = 1; ttl_ms = 1000 }

abbrev theirs : JobLease
theirs = record { job_id = "job"; held_token = "t2"; held_fence = 2; ttl_ms = 1000 }

abbrev leased : LeaseStore
leased = record {
  records = ("job", record { token = "t1"; fence = 1; expires_at = 1000 }) ∷ [];
  released = [];
}

abbrev attempts_of_others : List (ℕ × Call)
attempts_of_others =
    (100, acquires "job" "t2" 2 1000) ∷ (200, releases theirs) ∷ (300, renews theirs) ∷ []

lease_exclusive_example :
    (owns (run leased attempts_of_others) mine 900 ≡ true)
    × (is_acquired_in leased "job" attempts_of_others ≡ false)
unfolding owns lookup
lease_exclusive_example =
    lease_exclusive mine attempts_of_others leased 0 900 refl
      (omega arith, refl, (omega arith, refl, (omega arith, refl, omega arith)))

abbrev taken_over : List (ℕ × Call)
taken_over = (1100, acquires "job" "t2" 2 1000) ∷ (1200, renews mine) ∷ (1300, releases theirs) ∷ []

lost_lease_refused_example :
    (is_held (run leased taken_over) mine 1400 ≡ false)
    × ((renew (run leased taken_over) mine 1400).0 ≡ false)
unfolding owns lookup
lost_lease_refused_example =
    lost_lease_refused mine taken_over leased 1050 1400 refl
      (omega arith, refl, (omega arith, refl, (omega arith, refl, omega arith)))

-- A run that succeeds.
abbrev good : Called
good = ok tt

abbrev smooth : Attempt
smooth = record {
  has_envelope = true;
  job = good;
  acquired = true;
  start_published = good;
  credential = good;
  before_browser = [];
  browser = good;
  early = [];
  during = (heartbeat, good) ∷ (progress, throw other_error) ∷ (progress, good) ∷ [];
  late = [];
  closing = [];
  executed = good;
  before_result = [];
  held = good;
  sealed = good;
  result_published = good;
  acknowledged = good;
  before_handler = [];
  terminal_published = good;
  terminal_acknowledged = good;
  disconnect = good;
  release = good;
  delivery_count = 1;
  max_delivery_count = 3;
}

-- The effects of a run, computed through every definition.
effects_of : Attempt → List Effect
unfolding error_code is_retryable cancel cancel_all throw_if_cancelled emit ack connect emit_during
    perform_job handle_error disconnect_browser release_lease process
effects_of a = (process a).1.effects

smooth_effects : effects_of smooth ≡ (
    published 0 started
    ∷ published 1 (interim heartbeat)
    ∷ published 2 (interim progress)
    ∷ published 3 succeeded
    ∷ acked
    ∷ disconnected
    ∷ released
    ∷ [])
unfolding effects_of
smooth_effects = refl

-- A shutdown while the job runs leaves the message for another worker.
shutdown_effects : effects_of (record smooth { before_result = shutdown ∷ [] }) ≡ (
    published 0 started
    ∷ published 1 (interim heartbeat)
    ∷ published 2 (interim progress)
    ∷ disconnected
    ∷ released
    ∷ [])
unfolding effects_of
shutdown_effects = refl

-- An acknowledgement that throws after the result was published makes the handler publish a second
-- terminal event.
second_terminal : effects_of (record smooth { during = []; acknowledged = throw other_error }) ≡ (
    published 0 started
    ∷ published 1 succeeded
    ∷ published 2 (failed "AUTOMATION_EXECUTION_FAILED")
    ∷ acked
    ∷ disconnected
    ∷ released
    ∷ [])
unfolding effects_of
second_terminal = refl

-- A browser that fails to disconnect keeps the lease from being released.
lease_kept :
    effects_of (record smooth { during = []; disconnect = throw other_error })
    ≡ (published 0 started ∷ published 1 succeeded ∷ acked ∷ [])
unfolding effects_of
lease_kept = refl

process_acknowledges_example :
    CountsFrom 0 (process smooth).1.effects × (acks_settled false (process smooth).1.effects ≡ true)
process_acknowledges_example = process_acknowledges smooth refl refl
