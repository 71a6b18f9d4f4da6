-- ===== src/Automation/Scenarios.antt =====
-- A stream of two jobs and one of two controls, and the theorems at them.
use hyeboard.Prelude.{
  utf16_length, ℕ, ◌≡◌, refl, true, false, Option, none, some, List, [], ◌∷◌, String, arith, lookup,
  insert, str_eq, ok, is_base64url_22, if◌then◌else◌,
}
use hyeboard.Core.Json.{Json}
use hyeboard.Automation.Broker.{
  Entry, Pending, GroupState, BrokerCall, new_broker, group_key, entries_of, ensure_group,
  set_pending, delete_pending, read_entries, read_group, reclaim, reclaim_pending, ack_message,
  add_entry, ensures, reads, reclaims, acks, adds, call_broker, run_broker,
}
use hyeboard.Automation.Accounts.{AccountsFor}
use hyeboard.Automation.Delivery.{acked_in, run_broker_delivers}
use hyeboard.Automation.Control.{
  AutomationControl, captcha_answer, cancel_job, ControlConfig, Consumer, handle_control,
  process_messages, prepare_group, run_once, consume, read_head, checked_control,
  parse_automation_control, is_answer,
}
use hyeboard.Automation.Drained.{IsIdle, handle_all, consume_drains}
use hyeboard.Automation.Parsing.{control_json, is_valid_control, parse_automation_control_valid}

abbrev shift_work : List (ℕ × BrokerCall)
shift_work =
    (0, ensures "jobs" "workers")
    ∷ (1, adds "jobs" (("job", "a") ∷ []))
    ∷ (2, adds "jobs" (("job", "b") ∷ []))
    ∷ (3, reads "jobs" "workers" "w1" 10 false)
    ∷ (4, acks "jobs" "workers" 1)
    ∷ (900, reclaims "jobs" "workers" "w2" 10 500 false)
    ∷ []

abbrev job_b : Pending
job_b = record {
  message = record { id = 2; contents = ("job", "b") ∷ [] };
  delivery_count = 2;
  consumer = "w2";
  claimed_at = 900;
  idle_ms = some 0;
}

abbrev workers : GroupState
workers = record { next_index = 2; pending = job_b ∷ [] }

taken_over_b :
    lookup (group_key "jobs" "workers") (run_broker new_broker shift_work).groups ≡ some workers
unfolding lookup insert entries_of ensure_group set_pending delete_pending read_entries read_group
    reclaim reclaim_pending ack_message add_entry call_broker run_broker
taken_over_b = refl

run_broker_delivers_example :
    AccountsFor
      (acked_in "jobs" "workers" shift_work [])
      (entries_of (run_broker new_broker shift_work) "jobs")
      workers
run_broker_delivers_example =
    run_broker_delivers "jobs" "workers" shift_work workers
      (refl, (refl, (refl, (refl, (refl, (refl, tt)))))) taken_over_b

abbrev answered_captcha : AutomationControl
answered_captcha =
    captcha_answer "AAAAAAAAAAAAAAAAAAAAAA" "BBBBBBBBBBBBBBBBBBBBBA" 3 "CCCCCCCCCCCCCCCCCCCCCA"
      "x7k2"

abbrev cancelled_job : AutomationControl
cancelled_job = cancel_job "AAAAAAAAAAAAAAAAAAAAAA" "BBBBBBBBBBBBBBBBBBBBBA" 3 none

parse_automation_control_valid_example :
    ((v : Json) (c : AutomationControl)
      → parse_automation_control is_base64url_22 v ≡ ok c
      → is_valid_control is_base64url_22 c ≡ true)
    × ((c : AutomationControl)
        → is_valid_control is_base64url_22 c ≡ true
        → parse_automation_control is_base64url_22 (control_json c) ≡ ok c)
parse_automation_control_valid_example = parse_automation_control_valid is_base64url_22

captcha_is_valid : is_valid_control is_base64url_22 answered_captcha ≡ true
unfolding is_base64url_22 utf16_length is_answer
captcha_is_valid = refl

abbrev control_config : ControlConfig
control_config = record {
  control_stream = "controls";
  control_group = "workers";
  control_consumer = "w1";
  reclaim_idle_ms = 60000;
  aad_prefix = "control:";
}

-- The codec knows two envelopes.
abbrev opened : String → String → Option Json
opened token aad =
    if str_eq token "answer"
    then some (control_json answered_captcha)
    else if str_eq token "cancel"
    then some (control_json cancelled_job)
    else none

abbrev remember : AutomationControl → List AutomationControl → List AutomationControl
remember c cs = c ∷ cs

abbrev control_entries : List Entry
control_entries =
    record {
      id = 1;
      contents = ("jobId", "AAAAAAAAAAAAAAAAAAAAAA") ∷ ("controlEnvelope", "answer") ∷ [];
    }
    ∷ record {
      id = 2;
      contents = ("jobId", "AAAAAAAAAAAAAAAAAAAAAA") ∷ ("controlEnvelope", "cancel") ∷ [];
    }
    ∷ []

abbrev waiting : Consumer is_base64url_22 opened remember control_config
waiting = record {
  broker = record { streams = ("controls", control_entries) ∷ []; groups = []; sequence = 2 };
  group_ready = false;
  handled = [];
}

both_handled :
    (consume is_base64url_22 opened remember control_config (5 ∷ []) waiting).handled
    ≡ cancelled_job ∷ answered_captcha ∷ []
unfolding lookup insert entries_of ensure_group set_pending delete_pending read_entries read_group
    reclaim reclaim_pending ack_message is_base64url_22 utf16_length is_answer control_json
    read_head checked_control parse_automation_control handle_control process_messages prepare_group
    run_once consume
both_handled = refl

consume_drains_example :
    IsIdle is_base64url_22 opened remember control_config
      (prepare_group is_base64url_22 opened remember control_config
        (consume is_base64url_22 opened remember control_config (5 ∷ []) waiting))
      control_entries
      2
    × ((consume is_base64url_22 opened remember control_config (5 ∷ []) waiting).handled
        ≡ handle_all is_base64url_22 opened remember control_config control_entries [])
unfolding entries_of lookup
consume_drains_example =
    consume_drains is_base64url_22 opened remember control_config (5 ∷ []) waiting control_entries
      refl refl refl (omega arith)
