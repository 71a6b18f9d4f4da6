-- ===== src/Protocol/Tests.antt =====
-- The events of a run that ends well, read by a new cursor, and the theorems at them.
use hyeboard.Prelude.{
  ◌≤◌, ◌+◌, ◌≡◌, ◌↔◌, refl, true, false, none, List, [], ◌∷◌, arith, ok, is_base64url_22,
}
use hyeboard.Automation.Events.{
  error_code, is_retryable, cancel, cancel_all, throw_if_cancelled, emit, heartbeat, succeeded,
  started, Effect, published, acked,
}
use hyeboard.Automation.Worker.{
  Called, Attempt, ack, connect, emit_during, perform_job, handle_error, disconnect_browser,
  release_lease, process,
}
use hyeboard.Automation.Effects.{published_count}
use hyeboard.Protocol.Reader.{still_waiting, HasRead, carried, consume_events}
use hyeboard.Protocol.Runs.{process_read, rerun_unheard}
use hyeboard.Protocol.Cursor.{EventCursor, create_event_cursor, validate_event_sequence}
use hyeboard.Protocol.Sequence.{is_continued, validate_event_sequence_iff}
use hyeboard.Protocol.Accepted.{EventWriter, events_of}

abbrev writer : EventWriter
writer = record {
  writer_job = "AAAAAAAAAAAAAAAAAAAAAA";
  writer_account = "BBBBBBBBBBBBBBBBBBBBBA";
  writer_fence = 3;
  emitted_of = λ n. 100 + n;
  expiry_of = λ n. 5000 + n;
  challenge_of = λ n. "CCCCCCCCCCCCCCCCCCCCCA";
}

abbrev new_cursor : EventCursor
new_cursor = record {
  cursor_job = "AAAAAAAAAAAAAAAAAAAAAA";
  cursor_account = "BBBBBBBBBBBBBBBBBBBBBA";
  cursor_fence = 3;
  next_sequence = 0;
  terminal = false;
}

new_cursor_made :
    create_event_cursor is_base64url_22 "AAAAAAAAAAAAAAAAAAAAAA" "BBBBBBBBBBBBBBBBBBBBBA" 3 none
    ≡ ok new_cursor
unfolding create_event_cursor is_base64url_22
new_cursor_made = refl

abbrev two_events : List Effect
two_events = published 0 started ∷ published 1 succeeded ∷ acked ∷ []

validate_event_sequence_iff_example :
    ((c' : EventCursor) × (validate_event_sequence is_base64url_22
          (events_of writer two_events)
          new_cursor
          200
        ≡ ok c'))
    ↔ (is_continued is_base64url_22 new_cursor 200 (events_of writer two_events) ≡ true)
validate_event_sequence_iff_example =
    validate_event_sequence_iff is_base64url_22 (events_of writer two_events) new_cursor 200

abbrev ends_well : Called
ends_well = ok tt

abbrev steady : Attempt
steady = record {
  has_envelope = true;
  job = ends_well;
  acquired = true;
  start_published = ends_well;
  credential = ends_well;
  before_browser = [];
  browser = ends_well;
  early = (heartbeat, ends_well) ∷ [];
  during = [];
  late = [];
  closing = [];
  executed = ends_well;
  before_result = [];
  held = ends_well;
  sealed = ends_well;
  result_published = ends_well;
  acknowledged = ends_well;
  before_handler = [];
  terminal_published = ends_well;
  terminal_acknowledged = ends_well;
  disconnect = ends_well;
  release = ends_well;
  delivery_count = 1;
  max_delivery_count = 3;
}

challenge_is_opaque : is_base64url_22 "CCCCCCCCCCCCCCCCCCCCCA" ≡ true
unfolding is_base64url_22
challenge_is_opaque = refl

process_read_example : HasRead (events_of writer (process steady).1.effects) (
    consume_events is_base64url_22 200 "AAAAAAAAAAAAAAAAAAAAAA"
      (carried "AAAAAAAAAAAAAAAAAAAAAA" (events_of writer (process steady).1.effects))
      new_cursor)
process_read_example =
    process_read is_base64url_22 writer new_cursor 200 steady refl refl
      (λ n. (omega arith, omega arith, challenge_is_opaque)) new_cursor_made refl

-- The run publishes three events; four of another run have been read.
three_published : published_count (process steady).1.effects ≤ 4
unfolding error_code is_retryable cancel cancel_all throw_if_cancelled emit ack connect emit_during
    perform_job handle_error disconnect_browser release_lease process
three_published = omega arith

abbrev given_up : EventCursor
given_up = record {
  cursor_job = "AAAAAAAAAAAAAAAAAAAAAA";
  cursor_account = "BBBBBBBBBBBBBBBBBBBBBA";
  cursor_fence = 3;
  next_sequence = 4;
  terminal = false;
}

rerun_unheard_example :
    consume_events is_base64url_22 200 "AAAAAAAAAAAAAAAAAAAAAA"
      (carried "AAAAAAAAAAAAAAAAAAAAAA" (events_of writer (process steady).1.effects))
      given_up
    ≡ still_waiting given_up
rerun_unheard_example =
    rerun_unheard is_base64url_22 writer new_cursor 200 steady refl refl
      (λ n. (omega arith, omega arith, challenge_is_opaque)) new_cursor_made 4 three_published
