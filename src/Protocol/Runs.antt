-- ===== src/Protocol/Runs.antt =====
-- apps/automation-worker/src and apps/worker/src/node/automation/backend.ts together: what the server
-- reads of the runs of a job.
use hyeboard.Prelude.{
  ℕ, ◌+◌, ◌≤◌, ◌≡◌, Bool, true, false, none, List, [], ◌∷◌, String, arith, ok, All,
}
use hyeboard.Automation.Events.{Effect, published, acked, disconnected, released}
use hyeboard.Automation.Worker.{Attempt, is_ok, process}
use hyeboard.Automation.Effects.{CountsFrom, published_count}
use hyeboard.Automation.Acknowledged.{process_acknowledges}
use hyeboard.Protocol.Cursor.{EventCursor, create_event_cursor}
use hyeboard.Protocol.Sequence.{validate_event_sequence_iff}
use hyeboard.Protocol.Accepted.{
  EventWriter, event_of, events_of, events_of-are_own, IsTimely, process_events_accepted,
}
use hyeboard.Protocol.Reader.{
  still_waiting, consume_events, carried, HasRead, is_repeated, consume_events-HasRead,
  consume_events_repeated,
}

events_of_repeated :
    (w : EventWriter) (c : EventCursor) (n : ℕ) (es : List Effect)
    → CountsFrom n es
    → published_count es + n ≤ c.next_sequence
    → All (λ v. is_repeated c v ≡ true) (events_of w es)
unfolding event_of
events_of_repeated w c n [] k l = tt
events_of_repeated w c n (published m x ∷ es) (e, k) l =
    (ground arith, events_of_repeated w c (n + 1) es k (omega arith))
events_of_repeated w c n (acked ∷ es) k l = events_of_repeated w c n es k l
events_of_repeated w c n (disconnected ∷ es) k l = events_of_repeated w c n es k l
events_of_repeated w c n (released ∷ es) k l = events_of_repeated w c n es k l

module _ (is_opaque : String → Bool) (w : EventWriter) (c : EventCursor) (now : ℕ) (a : Attempt)
    (taken : a.has_envelope ≡ true) (valid : is_ok a.job ≡ true)
    (timely : IsTimely is_opaque w c now)
    (made : create_event_cursor is_opaque w.writer_job w.writer_account w.writer_fence none
      ≡ ok c) where
  -- The server, with a new cursor, reads a run of the job that is taken up to its terminal event, if it
  -- publishes one, and waits on if it does not; it never rejects an event of it. The acknowledgement of
  -- a result does not throw, the identifiers are opaque, and no event has expired.
  pub process_read :
      a.acknowledged ≡ ok tt
      → let events = events_of w (process a).1.effects in
        HasRead events (consume_events is_opaque now w.writer_job (carried w.writer_job events) c)
  process_read k =
      let es = events_of w (process a).1.effects in
      let accepted = process_events_accepted is_opaque w c now a taken valid k timely made in
      consume_events-HasRead is_opaque now w.writer_job es c
        ((validate_event_sequence_iff is_opaque es c now).0 accepted)

  -- A run that comes after one that was given up is not heard, if it publishes no more events than the
  -- server has read of the job: with its cursor past those, none of them terminal, the server passes
  -- over all of the run, a terminal event included, and goes on waiting. The identifiers are opaque, and no
  -- event has expired.
  pub rerun_unheard :
      (read : ℕ)
      → published_count (process a).1.effects ≤ read
      → let left : EventCursor = record c { next_sequence = read; terminal = false } in
        consume_events is_opaque now w.writer_job
          (carried w.writer_job (events_of w (process a).1.effects))
          left
        ≡ still_waiting left
  rerun_unheard read l =
      let es = (process a).1.effects in
      let left : EventCursor = record c { next_sequence = read; terminal = false } in
      consume_events_repeated is_opaque now w.writer_job (events_of w es) left
        (events_of-are_own is_opaque w c now es timely made)
        (events_of_repeated w left 0 es (process_acknowledges a taken valid).0 (omega arith))
