-- ===== src/Protocol/Accepted.antt =====
-- apps/automation-worker/src and packages/automation-protocol/src together: what the worker publishes of
-- a job, read with the cursor of the job.
use hyeboard.Prelude.{
  ℕ, suc, ◌+◌, ◌≤◌, ◌<◌, ◌≡◌, refl, Bool, true, false, none, List, [], ◌∷◌, String, arith,
  str_eq_iff, ok, Bool-cases, inl, inr,
}
use hyeboard.Automation.Events.{
  Kind, Interim, interim, is_terminal, Effect, published, acked, disconnected, released,
}
use hyeboard.Automation.Worker.{Attempt, is_ok, process}
use hyeboard.Automation.Effects.{CountsFrom, closings}
use hyeboard.Automation.Acknowledged.{process_acknowledges}
use hyeboard.Automation.Terminal.{process-closings}
use hyeboard.Protocol.Cursor.{
  EventType, challenge_required, AutomationEvent, EventValue, readable, EventCursor,
  create_event_cursor, is_terminal_type, has_challenge_id, validate_event_sequence,
}
use hyeboard.Protocol.Sequence.{
  is_own, are_own, are_numbered, is_ended_once, validate_event_sequence_iff,
}

-- The writer of a job's events, `JobEventWriter`: the instants that it gives the event of a number, and
-- the challenge that it names.
pub record EventWriter : Type 0 where
  pub writer_job : String
  pub writer_account : String
  pub writer_fence : ℕ
  pub emitted_of : ℕ → ℕ
  pub expiry_of : ℕ → ℕ
  pub challenge_of : ℕ → String

abbrev type_of : EventWriter → ℕ → Kind → EventType
type_of w n Kind.started = EventType.started
type_of w n Kind.succeeded = EventType.succeeded
type_of w n (interim Interim.heartbeat) = EventType.heartbeat
type_of w n (interim Interim.progress) = EventType.progress
type_of w n (interim Interim.challenge_required) = challenge_required (w.challenge_of n)
type_of w n (Kind.cancelled reason) = EventType.cancelled
type_of w n (Kind.failed code) = EventType.failed

unfoldable pub event_of : EventWriter → ℕ → Kind → AutomationEvent
event_of w n k = record {
  job_id = w.writer_job;
  account_id = w.writer_account;
  fence = w.writer_fence;
  sequence = n;
  type = type_of w n k;
  emitted_at = w.emitted_of n;
  expires_at = w.expiry_of n;
}

abbrev pub events_of : EventWriter → List Effect → List EventValue
events_of w [] = []
events_of w (published n k ∷ es) = readable (event_of w n k) ∷ events_of w es
events_of w (_ ∷ es) = events_of w es

events_of-are_numbered :
    (w : EventWriter) (n : ℕ) (es : List Effect)
    → CountsFrom n es
    → are_numbered n (events_of w es) ≡ true
unfolding event_of
events_of-are_numbered w n [] c = refl
events_of-are_numbered w n (published m k ∷ es) (e, c) =
    let rest = events_of-are_numbered w (n + 1) es c in
    let shift : n + 1 ≡ suc n = omega arith in ground arith
events_of-are_numbered w n (acked ∷ es) c = events_of-are_numbered w n es c
events_of-are_numbered w n (disconnected ∷ es) c = events_of-are_numbered w n es c
events_of-are_numbered w n (released ∷ es) c = events_of-are_numbered w n es c

is_terminal-type_of :
    (w : EventWriter) (n : ℕ) (k : Kind) → is_terminal_type (type_of w n k) ≡ is_terminal k
is_terminal-type_of w n Kind.started = refl
is_terminal-type_of w n Kind.succeeded = refl
is_terminal-type_of w n (interim Interim.heartbeat) = refl
is_terminal-type_of w n (interim Interim.progress) = refl
is_terminal-type_of w n (interim Interim.challenge_required) = refl
is_terminal-type_of w n (Kind.cancelled reason) = refl
is_terminal-type_of w n (Kind.failed code) = refl

-- Nothing comes after a terminal event.
events_of_none : (w : EventWriter) (es : List Effect) → closings true es ≡ 0 → events_of w es ≡ []
events_of_none w [] h = refl
events_of_none w (published m k ∷ es) h = let off : ⊥ = omega arith in elim off [ ]
events_of_none w (acked ∷ es) h = events_of_none w es h
events_of_none w (disconnected ∷ es) h = events_of_none w es h
events_of_none w (released ∷ es) h = events_of_none w es h

events_of-is_ended_once :
    (w : EventWriter) (es : List Effect)
    → closings false es ≤ 1
    → is_ended_once false (events_of w es) ≡ true
unfolding event_of
events_of-is_ended_once w [] h = refl
events_of-is_ended_once w (published m k ∷ es) h = elim (Bool-cases (is_terminal k)) [
  | inl t ↦
      let none_left : closings true es ≡ 0 = ground arith in rw (events_of_none w es none_left) refl
  | inr f ↦
      let rest = events_of-is_ended_once w es (ground arith) in
      ground (arith, is_terminal-type_of w m k)
]
events_of-is_ended_once w (acked ∷ es) h = events_of-is_ended_once w es h
events_of-is_ended_once w (disconnected ∷ es) h = events_of-is_ended_once w es h
events_of-is_ended_once w (released ∷ es) h = events_of-is_ended_once w es h

module _ (is_opaque : String → Bool) (w : EventWriter) (c : EventCursor) (now : ℕ) where
  -- The instants of each event are in order and it has not expired, and its challenge is opaque.
  abbrev pub IsTimely : Type 0
  IsTimely =
      (n : ℕ)
      → (w.emitted_of n < w.expiry_of n)
        × (now < w.expiry_of n)
        × (is_opaque (w.challenge_of n) ≡ true)

  has_challenge_id-type_of :
      (n : ℕ) (k : Kind) → IsTimely → has_challenge_id is_opaque (type_of w n k) ≡ true
  has_challenge_id-type_of n (interim Interim.challenge_required) t = (t n).2
  has_challenge_id-type_of n (interim Interim.heartbeat) t = refl
  has_challenge_id-type_of n (interim Interim.progress) t = refl
  has_challenge_id-type_of n Kind.started t = refl
  has_challenge_id-type_of n Kind.succeeded t = refl
  has_challenge_id-type_of n (Kind.cancelled reason) t = refl
  has_challenge_id-type_of n (Kind.failed code) t = refl

  create_event_cursor_lem :
      create_event_cursor is_opaque w.writer_job w.writer_account w.writer_fence none ≡ ok c
      → (is_opaque w.writer_job ≡ true)
        × (is_opaque w.writer_account ≡ true)
        × (c.cursor_job ≡ w.writer_job)
        × (c.cursor_account ≡ w.writer_account)
        × (c.cursor_fence ≡ w.writer_fence)
        × (c.next_sequence ≡ 0)
        × (c.terminal ≡ false)
  unfolding create_event_cursor
  create_event_cursor_lem made = (
    ground arith,
    ground arith,
    ground arith,
    ground arith,
    ground arith,
    ground arith,
    ground arith,
  )

  event_of-is_own :
      (n : ℕ) (k : Kind)
      → IsTimely
      → create_event_cursor is_opaque w.writer_job w.writer_account w.writer_fence none ≡ ok c
      → is_own is_opaque c now (event_of w n k) ≡ true
  unfolding event_of
  event_of-is_own n k t made =
      let (job, account, same_job, same_account, same_fence, first, fresh) =
        create_event_cursor_lem made in
      let (ordered, live, challenge) = t n in
      ground (
        arith,
        has_challenge_id-type_of n k t,
        str_eq_iff w.writer_job c.cursor_job,
        str_eq_iff w.writer_account c.cursor_account,
      )

  pub events_of-are_own :
      (es : List Effect)
      → IsTimely
      → create_event_cursor is_opaque w.writer_job w.writer_account w.writer_fence none ≡ ok c
      → are_own is_opaque c now (events_of w es) ≡ true
  events_of-are_own [] t made = refl
  events_of-are_own (published m k ∷ es) t made =
      ground (arith, event_of-is_own m k t made, events_of-are_own es t made)
  events_of-are_own (acked ∷ es) t made = events_of-are_own es t made
  events_of-are_own (disconnected ∷ es) t made = events_of-are_own es t made
  events_of-are_own (released ∷ es) t made = events_of-are_own es t made

  -- What a worker publishes of a job that it takes up, a reader with a new cursor of the job accepts, up to
  -- the last event, however the calls of the run end, but that the acknowledgement of a result does not
  -- throw: for identifiers that are opaque and events that have not expired.
  pub process_events_accepted :
      (a : Attempt)
      → a.has_envelope ≡ true
      → is_ok a.job ≡ true
      → a.acknowledged ≡ ok tt
      → IsTimely
      → create_event_cursor is_opaque w.writer_job w.writer_account w.writer_fence none ≡ ok c
      → (c' : EventCursor) × (validate_event_sequence is_opaque
            (events_of w (process a).1.effects)
            c
            now
          ≡ ok c')
  process_events_accepted a h j k t made =
      let es = (process a).1.effects in
      let own = events_of-are_own es t made in
      let numbered = events_of-are_numbered w 0 es (process_acknowledges a h j).0 in
      let ended = events_of-is_ended_once w es (process-closings a k) in
      let (job, account, same_job, same_account, same_fence, first, fresh) =
        create_event_cursor_lem made in
      let at_start : are_numbered c.next_sequence (events_of w es) ≡ true = rw (first) numbered in
      let not_ended : is_ended_once c.terminal (events_of w es) ≡ true = rw (fresh) ended in
      (validate_event_sequence_iff is_opaque (events_of w es) c now).1 (ground arith)
