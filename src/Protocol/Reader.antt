-- ===== src/Protocol/Reader.antt =====
-- apps/worker/src/node/automation/backend.ts: the loop of `consumeEvents`, which reads the events of a job
-- until a terminal one. Messages are those that the stream gives it, in order, each with what its
-- envelope opens to; the callbacks for a challenge and an event do not throw.
use hyeboard.Prelude.{
  ℕ, suc, ◌≡◌, refl, sym, subst, ltb, Bool, true, false, Option, none, some, List, [], ◌∷◌, String,
  arith, str_eq, str_eq_iff, if◌then◌else◌, Outcome, ok, throw, All, Bool-cases, inl, inr,
}
use hyeboard.Protocol.Cursor.{
  ProtocolError, AutomationEvent, EventValue, unreadable, readable, EventCursor, is_terminal_type,
  assert_automation_event, parse_automation_event, validate_next_event,
}
use hyeboard.Protocol.Sequence.{is_own, is_continued, are_own, validate_next_event-ok}

pub record EventMessage : Type 0 where
  pub message_job : Option String
  pub content : Option EventValue

-- The terminal event that ends the loop, an error, or what the loop waits with.
pub data ReaderResult : Type 0 where
  ended_by : AutomationEvent → ReaderResult
  broken : ProtocolError → ReaderResult
  still_waiting : EventCursor → ReaderResult

abbrev is_for : String → Option String → Bool
is_for job none = false
is_for job (some j) = str_eq j job

abbrev pub is_repeated : EventCursor → EventValue → Bool
is_repeated c unreadable = false
is_repeated c (readable e) = ltb e.sequence c.next_sequence

-- The messages that carry events of the job.
abbrev pub carried : String → List EventValue → List EventMessage
carried job [] = []
carried job (v ∷ vs) = record { message_job = some job; content = some v } ∷ carried job vs

abbrev pub first_terminal : List EventValue → Option AutomationEvent
first_terminal [] = none
first_terminal (unreadable ∷ vs) = first_terminal vs
first_terminal (readable e ∷ vs) = if is_terminal_type e.type then some e else first_terminal vs

-- What was read of the events: up to the terminal one, if there is one.
abbrev pub HasRead : List EventValue → ReaderResult → Type 0
HasRead vs (ended_by e) = first_terminal vs ≡ some e
HasRead vs (broken x) = ⊥
HasRead vs (still_waiting c) = first_terminal vs ≡ none

HasRead-cons :
    (e : AutomationEvent) (vs : List EventValue) (r : ReaderResult)
    → is_terminal_type e.type ≡ false
    → HasRead vs r
    → HasRead (readable e ∷ vs) r
HasRead-cons e vs (ended_by x) f h = rw (f) h
HasRead-cons e vs (broken x) f h = h
HasRead-cons e vs (still_waiting c) f h = rw (f) h

module _ (is_opaque : String → Bool) (now : ℕ) where
  abbrev after_valid :
      AutomationEvent
      → Outcome ProtocolError EventCursor
      → (EventCursor → ReaderResult)
      → ReaderResult
  after_valid e (throw x) k = broken x
  after_valid e (ok c) k = if is_terminal_type e.type then ended_by e else k c

  -- An event, and the rest of the loop: what does not come after the last number is passed over.
  abbrev take_event :
      Outcome ProtocolError AutomationEvent
      → EventCursor
      → (EventCursor → ReaderResult)
      → ReaderResult
  take_event (throw x) c k = broken x
  take_event (ok e) c k =
      if ltb e.sequence c.next_sequence
      then k c
      else after_valid e (validate_next_event is_opaque (readable e) c now) k

  abbrev take_content :
      Option EventValue → EventCursor → (EventCursor → ReaderResult) → ReaderResult
  take_content none c k = k c
  take_content (some v) c k = take_event (parse_automation_event is_opaque v now) c k

  unfoldable pub consume_events : String → List EventMessage → EventCursor → ReaderResult
  consume_events job [] c = still_waiting c
  consume_events job (m ∷ ms) c =
      if is_for job m.message_job
      then take_content m.content c (consume_events job ms)
      else consume_events job ms c

  parse_automation_event-own :
      (e : AutomationEvent) (c : EventCursor)
      → is_own is_opaque c now e ≡ true
      → parse_automation_event is_opaque (readable e) now ≡ ok e
  unfolding parse_automation_event assert_automation_event
  parse_automation_event-own e c own = ground arith

  -- Events that a cursor accepts are read up to the terminal one, if there is one.
  pub consume_events-HasRead :
      (job : String) (vs : List EventValue) (c : EventCursor)
      → is_continued is_opaque c now vs ≡ true
      → HasRead vs (consume_events job (carried job vs) c)
  unfolding consume_events
  consume_events-HasRead job [] c h = refl
  consume_events-HasRead job (unreadable ∷ vs) c h = let off : ⊥ = ground arith in elim off [ ]
  consume_events-HasRead job (readable e ∷ vs) c h =
      let same : EventCursor = record c {
        next_sequence = suc e.sequence;
        terminal = is_terminal_type e.type;
      } in
      let parsed = parse_automation_event-own e c (ground arith) in
      let next =
        validate_next_event-ok is_opaque e c now (ground arith) (ground arith) (ground arith) in
      let all = consume_events job (carried job (readable e ∷ vs)) c in
      elim (Bool-cases (is_terminal_type e.type)) [
        | inl t ↦
            let eq : all ≡ ended_by e = ground (arith, str_eq_iff job job) in
            subst (HasRead (readable e ∷ vs)) (sym eq) (rw (t) refl)
        | inr f ↦
            let eq : all ≡ consume_events job (carried job vs) same =
              ground (arith, str_eq_iff job job) in
            let rest = consume_events-HasRead job vs same (ground arith) in
            subst (HasRead (readable e ∷ vs)) (sym eq)
              (HasRead-cons e vs (consume_events job (carried job vs) same) f rest)
      ]

  -- Events of a number that was read already are passed over, whatever they say.
  pub consume_events_repeated :
      (job : String) (vs : List EventValue) (c : EventCursor)
      → are_own is_opaque c now vs ≡ true
      → All (λ v. is_repeated c v ≡ true) vs
      → consume_events job (carried job vs) c ≡ still_waiting c
  unfolding consume_events
  consume_events_repeated job [] c own old = refl
  consume_events_repeated job (unreadable ∷ vs) c own old = ground arith
  consume_events_repeated job (readable e ∷ vs) c own (o, old) = ground (
    arith,
    str_eq_iff job job,
    parse_automation_event-own e c,
    consume_events_repeated job vs c (ground arith) old,
  )
