-- ===== src/Protocol/Cursor.antt =====
-- packages/automation-protocol/src/index.ts: automation events and the cursor that a reader of a job's
-- events keeps. What the schema library makes of a value is the type `EventValue`: it reads an event or
-- nothing. A date is its instant, and a cursor's `lastSequence + 1` is `next_sequence`.
use hyeboard.Prelude.{
  ℕ, suc, ltb, leb, ◌==◌, Bool, true, false, not, ◌&&◌, Option, none, some, List, [], ◌∷◌, String,
  str_eq, is_positive_safe, max_safe_integer, Outcome, ok, throw, ensure, ◌>>=◌, ◌>>◌,
}

pub data ProtocolError : Type 0 where
  invalid_input invalid_id invalid_event event_expired event_job_mismatch : ProtocolError
  event_account_mismatch event_fence_mismatch event_after_terminal : ProtocolError
  event_sequence_mismatch : ProtocolError

pub data EventType : Type 0 where
  started progress heartbeat succeeded failed cancelled : EventType
  challenge_required : String → EventType

pub record AutomationEvent : Type 0 where
  pub job_id : String
  pub account_id : String
  pub fence : ℕ
  pub sequence : ℕ
  pub type : EventType
  pub emitted_at : ℕ
  pub expires_at : ℕ

pub data EventValue : Type 0 where
  unreadable : EventValue
  readable : AutomationEvent → EventValue

pub record EventCursor : Type 0 where
  pub cursor_job : String
  pub cursor_account : String
  pub cursor_fence : ℕ
  pub next_sequence : ℕ
  pub terminal : Bool

-- `isTerminalEvent`
abbrev pub is_terminal_type : EventType → Bool
is_terminal_type succeeded = true
is_terminal_type failed = true
is_terminal_type cancelled = true
is_terminal_type _ = false

abbrev pub next_of : Option ℕ → ℕ
next_of none = 0
next_of (some n) = suc n

abbrev pub is_safe_start : Option ℕ → Bool
is_safe_start none = true
is_safe_start (some n) = leb n max_safe_integer

module _ (is_opaque : String → Bool) where
  abbrev pub has_challenge_id : EventType → Bool
  has_challenge_id (challenge_required id) = is_opaque id
  has_challenge_id _ = true

  -- `assertAutomationEvent`
  unfoldable pub assert_automation_event : EventValue → Outcome ProtocolError AutomationEvent
  assert_automation_event unreadable = throw invalid_event
  assert_automation_event (readable e) =
      ensure (is_opaque e.job_id && is_opaque e.account_id && has_challenge_id e.type) invalid_id
      >> (ensure (ltb e.emitted_at e.expires_at) invalid_input >> ok e)

  unfoldable pub parse_automation_event : EventValue → ℕ → Outcome ProtocolError AutomationEvent
  parse_automation_event v now = assert_automation_event v >>= λ (e : AutomationEvent).
      ensure (not (leb e.expires_at now)) event_expired >> ok e

  -- `createEventCursor`; no initial sequence is -1.
  unfoldable pub create_event_cursor :
      String → String → ℕ → Option ℕ → Outcome ProtocolError EventCursor
  create_event_cursor job account fence initial =
      ensure (is_opaque job && is_opaque account) invalid_id
      >> (ensure (is_safe_start initial) invalid_input
          >> (ensure (is_positive_safe fence) invalid_input
              >> ok (record {
                cursor_job = job;
                cursor_account = account;
                cursor_fence = fence;
                next_sequence = next_of initial;
                terminal = false;
              })))

  abbrev pub follow : AutomationEvent → EventCursor → Outcome ProtocolError EventCursor
  follow e c =
      ensure (str_eq e.job_id c.cursor_job) event_job_mismatch
      >> (ensure (str_eq e.account_id c.cursor_account) event_account_mismatch
          >> (ensure (e.fence == c.cursor_fence) event_fence_mismatch
              >> (ensure (not c.terminal) event_after_terminal
                  >> (ensure (e.sequence == c.next_sequence) event_sequence_mismatch
                      >> ok (record c {
                        next_sequence = suc e.sequence;
                        terminal = is_terminal_type e.type;
                      })))))

  unfoldable pub validate_next_event :
      EventValue → EventCursor → ℕ → Outcome ProtocolError EventCursor
  validate_next_event v c now = parse_automation_event v now >>= λ e. follow e c

  unfoldable pub validate_event_sequence :
      List EventValue → EventCursor → ℕ → Outcome ProtocolError EventCursor
  validate_event_sequence [] c now = ok c
  validate_event_sequence (v ∷ vs) c now =
      validate_next_event v c now >>= λ c'. validate_event_sequence vs c' now
