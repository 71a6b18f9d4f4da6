-- ===== src/Automation/Control.antt =====
-- apps/automation-worker/src/transport/control.ts: `parseAutomationControl` and
-- `AutomationControlConsumer.runOnce` over the broker in memory. The codec that opens an envelope, the
-- test of an opaque identifier and the handler of a control, which changes a state of type `S` and
-- whose errors are only logged, are parameters. The signal of shutdown is not aborted in a run.
use Prim.Native.String.{◌++◌ as append_text}
use hyeboard.Prelude.{
  utf16_length, ℕ, Bool, true, false, not, ◌&&◌, ◌||◌, Option, none, some, List, [], ◌∷◌, String,
  length, str_eq, Dict, lookup, if◌then◌else◌, leb, ltb, is_positive_safe, Outcome, ok, throw,
  ensure, ◌>>=◌, ◌>>◌,
}
use hyeboard.Core.Json.{Json, Fields, text, number, object, other, get, has_only, is_found}
use hyeboard.Automation.Broker.{
  Pending, StreamsBroker, BrokerError, ensure_group, read_group, reclaim_pending, ack_message,
}

pub data AutomationControl : Type 0 where
  captcha_answer : String → String → ℕ → String → String → AutomationControl
  cancel_job : String → String → ℕ → Option String → AutomationControl

pub data ControlError : Type 0 where
  invalid_control invalid_id invalid_fields invalid_challenge : ControlError
  invalid_captcha invalid_cancellation : ControlError

-- What the first test of `parseAutomationControl` leaves.
pub record ControlHead : Type 0 where
  pub kind : String
  pub job_id : String
  pub account_id : String
  pub fence : ℕ

abbrev pub is_kind : String → Bool
is_kind t = str_eq t "captcha-answer" || str_eq t "cancel"

abbrev pub head_of :
    Option Json → Option Json → Option Json → Option Json → Outcome ControlError ControlHead
head_of (some (text t)) (some (text j)) (some (text a)) (some (number f)) =
    if is_kind t && is_positive_safe f
    then ok (record { kind = t; job_id = j; account_id = a; fence = f })
    else throw invalid_control
head_of _ _ _ _ = throw invalid_control

unfoldable pub read_head : Json → Outcome ControlError (ControlHead × Fields)
read_head (object fs) =
    head_of (get "type" fs) (get "jobId" fs) (get "accountId" fs) (get "fence" fs) >>= λ h.
    ok (h, fs)
read_head (text s) = throw invalid_control
read_head (number n) = throw invalid_control
read_head other = throw invalid_control

abbrev pub allowed_keys : String → List String
allowed_keys kind =
    if str_eq kind "captcha-answer"
    then "type" ∷ "jobId" ∷ "accountId" ∷ "fence" ∷ "challengeId" ∷ "answer" ∷ []
    else "type" ∷ "jobId" ∷ "accountId" ∷ "fence" ∷ "challengeId" ∷ "reason" ∷ []

unfoldable pub is_answer : String → Bool
is_answer s = ltb 0 (utf16_length s) && leb (utf16_length s) 64

abbrev pub is_requested : Option Json → Bool
is_requested (some (text r)) = str_eq r "requested"
is_requested _ = false

abbrev pub captcha_control :
    ControlHead → Option String → Option Json → Outcome ControlError AutomationControl
captcha_control h (some challenge) (some (text answer)) =
    if is_answer answer
    then ok (captcha_answer h.job_id h.account_id h.fence challenge answer)
    else throw invalid_captcha
captcha_control h _ _ = throw invalid_captcha

module _ (is_opaque_id : String → Bool) where
  abbrev pub read_challenge : Option Json → Outcome ControlError (Option String)
  read_challenge none = ok none
  read_challenge (some (text c)) = if is_opaque_id c then ok (some c) else throw invalid_id
  read_challenge (some v) = throw invalid_challenge

  abbrev pub control_of :
      ControlHead → Fields → Option String → Outcome ControlError AutomationControl
  control_of h fs challenge =
      if str_eq h.kind "captcha-answer"
      then captcha_control h challenge (get "answer" fs)
      else if is_requested (get "reason" fs) && not (is_found (get "answer" fs))
      then ok (cancel_job h.job_id h.account_id h.fence challenge)
      else throw invalid_cancellation

  unfoldable pub checked_control : ControlHead → Fields → Outcome ControlError AutomationControl
  checked_control h fs =
      ensure (is_opaque_id h.job_id && is_opaque_id h.account_id) invalid_id
      >> (ensure (has_only (allowed_keys h.kind) fs) invalid_fields
          >> (read_challenge (get "challengeId" fs) >>= λ challenge. control_of h fs challenge))

  unfoldable pub parse_automation_control : Json → Outcome ControlError AutomationControl
  parse_automation_control v = read_head v >>= λ (p : ControlHead × Fields). checked_control p.0 p.1

pub record ControlConfig : Type 0 where
  pub control_stream : String
  pub control_group : String
  pub control_consumer : String
  pub reclaim_idle_ms : ℕ
  pub aad_prefix : String

abbrev pub control_job : AutomationControl → String
control_job (captcha_answer job account fence challenge answer) = job
control_job (cancel_job job account fence challenge) = job

abbrev is_job : Option String → String → Bool
is_job none job = false
is_job (some j) job = str_eq j job

abbrev text_or_empty : Option String → String
text_or_empty none = ""
text_or_empty (some s) = s

module _ {S : Type 0} (is_opaque_id : String → Bool) (open_envelope : String → String → Option Json)
    (on_control : AutomationControl → S → S) (config : ControlConfig) where
  abbrev dispatch : Option String → Outcome ControlError AutomationControl → S → S
  dispatch job (throw e) s = s
  dispatch job (ok c) s = if is_job job (control_job c) then on_control c s else s

  abbrev open_control : Option String → Option Json → S → S
  open_control job none s = s
  open_control job (some v) s = dispatch job (parse_automation_control is_opaque_id v) s

  -- `process` up to the acknowledgement.
  unfoldable pub handle_control : Dict String → S → S
  handle_control contents s =
      let job = lookup "jobId" contents in
      let envelope = text_or_empty (lookup "controlEnvelope" contents) in
      if str_eq envelope ""
      then s
      else open_control job
          (open_envelope envelope (append_text config.aad_prefix (text_or_empty job))) s

  pub record Consumer : Type 0 where
    pub broker : StreamsBroker
    pub group_ready : Bool
    pub handled : S

  unfoldable pub process_messages : List Pending → Consumer → Consumer
  process_messages [] s = s
  process_messages (m ∷ ms) s = process_messages ms (record s {
    broker = ack_message config.control_stream config.control_group m.message.id s.broker;
    handled = handle_control m.message.contents s.handled;
  })

  unfoldable pub prepare_group : Consumer → Consumer
  prepare_group s = if s.group_ready then s else record s {
    broker = ensure_group config.control_stream config.control_group s.broker;
    group_ready = true;
  }

  abbrev pub after_read :
      Outcome BrokerError (List Pending) × StreamsBroker
      → Consumer
      → Outcome BrokerError ℕ × Consumer
  after_read (throw e, b) s = (throw e, record s { broker = b })
  after_read (ok ms, b) s = (ok (length ms), process_messages ms (record s { broker = b }))

  abbrev pub read_new : ℕ → Consumer → Outcome BrokerError ℕ × Consumer
  read_new now s =
      after_read
        (read_group config.control_stream config.control_group config.control_consumer 10 false now
          s.broker)
        s

  abbrev pub after_reclaim :
      ℕ
      → Outcome BrokerError (List Pending) × StreamsBroker
      → Consumer
      → Outcome BrokerError ℕ × Consumer
  after_reclaim now (throw e, b) s = (throw e, record s { broker = b })
  after_reclaim now (ok [], b) s = read_new now (record s { broker = b })
  after_reclaim now (ok (m ∷ ms), b) s = after_read (ok (m ∷ ms), b) s

  unfoldable pub run_once : ℕ → Consumer → Outcome BrokerError ℕ × Consumer
  run_once now s =
      let ready = prepare_group s in
      after_reclaim now
        (reclaim_pending config.control_stream config.control_group config.control_consumer 10
          config.reclaim_idle_ms false now ready.broker)
        ready

  -- `consume`, of as many rounds as there are instants.
  unfoldable pub consume : List ℕ → Consumer → Consumer
  consume [] s = s
  consume (now ∷ rest) s = consume rest (run_once now s).1
