-- ===== src/Automation/Parsing.antt =====
-- apps/automation-worker/src/transport/control.ts: which controls `parseAutomationControl` accepts.
use hyeboard.Prelude.{
  ℕ, ◌≡◌, inl, inr, Bool, true, ◌&&◌, Option, none, some, String, arith, is_positive_safe, ok,
  Outcome-cases,
}
use hyeboard.Core.Json.{Json, Fields, text, number, object, other, end_object, field, get}
use hyeboard.Automation.Control.{
  AutomationControl, captcha_answer, cancel_job, ControlHead, head_of, read_head, is_answer,
  captcha_control, read_challenge, checked_control, parse_automation_control,
}

-- A control as the object that carries it.
unfoldable pub control_json : AutomationControl → Json
control_json (captcha_answer job account fence challenge answer) = object (
    field "type" (text "captcha-answer") (
      field "jobId" (text job) (
        field "accountId" (text account) (
          field "fence" (number fence)
            (field "challengeId" (text challenge) (field "answer" (text answer) end_object))))))
control_json (cancel_job job account fence none) = object (
    field "type" (text "cancel") (
      field "jobId" (text job) (
        field "accountId" (text account)
          (field "fence" (number fence) (field "reason" (text "requested") end_object)))))
control_json (cancel_job job account fence (some challenge)) = object (
    field "type" (text "cancel") (
      field "jobId" (text job) (
        field "accountId" (text account) (
          field "fence" (number fence) (
            field "challengeId" (text challenge) (field "reason" (text "requested") end_object))))))

module _ (is_opaque_id : String → Bool) where
  abbrev is_valid_head : String → String → ℕ → Bool
  is_valid_head job account fence =
      is_opaque_id job && is_opaque_id account && is_positive_safe fence

  abbrev is_valid_challenge : Option String → Bool
  is_valid_challenge none = true
  is_valid_challenge (some c) = is_opaque_id c

  abbrev pub is_valid_control : AutomationControl → Bool
  is_valid_control (captcha_answer job account fence challenge answer) =
      is_valid_head job account fence && is_opaque_id challenge && is_answer answer
  is_valid_control (cancel_job job account fence challenge) =
      is_valid_head job account fence && is_valid_challenge challenge

  read_challenge-ok :
      (o : Option Json) (challenge : Option String)
      → read_challenge is_opaque_id o ≡ ok challenge
      → is_valid_challenge challenge ≡ true
  read_challenge-ok none challenge h = ground arith
  read_challenge-ok (some (text c)) challenge h = ground arith
  read_challenge-ok (some (number n)) challenge h = ground arith
  read_challenge-ok (some (object fs)) challenge h = ground arith
  read_challenge-ok (some other) challenge h = ground arith

  captcha_control-ok :
      (h : ControlHead) (challenge : Option String) (answer : Option Json) (c : AutomationControl)
      → captcha_control h challenge answer ≡ ok c
      → is_valid_head h.job_id h.account_id h.fence ≡ true
      → is_valid_challenge challenge ≡ true
      → is_valid_control c ≡ true
  captcha_control-ok h none answer c q v w = ground arith
  captcha_control-ok h (some x) none c q v w = ground arith
  captcha_control-ok h (some x) (some (text s)) c q v w = ground arith
  captcha_control-ok h (some x) (some (number n)) c q v w = ground arith
  captcha_control-ok h (some x) (some (object fs)) c q v w = ground arith
  captcha_control-ok h (some x) (some other) c q v w = ground arith

  head_of-ok :
      (t j a f : Option Json) (h : ControlHead)
      → head_of t j a f ≡ ok h
      → is_positive_safe h.fence ≡ true
  head_of-ok (some (text t)) (some (text j)) (some (text a)) (some (number f)) h q = ground arith
  head_of-ok _ _ _ _ h q = ground arith

  checked_control-ok :
      (h : ControlHead) (fs : Fields) (c : AutomationControl)
      → is_positive_safe h.fence ≡ true
      → checked_control is_opaque_id h fs ≡ ok c
      → is_valid_control c ≡ true
  unfolding checked_control
  checked_control-ok h fs c p q =
      elim (Outcome-cases (read_challenge is_opaque_id (get "challengeId" fs))) [
        | inl (challenge, r) ↦ ground (
          arith,
          read_challenge-ok (get "challengeId" fs) challenge,
          captcha_control-ok h challenge (get "answer" fs) c,
        )
        | inr (e, r) ↦ ground arith
      ]

  -- Every control that is parsed is valid, and every valid control is parsed back from its object.
  pub parse_automation_control_valid :
      ((v : Json) (c : AutomationControl)
        → parse_automation_control is_opaque_id v ≡ ok c
        → is_valid_control c ≡ true)
      × ((c : AutomationControl)
          → is_valid_control c ≡ true
          → parse_automation_control is_opaque_id (control_json c) ≡ ok c)
  unfolding parse_automation_control read_head
  parse_automation_control_valid = (sound, complete)
    where
      sound :
          (v : Json) (c : AutomationControl)
          → parse_automation_control is_opaque_id v ≡ ok c
          → is_valid_control c ≡ true
      sound (text s) c h = ground arith
      sound (number n) c h = ground arith
      sound other c h = ground arith
      sound (object fs) c h =
          elim (Outcome-cases
            (head_of (get "type" fs) (get "jobId" fs) (get "accountId" fs) (get "fence" fs))) [
              | inl (x, q) ↦ ground (
                arith,
                head_of-ok (get "type" fs) (get "jobId" fs) (get "accountId" fs) (get "fence" fs) x,
                checked_control-ok x fs c,
              )
              | inr (e, q) ↦ ground arith
            ]

      complete :
          (c : AutomationControl)
          → is_valid_control c ≡ true
          → parse_automation_control is_opaque_id (control_json c) ≡ ok c
      complete (captcha_answer job account fence challenge answer) v =
          unfold control_json checked_control in (ground arith)
      complete (cancel_job job account fence none) v =
          unfold control_json checked_control in (ground arith)
      complete (cancel_job job account fence (some x)) v =
          unfold control_json checked_control in (ground arith)
