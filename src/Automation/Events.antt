-- ===== src/Automation/Events.antt =====
-- apps/automation-worker/src/transport/events.ts, runtime/errors.ts and runtime/cancellation.ts: the
-- writer of a job's events, the errors, and the token of cancellation. Publishing is a call of the
-- stream's client, so whether it fails is an argument; the events of one writer are published one after
-- the other, by its `tail`.
use hyeboard.Prelude.{
  ℕ, ◌+◌, Bool, true, false, Option, none, some, List, [], ◌∷◌, ◌++◌, String, Outcome, ok, throw,
}

pub data CancellationReason : Type 0 where
  requested deadline shutdown lease_lost : CancellationReason

-- An `AutomationWorkerError` with its code and whether it is retryable, or any other error.
pub data WorkerError : Type 0 where
  worker_error : String → Bool → WorkerError
  other_error : WorkerError

abbrev pub cancellation_error : CancellationReason → WorkerError
cancellation_error r = worker_error "AUTOMATION_CANCELLED" false

abbrev pub lease_lost_error : WorkerError
lease_lost_error = worker_error "LEASE_LOST" true

unfoldable pub error_code : WorkerError → String
error_code (worker_error code retryable) = code
error_code other_error = "AUTOMATION_EXECUTION_FAILED"

unfoldable pub is_retryable : WorkerError → Bool
is_retryable (worker_error code retryable) = retryable
is_retryable other_error = false

-- `cancel`: the first reason stays.
unfoldable pub cancel : Option CancellationReason → CancellationReason → Option CancellationReason
cancel none r = some r
cancel (some first) r = some first

unfoldable pub cancel_all :
    Option CancellationReason → List CancellationReason → Option CancellationReason
cancel_all token [] = token
cancel_all token (r ∷ rs) = cancel_all (cancel token r) rs

-- `throwIfCancelled`
unfoldable pub throw_if_cancelled : Option CancellationReason → Outcome WorkerError (Unit {0})
throw_if_cancelled none = ok tt
throw_if_cancelled (some r) = throw (cancellation_error r)

-- The events that may follow each other while a job runs, and all kinds.
pub data Interim : Type 0 where
  heartbeat progress challenge_required : Interim

pub data Kind : Type 0 where
  started succeeded : Kind
  interim : Interim → Kind
  cancelled failed : String → Kind

abbrev pub is_terminal : Kind → Bool
is_terminal succeeded = true
is_terminal (cancelled reason) = true
is_terminal (failed code) = true
is_terminal _ = false

-- What a run leaves behind, in order.
pub data Effect : Type 0 where
  published : ℕ → Kind → Effect
  acked disconnected released : Effect

pub record Log : Type 0 where
  pub sequence : ℕ
  pub connected : Bool
  pub effects : List Effect

abbrev pub note : Log → Effect → Log
note l e = record l { effects = l.effects ++ (e ∷ []) }

-- A call that may throw, with the log after it.
abbrev pub Step : Type 0
Step = Outcome WorkerError (Unit {0}) × Log

abbrev pub and_then : Step → (Log → Step) → Step
and_then (ok x, l) k = k l
and_then (throw e, l) k = (throw e, l)

-- `emit`: the sequence number is taken only if the event is published.
unfoldable pub emit : Kind → Outcome WorkerError (Unit {0}) → Log → Step
emit k (throw e) l = (throw e, l)
emit k (ok x) l = (ok tt, record (note l (published l.sequence k)) { sequence = l.sequence + 1 })
