-- ===== src/Automation/Worker.antt =====
-- apps/automation-worker/src/runtime/worker.ts: `process`, the life of one message of the job stream.
-- What the stream, the codec, the leases, the browser and the executor answer is an argument.
use hyeboard.Prelude.{
  ℕ, Bool, true, false, not, ◌&&◌, Option, none, some, List, [], ◌∷◌, Outcome, ok, throw,
  if◌then◌else◌, ltb, str_eq,
}
use hyeboard.Automation.Events.{
  CancellationReason, requested, deadline, shutdown, lease_lost, WorkerError, error_code,
  is_retryable, cancel_all, throw_if_cancelled, Kind, Interim, interim, started, succeeded,
  cancelled, failed, acked, disconnected, released, Log, note, Step, and_then, emit,
}

abbrev pub Called : Type 0
Called = Outcome WorkerError (Unit {0})

-- What each awaited call of `process` comes to, in their order: the calls of one kind in the handler
-- of errors have their own fields. The reasons are those for which cancellation is asked before the
-- first test of it, before the second, and before the handler reads the token; the interim events are
-- those published after the first event, while the executor runs, before the result is, and before
-- the handler concludes.
pub record Attempt : Type 0 where
  pub has_envelope : Bool
  pub job : Called
  pub acquired : Bool
  pub start_published : Called
  pub credential : Called
  pub before_browser : List CancellationReason
  pub browser : Called
  pub early : List (Interim × Called)
  pub during : List (Interim × Called)
  pub late : List (Interim × Called)
  pub closing : List (Interim × Called)
  pub executed : Called
  pub before_result : List CancellationReason
  pub held : Called
  pub sealed : Called
  pub result_published : Called
  pub acknowledged : Called
  pub before_handler : List CancellationReason
  pub terminal_published : Called
  pub terminal_acknowledged : Called
  pub disconnect : Called
  pub release : Called
  pub delivery_count : ℕ
  pub max_delivery_count : ℕ

abbrev pub call : Called → Log → Step
call c l = (c, l)

-- `ack`
unfoldable pub ack : Called → Log → Step
ack (throw e) l = (throw e, l)
ack (ok x) l = (ok tt, note l acked)

unfoldable pub connect : Called → Log → Step
connect (throw e) l = (throw e, l)
connect (ok x) l = (ok tt, record l { connected = true })

-- The heartbeats, progress and challenges published in a stretch of the run; whether one fails is
-- for those who emit it.
unfoldable pub emit_during : List (Interim × Called) → Log → Log
emit_during [] l = l
emit_during ((k, c) ∷ rest) l = emit_during rest (emit (interim k) c l).1

-- The token at the first test of it, at the second, and in the handler.
abbrev pub first_token : Attempt → Option CancellationReason
first_token a = cancel_all none a.before_browser

abbrev pub second_token : Attempt → Option CancellationReason
second_token a = cancel_all (first_token a) a.before_result

abbrev pub last_token : Attempt → Option CancellationReason
last_token a = cancel_all (second_token a) a.before_handler

-- The `try` block.
unfoldable pub perform_job : Attempt → Log → Step
perform_job a l = and_then (emit started a.start_published l) λ l.
    and_then (call a.credential (emit_during a.early l)) λ l.
      and_then (call (throw_if_cancelled (first_token a)) l) λ l.
        and_then (connect a.browser l) λ l. and_then (call a.executed (emit_during a.during l)) λ l.
          and_then (call (throw_if_cancelled (second_token a)) l) λ l. and_then (call a.held l) λ l.
            and_then (call a.sealed l) λ l.
              and_then (emit succeeded a.result_published (emit_during a.late l))
                λ l. ack a.acknowledged l

abbrev pub conclude : Kind → Attempt → Log → Step
conclude k a l = and_then (emit k a.terminal_published l) λ l. ack a.terminal_acknowledged l

-- The handler for an error, by the token's reason.
abbrev pub handle_failure : Attempt → WorkerError → Log → Step
handle_failure a e l =
    if is_retryable e && ltb a.delivery_count a.max_delivery_count
    then (ok tt, l)
    else conclude (failed (error_code e)) a l

unfoldable pub handle_error : Option CancellationReason → Attempt → WorkerError → Log → Step
handle_error (some shutdown) a e l = (ok tt, l)
handle_error (some lease_lost) a e l = (ok tt, l)
handle_error (some requested) a e l =
    if str_eq (error_code e) "LEASE_LOST" then (ok tt, l) else conclude (cancelled "requested") a l
handle_error (some deadline) a e l =
    if str_eq (error_code e) "LEASE_LOST" then (ok tt, l) else conclude (cancelled "expired") a l
handle_error none a e l =
    if str_eq (error_code e) "LEASE_LOST" then (ok tt, l) else handle_failure a e l

abbrev pub catching : Attempt → Step → Step
catching a (ok x, l) = (ok tt, l)
catching a (throw e, l) = handle_error (last_token a) a e (emit_during a.closing l)

abbrev pub disconnecting : Called → Log → Step
disconnecting (throw e) l = (throw e, l)
disconnecting (ok x) l = (ok tt, note l disconnected)

unfoldable pub disconnect_browser : Attempt → Log → Step
disconnect_browser a l = if l.connected then disconnecting a.disconnect l else (ok tt, l)

unfoldable pub release_lease : Called → Log → Step
release_lease (throw e) l = (throw e, l)
release_lease (ok x) l = (ok tt, note l released)

-- The `finally` block: what it throws takes the place of what was thrown before.
abbrev pub finishing : Attempt → Step → Step
finishing a (outcome, l) =
    and_then (disconnect_browser a l) λ l. and_then (release_lease a.release l) λ l. (outcome, l)

abbrev pub new_log : Log
new_log = record { sequence = 0; connected = false; effects = [] }

abbrev pub is_ok : Called → Bool
is_ok (ok x) = true
is_ok (throw e) = false

unfoldable pub process : Attempt → Step
process a =
    if not a.has_envelope
    then ack a.acknowledged new_log
    else if not (is_ok a.job)
    then ack a.acknowledged new_log
    else if not a.acquired
    then (ok tt, new_log)
    else finishing a (catching a (perform_job a new_log))
