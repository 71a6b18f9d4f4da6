-- ===== src/Ha/Lifecycle.antt =====
-- apps/worker/src/ha/ha-lifecycle.ts: the state of `createHaLifecycle`. The probes and the hooks `onDrain`
-- and `onStop` are the operator's: what they answer is an argument, and how often they are called is
-- counted.
use hyeboard.Prelude.{
  ℕ, ◌+◌, Bool, true, false, not, ◌&&◌, Option, none, some, [], ◌∷◌, String, Dict, insert,
  if◌then◌else◌,
}

pub data DependencyReadiness : Type 0 where
  dependency_ready dependency_degraded unavailable : DependencyReadiness

pub data ReadinessState : Type 0 where
  starting ready degraded draining stopped : ReadinessState

pub data ShutdownOutcome : Type 0 where
  completed timed_out failed : ShutdownOutcome

pub record ShutdownReport : Type 0 where
  pub drain_timed_out : Bool
  pub stop_timed_out : Bool

-- Where the one call of `stop` is.
pub data StopPhase : Type 0 where
  not_called called waits_for_drain : StopPhase
  waits_for_stop : ShutdownOutcome → StopPhase
  finished : StopPhase

pub record Lifecycle : Type 0 where
  pub state : ReadinessState
  pub aggregate_probe_state : Option ReadinessState
  pub dependencies : Dict DependencyReadiness
  pub has_started : Bool
  pub has_drained : Bool
  pub stop_phase : StopPhase
  pub report : Option ShutdownReport
  pub drain_runs : ℕ
  pub stop_runs : ℕ

abbrev pub new_lifecycle : Dict DependencyReadiness → Lifecycle
new_lifecycle dependencies = record {
  state = starting;
  aggregate_probe_state = none;
  dependencies = dependencies;
  has_started = false;
  has_drained = false;
  stop_phase = not_called;
  report = none;
  drain_runs = 0;
  stop_runs = 0;
}

abbrev is_ready : DependencyReadiness → Bool
is_ready dependency_ready = true
is_ready _ = false

abbrev all_ready : Dict DependencyReadiness → Bool
all_ready [] = true
all_ready ((name, status) ∷ rest) = is_ready status && all_ready rest

abbrev is_fit : Option ReadinessState → Bool
is_fit none = true
is_fit (some ready) = true
is_fit (some _) = false

unfoldable pub next_operational_state : Lifecycle → ReadinessState
next_operational_state s =
    if not (is_fit s.aggregate_probe_state)
    then degraded
    else if all_ready s.dependencies
    then ready
    else degraded

abbrev pub is_operational : ReadinessState → Bool
is_operational draining = false
is_operational stopped = false
is_operational _ = true

-- `applyDependencyState`
unfoldable pub apply_dependency_state : Lifecycle → Lifecycle
apply_dependency_state s =
    if is_operational s.state then record s { state = next_operational_state s } else s

-- `setDependencyStatus`, for a status of the right kind.
unfoldable pub set_dependency_status : Lifecycle → String → DependencyReadiness → Lifecycle
set_dependency_status s name status =
    apply_dependency_state (record s { dependencies = insert name status s.dependencies })

abbrev pub is_starting : ReadinessState → Bool
is_starting starting = true
is_starting _ = false

abbrev pub is_stopped : ReadinessState → Bool
is_stopped stopped = true
is_stopped _ = false

-- `start`, up to the refresh that it begins.
unfoldable pub start : Lifecycle → Lifecycle
start s = if is_starting s.state then record s { has_started = true } else s

-- `drain`, with the call of `onDrain`.
unfoldable pub drain : Lifecycle → Lifecycle
drain s =
    if is_stopped s.state
    then s
    else if s.has_drained
    then s
    else record s { state = draining; has_drained = true; drain_runs = s.drain_runs + 1 }

abbrev has_timed_out : ShutdownOutcome → Bool
has_timed_out timed_out = true
has_timed_out _ = false

-- `stopOnce`
unfoldable pub stop_once : StopPhase → Lifecycle → Lifecycle
stop_once not_called s =
    if is_stopped s.state
    then record s { stop_phase = finished }
    else record s { stop_phase = called }
stop_once _ s = s

-- The end of `stop`.
unfoldable pub conclude_stop : ShutdownOutcome → ShutdownOutcome → Lifecycle → Lifecycle
conclude_stop d e s = record s {
  state = stopped;
  stop_phase = finished;
  report = some (record { drain_timed_out = has_timed_out d; stop_timed_out = has_timed_out e });
}

-- `livenessSnapshot().alive`
abbrev pub is_alive : Lifecycle → Bool
is_alive s = not (is_stopped s.state)
