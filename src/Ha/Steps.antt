-- ===== src/Ha/Steps.antt =====
-- apps/worker/src/ha/ha-lifecycle.ts: what can happen to a lifecycle, between two waits of its functions.
use hyeboard.Prelude.{◌+◌, ◌≡◌, String, some, insert}
use hyeboard.Ha.Lifecycle.{
  DependencyReadiness, ReadinessState, ShutdownOutcome, called, waits_for_drain, waits_for_stop,
  Lifecycle, apply_dependency_state, set_dependency_status, start, drain, stop_once, conclude_stop,
}

-- A refresh stores what each probe answers as it comes and then applies it; `stop` drains, waits for that
-- or the time allowed, calls `onStop`, and waits likewise.
pub data Step : Lifecycle → Lifecycle → Type 0 where
  starts : (s : Lifecycle) → Step s (start s)
  sets :
      (s : Lifecycle) (name : String) (status : DependencyReadiness)
      → Step s (set_dependency_status s name status)
  probes :
      (s : Lifecycle) (name : String) (status : DependencyReadiness)
      → Step s (record s { dependencies = insert name status s.dependencies })
  aggregates :
      (s : Lifecycle) (state : ReadinessState)
      → Step s (record s { aggregate_probe_state = some state })
  applies : (s : Lifecycle) → Step s (apply_dependency_state s)
  drains : (s : Lifecycle) → Step s (drain s)
  stops : (s : Lifecycle) → Step s (stop_once s.stop_phase s)
  stop_drains :
      (s : Lifecycle)
      → s.stop_phase ≡ called
      → Step s (record (drain s) { stop_phase = waits_for_drain })
  drain_ends :
      (s : Lifecycle) (d : ShutdownOutcome)
      → s.stop_phase ≡ waits_for_drain
      → Step s (record s { stop_phase = waits_for_stop d; stop_runs = s.stop_runs + 1 })
  stop_ends :
      (s : Lifecycle) (d e : ShutdownOutcome)
      → s.stop_phase ≡ waits_for_stop d
      → Step s (conclude_stop d e s)

pub data Reaches : Lifecycle → Lifecycle → Type 0 where
  stays : (s : Lifecycle) → Reaches s s
  then_steps : {s t u : Lifecycle} → Reaches s t → Step t u → Reaches s u
