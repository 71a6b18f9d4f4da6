-- ===== src/Ha/Tests.antt =====
-- A node from its start to its end, a distributed configuration, and the theorems at them.
use hyeboard.Prelude.{
  ◌↔◌, ◌⊎◌, true, false, Option, none, some, String, read_digits, ◌+◌, ◌≤◌, ◌≡◌, refl, [], ◌∷◌,
  insert,
}
use hyeboard.Ha.Lifecycle.{
  Lifecycle, new_lifecycle, dependency_ready, ready, completed, timed_out, waits_for_drain,
  waits_for_stop, next_operational_state, apply_dependency_state, set_dependency_status, start,
  drain, stop_once, conclude_stop,
}
use hyeboard.Ha.Steps.{
  starts, sets, stops, stop_drains, drain_ends, stop_ends, Reaches, stays, then_steps,
}
use hyeboard.Ha.Config.{
  HaConfigSetting, ha_mode, ha_node_id, ha_session_epoch, ha_enforce_session_epoch, Value,
  undefined, text, distributed, env_or_file, parse_mode, parse_node_id, parse_session_epoch,
  parse_boolean, enforces, parse_ha_config, warnings, SessionMetadata, check_session_epoch,
  session_epoch_mismatch, is_accepted,
}
use hyeboard.Ha.Enforced.{IsOfEpoch, check_session_epoch_refuses}
use hyeboard.Ha.Warned.{IsFit, warnings_none_iff}
use hyeboard.Ha.Shutdown.{rank, Reaches-Advances, stopped_ran_hooks}

abbrev created : Lifecycle
created = new_lifecycle (("redis", dependency_ready) ∷ [])

abbrev working : Lifecycle
working = set_dependency_status (start created) "redis" dependency_ready

is_working : working.state ≡ ready
unfolding set_dependency_status start apply_dependency_state next_operational_state insert
is_working = refl

abbrev stopping : Lifecycle
stopping = stop_once working.stop_phase working

abbrev waiting : Lifecycle
waiting = record (drain stopping) { stop_phase = waits_for_drain }

path_to_waiting : Reaches created waiting
unfolding set_dependency_status start apply_dependency_state next_operational_state insert stop_once
path_to_waiting =
    then_steps
      (then_steps
        (then_steps (then_steps (stays created) (starts created))
          (sets (start created) "redis" dependency_ready))
        (stops working))
      (stop_drains stopping refl)

abbrev concluded : Lifecycle
concluded =
    conclude_stop timed_out completed
      (record waiting { stop_phase = waits_for_stop timed_out; stop_runs = waiting.stop_runs + 1 })

path_to_end : Reaches created concluded
path_to_end = then_steps (then_steps path_to_waiting (drain_ends waiting timed_out refl)) (
    stop_ends
      (record waiting { stop_phase = waits_for_stop timed_out; stop_runs = waiting.stop_runs + 1 })
      timed_out completed refl)

Reaches-Advances_example : rank created.state ≤ rank concluded.state
Reaches-Advances_example = Reaches-Advances created concluded path_to_end

stopped_ran_hooks_example : (concluded.drain_runs ≡ 1) × (concluded.stop_runs ≡ 1)
unfolding conclude_stop
stopped_ran_hooks_example =
    stopped_ran_hooks (("redis", dependency_ready) ∷ []) concluded path_to_end refl

-- A distributed node whose sessions are of the epoch 7.
abbrev environment : HaConfigSetting → Option String
environment ha_mode = some "distributed"
environment ha_node_id = none
environment ha_session_epoch = some "7"
environment ha_enforce_session_epoch = some "1"

abbrev no_file : HaConfigSetting → Value
no_file setting = undefined

abbrev older_session : SessionMetadata
older_session = record { session_id = some "a"; session_epoch = some 6 }

configured :
    parse_ha_config environment no_file
    ≡ record { mode = distributed; node_id = none; session_epoch = 7; enforce_session_epoch = true }
unfolding parse_ha_config enforces env_or_file parse_mode parse_node_id parse_session_epoch
    parse_boolean read_digits
configured = refl

older_refused :
    check_session_epoch older_session (parse_ha_config environment no_file) ≡ session_epoch_mismatch
unfolding check_session_epoch
older_refused = rw configured refl

check_session_epoch_refuses_example :
    (is_accepted (check_session_epoch older_session (parse_ha_config environment no_file)) ≡ false)
    ↔ ((parse_mode (env_or_file environment no_file ha_mode) ≡ some distributed)
        × (parse_boolean (env_or_file environment no_file ha_enforce_session_epoch) ≡ some true)
        × ¬ (IsOfEpoch older_session 7))
unfolding env_or_file parse_session_epoch read_digits
check_session_epoch_refuses_example =
    check_session_epoch_refuses environment no_file older_session 7 refl

warnings_none_iff_example : (warnings environment no_file ≡ []) ↔ (
    IsFit
      (env_or_file environment no_file ha_mode)
      (parse_mode (env_or_file environment no_file ha_mode))
    × ((env_or_file environment no_file ha_node_id ≡ text "")
        ⊎ IsFit
            (env_or_file environment no_file ha_node_id)
            (parse_node_id (env_or_file environment no_file ha_node_id)))
    × IsFit
        (env_or_file environment no_file ha_session_epoch)
        (parse_session_epoch (env_or_file environment no_file ha_session_epoch))
    × IsFit
        (env_or_file environment no_file ha_enforce_session_epoch)
        (parse_boolean (env_or_file environment no_file ha_enforce_session_epoch))
    × (parse_boolean (env_or_file environment no_file ha_enforce_session_epoch) ≡ some true
        → (parse_ha_config environment no_file).enforce_session_epoch ≡ true))
warnings_none_iff_example = warnings_none_iff environment no_file
