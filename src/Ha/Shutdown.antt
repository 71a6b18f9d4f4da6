-- ===== src/Ha/Shutdown.antt =====
-- apps/worker/src/ha/ha-lifecycle.ts: a node that drains does not come back, and one that has stopped has
-- run each hook once.
use hyeboard.Prelude.{
  ℕ, ◌+◌, ◌≤◌, ◌≡◌, refl, sym, ap, ◌∙◌, subst, Bool, true, false, not, ◌||◌, arith, Dict, insert,
  if◌then◌else◌, if_cases,
}
use hyeboard.Ha.Lifecycle.{
  DependencyReadiness, ReadinessState, starting, ready, degraded, draining, stopped, StopPhase,
  not_called, called, waits_for_drain, waits_for_stop, finished, Lifecycle, new_lifecycle,
  is_operational, next_operational_state, apply_dependency_state, set_dependency_status, start,
  is_starting, is_stopped, drain, stop_once, conclude_stop,
}
use hyeboard.Ha.Steps.{
  Step, starts, sets, probes, aggregates, applies, drains, stops, stop_drains, drain_ends,
  stop_ends, Reaches, stays, then_steps,
}

-- How far a node's life has come.
abbrev pub rank : ReadinessState → ℕ
rank starting = 0
rank ready = 1
rank degraded = 1
rank draining = 2
rank stopped = 3

rank-next : (s : Lifecycle) → rank (next_operational_state s) ≡ 1
unfolding next_operational_state
rank-next s = ground arith

operational_rank : (r : ReadinessState) → is_operational r ≡ true → rank r ≤ 1
operational_rank starting h = omega arith
operational_rank ready h = omega arith
operational_rank degraded h = omega arith
operational_rank draining h = ground arith
operational_rank stopped h = ground arith

rank-le : (r : ReadinessState) → rank r ≤ 3
rank-le starting = omega arith
rank-le ready = omega arith
rank-le degraded = omega arith
rank-le draining = omega arith
rank-le stopped = omega arith

alive_rank : (r : ReadinessState) → is_stopped r ≡ false → rank r ≤ 2
alive_rank starting h = omega arith
alive_rank ready h = omega arith
alive_rank degraded h = omega arith
alive_rank draining h = omega arith
alive_rank stopped h = ground arith

abbrev Advances : Lifecycle → Lifecycle → Type 0
Advances s t = rank s.state ≤ rank t.state

apply-Advances : (s : Lifecycle) → Advances s (apply_dependency_state s)
unfolding apply_dependency_state
apply-Advances s =
    if_cases (Advances s) (is_operational s.state)
      (λ h. omega (arith, rank-next s, operational_rank s.state h)) (λ _. omega arith)

drain-Advances : (s : Lifecycle) → Advances s (drain s)
unfolding drain
drain-Advances s =
    if_cases (Advances s) (is_stopped s.state) (λ _. omega arith)
      λ alive.
        if_cases (Advances s) s.has_drained (λ _. omega arith)
          (λ _. omega (arith, alive_rank s.state alive))

stop_once-Advances : (p : StopPhase) (s : Lifecycle) → Advances s (stop_once p s)
unfolding stop_once
stop_once-Advances not_called s =
    if_cases (Advances s) (is_stopped s.state) (λ _. omega arith) (λ _. omega arith)
stop_once-Advances called s = omega arith
stop_once-Advances waits_for_drain s = omega arith
stop_once-Advances (waits_for_stop d) s = omega arith
stop_once-Advances finished s = omega arith

step-Advances : (s t : Lifecycle) → Step s t → Advances s t
unfolding start set_dependency_status conclude_stop
step-Advances s t (starts _) =
    if_cases (Advances s) (is_starting s.state) (λ _. omega arith) (λ _. omega arith)
step-Advances s t (sets _ name status) =
    apply-Advances (record s { dependencies = insert name status s.dependencies })
step-Advances s t (probes _ name status) = omega arith
step-Advances s t (aggregates _ state) = omega arith
step-Advances s t (applies _) = apply-Advances s
step-Advances s t (drains _) = drain-Advances s
step-Advances s t (stops _) = stop_once-Advances s.stop_phase s
step-Advances s t (stop_drains _ h) = drain-Advances s
step-Advances s t (drain_ends _ d h) = omega arith
step-Advances s t (stop_ends _ d e h) = rank-le s.state

-- A node's state never goes back: once it drains it is not ready again, and once stopped it stays so.
pub Reaches-Advances : (s t : Lifecycle) → Reaches s t → rank s.state ≤ rank t.state
Reaches-Advances s t (stays _) = omega arith
Reaches-Advances s t (then_steps {t = m} r st) =
    omega (arith, Reaches-Advances s m r, step-Advances m t st)

abbrev is_finished : StopPhase → Bool
is_finished finished = true
is_finished _ = false

abbrev has_drained_by : StopPhase → Bool
has_drained_by not_called = false
has_drained_by called = false
has_drained_by _ = true

abbrev runs_by : StopPhase → ℕ
runs_by (waits_for_stop d) = 1
runs_by finished = 1
runs_by _ = 0

-- The hooks have run as often as the flags say, and only the end of `stop` stops the node.
record IsConsistent (s : Lifecycle) : Type 0 where
  drain_count : s.drain_runs ≡ (if s.has_drained then 1 else 0)
  stop_count : s.stop_runs ≡ runs_by s.stop_phase
  drained : (not (has_drained_by s.stop_phase) || s.has_drained) ≡ true
  ended : is_stopped s.state ≡ is_finished s.stop_phase

next-alive : (s : Lifecycle) → is_stopped (next_operational_state s) ≡ false
unfolding next_operational_state
next-alive s = ground arith

apply-IsConsistent : (s : Lifecycle) → IsConsistent s → IsConsistent (apply_dependency_state s)
unfolding apply_dependency_state
apply-IsConsistent s i =
    if_cases IsConsistent (is_operational s.state)
      (λ h. record {
        drain_count = i.drain_count;
        stop_count = i.stop_count;
        drained = i.drained;
        ended = ground (arith, next-alive s, i.ended, operational_alive s.state h);
      })
      (λ _. i)
  where
    operational_alive : (r : ReadinessState) → is_operational r ≡ true → is_stopped r ≡ false
    operational_alive starting h = refl
    operational_alive ready h = refl
    operational_alive degraded h = refl
    operational_alive draining h = refl
    operational_alive stopped h = ground arith

drain-IsConsistent : (s : Lifecycle) → IsConsistent s → IsConsistent (drain s)
unfolding drain
drain-IsConsistent s i =
    if_cases IsConsistent (is_stopped s.state) (λ _. i)
      λ alive.
        if_cases IsConsistent s.has_drained (λ _. i)
          (λ undrained. record {
            drain_count = ground (arith, i.drain_count);
            stop_count = i.stop_count;
            drained = ground arith;
            ended = ground (arith, i.ended);
          })

stop_once-IsConsistent :
    (p : StopPhase) (s : Lifecycle)
    → s.stop_phase ≡ p
    → IsConsistent s
    → IsConsistent (stop_once p s)
unfolding stop_once
stop_once-IsConsistent not_called s e i =
    let alive : is_stopped s.state ≡ false = i.ended ∙ ap is_finished e in
    let runs : s.stop_runs ≡ 0 = i.stop_count ∙ ap runs_by e in
    if_cases IsConsistent (is_stopped s.state) (λ h. let off : ⊥ = ground arith in elim off [ ])
      (λ _. record {
        drain_count = i.drain_count;
        stop_count = runs;
        drained = refl;
        ended = alive;
      })
stop_once-IsConsistent called s e i = i
stop_once-IsConsistent waits_for_drain s e i = i
stop_once-IsConsistent (waits_for_stop d) s e i = i
stop_once-IsConsistent finished s e i = i

drain-has_drained : (s : Lifecycle) → is_stopped s.state ≡ false → (drain s).has_drained ≡ true
unfolding drain
drain-has_drained s h = ground arith

drain-alive : (s : Lifecycle) → is_stopped s.state ≡ false → is_stopped (drain s).state ≡ false
unfolding drain
drain-alive s h = ground arith

drain-stop_runs : (s : Lifecycle) → (drain s).stop_runs ≡ s.stop_runs
unfolding drain
drain-stop_runs s = ground arith

step-IsConsistent : (s t : Lifecycle) → Step s t → IsConsistent s → IsConsistent t
unfolding start set_dependency_status conclude_stop
step-IsConsistent s t (starts _) i =
    if_cases IsConsistent (is_starting s.state)
      (λ _. record {
        drain_count = i.drain_count;
        stop_count = i.stop_count;
        drained = i.drained;
        ended = i.ended;
      })
      (λ _. i)
step-IsConsistent s t (sets _ name status) i =
    apply-IsConsistent (record s { dependencies = insert name status s.dependencies })
      (record {
        drain_count = i.drain_count;
        stop_count = i.stop_count;
        drained = i.drained;
        ended = i.ended;
      })
step-IsConsistent s t (probes _ name status) i = record {
  drain_count = i.drain_count;
  stop_count = i.stop_count;
  drained = i.drained;
  ended = i.ended;
}
step-IsConsistent s t (aggregates _ state) i = record {
  drain_count = i.drain_count;
  stop_count = i.stop_count;
  drained = i.drained;
  ended = i.ended;
}
step-IsConsistent s t (applies _) i = apply-IsConsistent s i
step-IsConsistent s t (drains _) i = drain-IsConsistent s i
step-IsConsistent s t (stops _) i = stop_once-IsConsistent s.stop_phase s refl i
step-IsConsistent s t (stop_drains _ h) i =
    let alive : is_stopped s.state ≡ false = i.ended ∙ ap is_finished h in
    let d = drain-IsConsistent s i in
    record {
      drain_count = d.drain_count;
      stop_count = drain-stop_runs s ∙ i.stop_count ∙ ap runs_by h;
      drained = drain-has_drained s alive;
      ended = drain-alive s alive;
    }
step-IsConsistent s t (drain_ends _ d h) i = record {
  drain_count = i.drain_count;
  stop_count = ap (λ n. n + 1) (i.stop_count ∙ ap runs_by h);
  drained = subst (λ p. (not (has_drained_by p) || s.has_drained) ≡ true) h i.drained;
  ended = i.ended ∙ ap is_finished h;
}
step-IsConsistent s t (stop_ends _ d e h) i = record {
  drain_count = i.drain_count;
  stop_count = i.stop_count ∙ ap runs_by h;
  drained = subst (λ p. (not (has_drained_by p) || s.has_drained) ≡ true) h i.drained;
  ended = refl;
}

Reaches-IsConsistent : (s t : Lifecycle) → Reaches s t → IsConsistent s → IsConsistent t
Reaches-IsConsistent s t (stays _) i = i
Reaches-IsConsistent s t (then_steps {t = m} r st) i =
    step-IsConsistent m t st (Reaches-IsConsistent s m r i)

-- A node that has stopped, by whatever steps from its creation, has called `onDrain` once and `onStop` once.
pub stopped_ran_hooks :
    (dependencies : Dict DependencyReadiness) (t : Lifecycle)
    → Reaches (new_lifecycle dependencies) t
    → is_stopped t.state ≡ true
    → (t.drain_runs ≡ 1) × (t.stop_runs ≡ 1)
stopped_ran_hooks dependencies t r h =
    let fresh : IsConsistent (new_lifecycle dependencies) = record {
      drain_count = refl;
      stop_count = refl;
      drained = refl;
      ended = refl;
    } in
    let i = Reaches-IsConsistent (new_lifecycle dependencies) t r fresh in
    over t.stop_phase t refl i (sym i.ended ∙ h)
  where
    over :
        (p : StopPhase) (t : Lifecycle)
        → t.stop_phase ≡ p
        → IsConsistent t
        → is_finished t.stop_phase ≡ true
        → (t.drain_runs ≡ 1) × (t.stop_runs ≡ 1)
    over finished t e i f =
        let done : t.has_drained ≡ true =
          subst (λ p. (not (has_drained_by p) || t.has_drained) ≡ true) e i.drained in
        (i.drain_count ∙ ap (λ b. if b then 1 else 0) done, i.stop_count ∙ ap runs_by e)
    over not_called t e i f = ground arith
    over called t e i f = ground arith
    over waits_for_drain t e i f = ground arith
    over (waits_for_stop d) t e i f = ground arith
