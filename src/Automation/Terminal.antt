-- ===== src/Automation/Terminal.antt =====
-- apps/automation-worker/src/runtime/worker.ts: a run publishes one terminal event at most, and a run
-- that is stopped leaves its message for another worker.
use hyeboard.Prelude.{
  ℕ, ◌≤◌, ◌≡◌, refl, sym, subst, ◌∙◌, false, not, ◌&&◌, Option, none, some, List, [], ◌∷◌, arith,
  ok, throw, if◌then◌else◌, if_cases, ltb, str_eq,
}
use hyeboard.Automation.Events.{
  CancellationReason, requested, deadline, shutdown, lease_lost, WorkerError, error_code,
  is_retryable, throw_if_cancelled, Kind, Interim, interim, started, succeeded, cancelled, failed,
  is_terminal, Effect, acked, disconnected, released, Log, note, Step, and_then, emit,
}
use hyeboard.Automation.Worker.{
  Called, Attempt, call, ack, connect, emit_during, first_token, second_token, last_token,
  perform_job, conclude, handle_error, catching, disconnect_browser, disconnecting, release_lease,
  finishing, new_log, is_ok, process,
}
use hyeboard.Automation.Effects.{
  terminals, closings, is_publication, terminals-le-closings, closings-append, closings-publish,
}

abbrev count : Log → ℕ
count l = closings false l.effects

-- A step that throws has published no terminal event, and one that returns one at most.
abbrev Once : Step → Type 0
Once (ok x, l) = count l ≤ 1
Once (throw e, l) = count l ≡ 0

emit-count :
    (k : Kind) (c : Called) (l : Log)
    → count l ≡ 0
    → count (emit k c l).1 ≤ (if is_terminal k then 1 else 0)
unfolding emit
emit-count k (throw e) l z = omega arith
emit-count k (ok x) l z = omega (arith, closings-publish l.effects l.sequence k z)

note-count : (l : Log) (e : Effect) → is_publication e ≡ false → count (note l e) ≡ count l
note-count l e h = closings-append l.effects e false h

and_then-Once :
    (s : Step) (k : Log → Step)
    → count s.1 ≡ 0
    → ((l : Log) → count l ≡ 0 → Once (k l))
    → Once (and_then s k)
and_then-Once (ok x, l) k z f = f l z
and_then-Once (throw e, l) k z f = z

emit_during-count :
    (es : List (Interim × Called)) (l : Log) → count l ≡ 0 → count (emit_during es l) ≡ 0
unfolding emit_during
emit_during-count [] l z = z
emit_during-count ((k, c) ∷ rest) l z =
    emit_during-count rest (emit (interim k) c l).1 (omega (arith, emit-count (interim k) c l z))

connect-count : (c : Called) (l : Log) → count (connect c l).1 ≡ count l
unfolding connect
connect-count (throw e) l = refl
connect-count (ok x) l = refl

ack-count : (c : Called) (l : Log) → count (ack c l).1 ≡ count l
unfolding ack
ack-count (throw e) l = refl
ack-count (ok x) l = note-count l acked refl

-- The result's event and its acknowledgement, when the latter does not throw.
succeed-Once :
    (c : Called) (l : Log) → count l ≡ 0 → Once (and_then (emit succeeded c l) λ l. ack (ok tt) l)
unfolding emit ack
succeed-Once (throw e) l z = z
succeed-Once (ok x) l z =
    let l' : Log = (emit succeeded (ok x) l).1 in
    omega (arith, emit-count succeeded (ok x) l z, note-count l' acked refl)

perform_job-Once :
    (a : Attempt) (l : Log) → a.acknowledged ≡ ok tt → count l ≡ 0 → Once (perform_job a l)
unfolding perform_job
perform_job-Once a l k z =
    and_then-Once (emit started a.start_published l) _
      (omega (arith, emit-count started a.start_published l z))
      λ l z.
        and_then-Once (call a.credential (emit_during a.early l)) _ (emit_during-count a.early l z)
          λ l z. and_then-Once (call (throw_if_cancelled (first_token a)) l) _ z λ l z.
            and_then-Once (connect a.browser l) _ (connect-count a.browser l ∙ z) λ l z.
              and_then-Once (call a.executed (emit_during a.during l)) _
                (emit_during-count a.during l z)
                λ l z. and_then-Once (call (throw_if_cancelled (second_token a)) l) _ z λ l z.
                  and_then-Once (call a.held l) _ z λ l z.
                    and_then-Once (call a.sealed l) _ z λ l z.
                      subst
                        (λ c. Once (
                          and_then (emit succeeded a.result_published (emit_during a.late l))
                            λ l. ack c l))
                        (sym k)
                        (succeed-Once a.result_published (emit_during a.late l)
                          (emit_during-count a.late l z))

acking-count : (s : Step) (c : Called) → count (and_then s λ l. ack c l).1 ≡ count s.1
acking-count (ok x, l) c = ack-count c l
acking-count (throw e, l) c = refl

conclude-count : (k : Kind) (a : Attempt) (l : Log) → count l ≡ 0 → count (conclude k a l).1 ≤ 1
conclude-count k a l z = ground (
  arith,
  acking-count (emit k a.terminal_published l) a.terminal_acknowledged,
  emit-count k a.terminal_published l z,
)

abbrev AtMostOne : Step → Type 0
AtMostOne s = count s.1 ≤ 1

handle_error-count :
    (r : Option CancellationReason) (a : Attempt) (e : WorkerError) (l : Log)
    → count l ≡ 0
    → AtMostOne (handle_error r a e l)
unfolding handle_error
handle_error-count (some shutdown) a e l z = omega arith
handle_error-count (some lease_lost) a e l z = omega arith
handle_error-count (some requested) a e l z =
    if_cases AtMostOne (str_eq (error_code e) "LEASE_LOST") (λ _. omega arith)
      (λ _. conclude-count (cancelled "requested") a l z)
handle_error-count (some deadline) a e l z =
    if_cases AtMostOne (str_eq (error_code e) "LEASE_LOST") (λ _. omega arith)
      (λ _. conclude-count (cancelled "expired") a l z)
handle_error-count none a e l z =
    if_cases AtMostOne (str_eq (error_code e) "LEASE_LOST") (λ _. omega arith)
      λ _.
        if_cases AtMostOne (is_retryable e && ltb a.delivery_count a.max_delivery_count)
          (λ _. omega arith) (λ _. conclude-count (failed (error_code e)) a l z)

catching-count : (a : Attempt) (s : Step) → Once s → AtMostOne (catching a s)
catching-count a (ok x, l) o = o
catching-count a (throw e, l) o =
    handle_error-count (last_token a) a e (emit_during a.closing l)
      (emit_during-count a.closing l o)

disconnecting-count : (c : Called) (l : Log) → count (disconnecting c l).1 ≡ count l
disconnecting-count (throw e) l = refl
disconnecting-count (ok x) l = note-count l disconnected refl

release_lease-count : (c : Called) (l : Log) → count (release_lease c l).1 ≡ count l
unfolding release_lease
release_lease-count (throw e) l = refl
release_lease-count (ok x) l = note-count l released refl

releasing-count :
    (s : Step) (c o : Called)
    → count (and_then s λ l. and_then (release_lease c l) λ l. (o, l)).1 ≡ count s.1
unfolding release_lease
releasing-count (throw e, l) c o = refl
releasing-count (ok x, l) (throw e) o = refl
releasing-count (ok x, l) (ok y) o = note-count l released refl

finishing-count : (a : Attempt) (s : Step) → count (finishing a s).1 ≡ count s.1
unfolding disconnect_browser
finishing-count a (o, l) =
    releasing-count (disconnect_browser a l) a.release o
    ∙ if_cases (λ (s : Step). count s.1 ≡ count l) l.connected
        (λ _. disconnecting-count a.disconnect l) (λ _. refl)

-- A run publishes one terminal event at most and nothing after it, if the acknowledgement of a result
-- does not throw.
pub process-closings :
    (a : Attempt) → a.acknowledged ≡ ok tt → closings false (process a).1.effects ≤ 1
unfolding process
process-closings a k =
    if_cases AtMostOne (not a.has_envelope) (λ _. omega (arith, ack-count a.acknowledged new_log))
      λ _.
        if_cases AtMostOne (not (is_ok a.job))
          (λ _. omega (arith, ack-count a.acknowledged new_log))
          λ _.
            if_cases AtMostOne (not a.acquired) (λ _. omega arith)
              λ _. omega (
                arith,
                finishing-count a (catching a (perform_job a new_log)),
                catching-count a (perform_job a new_log) (perform_job-Once a new_log k refl),
              )

-- So it publishes one terminal event at most.
pub process-terminals : (a : Attempt) → a.acknowledged ≡ ok tt → terminals (process a).1.effects ≤ 1
process-terminals a k =
    omega (arith, process-closings a k, terminals-le-closings (process a).1.effects false)
