-- ===== src/Automation/Acknowledged.antt =====
-- apps/automation-worker/src/runtime/worker.ts: what a message's life publishes and acknowledges.
use hyeboard.Prelude.{
  ◌+◌, ◌≡◌, refl, ap, ◌∙◌, true, false, not, ◌&&◌, Option, none, some, List, [], ◌∷◌, arith, ok,
  throw, if_cases, ltb, str_eq,
}
use hyeboard.Automation.Events.{
  CancellationReason, requested, deadline, shutdown, lease_lost, WorkerError, error_code,
  is_retryable, throw_if_cancelled, Kind, Interim, interim, started, succeeded, cancelled, failed,
  is_terminal, Effect, published, acked, disconnected, released, Log, note, Step, and_then, emit,
}
use hyeboard.Automation.Worker.{
  Called, Attempt, call, ack, connect, emit_during, first_token, second_token, last_token,
  perform_job, conclude, handle_failure, handle_error, catching, disconnect_browser, disconnecting,
  release_lease, finishing, new_log, is_ok, process,
}
use hyeboard.Automation.Effects.{
  CountsFrom, published_count, acks_settled, ends_settled, number, is_publication,
  CountsFrom-append, published_count-append, acks_settled-append, ends_settled-append,
}

-- The log of a run so far: its publications are numbered in order, and it acknowledges nothing without
-- a terminal event.
record IsOrdered (l : Log) : Type 0 where
  numbered : CountsFrom 0 l.effects
  counted : published_count l.effects ≡ l.sequence
  settled : acks_settled false l.effects ≡ true

note-IsOrdered :
    (l : Log) (e : Effect)
    → is_publication e ≡ false
    → acks_settled (ends_settled false l.effects) (e ∷ []) ≡ true
    → IsOrdered l
    → IsOrdered (note l e)
note-IsOrdered l e p q i = record {
  numbered = CountsFrom-append l.effects e 0 i.numbered (same e p);
  counted = ground (arith, published_count-append l.effects e, i.counted);
  settled = acks_settled-append l.effects e false i.settled q;
}
  where
    same :
        (e : Effect)
        → is_publication e ≡ false
        → number e (published_count l.effects + 0) ≡ published_count l.effects + 0
    same (published m k) h = ground arith
    same acked h = refl
    same disconnected h = refl
    same released h = refl

emit-IsOrdered : (k : Kind) (c : Called) (l : Log) → IsOrdered l → IsOrdered (emit k c l).1
unfolding emit
emit-IsOrdered k (throw e) l i = i
emit-IsOrdered k (ok x) l i = record {
  numbered =
      CountsFrom-append l.effects (published l.sequence k) 0 i.numbered (omega (arith, i.counted));
  counted = published_count-append l.effects (published l.sequence k) ∙ ap (λ n. n + 1) i.counted;
  settled = acks_settled-append l.effects (published l.sequence k) false i.settled refl;
}

-- A terminal event, then the acknowledgement.
concluding-IsOrdered :
    (k : Kind) (c d : Called) (l : Log)
    → is_terminal k ≡ true
    → IsOrdered l
    → IsOrdered (and_then (emit k c l) λ l. ack d l).1
unfolding emit ack
concluding-IsOrdered k (throw e) d l t i = i
concluding-IsOrdered k (ok x) (throw e) l t i = emit-IsOrdered k (ok x) l i
concluding-IsOrdered k (ok x) (ok y) l t i =
    let l' : Log = (emit k (ok x) l).1 in
    note-IsOrdered l' acked refl (rw (ends_settled-append l.effects l.sequence k false t) refl)
      (emit-IsOrdered k (ok x) l i)

and_then-IsOrdered :
    (s : Step) (k : Log → Step)
    → IsOrdered s.1
    → ((l : Log) → IsOrdered l → IsOrdered (k l).1)
    → IsOrdered (and_then s k).1
and_then-IsOrdered (ok x, l) k i f = f l i
and_then-IsOrdered (throw e, l) k i f = i

connect-IsOrdered : (c : Called) (l : Log) → IsOrdered l → IsOrdered (connect c l).1
unfolding connect
connect-IsOrdered (throw e) l i = i
connect-IsOrdered (ok x) l i = record {
  numbered = i.numbered;
  counted = i.counted;
  settled = i.settled;
}

emit_during-IsOrdered :
    (es : List (Interim × Called)) (l : Log) → IsOrdered l → IsOrdered (emit_during es l)
unfolding emit_during
emit_during-IsOrdered [] l i = i
emit_during-IsOrdered ((k, c) ∷ rest) l i =
    emit_during-IsOrdered rest (emit (interim k) c l).1 (emit-IsOrdered (interim k) c l i)

perform_job-IsOrdered : (a : Attempt) (l : Log) → IsOrdered l → IsOrdered (perform_job a l).1
unfolding perform_job
perform_job-IsOrdered a l i =
    and_then-IsOrdered (emit started a.start_published l) _
      (emit-IsOrdered started a.start_published l i)
      λ l i.
        and_then-IsOrdered (call a.credential (emit_during a.early l)) _
          (emit_during-IsOrdered a.early l i)
          λ l i. and_then-IsOrdered (call (throw_if_cancelled (first_token a)) l) _ i λ l i.
            and_then-IsOrdered (connect a.browser l) _ (connect-IsOrdered a.browser l i) λ l i.
              and_then-IsOrdered (call a.executed (emit_during a.during l)) _
                (emit_during-IsOrdered a.during l i)
                λ l i. and_then-IsOrdered (call (throw_if_cancelled (second_token a)) l) _ i λ l i.
                  and_then-IsOrdered (call a.held l) _ i λ l i.
                    and_then-IsOrdered (call a.sealed l) _ i λ l i.
                      concluding-IsOrdered succeeded a.result_published a.acknowledged
                        (emit_during a.late l) refl (emit_during-IsOrdered a.late l i)

conclude-IsOrdered :
    (k : Kind) (a : Attempt) (l : Log)
    → is_terminal k ≡ true
    → IsOrdered l
    → IsOrdered (conclude k a l).1
conclude-IsOrdered k a l t i =
    concluding-IsOrdered k a.terminal_published a.terminal_acknowledged l t i

handle_failure-IsOrdered :
    (a : Attempt) (e : WorkerError) (l : Log) → IsOrdered l → IsOrdered (handle_failure a e l).1
handle_failure-IsOrdered a e l i =
    if_cases (λ (s : Step). IsOrdered s.1)
      (is_retryable e && ltb a.delivery_count a.max_delivery_count) (λ _. i)
      (λ _. conclude-IsOrdered (failed (error_code e)) a l refl i)

handle_error-IsOrdered :
    (r : Option CancellationReason) (a : Attempt) (e : WorkerError) (l : Log)
    → IsOrdered l
    → IsOrdered (handle_error r a e l).1
unfolding handle_error
handle_error-IsOrdered (some shutdown) a e l i = i
handle_error-IsOrdered (some lease_lost) a e l i = i
handle_error-IsOrdered (some requested) a e l i =
    if_cases (λ (s : Step). IsOrdered s.1) (str_eq (error_code e) "LEASE_LOST") (λ _. i)
      (λ _. conclude-IsOrdered (cancelled "requested") a l refl i)
handle_error-IsOrdered (some deadline) a e l i =
    if_cases (λ (s : Step). IsOrdered s.1) (str_eq (error_code e) "LEASE_LOST") (λ _. i)
      (λ _. conclude-IsOrdered (cancelled "expired") a l refl i)
handle_error-IsOrdered none a e l i =
    if_cases (λ (s : Step). IsOrdered s.1) (str_eq (error_code e) "LEASE_LOST") (λ _. i)
      (λ _. handle_failure-IsOrdered a e l i)

catching-IsOrdered : (a : Attempt) (s : Step) → IsOrdered s.1 → IsOrdered (catching a s).1
catching-IsOrdered a (ok x, l) i = i
catching-IsOrdered a (throw e, l) i =
    handle_error-IsOrdered (last_token a) a e (emit_during a.closing l)
      (emit_during-IsOrdered a.closing l i)

disconnecting-IsOrdered : (c : Called) (l : Log) → IsOrdered l → IsOrdered (disconnecting c l).1
disconnecting-IsOrdered (throw e) l i = i
disconnecting-IsOrdered (ok x) l i = note-IsOrdered l disconnected refl refl i

release_lease-IsOrdered : (c : Called) (l : Log) → IsOrdered l → IsOrdered (release_lease c l).1
unfolding release_lease
release_lease-IsOrdered (throw e) l i = i
release_lease-IsOrdered (ok x) l i = note-IsOrdered l released refl refl i

finishing-IsOrdered : (a : Attempt) (s : Step) → IsOrdered s.1 → IsOrdered (finishing a s).1
unfolding disconnect_browser
finishing-IsOrdered a (outcome, l) i =
    and_then-IsOrdered (disconnect_browser a l) _
      (if_cases (λ (s : Step). IsOrdered s.1) l.connected
        (λ _. disconnecting-IsOrdered a.disconnect l i) (λ _. i))
      λ l i.
        and_then-IsOrdered (release_lease a.release l) _ (release_lease-IsOrdered a.release l i)
          λ l i. i

abbrev Settled : Step → Type 0
Settled s = CountsFrom 0 s.1.effects × (acks_settled false s.1.effects ≡ true)

-- However the calls of a run end, and whatever is asked of it meanwhile, the events of a job are
-- published with the numbers 0, 1, 2, ... in order and without a gap, and the message of a job that was
-- taken up is acknowledged only after a terminal event (succeeded, cancelled or failed) was published.
pub process_acknowledges :
    (a : Attempt)
    → a.has_envelope ≡ true
    → is_ok a.job ≡ true
    → CountsFrom 0 (process a).1.effects × (acks_settled false (process a).1.effects ≡ true)
unfolding process
process_acknowledges a h j =
    let fresh : IsOrdered new_log = record { numbered = tt; counted = refl; settled = refl } in
    let done =
      finishing-IsOrdered a (catching a (perform_job a new_log))
        (catching-IsOrdered a (perform_job a new_log) (perform_job-IsOrdered a new_log fresh)) in
    if_cases Settled (not a.has_envelope) (λ q. let off : ⊥ = ground arith in elim off [ ])
      λ _.
        if_cases Settled (not (is_ok a.job)) (λ q. let off : ⊥ = ground arith in elim off [ ])
          λ _.
            if_cases Settled (not a.acquired) (λ _. (tt, refl)) λ _. (done.numbered, done.settled)
