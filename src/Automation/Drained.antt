-- ===== src/Automation/Drained.antt =====
-- apps/automation-worker/src/transport/control.ts over transport/broker.ts: the consumer of controls
-- handles the entries of its stream in order.
use hyeboard.Prelude.{
  Dict, ℕ, ◌+◌, ◌*◌, ◌≤◌, ◌≡◌, refl, sym, ap, subst, ◌∙◌, Bool, true, false, Option, none, some,
  List, [], ◌∷◌, ◌++◌, String, arith, length, take, drop, length-take, drop-add, length-drop,
  lookup, insert, lookup-insert_self, if_cases, ok,
}
use hyeboard.Core.Json.{Json}
use hyeboard.Automation.Broker.{
  Pending, Entry, GroupState, StreamsBroker, group_key, entries_of, group_or, ensure_group,
  delete_pending, read_entries, read_group, reclaim, reclaim_pending, ack_message,
}
use hyeboard.Automation.Accounts.{has_pending}
use hyeboard.Automation.Control.{
  AutomationControl, ControlConfig, Consumer, handle_control, process_messages, prepare_group,
  after_read, read_new, after_reclaim, run_once, consume,
}
use hyeboard.Automation.Batches.{
  first_deliveries, delete_all, has_pending-delete_all, no_pending, read_entries_lem,
  entries_of-groups, drop_all, take_rest, idle_after,
}

module _ {S : Type 0} (is_opaque_id : String → Bool) (open_envelope : String → String → Option Json)
    (on_control : AutomationControl → S → S) (config : ControlConfig) where
  abbrev pub Run : Type 0
  Run = Consumer is_opaque_id open_envelope on_control config

  abbrev control_key : String
  control_key = group_key config.control_stream config.control_group

  -- The operations of a consumer with these parameters.
  abbrev pub handled_by : Dict String → S → S
  handled_by contents s = handle_control is_opaque_id open_envelope on_control config contents s

  abbrev pub processed : List Pending → Run → Run
  processed ms s = process_messages is_opaque_id open_envelope on_control config ms s

  abbrev pub prepared : Run → Run
  prepared s = prepare_group is_opaque_id open_envelope on_control config s

  abbrev newly_read : ℕ → Run → Run
  newly_read now s = (read_new is_opaque_id open_envelope on_control config now s).1

  abbrev ran : ℕ → Run → Run
  ran now s = (run_once is_opaque_id open_envelope on_control config now s).1

  abbrev pub consumed : List ℕ → Run → Run
  consumed instants s = consume is_opaque_id open_envelope on_control config instants s

  -- The controls of the entries, one after the other.
  unfoldable pub handle_all : List Entry → S → S
  handle_all [] s = s
  handle_all (e ∷ es) s = handle_all es (handled_by e.contents s)

  handle_all-append :
      (es fs : List Entry) (s : S) → handle_all (es ++ fs) s ≡ handle_all fs (handle_all es s)
  unfolding handle_all
  handle_all-append [] fs s = refl
  handle_all-append (e ∷ es) fs s = handle_all-append es fs _

  -- The group has been given `next` of the entries, and nothing is pending.
  abbrev pub IsIdle : Run → List Entry → ℕ → Type 0
  IsIdle s es next =
      (lookup control_key s.broker.groups ≡ some (record { next_index = next; pending = [] }))
      × (entries_of s.broker config.control_stream ≡ es)
      × (s.group_ready ≡ true)

  ack_message_lem :
      (b : StreamsBroker) (id : ℕ) (g : GroupState)
      → lookup control_key b.groups ≡ some g
      → let b' = ack_message config.control_stream config.control_group id b in
        (lookup control_key b'.groups ≡ some (record g { pending = delete_pending id g.pending }))
        × (entries_of b' config.control_stream ≡ entries_of b config.control_stream)
  unfolding ack_message entries_of
  ack_message_lem b id g h =
      let g' : GroupState = record g { pending = delete_pending id g.pending } in
      (rw (h, ack_message) (lookup-insert_self control_key g' b.groups), rw (h, ack_message) refl)

  process_messages_lem :
      (now : ℕ) (es : List Entry) (s : Run) (g : GroupState)
      → lookup control_key s.broker.groups ≡ some g
      → let s' = processed (first_deliveries config.control_consumer now es) s in
        (lookup control_key s'.broker.groups
          ≡ some (record g { pending = delete_all es g.pending }))
        × (entries_of s'.broker config.control_stream ≡ entries_of s.broker config.control_stream)
        × (s'.handled ≡ handle_all es s.handled)
        × (s'.group_ready ≡ s.group_ready)
  unfolding process_messages handle_all
  process_messages_lem now [] s g h = (h, refl, refl, refl)
  process_messages_lem now (e ∷ es) s g h =
      let b' = ack_message config.control_stream config.control_group e.id s.broker in
      let (at, same) = ack_message_lem s.broker e.id g h in
      let t : Run = record s { broker = b'; handled = handled_by e.contents s.handled } in
      let (group, entries, done, ready) =
        process_messages_lem now es t (record g { pending = delete_pending e.id g.pending }) at in
      (group, entries ∙ same, done, ready)

  prepare_group_idle : (s : Run) → s.group_ready ≡ true → prepared s ≡ s
  unfolding prepare_group
  prepare_group_idle s r = rw (r) refl

  -- A new consumer makes its group, at the start of the stream.
  prepare_group_start :
      (s : Run) (es : List Entry)
      → lookup control_key s.broker.groups ≡ none
      → entries_of s.broker config.control_stream ≡ es
      → s.group_ready ≡ false
      → let s' = prepared s in IsIdle s' es 0 × (s'.handled ≡ s.handled)
  unfolding prepare_group ensure_group entries_of
  prepare_group_start s es h e r =
      let b = ensure_group config.control_stream config.control_group s.broker in
      let t : Run = record s { broker = b; group_ready = true } in
      let eq : prepared s ≡ t = rw (r, prepare_group) refl in
      let made =
        lookup-insert_self control_key (group_or (lookup control_key s.broker.groups))
          s.broker.groups in
      let kept : entries_of b config.control_stream ≡ es =
        rw
          (lookup-insert_self config.control_stream (entries_of s.broker config.control_stream)
            s.broker.streams)
          e in
      subst (λ (x : Run). IsIdle x es 0 × (x.handled ≡ s.handled)) (sym eq)
        ((made ∙ ap (λ g. some (group_or g)) h, kept, refl), refl)

  read_new_lem :
      (now : ℕ) (s : Run) (es : List Entry) (next : ℕ)
      → IsIdle s es next
      → let s' = newly_read now s in
        IsIdle s' es (next + length (take 10 (drop next es)))
        × (s'.handled ≡ handle_all (take 10 (drop next es)) s.handled)
  unfolding read_group has_pending
  read_new_lem now s es next (group, entries, ready) =
      let consumer = config.control_consumer in
      let idle : GroupState = record { next_index = next; pending = [] } in
      let rest = drop next es in
      let batch = take 10 rest in
      let r = read_entries consumer now 10 rest idle in
      let (out, nxt, has) = read_entries_lem consumer now 10 rest idle in
      let b : StreamsBroker = record s.broker { groups = insert control_key r.1 s.broker.groups } in
      let t : Run = record s { broker = b } in
      let read : read_group config.control_stream config.control_group consumer 10 false now
            s.broker
          ≡ (ok r.0, b) =
        rw (group, read_group, entries) refl in
      let eq : newly_read now s ≡ processed (first_deliveries consumer now batch) t =
        ap (λ x. (after_read is_opaque_id open_envelope on_control config x s).1) read
        ∙ ap (λ ms. processed ms t) out in
      let none_left : delete_all batch r.1.pending ≡ [] =
        no_pending (delete_all batch r.1.pending)
          (λ id. ground (arith, has_pending-delete_all id batch r.1.pending, has id)) in
      let (at, same, done, kept) =
        process_messages_lem now batch t r.1 (lookup-insert_self control_key r.1 s.broker.groups) in
      let emptied : lookup control_key
            (processed (first_deliveries consumer now batch) t).broker.groups
          ≡ some (record { next_index = next + length batch; pending = [] }) =
        at ∙ idle_after nxt none_left in
      subst
        (λ (x : Run). IsIdle x es (next + length batch) × (x.handled ≡ handle_all batch s.handled))
        (sym eq)
        (
          (
            emptied,
            same ∙ entries_of-groups s.broker b.groups config.control_stream ∙ entries,
            kept ∙ ready,
          ),
          done,
        )

  run_once_lem :
      (now : ℕ) (s : Run) (es : List Entry) (next : ℕ)
      → IsIdle (prepared s) es next
      → let s' = ran now s in
        let t = prepared s in
        IsIdle s' es (next + length (take 10 (drop next es)))
        × (s'.handled ≡ handle_all (take 10 (drop next es)) t.handled)
  unfolding run_once reclaim_pending reclaim
  run_once_lem now s es next (group, entries, ready) =
      let t = prepared s in
      let b : StreamsBroker = record t.broker {
        groups = insert control_key (record { next_index = next; pending = [] }) t.broker.groups;
      } in
      let t' : Run = record t { broker = b } in
      let nothing : reclaim_pending config.control_stream config.control_group
            config.control_consumer 10 config.reclaim_idle_ms false now t.broker
          ≡ (ok [], b) =
        rw (group, reclaim_pending) refl in
      let eq : ran now s ≡ newly_read now t' =
        ap (λ x. (after_reclaim is_opaque_id open_envelope on_control config now x t).1) nothing in
      subst
        (λ (x : Run).
          IsIdle x es (next + length (take 10 (drop next es)))
          × (x.handled ≡ handle_all (take 10 (drop next es)) t.handled))
        (sym eq)
        (read_new_lem now t' es next (
          lookup-insert_self control_key (record { next_index = next; pending = [] })
              t.broker.groups,
          entries_of-groups t.broker b.groups config.control_stream ∙ entries,
          ready,
        ))

  prepare_group-handled : (s : Run) → (prepared s).handled ≡ s.handled
  unfolding prepare_group
  prepare_group-handled s =
      if_cases (λ (t : Run). t.handled ≡ s.handled) s.group_ready (λ _. refl) (λ _. refl)

  consume_lem :
      (instants : List ℕ) (s : Run) (es : List Entry) (next : ℕ)
      → IsIdle (prepared s) es next
      → next ≤ length es
      → length es ≤ next + 10 * length instants
      → let s' = consumed instants s in
        IsIdle (prepared s') es (length es) × (s'.handled ≡ handle_all (drop next es) s.handled)
  unfolding consume handle_all
  consume_lem [] s es next idle l h =
      let all : next ≡ length es = omega arith in
      (subst (λ n. IsIdle (prepared s) es n) all idle, rw (drop_all next es (omega arith)) refl)
  consume_lem (now ∷ rest) s es next idle l h =
      let batch = take 10 (drop next es) in
      let s' = ran now s in
      let (idle', done) = run_once_lem now s es next idle in
      let size = length-take 10 (drop next es) in
      let left = length-drop next es in
      let (final, handled) =
        consume_lem rest s' es (next + length batch)
          (subst (λ x. IsIdle x es (next + length batch)) (sym (prepare_group_idle s' idle'.2))
            idle')
          (omega (arith, size, left)) (omega (arith, size, left)) in
      let split : handle_all (drop (next + length batch) es) s'.handled
          ≡ handle_all (drop next es) s.handled =
        rw (done, prepare_group-handled s)
          (ap (λ l. handle_all l (handle_all batch s.handled)) (drop-add next (length batch) es)
            ∙ sym (handle_all-append batch (drop (length batch) (drop next es)) s.handled)
            ∙ ap (λ l. handle_all l s.handled) (take_rest 10 (drop next es))) in
      (final, handled ∙ split)

  -- A new consumer handles every entry of its stream exactly once and in order: after at least a tenth
  -- as many rounds as there are entries, the state of the handler is what the controls of all entries
  -- make of it one after the other, the group is at the end of the stream, and nothing is pending.
  pub consume_drains :
      (instants : List ℕ) (s : Run) (es : List Entry)
      → lookup control_key s.broker.groups ≡ none
      → entries_of s.broker config.control_stream ≡ es
      → s.group_ready ≡ false
      → length es ≤ 10 * length instants
      → let s' = consumed instants s in
        IsIdle (prepared s') es (length es) × (s'.handled ≡ handle_all es s.handled)
  consume_drains instants s es h e r l =
      consume_lem instants s es 0 (prepare_group_start s es h e r).0 (omega arith) (omega arith)
