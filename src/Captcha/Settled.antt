-- ===== src/Captcha/Settled.antt =====
-- apps/worker/src/captcha/captcha-relay.ts: every wait is settled once.
use hyeboard.Prelude.{
  ℕ, suc, ◌+◌, ◌≤◌, ◌≡◌, refl, sym, ap, subst, ◌∙◌, inl, inr, Bool, true, not, ◌||◌, some, List, [],
  ◌∷◌, ◌++◌, String, arith, Dict, lookup, insert, erase, length, Option-cases, str_eq_iff,
  if◌then◌else◌, if_cases, ◌==◌, ==_iff, HasUniqueKeys, insert-HasUniqueKeys, erase-HasUniqueKeys,
  total, weight, total-erase, total-insert, erase_absent, all_entries, all_entries-insert,
  all_entries-lookup, ok,
}
use hyeboard.Captcha.Local.{
  Verdict, answered, timeout, cancelled, not_found, Status, pending, has_answer, LocalRelay,
  LocalRelays, new_relays, settle_each, settle_waits, clear, finish, place, cancel, is_pending,
  answer, wait_pending, wait_on, wait, Event, draws, answers, waits, cancels, expires, relays_or,
  step, run,
}

-- How often a wait stands in a relay, in the log, and among the events.
abbrev pub waiting : ℕ → List ℕ → ℕ
waiting w [] = 0
waiting w (v ∷ vs) = (if v == w then 1 else 0) + waiting w vs

abbrev pub settlements : ℕ → List (ℕ × Verdict) → ℕ
settlements w [] = 0
settlements w ((v, verdict) ∷ vs) = (if v == w then 1 else 0) + settlements w vs

abbrev pub calls_of : ℕ → Event → ℕ
calls_of w (waits id v aborted) = if v == w then 1 else 0
calls_of w _ = 0

abbrev pub calls : ℕ → List Event → ℕ
calls w [] = 0
calls w (e ∷ es) = calls_of w e + calls w es

abbrev held : ℕ → LocalRelay → ℕ
held w r = waiting w r.waiters

abbrev accounted : ℕ → LocalRelays → ℕ
accounted w s = settlements w s.settled + total (held w) s.relays

-- A relay that has its answer has no waiter.
abbrev is_consistent : String → LocalRelay → Bool
is_consistent id r = is_pending r.status || length r.waiters == 0

record IsWellFormed (s : LocalRelays) : Type 0 where
  unique : HasUniqueKeys s.relays
  consistent : all_entries is_consistent s.relays ≡ true

pub settlements-append :
    (w : ℕ) (xs ys : List (ℕ × Verdict))
    → settlements w (xs ++ ys) ≡ settlements w xs + settlements w ys
settlements-append w [] ys = omega arith
settlements-append w (x ∷ xs) ys = omega (arith, settlements-append w xs ys)

pub waiting-append : (w : ℕ) (xs ys : List ℕ) → waiting w (xs ++ ys) ≡ waiting w xs + waiting w ys
waiting-append w [] ys = omega arith
waiting-append w (x ∷ xs) ys = omega (arith, waiting-append w xs ys)

pub settlements-settle_each :
    (w : ℕ) (ws : List ℕ) (v : Verdict) → settlements w (settle_each ws v) ≡ waiting w ws
settlements-settle_each w [] v = refl
settlements-settle_each w (x ∷ xs) v = omega (arith, settlements-settle_each w xs v)

settlements-settle_waits :
    (w : ℕ) (s : LocalRelays) (ws : List ℕ) (v : Verdict)
    → settlements w (settle_waits s ws v).settled ≡ settlements w s.settled + waiting w ws
settlements-settle_waits w s ws v =
    omega (arith, settlements-append w s.settled (settle_each ws v), settlements-settle_each w ws v)

all_entries-erase :
    (q : String → LocalRelay → Bool) (k : String) (m : Dict LocalRelay)
    → all_entries q m ≡ true
    → all_entries q (erase k m) ≡ true
unfolding erase
all_entries-erase q k [] h = refl
all_entries-erase q k ((j, w) ∷ m) h = ground (arith, all_entries-erase q k m)

clear-IsWellFormed : (s : LocalRelays) (id : String) → IsWellFormed s → IsWellFormed (clear s id)
unfolding clear
clear-IsWellFormed s id i = record {
  unique = erase-HasUniqueKeys id s.relays i.unique;
  consistent = all_entries-erase is_consistent id s.relays i.consistent;
}

insert-IsWellFormed :
    (s : LocalRelays) (id : String) (r : LocalRelay)
    → is_consistent id r ≡ true
    → IsWellFormed s
    → IsWellFormed (record s { relays = insert id r s.relays })
insert-IsWellFormed s id r h i = record {
  unique = insert-HasUniqueKeys id r s.relays i.unique;
  consistent = all_entries-insert is_consistent id r s.relays i.consistent h;
}

-- Whoever is settled leaves the relay, and nobody else moves.
finish-accounted :
    (w : ℕ) (s : LocalRelays) (id : String) (v : Verdict)
    → HasUniqueKeys s.relays
    → accounted w (finish s id v) ≡ accounted w s
unfolding finish clear
finish-accounted w s id v u = elim (Option-cases (lookup id s.relays)) [
  | inl q ↦ rw (q, finish) refl
  | inr (r, q) ↦
      let moved = total-erase (held w) id s.relays u in
      let one : weight (held w) (lookup id s.relays) ≡ waiting w r.waiters =
        ap (weight (held w)) q in
      let log = settlements-settle_waits w (clear s id) r.waiters v in rw (q, finish) (omega arith)
]

finish-IsWellFormed :
    (s : LocalRelays) (id : String) (v : Verdict) → IsWellFormed s → IsWellFormed (finish s id v)
unfolding finish
finish-IsWellFormed s id v i = elim (Option-cases (lookup id s.relays)) [
  | inl q ↦ rw (q, finish) i
  | inr (r, q) ↦
      let rest = clear-IsWellFormed s id i in
      rw (q, finish) (record { unique = rest.unique; consistent = rest.consistent })
]

-- The coordinator `t` accounts for `n` calls of the wait `w` more than `s` does.
abbrev Kept : ℕ → LocalRelays → ℕ → LocalRelays → Type 0
Kept w s n t = (accounted w t ≡ accounted w s + n) × IsWellFormed t

finish-Kept :
    (w : ℕ) (s : LocalRelays) (id : String) (v : Verdict)
    → IsWellFormed s
    → Kept w s 0 (finish s id v)
finish-Kept w s id v i =
    let same = finish-accounted w s id v i.unique in (omega arith, finish-IsWellFormed s id v i)

answer-Kept :
    (w : ℕ) (s : LocalRelays) (id a : String)
    → IsWellFormed s
    → Kept w s 0 (relays_or s (answer s id a))
unfolding answer
answer-Kept w s id a i = elim (Option-cases (lookup id s.relays)) [
  | inl q ↦ rw (q, answer) (omega arith, i)
  | inr (r, q) ↦
      let r' : LocalRelay = record r { status = has_answer a } in
      let stored = total-insert (held w) id r' s.relays i.unique in
      let one : weight (held w) (lookup id s.relays) ≡ waiting w r.waiters =
        ap (weight (held w)) q in
      let done = finish-Kept w s id (answered a) i in
      let idle_or_done : Kept w s 0 (
          relays_or s (
            if length r.waiters == 0
            then ok (record s { relays = insert id r' s.relays })
            else ok (finish s id (answered a)))) =
        if_cases (λ o. Kept w s 0 (relays_or s o)) (length r.waiters == 0)
          (λ idle. (omega arith, insert-IsWellFormed s id r' idle i)) (λ _. done) in
      rw (q, answer)
        (if_cases (λ o. Kept w s 0 (relays_or s o)) (not (is_pending r.status))
          (λ _. (omega arith, i)) (λ _. idle_or_done))
]

settle_waits-IsWellFormed :
    (s : LocalRelays) (ws : List ℕ) (v : Verdict)
    → IsWellFormed s
    → IsWellFormed (settle_waits s ws v)
settle_waits-IsWellFormed s ws v i = record { unique = i.unique; consistent = i.consistent }

wait_pending-Kept :
    (w : ℕ) (s : LocalRelays) (id : String) (r : LocalRelay) (v : ℕ) (aborted : Bool)
    → lookup id s.relays ≡ some r
    → is_pending r.status ≡ true
    → IsWellFormed s
    → Kept w s (calls_of w (waits id v aborted)) (wait_pending s id r v aborted)
unfolding wait_pending cancel
wait_pending-Kept w s id r v aborted q p i =
    let r' : LocalRelay = record r { waiters = r.waiters ++ (v ∷ []) } in
    let stored = total-insert (held w) id r' s.relays i.unique in
    let more = waiting-append w r.waiters (v ∷ []) in
    let one : weight (held w) (lookup id s.relays) ≡ waiting w r.waiters = ap (weight (held w)) q in
    let (gone, still) = finish-Kept w s id cancelled i in
    let log = settlements-settle_waits w (cancel s id) (v ∷ []) cancelled in
    if_cases (Kept w s (calls_of w (waits id v aborted))) aborted
      (λ _. (omega arith, settle_waits-IsWellFormed (cancel s id) (v ∷ []) cancelled still))
      (λ _. (omega arith, insert-IsWellFormed s id r' (rw p refl) i))

pub idle_waiters : (w : ℕ) (ws : List ℕ) → (length ws == 0) ≡ true → waiting w ws ≡ 0
idle_waiters w [] h = refl
idle_waiters w (x ∷ ws) h = ground (arith, ==_iff (suc (length ws)) 0)

wait_on-Kept :
    (w : ℕ) (s : LocalRelays) (id : String) (r : LocalRelay) (st : Status) (v : ℕ) (aborted : Bool)
    → lookup id s.relays ≡ some r
    → r.status ≡ st
    → IsWellFormed s
    → Kept w s (calls_of w (waits id v aborted)) (wait_on s id r st v aborted)
unfolding clear
wait_on-Kept w s id r pending v aborted q p i =
    wait_pending-Kept w s id r v aborted q (ap is_pending p) i
wait_on-Kept w s id r (has_answer a) v aborted q p i =
    let log = settlements-settle_waits w (clear s id) (v ∷ []) (answered a) in
    let moved = total-erase (held w) id s.relays i.unique in
    let one : weight (held w) (lookup id s.relays) ≡ waiting w r.waiters = ap (weight (held w)) q in
    let settled = all_entries-lookup is_consistent id r s.relays i.consistent q in
    let idle : (length r.waiters == 0) ≡ true =
      subst (λ t. (is_pending t || length r.waiters == 0) ≡ true) p settled in
    let nobody = idle_waiters w r.waiters idle in
    (
      omega arith,
      settle_waits-IsWellFormed (clear s id) (v ∷ []) (answered a) (clear-IsWellFormed s id i),
    )

wait-Kept :
    (w : ℕ) (s : LocalRelays) (id : String) (v : ℕ) (aborted : Bool)
    → IsWellFormed s
    → Kept w s (calls_of w (waits id v aborted)) (wait s id v aborted)
unfolding wait
wait-Kept w s id v aborted i = elim (Option-cases (lookup id s.relays)) [
  | inl q ↦
      let log = settlements-settle_waits w s (v ∷ []) not_found in
      rw (q, wait) (omega arith, settle_waits-IsWellFormed s (v ∷ []) not_found i)
  | inr (r, q) ↦ rw (q, wait) (wait_on-Kept w s id r r.status v aborted q refl i)
]

step-Kept :
    (w : ℕ) (s : LocalRelays) (e : Event) → IsWellFormed s → Kept w s (calls_of w e) (step s e)
unfolding step place cancel
step-Kept w s (draws id) i = elim (Option-cases (lookup id s.relays)) [
  | inr (r, q) ↦ rw (q, step) (omega arith, i)
  | inl q ↦
      let r : LocalRelay = record { status = pending; waiters = [] } in
      let stored = total-insert (held w) id r s.relays i.unique in
      let none_yet : weight (held w) (lookup id s.relays) ≡ 0 = ap (weight (held w)) q in
      rw (q, step) (omega arith, insert-IsWellFormed s id r refl i)
]
step-Kept w s (answers id a) i = answer-Kept w s id a i
step-Kept w s (waits id v aborted) i = wait-Kept w s id v aborted i
step-Kept w s (cancels id) i = finish-Kept w s id cancelled i
step-Kept w s (expires id) i = finish-Kept w s id timeout i

run-Kept :
    (w : ℕ) (es : List Event) (s : LocalRelays) → IsWellFormed s → Kept w s (calls w es) (run s es)
unfolding run
run-Kept w [] s i = (omega arith, i)
run-Kept w (e ∷ es) s i =
    let (first, kept) = step-Kept w s e i in
    let (later, rest) = run-Kept w es (step s e) kept in (omega arith, rest)

-- The events in which the timer of every relay fires.
abbrev pub timers : Dict LocalRelay → List Event
timers [] = []
timers ((id, r) ∷ m) = expires id ∷ timers m

timers-calls : (w : ℕ) (m : Dict LocalRelay) → calls w (timers m) ≡ 0
timers-calls w [] = refl
timers-calls w ((id, r) ∷ m) = omega (arith, timers-calls w m)

-- The timer of a relay deletes it.
expires-relays : (s : LocalRelays) (id : String) → (step s (expires id)).relays ≡ erase id s.relays
unfolding step finish clear
expires-relays s id = elim (Option-cases (lookup id s.relays)) [
  | inl q ↦ rw (q, finish) (sym (erase_absent id s.relays q))
  | inr (r, q) ↦ rw (q, finish) refl
]

timers-relays :
    (m : Dict LocalRelay) (s : LocalRelays)
    → HasUniqueKeys m
    → s.relays ≡ m
    → (run s (timers m)).relays ≡ []
unfolding run erase
timers-relays [] s u e = e
timers-relays ((id, r) ∷ m) s u e = timers-relays m (step s (expires id)) u.1 (
    expires-relays s id ∙ ap (erase id) e ∙ ground (arith, str_eq_iff id id, erase_absent id m u.0))

-- However draws, answers, waits, cancellations and timers follow each other, a wait is settled at most
-- as often as it was called, and exactly as often once the timers of the relays that are left have fired,
-- after which no relay is left: no caller is forgotten and none is answered twice.
pub waits_settled :
    (es : List Event) (w : ℕ)
    → let s = run new_relays es in
      let later = run s (timers s.relays) in
      (settlements w s.settled ≤ calls w es)
      × (settlements w later.settled ≡ calls w es)
      × (later.relays ≡ [])
waits_settled es w =
    let s = run new_relays es in
    let (now, kept) = run-Kept w es new_relays (record { unique = tt; consistent = refl }) in
    let (after, _) = run-Kept w (timers s.relays) s kept in
    let quiet = timers-calls w s.relays in
    let gone = timers-relays s.relays s kept.unique refl in
    let nobody : total (held w) (run s (timers s.relays)).relays ≡ 0 = ap (total (held w)) gone in
    (omega arith, omega arith, gone)
