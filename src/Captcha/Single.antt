-- ===== src/Captcha/Single.antt =====
-- apps/worker/src/captcha/captcha-relay.ts: a challenge takes one answer.
use hyeboard.Prelude.{
  ℕ, ◌≡◌, refl, inl, inr, Bool, true, false, not, Option, none, some, List, [], ◌∷◌, ◌++◌, String,
  arith, lookup, lookup-erase, lookup-insert, Option-cases, str_eq_iff, str_eq, ok, throw,
}
use hyeboard.Captcha.Local.{
  Verdict, answered, timeout, cancelled, not_found, Status, pending, has_answer, LocalRelay,
  LocalRelays, clear, finish, place, cancel, is_pending, answer, wait_pending, wait_on, wait, Event,
  draws, answers, waits, cancels, expires, relays_or, step, run,
}

-- The challenge takes no answer: it has one already, or is not there.
abbrev is_closed : Option LocalRelay → Bool
is_closed none = true
is_closed (some r) = not (is_pending r.status)

module _ (id : String) where
  abbrev Closed : LocalRelays → Type 0
  Closed s = is_closed (lookup id s.relays) ≡ true

  -- No relay is started under this identifier.
  abbrev pub draws_it : Event → Bool
  draws_it (draws k) = str_eq k id
  draws_it _ = false

  abbrev pub NotDrawn : List Event → Type 0
  NotDrawn [] = Unit
  NotDrawn (e ∷ es) = (draws_it e ≡ false) × NotDrawn es

  finish-Closed : (s : LocalRelays) (k : String) (v : Verdict) → Closed s → Closed (finish s k v)
  unfolding finish clear
  finish-Closed s k v h = elim (Option-cases (lookup k s.relays)) [
    | inl q ↦ rw (q, finish) h
    | inr (r, q) ↦ rw (q, finish) (ground (arith, lookup-erase k id s.relays))
  ]

  answer-Closed : (s : LocalRelays) (k a : String) → Closed s → Closed (relays_or s (answer s k a))
  unfolding answer
  answer-Closed s k a h = elim (Option-cases (lookup k s.relays)) [
    | inl q ↦ rw (q, answer) h
    | inr (r, q) ↦
        let stored = lookup-insert k id (record r { status = has_answer a }) s.relays in
        let done = finish-Closed s k (answered a) h in rw (q, answer) (ground arith)
  ]

  wait_on-Closed :
      (s : LocalRelays) (k : String) (r : LocalRelay) (st : Status) (w : ℕ) (aborted : Bool)
      → lookup k s.relays ≡ some r
      → r.status ≡ st
      → Closed s
      → Closed (wait_on s k r st w aborted)
  unfolding wait_pending cancel clear
  wait_on-Closed s k r (has_answer a) w aborted q p h = ground (arith, lookup-erase k id s.relays)
  wait_on-Closed s k r pending w aborted q p h =
      let r' : LocalRelay = record r { waiters = r.waiters ++ (w ∷ []) } in
      let stored = lookup-insert k id r' s.relays in
      let done = finish-Closed s k cancelled h in ground (arith, str_eq_iff k id)

  step-Closed : (s : LocalRelays) (e : Event) → draws_it e ≡ false → Closed s → Closed (step s e)
  unfolding step place cancel wait
  step-Closed s (draws k) n h =
      ground (arith, lookup-insert k id (record { status = pending; waiters = [] }) s.relays)
  step-Closed s (answers k a) n h = answer-Closed s k a h
  step-Closed s (waits k w aborted) n h = elim (Option-cases (lookup k s.relays)) [
    | inl q ↦ rw (q, wait) h
    | inr (r, q) ↦ rw (q, wait) (wait_on-Closed s k r r.status w aborted q refl h)
  ]
  step-Closed s (cancels k) n h = finish-Closed s k cancelled h
  step-Closed s (expires k) n h = finish-Closed s k timeout h

  run-Closed : (es : List Event) (s : LocalRelays) → NotDrawn es → Closed s → Closed (run s es)
  unfolding run
  run-Closed [] s n h = h
  run-Closed (e ∷ es) s n h = run-Closed es (step s e) n.1 (step-Closed s e n.0 h)

  accepted-Closed :
      (s : LocalRelays) (a : String) (s' : LocalRelays) → answer s id a ≡ ok s' → Closed s'
  unfolding answer finish clear
  accepted-Closed s a s' e = elim (Option-cases (lookup id s.relays)) [
    | inl q ↦ ground arith
    | inr (r, q) ↦ ground (
      arith,
      str_eq_iff id id,
      lookup-erase id id s.relays,
      lookup-insert id id (record r { status = has_answer a }) s.relays,
    )
  ]

  throws_if_shut : (s : LocalRelays) (a : String) → Closed s → answer s id a ≡ throw not_found
  unfolding answer
  throws_if_shut s a h = elim (Option-cases (lookup id s.relays)) [
    | inl q ↦ rw (q, answer) refl
    | inr (r, q) ↦ ground arith
  ]

-- Once an answer to a challenge is accepted, every later one is rejected as not found, after any
-- events in which no relay is started anew under that identifier.
pub answered_once :
    (id a b : String) (s s' : LocalRelays) (es : List Event)
    → answer s id a ≡ ok s'
    → NotDrawn id es
    → answer (run s' es) id b ≡ throw not_found
answered_once id a b s s' es e n =
    throws_if_shut id (run s' es) b (run-Closed id es s' n (accepted-Closed id s a s' e))
