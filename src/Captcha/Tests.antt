-- ===== src/Captcha/Tests.antt =====
-- Relays of codes at work, and the theorems at them.
use hyeboard.Prelude.{
  ℕ, ◌≤◌, ◌≡◌, refl, true, some, none, List, [], ◌∷◌, String, arith, lookup, insert, erase, length,
  throw, zero, suc, false, sym, ap, ◌∙◌, codes, ◌==◌, ◌||◌,
}
use hyeboard.Captcha.Local.{
  LocalRelays, new_relays, clear, finish, place, cancel, answered, timeout, not_found, answer,
  wait_pending, wait, Event, draws, answers, waits, step, run, pending, has_answer, Verdict,
}
use hyeboard.Captcha.Draw.{prepare, IsInjective, prepare_terminates}
use hyeboard.Captcha.Settled.{settlements, calls, timers, waits_settled}
use hyeboard.Captcha.Single.{answered_once}
use hyeboard.Captcha.Object as Object
use hyeboard.Captcha.Object.{new_object, cleanup, alarm_fires, resolve_waiters, is_present}
use hyeboard.Captcha.Forgotten as Forgotten
use hyeboard.Captcha.Forgotten.{object_waits_settled}
use hyeboard.Captcha.Cloudflare.{Namespace}

-- Identifiers of every length.
unfoldable nth_id : ℕ → String
nth_id zero = String.[]
nth_id (suc n) = String.◌∷◌ "x" (nth_id n)

length-nth_id : (n : ℕ) → length (codes (nth_id n)) ≡ n
unfolding nth_id
length-nth_id zero = refl
length-nth_id (suc n) = omega (arith, length-nth_id n)

nth_id-IsInjective : IsInjective nth_id
nth_id-IsInjective i j e = sym (length-nth_id i) ∙ ap (λ s. length (codes s)) e ∙ length-nth_id j

-- A coordinator where the first identifier is in use.
abbrev one_relay : LocalRelays
one_relay = record { relays = ("", record { status = pending; waiters = [] }) ∷ []; settled = [] }

prepare_terminates_example :
    (id : String) × (prepare 2 nth_id 0 one_relay ≡ some (id, place one_relay id))
    × (lookup id one_relay.relays ≡ none)
prepare_terminates_example =
    prepare_terminates nth_id 0 2 one_relay nth_id-IsInjective (omega arith)

abbrev day : List Event
day =
    draws "a"
    ∷ waits "a" 1 false
    ∷ draws "b"
    ∷ answers "b" "1234"
    ∷ waits "a" 2 false
    ∷ waits "b" 3 false
    ∷ answers "a" "5678"
    ∷ waits "c" 4 false
    ∷ draws "d"
    ∷ waits "d" 5 false
    ∷ []

-- The log of a history of the local coordinator, computed through every definition.
log_of : List Event → List (ℕ × Verdict)
unfolding run step answer wait wait_pending cancel finish clear place lookup insert erase
log_of es = (run new_relays es).settled

day_log :
    log_of day
    ≡ ((3, answered "1234") ∷ (1, answered "5678") ∷ (2, answered "5678") ∷ (4, not_found) ∷ [])
unfolding log_of
day_log = refl

waits_settled_example :
    (settlements 5 (run new_relays day).settled ≤ calls 5 day)
    × (settlements 5 (run (run new_relays day) (timers (run new_relays day).relays)).settled
        ≡ calls 5 day)
    × ((run (run new_relays day) (timers (run new_relays day).relays)).relays ≡ [])
waits_settled_example = waits_settled day 5

abbrev answered_relay : LocalRelays
answered_relay = record {
  relays = ("", record { status = has_answer "1234"; waiters = [] }) ∷ [];
  settled = [];
}

answered_once_example :
    answer (run answered_relay (draws "b" ∷ waits "b" 7 false ∷ [])) "" "5678" ≡ throw not_found
unfolding answer lookup insert erase
answered_once_example =
    answered_once "" "1234" "5678" one_relay answered_relay (draws "b" ∷ waits "b" 7 false ∷ [])
      refl (refl, (refl, tt))

-- A wait that comes after the expiry, before the alarm, deletes the row and the alarm: the wait that
-- was there is never settled.
late_wait_forgets_another :
    (Object.run new_object (
      Object.prepares 1000 ∷ Object.waits 1 500 ∷ Object.waits 2 1000 ∷ Object.alarms ∷ [])).settled
    ≡ ((2, timeout) ∷ [])
unfolding Object.run Object.step Object.prepare Object.wait cleanup alarm_fires resolve_waiters
late_wait_forgets_another = refl

abbrev challenge : List Object.Event
challenge =
    Object.prepares 1000
    ∷ Object.waits 1 500
    ∷ Object.waits 2 600
    ∷ Object.answers "1234" 700
    ∷ Object.resumes
    ∷ Object.waits 3 800
    ∷ []

object_waits_settled_example :
    ((length (Object.run new_object challenge).waiters == 0
        || is_present (Object.run new_object challenge).alarm)
      ≡ true)
    × (settlements 2 (Object.step (Object.run new_object challenge) Object.alarms).settled
        ≡ Forgotten.calls 2 challenge)
unfolding Object.run Object.step Object.prepare Object.wait Object.answer Object.resume cleanup
    alarm_fires resolve_waiters
object_waits_settled_example =
    object_waits_settled challenge 2 (refl, (refl, (refl, (refl, (refl, (refl, tt))))))

abbrev empty_objects : Namespace
empty_objects id = new_object
