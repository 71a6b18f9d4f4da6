-- ===== src/Captcha/Local.antt =====
-- apps/worker/src/captcha/captcha-relay.ts: `LocalCaptchaRelayCoordinator`. A wait is named by a number,
-- and the settlements of the promises that waits return are logged in order. A timer stands in the
-- relay that it belongs to, since `clear` deletes both.
use hyeboard.Prelude.{
  ℕ, Bool, true, false, not, Option, none, some, List, [], ◌∷◌, ◌++◌, String, Dict, lookup, insert,
  erase, Outcome, ok, throw, if◌then◌else◌, ◌==◌, length,
}

-- How the promise of a wait is settled: resolved with an answer, or rejected with one of the errors.
pub data Verdict : Type 0 where
  answered : String → Verdict
  timeout cancelled not_found : Verdict

-- `status`, with the answer of an answered relay.
pub data Status : Type 0 where
  pending : Status
  has_answer : String → Status

pub record LocalRelay : Type 0 where
  pub status : Status
  pub waiters : List ℕ

pub record LocalRelays : Type 0 where
  pub relays : Dict LocalRelay
  pub settled : List (ℕ × Verdict)

abbrev pub new_relays : LocalRelays
new_relays = record { relays = []; settled = [] }

abbrev pub settle_each : List ℕ → Verdict → List (ℕ × Verdict)
settle_each [] v = []
settle_each (w ∷ ws) v = (w, v) ∷ settle_each ws v

abbrev pub settle_waits : LocalRelays → List ℕ → Verdict → LocalRelays
settle_waits s ws v = record s { settled = s.settled ++ settle_each ws v }

unfoldable pub clear : LocalRelays → String → LocalRelays
clear s id = record s { relays = erase id s.relays }

-- `resolve` and `reject`: every waiter of the relay gets the verdict.
unfoldable pub finish : LocalRelays → String → Verdict → LocalRelays
finish s id v = elim (lookup id s.relays) [
  | none ↦ s
  | some r ↦ settle_waits (clear s id) r.waiters v
]

-- The rest of `prepare`, once an identifier is drawn that is not in use.
unfoldable pub place : LocalRelays → String → LocalRelays
place s id = record s { relays = insert id (record { status = pending; waiters = [] }) s.relays }

unfoldable pub cancel : LocalRelays → String → LocalRelays
cancel s id = finish s id cancelled

abbrev pub is_pending : Status → Bool
is_pending pending = true
is_pending (has_answer a) = false

-- `answer`, which throws `captchaRelayNotFound`.
unfoldable pub answer : LocalRelays → String → String → Outcome Verdict LocalRelays
answer s id a = elim (lookup id s.relays) [
  | none ↦ throw not_found
  | some r ↦
      if not (is_pending r.status)
      then throw not_found
      else if length r.waiters == 0
      then ok (record s { relays = insert id (record r { status = has_answer a }) s.relays })
      else ok (finish s id (answered a))
]

-- `wait`, called as the wait `w` with a signal that has aborted or not.
unfoldable pub wait_pending : LocalRelays → String → LocalRelay → ℕ → Bool → LocalRelays
wait_pending s id r w aborted =
    if aborted
    then settle_waits (cancel s id) (w ∷ []) cancelled
    else record s { relays = insert id (record r { waiters = r.waiters ++ (w ∷ []) }) s.relays }

abbrev pub wait_on : LocalRelays → String → LocalRelay → Status → ℕ → Bool → LocalRelays
wait_on s id r (has_answer a) w aborted = settle_waits (clear s id) (w ∷ []) (answered a)
wait_on s id r pending w aborted = wait_pending s id r w aborted

unfoldable pub wait : LocalRelays → String → ℕ → Bool → LocalRelays
wait s id w aborted = elim (lookup id s.relays) [
  | none ↦ settle_waits s (w ∷ []) not_found
  | some r ↦ wait_on s id r r.status w aborted
]

-- What happens to the coordinator: a draw of `prepare`, which starts a relay unless the identifier is
-- in use, an answer, a wait, a cancellation or an abort of a waiter's signal, and a relay's timer.
pub data Event : Type 0 where
  draws : String → Event
  answers : String → String → Event
  waits : String → ℕ → Bool → Event
  cancels : String → Event
  expires : String → Event

abbrev pub is_present {ℓ} : {A : Type ℓ} → Option A → Bool
is_present none = false
is_present (some a) = true

abbrev pub relays_or : LocalRelays → Outcome Verdict LocalRelays → LocalRelays
relays_or s (ok s') = s'
relays_or s (throw e) = s

unfoldable pub step : LocalRelays → Event → LocalRelays
step s (draws id) = if is_present (lookup id s.relays) then s else place s id
step s (answers id a) = relays_or s (answer s id a)
step s (waits id w aborted) = wait s id w aborted
step s (cancels id) = cancel s id
step s (expires id) = finish s id timeout

unfoldable pub run : LocalRelays → List Event → LocalRelays
run s [] = s
run s (e ∷ es) = run (step s e) es
