-- ===== src/Captcha/Object.antt =====
-- apps/worker/src/captcha/captcha-relay-durable-object.ts: the relay of one challenge as a row of a
-- table and an alarm. A wait is named by a number; a wait whose promise is resolved cleans up when it
-- resumes, which is an event of its own.
use hyeboard.Prelude.{
  ℕ, ◌+◌, ◌-◌, Bool, true, false, not, ◌||◌, Option, none, some, List, [], ◌∷◌, ◌++◌, String,
  if◌then◌else◌, ◌==◌, length, str_eq, leb,
}
use hyeboard.Captcha.Local.{Verdict, answered, timeout, cancelled, not_found, settle_each}

pub record RelayRow : Type 0 where
  pub answer : Option String
  pub expires_at : ℕ
  pub status : String

-- `resumptions` counts the waits that are resolved and have not resumed.
pub record RelayObject : Type 0 where
  pub row : Option RelayRow
  pub alarm : Option ℕ
  pub waiters : List ℕ
  pub resumptions : ℕ
  pub settled : List (ℕ × Verdict)

abbrev pub new_object : RelayObject
new_object = record { row = none; alarm = none; waiters = []; resumptions = 0; settled = [] }

unfoldable pub cleanup : RelayObject → RelayObject
cleanup s = record s { row = none; alarm = none }

abbrev pub log : RelayObject → List (ℕ × Verdict) → RelayObject
log s entries = record s { settled = s.settled ++ entries }

unfoldable pub resolve_waiters : RelayObject → Verdict → RelayObject
resolve_waiters s v =
    log (record s { waiters = []; resumptions = s.resumptions + length s.waiters })
      (settle_each s.waiters v)

abbrev pub finish : RelayObject → ℕ → Verdict → RelayObject
finish s w v = log (cleanup s) ((w, v) ∷ [])

unfoldable pub prepare : RelayObject → ℕ → Bool × RelayObject
prepare s expires_at = elim s.row [
  | some r ↦ (false, s)
  | none ↦ (
    true,
    record s {
      row = some (record { answer = none; expires_at = expires_at; status = "pending" });
      alarm = some expires_at;
    },
  )
]

-- The rest of `wait` for a row that has not expired.
abbrev pub wait_on : RelayObject → RelayRow → Option String → ℕ → RelayObject
wait_on s r (some a) w =
    if str_eq r.status "answered"
    then finish s w (answered a)
    else if str_eq r.status "cancelled"
    then finish s w cancelled
    else if not (str_eq r.status "pending")
    then finish s w not_found
    else record s { waiters = s.waiters ++ (w ∷ []) }
wait_on s r none w =
    if str_eq r.status "cancelled"
    then finish s w cancelled
    else if not (str_eq r.status "pending")
    then finish s w not_found
    else record s { waiters = s.waiters ++ (w ∷ []) }

unfoldable pub wait : RelayObject → ℕ → ℕ → RelayObject
wait s w now = elim s.row [
  | none ↦ log s ((w, not_found) ∷ [])
  | some r ↦ if leb r.expires_at now then finish s w timeout else wait_on s r r.answer w
]

unfoldable pub answer : RelayObject → String → ℕ → Bool × RelayObject
answer s a now = elim s.row [
  | none ↦ (false, s)
  | some r ↦ if not (str_eq r.status "pending") || leb r.expires_at now then (false, s) else (
    true,
    resolve_waiters (record s { row = some (record r { status = "answered"; answer = some a }) })
        (answered a),
  )
]

unfoldable pub cancel : RelayObject → Bool × RelayObject
cancel s = elim s.row [
  | none ↦ (false, s)
  | some r ↦
      if not (str_eq r.status "pending")
      then (false, s)
      else (true, cleanup (resolve_waiters s cancelled))
]

abbrev pub is_present {ℓ} : {A : Type ℓ} → Option A → Bool
is_present none = false
is_present (some a) = true

unfoldable pub alarm_fires : RelayObject → RelayObject
alarm_fires s = cleanup (if is_present s.row then resolve_waiters s timeout else s)

unfoldable pub resume : RelayObject → RelayObject
resume s = if s.resumptions == 0 then s else cleanup (record s { resumptions = s.resumptions - 1 })

pub data Event : Type 0 where
  prepares : ℕ → Event
  waits : ℕ → ℕ → Event
  answers : String → ℕ → Event
  cancels alarms resumes : Event

unfoldable pub step : RelayObject → Event → RelayObject
step s (prepares expires_at) = (prepare s expires_at).1
step s (waits w now) = wait s w now
step s (answers a now) = (answer s a now).1
step s cancels = (cancel s).1
step s alarms = alarm_fires s
step s resumes = resume s

unfoldable pub run : RelayObject → List Event → RelayObject
run s [] = s
run s (e ∷ es) = run (step s e) es
