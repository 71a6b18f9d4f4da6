-- ===== src/Captcha/Forgotten.antt =====
-- apps/worker/src/captcha/captcha-relay-durable-object.ts: every wait is settled by the alarm, if no
-- wait comes late.
use hyeboard.Prelude.{
  ℕ, suc, ◌+◌, ◌≡◌, refl, ap, ◌∙◌, inl, inr, Bool, true, false, not, ◌&&◌, ◌||◌, Option, none, some,
  List, [], ◌∷◌, ◌++◌, String, arith, Option-cases, if◌then◌else◌, if_cases, ◌==◌, ==_iff, length,
  str_eq, str_eq_iff, leb, ltb,
}
use hyeboard.Captcha.Local.{Verdict, answered, timeout, cancelled, not_found, settle_each}
use hyeboard.Captcha.Settled.{
  waiting, waiting-append, settlements, settlements-append, settlements-settle_each,
}
use hyeboard.Captcha.Object.{
  RelayRow, RelayObject, new_object, cleanup, resolve_waiters, prepare, wait, wait_on, finish,
  answer, cancel, alarm_fires, resume, Event, prepares, waits, answers, cancels, alarms, resumes,
  step, run, is_present,
}

abbrev pub calls_of : ℕ → Event → ℕ
calls_of w (waits v now) = if v == w then 1 else 0
calls_of w _ = 0

abbrev pub calls : ℕ → List Event → ℕ
calls w [] = 0
calls w (e ∷ es) = calls_of w e + calls w es

abbrev is_unexpired : ℕ → Option RelayRow → Bool
is_unexpired now none = true
is_unexpired now (some r) = ltb now r.expires_at

-- No wait comes after the expiry while another waits, and the challenge is not prepared anew
-- while a resolved wait has not resumed.
abbrev is_regular : RelayObject → Event → Bool
is_regular s (waits w now) = length s.waiters == 0 || is_unexpired now s.row
is_regular s (prepares expires_at) = s.resumptions == 0
is_regular s _ = true

abbrev pub IsRegular : RelayObject → List Event → Type 0
IsRegular s [] = Unit
IsRegular s (e ∷ es) = (is_regular s e ≡ true) × IsRegular (step s e) es

-- A pending row has its alarm set and no wait left to clean it up, and whoever waits does so for a
-- pending row.
abbrev is_pending_row : Option RelayRow → Bool
is_pending_row none = false
is_pending_row (some r) = str_eq r.status "pending"

abbrev is_armed : RelayObject → Bool
is_armed s = s.resumptions == 0 && is_present s.alarm

abbrev IsAwaited : RelayObject → Type 0
IsAwaited s =
    ((not (is_pending_row s.row) || is_armed s) ≡ true)
    × ((length s.waiters == 0 || is_pending_row s.row) ≡ true)

abbrev accounted : ℕ → RelayObject → ℕ
accounted w s = settlements w s.settled + waiting w s.waiters

abbrev Kept : ℕ → RelayObject → ℕ → RelayObject → Type 0
Kept w s n t = (accounted w t ≡ accounted w s + n) × IsAwaited t

resolve_waiters-accounted :
    (w : ℕ) (s : RelayObject) (v : Verdict) → (accounted w (resolve_waiters s v) ≡ accounted w s)
unfolding resolve_waiters
resolve_waiters-accounted w s v = omega (
  arith,
  settlements-append w s.settled (settle_each s.waiters v),
  settlements-settle_each w s.waiters v,
)

-- A verdict logged at once.
log-accounted :
    (w v : ℕ) (s : RelayObject) (verdict : Verdict)
    → settlements w (s.settled ++ ((v, verdict) ∷ []))
      ≡ settlements w s.settled + (if v == w then 1 else 0)
log-accounted w v s verdict = omega (arith, settlements-append w s.settled ((v, verdict) ∷ []))

-- A wait that finds its verdict leaves nobody waiting for the row that it deletes.
finish-Kept :
    (w : ℕ) (s : RelayObject) (v : ℕ) (verdict : Verdict)
    → (length s.waiters == 0) ≡ true
    → Kept w s (if v == w then 1 else 0) (finish s v verdict)
unfolding cleanup
finish-Kept w s v verdict h =
    let logged = log-accounted w v s verdict in (omega arith, (ground arith, ground arith))

stay-Kept :
    (w : ℕ) (s : RelayObject) (v : ℕ)
    → is_pending_row s.row ≡ true
    → IsAwaited s
    → Kept w s (if v == w then 1 else 0) (record s { waiters = s.waiters ++ (v ∷ []) })
stay-Kept w s v q i =
    let more = waiting-append w s.waiters (v ∷ []) in (omega arith, (ground arith, ground arith))

-- Nobody waits for a row that is not pending.
idle_row :
    (s : RelayObject) (r : RelayRow)
    → s.row ≡ some r
    → str_eq r.status "pending" ≡ false
    → IsAwaited s
    → (length s.waiters == 0) ≡ true
idle_row s r q h i = ground arith

settled_status :
    (status other : String)
    → str_eq other "pending" ≡ false
    → str_eq status other ≡ true
    → str_eq status "pending" ≡ false
settled_status status other h e = ap (λ t. str_eq t "pending") ((str_eq_iff status other).0 e) ∙ h

undecided-Kept :
    (w : ℕ) (s : RelayObject) (r : RelayRow) (v : ℕ)
    → s.row ≡ some r
    → IsAwaited s
    → Kept w s (if v == w then 1 else 0) (wait_on s r none v)
undecided-Kept w s r v q i =
    let Result : RelayObject → Type 0 = Kept w s (if v == w then 1 else 0) in
    if_cases Result (str_eq r.status "cancelled")
      (λ c.
        finish-Kept w s v cancelled (idle_row s r q (settled_status r.status "cancelled" refl c) i))
      (λ _.
        if_cases Result (not (str_eq r.status "pending"))
          (λ c. finish-Kept w s v not_found (idle_row s r q (ground arith) i))
          (λ p. stay-Kept w s v (ground arith) i))

wait_on-Kept :
    (w : ℕ) (s : RelayObject) (r : RelayRow) (a : Option String) (v : ℕ)
    → s.row ≡ some r
    → IsAwaited s
    → Kept w s (if v == w then 1 else 0) (wait_on s r a v)
wait_on-Kept w s r none v q i = undecided-Kept w s r v q i
wait_on-Kept w s r (some a) v q i =
    if_cases (Kept w s (if v == w then 1 else 0)) (str_eq r.status "answered")
      (λ c.
        finish-Kept w s v (answered a)
          (idle_row s r q (settled_status r.status "answered" refl c) i))
      (λ _. undecided-Kept w s r v q i)

wait-Kept :
    (w : ℕ) (s : RelayObject) (v now : ℕ)
    → is_regular s (waits v now) ≡ true
    → IsAwaited s
    → Kept w s (if v == w then 1 else 0) (wait s v now)
unfolding wait
wait-Kept w s v now g i = elim (Option-cases s.row) [
  | inl q ↦
      let logged = log-accounted w v s not_found in
      rw (q, wait) (omega arith, (ground arith, ground arith))
  | inr (r, q) ↦
      rw (q, wait)
        (if_cases (Kept w s (if v == w then 1 else 0)) (leb r.expires_at now)
          (λ late. finish-Kept w s v timeout (ground arith))
          (λ _. wait_on-Kept w s r r.answer v q i))
]

answer-Kept :
    (w : ℕ) (s : RelayObject) (a : String) (now : ℕ) → IsAwaited s → Kept w s 0 (answer s a now).1
unfolding answer resolve_waiters
answer-Kept w s a now i = elim (Option-cases s.row) [
  | inl q ↦ rw (q, answer) (omega arith, i)
  | inr (r, q) ↦
      let s' : RelayObject = record s {
        row = some (record r { status = "answered"; answer = some a });
      } in
      let same = resolve_waiters-accounted w s' (answered a) in
      rw (q, answer)
        (if_cases (λ (p : Bool × RelayObject). Kept w s 0 (p).1)
          (not (str_eq r.status "pending") || leb r.expires_at now) (λ _. (omega arith, i))
          (λ _. (omega arith, (refl, refl))))
]

step-Kept :
    (w : ℕ) (s : RelayObject) (e : Event)
    → is_regular s e ≡ true
    → IsAwaited s
    → Kept w s (calls_of w e) (step s e)
unfolding step prepare answer cancel alarm_fires resume cleanup resolve_waiters
step-Kept w s (prepares expires_at) g i = (ground arith, (ground arith, ground arith))
step-Kept w s (waits v now) g i = wait-Kept w s v now g i
step-Kept w s (answers a now) g i = answer-Kept w s a now i
step-Kept w s cancels g i =
    (ground (arith, resolve_waiters-accounted w s cancelled), (ground arith, ground arith))
step-Kept w s alarms g i =
    (ground (arith, resolve_waiters-accounted w s timeout), (ground arith, ground arith))
step-Kept w s resumes g i = (ground arith, (ground arith, ground arith))

run-Kept :
    (w : ℕ) (es : List Event) (s : RelayObject)
    → IsRegular s es
    → IsAwaited s
    → Kept w s (calls w es) (run s es)
unfolding run
run-Kept w [] s g i = (omega arith, i)
run-Kept w (e ∷ es) s g i =
    let (first, kept) = step-Kept w s e g.0 i in
    let (later, rest) = run-Kept w es (step s e) g.1 kept in (omega arith, rest)

nobody_waits : (ws : List ℕ) → (length ws == 0) ≡ true → ws ≡ []
nobody_waits [] h = refl
nobody_waits (x ∷ ws) h = ground (arith, ==_iff (suc (length ws)) 0)

alarm-waiters : (s : RelayObject) → IsAwaited s → (step s alarms).waiters ≡ []
unfolding step alarm_fires cleanup resolve_waiters
alarm-waiters s i = elim (Option-cases s.row) [
  | inl q ↦ rw q (nobody_waits s.waiters (ground arith))
  | inr (r, q) ↦ rw q refl
]

-- If no wait comes after the expiry while another waits, and the challenge is not prepared anew while a
-- resolved wait has not resumed, then after any events the alarm is set whenever someone waits, and once
-- it has fired every wait has been settled as often as it was called.
pub object_waits_settled :
    (es : List Event) (w : ℕ)
    → IsRegular new_object es
    → let s = run new_object es in
      ((length s.waiters == 0 || is_present s.alarm) ≡ true)
      × (settlements w (step s alarms).settled ≡ calls w es)
unfolding step
object_waits_settled es w g =
    let s = run new_object es in
    let (now, kept) = run-Kept w es new_object g (refl, refl) in
    let (after, _) = step-Kept w s alarms refl kept in
    let nobody : waiting w (step s alarms).waiters ≡ 0 = ap (waiting w) (alarm-waiters s kept) in
    (ground arith, omega arith)
