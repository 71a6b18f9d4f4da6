-- ===== src/Captcha/Cloudflare.antt =====
-- apps/worker/src/captcha/captcha-relay-cloudflare.ts: `DurableObjectCaptchaRelayCoordinator`, over a
-- namespace with one object for each identifier.
use hyeboard.Prelude.{
  ◌*◌, if_cases, ◌≢◌, subst, ℕ, zero, suc, ◌+◌, ◌≡◌, refl, ◌∙◌, sym, ap, Bool, true, false, Option,
  none, some, String, arith, Outcome, ok, throw, if◌then◌else◌, str_eq, str_eq_iff, put, put_self,
}
use hyeboard.Captcha.Local.{Verdict, answered, timeout, cancelled, not_found}
use hyeboard.Captcha.Object.{RelayObject, prepare, answer, cancel, wait}

pub data RelayError : Type 0 where
  challenge_not_found captcha_timeout captcha_cancelled relay_failed : RelayError

abbrev pub Namespace : Type 0
Namespace = String → RelayObject

-- `CAPTCHA_RELAY_TIMEOUT_MS`
abbrev pub captcha_relay_timeout_ms : ℕ
captcha_relay_timeout_ms = 2 * 60000

-- `prepare` from the identifier `create_id drawn` on, with the attempts that are left.
unfoldable pub attempt :
    ℕ → (ℕ → String) → ℕ → Namespace → ℕ → Outcome RelayError String × Namespace
attempt zero create_id drawn ns expires_at = (throw relay_failed, ns)
attempt (suc left) create_id drawn ns expires_at =
    let (accepted, s) = prepare (ns (create_id drawn)) expires_at in
    let rest = attempt left create_id (suc drawn) (put ns (create_id drawn) s) expires_at in
    if accepted then (ok (create_id drawn), put ns (create_id drawn) s) else rest

unfoldable pub prepare_relay :
    (ℕ → String) → ℕ → Namespace → ℕ → ℕ → Outcome RelayError String × Namespace
prepare_relay create_id drawn ns now timeout_ms = attempt 3 create_id drawn ns (now + timeout_ms)

unfoldable pub answer_relay :
    Namespace → String → String → ℕ → Outcome RelayError (Unit {0}) × Namespace
answer_relay ns id a now =
    let (accepted, s) = answer (ns id) a now in
    ((if accepted then ok tt else throw challenge_not_found), put ns id s)

-- What a wait returns of the object's result.
unfoldable pub unwrap : Verdict → Outcome RelayError String
unwrap (answered a) = ok a
unwrap timeout = throw captcha_timeout
unwrap cancelled = throw captcha_cancelled
unwrap not_found = throw challenge_not_found

-- `wait`, as the wait `w` of the object: with a signal that has aborted the challenge is cancelled and the
-- call throws at once; otherwise the object's result, through `unwrap`, races against the abort.
unfoldable pub start_wait : Bool → Namespace → String → ℕ → ℕ → Option RelayError × Namespace
start_wait true ns id w now = (some captcha_cancelled, put ns id (cancel (ns id)).1)
start_wait false ns id w now = (none, put ns id (wait (ns id) w now))

unfoldable pub abort_wait : Namespace → String → RelayError × Namespace
abort_wait ns id = (captcha_cancelled, put ns id (cancel (ns id)).1)

-- An object that is in use refuses, and keeps its state.
prepare-refused :
    (s : RelayObject) (expires_at : ℕ)
    → (prepare s expires_at).0 ≡ false
    → (prepare s expires_at).1 ≡ s
unfolding prepare
prepare-refused s expires_at h = ground arith

prepare-accepted :
    (s : RelayObject) (expires_at : ℕ)
    → (prepare s expires_at).0 ≡ true
    → (s.row ≡ none) × ((prepare s expires_at).1.alarm ≡ some expires_at)
unfolding prepare
prepare-accepted s expires_at h = (ground arith, ground arith)

put_back : (ns : Namespace) (id : String) (s : RelayObject) → s ≡ ns id → put ns id s ≡ ns
put_back ns id s e i k = put_same k i
  where
    put_same : (k : String) → put ns id s k ≡ ns k
    put_same k =
        if_cases (λ x. x ≡ ns k) (str_eq id k) (λ same. e ∙ ap ns ((str_eq_iff id k).0 same))
          (λ _. refl)

put_other :
    (ns : Namespace) (id : String) (s : RelayObject) (k : String) → k ≢ id → put ns id s k ≡ ns k
put_other ns id s k apart =
    if_cases (λ x. x ≡ ns k) (str_eq id k)
      (λ same. elim (apart (sym ((str_eq_iff id k).0 same))) [ ]) (λ _. refl)

-- What an attempt to prepare leaves: the new challenge in an object that was empty and whose alarm is
-- set, and every other object as it was; or all of them as they were.
abbrev pub Prepared : ℕ → Namespace → Outcome RelayError String → Namespace → Type 0
Prepared expires_at ns (ok id) ns' =
    ((ns id).row ≡ none)
    × ((ns' id).alarm ≡ some expires_at)
    × ((k : String) → k ≢ id → ns' k ≡ ns k)
Prepared expires_at ns (throw e) ns' = (e ≡ relay_failed) × (ns' ≡ ns)

attempt-Prepared :
    (left : ℕ) (create_id : ℕ → String) (drawn : ℕ) (ns : Namespace) (expires_at : ℕ)
    → let r = attempt left create_id drawn ns expires_at in Prepared expires_at ns (r.0) (r.1)
unfolding attempt
attempt-Prepared zero f drawn ns e = (refl, refl)
attempt-Prepared (suc left) f drawn ns e =
    let id : String = f drawn in
    let after = put ns id (prepare (ns id) e).1 in
    let rest = attempt-Prepared left f (suc drawn) after e in
    if_cases (λ (r : Outcome RelayError String × Namespace). Prepared e ns (r.0) (r.1))
      (prepare (ns id) e).0
      (λ accepted.
        let (empty, armed) = prepare-accepted (ns id) e accepted in
        (
          empty,
          ap (λ s. s.alarm) (put_self ns id (prepare (ns id) e).1) ∙ armed,
          put_other ns id (prepare (ns id) e).1,
        ))
      (λ refused.
        let same = put_back ns id (prepare (ns id) e).1 (prepare-refused (ns id) e refused) in
        subst
          (λ m.
            Prepared e m (attempt left f (suc drawn) after e).0
              (attempt left f (suc drawn) after e).1)
          same rest)

-- Preparing a challenge takes at most three draws, and ends with one of two outcomes: an identifier whose
-- object was empty, and which now has its alarm set at the end of the time allowed, while all other
-- objects stay as they were; or the failure, with every object as it was.
pub prepare_relay-Prepared :
    (create_id : ℕ → String) (drawn : ℕ) (ns : Namespace) (now timeout_ms : ℕ)
    → let r = prepare_relay create_id drawn ns now timeout_ms in
      Prepared (now + timeout_ms) ns (r.0) (r.1)
unfolding prepare_relay
prepare_relay-Prepared f drawn ns now timeout_ms = attempt-Prepared 3 f drawn ns (now + timeout_ms)
