-- ===== src/Budget/Abandoned.antt =====
-- apps/worker/src/vnu/vnu-probe-budget.ts: `acquireBrc1Permit` under a signal that aborts, where the
-- caller has gone before the reply and the permit is released behind its back.
use hyeboard.Prelude.{
  ℕ, ◌≤◌, ◌≡◌, refl, ◌∙◌, ap, inl, inr, true, not, [], ◌∷◌, none, String, arith, Dict, lookup,
  erase, keep, lookup-erase, lookup-keep-none, Option-cases, Outcome, ok, throw, if◌then◌else◌,
  str_eq_iff, is_hex, Outcome-cases, Rpc, answered, is_sent, put, put_self,
}
use hyeboard.Budget.Store.{
  BudgetStore, Fault, granted, busy, parse_stored_permits, acquire, release, acquire_brc1_permit,
  release_brc1_permit, step, active_leases, is_live_lease, reschedule_alarm,
}
use hyeboard.Budget.Coordinator.{
  Rejection, aborted, invalid_identity, Response, done, permit, lease, Namespace, coordinate,
}

-- When the signal aborts: never, before the method is called, or before the reply is there.
pub data Signal : Type 0 where
  never_aborts already_aborted aborts_meanwhile : Signal

-- What the coordinator still does for an abandoned call when its reply comes, at the instant `at`:
-- a granted permit is released, by a call of which `rpc` says what becomes.
abbrev pub settle_abandoned : Outcome Rejection Response → Rpc → Namespace → String → ℕ → Namespace
settle_abandoned (ok (permit id expires_at)) rpc ns key at =
    (coordinate rpc ns key (release id) at).1
settle_abandoned (ok done) rpc ns key at = ns
settle_abandoned (ok (lease id n e)) rpc ns key at = ns
settle_abandoned (throw e) rpc ns key at = ns

unfoldable pub acquire_brc1_permit_under :
    Signal
    → Rpc
    → Rpc
    → Namespace
    → String
    → String
    → ℕ
    → ℕ
    → Outcome Rejection Response × Namespace
acquire_brc1_permit_under never_aborts rpc rpc' ns key id now at =
    coordinate rpc ns key (acquire id) now
acquire_brc1_permit_under already_aborted rpc rpc' ns key id now at =
    (throw (if is_hex 64 key then aborted else invalid_identity), ns)
acquire_brc1_permit_under aborts_meanwhile rpc rpc' ns key id now at =
    let (reply, after) = coordinate rpc ns key (acquire id) now in
    if not (is_hex 64 key)
    then (throw invalid_identity, after)
    else (throw aborted, settle_abandoned reply rpc' after key at)

-- What is not live at an instant is not live later.
keep-weaker :
    (id : String) (at t : ℕ) (m : Dict ℕ)
    → at ≤ t
    → lookup id (keep (is_live_lease at) m) ≡ none
    → lookup id (keep (is_live_lease t) m) ≡ none
unfolding lookup keep
keep-weaker id at t [] l e = refl
keep-weaker id at t ((k, v) ∷ m) l e = ground (arith, keep-weaker id at t m l)

-- A lease that is released is not live from then on.
release-active_leases :
    (s : BudgetStore) (id : String) (at t : ℕ) (s' : BudgetStore)
    → at ≤ t
    → is_hex 32 id ≡ true
    → release_brc1_permit s id at ≡ ok s'
    → lookup id (active_leases s'.permits t) ≡ none
unfolding release_brc1_permit reschedule_alarm active_leases
release-active_leases s id at t s' l h e =
    let live = keep (is_live_lease at) s.permits in
    let gone : lookup id (erase id live) ≡ none =
      ground (arith, lookup-erase id id live, str_eq_iff id id) in
    elim (Option-cases (lookup id live)) [
      | inl q ↦ ground (arith, keep-weaker id at t s.permits l q)
      | inr (v, q) ↦ ground (arith, lookup-keep-none (is_live_lease t) id (erase id live) gone)
    ]

-- The release of a permit that was granted does not throw.
granted_releases :
    (s s' : BudgetStore) (id id' : String) (now n at : ℕ)
    → acquire_brc1_permit s id now ≡ ok (granted id' n, s')
    → (e : Fault) → release_brc1_permit s' id at ≡ throw e
    → ⊥
unfolding acquire_brc1_permit release_brc1_permit reschedule_alarm parse_stored_permits
granted_releases s s' id id' now n at a e r = ground arith

-- A granted permit has the identifier drawn for it, and a refused one changes nothing.
acquire-granted :
    (s s' : BudgetStore) (id id' : String) (now n : ℕ)
    → acquire_brc1_permit s id now ≡ ok (granted id' n, s')
    → id' ≡ id
unfolding acquire_brc1_permit reschedule_alarm
acquire-granted s s' id id' now n e = ground arith

acquire-busy :
    (s s' : BudgetStore) (id : String) (now n : ℕ)
    → acquire_brc1_permit s id now ≡ ok (busy n, s')
    → s' ≡ s
unfolding acquire_brc1_permit reschedule_alarm
acquire-busy s s' id now n e = ground arith

fresh_not_live :
    (s : BudgetStore) (id : String) (t : ℕ)
    → lookup id s.permits ≡ none
    → lookup id (active_leases s.permits t) ≡ none
unfolding active_leases
fresh_not_live s id t h = lookup-keep-none (is_live_lease t) id s.permits h

released-store :
    (rpc : Rpc) (ns : Namespace) (key id : String) (at : ℕ) (s' : BudgetStore)
    → is_hex 64 key ≡ true
    → is_hex 32 id ≡ true
    → is_sent rpc ≡ true
    → release_brc1_permit (ns key) id at ≡ ok s'
    → (coordinate rpc ns key (release id) at).1 key ≡ s'
unfolding coordinate step
released-store rpc ns key id at s' k h sent r = rw (k, h, sent, r) (put_self ns key s')

-- A call abandoned while it runs throws the abort, and once its reply has come and the release that
-- this causes has reached the object, at `at`, no permit of that call is live, then or later: also if the
-- object refused the permit, or failed. (The session and the drawn identifier are well formed, and the
-- identifier is not in the table.)
pub abandoned_permit_released :
    (rpc : Rpc) (ns : Namespace) (key id : String) (now at t : ℕ)
    → is_hex 64 key ≡ true
    → is_hex 32 id ≡ true
    → is_sent rpc ≡ true
    → lookup id (ns key).permits ≡ none
    → at ≤ t
    → let r = acquire_brc1_permit_under aborts_meanwhile answered rpc ns key id now at in
      (r.0 ≡ throw aborted) × (lookup id (active_leases (r.1 key).permits t) ≡ none)
unfolding acquire_brc1_permit_under coordinate step
abandoned_permit_released rpc ns key id now at t k h sent fresh l =
    let idle = fresh_not_live (ns key) id t fresh in
    elim (Outcome-cases (acquire_brc1_permit (ns key) id now)) [
      | inr (e, q) ↦ rw (k, q, put_self ns key (ns key)) (refl, idle)
      | inl ((busy n, s'), q) ↦
          rw (k, q, put_self ns key s', acquire-busy (ns key) s' id now n q) (refl, idle)
      | inl ((granted id' n, s'), q) ↦
          let same = acquire-granted (ns key) s' id id' now n q in
          let after = put ns key s' in
          elim (Outcome-cases (release_brc1_permit s' id at)) [
            | inr (e, r) ↦ elim (granted_releases (ns key) s' id id' now n at q e r) [ ]
            | inl (s'', r) ↦
                let gone = release-active_leases s' id at t s'' l h r in
                let stored =
                  released-store rpc after key id at s'' k h sent
                    (ap (λ x. release_brc1_permit x id at) (put_self ns key s') ∙ r) in
                rw (k, q, same, stored) (refl, gone)
          ]
    ]
