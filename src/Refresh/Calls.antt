-- ===== src/Refresh/Calls.antt =====
-- One rule for all methods of apps/worker/src/vnu/vnu-refresh-control-durable-object.ts: what every
-- transition keeps, every call keeps of the storage.
use hyeboard.Prelude.{
  ℕ, ◌≡◌, refl, ◌∙◌, ◌⊎◌, Outcome-cases, ap, subst, inl, inr, Bool, true, false, Option, none, some,
  arith, Outcome, ok, throw, ◌>>=◌, str_eq, Bool-cases, if_cases,
}
use hyeboard.Refresh.State.{LinkedPair, VnuRefreshControlState, clean_vnu_refresh_state}
use hyeboard.Refresh.Valid.{Fault, assert_linked_pair, parse_vnu_refresh_control_state}
use hyeboard.Refresh.Transitions.{
  Transition, activate_pair, begin_refresh, complete_refresh, abort_refresh, revoke_by_access,
  revoke_principal, check_access, collides, apply_activate_pair, apply_begin_refresh,
  apply_complete_refresh, apply_abort_refresh, apply_revoke_linked_pair_by_access,
  apply_revoke_principal_by_linked_grant, apply_check_access,
}
use hyeboard.Refresh.Store.{
  Storage, Answer, Call, activate, begin, check, revoke_access, revoke_grant, revoke_pair, complete,
  abort, alarm_fires, transition, sweep, mutate, commit, check_access_authoritatively, perform,
  storage_after, is_quiescent_vnu_refresh_state,
}
use hyeboard.Refresh.Cases.{Kept}
use hyeboard.Refresh.Parsed.{parsed_same}

-- What a rotation is checked for before the state is looked at.
pub record IsRotation (stored : Option VnuRefreshControlState) (old next : LinkedPair)
    : Type 0 where
  pub same_end : next.grant_expires_at ≡ old.grant_expires_at
  pub other_access : str_eq next.access_token_id old.access_token_id ≡ false
  pub other_grant : str_eq next.grant_id old.grant_id ≡ false
  pub no_collision : collides stored next ≡ false

-- Every transition from `stored` at `now` leaves a state of which `Q` holds, if it changes it and
-- activates only pairs that `C` admits.
pub record KeepsAll (Q : VnuRefreshControlState → Type 0) (C : LinkedPair → Type 0)
    (stored : Option VnuRefreshControlState) (now : ℕ) : Type 0 where
  pub by_activate :
      (q : LinkedPair) → assert_linked_pair q ≡ ok tt → C q → Kept Q (activate_pair stored q now)
  pub by_begin :
      (q : LinkedPair) → assert_linked_pair q ≡ ok tt → Kept Q (begin_refresh stored q now)
  pub by_complete :
      (old next : LinkedPair)
      → assert_linked_pair next ≡ ok tt
      → IsRotation stored old next
      → Kept Q (complete_refresh stored old next now)
  pub by_abort :
      (q : LinkedPair) (terminal : Bool)
      → assert_linked_pair q ≡ ok tt
      → Kept Q (abort_refresh stored q terminal now)
  pub by_access :
      (q : LinkedPair) → assert_linked_pair q ≡ ok tt → Kept Q (revoke_by_access stored q now)
  pub by_principal :
      (q : LinkedPair) → assert_linked_pair q ≡ ok tt → Kept Q (revoke_principal stored q now)
  pub by_cleaning : Q (clean_vnu_refresh_state stored now)

-- A rotation that returns has passed its checks.
pub apply_complete_refresh-IsRotation :
    (stored : Option VnuRefreshControlState) (old next : LinkedPair) (now : ℕ) (t : Transition)
    → apply_complete_refresh stored old next now ≡ ok t
    → (assert_linked_pair next ≡ ok tt)
      × IsRotation stored old next
      × (complete_refresh stored old next now ≡ t)
unfolding apply_complete_refresh
apply_complete_refresh-IsRotation stored old next now t h = ground arith

pub checked_pair :
    (m : Outcome Fault (Unit {0})) (u t : Transition)
    → (m >>= λ _. ok u) ≡ ok t
    → (m ≡ ok tt) × (u ≡ t)
checked_pair (ok tt) u t h = (refl, ground arith)
checked_pair (throw e) u t h = cc

check_access-state :
    (stored : Option VnuRefreshControlState) (q : LinkedPair) (now : ℕ) (t : Transition)
    → check_access stored q now ≡ t
    → clean_vnu_refresh_state stored now ≡ t.state
unfolding check_access
check_access-state stored q now t e = ap (λ (u : Transition). u.state) e

sweep-state :
    (stored : Option VnuRefreshControlState) (now : ℕ) (t : Transition)
    → sweep stored now ≡ ok t
    → clean_vnu_refresh_state stored now ≡ t.state
unfolding sweep
sweep-state stored now t h = ground arith

abbrev pub Admits : (LinkedPair → Type 0) → Call → Type 0
Admits C (activate q) = C q
Admits C _ = Unit

module _ (Q : VnuRefreshControlState → Type 0) (C : LinkedPair → Type 0)
    (stored : Option VnuRefreshControlState) (now : ℕ) (keeps : KeepsAll Q C stored now) where
  pub transition_rule :
      (call : Call) (t : Transition) → Admits C call → transition call stored now ≡ ok t → Kept Q t
  unfolding transition apply_activate_pair apply_begin_refresh apply_abort_refresh
      apply_revoke_linked_pair_by_access apply_revoke_principal_by_linked_grant apply_check_access
  transition_rule (activate q) t c h =
      let (a, e) = checked_pair (assert_linked_pair q) _ t h in
      subst (Kept Q) e (keeps.by_activate q a c)
  transition_rule (begin q) t c h =
      let (a, e) = checked_pair (assert_linked_pair q) _ t h in
      subst (Kept Q) e (keeps.by_begin q a)
  transition_rule (check q) t c h =
      let (a, e) = checked_pair (assert_linked_pair q) _ t h in
      record { kept = λ _. subst Q (check_access-state stored q now t e) keeps.by_cleaning }
  transition_rule (revoke_access q) t c h =
      let (a, e) = checked_pair (assert_linked_pair q) _ t h in
      subst (Kept Q) e (keeps.by_access q a)
  transition_rule (revoke_grant q) t c h =
      let (a, e) = checked_pair (assert_linked_pair q) _ t h in
      subst (Kept Q) e (keeps.by_principal q a)
  transition_rule (revoke_pair q) t c h =
      let (a, e) = checked_pair (assert_linked_pair q) _ t h in
      subst (Kept Q) e (keeps.by_access q a)
  transition_rule (complete q r) t c h =
      let (a, b, e) = apply_complete_refresh-IsRotation stored q r now t h in
      subst (Kept Q) e (keeps.by_complete q r a b)
  transition_rule (abort q terminal) t c h =
      let (a, e) = checked_pair (assert_linked_pair q) _ t h in
      subst (Kept Q) e (keeps.by_abort q terminal a)
  transition_rule alarm_fires t c h = record {
    kept = λ _. subst Q (sweep-state stored now t h) keeps.by_cleaning;
  }

-- `P` holds of what is stored if `Q` does of every state that is put, `none` being the deleted one.
pub record Stores (Q : VnuRefreshControlState → Type 0) (P : Option VnuRefreshControlState → Type 0)
    : Type 0 where
  pub put : (s : VnuRefreshControlState) → Q s → P (some s)
  pub deleted :
      (s : VnuRefreshControlState) → is_quiescent_vnu_refresh_state s ≡ true → Q s → P none

pub mutate_cases :
    (f : Option VnuRefreshControlState → ℕ → Outcome Fault Transition) (storage : Storage) (now : ℕ)
    → ((e : Fault) × (mutate f storage now ≡ throw e))
      ⊎ ((t : Transition) × (parse_vnu_refresh_control_state storage.state ≡ ok storage.state)
          × (f storage.state now ≡ ok t)
          × (mutate f storage now ≡ ok (record { reply = t.result; storage = commit storage t })))
unfolding mutate
mutate_cases f storage now = elim (Outcome-cases (parse_vnu_refresh_control_state storage.state)) [
  | inr (e, p) ↦ inl (e, rw (p, mutate))
  | inl (s, p) ↦
      let same = parsed_same storage.state s p in
      let p' : parse_vnu_refresh_control_state storage.state ≡ ok storage.state = p ∙ ap ok same in
      elim (Outcome-cases (f storage.state now)) [
        | inr (e, r) ↦ inl (e, rw (p', mutate, r))
        | inl (t, r) ↦ inr (t, p', r, rw (p', mutate, r))
      ]
]

-- A transaction that returns, taken apart.
pub mutate_ok :
    (f : Option VnuRefreshControlState → ℕ → Outcome Fault Transition) (storage : Storage) (now : ℕ)
    (a : Answer)
    → mutate f storage now ≡ ok a
    → (t : Transition) × (parse_vnu_refresh_control_state storage.state ≡ ok storage.state)
      × (f storage.state now ≡ ok t)
      × (a.reply ≡ t.result)
      × (commit storage t ≡ a.storage)
mutate_ok f storage now a h = elim (mutate_cases f storage now) [
  | inl (e, m) ↦ cc
  | inr (t, v, r, m) ↦ (t, v, r, ground arith, ground arith)
]

-- With no other call between them, the first read and the transaction of a check make one
-- transaction of `applyCheckAccess`.
pub check-mutate :
    (storage : Storage) (p : LinkedPair) (now : ℕ)
    → perform (check p) storage now ≡ mutate (transition (check p)) storage now
unfolding perform transition check_access_authoritatively mutate commit
check-mutate storage p now = elim (Outcome-cases (parse_vnu_refresh_control_state storage.state)) [
  | inr (e, v) ↦ ground arith
  | inl (s, v) ↦
      let same = parsed_same storage.state s v in
      let v' : parse_vnu_refresh_control_state storage.state ≡ ok storage.state = v ∙ ap ok same in
      elim (Outcome-cases (apply_check_access storage.state p now)) [
        | inr (e, c) ↦ ground arith
        | inl (t, c) ↦ ground arith
      ]
]

module _ (Q : VnuRefreshControlState → Type 0) (C : LinkedPair → Type 0)
    (P : Option VnuRefreshControlState → Type 0) (stores : Stores Q P) where
  commit_rule :
      (storage : Storage) (t : Transition) → Kept Q t → P storage.state → P (commit storage t).state
  unfolding commit
  commit_rule storage t k h = elim (Bool-cases t.changed) [
    | inr e ↦ rw (e, commit) h
    | inl e ↦
        rw (e, commit)
          (if_cases P (is_quiescent_vnu_refresh_state t.state)
            (λ quiet. stores.deleted t.state quiet (k.kept e)) (λ _. stores.put t.state (k.kept e)))
  ]

  mutate_rule :
      (f : Option VnuRefreshControlState → ℕ → Outcome Fault Transition) (storage : Storage)
      (now : ℕ)
      → (parse_vnu_refresh_control_state storage.state ≡ ok storage.state
          → (t : Transition) → f storage.state now ≡ ok t
          → Kept Q t)
      → P storage.state
      → P (storage_after storage (mutate f storage now)).state
  mutate_rule f storage now k h = elim (mutate_cases f storage now) [
    | inl (e, m) ↦ rw m h
    | inr (t, v, r, m) ↦ rw m (commit_rule storage t (k v t r) h)
  ]

  -- A call keeps `P` of the storage, if the transitions from what is stored keep `Q`.
  pub perform_rule :
      (storage : Storage) (now : ℕ)
      → (parse_vnu_refresh_control_state storage.state ≡ ok storage.state
          → KeepsAll Q C storage.state now)
      → (call : Call) → Admits C call
      → P storage.state
      → P (storage_after storage (perform call storage now)).state
  unfolding perform
  perform_rule storage now keeps (check p) c h = rw (check-mutate storage p now) (
      mutate_rule _ storage now
        (λ v t. transition_rule Q C storage.state now (keeps v) (check p) t c) h)
  perform_rule storage now keeps (activate p) c h =
      mutate_rule _ storage now
        (λ v t. transition_rule Q C storage.state now (keeps v) (activate p) t c) h
  perform_rule storage now keeps (begin p) c h =
      mutate_rule _ storage now
        (λ v t. transition_rule Q C storage.state now (keeps v) (begin p) t c) h
  perform_rule storage now keeps (revoke_access p) c h =
      mutate_rule _ storage now
        (λ v t. transition_rule Q C storage.state now (keeps v) (revoke_access p) t c) h
  perform_rule storage now keeps (revoke_grant p) c h =
      mutate_rule _ storage now
        (λ v t. transition_rule Q C storage.state now (keeps v) (revoke_grant p) t c) h
  perform_rule storage now keeps (revoke_pair p) c h =
      mutate_rule _ storage now
        (λ v t. transition_rule Q C storage.state now (keeps v) (revoke_pair p) t c) h
  perform_rule storage now keeps (complete p q) c h =
      mutate_rule _ storage now
        (λ v t. transition_rule Q C storage.state now (keeps v) (complete p q) t c) h
  perform_rule storage now keeps (abort p b) c h =
      mutate_rule _ storage now
        (λ v t. transition_rule Q C storage.state now (keeps v) (abort p b) t c) h
  perform_rule storage now keeps alarm_fires c h =
      mutate_rule _ storage now
        (λ v t. transition_rule Q C storage.state now (keeps v) alarm_fires t c) h
