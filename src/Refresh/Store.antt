-- ===== src/Refresh/Store.antt =====
-- The storage of one principal: `nextVnuRefreshAlarm`, `isQuiescentVnuRefreshState` and
-- `checkAccessAuthoritatively` of apps/worker/src/vnu/vnu-refresh-control.ts, and the class of
-- apps/worker/src/vnu/vnu-refresh-control-durable-object.ts. A call is one storage transaction at
-- the instant `now`; a call that throws leaves the storage as it was.
use hyeboard.Prelude.{
  ℕ, Bool, true, false, ◌&&◌, not, Option, none, some, List, [], ◌∷◌, ◌++◌, map, ltb, ◌==◌, minimum,
  values, if◌then◌else◌, Outcome, ok, throw, ◌>>=◌,
}
use hyeboard.Refresh.State.{
  LinkedPair, RefreshLease, RefreshWindow, VnuRefreshControlState, grant_tombstone_expires_at,
  is_some, clean_vnu_refresh_state,
}
use hyeboard.Refresh.Valid.{Fault, parse_vnu_refresh_control_state, same_vnu_refresh_state}
use hyeboard.Refresh.Transitions.{
  Reply, done, Transition, apply_activate_pair, apply_begin_refresh, apply_complete_refresh,
  apply_abort_refresh, apply_revoke_linked_pair_by_access, apply_revoke_principal_by_linked_grant,
  apply_check_access,
}

abbrev pub active_expiry : Option LinkedPair → List ℕ
active_expiry none = []
active_expiry (some p) = p.grant_expires_at ∷ []

abbrev pub lease_expiry : Option RefreshLease → List ℕ
lease_expiry none = []
lease_expiry (some l) = l.expires_at ∷ []

abbrev pub window_expiry : RefreshWindow → List ℕ
window_expiry w = if ltb 0 w.count then w.reset_at ∷ [] else []

abbrev pub activation_expiry : Option RefreshWindow → List ℕ
activation_expiry none = []
activation_expiry (some w) = window_expiry w

-- The instants at which something of the state ends.
unfoldable pub expiries : VnuRefreshControlState → List ℕ
expiries s =
    values s.revoked_access
    ++ (map grant_tombstone_expires_at (values s.revoked_grants)
        ++ (active_expiry s.active
            ++ (lease_expiry s.lease
                ++ (window_expiry s.window ++ activation_expiry s.activation_window))))

unfoldable pub next_vnu_refresh_alarm : VnuRefreshControlState → Option ℕ
unfolding expiries
next_vnu_refresh_alarm s = minimum (expiries s)

abbrev pub is_empty {ℓ} : {A : Type ℓ} → List A → Bool
is_empty [] = true
is_empty (x ∷ xs) = false

unfoldable pub is_quiescent_vnu_refresh_state : VnuRefreshControlState → Bool
is_quiescent_vnu_refresh_state s =
    not (is_some s.active)
    && not (is_some s.lease)
    && is_empty s.revoked_access
    && is_empty s.revoked_grants
    && s.window.count == 0
    && not (is_some s.activation_window)

pub record Storage : Type 0 where
  pub state : Option VnuRefreshControlState
  pub alarm : Option ℕ

-- What follows a transition in its transaction: nothing if it changed nothing; else the state is
-- put, or deleted if nothing is left in it, and the alarm is set or deleted.
unfoldable pub commit : Storage → Transition → Storage
commit storage t =
    if t.changed
    then record {
      state = if is_quiescent_vnu_refresh_state t.state then none else some t.state;
      alarm = next_vnu_refresh_alarm t.state;
    }
    else storage

pub record Answer : Type 0 where
  pub reply : Reply
  pub storage : Storage

unfoldable pub mutate :
    (Option VnuRefreshControlState → ℕ → Outcome Fault Transition)
    → Storage
    → ℕ
    → Outcome Fault Answer
mutate transition storage now = do
  stored ← parse_vnu_refresh_control_state storage.state
  output ← transition stored now
  ok (record { reply = output.result; storage = commit storage output })

-- The alarm's transition.
unfoldable pub sweep : Option VnuRefreshControlState → ℕ → Outcome Fault Transition
sweep stored now =
    let next = clean_vnu_refresh_state stored now in
    ok (record {
      state = next;
      result = done;
      changed = is_some stored && not (same_vnu_refresh_state stored next);
    })

-- `read` is what the first read saw, before the transaction.
unfoldable pub check_access_authoritatively :
    Option VnuRefreshControlState → LinkedPair → Storage → ℕ → Outcome Fault Answer
unfolding mutate
check_access_authoritatively read access storage now = do
  stored ← parse_vnu_refresh_control_state read
  checked ← apply_check_access stored access now
  if checked.changed
      then mutate (λ s at. apply_check_access s access at) storage now
      else ok (record { reply = checked.result; storage = storage })

pub data Call : Type 0 where
  activate begin check revoke_access revoke_grant revoke_pair : LinkedPair → Call
  complete : LinkedPair → LinkedPair → Call
  abort : LinkedPair → Bool → Call
  alarm_fires : Call

-- `applyRevokeExactLinkedPair` is `applyRevokeLinkedPairByAccess`.
unfoldable pub transition : Call → Option VnuRefreshControlState → ℕ → Outcome Fault Transition
transition (activate p) stored now = apply_activate_pair stored p now
transition (begin p) stored now = apply_begin_refresh stored p now
transition (check p) stored now = apply_check_access stored p now
transition (revoke_access p) stored now = apply_revoke_linked_pair_by_access stored p now
transition (revoke_grant p) stored now = apply_revoke_principal_by_linked_grant stored p now
transition (revoke_pair p) stored now = apply_revoke_linked_pair_by_access stored p now
transition (complete old next) stored now = apply_complete_refresh stored old next now
transition (abort p terminal) stored now = apply_abort_refresh stored p terminal now
transition alarm_fires stored now = sweep stored now

-- A method of the durable object. Its first read and its transaction see the same storage.
unfoldable pub perform : Call → Storage → ℕ → Outcome Fault Answer
perform (activate p) storage now = mutate (transition (activate p)) storage now
perform (begin p) storage now = mutate (transition (begin p)) storage now
perform (check p) storage now = check_access_authoritatively storage.state p storage now
perform (revoke_access p) storage now = mutate (transition (revoke_access p)) storage now
perform (revoke_grant p) storage now = mutate (transition (revoke_grant p)) storage now
perform (revoke_pair p) storage now = mutate (transition (revoke_pair p)) storage now
perform (complete old next) storage now = mutate (transition (complete old next)) storage now
perform (abort p terminal) storage now = mutate (transition (abort p terminal)) storage now
perform alarm_fires storage now = mutate (transition alarm_fires) storage now

abbrev pub storage_after : Storage → Outcome Fault Answer → Storage
storage_after storage (ok a) = a.storage
storage_after storage (throw e) = storage

-- A history of calls, each at its instant.
unfoldable pub run : Storage → List (ℕ × Call) → Storage
run storage [] = storage
run storage ((now, call) ∷ rest) = run (storage_after storage (perform call storage now)) rest
