-- ===== src/Refresh/Transitions.antt =====
-- apps/worker/src/vnu/vnu-refresh-control.ts: the transitions, functions of the stored state and
-- the instant `now`. A transition gives the new state, the caller's result, and whether the state
-- differs from the stored one.
use hyeboard.Prelude.{
  ℕ, ◌+◌, Bool, false, ◌&&◌, ◌||◌, not, true, false, Option, none, some, ltb, leb, ◌==◌, min,
  if◌then◌else◌, lookup, insert, Outcome, ok, ◌>>◌, ensure, retry_after_seconds, str_eq,
}
use hyeboard.Refresh.State.{
  LinkedPair, RefreshLease, RefreshWindow, VnuRefreshControlState, vnu_refresh_attempt_limit,
  vnu_manual_activation_limit, vnu_manual_activation_window_seconds,
  vnu_manual_activation_window_ms, vnu_refresh_lease_ms, linked_grant_tombstone,
  refresh_successor_grant_tombstone, exactly_links_grant_tombstone, refresh_successor, same_pair,
  lease_covers, lease_expires_at, is_truthy_expiry, is_truthy_tombstone, is_some, or_empty,
  clean_vnu_refresh_state, revoke_exact,
}
use hyeboard.Refresh.Valid.{
  Fault, grant_expiry_changed, rotation_identifiers, rotation_collision, assert_linked_pair,
  same_vnu_refresh_state,
}

-- The results of all operations; each gives those of its own type in the source. `rate_limited`
-- has the seconds to wait, the limit and the seconds of the window.
pub data Reply : Type 0 where
  activated completed aborted revoked mismatch expired is_active done : Reply
  accepted : ℕ → Reply
  in_progress : ℕ → Reply
  rate_limited : ℕ → ℕ → ℕ → Reply

-- The caller may use the pair, or refresh it.
abbrev pub is_grant : Reply → Bool
is_grant is_active = true
is_grant (accepted n) = true
is_grant _ = false

pub record Transition : Type 0 where
  pub state : VnuRefreshControlState
  pub result : Reply
  pub changed : Bool

module _ (stored : Option VnuRefreshControlState) where
  unfoldable pub unchanged : ℕ → Reply → Transition
  unchanged now reply = record { state = or_empty stored now; result = reply; changed = false }

  unfoldable pub changed : VnuRefreshControlState → Reply → Transition
  changed s reply = record {
    state = s;
    result = reply;
    changed = not (same_vnu_refresh_state stored s);
  }

-- `state.active && !samePair(state.active, pair) ? revokeExact(state, state.active) : state`
unfoldable pub replace_old :
    Option LinkedPair → VnuRefreshControlState → LinkedPair → VnuRefreshControlState
replace_old none s p = s
replace_old (some old) s p =
    if same_pair (some old) p then s else revoke_exact s old (linked_grant_tombstone old)

unfoldable pub replace_active : VnuRefreshControlState → LinkedPair → VnuRefreshControlState
unfolding replace_old
replace_active s p = replace_old s.active s p

unfoldable pub next_activation_window : Option RefreshWindow → ℕ → RefreshWindow
next_activation_window none now = record {
  count = 1;
  reset_at = now + vnu_manual_activation_window_ms;
}
next_activation_window (some w) now = record w { count = w.count + 1 }

abbrev pub activation_count : Option RefreshWindow → ℕ
activation_count none = 0
activation_count (some w) = w.count

abbrev pub activation_reset_at : Option RefreshWindow → ℕ
activation_reset_at none = 0
activation_reset_at (some w) = w.reset_at

abbrev pub stored_active : Option VnuRefreshControlState → Option LinkedPair
stored_active none = none
stored_active (some s) = s.active

abbrev pub stored_lease : Option VnuRefreshControlState → Option RefreshLease
stored_lease none = none
stored_lease (some s) = s.lease

-- `{ ...replaced, active: pair, lease: undefined, activationWindow }`
unfoldable pub activated_state : VnuRefreshControlState → LinkedPair → ℕ → VnuRefreshControlState
unfolding replace_active next_activation_window
activated_state s p now = record (replace_active s p) {
  active = some p;
  lease = none;
  activation_window = some (next_activation_window s.activation_window now);
}

unfoldable pub activate_pair : Option VnuRefreshControlState → LinkedPair → ℕ → Transition
unfolding unchanged
activate_pair stored p now =
    let s = clean_vnu_refresh_state stored now in
    if same_pair (stored_active stored) p && not (is_some (stored_lease stored))
    then unchanged stored now activated
    else if leb vnu_manual_activation_limit (activation_count s.activation_window)
    then unchanged stored now (
        rate_limited (retry_after_seconds (activation_reset_at s.activation_window) now)
          vnu_manual_activation_limit vnu_manual_activation_window_seconds)
    else changed stored (activated_state s p now) activated

unfoldable pub apply_activate_pair :
    Option VnuRefreshControlState → LinkedPair → ℕ → Outcome Fault Transition
apply_activate_pair stored p now = do assert_linked_pair p; ok (activate_pair stored p now)

-- `{ ...state, lease: { pair, expiresAt }, window: { ...state.window, count: count + 1 } }`
unfoldable pub leased_state : VnuRefreshControlState → LinkedPair → ℕ → VnuRefreshControlState
leased_state s p lease_end = record s {
  lease = some (record { pair = p; expires_at = lease_end });
  window = record { count = s.window.count + 1; reset_at = s.window.reset_at };
}

unfoldable pub begin_refresh : Option VnuRefreshControlState → LinkedPair → ℕ → Transition
unfolding unchanged
begin_refresh stored p now =
    let s = clean_vnu_refresh_state stored now in
    let lease_end = min (now + vnu_refresh_lease_ms) p.grant_expires_at in
    if leb p.grant_expires_at now
      || is_truthy_expiry (lookup p.access_token_id s.revoked_access)
      || is_truthy_tombstone (lookup p.grant_id s.revoked_grants)
      || not (same_pair s.active p)
    then unchanged stored now revoked
    else if lease_covers s.lease p
    then unchanged stored now (in_progress (retry_after_seconds (lease_expires_at s.lease) now))
    else if leb vnu_refresh_attempt_limit s.window.count
    then unchanged stored now (rate_limited (retry_after_seconds s.window.reset_at now) 5 900)
    else changed stored (leased_state s p lease_end) (accepted lease_end)

unfoldable pub apply_begin_refresh :
    Option VnuRefreshControlState → LinkedPair → ℕ → Outcome Fault Transition
apply_begin_refresh stored p now = do assert_linked_pair p; ok (begin_refresh stored p now)

-- `stored?.revokedAccess[id] !== undefined || stored?.revokedGrants[id] !== undefined`
abbrev pub collides : Option VnuRefreshControlState → LinkedPair → Bool
collides none next = false
collides (some s) next =
    is_some (lookup next.access_token_id s.revoked_access)
    || is_some (lookup next.grant_id s.revoked_grants)

-- `{ ...revokeExact(state, old, refreshSuccessorGrantTombstone(old, next)), active: next }`
unfoldable pub rotated_state :
    VnuRefreshControlState → LinkedPair → LinkedPair → VnuRefreshControlState
rotated_state s old next =
    record (revoke_exact s old (refresh_successor_grant_tombstone old next)) { active = some next }

unfoldable pub complete_refresh :
    Option VnuRefreshControlState → LinkedPair → LinkedPair → ℕ → Transition
unfolding unchanged
complete_refresh stored old next now =
    let s = clean_vnu_refresh_state stored now in
    if leb old.grant_expires_at now
      || not (same_pair s.active old)
      || not (lease_covers s.lease old)
    then unchanged stored now revoked
    else changed stored (rotated_state s old next) completed

unfoldable pub apply_complete_refresh :
    Option VnuRefreshControlState → LinkedPair → LinkedPair → ℕ → Outcome Fault Transition
apply_complete_refresh stored old next now = do
  assert_linked_pair old
  assert_linked_pair next
  ensure (next.grant_expires_at == old.grant_expires_at) grant_expiry_changed
  ensure
      (not (str_eq next.access_token_id old.access_token_id || str_eq next.grant_id old.grant_id))
      rotation_identifiers
  ensure (not (collides stored next)) rotation_collision
  ok (complete_refresh stored old next now)

-- `revokeExact(state, state.active!)`
unfoldable pub revoke_current : Option LinkedPair → VnuRefreshControlState → VnuRefreshControlState
revoke_current none s = s
revoke_current (some current) s = revoke_exact s current (linked_grant_tombstone current)

unfoldable pub revoke_active : VnuRefreshControlState → VnuRefreshControlState
unfolding revoke_current
revoke_active s = revoke_current s.active s

unfoldable pub abort_refresh : Option VnuRefreshControlState → LinkedPair → Bool → ℕ → Transition
unfolding unchanged
abort_refresh stored p terminal now =
    let s = clean_vnu_refresh_state stored now in
    if is_truthy_expiry (lookup p.access_token_id s.revoked_access)
      || is_truthy_tombstone (lookup p.grant_id s.revoked_grants)
    then unchanged stored now revoked
    else if not (lease_covers s.lease p) || not (same_pair s.active p)
    then unchanged stored now aborted
    else if not terminal
    then changed stored (record s { lease = none }) aborted
    else changed stored (revoke_active s) revoked

unfoldable pub apply_abort_refresh :
    Option VnuRefreshControlState → LinkedPair → Bool → ℕ → Outcome Fault Transition
apply_abort_refresh stored p terminal now = do
  assert_linked_pair p
  ok (abort_refresh stored p terminal now)

-- `revokedAccess[id] === expiry`
abbrev pub is_expiry : Option ℕ → ℕ → Bool
is_expiry none e = false
is_expiry (some n) e = n == e

unfoldable pub revoke_by_access : Option VnuRefreshControlState → LinkedPair → ℕ → Transition
unfolding unchanged
revoke_by_access stored p now =
    let s = clean_vnu_refresh_state stored now in
    let links = exactly_links_grant_tombstone (lookup p.grant_id s.revoked_grants) p in
    if leb p.access_expires_at now && leb p.grant_expires_at now
    then unchanged stored now expired
    else if is_expiry (lookup p.access_token_id s.revoked_access) p.access_expires_at && links
    then unchanged stored now revoked
    else if leb p.access_expires_at now && links
    then unchanged stored now revoked
    else if is_some s.active && not (same_pair s.active p)
    then unchanged stored now mismatch
    else if not (same_pair s.active p)
    then unchanged stored now mismatch
    else changed stored (revoke_exact s p (linked_grant_tombstone p)) revoked

unfoldable pub apply_revoke_linked_pair_by_access :
    Option VnuRefreshControlState → LinkedPair → ℕ → Outcome Fault Transition
apply_revoke_linked_pair_by_access stored p now = do
  assert_linked_pair p
  ok (revoke_by_access stored p now)

-- `successor !== undefined && samePair(state.active, successor)
--   && (!state.lease || samePair(state.lease.pair, successor))`
unfoldable pub is_successor_authority : VnuRefreshControlState → Option LinkedPair → Bool
is_successor_authority s none = false
is_successor_authority s (some successor) =
    same_pair s.active successor && (not (is_some s.lease) || lease_covers s.lease successor)

-- `revokeExact` of the active pair, after the proof's own two entries.
unfoldable pub revoke_proof_and_active :
    VnuRefreshControlState → LinkedPair → VnuRefreshControlState
unfolding revoke_active
revoke_proof_and_active s proof = revoke_active (record s {
  revoked_access = insert proof.access_token_id proof.access_expires_at s.revoked_access;
  revoked_grants = insert proof.grant_id (linked_grant_tombstone proof) s.revoked_grants;
})

unfoldable pub revoke_principal : Option VnuRefreshControlState → LinkedPair → ℕ → Transition
unfolding unchanged
revoke_principal stored proof now =
    let s = clean_vnu_refresh_state stored now in
    let exact_active = same_pair s.active proof in
    let tombstone = lookup proof.grant_id s.revoked_grants in
    if leb proof.grant_expires_at now
    then unchanged stored now expired
    else if not exact_active && not (exactly_links_grant_tombstone tombstone proof)
    then unchanged stored now mismatch
    else if not (is_some s.active)
    then unchanged stored now revoked
    else if not exact_active && not (is_successor_authority s (refresh_successor tombstone))
    then unchanged stored now mismatch
    else changed stored (revoke_proof_and_active s proof) revoked

unfoldable pub apply_revoke_principal_by_linked_grant :
    Option VnuRefreshControlState → LinkedPair → ℕ → Outcome Fault Transition
apply_revoke_principal_by_linked_grant stored proof now = do
  assert_linked_pair proof
  ok (revoke_principal stored proof now)

unfoldable pub check_access : Option VnuRefreshControlState → LinkedPair → ℕ → Transition
check_access stored p now =
    let s = clean_vnu_refresh_state stored now in
    record {
      state = s;
      changed = is_some stored && not (same_vnu_refresh_state stored s);
      result =
          if same_pair s.active p
            && ltb now p.access_expires_at
            && not (is_truthy_expiry (lookup p.access_token_id s.revoked_access))
            && not (is_truthy_tombstone (lookup p.grant_id s.revoked_grants))
          then is_active
          else revoked;
    }

unfoldable pub apply_check_access :
    Option VnuRefreshControlState → LinkedPair → ℕ → Outcome Fault Transition
apply_check_access stored p now = do assert_linked_pair p; ok (check_access stored p now)
