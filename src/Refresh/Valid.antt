-- ===== src/Refresh/Valid.antt =====
-- apps/worker/src/vnu/vnu-refresh-control.ts: the checks of a pair and of a stored state, which
-- throw, and the comparison of two states by their JSON text. The checks of shape that the types of
-- this model make (objects, key sets, numbers that are not natural) have no counterpart here; all
-- others stand in the order of the source. The objects compared are those that this module's
-- source builds, whose keys come in one order, so equal JSON text is equality of the fields.
use hyeboard.Prelude.{
  ℕ, String, Bool, true, false, ◌&&◌, not, Option, none, some, ◌∷◌, [], ltb, leb, ◌==◌, str_eq,
  Dict, lookup, all_entries, is_base64url_22, is_positive_safe, Outcome, ok, ◌>>◌, ensure,
}
use hyeboard.Refresh.State.{
  LinkedPair, RefreshLease, RefreshWindow, RevokedGrantTombstone, expiry, linked, is_some,
  same_pair, VnuRefreshControlState, vnu_refresh_attempt_limit, vnu_manual_activation_limit,
}

pub data Fault : Type 0 where
  invalid_pair invalid_state : Fault
  grant_expiry_changed rotation_identifiers rotation_collision : Fault

unfoldable pub is_linked_pair : LinkedPair → Bool
is_linked_pair p =
    is_base64url_22 p.access_token_id
    && is_base64url_22 p.grant_id
    && is_positive_safe p.access_expires_at
    && is_positive_safe p.grant_expires_at

unfoldable pub assert_linked_pair : LinkedPair → Outcome Fault (Unit {0})
assert_linked_pair p = ensure (is_linked_pair p) invalid_pair

unfoldable pub assert_optional_pair : Option LinkedPair → Outcome Fault (Unit {0})
unfolding assert_linked_pair
assert_optional_pair none = ok tt
assert_optional_pair (some p) = assert_linked_pair p

unfoldable pub assert_lease : Option RefreshLease → Outcome Fault (Unit {0})
unfolding assert_linked_pair
assert_lease none = ok tt
assert_lease (some l) = do
  assert_linked_pair l.pair
  ensure (is_positive_safe l.expires_at) invalid_state

unfoldable pub is_revoked_access : String → ℕ → Bool
is_revoked_access identifier e = is_base64url_22 identifier && is_positive_safe e

unfoldable pub assert_successor : String → String → ℕ → Option LinkedPair → Outcome Fault (Unit {0})
unfolding assert_linked_pair
assert_successor revoked_grant_id access_token_id grant_expires_at none = ok tt
assert_successor revoked_grant_id access_token_id grant_expires_at (some successor) = do
  assert_linked_pair successor
  ensure
      (not (str_eq successor.access_token_id access_token_id)
        && not (str_eq successor.grant_id revoked_grant_id)
        && successor.grant_expires_at == grant_expires_at)
      invalid_state

unfoldable pub assert_tombstone : String → RevokedGrantTombstone → Outcome Fault (Unit {0})
unfolding assert_successor
assert_tombstone grant_id (expiry e) = ensure (is_positive_safe e) invalid_state
assert_tombstone grant_id (linked access_token_id access_expires_at grant_expires_at successor) = do
  ensure (is_base64url_22 access_token_id) invalid_state
  ensure (is_positive_safe access_expires_at) invalid_state
  ensure (is_positive_safe grant_expires_at) invalid_state
  assert_successor grant_id access_token_id grant_expires_at successor

unfoldable pub assert_tombstones : Dict RevokedGrantTombstone → Outcome Fault (Unit {0})
unfolding assert_tombstone
assert_tombstones [] = ok tt
assert_tombstones ((grant_id, tombstone) ∷ rest) =
    let later = assert_tombstones rest in
    do ensure (is_base64url_22 grant_id) invalid_state; assert_tombstone grant_id tombstone; later

unfoldable pub is_refresh_window : RefreshWindow → Bool
is_refresh_window w = leb w.count vnu_refresh_attempt_limit && is_positive_safe w.reset_at

unfoldable pub is_activation_window : Option RefreshWindow → Bool
is_activation_window none = true
is_activation_window (some w) =
    ltb 0 w.count && leb w.count vnu_manual_activation_limit && is_positive_safe w.reset_at

-- A lease is on the active pair, and ends with its grant at the latest.
unfoldable pub is_lease_linked : Option LinkedPair → Option RefreshLease → Bool
is_lease_linked active none = true
is_lease_linked active (some l) =
    same_pair active l.pair && leb l.expires_at l.pair.grant_expires_at

unfoldable pub is_active_unrevoked : Option LinkedPair → Dict ℕ → Dict RevokedGrantTombstone → Bool
is_active_unrevoked none access grants = true
is_active_unrevoked (some p) access grants =
    not (is_some (lookup p.access_token_id access)) && not (is_some (lookup p.grant_id grants))

unfoldable pub parse_state : VnuRefreshControlState → Outcome Fault (Unit {0})
parse_state s = do
  assert_optional_pair s.active
  assert_lease s.lease
  ensure (all_entries is_revoked_access s.revoked_access) invalid_state
  assert_tombstones s.revoked_grants
  ensure (is_refresh_window s.window) invalid_state
  ensure (is_activation_window s.activation_window) invalid_state
  ensure (is_lease_linked s.active s.lease) invalid_state
  ensure (is_active_unrevoked s.active s.revoked_access s.revoked_grants) invalid_state

unfoldable pub parse_vnu_refresh_control_state :
    Option VnuRefreshControlState → Outcome Fault (Option VnuRefreshControlState)
parse_vnu_refresh_control_state none = ok none
parse_vnu_refresh_control_state (some s) = do parse_state s; ok (some s)

-- Equality of the JSON texts.
abbrev pub option_eq : {A : Type 0} → (A → A → Bool) → Option A → Option A → Bool
option_eq f none none = true
option_eq f none (some b) = false
option_eq f (some a) none = false
option_eq f (some a) (some b) = f a b

unfoldable pub dict_eq : {A : Type 0} → (A → A → Bool) → Dict A → Dict A → Bool
dict_eq f [] [] = true
dict_eq f [] (e ∷ n) = false
dict_eq f (e ∷ m) [] = false
dict_eq f ((j, a) ∷ m) ((k, b) ∷ n) = str_eq j k && f a b && dict_eq f m n

unfoldable pub pair_eq : LinkedPair → LinkedPair → Bool
pair_eq p q = same_pair (some p) q

unfoldable pub lease_eq : RefreshLease → RefreshLease → Bool
lease_eq l m = pair_eq l.pair m.pair && l.expires_at == m.expires_at

unfoldable pub window_eq : RefreshWindow → RefreshWindow → Bool
window_eq v w = v.count == w.count && v.reset_at == w.reset_at

unfoldable pub tombstone_eq : RevokedGrantTombstone → RevokedGrantTombstone → Bool
tombstone_eq (expiry m) (expiry n) = m == n
tombstone_eq (expiry m) (linked b f h t) = false
tombstone_eq (linked a e g s) (expiry n) = false
tombstone_eq (linked a e g s) (linked b f h t) =
    str_eq a b && e == f && g == h && option_eq pair_eq s t

unfoldable pub state_eq : VnuRefreshControlState → VnuRefreshControlState → Bool
unfolding dict_eq pair_eq lease_eq window_eq tombstone_eq
state_eq s t =
    option_eq pair_eq s.active t.active
    && option_eq lease_eq s.lease t.lease
    && dict_eq ◌==◌ s.revoked_access t.revoked_access
    && dict_eq tombstone_eq s.revoked_grants t.revoked_grants
    && window_eq s.window t.window
    && option_eq window_eq s.activation_window t.activation_window

unfoldable pub same_vnu_refresh_state :
    Option VnuRefreshControlState → VnuRefreshControlState → Bool
unfolding state_eq
same_vnu_refresh_state none t = false
same_vnu_refresh_state (some s) t = state_eq s t
