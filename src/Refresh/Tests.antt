-- ===== src/Refresh/Tests.antt =====
-- Two pairs of one principal through activation, refresh and revocation, and the theorems at them.
use hyeboard.Prelude.{
  true, is_hex, ◌↔◌, all, ℕ, ◌≡◌, refl, false, Option, none, some, [], ◌∷◌, arith, Outcome, ok,
  lookup, insert, keep, is_base64url_22, retry_after_seconds, minimum, List, String, answered,
  never_sent, reply_lost, put,
}
use hyeboard.Refresh.State.{
  LinkedPair, linked_grant_tombstone, refresh_successor_grant_tombstone,
  exactly_links_grant_tombstone, refresh_successor, same_pair, lease_covers, empty_state, or_empty,
  clean_active, clean_lease, clean_window, clean_activation, clean_source, clean_vnu_refresh_state,
  revoke_exact,
}
use hyeboard.Refresh.Valid.{
  Fault, is_linked_pair, assert_linked_pair, assert_optional_pair, assert_lease, is_revoked_access,
  assert_successor, assert_tombstone, assert_tombstones, is_refresh_window, is_activation_window,
  is_lease_linked, is_active_unrevoked, parse_state, parse_vnu_refresh_control_state, dict_eq,
  pair_eq, lease_eq, window_eq, tombstone_eq, state_eq, same_vnu_refresh_state,
}
use hyeboard.Refresh.Transitions.{
  Reply, accepted, completed, revoked, is_active, in_progress, unchanged, changed, replace_old,
  replace_active, next_activation_window, activated_state, activate_pair, apply_activate_pair,
  leased_state, begin_refresh, apply_begin_refresh, rotated_state, complete_refresh,
  apply_complete_refresh, revoke_current, revoke_active, abort_refresh, apply_abort_refresh,
  revoke_by_access, apply_revoke_linked_pair_by_access, is_successor_authority,
  revoke_proof_and_active, revoke_principal, apply_revoke_principal_by_linked_grant, check_access,
  apply_check_access,
}
use hyeboard.Refresh.Store.{
  Storage, Answer, Call, activate, begin, check, complete, revoke_access, storage_after, expiries,
  next_vnu_refresh_alarm, is_quiescent_vnu_refresh_state, commit, mutate, sweep,
  check_access_authoritatively, transition, perform, run,
}
use hyeboard.Refresh.Forever.{grants_access}
use hyeboard.Refresh.Revoked.{revocation_is_permanent, rotation_is_permanent}
use hyeboard.Refresh.Preserve.{IsReadable, perform-IsReadable}
use hyeboard.Refresh.Available.{pairs_of, coordinate_answers_iff}
use hyeboard.Refresh.Coordinator.{
  Namespace, coordinate, Event, request, alarm, handle_all, grants, coordinated_revocation,
}

abbrev first_pair : LinkedPair
first_pair = record {
  access_token_id = "AAAAAAAAAAAAAAAAAAAAAA";
  access_expires_at = 4000000;
  grant_id = "BBBBBBBBBBBBBBBBBBBBBB";
  grant_expires_at = 9000000;
}

abbrev second_pair : LinkedPair
second_pair = record {
  access_token_id = "CCCCCCCCCCCCCCCCCCCCCC";
  access_expires_at = 5000000;
  grant_id = "DDDDDDDDDDDDDDDDDDDDDD";
  grant_expires_at = 9000000;
}

abbrev fresh_storage : Storage
fresh_storage = record { state = none; alarm = none }

-- A call, computed through every definition.
attempt : Call → Storage → ℕ → Outcome Fault Answer
unfolding linked_grant_tombstone refresh_successor_grant_tombstone exactly_links_grant_tombstone
    refresh_successor same_pair lease_covers empty_state or_empty clean_active clean_lease
    clean_window clean_activation clean_source clean_vnu_refresh_state revoke_exact is_linked_pair
    assert_linked_pair assert_optional_pair assert_lease is_revoked_access assert_successor
    assert_tombstone assert_tombstones is_refresh_window is_activation_window is_lease_linked
    is_active_unrevoked parse_state parse_vnu_refresh_control_state dict_eq pair_eq lease_eq
    window_eq tombstone_eq state_eq same_vnu_refresh_state unchanged changed replace_old
    replace_active next_activation_window activated_state activate_pair apply_activate_pair
    leased_state begin_refresh apply_begin_refresh rotated_state complete_refresh
    apply_complete_refresh revoke_current revoke_active abort_refresh apply_abort_refresh
    revoke_by_access apply_revoke_linked_pair_by_access is_successor_authority
    revoke_proof_and_active revoke_principal apply_revoke_principal_by_linked_grant check_access
    apply_check_access expiries next_vnu_refresh_alarm is_quiescent_vnu_refresh_state commit mutate
    sweep check_access_authoritatively transition perform run lookup insert keep is_base64url_22
    retry_after_seconds minimum
attempt call storage now = perform call storage now

abbrev reply_of : Call → Storage → ℕ → Option Reply
reply_of call storage now = elim (attempt call storage now) [ ok a ↦ some a.reply | _ ↦ none ]

abbrev signed_in : Storage
unfolding attempt
signed_in = storage_after fresh_storage (attempt (activate first_pair) fresh_storage 1000)

abbrev refreshing : Storage
unfolding attempt
refreshing = storage_after signed_in (attempt (begin first_pair) signed_in 2000)

abbrev rotated : Storage
unfolding attempt
rotated = storage_after refreshing (attempt (complete first_pair second_pair) refreshing 3000)

begin_accepted : reply_of (begin first_pair) signed_in 2000 ≡ some (accepted 122000)
unfolding attempt
begin_accepted = refl

begin_again : reply_of (begin first_pair) refreshing 2500 ≡ some (in_progress 120)
unfolding attempt
begin_again = refl

next_is_active : reply_of (check second_pair) rotated 4000 ≡ some is_active
unfolding attempt
next_is_active = refl

-- The alarm is at the first expiry, that of the revoked access token.
rotated_alarm : rotated.alarm ≡ some 901000
unfolding attempt
rotated_alarm = refl

rotation_is_permanent_example :
    (grants_access
        (perform (check first_pair) (run rotated ((4000, activate first_pair) ∷ [])) 5000)
      ≡ false)
    × (grants_access
          (perform (begin first_pair) (run rotated ((4000, activate first_pair) ∷ [])) 5000)
        ≡ false)
unfolding attempt
rotation_is_permanent_example =
    rotation_is_permanent first_pair second_pair refreshing 3000
      (record { reply = completed; storage = rotated }) ((4000, activate first_pair) ∷ []) 5000 refl
      refl (omega arith)

revoked_storage : Storage
unfolding attempt
revoked_storage = storage_after signed_in (attempt (revoke_access first_pair) signed_in 2000)

revocation_is_permanent_example :
    (grants_access
        (perform (check first_pair) (run revoked_storage ((4000, activate first_pair) ∷ [])) 5000)
      ≡ false)
    × (grants_access
          (perform (begin first_pair) (run revoked_storage ((4000, activate first_pair) ∷ [])) 5000)
        ≡ false)
unfolding attempt revoked_storage
revocation_is_permanent_example =
    revocation_is_permanent first_pair signed_in 2000
      (record { reply = revoked; storage = revoked_storage }) ((4000, activate first_pair) ∷ [])
      5000 tt refl refl (omega arith)

perform-IsReadable_example :
    IsReadable
      (storage_after refreshing (perform (complete first_pair second_pair) refreshing 3000)).state
unfolding attempt
perform-IsReadable_example =
    perform-IsReadable refreshing 3000 (complete first_pair second_pair) (omega arith) refl tt

abbrev principal_key : String
principal_key = "00112233445566778899aabbccddeeff00112233445566778899aabbccddeeff"

abbrev signed_in_namespace : Namespace
signed_in_namespace key = signed_in

abbrev events : List (ℕ × Event)
events =
    (2500, request never_sent principal_key (begin first_pair))
    ∷ (3000, request reply_lost "short" (activate first_pair))
    ∷ (4000, request reply_lost principal_key (activate first_pair))
    ∷ (4500, alarm principal_key)
    ∷ []

coordinated_revocation_example :
    (grants
        (coordinate answered
          (handle_all (put signed_in_namespace principal_key revoked_storage) events)
          principal_key
          (check first_pair)
          5000).0
      ≡ false)
    × (grants
          (coordinate answered
            (handle_all (put signed_in_namespace principal_key revoked_storage) events)
            principal_key
            (begin first_pair)
            5000).0
        ≡ false)
unfolding attempt revoked_storage
coordinated_revocation_example =
    coordinated_revocation first_pair signed_in_namespace principal_key 2000
      (record { reply = revoked; storage = revoked_storage }) events 5000 answered tt refl refl
      (omega arith, (omega arith, (omega arith, (omega arith, omega arith))))

coordinate_answers_iff_example :
    ((r : Reply) × ((coordinate answered signed_in_namespace principal_key
          (check first_pair)
          2500).0
        ≡ ok r))
    ↔ ((is_hex 64 principal_key ≡ true)
        × (all is_linked_pair (pairs_of (check first_pair)) ≡ true)
        × (answered ≡ answered))
unfolding attempt
coordinate_answers_iff_example =
    coordinate_answers_iff answered signed_in_namespace principal_key (check first_pair) 2500 refl
      tt
