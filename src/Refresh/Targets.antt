-- ===== src/Refresh/Targets.antt =====
-- The states that the transitions of apps/worker/src/vnu/vnu-refresh-control.ts go on to are valid.
use hyeboard.Prelude.{
  ℕ, ◌+◌, ◌≤◌, ◌<◌, ◌≡◌, true, false, Option, none, some, arith, str_eq, str_eq_iff, lookup,
  lookup-insert, min, ok, max_safe_integer, if_cases,
}
use hyeboard.Refresh.State.{
  LinkedPair, RefreshWindow, VnuRefreshControlState, linked_grant_tombstone,
  refresh_successor_grant_tombstone, same_pair, lease_covers, revoke_exact, vnu_refresh_window_ms,
}
use hyeboard.Refresh.Valid.{
  assert_linked_pair, assert_optional_pair, assert_lease, is_refresh_window, is_activation_window,
  is_lease_linked,
}
use hyeboard.Refresh.Transitions.{
  replace_old, next_activation_window, leased_state, rotated_state, revoke_active, revoke_current,
  revoke_proof_and_active, activation_count,
}
use hyeboard.Refresh.Cases.{same_pair_self}
use hyeboard.Refresh.Parsed.{IsValid}
use hyeboard.Refresh.Shapes.{
  IsShaped, IsValid-IsShaped, insert-IsShaped, revoke_exact-IsValid, set_active-IsValid,
  linked_pair_parts, successor_tombstone_shape,
}
use hyeboard.Refresh.Calls.{IsRotation}

-- The pair may become active: nothing of it is revoked, and unless it is the active pair already,
-- it shares no identifier with that.
pub record IsFreshPair (s : VnuRefreshControlState) (q : LinkedPair) : Type 0 where
  pub access_free : lookup q.access_token_id s.revoked_access ≡ none
  pub grant_free : lookup q.grant_id s.revoked_grants ≡ none
  pub apart :
      (a : LinkedPair)
      → s.active ≡ some a
      → same_pair (some a) q ≡ false
      → (str_eq a.access_token_id q.access_token_id ≡ false)
        × (str_eq a.grant_id q.grant_id ≡ false)

-- The active pair of a shaped state has the shape of a pair.
pub active_pair :
    (s : VnuRefreshControlState) (p : LinkedPair)
    → IsShaped s
    → s.active ≡ some p
    → assert_linked_pair p ≡ ok tt
unfolding assert_optional_pair
active_pair s p v e = ground arith

-- What `replaced` is for an activation.
pub record IsReplaced (s : VnuRefreshControlState) (q : LinkedPair) : Type 0 where
  pub shaped : IsShaped s
  pub access_free : lookup q.access_token_id s.revoked_access ≡ none
  pub grant_free : lookup q.grant_id s.revoked_grants ≡ none

pub replace_old-IsReplaced :
    (o : Option LinkedPair) (s : VnuRefreshControlState) (q : LinkedPair)
    → s.active ≡ o
    → IsValid s
    → IsFreshPair s q
    → IsReplaced (replace_old o s q) q
unfolding replace_old
replace_old-IsReplaced none s q e v f = record {
  shaped = IsValid-IsShaped s v;
  access_free = f.access_free;
  grant_free = f.grant_free;
}
replace_old-IsReplaced (some a) s q e v f =
    if_cases (λ t. IsReplaced t q) (same_pair (some a) q)
      (λ _. record {
        shaped = IsValid-IsShaped s v;
        access_free = f.access_free;
        grant_free = f.grant_free;
      })
      (λ other. revoked (f.apart a e other))
  where
    shape : assert_linked_pair a ≡ ok tt
    shape = active_pair s a (IsValid-IsShaped s v) e

    revoked :
        (str_eq a.access_token_id q.access_token_id ≡ false)
          × (str_eq a.grant_id q.grant_id ≡ false)
        → IsReplaced (revoke_exact s a (linked_grant_tombstone a)) q
    revoked (x, y) = record {
      shaped =
          IsValid-IsShaped _ (
            revoke_exact-IsValid s a _ (IsValid-IsShaped s v) e shape
              (linked_pair_parts a shape).2);
      access_free =
          unfold revoke_exact in
          ground (
            arith,
            f.access_free,
            lookup-insert a.access_token_id q.access_token_id a.access_expires_at s.revoked_access,
          );
      grant_free =
          unfold revoke_exact in
          ground (
            arith,
            f.grant_free,
            lookup-insert a.grant_id q.grant_id (linked_grant_tombstone a) s.revoked_grants,
          );
    }

pub next_activation-shape :
    (w : Option RefreshWindow) (now : ℕ)
    → now + vnu_refresh_window_ms ≤ max_safe_integer
    → is_activation_window w ≡ true
    → activation_count w < 5
    → is_activation_window (some (next_activation_window w now)) ≡ true
unfolding is_activation_window next_activation_window
next_activation-shape none now soon h c = ground arith
next_activation-shape (some w) now soon h c = ground arith

module _ (now : ℕ) (soon : now + vnu_refresh_window_ms ≤ max_safe_integer) where
  pub leased_state-IsValid :
      (s : VnuRefreshControlState) (p : LinkedPair)
      → IsValid s
      → now < p.grant_expires_at
      → s.active ≡ some p
      → s.window.count < 5
      → IsValid (leased_state s p (min (now + 120000) p.grant_expires_at))
  unfolding leased_state assert_lease is_lease_linked is_refresh_window
  leased_state-IsValid s p v live e c =
      let shape = active_pair s p (IsValid-IsShaped s v) e in ground (arith, same_pair_self p)

  pub rotated_state-IsValid :
      (s : VnuRefreshControlState) (stored : Option VnuRefreshControlState) (old next : LinkedPair)
      → IsValid s
      → s.active ≡ some old
      → lease_covers s.lease old ≡ true
      → assert_linked_pair next ≡ ok tt
      → IsRotation stored old next
      → lookup next.access_token_id s.revoked_access ≡ none
      → lookup next.grant_id s.revoked_grants ≡ none
      → IsValid (rotated_state s old next)
  unfolding rotated_state revoke_exact
  rotated_state-IsValid s stored old next v e l n r x g =
      let shape = active_pair s old (IsValid-IsShaped s v) e in
      let revoked =
        revoke_exact-IsValid s old (refresh_successor_grant_tombstone old next)
          (IsValid-IsShaped s v) e shape
          (successor_tombstone_shape old next shape n r.same_end r.other_access r.other_grant) in
      rw (l, rotated_state, revoke_exact)
        (set_active-IsValid _ next s.activation_window (IsValid-IsShaped _ revoked) n
          (ground (
            arith,
            x,
            r.other_access,
            lookup-insert old.access_token_id next.access_token_id old.access_expires_at
                s.revoked_access,
            str_eq_iff old.access_token_id next.access_token_id,
            str_eq_iff next.access_token_id old.access_token_id,
          ))
          (ground (
            arith,
            g,
            r.other_grant,
            lookup-insert old.grant_id next.grant_id (refresh_successor_grant_tombstone old next)
                s.revoked_grants,
            str_eq_iff old.grant_id next.grant_id,
            str_eq_iff next.grant_id old.grant_id,
          ))
          v.activation_shape)

  pub proof_revoked-IsValid :
      (s : VnuRefreshControlState) (q a : LinkedPair)
      → IsValid s
      → s.active ≡ some a
      → assert_linked_pair q ≡ ok tt
      → IsValid (revoke_proof_and_active s q)
  unfolding revoke_proof_and_active revoke_active revoke_exact
  proof_revoked-IsValid s q a v e shape =
      let shape_a = active_pair s a (IsValid-IsShaped s v) e in
      let inserted =
        insert-IsShaped s q _ (IsValid-IsShaped s v) shape (linked_pair_parts q shape).2 in
      rw (e, revoke_current)
        (revoke_exact-IsValid _ a _ inserted e shape_a (linked_pair_parts a shape_a).2)
