-- ===== src/Refresh/Shapes.antt =====
-- apps/worker/src/vnu/vnu-refresh-control.ts: how the checks of a stored state fare under the
-- building blocks of the transitions.
use hyeboard.Prelude.{
  ◌≡◌, true, false, Option, none, some, [], ◌∷◌, arith, String, str_eq, str_eq_iff, lookup, insert,
  all_entries, all_entries-insert, Dict, ok, is_base64url_22, if◌then◌else◌,
}
use hyeboard.Refresh.State.{
  LinkedPair, RefreshLease, RefreshWindow, RevokedGrantTombstone, VnuRefreshControlState,
  linked_grant_tombstone, refresh_successor_grant_tombstone, lease_covers, revoke_exact,
}
use hyeboard.Refresh.Valid.{
  assert_linked_pair, assert_optional_pair, assert_lease, assert_tombstone, assert_tombstones,
  assert_successor, is_linked_pair, is_revoked_access, is_refresh_window, is_activation_window,
  is_lease_linked, is_active_unrevoked,
}
use hyeboard.Refresh.Cases.{same_pair-eq, same_pair_self}
use hyeboard.Refresh.Parsed.{IsValid}

-- A valid state but for the tombstones of its active pair.
pub record IsShaped (s : VnuRefreshControlState) : Type 0 where
  pub active_shape : assert_optional_pair s.active ≡ ok tt
  pub lease_shape : assert_lease s.lease ≡ ok tt
  pub access_shape : all_entries is_revoked_access s.revoked_access ≡ true
  pub grants_shape : assert_tombstones s.revoked_grants ≡ ok tt
  pub window_shape : is_refresh_window s.window ≡ true
  pub activation_shape : is_activation_window s.activation_window ≡ true
  pub lease_linked : is_lease_linked s.active s.lease ≡ true

pub IsValid-IsShaped : (s : VnuRefreshControlState) → IsValid s → IsShaped s
IsValid-IsShaped s v = ground arith

assert_tombstones-insert :
    (k : String) (t : RevokedGrantTombstone) (m : Dict RevokedGrantTombstone)
    → is_base64url_22 k ≡ true
    → assert_tombstone k t ≡ ok tt
    → assert_tombstones m ≡ ok tt
    → assert_tombstones (insert k t m) ≡ ok tt
unfolding assert_tombstones insert
assert_tombstones-insert k t [] a b h = ground arith
assert_tombstones-insert k t ((j, u) ∷ m) a b h =
    ground (arith, assert_tombstones-insert k t m, str_eq_iff j k)

-- The parts of a pair that passed.
pub linked_pair_parts :
    (p : LinkedPair)
    → assert_linked_pair p ≡ ok tt
    → (is_base64url_22 p.grant_id ≡ true)
      × (is_revoked_access p.access_token_id p.access_expires_at ≡ true)
      × (assert_tombstone p.grant_id (linked_grant_tombstone p) ≡ ok tt)
unfolding assert_linked_pair is_linked_pair is_revoked_access assert_tombstone assert_successor
    linked_grant_tombstone
linked_pair_parts p h = ground arith

pub successor_tombstone_shape :
    (old next : LinkedPair)
    → assert_linked_pair old ≡ ok tt
    → assert_linked_pair next ≡ ok tt
    → next.grant_expires_at ≡ old.grant_expires_at
    → str_eq next.access_token_id old.access_token_id ≡ false
    → str_eq next.grant_id old.grant_id ≡ false
    → assert_tombstone old.grant_id (refresh_successor_grant_tombstone old next) ≡ ok tt
unfolding assert_linked_pair is_linked_pair assert_tombstone assert_successor
    refresh_successor_grant_tombstone
successor_tombstone_shape old next a b e f g = ground arith

-- The two entries of a revocation.
pub insert-IsShaped :
    (s : VnuRefreshControlState) (p : LinkedPair) (t : RevokedGrantTombstone)
    → IsShaped s
    → assert_linked_pair p ≡ ok tt
    → assert_tombstone p.grant_id t ≡ ok tt
    → IsShaped (record s {
      revoked_access = insert p.access_token_id p.access_expires_at s.revoked_access;
      revoked_grants = insert p.grant_id t s.revoked_grants;
    })
insert-IsShaped s p t v a b =
    let (g, c, _) = linked_pair_parts p a in
    record {
      active_shape = v.active_shape;
      lease_shape = v.lease_shape;
      access_shape =
          all_entries-insert is_revoked_access p.access_token_id p.access_expires_at
            s.revoked_access v.access_shape c;
      grants_shape = assert_tombstones-insert p.grant_id t s.revoked_grants g b v.grants_shape;
      window_shape = v.window_shape;
      activation_shape = v.activation_shape;
      lease_linked = v.lease_linked;
    }

linked_lease_covers :
    (p : LinkedPair) (l : RefreshLease)
    → is_lease_linked (some p) (some l) ≡ true
    → lease_covers (some l) p ≡ true
unfolding is_lease_linked lease_covers
linked_lease_covers p l h =
    ground (arith, same_pair-eq (some p) l.pair, same_pair_self p, same_pair_self l.pair)

linked_lease_gone :
    (p : LinkedPair) (o : Option RefreshLease)
    → is_lease_linked (some p) o ≡ true
    → ◌≡◌ {A = Option RefreshLease} (if lease_covers o p then none else o) none
linked_lease_gone p none h = ground arith
linked_lease_gone p (some l) h = ground (arith, linked_lease_covers p l h)

-- With its active pair gone a shaped state is valid, since the lease goes with the pair.
drop_active-IsValid :
    (s : VnuRefreshControlState) (p : LinkedPair)
    → IsShaped s
    → s.active ≡ some p
    → IsValid (record s { active = none; lease = if lease_covers s.lease p then none else s.lease })
unfolding is_lease_linked lease_covers assert_optional_pair assert_lease is_active_unrevoked
drop_active-IsValid s p v e = ground (arith, linked_lease_gone p s.lease (rw e at v.lease_linked))

pub revoke_exact-IsValid :
    (s : VnuRefreshControlState) (p : LinkedPair) (t : RevokedGrantTombstone)
    → IsShaped s
    → s.active ≡ some p
    → assert_linked_pair p ≡ ok tt
    → assert_tombstone p.grant_id t ≡ ok tt
    → IsValid (revoke_exact s p t)
unfolding revoke_exact
revoke_exact-IsValid s p t v e a b = drop_active-IsValid _ p (insert-IsShaped s p t v a b) e

-- A pair without tombstones may become active where no lease is left.
pub set_active-IsValid :
    (s : VnuRefreshControlState) (p : LinkedPair) (w : Option RefreshWindow)
    → IsShaped s
    → assert_linked_pair p ≡ ok tt
    → lookup p.access_token_id s.revoked_access ≡ none
    → lookup p.grant_id s.revoked_grants ≡ none
    → is_activation_window w ≡ true
    → IsValid (record s { active = some p; lease = none; activation_window = w })
unfolding assert_optional_pair assert_lease is_lease_linked is_active_unrevoked
set_active-IsValid s p w v a x g h = ground arith
