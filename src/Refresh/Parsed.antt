-- ===== src/Refresh/Parsed.antt =====
-- What `parseVnuRefreshControlState` of apps/worker/src/vnu/vnu-refresh-control.ts accepts, as a
-- predicate, and that cleaning a state keeps it.
use hyeboard.Prelude.{
  ℕ, String, ◌+◌, ◌≤◌, ◌≡◌, refl, Bool, true, Option, none, some, [], ◌∷◌, arith, lookup, keep,
  lookup-keep-none, all_entries, all_entries-keep_of, Dict, ok, max_safe_integer,
}
use hyeboard.Refresh.State.{
  LinkedPair, RefreshLease, VnuRefreshControlState, RevokedGrantTombstone, or_empty, clean_source,
  clean_vnu_refresh_state, clean_active, clean_lease, clean_window, clean_activation,
  is_live_access, is_live_grant, empty_state, vnu_refresh_window_ms,
}
use hyeboard.Refresh.Valid.{
  assert_optional_pair, assert_lease, assert_linked_pair, assert_tombstones, is_revoked_access,
  is_refresh_window, is_activation_window, is_lease_linked, is_active_unrevoked, parse_state,
  parse_vnu_refresh_control_state,
}
use hyeboard.Refresh.Cases.{same_pair-eq, cleaned}

pub record IsValid (s : VnuRefreshControlState) : Type 0 where
  pub active_shape : assert_optional_pair s.active ≡ ok tt
  pub lease_shape : assert_lease s.lease ≡ ok tt
  pub access_shape : all_entries is_revoked_access s.revoked_access ≡ true
  pub grants_shape : assert_tombstones s.revoked_grants ≡ ok tt
  pub window_shape : is_refresh_window s.window ≡ true
  pub activation_shape : is_activation_window s.activation_window ≡ true
  pub lease_linked : is_lease_linked s.active s.lease ≡ true
  pub unrevoked : is_active_unrevoked s.active s.revoked_access s.revoked_grants ≡ true

pub parse_state-IsValid : (s : VnuRefreshControlState) → parse_state s ≡ ok tt → IsValid s
unfolding parse_state
parse_state-IsValid s h = ground arith

pub IsValid-parse_state : (s : VnuRefreshControlState) → IsValid s → parse_state s ≡ ok tt
unfolding parse_state
IsValid-parse_state s v = ground arith

-- The active pair has no tombstone.
pub active_unrevoked :
    (s : VnuRefreshControlState) (p : LinkedPair)
    → IsValid s
    → s.active ≡ some p
    → (lookup p.access_token_id s.revoked_access ≡ none)
      × (lookup p.grant_id s.revoked_grants ≡ none)
unfolding is_active_unrevoked
active_unrevoked s p v e = ground arith

assert_tombstones-keep :
    (f : String → RevokedGrantTombstone → Bool) (m : Dict RevokedGrantTombstone)
    → assert_tombstones m ≡ ok tt
    → assert_tombstones (keep f m) ≡ ok tt
unfolding assert_tombstones keep
assert_tombstones-keep f [] h = refl
assert_tombstones-keep f ((k, t) ∷ m) h = ground (arith, assert_tombstones-keep f m)

pub parsed_state :
    (s : VnuRefreshControlState)
    → parse_vnu_refresh_control_state (some s) ≡ ok (some s)
    → parse_state s ≡ ok tt
unfolding parse_vnu_refresh_control_state
parsed_state s h = ground arith

-- What is parsed is what was stored.
pub parsed_same :
    (stored parsed : Option VnuRefreshControlState)
    → parse_vnu_refresh_control_state stored ≡ ok parsed
    → parsed ≡ stored
unfolding parse_vnu_refresh_control_state
parsed_same stored parsed h = ground arith

module _ (now : ℕ) where
  clean_active-unrevoked :
      (a : Option LinkedPair) (s : VnuRefreshControlState)
      → is_active_unrevoked a s.revoked_access s.revoked_grants ≡ true
      → is_active_unrevoked
          (clean_active a now)
          (keep (is_live_access now) s.revoked_access)
          (keep (is_live_grant now) s.revoked_grants)
        ≡ true
  unfolding clean_active is_active_unrevoked
  clean_active-unrevoked none s h = refl
  clean_active-unrevoked (some p) s h = ground (
    arith,
    lookup-keep-none (is_live_access now) p.access_token_id s.revoked_access,
    lookup-keep-none (is_live_grant now) p.grant_id s.revoked_grants,
  )

  -- In a stored state, once cleaned, the active pair has no tombstone.
  pub cleaned_unrevoked :
      (stored : Option VnuRefreshControlState) (p : LinkedPair)
      → parse_vnu_refresh_control_state stored ≡ ok stored
      → (cleaned stored now).active ≡ some p
      → ((lookup p.access_token_id (cleaned stored now).revoked_access) ≡ none)
        × (lookup p.grant_id (cleaned stored now).revoked_grants ≡ none)
  unfolding clean_vnu_refresh_state or_empty empty_state clean_source clean_active
      is_active_unrevoked
  cleaned_unrevoked none p h e = ground arith
  cleaned_unrevoked (some s) p h e = ground (
    arith,
    clean_active-unrevoked s.active s (parse_state-IsValid s (parsed_state s h)).unrevoked,
  )

module _ (now : ℕ) (soon : now + vnu_refresh_window_ms ≤ max_safe_integer) where
  empty_state-IsValid : IsValid (empty_state now)
  unfolding empty_state assert_optional_pair assert_lease assert_tombstones is_refresh_window
      is_activation_window is_lease_linked is_active_unrevoked
  empty_state-IsValid = ground arith

  clean_active-shape :
      (o : Option LinkedPair)
      → assert_optional_pair o ≡ ok tt
      → assert_optional_pair (clean_active o now) ≡ ok tt
  unfolding clean_active assert_optional_pair assert_linked_pair
  clean_active-shape o h = ground arith

  clean_lease-shape :
      (o : Option RefreshLease) → assert_lease o ≡ ok tt → assert_lease (clean_lease o now) ≡ ok tt
  unfolding clean_lease assert_lease assert_linked_pair
  clean_lease-shape o h = ground arith

  clean_lease-linked :
      (a : Option LinkedPair) (o : Option RefreshLease)
      → is_lease_linked a o ≡ true
      → is_lease_linked (clean_active a now) (clean_lease o now) ≡ true
  unfolding clean_active clean_lease is_lease_linked
  clean_lease-linked a none h = refl
  clean_lease-linked a (some l) h = ground (arith, same_pair-eq a l.pair)

  clean_window-shape :
      (s : VnuRefreshControlState)
      → is_refresh_window s.window ≡ true
      → is_refresh_window (clean_window s.window now) ≡ true
  unfolding clean_window is_refresh_window
  clean_window-shape s h = ground arith

  clean_activation-shape :
      (s : VnuRefreshControlState)
      → is_activation_window s.activation_window ≡ true
      → is_activation_window (clean_activation s.activation_window now) ≡ true
  unfolding clean_activation is_activation_window
  clean_activation-shape s h = ground arith

  pub clean_source-IsValid : (s : VnuRefreshControlState) → IsValid s → IsValid (clean_source s now)
  unfolding clean_source
  clean_source-IsValid s v = record {
    active_shape = clean_active-shape s.active v.active_shape;
    lease_shape = clean_lease-shape s.lease v.lease_shape;
    access_shape =
        all_entries-keep_of is_revoked_access (is_live_access now) s.revoked_access v.access_shape;
    grants_shape = assert_tombstones-keep (is_live_grant now) s.revoked_grants v.grants_shape;
    window_shape = clean_window-shape s v.window_shape;
    activation_shape = clean_activation-shape s v.activation_shape;
    lease_linked = clean_lease-linked s.active s.lease v.lease_linked;
    unrevoked = clean_active-unrevoked now s.active s v.unrevoked;
  }

  -- Cleaning what is stored, or nothing, gives a valid state.
  pub cleaned-IsValid :
      (stored : Option VnuRefreshControlState)
      → parse_vnu_refresh_control_state stored ≡ ok stored
      → IsValid (cleaned stored now)
  unfolding parse_vnu_refresh_control_state clean_vnu_refresh_state or_empty
  cleaned-IsValid none h = clean_source-IsValid (empty_state now) empty_state-IsValid
  cleaned-IsValid (some s) h = clean_source-IsValid s (parse_state-IsValid s (parsed_state s h))
