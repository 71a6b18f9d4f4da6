-- ===== src/Refresh/State.antt =====
-- apps/worker/src/vnu/vnu-refresh-control.ts: the stored state and the functions on it that the
-- transitions share. Instants are milliseconds. `undefined` is `none`.
use hyeboard.Prelude.{
  ℕ, ◌+◌, String, Bool, true, false, ◌&&◌, Option, none, some, [], ltb, leb, ◌==◌, str_eq,
  if◌then◌else◌, Dict, insert, keep,
}

abbrev pub vnu_refresh_attempt_limit : ℕ
vnu_refresh_attempt_limit = 5

abbrev pub vnu_refresh_window_ms : ℕ
vnu_refresh_window_ms = 900000

abbrev pub vnu_manual_activation_limit : ℕ
vnu_manual_activation_limit = 5

abbrev pub vnu_manual_activation_window_seconds : ℕ
vnu_manual_activation_window_seconds = 900

abbrev pub vnu_manual_activation_window_ms : ℕ
vnu_manual_activation_window_ms = 900000

abbrev pub vnu_refresh_lease_ms : ℕ
vnu_refresh_lease_ms = 120000

pub record LinkedPair : Type 0 where
  pub access_token_id : String
  pub access_expires_at : ℕ
  pub grant_id : String
  pub grant_expires_at : ℕ

pub record RefreshLease : Type 0 where
  pub pair : LinkedPair
  pub expires_at : ℕ

pub record RefreshWindow : Type 0 where
  pub count : ℕ
  pub reset_at : ℕ

-- A bare expiry, or the access token and the expiries of the revoked grant's pair, with the pair
-- that succeeded it if a refresh revoked it.
pub data RevokedGrantTombstone : Type 0 where
  expiry : ℕ → RevokedGrantTombstone
  linked : String → ℕ → ℕ → Option LinkedPair → RevokedGrantTombstone

pub record VnuRefreshControlState : Type 0 where
  pub active : Option LinkedPair
  pub lease : Option RefreshLease
  pub revoked_access : Dict ℕ
  pub revoked_grants : Dict RevokedGrantTombstone
  pub window : RefreshWindow
  pub activation_window : Option RefreshWindow

unfoldable pub linked_grant_tombstone : LinkedPair → RevokedGrantTombstone
linked_grant_tombstone p = linked p.access_token_id p.access_expires_at p.grant_expires_at none

unfoldable pub refresh_successor_grant_tombstone : LinkedPair → LinkedPair → RevokedGrantTombstone
refresh_successor_grant_tombstone old next =
    linked old.access_token_id old.access_expires_at old.grant_expires_at (some next)

abbrev pub grant_tombstone_expires_at : RevokedGrantTombstone → ℕ
grant_tombstone_expires_at (expiry n) = n
grant_tombstone_expires_at (linked a e g s) = g

unfoldable pub exactly_links_grant_tombstone : Option RevokedGrantTombstone → LinkedPair → Bool
exactly_links_grant_tombstone none p = false
exactly_links_grant_tombstone (some (expiry n)) p = false
exactly_links_grant_tombstone (some (linked a e g s)) p =
    str_eq a p.access_token_id && e == p.access_expires_at && g == p.grant_expires_at

unfoldable pub refresh_successor : Option RevokedGrantTombstone → Option LinkedPair
refresh_successor none = none
refresh_successor (some (expiry n)) = none
refresh_successor (some (linked a e g s)) = s

unfoldable pub same_pair : Option LinkedPair → LinkedPair → Bool
same_pair none r = false
same_pair (some l) r =
    str_eq l.access_token_id r.access_token_id
    && l.access_expires_at == r.access_expires_at
    && str_eq l.grant_id r.grant_id
    && l.grant_expires_at == r.grant_expires_at

-- `lease && samePair(lease.pair, pair)`
unfoldable pub lease_covers : Option RefreshLease → LinkedPair → Bool
lease_covers none p = false
lease_covers (some l) p = same_pair (some l.pair) p

abbrev pub lease_expires_at : Option RefreshLease → ℕ
lease_expires_at none = 0
lease_expires_at (some l) = l.expires_at

-- Truthiness of a look-up: `0` is false, an object is true.
abbrev pub is_truthy_expiry : Option ℕ → Bool
is_truthy_expiry none = false
is_truthy_expiry (some n) = ltb 0 n

abbrev pub is_truthy_tombstone : Option RevokedGrantTombstone → Bool
is_truthy_tombstone none = false
is_truthy_tombstone (some (expiry n)) = ltb 0 n
is_truthy_tombstone (some (linked a e g s)) = true

abbrev pub is_some {ℓ} : {A : Type ℓ} → Option A → Bool
is_some none = false
is_some (some a) = true

unfoldable pub empty_state : ℕ → VnuRefreshControlState
empty_state now = record {
  active = none;
  lease = none;
  revoked_access = [];
  revoked_grants = [];
  window = record { count = 0; reset_at = now + vnu_refresh_window_ms };
  activation_window = none;
}

-- `stored ?? emptyState(now)`
unfoldable pub or_empty : Option VnuRefreshControlState → ℕ → VnuRefreshControlState
unfolding empty_state
or_empty none now = empty_state now
or_empty (some s) now = s

unfoldable pub clean_active : Option LinkedPair → ℕ → Option LinkedPair
clean_active none now = none
clean_active (some p) now = if ltb now p.grant_expires_at then some p else none

unfoldable pub clean_lease : Option RefreshLease → ℕ → Option RefreshLease
clean_lease none now = none
clean_lease (some l) now =
    if ltb now l.expires_at && ltb now l.pair.grant_expires_at then some l else none

unfoldable pub clean_window : RefreshWindow → ℕ → RefreshWindow
clean_window w now =
    if leb w.reset_at now then record { count = 0; reset_at = now + vnu_refresh_window_ms } else w

unfoldable pub clean_activation : Option RefreshWindow → ℕ → Option RefreshWindow
clean_activation none now = none
clean_activation (some w) now = if ltb 0 w.count && ltb now w.reset_at then some w else none

-- The entries that have not expired at `now`.
abbrev pub is_live_access : ℕ → String → ℕ → Bool
is_live_access now k e = ltb now e

abbrev pub is_live_grant : ℕ → String → RevokedGrantTombstone → Bool
is_live_grant now k t = ltb now (grant_tombstone_expires_at t)

unfoldable pub clean_source : VnuRefreshControlState → ℕ → VnuRefreshControlState
unfolding clean_active clean_lease clean_window clean_activation
clean_source s now = record {
  active = clean_active s.active now;
  lease = clean_lease s.lease now;
  revoked_access = keep (is_live_access now) s.revoked_access;
  revoked_grants = keep (is_live_grant now) s.revoked_grants;
  window = clean_window s.window now;
  activation_window = clean_activation s.activation_window now;
}

unfoldable pub clean_vnu_refresh_state : Option VnuRefreshControlState → ℕ → VnuRefreshControlState
unfolding or_empty clean_source
clean_vnu_refresh_state input now = clean_source (or_empty input now) now

unfoldable pub revoke_exact :
    VnuRefreshControlState → LinkedPair → RevokedGrantTombstone → VnuRefreshControlState
revoke_exact s p tombstone = record s {
  active = none;
  lease = if lease_covers s.lease p then none else s.lease;
  revoked_access = insert p.access_token_id p.access_expires_at s.revoked_access;
  revoked_grants = insert p.grant_id tombstone s.revoked_grants;
}
