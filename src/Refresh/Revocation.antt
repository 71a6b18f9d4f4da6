-- ===== src/Refresh/Revocation.antt =====
-- What is revoked stays revoked: the grant tombstones of
-- apps/worker/src/vnu/vnu-refresh-control.ts across every history of calls.
use hyeboard.Prelude.{
  ℕ, ◌≤◌, ◌<◌, ◌≡◌, inl, inr, true, Option, none, some, [], arith, String, str_eq, str_eq_iff,
  lookup, insert, keep, lookup-insert, lookup-insert_self, lookup-keep-some, Dict, Bool-cases,
}
use hyeboard.Refresh.State.{
  LinkedPair, VnuRefreshControlState, RevokedGrantTombstone, grant_tombstone_expires_at,
  is_live_grant, is_truthy_tombstone,
}

abbrev pub Tombstones : Type 0
Tombstones = Dict RevokedGrantTombstone

abbrev pub tombstones : Option VnuRefreshControlState → Tombstones
tombstones none = []
tombstones (some s) = s.revoked_grants

-- The pair is of no use at `now`: its grant has expired, or a tombstone holds that long.
pub data IsDead (p : LinkedPair) (now : ℕ) (grants : Tombstones) : Type 0 where
  over : p.grant_expires_at ≤ now → IsDead p now grants
  held :
      (t : RevokedGrantTombstone)
      → lookup p.grant_id grants ≡ some t
      → p.grant_expires_at ≤ grant_tombstone_expires_at t
      → IsDead p now grants

module _ (p : LinkedPair) (now : ℕ) where
  pub IsDead-later : (then : ℕ) (g : Tombstones) → then ≤ now → IsDead p then g → IsDead p now g
  IsDead-later then g h (over e) = over (omega arith)
  IsDead-later then g h (held t e l) = held t e l

  pub IsDead-keep : (g : Tombstones) → IsDead p now g → IsDead p now (keep (is_live_grant now) g)
  IsDead-keep g (over e) = over e
  IsDead-keep g (held t e l) = elim (Bool-cases (is_live_grant now p.grant_id t)) [
    | inl live ↦ held t (lookup-keep-some (is_live_grant now) p.grant_id t g e live) l
    | inr dead ↦ over (ground arith)
  ]

  -- A key that had no tombstone may get any.
  pub IsDead-insert_new :
      (k : String) (t : RevokedGrantTombstone) (g : Tombstones)
      → lookup k g ≡ none
      → IsDead p now g
      → IsDead p now (insert k t g)
  IsDead-insert_new k t g absent (over e) = over e
  IsDead-insert_new k t g absent (held u e l) =
      held u (ground (arith, lookup-insert k p.grant_id t g, str_eq_iff k p.grant_id)) l

  -- A key that has one gets one that lasts no less.
  pub IsDead-insert_over :
      (k : String) (t u : RevokedGrantTombstone) (g : Tombstones)
      → lookup k g ≡ some u
      → grant_tombstone_expires_at u ≤ grant_tombstone_expires_at t
      → IsDead p now g
      → IsDead p now (insert k t g)
  IsDead-insert_over k t u g present longer (over e) = over e
  IsDead-insert_over k t u g present longer (held w e l) = elim (Bool-cases (str_eq k p.grant_id)) [
    | inl same ↦
        held t (ground (arith, lookup-insert k p.grant_id t g))
          (ground (arith, str_eq_iff k p.grant_id))
    | inr other ↦ held w (ground (arith, lookup-insert k p.grant_id t g)) l
  ]

  pub IsDead-insert_self :
      (t : RevokedGrantTombstone) (g : Tombstones)
      → p.grant_expires_at ≤ grant_tombstone_expires_at t
      → IsDead p now (insert p.grant_id t g)
  IsDead-insert_self t g l = held t (lookup-insert_self p.grant_id t g) l

  pub IsDead-truthy :
      (g : Tombstones)
      → now < p.grant_expires_at
      → IsDead p now g
      → is_truthy_tombstone (lookup p.grant_id g) ≡ true
  IsDead-truthy g live (over e) = absurd (omega arith)
  IsDead-truthy g live (held t e l) = ground arith
