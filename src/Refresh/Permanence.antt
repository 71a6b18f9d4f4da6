-- ===== src/Refresh/Permanence.antt =====
-- apps/worker/src/vnu/vnu-refresh-control.ts: a pair that is dead stays dead under every call, and
-- every check refuses it.
use hyeboard.Prelude.{
  ℕ, ◌≡◌, refl, ◌⊎◌, inl, inr, Bool, true, Option, none, some, [], arith, lookup, insert, ok,
  if_cases, lookup-insert, lookup-insert_self, str_eq_iff,
}
use hyeboard.Refresh.State.{
  LinkedPair, VnuRefreshControlState, RevokedGrantTombstone, grant_tombstone_expires_at,
  linked_grant_tombstone, same_pair, clean_vnu_refresh_state, clean_source, or_empty, revoke_exact,
  expiry, linked, exactly_links_grant_tombstone, empty_state,
}
use hyeboard.Refresh.Valid.{parse_vnu_refresh_control_state}
use hyeboard.Refresh.Transitions.{
  activated_state, replace_active, replace_old, revoke_current, leased_state, rotated_state,
  revoke_active, revoke_proof_and_active, activate_pair, begin_refresh, complete_refresh,
  abort_refresh, revoke_by_access, revoke_principal,
}
use hyeboard.Refresh.Calls.{KeepsAll}
use hyeboard.Refresh.Cases.{
  cleaned, activate_cases, begin_cases, complete_cases, abort_cases, revoke_by_access_cases,
  revoke_principal_cases, Authorised, Kept, same-Kept, settled-Kept,
}
use hyeboard.Refresh.Parsed.{cleaned_unrevoked}
use hyeboard.Refresh.Revocation.{
  Tombstones, tombstones, IsDead, held, IsDead-keep, IsDead-insert_new, IsDead-insert_over,
}

module _ (p : LinkedPair) (now : ℕ) where
  abbrev pub LeavesDead : VnuRefreshControlState → Type 0
  LeavesDead s = IsDead p now s.revoked_grants

  pub cleaned-IsDead :
      (stored : Option VnuRefreshControlState)
      → IsDead p now (tombstones stored)
      → IsDead p now (cleaned stored now).revoked_grants
  unfolding clean_vnu_refresh_state clean_source or_empty empty_state
  cleaned-IsDead none d = IsDead-keep p now [] d
  cleaned-IsDead (some s) d = IsDead-keep p now s.revoked_grants d

  -- `s` has no tombstone for its active pair.
  abbrev Fresh : Option LinkedPair → Tombstones → Type 0
  Fresh o g = (a : LinkedPair) → o ≡ some a → lookup a.grant_id g ≡ none

  replace-IsDead :
      (o : Option LinkedPair) (s : VnuRefreshControlState) (q : LinkedPair)
      → Fresh o s.revoked_grants
      → IsDead p now s.revoked_grants
      → IsDead p now (replace_old o s q).revoked_grants
  unfolding replace_old revoke_exact
  replace-IsDead none s q fresh d = d
  replace-IsDead (some old) s q fresh d =
      if_cases LeavesDead (same_pair (some old) q) (λ _. d)
        (λ _. IsDead-insert_new p now old.grant_id _ s.revoked_grants (fresh old refl) d)

  revoke_exact-IsDead :
      (s : VnuRefreshControlState) (a : LinkedPair) (t : RevokedGrantTombstone)
      → lookup a.grant_id s.revoked_grants ≡ none
      → IsDead p now s.revoked_grants
      → IsDead p now (revoke_exact s a t).revoked_grants
  unfolding revoke_exact
  revoke_exact-IsDead s a t absent d =
      IsDead-insert_new p now a.grant_id t s.revoked_grants absent d

  revoke_current-IsDead :
      (o : Option LinkedPair) (s : VnuRefreshControlState)
      → Fresh o s.revoked_grants
      → IsDead p now s.revoked_grants
      → IsDead p now (revoke_current o s).revoked_grants
  unfolding revoke_current
  revoke_current-IsDead none s fresh d = d
  revoke_current-IsDead (some a) s fresh d = revoke_exact-IsDead s a _ (fresh a refl) d

module _ (p : LinkedPair) (now : ℕ) (stored : Option VnuRefreshControlState)
    (parsed : parse_vnu_refresh_control_state stored ≡ ok stored)
    (dead : IsDead p now (tombstones stored)) where
  IsDead-now : IsDead p now (cleaned stored now).revoked_grants
  IsDead-now = cleaned-IsDead p now stored dead

  fresh : Fresh p now (cleaned stored now).active (cleaned stored now).revoked_grants
  fresh a e = (cleaned_unrevoked now stored a parsed e).1

  activate-Kept : (q : LinkedPair) → Kept (LeavesDead p now) (activate_pair stored q now)
  unfolding activated_state replace_active
  activate-Kept q = elim (activate_cases stored now q) [
    | inl e ↦ same-Kept e
    | inr (_, e) ↦
        settled-Kept stored _ _ e
          (replace-IsDead p now (cleaned stored now).active (cleaned stored now) q fresh IsDead-now)
  ]

  begin-Kept : (q : LinkedPair) → Kept (LeavesDead p now) (begin_refresh stored q now)
  unfolding leased_state
  begin-Kept q = elim (begin_cases stored now q) [
    | inl (e, _) ↦ same-Kept e
    | inr (_, _, _, _, e) ↦ settled-Kept stored _ _ e IsDead-now
  ]

  complete-Kept : (q r : LinkedPair) → Kept (LeavesDead p now) (complete_refresh stored q r now)
  unfolding rotated_state
  complete-Kept q r = elim (complete_cases stored now q r) [
    | inl (e, _) ↦ same-Kept e
    | inr (_, a, _, e) ↦
        settled-Kept stored _ _ e
          (revoke_exact-IsDead p now (cleaned stored now) q _ (fresh q a) IsDead-now)
  ]

  revoke_active-IsDead : IsDead p now (revoke_active (cleaned stored now)).revoked_grants
  unfolding revoke_active
  revoke_active-IsDead =
      revoke_current-IsDead p now (cleaned stored now).active (cleaned stored now) fresh IsDead-now

  abort-Kept :
      (q : LinkedPair) (terminal : Bool)
      → Kept (LeavesDead p now) (abort_refresh stored q terminal now)
  abort-Kept q terminal = elim (abort_cases stored now q terminal) [
    | inl e ↦ same-Kept e
    | inr (_, _, inl e) ↦ settled-Kept stored _ _ e IsDead-now
    | inr (_, _, inr e) ↦ settled-Kept stored _ _ e revoke_active-IsDead
  ]

  revoke_by_access-Kept : (q : LinkedPair) → Kept (LeavesDead p now) (revoke_by_access stored q now)
  revoke_by_access-Kept q = elim (revoke_by_access_cases stored now q) [
    | inl e ↦ same-Kept e
    | inr (a, e) ↦
        settled-Kept stored _ _ e
          (revoke_exact-IsDead p now (cleaned stored now) q _ (fresh q a) IsDead-now)
  ]

exactly_links-tombstone :
    (o : Option RevokedGrantTombstone) (q : LinkedPair)
    → exactly_links_grant_tombstone o q ≡ true
    → (u : RevokedGrantTombstone) × (o ≡ some u)
      × (grant_tombstone_expires_at u ≡ q.grant_expires_at)
unfolding exactly_links_grant_tombstone
exactly_links-tombstone none q h = ground arith
exactly_links-tombstone (some (expiry n)) q h = ground arith
exactly_links-tombstone (some (linked a e g t)) q h = (linked a e g t, refl, ground arith)

pub exactly_links-IsDead :
    (p : LinkedPair) (now : ℕ) (g : Tombstones)
    → exactly_links_grant_tombstone (lookup p.grant_id g) p ≡ true
    → IsDead p now g
exactly_links-IsDead p now g h =
    let (u, e, l) = exactly_links-tombstone (lookup p.grant_id g) p h in held u e (omega arith)

module _ (p : LinkedPair) (now : ℕ) (q : LinkedPair) where
  proven : RevokedGrantTombstone
  proven = linked_grant_tombstone q

  twice_revoked :
      (g : Tombstones)
      → lookup q.grant_id g ≡ none
      → IsDead p now g
      → IsDead p now (insert q.grant_id proven (insert q.grant_id proven g))
  twice_revoked g absent d =
      IsDead-insert_over p now q.grant_id proven proven (insert q.grant_id proven g)
        (lookup-insert_self q.grant_id proven g) (omega arith)
        (IsDead-insert_new p now q.grant_id proven g absent d)

  over_linked :
      (g : Tombstones)
      → exactly_links_grant_tombstone (lookup q.grant_id g) q ≡ true
      → IsDead p now g
      → IsDead p now (insert q.grant_id proven g)
  unfolding proven linked_grant_tombstone
  over_linked g links d =
      let (u, e, l) = exactly_links-tombstone (lookup q.grant_id g) q links in
      IsDead-insert_over p now q.grant_id proven u g e (omega arith) d

  -- The active pair has another grant than the linked one, and no tombstone yet.
  still-Fresh :
      (o : Option LinkedPair) (g : Tombstones)
      → exactly_links_grant_tombstone (lookup q.grant_id g) q ≡ true
      → Fresh p now o g
      → Fresh p now o (insert q.grant_id proven g)
  still-Fresh o g links fresh a e =
      let (u, present, _) = exactly_links-tombstone (lookup q.grant_id g) q links in
      ground (
        arith,
        lookup-insert q.grant_id a.grant_id proven g,
        str_eq_iff q.grant_id a.grant_id,
        fresh a e,
      )

  revoke_proof-IsDead :
      (s : VnuRefreshControlState)
      → Fresh p now s.active s.revoked_grants
      → (s.active ≡ some q)
        ⊎ (exactly_links_grant_tombstone (lookup q.grant_id s.revoked_grants) q ≡ true)
      → IsDead p now s.revoked_grants
      → IsDead p now (revoke_proof_and_active s q).revoked_grants
  unfolding revoke_proof_and_active revoke_active revoke_current revoke_exact proven
  revoke_proof-IsDead s fresh (inl e) d = rw e (twice_revoked s.revoked_grants (fresh q e) d)
  revoke_proof-IsDead s fresh (inr links) d =
      revoke_current-IsDead p now s.active _ (still-Fresh s.active s.revoked_grants links fresh)
        (over_linked s.revoked_grants links d)

module _ (p : LinkedPair) (now : ℕ) (stored : Option VnuRefreshControlState)
    (parsed : parse_vnu_refresh_control_state stored ≡ ok stored)
    (dead : IsDead p now (tombstones stored)) where
  proof_of :
      (q : LinkedPair)
      → Authorised stored now q
      → ((cleaned stored now).active ≡ some q)
        ⊎ (exactly_links_grant_tombstone (lookup q.grant_id (cleaned stored now).revoked_grants) q
            ≡ true)
  proof_of q (inl e) = inl e
  proof_of q (inr (links, _)) = inr links

  revoke_principal-Kept : (q : LinkedPair) → Kept (LeavesDead p now) (revoke_principal stored q now)
  revoke_principal-Kept q = elim (revoke_principal_cases stored now q) [
    | inl e ↦ same-Kept e
    | inr (_, authority, e) ↦ settled-Kept stored _ _ e (
        revoke_proof-IsDead p now q (cleaned stored now) (fresh p now stored parsed dead)
          (proof_of q authority) (IsDead-now p now stored parsed dead))
  ]

  -- What a call that goes on from this state leaves.
  pub dead-KeepsAll : KeepsAll (LeavesDead p now) (λ _. Unit {0}) stored now
  dead-KeepsAll = record {
    by_activate = λ q _ _. activate-Kept p now stored parsed dead q;
    by_begin = λ q _. begin-Kept p now stored parsed dead q;
    by_complete = λ q r _ _. complete-Kept p now stored parsed dead q r;
    by_abort = λ q terminal _. abort-Kept p now stored parsed dead q terminal;
    by_access = λ q _. revoke_by_access-Kept p now stored parsed dead q;
    by_principal = λ q _. revoke_principal-Kept q;
    by_cleaning = IsDead-now p now stored parsed dead;
  }
