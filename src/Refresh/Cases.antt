-- ===== src/Refresh/Cases.antt =====
-- The cases of each transition of Transitions.antt, and what its tests mean.
use hyeboard.Prelude.{
  ℕ, ◌+◌, ◌<◌, ◌≡◌, refl, ◌⊎◌, Bool, true, false, Option, none, some, arith, min, str_eq_iff,
  lookup,
}
use hyeboard.Refresh.State.{
  LinkedPair, RefreshLease, VnuRefreshControlState, linked_grant_tombstone, same_pair, lease_covers,
  clean_vnu_refresh_state, revoke_exact, vnu_refresh_lease_ms, refresh_successor,
  exactly_links_grant_tombstone,
}
use hyeboard.Refresh.Transitions.{
  Reply, is_grant, activated, accepted, completed, aborted, revoked, Transition, changed,
  activated_state, leased_state, rotated_state, revoke_active, revoke_proof_and_active,
  activate_pair, begin_refresh, complete_refresh, abort_refresh, revoke_by_access, revoke_principal,
  activation_count, is_successor_authority,
}

pub same_pair-eq : (o : Option LinkedPair) (p : LinkedPair) → same_pair o p ≡ true → o ≡ some p
unfolding same_pair
same_pair-eq none p h = ground arith
same_pair-eq (some q) p h =
    ground (arith, str_eq_iff q.access_token_id p.access_token_id, str_eq_iff q.grant_id p.grant_id)

pub same_pair_self : (p : LinkedPair) → same_pair (some p) p ≡ true
unfolding same_pair
same_pair_self p =
    ground (arith, str_eq_iff p.access_token_id p.access_token_id, str_eq_iff p.grant_id p.grant_id)

pub lease_covers-eq :
    (o : Option RefreshLease) (p : LinkedPair)
    → lease_covers o p ≡ true
    → (l : RefreshLease) × (o ≡ some l) × (l.pair ≡ p)
unfolding lease_covers
lease_covers-eq none p h = ground arith
lease_covers-eq (some l) p h = (l, refl, ground (arith, same_pair-eq (some l.pair) p h))

-- `state` is what a call leaves when it goes on from the stored state, cleaned.
module _ (stored : Option VnuRefreshControlState) (now : ℕ) where
  abbrev pub cleaned : VnuRefreshControlState
  cleaned = clean_vnu_refresh_state stored now

  abbrev pub Settled : Transition → VnuRefreshControlState → Reply → Type 0
  Settled t s r = t ≡ changed stored s r

  pub activate_cases :
      (p : LinkedPair)
      → let t = activate_pair stored p now in
        (t.changed ≡ false)
        ⊎ (activation_count cleaned.activation_window < 5)
          × Settled t (activated_state cleaned p now) activated
  unfolding activate_pair
  activate_cases p = ground arith

  abbrev pub lease_end : LinkedPair → ℕ
  lease_end p = min (now + vnu_refresh_lease_ms) p.grant_expires_at

  pub begin_cases :
      (p : LinkedPair)
      → let t = begin_refresh stored p now in
        (t.changed ≡ false) × (is_grant t.result ≡ false)
        ⊎ (now < p.grant_expires_at)
          × (cleaned.active ≡ some p)
          × (lease_covers cleaned.lease p ≡ false)
          × (cleaned.window.count < 5)
          × Settled t (leased_state cleaned p (lease_end p)) (accepted (lease_end p))
  unfolding begin_refresh
  begin_cases p = ground (arith, same_pair-eq cleaned.active p)

  pub complete_cases :
      (old next : LinkedPair)
      → let t = complete_refresh stored old next now in
        (t.changed ≡ false) × (t.result ≡ revoked)
        ⊎ (now < old.grant_expires_at)
          × (cleaned.active ≡ some old)
          × (lease_covers cleaned.lease old ≡ true)
          × Settled t (rotated_state cleaned old next) completed
  unfolding complete_refresh
  complete_cases old next = ground (arith, same_pair-eq cleaned.active old)

  pub abort_cases :
      (p : LinkedPair) (terminal : Bool)
      → let t = abort_refresh stored p terminal now in
        (t.changed ≡ false)
        ⊎ (cleaned.active ≡ some p)
          × (lease_covers cleaned.lease p ≡ true)
          × (Settled t (record cleaned { lease = none }) aborted
              ⊎ Settled t (revoke_active cleaned) revoked)
  unfolding abort_refresh
  abort_cases p terminal = ground (arith, same_pair-eq cleaned.active p)

  pub revoke_by_access_cases :
      (p : LinkedPair)
      → let t = revoke_by_access stored p now in
        (t.changed ≡ false)
        ⊎ (cleaned.active ≡ some p)
          × Settled t (revoke_exact cleaned p (linked_grant_tombstone p)) revoked
  unfolding revoke_by_access
  revoke_by_access_cases p = ground (arith, same_pair-eq cleaned.active p)

  -- The proof is the active pair, or what an exact tombstone links, whose successor is active.
  abbrev pub Authorised : LinkedPair → Type 0
  Authorised proof =
      (cleaned.active ≡ some proof)
      ⊎ (exactly_links_grant_tombstone (lookup proof.grant_id cleaned.revoked_grants) proof ≡ true)
        × (is_successor_authority cleaned
              (refresh_successor (lookup proof.grant_id cleaned.revoked_grants))
            ≡ true)

  pub revoke_principal_cases :
      (proof : LinkedPair)
      → let t = revoke_principal stored proof now in
        (t.changed ≡ false)
        ⊎ (now < proof.grant_expires_at)
          × Authorised proof
          × Settled t (revoke_proof_and_active cleaned proof) revoked
  unfolding revoke_principal
  revoke_principal_cases proof = ground (arith, same_pair-eq cleaned.active proof)

-- A transition that changes the state leaves one of which `Q` holds.
pub record Kept {ℓ} (Q : VnuRefreshControlState → Type ℓ) (t : Transition) : Type ℓ where
  pub kept : t.changed ≡ true → Q t.state

module _ {ℓ} {Q : VnuRefreshControlState → Type ℓ} {t : Transition} where
  pub same-Kept : t.changed ≡ false → Kept Q t
  same-Kept e = record { kept = λ c. cc }

  pub settled-Kept :
      (stored : Option VnuRefreshControlState) (s : VnuRefreshControlState) (r : Reply)
      → t ≡ changed stored s r
      → Q s
      → Kept Q t
  unfolding changed
  settled-Kept stored s r e q = record { kept = λ _. rw e q }
