-- ===== src/Refresh/Preserve.antt =====
-- Every state that apps/worker/src/vnu/vnu-refresh-control-durable-object.ts puts is one that its next
-- call can parse.
use hyeboard.Prelude.{
  ℕ, ◌+◌, ◌≤◌, ◌≡◌, refl, inl, inr, Bool, true, false, Option, none, some, arith, lookup, ok,
  max_safe_integer, lookup-keep-none, keep,
}
use hyeboard.Refresh.State.{
  LinkedPair, VnuRefreshControlState, linked_grant_tombstone, revoke_exact, vnu_refresh_window_ms,
  clean_vnu_refresh_state, clean_source, or_empty, empty_state, is_live_access, is_live_grant,
}
use hyeboard.Refresh.Valid.{
  assert_linked_pair, assert_lease, is_lease_linked, parse_vnu_refresh_control_state,
}
use hyeboard.Refresh.Transitions.{
  activated_state, replace_active, revoke_active, revoke_current, activate_pair, begin_refresh,
  complete_refresh, abort_refresh, revoke_by_access, revoke_principal, collides,
  is_successor_authority,
}
use hyeboard.Refresh.Store.{Storage, Call, perform, storage_after}
use hyeboard.Refresh.Cases.{
  cleaned, activate_cases, begin_cases, complete_cases, abort_cases, revoke_by_access_cases,
  revoke_principal_cases, Authorised, Kept, same-Kept, settled-Kept, same_pair-eq,
}
use hyeboard.Refresh.Parsed.{IsValid, IsValid-parse_state, cleaned-IsValid}
use hyeboard.Refresh.Shapes.{
  IsValid-IsShaped, revoke_exact-IsValid, set_active-IsValid, linked_pair_parts,
}
use hyeboard.Refresh.Targets.{
  IsFreshPair, active_pair, replace_old-IsReplaced, next_activation-shape, leased_state-IsValid,
  rotated_state-IsValid, proof_revoked-IsValid,
}
use hyeboard.Refresh.Calls.{KeepsAll, IsRotation, Stores, Admits, perform_rule}

-- A pair that is not among the stored tombstones is not among the cleaned ones.
cleaned_free :
    (stored : Option VnuRefreshControlState) (now : ℕ) (q : LinkedPair)
    → collides stored q ≡ false
    → ((lookup q.access_token_id (cleaned stored now).revoked_access) ≡ none)
      × (lookup q.grant_id (cleaned stored now).revoked_grants ≡ none)
unfolding clean_vnu_refresh_state clean_source or_empty empty_state lookup keep
cleaned_free none now q h = (refl, refl)
cleaned_free (some s) now q h = (
  lookup-keep-none (is_live_access now) q.access_token_id s.revoked_access (ground arith),
  lookup-keep-none (is_live_grant now) q.grant_id s.revoked_grants (ground arith),
)

revoke_active_pair-IsValid :
    (s : VnuRefreshControlState) (q : LinkedPair)
    → IsValid s
    → s.active ≡ some q
    → IsValid (revoke_exact s q (linked_grant_tombstone q))
revoke_active_pair-IsValid s q v a =
    let shape = active_pair s q (IsValid-IsShaped s v) a in
    revoke_exact-IsValid s q _ (IsValid-IsShaped s v) a shape (linked_pair_parts q shape).2

revoke_current-IsValid :
    (o : Option LinkedPair) (s : VnuRefreshControlState)
    → s.active ≡ o
    → IsValid s
    → IsValid (revoke_current o s)
unfolding revoke_current
revoke_current-IsValid none s e v = v
revoke_current-IsValid (some a) s e v = revoke_active_pair-IsValid s a v e

authority_active :
    (s : VnuRefreshControlState) (o : Option LinkedPair)
    → is_successor_authority s o ≡ true
    → (a : LinkedPair) × (s.active ≡ some a)
unfolding is_successor_authority
authority_active s none h = cc
authority_active s (some a) h = (a, same_pair-eq s.active a (ground arith))

module _ (now : ℕ) (soon : now + vnu_refresh_window_ms ≤ max_safe_integer)
    (stored : Option VnuRefreshControlState)
    (parsed : parse_vnu_refresh_control_state stored ≡ ok stored) where
  valid : IsValid (cleaned stored now)
  valid = cleaned-IsValid now soon stored parsed

  activate-Kept :
      (q : LinkedPair)
      → assert_linked_pair q ≡ ok tt
      → IsFreshPair (cleaned stored now) q
      → Kept IsValid (activate_pair stored q now)
  unfolding activated_state replace_active
  activate-Kept q shape f = elim (activate_cases stored now q) [
    | inl e ↦ same-Kept e
    | inr (room, e) ↦
        let r =
          replace_old-IsReplaced (cleaned stored now).active (cleaned stored now) q refl valid f in
        settled-Kept stored _ _ e (
          set_active-IsValid _ q _ r.shaped shape r.access_free r.grant_free
            (next_activation-shape _ now soon valid.activation_shape room))
  ]

  begin-Kept : (q : LinkedPair) → Kept IsValid (begin_refresh stored q now)
  begin-Kept q = elim (begin_cases stored now q) [
    | inl (e, _) ↦ same-Kept e
    | inr (live, a, _, room, e) ↦
        settled-Kept stored _ _ e
          (leased_state-IsValid now soon (cleaned stored now) q valid live a room)
  ]

  complete-Kept :
      (old next : LinkedPair)
      → assert_linked_pair next ≡ ok tt
      → IsRotation stored old next
      → Kept IsValid (complete_refresh stored old next now)
  complete-Kept old next shape r = elim (complete_cases stored now old next) [
    | inl (e, _) ↦ same-Kept e
    | inr (live, a, l, e) ↦
        let (x, g) = cleaned_free stored now next r.no_collision in
        settled-Kept stored _ _ e (
          rotated_state-IsValid now soon (cleaned stored now) stored old next valid a l shape r x g)
  ]

  released-IsValid : IsValid (record (cleaned stored now) { lease = none })
  unfolding assert_lease is_lease_linked
  released-IsValid = let v = valid in ground arith

  revoke_active-IsValid : (s : VnuRefreshControlState) → IsValid s → IsValid (revoke_active s)
  unfolding revoke_active
  revoke_active-IsValid s v = revoke_current-IsValid s.active s refl v

  abort-Kept : (q : LinkedPair) (b : Bool) → Kept IsValid (abort_refresh stored q b now)
  abort-Kept q b = elim (abort_cases stored now q b) [
    | inl e ↦ same-Kept e
    | inr (a, _, inl e) ↦ settled-Kept stored _ _ e released-IsValid
    | inr (a, _, inr e) ↦ settled-Kept stored _ _ e (revoke_active-IsValid _ valid)
  ]

  revoke_by_access-Kept : (q : LinkedPair) → Kept IsValid (revoke_by_access stored q now)
  revoke_by_access-Kept q = elim (revoke_by_access_cases stored now q) [
    | inl e ↦ same-Kept e
    | inr (a, e) ↦ settled-Kept stored _ _ e (revoke_active_pair-IsValid _ q valid a)
  ]

  Authorised-active :
      (q : LinkedPair)
      → Authorised stored now q
      → (a : LinkedPair) × ((cleaned stored now).active ≡ some a)
  Authorised-active q (inl e) = (q, e)
  Authorised-active q (inr (_, h)) = authority_active (cleaned stored now) _ h

  revoke_principal-Kept :
      (q : LinkedPair) → assert_linked_pair q ≡ ok tt → Kept IsValid (revoke_principal stored q now)
  revoke_principal-Kept q shape = elim (revoke_principal_cases stored now q) [
    | inl e ↦ same-Kept e
    | inr (_, authority, e) ↦
        let (a, active) = Authorised-active q authority in
        settled-Kept stored _ _ e
          (proof_revoked-IsValid now soon (cleaned stored now) q a valid active shape)
  ]

  IsValid-KeepsAll : KeepsAll IsValid (IsFreshPair (cleaned stored now)) stored now
  IsValid-KeepsAll = record {
    by_activate = activate-Kept;
    by_begin = λ q _. begin-Kept q;
    by_complete = complete-Kept;
    by_abort = λ q b _. abort-Kept q b;
    by_access = λ q _. revoke_by_access-Kept q;
    by_principal = revoke_principal-Kept;
    by_cleaning = valid;
  }

-- What is stored can be parsed.
abbrev pub IsReadable : Option VnuRefreshControlState → Type 0
IsReadable o = parse_vnu_refresh_control_state o ≡ ok o

IsReadable-Stores : Stores IsValid IsReadable
unfolding parse_vnu_refresh_control_state
IsReadable-Stores = record { put = λ s v. rw (IsValid-parse_state s v); deleted = λ s _ _. refl }

-- Every call, in every readable storage and at an instant whose windows end within the safe integers,
-- leaves a readable storage. An activation does if its pair is fresh: none of its identifiers is
-- revoked, and it is the active pair or shares no identifier with it.
pub perform-IsReadable :
    (storage : Storage) (now : ℕ) (call : Call)
    → now + vnu_refresh_window_ms ≤ max_safe_integer
    → IsReadable storage.state
    → Admits (IsFreshPair (cleaned storage.state now)) call
    → IsReadable (storage_after storage (perform call storage now)).state
perform-IsReadable storage now call soon readable fresh =
    perform_rule IsValid (IsFreshPair (cleaned storage.state now)) IsReadable IsReadable-Stores
      storage now (λ parsed. IsValid-KeepsAll now soon storage.state parsed) call fresh readable
