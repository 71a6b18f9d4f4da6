-- ===== src/Refresh/Revoked.antt =====
-- What a revocation and a rotation of apps/worker/src/vnu/vnu-refresh-control-durable-object.ts mean
-- for every history of calls that follows.
use hyeboard.Prelude.{
  ℕ, ◌≡◌, sym, ◌∙◌, ap, subst, inl, inr, ◌⊎◌, true, false, Option, none, some, List, arith, lookup,
  ok, HasUniqueKeys, keep, lookup-keep_unique,
}
use hyeboard.Refresh.State.{
  LinkedPair, VnuRefreshControlState, clean_vnu_refresh_state, clean_source, or_empty, empty_state,
  linked_grant_tombstone, refresh_successor_grant_tombstone, revoke_exact, is_live_grant,
  exactly_links_grant_tombstone,
}
use hyeboard.Refresh.Valid.{assert_linked_pair}
use hyeboard.Refresh.Transitions.{
  Reply, revoked, completed, Transition, changed, revoke_by_access, complete_refresh, rotated_state,
  apply_revoke_linked_pair_by_access,
}
use hyeboard.Refresh.Store.{
  Storage, Answer, Call, check, begin, revoke_access, complete, perform, transition, run, commit,
}
use hyeboard.Refresh.Cases.{cleaned, complete_cases}
use hyeboard.Refresh.Same.{commit-changed}
use hyeboard.Refresh.Revocation.{tombstones, IsDead, over, held, IsDead-insert_self}
use hyeboard.Refresh.Calls.{mutate_ok, checked_pair, apply_complete_refresh-IsRotation}
use hyeboard.Refresh.Permanence.{LeavesDead, exactly_links-IsDead}
use hyeboard.Refresh.Forever.{
  InOrder, StaysDead, run-IsDead, dead_refused, grants_access, quiescent-IsDead,
}

-- A revocation that answers `revoked` found an exact tombstone, or makes one.
revoke_by_access_revoked :
    (stored : Option VnuRefreshControlState) (p : LinkedPair) (now : ℕ)
    → let t = revoke_by_access stored p now in
      t.result ≡ revoked
      → (t.changed ≡ false)
          × (exactly_links_grant_tombstone (lookup p.grant_id (cleaned stored now).revoked_grants) p
              ≡ true)
        ⊎ (t
            ≡ changed stored
                (revoke_exact (cleaned stored now) p (linked_grant_tombstone p))
                revoked)
unfolding revoke_by_access
revoke_by_access_revoked stored p now e = ground arith

module _ (p : LinkedPair) (now : ℕ) where
  -- What the cleaned tombstones hold, the stored ones do.
  stored-IsDead :
      (o : Option VnuRefreshControlState)
      → HasUniqueKeys (tombstones o)
      → IsDead p now (cleaned o now).revoked_grants
      → StaysDead p now o
  unfolding clean_vnu_refresh_state clean_source or_empty empty_state keep
  stored-IsDead o u (over e) = over e
  stored-IsDead none u (held t e l) = held t e l
  stored-IsDead (some s) u (held t e l) =
      held t (lookup-keep_unique (is_live_grant now) p.grant_id t s.revoked_grants u e) l

  commit-IsDead :
      (storage : Storage) (s : VnuRefreshControlState) (r : Reply)
      → LeavesDead p now s
      → StaysDead p now (commit storage (changed storage.state s r)).state
  commit-IsDead storage s r d =
      commit-changed (StaysDead p now) storage s r d (λ quiet. quiescent-IsDead p now s quiet d)

  revoked-IsDead :
      (storage : Storage) (t : Transition)
      → HasUniqueKeys (tombstones storage.state)
      → revoke_by_access storage.state p now ≡ t
      → t.result ≡ revoked
      → StaysDead p now (commit storage t).state
  unfolding revoke_exact linked_grant_tombstone
  revoked-IsDead storage t u e r =
      subst (λ x. StaysDead p now (commit storage x).state) e
        (elim (revoke_by_access_revoked storage.state p now
          (ap (λ (x : Transition). x.result) e ∙ r)) [
            | inl (same, links) ↦
                subst (λ x. StaysDead p now x.state) (sym (commit_same storage _ same))
                  (stored-IsDead storage.state u (exactly_links-IsDead p now _ links))
            | inr new ↦
                subst (λ x. StaysDead p now (commit storage x).state) (sym new)
                  (commit-IsDead storage _ revoked
                    (IsDead-insert_self p now (linked_grant_tombstone p) _ (omega arith)))
          ])
    where
      commit_same : (st : Storage) (x : Transition) → x.changed ≡ false → commit st x ≡ st
      commit_same st x h = unfold commit in ground arith

  perform_revoked-IsDead :
      (storage : Storage) (a : Answer)
      → HasUniqueKeys (tombstones storage.state)
      → perform (revoke_access p) storage now ≡ ok a
      → a.reply ≡ revoked
      → StaysDead p now a.storage.state
  unfolding perform transition apply_revoke_linked_pair_by_access
  perform_revoked-IsDead storage a u e r =
      let (t, v, c, reply, storage') = mutate_ok (transition (revoke_access p)) storage now a e in
      let (_, same) = checked_pair (assert_linked_pair p) _ t c in
      subst (λ (x : Storage). StaysDead p now x.state) storage'
        (revoked-IsDead storage t u same (sym reply ∙ r))

  completed-IsDead :
      (storage : Storage) (next : LinkedPair) (t : Transition)
      → complete_refresh storage.state p next now ≡ t
      → t.result ≡ completed
      → StaysDead p now (commit storage t).state
  unfolding rotated_state revoke_exact refresh_successor_grant_tombstone
  completed-IsDead storage next t e r =
      subst (λ x. StaysDead p now (commit storage x).state) e
        (elim (complete_cases storage.state now p next) [
          | inl (_, q) ↦ cc (ap (λ (x : Transition). x.result) e)
          | inr (_, _, _, new) ↦
              subst (λ x. StaysDead p now (commit storage x).state) (sym new)
                (commit-IsDead storage _ completed (
                  IsDead-insert_self p now (refresh_successor_grant_tombstone p next) _
                    (omega arith)))
        ])

  perform_completed-IsDead :
      (storage : Storage) (next : LinkedPair) (a : Answer)
      → perform (complete p next) storage now ≡ ok a
      → a.reply ≡ completed
      → StaysDead p now a.storage.state
  unfolding perform transition
  perform_completed-IsDead storage next a e r =
      let (t, v, c, reply, storage') = mutate_ok (transition (complete p next)) storage now a e in
      let (_, _, same) = apply_complete_refresh-IsRotation storage.state p next now t c in
      subst (λ (x : Storage). StaysDead p now x.state) storage'
        (completed-IsDead storage next t same (sym reply ∙ r))

-- After a revocation by access that answers `revoked` at `now`, whatever calls follow, in order of
-- time and with any pairs, a check or a beginning refresh of that pair at `until` is
-- refused. (The keys of the stored tombstones are distinct, as those of every object are.)
pub revocation_is_permanent :
    (p : LinkedPair) (storage : Storage) (now : ℕ) (a : Answer) (history : List (ℕ × Call))
    (until : ℕ)
    → HasUniqueKeys (tombstones storage.state)
    → perform (revoke_access p) storage now ≡ ok a
    → a.reply ≡ revoked
    → InOrder now history until
    → (grants_access (perform (check p) (run a.storage history) until) ≡ false)
      × (grants_access (perform (begin p) (run a.storage history) until) ≡ false)
revocation_is_permanent p storage now a history until u e r o =
    dead_refused p (run a.storage history) until
      (run-IsDead p a.storage now history until o (perform_revoked-IsDead p now storage a u e r))

-- After a rotation from `old` to `next` that answers `completed` at `now`, whatever calls follow, in
-- order of time and with any pairs, a check or a beginning refresh of `old` is refused.
pub rotation_is_permanent :
    (old next : LinkedPair) (storage : Storage) (now : ℕ) (a : Answer) (history : List (ℕ × Call))
    (until : ℕ)
    → perform (complete old next) storage now ≡ ok a
    → a.reply ≡ completed
    → InOrder now history until
    → (grants_access (perform (check old) (run a.storage history) until) ≡ false)
      × (grants_access (perform (begin old) (run a.storage history) until) ≡ false)
rotation_is_permanent old next storage now a history until e r o =
    dead_refused old (run a.storage history) until (
      run-IsDead old a.storage now history until o
        (perform_completed-IsDead old now storage next a e r))
