-- ===== src/Refresh/Exclusive.antt =====
-- apps/worker/src/vnu/vnu-refresh-control-durable-object.ts: a refresh lease is exclusive.
use hyeboard.Prelude.{
  ℕ, ◌≤◌, ◌<◌, ◌≡◌, sym, ◌∙◌, ap, subst, inl, inr, true, false, Option, none, some, arith, ok,
}
use hyeboard.Refresh.State.{
  LinkedPair, VnuRefreshControlState, clean_lease, clean_vnu_refresh_state, clean_source, or_empty,
  lease_covers,
}
use hyeboard.Refresh.Valid.{assert_linked_pair}
use hyeboard.Refresh.Transitions.{
  accepted, is_grant, Transition, changed, begin_refresh, leased_state, apply_begin_refresh,
}
use hyeboard.Refresh.Store.{
  Storage, Answer, begin, perform, transition, commit, is_quiescent_vnu_refresh_state,
}
use hyeboard.Refresh.Cases.{cleaned, begin_cases, same_pair_self, lease_end}
use hyeboard.Refresh.Same.{commit-changed}
use hyeboard.Refresh.Calls.{mutate_ok, mutate_cases, checked_pair}
use hyeboard.Refresh.Forever.{grants_access}

module _ (p : LinkedPair) (later : ℕ) where
  -- The pair still holds the lease at `later`.
  abbrev HoldsLease : Option VnuRefreshControlState → Type 0
  HoldsLease stored = lease_covers (cleaned stored later).lease p ≡ true

  leased-HoldsLease :
      (s : VnuRefreshControlState) (end : ℕ)
      → later < end
      → end ≤ p.grant_expires_at
      → HoldsLease (some (leased_state s p end))
  unfolding clean_vnu_refresh_state clean_source or_empty clean_lease leased_state lease_covers
  leased-HoldsLease s end before small = ground (arith, same_pair_self p)

  leased_quiet :
      (s : VnuRefreshControlState) (end : ℕ)
      → is_quiescent_vnu_refresh_state (leased_state s p end) ≡ true
      → HoldsLease none
  unfolding is_quiescent_vnu_refresh_state leased_state
  leased_quiet s end h = ground arith

  begin-HoldsLease :
      (storage : Storage) (now end : ℕ) (t : Transition)
      → begin_refresh storage.state p now ≡ t
      → t.result ≡ accepted end
      → later < end
      → HoldsLease (commit storage t).state
  unfolding changed
  begin-HoldsLease storage now end t e r before =
      subst (λ x. HoldsLease (commit storage x).state) e
        (elim (begin_cases storage.state now p) [
          | inl (_, q) ↦ cc (ap (λ (x : Transition). x.result) e)
          | inr (_, _, _, _, new) ↦
              let same : lease_end storage.state now p ≡ end = accepted_end (
                sym (ap (λ (x : Transition). x.result) new)
                ∙ ap (λ (x : Transition). x.result) e
                ∙ r) in
              subst (λ x. HoldsLease (commit storage x).state) (sym new)
                (commit-changed HoldsLease storage _ _
                  (leased-HoldsLease (cleaned storage.state now) _ (omega arith) (omega arith))
                  (leased_quiet (cleaned storage.state now) _))
        ])
    where
      accepted_end : {a b : ℕ} → accepted a ≡ accepted b → a ≡ b
      accepted_end h = ground arith

  held_refused :
      (storage : Storage)
      → HoldsLease storage.state
      → grants_access (perform (begin p) storage later) ≡ false
  unfolding perform transition apply_begin_refresh
  held_refused storage held = elim (mutate_cases (transition (begin p)) storage later) [
    | inl (e, m) ↦ rw m
    | inr (t, v, c, m) ↦
        let (_, same) = checked_pair (assert_linked_pair p) _ t c in
        rw m (elim (begin_cases storage.state later p) [
          | inl (_, q) ↦ ap (λ (x : Transition). is_grant x.result) (sym same) ∙ q
          | inr (_, _, free, _, _) ↦ cc
        ])
  ]

  -- Once a refresh of a pair is accepted with a lease until `end`, a second one of the pair that begins
  -- before `end` is not, unless another call came between them.
  pub begin_exclusive :
      (storage : Storage) (now end : ℕ) (a : Answer)
      → perform (begin p) storage now ≡ ok a
      → a.reply ≡ accepted end
      → later < end
      → grants_access (perform (begin p) a.storage later) ≡ false
  unfolding perform transition apply_begin_refresh
  begin_exclusive storage now end a e r before =
      let (t, v, c, reply, storage') = mutate_ok (transition (begin p)) storage now a e in
      let (_, same) = checked_pair (assert_linked_pair p) _ t c in
      held_refused a.storage (
        subst (λ (x : Storage). HoldsLease x.state) storage'
          (begin-HoldsLease storage now end t same (sym reply ∙ r) before))
