-- ===== src/Refresh/Forever.antt =====
-- Histories of calls on one principal: apps/worker/src/vnu/vnu-refresh-control-durable-object.ts.
use hyeboard.Prelude.{
  ℕ, ◌≤◌, ◌<◌, ◌≡◌, refl, subst, inl, inr, Bool, true, false, Option, none, some, List, [], ◌∷◌,
  arith, Outcome, ok, throw,
}
use hyeboard.Refresh.State.{
  LinkedPair, VnuRefreshControlState, clean_vnu_refresh_state, clean_source, clean_active, or_empty,
  empty_state,
}
use hyeboard.Refresh.Valid.{Fault, parse_vnu_refresh_control_state, assert_linked_pair}
use hyeboard.Refresh.Transitions.{
  is_grant, revoked, Transition, check_access, begin_refresh, apply_check_access,
  apply_begin_refresh,
}
use hyeboard.Refresh.Store.{
  Storage, Answer, Call, activate, check, begin, perform, transition, storage_after, run,
  is_quiescent_vnu_refresh_state, is_empty, mutate,
}
use hyeboard.Refresh.Cases.{cleaned, same_pair-eq, begin_cases}
use hyeboard.Refresh.Parsed.{cleaned_unrevoked}
use hyeboard.Refresh.Revocation.{Tombstones, tombstones, IsDead, IsDead-later, IsDead-truthy}
use hyeboard.Refresh.Calls.{Stores, Admits, perform_rule, mutate_cases, check-mutate, checked_pair}
use hyeboard.Refresh.Permanence.{LeavesDead, dead-KeepsAll, cleaned-IsDead}

-- The call lets its caller use or refresh the pair.
abbrev pub grants_access : Outcome Fault Answer → Bool
grants_access (throw e) = false
grants_access (ok a) = is_grant a.reply

-- The calls of a history come in order, none before `from` or after `until`.
abbrev pub InOrder : ℕ → List (ℕ × Call) → ℕ → Type 0
InOrder from [] until = from ≤ until
InOrder from ((now, call) ∷ rest) until = (from ≤ now) × InOrder now rest until

cleaned_active-lt :
    (stored : Option VnuRefreshControlState) (now : ℕ) (p : LinkedPair)
    → (cleaned stored now).active ≡ some p
    → now < p.grant_expires_at
unfolding clean_vnu_refresh_state clean_source clean_active or_empty empty_state
cleaned_active-lt none now p e = ground arith
cleaned_active-lt (some s) now p e = ground arith

empty_tombstones : (g : Tombstones) → is_empty g ≡ true → g ≡ []
empty_tombstones [] e = refl
empty_tombstones (t ∷ g) e = cc

module _ (p : LinkedPair) where
  abbrev pub StaysDead : ℕ → Option VnuRefreshControlState → Type 0
  StaysDead now o = IsDead p now (tombstones o)

  pub quiescent-IsDead :
      (now : ℕ) (s : VnuRefreshControlState)
      → is_quiescent_vnu_refresh_state s ≡ true
      → LeavesDead p now s
      → StaysDead now none
  unfolding is_quiescent_vnu_refresh_state
  quiescent-IsDead now s quiet d =
      subst (IsDead p now) (empty_tombstones s.revoked_grants (ground arith)) d

  dead-Stores : (now : ℕ) → Stores (LeavesDead p now) (StaysDead now)
  dead-Stores now = record { put = λ s d. d; deleted = quiescent-IsDead now }

  admitted : (call : Call) → Admits (λ _. Unit {0}) call
  admitted (activate q) = tt
  admitted _ = tt

  -- No call revives a dead pair.
  pub perform-IsDead :
      (storage : Storage) (now : ℕ) (call : Call)
      → StaysDead now storage.state
      → StaysDead now (storage_after storage (perform call storage now)).state
  perform-IsDead storage now call d =
      perform_rule (LeavesDead p now) (λ _. Unit {0}) (StaysDead now) (dead-Stores now) storage now
        (λ parsed. dead-KeepsAll p now storage.state parsed d) call (admitted call) d

  pub run-IsDead :
      (storage : Storage) (from : ℕ) (history : List (ℕ × Call)) (until : ℕ)
      → InOrder from history until
      → StaysDead from storage.state
      → StaysDead until (run storage history).state
  unfolding run
  run-IsDead storage from [] until o d = IsDead-later p until from _ o d
  run-IsDead storage from ((now, call) ∷ rest) until o d =
      run-IsDead (storage_after storage (perform call storage now)) now rest until o.1
        (perform-IsDead storage now call (IsDead-later p now from _ o.0 d))

  check_access-dead :
      (stored : Option VnuRefreshControlState) (now : ℕ)
      → StaysDead now stored
      → (check_access stored p now).result ≡ revoked
  unfolding check_access
  check_access-dead stored now d =
      let d' = cleaned-IsDead p now stored d in
      ground (
        arith,
        same_pair-eq (cleaned stored now).active p,
        cleaned_active-lt stored now p,
        λ (l : now < p.grant_expires_at). IsDead-truthy p now _ l d',
      )

  begin_refresh-dead :
      (stored : Option VnuRefreshControlState) (now : ℕ)
      → parse_vnu_refresh_control_state stored ≡ ok stored
      → StaysDead now stored
      → is_grant (begin_refresh stored p now).result ≡ false
  begin_refresh-dead stored now parsed d =
      let d' = cleaned-IsDead p now stored d in
      elim (begin_cases stored now p) [
        | inl (_, e) ↦ e
        | inr (live, a, _, _, _) ↦
            let t = IsDead-truthy p now _ live d' in
            let (_, absent) = cleaned_unrevoked now stored p parsed a in ground arith
      ]

  mutate-refuses :
      (f : Option VnuRefreshControlState → ℕ → Outcome Fault Transition) (storage : Storage)
      (now : ℕ)
      → (parse_vnu_refresh_control_state storage.state ≡ ok storage.state
          → (t : Transition) → f storage.state now ≡ ok t
          → is_grant t.result ≡ false)
      → grants_access (mutate f storage now) ≡ false
  mutate-refuses f storage now k = elim (mutate_cases f storage now) [
    | inl (e, m) ↦ rw m
    | inr (t, v, r, m) ↦ rw m (k v t r)
  ]

  -- A dead pair is neither active nor refreshed.
  pub dead_refused :
      (storage : Storage) (now : ℕ)
      → StaysDead now storage.state
      → (grants_access (perform (check p) storage now) ≡ false)
        × (grants_access (perform (begin p) storage now) ≡ false)
  unfolding transition apply_check_access apply_begin_refresh
  dead_refused storage now d = (
    rw (check-mutate storage p now) (
        mutate-refuses _ storage now λ v t e.
          let (_, same) = checked_pair (assert_linked_pair p) _ t e in
          let r = check_access-dead storage.state now d in ground arith),
    rw (begin-mutate storage) (
        mutate-refuses _ storage now λ v t e.
          let (_, same) = checked_pair (assert_linked_pair p) _ t e in
          let r = begin_refresh-dead storage.state now v d in ground arith),
  )
    where
      begin-mutate :
          (st : Storage) → perform (begin p) st now ≡ mutate (transition (begin p)) st now
      begin-mutate st = unfold perform in refl
