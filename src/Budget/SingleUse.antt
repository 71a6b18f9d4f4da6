-- ===== src/Budget/SingleUse.antt =====
-- apps/worker/src/vnu/vnu-probe-budget-durable-object.ts: a cross-detail permit is consumed once.
use hyeboard.Prelude.{
  ℕ, ◌≡◌, refl, Bool, true, false, some, List, [], ◌∷◌, String, arith, str_eq, str_eq_iff, lookup,
  keep, Dict, HasUniqueKeys, keep-HasUniqueKeys, at_key, all_entries, all_entries-at_key-insert,
  all_entries-keep_of, all_entries-insert, all_entries-lookup, ok, if◌then◌else◌, Option-cases, inl,
  inr,
}
use hyeboard.Budget.Checks.{CrossDetailLimits, IssuedPermit, ConsumeInput}
use hyeboard.Budget.Store.{
  BudgetStore, StoredPermit, Call, acquire, release, release_detail, consume, issue, fires,
  reserves, step, run, acquire_brc1_permit, release_brc1_permit, consume_cross_detail_permit,
  issue_cross_detail_permits, release_cross_detail_lease, alarm_fires, reserve, reschedule_alarm,
  active_detail_permits, active_leases, is_live_permit, consume_found, ConsumeAnswer, consumed,
  is_consumed, presents, store_of, store_or, parse_stored_permits, is_key, insert_issued,
}

abbrev is_spent : StoredPermit → Bool
is_spent p = is_key p.consumed_at

-- Whatever is stored under the hash has been consumed.
abbrev pub IsSpent : String → BudgetStore → Type 0
IsSpent hash s = all_entries (at_key is_spent hash) s.detail_permits ≡ true

-- No issuance of the history makes a permit of this hash.
abbrev pub issues : String → List IssuedPermit → Bool
issues hash [] = false
issues hash (p ∷ ps) = if str_eq p.permit_hash hash then true else issues hash ps

abbrev pub NotIssued : String → List (ℕ × Call) → Type 0
NotIssued hash [] = Unit
NotIssued hash ((now, issue ps limits) ∷ rest) = (issues hash ps ≡ false) × NotIssued hash rest
NotIssued hash ((now, _) ∷ rest) = NotIssued hash rest

module _ (hash : String) where
  abbrev Spent : Dict StoredPermit → Type 0
  Spent m = all_entries (at_key is_spent hash) m ≡ true

  keep-Spent : (now : ℕ) (m : Dict StoredPermit) → Spent m → Spent (keep (is_live_permit now) m)
  keep-Spent now m h = all_entries-keep_of (at_key is_spent hash) (is_live_permit now) m h

  insert_issued-Spent :
      (ps : List IssuedPermit) (m : Dict StoredPermit)
      → issues hash ps ≡ false
      → Spent m
      → Spent (insert_issued ps m)
  unfolding insert_issued
  insert_issued-Spent [] m n h = h
  insert_issued-Spent (p ∷ ps) m n h =
      insert_issued-Spent ps _ (ground arith)
        (all_entries-insert (at_key is_spent hash) p.permit_hash _ m h (ground arith))

  found-IsSpent :
      (s : BudgetStore) (permits : Dict StoredPermit) (leases : Dict ℕ) (p : StoredPermit)
      (i : ConsumeInput) (limits : CrossDetailLimits) (id : String) (now : ℕ)
      → Spent permits
      → IsSpent hash s
      → IsSpent hash (store_of s (consume_found s permits leases p i limits id now))
  unfolding consume_found reschedule_alarm
  found-IsSpent s permits leases p i limits id now m h = ground (
    arith,
    all_entries-insert (at_key is_spent hash) i.permit_hash
        (record { granted = p.granted; consumed_at = some now }) permits m (ground arith),
  )

  consume-IsSpent :
      (s : BudgetStore) (i : ConsumeInput) (limits : CrossDetailLimits) (id : String) (now : ℕ)
      → IsSpent hash s
      → IsSpent hash (store_of s (consume_cross_detail_permit s i limits id now))
  unfolding consume_cross_detail_permit active_detail_permits parse_stored_permits
  consume-IsSpent s i limits id now h =
      let m = keep-Spent now s.detail_permits h in
      elim (Option-cases (lookup i.permit_hash (keep (is_live_permit now) s.detail_permits))) [
        | inl e ↦ ground arith
        | inr (p, e) ↦ ground (
          arith,
          found-IsSpent s (keep (is_live_permit now) s.detail_permits)
              (active_leases s.detail_leases now) p i limits id now m h,
        )
      ]

  issue-IsSpent :
      (s : BudgetStore) (ps : List IssuedPermit) (limits : CrossDetailLimits) (now : ℕ)
      → issues hash ps ≡ false
      → IsSpent hash s
      → IsSpent hash (store_or s (issue_cross_detail_permits s ps limits now))
  unfolding issue_cross_detail_permits reschedule_alarm active_detail_permits parse_stored_permits
  issue-IsSpent s ps limits now n h = ground (
    arith,
    insert_issued-Spent ps (keep (is_live_permit now) s.detail_permits) n
        (keep-Spent now s.detail_permits h),
  )

  fires-IsSpent :
      (s : BudgetStore) (now : ℕ) → IsSpent hash s → IsSpent hash (store_or s (alarm_fires s now))
  unfolding alarm_fires reschedule_alarm active_detail_permits parse_stored_permits
  fires-IsSpent s now h = ground (arith, keep-Spent now s.detail_permits h)

  acquire-detail_permits :
      (s : BudgetStore) (id : String) (now : ℕ)
      → (store_of s (acquire_brc1_permit s id now)).detail_permits ≡ s.detail_permits
  unfolding acquire_brc1_permit reschedule_alarm
  acquire-detail_permits s id now = ground arith

  release-detail_permits :
      (s : BudgetStore) (id : String) (now : ℕ)
      → ((store_or s (release_brc1_permit s id now)).detail_permits ≡ s.detail_permits)
        × ((store_or s (release_cross_detail_lease s id now)).detail_permits ≡ s.detail_permits)
  unfolding release_brc1_permit release_cross_detail_lease reschedule_alarm
  release-detail_permits s id now = (ground arith, ground arith)

  reserve-detail_permits :
      (s : BudgetStore) (amount now : ℕ)
      → (store_of s (reserve s amount now)).detail_permits ≡ s.detail_permits
  unfolding reserve
  reserve-detail_permits s amount now = ground arith

  -- Whatever is stored under the hash stays consumed over any call but an issuance of the hash.
  step-IsSpent :
      (s : BudgetStore) (now : ℕ) (call : Call)
      → NotIssued hash ((now, call) ∷ [])
      → IsSpent hash s
      → IsSpent hash (step s now call)
  unfolding step
  step-IsSpent s now (acquire id) n h = rw (acquire-detail_permits s id now) h
  step-IsSpent s now (release id) n h = rw (release-detail_permits s id now).0 h
  step-IsSpent s now (release_detail id) n h = rw (release-detail_permits s id now).1 h
  step-IsSpent s now (consume i limits id) n h = consume-IsSpent s i limits id now h
  step-IsSpent s now (issue ps limits) (n, _) h = issue-IsSpent s ps limits now n h
  step-IsSpent s now fires n h = fires-IsSpent s now h
  step-IsSpent s now (reserves amount) n h = rw (reserve-detail_permits s amount now) h

  NotIssued-cons :
      (now : ℕ) (call : Call) (rest : List (ℕ × Call))
      → NotIssued hash ((now, call) ∷ rest)
      → NotIssued hash ((now, call) ∷ []) × NotIssued hash rest
  NotIssued-cons now (acquire id) rest n = (tt, n)
  NotIssued-cons now (release id) rest n = (tt, n)
  NotIssued-cons now (release_detail id) rest n = (tt, n)
  NotIssued-cons now (consume i limits id) rest n = (tt, n)
  NotIssued-cons now (issue ps limits) rest (n, ns) = ((n, tt), ns)
  NotIssued-cons now fires rest n = (tt, n)
  NotIssued-cons now (reserves amount) rest n = (tt, n)

  run-IsSpent :
      (history : List (ℕ × Call)) (s : BudgetStore)
      → NotIssued hash history
      → IsSpent hash s
      → IsSpent hash (run s history)
  unfolding run
  run-IsSpent [] s n h = h
  run-IsSpent ((now, call) ∷ rest) s n h =
      let (first, later) = NotIssued-cons now call rest n in
      run-IsSpent rest (step s now call) later (step-IsSpent s now call first h)

-- What is spent is not granted.
spent_refused :
    (s : BudgetStore) (i : ConsumeInput) (limits : CrossDetailLimits) (id : String) (now : ℕ)
    → IsSpent i.permit_hash s
    → (r : ConsumeAnswer) (s' : BudgetStore)
    → consume_cross_detail_permit s i limits id now ≡ ok (r, s')
    → is_consumed r ≡ false
unfolding consume_cross_detail_permit active_detail_permits parse_stored_permits presents
spent_refused s i limits id now h r s' e =
    let m = keep-Spent i.permit_hash now s.detail_permits h in
    let permits = keep (is_live_permit now) s.detail_permits in
    elim (Option-cases (lookup i.permit_hash permits)) [
      | inl q ↦ ground arith
      | inr (p, q) ↦ ground (
        arith,
        str_eq_iff i.permit_hash i.permit_hash,
        all_entries-lookup (at_key is_spent i.permit_hash) i.permit_hash p permits m q,
      )
    ]

consumed-IsSpent :
    (s s' : BudgetStore) (i : ConsumeInput) (limits : CrossDetailLimits) (id : String) (now : ℕ)
    (lease : String) (expires_at : ℕ) (envelope : String)
    → HasUniqueKeys s.detail_permits
    → consume_cross_detail_permit s i limits id now ≡ ok (consumed lease expires_at envelope, s')
    → IsSpent i.permit_hash s'
unfolding consume_cross_detail_permit consume_found reschedule_alarm active_detail_permits
    parse_stored_permits
consumed-IsSpent s s' i limits id now lease expires_at envelope u e =
    let permits = keep (is_live_permit now) s.detail_permits in
    elim (Option-cases (lookup i.permit_hash permits)) [
      | inl q ↦ ground arith
      | inr (p, q) ↦ ground (
        arith,
        all_entries-at_key-insert is_spent i.permit_hash
            (record { granted = p.granted; consumed_at = some now }) permits
            (keep-HasUniqueKeys (is_live_permit now) s.detail_permits u) refl,
      )
    ]

-- Once a presentation of a permit is granted, no later one of the same hash is, with whatever bindings,
-- limits and instant, after any history of calls in which no permit of that hash is issued anew. (The
-- keys of the stored table are distinct, as those of every object are.)
pub consume_once :
    (s s' : BudgetStore) (i j : ConsumeInput) (limits limits' : CrossDetailLimits) (id id' : String)
    (now later : ℕ) (lease : String) (expires_at : ℕ) (envelope : String)
    (history : List (ℕ × Call)) (r : ConsumeAnswer) (s'' : BudgetStore)
    → HasUniqueKeys s.detail_permits
    → consume_cross_detail_permit s i limits id now ≡ ok (consumed lease expires_at envelope, s')
    → NotIssued i.permit_hash history
    → j.permit_hash ≡ i.permit_hash
    → consume_cross_detail_permit (run s' history) j limits' id' later ≡ ok (r, s'')
    → is_consumed r ≡ false
consume_once s s' i j limits limits' id id' now later lease expires_at envelope history r s'' u e n
      h f =
    spent_refused (run s' history) j limits' id' later
      (rw h (
        run-IsSpent i.permit_hash history s' n
          (consumed-IsSpent s s' i limits id now lease expires_at envelope u e)))
      r s'' f
