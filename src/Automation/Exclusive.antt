-- ===== src/Automation/Exclusive.antt =====
-- apps/automation-worker/src/transport/lease.ts: a job has one holder at a time, and a lease that is
-- lost stays lost.
use hyeboard.Prelude.{
  ℕ, ◌+◌, ◌≤◌, ◌≡◌, refl, inl, inr, ◌∙◌, Bool, true, false, not, ◌&&◌, ◌||◌, Option, some, List, [],
  ◌∷◌, String, arith, lookup, lookup-insert, lookup-erase, Option-cases, str_eq, str_eq_iff,
}
use hyeboard.Automation.Lease.{
  LeaseRecord, JobLease, LeaseStore, owns_record, owns, acquire, is_held, renew, release, is_live,
  Call, acquires, renews, asserts, releases, step, run,
}

-- The call is not one of this lease, and does not draw its token.
abbrev pub is_foreign : JobLease → Call → Bool
is_foreign l (acquires job_id token fence ttl_ms) = not (str_eq token l.held_token)
is_foreign l (renews k) = not (str_eq k.held_token l.held_token)
is_foreign l (asserts k) = true
is_foreign l (releases k) = not (str_eq k.held_token l.held_token)

-- Calls of others, in order of time, none before `from` or after `until`.
abbrev pub AreForeign : JobLease → ℕ → List (ℕ × Call) → ℕ → Type 0
AreForeign l from [] until = from ≤ until
AreForeign l from ((now, call) ∷ rest) until =
    (from ≤ now) × (is_foreign l call ≡ true) × AreForeign l now rest until

-- How many calls of a history acquire the job.
abbrev acquires_job : LeaseStore → String → ℕ → Call → Bool
acquires_job s job now (acquires job_id token fence ttl_ms) =
    str_eq job_id job && not (is_live now (lookup job_id s.records))
acquires_job s job now _ = false

abbrev pub is_acquired_in : LeaseStore → String → List (ℕ × Call) → Bool
is_acquired_in s job [] = false
is_acquired_in s job ((now, call) ∷ rest) =
    acquires_job s job now call || is_acquired_in (step s now call) job rest

AreForeign-le :
    (l : JobLease) (history : List (ℕ × Call)) (from until : ℕ)
    → AreForeign l from history until
    → from ≤ until
AreForeign-le l [] from until a = a
AreForeign-le l ((now, call) ∷ rest) from until (t, f, a) =
    let later = AreForeign-le l rest now until a in omega arith

module _ (l : JobLease) where
  abbrev record_of : LeaseStore → Option LeaseRecord
  record_of s = lookup l.job_id s.records

  -- Somebody else's call leaves the record of a live lease alone.
  step-record_of :
      (s : LeaseStore) (now : ℕ) (call : Call)
      → owns s l now ≡ true
      → is_foreign l call ≡ true
      → (record_of (step s now call) ≡ record_of s) × (acquires_job s l.job_id now call ≡ false)
  unfolding owns step acquire renew release is_held
  step-record_of s now (acquires job_id token fence ttl_ms) o f =
      let made : LeaseRecord = record { token = token; fence = fence; expires_at = now + ttl_ms } in
      elim (Option-cases (lookup l.job_id s.records)) [
        | inl q ↦ (ground arith, ground arith)
        | inr (r, q) ↦ (
          ground (arith, str_eq_iff job_id l.job_id, lookup-insert job_id l.job_id made s.records),
          ground (arith, str_eq_iff job_id l.job_id),
        )
      ]
  step-record_of s now (renews k) o f =
      let renewed : LeaseRecord = record {
        token = k.held_token;
        fence = k.held_fence;
        expires_at = now + k.ttl_ms;
      } in
      elim (Option-cases (lookup l.job_id s.records)) [
        | inl q ↦ (ground arith, refl)
        | inr (r, q) ↦ (
          ground (
            arith,
            str_eq_iff k.job_id l.job_id,
            str_eq_iff r.token l.held_token,
            str_eq_iff r.token k.held_token,
            lookup-insert k.job_id l.job_id renewed s.records,
          ),
          refl,
        )
      ]
  step-record_of s now (asserts k) o f = (refl, refl)
  step-record_of s now (releases k) o f = elim (Option-cases (lookup l.job_id s.records)) [
    | inl q ↦ (ground arith, refl)
    | inr (r, q) ↦ (
      ground (
        arith,
        str_eq_iff k.job_id l.job_id,
        str_eq_iff r.token l.held_token,
        str_eq_iff r.token k.held_token,
        lookup-erase k.job_id l.job_id s.records,
      ),
      refl,
    )
  ]

  -- What is not held is not held later, whatever is called, unless the token is drawn anew.
  abbrev draws_token : Call → Bool
  draws_token (acquires job_id token fence ttl_ms) = str_eq token l.held_token
  draws_token _ = false

  -- Calls in order of time, none of which draws the token.
  abbrev pub AreOthers : ℕ → List (ℕ × Call) → ℕ → Type 0
  AreOthers from [] until = from ≤ until
  AreOthers from ((now, call) ∷ rest) until =
      (from ≤ now) × (draws_token call ≡ false) × AreOthers now rest until

  step-lost :
      (s : LeaseStore) (now at : ℕ) (call : Call)
      → now ≤ at
      → owns s l now ≡ false
      → draws_token call ≡ false
      → owns (step s at call) l at ≡ false
  unfolding owns step acquire renew release is_held
  step-lost s now at (acquires job_id token fence ttl_ms) t o d =
      let made : LeaseRecord = record { token = token; fence = fence; expires_at = at + ttl_ms } in
      ground (
        arith,
        Option-cases (lookup l.job_id s.records),
        lookup-insert job_id l.job_id made s.records,
      )
  step-lost s now at (renews k) t o d =
      let renewed : LeaseRecord = record {
        token = k.held_token;
        fence = k.held_fence;
        expires_at = at + k.ttl_ms;
      } in
      elim (Option-cases (lookup l.job_id s.records)) [
        | inl q ↦
            ground (
              arith,
              str_eq_iff k.job_id l.job_id,
              lookup-insert k.job_id l.job_id renewed s.records,
            )
        | inr (r, q) ↦ ground (
          arith,
          str_eq_iff k.job_id l.job_id,
          str_eq_iff k.held_token l.held_token,
          str_eq_iff r.token l.held_token,
          str_eq_iff r.token k.held_token,
          lookup-insert k.job_id l.job_id renewed s.records,
        )
      ]
  step-lost s now at (asserts k) t o d = ground (arith, Option-cases (lookup l.job_id s.records))
  step-lost s now at (releases k) t o d =
      ground
        (arith, Option-cases (lookup l.job_id s.records), lookup-erase k.job_id l.job_id s.records)

  run-lost :
      (history : List (ℕ × Call)) (s : LeaseStore) (now until : ℕ)
      → owns s l now ≡ false
      → AreOthers now history until
      → owns (run s history) l until ≡ false
  unfolding run step
  run-lost [] s now until o a = step-lost s now until (asserts l) a o refl
  run-lost ((at, call) ∷ rest) s now until o (t, d, a) =
      run-lost rest (step s at call) at until (step-lost s now at call t o d) a

  run-record_of :
      (history : List (ℕ × Call)) (s : LeaseStore) (r : LeaseRecord) (now until : ℕ)
      → record_of s ≡ some r
      → owns_record l until (some r) ≡ true
      → AreForeign l now history until
      → (record_of (run s history) ≡ some r) × (is_acquired_in s l.job_id history ≡ false)
  unfolding run owns
  run-record_of [] s r now until q o f = (q, refl)
  run-record_of ((at, call) ∷ rest) s r now until q o (t, f, a) =
      let le = AreForeign-le l rest at until a in
      let owned : owns s l at ≡ true = ground arith in
      let (same, quiet) = step-record_of s at call owned f in
      let (later, free) = run-record_of rest (step s at call) r at until (same ∙ q) o a in
      (later, ground arith)

-- While a lease lasts nobody else takes its job: if the record of the job is this lease's until `until`,
-- then after any calls by others up to that instant, in order of time, none of them has acquired the
-- job, and the lease is still its owner.
pub lease_exclusive :
    (l : JobLease) (history : List (ℕ × Call)) (s : LeaseStore) (now until : ℕ)
    → owns s l until ≡ true
    → AreForeign l now history until
    → (owns (run s history) l until ≡ true) × (is_acquired_in s l.job_id history ≡ false)
unfolding owns
lease_exclusive l history s now until o a = elim (Option-cases (lookup l.job_id s.records)) [
  | inl q ↦ ground arith
  | inr (r, q) ↦
      let (same, free) = run-record_of l history s r now until q (ground arith) a in
      (rw same (ground arith), free)
]

-- A lease that is not held any more, since it expired, was released or was taken over, is not
-- held later, and its renewal fails, whatever is called in between by whomever, the lease itself
-- included, as long as no new lease draws its token.
pub lost_lease_refused :
    (l : JobLease) (history : List (ℕ × Call)) (s : LeaseStore) (now until : ℕ)
    → owns s l now ≡ false
    → AreOthers l now history until
    → (is_held (run s history) l until ≡ false) × ((renew (run s history) l until).0 ≡ false)
unfolding is_held renew
lost_lease_refused l history s now until o a =
    let lost = run-lost l history s now until o a in (ground arith, ground arith)
