-- ===== src/Automation/Lease.antt =====
-- apps/automation-worker/src/transport/lease.ts: `InMemoryJobLeaseStore`. The token of `randomUUID` is an
-- argument; the `released` flag of each lease is a list of tokens in the state.
use hyeboard.Prelude.{
  ℕ, ◌+◌, Bool, true, false, not, ◌&&◌, ◌||◌, Option, none, some, List, [], ◌∷◌, String, Dict,
  lookup, insert, erase, if◌then◌else◌, ◌==◌, ltb, str_eq,
}

pub record LeaseRecord : Type 0 where
  pub token : String
  pub fence : ℕ
  pub expires_at : ℕ

pub record JobLease : Type 0 where
  pub job_id : String
  pub held_token : String
  pub held_fence : ℕ
  pub ttl_ms : ℕ

pub record LeaseStore : Type 0 where
  pub records : Dict LeaseRecord
  pub released : List String

abbrev pub owns_record : JobLease → ℕ → Option LeaseRecord → Bool
owns_record l now none = false
owns_record l now (some r) =
    str_eq r.token l.held_token && r.fence == l.held_fence && ltb now r.expires_at

unfoldable pub owns : LeaseStore → JobLease → ℕ → Bool
owns s l now = owns_record l now (lookup l.job_id s.records)

abbrev pub is_released : String → List String → Bool
is_released t [] = false
is_released t (x ∷ xs) = str_eq x t || is_released t xs

abbrev pub is_live : ℕ → Option LeaseRecord → Bool
is_live now none = false
is_live now (some r) = ltb now r.expires_at

-- `acquire`
unfoldable pub acquire : LeaseStore → String → String → ℕ → ℕ → ℕ → Option JobLease × LeaseStore
acquire s job_id token fence ttl_ms now =
    if is_live now (lookup job_id s.records) then (none, s) else (
      some (record { job_id = job_id; held_token = token; held_fence = fence; ttl_ms = ttl_ms }),
      record s {
        records =
            insert job_id (record { token = token; fence = fence; expires_at = now + ttl_ms })
              s.records;
      },
    )

-- What a lease can still do.
unfoldable pub is_held : LeaseStore → JobLease → ℕ → Bool
is_held s l now = not (is_released l.held_token s.released) && owns s l now

-- `renew`, which writes to the record that the lease was made with.
unfoldable pub renew : LeaseStore → JobLease → ℕ → Bool × LeaseStore
renew s l now =
    if is_held s l now
    then (
      true,
      record s {
        records =
            insert l.job_id
              (record { token = l.held_token; fence = l.held_fence; expires_at = now + l.ttl_ms })
              s.records;
      },
    )
    else (false, s)

-- `release`
unfoldable pub release : LeaseStore → JobLease → ℕ → LeaseStore
release s l now =
    let flagged : LeaseStore = record s { released = l.held_token ∷ s.released } in
    if owns s l now then record flagged { records = erase l.job_id s.records } else flagged

-- A call of the store or of a lease. `assertHeld` throws unless the lease is held, and changes nothing.
pub data Call : Type 0 where
  acquires : String → String → ℕ → ℕ → Call
  renews asserts releases : JobLease → Call

unfoldable pub step : LeaseStore → ℕ → Call → LeaseStore
step s now (acquires job_id token fence ttl_ms) = (acquire s job_id token fence ttl_ms now).1
step s now (renews l) = (renew s l now).1
step s now (asserts l) = s
step s now (releases l) = release s l now

unfoldable pub run : LeaseStore → List (ℕ × Call) → LeaseStore
run s [] = s
run s ((now, call) ∷ rest) = run (step s now call) rest
