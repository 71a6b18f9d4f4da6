-- ===== src/Resolver/Search.antt =====
-- apps/worker/src/vnu/vnu-student-id-resolver.ts: the loop of `resolveVnuStudentId`, a step to a
-- turn, and the whole call.
use hyeboard.Prelude.{
  number_of, ℕ, zero, suc, ◌+◌, ◌-◌, ◌&&◌, Option, none, some, List, [], ◌∷◌, String, length,
  is_positive_safe, if◌then◌else◌, Outcome, ok, throw, ensure, ◌>>◌,
}
use hyeboard.Resolver.Candidates.{
  resolved, is_student_code, configured_pool_width, local_candidates, correction_of,
  resolver_platform_concurrency,
}
use hyeboard.Resolver.Pool.{
  Fetched, coded, failed, Environment, at_start, after_first, at_cleanup, at_turn, ResolverError,
  not_converged, invalid_option, raised, Pool, Resolution, Step, ends, goes_on, is_target,
  candidate_at, racer, fill_pool, settle, scan_prefix, throw_or_cancel, win,
}

pub record ResolverOptions : Type 0 where
  pub own_std_id : ℕ
  pub own_code : ℕ
  pub target_code : String
  pub concurrency : ℕ
  pub platform_concurrency_limit : Option ℕ

abbrev pub platform_limit : ResolverOptions → ℕ
platform_limit o = elim o.platform_concurrency_limit [
  | none ↦ resolver_platform_concurrency
  | some n ↦ n
]

-- `parsePositiveSafeInteger`
unfoldable pub parse_positive_safe_integer {ℓ} :
    {E : Type 0} {A : Type ℓ}
    → ℕ
    → String
    → Outcome (ResolverError E) A
    → Outcome (ResolverError E) A
parse_positive_safe_integer value name k =
    ensure (is_positive_safe value) (invalid_option name) >> k

module _ {E : Type 0} (env : Environment E) where
  -- What precedes the first probe: the projected id.
  unfoldable pub validate : ResolverOptions → Outcome (ResolverError E) ℕ
  validate o =
      let projected = o.own_std_id + number_of o.target_code - o.own_code in
      let rest : Outcome (ResolverError E) ℕ = elim (env.caller at_start) [
        | some reason ↦ throw (raised reason)
        | none ↦ ok projected
      ] in
      parse_positive_safe_integer o.concurrency "concurrency" (
        parse_positive_safe_integer (platform_limit o) "platformConcurrencyLimit" (
          ensure
            (is_positive_safe o.own_std_id
              && is_positive_safe o.own_code
              && is_student_code o.target_code)
            not_converged
          >> (ensure (is_positive_safe projected) not_converged >> rest)))

  module _ (candidates : List ℕ) (target_code : String) (width : ℕ) where
    abbrev pub refill : Pool → Pool
    refill s = fill_pool (length candidates) width (length candidates) s

    abbrev pub winner_of : Pool → Option ℕ
    winner_of s = scan_prefix (length candidates) target_code s.settled 0

    abbrev pub after_answer : Pool → Step E
    after_answer s = elim (winner_of s) [
      | some w ↦ ends (win env candidates target_code w s)
      | none ↦ goes_on (refill s)
    ]

    abbrev pub take_outcome : Fetched E → ℕ → Pool → Step E
    take_outcome (failed e) index s = ends (throw_or_cancel env at_cleanup (raised e))
    take_outcome (coded code) index s = after_answer (settle target_code index code s)

    -- The race of the turn `k` has returned the probe `index`.
    unfoldable pub take_turn : ℕ → ℕ → Pool → Step E
    take_turn k index s = elim (env.caller (at_turn k)) [
      | some reason ↦ ends (throw (raised reason))
      | none ↦ take_outcome (env.fetch_student_code (candidate_at candidates index)) index s
    ]

    abbrev pub turn : ℕ → List ℕ → Pool → Step E
    turn k [] s = ends (throw_or_cancel env (at_turn k) not_converged)
    turn k (i ∷ is) s = take_turn k (racer (env.race k) i is) s

    -- The loop from the turn `k` on; `none` means that the fuel ran out.
    unfoldable pub run_loop : ℕ → ℕ → Pool → Option (Resolution E)
    run_loop zero k s = none
    run_loop (suc fuel) k s = elim (turn k s.active s) [
      | ends r ↦ some r
      | goes_on s' ↦ run_loop fuel (suc k) s'
    ]

  abbrev pub fresh_pool : Pool
  fresh_pool = record {
    active = [];
    next_index = 0;
    settled = λ i. none;
    earliest_exact = none;
    probes = 1;
  }

  unfoldable pub search_local : ResolverOptions → List ℕ → Option (Resolution E)
  search_local o candidates =
      let width = configured_pool_width o.concurrency (platform_limit o) (length candidates) in
      run_loop candidates o.target_code width (suc (length candidates)) 0
        (refill candidates o.target_code width fresh_pool)

  abbrev pub after_first_code : ResolverOptions → ℕ → Option String → Option (Resolution E)
  after_first_code o projected code =
      if is_target o.target_code code
      then some (ok (resolved projected o.target_code 1))
      else search_local o (local_candidates projected (correction_of projected o.target_code code))

  abbrev pub take_first : ResolverOptions → ℕ → Fetched E → Option (Resolution E)
  take_first o projected (failed e) = some (throw (raised e))
  take_first o projected (coded code) = after_first_code o projected code

  unfoldable pub probe_first : ResolverOptions → ℕ → Option (Resolution E)
  probe_first o projected = elim (env.caller after_first) [
    | some reason ↦ some (throw (raised reason))
    | none ↦ take_first o projected (env.fetch_student_code projected)
  ]

  unfoldable pub resolve_vnu_student_id : ResolverOptions → Option (Resolution E)
  resolve_vnu_student_id o = elim (validate o) [
    | throw e ↦ some (throw e)
    | ok projected ↦ probe_first o projected
  ]
