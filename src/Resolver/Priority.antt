-- ===== src/Resolver/Priority.antt =====
-- apps/worker/src/vnu/vnu-student-id-resolver.ts: what `resolveVnuStudentId` returns, whatever order
-- the probes finish in.
use hyeboard.Prelude.{
  read_digits, ℕ, zero, suc, if◌then◌else◌, ◌≤◌, ◌<◌, ◌≡◌, ◌≢◌, refl, ◌∙◌, ap, ◌⊎◌, inl, inr, false,
  Option, none, some, List, [], ◌∷◌, String, arith, length, ok, throw, Bool-cases, Option-cases,
}
use hyeboard.Resolver.Candidates.{
  VnuStudentIdResolution, member, resolved, resolver_max_probes, configured_pool_width,
  local_candidates, correction_of,
}
use hyeboard.Resolver.Pool.{
  Fetched, coded, failed, Environment, Moment, after_first, not_converged, invalid_option, raised,
  Resolution, is_target, rejected, scan_prefix,
}
use hyeboard.Resolver.Search.{
  ResolverOptions, platform_limit, parse_positive_safe_integer, validate, fresh_pool, search_local,
  refill, after_first_code, take_first, probe_first, resolve_vnu_student_id,
}
use hyeboard.Resolver.Window.{length-local_candidates-le, resolved-std_id}
use hyeboard.Resolver.Occupied.{IsPool, pending-fill_pool}
use hyeboard.Resolver.Sequential.{probe_in_order, IsCause}
use hyeboard.Resolver.Outcomes.{IsExplained}
use hyeboard.Resolver.Turns.{refill-IsReady, run_loop_lem}

pub nothing_settled : (fuel : ℕ) (t : String) → scan_prefix fuel t (λ i. none) 0 ≡ none
unfolding scan_prefix
nothing_settled zero t = refl
nothing_settled (suc fuel) t = refl

module _ {E : Type 0} (env : Environment E) where
  pub fresh_pool-IsPool :
      (candidates : List ℕ) (target_code : String) (width : ℕ)
      → IsPool env candidates target_code width (fresh_pool env)
  unfolding member
  fresh_pool-IsPool candidates target_code width = record {
    known = λ i l. (let off : ⊥ = omega arith in elim off [ ]);
    answered = λ i code e. cc;
    running = λ i m. (let off : ⊥ = ground arith in elim off [ ]);
    exact = λ e q. cc;
    started = omega arith;
    counted = refl;
    within = omega arith;
  }

  -- The candidates that a code of the projected id leaves, the projected id first.
  abbrev pub search_order : ResolverOptions → ℕ → List ℕ
  search_order o projected = projected ∷ elim (env.fetch_student_code projected) [
    | failed e ↦ []
    | coded code ↦ local_candidates projected (correction_of projected o.target_code code)
  ]

  -- What a result says of the candidates in order.
  abbrev pub Explains : ResolverOptions → ℕ → Resolution E → Type 0
  Explains o projected (ok r) =
      (c : ℕ) × (probes : ℕ) × (probe_in_order env o.target_code (search_order o projected)
        ≡ ok (some c))
      × (r ≡ resolved c o.target_code probes)
      × (read_digits 0 r.std_id ≡ c)
      × (probes ≤ resolver_max_probes)
  Explains o projected (throw not_converged) =
      probe_in_order env o.target_code (search_order o projected) ≡ ok none
  Explains o projected (throw (invalid_option name)) = ⊥
  Explains o projected (throw (raised e)) = IsCause env e

  validate-ok :
      (o : ResolverOptions) (projected : ℕ)
      → validate env o ≡ ok projected
      → (0 < o.concurrency) × (0 < platform_limit o)
  unfolding validate parse_positive_safe_integer
  validate-ok o projected h = ground arith

  search_local_lem :
      (o : ResolverOptions) (projected : ℕ) (candidates : List ℕ)
      → validate env o ≡ ok projected
      → (r : Resolution E) × (search_local env o candidates ≡ some r)
        × IsExplained env candidates o.target_code r
  unfolding search_local
  search_local_lem o projected candidates h =
      let n = length candidates in
      let width = configured_pool_width o.concurrency (platform_limit o) n in
      let (some_probe, some_limit) = validate-ok o projected h in
      let room : 0 < n → 0 < width = unfold configured_pool_width in (λ l. omega arith) in
      let fresh = fresh_pool-IsPool candidates o.target_code width in
      let same = pending-fill_pool env candidates o.target_code width n (fresh_pool env) in
      run_loop_lem env candidates o.target_code width room (suc n) 0
        (refill env candidates o.target_code width (fresh_pool env))
        (refill-IsReady env candidates o.target_code width room (fresh_pool env) fresh
          (nothing_settled n o.target_code))
        (omega (arith, same))

  module _ (o : ResolverOptions) (projected : ℕ) (code : Option String)
      (fetched : env.fetch_student_code projected ≡ coded code) where
    abbrev candidates_of : List ℕ
    candidates_of = local_candidates projected (correction_of projected o.target_code code)

    order_lem : probe_in_order env o.target_code (search_order o projected) ≡ (
        if is_target o.target_code code
        then ok (some projected)
        else probe_in_order env o.target_code candidates_of)
    unfolding probe_in_order
    order_lem = ground arith

    -- What holds of the search among the candidates holds after a first probe that is no match.
    IsExplained-Explains :
        (r : Resolution E)
        → is_target o.target_code code ≡ false
        → IsExplained env candidates_of o.target_code r
        → Explains o projected r
    IsExplained-Explains (ok r) miss (c, probes, first, eq, few) = (
      c,
      probes,
      ground (arith, order_lem),
      eq,
      ap (λ (x : VnuStudentIdResolution). read_digits 0 x.std_id) eq
          ∙ resolved-std_id c o.target_code probes,
      omega (arith, length-local_candidates-le projected o.target_code code),
    )
    IsExplained-Explains (throw not_converged) miss x = ground (arith, order_lem)
    IsExplained-Explains (throw (invalid_option name)) miss x = x
    IsExplained-Explains (throw (raised e)) miss x = x

    after_first_code_lem :
        validate env o ≡ ok projected
        → (r : Resolution E) × (after_first_code env o projected code ≡ some r)
          × Explains o projected r
    after_first_code_lem h = elim (Bool-cases (is_target o.target_code code)) [
      | inl hit ↦ (
        ok (resolved projected o.target_code 1),
        ground arith,
        (
          projected,
          1,
          ground (arith, order_lem),
          refl,
          resolved-std_id projected o.target_code 1,
          omega arith,
        ),
      )
      | inr miss ↦
          let (r, run, x) = search_local_lem o projected candidates_of h in
          (r, ground arith, IsExplained-Explains r miss x)
    ]

  take_first_lem :
      (o : ResolverOptions) (projected : ℕ) (answer : Fetched E)
      → validate env o ≡ ok projected
      → env.fetch_student_code projected ≡ answer
      → (r : Resolution E) × (take_first env o projected answer ≡ some r) × Explains o projected r
  take_first_lem o projected (failed e) h f = (throw (raised e), refl, inr (inl (projected, f)))
  take_first_lem o projected (coded code) h f = after_first_code_lem o projected code f h

  -- Valid options always give a result, whatever order the probes finish in. One that resolves names
  -- the first candidate that has the target code, as the search does that asks for the projected id and
  -- then for one candidate after the other; the id that it returns reads back as that candidate, after
  -- at most 33 probes. One that has not converged means that this search finds none, and an error that
  -- is raised is one of the caller, of a request, or of a request that a winner has cancelled.
  pub resolve_vnu_student_id-Explains :
      (o : ResolverOptions) (projected : ℕ)
      → validate env o ≡ ok projected
      → (r : Resolution E) × (resolve_vnu_student_id env o ≡ some r) × Explains o projected r
  unfolding resolve_vnu_student_id probe_first
  resolve_vnu_student_id-Explains o projected h = elim (Option-cases (env.caller after_first)) [
    | inr (reason, q) ↦ (throw (raised reason), ground arith, inl (after_first, q))
    | inl q ↦
        let (r, run, x) = take_first_lem o projected (env.fetch_student_code projected) h refl in
        (r, ground arith, x)
  ]

  -- Where no request fails and the caller does not cancel, the concurrent search and the one that
  -- asks for one candidate after the other agree, whatever order the requests finish in: both find
  -- the same student, or both find none.
  pub resolve_vnu_student_id_sequential :
      (o : ResolverOptions) (projected : ℕ)
      → validate env o ≡ ok projected
      → ((m : Moment) → env.caller m ≡ none)
      → ((c : ℕ) (e : E) → env.fetch_student_code c ≢ failed e)
      → ((i : ℕ) (e : E) → (env.sibling i).work_outcome ≢ rejected e)
      → ((c : ℕ) × (probes : ℕ) × (probe_in_order env o.target_code (search_order o projected)
            ≡ ok (some c))
          × (resolve_vnu_student_id env o ≡ some (ok (resolved c o.target_code probes))))
        ⊎ ((probe_in_order env o.target_code (search_order o projected) ≡ ok none)
            × (resolve_vnu_student_id env o ≡ some (throw not_converged)))
  resolve_vnu_student_id_sequential o projected h calm answered alone =
      let (r, run, x) = resolve_vnu_student_id-Explains o projected h in read r run x
    where
      read :
          (r : Resolution E)
          → resolve_vnu_student_id env o ≡ some r
          → Explains o projected r
          → ((c : ℕ) × (probes : ℕ) × (probe_in_order env o.target_code (search_order o projected)
                ≡ ok (some c))
              × (resolve_vnu_student_id env o ≡ some (ok (resolved c o.target_code probes))))
            ⊎ ((probe_in_order env o.target_code (search_order o projected) ≡ ok none)
                × (resolve_vnu_student_id env o ≡ some (throw not_converged)))
      read (ok res) run (c, probes, first, eq, id, few) = inl (c, probes, first, cc)
      read (throw not_converged) run x = inr (x, run)
      read (throw (invalid_option name)) run x = elim x [ ]
      read (throw (raised e)) run (inl (m, q)) =
          let none_there = calm m in let off : ⊥ = cc in elim off [ ]
      read (throw (raised e)) run (inr (inl (c, q))) = elim (answered c e q) [ ]
      read (throw (raised e)) run (inr (inr (i, q))) = elim (alone i e q) [ ]
