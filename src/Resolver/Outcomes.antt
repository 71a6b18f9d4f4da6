-- ===== src/Resolver/Outcomes.antt =====
-- apps/worker/src/vnu/vnu-student-id-resolver.ts: what a result of the loop of probes says of the
-- candidates.
use hyeboard.Prelude.{
  ℕ, suc, ◌≤◌, ◌<◌, ◌≡◌, refl, sym, subst, inl, inr, true, false, none, some, List, [], String,
  arith, length, ok, throw, Option-cases,
}
use hyeboard.Resolver.Candidates.{member, resolved}
use hyeboard.Resolver.Pool.{
  Environment, Moment, at_cleanup, ResolverError, not_converged, invalid_option, raised, Pool,
  Resolution, candidate_at, can_start, scan_prefix, throw_or_cancel, win, independent_failure,
}
use hyeboard.Resolver.Occupied.{is_settled, hits, IsPool}
use hyeboard.Resolver.Sequential.{
  probe_in_order, Answers, probe_in_order-some, probe_in_order-none, IsCause,
  independent_failure-some,
}
use hyeboard.Resolver.Prefix.{scan_prefix-some, scan_prefix-none}

module _ {E : Type 0} (env : Environment E) (candidates : List ℕ) (target_code : String) where
  -- What a result says of the candidates: the first one in order that has the target code, that none
  -- has it, or an error with a cause.
  abbrev pub IsExplained : Resolution E → Type 0
  IsExplained (ok r) =
      (c : ℕ) × (probes : ℕ) × (probe_in_order env target_code candidates ≡ ok (some c))
      × (r ≡ resolved c target_code probes)
      × (probes ≤ suc (length candidates))
  IsExplained (throw not_converged) = probe_in_order env target_code candidates ≡ ok none
  IsExplained (throw (invalid_option name)) = ⊥
  IsExplained (throw (raised e)) = IsCause env e

  pub throw_or_cancel-IsExplained :
      (m : Moment) (e : ResolverError E)
      → IsExplained (throw e)
      → IsExplained (throw_or_cancel env m e)
  throw_or_cancel-IsExplained m e x = elim (Option-cases (env.caller m)) [
    | inl q ↦
        let eq : throw_or_cancel env m e ≡ throw e = ground arith in subst IsExplained (sym eq) x
    | inr (reason, q) ↦
        let eq : throw_or_cancel env m e ≡ throw (raised reason) = ground arith in
        subst IsExplained (sym eq) (inl (m, q))
  ]

  module _ (width : ℕ) (room : 0 < length candidates → 0 < width) where
    pub win-IsExplained :
        (s : Pool) (w : ℕ)
        → IsPool env candidates target_code width s
        → scan_prefix (length candidates) target_code s.settled 0 ≡ some w
        → IsExplained (win env candidates target_code w s)
    unfolding win
    win-IsExplained s w v h = elim (Option-cases (env.caller at_cleanup)) [
      | inr (reason, q) ↦
          let eq : win env candidates target_code w s ≡ throw (raised reason) = ground arith in
          subst IsExplained (sym eq) (inl (at_cleanup, q))
      | inl q ↦ elim (Option-cases (independent_failure env s.active)) [
        | inr (e, f) ↦
            let eq : win env candidates target_code w s ≡ throw (raised e) = ground arith in
            subst IsExplained (sym eq) (inr (inr (independent_failure-some env s.active e f)))
        | inl f ↦
            let (hit, lt, before) =
              scan_prefix-some (length candidates) target_code s.settled 0 w h in
            let missed : (j : ℕ)
                → j < w
                → Answers env target_code false (candidate_at candidates j) =
              λ j l.
                (let (a, b) = before j (omega arith) l in
                  elim (Option-cases (s.settled j)) [
                    | inl none_there ↦ let off : ⊥ = ground arith in elim off [ ]
                    | inr (code, there) ↦ (code, (v.answered j code there).0, ground arith)
                  ]) in
            let found : Answers env target_code true (candidate_at candidates w) =
              elim (Option-cases (s.settled w)) [
                | inl none_there ↦ let off : ⊥ = ground arith in elim off [ ]
                | inr (code, there) ↦ (code, (v.answered w code there).0, ground arith)
              ] in
            let first =
              probe_in_order-some env target_code candidates w (omega arith) missed found in
            let won = resolved (candidate_at candidates w) target_code s.probes in
            let eq : win env candidates target_code w s ≡ ok won = ground arith in
            subst IsExplained (sym eq) (
              candidate_at candidates w,
              s.probes,
              first,
              refl,
              omega (arith, v.counted, v.started),
            )
      ]
    ]

    -- Nothing active, nothing to start and no winner: every candidate has another code.
    pub exhausted :
        (s : Pool)
        → IsPool env candidates target_code width s
        → scan_prefix (length candidates) target_code s.settled 0 ≡ none
        → can_start width (length candidates) s ≡ false
        → s.active ≡ []
        → probe_in_order env target_code candidates ≡ ok none
    unfolding can_start member
    exhausted s v h full idle = probe_in_order-none env target_code candidates missed
      where
        there : (i : ℕ) → i < s.next_index → is_settled (s.settled i) ≡ true
        there i l =
            let none_active : member i s.active ≡ false = rw (idle, member) refl in
            ground (arith, v.known i l)

        passed : (i : ℕ) → i < s.next_index → hits target_code (s.settled i) ≡ false
        passed i l =
            scan_prefix-none (length candidates) target_code s.settled 0 i h (omega arith)
              (omega (arith, v.started)) (λ j k. there j (omega arith))

        whole : length candidates ≤ s.next_index
        whole = elim (Option-cases s.earliest_exact) [
          | inl q ↦ ground (arith, idle, room)
          | inr (e, q) ↦
              let hit = v.exact e q in
              elim (Option-cases (s.settled e)) [
                | inl none_there ↦ let off : ⊥ = ground arith in elim off [ ]
                | inr (code, at) ↦
                    let lt = (v.answered e code at).1 in
                    let miss = passed e lt in let off : ⊥ = ground arith in elim off [ ]
              ]
        ]

        missed :
            (j : ℕ)
            → j < length candidates
            → Answers env target_code false (candidate_at candidates j)
        missed j l = elim (Option-cases (s.settled j)) [
          | inl none_there ↦ let off : ⊥ = ground (arith, whole, there j) in elim off [ ]
          | inr (code, q) ↦
              let gone = passed j (omega (arith, whole)) in
              (code, (v.answered j code q).0, ground arith)
        ]
