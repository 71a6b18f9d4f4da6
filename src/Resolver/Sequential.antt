-- ===== src/Resolver/Sequential.antt =====
-- apps/worker/src/vnu/vnu-student-id-resolver.ts: the search that asks for one candidate after the
-- other, which the concurrent one is compared with, and why a call may raise an error.
use hyeboard.Prelude.{
  ℕ, zero, suc, ◌<◌, ◌≡◌, refl, ◌⊎◌, inl, inr, Bool, true, false, Option, none, some, List, [], ◌∷◌,
  String, arith, length, if◌then◌else◌, Outcome, ok, throw, Bool-cases,
}
use hyeboard.Resolver.Pool.{
  coded, failed, Environment, Moment, is_target, candidate_at, WorkOutcome, fulfilled, rejected,
  independent_failure, is_winner_cleanup_rejection,
}

module _ {E : Type 0} (env : Environment E) (target_code : String) where
  -- The first candidate that has the target code; an error on the way ends the search.
  unfoldable pub probe_in_order : List ℕ → Outcome E (Option ℕ)
  probe_in_order [] = ok none
  probe_in_order (c ∷ cs) =
      let rest = probe_in_order cs in
      elim (env.fetch_student_code c) [
        | failed e ↦ throw e
        | coded code ↦ if is_target target_code code then ok (some c) else rest
      ]

  -- The candidate has the target code, or another one or none.
  abbrev pub Answers : Bool → ℕ → Type 0
  Answers exact c =
      (code : Option String) × (env.fetch_student_code c ≡ coded code)
      × (is_target target_code code ≡ exact)

  pub probe_in_order-some :
      (cs : List ℕ) (w : ℕ)
      → w < length cs
      → ((j : ℕ) → j < w → Answers false (candidate_at cs j))
      → Answers true (candidate_at cs w)
      → probe_in_order cs ≡ ok (some (candidate_at cs w))
  unfolding probe_in_order candidate_at
  probe_in_order-some [] w l before at = let off : ⊥ = omega arith in elim off [ ]
  probe_in_order-some (c ∷ cs) zero l before (code, f, t) = ground arith
  probe_in_order-some (c ∷ cs) (suc w) l before at =
      let (code, f, t) = before 0 (omega arith) in
      let rest = probe_in_order-some cs w (omega arith) (λ j k. before (suc j) (omega arith)) at in
      ground arith

  pub probe_in_order-none :
      (cs : List ℕ)
      → ((j : ℕ) → j < length cs → Answers false (candidate_at cs j))
      → probe_in_order cs ≡ ok none
  unfolding probe_in_order candidate_at
  probe_in_order-none [] all = refl
  probe_in_order-none (c ∷ cs) all =
      let (code, f, t) = all 0 (omega arith) in
      let rest = probe_in_order-none cs (λ j k. all (suc j) (omega arith)) in ground arith

-- Why a call may raise `e`: the caller cancelled it with `e`, a request failed with `e`, or one that
-- the winner cancelled did.
abbrev pub IsCause : {E : Type 0} → Environment E → E → Type 0
IsCause env e =
    ((m : Moment) × (env.caller m ≡ some e))
    ⊎ ((c : ℕ) × (env.fetch_student_code c ≡ failed e))
    ⊎ ((i : ℕ) × ((env.sibling i).work_outcome ≡ rejected e))

pub independent_failure-some :
    {E : Type 0} (env : Environment E) (is : List ℕ) (e : E)
    → independent_failure env is ≡ some e
    → (i : ℕ) × ((env.sibling i).work_outcome ≡ rejected e)
unfolding independent_failure
independent_failure-some env [] e h = cc
independent_failure-some {E} env (i ∷ is) e h =
    at (env.sibling i).work_outcome refl (λ q. independent_failure-some env is e q)
  where
    at :
        (o : WorkOutcome E)
        → (env.sibling i).work_outcome ≡ o
        → (independent_failure env is ≡ some e
            → (j : ℕ) × ((env.sibling j).work_outcome ≡ rejected e))
        → (j : ℕ) × ((env.sibling j).work_outcome ≡ rejected e)
    at fulfilled q rest = rest (ground arith)
    at (rejected x) q rest = elim (Bool-cases (is_winner_cleanup_rejection env (env.sibling i) x)) [
      | inl cleanup ↦ rest (ground arith)
      | inr own ↦ (i, ground arith)
    ]
