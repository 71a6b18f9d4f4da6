-- ===== src/Resolver/Turns.antt =====
-- apps/worker/src/vnu/vnu-student-id-resolver.ts: the turns of the loop of probes, and that it ends.
use hyeboard.Prelude.{
  ℕ, zero, suc, ◌<◌, ◌≡◌, refl, sym, ◌∙◌, ap, subst, inl, inr, true, false, Option, none, some,
  List, [], ◌∷◌, String, arith, length, throw, Option-cases,
}
use hyeboard.Resolver.Candidates.{member}
use hyeboard.Resolver.Pool.{
  Fetched, coded, failed, Environment, at_turn, at_cleanup, not_converged, raised, Pool, Resolution,
  Step, ends, goes_on, candidate_at, racer, can_start, settle, scan_prefix, win,
}
use hyeboard.Resolver.Search.{turn, take_turn, take_outcome, after_answer, refill, run_loop}
use hyeboard.Resolver.Occupied.{
  member-racer, length-without-lt, IsPool, fill_pool-IsPool, settle-IsPool, fill_pool-full,
  fill_pool-settled, pending, pending-fill_pool,
}
use hyeboard.Resolver.Outcomes.{
  IsExplained, throw_or_cancel-IsExplained, win-IsExplained, exhausted,
}

module _ {E : Type 0} (env : Environment E) (candidates : List ℕ) (target_code : String) (width : ℕ)
    (room : 0 < length candidates → 0 < width) where
  -- At the head of the loop, where there is no winner yet and the pool is filled.
  abbrev pub IsReady : Pool → Type 0
  IsReady s =
      IsPool env candidates target_code width s
      × (scan_prefix (length candidates) target_code s.settled 0 ≡ none)
      × (can_start width (length candidates) s ≡ false)

  -- A turn ends with an explained result, or leaves fewer turns to come.
  abbrev pub IsProgress : Pool → Step E → Type 0
  IsProgress s (ends r) = IsExplained env candidates target_code r
  IsProgress s (goes_on s') =
      IsReady s'
      × (pending env candidates target_code width s' < pending env candidates target_code width s)

  pub refill-IsReady :
      (s : Pool)
      → IsPool env candidates target_code width s
      → scan_prefix (length candidates) target_code s.settled 0 ≡ none
      → IsReady (refill env candidates target_code width s)
  refill-IsReady s v h =
      let n = length candidates in
      let kept = fill_pool-settled env candidates target_code width n s in
      (
        fill_pool-IsPool env candidates target_code width n s v,
        rw (kept) h,
        fill_pool-full env candidates target_code width n s (omega arith),
      )

  pending-settle :
      (s : Pool) (i : ℕ) (code : Option String)
      → member i s.active ≡ true
      → pending env candidates target_code width (settle target_code i code s)
        < pending env candidates target_code width s
  unfolding settle
  pending-settle s i code m = omega (arith, length-without-lt i s.active m)

  after_answer-IsProgress :
      (s t : Pool)
      → IsPool env candidates target_code width t
      → pending env candidates target_code width t < pending env candidates target_code width s
      → IsProgress s (after_answer env candidates target_code width t)
  after_answer-IsProgress s t v l =
      let go = after_answer env candidates target_code width t in
      elim (Option-cases (scan_prefix (length candidates) target_code t.settled 0)) [
        | inl q ↦
            let eq : go ≡ goes_on (refill env candidates target_code width t) = ground arith in
            let same = pending-fill_pool env candidates target_code width (length candidates) t in
            subst (IsProgress s) (sym eq) (refill-IsReady t v q, omega (arith, same))
        | inr (w, q) ↦
            let eq : go ≡ ends (win env candidates target_code w t) = ground arith in
            subst (IsProgress s) (sym eq)
              (win-IsExplained env candidates target_code width room t w v q)
      ]

  take_outcome-IsProgress :
      (s : Pool) (i : ℕ) (o : Fetched E)
      → env.fetch_student_code (candidate_at candidates i) ≡ o
      → IsPool env candidates target_code width s
      → member i s.active ≡ true
      → IsProgress s (take_outcome env candidates target_code width o i s)
  take_outcome-IsProgress s i (failed e) f v m =
      throw_or_cancel-IsExplained env candidates target_code at_cleanup (raised e)
        (inr (inl (candidate_at candidates i, f)))
  take_outcome-IsProgress s i (coded code) f v m =
      after_answer-IsProgress s (settle target_code i code s)
        (settle-IsPool env candidates target_code width s i code v m f) (pending-settle s i code m)

  take_turn-IsProgress :
      (k i : ℕ) (s : Pool)
      → IsPool env candidates target_code width s
      → member i s.active ≡ true
      → IsProgress s (take_turn env candidates target_code width k i s)
  unfolding take_turn
  take_turn-IsProgress k i s v m =
      let go = take_turn env candidates target_code width k i s in
      let o = env.fetch_student_code (candidate_at candidates i) in
      elim (Option-cases (env.caller (at_turn k))) [
        | inl q ↦
            let eq : go ≡ take_outcome env candidates target_code width o i s = ground arith in
            subst (IsProgress s) (sym eq) (take_outcome-IsProgress s i o refl v m)
        | inr (reason, q) ↦
            let eq : go ≡ ends (throw (raised reason)) = ground arith in
            subst (IsProgress s) (sym eq) (inl (at_turn k, q))
      ]

  -- A turn of the loop, with the pool filled and no winner yet, either ends with an explained result
  -- or leaves a pool of the same kind, with at most `width` probes active, and fewer probes that are
  -- active or not started.
  pub turn-IsProgress :
      (k : ℕ) (is : List ℕ) (s : Pool)
      → s.active ≡ is
      → IsReady s
      → IsProgress s (turn env candidates target_code width k is s)
  turn-IsProgress k [] s e (v, h, full) =
      throw_or_cancel-IsExplained env candidates target_code (at_turn k) not_converged
        (exhausted env candidates target_code width room s v h full e)
  turn-IsProgress k (i ∷ is) s e (v, h, full) =
      take_turn-IsProgress k (racer (env.race k) i is) s v
        (ap (member (racer (env.race k) i is)) e ∙ member-racer (env.race k) i is)

  -- The loop ends, since a turn leaves fewer turns to come, and what it ends with is explained.
  pub run_loop_lem :
      (fuel k : ℕ) (s : Pool)
      → IsReady s
      → pending env candidates target_code width s < fuel
      → (r : Resolution E) × (run_loop env candidates target_code width fuel k s ≡ some r)
        × IsExplained env candidates target_code r
  unfolding run_loop
  run_loop_lem zero k s ready l = let off : ⊥ = omega arith in elim off [ ]
  run_loop_lem (suc fuel) k s ready l =
      on (turn env candidates target_code width k s.active s) refl
        (turn-IsProgress k s.active s refl ready) (run_loop_lem fuel (suc k))
    where
      on :
          (step : Step E)
          → turn env candidates target_code width k s.active s ≡ step
          → IsProgress s step
          → ((t : Pool)
              → IsReady t
              → pending env candidates target_code width t < fuel
              → (r : Resolution E) × (run_loop env candidates target_code width fuel (suc k) t
                  ≡ some r)
                × IsExplained env candidates target_code r)
          → (r : Resolution E) × (run_loop env candidates target_code width (suc fuel) k s ≡ some r)
            × IsExplained env candidates target_code r
      on (ends r) q x more = (r, rw (q, run_loop) refl, x)
      on (goes_on t) q (ready', fewer) more =
          let (r, run, x) = more t ready' (omega arith) in (r, rw (q, run_loop) run, x)
