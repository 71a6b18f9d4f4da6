-- ===== src/Resolver/Occupied.antt =====
-- apps/worker/src/vnu/vnu-student-id-resolver.ts: the invariant of the pool of probes, and that
-- every step keeps it.
use hyeboard.Prelude.{
  ℕ, zero, suc, ◌+◌, ◌-◌, ◌≤◌, ◌<◌, ◌≡◌, refl, ◌∙◌, ◌==◌, ==_iff, Bool, true, false, not, ◌&&◌,
  ◌||◌, Option, none, some, List, [], ◌∷◌, ◌++◌, String, arith, length, length-append, if_cases,
  Bool-cases, Option-cases, inl, inr,
}
use hyeboard.Resolver.Candidates.{member}
use hyeboard.Resolver.Pool.{
  coded, Environment, Pool, is_target, candidate_at, without, racer, can_start, start_probe,
  fill_pool, settle,
}

abbrev pub is_settled : Option (Option String) → Bool
is_settled none = false
is_settled (some code) = true

-- Settled with the target code.
abbrev pub hits : String → Option (Option String) → Bool
hits target_code none = false
hits target_code (some code) = is_target target_code code

member-append : (i : ℕ) (xs ys : List ℕ) → member i (xs ++ ys) ≡ (member i xs || member i ys)
unfolding member
member-append i [] ys = refl
member-append i (x ∷ xs) ys = ground (arith, member-append i xs ys)

member-without : (i j : ℕ) (xs : List ℕ) → member i (without j xs) ≡ (member i xs && not (j == i))
unfolding member without
member-without i j [] = refl
member-without i j (x ∷ xs) = ground (arith, member-without i j xs)

length-without-le : (j : ℕ) (xs : List ℕ) → length (without j xs) ≤ length xs
unfolding without
length-without-le j [] = omega arith
length-without-le j (x ∷ xs) = ground (arith, length-without-le j xs)

pub length-without-lt :
    (j : ℕ) (xs : List ℕ) → member j xs ≡ true → length (without j xs) < length xs
unfolding member without
length-without-lt j [] h = ground arith
length-without-lt j (x ∷ xs) h = ground (arith, length-without-le j xs, length-without-lt j xs)

-- The race returns an active probe.
pub member-racer : (place i : ℕ) (is : List ℕ) → member (racer place i is) (i ∷ is) ≡ true
unfolding member racer
member-racer place i [] = ground arith
member-racer zero i (j ∷ js) = ground arith
member-racer (suc place) i (j ∷ js) = ground (arith, member-racer place j js)

module _ {E : Type 0} (env : Environment E) (candidates : List ℕ) (target_code : String)
    (width : ℕ) where
  -- A started probe is active or settled with the code of its candidate; at most `width` probes are
  -- active; `earliest_exact` is an exact match; and the probes counted are those started and the first.
  pub record IsPool (s : Pool) : Type 0 where
    pub known : (i : ℕ) → i < s.next_index → (member i s.active || is_settled (s.settled i)) ≡ true
    pub answered :
        (i : ℕ) (code : Option String)
        → s.settled i ≡ some code
        → (env.fetch_student_code (candidate_at candidates i) ≡ coded code) × (i < s.next_index)
    pub running : (i : ℕ) → member i s.active ≡ true → i < s.next_index
    pub exact : (e : ℕ) → s.earliest_exact ≡ some e → hits target_code (s.settled e) ≡ true
    pub started : s.next_index ≤ length candidates
    pub counted : s.probes ≡ suc s.next_index
    pub within : length s.active ≤ width

  start_probe-IsPool :
      (s : Pool) → IsPool s → can_start width (length candidates) s ≡ true → IsPool (start_probe s)
  unfolding can_start start_probe
  start_probe-IsPool s v h = record {
    known = λ i l.
        (let there = member-append i s.active (s.next_index ∷ []) in
          let self : member i (s.next_index ∷ []) ≡ (s.next_index == i) =
            unfold member in (ground arith) in
          ground (arith, there, self, v.known i));
    answered = λ i code e. (let (a, l) = v.answered i code e in (a, omega arith));
    running = λ i m.
        (let there = member-append i s.active (s.next_index ∷ []) in
          let self : member i (s.next_index ∷ []) ≡ (s.next_index == i) =
            unfold member in (ground arith) in
          ground (arith, there, self, v.running i));
    exact = λ e q. v.exact e q;
    started = ground arith;
    counted = let c = v.counted in omega arith;
    within = ground (arith, length-append {0} s.active (s.next_index ∷ []));
  }

  pub fill_pool-IsPool :
      (fuel : ℕ) (s : Pool) → IsPool s → IsPool (fill_pool fuel width (length candidates) s)
  unfolding fill_pool
  fill_pool-IsPool zero s v = v
  fill_pool-IsPool (suc fuel) s v =
      if_cases IsPool (can_start width (length candidates) s)
        (λ h. fill_pool-IsPool fuel (start_probe s) (start_probe-IsPool s v h)) (λ _. v)

  pub settle-IsPool :
      (s : Pool) (index : ℕ) (code : Option String)
      → IsPool s
      → member index s.active ≡ true
      → env.fetch_student_code (candidate_at candidates index) ≡ coded code
      → IsPool (settle target_code index code s)
  unfolding settle
  settle-IsPool s index code v m f = record {
    known = λ i l. ground (arith, member-without i index s.active, v.known i l, ==_iff index i);
    answered = λ i c e. elim (Bool-cases (index == i)) [
      | inl same ↦
          let at : index ≡ i = (==_iff index i).0 same in
          let eq : code ≡ c = ground arith in (rw (← at, ← eq) f, rw (← at) (v.running index m))
      | inr other ↦ v.answered i c (ground arith)
    ];
    running = λ i a. v.running i (ground (arith, member-without i index s.active));
    exact = λ e q. elim (Option-cases (s.settled e)) [
      | inl h ↦ ground (arith, v.exact e, ==_iff index e)
      | inr (c, h) ↦ let once = v.answered e c h in ground (arith, v.exact e, once, ==_iff index e)
    ];
    started = v.started;
    counted = v.counted;
    within = omega (arith, length-without-le index s.active, v.within);
  }

  -- What `fillPool` leaves is full, or has nothing left to start.
  pub fill_pool-full :
      (fuel : ℕ) (s : Pool)
      → length candidates ≤ s.next_index + fuel
      → can_start width (length candidates) (fill_pool fuel width (length candidates) s) ≡ false
  unfolding fill_pool
  fill_pool-full zero s l = unfold can_start in (ground arith)
  fill_pool-full (suc fuel) s l = elim (Bool-cases (can_start width (length candidates) s)) [
    | inl h ↦ rw (h) (fill_pool-full fuel (start_probe s) (unfold start_probe in (omega arith)))
    | inr h ↦ rw (h) h
  ]

  start_probe-settled : (s : Pool) → (start_probe s).settled ≡ s.settled
  unfolding start_probe
  start_probe-settled s = refl

  -- Filling keeps what is settled, and what is still to do.
  pub fill_pool-settled :
      (fuel : ℕ) (s : Pool) → (fill_pool fuel width (length candidates) s).settled ≡ s.settled
  unfolding fill_pool
  fill_pool-settled zero s = refl
  fill_pool-settled (suc fuel) s =
      if_cases (λ (t : Pool). t.settled ≡ s.settled) (can_start width (length candidates) s)
        (λ _. fill_pool-settled fuel (start_probe s) ∙ start_probe-settled s) (λ _. refl)

  -- The turns still to come: the probes that are active or not started.
  abbrev pub pending : Pool → ℕ
  pending s = length s.active + (length candidates - s.next_index)

  pub pending-fill_pool :
      (fuel : ℕ) (s : Pool) → pending (fill_pool fuel width (length candidates) s) ≡ pending s
  unfolding fill_pool
  pending-fill_pool zero s = refl
  pending-fill_pool (suc fuel) s =
      if_cases (λ t. pending t ≡ pending s) (can_start width (length candidates) s)
        (λ h.
          (pending-fill_pool fuel (start_probe s)
            ∙ (unfold can_start start_probe in
                (ground (arith, length-append {0} s.active (s.next_index ∷ []))))))
        (λ _. refl)
