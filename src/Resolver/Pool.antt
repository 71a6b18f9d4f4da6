-- ===== src/Resolver/Pool.antt =====
-- apps/worker/src/vnu/vnu-student-id-resolver.ts: the probes of `resolveVnuStudentId` that run at the
-- same time. The map `active` is the list of its keys, `settled` a function of the index. What the
-- requests and the caller do is an `Environment`: what `fetchStudentCode` makes of an id (no id is
-- asked for twice), which active probe the race of a turn returns, when the caller has cancelled, and
-- how a probe that a winner cancels settles. A probe is cancelled by the caller or by an exit of the
-- loop only, so that no race of the loop returns a cancellation before the caller's.
use hyeboard.Prelude.{
  ℕ, zero, suc, ltb, ◌==◌, min, Bool, true, false, ◌&&◌, ◌||◌, Option, none, some, List, [], ◌∷◌,
  ◌++◌, String, length, str_eq, if◌then◌else◌, Outcome, ok, throw,
}
use hyeboard.Resolver.Candidates.{VnuStudentIdResolution, resolved}

-- What a request gives: a code or `undefined`, or an error.
pub data Fetched (E : Type 0) : Type 0 where
  coded : Option String → Fetched E
  failed : E → Fetched E

pub data WorkOutcome (E : Type 0) : Type 0 where
  fulfilled : WorkOutcome E
  rejected : E → WorkOutcome E

-- `ProbeSettlement` of a sibling of the winner: whether its decision is the winner's cancellation.
pub record ProbeSettlement (E : Type 0) : Type 0 where
  pub cancelled_by_winner : Bool
  pub work_outcome : WorkOutcome E

-- The points at which `callerCancellation` is read.
pub data Moment : Type 0 where
  at_start after_first at_cleanup : Moment
  at_turn : ℕ → Moment

pub record Environment (E : Type 0) : Type 0 where
  pub fetch_student_code : ℕ → Fetched E
  pub race : ℕ → ℕ
  pub caller : Moment → Option E
  pub sibling : ℕ → ProbeSettlement E
  pub is_abort_error : E → Bool
  pub is_winner_reason : E → Bool

pub data ResolverError (E : Type 0) : Type 0 where
  not_converged : ResolverError E
  invalid_option : String → ResolverError E
  raised : E → ResolverError E

pub record Pool : Type 0 where
  pub active : List ℕ
  pub next_index : ℕ
  pub settled : ℕ → Option (Option String)
  pub earliest_exact : Option ℕ
  pub probes : ℕ

abbrev pub Resolution : Type 0 → Type 0
Resolution E = Outcome (ResolverError E) VnuStudentIdResolution

pub data Step (E : Type 0) : Type 0 where
  ends : Resolution E → Step E
  goes_on : Pool → Step E

-- `studentCode === targetCode`
unfoldable pub is_target : String → Option String → Bool
is_target target_code none = false
is_target target_code (some code) = str_eq code target_code

-- `candidates[index]`, which the loop reads within the list only.
unfoldable pub candidate_at : List ℕ → ℕ → ℕ
candidate_at [] index = 0
candidate_at (c ∷ cs) zero = c
candidate_at (c ∷ cs) (suc index) = candidate_at cs index

unfoldable pub without : ℕ → List ℕ → List ℕ
without i [] = []
without i (j ∷ js) = let rest = without i js in if j == i then rest else j ∷ rest

-- The active probe at a place: the last one, if the place lies beyond it.
unfoldable pub racer : ℕ → ℕ → List ℕ → ℕ
racer place i [] = i
racer zero i (j ∷ js) = i
racer (suc place) i (j ∷ js) = racer place j js

-- `earliestExactIndex === undefined || nextIndex < earliestExactIndex`
abbrev pub before_exact : ℕ → Option ℕ → Bool
before_exact next none = true
before_exact next (some e) = ltb next e

unfoldable pub can_start : ℕ → ℕ → Pool → Bool
can_start width n s =
    ltb (length s.active) width && ltb s.next_index n && before_exact s.next_index s.earliest_exact

unfoldable pub start_probe : Pool → Pool
start_probe s = record s {
  active = s.active ++ s.next_index ∷ [];
  next_index = suc s.next_index;
  probes = suc s.probes;
}

-- `fillPool`, of at most `fuel` rounds.
unfoldable pub fill_pool : ℕ → ℕ → ℕ → Pool → Pool
fill_pool zero width n s = s
fill_pool (suc fuel) width n s =
    let rest = fill_pool fuel width n (start_probe s) in if can_start width n s then rest else s

abbrev pub earliest : Option ℕ → ℕ → ℕ
earliest none index = index
earliest (some e) index = min e index

-- A probe is answered.
unfoldable pub settle : String → ℕ → Option String → Pool → Pool
settle target_code index code s = record {
  active = without index s.active;
  next_index = s.next_index;
  settled = λ i. if i == index then some code else s.settled i;
  earliest_exact =
      if is_target target_code code
      then some (earliest s.earliest_exact index)
      else s.earliest_exact;
  probes = s.probes;
}

-- The loop over `prefixIndex`, of at most `fuel` rounds: the index of the winner.
unfoldable pub scan_prefix : ℕ → String → (ℕ → Option (Option String)) → ℕ → Option ℕ
scan_prefix zero target_code settled index = none
scan_prefix (suc fuel) target_code settled index = elim (settled index) [
  | none ↦ none
  | some code ↦
      let rest = scan_prefix fuel target_code settled (suc index) in
      if is_target target_code code then some index else rest
]

module _ {E : Type 0} (env : Environment E) where
  unfoldable pub is_winner_cleanup_rejection : ProbeSettlement E → E → Bool
  is_winner_cleanup_rejection settlement error =
      settlement.cancelled_by_winner && (env.is_winner_reason error || env.is_abort_error error)

  abbrev failure_of : ProbeSettlement E → WorkOutcome E → Option E
  failure_of settlement fulfilled = none
  failure_of settlement (rejected e) =
      if is_winner_cleanup_rejection settlement e then none else some e

  -- The error of the first sibling that failed on its own.
  unfoldable pub independent_failure : List ℕ → Option E
  independent_failure [] = none
  independent_failure (i ∷ is) = elim (failure_of (env.sibling i) (env.sibling i).work_outcome) [
    | some e ↦ some e
    | none ↦ independent_failure is
  ]

  -- `throw callerCancellation ?? error`, where the siblings have settled.
  abbrev pub throw_or_cancel : Moment → ResolverError E → Resolution E
  throw_or_cancel m error = elim (env.caller m) [
    | some reason ↦ throw (raised reason)
    | none ↦ throw error
  ]

  unfoldable pub win : List ℕ → String → ℕ → Pool → Resolution E
  win candidates target_code winner s = elim (env.caller at_cleanup) [
    | some reason ↦ throw (raised reason)
    | none ↦ elim (independent_failure s.active) [
      | some e ↦ throw (raised e)
      | none ↦ ok (resolved (candidate_at candidates winner) target_code s.probes)
    ]
  ]
