-- ===== src/Policy/Tests.antt =====
-- A university under a policy that withdraws grades and halves the bulk limit.
use hyeboard.Prelude.{
  ℕ, ◌≡◌, refl, Bool, true, false, Option, none, some, [], ◌∷◌, String, Outcome, ok, throw, lookup,
  minimum,
}
use hyeboard.Policy.Content.{
  CapabilityKey, grades, OperationalLimitKey, bulk_max_targets, unset, FeaturePolicyContent,
  University, HardLimits, Fault,
}
use hyeboard.Policy.Resolve.{
  EffectiveLimit, university, resolve_capability, resolve_limit, flatten_limits, projected_limit,
  validate_hard_limit, validate_hard_limits,
}
use hyeboard.Policy.University.{
  projected_limits, project_limits, effective_university, DashboardSummary,
}
use hyeboard.Policy.Ceilings.{IsNarrowed, effective_university_narrows}

abbrev no_grades : CapabilityKey → Option Bool
no_grades grades = some false
no_grades _ = none

abbrev half_bulk : OperationalLimitKey → Option ℕ
half_bulk bulk_max_targets = some 50
half_bulk _ = none

abbrev policy : FeaturePolicyContent
policy = record {
  whole = record { capabilities = no_grades; limits = λ _. unset };
  universities = ("vnu", record { capabilities = λ _. none; limits = half_bulk }) ∷ [];
}

abbrev vnu : University
vnu = record {
  id = "vnu";
  capabilities = λ _. true;
  limits = some (record {
    bulk_max = 100;
    bulk_direct_chunk_max = some 20;
    bulk_mode_max = none;
    cross_detail = none;
  });
}

abbrev hard_limits : HardLimits
hard_limits _ = none

abbrev half_limit : EffectiveLimit
half_limit = record { value = 50; configured = some 50; source = university; clamped = false }

effect : Outcome Fault University
unfolding resolve_capability resolve_limit projected_limit validate_hard_limit validate_hard_limits
    projected_limits project_limits effective_university lookup minimum
effect = effective_university vnu policy hard_limits

abbrev university_of : Outcome Fault University → University
university_of (ok u) = u
university_of (throw e) = vnu

grades_withdrawn : (university_of effect).capabilities grades ≡ false
unfolding effect
grades_withdrawn = refl

effective_university_narrows_example :
    ((key : CapabilityKey)
      → (university_of effect).capabilities key ≡ true
      → (true ≡ true) × ((resolve_capability true policy "vnu" key).enabled ≡ true))
    × ((key : OperationalLimitKey) (x : ℕ)
        → flatten_limits (university_of effect).limits key ≡ some x
        → IsNarrowed (flatten_limits vnu.limits key) none x)
unfolding effect
effective_university_narrows_example =
    effective_university_narrows vnu (university_of effect) policy hard_limits refl

abbrev dashboard : DashboardSummary String
dashboard = record {
  student = some "student";
  current_term = none;
  course_count = none;
  next_class = none;
  today_schedule = [];
  courses_list = [];
  assignments_list = [];
  grades_list = "A" ∷ [];
  gpa = some "4.0";
  exams_list = [];
  tuition_summary = none;
  notifications_list = [];
}
