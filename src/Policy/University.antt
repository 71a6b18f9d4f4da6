-- ===== src/Policy/University.antt =====
-- apps/worker/src/policy/feature-policy.ts: `effectiveUniversity` and `filterDashboardSummary`.
use hyeboard.Prelude.{
  ℕ, Bool, true, false, ◌&&◌, ◌||◌, Option, none, some, List, [], if◌then◌else◌, Outcome, ok, ◌>>=◌,
  ◌>>◌,
}
use hyeboard.Policy.Content.{
  CapabilityKey, cross_lookup, OperationalLimitKey, bulk_max_targets, bulk_direct_chunk_max_targets,
  mode_stdid_to_code, mode_stdid_to_transcript, mode_code_to_stdid, detail_max_targets,
  detail_max_rows, detail_concurrency, FeaturePolicyContent, CrossDetailLimits, ModeMaxTargets,
  CrossLookupLimits, University, HardLimits, Fault, profile, terms, timetable, courses, assignments,
  grades, exams, notifications, tuition,
}
use hyeboard.Policy.Resolve.{
  resolve_capability, flatten_limits, projected_limit, validate_hard_limits,
}

-- `projectedLimits`
pub record ProjectedLimits : Type 0 where
  pub bulk_max : Option ℕ
  pub direct_chunk_max : Option ℕ
  pub stdid_to_code : Option ℕ
  pub stdid_to_transcript : Option ℕ
  pub code_to_stdid : Option ℕ
  pub max_targets : Option ℕ
  pub max_rows : Option ℕ
  pub concurrency : Option ℕ

abbrev pub is_given : Option ℕ → Bool
is_given none = false
is_given (some n) = true

abbrev pub mode_limits : ProjectedLimits → Option ModeMaxTargets
mode_limits p =
    if is_given p.stdid_to_code || is_given p.stdid_to_transcript || is_given p.code_to_stdid
    then some (record {
      stdid_to_code = p.stdid_to_code;
      stdid_to_transcript = p.stdid_to_transcript;
      code_to_stdid = p.code_to_stdid;
    })
    else none

abbrev pub detail_limits : Option ℕ → Option ℕ → Option ℕ → Option CrossDetailLimits
detail_limits (some t) (some r) (some c) =
    some (record { max_targets = t; max_rows = r; concurrency = c })
detail_limits _ _ _ = none

abbrev pub projected_of : Option ℕ → ProjectedLimits → Option CrossLookupLimits
projected_of none p = none
projected_of (some bulk) p = some (record {
  bulk_max = bulk;
  bulk_direct_chunk_max = p.direct_chunk_max;
  bulk_mode_max = mode_limits p;
  cross_detail = detail_limits p.max_targets p.max_rows p.concurrency;
})

unfoldable pub project_limits : ProjectedLimits → Option CrossLookupLimits
project_limits p = projected_of p.bulk_max p

-- The loop over `operationalLimitKeys`, in their order.
unfoldable pub projected_limits :
    University → FeaturePolicyContent → HardLimits → Outcome Fault ProjectedLimits
projected_limits u policy hard =
    let limit = λ (key : OperationalLimitKey).
      projected_limit policy u.id key (flatten_limits u.limits key) (hard key) in
    do
      bulk ← limit bulk_max_targets
      direct ← limit bulk_direct_chunk_max_targets
      to_code ← limit mode_stdid_to_code
      to_transcript ← limit mode_stdid_to_transcript
      to_stdid ← limit mode_code_to_stdid
      targets ← limit detail_max_targets
      rows ← limit detail_max_rows
      concurrent ← limit detail_concurrency
      ok (record {
        bulk_max = bulk;
        direct_chunk_max = direct;
        stdid_to_code = to_code;
        stdid_to_transcript = to_transcript;
        code_to_stdid = to_stdid;
        max_targets = targets;
        max_rows = rows;
        concurrency = concurrent;
      })

abbrev pub resolved : University → FeaturePolicyContent → CapabilityKey → Bool
resolved u policy key = (resolve_capability (u.capabilities key) policy u.id key).enabled

-- `capabilities`, after `crossLookup` is withdrawn where no bulk limit is left.
abbrev pub effective_capability :
    University → FeaturePolicyContent → Option ℕ → CapabilityKey → Bool
effective_capability u policy bulk cross_lookup = resolved u policy cross_lookup && is_given bulk
effective_capability u policy bulk key = resolved u policy key

unfoldable pub effective_university :
    University → FeaturePolicyContent → HardLimits → Outcome Fault University
effective_university u policy hard = do
  validate_hard_limits hard
  p ← projected_limits u policy hard
  ok (record {
    id = u.id;
    capabilities = effective_capability u policy p.bulk_max;
    limits =
        if effective_capability u policy p.bulk_max cross_lookup && is_given p.bulk_max
        then project_limits p
        else none;
  })

-- A dashboard, with contents of whatever type.
pub record DashboardSummary (A : Type 0) : Type 0 where
  pub student : Option A
  pub current_term : Option A
  pub course_count : Option A
  pub next_class : Option A
  pub today_schedule : List A
  pub courses_list : List A
  pub assignments_list : List A
  pub grades_list : List A
  pub gpa : Option A
  pub exams_list : List A
  pub tuition_summary : Option A
  pub notifications_list : List A

module _ {A : Type 0} where
  unfoldable pub filter_dashboard_summary :
      DashboardSummary A → (CapabilityKey → Bool) → DashboardSummary A
  filter_dashboard_summary d can = record {
    student = if can profile then d.student else none;
    current_term = if can terms then d.current_term else none;
    course_count = if can courses then d.course_count else none;
    next_class = if can timetable then d.next_class else none;
    today_schedule = if can timetable then d.today_schedule else [];
    courses_list = if can courses then d.courses_list else [];
    assignments_list = if can assignments then d.assignments_list else [];
    grades_list = if can grades then d.grades_list else [];
    gpa = if can grades then d.gpa else none;
    exams_list = if can exams then d.exams_list else [];
    tuition_summary = if can tuition then d.tuition_summary else none;
    notifications_list = if can notifications then d.notifications_list else [];
  }
