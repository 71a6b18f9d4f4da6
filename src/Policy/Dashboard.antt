-- ===== src/Policy/Dashboard.antt =====
-- apps/worker/src/policy/feature-policy.ts: `filterDashboardSummary` applied twice.
use hyeboard.Prelude.{◌≡◌, refl, Bool, true, false, ◌&&◌, none, [], if◌then◌else◌}
use hyeboard.Policy.Content.{
  CapabilityKey, profile, terms, timetable, courses, assignments, grades, exams, notifications,
  tuition,
}
use hyeboard.Policy.University.{DashboardSummary, filter_dashboard_summary}

if_twice :
    {A : Type 0} (a b : Bool) (x y : A)
    → (if b then (if a then x else y) else y) ≡ (if a && b then x else y)
if_twice true true x y = refl
if_twice true false x y = refl
if_twice false true x y = refl
if_twice false false x y = refl

-- Filtering by two sets of capabilities, one after the other, is filtering by those in both: no
-- order of the two shows anything that one of them hides.
filter_dashboard_summary_twice :
    {A : Type 0} (d : DashboardSummary A) (f g : CapabilityKey → Bool)
    → filter_dashboard_summary (filter_dashboard_summary d f) g
      ≡ filter_dashboard_summary d (λ key. f key && g key)
unfolding filter_dashboard_summary
filter_dashboard_summary_twice d f g =
    rw
      (
        if_twice (f profile) (g profile) d.student none,
        if_twice (f terms) (g terms) d.current_term none,
        if_twice (f courses) (g courses) d.course_count none,
        if_twice (f timetable) (g timetable) d.next_class none,
        if_twice (f timetable) (g timetable) d.today_schedule [],
        if_twice (f courses) (g courses) d.courses_list [],
        if_twice (f assignments) (g assignments) d.assignments_list [],
        if_twice (f grades) (g grades) d.grades_list [],
        if_twice (f grades) (g grades) d.gpa none,
        if_twice (f exams) (g exams) d.exams_list [],
        if_twice (f tuition) (g tuition) d.tuition_summary none,
        if_twice (f notifications) (g notifications) d.notifications_list [],
      )
      refl
