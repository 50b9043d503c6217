-- ===== src/Backlog/Compile.antt =====
-- `compile_eligible_issues` of github_issues.py.
use todo_pipeline_orch.Prelude.{
  ℕ, String, Bool, true, false, not, Option, none, some, List, [], ◌∷◌, ◌++◌, ◌==◌, nat_eq,
  string_eq, leb, contains, find?, if◌then◌else◌,
}
use todo_pipeline_orch.Prelude.Dict.{Dict, insert}
use todo_pipeline_orch.Prelude.Checked.{Checked, ok, err}
use todo_pipeline_orch.Backlog.Types.{
  PlanSource, Issue, BlockedReason, EligibleTodo, status_closed, status_on_hold, in_flight,
  not_ready, in_progress_unverified, in_progress_stale, dependency_unknown, branch_invalid,
  triage_pending, dependency_incomplete, plan_invalid,
}
use todo_pipeline_orch.Backlog.Source.{Files, resolve_plan_source}

-- `TRIAGE_PENDING_LABELS`
abbrev pub triage_pending_labels : List String
triage_pending_labels = "needs-triage" ∷ "needs-info" ∷ "ready-for-human" ∷ "wontfix" ∷ []

-- What the compilation is given beside the issues.
pub record Selection : Type 0 where
  pub in_flight_ids : List String
  pub active_registrations : List ℕ
  pub kanban_available : Bool
  pub requires_plan : Bool

abbrev pub triage_of : Issue → Option String
triage_of i = find? (λ l. contains l i.labels) triage_pending_labels

-- What is left of `_status_reason` where no label of triage is found.
unfoldable pub later_reason : Selection → Issue → Option BlockedReason
later_reason s i =
    if contains i.number s.active_registrations
    then some in_flight
    else if not (contains "ready-for-agent" i.labels)
    then some not_ready
    else if contains i.todo_id s.in_flight_ids
    then some in_flight
    else if contains "tpo:in-progress" i.labels
    then some (if s.kanban_available then in_progress_stale else in_progress_unverified)
    else elim i.blocked_by_open [
      | none ↦ some dependency_unknown
      | some n ↦ if n == 0 then none else some (dependency_incomplete n)
    ]

-- `_status_reason`
unfoldable pub status_reason : Selection → Issue → Option BlockedReason
status_reason s i =
    if not i.is_open
    then some status_closed
    else if contains "tpo:on-hold" i.labels
    then some status_on_hold
    else elim (triage_of i) [ some label ↦ some (triage_pending label) | none ↦ later_reason s i ]

abbrev pub has_one : List String → Bool
has_one (x ∷ []) = true
has_one _ = false

-- The Plan that the selection asks for, or the reason that there is none.
unfoldable pub plan_of : Selection → Files → Issue → Checked BlockedReason (Option PlanSource)
plan_of s files i =
    if s.requires_plan
    then elim (resolve_plan_source files i) [ ok p ↦ ok (some p) | err c ↦ err (plan_invalid c) ]
    else ok none

-- One round of the loop: the candidate, or the reason.
unfoldable pub judge_issue : Selection → Files → Issue → Checked BlockedReason EligibleTodo
judge_issue s files i = elim (status_reason s i) [
  | some r ↦ err r
  | none ↦ elim (plan_of s files i) [
    | err r ↦ err r
    | ok p ↦
        if has_one i.branch_values then ok (record { entry = i; plan = p }) else err branch_invalid
  ]
]

-- `sorted(issues, key=lambda item: item.number)`, which keeps the order of equal numbers.
unfoldable pub insert_issue : Issue → List Issue → List Issue
insert_issue i [] = i ∷ []
insert_issue i (j ∷ rest) =
    let later = insert_issue i rest in if leb i.number j.number then i ∷ j ∷ rest else j ∷ later

unfoldable pub sort_issues : List Issue → List Issue
sort_issues [] = []
sort_issues (i ∷ rest) = insert_issue i (sort_issues rest)

pub record EligibilityResult : Type 0 where
  pub candidates : List EligibleTodo
  pub blocked_reasons : Dict String BlockedReason

abbrev pub record_judgement :
    Issue → Checked BlockedReason EligibleTodo → EligibilityResult → EligibilityResult
record_judgement i (ok t) r = record r { candidates = r.candidates ++ t ∷ [] }
record_judgement i (err reason) r = record r {
  blocked_reasons = insert i.todo_id reason r.blocked_reasons;
}

unfoldable pub compile_loop : Selection → Files → List Issue → EligibilityResult → EligibilityResult
compile_loop s files [] r = r
compile_loop s files (i ∷ rest) r =
    compile_loop s files rest (record_judgement i (judge_issue s files i) r)

-- `compile_eligible_issues`
unfoldable pub compile_eligible_issues : Selection → Files → List Issue → EligibilityResult
compile_eligible_issues s files issues =
    compile_loop s files (sort_issues issues) (record { candidates = []; blocked_reasons = [] })
