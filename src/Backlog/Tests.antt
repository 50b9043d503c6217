-- ===== src/Backlog/Tests.antt =====
-- A backlog of four issues, and the theorems at it.
use todo_pipeline_orch.Prelude.{
  ℕ, String, Bool, true, false, Option, none, some, List, [], ◌∷◌, ◌≡◌, ◌≢◌, ◌⊎◌, ◌↔◌, inl, inr,
  refl, contains, find?, Among, map, string_eq,
}
use todo_pipeline_orch.Prelude.Dict.{lookup, insert}
use todo_pipeline_orch.Prelude.Text.{every}
use todo_pipeline_orch.Backlog.Types.{
  PlanSource, Issue, dependency_incomplete, plan_invalid, missing, plan_kind,
}
use todo_pipeline_orch.Backlog.Source.{
  Files, found, validate_plan_path, legacy_plan_source, has_dots, has_empty,
  is_canonical_relative_path, resolve_plan_source,
}
use todo_pipeline_orch.Backlog.Compile.{
  Selection, later_reason, status_reason, plan_of, judge_issue, insert_issue, sort_issues,
  compile_loop, compile_eligible_issues,
}
use todo_pipeline_orch.Backlog.Eligible.{IsSelectable}
use todo_pipeline_orch.Backlog.Candidates.{candidates_of, compile_eligible_issues-Among}
use todo_pipeline_orch.Backlog.Accounted.{
  Ascending, compile_eligible_issues-Ascending, compile_eligible_issues-accounts,
}

program : Unit {0}
unfolding contains find? lookup insert every validate_plan_path legacy_plan_source has_dots
    has_empty is_canonical_relative_path resolve_plan_source later_reason status_reason plan_of
    judge_issue insert_issue sort_issues compile_loop compile_eligible_issues plan_kind
program = tt

abbrev source : PlanSource
source = record { document = "plan" ∷ []; plan_hash = "00"; manifest = none; plan_path = none }

abbrev issue_of : ℕ → String → Bool → Option ℕ → Option PlanSource → Issue
issue_of n id is_open blockers plan = record {
  number = n;
  todo_id = id;
  is_open = is_open;
  labels = "tpo:todo" ∷ "ready-for-agent" ∷ [];
  blocked_by_open = blockers;
  branch_values = "todo/branch" ∷ [];
  plan_values = [];
  plan_source = plan;
  plan_error = none;
}

abbrev issues : List Issue
issues =
    issue_of 9 "TODO-9" true (some 0) (some source)
    ∷ issue_of 4 "TODO-4" true (some 2) (some source)
    ∷ issue_of 3 "TODO-3" true (some 0) (some source)
    ∷ issue_of 2 "TODO-2" true (some 0) none
    ∷ []

abbrev selection : Selection
selection = record {
  in_flight_ids = [];
  active_registrations = [];
  kanban_available = true;
  requires_plan = true;
}

abbrev files : Files
files = record {
  at = λ path. record {
    is_absolute = false;
    loosely_inside = true;
    strictly = found;
    strictly_inside = true;
    is_file = true;
    can_open = true;
    posix = path;
    text = some [];
  };
  sha256 = λ _. "00";
  codec = record { utf8_length = λ _. 0; objects = λ _. []; loads = λ _. none };
}

two_candidates : map (λ i. i.number) (candidates_of selection files issues) ≡ 3 ∷ 9 ∷ []
unfolding program
two_candidates = refl

reason_of_two :
    lookup "TODO-2" (compile_eligible_issues selection files issues).blocked_reasons
    ≡ some (plan_invalid missing)
unfolding program
reason_of_two = refl

reason_of_four :
    lookup "TODO-4" (compile_eligible_issues selection files issues).blocked_reasons
    ≡ some (dependency_incomplete 2)
unfolding program
reason_of_four = refl

dotted : is_canonical_relative_path "docs/../plan.md" ≡ false
unfolding program
dotted = refl

compile_eligible_issues-Among_example :
    Among (issue_of 3 "TODO-3" true (some 0) (some source)) (candidates_of selection files issues)
    ↔ (Among (issue_of 3 "TODO-3" true (some 0) (some source)) issues
        × IsSelectable selection files (issue_of 3 "TODO-3" true (some 0) (some source)))
compile_eligible_issues-Among_example =
    compile_eligible_issues-Among selection files issues
      (issue_of 3 "TODO-3" true (some 0) (some source))

compile_eligible_issues-Ascending_example : Ascending (candidates_of selection files issues)
compile_eligible_issues-Ascending_example = compile_eligible_issues-Ascending selection files issues

compile_eligible_issues-accounts_example :
    Among (issue_of 4 "TODO-4" true (some 2) (some source)) (candidates_of selection files issues)
    ⊎ (lookup "TODO-4" (compile_eligible_issues selection files issues).blocked_reasons ≢ none)
compile_eligible_issues-accounts_example =
    compile_eligible_issues-accounts selection files issues
      (issue_of 4 "TODO-4" true (some 2) (some source)) (inr (inl refl))
