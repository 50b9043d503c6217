-- ===== src/Backlog/Types.antt =====
-- The issues that are TODOs, their Plans, and why one may not be selected (github_issues.py,
-- plan_manifest.py).
use todo_pipeline_orch.Prelude.{ℕ, String, Bool, Option, none, some, List}
use todo_pipeline_orch.Plan.Manifest.{Refusal, PlanManifest}

-- `PlanSource`, with its document as lines. `plan_path` is there where the kind is `legacy_path`.
pub record PlanSource : Type 0 where
  pub document : List String
  pub plan_hash : String
  pub manifest : Option PlanManifest
  pub plan_path : Option String

-- `IssueTodo`, with the fields that the selection reads.
pub record Issue : Type 0 where
  pub number : ℕ
  pub todo_id : String
  pub is_open : Bool
  pub labels : List String
  pub blocked_by_open : Option ℕ
  pub branch_values : List String
  pub plan_values : List String
  pub plan_source : Option PlanSource
  pub plan_error : Option String

-- The codes of a Plan that is not valid; `refused` is a manifest's, and `issue_error` that of the body.
pub data PlanCode : Type 0 where
  dual_plan_source missing duplicate non_canonical absolute outside_repository : PlanCode
  missing_file unreadable not_regular_file : PlanCode
  issue_error : String → PlanCode
  refused : Refusal → PlanCode

-- The reasons of `blocked_reasons`.
pub data BlockedReason : Type 0 where
  status_closed status_on_hold in_flight not_ready in_progress_unverified in_progress_stale :
      BlockedReason
  dependency_unknown branch_invalid : BlockedReason
  triage_pending : String → BlockedReason
  dependency_incomplete : ℕ → BlockedReason
  plan_invalid : PlanCode → BlockedReason

pub record EligibleTodo : Type 0 where
  pub entry : Issue
  pub plan : Option PlanSource

-- `plan_kind`
pub data PlanKind : Type 0 where
  manifest_plan legacy_plan : PlanKind

unfoldable pub plan_kind : EligibleTodo → Option PlanKind
plan_kind t = elim t.plan [
  | none ↦ none
  | some s ↦ elim s.manifest [ none ↦ some legacy_plan | some m ↦ some manifest_plan ]
]
