-- ===== src/Reconcile/Schedule.antt =====
-- What one call of `reconcile_schedule` creates.
use todo_pipeline_orch.Prelude.{String, string_eq, Eq, Option, List}
use todo_pipeline_orch.Prelude.Checked.{Checked}
use todo_pipeline_orch.Execution.Env.{Env}
use todo_pipeline_orch.Recovery.Evidence.{Evidence}
use todo_pipeline_orch.Routing.Types.{Board}
use todo_pipeline_orch.Schedule.Phases.{Phase}
use todo_pipeline_orch.Reconcile.Types.{
  RunRegistration, Answers, Created, Run, Flow, returns, raises, goes_on,
}
use todo_pipeline_orch.Reconcile.Visit.{visit_all}
use todo_pipeline_orch.Reconcile.Linked.{Linked, IsAdmitted, Adds}
use todo_pipeline_orch.Reconcile.Admitted.{Visits}

-- The cards when a flow ends.
abbrev created_of : Flow → List Created
created_of (returns b run) = run.created
created_of (raises e run) = run.created
created_of (goes_on next card run) = run.created

module _ (env : Env) (evidence : Evidence) (board : String → Board) (execution_id : String → String)
    {R : Type 0} ⦃same : Eq R⦄ (head_sha : R → String) (answers : Answers R)
    (registration : RunRegistration) where
  -- What the loop creates over some phases.
  abbrev Creates : List Phase → String → String → Option String → Run → Type 0
  Creates phases key head parent run =
      Adds (IsAdmitted head_sha answers phases head parent) run.created (
        created_of
          (visit_all env evidence board execution_id head_sha answers registration phases key head
            parent run).1)
