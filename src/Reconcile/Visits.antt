-- ===== src/Reconcile/Visits.antt =====
-- The cards that a visit of a phase creates, with the routing of its recovery (phase_schedule.py).
use todo_pipeline_orch.Prelude.{
  String, false, ◌==◌, string_eq, Eq, Option, none, some, List, any, ◌≡◌, inl, inr, refl, subst,
  Bool-cases, Option-cases, arith, if_ind,
}
use todo_pipeline_orch.Prelude.Dict.{lookup}
use todo_pipeline_orch.Execution.Env.{Env}
use todo_pipeline_orch.Recovery.Evidence.{Evidence}
use todo_pipeline_orch.Routing.Types.{Board, Worker}
use todo_pipeline_orch.Routing.Route.{route_recovery}
use todo_pipeline_orch.Schedule.Phases.{Phase}
use todo_pipeline_orch.Reconcile.Types.{RunRegistration, Answers, Run}
use todo_pipeline_orch.Reconcile.Visit.{has_card, pending_phase, visit}
use todo_pipeline_orch.Reconcile.Admitted.{Visits, after_route-Visits, done-Visits}

module _ (env : Env) (evidence : Evidence) (board : String → Board) (execution_id : String → String)
    {R : Type 0} ⦃same : Eq R⦄ (head_sha : R → String) (answers : Answers R)
    (registration : RunRegistration) where
  pending_phase-Visits :
      (phase : Phase) (later : List Phase) (head : String) (parent : Option String)
      (worker : Option Worker) (run : Run)
      → ((w : Worker)
          → lookup phase.phase_key answers.tasks ≡ some w
          → (w.status == "done") ≡ false)
      → Visits head_sha answers registration phase later head parent run.created (
          pending_phase env evidence board execution_id head_sha answers registration phase later
            head parent worker run)
  unfolding pending_phase
  pending_phase-Visits phase later head parent worker run unfinished =
      elim (Bool-cases (any (has_card answers) later)) [
        | inl some_later ↦ rw some_later (inl refl)
        | inr none_later ↦
            let routed =
              route_recovery env evidence (board phase.phase_key) (execution_id phase.phase_key)
                phase.phase_key worker run.world in
            rw none_later (
              after_route-Visits head_sha answers registration phase later head parent none_later
                unfinished worker routed.0 (record run { world = routed.1 }))
      ]

  pub visit-Visits :
      (phase : Phase) (later : List Phase) (head : String) (parent : Option String) (run : Run)
      → Visits head_sha answers registration phase later head parent run.created (
          visit env evidence board execution_id head_sha answers registration phase later head
            parent run)
  unfolding visit
  visit-Visits phase later head parent run =
      elim (Option-cases (lookup phase.phase_key answers.tasks)) [
        | inl missing ↦
            rw (missing, visit)
              (pending_phase-Visits phase later head parent none run
                (λ w e. absurd (ground (arith, e, missing))))
        | inr (w, card) ↦
            rw (card, visit)
              (if_ind (Visits head_sha answers registration phase later head parent run.created)
                (w.status == "done")
                (λ is_done.
                  done-Visits head_sha answers registration phase w card is_done later head parent
                    run)
                (λ open_card. pending_phase-Visits phase later head parent (some w) run (λ v e.
                  let the_same : w ≡ v = cc in
                  subst (λ (x : Worker). (x.status == "done") ≡ false) the_same open_card)))
      ]
