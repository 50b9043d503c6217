-- ===== src/Reconcile/Anchor.antt =====
-- The accepted head, which the calls of `reconcile_schedule` never move.
use todo_pipeline_orch.Prelude.{
  true, All, String, ◌==◌, string_eq, Eq, Option, none, some, List, [], ◌∷◌, any, ◌≡◌, ◌≢◌, refl,
  if_ind, Option-cases, inl, inr,
}
use todo_pipeline_orch.Prelude.Dict.{lookup}
use todo_pipeline_orch.Execution.Env.{Env}
use todo_pipeline_orch.Recovery.Evidence.{Evidence}
use todo_pipeline_orch.Routing.Types.{Board, Worker}
use todo_pipeline_orch.Routing.Route.{route_recovery}
use todo_pipeline_orch.Schedule.Phases.{Phase, worker_phases}
use todo_pipeline_orch.Reconcile.Types.{
  RunRegistration, Answers, Run, Flow, returns, raises, goes_on,
}
use todo_pipeline_orch.Reconcile.Visit.{
  has_card, pending_phase, visit, visit_all, under_authority, reconcile_schedule,
}
use todo_pipeline_orch.Reconcile.Holding.{
  run_of, Holds, settle-Holds, under_authority-Holds, done-Holds, after_route-Holds, finished-Holds,
}

module _ (env : Env) (evidence : Evidence) (board : String → Board) (execution_id : String → String)
    {R : Type 0} ⦃same : Eq R⦄ (head_sha : R → String) (registration : RunRegistration) where
  -- One call after another, each with its own answers.
  unfoldable pub reconcile_all : List (Answers R) → Run → Run
  unfolding reconcile_schedule
  reconcile_all [] run = run
  reconcile_all (answers ∷ rest) run =
      reconcile_all rest
        (reconcile_schedule env evidence board execution_id head_sha answers registration run).1

module _ (anchor : String) (is_set : anchor ≢ "") where
  module _ (env : Env) (evidence : Evidence) (board : String → Board)
      (execution_id : String → String) {R : Type 0} ⦃same : Eq R⦄ (head_sha : R → String)
      (registration : RunRegistration) where
    pending_phase-Holds :
        (answers : Answers R) (phase : Phase) (later : List Phase) (head : String)
        (parent : Option String) (worker : Option Worker) (run : Run)
        → Holds anchor is_set run
        → Holds anchor is_set (
            run_of (
              pending_phase env evidence board execution_id head_sha answers registration phase
                later head parent worker run))
    unfolding pending_phase
    pending_phase-Holds answers phase later head parent worker run held =
        let routed =
          route_recovery env evidence (board phase.phase_key) (execution_id phase.phase_key)
            phase.phase_key worker run.world in
        if_ind (λ flow. Holds anchor is_set (run_of flow)) (any (has_card answers) later)
          (λ _. held)
          (λ _.
            after_route-Holds anchor is_set head_sha answers registration phase head parent worker
              routed.0 (record run { world = routed.1 }) held)

    visit-Holds :
        (answers : Answers R) (phase : Phase) (later : List Phase) (head : String)
        (parent : Option String) (run : Run)
        → answers.head_readable ≡ true
        → Holds anchor is_set run
        → Holds anchor is_set (
            run_of (
              visit env evidence board execution_id head_sha answers registration phase later head
                parent run))
    unfolding visit
    visit-Holds answers phase later head parent run readable held =
        elim (Option-cases (lookup phase.phase_key answers.tasks)) [
          | inl missing ↦
              rw (missing, visit)
                (pending_phase-Holds answers phase later head parent none run held)
          | inr (w, card) ↦
              rw (card, visit)
                (if_ind (λ flow. Holds anchor is_set (run_of flow)) (w.status == "done")
                  (λ _.
                    done-Holds anchor is_set head_sha answers registration phase w head run readable
                      held)
                  (λ _. pending_phase-Holds answers phase later head parent (some w) run held))
        ]

    resumed :
        (answers : Answers R) (phase : Phase) (later : List Phase) (key head : String)
        (parent : Option String) (run : Run) (flow : Flow)
        → ((next : String) (card : Option String) (after : Run)
            → Holds anchor is_set after
            → Holds anchor is_set (
                run_of
                  (visit_all env evidence board execution_id head_sha answers registration later
                    phase.phase_key next card after).1))
        → visit env evidence board execution_id head_sha answers registration phase later head
            parent run
          ≡ flow
        → Holds anchor is_set (run_of flow)
        → Holds anchor is_set (
            run_of
              (visit_all env evidence board execution_id head_sha answers registration
                (phase ∷ later)
                key
                head
                parent
                run).1)
    unfolding visit_all
    resumed answers phase later key head parent run (returns b after) rest e held =
        rw (e, visit_all) held
    resumed answers phase later key head parent run (raises f after) rest e held =
        rw (e, visit_all) held
    resumed answers phase later key head parent run (goes_on next card after) rest e held =
        rw (e, visit_all) (rest next card after held)

    visit_all-Holds :
        (answers : Answers R) (phases : List Phase) (key head : String) (parent : Option String)
        (run : Run)
        → answers.head_readable ≡ true
        → Holds anchor is_set run
        → Holds anchor is_set (
            run_of
              (visit_all env evidence board execution_id head_sha answers registration phases key
                head parent run).1)
    unfolding visit_all
    visit_all-Holds answers [] key head parent run readable held =
        finished-Holds anchor is_set head_sha answers registration run held
    visit_all-Holds answers (phase ∷ later) key head parent run readable held =
        resumed answers phase later key head parent run _
          (λ next card after kept.
            visit_all-Holds answers later phase.phase_key next card after readable kept)
          refl (visit-Holds answers phase later head parent run readable held)

    -- An accepted head that was written is never changed by later calls of `reconcile_schedule`, whatever the
    -- other functions answer, where its file can be read and decoded at each call.
    pub reconcile_all-accepted_head :
        (calls : List (Answers R)) (run : Run)
        → All (λ (a : Answers R). a.head_readable ≡ true) calls
        → run.accepted_head ≡ anchor
        → (reconcile_all env evidence board execution_id head_sha registration calls
            run).accepted_head
          ≡ anchor
    unfolding reconcile_all reconcile_schedule
    reconcile_all-accepted_head [] run readable held = held
    reconcile_all-accepted_head (answers ∷ rest) run (readable, later) held =
        let phases = worker_phases registration.phase_definitions in
        let looped =
          visit_all env evidence board execution_id head_sha answers registration phases ""
            registration.base_sha none run in
        let ended = under_authority answers.authority run looped in
        reconcile_all-accepted_head rest _ later (
          settle-Holds anchor is_set ended.0 ended.1 (
            under_authority-Holds anchor is_set answers.authority run looped held
              (visit_all-Holds answers phases "" registration.base_sha none run readable held)))
