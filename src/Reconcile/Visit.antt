-- ===== src/Reconcile/Visit.antt =====
-- The loop of `reconcile_schedule` (phase_schedule.py), cut at its tests.
use todo_pipeline_orch.Prelude.{
  ℕ, String, Bool, true, false, not, ◌&&◌, ◌==◌, string_eq, Option, none, some, List, [], ◌∷◌, ◌++◌,
  any, get_last?, if◌then◌else◌, Eq,
}
use todo_pipeline_orch.Prelude.Dict.{lookup}
use todo_pipeline_orch.Prelude.Checked.{Checked, ok, err, ◌>>=◌, ◌>>◌, require}
use todo_pipeline_orch.Execution.Env.{Env}
use todo_pipeline_orch.Recovery.Evidence.{Evidence}
use todo_pipeline_orch.Routing.Types.{Board, Worker}
use todo_pipeline_orch.Routing.Cards.{
  Route, proceed, wait, reissued, refused, archive_unconfirmed, marker_unwritten,
}
use todo_pipeline_orch.Routing.Route.{route_recovery}
use todo_pipeline_orch.Schedule.Phases.{Phase, worker_phases, role_key}
use todo_pipeline_orch.Reconcile.Types.{
  Raised, authority_busy, retryable_registration, fault, RunRegistration, Contract, Answers, Run,
  Flow, returns, raises, goes_on,
}

-- A call that may raise, and what follows it.
abbrev pub attempt {ℓ} : {A : Type ℓ} → Checked Raised A → Run → (A → Flow) → Flow
attempt (ok v) run next = next v
attempt (err e) run next = raises e run

-- `_clear_validation_blocked`
abbrev pub clear_blocked : Run → Run
clear_blocked run = record run { world = record run.world { blocked = none }; faulted = none }

-- `_persist_accepted_head`. A file that cannot be read counts as none, and is written again.
unfoldable pub persist_accepted_head :
    Bool → Checked Raised (Unit {0}) → String → Run → Checked Raised Run
persist_accepted_head readable write head run =
    let recorded = if readable then run.accepted_head else "" in
    if recorded == ""
    then write >> ok (record run { accepted_head = head })
    else if recorded == head
    then ok run
    else err (fault "accepted_review_head_conflict")

-- `key in tasks`
unfoldable pub has_card : {R : Type 0} → Answers R → Phase → Bool
unfolding lookup
has_card answers p = elim (lookup p.phase_key answers.tasks) [ some w ↦ true | none ↦ false ]

-- `with locked_run_authority(...)`, which may raise before any key is set.
abbrev pub under_authority : Checked Raised (Unit {0}) → Run → String × Flow → String × Flow
under_authority (ok held) run rest = rest
under_authority (err e) run rest = ("", raises e run)

-- The two `except` clauses.
unfoldable pub settle : String × Flow → Bool × Run
settle (key, returns b run) = (b, run)
settle (key, raises authority_busy run) = (true, run)
settle (key, raises retryable_registration run) = (true, run)
settle (key, raises (fault code) run) = (false, record run { faulted = some (key, code) })
settle (key, goes_on head parent run) = (true, run)

module _ {R : Type 0} ⦃same : Eq R⦄ (head_sha : R → String) (answers : Answers R)
    (registration : RunRegistration) where
  -- `create_card`
  unfoldable pub create_card : Phase → String → Option String → Option ℕ → Run → (Run → Flow) → Flow
  create_card phase head parent reissue run next = attempt (answers.create phase.phase_key) run λ _.
      next (record run {
        created =
            run.created
            ++ record {
              phase_key = phase.phase_key;
              head = head;
              parent = parent;
              reissue = reissue;
            }
              ∷ [];
      })

  -- The worktree is at the head.
  unfoldable pub at_head : String → Checked Raised (Unit {0})
  at_head head = answers.worktree_head >>= λ now. require (now == head) (fault "head_mismatch")

  -- The authority for a delivery.
  unfoldable pub may_deliver : Phase → Checked Raised (Unit {0})
  may_deliver phase =
      if phase.role == "delivery" && registration.has_manifest
      then answers.delivery_authority
      else ok tt

  -- The first card of a phase.
  unfoldable pub admit_phase : Phase → String → Option String → Run → Flow
  unfolding create_card at_head may_deliver
  admit_phase phase head parent run = attempt (at_head head) run λ _.
      attempt (may_deliver phase) run λ _. create_card phase head parent none run (returns true)

  -- What follows `_route_phase_recovery`.
  unfoldable pub after_route : Phase → String → Option String → Option Worker → Route → Run → Flow
  unfolding admit_phase
  after_route phase head parent worker refused run = returns false run
  after_route phase head parent worker archive_unconfirmed run =
      raises (fault "recovery_archive_unconfirmed") run
  after_route phase head parent worker marker_unwritten run = raises (fault "OSError") run
  after_route phase head parent worker wait run = returns true run
  after_route phase head parent worker reissued run =
      create_card phase head parent (get_last? run.world.issued) run
        (λ made. returns true (clear_blocked made))
  after_route phase head parent none proceed run = admit_phase phase head parent run
  after_route phase head parent (some w) proceed run = returns true run

  -- A worker's card reports the promoted result.
  unfoldable pub confirmed : Worker → String → R → Contract → Checked Raised (Unit {0})
  confirmed w key result contract =
      if contract.is_worker
      then (answers.reported w key contract >>= λ reported.
          require (reported == result) (fault "supervisor_result_unconfirmed"))
      else ok tt

  -- The head that the promoted result of a done phase leads to.
  unfoldable pub accepted : Phase → Worker → String → Checked Raised String
  unfolding confirmed
  accepted phase w head = do
    (result, contract) ← answers.promoted phase.phase_key
    confirmed w phase.phase_key result contract
    answers.result_authorized phase.phase_key result
    require (contract.base_sha == head) (fault "phase_parent_mismatch")
    ok (head_sha result)

  -- The delivery of a done phase.
  unfoldable pub deliver : Phase → Worker → String → Run → Flow
  deliver phase w head run =
      if phase.role == "delivery" && registration.has_manifest
      then (attempt (answers.completion false) run λ held.
          if not held
          then returns false run
          else if not answers.finish_verified
          then returns true run
          else goes_on head (some w.task_id) run)
      else goes_on head (some w.task_id) run

  unfoldable pub anchored : Phase → String → Run → Checked Raised Run
  unfolding persist_accepted_head
  anchored phase head run =
      if phase.role == "review" && registration.has_manifest
      then persist_accepted_head answers.head_readable answers.head_write head run
      else ok run

  -- A phase whose card is done.
  unfoldable pub done : Phase → Worker → String → Run → Flow
  unfolding accepted anchored deliver
  done phase w head run =
      attempt (accepted phase w head) run
        λ next. attempt (anchored phase next run) run λ kept. deliver phase w next kept

  abbrev pub has_delivery : Option String → Bool
  has_delivery none = false
  has_delivery (some key) = true

  -- Whether the run has a delivery to complete.
  unfoldable pub completes : Bool
  unfolding role_key
  completes =
      registration.has_manifest
      && has_delivery (
          role_key (record { phase_definitions = registration.phase_definitions; step_keys = none })
            "delivery")

  -- What follows the loop.
  unfoldable pub finished : Run → Flow
  unfolding completes
  finished run =
      if completes
      then (attempt (answers.completion true) run
          λ held. if held then returns true (clear_blocked run) else returns false run)
      else returns true (clear_blocked run)

module _ (env : Env) (evidence : Evidence) (board : String → Board) (execution_id : String → String)
    {R : Type 0} ⦃same : Eq R⦄ (head_sha : R → String) (answers : Answers R)
    (registration : RunRegistration) where
  -- A phase whose card is missing or not done.
  unfoldable pub pending_phase :
      Phase → List Phase → String → Option String → Option Worker → Run → Flow
  unfolding after_route any has_card
  pending_phase phase later head parent worker run =
      if any (has_card answers) later
      then raises (fault "phase_order_mismatch") run
      else let (route, world) =
          route_recovery env evidence (board phase.phase_key) (execution_id phase.phase_key)
            phase.phase_key worker run.world in
        after_route head_sha answers registration phase head parent worker route
          (record run { world = world })

  -- One round of the loop.
  unfoldable pub visit : Phase → List Phase → String → Option String → Run → Flow
  unfolding pending_phase done lookup
  visit phase later head parent run = elim (lookup phase.phase_key answers.tasks) [
    | none ↦ pending_phase phase later head parent none run
    | some w ↦
        if w.status == "done"
        then done head_sha answers registration phase w head run
        else pending_phase phase later head parent (some w) run
  ]

  -- The loop, with the key of the phase that is visited.
  unfoldable pub visit_all : List Phase → String → String → Option String → Run → String × Flow
  unfolding visit finished
  visit_all [] key head parent run = (key, finished head_sha answers registration run)
  visit_all (phase ∷ later) key head parent run = elim (visit phase later head parent run) [
    | returns b after ↦ (phase.phase_key, returns b after)
    | raises e after ↦ (phase.phase_key, raises e after)
    | goes_on next card after ↦ visit_all later phase.phase_key next card after
  ]

  unfoldable pub reconcile_schedule : Run → Bool × Run
  unfolding settle visit_all worker_phases
  reconcile_schedule run = settle (
      under_authority answers.authority run (
        visit_all (worker_phases registration.phase_definitions) "" registration.base_sha none run))
