-- ===== src/Reconcile/Reaches.antt =====
-- When `reconcile_schedule` creates the first card of a phase.
use todo_pipeline_orch.Prelude.{
  String, Bool, true, false, ◌&&◌, ◌==◌, ==_refl, string_eq, text_iff, Eq, Option, none, some, List,
  [], ◌∷◌, ◌++◌, any, All, ◌≡◌, refl, sym, ap, ◌∙◌, if◌then◌else◌,
}
use todo_pipeline_orch.Prelude.Dict.{lookup}
use todo_pipeline_orch.Prelude.Checked.{Checked, ok, ◌>>=◌, require}
use todo_pipeline_orch.Execution.Env.{Env}
use todo_pipeline_orch.Recovery.Evidence.{Evidence}
use todo_pipeline_orch.Routing.Types.{Board, Worker, World}
use todo_pipeline_orch.Routing.Cards.{last_attempt, proceed}
use todo_pipeline_orch.Routing.Route.{route_recovery}
use todo_pipeline_orch.Schedule.Phases.{Phase, worker_phases}
use todo_pipeline_orch.Reconcile.Types.{
  Raised, RunRegistration, Contract, Answers, Run, returns, goes_on,
}
use todo_pipeline_orch.Reconcile.Visit.{
  has_card, create_card, at_head, may_deliver, admit_phase, after_route, pending_phase, confirmed,
  accepted, deliver, anchored, done, visit, visit_all, settle, reconcile_schedule,
}
use todo_pipeline_orch.Reconcile.Linked.{IsAccepted, Linked}

-- A phase with no recorded attempt proceeds.
route_recovery-proceed :
    (env : Env) (evidence : Evidence) (board : Board) (identity key : String)
    (worker : Option Worker) (w : World)
    → last_attempt env identity w.store ≡ none
    → route_recovery env evidence board identity key worker w ≡ (proceed, w)
unfolding route_recovery
route_recovery-proceed env evidence board identity key worker w unrecorded =
    rw (unrecorded, route_recovery) refl

chosen :
    (b : Bool) (m : Checked Raised (Unit {0}))
    → (b ≡ true → m ≡ ok tt)
    → (if b then m else ok tt) ≡ ok tt
chosen true m held = held refl
chosen false m held = refl

module _ (env : Env) (evidence : Evidence) (board : String → Board) (execution_id : String → String)
    {R : Type 0} ⦃same : Eq R⦄ (head_sha : R → String) (answers : Answers R)
    (registration : RunRegistration) where
  -- The phase is no review and no delivery of a run with a manifest.
  abbrev pub IsPlain : Phase → Type 0
  IsPlain p =
      ((p.role == "review" && registration.has_manifest) ≡ false)
      × ((p.role == "delivery" && registration.has_manifest) ≡ false)

  confirmed-reported :
      (w : Worker) (key : String) (result : R) (contract : Contract)
      → (contract.is_worker ≡ true → answers.reported w key contract ≡ ok result)
      → confirmed head_sha answers registration w key result contract ≡ ok tt
  unfolding confirmed
  confirmed-reported w key result contract reported =
      chosen contract.is_worker (answers.reported w key contract >>= λ r. require (r == result) _)
        λ works. rw (reported works) (rw (==_refl result) refl)

  accepted-total :
      (phase : Phase) (w : Worker) (head : String) {next : String}
      → IsAccepted head_sha answers phase w head next
      → accepted head_sha answers registration phase w head ≡ ok next
  unfolding accepted
  accepted-total phase w head a =
      rw (a.promoted, accepted)
        (rw (confirmed-reported w phase.phase_key a.result a.contract a.reported) (
          rw a.result_authorized
            (rw ((text_iff a.contract.base_sha head).1 a.linked) (ap ok a.head))))

  visit-goes_on :
      (phase : Phase) (later : List Phase) (head next : String) (parent : Option String)
      (w : Worker) (run : Run)
      → IsPlain phase
      → IsAccepted head_sha answers phase w head next
      → visit env evidence board execution_id head_sha answers registration phase later head parent
          run
        ≡ goes_on next (some w.task_id) run
  unfolding visit done anchored deliver
  visit-goes_on phase later head next parent w run (no_review, no_delivery) a =
      rw (a.card, visit)
        (rw (a.is_done) (rw (accepted-total phase w head a) (rw no_review (rw no_delivery refl))))

  visit-admits :
      (phase : Phase) (later : List Phase) (head : String) (parent : Option String) (run : Run)
      → lookup phase.phase_key answers.tasks ≡ none
      → any (has_card answers) later ≡ false
      → last_attempt env (execution_id phase.phase_key) run.world.store ≡ none
      → answers.worktree_head ≡ ok head
      → may_deliver head_sha answers registration phase ≡ ok tt
      → answers.create phase.phase_key ≡ ok tt
      → visit env evidence board execution_id head_sha answers registration phase later head parent
          run
        ≡ returns true (record run {
          created =
              run.created
              ++ record {
                phase_key = phase.phase_key;
                head = head;
                parent = parent;
                reissue = none;
              }
                ∷ [];
        })
  unfolding visit pending_phase after_route admit_phase at_head create_card
  visit-admits phase later head parent run missing alone unrecorded here authority creates =
      rw (missing, visit)
        (rw alone (
          rw
            (route_recovery-proceed env evidence (board phase.phase_key)
              (execution_id phase.phase_key) phase.phase_key none run.world unrecorded)
            (rw here (rw (==_refl head) (rw authority (rw creates refl))))))

  -- The loop, over phases that are linked and plain, and then a phase without a card.
  visit_all-admits :
      (before : List Phase) (phase : Phase) (later : List Phase) (key base head : String)
      (card parent : Option String) (run : Run)
      → Linked head_sha answers before base card head parent
      → All IsPlain before
      → lookup phase.phase_key answers.tasks ≡ none
      → any (has_card answers) later ≡ false
      → last_attempt env (execution_id phase.phase_key) run.world.store ≡ none
      → answers.worktree_head ≡ ok head
      → may_deliver head_sha answers registration phase ≡ ok tt
      → answers.create phase.phase_key ≡ ok tt
      → visit_all env evidence board execution_id head_sha answers registration
          (before ++ phase ∷ later)
          key
          base
          card
          run
        ≡ (
          phase.phase_key,
          returns true (record run {
            created =
                run.created
                ++ record {
                  phase_key = phase.phase_key;
                  head = head;
                  parent = parent;
                  reissue = none;
                }
                  ∷ [];
          }),
        )
  unfolding visit_all
  visit_all-admits [] phase later key base head card parent run (same_head, same_card) plain missing
        alone unrecorded here authority creates =
      rw (← same_head, ← same_card)
        (rw
          (
            visit-admits phase later base card run missing alone unrecorded
                (here ∙ ap ok (sym same_head)) authority creates,
            visit_all,
          )
          refl)
  visit_all-admits (p ∷ before) phase later key base head card parent run (w, next, a, links)
        (plain, rest) missing alone unrecorded here authority creates =
      rw (visit-goes_on p (before ++ phase ∷ later) base next card w run plain a, visit_all)
        (visit_all-admits before phase later p.phase_key next head (some w.task_id) parent run links
          rest missing alone unrecorded here authority creates)

  -- Where the run's authority is held, the phases before one are linked from the registered base to a head, and
  -- none of them is the review or the delivery of a run with a manifest, the phase has neither a card nor a
  -- recorded attempt, no later phase has a card, the worktree is at that head, and the delivery's authority and
  -- the creation of the card hold, `reconcile_schedule` creates the card of that phase, for that head.
  pub reconcile_schedule-admits :
      (before : List Phase) (phase : Phase) (later : List Phase) (head : String)
      (parent : Option String) (run : Run)
      → worker_phases registration.phase_definitions ≡ before ++ phase ∷ later
      → answers.authority ≡ ok tt
      → Linked head_sha answers before registration.base_sha none head parent
      → All IsPlain before
      → lookup phase.phase_key answers.tasks ≡ none
      → any (has_card answers) later ≡ false
      → last_attempt env (execution_id phase.phase_key) run.world.store ≡ none
      → answers.worktree_head ≡ ok head
      → may_deliver head_sha answers registration phase ≡ ok tt
      → answers.create phase.phase_key ≡ ok tt
      → reconcile_schedule env evidence board execution_id head_sha answers registration run ≡ (
        true,
        record run {
          created =
              run.created
              ++ record {
                phase_key = phase.phase_key;
                head = head;
                parent = parent;
                reissue = none;
              }
                ∷ [];
        },
      )
  unfolding reconcile_schedule settle
  reconcile_schedule-admits before phase later head parent run split held links plain missing alone
        unrecorded here authority creates =
      rw (split, reconcile_schedule)
        (rw held (
          rw
            (visit_all-admits before phase later "" registration.base_sha head none parent run links
              plain missing alone unrecorded here authority creates)
            refl))
