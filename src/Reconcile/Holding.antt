-- ===== src/Reconcile/Holding.antt =====
-- The steps of a visit keep an accepted head that was written (phase_schedule.py).
use todo_pipeline_orch.Prelude.{
  if◌then◌else◌, ℕ, String, true, false, not, ◌&&◌, ◌==◌, string_eq, text_iff, Eq, Option, none,
  some, get_last?, ◌≡◌, ◌≢◌, refl, sym, ◌∙◌, if_ind,
}
use todo_pipeline_orch.Prelude.Checked.{Checked, ok, err, Ensures, Ensures-eq-ok}
use todo_pipeline_orch.Routing.Types.{Worker}
use todo_pipeline_orch.Routing.Cards.{
  Route, proceed, wait, reissued, refused, archive_unconfirmed, marker_unwritten,
}
use todo_pipeline_orch.Schedule.Phases.{Phase}
use todo_pipeline_orch.Reconcile.Types.{
  Raised, authority_busy, retryable_registration, fault, RunRegistration, Answers, Run, Flow,
  returns, raises, goes_on,
}
use todo_pipeline_orch.Reconcile.Visit.{
  attempt, clear_blocked, persist_accepted_head, create_card, at_head, may_deliver, admit_phase,
  after_route, accepted, deliver, anchored, done, completes, finished, under_authority, settle,
}

-- The files when a flow ends.
abbrev pub run_of : Flow → Run
run_of (returns b run) = run
run_of (raises e run) = run
run_of (goes_on head parent run) = run

module _ (anchor : String) (is_set : anchor ≢ "") where
  -- The accepted head is the anchor.
  abbrev pub Holds : Run → Type 0
  Holds run = run.accepted_head ≡ anchor

  attempt-Holds {ℓ} :
      {A : Type ℓ} (r : Checked Raised A) (run : Run) (next : A → Flow)
      → Holds run
      → ((v : A) → r ≡ ok v → Holds (run_of (next v)))
      → Holds (run_of (attempt r run next))
  attempt-Holds (ok v) run next held each = each v refl
  attempt-Holds (err e) run next held each = held

  pub settle-Holds :
      (key : String) (flow : Flow) → Holds (run_of flow) → Holds (settle (key, flow)).1
  unfolding settle
  settle-Holds key (returns b run) held = held
  settle-Holds key (raises authority_busy run) held = held
  settle-Holds key (raises retryable_registration run) held = held
  settle-Holds key (raises (fault code) run) held = held
  settle-Holds key (goes_on head parent run) held = held

  pub under_authority-Holds :
      (r : Checked Raised (Unit {0})) (run : Run) (rest : String × Flow)
      → Holds run
      → Holds (run_of rest.1)
      → Holds (run_of (under_authority r run rest).1)
  under_authority-Holds (ok held) run rest before after = after
  under_authority-Holds (err e) run rest before after = before

  module _ {R : Type 0} ⦃same : Eq R⦄ (head_sha : R → String) (answers : Answers R)
      (registration : RunRegistration) where
    anchored-Holds :
        (phase : Phase) (head : String) (run : Run)
        → answers.head_readable ≡ true
        → Holds run
        → Ensures Holds (anchored head_sha answers registration phase head run)
    unfolding anchored persist_accepted_head
    anchored-Holds phase head run readable held =
        let kept : (if answers.head_readable then run.accepted_head else "") ≡ anchor =
          rw readable held in
        if_ind (Ensures Holds) (phase.role == "review" && registration.has_manifest)
          (λ _.
            if_ind (Ensures Holds) ((if answers.head_readable then run.accepted_head else "") == "")
              (λ blank. absurd (is_set (sym kept ∙ (text_iff _ "").0 blank)))
              (λ _.
                if_ind (Ensures Holds)
                  ((if answers.head_readable then run.accepted_head else "") == head) (λ _. held)
                  (λ _. tt)))
          (λ _. held)

    create_card-Holds :
        (phase : Phase) (head : String) (parent : Option String) (reissue : Option ℕ) (run : Run)
        (next : Run → Run)
        → Holds run
        → ((made : Run) → (next made).accepted_head ≡ made.accepted_head)
        → Holds (
            run_of (
              create_card head_sha answers registration phase head parent reissue run
                (λ made. returns true (next made))))
    unfolding create_card
    create_card-Holds phase head parent reissue run next held kept =
        attempt-Holds (answers.create phase.phase_key) run _ held λ _ _. kept _ ∙ held

    pub after_route-Holds :
        (phase : Phase) (head : String) (parent : Option String) (worker : Option Worker)
        (route : Route) (run : Run)
        → Holds run
        → Holds
            (run_of (after_route head_sha answers registration phase head parent worker route run))
    unfolding after_route admit_phase
    after_route-Holds phase head parent worker refused run held = held
    after_route-Holds phase head parent worker archive_unconfirmed run held = held
    after_route-Holds phase head parent worker marker_unwritten run held = held
    after_route-Holds phase head parent worker wait run held = held
    after_route-Holds phase head parent worker reissued run held =
        create_card-Holds phase head parent (get_last? run.world.issued) run clear_blocked held
          λ made. refl
    after_route-Holds phase head parent none proceed run held =
        attempt-Holds (at_head head_sha answers registration head) run _ held λ _ _.
          attempt-Holds (may_deliver head_sha answers registration phase) run _ held
            λ _ _. create_card-Holds phase head parent none run (λ made. made) held λ made. refl
    after_route-Holds phase head parent (some w) proceed run held = held

    deliver-Holds :
        (phase : Phase) (w : Worker) (head : String) (run : Run)
        → Holds run
        → Holds (run_of (deliver head_sha answers registration phase w head run))
    unfolding deliver
    deliver-Holds phase w head run held =
        let P : Flow → Type 0 = λ flow. Holds (run_of flow) in
        if_ind P (phase.role == "delivery" && registration.has_manifest)
          (λ _. attempt-Holds (answers.completion false) run _ held λ verified _.
            if_ind P (not verified) (λ _. held)
              (λ _. if_ind P (not answers.finish_verified) (λ _. held) (λ _. held)))
          (λ _. held)

    pub done-Holds :
        (phase : Phase) (w : Worker) (head : String) (run : Run)
        → answers.head_readable ≡ true
        → Holds run
        → Holds (run_of (done head_sha answers registration phase w head run))
    unfolding done
    done-Holds phase w head run readable held =
        attempt-Holds (accepted head_sha answers registration phase w head) run _ held λ next _.
          attempt-Holds (anchored head_sha answers registration phase next run) run _ held λ kept e.
            deliver-Holds phase w next kept (
              Ensures-eq-ok Holds (anchored head_sha answers registration phase next run)
                (anchored-Holds phase next run readable held) e)

    pub finished-Holds :
        (run : Run) → Holds run → Holds (run_of (finished head_sha answers registration run))
    unfolding finished
    finished-Holds run held =
        let P : Flow → Type 0 = λ flow. Holds (run_of flow) in
        if_ind P (completes head_sha answers registration)
          (λ _.
            attempt-Holds (answers.completion true) run _ held
              λ ended _. if_ind P ended (λ _. held) (λ _. held))
          (λ _. held)
