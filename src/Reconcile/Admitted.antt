-- ===== src/Reconcile/Admitted.antt =====
-- The cards that the steps of a visit create (phase_schedule.py).
use todo_pipeline_orch.Prelude.{
  ℕ, text_iff, String, Bool, true, false, not, ◌&&◌, ◌==◌, string_eq, Eq, Option, none, some, List,
  any, get_last?, ◌≡◌, inl, inr, refl, ap, ◌∙◌, arith, if_ind,
}
use todo_pipeline_orch.Prelude.Dict.{lookup}
use todo_pipeline_orch.Prelude.Checked.{
  ok, Ensures, Ensures-bind, Ensures-require, Ensures-test, Ensures-self, Ensures-eq-ok,
}
use todo_pipeline_orch.Routing.Types.{Worker}
use todo_pipeline_orch.Routing.Cards.{
  Route, proceed, wait, reissued, refused, archive_unconfirmed, marker_unwritten,
}
use todo_pipeline_orch.Schedule.Phases.{Phase}
use todo_pipeline_orch.Reconcile.Types.{
  RunRegistration, Contract, Answers, Created, Run, Flow, returns,
}
use todo_pipeline_orch.Reconcile.Visit.{
  clear_blocked, persist_accepted_head, has_card, create_card, at_head, may_deliver, admit_phase,
  after_route, confirmed, accepted, deliver, anchored, done,
}
use todo_pipeline_orch.Reconcile.Linked.{IsAccepted, Sound, attempt-Sound}

module _ {R : Type 0} ⦃same : Eq R⦄ (head_sha : R → String) (answers : Answers R)
    (registration : RunRegistration) where
  -- The first phase from which the loop does not go on.
  pub record IsFirst (phase : Phase) (later : List Phase) (head : String) (parent : Option String)
      (c : Created) : Type 0 where
    pub key : c.phase_key ≡ phase.phase_key
    pub head_kept : c.head ≡ head
    pub parent_kept : c.parent ≡ parent
    pub alone : any (has_card answers) later ≡ false
    pub unfinished :
        (w : Worker) → lookup phase.phase_key answers.tasks ≡ some w → (w.status == "done") ≡ false

  abbrev pub GoesOn : Phase → String → String → Option String → Type 0
  GoesOn phase head next card =
      (w : Worker) × IsAccepted head_sha answers phase w head next × (card ≡ some w.task_id)

  -- What a visit of a phase does.
  abbrev pub Visits : Phase → List Phase → String → Option String → List Created → Flow → Type 0
  Visits phase later head parent had =
      Sound (IsFirst phase later head parent) (GoesOn phase head) had

  module _ (phase : Phase) (later : List Phase) (head : String) (parent : Option String)
      (alone : any (has_card answers) later ≡ false)
      (unfinished : (w : Worker)
        → lookup phase.phase_key answers.tasks ≡ some w
        → (w.status == "done") ≡ false) where
    P : Created → Type 0
    P = IsFirst phase later head parent

    Q : String → Option String → Type 0
    Q = GoesOn phase head

    create_card-Visits :
        (reissue : Option ℕ) (run : Run) (b : Bool) (next : Run → Run)
        → ((r : Run) → (next r).created ≡ r.created)
        → Visits phase later head parent run.created (
            create_card head_sha answers registration phase head parent reissue run
              (λ made. returns b (next made)))
    unfolding create_card
    create_card-Visits reissue run b next kept =
        attempt-Sound (IsFirst phase later head parent) (GoesOn phase head) run.created
          (answers.create phase.phase_key) run _ refl
          λ _ made.
            let c : Created = record {
              phase_key = phase.phase_key;
              head = head;
              parent = parent;
              reissue = reissue;
            } in
            inr (
              c,
              kept _,
              record {
                key = refl;
                head_kept = refl;
                parent_kept = refl;
                alone = alone;
                unfinished = unfinished;
              },
            )

    admit_phase-Visits :
        (run : Run)
        → Visits phase later head parent run.created
            (admit_phase head_sha answers registration phase head parent run)
    unfolding admit_phase
    admit_phase-Visits run =
        attempt-Sound (IsFirst phase later head parent) (GoesOn phase head) run.created
          (at_head head_sha answers registration head) run _ refl
          λ _ now.
            attempt-Sound (IsFirst phase later head parent) (GoesOn phase head) run.created
              (may_deliver head_sha answers registration phase) run _ refl
              λ _ result_authorized. create_card-Visits none run true (λ r. r) (λ r. refl)

    pub after_route-Visits :
        (worker : Option Worker) (route : Route) (run : Run)
        → Visits phase later head parent run.created
            (after_route head_sha answers registration phase head parent worker route run)
    unfolding after_route
    after_route-Visits worker refused run = inl refl
    after_route-Visits worker archive_unconfirmed run = inl refl
    after_route-Visits worker marker_unwritten run = inl refl
    after_route-Visits worker wait run = inl refl
    after_route-Visits worker reissued run =
        create_card-Visits (get_last? run.world.issued) run true clear_blocked (λ r. refl)
    after_route-Visits none proceed run = admit_phase-Visits run
    after_route-Visits (some w) proceed run = inl refl

  module _ (phase : Phase) (w : Worker) (card : lookup phase.phase_key answers.tasks ≡ some w)
      (is_done : (w.status == "done") ≡ true) where
    confirmed-Ensures :
        (result : R) (contract : Contract)
        → Ensures
            (λ _.
              contract.is_worker ≡ true → answers.reported w phase.phase_key contract ≡ ok result)
            (confirmed head_sha answers registration w phase.phase_key result contract)
    unfolding confirmed
    confirmed-Ensures result contract =
        let Q : Unit {0} → Type 0 = λ _.
          contract.is_worker ≡ true → answers.reported w phase.phase_key contract ≡ ok result in
        if_ind (Ensures Q) contract.is_worker
          (λ works.
            Ensures-bind (λ r. answers.reported w phase.phase_key contract ≡ ok r) Q
              (answers.reported w phase.phase_key contract) _
              (Ensures-self (answers.reported w phase.phase_key contract))
              λ r given.
                Ensures-test Q (r == result) _
                  λ equal _. given ∙ ap ok ((same.beq_iff r result).0 equal))
          (λ other works. absurd (cc))

    accepted-Ensures :
        (head : String)
        → Ensures
            (λ next. IsAccepted head_sha answers phase w head next)
            (accepted head_sha answers registration phase w head)
    unfolding accepted
    accepted-Ensures head =
        Ensures-bind (λ p. answers.promoted phase.phase_key ≡ ok p) _
          (answers.promoted phase.phase_key) _ (Ensures-self _)
          λ (result, contract) promoted.
            Ensures-bind
              (λ _.
                contract.is_worker ≡ true → answers.reported w phase.phase_key contract ≡ ok result)
              _ (confirmed head_sha answers registration w phase.phase_key result contract) _
              (confirmed-Ensures result contract)
              λ _ reported.
                Ensures-bind (λ u. answers.result_authorized phase.phase_key result ≡ ok u) _
                  (answers.result_authorized phase.phase_key result) _ (Ensures-self _)
                  λ _ result_authorized.
                    Ensures-require _ (contract.base_sha == head) _ (ok (head_sha result)) λ linked.
                      record {
                        card = card;
                        is_done = is_done;
                        result = result;
                        contract = contract;
                        promoted = promoted;
                        reported = reported;
                        result_authorized = result_authorized;
                        linked = (text_iff contract.base_sha head).0 linked;
                        head = refl;
                      }

    anchored-created :
        (head : String) (run : Run)
        → Ensures
            (λ kept. kept.created ≡ run.created)
            (anchored head_sha answers registration phase head run)
    unfolding anchored persist_accepted_head
    anchored-created head run = ground arith

    deliver-Visits :
        (later : List Phase) (head next : String) (parent : Option String) (had : List Created)
        (run : Run)
        → IsAccepted head_sha answers phase w head next
        → run.created ≡ had
        → Visits phase later head parent had
            (deliver head_sha answers registration phase w next run)
    unfolding deliver
    deliver-Visits later head next parent had run accepted same_cards =
        let P = IsFirst phase later head parent in
        let Q = GoesOn phase head in
        let on : (run.created ≡ had) × Q next (some w.task_id) =
          (same_cards, (w, accepted, refl)) in
        if_ind (Sound P Q had) (phase.role == "delivery" && registration.has_manifest)
          (λ _. attempt-Sound P Q had (answers.completion false) run _ same_cards λ held _.
            if_ind (Sound P Q had) (not held) (λ _. inl same_cards)
              (λ _.
                if_ind (Sound P Q had) (not answers.finish_verified) (λ _. inl same_cards)
                  (λ _. on)))
          (λ _. on)

    pub done-Visits :
        (later : List Phase) (head : String) (parent : Option String) (run : Run)
        → Visits phase later head parent run.created
            (done head_sha answers registration phase w head run)
    unfolding done
    done-Visits later head parent run =
        let P = IsFirst phase later head parent in
        let Q = GoesOn phase head in
        attempt-Sound P Q run.created (accepted head_sha answers registration phase w head) run _
          refl
          λ next e.
            let held =
              Ensures-eq-ok _ (accepted head_sha answers registration phase w head)
                (accepted-Ensures head) e in
            attempt-Sound P Q run.created (anchored head_sha answers registration phase next run)
              run _ refl
              λ kept f.
                let same_cards =
                  Ensures-eq-ok _ (anchored head_sha answers registration phase next run)
                    (anchored-created next run) f in
                deliver-Visits later head next parent run.created kept held same_cards
