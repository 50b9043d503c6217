-- ===== src/Reconcile/Linked.antt =====
-- The chain of validated results behind a card that `reconcile_schedule` creates.
use todo_pipeline_orch.Prelude.{
  String, true, false, ◌==◌, string_eq, Eq, Option, some, List, [], ◌∷◌, ◌++◌, any, ◌≡◌, ◌⊎◌, inl,
  refl,
}
use todo_pipeline_orch.Prelude.Dict.{lookup}
use todo_pipeline_orch.Prelude.Checked.{Checked, ok, err}
use todo_pipeline_orch.Routing.Types.{Worker}
use todo_pipeline_orch.Schedule.Phases.{Phase}
use todo_pipeline_orch.Reconcile.Types.{
  Raised, Contract, Answers, Created, Run, Flow, returns, raises, goes_on,
}
use todo_pipeline_orch.Reconcile.Visit.{attempt, has_card}

module _ {R : Type 0} ⦃same : Eq R⦄ (head_sha : R → String) (answers : Answers R) where
  -- A phase whose card is done, and whose promoted result is reported by a worker's card, authorized, and of a
  -- contract that starts at the head `base`; the result's head is `next`.
  pub record IsAccepted (phase : Phase) (w : Worker) (base next : String) : Type 0 where
    pub card : lookup phase.phase_key answers.tasks ≡ some w
    pub is_done : (w.status == "done") ≡ true
    pub result : R
    pub contract : Contract
    pub promoted : answers.promoted phase.phase_key ≡ ok (result, contract)
    pub reported :
        contract.is_worker ≡ true → answers.reported w phase.phase_key contract ≡ ok result
    pub result_authorized : answers.result_authorized phase.phase_key result ≡ ok tt
    pub linked : contract.base_sha ≡ base
    pub head : head_sha result ≡ next

  -- Phases that are all accepted, each from the head that the one before it ends with, from one head and card
  -- to another.
  abbrev pub Linked : List Phase → String → Option String → String → Option String → Type 0
  Linked [] base card head parent = (base ≡ head) × (card ≡ parent)
  Linked (phase ∷ rest) base card head parent =
      (w : Worker) × (next : String) × IsAccepted phase w base next
      × Linked rest next (some w.task_id) head parent

  -- A card created for the first of the phases whose card is missing or not done: all the phases before it are
  -- linked, from the head `base` to the card's, and no phase after it has a card.
  pub record IsAdmitted (phases : List Phase) (base : String) (card : Option String) (c : Created)
      : Type 0 where
    pub before : List Phase
    pub phase : Phase
    pub later : List Phase
    pub split : phases ≡ before ++ phase ∷ later
    pub key : c.phase_key ≡ phase.phase_key
    pub links : Linked before base card c.head c.parent
    pub alone : any (has_card answers) later ≡ false
    pub unfinished :
        (w : Worker) → lookup phase.phase_key answers.tasks ≡ some w → (w.status == "done") ≡ false

-- No card, or one of which `P` holds, was created.
abbrev pub Adds : (Created → Type 0) → List Created → List Created → Type 0
Adds P had now = (now ≡ had) ⊎ ((c : Created) × (now ≡ had ++ c ∷ []) × P c)

module _ (P : Created → Type 0) (Q : String → Option String → Type 0) (had : List Created) where
  -- A flow that ends has created one card at most, and one that goes on none.
  abbrev pub Sound : Flow → Type 0
  Sound (returns b run) = Adds P had run.created
  Sound (raises e run) = Adds P had run.created
  Sound (goes_on head parent run) = (run.created ≡ had) × Q head parent

  pub attempt-Sound {ℓ} :
      {A : Type ℓ} (r : Checked Raised A) (run : Run) (next : A → Flow)
      → run.created ≡ had
      → ((v : A) → r ≡ ok v → Sound (next v))
      → Sound (attempt r run next)
  attempt-Sound (ok v) run next e held = held v refl
  attempt-Sound (err f) run next e held = inl e
