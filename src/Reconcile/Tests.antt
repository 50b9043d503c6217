-- ===== src/Reconcile/Tests.antt =====
-- A run of two phases, the first of them done, and the theorems at it.
use todo_pipeline_orch.Prelude.{String, true, false, none, some, [], ◌∷◌, ◌≡◌, refl, any, string_eq}
use todo_pipeline_orch.Prelude.Dict.{lookup}
use todo_pipeline_orch.Prelude.Checked.{ok}
use todo_pipeline_orch.Execution.Text.{is_identifier}
use todo_pipeline_orch.Execution.Store.{load, decode}
use todo_pipeline_orch.Execution.Runs.{empty}
use todo_pipeline_orch.Execution.Samples.{env}
use todo_pipeline_orch.Recovery.Samples.{evidence}
use todo_pipeline_orch.Routing.Types.{Board, fails, Worker}
use todo_pipeline_orch.Routing.Cards.{last_attempt}
use todo_pipeline_orch.Routing.Route.{route_recovery}
use todo_pipeline_orch.Schedule.Phases.{Phase, worker_phases, role_key}
use todo_pipeline_orch.Reconcile.Types.{RunRegistration, Contract, Answers, Created, Run}
use todo_pipeline_orch.Reconcile.Visit.{
  persist_accepted_head, has_card, create_card, at_head, may_deliver, admit_phase, after_route,
  pending_phase, confirmed, accepted, deliver, anchored, done, visit, completes, finished,
  visit_all, settle, reconcile_schedule,
}
use todo_pipeline_orch.Reconcile.Linked.{IsAccepted}
use todo_pipeline_orch.Reconcile.Anchor.{reconcile_all, reconcile_all-accepted_head}
use todo_pipeline_orch.Reconcile.Reaches.{reconcile_schedule-admits}

program : Unit {0}
unfolding lookup any is_identifier load decode last_attempt route_recovery worker_phases role_key
    persist_accepted_head has_card create_card at_head may_deliver admit_phase after_route
    pending_phase confirmed accepted deliver anchored done visit completes finished visit_all settle
    reconcile_schedule
program = tt

abbrev phase : String → String → Phase
phase key role = record {
  phase_key = key;
  name = key;
  tools = "Read";
  turns = 0;
  timeout = 1800;
  terminal = false;
  gate = false;
  kind = none;
  role = role;
}

abbrev registration : RunRegistration
registration = record {
  base_sha = "base";
  phase_definitions = phase "plan" "worker" ∷ phase "build" "implementation" ∷ [];
  has_manifest = true;
}

abbrev board : String → Board
board key = record {
  cards = none;
  archives = false;
  unblocks = fails;
  registered = true;
  start_ticks = λ pid. none;
}

abbrev planner : Worker
planner = record { task_id = "t_1"; status = "done"; generation = 1 }

abbrev contract : Contract
contract = record { base_sha = "base"; is_worker = true }

-- The results are their heads; that of the first phase is "h1".
abbrev answers : String → Answers String
answers worktree = record {
  authority = ok tt;
  tasks = ("plan", planner) ∷ [];
  worktree_head = ok worktree;
  delivery_authority = ok tt;
  create = λ key. ok tt;
  promoted = λ key. ok ("h1", contract);
  reported = λ w key c. ok "h1";
  result_authorized = λ key r. ok tt;
  completion = λ allow_close. ok true;
  finish_verified = false;
  head_readable = true;
  head_write = ok tt;
}

abbrev run : Run
run = record {
  world = record {
    store = empty;
    markers = [];
    blocked = none;
    abandoned = none;
    unblocked = [];
    archived = [];
    issued = [];
  };
  accepted_head = "";
  faulted = none;
  created = [];
}

abbrev build_card : Created
build_card = record { phase_key = "build"; head = "h1"; parent = some "t_1"; reissue = none }

created_next :
    reconcile_schedule env evidence board
      (λ key. key)
      (λ (r : String). r)
      (answers "h1")
      registration
      run
    ≡ (true, record run { created = build_card ∷ [] })
unfolding program
created_next = refl

moved_worktree :
    reconcile_schedule env evidence board
      (λ key. key)
      (λ (r : String). r)
      (answers "h2")
      registration
      run
    ≡ (false, record run { faulted = some ("build", "head_mismatch") })
unfolding program
moved_worktree = refl

plan-IsAccepted :
    IsAccepted (λ (r : String). r) (answers "h1") (phase "plan" "worker") planner "base" "h1"
unfolding program
plan-IsAccepted = record {
  card = refl;
  is_done = refl;
  result = "h1";
  contract = contract;
  promoted = refl;
  reported = λ is_worker. refl;
  result_authorized = refl;
  linked = refl;
  head = refl;
}

reconcile_schedule-admits_example :
    reconcile_schedule env evidence board
      (λ key. key)
      (λ (r : String). r)
      (answers "h1")
      registration
      run
    ≡ (true, record run { created = build_card ∷ [] })
unfolding program
reconcile_schedule-admits_example =
    reconcile_schedule-admits env evidence board (λ key. key) (λ (r : String). r) (answers "h1")
      registration (phase "plan" "worker" ∷ []) (phase "build" "implementation") [] "h1"
      (some "t_1") run refl refl (planner, "h1", plan-IsAccepted, (refl, refl)) ((refl, refl), tt)
      refl refl refl refl refl refl

reconcile_all-accepted_head_example :
    (reconcile_all env evidence board
      (λ key. key)
      (λ (r : String). r)
      registration
      (answers "h1" ∷ answers "h2" ∷ [])
      (record run { accepted_head = "h0" })).accepted_head
    ≡ "h0"
reconcile_all-accepted_head_example =
    reconcile_all-accepted_head "h0" (λ e. cc) env evidence board (λ key. key) (λ (r : String). r)
      registration (answers "h1" ∷ answers "h2" ∷ []) (record run { accepted_head = "h0" })
      (refl, (refl, tt)) refl

-- A file that is there but cannot be read is written again.
unreadable_replaced :
    persist_accepted_head false (ok tt) "h1" (record run { accepted_head = "h0" })
    ≡ ok (record run { accepted_head = "h1" })
unfolding program
unreadable_replaced = refl
