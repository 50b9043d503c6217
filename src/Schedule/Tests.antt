-- ===== src/Schedule/Tests.antt =====
-- Small definitions, and the theorems on schedules at them.
use todo_pipeline_orch.Prelude.{
  String, Bool, true, false, none, some, List, [], ◌∷◌, ◌≡◌, ◌≢◌, ◌↔◌, refl, arith, text_iff, find?,
  contains, map, filter, not,
}
use todo_pipeline_orch.Schedule.Phases.{
  Phase, check_phases, validate_definitions, worker_phases, phase_tools, split_commas, Registered,
  role_key, phase_role, distinct_keys, execution_keys,
}
use todo_pipeline_orch.Schedule.Order.{before_boundary, worker_phases-eq}
use todo_pipeline_orch.Schedule.Names.{role_key-phase_role}

program : Unit {0}
unfolding find? contains check_phases validate_definitions worker_phases phase_tools split_commas
    role_key phase_role distinct_keys execution_keys
program = tt

abbrev phase : String → String → Bool → Bool → Phase
phase key role gate terminal = record {
  phase_key = key;
  name = key;
  tools = "Read,Bash";
  turns = 0;
  timeout = 1800;
  terminal = terminal;
  gate = gate;
  kind = none;
  role = role;
}

-- A plan, a gate, the implementation and its review, and what waits behind a human.
abbrev phases : List Phase
phases =
    phase "plan" "worker" false false
    ∷ phase "approve" "worker" true false
    ∷ phase "build" "implementation" false false
    ∷ phase "review" "review" false false
    ∷ phase "human" "worker" true true
    ∷ phase "finish" "delivery" false false
    ∷ []

abbrev registered : Registered
registered = record {
  phase_definitions = phases;
  step_keys = some ("plan" ∷ "build" ∷ "review" ∷ []);
}

abbrev legacy : Registered
legacy = record { phase_definitions = []; step_keys = some ("finish" ∷ "plan" ∷ []) }

accepts : validate_definitions phases ≡ none
unfolding program
accepts = refl

names :
    (map (λ (p : Phase). p.phase_key) (worker_phases phases) ≡ "plan" ∷ "build" ∷ "review" ∷ [])
    × (role_key registered "delivery" ≡ none)
    × (phase_role legacy "review:0" ≡ "review")
    × (execution_keys legacy ≡ "finish" ∷ "plan" ∷ "review:0" ∷ [])
    × (phase_tools (phase "build" "implementation" false false) "native-sdd" "claude"
        ≡ "Read,Bash,Agent")
unfolding program
names = (refl, refl, refl, refl, refl)

worker_phases-eq_example :
    worker_phases phases ≡ filter (λ (p : Phase). not p.gate) (before_boundary phases)
worker_phases-eq_example = worker_phases-eq phases

no_worker : ◌≢◌ {A = String} "review" "worker"
no_worker e = ground (arith, (text_iff "review" "worker").1 e)

role_key-phase_role_example :
    (role_key registered "review" ≡ some "review") ↔ (phase_role registered "review" ≡ "review")
unfolding program
role_key-phase_role_example = role_key-phase_role registered "review" "review" refl no_worker
