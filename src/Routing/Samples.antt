-- ===== src/Routing/Samples.antt =====
-- Small inputs for the tests of routing.
use todo_pipeline_orch.Prelude.{true, some, none, List, [], ◌∷◌}
use todo_pipeline_orch.Execution.Env.{Env}
use todo_pipeline_orch.Execution.Types.{Process, running}
use todo_pipeline_orch.Execution.Store.{Store}
use todo_pipeline_orch.Execution.Update.{Changes}
use todo_pipeline_orch.Execution.Runs.{Operation, registers, admits, updates}
use todo_pipeline_orch.Execution.Samples.{env, fields, unchanged}
use todo_pipeline_orch.Recovery.Samples.{evidence}
use todo_pipeline_orch.Routing.Types.{Board, succeeds, Worker, World}
use todo_pipeline_orch.Routing.Unblocks.{Tick}

-- A board on which the phase has one card, which its worker blocked, and every command succeeds.
abbrev pub board : Board
board = record {
  cards = some (record { id = "t_1"; status = "blocked"; generation = 1 } ∷ []);
  archives = true;
  unblocks = succeeds;
  registered = true;
  start_ticks = λ pid. some 9;
}

abbrev pub worker : Worker
worker = record { task_id = "t_1"; status = "blocked"; generation = 1 }

abbrev pub world : Store → World
world store = record {
  store = store;
  markers = [];
  blocked = none;
  abandoned = none;
  unblocked = [];
  archived = [];
  issued = [];
}

abbrev pub daemon : Process
daemon = record {
  pid = 7;
  start_ticks = some 9;
  boot_id = some "b";
  host = some "h";
  cgroup = none;
  details = [];
}

abbrev pub launched : Changes
launched = record unchanged { status = some running; supervisor = some (some daemon) }

-- One execution whose attempt runs.
abbrev pub running_once : List (Env × Operation)
running_once =
    (env, registers "e" fields "p") ∷ (env, admits "e" none) ∷ (env, updates "e" 1 launched) ∷ []

abbrev pub tick_of : Store → Tick
tick_of store = record {
  env = env;
  evidence = evidence;
  board = board;
  identity = "e";
  key = "build";
  worker = some worker;
  store = store;
}
