-- ===== src/Execution/Samples.antt =====
-- Small inputs for the tests of the execution store.
use todo_pipeline_orch.Prelude.{String, true, false, none, some, List, [], ◌∷◌}
use todo_pipeline_orch.Execution.Env.{Env, free, complete}
use todo_pipeline_orch.Execution.Types.{Registration, running, timed_out, confirmed}
use todo_pipeline_orch.Execution.Update.{Changes}
use todo_pipeline_orch.Execution.Runs.{Operation, registers, admits, authorizes, updates}

abbrev pub digest : String
digest = "0123456789abcdef0123456789abcdef0123456789abcdef0123456789abcdef"

-- No other owner, and a digest and an encoding that fit one another.
abbrev pub env : Env
env = record {
  lock = λ id. free;
  write = λ id. complete;
  resolve = λ path. path;
  is_absolute = λ path. true;
  root_is_inside = λ path. false;
  b64decode = λ text. some text;
  b64encode = λ text. text;
  sha256 = λ text. digest;
  host = "h";
  boot_id = some "b";
}

abbrev pub fields : Registration
fields = record {
  registration_id = "reg";
  plan_identity = digest;
  phase = "implement";
  prompt_base64 = "";
  prompt_sha256 = "";
  client_name = "codex";
  client_tools = "Bash" ∷ [];
  worktree = "/w";
  branch = "b";
  result_contract = "{}";
  timeout = 1800;
  manifest = none;
}

abbrev pub unchanged : Changes
unchanged = record {
  status = none;
  host = none;
  boot_id = none;
  supervisor = none;
  client_process = none;
  started_monotonic = none;
  deadline_monotonic = none;
  exit_code = none;
  exit_signal = none;
  cleanup = none;
  reason = none;
  owned_processes = none;
  owned_cgroups = none;
  direct_processes = none;
}

abbrev pub gives_up : Changes
gives_up = record unchanged { status = some timed_out; cleanup = some confirmed }

abbrev pub starts : Changes
starts = record unchanged { status = some running; started_monotonic = some (some 5) }

-- One execution that timed out, was allowed one more attempt by the event, and was admitted again.
abbrev pub story : List (Env × Operation)
story =
    (env, registers "e" fields "p")
    ∷ (env, admits "e" none)
    ∷ (env, updates "e" 1 gives_up)
    ∷ (env, authorizes "e" 1 "ev" "")
    ∷ (env, admits "e" (some "ev"))
    ∷ []

-- Another execution of the same worktree, which timed out, before the one of the story is registered.
abbrev pub peers : List (Env × Operation)
peers =
    (env, registers "f" fields "p")
    ∷ (env, admits "f" none)
    ∷ (env, updates "f" 1 gives_up)
    ∷ (env, registers "e" fields "p")
    ∷ []
