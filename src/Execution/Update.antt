-- ===== src/Execution/Update.antt =====
-- `update_attempt` of agent_execution.py: new evidence for the last attempt.
use todo_pipeline_orch.Prelude.{
  ℕ, String, Bool, true, Option, none, some, List, ◌&&◌, ◌||◌, not, ◌==◌, Eq, nat_eq, string_eq,
  option_eq, list_eq, length, take, get_last?,
}
use todo_pipeline_orch.Effects.{
  Result, ok, raise, require, ◌>>◌, Action, and_then, stale_attempt, terminal_immutable,
  launch_immutable, cgroups_append_only, direct_append_only,
}
use todo_pipeline_orch.Prelude.Int.{ℤ, int_eq}
use todo_pipeline_orch.Execution.Cgroup.{Cgroup, cgroup_eq}
use todo_pipeline_orch.Execution.Env.{Env}
use todo_pipeline_orch.Execution.Types.{
  Status, status_eq, Cleanup, Process, process_eq, Attempt, Record, is_terminal,
}
use todo_pipeline_orch.Execution.Validate.{validate}
use todo_pipeline_orch.Execution.Store.{Store, load, locked, write, replace_last}

-- The keyword arguments: `none` for a field that is left out. `generation`, `recovery_event` and
-- `recovery_context` are refused by the code, and are no fields here.
pub record Changes : Type 0 where
  pub status : Option Status
  pub host : Option (Option String)
  pub boot_id : Option (Option String)
  pub supervisor : Option (Option Process)
  pub client_process : Option (Option Process)
  pub started_monotonic : Option (Option ℕ)
  pub deadline_monotonic : Option (Option ℕ)
  pub exit_code : Option (Option ℤ)
  pub exit_signal : Option (Option ℤ)
  pub cleanup : Option Cleanup
  pub reason : Option (Option String)
  pub owned_processes : Option (List Process)
  pub owned_cgroups : Option (List Cgroup)
  pub direct_processes : Option (List Process)

-- `changes.get(field, attempt[field])`
abbrev pub get : {A : Type 0} → Option A → A → A
get none old = old
get (some new) old = new

-- `attempt.update(changes)`
unfoldable pub apply_changes : Changes → Attempt → Attempt
apply_changes c a = record a {
  status = get c.status a.status;
  host = get c.host a.host;
  boot_id = get c.boot_id a.boot_id;
  supervisor = get c.supervisor a.supervisor;
  client_process = get c.client_process a.client_process;
  started_monotonic = get c.started_monotonic a.started_monotonic;
  deadline_monotonic = get c.deadline_monotonic a.deadline_monotonic;
  exit_code = get c.exit_code a.exit_code;
  exit_signal = get c.exit_signal a.exit_signal;
  cleanup = get c.cleanup a.cleanup;
  reason = get c.reason a.reason;
  owned_processes = get c.owned_processes a.owned_processes;
  owned_cgroups = get c.owned_cgroups a.owned_cgroups;
  direct_processes = get c.direct_processes a.direct_processes;
}

-- A value that is there stays: `not (field in changes and attempt[field] is not None and differs)`.
module _ {A : Type 0} ⦃e : Eq A⦄ where
  unfoldable pub keeps_set : Option (Option A) → Option A → Bool
  keeps_set (some new) (some old) = new == some old
  keeps_set _ _ = true

  -- `new[:len(old)] == old`, where the field changes.
  unfoldable pub extends : Option (List A) → List A → Bool
  extends none old = true
  extends (some new) old = take (length old) new == old

abbrev pub launch_kept : Changes → Attempt → Bool
launch_kept c a =
    keeps_set c.exit_code a.exit_code
    && keeps_set c.exit_signal a.exit_signal
    && keeps_set c.started_monotonic a.started_monotonic
    && keeps_set c.deadline_monotonic a.deadline_monotonic
    && keeps_set c.supervisor a.supervisor
    && keeps_set c.client_process a.client_process

-- The checks of `update_attempt` on the last attempt.
unfoldable pub update_guard : Changes → Attempt → Result (Unit {0})
update_guard c a = do
  require (not (is_terminal a.status) || get c.status a.status == a.status) terminal_immutable
  require (launch_kept c a) launch_immutable
  require (extends c.owned_cgroups a.owned_cgroups) cgroups_append_only
  require (extends c.direct_processes a.direct_processes) direct_append_only

-- The record that `update_attempt` writes, or the refusal.
unfoldable pub update_record : Env → ℕ → Changes → Record → Result Record
update_record env generation c r = elim (get_last? r.attempts) [
  | none ↦ raise stale_attempt
  | some last ↦ do
    require (last.generation == generation) stale_attempt
    update_guard c last
    let r' = record r { attempts = replace_last r.attempts (apply_changes c last) }
    validate env r'
    ok r'
]

module _ (env : Env) (execution_id : String) where
  unfoldable pub update_locked : ℕ → Changes → Action Store Record
  update_locked generation c s =
      and_then (load env execution_id s)
        (λ r s. and_then (update_record env generation c r) (λ r'. write env execution_id r' r') s)
        s

  unfoldable pub update_attempt : ℕ → Changes → Action Store Record
  update_attempt generation c = locked env execution_id (update_locked generation c)
