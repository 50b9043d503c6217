-- ===== src/Execution/Validate.antt =====
-- `_validate` of agent_execution.py: what every record is checked for when it is read or written.
use Prim.Native.String.{count}
use todo_pipeline_orch.Prelude.{
  ℕ, suc, String, Bool, true, false, Option, none, some, List, [], ◌∷◌, ◌++◌, ◌&&◌, ◌||◌, not, ◌==◌,
  nat_eq, string_eq, leb, ltb, length, all, any, contains, map,
}
use todo_pipeline_orch.Effects.{
  Result, ok, raise, require, ◌>>◌, invalid_identity, unsupported_schema, missing_identity,
  invalid_digest, invalid_client, invalid_timeout, invalid_prompt, prompt_mismatch,
  invalid_generation, deadline_order, contradictory_exit, missing_exit, invalid_attempt_text,
  invalid_inventory, invalid_cgroups, duplicate_cgroup, invalid_direct, invalid_process,
  unrecorded_cgroup, invalid_authorization,
}
use todo_pipeline_orch.Prelude.Int.{ℤ, is_positive, neg, int_eq}
use todo_pipeline_orch.Execution.Text.{is_identifier, is_sha256, is_empty}
use todo_pipeline_orch.Execution.Cgroup.{Cgroup, validate_legacy_cgroup}
use todo_pipeline_orch.Execution.Env.{Env}
use todo_pipeline_orch.Execution.Types.{
  Status, Process, process_eq, Registration, Attempt, Approval, Record, exited,
}

-- `is_unset o or p(value)`, for a field that may be `None`.
abbrev unset_or : {A : Type 0} → (A → Bool) → Option A → Bool
unset_or p none = true
unset_or p (some a) = p a

abbrev is_set : {A : Type 0} → Option A → Bool
is_set none = false
is_set (some _) = true

-- `len(set(items)) == len(items)`
all_distinct : {A : Type 0} → (A → A → Bool) → List A → Bool
unfolding any
all_distinct same [] = true
all_distinct same (x ∷ xs) = not (any (same x) xs) && all_distinct same xs

abbrev schema_version : ℕ
schema_version = 3

-- The registration checks of `_validate`, in the order of the code.
unfoldable pub validate_registration : Env → Registration → Result (Unit {0})
unfolding all is_sha256
validate_registration env r = do
  require
      (not (is_empty r.registration_id)
        && not (is_empty r.plan_identity)
        && not (is_empty r.phase)
        && not (is_empty r.worktree)
        && not (is_empty r.branch))
      missing_identity
  require (is_sha256 r.plan_identity) invalid_digest
  require
      ((r.client_name == "claude" || r.client_name == "codex")
        && all (λ tool. not (is_empty tool)) r.client_tools)
      invalid_client
  require (ltb 0 r.timeout) invalid_timeout
  elim (env.b64decode r.prompt_base64) [
    | none ↦ raise invalid_prompt
    | some prompt ↦ require (env.sha256 prompt == r.prompt_sha256) prompt_mismatch
  ]

abbrev deadline_follows : Option ℕ → Option ℕ → Bool
deadline_follows (some started) (some deadline) = ltb started deadline
deadline_follows _ _ = true

-- A signal is positive, and an exit code beside it is its negation.
abbrev exit_agrees : Option ℤ → Option ℤ → Bool
exit_agrees code none = true
exit_agrees none (some signal) = is_positive signal
exit_agrees (some code) (some signal) = is_positive signal && code == neg signal

abbrev has_exit : Attempt → Bool
has_exit a = is_set a.exit_code || is_set a.exit_signal

abbrev is_exited : Status → Bool
is_exited exited = true
is_exited _ = false

abbrev is_short : Option String → Bool
is_short = unset_or (λ text. leb (count text) 65536)

validate_process : List String → Process → Result (Unit {0})
unfolding contains
validate_process units p = do
  require (unset_or (λ group. contains group units) p.cgroup) unrecorded_cgroup
  require (ltb 0 p.pid) invalid_process

validate_processes : List String → List Process → Result (Unit {0})
unfolding validate_process
validate_processes units [] = ok tt
validate_processes units (p ∷ ps) = do validate_process units p; validate_processes units ps

abbrev of_option : {A : Type 0} → Option A → List A
of_option none = []
of_option (some a) = a ∷ []

-- One turn of the loop over `attempts`, for the attempt that stands at place `generation`.
unfoldable pub validate_attempt : ℕ → Attempt → Result (Unit {0})
unfolding all_distinct all validate_legacy_cgroup validate_processes
validate_attempt generation a = do
  require (a.generation == generation) invalid_generation
  require (deadline_follows a.started_monotonic a.deadline_monotonic) deadline_order
  require (exit_agrees a.exit_code a.exit_signal) contradictory_exit
  require (not (is_exited a.status) || has_exit a) missing_exit
  require
      (is_short a.host
        && is_short a.boot_id
        && is_short a.reason
        && is_short a.recovery_event
        && is_short a.recovery_context)
      invalid_attempt_text
  require (leb (length a.owned_processes) 4096) invalid_inventory
  require (leb (length a.owned_cgroups) 2048) invalid_cgroups
  require (all validate_legacy_cgroup a.owned_cgroups) invalid_cgroups
  let units = map (λ (g : Cgroup). g.unit) a.owned_cgroups
  require (all_distinct (λ u v. u == v) units) duplicate_cgroup
  require (leb (length a.direct_processes) 2048 && all_distinct (λ p q. p == q) a.direct_processes)
      invalid_direct
  validate_processes units (
      of_option a.supervisor
      ++ of_option a.client_process
      ++ a.owned_processes
      ++ a.direct_processes)

-- `for generation, attempt in enumerate(attempts, 1)`, from any start.
unfoldable pub validate_attempts : ℕ → List Attempt → Result (Unit {0})
unfolding validate_attempt
validate_attempts generation [] = ok tt
validate_attempts generation (a ∷ rest) = do
  validate_attempt generation a
  validate_attempts (suc generation) rest

unfoldable pub validate_approval : Option Approval → Result (Unit {0})
validate_approval none = ok tt
validate_approval (some a) =
    require (not (is_empty a.event_id) && leb (count a.recovery_context) 65536)
      invalid_authorization

unfoldable pub validate : Env → Record → Result (Unit {0})
unfolding is_identifier validate_registration validate_attempts validate_approval
validate env record' = do
  require (record'.version == 1 || record'.version == 2 || record'.version == schema_version)
      unsupported_schema
  require (is_identifier record'.execution_id) invalid_identity
  validate_registration env record'.registration
  validate_attempts 1 record'.attempts
  validate_approval record'.approved_recovery
