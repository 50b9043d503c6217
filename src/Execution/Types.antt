-- ===== src/Execution/Types.antt =====
-- The record of an execution (agent_execution.py): its pinned registration, its attempts and the
-- approval of a retry. The types stand for the shape checks on the decoded JSON.
use todo_pipeline_orch.Prelude.{
  ℕ, String, Bool, true, false, Option, List, ◌&&◌, ◌≡◌, ◌↔◌, arith, ◌==◌, Eq, nat_eq, string_eq,
  option_eq, list_eq, text_iff, nat_beq_iff, option_beq_iff, list_beq_iff,
}
use todo_pipeline_orch.Prelude.Int.{ℤ}
use todo_pipeline_orch.Execution.Cgroup.{Cgroup}

pub data Status : Type 0 where
  admitted running running_detached cleanup_unconfirmed lock_unconfirmed : Status
  exited timed_out interrupted blocked : Status

-- `TERMINAL`
abbrev pub is_terminal : Status → Bool
is_terminal exited = true
is_terminal timed_out = true
is_terminal interrupted = true
is_terminal blocked = true
is_terminal _ = false

pub data Cleanup : Type 0 where
  pending confirmed unconfirmed : Cleanup

abbrev pub is_confirmed : Cleanup → Bool
is_confirmed confirmed = true
is_confirmed _ = false

-- A process pinned by its birth. `details` holds the optional fields that no check reads (`ppid`,
-- `pgrp`, `session`, `state`), by name.
pub record Process : Type 0 where
  pub pid : ℕ
  pub start_ticks : Option ℕ
  pub boot_id : Option String
  pub host : Option String
  pub cgroup : Option String
  pub details : List String

unfoldable pub process_beq : Process → Process → Bool
process_beq p q =
    p.pid == q.pid
    && p.start_ticks == q.start_ticks
    && p.boot_id == q.boot_id
    && p.host == q.host
    && p.cgroup == q.cgroup
    && p.details == q.details

pub process_beq_iff : (p q : Process) → (process_beq p q ≡ true) ↔ (p ≡ q)
unfolding process_beq
process_beq_iff p q = ground (
  arith,
  nat_beq_iff p.pid q.pid,
  option_beq_iff p.start_ticks q.start_ticks,
  option_beq_iff p.boot_id q.boot_id,
  option_beq_iff p.host q.host,
  option_beq_iff p.cgroup q.cgroup,
  list_beq_iff p.details q.details,
)

instance abbrev pub process_eq : Eq Process
unfolding process_beq
process_eq = record { beq = process_beq; beq_iff = process_beq_iff }

-- `client` is its name and tools. The result contract and the manifest are only compared here, and
-- stand as their JSON texts.
pub record Registration : Type 0 where
  pub registration_id : String
  pub plan_identity : String
  pub phase : String
  pub prompt_base64 : String
  pub prompt_sha256 : String
  pub client_name : String
  pub client_tools : List String
  pub worktree : String
  pub branch : String
  pub result_contract : String
  pub timeout : ℕ
  pub manifest : Option String

unfoldable pub registration_beq : Registration → Registration → Bool
registration_beq a b =
    a.registration_id == b.registration_id
    && a.plan_identity == b.plan_identity
    && a.phase == b.phase
    && a.prompt_base64 == b.prompt_base64
    && a.prompt_sha256 == b.prompt_sha256
    && a.client_name == b.client_name
    && a.client_tools == b.client_tools
    && a.worktree == b.worktree
    && a.branch == b.branch
    && a.result_contract == b.result_contract
    && a.timeout == b.timeout
    && a.manifest == b.manifest

pub registration_beq_iff : (a b : Registration) → (registration_beq a b ≡ true) ↔ (a ≡ b)
unfolding registration_beq
registration_beq_iff a b = ground (
  arith,
  text_iff a.registration_id b.registration_id,
  text_iff a.plan_identity b.plan_identity,
  text_iff a.phase b.phase,
  text_iff a.prompt_base64 b.prompt_base64,
  text_iff a.prompt_sha256 b.prompt_sha256,
  text_iff a.client_name b.client_name,
  list_beq_iff a.client_tools b.client_tools,
  text_iff a.worktree b.worktree,
  text_iff a.branch b.branch,
  text_iff a.result_contract b.result_contract,
  nat_beq_iff a.timeout b.timeout,
  option_beq_iff a.manifest b.manifest,
)

instance abbrev pub registration_eq : Eq Registration
unfolding registration_beq
registration_eq = record { beq = registration_beq; beq_iff = registration_beq_iff }

-- Monotonic times are in a fixed unit of which the floats are whole multiples.
pub record Attempt : Type 0 where
  pub generation : ℕ
  pub status : Status
  pub host : Option String
  pub boot_id : Option String
  pub supervisor : Option Process
  pub client_process : Option Process
  pub started_monotonic : Option ℕ
  pub deadline_monotonic : Option ℕ
  pub exit_code : Option ℤ
  pub exit_signal : Option ℤ
  pub cleanup : Cleanup
  pub reason : Option String
  pub recovery_event : Option String
  pub recovery_context : Option String
  pub owned_processes : List Process
  pub owned_cgroups : List Cgroup
  pub direct_processes : List Process

pub record Approval : Type 0 where
  pub generation : ℕ
  pub event_id : String
  pub recovery_context : String

pub record Record : Type 0 where
  pub version : ℕ
  pub execution_id : String
  pub registration : Registration
  pub attempts : List Attempt
  pub approved_recovery : Option Approval

-- What an attempt must be before anything else may be admitted after it.
abbrev pub is_settled : Attempt → Bool
is_settled a = is_terminal a.status && is_confirmed a.cleanup

abbrev pub status_beq : Status → Status → Bool
status_beq admitted admitted = true
status_beq running running = true
status_beq running_detached running_detached = true
status_beq cleanup_unconfirmed cleanup_unconfirmed = true
status_beq lock_unconfirmed lock_unconfirmed = true
status_beq exited exited = true
status_beq timed_out timed_out = true
status_beq interrupted interrupted = true
status_beq blocked blocked = true
status_beq _ _ = false

pub status_beq_iff : (a b : Status) → (status_beq a b ≡ true) ↔ (a ≡ b)
status_beq_iff a b = ground arith

instance abbrev pub status_eq : Eq Status
status_eq = record { beq = status_beq; beq_iff = status_beq_iff }
