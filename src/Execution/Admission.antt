-- ===== src/Execution/Admission.antt =====
-- `register`, `admit` and `authorize_retry` of agent_execution.py: how an execution comes to have a
-- record, an attempt, and leave for another attempt.
use todo_pipeline_orch.Prelude.{
  ℕ, ◌+◌, String, Bool, true, false, Option, none, some, [], ◌∷◌, ◌++◌, ◌&&◌, not, ◌==◌, nat_eq,
  string_eq, option_eq, if◌then◌else◌, length, any, get_last?,
}
use todo_pipeline_orch.Prelude.Dict.{lookup}
use todo_pipeline_orch.Effects.{
  Result, ok, raise, require, ◌>>◌, Action, and_then, invalid_identity, registration_drift,
  unauthorized_retry, no_prior_attempt, stale_authorization, event_consumed,
}
use todo_pipeline_orch.Execution.Text.{is_identifier}
use todo_pipeline_orch.Execution.Env.{Env}
use todo_pipeline_orch.Execution.Types.{
  Registration, registration_eq, Attempt, Approval, Record, admitted, pending, is_terminal,
  is_confirmed,
}
use todo_pipeline_orch.Execution.Validate.{validate}
use todo_pipeline_orch.Execution.Store.{
  Store, load, locked, worktree_locked, outside_worktree, write,
}

-- The pinned registration: the caller's fields, with the prompt encoded and its digest.
unfoldable pub pin : Env → Registration → String → Registration
pin env fields prompt = record fields {
  prompt_base64 = env.b64encode prompt;
  prompt_sha256 = env.sha256 prompt;
}

unfoldable pub new_record : String → Registration → Record
new_record execution_id registration = record {
  version = 3;
  execution_id = execution_id;
  registration = registration;
  attempts = [];
  approved_recovery = none;
}

module _ (env : Env) (execution_id : String) where
  -- What stands under the lock in `register`, on whether the record's file exists.
  unfoldable pub register_locked : Registration → Action Store Record
  register_locked registration s = elim (lookup execution_id s.records) [
    | none ↦ let r = new_record execution_id registration in write env execution_id r r s
    | some _ ↦
        and_then (load env execution_id s)
          (λ existing s.
            if existing.registration == registration
            then (ok existing, s)
            else (raise registration_drift, s))
          s
  ]

  unfoldable pub register : Registration → String → Action Store Record
  register fields prompt s =
      and_then (outside_worktree env fields.worktree)
        (λ _ s.
          and_then (validate env (new_record execution_id (pin env fields prompt)))
            (λ _. locked env execution_id (register_locked (pin env fields prompt))) s)
        s

-- `approval` covers a retry after `last`, for this event.
unfoldable pub authorizes : Option Approval → Attempt → String → Bool
authorizes none last event = false
authorizes (some a) last event =
    a.generation == last.generation
    && a.event_id == event
    && is_confirmed last.cleanup
    && is_terminal last.status

unfoldable pub approved_context : Option Approval → Option String
approved_context none = none
approved_context (some a) = some a.recovery_context

-- The attempt that `admit` appends.
unfoldable pub new_attempt : Env → Record → Option String → Attempt
new_attempt env r event = record {
  generation = length r.attempts + 1;
  status = admitted;
  host = some env.host;
  boot_id = env.boot_id;
  supervisor = none;
  client_process = none;
  started_monotonic = none;
  deadline_monotonic = none;
  exit_code = none;
  exit_signal = none;
  cleanup = pending;
  reason = none;
  recovery_event = event;
  recovery_context = approved_context r.approved_recovery;
  owned_processes = [];
  owned_cgroups = [];
  direct_processes = [];
}

unfoldable pub admitted_record : Env → Record → Option String → Record
admitted_record env r event = record r {
  attempts = r.attempts ++ new_attempt env r event ∷ [];
  approved_recovery = none;
}

-- Whether `admit` appends an attempt: `ok false` where it returns the record as it is.
unfoldable pub admission : Record → Option String → Result Bool
admission r event = elim (get_last? r.attempts) [
  | none ↦ elim event [ none ↦ ok true | some _ ↦ raise no_prior_attempt ]
  | some last ↦ elim event [
    | none ↦ ok false
    | some e ↦ if authorizes r.approved_recovery last e then ok true else raise unauthorized_retry
  ]
]

module _ (env : Env) (execution_id : String) where
  -- What stands under the two locks in `admit`. The result says whether an attempt was appended.
  unfoldable pub admit_locked : Option String → Action Store (Record × Bool)
  admit_locked event s =
      and_then (load env execution_id s)
        (λ r s.
          and_then (admission r event)
            (λ appends s.
              if appends
              then write env execution_id (admitted_record env r event)
                  (admitted_record env r event, true) s
              else (ok (r, false), s))
            s)
        s

  unfoldable pub admit : Option String → Action Store (Record × Bool)
  admit event = worktree_locked env execution_id (locked env execution_id (admit_locked event))

-- The checks of `authorize_retry` on the record.
unfoldable pub retry_guard : Record → ℕ → String → Result (Unit {0})
retry_guard r expected event = elim (get_last? r.attempts) [
  | none ↦ raise stale_authorization
  | some last ↦ do
    require (last.generation == expected) stale_authorization
    require (not (any (λ a. a.recovery_event == some event) r.attempts)) event_consumed
]

abbrev pub authorized : Record → ℕ → String → String → Record
authorized r expected event context = record r {
  approved_recovery =
      some (record { generation = expected; event_id = event; recovery_context = context });
}

module _ (env : Env) (execution_id : String) where
  unfoldable pub authorize_locked : ℕ → String → String → Action Store (Unit {0})
  authorize_locked expected event context s =
      and_then (load env execution_id s)
        (λ r s.
          let r' = authorized r expected event context in
          and_then (retry_guard r expected event >> validate env r')
            (λ _. write env execution_id r' tt) s)
        s

  unfoldable pub authorize_retry : ℕ → String → String → Action Store (Unit {0})
  authorize_retry expected event context s =
      if is_identifier event
      then locked env execution_id (authorize_locked expected event context) s
      else (raise invalid_identity, s)
