-- ===== src/Effects.antt =====
-- Code that raises, and code that raises and writes to stored files: results as values, actions on
-- a state that outlives an exception, and the exceptions of hermes_pipeline/agent_execution.py.
use todo_pipeline_orch.Prelude.{Bool, true, false, ◌≡◌, ◌⊎◌, inl, inr, refl}

-- The messages of `ExecutionError`, one constructor for each check that raises it.
pub data Fault : Type 0 where
  invalid_identity record_unavailable unsupported_schema missing_identity invalid_digest : Fault
  invalid_client invalid_timeout invalid_prompt prompt_mismatch : Fault
  invalid_generation invalid_outcome invalid_timestamp deadline_order contradictory_exit : Fault
  missing_exit invalid_attempt_text invalid_inventory invalid_cgroups duplicate_cgroup : Fault
  invalid_direct invalid_process unrecorded_cgroup invalid_authorization : Fault
  identity_mismatch relative_worktree inside_worktree registration_drift unresolved_peer : Fault
  unauthorized_retry no_prior_attempt stale_authorization event_consumed : Fault
  stale_attempt terminal_immutable launch_immutable cgroups_append_only direct_append_only : Fault
  invalid_intent invalid_mode unconfirmed_attempt legacy_evidence worktree_evidence : Fault
  approval_mismatch preview_changed no_approved_event worker_context progress_invalid : Fault
  record_too_large : Fault

-- `lock_unconfirmed` is told apart by its cause: a lock that another owner holds (`EAGAIN`), or
-- anything else. `state_changed` is the subclass `RecoveryStateChanged`.
pub data Exception : Type 0 where
  execution_error : Fault → Exception
  lock_contended lock_unconfirmed state_changed os_error : Exception

pub data Result {ℓ} (A : Type ℓ) : Type ℓ where
  ok : A → Result A
  err : Exception → Result A

abbrev pub raise {ℓ} : {A : Type ℓ} → Fault → Result A
raise f = err (execution_error f)

module _ {ℓ κ} {A : Type ℓ} {B : Type κ} where
  infixl 5 ◌>>=◌
  -- An exception skips what comes next.
  abbrev pub ◌>>=◌ : Result A → (A → Result B) → Result B
  err e >>= next = err e
  ok v >>= next = next v

  -- A sequence that returned had a value at every step.
  pub >>=-eq-ok :
      (r : Result A) (next : A → Result B) {b : B}
      → (r >>= next) ≡ ok b
      → (v : A) × (r ≡ ok v) × (next v ≡ ok b)
  >>=-eq-ok (err e) next h = cc
  >>=-eq-ok (ok v) next h = (v, refl, h)

infixl 5 ◌>>◌
-- One check after another.
abbrev pub ◌>>◌ {ℓ} : {B : Type ℓ} (check : Result (Unit {0})) (rest : Result B) → Result B
check >> rest = check >>= λ _. rest

-- `if not b: raise ExecutionError(f)`.
abbrev pub require : Bool → Fault → Result (Unit {0})
require true f = ok tt
require false f = raise f

pub require-eq-ok : (b : Bool) (f : Fault) {u : Unit {0}} → require b f ≡ ok u → b ≡ true
require-eq-ok true f h = refl
require-eq-ok false f h = cc

-- Run a result in a state: an action that reads, or that fails, writes nothing.
abbrev pub Action {ℓ} : Type ℓ → Type ℓ → Type ℓ
Action S A = S → Result A × S

-- `r` is the outcome so far; the rest runs on its value, and an exception ends the action.
abbrev pub and_then {ℓ} : {S A B : Type ℓ} → Result A → (A → Action S B) → Action S B
and_then (ok a) f s = f a s
and_then (err e) f s = (err e, s)

pub Result-cases {ℓ} :
    {A : Type ℓ} (r : Result A) → ((a : A) × (r ≡ ok a)) ⊎ ((e : Exception) × (r ≡ err e))
Result-cases (ok a) = inl (a, refl)
Result-cases (err e) = inr (e, refl)
