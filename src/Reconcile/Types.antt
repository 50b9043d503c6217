-- ===== src/Reconcile/Types.antt =====
-- What `reconcile_schedule` (phase_schedule.py) reads and writes, and how it may end.
use todo_pipeline_orch.Prelude.{String, Bool, ℕ, Option, List}
use todo_pipeline_orch.Prelude.Dict.{Dict}
use todo_pipeline_orch.Prelude.Checked.{Checked}
use todo_pipeline_orch.Schedule.Phases.{Phase}
use todo_pipeline_orch.Routing.Types.{Worker, World}

-- The exceptions: the two that wait for the next tick, and the others by the code that is recorded.
pub data Raised : Type 0 where
  authority_busy retryable_registration : Raised
  fault : String → Raised

-- What is read of a registration.
pub record RunRegistration : Type 0 where
  pub base_sha : String
  pub phase_definitions : List Phase
  pub has_manifest : Bool

-- What is read of the contract of a registered execution.
pub record Contract : Type 0 where
  pub base_sha : String
  pub is_worker : Bool

-- What the functions that `reconcile_schedule` calls answer during one call, over the results `R`:
-- `locked_run_authority`; `get_todo_kanban_tasks`; HEAD of the worktree; `_delivery_authority`; `_create_task`
-- for a phase; `_promoted_result` of a phase; `parse_worker_result` of its card's report under the contract;
-- `require_authorized_result`; `_reconcile_todo_completion_locked` with its `allow_close`; whether
-- `finish-verified` is there; and of the file of the accepted head, whether it can be read and decoded where
-- it is there, and whether it can be written.
pub record Answers (R : Type 0) : Type 0 where
  pub authority : Checked Raised (Unit {0})
  pub tasks : Dict String Worker
  pub worktree_head : Checked Raised String
  pub delivery_authority : Checked Raised (Unit {0})
  pub create : String → Checked Raised (Unit {0})
  pub promoted : String → Checked Raised (R × Contract)
  pub reported : Worker → String → Contract → Checked Raised R
  pub result_authorized : String → R → Checked Raised (Unit {0})
  pub completion : Bool → Checked Raised Bool
  pub finish_verified : Bool
  pub head_readable : Bool
  pub head_write : Checked Raised (Unit {0})

-- A card that `create_card` created: its phase, the head that its prompt names, the card before it, and
-- the generation, where it is a reissue.
pub record Created : Type 0 where
  pub phase_key : String
  pub head : String
  pub parent : Option String
  pub reissue : Option ℕ

-- The files of the run: those of the routing, the text of the accepted head ("" where there is none),
-- and the marker of a blocked validation, where an exception wrote it; and the cards created.
pub record Run : Type 0 where
  pub world : World
  pub accepted_head : String
  pub faulted : Option (String × String)
  pub created : List Created

-- How a visit of a phase ends: with what `reconcile_schedule` returns, with an exception, or with the
-- head and the card from which the next phase goes on.
pub data Flow : Type 0 where
  returns : Bool → Run → Flow
  raises : Raised → Run → Flow
  goes_on : (head : String) (parent : Option String) → Run → Flow
