-- ===== src/WorkerResult/Types.antt =====
-- The results of result_contract.py, and its codes.
use todo_pipeline_orch.Prelude.{String, Option, List}
use todo_pipeline_orch.Prelude.Int.{ℤ}

-- The codes of `ResultContractError`, with the exceptions of Python that the code does not turn into one.
pub data ResultCode : Type 0 where
  malformed_payload missing_successful_run missing_result size_limit malformed_result : ResultCode
  unsafe_metadata invalid_verdict identity_mismatch invalid_git invalid_acceptance : ResultCode
  invalid_delivery invalid_command unknown_result_section incomplete_result_section : ResultCode
  template_out_of_date : ResultCode
  key_error type_error : ResultCode

pub record CommandResult : Type 0 where
  pub command : String
  pub exit_code : ℤ

pub record GitResult : Type 0 where
  pub expected_parent_sha : String
  pub resulting_head_sha : String
  pub task_commit_sha : String
  pub changed_files : List String

pub record DeliveryEvidence : Type 0 where
  pub pr_url : String
  pub branch : String
  pub head_sha : String
  pub checks : List CommandResult

pub record WorkerResult : Type 0 where
  pub tick_id : String
  pub todo_id : String
  pub step_key : String
  pub git : GitResult
  pub delivery : Option DeliveryEvidence
