-- ===== src/Decision/Types.antt =====
-- The records of a selection (decision/schema.py), and what the agent's call may give (decision/__init__.py).
use todo_pipeline_orch.Prelude.{String, Bool, ℕ, Option, List}
use todo_pipeline_orch.Prelude.Dict.{Dict}
use todo_pipeline_orch.Prelude.Json.{Json}

-- `HermesSelectionDecision`. The considered candidates may be the agent's, and so any values.
pub record HermesSelectionDecision : Type 0 where
  pub tick_id : String
  pub timestamp : String
  pub model : String
  pub prompt_sha : String
  pub candidates_considered : List Json
  pub picked : Option String
  pub rationale : String
  pub blocked_reasons : Dict String String
  pub in_flight : List String

-- What `run_selection` reads of a `SelectionContext`.
pub record SelectionContext : Type 0 where
  pub candidate_ids : List String
  pub in_flight : List String

-- The agent's answer, as `_parse` gives it. `picked` may be any value, and a key of `blocked_reasons` too.
pub record AgentAnswer : Type 0 where
  pub candidates_considered : List Json
  pub picked : Json
  pub rationale : String
  pub blocked_reasons : List (Json × Json)

-- What `_api_error_code` names.
pub data ApiError : Type 0 where
  hermes_error claude_error dependency_error timeout transport_error unexpected_error : ApiError

-- How `call_agent` ends: with an answer and the prompt's SHA, with `PromptShaMismatch`, with `KeyError`, or
-- with another exception, for which the SHA is computed again where the prompt can be read.
pub data AgentCall : Type 0 where
  answered : AgentAnswer → String → AgentCall
  sha_mismatch : (expected actual : String) → AgentCall
  key_error : AgentCall
  failed : ApiError → (prompt_sha : Option String) → AgentCall

-- What Python's library answers: `\d` of a regular expression, `repr`, and `json.dumps` of a decision.
pub record Library : Type 0 where
  pub is_decimal : ℕ → Bool
  pub repr : Json → String
  pub to_json : HermesSelectionDecision → String
