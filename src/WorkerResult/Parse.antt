-- ===== src/WorkerResult/Parse.antt =====
-- `parse_worker_result` of result_contract.py, over the decoded payload of a card.
use todo_pipeline_orch.Prelude.{
  String, Bool, true, ◌&&◌, ◌||◌, some, List, [], ◌∷◌, nat_eq, string_eq, list_eq, contains, all,
}
use todo_pipeline_orch.Prelude.Dict.{Dict, lookup}
use todo_pipeline_orch.Prelude.Int.{int_eq}
use todo_pipeline_orch.Prelude.Checked.{Checked, ok, ◌>>=◌, ◌>>◌, require}
use todo_pipeline_orch.Prelude.Json.{Json, keys}
use todo_pipeline_orch.WorkerResult.Text.{Library, equals_number, equals_text}
use todo_pipeline_orch.WorkerResult.Types.{
  ResultCode, malformed_payload, malformed_result, unsafe_metadata, invalid_verdict,
  identity_mismatch, WorkerResult,
}
use todo_pipeline_orch.WorkerResult.Values.{mapping, item, is_safe_text, is_safe}
use todo_pipeline_orch.WorkerResult.Runs.{section, final_run}
use todo_pipeline_orch.WorkerResult.Sections.{git_result, acceptance, optional_delivery}

abbrev pub top_keys : List String
top_keys =
    "schema_version" ∷ "tick_id" ∷ "todo_id" ∷ "step_key" ∷ "verdict" ∷ "git" ∷ "acceptance" ∷ []

abbrev pub optional_top_keys : List String
optional_top_keys = "delivery" ∷ "review" ∷ []

-- `not (_TOP_KEYS <= set(raw)) or set(raw) - _TOP_KEYS - _OPTIONAL_TOP_KEYS`, negated.
unfoldable pub has_top_keys : Dict String Json → Bool
unfolding contains all
has_top_keys raw =
    all (λ k. contains k (keys raw)) top_keys
    && all (λ k. contains k top_keys || contains k optional_top_keys) (keys raw)

-- The scan of what is neither `acceptance` nor `review`.
unfoldable pub is_scanned : Library → Dict String Json → Bool
unfolding contains
is_scanned lib [] = true
is_scanned lib ((k, v) ∷ raw) =
    (contains k ("acceptance" ∷ "review" ∷ []) || (is_safe_text lib k && is_safe lib v))
    && is_scanned lib raw

-- What `parse_worker_result` is asked for.
pub record Expected : Type 0 where
  pub tick_id : String
  pub todo_id : String
  pub step_key : String
  pub acceptance_criteria : List String
  pub allow_no_changes : Bool

-- `parse_worker_result`, from `tpo_result` on.
unfoldable pub parse_result :
    Library → Expected → Dict String Json → Checked ResultCode WorkerResult
parse_result lib x raw = do
  require (is_scanned lib raw) unsafe_metadata
  require (has_top_keys raw) malformed_result
  version ← item raw "schema_version"
  verdict ← item raw "verdict"
  require (equals_number version 1 && equals_text verdict "success") invalid_verdict
  tick_id ← item raw "tick_id"
  todo_id ← item raw "todo_id"
  step_key ← item raw "step_key"
  require
      (equals_text tick_id x.tick_id
        && equals_text todo_id x.todo_id
        && equals_text step_key x.step_key)
      identity_mismatch
  raw_git ← item raw "git"
  git ← git_result x.allow_no_changes raw_git
  raw_acceptance ← item raw "acceptance"
  acceptance x.acceptance_criteria raw_acceptance
  delivery ← optional_delivery lib (lookup "delivery" raw)
  ok (record {
    tick_id = x.tick_id;
    todo_id = x.todo_id;
    step_key = x.step_key;
    git = git;
    delivery = delivery;
  })

-- The `tpo_result` of the final successful run.
unfoldable pub published : Library → Json → Checked ResultCode (Dict String Json)
published lib payload = do
  envelope ← mapping (some payload) malformed_payload
  run ← final_run envelope
  metadata ← section lib run "metadata"
  section lib metadata "tpo_result"

-- `parse_worker_result`
unfoldable pub parse_worker_result : Library → Expected → Json → Checked ResultCode WorkerResult
parse_worker_result lib x payload = do raw ← published lib payload; parse_result lib x raw
