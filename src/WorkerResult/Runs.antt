-- ===== src/WorkerResult/Runs.antt =====
-- The run of a card whose metadata `parse_worker_result` reads, and the sections of it.
use todo_pipeline_orch.Prelude.{
  String, Bool, true, false, ◌&&◌, ◌||◌, Option, none, some, List, [], ◌∷◌, nat_eq, string_eq,
  list_eq, leb, contains, get_last?, if◌then◌else◌,
}
use todo_pipeline_orch.Prelude.Dict.{Dict, lookup}
use todo_pipeline_orch.Prelude.Int.{int_eq}
use todo_pipeline_orch.Prelude.Checked.{Checked, ok, err, ◌>>=◌, require, present}
use todo_pipeline_orch.Prelude.Json.{Json, null, str, arr, obj, items, dict}
use todo_pipeline_orch.WorkerResult.Text.{Library, equals_number, is_hashable}
use todo_pipeline_orch.WorkerResult.Types.{
  ResultCode, malformed_payload, missing_successful_run, missing_result, size_limit,
  malformed_result, type_error,
}
use todo_pipeline_orch.WorkerResult.Values.{mapping, max_metadata_bytes}

abbrev pub good_statuses : List String
good_statuses = "success" ∷ "succeeded" ∷ "completed" ∷ "done" ∷ []

-- `value in {"success", ...}`, of a value that a set can hold.
abbrev pub in_good : Option Json → Checked ResultCode Bool
in_good none = ok false
in_good (some (str s)) = ok (contains s good_statuses)
in_good (some v) = if is_hashable v then ok false else err type_error

abbrev pub is_null : Option Json → Bool
is_null none = true
is_null (some null) = true
is_null _ = false

abbrev pub is_zero : Option Json → Bool
is_zero none = false
is_zero (some v) = equals_number v 0

-- Whether `_successful_runs` takes this run.
unfoldable pub is_successful : Dict String Json → Checked ResultCode Bool
is_successful run = do
  by_status ← in_good (lookup "status" run)
  if by_status then ok true else do
    by_outcome ← in_good (lookup "outcome" run)
    ok (by_outcome || (is_null (lookup "status" run) && is_zero (lookup "exit_code" run)))

unfoldable pub successful : List Json → Checked ResultCode (List (Dict String Json))
successful [] = ok []
successful (obj fs ∷ runs) = is_successful (dict fs) >>= λ good.
    successful runs >>= λ rest. ok (if good then dict fs ∷ rest else rest)
successful (_ ∷ runs) = successful runs

-- `_successful_runs(payload)[-1]`
unfoldable pub final_run : Dict String Json → Checked ResultCode (Dict String Json)
final_run payload = elim (lookup "runs" payload) [
  | none ↦ err malformed_payload
  | some v ↦ elim v [
    | arr xs ↦ successful (items xs) >>= λ runs. present (get_last? runs) missing_successful_run
    | _ ↦ err malformed_payload
  ]
]

-- `json.dumps(value, ...).encode()`, which is bounded.
unfoldable pub within_bytes : Library → Json → Checked ResultCode (Unit {0})
within_bytes lib v = do
  n ← present (lib.encoded_size v) malformed_result
  require (leb n max_metadata_bytes) size_limit

-- A section of the payload and its mapping.
unfoldable pub section : Library → Dict String Json → String → Checked ResultCode (Dict String Json)
section lib d key = elim (lookup key d) [
  | none ↦ err missing_result
  | some v ↦ mapping (some v) missing_result >>= λ fs. within_bytes lib v >>= λ _. ok fs
]
