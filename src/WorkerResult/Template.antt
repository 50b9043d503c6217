-- ===== src/WorkerResult/Template.antt =====
-- `render_result_template` of result_contract.py: the object that its text publishes as JSON.
use todo_pipeline_orch.Prelude.{
  String, Bool, true, false, Option, none, some, List, [], ◌∷◌, ◌==◌, string_eq,
}
use todo_pipeline_orch.Prelude.Int.{ℤ, pos}
use todo_pipeline_orch.Prelude.Checked.{Checked, ok, ◌>>=◌, ◌>>◌, require, present, map_checked}
use todo_pipeline_orch.Prelude.Json.{
  Json, Fields, int, str, arr, obj, nil, cons, end, field, array, dict, same_keys,
}
use todo_pipeline_orch.WorkerResult.Types.{
  ResultCode, unknown_result_section, incomplete_result_section, template_out_of_date,
}
use todo_pipeline_orch.WorkerResult.Sections.{git_keys}
use todo_pipeline_orch.WorkerResult.Parse.{top_keys}

-- `_require_keys`
unfoldable pub require_keys : Fields → List String → Checked ResultCode Json
require_keys fs expected = do
  require (same_keys (dict fs) expected) template_out_of_date
  ok (obj fs)

-- The placeholder for a changed file.
abbrev pub file_placeholder : Bool → String
file_placeholder true =
    "<repo-relative path the commit changed, or drop this entry entirely if no commit was made>"
file_placeholder false = "<repo-relative path the task commit changed>"

abbrev pub git_fields : Bool → Fields
git_fields allow_no_changes =
    field "expected_parent_sha" (str "<40-hex SHA of HEAD before the task commit>") (
      field "resulting_head_sha" (str "<40-hex SHA of HEAD after the task commit>") (
        field "task_commit_sha" (str "<40-hex SHA of the task commit; same as resulting_head_sha>")
          (field "changed_files" (arr (cons (str (file_placeholder allow_no_changes)) nil)) end)))

-- `_template_git`
unfoldable pub template_git : Bool → Checked ResultCode Json
template_git allow_no_changes = require_keys (git_fields allow_no_changes) git_keys

-- `_template_command`, of a description in its brackets.
unfoldable pub template_command : String → ℤ → Checked ResultCode Json
template_command description exit_code =
    require_keys (field "command" (str description) (field "exit_code" (int exit_code) end))
      ("command" ∷ "exit_code" ∷ [])

abbrev pub delivery_fields : String → Json → Fields
delivery_fields branch check =
    field "pr_url" (str "<URL of the pull request the external client opened>") (
      field "branch" (str branch) (
        field "head_sha" (str "<40-hex SHA the branch was pushed at; same as resulting_head_sha>")
          (field "checks" (arr (cons check nil)) end)))

-- `_template_delivery`
unfoldable pub template_delivery : String → Checked ResultCode Json
template_delivery branch = do
  check ← template_command "<required repository gate the client ran>" (pos 0)
  require_keys (delivery_fields branch check) ("pr_url" ∷ "branch" ∷ "head_sha" ∷ "checks" ∷ [])

unfoldable pub template_entry : String → Checked ResultCode Json
template_entry text =
    require_keys (field "criterion" (str text) (field "status" (str "passed") end))
      ("criterion" ∷ "status" ∷ [])

-- The fields of the template before its optional section, which is `last`.
abbrev pub template_fields : String → String → String → Json → List Json → Fields → Fields
template_fields tick_id todo_id step_key git entries last = field "schema_version" (int (pos 1)) (
    field "tick_id" (str tick_id) (
      field "todo_id" (str todo_id) (
        field "step_key" (str step_key) (
          field "verdict" (str "success")
            (field "git" git (field "acceptance" (arr (array entries)) last))))))

-- The optional section: none, or `delivery` with its branch.
unfoldable pub template_section : Option String → Option String → Checked ResultCode Fields
template_section none branch = ok end
template_section (some name) branch = do
  require (name == "delivery") unknown_result_section
  b ← present branch incomplete_result_section
  d ← template_delivery b
  ok (field "delivery" d end)

-- `render_result_template`
unfoldable pub render_result_template :
    String
    → String
    → String
    → List String
    → Option String
    → Option String
    → Bool
    → Checked ResultCode Json
render_result_template tick_id todo_id step_key criteria name branch allow_no_changes = do
  last ← template_section name branch
  git ← template_git allow_no_changes
  entries ← map_checked template_entry criteria
  _ ← require_keys (template_fields tick_id todo_id step_key git entries end) top_keys
  ok (obj (template_fields tick_id todo_id step_key git entries last))
