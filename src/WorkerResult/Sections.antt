-- ===== src/WorkerResult/Sections.antt =====
-- The `git`, `acceptance` and `delivery` sections of a worker's result (result_contract.py).
use todo_pipeline_orch.Prelude.{
  String, Bool, true, false, not, ◌&&◌, ◌||◌, Option, none, some, List, [], ◌∷◌, ◌==◌, nat_eq,
  string_eq, list_eq, leb, length, all, if◌then◌else◌,
}
use todo_pipeline_orch.Prelude.Text.{size}
use todo_pipeline_orch.Prelude.Dict.{Dict}
use todo_pipeline_orch.Prelude.Int.{pos, int_eq}
use todo_pipeline_orch.Prelude.Checked.{Checked, ok, err, ◌>>=◌, ◌>>◌, require, map_checked}
use todo_pipeline_orch.Prelude.Json.{Json, Items, str, arr, nil, items, same_keys}
use todo_pipeline_orch.Plan.Manifest.{no_repeats}
use todo_pipeline_orch.WorkerResult.Text.{
  Library, is_sha, is_placeholder, is_absolute, has_parent, has_backslash, is_pull_url, equals_text,
  is_hashable,
}
use todo_pipeline_orch.WorkerResult.Types.{
  ResultCode, invalid_git, invalid_acceptance, invalid_delivery, type_error, CommandResult,
  GitResult, DeliveryEvidence,
}
use todo_pipeline_orch.WorkerResult.Values.{mapping, item, bounded_string, command}

abbrev pub sha : Dict String Json → String → ResultCode → Checked ResultCode String
sha d key code =
    item d key >>= λ v. elim v [ str s ↦ if is_sha s then ok s else err code | _ ↦ err code ]

-- One of `changed_files`.
unfoldable pub changed_file : Json → Checked ResultCode String
changed_file (str name) = do
  require (not (name == "") && leb (size name) 500) invalid_git
  require (not (is_placeholder name)) invalid_git
  require (not (is_absolute name || has_parent 0 true name || has_backslash name)) invalid_git
  ok name
changed_file _ = err invalid_git

abbrev pub is_nil : Items → Bool
is_nil nil = true
is_nil _ = false

-- `changed_files`. Values that are no texts are refused with the same code whether or not two are equal.
unfoldable pub changed_files : Bool → Json → Checked ResultCode (List String)
unfolding all
changed_files allow_no_changes (arr xs) = do
  require (not (is_nil xs) || allow_no_changes) invalid_git
  require (all is_hashable (items xs)) type_error
  names ← map_checked changed_file (items xs)
  require (no_repeats names) invalid_git
  ok names
changed_files allow_no_changes _ = err invalid_git

abbrev pub git_keys : List String
git_keys = "expected_parent_sha" ∷ "resulting_head_sha" ∷ "task_commit_sha" ∷ "changed_files" ∷ []

-- The `git` section.
unfoldable pub git_result : Bool → Json → Checked ResultCode GitResult
git_result allow_no_changes value = do
  git ← mapping (some value) invalid_git
  require (same_keys git git_keys) invalid_git
  parent ← sha git "expected_parent_sha" invalid_git
  head ← sha git "resulting_head_sha" invalid_git
  commit ← sha git "task_commit_sha" invalid_git
  require (head == commit) invalid_git
  raw_files ← item git "changed_files"
  files ← changed_files allow_no_changes raw_files
  ok (record {
    expected_parent_sha = parent;
    resulting_head_sha = head;
    task_commit_sha = commit;
    changed_files = files;
  })

-- One entry of `acceptance`.
unfoldable pub criterion : Json → Checked ResultCode String
criterion value = do
  entry ← mapping (some value) invalid_acceptance
  require (same_keys entry ("criterion" ∷ "status" ∷ [])) invalid_acceptance
  status ← item entry "status"
  require (equals_text status "passed") invalid_acceptance
  text ← item entry "criterion"
  elim text [ str s ↦ ok s | _ ↦ err invalid_acceptance ]

unfoldable pub acceptance : List String → Json → Checked ResultCode (Unit {0})
acceptance criteria (arr xs) = do
  require (length (items xs) == length criteria) invalid_acceptance
  observed ← map_checked criterion (items xs)
  require (observed == criteria) invalid_acceptance
acceptance criteria _ = err invalid_acceptance

-- `delivery["checks"]`
unfoldable pub checks : Library → Json → Checked ResultCode (List CommandResult)
unfolding all
checks lib (arr xs) = do
  require (not (is_nil xs) && leb (length (items xs)) 50) invalid_delivery
  parsed ← map_checked (command lib) (items xs)
  require (all (λ c. c.exit_code == pos 0) parsed) invalid_delivery
  ok parsed
checks lib _ = err invalid_delivery

-- `_validate_delivery`
unfoldable pub validate_delivery : Library → Json → Checked ResultCode DeliveryEvidence
validate_delivery lib value = do
  delivery ← mapping (some value) invalid_delivery
  require (same_keys delivery ("pr_url" ∷ "branch" ∷ "head_sha" ∷ "checks" ∷ [])) invalid_delivery
  raw_url ← item delivery "pr_url"
  pr_url ← bounded_string lib raw_url 1000 invalid_delivery
  require (is_pull_url lib.is_decimal pr_url) invalid_delivery
  raw_branch ← item delivery "branch"
  branch ← bounded_string lib raw_branch 256 invalid_delivery
  head_sha ← sha delivery "head_sha" invalid_delivery
  raw_checks ← item delivery "checks"
  parsed ← checks lib raw_checks
  ok (record { pr_url = pr_url; branch = branch; head_sha = head_sha; checks = parsed })

unfoldable pub optional_delivery :
    Library → Option Json → Checked ResultCode (Option DeliveryEvidence)
optional_delivery lib none = ok none
optional_delivery lib (some v) = validate_delivery lib v >>= λ d. ok (some d)
