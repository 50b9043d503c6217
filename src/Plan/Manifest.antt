-- ===== src/Plan/Manifest.antt =====
-- The schema of a Plan's manifest (plan_manifest.py), over decoded JSON.
use Prim.Native.Char.{code}
use todo_pipeline_orch.Prelude.{
  ℕ, String, Bool, true, false, not, ◌&&◌, ◌||◌, List, [], ◌∷◌, map, ◌==◌, nat_eq, string_eq,
  list_eq, ltb, leb, length, contains, if◌then◌else◌,
}
use todo_pipeline_orch.Prelude.Text.{size, strip, every}
use todo_pipeline_orch.Prelude.Dict.{Dict, lookup}
use todo_pipeline_orch.Prelude.Int.{pos}
use todo_pipeline_orch.Prelude.Checked.{
  Checked, ok, err, ◌>>=◌, ◌>>◌, require, present, map_checked,
}
use todo_pipeline_orch.Prelude.Json.{Json, int, str, arr, obj, items, dict, same_keys}
use todo_pipeline_orch.Execution.Text.{is_alnum}

-- The codes of `PlanManifestValidationError`, and the `KeyError` of a subscript.
pub data Refusal : Type 0 where
  duplicate_manifest malformed_fence manifest_too_large duplicate_json_key invalid_json : Refusal
  invalid_manifest unknown_keys schema_version invalid_todo_id todo_id_mismatch task_count : Refusal
  invalid_task unsafe_task_id duplicate_task_id key_error : Refusal

-- `_CONTROL_RE`
unfoldable pub is_control : ℕ → Bool
is_control c =
    leb c 8
    || c == 11
    || c == 12
    || (leb 14 c && leb c 31)
    || c == 0x7f
    || (leb 0x202a c && leb c 0x202e)
    || (leb 0x2066 c && leb c 0x2069)

abbrev pub is_plain : ℕ → Bool
is_plain c = not (is_control c)

abbrev pub max_list_items : ℕ
max_list_items = 50

abbrev pub max_plan_tasks : ℕ
max_plan_tasks = 50

-- `_bounded_string`
unfoldable pub bounded_string : Json → ℕ → Refusal → Checked Refusal String
bounded_string (str value) maximum code =
    if strip value == "" || ltb maximum (size value) || not (every is_plain value)
    then err code
    else ok (strip value)
bounded_string _ maximum code = err code

-- `_bounded_string_list`
unfoldable pub bounded_string_list : Json → ℕ → Refusal → Checked Refusal (List String)
bounded_string_list (arr xs) maximum code = do
  require (leb 1 (length (items xs)) && leb (length (items xs)) max_list_items) code
  map_checked (λ x. bounded_string x maximum code) (items xs)
bounded_string_list _ maximum code = err code

-- `_TASK_ID_RE`: `[A-Za-z0-9][A-Za-z0-9_-]*`
unfoldable pub is_task_id : String → Bool
is_task_id String.[] = false
is_task_id (String.◌∷◌ c s) =
    is_alnum (code c) && every (λ d. is_alnum d || d == b'_' || d == b'-') s

pub record PlanTask : Type 0 where
  pub id : String
  pub title : String
  pub instructions : String
  pub acceptance_criteria : List String
  pub verification : List String
  pub commit_message : String

pub record PlanManifest : Type 0 where
  pub version : ℕ
  pub todo_id : String
  pub tasks : List PlanTask

abbrev pub task_keys : List String
task_keys =
    "id" ∷ "title" ∷ "instructions" ∷ "acceptance_criteria" ∷ "verification" ∷ "commit_message" ∷ []

abbrev pub manifest_keys : List String
manifest_keys = "schema_version" ∷ "todo_id" ∷ "tasks" ∷ []

-- `value[key]`
abbrev pub item : Dict String Json → String → Checked Refusal Json
item d key = present (lookup key d) key_error

abbrev pub text : Dict String Json → String → ℕ → Checked Refusal String
text d key maximum = item d key >>= λ v. bounded_string v maximum invalid_task

abbrev pub texts : Dict String Json → String → ℕ → Checked Refusal (List String)
texts d key maximum = item d key >>= λ v. bounded_string_list v maximum invalid_task

-- `_parse_task`, past its keys.
unfoldable pub task_fields : Dict String Json → Checked Refusal PlanTask
task_fields d = do
  id ← text d "id" 64
  require (is_task_id id) unsafe_task_id
  title ← text d "title" 256
  instructions ← text d "instructions" 10000
  criteria ← texts d "acceptance_criteria" 2000
  verification ← texts d "verification" 500
  message ← text d "commit_message" 256
  ok (record {
    id = id;
    title = title;
    instructions = instructions;
    acceptance_criteria = criteria;
    verification = verification;
    commit_message = message;
  })

-- `_parse_task`
unfoldable pub parse_task : Json → Checked Refusal PlanTask
parse_task (obj fs) = do require (same_keys (dict fs) task_keys) unknown_keys; task_fields (dict fs)
parse_task _ = err invalid_task

-- `len(ids) == len(set(ids))`
unfoldable pub no_repeats : List String → Bool
no_repeats [] = true
no_repeats (x ∷ xs) = not (contains x xs) && no_repeats xs

-- `type(v) is int and v == 1`
abbrev pub is_one : Json → Bool
is_one (int (pos n)) = n == 1
is_one _ = false

unfoldable pub parse_tasks : Json → Checked Refusal (List PlanTask)
parse_tasks (arr xs) = do
  require (leb 1 (length (items xs)) && leb (length (items xs)) max_plan_tasks) task_count
  tasks ← map_checked parse_task (items xs)
  require (no_repeats (map (λ t. t.id) tasks)) duplicate_task_id
  ok tasks
parse_tasks _ = err task_count

-- `parse_plan_manifest`, from the decoded value on.
unfoldable pub parse_value : String → Json → Checked Refusal PlanManifest
parse_value expected (obj fs) = do
  require (same_keys (dict fs) manifest_keys) unknown_keys
  version ← item (dict fs) "schema_version"
  require (is_one version) schema_version
  raw_id ← item (dict fs) "todo_id"
  todo_id ← bounded_string raw_id 64 invalid_todo_id
  require (todo_id == expected) todo_id_mismatch
  raw_tasks ← item (dict fs) "tasks"
  tasks ← parse_tasks raw_tasks
  ok (record { version = 1; todo_id = todo_id; tasks = tasks })
parse_value expected _ = err invalid_manifest
