-- ===== src/WorkerResult/Tests.antt =====
-- Results of workers, and the theorems at them.
use todo_pipeline_orch.Prelude.{
  String, false, none, some, [], ◌∷◌, ◌≡◌, ◌≢◌, refl, arith, any, all, contains, string_eq,
  text_iff,
}
use todo_pipeline_orch.Prelude.Text.{is_space, every, lstrip, rstrip, strip, after}
use todo_pipeline_orch.Prelude.Dict.{Dict, lookup}
use todo_pipeline_orch.Prelude.Int.{pos}
use todo_pipeline_orch.Prelude.Checked.{ok, err, map_checked}
use todo_pipeline_orch.Prelude.Json.{Json, arr, obj, nil, cons, str, dict, same_keys}
use todo_pipeline_orch.Plan.Manifest.{is_control, no_repeats}
use todo_pipeline_orch.Execution.Text.{is_digit}
use todo_pipeline_orch.WorkerResult.Text.{
  Library, is_sha, closes_bracket, is_placeholder, is_absolute, has_parent, has_backslash,
  after_some, is_pull_url,
}
use todo_pipeline_orch.WorkerResult.Types.{
  invalid_git, type_error, CommandResult, GitResult, DeliveryEvidence, WorkerResult,
}
use todo_pipeline_orch.WorkerResult.Values.{is_safe_text, is_safe, bounded_string, command}
use todo_pipeline_orch.WorkerResult.Runs.{
  is_successful, successful, final_run, within_bytes, section,
}
use todo_pipeline_orch.WorkerResult.Sections.{
  changed_file, changed_files, git_result, criterion, acceptance, checks, validate_delivery,
  optional_delivery,
}
use todo_pipeline_orch.WorkerResult.Parse.{
  Expected, has_top_keys, is_scanned, parse_result, published, parse_worker_result,
}
use todo_pipeline_orch.WorkerResult.Template.{
  require_keys, template_git, template_command, template_delivery, template_entry, template_section,
  render_result_template,
}
use todo_pipeline_orch.WorkerResult.Evidence.{IsGit, IsDelivery}
use todo_pipeline_orch.WorkerResult.Final.{IsPublished}
use todo_pipeline_orch.WorkerResult.Sound.{IsAccepted, parse_worker_result-IsAccepted}
use todo_pipeline_orch.WorkerResult.Written.{IsReport}
use todo_pipeline_orch.WorkerResult.Filling.{
  fill, metadata_of, card, template_for, blank, CanReport,
}
use todo_pipeline_orch.WorkerResult.Filled.{
  Encodes, parse_worker_result-fill, parse_worker_result-blank,
}

program : Unit {0}
unfolding any all contains is_space every lstrip rstrip strip after lookup map_checked same_keys
    is_control no_repeats is_sha closes_bracket is_placeholder is_absolute has_parent has_backslash
    after_some is_pull_url is_safe_text is_safe bounded_string command is_successful successful
    final_run within_bytes section changed_file changed_files git_result criterion acceptance checks
    validate_delivery optional_delivery has_top_keys is_scanned parse_result published
    parse_worker_result require_keys template_git template_command template_delivery template_entry
    template_section render_result_template
program = tt

-- No text is a secret, and every value is short.
abbrev library : Library
library = record { is_secret = λ _. false; is_decimal = is_digit; encoded_size = λ _. some 600 }

abbrev expected : Expected
expected = record {
  tick_id = "tick-1";
  todo_id = "TODO-7";
  step_key = "finish";
  acceptance_criteria = "It is there." ∷ [];
  allow_no_changes = false;
}

abbrev git : GitResult
git = record {
  expected_parent_sha = "aaaaaaaaaaaaaaaaaaaaaaaaaaaaaaaaaaaaaaaa";
  resulting_head_sha = "bbbbbbbbbbbbbbbbbbbbbbbbbbbbbbbbbbbbbbbb";
  task_commit_sha = "bbbbbbbbbbbbbbbbbbbbbbbbbbbbbbbbbbbbbbbb";
  changed_files = "docs/a.md" ∷ "src/b.py" ∷ [];
}

abbrev gate : CommandResult
gate = record { command = "pytest"; exit_code = pos 0 }

abbrev delivery : DeliveryEvidence
delivery = record {
  pr_url = "https://github.com/o/r/pull/12";
  branch = "todo/7";
  head_sha = "bbbbbbbbbbbbbbbbbbbbbbbbbbbbbbbbbbbbbbbb";
  checks = gate ∷ [];
}

abbrev result : WorkerResult
result = record {
  tick_id = "tick-1";
  todo_id = "TODO-7";
  step_key = "finish";
  git = git;
  delivery = some delivery;
}

abbrev payload : Json
payload = card (fill git (some delivery) (blank expected (some delivery)))

accepts : parse_worker_result library expected payload ≡ ok result
unfolding program
accepts = refl

-- A list among the changed files is not refused with a code: `set(files)` raises.
list_of_files : changed_files false (arr (cons (arr nil) nil)) ≡ err type_error
unfolding program
list_of_files = refl

parent_path : changed_files false (arr (cons (str "docs/../x") nil)) ≡ err invalid_git
unfolding program
parent_path = refl

blank_refused : parse_worker_result library expected (card (blank expected none)) ≡ err invalid_git
unfolding program
blank_refused = refl

parse_worker_result-IsAccepted_example :
    (raw : Dict String Json) × IsPublished payload raw × IsAccepted library expected raw result
parse_worker_result-IsAccepted_example =
    parse_worker_result-IsAccepted library expected payload accepts

git-IsGit : IsGit false git
unfolding program
git-IsGit = record {
  parent_sha = refl;
  head_sha = refl;
  one_commit = refl;
  files_safe = (
    ((λ e. ground (arith, e, text_iff "docs/a.md" "")), omega arith, refl, refl, refl, refl),
    (((λ e. ground (arith, e, text_iff "src/b.py" "")), omega arith, refl, refl, refl, refl), tt),
  );
  files_distinct = refl;
  some_file = λ _. omega arith;
}

delivery-IsDelivery : IsDelivery library delivery
unfolding program
delivery-IsDelivery = record {
  url = refl;
  head_sha = refl;
  all_passed = (refl, tt);
  some_check = omega arith;
  few_checks = omega arith;
}

delivery-IsReport : IsReport library delivery
unfolding program
delivery-IsReport = record {
  valid = delivery-IsDelivery;
  url_reportable = (
    (λ e. ground (arith, e, text_iff "https://github.com/o/r/pull/12" "")),
    omega arith,
    refl,
    refl,
  );
  branch_reportable = ((λ e. ground (arith, e, text_iff "todo/7" "")), omega arith, refl, refl);
  commands =
      ((((λ e. ground (arith, e, text_iff "pytest" "")), omega arith, refl, refl), refl), tt);
  section_safe = refl;
}

expected-CanReport : CanReport library expected git (some delivery)
unfolding program
expected-CanReport = record {
  quiet = (refl, (refl, (refl, (refl, (refl, (refl, (refl, (refl, tt))))))));
  tick_safe = refl;
  todo_safe = refl;
  step_safe = refl;
  git_valid = git-IsGit;
  git_safe = refl;
  delivery_valid = delivery-IsReport;
}

short : (v : Json) → Encodes library v
short v = (600, refl, omega arith)

parse_worker_result-fill_example :
    (template_for expected (some delivery) ≡ ok (obj (blank expected (some delivery))))
    × (parse_worker_result library expected payload ≡ ok result)
parse_worker_result-fill_example =
    parse_worker_result-fill library expected git (some delivery) expected-CanReport
      (short (metadata_of (fill git (some delivery) (blank expected (some delivery)))))
      (short (obj (fill git (some delivery) (blank expected (some delivery)))))

blank_template : template_for expected none ≡ ok (obj (blank expected none))
unfolding program
blank_template = refl

published-blank : published library (card (blank expected none)) ≡ ok (dict (blank expected none))
unfolding program
published-blank = refl

parse_worker_result-blank_example :
    parse_worker_result library expected (card (blank expected none)) ≢ ok result
parse_worker_result-blank_example =
    parse_worker_result-blank library expected expected none (card (blank expected none))
      blank_template published-blank
