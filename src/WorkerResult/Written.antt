-- ===== src/WorkerResult/Written.antt =====
-- Sections that are written by the contract are read back.
use todo_pipeline_orch.Prelude.{
  ℕ, ◌≤◌, String, Bool, true, false, not, ◌&&◌, ◌||◌, List, [], ◌∷◌, map, ◌≡◌, ◌≢◌, refl, arith,
  ◌==◌, nat_eq, nat_beq_iff, string_eq, list_eq, text_iff, list_beq_iff, leb, length, contains, All,
  all, ==_refl,
}
use todo_pipeline_orch.Prelude.Text.{size}
use todo_pipeline_orch.Prelude.Dict.{lookup}
use todo_pipeline_orch.Prelude.Int.{pos, int_eq}
use todo_pipeline_orch.Prelude.Checked.{ok, map_checked}
use todo_pipeline_orch.Prelude.Json.{
  length-array, map_checked-map, Json, int, str, arr, obj, end, field, items, array, same_keys,
}
use todo_pipeline_orch.Plan.Manifest.{no_repeats}
use todo_pipeline_orch.WorkerResult.Text.{Library, is_placeholder, is_hashable}
use todo_pipeline_orch.WorkerResult.Types.{
  ResultCode, invalid_delivery, invalid_command, CommandResult, GitResult, DeliveryEvidence,
}
use todo_pipeline_orch.WorkerResult.Values.{is_safe_text, is_safe, bounded_string, command}
use todo_pipeline_orch.WorkerResult.Sections.{
  changed_file, is_nil, changed_files, git_result, criterion, acceptance, checks, validate_delivery,
}
use todo_pipeline_orch.WorkerResult.Evidence.{IsSafePath, IsGit, IsPassed, IsDelivery}
use todo_pipeline_orch.WorkerResult.Template.{require_keys, template_entry}

-- The sections as a worker fills them in.
abbrev pub git_json : GitResult → Json
git_json g = obj (
    field "expected_parent_sha" (str g.expected_parent_sha) (
      field "resulting_head_sha" (str g.resulting_head_sha) (
        field "task_commit_sha" (str g.task_commit_sha)
          (field "changed_files" (arr (array (map str g.changed_files))) end))))

abbrev pub command_json : CommandResult → Json
command_json c = obj (field "command" (str c.command) (field "exit_code" (int c.exit_code) end))

abbrev pub delivery_json : DeliveryEvidence → Json
delivery_json d = obj (
    field "pr_url" (str d.pr_url) (
      field "branch" (str d.branch) (
        field "head_sha" (str d.head_sha)
          (field "checks" (arr (array (map command_json d.checks))) end))))

changed_file-str : (name : String) → IsSafePath name → changed_file (str name) ≡ ok name
unfolding changed_file
changed_file-str name (some_text, small, relative, inside, slashes, filled) =
    ground (arith, text_iff name "", some_text, small, relative, inside, slashes, filled)

all_hashable : (names : List String) → all is_hashable (items (array (map str names))) ≡ true
unfolding all
all_hashable [] = refl
all_hashable (x ∷ xs) = all_hashable xs

not_nil :
    (allow : Bool) (names : List String)
    → (allow ≡ false → 1 ≤ length names)
    → (not (is_nil (array (map str names))) || allow) ≡ true
not_nil true [] h = refl
not_nil false [] h = absurd (omega (arith, h refl))
not_nil allow (x ∷ names) h = refl

changed_files-strs :
    (allow : Bool) (names : List String)
    → All IsSafePath names
    → no_repeats names ≡ true
    → (allow ≡ false → 1 ≤ length names)
    → changed_files allow (arr (array (map str names))) ≡ ok names
unfolding changed_files
changed_files-strs allow names safe distinct some_file = rw (not_nil allow names some_file) (
    rw (all_hashable names) (
      rw (map_checked-map str changed_file IsSafePath changed_file-str names safe)
        (rw distinct refl)))

pub git_result-git_json :
    (allow : Bool) (g : GitResult) → IsGit allow g → git_result allow (git_json g) ≡ ok g
unfolding git_result same_keys contains all lookup
git_result-git_json allow g v =
    rw (v.parent_sha, git_result)
      (rw (v.head_sha, git_result)
        (rw (← v.one_commit, git_result)
          (rw (v.head_sha, git_result)
            (rw (==_refl g.resulting_head_sha, git_result)
              (rw
                (changed_files-strs allow g.changed_files v.files_safe v.files_distinct v.some_file)
                refl)))))

-- A text that a worker may report in a field of bounded length.
abbrev pub IsReportable : Library → ℕ → String → Type 0
IsReportable lib n s =
    (s ≢ "") × (size s ≤ n) × (is_safe_text lib s ≡ true) × (is_placeholder s ≡ false)

bounded_string-str :
    (lib : Library) (s : String) (n : ℕ) (code : ResultCode)
    → IsReportable lib n s
    → bounded_string lib (str s) n code ≡ ok s
unfolding bounded_string
bounded_string-str lib s n code (some_text, small, safe, filled) =
    rw safe (rw filled (ground (arith, text_iff s "", some_text, small)))

abbrev pub IsCommand : Library → CommandResult → Type 0
IsCommand lib c = IsReportable lib 500 c.command × IsPassed c

command-command_json :
    (lib : Library) (c : CommandResult) → IsCommand lib c → command lib (command_json c) ≡ ok c
unfolding command same_keys contains all lookup
command-command_json lib c (reportable, passed) =
    rw (bounded_string-str lib c.command 500 invalid_command reportable) refl

few_items :
    (cs : List CommandResult)
    → 1 ≤ length cs
    → length cs ≤ 50
    → (not (is_nil (array (map command_json cs)))
        && leb (length (items (array (map command_json cs)))) 50)
      ≡ true
few_items [] low high = absurd (omega arith)
few_items (c ∷ cs) low high = rw (length-array command_json (c ∷ cs)) (ground arith)

all_zero : (cs : List CommandResult) → All IsPassed cs → all (λ c. c.exit_code == pos 0) cs ≡ true
unfolding all
all_zero [] held = refl
all_zero (c ∷ cs) (first, later) = rw first (all_zero cs later)

-- Evidence of a delivery that may be reported.
pub record IsReport (lib : Library) (d : DeliveryEvidence) : Type 0 where
  pub valid : IsDelivery lib d
  pub url_reportable : IsReportable lib 1000 d.pr_url
  pub branch_reportable : IsReportable lib 256 d.branch
  pub commands : All (IsCommand lib) d.checks
  pub section_safe : is_safe lib (delivery_json d) ≡ true

checks-commands :
    (lib : Library) (d : DeliveryEvidence)
    → IsReport lib d
    → checks lib (arr (array (map command_json d.checks))) ≡ ok d.checks
unfolding checks
checks-commands lib d r = rw (few_items d.checks r.valid.some_check r.valid.few_checks) (
    rw
      (map_checked-map command_json (command lib) (IsCommand lib) (command-command_json lib)
        d.checks r.commands)
      (rw (all_zero d.checks r.valid.all_passed) refl))

pub validate_delivery-delivery_json :
    (lib : Library) (d : DeliveryEvidence)
    → IsReport lib d
    → validate_delivery lib (delivery_json d) ≡ ok d
unfolding validate_delivery same_keys contains all lookup
validate_delivery-delivery_json lib d r =
    rw (bounded_string-str lib d.pr_url 1000 invalid_delivery r.url_reportable, validate_delivery)
      (rw (r.valid.url, validate_delivery)
        (rw
          (
            bounded_string-str lib d.branch 256 invalid_delivery r.branch_reportable,
            validate_delivery,
          )
          (rw (r.valid.head_sha, validate_delivery) (rw (checks-commands lib d r) refl))))

abbrev pub entry_json : String → Json
entry_json c = obj (field "criterion" (str c) (field "status" (str "passed") end))

pub template_entries : (cs : List String) → map_checked template_entry cs ≡ ok (map entry_json cs)
unfolding map_checked template_entry require_keys same_keys contains all
template_entries [] = refl
template_entries (c ∷ cs) = rw (template_entries cs) refl

criteria_read :
    (cs : List String) → map_checked criterion (items (array (map entry_json cs))) ≡ ok cs
unfolding map_checked criterion same_keys contains all lookup
criteria_read [] = refl
criteria_read (c ∷ cs) = rw (criteria_read cs) refl

pub acceptance-entries :
    (cs : List String) → acceptance cs (arr (array (map entry_json cs))) ≡ ok tt
unfolding acceptance
acceptance-entries cs = rw (length-array entry_json cs) (
    rw ((nat_beq_iff (length cs) (length cs)).1 refl)
      (rw (criteria_read cs) (rw ((list_beq_iff cs cs).1 refl) refl)))
