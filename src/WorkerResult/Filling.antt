-- ===== src/WorkerResult/Filling.antt =====
-- A template and the facts that fill it in.
use todo_pipeline_orch.Prelude.{
  String, true, ◌&&◌, Option, none, some, List, [], ◌∷◌, map, ◌≡◌, refl, arith, ◌==◌, nat_eq,
  string_eq, list_eq, contains, All, all, if◌then◌else◌, ==_refl,
}
use todo_pipeline_orch.Prelude.Dict.{lookup}
use todo_pipeline_orch.Prelude.Int.{pos, int_eq}
use todo_pipeline_orch.Prelude.Checked.{Checked, ok}
use todo_pipeline_orch.Prelude.Json.{
  Json, Fields, int, str, arr, obj, nil, cons, end, field, dict, same_keys,
}
use todo_pipeline_orch.WorkerResult.Text.{Library}
use todo_pipeline_orch.WorkerResult.Types.{ResultCode, GitResult, DeliveryEvidence}
use todo_pipeline_orch.WorkerResult.Values.{is_safe_text, is_safe}
use todo_pipeline_orch.WorkerResult.Sections.{optional_delivery}
use todo_pipeline_orch.WorkerResult.Parse.{Expected, has_top_keys, is_scanned, parse_result}
use todo_pipeline_orch.WorkerResult.Evidence.{IsGit}
use todo_pipeline_orch.WorkerResult.Template.{
  require_keys, template_git, template_command, template_delivery, template_fields,
  template_section, git_fields, delivery_fields, render_result_template,
}
use todo_pipeline_orch.WorkerResult.Written.{
  git_json, delivery_json, git_result-git_json, IsReport, validate_delivery-delivery_json,
  entry_json, template_entries, acceptance-entries,
}

-- Put a value in the place of the one at a key.
abbrev pub set_field : String → Json → Fields → Fields
set_field key value end = end
set_field key value (field k v fs) =
    if k == key then field k value fs else field k v (set_field key value fs)

-- The template with the facts in place of its placeholders.
abbrev pub fill : GitResult → Option DeliveryEvidence → Fields → Fields
fill g none fs = set_field "git" (git_json g) fs
fill g (some d) fs = set_field "delivery" (delivery_json d) (set_field "git" (git_json g) fs)

-- A card whose only run succeeded with this result.
abbrev pub metadata_of : Fields → Json
metadata_of fs = obj (field "tpo_result" (obj fs) end)

abbrev pub card : Fields → Json
card fs = obj (
    field "runs"
      (arr
        (cons (obj (field "status" (str "completed") (field "metadata" (metadata_of fs) end))) nil))
      end)

abbrev pub section_name : Option DeliveryEvidence → Option String
section_name none = none
section_name (some d) = some "delivery"

abbrev pub branch_name : Option DeliveryEvidence → Option String
branch_name none = none
branch_name (some d) = some d.branch

-- The template for what is expected, with a delivery section where there is evidence of a delivery.
abbrev pub template_for : Expected → Option DeliveryEvidence → Checked ResultCode Json
template_for x d =
    render_result_template x.tick_id x.todo_id x.step_key x.acceptance_criteria (section_name d)
      (branch_name d) x.allow_no_changes

abbrev pub words : List String
words =
    "schema_version" ∷ "tick_id" ∷ "todo_id" ∷ "step_key" ∷ "verdict" ∷ "git" ∷ "delivery"
    ∷ "success" ∷ []

abbrev pub AreReports : Library → Option DeliveryEvidence → Type 0
AreReports lib none = Unit
AreReports lib (some d) = IsReport lib d

-- Facts that may be reported, of an execution whose names hold no secret, to a library that takes none of
-- the template's own words for one.
pub record CanReport (lib : Library) (x : Expected) (g : GitResult) (d : Option DeliveryEvidence)
    : Type 0 where
  pub quiet : All (λ w. is_safe_text lib w ≡ true) words
  pub tick_safe : is_safe_text lib x.tick_id ≡ true
  pub todo_safe : is_safe_text lib x.todo_id ≡ true
  pub step_safe : is_safe_text lib x.step_key ≡ true
  pub git_valid : IsGit x.allow_no_changes g
  pub git_safe : is_safe lib (git_json g) ≡ true
  pub delivery_valid : AreReports lib d

abbrev pub last_fields : Option DeliveryEvidence → Fields
last_fields none = end
last_fields (some d) = field "delivery" (delivery_json d) end

-- The filled template.
abbrev pub filled : Expected → GitResult → Option DeliveryEvidence → Fields
filled x g d =
    template_fields x.tick_id x.todo_id x.step_key (git_json g)
      (map entry_json x.acceptance_criteria) (last_fields d)

-- The template as it is rendered.
abbrev pub blank : Expected → Option DeliveryEvidence → Fields
blank x d =
    template_fields x.tick_id x.todo_id x.step_key (obj (git_fields x.allow_no_changes))
      (map entry_json x.acceptance_criteria) (blank_section d)
  where
    blank_section : Option DeliveryEvidence → Fields
    blank_section none = end
    blank_section (some e) =
        field "delivery"
          (obj (
            delivery_fields e.branch (
              obj (
                field "command" (str "<required repository gate the client ran>")
                  (field "exit_code" (int (pos 0)) end)))))
          end

pub template_for-blank :
    (x : Expected) (d : Option DeliveryEvidence) → template_for x d ≡ ok (obj (blank x d))
unfolding render_result_template template_section template_delivery template_command template_git
    require_keys same_keys contains all
template_for-blank x none = rw (template_entries x.acceptance_criteria) refl
template_for-blank x (some d) = rw (template_entries x.acceptance_criteria) refl

pub fill-blank :
    (x : Expected) (g : GitResult) (d : Option DeliveryEvidence)
    → fill g d (blank x d) ≡ filled x g d
fill-blank x g none = refl
fill-blank x g (some d) = refl

filled_scanned :
    (lib : Library) (x : Expected) (g : GitResult) (d : Option DeliveryEvidence)
    → CanReport lib x g d
    → is_scanned lib (dict (filled x g d)) ≡ true
unfolding is_scanned contains is_safe
filled_scanned lib x g none c = let q = c.quiet in ground arith
filled_scanned lib x g (some d) c =
    let q = c.quiet in let r = c.delivery_valid.section_safe in ground arith

same_names :
    (x : Expected)
    → (x.tick_id == x.tick_id && x.todo_id == x.todo_id && x.step_key == x.step_key) ≡ true
same_names x = rw (==_refl x.tick_id) (rw (==_refl x.todo_id) (==_refl x.step_key))

pub parse_result-filled :
    (lib : Library) (x : Expected) (g : GitResult) (d : Option DeliveryEvidence)
    → CanReport lib x g d
    → parse_result lib x (dict (filled x g d))
      ≡ ok (record {
        tick_id = x.tick_id;
        todo_id = x.todo_id;
        step_key = x.step_key;
        git = g;
        delivery = d;
      })
unfolding parse_result has_top_keys contains all lookup optional_delivery
parse_result-filled lib x g none c = rw (filled_scanned lib x g none c) (
    rw (same_names x, parse_result)
      (rw (git_result-git_json x.allow_no_changes g c.git_valid, parse_result)
        (rw (acceptance-entries x.acceptance_criteria) refl)))
parse_result-filled lib x g (some d) c = rw (filled_scanned lib x g (some d) c) (
    rw (same_names x, parse_result)
      (rw (git_result-git_json x.allow_no_changes g c.git_valid, parse_result)
        (rw (acceptance-entries x.acceptance_criteria, parse_result)
          (rw (validate_delivery-delivery_json lib d c.delivery_valid) refl))))
