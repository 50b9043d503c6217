-- ===== src/Plan/Tests.antt =====
-- Documents with a manifest, and the theorems at them.
use todo_pipeline_orch.Prelude.{
  String, false, some, List, [], ◌∷◌, ◌++◌, ◌≡◌, refl, arith, any, all, All, filter, contains,
  string_eq,
}
use todo_pipeline_orch.Prelude.Text.{is_space, every, lstrip, rstrip, strip, after}
use todo_pipeline_orch.Prelude.Dict.{lookup}
use todo_pipeline_orch.Prelude.Int.{pos}
use todo_pipeline_orch.Prelude.Checked.{ok, err, map_checked, Ensures-eq-ok}
use todo_pipeline_orch.Prelude.Json.{Json, obj, end, field, int, same_keys}
use todo_pipeline_orch.Plan.Manifest.{
  is_control, bounded_string, bounded_string_list, is_task_id, PlanTask, PlanManifest, task_fields,
  parse_task, no_repeats, parse_tasks, parse_value, duplicate_manifest, unknown_keys,
}
use todo_pipeline_orch.Plan.Fence.{
  skip_blanks, skip_spaces, ends_with_return, is_pseudo_start, is_start, opens, closes, body_of,
  first_block,
}
use todo_pipeline_orch.Plan.Document.{Codec, json_value, parse_block, parse_plan_manifest}
use todo_pipeline_orch.Plan.Valid.{IsManifest}
use todo_pipeline_orch.Plan.Sound.{Parsed, parse_value-IsManifest, parse_plan_manifest-IsSound}
use todo_pipeline_orch.Plan.Written.{manifest_json}
use todo_pipeline_orch.Plan.Complete.{Reads, IsOther, written, parse_plan_manifest-written}

program : Unit {0}
unfolding any all filter contains is_space every lstrip rstrip strip lookup map_checked same_keys
    is_control bounded_string bounded_string_list is_task_id task_fields parse_task no_repeats
    parse_tasks parse_value skip_blanks skip_spaces after ends_with_return is_pseudo_start is_start
    opens closes body_of first_block json_value parse_block parse_plan_manifest
program = tt

abbrev task : PlanTask
task = record {
  id = "add-flag";
  title = "Add the flag";
  instructions = "Add it.";
  acceptance_criteria = "It is there." ∷ [];
  verification = "pytest" ∷ [];
  commit_message = "feat: add the flag";
}

abbrev manifest : PlanManifest
manifest = record { version = 1; todo_id = "TODO-7"; tasks = task ∷ [] }

-- A library that reads every block as this value.
abbrev reading : Json → Codec
reading v = record { utf8_length = λ _. 600; objects = λ _. []; loads = λ _. some v }

abbrev body : List String
body = "{}" ∷ []

abbrev document : List String
document = written ("# Plan" ∷ []) body ("Done." ∷ [])

reads_manifest :
    parse_plan_manifest (reading (manifest_json manifest)) "TODO-7" document ≡ ok (some manifest)
unfolding program
reads_manifest = refl

two_blocks :
    parse_plan_manifest (reading (manifest_json manifest)) "TODO-7" (document ++ document)
    ≡ err duplicate_manifest
unfolding program
two_blocks = refl

-- With carriage returns no line counts as a marker, so the second block is not noticed.
abbrev returned : List String
returned = "```json tpo-plan\r" ∷ "{}" ∷ "```" ∷ []

two_blocks_returned :
    parse_plan_manifest (reading (manifest_json manifest)) "TODO-7" (returned ++ returned)
    ≡ ok (some manifest)
unfolding program
two_blocks_returned = refl

extra_key :
    parse_plan_manifest (reading (obj (field "schema_version" (int (pos 1)) end))) "TODO-7" document
    ≡ err unknown_keys
unfolding program
extra_key = refl

parse_plan_manifest-IsSound_example : Parsed "TODO-7" document (some manifest)
parse_plan_manifest-IsSound_example =
    parse_plan_manifest-IsSound (reading (manifest_json manifest)) "TODO-7" document reads_manifest

parse_value_manifest : parse_value "TODO-7" (manifest_json manifest) ≡ ok manifest
unfolding program
parse_value_manifest = refl

manifest-IsManifest : IsManifest "TODO-7" manifest
manifest-IsManifest =
    Ensures-eq-ok (IsManifest "TODO-7") (parse_value "TODO-7" (manifest_json manifest))
      (parse_value-IsManifest "TODO-7" (manifest_json manifest)) parse_value_manifest

reading-Reads : Reads (reading (manifest_json manifest)) body (manifest_json manifest)
unfolding program
reading-Reads = record { small = omega arith; no_duplicates = refl; loaded = refl }

others : All IsOther ("# Plan" ∷ [])
unfolding program
others = ((refl, refl), tt)

body_lines : All (λ l. (is_pseudo_start l ≡ false) × (closes l ≡ false)) body
unfolding program
body_lines = ((refl, refl), tt)

last_lines : All (λ l. is_pseudo_start l ≡ false) ("Done." ∷ [])
unfolding program
last_lines = (refl, tt)

parse_plan_manifest-written_example :
    parse_plan_manifest (reading (manifest_json manifest)) "TODO-7" document ≡ ok (some manifest)
parse_plan_manifest-written_example =
    parse_plan_manifest-written ("# Plan" ∷ []) body ("Done." ∷ [])
      (reading (manifest_json manifest)) "TODO-7" manifest manifest-IsManifest reading-Reads others
      body_lines last_lines
