-- ===== src/Plan/Written.antt =====
-- A well-formed manifest is accepted as it is written.
use todo_pipeline_orch.Prelude.{
  ℕ, ◌≤◌, String, true, ◌&&◌, List, map, ◌≡◌, refl, arith, nat_eq, string_eq, text_iff, leb, length,
  contains, All, all, subst, sym, ==_refl,
}
use todo_pipeline_orch.Prelude.Dict.{lookup}
use todo_pipeline_orch.Prelude.Int.{pos}
use todo_pipeline_orch.Prelude.Checked.{ok}
use todo_pipeline_orch.Prelude.Json.{
  length-array, map_checked-map, Json, end, field, int, str, arr, obj, array, same_keys,
}
use todo_pipeline_orch.Plan.Manifest.{
  Refusal, bounded_string, bounded_string_list, PlanTask, PlanManifest, task_fields, parse_task,
  no_repeats, invalid_task, invalid_todo_id, parse_tasks, parse_value,
}
use todo_pipeline_orch.Plan.Valid.{IsBounded, IsBoundedList, IsTask, IsManifest}

-- A manifest as the JSON that an author writes.
abbrev pub texts_json : List String → Json
texts_json l = arr (array (map str l))

abbrev pub task_json : PlanTask → Json
task_json t = obj (
    field "id" (str t.id) (
      field "title" (str t.title) (
        field "instructions" (str t.instructions) (
          field "acceptance_criteria" (texts_json t.acceptance_criteria) (
            field "verification" (texts_json t.verification)
              (field "commit_message" (str t.commit_message) end))))))

abbrev pub manifest_json : PlanManifest → Json
manifest_json m = obj (
    field "schema_version" (int (pos m.version))
      (field "todo_id" (str m.todo_id) (field "tasks" (arr (array (map task_json m.tasks))) end)))

bounded_string-str :
    (s : String) (n : ℕ) (code : Refusal) → IsBounded n s → bounded_string (str s) n code ≡ ok s
unfolding bounded_string
bounded_string-str s n code (trimmed, some_text, small, plain) =
    rw trimmed (rw plain (ground (arith, text_iff s "")))

within : (n : ℕ) → 1 ≤ n → n ≤ 50 → (leb 1 n && leb n 50) ≡ true
within n low high = ground arith

bounded_string_list-texts :
    (l : List String) (n : ℕ) (code : Refusal)
    → IsBoundedList n l
    → bounded_string_list (texts_json l) n code ≡ ok l
unfolding bounded_string_list
bounded_string_list-texts l n code (each, low, high) = rw (length-array str l) (
    rw (within (length l) low high) (
      map_checked-map str (λ x. bounded_string x n code) (IsBounded n)
        (λ s b. bounded_string-str s n code b) l each))

parse_task-task_json : (t : PlanTask) → IsTask t → parse_task (task_json t) ≡ ok t
unfolding parse_task task_fields same_keys contains all lookup
parse_task-task_json t v =
    rw (bounded_string-str t.id 64 invalid_task v.id_bounded, task_fields)
      (rw (v.id_safe, task_fields)
        (rw (bounded_string-str t.title 256 invalid_task v.title_bounded, task_fields)
          (rw
            (
              bounded_string-str t.instructions 10000 invalid_task v.instructions_bounded,
              task_fields,
            )
            (rw
              (
                bounded_string_list-texts t.acceptance_criteria 2000 invalid_task
                    v.criteria_bounded,
                task_fields,
              )
              (rw
                (
                  bounded_string_list-texts t.verification 500 invalid_task v.verification_bounded,
                  task_fields,
                )
                (rw (bounded_string-str t.commit_message 256 invalid_task v.message_bounded)
                  refl))))))

parse_tasks-tasks :
    (ts : List PlanTask)
    → All IsTask ts
    → 1 ≤ length ts
    → length ts ≤ 50
    → no_repeats (map (λ t. t.id) ts) ≡ true
    → parse_tasks (arr (array (map task_json ts))) ≡ ok ts
unfolding parse_tasks
parse_tasks-tasks ts each low high distinct = rw (length-array task_json ts) (
    rw (within (length ts) low high) (
      rw (map_checked-map task_json parse_task IsTask parse_task-task_json ts each)
        (rw distinct refl)))

-- The manifest of version 1 with these tasks.
abbrev of : String → List PlanTask → PlanManifest
of todo ts = record { version = 1; todo_id = todo; tasks = ts }

parse_value-of :
    (todo : String) (ts : List PlanTask)
    → IsBounded 64 todo
    → parse_tasks (arr (array (map task_json ts))) ≡ ok ts
    → parse_value todo (manifest_json (of todo ts)) ≡ ok (of todo ts)
unfolding parse_value same_keys contains all lookup
parse_value-of todo ts bounded read =
    rw (bounded_string-str todo 64 invalid_todo_id bounded, parse_value)
      (rw (==_refl todo, parse_value) (rw read refl))

pub parse_value-manifest_json :
    (todo : String) (m : PlanManifest)
    → IsManifest todo m
    → parse_value todo (manifest_json m) ≡ ok m
parse_value-manifest_json todo m v =
    subst (λ (k : PlanManifest). parse_value todo (manifest_json k) ≡ ok k)
      (λ i. record { version = sym v.at_version i; todo_id = sym v.of_todo i; tasks = m.tasks })
      (parse_value-of todo m.tasks (subst (IsBounded 64) v.of_todo v.todo_bounded)
        (parse_tasks-tasks m.tasks v.tasks_valid v.some_task v.few_tasks v.ids_distinct))
