-- ===== src/Plan/Valid.antt =====
-- What the texts and the tasks of a parsed manifest are.
use todo_pipeline_orch.Prelude.{
  ℕ, ◌≤◌, String, true, not, ◌&&◌, ◌||◌, List, map, ◌≡◌, ◌≢◌, arith, ◌==◌, nat_eq, string_eq,
  text_iff, list_eq, ltb, leb, length, All, if_ind,
}
use todo_pipeline_orch.Prelude.Text.{size, strip, every, size-strip, every-strip, strip_idem}
use todo_pipeline_orch.Prelude.Dict.{Dict, lookup}
use todo_pipeline_orch.Prelude.Checked.{
  Anything, map_checked, Ensures, Ensures-require, Ensures-imp, Ensures-bind, Ensures-present,
  Ensures-map,
}
use todo_pipeline_orch.Prelude.Json.{
  Json, null, bool, int, float, str, arr, obj, items, dict, same_keys,
}
use todo_pipeline_orch.Plan.Manifest.{
  Refusal, is_plain, bounded_string, bounded_string_list, PlanTask, PlanManifest, task_fields,
  parse_task, is_task_id, no_repeats, invalid_task, unsafe_task_id, duplicate_task_id, key_error,
  item, text, texts, max_list_items, max_plan_tasks, parse_tasks, unknown_keys, task_count,
  task_keys,
}

-- A text as the manifest keeps it: not blank, trimmed, of bounded length and without control characters.
abbrev pub IsBounded : ℕ → String → Type 0
IsBounded n s = (strip s ≡ s) × (s ≢ "") × (size s ≤ n) × (every is_plain s ≡ true)

abbrev pub IsBoundedList : ℕ → List String → Type 0
IsBoundedList n l = All (IsBounded n) l × (1 ≤ length l) × (length l ≤ 50)

pub record IsTask (t : PlanTask) : Type 0 where
  pub id_bounded : IsBounded 64 t.id
  pub id_safe : is_task_id t.id ≡ true
  pub title_bounded : IsBounded 256 t.title
  pub instructions_bounded : IsBounded 10000 t.instructions
  pub criteria_bounded : IsBoundedList 2000 t.acceptance_criteria
  pub verification_bounded : IsBoundedList 500 t.verification
  pub message_bounded : IsBounded 256 t.commit_message

pub record IsManifest (todo : String) (m : PlanManifest) : Type 0 where
  pub at_version : m.version ≡ 1
  pub of_todo : m.todo_id ≡ todo
  pub todo_bounded : IsBounded 64 m.todo_id
  pub tasks_valid : All IsTask m.tasks
  pub some_task : 1 ≤ length m.tasks
  pub few_tasks : length m.tasks ≤ 50
  pub ids_distinct : no_repeats (map (λ t. t.id) m.tasks) ≡ true

pub bounded_string-IsBounded :
    (v : Json) (n : ℕ) (code : Refusal) → Ensures (IsBounded n) (bounded_string v n code)
unfolding bounded_string
bounded_string-IsBounded (str s) n code =
    if_ind (Ensures (IsBounded n)) (strip s == "" || ltb n (size s) || not (every is_plain s))
      (λ _. tt)
      (λ e. (
        strip_idem s,
        ground (arith, e, text_iff (strip s) ""),
        (let small : size s ≤ n = ground (arith, e) in omega (arith, size-strip s)),
        every-strip is_plain s (ground (arith, e)),
      ))
bounded_string-IsBounded null n code = tt
bounded_string-IsBounded (bool b) n code = tt
bounded_string-IsBounded (int z) n code = tt
bounded_string-IsBounded (float z t) n code = tt
bounded_string-IsBounded (arr xs) n code = tt
bounded_string-IsBounded (obj fs) n code = tt

bounded_string_list-IsBoundedList :
    (v : Json) (n : ℕ) (code : Refusal) → Ensures (IsBoundedList n) (bounded_string_list v n code)
unfolding bounded_string_list
bounded_string_list-IsBoundedList (arr xs) n code =
    Ensures-require (IsBoundedList n)
      (leb 1 (length (items xs)) && leb (length (items xs)) max_list_items) code _
      λ e.
        Ensures-imp _ (IsBoundedList n) (map_checked _ (items xs))
          (Ensures-map (IsBounded n) _ (λ x. bounded_string-IsBounded x n code) (items xs))
          λ l held. (held.0, ground (arith, e), ground (arith, e))
bounded_string_list-IsBoundedList null n code = tt
bounded_string_list-IsBoundedList (bool b) n code = tt
bounded_string_list-IsBoundedList (int z) n code = tt
bounded_string_list-IsBoundedList (float z t) n code = tt
bounded_string_list-IsBoundedList (str s) n code = tt
bounded_string_list-IsBoundedList (obj fs) n code = tt

pub item-Anything : (d : Dict String Json) (key : String) → Ensures Anything (item d key)
item-Anything d key = Ensures-present _ (lookup key d) key_error λ _ _. tt

module _ (d : Dict String Json) (key : String) (n : ℕ) where
  text-IsBounded : Ensures (IsBounded n) (text d key n)
  text-IsBounded =
      Ensures-bind Anything _ (item d key) _ (item-Anything d key)
        λ v _. bounded_string-IsBounded v n invalid_task

  texts-IsBoundedList : Ensures (IsBoundedList n) (texts d key n)
  texts-IsBoundedList =
      Ensures-bind Anything _ (item d key) _ (item-Anything d key)
        λ v _. bounded_string_list-IsBoundedList v n invalid_task

task_fields-IsTask : (d : Dict String Json) → Ensures IsTask (task_fields d)
unfolding task_fields
task_fields-IsTask d = Ensures-bind _ _ (text d "id" 64) _ (text-IsBounded d "id" 64) λ id a.
    Ensures-require _ (is_task_id id) unsafe_task_id _ λ safe.
      Ensures-bind _ _ (text d "title" 256) _ (text-IsBounded d "title" 256) λ title b.
        Ensures-bind _ _ (text d "instructions" 10000) _ (text-IsBounded d "instructions" 10000)
          λ ins c.
            Ensures-bind _ _ (texts d "acceptance_criteria" 2000) _
              (texts-IsBoundedList d "acceptance_criteria" 2000)
              λ crit e.
                Ensures-bind _ _ (texts d "verification" 500) _
                  (texts-IsBoundedList d "verification" 500)
                  λ ver f.
                    Ensures-bind _ _ (text d "commit_message" 256) _
                      (text-IsBounded d "commit_message" 256)
                      λ msg g. record {
                        id_bounded = a;
                        id_safe = safe;
                        title_bounded = b;
                        instructions_bounded = c;
                        criteria_bounded = e;
                        verification_bounded = f;
                        message_bounded = g;
                      }

parse_task-IsTask : (v : Json) → Ensures IsTask (parse_task v)
unfolding parse_task
parse_task-IsTask (obj fs) =
    Ensures-require _ (same_keys (dict fs) task_keys) unknown_keys _
      λ _. task_fields-IsTask (dict fs)
parse_task-IsTask null = tt
parse_task-IsTask (bool b) = tt
parse_task-IsTask (int z) = tt
parse_task-IsTask (float z t) = tt
parse_task-IsTask (str s) = tt
parse_task-IsTask (arr xs) = tt

abbrev pub AreTasks : List PlanTask → Type 0
AreTasks ts =
    All IsTask ts × (1 ≤ length ts) × (length ts ≤ 50) × (no_repeats (map (λ t. t.id) ts) ≡ true)

pub parse_tasks-AreTasks : (v : Json) → Ensures AreTasks (parse_tasks v)
unfolding parse_tasks
parse_tasks-AreTasks (arr xs) =
    Ensures-require _ (leb 1 (length (items xs)) && leb (length (items xs)) max_plan_tasks)
      task_count _
      λ e.
        Ensures-bind _ _ (map_checked parse_task (items xs)) _
          (Ensures-map IsTask parse_task parse_task-IsTask (items xs))
          λ ts held.
            Ensures-require _ (no_repeats (map (λ t. t.id) ts)) duplicate_task_id _
              λ distinct. (held.0, ground (arith, e), ground (arith, e), distinct)
parse_tasks-AreTasks null = tt
parse_tasks-AreTasks (bool b) = tt
parse_tasks-AreTasks (int z) = tt
parse_tasks-AreTasks (float z t) = tt
parse_tasks-AreTasks (str s) = tt
parse_tasks-AreTasks (obj fs) = tt
