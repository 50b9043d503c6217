-- ===== src/Plan/Sound.antt =====
-- What a parsed manifest is.
use todo_pipeline_orch.Prelude.{
  String, true, ◌||◌, Option, none, some, List, [], ◌∷◌, ◌≡◌, refl, arith, ◌==◌, nat_eq, string_eq,
  text_iff, list_eq, leb, length, filter, any, inl, inr, Option-cases, if_ind,
}
use todo_pipeline_orch.Prelude.Checked.{
  Anything, ok, Ensures, Ensures-require, Ensures-eq-ok, Ensures-bind, Ensures-present,
}
use todo_pipeline_orch.Prelude.Json.{Json, null, bool, int, float, str, arr, obj, dict, same_keys}
use todo_pipeline_orch.Plan.Manifest.{
  bounded_string, PlanManifest, item, parse_tasks, parse_value, unknown_keys, schema_version,
  invalid_todo_id, todo_id_mismatch, manifest_keys, is_one, duplicate_manifest, malformed_fence,
  manifest_too_large, duplicate_json_key, invalid_json,
}
use todo_pipeline_orch.Plan.Fence.{is_pseudo_start, is_start, first_block}
use todo_pipeline_orch.Plan.Document.{
  Codec, max_manifest_bytes, json_value, parse_block, parse_plan_manifest,
}
use todo_pipeline_orch.Plan.Valid.{
  IsManifest, item-Anything, bounded_string-IsBounded, parse_tasks-AreTasks,
}

pub parse_value-IsManifest :
    (todo : String) (v : Json) → Ensures (IsManifest todo) (parse_value todo v)
unfolding parse_value
parse_value-IsManifest todo (obj fs) =
    Ensures-require _ (same_keys (dict fs) manifest_keys) unknown_keys _ λ _.
      Ensures-bind Anything _ (item (dict fs) "schema_version") _
        (item-Anything (dict fs) "schema_version")
        λ ver _. Ensures-require _ (is_one ver) schema_version _ λ _.
          Ensures-bind Anything _ (item (dict fs) "todo_id") _ (item-Anything (dict fs) "todo_id")
            λ raw _.
              Ensures-bind _ _ (bounded_string raw 64 invalid_todo_id) _
                (bounded_string-IsBounded raw 64 invalid_todo_id)
                λ id bounded. Ensures-require _ (id == todo) todo_id_mismatch _ λ same.
                  Ensures-bind Anything _ (item (dict fs) "tasks") _
                    (item-Anything (dict fs) "tasks")
                    λ raw_tasks _.
                      Ensures-bind _ _ (parse_tasks raw_tasks) _ (parse_tasks-AreTasks raw_tasks)
                        λ ts (valid, some_task, few, distinct). record {
                          at_version = refl;
                          of_todo = (text_iff id todo).0 same;
                          todo_bounded = bounded;
                          tasks_valid = valid;
                          some_task = some_task;
                          few_tasks = few;
                          ids_distinct = distinct;
                        }
parse_value-IsManifest todo null = tt
parse_value-IsManifest todo (bool b) = tt
parse_value-IsManifest todo (int z) = tt
parse_value-IsManifest todo (float z t) = tt
parse_value-IsManifest todo (str s) = tt
parse_value-IsManifest todo (arr xs) = tt

-- What `parse_plan_manifest` returns of a document: its manifest, or nothing where no line looks like
-- the start of one.
abbrev pub Parsed : String → List String → Option PlanManifest → Type 0
Parsed todo lines (some m) = IsManifest todo m
Parsed todo lines none = (filter is_pseudo_start lines ≡ []) × (first_block lines ≡ none)

json_value-Anything : (c : Codec) (block : List String) → Ensures Anything (json_value c block)
unfolding json_value
json_value-Anything c block =
    Ensures-require Anything _ duplicate_json_key _
      λ _. Ensures-present Anything (c.loads block) invalid_json λ _ _. tt

parse_block-Parsed :
    (c : Codec) (todo : String) (lines block : List String)
    → Ensures (Parsed todo lines) (parse_block c todo block)
unfolding parse_block
parse_block-Parsed c todo lines block =
    Ensures-require (Parsed todo lines) (leb (c.utf8_length block) max_manifest_bytes)
      manifest_too_large _
      λ _.
        Ensures-bind Anything (Parsed todo lines) (json_value c block) _
          (json_value-Anything c block)
          λ v _.
            Ensures-bind (IsManifest todo) (Parsed todo lines) (parse_value todo v) _
              (parse_value-IsManifest todo v) λ m held. held

length_zero {ℓ} : {A : Type ℓ} (xs : List A) → leb (length xs) 0 ≡ true → xs ≡ []
length_zero [] e = refl
length_zero (x ∷ xs) e = absurd (ground (arith, e))

parse_plan_manifest-Parsed :
    (c : Codec) (todo : String) (lines : List String)
    → Ensures (Parsed todo lines) (parse_plan_manifest c todo lines)
unfolding parse_plan_manifest
parse_plan_manifest-Parsed c todo lines =
    Ensures-require (Parsed todo lines) (leb (length (filter is_pseudo_start lines)) 1)
      duplicate_manifest _
      λ _.
        Ensures-require (Parsed todo lines)
          (leb (length (filter is_pseudo_start lines)) 0 || any is_start lines) malformed_fence _
          λ _. elim (Option-cases (first_block lines)) [
            | inl e ↦ rw e (
                if_ind (Ensures (Parsed todo lines)) (leb (length (filter is_pseudo_start lines)) 0)
                  (λ z. (length_zero (filter is_pseudo_start lines) z, e)) (λ _. tt))
            | inr (block, e) ↦ rw e (parse_block-Parsed c todo lines block)
          ]

-- Where `parse_plan_manifest` returns a manifest, it is one of version 1 for the TODO that is expected, of
-- one to fifty tasks with different, safe ids, and all its texts are trimmed, not blank, free of control
-- characters and within their bounds, in lists of one to fifty. Where it returns none, no line looks like the
-- start of a manifest, and no block is found.
pub parse_plan_manifest-IsSound :
    (c : Codec) (todo : String) (lines : List String) {r : Option PlanManifest}
    → parse_plan_manifest c todo lines ≡ ok r
    → Parsed todo lines r
parse_plan_manifest-IsSound c todo lines e =
    Ensures-eq-ok (Parsed todo lines) (parse_plan_manifest c todo lines)
      (parse_plan_manifest-Parsed c todo lines) e
