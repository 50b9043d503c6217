-- ===== src/WorkerResult/Evidence.antt =====
-- What the sections of an accepted result are.
use todo_pipeline_orch.Prelude.{
  ◌≤◌, String, Bool, true, false, not, ◌&&◌, ◌||◌, Option, none, some, List, [], ◌∷◌, ◌≡◌, ◌≢◌,
  arith, ◌==◌, nat_eq, string_eq, list_eq, text_iff, leb, length, All, all, if_ind, if◌then◌else◌,
}
use todo_pipeline_orch.Prelude.Text.{size}
use todo_pipeline_orch.Prelude.Dict.{Dict, lookup}
use todo_pipeline_orch.Prelude.Int.{pos, int_eq}
use todo_pipeline_orch.Prelude.Checked.{
  Anything, anything, Checked, ok, err, map_checked, Ensures, Ensures-require, Ensures-bind,
  Ensures-map,
}
use todo_pipeline_orch.Prelude.Json.{
  Json, Items, Fields, null, bool, int, float, str, arr, obj, nil, cons, items, dict, same_keys,
}
use todo_pipeline_orch.Plan.Manifest.{no_repeats}
use todo_pipeline_orch.WorkerResult.Text.{
  Library, is_sha, is_placeholder, is_absolute, has_parent, has_backslash, is_pull_url, is_hashable,
}
use todo_pipeline_orch.WorkerResult.Types.{
  ResultCode, invalid_git, type_error, CommandResult, GitResult, DeliveryEvidence,
}
use todo_pipeline_orch.WorkerResult.Values.{mapping, item}
use todo_pipeline_orch.WorkerResult.Sections.{
  sha, changed_file, is_nil, changed_files, git_keys, git_result,
}

-- A path of the repository as it may be reported: relative, with no step to a parent.
abbrev pub IsSafePath : String → Type 0
IsSafePath name =
    (name ≢ "")
    × (size name ≤ 500)
    × (is_absolute name ≡ false)
    × (has_parent 0 true name ≡ false)
    × (has_backslash name ≡ false)
    × (is_placeholder name ≡ false)

pub record IsGit (allow_no_changes : Bool) (g : GitResult) : Type 0 where
  pub parent_sha : is_sha g.expected_parent_sha ≡ true
  pub head_sha : is_sha g.resulting_head_sha ≡ true
  pub one_commit : g.resulting_head_sha ≡ g.task_commit_sha
  pub files_safe : All IsSafePath g.changed_files
  pub files_distinct : no_repeats g.changed_files ≡ true
  pub some_file : allow_no_changes ≡ false → 1 ≤ length g.changed_files

abbrev pub IsPassed : CommandResult → Type 0
IsPassed c = c.exit_code ≡ pos 0

pub record IsDelivery (lib : Library) (d : DeliveryEvidence) : Type 0 where
  pub url : is_pull_url lib.is_decimal d.pr_url ≡ true
  pub head_sha : is_sha d.head_sha ≡ true
  pub all_passed : All IsPassed d.checks
  pub some_check : 1 ≤ length d.checks
  pub few_checks : length d.checks ≤ 50

abbrev pub IsOptionalDelivery : Library → Option DeliveryEvidence → Type 0
IsOptionalDelivery lib none = Unit
IsOptionalDelivery lib (some d) = IsDelivery lib d

-- The entries report these criteria, in their order, and each as passed.
abbrev pub Reports : List String → List Json → Type 0
Reports [] [] = Unit
Reports (c ∷ cs) (v ∷ vs) =
    ((fs : Fields) × (v ≡ obj fs)
      × (lookup "criterion" (dict fs) ≡ some (str c))
      × (lookup "status" (dict fs) ≡ some (str "passed")))
    × Reports cs vs
Reports _ _ = ⊥

changed_file-IsSafePath : (v : Json) → Ensures IsSafePath (changed_file v)
unfolding changed_file
changed_file-IsSafePath (str name) =
    Ensures-require IsSafePath (not (name == "") && leb (size name) 500) invalid_git _ λ a.
      Ensures-require IsSafePath (not (is_placeholder name)) invalid_git _ λ b.
        Ensures-require IsSafePath
          (not (is_absolute name || has_parent 0 true name || has_backslash name)) invalid_git _
          λ d. (
            ground (arith, text_iff name "", a),
            ground (arith, a),
            ground (arith, d),
            ground (arith, d),
            ground (arith, d),
            ground (arith, b),
          )
changed_file-IsSafePath null = tt
changed_file-IsSafePath (bool b) = tt
changed_file-IsSafePath (int z) = tt
changed_file-IsSafePath (float z t) = tt
changed_file-IsSafePath (arr xs) = tt
changed_file-IsSafePath (obj fs) = tt

abbrev AreFiles : Bool → List String → Type 0
AreFiles allow names =
    All IsSafePath names × (no_repeats names ≡ true) × (allow ≡ false → 1 ≤ length names)

pub is_nil-items : (xs : Items) → is_nil xs ≡ false → 1 ≤ length (items xs)
is_nil-items nil e = absurd (cc)
is_nil-items (cons x xs) e = omega arith

changed_files-AreFiles :
    (allow : Bool) (v : Json) → Ensures (AreFiles allow) (changed_files allow v)
unfolding changed_files
changed_files-AreFiles allow (arr xs) =
    Ensures-require (AreFiles allow) (not (is_nil xs) || allow) invalid_git _ λ a.
      Ensures-require (AreFiles allow) (all is_hashable (items xs)) type_error _ λ _.
        Ensures-bind _ (AreFiles allow) (map_checked changed_file (items xs)) _
          (Ensures-map IsSafePath changed_file changed_file-IsSafePath (items xs))
          λ names held. Ensures-require (AreFiles allow) (no_repeats names) invalid_git _ λ d. (
            held.0,
            d,
            λ e.
                let some_item = is_nil-items xs (ground (arith, a, e)) in
                omega (arith, held.1, some_item),
          )
changed_files-AreFiles allow null = tt
changed_files-AreFiles allow (bool b) = tt
changed_files-AreFiles allow (int z) = tt
changed_files-AreFiles allow (float z t) = tt
changed_files-AreFiles allow (str s) = tt
changed_files-AreFiles allow (obj fs) = tt

pub sha-is_sha :
    (d : Dict String Json) (key : String) (code : ResultCode)
    → Ensures (λ s. is_sha s ≡ true) (sha d key code)
sha-is_sha d key code =
    Ensures-bind Anything _ (item d key) _ (anything (item d key)) λ v _. on_value v
  where
    on_value :
        (v : Json)
        → Ensures
            (λ s. is_sha s ≡ true)
            (elim v as (λ _. Checked ResultCode String) [
              | str s ↦ if is_sha s then ok s else err code
              | _ ↦ err code
            ])
    on_value (str s) = if_ind (Ensures (λ s. is_sha s ≡ true)) (is_sha s) (λ e. e) (λ _. tt)
    on_value null = tt
    on_value (bool b) = tt
    on_value (int z) = tt
    on_value (float z t) = tt
    on_value (arr xs) = tt
    on_value (obj fs) = tt

pub git_result-IsGit : (allow : Bool) (v : Json) → Ensures (IsGit allow) (git_result allow v)
unfolding git_result
git_result-IsGit allow v =
    Ensures-bind Anything (IsGit allow) (mapping (some v) invalid_git) _
      (anything (mapping (some v) invalid_git))
      λ git _. Ensures-require (IsGit allow) (same_keys git git_keys) invalid_git _ λ _.
        Ensures-bind _ (IsGit allow) (sha git "expected_parent_sha" invalid_git) _
          (sha-is_sha git "expected_parent_sha" invalid_git)
          λ parent a.
            Ensures-bind _ (IsGit allow) (sha git "resulting_head_sha" invalid_git) _
              (sha-is_sha git "resulting_head_sha" invalid_git)
              λ head b.
                Ensures-bind _ (IsGit allow) (sha git "task_commit_sha" invalid_git) _
                  (sha-is_sha git "task_commit_sha" invalid_git)
                  λ commit _. Ensures-require (IsGit allow) (head == commit) invalid_git _ λ same.
                    Ensures-bind Anything (IsGit allow) (item git "changed_files") _
                      (anything (item git "changed_files"))
                      λ raw _.
                        Ensures-bind (AreFiles allow) (IsGit allow) (changed_files allow raw) _
                          (changed_files-AreFiles allow raw)
                          λ files (safe, distinct, some_file). record {
                            parent_sha = a;
                            head_sha = b;
                            one_commit = (text_iff head commit).0 same;
                            files_safe = safe;
                            files_distinct = distinct;
                            some_file = some_file;
                          }
