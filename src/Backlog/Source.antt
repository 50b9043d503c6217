-- ===== src/Backlog/Source.antt =====
-- The Plan of an issue: `resolve_plan_source` of github_issues.py, with `validate_plan_path` and
-- `legacy_plan_source` of plan_manifest.py.
use Prim.Native.Char.{code}
use todo_pipeline_orch.Prelude.{
  ℕ, ◌+◌, String, Bool, true, false, not, ◌&&◌, ◌||◌, Option, none, some, List, [], ◌∷◌, ◌==◌,
  nat_eq, string_eq, ltb, if◌then◌else◌,
}
use todo_pipeline_orch.Prelude.Text.{every}
use todo_pipeline_orch.Prelude.Checked.{Checked, ok, err, ◌>>=◌, ◌>>◌, require, present}
use todo_pipeline_orch.Plan.Manifest.{PlanManifest}
use todo_pipeline_orch.Plan.Document.{Codec, parse_plan_manifest}
use todo_pipeline_orch.Backlog.Types.{
  PlanSource, Issue, PlanCode, dual_plan_source, missing, duplicate, non_canonical, absolute,
  outside_repository, missing_file, unreadable, not_regular_file, issue_error, refused,
}

-- How `candidate.resolve(strict=True)` ends.
pub data Resolved : Type 0 where
  found not_found failed : Resolved

-- What the file system answers of a path under the project: whether it is absolute; whether it resolves
-- inside the project, loosely and strictly; whether it is a regular file and can be opened; its POSIX form;
-- and the lines of its text, where it can be read.
pub record Entry : Type 0 where
  pub is_absolute : Bool
  pub loosely_inside : Bool
  pub strictly : Resolved
  pub strictly_inside : Bool
  pub is_file : Bool
  pub can_open : Bool
  pub posix : String
  pub text : Option (List String)

pub record Files : Type 0 where
  pub at : String → Entry
  pub sha256 : List String → String
  pub codec : Codec

-- `validate_plan_path`
unfoldable pub validate_plan_path : Entry → Checked PlanCode String
validate_plan_path e = do
  require (not e.is_absolute) absolute
  require e.loosely_inside outside_repository
  elim e.strictly [ found ↦ ok tt | not_found ↦ err missing_file | failed ↦ err unreadable ]
  require e.strictly_inside outside_repository
  require e.is_file not_regular_file
  require e.can_open unreadable
  ok e.posix

-- `parse_plan_manifest`, whose error keeps its code.
abbrev pub manifest_of : Files → String → List String → Checked PlanCode (Option PlanManifest)
manifest_of files todo_id document = elim (parse_plan_manifest files.codec todo_id document) [
  | ok m ↦ ok m
  | err r ↦ err (refused r)
]

-- `legacy_plan_source`
unfoldable pub legacy_plan_source : Files → String → String → Checked PlanCode PlanSource
legacy_plan_source files path todo_id = do
  relative ← validate_plan_path (files.at path)
  document ← present (files.at relative).text unreadable
  manifest ← manifest_of files todo_id document
  ok (record {
    document = document;
    plan_hash = files.sha256 document;
    manifest = manifest;
    plan_path = some relative;
  })

-- Whether a segment of a path is `.` or `..`, or the path has an empty segment or ends in one: `n`
-- characters of the segment that goes on are read, and `dots` says that these are all dots.
unfoldable pub has_dots : ℕ → Bool → String → Bool
has_dots n dots String.[] = dots && (n == 1 || n == 2)
has_dots n dots (String.◌∷◌ c s) =
    let ends = code c == b'/' in
    (ends && dots && (n == 1 || n == 2))
    || has_dots (if ends then 0 else n + 1) (ends || (dots && code c == b'.')) s

-- `"//" in value or value.endswith("/")`
unfoldable pub has_empty : String → Bool
has_empty String.[] = false
has_empty (String.◌∷◌ c String.[]) = code c == b'/'
has_empty (String.◌∷◌ c (String.◌∷◌ d s)) =
    (code c == b'/' && code d == b'/') || has_empty (String.◌∷◌ d s)

-- `_is_canonical_relative_path`
unfoldable pub is_canonical_relative_path : String → Bool
unfolding every
is_canonical_relative_path value =
    every (λ c. not (ltb c 32 || c == 127)) value
    && not (has_empty value)
    && not (has_dots 0 true value)

-- `resolve_plan_source`
unfoldable pub resolve_plan_source : Files → Issue → Checked PlanCode PlanSource
resolve_plan_source files issue = elim issue.plan_error [
  | some code ↦ err (issue_error code)
  | none ↦ elim issue.plan_source [
    | some source ↦ elim issue.plan_values [ [] ↦ ok source | _ ∷ _ ↦ err dual_plan_source ]
    | none ↦ elim issue.plan_values [
      | [] ↦ err missing
      | path ∷ rest ↦ elim rest [
        | _ ∷ _ ↦ err duplicate
        | [] ↦ do
          require (is_canonical_relative_path path) non_canonical
          normalized ← validate_plan_path (files.at path)
          legacy_plan_source files normalized issue.todo_id
      ]
    ]
  ]
]
