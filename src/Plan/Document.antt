-- ===== src/Plan/Document.antt =====
-- `parse_plan_manifest` of a document's lines (plan_manifest.py).
use todo_pipeline_orch.Prelude.{
  ℕ, ◌*◌, String, ◌||◌, Option, none, some, List, leb, length, any, all, filter, if◌then◌else◌,
}
use todo_pipeline_orch.Prelude.Checked.{Checked, ok, err, ◌>>=◌, ◌>>◌, require, present}
use todo_pipeline_orch.Prelude.Json.{Json, Fields, dict, keys}
use todo_pipeline_orch.Plan.Manifest.{
  Refusal, duplicate_manifest, malformed_fence, manifest_too_large, duplicate_json_key,
  invalid_json, PlanManifest, no_repeats, parse_value,
}
use todo_pipeline_orch.Plan.Fence.{is_pseudo_start, is_start, first_block}

-- What Python's library answers of the lines of a block: the length of their UTF-8, and what
-- `json.loads` comes to, with the objects that it hands to its hook until then, the inner ones first.
pub record Codec : Type 0 where
  pub utf8_length : List String → ℕ
  pub objects : List String → List Fields
  pub loads : List String → Option Json

abbrev pub max_manifest_bytes : ℕ
max_manifest_bytes = 64 * 1024

-- `json.loads(block, object_pairs_hook=_json_object)`
unfoldable pub json_value : Codec → List String → Checked Refusal Json
unfolding all
json_value c block = do
  require (all (λ fs. no_repeats (keys (dict fs))) (c.objects block)) duplicate_json_key
  present (c.loads block) invalid_json

-- `parse_plan_manifest`, from the block on.
unfoldable pub parse_block : Codec → String → List String → Checked Refusal (Option PlanManifest)
parse_block c expected block = do
  require (leb (c.utf8_length block) max_manifest_bytes) manifest_too_large
  value ← json_value c block
  manifest ← parse_value expected value
  ok (some manifest)

-- `parse_plan_manifest`
unfoldable pub parse_plan_manifest :
    Codec → String → List String → Checked Refusal (Option PlanManifest)
parse_plan_manifest c expected lines = do
  let markers = filter is_pseudo_start lines
  require (leb (length markers) 1) duplicate_manifest
  require (leb (length markers) 0 || any is_start lines) malformed_fence
  elim (first_block lines) [
    | none ↦ if leb (length markers) 0 then ok none else err malformed_fence
    | some block ↦ parse_block c expected block
  ]
