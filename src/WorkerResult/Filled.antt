-- ===== src/WorkerResult/Filled.antt =====
-- A template that is filled in with facts is accepted, and one that is not is refused.
use todo_pipeline_orch.Prelude.{
  ℕ, ◌≤◌, Bool, Option, some, ◌≡◌, ◌≢◌, refl, arith, nat_eq, string_eq, list_eq, contains, all,
  subst,
}
use todo_pipeline_orch.Prelude.Dict.{lookup}
use todo_pipeline_orch.Prelude.Int.{int_eq}
use todo_pipeline_orch.Prelude.Checked.{ok, err, Ensures-eq-ok}
use todo_pipeline_orch.Prelude.Json.{Json, Fields, obj, dict, same_keys}
use todo_pipeline_orch.WorkerResult.Text.{Library, is_sha}
use todo_pipeline_orch.WorkerResult.Types.{invalid_git, GitResult, DeliveryEvidence, WorkerResult}
use todo_pipeline_orch.WorkerResult.Sections.{git_result}
use todo_pipeline_orch.WorkerResult.Parse.{Expected, parse_result, published, parse_worker_result}
use todo_pipeline_orch.WorkerResult.Sound.{IsAccepted, parse_result-IsAccepted}
use todo_pipeline_orch.WorkerResult.Template.{git_fields}
use todo_pipeline_orch.WorkerResult.Runs.{
  is_successful, successful, final_run, within_bytes, section,
}
use todo_pipeline_orch.WorkerResult.Filling.{
  metadata_of, card, fill, template_for, CanReport, blank, template_for-blank, fill-blank,
  parse_result-filled,
}

-- The library encodes the value in at most 64 KiB.
abbrev pub Encodes : Library → Json → Type 0
Encodes lib v = (n : ℕ) × (lib.encoded_size v ≡ some n) × (n ≤ 65536)

within_bytes-Encodes : (lib : Library) (v : Json) → Encodes lib v → within_bytes lib v ≡ ok tt
unfolding within_bytes
within_bytes-Encodes lib v (n, e, small) = rw e (ground arith)

published-card :
    (lib : Library) (fs : Fields)
    → Encodes lib (metadata_of fs)
    → Encodes lib (obj fs)
    → published lib (card fs) ≡ ok (dict fs)
unfolding published final_run successful is_successful section contains lookup
published-card lib fs a b =
    rw (within_bytes-Encodes lib (metadata_of fs) a) (rw (within_bytes-Encodes lib (obj fs) b) refl)

-- The template that `render_result_template` gives for an execution, filled in with the facts of valid Git
-- evidence and, where it has that section, of a valid delivery on its branch, is accepted by
-- `parse_worker_result` as these facts, in a card whose only run completed. The names, the facts and the
-- template's own words hold no control character and, to the library, no secret, and it encodes the metadata
-- within their bound.
pub parse_worker_result-fill :
    (lib : Library) (x : Expected) (g : GitResult) (d : Option DeliveryEvidence)
    → CanReport lib x g d
    → Encodes lib (metadata_of (fill g d (blank x d)))
    → Encodes lib (obj (fill g d (blank x d)))
    → (template_for x d ≡ ok (obj (blank x d)))
      × (parse_worker_result lib x (card (fill g d (blank x d)))
          ≡ ok (record {
            tick_id = x.tick_id;
            todo_id = x.todo_id;
            step_key = x.step_key;
            git = g;
            delivery = d;
          }))
unfolding parse_worker_result
parse_worker_result-fill lib x g d c a b = (
  template_for-blank x d,
  rw (published-card lib (fill g d (blank x d)) a b)
      (rw (fill-blank x g d) (parse_result-filled lib x g d c)),
)

-- What the template says of Git is refused.
git_result-blank :
    (allow other : Bool) → git_result allow (obj (git_fields other)) ≡ err invalid_git
unfolding git_result same_keys contains all lookup is_sha
git_result-blank allow other = refl

git_of_blank :
    (x : Expected) (d : Option DeliveryEvidence)
    → lookup "git" (dict (blank x d)) ≡ some (obj (git_fields x.allow_no_changes))
unfolding lookup
git_of_blank x d = refl

parse_result-blank :
    (lib : Library) (x y : Expected) (d : Option DeliveryEvidence) {fs : Fields} {r : WorkerResult}
    → template_for x d ≡ ok (obj fs)
    → parse_result lib y (dict fs) ≢ ok r
parse_result-blank lib x y d {fs} {r} t e =
    let same : fs ≡ blank x d = cc (template_for-blank x d, t) in
    let held : IsAccepted lib y (dict fs) r =
      Ensures-eq-ok (IsAccepted lib y (dict fs)) (parse_result lib y (dict fs))
        (parse_result-IsAccepted lib y (dict fs)) e in
    let found =
      subst (λ (k : Fields). lookup "git" (dict k) ≡ some held.git_section) same held.git_found in
    cc (
      found,
      git_of_blank x d,
      held.git_read,
      git_result-blank y.allow_no_changes x.allow_no_changes,
    )

-- A card that publishes the template as it is rendered is never accepted, whatever is expected of it.
pub parse_worker_result-blank :
    (lib : Library) (x y : Expected) (d : Option DeliveryEvidence) (payload : Json) {fs : Fields}
    {r : WorkerResult}
    → template_for x d ≡ ok (obj fs)
    → published lib payload ≡ ok (dict fs)
    → parse_worker_result lib y payload ≢ ok r
unfolding parse_worker_result
parse_worker_result-blank lib x y d payload t p e = parse_result-blank lib x y d t (rw p at e)
