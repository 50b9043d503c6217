-- ===== src/WorkerResult/Sound.antt =====
-- What an accepted result is.
use todo_pipeline_orch.Prelude.{
  String, ap, ◌∙◌, arith, ◌&&◌, some, ◌≡◌, refl, nat_eq, string_eq, list_eq,
}
use todo_pipeline_orch.Prelude.Dict.{Dict, lookup}
use todo_pipeline_orch.Prelude.Int.{int_eq}
use todo_pipeline_orch.Prelude.Checked.{
  Anything, anything, ok, Ensures, Ensures-self, Ensures-require, Ensures-bind, Ensures-imp,
  Ensures-eq-ok,
}
use todo_pipeline_orch.Prelude.Json.{Json, str}
use todo_pipeline_orch.WorkerResult.Text.{Library, equals_text, equals_number}
use todo_pipeline_orch.WorkerResult.Types.{
  malformed_result, unsafe_metadata, invalid_verdict, identity_mismatch, WorkerResult,
}
use todo_pipeline_orch.WorkerResult.Values.{item}
use todo_pipeline_orch.WorkerResult.Sections.{git_result, acceptance, optional_delivery}
use todo_pipeline_orch.WorkerResult.Parse.{
  Expected, has_top_keys, is_scanned, parse_result, published, parse_worker_result,
}
use todo_pipeline_orch.WorkerResult.Final.{IsPublished, published-IsPublished}
use todo_pipeline_orch.WorkerResult.Evidence.{IsGit, IsOptionalDelivery, git_result-IsGit}
use todo_pipeline_orch.WorkerResult.Delivered.{optional_delivery-IsOptionalDelivery}
use todo_pipeline_orch.WorkerResult.Reported.{
  present_item, equals_text-eq, ReportsAll, acceptance-ReportsAll,
}

-- What a result accepted from `raw` is.
pub record IsAccepted (lib : Library) (x : Expected) (raw : Dict String Json) (r : WorkerResult)
    : Type 0 where
  pub of_tick : r.tick_id ≡ x.tick_id
  pub of_todo : r.todo_id ≡ x.todo_id
  pub of_step : r.step_key ≡ x.step_key
  pub tick_found : lookup "tick_id" raw ≡ some (str x.tick_id)
  pub todo_found : lookup "todo_id" raw ≡ some (str x.todo_id)
  pub step_found : lookup "step_key" raw ≡ some (str x.step_key)
  pub git_section : Json
  pub git_found : lookup "git" raw ≡ some git_section
  pub git_read : git_result x.allow_no_changes git_section ≡ ok r.git
  pub git_valid : IsGit x.allow_no_changes r.git
  pub delivery_valid : IsOptionalDelivery lib r.delivery
  pub report : Json
  pub reported : lookup "acceptance" raw ≡ some report
  pub all_passed : ReportsAll x.acceptance_criteria report

pub parse_result-IsAccepted :
    (lib : Library) (x : Expected) (raw : Dict String Json)
    → Ensures (IsAccepted lib x raw) (parse_result lib x raw)
unfolding parse_result
parse_result-IsAccepted lib x raw =
    let P : WorkerResult → Type 0 = IsAccepted lib x raw in
    Ensures-require P (is_scanned lib raw) unsafe_metadata _ λ _.
      Ensures-require P (has_top_keys raw) malformed_result _ λ _.
        Ensures-bind Anything P (item raw "schema_version") _ (anything (item raw "schema_version"))
          λ version _.
            Ensures-bind Anything P (item raw "verdict") _ (anything (item raw "verdict"))
              λ verdict _.
                Ensures-require P (equals_number version 1 && equals_text verdict "success")
                  invalid_verdict _
                  λ _.
                    Ensures-bind _ P (item raw "tick_id") _ (present_item raw "tick_id")
                      λ tick_id at_tick_id.
                        Ensures-bind _ P (item raw "todo_id") _ (present_item raw "todo_id")
                          λ todo_id at_todo_id.
                            Ensures-bind _ P (item raw "step_key") _ (present_item raw "step_key")
                              λ step_key at_step_key.
                                Ensures-require P
                                  (equals_text tick_id x.tick_id
                                    && equals_text todo_id x.todo_id
                                    && equals_text step_key x.step_key)
                                  identity_mismatch _
                                  λ names.
                                    Ensures-bind _ P (item raw "git") _ (present_item raw "git")
                                      λ raw_git g.
                                        Ensures-bind _ P (git_result x.allow_no_changes raw_git) _
                                          (Ensures-self (git_result x.allow_no_changes raw_git))
                                          λ git a.
                                            Ensures-bind _ P (item raw "acceptance") _
                                              (present_item raw "acceptance")
                                              λ report b.
                                                Ensures-bind _ P
                                                  (acceptance x.acceptance_criteria report) _
                                                  (acceptance-ReportsAll x.acceptance_criteria
                                                    report)
                                                  λ _ d.
                                                    Ensures-bind _ P
                                                      (optional_delivery lib
                                                        (lookup "delivery" raw))
                                                      _
                                                      (optional_delivery-IsOptionalDelivery lib
                                                        (lookup "delivery" raw))
                                                      λ delivery f. record {
                                                        of_tick = refl;
                                                        of_todo = refl;
                                                        of_step = refl;
                                                        tick_found =
                                                            at_tick_id
                                                            ∙ ap some (
                                                            equals_text-eq tick_id x.tick_id
                                                            (ground (arith, names)));
                                                        todo_found =
                                                            at_todo_id
                                                            ∙ ap some (
                                                            equals_text-eq todo_id x.todo_id
                                                            (ground (arith, names)));
                                                        step_found =
                                                            at_step_key
                                                            ∙ ap some (
                                                            equals_text-eq step_key x.step_key
                                                            (ground (arith, names)));
                                                        git_section = raw_git;
                                                        git_found = g;
                                                        git_read = a;
                                                        git_valid =
                                                            Ensures-eq-ok (IsGit x.allow_no_changes)
                                                            (git_result x.allow_no_changes raw_git)
                                                            (git_result-IsGit x.allow_no_changes
                                                            raw_git)
                                                            a;
                                                        delivery_valid = f;
                                                        report = report;
                                                        reported = b;
                                                        all_passed = d;
                                                      }

parse_worker_result-Accepted :
    (lib : Library) (x : Expected) (payload : Json)
    → Ensures
        (λ r. (raw : Dict String Json) × IsPublished payload raw × IsAccepted lib x raw r)
        (parse_worker_result lib x payload)
unfolding parse_worker_result
parse_worker_result-Accepted lib x payload =
    Ensures-bind (IsPublished payload) _ (published lib payload) _
      (published-IsPublished lib payload)
      λ raw e.
        Ensures-imp (IsAccepted lib x raw) _ (parse_result lib x raw)
          (parse_result-IsAccepted lib x raw) λ r held. (raw, e, held)

-- A result that `parse_worker_result` returns is the `tpo_result` in the metadata of the last of the payload's
-- runs that succeeded, by its status, its outcome, or, without a status, its exit code; and it names there the
-- tick, the TODO and the step that are expected. Its SHAs are well formed and the head is the task's commit;
-- its files are different, relative paths that stay inside, at least one unless none is allowed; its delivery,
-- where it reports one, has a pull request's URL and one to fifty checks that all exit with zero; and it
-- reports every acceptance criterion, in order, as passed.
pub parse_worker_result-IsAccepted :
    (lib : Library) (x : Expected) (payload : Json) {r : WorkerResult}
    → parse_worker_result lib x payload ≡ ok r
    → (raw : Dict String Json) × IsPublished payload raw × IsAccepted lib x raw r
parse_worker_result-IsAccepted lib x payload e =
    Ensures-eq-ok _ (parse_worker_result lib x payload) (parse_worker_result-Accepted lib x payload)
      e
