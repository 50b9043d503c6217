-- ===== src/Decision/Recorded.antt =====
-- What the files of the decisions hold after a decision is recorded.
use todo_pipeline_orch.Prelude.{
  ◌≤◌, String, none, some, ◌==◌, string_eq, ◌≡◌, ◌∙◌, ap, subst, length, if◌then◌else◌,
}
use todo_pipeline_orch.Prelude.Dict.{lookup}
use todo_pipeline_orch.Prelude.Checked.{ok, >>=-eq-ok}
use todo_pipeline_orch.Decision.Types.{HermesSelectionDecision, Library}
use todo_pipeline_orch.Decision.Store.{DecisionStore, file_name, persist, rotate_if_needed, listed}
use todo_pipeline_orch.Decision.Kept.{find_file, rotate_if_needed-find_file, persist-find_file}
use todo_pipeline_orch.Decision.Rotated.{rotate_if_needed-bound}
use todo_pipeline_orch.Decision.Selection.{record_decision}

-- One decision was added to the store: the directory had no file of its name, it is found under its name, every
-- other decision and every outcome is found as before, and the directory has at most 50 decisions.
pub record IsRecorded (lib : Library) (d : HermesSelectionDecision) (store after : DecisionStore)
    : Type 0 where
  pub fresh : lookup (file_name d.tick_id) store.decisions.hot ≡ none
  pub decided :
      (name : String)
      → find_file name after.decisions ≡ (
          if name == file_name d.tick_id
          then some (lib.to_json d)
          else find_file name store.decisions)
  pub outcomes : (name : String) → find_file name after.outcomes ≡ find_file name store.outcomes
  pub bounded : length (listed after.decisions.hot) ≤ 50

-- What `persist` and then `rotate_if_needed` return is the decision, and one decision was added to the store:
-- the directory had no file of its name, it is found under its name, every other decision and every outcome is
-- found as before, in the directory or in the archive, and the directory has at most 50 decisions.
pub record_decision-IsRecorded :
    (lib : Library) (d : HermesSelectionDecision) (store : DecisionStore)
    {given : HermesSelectionDecision} {after : DecisionStore}
    → record_decision lib d store ≡ ok (given, after)
    → (given ≡ d) × IsRecorded lib d store after
unfolding record_decision
record_decision-IsRecorded lib d store {given} {after} done =
    let (w, written, e) = >>=-eq-ok (persist lib d store) _ done in
    let rotated : (rotate_if_needed 50 w).0 ≡ after = cc in
    let (fresh, found, same) = persist-find_file lib d store written in
    (
      cc,
      subst (IsRecorded lib d store) rotated (record {
        fresh = fresh;
        decided = λ name. (rotate_if_needed-find_file 50 w name).0 ∙ found name;
        outcomes = λ name. (rotate_if_needed-find_file 50 w name).1 ∙ ap (find_file name) same;
        bounded = rotate_if_needed-bound 50 w;
      }),
    )
