-- ===== src/Decision/Tests.antt =====
-- A selection over two candidates, and the theorems at it.
use todo_pipeline_orch.Prelude.{
  Among, String, true, ◌&&◌, string_eq, Option, none, some, [], ◌∷◌, ◌≡◌, ◌↔◌, refl, leb, contains,
  filter, any,
}
use todo_pipeline_orch.Prelude.Dict.{lookup, insert}
use todo_pipeline_orch.Prelude.Text.{after, sort_names, insert_name}
use todo_pipeline_orch.Prelude.Checked.{ok, err}
use todo_pipeline_orch.Prelude.Json.{Json, str}
use todo_pipeline_orch.Schedule.Phases.{distinct_keys}
use todo_pipeline_orch.Decision.Types.{
  HermesSelectionDecision, SelectionContext, AgentCall, answered, key_error, Library,
}
use todo_pipeline_orch.Decision.Store.{
  DecisionStore, exists, link, atomic_write_once, file_name, persist, append_outcome,
  ends_with_json, listed, without, archive_file, archive_all, rotate_if_needed,
}
use todo_pipeline_orch.Decision.Pick.{
  ends_in_digits, is_todo_id, checked_pick, joined, list_repr, sorted_set, reason_text, strip_bars,
}
use todo_pipeline_orch.Decision.Selection.{
  prefix, SelectionTick, call_result, kept_reasons, considered, gated, make_decision,
  record_decision, run_selection, record_no_candidates, record_tracker_error, allowed_ids,
}
use todo_pipeline_orch.Decision.Kept.{find_file}
use todo_pipeline_orch.Decision.Recorded.{IsRecorded, record_decision-IsRecorded}
use todo_pipeline_orch.Decision.Trusted.{IsPick, run_selection-IsPick, run_selection-reasons}
use todo_pipeline_orch.Decision.Ticks.{select, outcome, operate, operate_all, operate_all-find_file}

program : Unit {0}
unfolding contains filter any lookup insert after sort_names insert_name distinct_keys exists link
    atomic_write_once file_name persist append_outcome ends_with_json listed without archive_file
    archive_all rotate_if_needed ends_in_digits is_todo_id checked_pick joined list_repr sorted_set
    reason_text strip_bars prefix call_result kept_reasons considered gated make_decision
    record_decision run_selection record_no_candidates record_tracker_error find_file operate
    operate_all
program = tt

abbrev text_of : Json → String
text_of (str s) = s
text_of other = "?"

abbrev lib : Library
lib = record { is_decimal = λ c. leb 48 c && leb c 57; repr = text_of; to_json = λ d. d.rationale }

abbrev tick : SelectionTick
tick = record {
  tick_id = "t2";
  now = "noon";
  model = "m";
  eligible_todo_ids = some ("TODO-2" ∷ "TODO-3" ∷ []);
}

abbrev ctx : SelectionContext
ctx = record { candidate_ids = "TODO-3" ∷ "TODO-2" ∷ "TODO-1" ∷ []; in_flight = "TODO-2" ∷ [] }

abbrev answer : String → AgentCall
answer id =
    answered
      (record {
        candidates_considered = [];
        picked = str id;
        rationale = "small";
        blocked_reasons = (str "TODO-2", str "in flight") ∷ (str "TODO-9", str "made up") ∷ [];
      })
      "sha"

abbrev empty : DecisionStore
empty = record {
  decisions = record { hot = []; archived = [] };
  outcomes = record { hot = []; archived = [] };
}

-- An earlier decision.
abbrev earlier : DecisionStore
earlier = record empty { decisions = record { hot = ("t1.json", "first") ∷ []; archived = [] } }

picked_third : (make_decision lib tick ctx (answer "TODO-3")).picked ≡ some "TODO-3"
unfolding program
picked_third = refl

refused_in_flight :
    (make_decision lib tick ctx (answer "TODO-2")).rationale
    ≡ "pick_already_in_flight: picked=TODO-2 | small"
unfolding program
refused_in_flight = refl

refused_unknown :
    (make_decision lib tick ctx (answer "TODO-8")).rationale
    ≡ "pick_not_known: picked=TODO-8 known=[TODO-1, TODO-2, TODO-3] | small"
unfolding program
refused_unknown = refl

kept_reason :
    (make_decision lib tick ctx (answer "TODO-3")).blocked_reasons ≡ ("TODO-2", "in flight") ∷ []
unfolding program
kept_reason = refl

-- The id of a rotated decision may be written again, and the next rotation replaces the archived text.
abbrev rotated : DecisionStore
rotated =
    (rotate_if_needed 1 (record empty {
      decisions = record { hot = ("t1.json", "a") ∷ ("t2.json", "b") ∷ []; archived = [] };
    })).0

abbrev again : DecisionStore → HermesSelectionDecision → Option String
again store d = elim (persist lib d store) [
  | ok w ↦ find_file "t1.json" (rotate_if_needed 1 w).0.decisions
  | err e ↦ none
]

archived_first : find_file "t1.json" rotated.decisions ≡ some "a"
unfolding program
archived_first = refl

replaced :
    again rotated (record (make_decision lib tick ctx key_error) { tick_id = "t1" })
    ≡ some "config_error: missing_setting"
unfolding program
replaced = refl

abbrev decision : HermesSelectionDecision
decision = make_decision lib tick ctx (answer "TODO-3")

abbrev after_it : DecisionStore
after_it = record empty {
  decisions = record { hot = ("t1.json", "first") ∷ ("t2.json", "small") ∷ []; archived = [] };
}

returned : run_selection lib tick ctx (answer "TODO-3") earlier ≡ ok (decision, after_it)
unfolding program
returned = refl

recorded : record_decision lib decision earlier ≡ ok (decision, after_it)
unfolding program
recorded = refl

run_selection-IsPick_example : (decision.picked ≡ some "TODO-3") ↔ (
    ((call_result (answer "TODO-3")).0.picked ≡ str "TODO-3")
    × IsPick lib ctx (allowed_ids ctx tick.eligible_todo_ids) "TODO-3")
run_selection-IsPick_example =
    run_selection-IsPick lib tick ctx (answer "TODO-3") earlier returned "TODO-3"

run_selection-reasons_example : Among ("TODO-2", "in flight") decision.blocked_reasons ↔ (
    Among (str "TODO-2", str "in flight") (call_result (answer "TODO-3")).0.blocked_reasons
    × (contains "TODO-2" (allowed_ids ctx tick.eligible_todo_ids) ≡ true))
run_selection-reasons_example =
    run_selection-reasons lib tick ctx (answer "TODO-3") earlier returned "TODO-2" "in flight"

record_decision-IsRecorded_example :
    (decision ≡ decision) × IsRecorded lib decision earlier after_it
record_decision-IsRecorded_example = record_decision-IsRecorded lib decision earlier recorded

operate_all-find_file_example :
    find_file "t1.json"
      (operate_all lib
        (select tick ctx (answer "TODO-3") ∷ outcome "t1" "merged" ∷ [])
        earlier).decisions
    ≡ find_file "t1.json" earlier.decisions
unfolding any file_name
operate_all-find_file_example =
    operate_all-find_file lib "t1.json"
      (select tick ctx (answer "TODO-3") ∷ outcome "t1" "merged" ∷ []) earlier refl
