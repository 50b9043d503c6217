-- ===== src/Decision/Selection.antt =====
-- `run_selection` (decision/__init__.py): what it keeps of the agent's answer, and what it persists.
use Prim.Native.String.{◌++◌ as text_append}
use todo_pipeline_orch.Prelude.{
  ℕ, zero, suc, String, string_eq, Option, none, some, List, [], ◌∷◌, contains, filter, map,
  if◌then◌else◌,
}
use todo_pipeline_orch.Prelude.Dict.{Dict}
use todo_pipeline_orch.Prelude.Checked.{Checked, ok, err, ◌>>=◌}
use todo_pipeline_orch.Prelude.Json.{Json, null, str}
use todo_pipeline_orch.Decision.Types.{
  HermesSelectionDecision, SelectionContext, AgentAnswer, ApiError, hermes_error, claude_error,
  dependency_error, timeout, transport_error, unexpected_error, AgentCall, answered, sha_mismatch,
  key_error, failed, Library,
}
use todo_pipeline_orch.Decision.Pick.{Rejection, checked_pick, reason_text, strip_bars}
use todo_pipeline_orch.Decision.Store.{DecisionStore, StoreFault, persist, rotate_if_needed}

-- `text[:n]`
unfoldable pub prefix : ℕ → String → String
prefix zero s = String.[]
prefix (suc n) String.[] = String.[]
prefix (suc n) (String.◌∷◌ c s) = String.◌∷◌ c (prefix n s)

abbrev pub api_error_code : ApiError → String
api_error_code hermes_error = "hermes_error"
api_error_code claude_error = "claude_error"
api_error_code dependency_error = "dependency_error"
api_error_code timeout = "timeout"
api_error_code transport_error = "transport_error"
api_error_code unexpected_error = "unexpected_error"

-- The answer that stands for an exception.
abbrev pub no_pick : String → AgentAnswer
no_pick rationale = record {
  candidates_considered = [];
  picked = null;
  rationale = rationale;
  blocked_reasons = [];
}

abbrev pub sha_or_empty : Option String → String
sha_or_empty none = ""
sha_or_empty (some sha) = sha

-- The `try` around the call: the answer and the prompt's SHA.
unfoldable pub call_result : AgentCall → AgentAnswer × String
unfolding prefix
call_result (answered parsed sha) = (parsed, sha)
call_result (sha_mismatch expected actual) = (
  no_pick (
      text_append "prompt_sha_mismatch: expected="
        (text_append (prefix 12 expected) (text_append " actual=" (prefix 12 actual)))),
  actual,
)
call_result key_error = (no_pick "config_error: missing_setting", "")
call_result (failed e sha) =
    (no_pick (text_append "api_error: " (api_error_code e)), sha_or_empty sha)

-- `allowed_ids`
abbrev pub allowed_ids : SelectionContext → Option (List String) → List String
allowed_ids ctx none = ctx.candidate_ids
allowed_ids ctx (some ids) = ids

-- `parsed["blocked_reasons"]`, its keys and values as texts.
unfoldable pub kept_reasons : List String → List (Json × Json) → Dict String String
unfolding contains
kept_reasons allowed [] = []
kept_reasons allowed ((str id, str reason) ∷ rest) =
    let later = kept_reasons allowed rest in
    if contains id allowed then (id, reason) ∷ later else later
kept_reasons allowed (other ∷ rest) = kept_reasons allowed rest

-- `parsed["candidates_considered"]`
unfoldable pub considered : SelectionContext → Option (List String) → AgentAnswer → List Json
unfolding filter contains
considered ctx none parsed = parsed.candidates_considered
considered ctx (some ids) parsed = map str (filter (λ id. contains id ids) ctx.candidate_ids)

-- The pick and the rationale that are kept.
abbrev pub after_gate :
    Library
    → SelectionContext
    → List String
    → String
    → Checked Rejection (Option String)
    → Option String × String
after_gate lib ctx allowed rationale (ok picked) = (picked, rationale)
after_gate lib ctx allowed rationale (err r) =
    (none, strip_bars (text_append (reason_text lib ctx allowed r) (text_append " | " rationale)))

unfoldable pub gated :
    Library → SelectionContext → Option (List String) → AgentAnswer → Option String × String
unfolding checked_pick reason_text strip_bars
gated lib ctx eligible parsed =
    let allowed = allowed_ids ctx eligible in
    after_gate lib ctx allowed parsed.rationale (checked_pick lib ctx allowed parsed.picked)

-- The arguments and settings of `run_selection`, with the time that `_now_iso` reads.
pub record SelectionTick : Type 0 where
  pub tick_id : String
  pub now : String
  pub model : String
  pub eligible_todo_ids : Option (List String)

-- The decision before it is persisted.
unfoldable pub make_decision :
    Library → SelectionTick → SelectionContext → AgentCall → HermesSelectionDecision
unfolding call_result gated considered kept_reasons
make_decision lib tick ctx call =
    let parsed = (call_result call).0 in
    let kept = gated lib ctx tick.eligible_todo_ids parsed in
    record {
      tick_id = tick.tick_id;
      timestamp = tick.now;
      model = tick.model;
      prompt_sha = (call_result call).1;
      candidates_considered = considered ctx tick.eligible_todo_ids parsed;
      picked = kept.0;
      rationale = kept.1;
      blocked_reasons =
          kept_reasons (allowed_ids ctx tick.eligible_todo_ids) parsed.blocked_reasons;
      in_flight = ctx.in_flight;
    }

-- `_store.persist` and then `_store.rotate_if_needed`, at the end of all three functions.
unfoldable pub record_decision :
    Library
    → HermesSelectionDecision
    → DecisionStore
    → Checked StoreFault (HermesSelectionDecision × DecisionStore)
record_decision lib d store = do
  written ← persist lib d store
  ok (d, (rotate_if_needed 50 written).0)

unfoldable pub run_selection :
    Library
    → SelectionTick
    → SelectionContext
    → AgentCall
    → DecisionStore
    → Checked StoreFault (HermesSelectionDecision × DecisionStore)
unfolding make_decision record_decision
run_selection lib tick ctx call store = record_decision lib (make_decision lib tick ctx call) store

unfoldable pub record_no_candidates :
    Library
    → SelectionTick
    → SelectionContext
    → Dict String String
    → DecisionStore
    → Checked StoreFault (HermesSelectionDecision × DecisionStore)
unfolding record_decision
record_no_candidates lib tick ctx blocked_reasons store =
    record_decision lib
      (record {
        tick_id = tick.tick_id;
        timestamp = tick.now;
        model = tick.model;
        prompt_sha = "";
        candidates_considered = [];
        picked = none;
        rationale = "no_eligible_candidates";
        blocked_reasons = blocked_reasons;
        in_flight = ctx.in_flight;
      })
      store

unfoldable pub record_tracker_error :
    Library
    → (tick_id now code : String) → DecisionStore
    → Checked StoreFault (HermesSelectionDecision × DecisionStore)
unfolding record_decision
record_tracker_error lib tick_id now code store =
    record_decision lib
      (record {
        tick_id = tick_id;
        timestamp = now;
        model = "";
        prompt_sha = "";
        candidates_considered = [];
        picked = none;
        rationale = text_append "tracker_error: " code;
        blocked_reasons = [];
        in_flight = [];
      })
      store
