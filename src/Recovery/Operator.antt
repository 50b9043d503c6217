-- ===== src/Recovery/Operator.antt =====
-- `prepare_recovery`, `approve_recovery`, `validate_recovery` and `consume_recovery` of
-- agent_recovery.py. Each runs under the worktree's lock and the execution's.
use todo_pipeline_orch.Prelude.{String, Option, none, some, ◌&&◌, ◌==◌, string_eq, if◌then◌else◌}
use todo_pipeline_orch.Effects.{
  Result, ok, err, raise, require, ◌>>=◌, ◌>>◌, Action, and_then, state_changed, approval_mismatch,
  preview_changed, no_approved_event, worker_context,
}
use todo_pipeline_orch.Execution.Env.{Env}
use todo_pipeline_orch.Execution.Store.{Store, locked, worktree_locked}
use todo_pipeline_orch.Recovery.Types.{
  Intent, IntentStatus, prepared, approved, consumed, is_approved, is_prepared, operator, tick,
  Mode, Preview, preview_eq,
}
use todo_pipeline_orch.Recovery.Evidence.{Evidence, snapshot}
use todo_pipeline_orch.Recovery.Intents.{read_optional, write_intent}

-- `_operator_form`: the file names no approver and no reissues.
abbrev pub operator_form : IntentStatus → Preview → Intent
operator_form status preview = record {
  status = status;
  approver = operator;
  preview = preview;
  reissues = 0;
}

-- What `consume_recovery` writes: the operator's form, or the tick's intent as it was.
unfoldable pub consumed_form : Intent → Intent
consumed_form intent = elim intent.approver [
  | operator ↦ operator_form consumed intent.preview
  | tick ↦ record intent { status = consumed }
]

-- The intent that `preview` was prepared as.
unfoldable pub prepared_as : Preview → Option Intent → Result (Unit {0})
prepared_as preview none = raise approval_mismatch
prepared_as preview (some intent) =
    require (is_prepared intent.status && preview == intent.preview) approval_mismatch

-- The approved intent of the event.
unfoldable pub approved_for : String → Option Intent → Result Intent
approved_for event_id none = raise no_approved_event
approved_for event_id (some intent) = do
  require (is_approved intent.status && intent.preview.event_id == event_id) no_approved_event
  ok intent

module _ (env : Env) (evidence : Evidence) (execution_id : String) where
  -- `with store.worktree_locked(id), store.locked(id): body`
  unfoldable pub both_locked : {A : Type 0} → Action Store A → Action Store A
  both_locked body = worktree_locked env execution_id (locked env execution_id body)

  unfoldable pub prepare_locked : Mode → Action Store Preview
  prepare_locked mode s =
      and_then (snapshot env evidence execution_id mode evidence.token none s)
        (λ preview. write_intent execution_id (operator_form prepared preview) preview) s

  unfoldable pub prepare_recovery : Mode → Action Store Preview
  prepare_recovery mode s =
      if evidence.in_worker then (raise worker_context, s) else both_locked (prepare_locked mode) s

  unfoldable pub approve_locked : Preview → Action Store String
  approve_locked preview s =
      and_then
        (do
          intent ← read_optional execution_id s
          prepared_as preview intent
          now ← snapshot env evidence execution_id preview.mode preview.event_id none s
          require (now == preview) preview_changed)
        (λ _. write_intent execution_id (operator_form approved preview) preview.event_id) s

  unfoldable pub approve_recovery : Preview → Action Store String
  approve_recovery preview s =
      if evidence.in_worker
      then (raise worker_context, s)
      else both_locked (approve_locked preview) s

  unfoldable pub validated : String → Store → Result Intent
  validated event_id s = do
    found ← read_optional execution_id s
    intent ← approved_for event_id found
    now ← snapshot env evidence execution_id intent.preview.mode event_id none s
    if now == intent.preview then ok intent else err state_changed

  unfoldable pub validate_recovery : String → Action Store Preview
  validate_recovery event_id =
      both_locked (λ s. and_then (validated event_id s) (λ intent s. (ok intent.preview, s)) s)

  unfoldable pub consume_recovery : String → Action Store Preview
  consume_recovery event_id = both_locked (λ s.
      and_then (validated event_id s)
        (λ intent. write_intent execution_id (consumed_form intent) intent.preview) s)
