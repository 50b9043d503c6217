-- ===== src/Recovery/Auto.antt =====
-- `auto_approve_resume` of agent_recovery.py: the tick's approval of a retry under a closed policy.
use todo_pipeline_orch.Prelude.{
  ℕ, ◌+◌, String, Bool, true, false, Option, none, some, ◌&&◌, ◌||◌, not, ◌==◌, nat_eq, string_eq,
  option_eq, leb, ltb, if◌then◌else◌, get_last?,
}
use todo_pipeline_orch.Effects.{Exception, Result, ok, err, Action, and_then, lock_contended}
use todo_pipeline_orch.Execution.Env.{Env}
use todo_pipeline_orch.Execution.Types.{Attempt, Record, Status, exited, is_confirmed}
use todo_pipeline_orch.Execution.Store.{
  Store, load, locked, worktree_lock_id, assert_worktree_peers_resolved,
}
use todo_pipeline_orch.Recovery.Types.{
  Intent, approved, is_approved, is_prepared, is_tick, is_operator, tick, Mode, Preview, preview_eq,
}
use todo_pipeline_orch.Recovery.Evidence.{Evidence, Context, broken, snapshot}
use todo_pipeline_orch.Recovery.Intents.{
  read_optional, write_intent, is_tick_approval, retract_stale_tick_approval, is_spent,
  is_cut_short,
}

abbrev pub max_generations : ℕ
max_generations = 3

abbrev pub max_reissues : ℕ
max_reissues = 3

-- `RECOVERY_REASONS`
pub data Reason : Type 0 where
  recovery_approved recovery_already_approved recovery_no_attempt : Reason
  recovery_outcome_ineligible recovery_cleanup_unconfirmed recovery_generation_exhausted : Reason
  recovery_evidence_legacy recovery_evidence_invalid recovery_worktree_unsafe : Reason
  recovery_worktree_busy recovery_state_changed recovery_approval_failed recovery_busy : Reason
  recovery_operator_intent_pending : Reason

abbrev pub is_approval : Reason → Bool
is_approval recovery_approved = true
is_approval recovery_already_approved = true
is_approval _ = false

pub record Verdict : Type 0 where
  pub approved : Bool
  pub event_id : Option String
  pub reason : Reason
  pub generation : ℕ
  pub mode : Option Mode

-- `_verdict`, of a refusal and of an approval.
abbrev pub verdict : Reason → ℕ → Option String → Option Mode → Verdict
verdict reason generation event_id mode = record {
  approved = is_approval reason;
  event_id = event_id;
  reason = reason;
  generation = generation;
  mode = mode;
}

abbrev pub refusal : Reason → ℕ → Verdict
refusal reason generation = verdict reason generation none none

abbrev is_exited : Status → Bool
is_exited exited = true
is_exited _ = false

-- An exited attempt whose result was recorded as invalid.
abbrev pub is_result_invalid : Attempt → Bool
is_result_invalid a = is_exited a.status && a.reason == some "result_invalid"

-- The outcomes that the policy may resume.
abbrev pub is_eligible : Attempt → Bool
is_eligible a = is_cut_short a.status || is_result_invalid a

-- The first reason that the attempt itself gives to refuse.
unfoldable pub attempt_refusal : ℕ → Attempt → Option Reason
attempt_refusal limit a =
    if not (is_eligible a)
    then some recovery_outcome_ineligible
    else if not (is_confirmed a.cleanup)
    then some recovery_cleanup_unconfirmed
    else if leb limit a.generation
    then some recovery_generation_exhausted
    else none

-- An operator's recovery is under way.
unfoldable pub is_operator_pending : Option Intent → Bool
is_operator_pending none = false
is_operator_pending (some i) =
    is_operator i.approver && (is_prepared i.status || is_approved i.status)

-- How many times the tick has replaced its approval for this generation, with this one.
unfoldable pub next_reissues : Option Intent → ℕ → ℕ
next_reissues none generation = 0
next_reissues (some i) generation =
    if is_tick i.approver && i.preview.generation == generation then i.reissues + 1 else 0

abbrev pub tick_intent : Preview → ℕ → Intent
tick_intent preview reissues = record {
  status = approved;
  approver = tick;
  preview = preview;
  reissues = reissues;
}

-- The verdict on an exception: contention for a lock is told apart from any other failure.
abbrev pub failure : ℕ → Exception → Verdict
failure generation lock_contended = refusal recovery_busy generation
failure generation _ = refusal recovery_approval_failed generation

abbrev pub caught : ℕ → Result Verdict → Verdict
caught generation (ok v) = v
caught generation (err e) = failure generation e

module _ (env : Env) (evidence : Evidence) (execution_id : String) (limit : ℕ) (mode : Mode) where
  -- Refuse, and withdraw the tick's approval of this generation if there is one.
  unfoldable pub retracting : Reason → ℕ → Action Store Verdict
  retracting reason generation s =
      (ok (refusal reason generation), retract_stale_tick_approval execution_id generation s)

  -- The event of an unspent approval by the tick that still describes the worktree.
  unfoldable pub standing : Record → ℕ → Intent → Store → Option String
  standing r generation i s =
      if is_tick_approval i generation && not (is_spent i.preview.event_id r.attempts)
      then elim (snapshot env evidence execution_id mode i.preview.event_id none s) [
        | ok now ↦ if now == i.preview then some i.preview.event_id else none
        | err _ ↦ none
      ]
      else none

  unfoldable pub standing_event : Record → ℕ → Option Intent → Store → Option String
  standing_event r generation none s = none
  standing_event r generation (some i) s = standing r generation i s

  -- A new approval, once the evidence allows one.
  unfoldable pub grant : Option Intent → ℕ → Context → Action Store Verdict
  grant existing generation context s =
      elim (snapshot env evidence execution_id mode evidence.token (some context) s) [
        | err _ ↦ retracting recovery_worktree_unsafe generation s
        | ok preview ↦
            if ltb max_reissues (next_reissues existing generation)
            then retracting recovery_state_changed generation s
            else write_intent execution_id (tick_intent preview (next_reissues existing generation))
                (verdict recovery_approved generation (some evidence.token) (some mode)) s
      ]

  -- What the recovery context says of the worktree.
  unfoldable pub on_context : Option Intent → ℕ → Action Store Verdict
  on_context existing generation s = elim (evidence.recovery_context execution_id generation) [
    | none ↦ retracting recovery_worktree_unsafe generation s
    | some context ↦
        if context.legacy_evidence_absent
        then retracting recovery_evidence_legacy generation s
        else grant existing generation context s
  ]

  -- What the journal says first.
  unfoldable pub on_evidence : Option Intent → ℕ → Action Store Verdict
  on_evidence existing generation s = elim (evidence.journal execution_id) [
    | broken ↦ retracting recovery_evidence_invalid generation s
    | _ ↦ on_context existing generation s
  ]

  -- What an intent that is there already says.
  unfoldable pub on_intent : Record → ℕ → Option Intent → Action Store Verdict
  on_intent r generation existing s =
      if is_operator_pending existing
      then (ok (refusal recovery_operator_intent_pending generation), s)
      else elim (standing_event r generation existing s) [
        | some event_id ↦
            (ok (verdict recovery_already_approved generation (some event_id) (some mode)), s)
        | none ↦ on_evidence existing generation s
      ]

  -- The policy on the last attempt, in the order of the code.
  unfoldable pub policy : Record → Attempt → Action Store Verdict
  policy r a s = elim (assert_worktree_peers_resolved env execution_id s) [
    | err _ ↦ (ok (refusal recovery_worktree_busy a.generation), s)
    | ok _ ↦ elim (attempt_refusal limit a) [
      | some reason ↦ retracting reason a.generation s
      | none ↦ and_then (read_optional execution_id s) (on_intent r a.generation) s
    ]
  ]

  -- The policy on a record, with its exceptions caught where the generation is known.
  unfoldable pub decide_on : Record → Action Store Verdict
  decide_on r s = elim (get_last? r.attempts) [
    | none ↦ (ok (refusal recovery_no_attempt 0), s)
    | some a ↦ let (v, s') = policy r a s in (ok (caught a.generation v), s')
  ]

  -- What runs under the locks.
  unfoldable pub decide : Action Store Verdict
  decide s = and_then (load env execution_id s) decide_on s

  -- The worktree's lock is taken here unless the caller holds it.
  unfoldable pub under_locks : Bool → Action Store Verdict → Action Store Verdict
  under_locks worktree_lock_held body s =
      if worktree_lock_held
      then locked env execution_id body s
      else and_then (worktree_lock_id env execution_id s)
          (λ lock_id. locked env lock_id (locked env execution_id body)) s

  unfoldable pub auto_approve_resume : Bool → Store → Verdict × Store
  auto_approve_resume worktree_lock_held s =
      let (v, s') = under_locks worktree_lock_held decide s in (caught 0 v, s')
