-- ===== src/Recovery/Tests.antt =====
-- Runs of recovery, and its theorems at concrete inputs.
use todo_pipeline_orch.Prelude.{
  ◌≤◌, ◌+◌, false, none, some, ◌≡◌, ◌≢◌, refl, any, all, contains, get_last?,
}
use todo_pipeline_orch.Prelude.Dict.{lookup, insert}
use todo_pipeline_orch.Effects.{ok, err}
use todo_pipeline_orch.Execution.Text.{is_identifier, is_sha256}
use todo_pipeline_orch.Execution.Cgroup.{cgroup_beq, validate_legacy_cgroup}
use todo_pipeline_orch.Execution.Types.{registration_beq, process_beq, Attempt, Record}
use todo_pipeline_orch.Execution.Validate.{validate}
use todo_pipeline_orch.Execution.Store.{
  Store, load, decode, locked, write, worktree_lock_id, worktree_locked, upgrade, peers_resolved,
  assert_worktree_peers_resolved, outside_worktree,
}
use todo_pipeline_orch.Execution.Admission.{
  register, register_locked, new_record, pin, admit, admit_locked, admission, authorizes,
  admitted_record, new_attempt, approved_context, authorize_retry, authorize_locked, retry_guard,
}
use todo_pipeline_orch.Execution.Update.{
  update_attempt, update_locked, update_record, update_guard, apply_changes, keeps_set, extends,
}
use todo_pipeline_orch.Execution.Runs.{perform, perform_all, empty}
use todo_pipeline_orch.Execution.Samples.{env, fields}
use todo_pipeline_orch.Recovery.Types.{prepared, preview_beq, resume, Preview}
use todo_pipeline_orch.Recovery.Evidence.{of_option, snapshot, snapshot_of}
use todo_pipeline_orch.Recovery.Intents.{
  is_event_id, is_intent, read_file, read_optional, write_intent, retract_stale_tick_approval,
  is_spent, pending_event, pending_locked, pending_auto_recovery, invalidate_locked,
  invalidate_recovery,
}
use todo_pipeline_orch.Recovery.Operator.{
  operator_form, consumed_form, prepared_as, approved_for, both_locked, prepare_locked,
  prepare_recovery, approve_locked, approve_recovery, validated, validate_recovery,
  consume_recovery,
}
use todo_pipeline_orch.Recovery.Auto.{
  max_generations, max_reissues, attempt_refusal, is_operator_pending, next_reissues, retracting,
  standing, standing_event, grant, on_context, on_evidence, on_intent, policy, decide_on, decide,
  under_locks, auto_approve_resume,
}
use todo_pipeline_orch.Recovery.Policy.{
  IsJustified, auto_approve_resume-IsJustified, auto_approve_resume-operator,
}
use todo_pipeline_orch.Recovery.Single.{consume_recovery-once}
use todo_pipeline_orch.Recovery.Approved.{approve_recovery-validate}
use todo_pipeline_orch.Recovery.Pending.{offered, auto_approve_resume-pending}
use todo_pipeline_orch.Recovery.Bounded.{approvals, approvals-bound}
use todo_pipeline_orch.Recovery.Samples.{evidence, changed, timed_out_once, calls}

program : Unit {0}
unfolding lookup insert any all contains is_identifier is_sha256 cgroup_beq validate_legacy_cgroup
    registration_beq process_beq validate load decode locked write worktree_lock_id worktree_locked
    upgrade peers_resolved assert_worktree_peers_resolved outside_worktree register register_locked
    new_record pin admit admit_locked admission authorizes admitted_record new_attempt
    approved_context authorize_retry authorize_locked retry_guard update_attempt update_locked
    update_record update_guard apply_changes keeps_set extends perform perform_all preview_beq
    of_option snapshot snapshot_of is_event_id is_intent read_file read_optional write_intent
    retract_stale_tick_approval is_spent pending_event pending_locked pending_auto_recovery
    invalidate_locked invalidate_recovery consumed_form prepared_as approved_for both_locked
    prepare_locked prepare_recovery approve_locked approve_recovery validated validate_recovery
    consume_recovery attempt_refusal is_operator_pending next_reissues retracting standing
    standing_event grant on_context on_evidence on_intent policy decide_on decide under_locks
    auto_approve_resume approvals
program = tt

-- The store in which an attempt timed out.
over : Store
over = perform_all timed_out_once empty

approved_four_times : approvals "e" calls over ≡ 4
unfolding program over
approved_four_times = refl

approvals-bound_example : approvals "e" calls over ≤ max_reissues + 1
approvals-bound_example = approvals-bound "e" calls over

auto_approve_resume-IsJustified_example :
    IsJustified env "e" max_generations over
      (auto_approve_resume env evidence "e" max_generations resume false over).0
unfolding program over
auto_approve_resume-IsJustified_example =
    auto_approve_resume-IsJustified env evidence "e" max_generations resume false over refl

-- The record of the store, as it is read.
abbrev held : Record
held = elim (load env "e" over) [ ok r ↦ r | err e ↦ new_record "e" fields ]

abbrev last_held : Attempt
last_held = elim (get_last? held.attempts) [ some a ↦ a | none ↦ new_attempt env held none ]

auto_approve_resume-pending_example :
    (pending_auto_recovery env "e" max_generations
      (auto_approve_resume env evidence "e" max_generations resume false over).1).0
    ≡ ok (
        offered last_held
          (auto_approve_resume env evidence "e" max_generations resume false over).0.event_id)
unfolding program over
auto_approve_resume-pending_example =
    auto_approve_resume-pending env evidence "e" max_generations resume false over held last_held
      refl refl refl refl refl refl

-- The preview that an operator prepares, and the stores after the preparation and the approval.
abbrev preview : Preview
preview = elim (prepare_recovery env evidence "e" resume over).0 [
  | ok p ↦ p
  | err e ↦ record {
    execution_id = "";
    event_id = "";
    generation = 0;
    mode = resume;
    registration_sha256 = "";
    head = "";
    branch = "";
    worktree = "";
    work_sha256 = "";
    context = "";
  }
]

readied : Store
readied = (prepare_recovery env evidence "e" resume over).1

allowed : Store
allowed = (approve_recovery env evidence "e" preview readied).1

approve_recovery-validate_example :
    (validate_recovery env evidence "e" preview.event_id
      (approve_recovery env evidence "e" preview readied).1).0
    ≡ ok preview
unfolding program over readied
approve_recovery-validate_example =
    approve_recovery-validate env evidence "e" preview readied preview.event_id refl

consume_recovery-once_example :
    (validate_recovery env changed "e" preview.event_id
      (consume_recovery env evidence "e" preview.event_id allowed).1).0
    ≢ ok preview
unfolding program over readied allowed
consume_recovery-once_example =
    consume_recovery-once env env evidence changed "e" preview.event_id preview.event_id allowed
      preview preview refl

auto_approve_resume-operator_example :
    ((auto_approve_resume env changed "e" max_generations resume false readied).0.approved ≡ false)
    × ((auto_approve_resume env changed "e" max_generations resume false readied).1 ≡ readied)
unfolding program over readied
auto_approve_resume-operator_example =
    auto_approve_resume-operator env changed "e" max_generations resume false readied
      (operator_form prepared preview) refl refl
