-- ===== src/Routing/Tests.antt =====
-- Runs of the routing, and its theorems at concrete inputs.
use todo_pipeline_orch.Prelude.{◌+◌, List, [], ◌∷◌, ◌≤◌, some, ◌≡◌, refl, any, all, contains}
use todo_pipeline_orch.Prelude.Dict.{lookup, insert}
use todo_pipeline_orch.Execution.Text.{is_identifier, is_sha256}
use todo_pipeline_orch.Execution.Cgroup.{cgroup_beq, validate_legacy_cgroup}
use todo_pipeline_orch.Execution.Types.{registration_beq, process_beq}
use todo_pipeline_orch.Execution.Validate.{validate}
use todo_pipeline_orch.Execution.Store.{
  Store, load, decode, locked, write, worktree_lock_id, worktree_locked, upgrade, peers_resolved,
  assert_worktree_peers_resolved, outside_worktree,
}
use todo_pipeline_orch.Execution.Admission.{
  register, register_locked, new_record, pin, admit, admit_locked, admission, authorizes,
  admitted_record, new_attempt, approved_context, authorize_retry, authorize_locked, retry_guard,
}
use todo_pipeline_orch.Execution.Update.{
  update_attempt, update_locked, update_record, update_guard, apply_changes, keeps_set, extends,
}
use todo_pipeline_orch.Execution.Runs.{perform, perform_all, empty}
use todo_pipeline_orch.Execution.Samples.{env}
use todo_pipeline_orch.Recovery.Types.{preview_beq}
use todo_pipeline_orch.Recovery.Evidence.{of_option, snapshot, snapshot_of}
use todo_pipeline_orch.Recovery.Intents.{
  is_event_id, is_intent, read_file, read_optional, write_intent, retract_stale_tick_approval,
  is_spent, pending_event, pending_locked, pending_auto_recovery, invalidate_locked,
  invalidate_recovery,
}
use todo_pipeline_orch.Recovery.Operator.{
  consumed_form, prepared_as, approved_for, both_locked, prepare_locked, prepare_recovery,
  approve_locked, approve_recovery, validated, validate_recovery, consume_recovery,
}
use todo_pipeline_orch.Recovery.Auto.{
  attempt_refusal, is_operator_pending, next_reissues, retracting, standing, standing_event, grant,
  on_context, on_evidence, on_intent, policy, decide_on, decide, under_locks, auto_approve_resume,
}
use todo_pipeline_orch.Recovery.Bounded.{approvals}
use todo_pipeline_orch.Recovery.Samples.{evidence, timed_out_once}
use todo_pipeline_orch.Recovery.Intents.{recovery_state}
use todo_pipeline_orch.Routing.Types.{
  not_marked, Marker, unblock_marker, resumable, identity_matches, daemon_alive,
}
use todo_pipeline_orch.Routing.Cards.{
  last_attempt, approved_generation, is_marked, unblock_once, is_none, retire_cards, refuse,
  abandon_run,
}
use todo_pipeline_orch.Routing.Route.{
  after_retiring, issue, declined, on_verdict, approving, on_unblock, prodded, stalled, on_worker,
  prod, on_attempt, route_recovery,
}
use todo_pipeline_orch.Routing.Ends.{Leaves, route_recovery-Leaves}
use todo_pipeline_orch.Routing.Unblocks.{Tick, run_ticks, without_marker, run_ticks-unblocked}
use todo_pipeline_orch.Routing.Tally.{times}
use todo_pipeline_orch.Routing.Samples.{board, worker, world, running_once, tick_of}

program : Unit {0}
unfolding lookup insert any all contains is_identifier is_sha256 cgroup_beq validate_legacy_cgroup
    registration_beq process_beq validate load decode locked write worktree_lock_id worktree_locked
    upgrade peers_resolved assert_worktree_peers_resolved outside_worktree register register_locked
    new_record pin admit admit_locked admission authorizes admitted_record new_attempt
    approved_context authorize_retry authorize_locked retry_guard update_attempt update_locked
    update_record update_guard apply_changes keeps_set extends perform perform_all preview_beq
    of_option snapshot snapshot_of is_event_id is_intent read_file read_optional write_intent
    retract_stale_tick_approval is_spent pending_event pending_locked pending_auto_recovery
    invalidate_locked invalidate_recovery consumed_form prepared_as approved_for both_locked
    prepare_locked prepare_recovery approve_locked approve_recovery validated validate_recovery
    consume_recovery attempt_refusal is_operator_pending next_reissues retracting standing
    standing_event grant on_context on_evidence on_intent policy decide_on decide under_locks
    auto_approve_resume approvals resumable identity_matches daemon_alive unblock_marker
    last_attempt approved_generation recovery_state is_marked unblock_once is_none retire_cards
    refuse abandon_run after_retiring issue declined on_verdict approving on_unblock prodded stalled
    on_worker prod on_attempt route_recovery run_ticks
program = tt

-- The store in which an attempt timed out, and the one in which it runs.
over : Store
over = perform_all timed_out_once empty

busy : Store
busy = perform_all running_once empty

reissues :
    (route_recovery env evidence board "e" "build" (some worker) (world over)).1.issued ≡ 2 ∷ []
unfolding program over
reissues = refl

route_recovery-Leaves_example :
    Leaves "build"
      (world over)
      (route_recovery env evidence board "e" "build" (some worker) (world over))
route_recovery-Leaves_example =
    route_recovery-Leaves env evidence board "e" "build" (some worker) (world over)

abbrev twice : List Tick
twice = tick_of busy ∷ tick_of busy ∷ []

abbrev marker : Marker
marker = unblock_marker env "build" 1

unblocks_once : times marker (run_ticks twice (world busy)).unblocked ≡ 1
unfolding program busy
unblocks_once = refl

-- A marker that is not written lets the next tick unblock again.
abbrev unmarked : Tick
unmarked = record (tick_of busy) { board = record board { unblocks = not_marked } }

unblocks_twice :
    (times marker (run_ticks (unmarked ∷ tick_of busy ∷ []) (world busy)).unblocked ≡ 2)
    × (without_marker (unmarked ∷ tick_of busy ∷ []) ≡ 1)
unfolding program busy
unblocks_twice = (refl, refl)

run_ticks-unblocked_example :
    times marker (run_ticks twice (world busy)).unblocked ≤ 1 + without_marker twice
run_ticks-unblocked_example = run_ticks-unblocked marker twice (world busy) refl
