-- ===== src/Execution/Tests.antt =====
-- Runs of the execution store, and its theorems at concrete inputs.
use todo_pipeline_orch.Prelude.{
  ℕ, ◌≢◌, arith, text_iff, String, none, some, length, All, init, get_last?, ◌⊎◌, List, [], ◌∷◌,
  ◌≡◌, refl, any, all, contains, string_eq, map,
}
use todo_pipeline_orch.Prelude.Dict.{lookup, insert}
use todo_pipeline_orch.Effects.{Result, ok, err, os_error}
use todo_pipeline_orch.Execution.Text.{is_identifier, is_sha256}
use todo_pipeline_orch.Execution.Cgroup.{cgroup_beq, validate_legacy_cgroup}
use todo_pipeline_orch.Execution.Env.{Env, not_synced}
use todo_pipeline_orch.Execution.Types.{registration_beq, process_beq, Attempt, Record, Status}
use todo_pipeline_orch.Execution.Validate.{validate}
use todo_pipeline_orch.Execution.Store.{
  Store, load, decode, locked, write, worktree_lock_id, worktree_locked, upgrade, peers_resolved,
  assert_worktree_peers_resolved, outside_worktree,
}
use todo_pipeline_orch.Execution.Admission.{
  register, register_locked, new_record, pin, admit, admit_locked, admission, authorizes,
  admitted_record, new_attempt, approved_context, authorize_retry, authorize_locked, retry_guard,
}
use todo_pipeline_orch.Execution.Update.{
  update_attempt, update_locked, update_record, update_guard, apply_changes, keeps_set, extends,
}
use todo_pipeline_orch.Execution.History.{IsSound, Settled}
use todo_pipeline_orch.Execution.Runs.{
  Operation, registers, updates, perform_all-AllSound, empty-AllSound, admits, perform, perform_all,
  empty, perform_all-IsSound, raised,
}
use todo_pipeline_orch.Execution.Atomic.{IsDue, IsUnsynced, perform-atomic}
use todo_pipeline_orch.Execution.Exclusive.{admit-Settled}
use todo_pipeline_orch.Execution.Registering.{register-load}
use todo_pipeline_orch.Execution.Immutable.{update_attempt-KeepsEvidence, KeepsEvidence}
use todo_pipeline_orch.Execution.Numbering.{load-generation}
use todo_pipeline_orch.Execution.Samples.{gives_up, peers, env, fields, story}

program : Unit {0}
unfolding lookup insert any all contains is_identifier is_sha256 cgroup_beq validate_legacy_cgroup
    registration_beq process_beq validate load decode locked write worktree_lock_id worktree_locked
    upgrade peers_resolved assert_worktree_peers_resolved outside_worktree register register_locked
    new_record pin admit admit_locked admission authorizes admitted_record new_attempt
    approved_context authorize_retry authorize_locked retry_guard update_attempt update_locked
    update_record update_guard apply_changes keeps_set extends perform perform_all raised
program = tt

after : Store
after = perform_all story empty

statuses : Result Record → List (ℕ × Status)
statuses (ok r) = map (λ (a : Attempt). (a.generation, a.status)) r.attempts
statuses (err e) = []

story_ends : statuses (load env "e" after) ≡ (1, Status.timed_out) ∷ (2, Status.admitted) ∷ []
unfolding program after statuses
story_ends = refl

-- The stored record of the story, read off by evaluation.
abbrev second : Record
second = elim (load env "e" after) [ ok r ↦ r | err e ↦ new_record "e" fields ]

perform_all-IsSound_example : IsSound second
unfolding program after
perform_all-IsSound_example = perform_all-IsSound story "e" second refl

-- The directory is not synced after the record is replaced.
abbrev unsynced : Env
unsynced = record env { write = λ id. not_synced }

-- The operation raises, and its record is there.
unsynced_registers :
    (raised unsynced (registers "e" fields "p") empty ≡ some os_error)
    × (perform unsynced (registers "e" fields "p") empty
        ≡ perform env (registers "e" fields "p") empty)
unfolding program
unsynced_registers = (refl, refl)

perform-atomic_example :
    (perform unsynced (registers "e" fields "p") empty ≡ empty)
    ⊎ IsUnsynced unsynced "e" empty
        (IsDue unsynced (registers "e" fields "p") empty)
        os_error
        (perform unsynced (registers "e" fields "p") empty)
unfolding program
perform-atomic_example = perform-atomic unsynced (registers "e" fields "p") empty os_error refl

-- A record as it is read after the operations.
abbrev record_after : List (Env × Operation) → String → Record
record_after ops id = elim (load env id (perform_all ops empty)) [
  | ok r ↦ r
  | err e ↦ new_record id fields
]

abbrev admitted_first : Record
admitted_first = elim (admit env "e" none (perform_all peers empty)).0 [
  | ok p ↦ p.0
  | err e ↦ new_record "e" fields
]

names_differ : ◌≢◌ {A = String} "f" "e"
names_differ e = ground (arith, (text_iff "f" "e").1 e)

admit-Settled_example :
    All Settled (record_after peers "f").attempts × All Settled (init admitted_first.attempts)
unfolding program
admit-Settled_example =
    admit-Settled env "e" none (perform_all peers empty) admitted_first "f" (record_after peers "f")
      (perform_all-AllSound peers empty empty-AllSound) refl refl names_differ refl

register-load_example :
    (load env "e" (register env "e" fields "p" empty).1 ≡ ok (new_record "e" (pin env fields "p")))
    × (pin env fields "p" ≡ pin env fields "p")
    × ((lookup "e" empty.records ≡ none) ⊎ ((register env "e" fields "p" empty).1 ≡ empty))
unfolding program
register-load_example =
    register-load env "e" fields "p" empty (new_record "e" (pin env fields "p")) refl

abbrev begun : List (Env × Operation)
begun = (env, registers "e" fields "p") ∷ (env, admits "e" none) ∷ []

abbrev ended : List (Env × Operation)
ended =
    (env, registers "e" fields "p") ∷ (env, admits "e" none) ∷ (env, updates "e" 1 gives_up) ∷ []

abbrev last_of : Record → Attempt
last_of r = elim (get_last? r.attempts) [ some a ↦ a | none ↦ new_attempt env r none ]

update_attempt-KeepsEvidence_example :
    (init (record_after ended "e").attempts ≡ init (record_after begun "e").attempts)
    × ((record_after ended "e").registration ≡ (record_after begun "e").registration)
    × ((record_after ended "e").approved_recovery ≡ (record_after begun "e").approved_recovery)
    × KeepsEvidence (last_of (record_after begun "e")) (last_of (record_after ended "e"))
unfolding program
update_attempt-KeepsEvidence_example =
    update_attempt-KeepsEvidence env "e" 1 gives_up (perform_all begun empty)
      (record_after begun "e") (record_after ended "e") (last_of (record_after begun "e"))
      (last_of (record_after ended "e")) refl refl refl refl

load-generation_example : (last_of second).generation ≡ length second.attempts
unfolding program after
load-generation_example = load-generation env "e" after second (last_of second) refl refl
