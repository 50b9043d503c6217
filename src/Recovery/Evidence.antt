-- ===== src/Recovery/Evidence.antt =====
-- What agent_recovery.py asks of the worktree and of the progress journal, and its `_snapshot`.
use todo_pipeline_orch.Prelude.{
  ℕ, String, Bool, true, false, Option, none, some, ◌&&◌, not, get_last?,
}
use todo_pipeline_orch.Effects.{
  Result, ok, raise, require, ◌>>=◌, ◌>>◌, no_prior_attempt, unconfirmed_attempt, legacy_evidence,
  worktree_evidence, progress_invalid,
}
use todo_pipeline_orch.Execution.Env.{Env}
use todo_pipeline_orch.Execution.Types.{Registration, Attempt, Record, is_settled}
use todo_pipeline_orch.Execution.Store.{Store, load}
use todo_pipeline_orch.Recovery.Types.{Mode, resume, recovery_only, Preview}

-- What `ProgressJournal.recovery_context` returns: the head, whether progress evidence is missing,
-- and the whole context as a JSON text.
pub record Context : Type 0 where
  pub head : String
  pub legacy_evidence_absent : Bool
  pub text : String

-- How `ProgressJournal._load` ends: no file, an `ExecutionError`, or a journal.
pub data Journal : Type 0 where
  missing broken readable : Journal

pub record Evidence : Type 0 where
  pub journal : String → Journal
  -- `recovery_context(generation)`, `none` where it raises `ExecutionError`.
  pub recovery_context : String → ℕ → Option Context
  -- The digest of the diffs, the status and the untracked files; `none` where Git fails, or a path
  -- escapes or is no regular file.
  pub work_sha256 : String → Option String
  -- The context with the operator's mode, and in `recovery_only` the changed instruction.
  pub operator_context : Mode → Context → String
  -- `_digest(registration)`
  pub digest : Registration → String
  -- `secrets.token_hex(16)`
  pub token : String
  -- A worker's variables are in the environment.
  pub in_worker : Bool

unfoldable pub of_option : {A : Type 0} → Option A → Result A → Result A
of_option none otherwise = otherwise
of_option (some a) otherwise = ok a

abbrev pub is_resume : Mode → Bool
is_resume resume = true
is_resume recovery_only = false

module _ (env : Env) (evidence : Evidence) where
  -- `_snapshot`, for an attempt that may be recovered. `given` is the caller's context, if any.
  unfoldable pub snapshot_of :
      String → Mode → String → Option Context → Record → Attempt → Result Preview
  unfolding of_option
  snapshot_of execution_id mode event_id given r attempt = do
    require (is_settled attempt) unconfirmed_attempt
    context ← of_option given (
        of_option (evidence.recovery_context execution_id attempt.generation)
          (raise progress_invalid))
    require (not (is_resume mode && context.legacy_evidence_absent)) legacy_evidence
    work ← of_option (evidence.work_sha256 execution_id) (raise worktree_evidence)
    ok (record {
      execution_id = execution_id;
      event_id = event_id;
      generation = attempt.generation;
      mode = mode;
      registration_sha256 = evidence.digest r.registration;
      head = context.head;
      branch = r.registration.branch;
      worktree = r.registration.worktree;
      work_sha256 = work;
      context = evidence.operator_context mode context;
    })

  unfoldable pub snapshot : String → Mode → String → Option Context → Store → Result Preview
  unfolding snapshot_of
  snapshot execution_id mode event_id given s = do
    r ← load env execution_id s
    elim (get_last? r.attempts) [
      | none ↦ raise no_prior_attempt
      | some attempt ↦ snapshot_of execution_id mode event_id given r attempt
    ]
