-- ===== src/Recovery/Samples.antt =====
-- Small inputs for the tests of recovery.
use todo_pipeline_orch.Prelude.{false, some, none, List, [], ◌∷◌}
use todo_pipeline_orch.Execution.Env.{Env}
use todo_pipeline_orch.Execution.Runs.{Operation, registers, admits, updates}
use todo_pipeline_orch.Execution.Samples.{env, fields, gives_up}
use todo_pipeline_orch.Recovery.Types.{resume}
use todo_pipeline_orch.Recovery.Evidence.{Evidence, missing}
use todo_pipeline_orch.Recovery.Auto.{max_generations}
use todo_pipeline_orch.Recovery.Bounded.{Call, approves, invalidates}

-- A worktree at one head, with a token for the next event.
abbrev pub evidence : Evidence
evidence = record {
  journal = λ id. missing;
  recovery_context =
      λ id generation. some (record { head = "h"; legacy_evidence_absent = false; text = "c" });
  work_sha256 = λ id. some "w";
  operator_context = λ mode context. context.text;
  digest = λ registration. "d";
  token = "0123456789abcdef0123456789abcdef";
  in_worker = false;
}

-- The same worktree, changed, with another token.
abbrev pub changed : Evidence
changed = record evidence {
  work_sha256 = λ id. some "x";
  token = "fedcba9876543210fedcba9876543210";
}

-- One execution whose only attempt timed out.
abbrev pub timed_out_once : List (Env × Operation)
timed_out_once =
    (env, registers "e" fields "p") ∷ (env, admits "e" none) ∷ (env, updates "e" 1 gives_up) ∷ []

-- Approvals, on evidence that changes every time, and one withdrawal.
abbrev pub calls : List Call
calls =
    approves env evidence max_generations resume false
    ∷ approves env changed max_generations resume false
    ∷ approves env evidence max_generations resume false
    ∷ invalidates env "0123456789abcdef0123456789abcdef"
    ∷ approves env changed max_generations resume false
    ∷ approves env evidence max_generations resume false
    ∷ []
