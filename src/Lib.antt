-- ===== src/Lib.antt =====
-- todo-pipeline-orch drives the TODOs of a repository through the phases of a profile. A tick, which
-- cron starts, selects a TODO, registers a run and creates a Kanban card for its next phase. The card's
-- worker starts a supervisor, and the supervisor runs one attempt of the phase's agent client and
-- collects its exit. This library models the parts that decide whether an attempt may start, whether a
-- failed one may be tried again, and what a tick does about it.
--
-- Execution is hermes_pipeline/agent_execution.py. A `Store` (Execution/Store) is the files of
-- `ExecutionStore`: for each execution id the record and the recovery intent. Execution/Types has the
-- record, Execution/Validate and Execution/Cgroup the checks of `_validate`, Execution/Store `load`,
-- the locks and `assert_worktree_peers_resolved`, Execution/Admission `register`, `admit` and
-- `authorize_retry`, Execution/Update `update_attempt`. An operation takes the store and returns the
-- store that it leaves, also where it raises. Records hold typed values, so the shape checks on decoded
-- JSON are what the types say, and a file that does not decode is `garbage`. Times are whole multiples
-- of a fixed unit. What Python's library and the operating system answer is an `Env` (Execution/Env):
-- advisory locks as this process finds them, how the write of a record ends, paths, digests, base64
-- and the host's boot identity. An intent is taken to be written wherever the code writes one. A run
-- of several operations gives each its own `Env`, so that other owners may act between them.
--
-- Recovery is hermes_pipeline/agent_recovery.py, over the same store. Recovery/Intents has the intent
-- file, `pending_auto_recovery` and `invalidate_recovery`; Recovery/Operator what an operator calls;
-- Recovery/Auto `auto_approve_resume`, one definition for each stretch between two of its tests.
-- Recovery/Evidence has `_snapshot`; the digest of the worktree, the progress journal and the fresh
-- token are its parameters.
--
-- Routing is hermes_pipeline/phase_recovery.py: `route_recovery` (Routing/Route) decides for a phase
-- whose card is missing or not done, and calls `auto_approve_resume` for it. A `World` (Routing/Types) is
-- the run's files and a log of the commands to the board; what the board answers during one call is a
-- `Board`.
--
-- Schedule is hermes_pipeline/phase_schedule.py: the definitions of the phases, their validation, which
-- have a worker, and how roles and keys name one another.
--
-- Circuit is hermes_pipeline/circuit.py: the counter of ticks without progress, and its alerts. Times
-- are in microseconds there, and the stored time of an alert keeps its whole seconds.
--
-- TickLock is hermes_pipeline/tick.py, the lock directory that two ticks contend for. Each call to the
-- file system is a step, and `Reached` is what any interleaving of the steps of several ticks comes to
-- while no tick takes a stale lock away.
--
-- Release is scripts/release_changesets.py: `apply_release`, from the pending changesets to the next
-- version. `Outcomes` says which of its steps raise; whether the parser accepts a changeset is given, and an
-- edit of a file that raises is taken to have written nothing.
--
-- hermes_pipeline/plan_manifest.py stands in Plan: the manifest of a document. Plan/Fence finds its block by
-- the lines that the expressions match, Plan/Manifest validates the decoded value, and Plan/Document is
-- `parse_plan_manifest`, over a `Codec`, which is what `json.loads` and the encoder answer.
--
-- WorkerResult is hermes_pipeline/result_contract.py: `parse_worker_result` over the payload of a card as
-- decoded JSON, one module for each section, and the object of `render_result_template`. A `Library` stands
-- for the search of the expression for secrets, the decimal digits and the encoded size.
--
-- WorkerResult/Git has the checks of a worker's commits there, over a `Git`, which is what Git answers in
-- the worktree, and `_verify_finish` of hermes_pipeline/todos_completion.py.
--
-- Backlog is hermes_pipeline/github_issues.py: the issues that may be selected (Backlog/Compile), and
-- how an issue's Plan is found (Backlog/Source, with two functions of hermes_pipeline/plan_manifest.py), over
-- `Files`, which is what the file system answers of a path.
--
-- Reconcile is `reconcile_schedule` of hermes_pipeline/phase_schedule.py, one tick's pass over the phases of
-- a run: Reconcile/Visit composes the routing with `Answers`, which is what the other functions that it calls
-- answer during one call; a `Run` has the files that it writes and the cards that it creates.
--
-- Decision is decision/ of hermes_pipeline: what `run_selection` keeps of the agent's answer
-- (Decision/Pick and Decision/Selection), and the files of the decisions and the outcomes with their
-- rotation (Decision/Store). An `AgentCall` is how the agent's call ends; a `Library` stands for the decimal
-- digits, `repr` and the text of a decision.
--
-- Prelude has the shared helpers (decoded JSON, texts, results as values), and Effects the exceptions
-- and the results of the execution store. No function here needs fuel: the loops are over the lists that
-- the code loops over.
--
-- Not modelled: the supervisor and its processes, the run registrations, the commands of Git, of gh and of
-- the board, the authorization of a promoted result, the completion of a TODO, the prompt of the selection and
-- the parsing of the agent's answer, and the command line.
pub mod Prelude
pub mod Effects
pub mod Execution
pub mod Recovery
pub mod Backlog
pub mod Circuit
pub mod Decision
pub mod Plan
pub mod Reconcile
pub mod Release
pub mod Routing
pub mod Schedule
pub mod TickLock
pub mod WorkerResult
