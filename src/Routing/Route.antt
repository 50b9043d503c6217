-- ===== src/Routing/Route.antt =====
-- `route_recovery` of phase_recovery.py, cut at its tests.
use todo_pipeline_orch.Prelude.{
  ℕ, ◌+◌, String, Bool, true, false, Option, none, some, [], ◌∷◌, ◌++◌, ◌&&◌, not, ◌==◌, nat_eq,
  string_eq, option_eq, ltb, if◌then◌else◌,
}
use todo_pipeline_orch.Execution.Env.{Env}
use todo_pipeline_orch.Execution.Types.{Attempt, is_terminal}
use todo_pipeline_orch.Recovery.Types.{resume}
use todo_pipeline_orch.Recovery.Evidence.{Evidence}
use todo_pipeline_orch.Recovery.Auto.{
  Reason, recovery_busy, recovery_approval_failed, recovery_worktree_busy,
  recovery_generation_exhausted, Verdict, max_generations, auto_approve_resume,
}
use todo_pipeline_orch.Routing.Types.{
  Board, Worker, World, verdict_code, recovery_admission_stalled, gave_up, resumable, daemon_alive,
}
use todo_pipeline_orch.Routing.Cards.{
  Route, proceed, wait, reissued, archive_unconfirmed, marker_unwritten, Unblocked, did, did_not,
  unwritten, last_attempt, approved_generation, unblock_once, retired, live, unconfirmed,
  retire_cards, refuse, abandon_run,
}

-- `TRANSIENT_REFUSALS`
abbrev pub is_transient : Reason → Bool
is_transient recovery_busy = true
is_transient recovery_approval_failed = true
is_transient recovery_worktree_busy = true
is_transient _ = false

abbrev pub is_exhausted : Reason → Bool
is_exhausted recovery_generation_exhausted = true
is_exhausted _ = false

module _ (env : Env) (evidence : Evidence) (board : Board) (identity key : String) where
  -- What follows `_retire_cards`: it waits for a live card, and an unconfirmed archive raises.
  unfoldable pub after_retiring : (World → Route × World) → World → Route × World
  after_retiring next w =
      let (how, w') = retire_cards board w in
      elim how [ retired ↦ next w' | live ↦ (wait, w') | unconfirmed ↦ (archive_unconfirmed, w') ]

  -- The call of `reissue`, which creates the card of the next generation.
  unfoldable pub issue : ℕ → World → Route × World
  issue generation w = (reissued, record w { issued = w.issued ++ generation ∷ [] })

  -- A verdict that does not approve.
  unfoldable pub declined : Reason → World → Route × World
  declined reason w =
      if is_transient reason
      then (wait, w)
      else if is_exhausted reason
      then after_retiring
          (λ w. refuse key (verdict_code reason) (abandon_run board (verdict_code reason) w)) w
      else refuse key (verdict_code reason) w

  unfoldable pub on_verdict : Attempt → Verdict → World → Route × World
  on_verdict a v w =
      if not v.approved then declined v.reason w else after_retiring (issue (a.generation + 1)) w

  -- `approve_resume`, with the worktree's lock held, and what follows.
  unfoldable pub approving : Attempt → World → Route × World
  approving a w =
      let (v, s) = auto_approve_resume env evidence identity max_generations resume true w.store in
      on_verdict a v (record w { store = s })

  -- Wait for a card that was unblocked.
  unfoldable pub on_unblock : Unblocked × World → Route × World
  on_unblock (did, w) = (wait, w)
  on_unblock (did_not, w) = refuse key recovery_admission_stalled w
  on_unblock (unwritten, w) = (marker_unwritten, w)

  -- The reissued card's worker gave up while the approval is still open.
  unfoldable pub stalled : Worker → World → Route × World
  stalled k w =
      if k.status == "blocked"
      then on_unblock (unblock_once env board key k.generation w)
      else refuse key recovery_admission_stalled w

  -- A resumable attempt, by the phase's current card.
  unfoldable pub on_worker : Option Worker → Attempt → World → Route × World
  on_worker none a w = approving a w
  on_worker (some k) a w =
      if not (gave_up k)
      then (wait, w)
      else if ltb a.generation k.generation
          && approved_generation identity w.store == some a.generation
      then stalled k w
      else approving a w

  -- The daemon still owns the attempt, whether its card was unblocked or not.
  unfoldable pub prodded : Unblocked × World → Route × World
  prodded (did, w) = (wait, w)
  prodded (did_not, w) = (wait, w)
  prodded (unwritten, w) = (marker_unwritten, w)

  -- A worker gave up on a live daemon.
  unfoldable pub prod : Option Worker → Attempt → World → Route × World
  prod none a w = (wait, w)
  prod (some k) a w =
      if k.status == "blocked" && daemon_alive env board a
      then prodded (unblock_once env board key k.generation w)
      else (wait, w)

  unfoldable pub on_attempt : Option Worker → Attempt → World → Route × World
  on_attempt worker a w =
      if not (is_terminal a.status)
      then prod worker a w
      else if not (resumable a)
      then (proceed, w)
      else on_worker worker a w

  unfoldable pub route_recovery : Option Worker → World → Route × World
  route_recovery worker w = elim (last_attempt env identity w.store) [
    | none ↦ (proceed, w)
    | some a ↦ on_attempt worker a w
  ]
