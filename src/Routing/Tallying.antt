-- ===== src/Routing/Tallying.antt =====
-- What a tick of `route_recovery` does besides unblocking: it neither unblocks a card nor changes a
-- marker (phase_recovery.py).
use todo_pipeline_orch.Prelude.{ℕ, String, true, arith, not, if_ind, nat_eq, string_eq, option_eq}
use todo_pipeline_orch.Execution.Env.{Env}
use todo_pipeline_orch.Recovery.Evidence.{Evidence}
use todo_pipeline_orch.Routing.Types.{Board, World, Marker, Code, verdict_code}
use todo_pipeline_orch.Routing.Cards.{
  Route, wait, archive_unconfirmed, Retired, retired, live, unconfirmed, retire_cards, refuse,
  abandon_run,
}
use todo_pipeline_orch.Routing.Route.{
  after_retiring, issue, declined, on_verdict, approving, is_transient, is_exhausted,
}
use todo_pipeline_orch.Execution.Types.{Attempt}
use todo_pipeline_orch.Recovery.Types.{resume}
use todo_pipeline_orch.Recovery.Auto.{max_generations, auto_approve_resume}
use todo_pipeline_orch.Routing.Tally.{IsTallied, IsTallied-of}

module _ (env : Env) (evidence : Evidence) (board : Board) (identity key : String) (m : Marker)
    (n : ℕ) where
  retire_cards-IsTallied : (w : World) → IsTallied m n w → IsTallied m n (retire_cards board w).1
  unfolding retire_cards
  retire_cards-IsTallied w h =
      IsTallied-of m n w (retire_cards board w).1 (ground arith) (ground arith) h

  abbrev Tallies : Route × World → Type 0
  Tallies p = IsTallied m n p.1

  after_retiring-IsTallied :
      (next : World → Route × World) (w : World)
      → ((w' : World) → IsTallied m n w' → IsTallied m n (next w').1)
      → IsTallied m n w
      → IsTallied m n (after_retiring env evidence board identity key next w).1
  unfolding after_retiring
  after_retiring-IsTallied next w keeps h = go (retire_cards board w) (retire_cards-IsTallied w h)
    where
      go :
          (p : Retired × World)
          → IsTallied m n p.1
          → Tallies (elim p.0 [
            | retired ↦ next p.1
            | live ↦ (wait, p.1)
            | unconfirmed ↦ (archive_unconfirmed, p.1)
          ])
      go (retired, w') t = keeps w' t
      go (live, w') t = t
      go (unconfirmed, w') t = t

  -- Neither a blocked marker nor an abandoned run is an unblock.
  pub refuse-IsTallied :
      (code : Code) (w : World) → IsTallied m n w → IsTallied m n (refuse key code w).1
  unfolding refuse
  refuse-IsTallied code w h = record { tallied = h.tallied }

  abandon_run-IsTallied :
      (code : Code) (w : World) → IsTallied m n w → IsTallied m n (abandon_run board code w)
  unfolding abandon_run
  abandon_run-IsTallied code w h =
      if_ind (IsTallied m n) board.registered (λ _. record { tallied = h.tallied }) (λ _. h)

  pub approving-IsTallied :
      (a : Attempt) (w : World)
      → IsTallied m n w
      → IsTallied m n (approving env evidence board identity key a w).1
  unfolding approving on_verdict declined issue
  approving-IsTallied a w h =
      let p = auto_approve_resume env evidence identity max_generations resume true w.store in
      let code = verdict_code p.0.reason in
      let w₁ = record w { store = p.1 } in
      let h₁ : IsTallied m n w₁ = record { tallied = h.tallied } in
      if_ind Tallies (not p.0.approved)
        (λ _.
          if_ind Tallies (is_transient p.0.reason) (λ _. h₁)
            (λ _.
              if_ind Tallies (is_exhausted p.0.reason)
                (λ _.
                  after_retiring-IsTallied _ w₁
                    (λ w' t. refuse-IsTallied code _ (abandon_run-IsTallied code w' t)) h₁)
                (λ _. refuse-IsTallied code w₁ h₁)))
        (λ _. after_retiring-IsTallied _ w₁ (λ w' t. record { tallied = t.tallied }) h₁)
