-- ===== src/Routing/Ends.antt =====
-- What each answer of `route_recovery` leaves in the run's files and on the board.
use todo_pipeline_orch.Prelude.{
  ℕ, ◌+◌, String, true, Option, none, some, [], ◌∷◌, ◌++◌, ◌≡◌, ◌⊎◌, refl, ap, ◌∙◌, arith, ◌&&◌,
  not, ◌==◌, if_ind, inl, inr, Bool-cases, Option-cases, ltb, nat_eq, string_eq, option_eq,
}
use todo_pipeline_orch.Execution.Env.{Env}
use todo_pipeline_orch.Execution.Types.{Attempt, is_terminal}
use todo_pipeline_orch.Recovery.Types.{resume}
use todo_pipeline_orch.Recovery.Evidence.{Evidence}
use todo_pipeline_orch.Recovery.Auto.{
  recovery_generation_exhausted, Reason, max_generations, auto_approve_resume,
}
use todo_pipeline_orch.Routing.Types.{
  unblock_marker, Marker, Unblock, succeeds, fails, times_out, not_marked, Board, Worker, World,
  Code, verdict_code, recovery_admission_stalled, gave_up, resumable, daemon_alive,
}
use todo_pipeline_orch.Routing.Cards.{
  Route, proceed, wait, reissued, refused, archive_unconfirmed, marker_unwritten, Unblocked, did,
  did_not, unwritten, last_attempt, approved_generation, unblock_once, is_marked, refuse,
  abandon_run,
}
use todo_pipeline_orch.Routing.Route.{
  is_transient, is_exhausted, issue, declined, on_verdict, approving, on_unblock, stalled,
  on_worker, prodded, prod, on_attempt, route_recovery,
}
use todo_pipeline_orch.Routing.Retiring.{Quiet, quiet, Quiet-trans, after_retiring_ind}

-- What an answer leaves: a new card only with `reissued`, a new blocked marker only with `refused`, an
-- abandoned run only with an exhausted generation's refusal.
abbrev pub Leaves : String → World → Route × World → Type 0
Leaves key w (reissued, w') =
    (g : ℕ) × (w'.issued ≡ w.issued ++ g ∷ [])
    × (w'.blocked ≡ w.blocked)
    × (w'.abandoned ≡ w.abandoned)
Leaves key w (refused, w') =
    (code : Code) × (w'.blocked ≡ some (key, code))
    × (w'.issued ≡ w.issued)
    × ((w'.abandoned ≡ w.abandoned)
        ⊎ (w'.abandoned ≡ some code) × (code ≡ verdict_code recovery_generation_exhausted))
Leaves key w (_, w') = Quiet w w'

module _ (env : Env) (evidence : Evidence) (board : Board) (identity key : String) where
  -- Neither a change to the execution's files nor an unblocked card is one of these.
  Leaves-of_Quiet :
      (w w₁ : World) (p : Route × World) → Quiet w w₁ → Leaves key w₁ p → Leaves key w p
  Leaves-of_Quiet w w₁ (reissued, w') q (g, i, b, a) =
      (g, i ∙ ap (λ l. l ++ g ∷ []) q.issued, b ∙ q.blocked, a ∙ q.abandoned)
  Leaves-of_Quiet w w₁ (refused, w') q (code, b, i, inl a) =
      (code, b, i ∙ q.issued, inl (a ∙ q.abandoned))
  Leaves-of_Quiet w w₁ (refused, w') q (code, b, i, inr a) = (code, b, i ∙ q.issued, inr a)
  Leaves-of_Quiet w w₁ (proceed, w') q h = Quiet-trans w w₁ w' q h
  Leaves-of_Quiet w w₁ (wait, w') q h = Quiet-trans w w₁ w' q h
  Leaves-of_Quiet w w₁ (archive_unconfirmed, w') q h = Quiet-trans w w₁ w' q h
  Leaves-of_Quiet w w₁ (marker_unwritten, w') q h = Quiet-trans w w₁ w' q h

  refuse-Leaves : (code : Code) (w : World) → Leaves key w (refuse key code w)
  unfolding refuse
  refuse-Leaves code w = (code, refl, refl, inl refl)

  -- The refusal of an exhausted generation, after its cards were retired.
  exhausted-Leaves :
      (code : Code) (w w' : World)
      → code ≡ verdict_code recovery_generation_exhausted
      → Quiet w w'
      → Leaves key w (refuse key code (abandon_run board code w'))
  unfolding refuse abandon_run
  exhausted-Leaves code w w' e q = elim (Bool-cases board.registered) [
    | inl yes_it ↦ rw yes_it (code, refl, q.issued, inr (refl, e))
    | inr no_it ↦ rw no_it (code, refl, q.issued, inl q.abandoned)
  ]

  is_exhausted-eq :
      (reason : Reason) → is_exhausted reason ≡ true → reason ≡ recovery_generation_exhausted
  is_exhausted-eq reason e = ground arith

  declined-Leaves :
      (reason : Reason) (w : World)
      → Leaves key w (declined env evidence board identity key reason w)
  unfolding declined
  declined-Leaves reason w =
      if_ind (Leaves key w) (is_transient reason) (λ _. quiet w)
        (λ _.
          if_ind (Leaves key w) (is_exhausted reason)
            (λ e.
              after_retiring_ind env evidence board identity key (Leaves key w) _ w
                (λ w' q _.
                  exhausted-Leaves (verdict_code reason) w w'
                    (ap verdict_code (is_exhausted-eq reason e)) q)
                (λ w' q. q) (λ w' q. q))
            (λ _. refuse-Leaves (verdict_code reason) w))

  issue-Leaves :
      (g : ℕ) (w w' : World)
      → Quiet w w'
      → Leaves key w (issue env evidence board identity key g w')
  unfolding issue
  issue-Leaves g w w' q = (g, ap (λ l. l ++ g ∷ []) q.issued, q.blocked, q.abandoned)

  approving-Leaves :
      (a : Attempt) (w : World) → Leaves key w (approving env evidence board identity key a w)
  unfolding approving on_verdict
  approving-Leaves a w =
      let p = auto_approve_resume env evidence identity max_generations resume true w.store in
      let w₁ = record w { store = p.1 } in
      Leaves-of_Quiet w w₁ _ (record { blocked = refl; abandoned = refl; issued = refl })
        (if_ind (Leaves key w₁) (not p.0.approved) (λ _. declined-Leaves p.0.reason w₁)
          (λ _.
            after_retiring_ind env evidence board identity key (Leaves key w₁) _ w₁
              (λ w' q _. issue-Leaves (a.generation + 1) w₁ w' q) (λ w' q. q) (λ w' q. q)))

  unblock_once-Quiet : (g : ℕ) (w : World) → Quiet w (unblock_once env board key g w).1
  unfolding unblock_once
  unblock_once-Quiet g w =
      if_ind (λ (p : Unblocked × World). Quiet w p.1)
        (is_marked (unblock_marker env key g) w.markers) (λ _. quiet w) (λ _. on board.unblocks)
    where
      new : Marker
      new = unblock_marker env key g

      on :
          (u : Unblock)
          → Quiet w
              (elim u as (λ _. Unblocked × World) [
                | succeeds ↦ (
                  did,
                  record w { markers = new ∷ w.markers; unblocked = w.unblocked ++ new ∷ [] },
                )
                | fails ↦ (did_not, w)
                | times_out ↦ (did_not, record w { unblocked = w.unblocked ++ new ∷ [] })
                | not_marked ↦ (unwritten, record w { unblocked = w.unblocked ++ new ∷ [] })
              ]).1
      on succeeds = record { blocked = refl; abandoned = refl; issued = refl }
      on fails = quiet w
      on times_out = record { blocked = refl; abandoned = refl; issued = refl }
      on not_marked = record { blocked = refl; abandoned = refl; issued = refl }

  on_unblock-Leaves :
      (w : World) (p : Unblocked × World)
      → Quiet w p.1
      → Leaves key w (on_unblock env evidence board identity key p)
  unfolding on_unblock
  on_unblock-Leaves w (did, w') q = q
  on_unblock-Leaves w (unwritten, w') q = q
  on_unblock-Leaves w (did_not, w') q =
      Leaves-of_Quiet w w' _ q (refuse-Leaves recovery_admission_stalled w')

  stalled-Leaves :
      (k : Worker) (w : World) → Leaves key w (stalled env evidence board identity key k w)
  unfolding stalled
  stalled-Leaves k w =
      if_ind (Leaves key w) (k.status == "blocked")
        (λ _.
          on_unblock-Leaves w (unblock_once env board key k.generation w)
            (unblock_once-Quiet k.generation w))
        (λ _. refuse-Leaves recovery_admission_stalled w)

  on_worker-Leaves :
      (k : Option Worker) (a : Attempt) (w : World)
      → Leaves key w (on_worker env evidence board identity key k a w)
  unfolding on_worker
  on_worker-Leaves none a w = approving-Leaves a w
  on_worker-Leaves (some k) a w =
      if_ind (Leaves key w) (not (gave_up k)) (λ _. quiet w)
        (λ _.
          if_ind (Leaves key w)
            (ltb a.generation k.generation
              && approved_generation identity w.store == some a.generation)
            (λ _. stalled-Leaves k w) (λ _. approving-Leaves a w))

  prodded-Leaves :
      (w : World) (p : Unblocked × World)
      → Quiet w p.1
      → Leaves key w (prodded env evidence board identity key p)
  unfolding prodded
  prodded-Leaves w (did, w') q = q
  prodded-Leaves w (did_not, w') q = q
  prodded-Leaves w (unwritten, w') q = q

  prod-Leaves :
      (k : Option Worker) (a : Attempt) (w : World)
      → Leaves key w (prod env evidence board identity key k a w)
  unfolding prod
  prod-Leaves none a w = quiet w
  prod-Leaves (some k) a w =
      if_ind (Leaves key w) (k.status == "blocked" && daemon_alive env board a)
        (λ _.
          prodded-Leaves w (unblock_once env board key k.generation w)
            (unblock_once-Quiet k.generation w))
        (λ _. quiet w)

  on_attempt-Leaves :
      (k : Option Worker) (a : Attempt) (w : World)
      → Leaves key w (on_attempt env evidence board identity key k a w)
  unfolding on_attempt
  on_attempt-Leaves k a w =
      if_ind (Leaves key w) (not (is_terminal a.status)) (λ _. prod-Leaves k a w)
        (λ _.
          if_ind (Leaves key w) (not (resumable a)) (λ _. quiet w) (λ _. on_worker-Leaves k a w))

  -- Each answer of `route_recovery` with what it leaves: `reissued` creates one card, and neither blocks
  -- nor abandons the run; `refused` writes the blocked marker for the phase, creates no card, and
  -- abandons the run at most with an exhausted generation; the other answers, an archive that is not
  -- confirmed and an unblock marker that is not written do none of these.
  pub route_recovery-Leaves :
      (k : Option Worker) (w : World)
      → Leaves key w (route_recovery env evidence board identity key k w)
  unfolding route_recovery
  route_recovery-Leaves k w = elim (Option-cases (last_attempt env identity w.store)) [
    | inl unread ↦ rw (route_recovery, unread) (quiet w)
    | inr (a, last) ↦ rw (route_recovery, last) (on_attempt-Leaves k a w)
  ]
