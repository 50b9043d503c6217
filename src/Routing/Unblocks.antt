-- ===== src/Routing/Unblocks.antt =====
-- How often a card is unblocked, over any sequence of a run's ticks.
use todo_pipeline_orch.Prelude.{
  ℕ, ◌+◌, ◌≤◌, String, Option, none, some, List, [], ◌∷◌, ◌≡◌, arith, ◌&&◌, not, ◌==◌, if_ind, inl,
  inr, Option-cases, ltb, nat_eq, string_eq, option_eq, if◌then◌else◌,
}
use todo_pipeline_orch.Execution.Env.{Env}
use todo_pipeline_orch.Execution.Store.{Store}
use todo_pipeline_orch.Recovery.Evidence.{Evidence}
use todo_pipeline_orch.Routing.Types.{
  Board, Worker, World, Marker, recovery_admission_stalled, gave_up, daemon_alive, resumable,
}
use todo_pipeline_orch.Routing.Cards.{
  is_marked, Unblocked, did, did_not, unwritten, unblock_once, Route, last_attempt,
  approved_generation,
}
use todo_pipeline_orch.Routing.Route.{
  route_recovery, approving, on_unblock, stalled, on_worker, prodded, prod, on_attempt,
}
use todo_pipeline_orch.Execution.Types.{Attempt, is_terminal}
use todo_pipeline_orch.Routing.Tally.{
  times, unrecorded, IsTallied, IsTallied-widen, unblock_once-IsTallied,
}
use todo_pipeline_orch.Routing.Tallying.{refuse-IsTallied, approving-IsTallied}

-- One tick of the phase `key`, with the execution's files as it finds them.
pub record Tick : Type 0 where
  pub env : Env
  pub evidence : Evidence
  pub board : Board
  pub identity : String
  pub key : String
  pub worker : Option Worker
  pub store : Store

-- The run after a sequence of ticks.
unfoldable pub run_ticks : List Tick → World → World
run_ticks [] w = w
run_ticks (t ∷ rest) w =
    run_ticks rest
      (route_recovery t.env t.evidence t.board t.identity t.key t.worker
        (record w { store = t.store })).1

module _ (env : Env) (evidence : Evidence) (board : Board) (identity key : String) (m : Marker)
    (n : ℕ) where
  -- At most one unblock of a tick has no marker.
  abbrev After : Route × World → Type 0
  After p = IsTallied m (n + unrecorded board.unblocks) p.1

  unchanged : (w : World) → IsTallied m n w → IsTallied m (n + unrecorded board.unblocks) w
  unchanged w h = IsTallied-widen m n _ w (omega arith) h

  on_unblock-After :
      (p : Unblocked × World)
      → IsTallied m (n + unrecorded board.unblocks) p.1
      → After (on_unblock env evidence board identity key p)
  unfolding on_unblock
  on_unblock-After (did, w) h = h
  on_unblock-After (did_not, w) h =
      refuse-IsTallied env evidence board identity key m _ recovery_admission_stalled w h
  on_unblock-After (unwritten, w) h = h

  stalled-After :
      (k : Worker) (w : World)
      → IsTallied m n w
      → After (stalled env evidence board identity key k w)
  unfolding stalled
  stalled-After k w h =
      if_ind After (k.status == "blocked")
        (λ _.
          on_unblock-After (unblock_once env board key k.generation w)
            (unblock_once-IsTallied env board key k.generation m n w h))
        (λ _.
          refuse-IsTallied env evidence board identity key m _ recovery_admission_stalled w
            (unchanged w h))

  approving-After :
      (a : Attempt) (w : World)
      → IsTallied m n w
      → After (approving env evidence board identity key a w)
  approving-After a w h =
      approving-IsTallied env evidence board identity key m _ a w (unchanged w h)

  on_worker-After :
      (k : Option Worker) (a : Attempt) (w : World)
      → IsTallied m n w
      → After (on_worker env evidence board identity key k a w)
  unfolding on_worker
  on_worker-After none a w h = approving-After a w h
  on_worker-After (some k) a w h =
      if_ind After (not (gave_up k)) (λ _. unchanged w h)
        (λ _.
          if_ind After
            (ltb a.generation k.generation
              && approved_generation identity w.store == some a.generation)
            (λ _. stalled-After k w h) (λ _. approving-After a w h))

  prodded-After :
      (p : Unblocked × World)
      → IsTallied m (n + unrecorded board.unblocks) p.1
      → After (prodded env evidence board identity key p)
  unfolding prodded
  prodded-After (did, w) h = h
  prodded-After (did_not, w) h = h
  prodded-After (unwritten, w) h = h

  prod-After :
      (k : Option Worker) (a : Attempt) (w : World)
      → IsTallied m n w
      → After (prod env evidence board identity key k a w)
  unfolding prod
  prod-After none a w h = unchanged w h
  prod-After (some k) a w h =
      if_ind After (k.status == "blocked" && daemon_alive env board a)
        (λ _.
          prodded-After (unblock_once env board key k.generation w)
            (unblock_once-IsTallied env board key k.generation m n w h))
        (λ _. unchanged w h)

  route_recovery-After :
      (k : Option Worker) (w : World)
      → IsTallied m n w
      → After (route_recovery env evidence board identity key k w)
  unfolding route_recovery on_attempt
  route_recovery-After k w h = elim (Option-cases (last_attempt env identity w.store)) [
    | inl unread ↦ rw (route_recovery, unread) (unchanged w h)
    | inr (a, last) ↦
        rw (route_recovery, last)
          (if_ind After (not (is_terminal a.status)) (λ _. prod-After k a w h)
            (λ _.
              if_ind After (not (resumable a)) (λ _. unchanged w h) (λ _. on_worker-After k a w h)))
  ]

-- The ticks in which an unblock took effect and no marker tells of it.
abbrev pub without_marker : List Tick → ℕ
without_marker [] = 0
without_marker (t ∷ rest) = let more = without_marker rest in unrecorded t.board.unblocks + more

run_ticks-IsTallied :
    (m : Marker) (n : ℕ) (ticks : List Tick) (w : World)
    → IsTallied m n w
    → IsTallied m (n + without_marker ticks) (run_ticks ticks w)
unfolding run_ticks
run_ticks-IsTallied m n [] w h = IsTallied-widen m n _ w (omega arith) h
run_ticks-IsTallied m n (t ∷ rest) w h =
    let w₁ = record w { store = t.store } in
    let one =
      route_recovery-After t.env t.evidence t.board t.identity t.key m n t.worker w₁
        (record { tallied = h.tallied }) in
    IsTallied-widen m (n + unrecorded t.board.unblocks + without_marker rest) _ _ (omega arith)
      (run_ticks-IsTallied m (n + unrecorded t.board.unblocks) rest _ one)

zero-bound : (m : Marker) (w : World) → 0 ≤ (if is_marked m w.markers then 1 else 0) + 0
zero-bound m w = omega arith

IsTallied-bound : (m : Marker) (n : ℕ) (w : World) → IsTallied m n w → times m w.unblocked ≤ 1 + n
IsTallied-bound m n w h = ground (arith, h.tallied)

-- Over any sequence of ticks of a run in which no card was unblocked before, whatever the executions'
-- files, the board and the phases are at each of them, a card is unblocked at most once in each of
-- its generations, as far as the names of the markers tell the phases apart; and at most once more for
-- each tick whose unblock command takes effect where it times out or its marker's write raises.
pub run_ticks-unblocked :
    (m : Marker) (ticks : List Tick) (w : World)
    → w.unblocked ≡ []
    → times m (run_ticks ticks w).unblocked ≤ 1 + without_marker ticks
run_ticks-unblocked m ticks w fresh =
    let bound =
      IsTallied-bound m (0 + without_marker ticks) (run_ticks ticks w)
        (run_ticks-IsTallied m 0 ticks w (record { tallied = rw fresh (zero-bound m w) })) in
    omega (arith, bound)
