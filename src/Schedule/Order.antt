-- ===== src/Schedule/Order.antt =====
-- Which phases have a worker, and in which order.
use todo_pipeline_orch.Prelude.{
  Bool, List, [], ◌∷◌, ◌≡◌, refl, arith, ◌&&◌, not, filter, All, if◌then◌else◌, if_ind,
}
use todo_pipeline_orch.Schedule.Phases.{Phase, worker_phases}

abbrev is_boundary : Phase → Bool
is_boundary p = p.gate && p.terminal

abbrev has_worker : Phase → Bool
has_worker p = not p.gate

-- The phases before the terminal gate.
unfoldable pub before_boundary : List Phase → List Phase
before_boundary [] = []
before_boundary (p ∷ rest) =
    let later = before_boundary rest in if is_boundary p then [] else p ∷ later

-- The phases with a worker are those that are no gates and stand before the first terminal gate, in
-- their order.
pub worker_phases-eq :
    (phases : List Phase) → worker_phases phases ≡ filter has_worker (before_boundary phases)
unfolding worker_phases before_boundary filter
worker_phases-eq [] = refl
worker_phases-eq (p ∷ rest) = ground (arith, worker_phases-eq rest)

-- What holds of all phases holds of those with a worker.
pub worker_phases-All :
    (P : Phase → Type 0) (phases : List Phase) → All P phases → All P (worker_phases phases)
unfolding worker_phases
worker_phases-All P [] h = tt
worker_phases-All P (p ∷ rest) h =
    if_ind (All P) p.gate
      (λ _. if_ind (All P) p.terminal (λ _. tt) (λ _. worker_phases-All P rest h.1))
      (λ _. (h.0, worker_phases-All P rest h.1))
