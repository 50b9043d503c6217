-- ===== src/TickLock/Tests.antt =====
-- Contests for the lock, and the theorem at one of them.
use todo_pipeline_orch.Prelude.{ℕ, ◌≤◌, none, some, List, [], ◌∷◌, ◌≡◌, refl}
use todo_pipeline_orch.TickLock.Acquire.{
  inside, held, step, advance, move, Contest, begin, sweeps_at, owners, Reached, starts, moves,
}
use todo_pipeline_orch.TickLock.Exclusion.{Reached-exclusive}

program : Unit {0}
unfolding step advance move sweeps_at owners
program = tt

abbrev two : Contest
two = record { points = begin 2; lock_dir = none }

-- Each call is a tick's place and a time.
turns : List (ℕ × ℕ) → Contest → Contest
turns [] c = c
turns ((i, now) ∷ rest) c = turns rest (move 100 now i c)

-- The first takes the lock, the second is kept out, and the first leaves.
apart :
    (turns ((0, 1) ∷ (1, 2) ∷ (0, 3) ∷ (1, 4) ∷ (1, 5) ∷ (1, 6) ∷ (1, 7) ∷ []) two).points
    ≡ inside ∷ held ∷ []
unfolding program turns
apart = refl

-- A lock whose holder wrote its file at 0, with two ticks that find it at 200.
abbrev stale : Contest
stale = record { points = begin 2; lock_dir = some (record { changed = 0; holder = some 0 }) }

-- Both find the file stale; the first takes it away and enters, and then the second takes the first's
-- file away and enters too.
both_inside :
    (turns
      ((0, 200)
        ∷ (0, 200)
        ∷ (0, 200)
        ∷ (0, 200)
        ∷ (1, 200)
        ∷ (1, 200)
        ∷ (1, 200)
        ∷ (1, 200)
        ∷ (0, 201)
        ∷ (0, 201)
        ∷ (0, 201)
        ∷ (0, 201)
        ∷ (1, 202)
        ∷ (1, 202)
        ∷ (1, 202)
        ∷ (1, 202)
        ∷ [])
      stale).points
    ≡ inside ∷ inside ∷ []
unfolding program turns
both_inside = refl

-- One tick is inside, and the other waits to look at the directory.
abbrev contended : Contest
contended = move 100 2 0 (move 100 2 1 (move 100 1 0 two))

contended-Reached : Reached 100 2 contended
unfolding program
contended-Reached = moves _ 2 0 (moves _ 2 1 (moves two 1 0 starts refl) refl) refl

Reached-exclusive_example : owners contended.points ≤ 1
Reached-exclusive_example = Reached-exclusive 100 2 contended contended-Reached
