-- ===== src/TickLock/Exclusion.antt =====
-- Who owns the lock of tick.py.
use todo_pipeline_orch.Prelude.{
  ℕ, zero, suc, ◌+◌, ◌≤◌, false, Option, none, some, List, [], ◌∷◌, ◌≡◌, refl, arith,
}
use todo_pipeline_orch.TickLock.Acquire.{
  LockDir, Point, inside, releasing, step, advance, move, Contest, begin, is_sweeping, sweeps_at,
  owns, owners, Reached, starts, moves,
}

-- The tick whose holder file is in the directory.
abbrev writes : Point → ℕ
writes inside = 1
writes releasing = 1
writes _ = 0

writers : List Point → ℕ
writers [] = 0
writers (p ∷ ps) = writes p + writers ps

abbrev dirs : Option LockDir → ℕ
dirs none = 0
dirs (some d) = 1

abbrev holders : Option LockDir → ℕ
holders none = 0
holders (some d) = elim d.holder [ none ↦ 0 | some _ ↦ 1 ]

-- With `a` owners and `b` writers among the others: the directory is there for one owner, and its file
-- for one writer.
record IsFair (a b : ℕ) (own wrote : ℕ) (d : Option LockDir) : Type 0 where
  dir : own + a ≡ dirs d
  file : wrote + b ≡ holders d

step-IsFair :
    (max_age now a b : ℕ) (p : Point) (d : Option LockDir)
    → b ≤ a
    → is_sweeping p ≡ false
    → IsFair a b (owns p) (writes p) d
    → IsFair a b
        (owns (step max_age now p d).0)
        (writes (step max_age now p d).0)
        (step max_age now p d).1
unfolding step
step-IsFair max_age now a b p d le calm h = record {
  dir = ground (arith, le, calm, h.dir, h.file);
  file = ground (arith, le, calm, h.dir, h.file);
}

writes-owns : (p : Point) → writes p ≤ owns p
writes-owns p = ground arith

writers-owners : (ps : List Point) → writers ps ≤ owners ps
unfolding writers owners
writers-owners [] = omega arith
writers-owners (p ∷ ps) = omega (arith, writes-owns p, writers-owners ps)

-- With `a` owners and `b` writers besides those of the list.
advance-IsFair :
    (max_age now a b i : ℕ) (ps : List Point) (d : Option LockDir)
    → b ≤ a
    → sweeps_at i ps ≡ false
    → IsFair a b (owners ps) (writers ps) d
    → IsFair a b
        (owners (advance max_age now i ps d).0)
        (writers (advance max_age now i ps d).0)
        (advance max_age now i ps d).1
unfolding advance sweeps_at owners writers
advance-IsFair max_age now a b i [] d le calm h = h
advance-IsFair max_age now a b zero (p ∷ ps) d le calm h =
    let others = writers-owners ps in
    let before : IsFair (owners ps + a) (writers ps + b) (owns p) (writes p) d = record {
      dir = omega (arith, h.dir);
      file = omega (arith, h.file);
    } in
    let after =
      step-IsFair max_age now (owners ps + a) (writers ps + b) p d (omega (arith, le, others)) calm
        before in
    record { dir = omega (arith, after.dir); file = omega (arith, after.file) }
advance-IsFair max_age now a b (suc i) (p ∷ ps) d le calm h =
    let mine = writes-owns p in
    let before : IsFair (owns p + a) (writes p + b) (owners ps) (writers ps) d = record {
      dir = omega (arith, h.dir);
      file = omega (arith, h.file);
    } in
    let after =
      advance-IsFair max_age now (owns p + a) (writes p + b) i ps d (omega (arith, le, mine)) calm
        before in
    record { dir = omega (arith, after.dir); file = omega (arith, after.file) }

begin-owners : (n : ℕ) → owners (begin n) ≡ 0
unfolding owners
begin-owners zero = refl
begin-owners (suc n) = omega (arith, begin-owners n)

begin-writers : (n : ℕ) → writers (begin n) ≡ 0
unfolding writers
begin-writers zero = refl
begin-writers (suc n) = omega (arith, begin-writers n)

Reached-IsFair :
    (max_age n : ℕ) (c : Contest)
    → Reached max_age n c
    → IsFair 0 0 (owners c.points) (writers c.points) c.lock_dir
unfolding move
Reached-IsFair max_age n _ starts = record {
  dir = omega (arith, begin-owners n);
  file = omega (arith, begin-writers n);
}
Reached-IsFair max_age n _ (moves c now i before calm) =
    advance-IsFair max_age now 0 0 i c.points c.lock_dir (omega arith) calm
      (Reached-IsFair max_age n c before)

dirs-bound : (d : Option LockDir) → dirs d ≤ 1
dirs-bound d = ground arith

-- In any interleaving of the file system calls of any number of ticks in which none takes a stale lock
-- away, at most one tick owns the lock, from the directory that it made to the one that it removes.
pub Reached-exclusive : (max_age n : ℕ) (c : Contest) → Reached max_age n c → owners c.points ≤ 1
Reached-exclusive max_age n c r =
    omega (arith, (Reached-IsFair max_age n c r).dir, dirs-bound c.lock_dir)
