-- ===== src/TickLock/Acquire.antt =====
-- `TickLock` of tick.py, one step for each call to the file system.
use todo_pipeline_orch.Prelude.{
  ℕ, zero, suc, ◌+◌, Bool, true, false, Option, none, some, List, [], ◌∷◌, ◌≡◌, ltb, if◌then◌else◌,
}

-- `tick.lock`: when it was last changed, which is when it was made or an entry of it came or went, and
-- when `holder.json` in it was written.
pub record LockDir : Type 0 where
  pub changed : ℕ
  pub holder : Option ℕ

-- Where a tick is in `acquire`, by the call that it makes next. The sweep of `_try_sweep_stale` has the
-- points from `checking` to `removing`. `held` is `TickLockHeld`, and `failed` any other exception.
pub data Point : Type 0 where
  start checking probing aging_dir aging_holder unlinking removing retrying : Point
  bootstrapping inside releasing leaving : Point
  finished held failed : Point

-- `lock_dir.mkdir()`, with where a tick goes on after it and where `FileExistsError` takes it.
abbrev make_dir : ℕ → Point → Point → Option LockDir → Point × Option LockDir
make_dir now made taken none = (made, some (record { changed = now; holder = none }))
make_dir now made taken (some d) = (taken, some d)

-- `lock_dir.rmdir()`, with `OSError` passed over: a directory that is gone, or that holds a file.
abbrev remove_dir : Option LockDir → Option LockDir
remove_dir none = none
remove_dir (some d) = elim d.holder [ none ↦ none | some _ ↦ some d ]

abbrev holder_of : Option LockDir → Option ℕ
holder_of none = none
holder_of (some d) = d.holder

-- `holder.unlink()`, where there is one.
abbrev without_holder : ℕ → Option LockDir → Option LockDir
without_holder now none = none
without_holder now (some d) = elim d.holder [
  | none ↦ some d
  | some _ ↦ some (record { changed = now; holder = none })
]

-- `holder.write_text(...)`
abbrev with_holder : ℕ → LockDir → LockDir
with_holder now d = record {
  changed = elim d.holder [ none ↦ now | some _ ↦ d.changed ];
  holder = some now;
}

-- The next call of a tick at the time `now`, with `max_age` seconds to a stale lock.
unfoldable pub step : ℕ → ℕ → Point → Option LockDir → Point × Option LockDir
step max_age now start d = make_dir now bootstrapping checking d
step max_age now checking none = (retrying, none)
step max_age now checking (some d) = (probing, some d)
step max_age now probing d = elim (holder_of d) [
  | none ↦ (aging_dir, d)
  | some _ ↦ (aging_holder, d)
]
step max_age now aging_dir none = (failed, none)
step max_age now aging_dir (some d) =
    (if ltb (d.changed + max_age) now then removing else retrying, some d)
step max_age now aging_holder d = elim (holder_of d) [
  | none ↦ (failed, d)
  | some written ↦ (if ltb (written + max_age) now then unlinking else retrying, d)
]
step max_age now unlinking d = elim (holder_of d) [
  | none ↦ (failed, d)
  | some _ ↦ (removing, without_holder now d)
]
step max_age now removing d = (retrying, remove_dir d)
step max_age now retrying d = make_dir now bootstrapping held d
step max_age now bootstrapping none = (failed, none)
step max_age now bootstrapping (some d) = (inside, some (with_holder now d))
step max_age now inside d = (releasing, d)
step max_age now releasing d = (leaving, without_holder now d)
step max_age now leaving d = (finished, remove_dir d)
step max_age now finished d = (finished, d)
step max_age now held d = (held, d)
step max_age now failed d = (failed, d)

-- The ticks, and the lock directory that they share.
pub record Contest : Type 0 where
  pub points : List Point
  pub lock_dir : Option LockDir

-- The tick at place `i` makes its next call.
unfoldable pub advance : ℕ → ℕ → ℕ → List Point → Option LockDir → List Point × Option LockDir
advance max_age now i [] d = ([], d)
advance max_age now zero (p ∷ ps) d = let (p', d') = step max_age now p d in (p' ∷ ps, d')
advance max_age now (suc i) (p ∷ ps) d = let (ps', d') = advance max_age now i ps d in (p ∷ ps', d')

unfoldable pub move : ℕ → ℕ → ℕ → Contest → Contest
move max_age now i c =
    let (ps, d) = advance max_age now i c.points c.lock_dir in record { points = ps; lock_dir = d }

-- `n` ticks that all begin, and no lock directory.
abbrev pub begin : ℕ → List Point
begin zero = []
begin (suc n) = start ∷ begin n

-- The calls that take a stale lock away.
abbrev pub is_sweeping : Point → Bool
is_sweeping unlinking = true
is_sweeping removing = true
is_sweeping _ = false

unfoldable pub sweeps_at : ℕ → List Point → Bool
sweeps_at i [] = false
sweeps_at zero (p ∷ ps) = is_sweeping p
sweeps_at (suc i) (p ∷ ps) = sweeps_at i ps

-- A tick owns the lock from the directory that it made to the directory that it removes.
abbrev pub owns : Point → ℕ
owns bootstrapping = 1
owns inside = 1
owns releasing = 1
owns leaving = 1
owns _ = 0

unfoldable pub owners : List Point → ℕ
owners [] = 0
owners (p ∷ ps) = owns p + owners ps

-- The contests that `n` ticks come to in any interleaving of their calls in which none takes a stale
-- lock away.
pub data Reached (max_age n : ℕ) : Contest → Type 0 where
  starts : Reached max_age n (record { points = begin n; lock_dir = none })
  moves :
      (c : Contest) (now i : ℕ)
      → Reached max_age n c
      → sweeps_at i c.points ≡ false
      → Reached max_age n (move max_age now i c)
