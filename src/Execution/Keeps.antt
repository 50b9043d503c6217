-- ===== src/Execution/Keeps.antt =====
-- What actions on the store keep, and what they leave when they raise: one rule for each way in which
-- agent_execution.py builds an action.
use todo_pipeline_orch.Prelude.{
  string_eq, String, true, ◌≡◌, refl, arith, ◌⊎◌, inl, inr, Bool-cases,
}
use todo_pipeline_orch.Effects.{
  Exception, execution_error, lock_contended, lock_unconfirmed, invalid_identity, Result, ok, err,
  Action, and_then,
}
use todo_pipeline_orch.Execution.Text.{is_identifier}
use todo_pipeline_orch.Execution.Env.{
  Env, Write, complete, too_large, not_replaced, not_synced, Lock, free, contended, unavailable,
}
use todo_pipeline_orch.Prelude.Dict.{insert}
use todo_pipeline_orch.Execution.Types.{Record}
use todo_pipeline_orch.Execution.Store.{
  write, holds, Store, locked, worktree_locked, worktree_lock_id, assert_worktree_peers_resolved,
}

-- `m` keeps `P`, whether it returns or raises.
abbrev pub Keeps : {A : Type 0} → (Store → Type 0) → Action Store A → Type 0
Keeps P m = (s : Store) → P s → P (m s).1

-- An exception at `s` leaves the files as they were, or as `P` says.
abbrev pub Leaves : {A : Type 0} → (Exception → Store → Type 0) → Action Store A → Store → Type 0
Leaves P m s = (e : Exception) → (m s).0 ≡ err e → ((m s).1 ≡ s) ⊎ P e (m s).1

module _ {A : Type 0} (env : Env) (id : String) (r : Record) (v : A) (s : Store) where
  -- A write replaces the record, or leaves the files.
  pub write-cases :
      ((write env id r v s).1 ≡ record s { records = insert id (holds r) s.records })
      ⊎ ((write env id r v s).1 ≡ s)
  unfolding write
  write-cases = on (env.write id) refl
    where
      on :
          (w : Write)
          → env.write id ≡ w
          → ((write env id r v s).1 ≡ record s { records = insert id (holds r) s.records })
            ⊎ ((write env id r v s).1 ≡ s)
      on complete e = inl (rw (write, e))
      on too_large e = inr (rw (write, e))
      on not_replaced e = inr (rw (write, e))
      on not_synced e = inl (rw (write, e))

  pub write-eq-ok : {a : A} → (write env id r v s).0 ≡ ok a → (v ≡ a) × (env.write id ≡ complete)
  unfolding write
  write-eq-ok h = ground arith

module _ {A B : Type 0} where
  pub and_then-Keeps :
      (P : Store → Type 0) (r : Result A) (f : A → Action Store B)
      → ((a : A) → Keeps P (f a))
      → Keeps P (and_then r f)
  and_then-Keeps P (ok a) f k = k a
  and_then-Keeps P (err e) f k = λ s h. h

  pub and_then-Leaves :
      (P : Exception → Store → Type 0) (r : Result A) (f : A → Action Store B) (s : Store)
      → ((a : A) → r ≡ ok a → Leaves P (f a) s)
      → Leaves P (and_then r f) s
  and_then-Leaves P (ok a) f s k = k a refl
  and_then-Leaves P (err e) f s k = λ e' h. inl refl

  pub and_then-eq-ok :
      (r : Result A) (f : A → Action Store B) (s : Store) {b : B}
      → (and_then r f s).0 ≡ ok b
      → (a : A) × (r ≡ ok a) × (and_then r f s ≡ f a s) × ((f a s).0 ≡ ok b)
  and_then-eq-ok (ok a) f s h = (a, refl, refl, h)
  and_then-eq-ok (err e) f s h = cc

  -- The rest may use that `r` was a value.
  pub and_then_ind :
      (P : Store → Type 0) (r : Result A) (f : A → Action Store B) (s : Store)
      → ((a : A) → r ≡ ok a → P (f a s).1)
      → P s
      → P (and_then r f s).1
  and_then_ind P (ok a) f s k h = k a refl
  and_then_ind P (err e) f s k h = h

module _ {A : Type 0} (env : Env) where
  pub locked-Keeps :
      (id : String) (P : Store → Type 0) (m : Action Store A)
      → Keeps P m
      → Keeps P (locked env id m)
  unfolding locked
  locked-Keeps id P m k s h = ground (arith, k s h)

  -- A body runs, or it does not and the files stay.
  pub locked-cases :
      (id : String) (m : Action Store A) (s : Store)
      → (locked env id m s ≡ m s) ⊎ ((e : Exception) × (locked env id m s ≡ (err e, s)))
  unfolding locked
  locked-cases id m s = elim (Bool-cases (is_identifier id)) [
    | inr other ↦ inr (execution_error invalid_identity, rw other)
    | inl named ↦ on (env.lock id) refl named
  ]
    where
      on :
          (l : Lock)
          → env.lock id ≡ l
          → is_identifier id ≡ true
          → (locked env id m s ≡ m s) ⊎ ((e : Exception) × (locked env id m s ≡ (err e, s)))
      on free e named = inl (rw (named, locked, e))
      on contended e named = inr (lock_contended, rw (named, locked, e))
      on unavailable e named = inr (lock_unconfirmed, rw (named, locked, e))

  pub locked-Leaves :
      (P : Exception → Store → Type 0) (id : String) (m : Action Store A) (s : Store)
      → Leaves P m s
      → Leaves P (locked env id m) s
  locked-Leaves P id m s k e h = elim (locked-cases id m s) [
    | inl ran ↦ rw ran (k e (rw ran at h))
    | inr (e', refused) ↦ inl (rw refused)
  ]

  -- A body that returned ran, in the state that the lock was taken in.
  pub locked-eq-ok :
      (id : String) (m : Action Store A) (s : Store) {a : A}
      → (locked env id m s).0 ≡ ok a
      → (locked env id m s ≡ m s) × ((m s).0 ≡ ok a)
  unfolding locked
  locked-eq-ok id m s h = ground arith

module _ {A : Type 0} (env : Env) (id : String) where
  pub worktree_locked-Keeps :
      (P : Store → Type 0) (m : Action Store A) → Keeps P m → Keeps P (worktree_locked env id m)
  unfolding worktree_locked
  worktree_locked-Keeps P m k s h =
      and_then-Keeps P (worktree_lock_id env id s) _
        (λ lock.
          locked-Keeps env lock P _
            (λ s h. and_then-Keeps P (assert_worktree_peers_resolved env id s) _ (λ _. k) s h))
        s h

  pub worktree_locked-Leaves :
      (P : Exception → Store → Type 0) (m : Action Store A) (s : Store)
      → Leaves P m s
      → Leaves P (worktree_locked env id m) s
  unfolding worktree_locked
  worktree_locked-Leaves P m s k = and_then-Leaves P (worktree_lock_id env id s) _ s (λ lock _.
      locked-Leaves env P lock _ s
        (and_then-Leaves P (assert_worktree_peers_resolved env id s) _ s (λ _ _. k)))

  pub worktree_locked-eq-ok :
      (m : Action Store A) (s : Store) {a : A}
      → (worktree_locked env id m s).0 ≡ ok a
      → (assert_worktree_peers_resolved env id s ≡ ok tt)
        × (worktree_locked env id m s ≡ m s)
        × ((m s).0 ≡ ok a)
  unfolding worktree_locked locked
  worktree_locked-eq-ok m s h = ground arith
