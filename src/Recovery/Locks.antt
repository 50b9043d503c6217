-- ===== src/Recovery/Locks.antt =====
-- The two locks of an operator's call, and a change to an intent.
use todo_pipeline_orch.Prelude.{
  String, none, List, [], ◌∷◌, ◌≡◌, refl, ◌∙◌, arith, string_eq, inl, inr,
}
use todo_pipeline_orch.Effects.{ok, Action, Result-cases}
use todo_pipeline_orch.Execution.Env.{Env}
use todo_pipeline_orch.Execution.Types.{Record}
use todo_pipeline_orch.Execution.Store.{
  Store, File, locked, load, worktree_locked, worktree_lock_id, peers_resolved,
  assert_worktree_peers_resolved,
}
use todo_pipeline_orch.Execution.Keeps.{locked-eq-ok, and_then-eq-ok, worktree_locked-eq-ok}
use todo_pipeline_orch.Recovery.Types.{Intent, Mode, preview_eq}
use todo_pipeline_orch.Recovery.Evidence.{Evidence, snapshot}
use todo_pipeline_orch.Recovery.Intents.{write_intent}
use todo_pipeline_orch.Recovery.Reading.{load-write_intent}
use todo_pipeline_orch.Recovery.Operator.{both_locked}

peers_resolved-write_intent :
    {A : Type 0} (env : Env) (path j id : String) (i : Intent) (v : A) (s : Store)
    (files : List (String × File Record))
    → peers_resolved env path j (write_intent id i v s).1 files ≡ peers_resolved env path j s files
unfolding peers_resolved load write_intent
peers_resolved-write_intent env path j id i v s [] = refl
peers_resolved-write_intent env path j id i v s ((name, file) ∷ rest) =
    rw (peers_resolved-write_intent env path j id i v s rest) refl

assert_worktree_peers_resolved-write_intent :
    {A : Type 0} (env : Env) (id : String) (i : Intent) (v : A) (s : Store)
    → assert_worktree_peers_resolved env id (write_intent id i v s).1
      ≡ assert_worktree_peers_resolved env id s
unfolding assert_worktree_peers_resolved write_intent
assert_worktree_peers_resolved-write_intent env id i v s = elim (Result-cases (load env id s)) [
  | inr (x, e) ↦ rw (load-write_intent env id id i v s, e) refl
  | inl (r, e) ↦
      rw (load-write_intent env id id i v s, e)
        (peers_resolved-write_intent env (env.resolve r.registration.worktree) id id i v s
          s.records)
]

worktree_lock_id-write_intent :
    {A : Type 0} (env : Env) (id : String) (i : Intent) (v : A) (s : Store)
    → worktree_lock_id env id (write_intent id i v s).1 ≡ worktree_lock_id env id s
unfolding worktree_lock_id
worktree_lock_id-write_intent env id i v s = rw (load-write_intent env id id i v s) refl

module _ {A B : Type 0} (env : Env) where
  -- A lock that was to be had is to be had again.
  locked-again :
      (id : String) (m : Action Store A) (m' : Action Store B) (s s' : Store) {a : A}
      → (locked env id m s).0 ≡ ok a
      → locked env id m' s' ≡ m' s'
  unfolding locked
  locked-again id m m' s s' e = ground arith

module _ {A : Type 0} (env : Env) (evidence : Evidence) (id : String) (m : Action Store A)
    (s : Store) {a : A} where
  -- What ran under both locks.
  pub both_locked-eq-ok :
      (both_locked env evidence id m s).0 ≡ ok a
      → (both_locked env evidence id m s ≡ m s) × ((m s).0 ≡ ok a)
  unfolding both_locked
  both_locked-eq-ok e =
      let (_, same, e₁) = worktree_locked-eq-ok env id (locked env id m) s e in
      let (same', e₂) = locked-eq-ok env id m s e₁ in (same ∙ same', e₂)

  -- Both locks may be taken again, after a change to an intent.
  pub both_locked-again :
      {B C : Type 0} (m' : Action Store B) (i : Intent) (v : C)
      → (both_locked env evidence id m s).0 ≡ ok a
      → both_locked env evidence id m' (write_intent id i v s).1 ≡ m' (write_intent id i v s).1
  unfolding both_locked worktree_locked
  both_locked-again m' i v e =
      let (lock, known, _, e₁) = and_then-eq-ok (worktree_lock_id env id s) _ s e in
      let (_, e₂) = locked-eq-ok env lock _ s e₁ in
      let (_, free, _, e₃) = and_then-eq-ok (assert_worktree_peers_resolved env id s) _ s e₂ in
      rw (worktree_lock_id-write_intent env id i v s, known)
        (locked-again env lock _ _ s _ e₁
          ∙ (rw (assert_worktree_peers_resolved-write_intent env id i v s, free)
              (locked-again env id m m' s _ e₃)))

pub snapshot-write_intent :
    {A : Type 0} (env : Env) (evidence : Evidence) (id : String) (mode : Mode) (event : String)
    (i : Intent) (v : A) (s : Store)
    → snapshot env evidence id mode event none (write_intent id i v s).1
      ≡ snapshot env evidence id mode event none s
unfolding snapshot
snapshot-write_intent env evidence id mode event i v s = rw (load-write_intent env id id i v s) refl
