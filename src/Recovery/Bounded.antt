-- ===== src/Recovery/Bounded.antt =====
-- How often the tick can approve one attempt, over any sequence of its calls.
use todo_pipeline_orch.Prelude.{
  ℕ, ◌≤◌, ◌+◌, String, Bool, some, List, [], ◌∷◌, ◌≡◌, refl, sym, arith, string_eq, nat_eq,
  if◌then◌else◌, inl, inr, get_last?,
}
use todo_pipeline_orch.Prelude.Dict.{lookup}
use todo_pipeline_orch.Effects.{ok}
use todo_pipeline_orch.Execution.Env.{Env}
use todo_pipeline_orch.Execution.Types.{Attempt, Record}
use todo_pipeline_orch.Execution.Store.{Store, load}
use todo_pipeline_orch.Execution.Keeps.{locked-cases}
use todo_pipeline_orch.Execution.Loading.{load-IsLoaded}
use todo_pipeline_orch.Recovery.Types.{Mode}
use todo_pipeline_orch.Recovery.Evidence.{Evidence}
use todo_pipeline_orch.Recovery.Intents.{
  write_intent, retract_stale_tick_approval, invalidate_locked, invalidate_recovery,
}
use todo_pipeline_orch.Recovery.Auto.{
  Verdict, recovery_approved, next_reissues, max_reissues, auto_approve_resume,
}
use todo_pipeline_orch.Recovery.Outcomes.{
  Outcome, refuses, withdraws, keeps, grants, Ended, stopped, decided, auto_approve_resume-Ended,
}
use todo_pipeline_orch.Recovery.Previews.{snapshot-IsPreviewOf}
use todo_pipeline_orch.Recovery.Budget.{
  on_file, load-on_file, budget, budget-retract, budget-invalidate, budget-tick_intent, budget-next,
  budget-found, budget-bound,
}

-- A call that the tick makes for an execution, in its own environment and with its own evidence.
pub data Call : Type 0 where
  approves : (env : Env) (evidence : Evidence) (limit : ℕ) (mode : Mode) (held : Bool) → Call
  invalidates : (env : Env) (event : String) → Call

-- A verdict that wrote a new approval counts as one.
abbrev newly : Verdict → ℕ
newly v = if v.approved then elim v.reason [ recovery_approved ↦ 1 | _ ↦ 0 ] else 0

-- How many new approvals the calls give.
unfoldable pub approvals : String → List Call → Store → ℕ
approvals id [] s = 0
approvals id (approves env evidence limit mode held ∷ rest) s =
    let (v, s') = auto_approve_resume env evidence id limit mode held s in
    newly v + approvals id rest s'
approvals id (invalidates env event ∷ rest) s =
    approvals id rest (invalidate_recovery env id event s).1

-- The files of records stay as they are.
retract_stale_tick_approval-records :
    (id : String) (h : ℕ) (s : Store) → (retract_stale_tick_approval id h s).records ≡ s.records
unfolding retract_stale_tick_approval write_intent
retract_stale_tick_approval-records id h s = ground arith

invalidate_recovery-records :
    (env : Env) (id event : String) (s : Store)
    → (invalidate_recovery env id event s).1.records ≡ s.records
unfolding invalidate_recovery invalidate_locked write_intent
invalidate_recovery-records env id event s =
    elim (locked-cases env id (invalidate_locked env id event) s) [
      | inr (e, stuck) ↦ rw stuck refl
      | inl ran ↦ rw ran (ground arith)
    ]

module _ (env : Env) (evidence : Evidence) (id : String) (limit : ℕ) (mode : Mode) where
  Outcome-records :
      (r : Record) (a : Attempt) (s : Store) (v : Verdict) (s' : Store)
      → Outcome env evidence id limit mode r a s v s'
      → s'.records ≡ s.records
  unfolding write_intent
  Outcome-records r a s v s' (refuses _ same) = rw same refl
  Outcome-records r a s v s' (withdraws _ same) =
      rw same (retract_stale_tick_approval-records id a.generation s)
  Outcome-records r a s v s' (keeps _ _ _ _ _ _ same) = rw same refl
  Outcome-records r a s v s' (grants _ _ _ _ _ _ _ _ same) = rw same refl

  Outcome-budget :
      (r : Record) (a : Attempt) (s : Store) (v : Verdict) (s' : Store)
      → load env id s ≡ ok r
      → get_last? r.attempts ≡ some a
      → Outcome env evidence id limit mode r a s v s'
      → newly v + budget id a.generation s' ≤ budget id a.generation s
  Outcome-budget r a s v s' loaded last (refuses no_way same) = rw (no_way, same) (omega arith)
  Outcome-budget r a s v s' loaded last (withdraws no_way same) =
      rw (no_way, same) (omega (arith, budget-retract id a.generation a.generation s))
  Outcome-budget r a s v s' loaded last (keeps _ _ _ _ _ e same) = rw (e, same) (omega arith)
  Outcome-budget r a s v s' loaded last (grants existing c p found _ taken few e same) =
      let of =
        snapshot-IsPreviewOf env evidence id mode evidence.token (some c) s r a p loaded last
          taken in
      let named = (load-IsLoaded env id s loaded).named in
      rw (e, same)
        (omega (
          arith,
          budget-tick_intent id a.generation p (next_reissues existing a.generation) s named
              of.numbered,
          budget-next id a.generation existing few,
          budget-found id a.generation s existing found,
        ))

  Ended-budget :
      (s : Store) (v : Verdict) (s' : Store)
      → Ended env evidence id limit mode s v s'
      → newly v + budget id (on_file (lookup id s.records)) s'
        ≤ budget id (on_file (lookup id s.records)) s
  Ended-budget s v s' (stopped no_way same) = rw (no_way, same) (omega arith)
  Ended-budget s v s' (decided r a loaded last _ o) =
      rw (sym (load-on_file env id s r a loaded last)) (Outcome-budget r a s v s' loaded last o)

  Ended-records :
      (s : Store) (v : Verdict) (s' : Store)
      → Ended env evidence id limit mode s v s'
      → s'.records ≡ s.records
  Ended-records s v s' (stopped _ same) = rw same refl
  Ended-records s v s' (decided r a _ _ _ o) = Outcome-records r a s v s' o

approvals-budget :
    (id : String) (g : ℕ) (calls : List Call) (s : Store)
    → on_file (lookup id s.records) ≡ g
    → approvals id calls s ≤ budget id g s
unfolding approvals
approvals-budget id g [] s at_g = omega arith
approvals-budget id g (approves env evidence limit mode held ∷ rest) s at_g =
    let p = auto_approve_resume env evidence id limit mode held s in
    let ended = auto_approve_resume-Ended env evidence id limit mode held s in
    let kept = Ended-records env evidence id limit mode s p.0 p.1 ended in
    let once = Ended-budget env evidence id limit mode s p.0 p.1 ended in
    let later = approvals-budget id g rest p.1 (rw kept at_g) in
    omega (arith, rw at_g at once, later)
approvals-budget id g (invalidates env event ∷ rest) s at_g =
    rw (sym (budget-invalidate id g env event s)) (
      approvals-budget id g rest (invalidate_recovery env id event s).1
        (rw (invalidate_recovery-records env id event s) at_g))

-- Between two admissions the tick gives an execution at most `max_reissues + 1` new approvals, over
-- any sequence of its calls, in any environments, with any evidence, limits and modes, and with
-- approvals withdrawn between them.
pub approvals-bound :
    (id : String) (calls : List Call) (s : Store) → approvals id calls s ≤ max_reissues + 1
approvals-bound id calls s =
    let g = on_file (lookup id s.records) in
    omega (arith, approvals-budget id g calls s refl, budget-bound id g s)
