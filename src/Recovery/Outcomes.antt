-- ===== src/Recovery/Outcomes.antt =====
-- The ends that `auto_approve_resume` comes to, with what holds at each.
use todo_pipeline_orch.Prelude.{
  ℕ, String, Bool, true, false, Option, none, some, ◌≡◌, ◌⊎◌, refl, arith, string_eq, nat_eq, inl,
  inr, if_ind, Bool-cases, Option-cases, get_last?, ltb,
}
use todo_pipeline_orch.Effects.{Exception, Result, ok, err, Action, Result-cases}
use todo_pipeline_orch.Execution.Env.{Env}
use todo_pipeline_orch.Execution.Types.{Attempt, Record}
use todo_pipeline_orch.Execution.Store.{
  Store, load, locked, worktree_lock_id, assert_worktree_peers_resolved,
}
use todo_pipeline_orch.Execution.Keeps.{locked-cases}
use todo_pipeline_orch.Recovery.Types.{Mode, Intent, Preview, preview_eq}
use todo_pipeline_orch.Recovery.Evidence.{
  Evidence, Context, Journal, missing, broken, readable, snapshot,
}
use todo_pipeline_orch.Recovery.Intents.{read_optional, write_intent, retract_stale_tick_approval}
use todo_pipeline_orch.Recovery.Auto.{
  Reason, recovery_approved, recovery_already_approved, Verdict, verdict, is_approval,
  attempt_refusal, is_operator_pending, next_reissues, tick_intent, failure, caught, retracting,
  standing_event, grant, on_context, on_evidence, on_intent, policy, decide_on, decide, under_locks,
  auto_approve_resume, max_reissues,
}

module _ (env : Env) (evidence : Evidence) (id : String) (limit : ℕ) (mode : Mode) where
  -- How a run on the attempt `a` of the record `r` may end: with the verdict `v` and the store `s'`.
  pub data Outcome (r : Record) (a : Attempt) (s : Store) (v : Verdict) (s' : Store) : Type 0 where
    refuses : v.approved ≡ false → s' ≡ s → Outcome r a s v s'
    withdraws :
        v.approved ≡ false → s' ≡ retract_stale_tick_approval id a.generation s → Outcome r a s v s'
    keeps :
        (existing : Option Intent) (event : String)
        → read_optional id s ≡ ok existing
        → is_operator_pending existing ≡ false
        → standing_event env evidence id limit mode r a.generation existing s ≡ some event
        → v ≡ verdict recovery_already_approved a.generation (some event) (some mode)
        → s' ≡ s
        → Outcome r a s v s'
    grants :
        (existing : Option Intent) (context : Context) (preview : Preview)
        → read_optional id s ≡ ok existing
        → is_operator_pending existing ≡ false
        → snapshot env evidence id mode evidence.token (some context) s ≡ ok preview
        → ltb max_reissues (next_reissues existing a.generation) ≡ false
        → v ≡ verdict recovery_approved a.generation (some evidence.token) (some mode)
        → s' ≡ (write_intent id (tick_intent preview (next_reissues existing a.generation)) tt s).1
        → Outcome r a s v s'

  -- The outcome of an action on the store, as the verdict that its caller sees.
  abbrev Ends : Record → Attempt → Store → Result Verdict × Store → Type 0
  Ends r a s p = Outcome r a s (caught a.generation p.0) p.1

  module _ (r : Record) (a : Attempt) (s : Store) (existing : Option Intent)
      (found : read_optional id s ≡ ok existing)
      (clear : is_operator_pending existing ≡ false) where
    grant-Ends :
        (context : Context)
        → Ends r a s (grant env evidence id limit mode existing a.generation context s)
    unfolding grant retracting write_intent
    grant-Ends context = go (snapshot env evidence id mode evidence.token (some context) s) refl
      where
        go :
            (n : Result Preview)
            → snapshot env evidence id mode evidence.token (some context) s ≡ n
            → Ends r a s (grant env evidence id limit mode existing a.generation context s)
        go (err _) e = rw (e, grant) (withdraws refl refl)
        go (ok preview) e =
            elim (Bool-cases (ltb max_reissues (next_reissues existing a.generation))) [
              | inl many ↦ rw (e, grant, many) (withdraws refl refl)
              | inr few ↦
                  rw (e, grant, few) (grants existing context preview found clear e few refl refl)
            ]

    on_context-Ends : Ends r a s (on_context env evidence id limit mode existing a.generation s)
    unfolding on_context retracting
    on_context-Ends = go (evidence.recovery_context id a.generation) refl
      where
        go :
            (c : Option Context)
            → evidence.recovery_context id a.generation ≡ c
            → Ends r a s (on_context env evidence id limit mode existing a.generation s)
        go none e = rw (e, on_context) (withdraws refl refl)
        go (some c) e =
            rw (e, on_context)
              (if_ind (Ends r a s) c.legacy_evidence_absent (λ _. withdraws refl refl)
                (λ _. grant-Ends c))

    on_evidence-Ends : Ends r a s (on_evidence env evidence id limit mode existing a.generation s)
    unfolding on_evidence retracting
    on_evidence-Ends = go (evidence.journal id) refl
      where
        go :
            (j : Journal)
            → evidence.journal id ≡ j
            → Ends r a s (on_evidence env evidence id limit mode existing a.generation s)
        go broken q = rw (q, on_evidence) (withdraws refl refl)
        go missing q = rw (q, on_evidence) on_context-Ends
        go readable q = rw (q, on_evidence) on_context-Ends

  on_intent-Ends :
      (r : Record) (a : Attempt) (s : Store) (existing : Option Intent)
      → read_optional id s ≡ ok existing
      → Ends r a s (on_intent env evidence id limit mode r a.generation existing s)
  unfolding on_intent
  on_intent-Ends r a s existing found = elim (Bool-cases (is_operator_pending existing)) [
    | inl pending ↦ rw (pending, on_intent) (refuses refl refl)
    | inr clear ↦
        elim (Option-cases (standing_event env evidence id limit mode r a.generation existing s)) [
          | inl lapsed ↦ rw (clear, on_intent, lapsed) (on_evidence-Ends r a s existing found clear)
          | inr (event, stands) ↦
              rw (clear, on_intent, stands) (keeps existing event found clear stands refl refl)
        ]
  ]

  attempt_refusal-ne-approval :
      (a : Attempt) (reason : Reason)
      → attempt_refusal limit a ≡ some reason
      → is_approval reason ≡ false
  unfolding attempt_refusal
  attempt_refusal-ne-approval a reason e = ground arith

  failure-ne-approval : (g : ℕ) (e : Exception) → (failure g e).approved ≡ false
  failure-ne-approval g e = ground arith

  policy-Ends :
      (r : Record) (a : Attempt) (s : Store) → Ends r a s (policy env evidence id limit mode r a s)
  unfolding policy retracting
  policy-Ends r a s = elim (Result-cases (assert_worktree_peers_resolved env id s)) [
    | inr (x, busy) ↦ rw (busy, policy) (refuses refl refl)
    | inl (_, free) ↦ elim (Option-cases (attempt_refusal limit a)) [
      | inr (reason, no_way) ↦
          rw (free, policy, no_way) (withdraws (attempt_refusal-ne-approval a reason no_way) refl)
      | inl allowed ↦ elim (Result-cases (read_optional id s)) [
        | inl (existing, found) ↦
            rw (free, policy, allowed, found) (on_intent-Ends r a s existing found)
        | inr (x, unread) ↦
            rw (free, policy, allowed, unread) (refuses (failure-ne-approval a.generation x) refl)
      ]
    ]
  ]

  -- Only an attempt that the policy allows, with no unresolved peer, is approved.
  policy-allowed :
      (r : Record) (a : Attempt) (s : Store)
      → ((caught a.generation (policy env evidence id limit mode r a s).0).approved ≡ false)
        ⊎ (attempt_refusal limit a ≡ none) × (assert_worktree_peers_resolved env id s ≡ ok tt)
  unfolding policy retracting
  policy-allowed r a s = elim (Result-cases (assert_worktree_peers_resolved env id s)) [
    | inr (x, busy) ↦ inl (rw (busy, policy))
    | inl (_, free) ↦ elim (Option-cases (attempt_refusal limit a)) [
      | inr (reason, no_way) ↦
          inl (rw (free, policy, no_way) (attempt_refusal-ne-approval a reason no_way))
      | inl allowed ↦ inr (allowed, free)
    ]
  ]

  -- How a call may end: refused with the store unchanged, or with an outcome of the policy on the
  -- last attempt of the record that was loaded.
  pub data Ended (s : Store) (v : Verdict) (s' : Store) : Type 0 where
    stopped : v.approved ≡ false → s' ≡ s → Ended s v s'
    decided :
        (r : Record) (a : Attempt)
        → load env id s ≡ ok r
        → get_last? r.attempts ≡ some a
        → (v.approved ≡ false)
          ⊎ (attempt_refusal limit a ≡ none) × (assert_worktree_peers_resolved env id s ≡ ok tt)
        → Outcome r a s v s'
        → Ended s v s'

  decide_on-Ended :
      (r : Record) (s : Store)
      → load env id s ≡ ok r
      → Ended s
          (caught 0 (decide_on env evidence id limit mode r s).0)
          (decide_on env evidence id limit mode r s).1
  unfolding decide_on
  decide_on-Ended r s loaded = elim (Option-cases (get_last? r.attempts)) [
    | inl no_attempt ↦ rw (no_attempt, decide_on) (stopped refl refl)
    | inr (a, last) ↦
        rw (last, decide_on) (decided r a loaded last (policy-allowed r a s) (policy-Ends r a s))
  ]

  decide-Ended :
      (s : Store)
      → Ended s
          (caught 0 (decide env evidence id limit mode s).0)
          (decide env evidence id limit mode s).1
  unfolding decide
  decide-Ended s = elim (Result-cases (load env id s)) [
    | inr (e, unread) ↦ rw (unread, decide) (stopped (failure-ne-approval 0 e) refl)
    | inl (r, loaded) ↦ rw (loaded, decide) (decide_on-Ended r s loaded)
  ]

  locked-Ended :
      (lock : String) (m : Action Store Verdict) (s : Store)
      → Ended s (caught 0 (m s).0) (m s).1
      → Ended s (caught 0 (locked env lock m s).0) (locked env lock m s).1
  locked-Ended lock m s h = elim (locked-cases env lock m s) [
    | inl ran ↦ rw ran h
    | inr (e, stuck) ↦ rw stuck (stopped (failure-ne-approval 0 e) refl)
  ]

  pub auto_approve_resume-Ended :
      (held : Bool) (s : Store)
      → Ended s
          (auto_approve_resume env evidence id limit mode held s).0
          (auto_approve_resume env evidence id limit mode held s).1
  unfolding auto_approve_resume under_locks
  auto_approve_resume-Ended true s = locked-Ended id _ s (decide-Ended s)
  auto_approve_resume-Ended false s = elim (Result-cases (worktree_lock_id env id s)) [
    | inl (lock, known) ↦
        rw (known, under_locks) (locked-Ended lock _ s (locked-Ended id _ s (decide-Ended s)))
    | inr (e, unknown) ↦ rw (unknown, under_locks) (stopped (failure-ne-approval 0 e) refl)
  ]
