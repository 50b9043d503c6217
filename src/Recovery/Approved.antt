-- ===== src/Recovery/Approved.antt =====
-- An operator's approval, from `approve_recovery` to `validate_recovery`.
use todo_pipeline_orch.Prelude.{
  String, Bool, true, false, Option, none, some, ◌≡◌, refl, sym, ap, ◌∙◌, arith, string_eq, ==_refl,
  if◌then◌else◌,
}
use todo_pipeline_orch.Effects.{
  Fault, worker_context, Result, ok, raise, >>=-eq-ok, require-eq-ok, and_then, preview_changed,
}
use todo_pipeline_orch.Execution.Text.{is_identifier}
use todo_pipeline_orch.Execution.Env.{Env}
use todo_pipeline_orch.Execution.Store.{Store}
use todo_pipeline_orch.Execution.Keeps.{and_then-eq-ok}
use todo_pipeline_orch.Recovery.Types.{Intent, approved, Preview, preview_eq}
use todo_pipeline_orch.Recovery.Evidence.{Evidence, snapshot}
use todo_pipeline_orch.Recovery.Intents.{is_intent, read_optional, write_intent}
use todo_pipeline_orch.Recovery.Reading.{read_optional-IsRead, read_optional-write_intent}
use todo_pipeline_orch.Recovery.Operator.{
  operator_form, prepared_as, approved_for, both_locked, approve_locked, approve_recovery,
  validated, validate_recovery,
}
use todo_pipeline_orch.Recovery.Locks.{snapshot-write_intent, both_locked-eq-ok, both_locked-again}

-- A call that returned was not in a worker.
guarded-eq-ok :
    {A : Type 0} (b : Bool) (f : Fault) (x : Result A × Store) (s : Store) {a : A}
    → (if b then (raise f, s) else x).0 ≡ ok a
    → (if b then (raise f, s) else x) ≡ x
guarded-eq-ok true f x s e = absurd (cc)
guarded-eq-ok false f x s e = refl

prepared_as-eq-ok :
    (preview : Preview) (found : Option Intent) {u : Unit {0}}
    → prepared_as preview found ≡ ok u
    → (i : Intent) × (found ≡ some i) × (i.preview ≡ preview)
unfolding prepared_as
prepared_as-eq-ok preview none e = absurd (cc)
prepared_as-eq-ok preview (some i) e =
    (i, refl, ground (arith, e, preview_eq.beq_iff preview i.preview))

module _ (env : Env) (evidence : Evidence) (id : String) where
  -- An approval is used with the evidence that it was given on.
  validated-approved :
      (preview : Preview) (s : Store)
      → is_identifier id ≡ true
      → is_intent id (operator_form approved preview) ≡ true
      → snapshot env evidence id preview.mode preview.event_id none s ≡ ok preview
      → validated env evidence id preview.event_id
          (write_intent id (operator_form approved preview) preview.event_id s).1
        ≡ ok (operator_form approved preview)
  unfolding validated approved_for
  validated-approved preview s named valid now =
      let w = operator_form approved preview in
      rw
        (
          read_optional-write_intent id w preview.event_id s named valid,
          ==_refl preview.event_id,
          snapshot-write_intent env evidence id preview.mode preview.event_id w preview.event_id s,
          now,
          ==_refl preview,
        )
        refl

  approve_locked-eq-ok :
      (preview : Preview) (s : Store) (event : String)
      → (approve_locked env evidence id preview s).0 ≡ ok event
      → (is_identifier id ≡ true)
        × (is_intent id (operator_form approved preview) ≡ true)
        × (snapshot env evidence id preview.mode preview.event_id none s ≡ ok preview)
        × (event ≡ preview.event_id)
        × (approve_locked env evidence id preview s
            ≡ write_intent id (operator_form approved preview) preview.event_id s)
  unfolding approve_locked is_intent write_intent
  approve_locked-eq-ok preview s event e =
      let (_, checked, ran, e₁) = and_then-eq-ok _ _ s e in
      let (found, read, e₂) = >>=-eq-ok (read_optional id s) _ checked in
      let (_, prior, e₃) = >>=-eq-ok (prepared_as preview found) _ e₂ in
      let (now, taken, e₄) =
        >>=-eq-ok (snapshot env evidence id preview.mode preview.event_id none s) _ e₃ in
      let same : now ≡ preview =
        (preview_eq.beq_iff now preview).0 (require-eq-ok _ preview_changed e₄) in
      let (i, some_i, prepared_i) = prepared_as-eq-ok preview found prior in
      let is_read = read_optional-IsRead id s (read ∙ ap ok some_i) in
      (
        is_read.named,
        ap (λ p. is_intent id (operator_form approved p)) (sym prepared_i) ∙ is_read.valid,
        taken ∙ ap ok same,
        ground (arith, e₁),
        ran,
      )

  -- An approval that was given validates, and gives its preview back, while the evidence and the locks
  -- are as they were.
  pub approve_recovery-validate :
      (preview : Preview) (s : Store) (event : String)
      → (approve_recovery env evidence id preview s).0 ≡ ok event
      → (validate_recovery env evidence id event (approve_recovery env evidence id preview s).1).0
        ≡ ok preview
  unfolding approve_recovery validate_recovery
  approve_recovery-validate preview s event e =
      let body = approve_locked env evidence id preview in
      let outside =
        guarded-eq-ok evidence.in_worker worker_context (both_locked env evidence id body s) s e in
      let e₁ = sym (ap (λ p. p.0) outside) ∙ e in
      let (ran, e₂) = both_locked-eq-ok env evidence id body s e₁ in
      let (named, valid, now, is_event, wrote) = approve_locked-eq-ok preview s event e₂ in
      let validated_now = validated-approved preview s named valid now in
      rw (outside, ran, wrote, is_event)
        (rw
          (
            both_locked-again env evidence id body s
                (λ s.
                  and_then (validated env evidence id preview.event_id s)
                    (λ intent s. (ok intent.preview, s)) s)
                (operator_form approved preview) preview.event_id e₁,
            validated_now,
          )
          refl)
