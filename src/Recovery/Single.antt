-- ===== src/Recovery/Single.antt =====
-- A consumed intent, and the calls that may follow it.
use todo_pipeline_orch.Prelude.{
  String, true, false, Option, none, some, ◌≡◌, ◌≢◌, ap, ◌∙◌, arith, ◌==◌, string_eq, text_iff,
  ◌&&◌,
}
use mathlib.Core.Path.{subst}
use todo_pipeline_orch.Effects.{ok, require, >>=-eq-ok, no_approved_event}
use todo_pipeline_orch.Execution.Env.{Env}
use todo_pipeline_orch.Execution.Store.{Store}
use todo_pipeline_orch.Execution.Keeps.{and_then-eq-ok}
use todo_pipeline_orch.Recovery.Types.{Intent, is_approved, Preview, preview_eq}
use todo_pipeline_orch.Recovery.Evidence.{Evidence, snapshot}
use todo_pipeline_orch.Recovery.Intents.{is_intent, read_optional}
use todo_pipeline_orch.Recovery.Reading.{read_optional-IsRead, read_optional-write_intent}
use todo_pipeline_orch.Recovery.Operator.{
  consumed_form, approved_for, validated, validate_recovery, consume_recovery,
}
use todo_pipeline_orch.Recovery.Locks.{both_locked-eq-ok}

consumed_form-is_intent :
    (id : String) (i : Intent) → is_intent id i ≡ true → is_intent id (consumed_form i) ≡ true
unfolding is_intent consumed_form
consumed_form-is_intent id i valid = ground (arith, valid)

consumed_form-status : (i : Intent) → is_approved (consumed_form i).status ≡ false
unfolding consumed_form
consumed_form-status i = ground arith

-- An intent in use: read, approved, and of the event.
record IsInUse (id event : String) (s : Store) (i : Intent) : Type 0 where
  found : read_optional id s ≡ ok (some i)
  granted : is_approved i.status ≡ true
  named : i.preview.event_id ≡ event

approved_for-eq-ok :
    (event : String) (found : Option Intent) (j : Intent)
    → approved_for event found ≡ ok j
    → (found ≡ some j) × (is_approved j.status ≡ true) × (j.preview.event_id ≡ event)
unfolding approved_for
approved_for-eq-ok event none j e = absurd (cc)
approved_for-eq-ok event (some i) j e =
    let (_, _, _) =
      >>=-eq-ok (require (is_approved i.status && i.preview.event_id == event) no_approved_event) _
        e in
    ground (arith, e, text_iff i.preview.event_id event)

module _ (env : Env) (evidence : Evidence) (id event : String) (s : Store) where
  validated-IsInUse : (i : Intent) → validated env evidence id event s ≡ ok i → IsInUse id event s i
  unfolding validated
  validated-IsInUse i e =
      let (found, read, e₁) = >>=-eq-ok (read_optional id s) _ e in
      let (j, chosen, e₂) = >>=-eq-ok (approved_for event found) _ e₁ in
      let (some_j, granted, named) = approved_for-eq-ok event found j chosen in
      let (now, _, e₃) = >>=-eq-ok (snapshot env evidence id j.preview.mode event none s) _ e₂ in
      let same : j ≡ i = ground (arith, e₃) in
      subst (IsInUse id event s) same
        (record { found = read ∙ ap ok some_j; granted = granted; named = named })

  -- What is read after a consumption is no approval.
  not_approved_for :
      (i : Intent) (q : Intent)
      → read_optional id s ≡ ok (some i)
      → is_approved i.status ≡ false
      → validated env evidence id event s ≢ ok q
  not_approved_for i q found spent e =
      let in_use = validated-IsInUse q e in
      ground (arith, found, in_use.found, in_use.granted, spent)

module _ (env env' : Env) (evidence evidence' : Evidence) (id : String) where
  -- After an approval was consumed, no event of the execution validates: whatever the evidence, the
  -- environment and the event asked for.
  pub consume_recovery-once :
      (event again : String) (s : Store) (p q : Preview)
      → (consume_recovery env evidence id event s).0 ≡ ok p
      → (validate_recovery env' evidence' id again (consume_recovery env evidence id event s).1).0
        ≢ ok q
  unfolding consume_recovery validate_recovery
  consume_recovery-once event again s p q e e' =
      let (ran, e₁) = both_locked-eq-ok env evidence id _ s e in
      let (i, valid, wrote, _) = and_then-eq-ok (validated env evidence id event s) _ s e₁ in
      let in_use = validated-IsInUse env evidence id event s i valid in
      let read = read_optional-IsRead id s in_use.found in
      let (_, e₂) = both_locked-eq-ok env' evidence' id _ _ e' in
      let (j, valid', _, _) = and_then-eq-ok (validated env' evidence' id again _) _ _ e₂ in
      not_approved_for env' evidence' id again _ (consumed_form i) j
        (rw (ran, wrote)
          (read_optional-write_intent id (consumed_form i) i.preview s read.named
            (consumed_form-is_intent id i read.valid)))
        (consumed_form-status i) valid'
