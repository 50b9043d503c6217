-- ===== src/Execution/Transitions.antt =====
-- What an admission, an authorization and an update make of one record.
use todo_pipeline_orch.Prelude.{
  ℕ, String, true, Option, none, some, List, [], ◌∷◌, ◌≡◌, ◌⊎◌, refl, sym, subst, arith, ◌==◌,
  string_eq, option_eq, text_iff, All, get_last?, init-append, Option-cases, inl, inr, nat_eq,
}
use todo_pipeline_orch.Effects.{ok, require, ◌>>◌, >>=-eq-ok, require-eq-ok, stale_attempt}
use todo_pipeline_orch.Execution.Env.{Env}
use todo_pipeline_orch.Execution.Types.{registration_eq, Attempt, Approval, Record}
use todo_pipeline_orch.Execution.Validate.{validate}
use todo_pipeline_orch.Execution.Store.{replace_last}
use todo_pipeline_orch.Execution.History.{
  Settled, Unspent, UnspentIfAny, approved_event, IsSound, All-of_init, snoc-EventsDistinct,
  replace_last-IsSound, Unspent-of_any,
}
use todo_pipeline_orch.Execution.Admission.{
  admission, authorizes, admitted_record, new_attempt, retry_guard,
}
use todo_pipeline_orch.Execution.Update.{Changes, update_record, update_guard, apply_changes}

-- An attempt is appended to an empty journal with no event, or after a settled attempt whose
-- generation the approval of the event names.
pub admission-eq-true :
    (r : Record) (event : Option String)
    → admission r event ≡ ok true
    → (get_last? r.attempts ≡ none) × (event ≡ none)
      ⊎ ((last : Attempt) × (a : Approval) × (get_last? r.attempts ≡ some last)
          × (r.approved_recovery ≡ some a)
          × (event ≡ some a.event_id)
          × (a.generation ≡ last.generation)
          × Settled last)
unfolding admission authorizes
admission-eq-true r event e = elim (Option-cases (get_last? r.attempts)) [
  | inl none_yet ↦ inl (none_yet, ground (arith, none_yet, e))
  | inr (last, at) ↦ elim (Option-cases event) [
    | inl no_event ↦ absurd (ground (arith, at, no_event, e))
    | inr (v, given) ↦ elim (Option-cases r.approved_recovery) [
      | inl lacks ↦ absurd (ground (arith, at, given, lacks, e))
      | inr (a, has) ↦ inr (
        last,
        a,
        at,
        has,
        ground (arith, at, given, has, e, text_iff a.event_id v),
        ground (arith, at, given, has, e, text_iff a.event_id v),
        ground (arith, at, given, has, e, text_iff a.event_id v),
      )
    ]
  ]
]

get_last?-eq-none : {A : Type 0} (xs : List A) → get_last? xs ≡ none → xs ≡ []
get_last?-eq-none [] e = refl
get_last?-eq-none (x ∷ []) e = cc
get_last?-eq-none (x ∷ y ∷ xs) e = absurd (cc (get_last?-eq-none (y ∷ xs) e))

pub admitted_record-IsSound :
    (env : Env) (r : Record) (event : Option String)
    → admission r event ≡ ok true
    → IsSound r
    → IsSound (admitted_record env r event)
unfolding admitted_record new_attempt
admitted_record-IsSound env r event e h = record {
  past = rw (init-append r.attempts (new_attempt env r event)) past;
  distinct = snoc-EventsDistinct r.attempts (new_attempt env r event) h.distinct spent;
  unspent = tt;
}
  where
    past : All Settled r.attempts
    past = elim (admission-eq-true r event e) [
      | inl (none_yet, _) ↦ rw (get_last?-eq-none r.attempts none_yet) tt
      | inr (last, a, at, _, _, _, over) ↦ All-of_init Settled r.attempts last at h.past over
    ]

    spent : UnspentIfAny event r.attempts
    spent = elim (admission-eq-true r event e) [
      | inl (_, no_event) ↦ rw no_event tt
      | inr (last, a, at, has, given, _, _) ↦
          subst (λ o. UnspentIfAny o r.attempts) (sym given)
            (subst (λ o. UnspentIfAny (approved_event o) r.attempts) has h.unspent)
    ]

pub retry_guard-Unspent :
    (r : Record) (expected : ℕ) (event : String)
    → retry_guard r expected event ≡ ok tt
    → Unspent event r.attempts
unfolding retry_guard
retry_guard-Unspent r expected event e = Unspent-of_any event r.attempts (ground arith)

-- The record that an accepted update leaves: another last attempt, and everything else as it was.
unfoldable pub updated : Record → Changes → Attempt → Record
updated r c last = record r { attempts = replace_last r.attempts (apply_changes c last) }

pub record IsUpdate (env : Env) (generation : ℕ) (c : Changes) (r r' : Record) : Type 0 where
  pub last : Attempt
  pub at : get_last? r.attempts ≡ some last
  pub current : last.generation ≡ generation
  pub allowed : update_guard c last ≡ ok tt
  pub result : r' ≡ updated r c last
  pub valid : validate env r' ≡ ok tt

pub update_record-IsUpdate :
    (env : Env) (generation : ℕ) (c : Changes) (r : Record) {r' : Record}
    → update_record env generation c r ≡ ok r'
    → IsUpdate env generation c r r'
unfolding update_record updated
update_record-IsUpdate env generation c r {r'} e = elim (Option-cases (get_last? r.attempts)) [
  | inl lacks ↦ absurd (ground (arith, lacks, e))
  | inr (last, at) ↦
      let e' : (require (last.generation == generation) stale_attempt
            >> (update_guard c last >> (validate env (updated r c last) >> ok (updated r c last))))
          ≡ ok r' =
        rw (at, update_record) at e in
      let (_, current, e₁) =
        >>=-eq-ok (require (last.generation == generation) stale_attempt) _ e' in
      let (_, allowed, e₂) = >>=-eq-ok (update_guard c last) _ e₁ in
      let (_, valid, e₃) = >>=-eq-ok (validate env (updated r c last)) _ e₂ in
      record {
        last = last;
        at = at;
        current = ground (arith, require-eq-ok _ _ current);
        allowed = allowed;
        result = ground (arith, e₃);
        valid = ground (arith, e₃, valid);
      }
]

apply_changes-recovery_event :
    (c : Changes) (a : Attempt) → (apply_changes c a).recovery_event ≡ a.recovery_event
unfolding apply_changes
apply_changes-recovery_event c a = refl

pub update_record-IsSound :
    (env : Env) (generation : ℕ) (c : Changes) (r : Record) {r' : Record}
    → update_record env generation c r ≡ ok r'
    → IsSound r
    → IsSound r'
unfolding updated
update_record-IsSound env generation c r e h =
    let u = update_record-IsUpdate env generation c r e in
    rw u.result (
      replace_last-IsSound u.last (apply_changes c u.last) (apply_changes-recovery_event c u.last) r
        u.at h)

-- Before an attempt is appended, all attempts of the record are settled.
pub admission-Settled :
    (r : Record) (event : Option String)
    → admission r event ≡ ok true
    → IsSound r
    → All Settled r.attempts
admission-Settled r event e h = elim (admission-eq-true r event e) [
  | inl (none_yet, _) ↦ rw (get_last?-eq-none r.attempts none_yet) tt
  | inr (last, a, at, _, _, _, over) ↦ All-of_init Settled r.attempts last at h.past over
]
