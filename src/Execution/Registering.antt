-- ===== src/Execution/Registering.antt =====
-- What `register` writes and returns, and what is read back of it.
use todo_pipeline_orch.Prelude.{
  String, true, none, ◌≡◌, refl, sym, ◌∙◌, arith, ◌==◌, string_eq, nat_eq, ==_refl, inl, inr,
  Option-cases, if◌then◌else◌, ◌⊎◌,
}
use todo_pipeline_orch.Prelude.Dict.{lookup, lookup-insert}
use todo_pipeline_orch.Effects.{Result, ok, raise, Action, and_then, registration_drift}
use todo_pipeline_orch.Execution.Text.{is_identifier}
use todo_pipeline_orch.Execution.Env.{Env, complete}
use todo_pipeline_orch.Execution.Types.{Registration, registration_eq, Record}
use todo_pipeline_orch.Execution.Validate.{validate}
use todo_pipeline_orch.Execution.Store.{
  Store, File, holds, load, decode, upgrade, locked, write, outside_worktree,
}
use todo_pipeline_orch.Execution.Keeps.{locked-eq-ok, and_then-eq-ok, write-eq-ok}
use todo_pipeline_orch.Execution.Admission.{register, register_locked, new_record, pin}

locked-is_identifier :
    {A : Type 0} (env : Env) (id : String) (m : Action Store A) (s : Store) {a : A}
    → (locked env id m s).0 ≡ ok a
    → is_identifier id ≡ true
unfolding locked
locked-is_identifier env id m s e = ground (arith, e)

-- A new record reads back, once written.
load-new_record :
    (env : Env) (id : String) (g : Registration) (s : Store)
    → is_identifier id ≡ true
    → validate env (new_record id g) ≡ ok tt
    → outside_worktree env g.worktree ≡ ok tt
    → env.write id ≡ complete
    → load env id (write env id (new_record id g) (new_record id g) s).1 ≡ ok (new_record id g)
unfolding load decode upgrade write new_record
load-new_record env id g s named valid outside done = ground (
  arith,
  done,
  named,
  valid,
  outside,
  ==_refl id,
  lookup-insert id id (holds (new_record id g)) s.records,
)

register_locked-eq-ok :
    (env : Env) (id : String) (g : Registration) (s : Store) (r : Record)
    → (register_locked env id g s).0 ≡ ok r
    → (lookup id s.records ≡ none)
        × (r ≡ new_record id g)
        × (register_locked env id g s ≡ write env id r r s)
        × (env.write id ≡ complete)
      ⊎ (load env id s ≡ ok r) × (r.registration ≡ g) × (register_locked env id g s ≡ (ok r, s))
unfolding register_locked write
register_locked-eq-ok env id g s r e = elim (Option-cases (lookup id s.records)) [
  | inl missing ↦
      let e₁ : (write env id (new_record id g) (new_record id g) s).0 ≡ ok r =
        ground (arith, e, missing) in
      let (same, done) = write-eq-ok env id (new_record id g) (new_record id g) s e₁ in
      inl (missing, sym same, ground (arith, missing, same), done)
  | inr (file, there) ↦
      let e' : (existing_or_drift file).0 ≡ ok r = ground (arith, e, there) in
      let (r', l, at, e₁) = and_then-eq-ok (load env id s) _ s e' in
      let same : r' ≡ r = ground (arith, e₁) in
      inr (
        ground (arith, l, same),
        ground (arith, e₁, registration_eq.beq_iff r'.registration g),
        ground (arith, there, e₁, l),
      )
]
  where
    existing_or_drift : File Record → Result Record × Store
    existing_or_drift _ =
        and_then (load env id s)
          (λ existing s.
            if existing.registration == g then (ok existing, s) else (raise registration_drift, s))
          s

-- What `register` returns is what `load` then returns, with the registration that was asked for; and
-- where the execution had a record, the files are unchanged.
pub register-load :
    (env : Env) (id : String) (fields : Registration) (prompt : String) (s : Store) (r : Record)
    → (register env id fields prompt s).0 ≡ ok r
    → (load env id (register env id fields prompt s).1 ≡ ok r)
      × (r.registration ≡ pin env fields prompt)
      × ((lookup id s.records ≡ none) ⊎ ((register env id fields prompt s).1 ≡ s))
unfolding register new_record write
register-load env id fields prompt s r e =
    let g = pin env fields prompt in
    let (_, outside, at₁, e₁) = and_then-eq-ok (outside_worktree env fields.worktree) _ s e in
    let (_, valid, at₂, e₂) = and_then-eq-ok (validate env (new_record id g)) _ s e₁ in
    let named = locked-is_identifier env id _ s e₂ in
    let (at₃, e₃) = locked-eq-ok env id (register_locked env id g) s e₂ in
    let at : register env id fields prompt s ≡ register_locked env id g s = at₁ ∙ (at₂ ∙ at₃) in
    elim (register_locked-eq-ok env id g s r e₃) [
      | inl (missing, new, wrote, done) ↦ (
        rw (at, wrote, new) (load-new_record env id g s named valid (unfold pin in outside) done),
        rw new (unfold new_record in refl),
        inl missing,
      )
      | inr (loaded, same, left) ↦ (rw (at, left) loaded, same, inr (rw (at, left)))
    ]
