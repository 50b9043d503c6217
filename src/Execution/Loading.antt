-- ===== src/Execution/Loading.antt =====
-- What a record that `load` returns has passed, and what `write` leaves for the next `load`.
use todo_pipeline_orch.Prelude.{
  String, true, Option, none, some, ◌≡◌, refl, arith, ◌==◌, string_eq, text_iff, inl, inr,
  Bool-cases,
}
use todo_pipeline_orch.Prelude.Dict.{lookup}
use todo_pipeline_orch.Effects.{ok, require, >>=-eq-ok, require-eq-ok, identity_mismatch}
use todo_pipeline_orch.Execution.Text.{is_identifier}
use todo_pipeline_orch.Execution.Env.{Env}
use todo_pipeline_orch.Execution.Types.{Record}
use todo_pipeline_orch.Execution.Validate.{validate}
use todo_pipeline_orch.Execution.Store.{
  Store, File, garbage, holds, upgrade, decode, outside_worktree, load,
}

-- The record `r` is `found`, brought up to date, and `found` passed every check of `load`.
pub record IsLoaded (env : Env) (id : String) (s : Store) (r : Record) : Type 0 where
  pub found : Record
  pub stored : lookup id s.records ≡ some (holds found)
  pub named : is_identifier id ≡ true
  pub valid : validate env found ≡ ok tt
  pub upgraded : r ≡ upgrade found
  pub same_id : r.execution_id ≡ id
  pub outside : outside_worktree env r.registration.worktree ≡ ok tt

module _ (env : Env) (id : String) (s : Store) where
  decode-IsLoaded :
      (file : Option (File Record)) {r : Record}
      → lookup id s.records ≡ file
      → is_identifier id ≡ true
      → decode env id file ≡ ok r
      → IsLoaded env id s r
  unfolding decode
  decode-IsLoaded none at named e = cc
  decode-IsLoaded (some garbage) at named e = cc
  decode-IsLoaded (some (holds found)) {r} at named e =
      let (_, valid, e₁) = >>=-eq-ok (validate env found) _ e in
      let (_, same, e₂) =
        >>=-eq-ok (require ((upgrade found).execution_id == id) identity_mismatch) _ e₁ in
      let (_, outside, e₃) =
        >>=-eq-ok (outside_worktree env (upgrade found).registration.worktree) _ e₂ in
      record {
        found = found;
        stored = at;
        named = named;
        valid = valid;
        upgraded = ground (arith, e₃);
        same_id =
            ground (arith, e₃, require-eq-ok _ _ same, text_iff (upgrade found).execution_id id);
        outside = ground (arith, e₃, outside);
      }

  pub load-IsLoaded : {r : Record} → load env id s ≡ ok r → IsLoaded env id s r
  unfolding load
  load-IsLoaded e = elim (Bool-cases (is_identifier id)) [
    | inl named ↦ decode-IsLoaded (lookup id s.records) refl named (rw named at e)
    | inr other ↦ cc (rw other at e)
  ]
