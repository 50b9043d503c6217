-- ===== src/Execution/Numbering.antt =====
-- How the attempts of a record are numbered.
use todo_pipeline_orch.Prelude.{
  ℕ, suc, ◌+◌, String, some, List, [], ◌∷◌, ◌≡◌, refl, ap, arith, ◌==◌, ◌||◌, nat_eq, get_last?,
  length, inl, inr, Bool-cases,
}
use todo_pipeline_orch.Effects.{
  ok, require, >>=-eq-ok, require-eq-ok, invalid_generation, unsupported_schema, invalid_identity,
}
use todo_pipeline_orch.Execution.Text.{is_identifier}
use todo_pipeline_orch.Execution.Env.{Env}
use todo_pipeline_orch.Execution.Types.{Attempt, Record}
use todo_pipeline_orch.Execution.Validate.{
  validate, validate_attempt, validate_attempts, validate_registration,
}
use todo_pipeline_orch.Execution.Store.{Store, load, upgrade, clear_direct}
use todo_pipeline_orch.Execution.Loading.{load-IsLoaded}

validate_attempt-generation :
    (n : ℕ) (a : Attempt) → validate_attempt n a ≡ ok tt → a.generation ≡ n
unfolding validate_attempt
validate_attempt-generation n a e =
    let (_, numbered, _) = >>=-eq-ok (require (a.generation == n) invalid_generation) _ e in
    ground (arith, require-eq-ok _ _ numbered)

validate_attempts-last :
    (n : ℕ) (xs : List Attempt) (a : Attempt)
    → validate_attempts n xs ≡ ok tt
    → get_last? xs ≡ some a
    → suc a.generation ≡ n + length xs
unfolding validate_attempts
validate_attempts-last n [] a e at = absurd (cc)
validate_attempts-last n (x ∷ []) a e at =
    let (_, first, _) = >>=-eq-ok (validate_attempt n x) _ e in
    ground (arith, at, validate_attempt-generation n x first)
validate_attempts-last n (x ∷ y ∷ xs) a e at =
    let (_, _, rest) = >>=-eq-ok (validate_attempt n x) _ e in
    omega (arith, validate_attempts-last (suc n) (y ∷ xs) a rest at)

validate-attempts :
    (env : Env) (r : Record) → validate env r ≡ ok tt → validate_attempts 1 r.attempts ≡ ok tt
unfolding validate
validate-attempts env r e =
    let (_, _, e₁) =
      >>=-eq-ok (require (r.version == 1 || r.version == 2 || r.version == 3) unsupported_schema) _
        e in
    let (_, _, e₂) = >>=-eq-ok (require (is_identifier r.execution_id) invalid_identity) _ e₁ in
    let (_, _, e₃) = >>=-eq-ok (validate_registration env r.registration) _ e₂ in
    let (_, numbered, _) = >>=-eq-ok (validate_attempts 1 r.attempts) _ e₃ in numbered

pub length-clear_direct : (xs : List Attempt) → length (clear_direct xs) ≡ length xs
length-clear_direct [] = refl
length-clear_direct (x ∷ xs) = ap suc (length-clear_direct xs)

-- The last attempt of an upgraded list is one of the same generation.
clear_direct-last :
    (xs : List Attempt) (a : Attempt)
    → get_last? (clear_direct xs) ≡ some a
    → (b : Attempt) × (get_last? xs ≡ some b) × (b.generation ≡ a.generation)
clear_direct-last [] a e = absurd (cc)
clear_direct-last (x ∷ []) a e = (x, refl, ground (arith, e))
clear_direct-last (x ∷ y ∷ xs) a e = clear_direct-last (y ∷ xs) a e

upgrade-last :
    (r : Record) (a : Attempt)
    → get_last? (upgrade r).attempts ≡ some a
    → validate_attempts 1 r.attempts ≡ ok tt
    → a.generation ≡ length (upgrade r).attempts
unfolding upgrade
upgrade-last r a at v = elim (Bool-cases (r.version == 3)) [
  | inl new ↦ rw new (omega (arith, validate_attempts-last 1 r.attempts a v (rw new at at)))
  | inr old ↦
      let (b, at', same) = clear_direct-last r.attempts a (rw old at at) in
      rw old (
        omega (
          arith,
          validate_attempts-last 1 r.attempts b v at',
          same,
          length-clear_direct r.attempts,
        ))
]

-- The last attempt of a loaded record carries the number of attempts as its generation.
pub load-generation :
    (env : Env) (id : String) (s : Store) (r : Record) (a : Attempt)
    → load env id s ≡ ok r
    → get_last? r.attempts ≡ some a
    → a.generation ≡ length r.attempts
load-generation env id s r a e at =
    let l = load-IsLoaded env id s e in
    rw l.upgraded
      (upgrade-last l.found a (rw l.upgraded at at) (validate-attempts env l.found l.valid))
