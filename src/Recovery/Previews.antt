-- ===== src/Recovery/Previews.antt =====
-- What a preview by `_snapshot` names, and the intent that the tick writes with one.
use todo_pipeline_orch.Prelude.{
  ℕ, ◌<◌, String, true, Option, some, List, [], ◌∷◌, ◌≡◌, arith, string_eq, nat_eq, ==_refl, ◌&&◌,
  not, length, get_last?,
}
use todo_pipeline_orch.Effects.{
  ok, raise, require, >>=-eq-ok, worktree_evidence, progress_invalid, unconfirmed_attempt,
  legacy_evidence,
}
use todo_pipeline_orch.Execution.Env.{Env}
use todo_pipeline_orch.Execution.Types.{Attempt, Record, is_settled}
use todo_pipeline_orch.Execution.Store.{Store, load}
use todo_pipeline_orch.Recovery.Types.{Mode, Preview, preview_eq}
use todo_pipeline_orch.Recovery.Evidence.{
  Evidence, Context, is_resume, of_option, snapshot, snapshot_of,
}
use todo_pipeline_orch.Recovery.Intents.{is_event_id, is_intent}
use todo_pipeline_orch.Recovery.Auto.{tick_intent}

-- A preview names the execution, the event and the last attempt that it was taken for.
pub record IsPreviewOf (id event : String) (generation : ℕ) (p : Preview) : Type 0 where
  pub execution : p.execution_id ≡ id
  pub of_event : p.event_id ≡ event
  pub numbered : p.generation ≡ generation

snapshot_of-IsPreviewOf :
    (env : Env) (evidence : Evidence) (id : String) (mode : Mode) (event : String)
    (given : Option Context) (r : Record) (a : Attempt) (p : Preview)
    → snapshot_of env evidence id mode event given r a ≡ ok p
    → IsPreviewOf id event a.generation p
unfolding snapshot_of
snapshot_of-IsPreviewOf env evidence id mode event given r a p e =
    let (_, _, e₁) = >>=-eq-ok (require (is_settled a) unconfirmed_attempt) _ e in
    let (c, _, e₂) =
      >>=-eq-ok
        (of_option given
          (of_option (evidence.recovery_context id a.generation) (raise progress_invalid)))
        _ e₁ in
    let (_, _, e₃) =
      >>=-eq-ok (require (not (is_resume mode && c.legacy_evidence_absent)) legacy_evidence) _ e₂ in
    let (_, _, e₄) =
      >>=-eq-ok (of_option (evidence.work_sha256 id) (raise worktree_evidence)) _ e₃ in
    record {
      execution = ground (arith, e₄);
      of_event = ground (arith, e₄);
      numbered = ground (arith, e₄);
    }

pub snapshot-IsPreviewOf :
    (env : Env) (evidence : Evidence) (id : String) (mode : Mode) (event : String)
    (given : Option Context) (s : Store) (r : Record) (a : Attempt) (p : Preview)
    → load env id s ≡ ok r
    → get_last? r.attempts ≡ some a
    → snapshot env evidence id mode event given s ≡ ok p
    → IsPreviewOf id event a.generation p
unfolding snapshot
snapshot-IsPreviewOf env evidence id mode event given s r a p loaded last e =
    snapshot_of-IsPreviewOf env evidence id mode event given r a p (ground (arith, loaded, last, e))

pub tick_intent-is_intent :
    (id event : String) (g n : ℕ) (p : Preview)
    → IsPreviewOf id event g p
    → is_event_id event ≡ true
    → 0 < g
    → is_intent id (tick_intent p n) ≡ true
unfolding is_intent
tick_intent-is_intent id event g n p of good positive =
    rw (of.of_event, of.execution, of.numbered) (ground (arith, good, ==_refl id, positive))

pub get_last?-positive : {A : Type 0} (xs : List A) (a : A) → get_last? xs ≡ some a → 0 < length xs
get_last?-positive [] a e = absurd (cc)
get_last?-positive (x ∷ xs) a e = omega arith
