-- ===== src/Execution/Runs.antt =====
-- Any sequence of the store's operations, each in its own environment: other owners may take and
-- leave locks between them. The operations are those of agent_execution.py that write records.
use todo_pipeline_orch.Prelude.{ℕ, String, Option, none, some, List, [], ◌∷◌, ◌≡◌, string_eq}
use todo_pipeline_orch.Prelude.Dict.{lookup}
use todo_pipeline_orch.Effects.{Exception, Result, ok, err}
use todo_pipeline_orch.Execution.Env.{Env}
use todo_pipeline_orch.Execution.Types.{Registration, Record}
use todo_pipeline_orch.Execution.Store.{Store, holds}
use todo_pipeline_orch.Execution.Admission.{register, admit, authorize_retry}
use todo_pipeline_orch.Execution.Update.{Changes, update_attempt}
use todo_pipeline_orch.Execution.History.{IsSound}
use todo_pipeline_orch.Execution.Journal.{
  AllSound, register-AllSound, admit-AllSound, authorize_retry-AllSound, update_attempt-AllSound,
}

pub data Operation : Type 0 where
  registers : (id : String) (fields : Registration) (prompt : String) → Operation
  admits : (id : String) (event : Option String) → Operation
  authorizes : (id : String) (expected : ℕ) (event context : String) → Operation
  updates : (id : String) (generation : ℕ) (changes : Changes) → Operation

-- The store after an operation, whether it returned or raised.
unfoldable pub perform : Env → Operation → Store → Store
perform env (registers id fields prompt) s = (register env id fields prompt s).1
perform env (admits id event) s = (admit env id event s).1
perform env (authorizes id expected event context) s =
    (authorize_retry env id expected event context s).1
perform env (updates id generation changes) s = (update_attempt env id generation changes s).1

unfoldable pub perform_all : List (Env × Operation) → Store → Store
perform_all [] s = s
perform_all ((env, o) ∷ rest) s = perform_all rest (perform env o s)

abbrev pub empty : Store
empty = record { records = []; intents = [] }

perform-AllSound : (env : Env) (o : Operation) (s : Store) → AllSound s → AllSound (perform env o s)
unfolding perform
perform-AllSound env (registers id fields prompt) = register-AllSound env id fields prompt
perform-AllSound env (admits id event) = admit-AllSound env id event
perform-AllSound env (authorizes id expected event context) =
    authorize_retry-AllSound env id expected event context
perform-AllSound env (updates id generation changes) =
    update_attempt-AllSound env id generation changes

pub perform_all-AllSound :
    (ops : List (Env × Operation)) (s : Store) → AllSound s → AllSound (perform_all ops s)
unfolding perform_all
perform_all-AllSound [] s h = h
perform_all-AllSound ((env, o) ∷ rest) s h =
    perform_all-AllSound rest (perform env o s) (perform-AllSound env o s h)

pub empty-AllSound : AllSound empty
unfolding lookup
empty-AllSound = record { at = λ id r e. absurd (cc) }

-- Whatever operations ran, and whichever of them raised: in every record of the store all attempts
-- but the last are terminal with confirmed cleanup, no recovery event admitted two attempts, and an
-- approval that stands is of an event that admitted none.
pub perform_all-IsSound :
    (ops : List (Env × Operation)) (id : String) (r : Record)
    → lookup id (perform_all ops empty).records ≡ some (holds r)
    → IsSound r
perform_all-IsSound ops id r e = (perform_all-AllSound ops empty empty-AllSound).at id r e

abbrev exception : {A : Type 0} → Result A → Option Exception
exception (ok a) = none
exception (err e) = some e

-- The exception of an operation, if it raised.
unfoldable pub raised : Env → Operation → Store → Option Exception
raised env (registers id fields prompt) s = exception (register env id fields prompt s).0
raised env (admits id event) s = exception (admit env id event s).0
raised env (authorizes id expected event context) s =
    exception (authorize_retry env id expected event context s).0
raised env (updates id generation changes) s =
    exception (update_attempt env id generation changes s).0
