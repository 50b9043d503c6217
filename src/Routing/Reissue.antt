-- ===== src/Routing/Reissue.antt =====
-- What a reissued card rests on.
use todo_pipeline_orch.Prelude.{
  ◌+◌, String, Bool, true, Option, none, some, [], ◌∷◌, ◌++◌, ◌≡◌, nat_eq, string_eq, option_eq,
}
use todo_pipeline_orch.Execution.Env.{Env}
use todo_pipeline_orch.Execution.Types.{Attempt}
use todo_pipeline_orch.Recovery.Types.{resume}
use todo_pipeline_orch.Recovery.Evidence.{Evidence}
use todo_pipeline_orch.Recovery.Auto.{max_generations, auto_approve_resume}
use todo_pipeline_orch.Recovery.Policy.{IsJustified}
use todo_pipeline_orch.Routing.Types.{Board, Worker, World, gave_up, resumable}
use todo_pipeline_orch.Routing.Cards.{Route, reissued, last_attempt}
use todo_pipeline_orch.Routing.Retiring.{Cleared}

-- The phase has no card, or its worker gave up on it.
abbrev pub is_left : Option Worker → Bool
is_left none = true
is_left (some k) = gave_up k

pub record IsReissue (env : Env) (evidence : Evidence) (board : Board) (identity : String)
    (k : Option Worker) (w w' : World) : Type 0 where
  pub a : Attempt
  pub last : last_attempt env identity w.store ≡ some a
  pub resumes : resumable a ≡ true
  pub left : is_left k ≡ true
  pub justified :
      IsJustified env identity max_generations w.store
        (auto_approve_resume env evidence identity max_generations resume true w.store).0
  pub cleared : Cleared board
  pub issued : w'.issued ≡ w.issued ++ (a.generation + 1) ∷ []

module _ (env : Env) (evidence : Evidence) (board : Board) (identity key : String)
    (k : Option Worker) (w : World) where
  -- The grounds of an answer: of a reissue alone is anything asked.
  abbrev Grounds : Route × World → Type 0
  Grounds (reissued, w') = IsReissue env evidence board identity k w w'
  Grounds (_, w') = Unit
