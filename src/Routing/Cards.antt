-- ===== src/Routing/Cards.antt =====
-- How the tick unblocks, retires and refuses (phase_recovery.py).
use todo_pipeline_orch.Prelude.{
  ℕ, String, Bool, true, false, Option, none, some, List, [], ◌∷◌, ◌++◌, any, map, if◌then◌else◌,
}
use todo_pipeline_orch.Effects.{ok, err}
use todo_pipeline_orch.Execution.Env.{Env}
use todo_pipeline_orch.Execution.Store.{Store, load}
use todo_pipeline_orch.Execution.Types.{Attempt}
use todo_pipeline_orch.Recovery.Types.{is_approved}
use todo_pipeline_orch.Recovery.Intents.{recovery_state}
use todo_pipeline_orch.Prelude.{get_last?}
use todo_pipeline_orch.Routing.Types.{
  Board, Card, Code, Marker, marker_beq, unblock_marker, World, is_live, succeeds, fails, times_out,
  not_marked,
}

-- How a call ends: with one of the four answers, with `ResultContractError`, or with the `OSError` of
-- an unblock marker.
pub data Route : Type 0 where
  proceed wait reissued refused archive_unconfirmed marker_unwritten : Route

-- `last_attempt`
unfoldable pub last_attempt : Env → String → Store → Option Attempt
last_attempt env identity s = elim (load env identity s) [
  | ok r ↦ get_last? r.attempts
  | err _ ↦ none
]

-- `approved_generation`
unfoldable pub approved_generation : String → Store → Option ℕ
approved_generation identity s = elim (recovery_state identity s) [
  | err _ ↦ none
  | ok none ↦ none
  | ok (some (status, approver, generation, reissues)) ↦
      if is_approved status then some generation else none
]

-- `marker.exists()`
unfoldable pub is_marked : Marker → List Marker → Bool
unfolding any
is_marked m markers = any (marker_beq m) markers

-- How `unblock_once` ends: `True`, `False`, or an exception.
pub data Unblocked : Type 0 where
  did did_not unwritten : Unblocked

-- `unblock_once`. The marker is written after the command succeeded.
unfoldable pub unblock_once : Env → Board → String → ℕ → World → Unblocked × World
unblock_once env board key generation w =
    let m = unblock_marker env key generation in
    let unblocked = w.unblocked ++ m ∷ [] in
    if is_marked m w.markers then (did_not, w) else elim board.unblocks [
      | succeeds ↦ (did, record w { markers = m ∷ w.markers; unblocked = unblocked })
      | fails ↦ (did_not, w)
      | times_out ↦ (did_not, record w { unblocked = unblocked })
      | not_marked ↦ (unwritten, record w { unblocked = unblocked })
    ]

-- How `_retire_cards` ends: `true`, `false`, or an exception.
pub data Retired : Type 0 where
  retired live unconfirmed : Retired

unfoldable pub is_none : {A : Type 0} → List A → Bool
is_none [] = true
is_none (x ∷ xs) = false

-- `_retire_cards`
unfoldable pub retire_cards : Board → World → Retired × World
unfolding any
retire_cards board w = elim board.cards [
  | none ↦ (unconfirmed, w)
  | some cards ↦
      if any is_live cards
      then (live, w)
      else if is_none cards
      then (retired, w)
      else let w' = record w { archived = w.archived ++ map (λ (c : Card). c.id) cards } in
        if board.archives then (retired, w') else (unconfirmed, w')
]

-- `_refuse`: the marker of the run says which step is blocked, and why.
unfoldable pub refuse : String → Code → World → Route × World
refuse key code w = (refused, record w { blocked = some (key, code) })

-- `abandon_run`
unfoldable pub abandon_run : Board → Code → World → World
abandon_run board reason w = if board.registered then record w { abandoned = some reason } else w
