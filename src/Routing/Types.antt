-- ===== src/Routing/Types.antt =====
-- The cards of a phase on the Kanban board, and the files and commands by which a tick acts on them.
use todo_pipeline_orch.Prelude.{
  ℕ, String, Bool, false, Option, none, some, List, ◌&&◌, ◌||◌, not, ◌==◌, nat_eq, string_eq,
  option_eq, list_eq, ltb, if◌then◌else◌, take, map,
}
use todo_pipeline_orch.Prelude.Text.{codes}
use todo_pipeline_orch.Execution.Text.{is_identifier_char}
use todo_pipeline_orch.Execution.Env.{Env}
use todo_pipeline_orch.Execution.Store.{Store}
use todo_pipeline_orch.Execution.Types.{
  Process, status_eq, Attempt, exited, is_terminal, is_confirmed,
}
use todo_pipeline_orch.Recovery.Auto.{Reason, is_result_invalid}

-- A card of the phase that is not archived, as the snapshot of the board has it.
pub record Card : Type 0 where
  pub id : String
  pub status : String
  pub generation : ℕ

-- `worker`: the phase's current card.
pub record Worker : Type 0 where
  pub task_id : String
  pub status : String
  pub generation : ℕ

-- How the unblock of a card ends: it is confirmed and its marker is written; it has no effect; it is
-- not confirmed, because the command timed out, and had its effect; or it is confirmed and the write of
-- the marker raises.
pub data Unblock : Type 0 where
  succeeds fails times_out not_marked : Unblock

-- What the board and the operating system answer during one call: the cards of the phase, if the
-- snapshot can be read; whether every archive command is confirmed; how the unblock of a card ends;
-- whether the run is registered; and the birth ticks of the process of an id.
pub record Board : Type 0 where
  pub cards : Option (List Card)
  pub archives : Bool
  pub unblocks : Unblock
  pub registered : Bool
  pub start_ticks : ℕ → Option ℕ

-- `RECOVERY_REASONS` and `RECOVERY_LOCAL_CODES`.
pub data Code : Type 0 where
  verdict_code : Reason → Code
  recovery_archive_unconfirmed recovery_admission_stalled : Code

-- The name of an unblock marker: the key with its other characters replaced, eight digits of its
-- digest, and the card's generation, which the text of the name tells apart.
pub record Marker : Type 0 where
  pub safe : List ℕ
  pub digest : List ℕ
  pub generation : ℕ

abbrev pub marker_beq : Marker → Marker → Bool
marker_beq a b = a.safe == b.safe && a.digest == b.digest && a.generation == b.generation

abbrev sanitized : ℕ → ℕ
sanitized c = if is_identifier_char c then c else b'-'

-- `unblock_marker`
unfoldable pub unblock_marker : Env → String → ℕ → Marker
unblock_marker env key generation = record {
  safe = map sanitized (codes key);
  digest = take 8 (codes (env.sha256 key));
  generation = generation;
}

-- The files of a tick's run and, in order, what it had the board do: unblocks by their markers, cards
-- to archive, and cards created for a generation.
pub record World : Type 0 where
  pub store : Store
  pub markers : List Marker
  pub blocked : Option (String × Code)
  pub abandoned : Option Code
  pub unblocked : List Marker
  pub archived : List String
  pub issued : List ℕ

-- `GAVE_UP` and `LIVE`
abbrev pub gave_up : Worker → Bool
gave_up w = w.status == "blocked" || w.status == "triage"

abbrev pub is_live : Card → Bool
is_live c = c.status == "running"

-- `resumable`
unfoldable pub resumable : Attempt → Bool
resumable a =
    if not (is_confirmed a.cleanup)
    then false
    else is_terminal a.status && not (a.status == exited) || is_result_invalid a

-- `identity_matches`, with the ticks that the process of the id was born at.
unfoldable pub identity_matches : Env → (ℕ → Option ℕ) → Option Process → Bool
identity_matches env start_ticks none = false
identity_matches env start_ticks (some p) =
    is_named p.boot_id
    && is_positive p.start_ticks
    && start_ticks p.pid == p.start_ticks
    && env.boot_id == p.boot_id
    && some env.host == p.host
  where
    is_named : Option String → Bool
    is_named none = false
    is_named (some text) = not (text == "")

    is_positive : Option ℕ → Bool
    is_positive none = false
    is_positive (some ticks) = ltb 0 ticks

-- `daemon_alive`
unfoldable pub daemon_alive : Env → Board → Attempt → Bool
daemon_alive env board a =
    not (is_terminal a.status) && identity_matches env board.start_ticks a.supervisor
