-- ===== src/Recovery/Intents.antt =====
-- The intent file of agent_recovery.py: how it is read and written, and what the tick withdraws.
use todo_pipeline_orch.Prelude.{
  ℕ, zero, suc, String, Bool, true, false, Option, none, some, List, [], ◌∷◌, ◌&&◌, not, ◌==◌,
  nat_eq, string_eq, option_eq, list_eq, ltb, if◌then◌else◌, any, get_last?,
}
use todo_pipeline_orch.Prelude.Dict.{lookup, insert}
use todo_pipeline_orch.Effects.{Result, ok, raise, ◌>>=◌, Action, and_then, invalid_intent}
use todo_pipeline_orch.Prelude.Text.{codes}
use todo_pipeline_orch.Execution.Text.{is_hex, is_identifier}
use todo_pipeline_orch.Execution.Env.{Env}
use todo_pipeline_orch.Execution.Types.{
  Attempt, Record, Status, timed_out, interrupted, is_confirmed,
}
use todo_pipeline_orch.Execution.Store.{Store, File, garbage, holds, load, locked}
use todo_pipeline_orch.Recovery.Types.{
  Intent, IntentStatus, invalidated, is_approved, is_tick, Approver,
}

-- `n` hexadecimal digits, and then the end or one final newline.
hex_line : ℕ → List ℕ → Bool
hex_line zero [] = true
hex_line zero (c ∷ cs) = c == 10 && cs == []
hex_line (suc n) [] = false
hex_line (suc n) (c ∷ cs) = is_hex c && hex_line n cs

-- `^[0-9a-f]{32}$`, whose `$` also matches before a final newline.
unfoldable pub is_event_id : String → Bool
unfolding hex_line
is_event_id value = hex_line 32 (codes value)

-- The checks of `_read_optional` on what the file holds.
unfoldable pub is_intent : String → Intent → Bool
is_intent execution_id intent =
    is_event_id intent.preview.event_id
    && ltb 0 intent.preview.generation
    && intent.preview.execution_id == execution_id

unfoldable pub read_file : String → Option (File Intent) → Result (Option Intent)
read_file execution_id none = ok none
read_file execution_id (some garbage) = raise invalid_intent
read_file execution_id (some (holds intent)) =
    if is_intent execution_id intent then ok (some intent) else raise invalid_intent

-- `_read_optional`, in an execution whose directory is there.
unfoldable pub read_optional : String → Store → Result (Option Intent)
read_optional execution_id s =
    if is_identifier execution_id
    then read_file execution_id (lookup execution_id s.intents)
    else raise invalid_intent

-- `_write`, taken to succeed.
unfoldable pub write_intent : {A : Type 0} → String → Intent → A → Action Store A
write_intent execution_id intent value s =
    (ok value, record s { intents = insert execution_id (holds intent) s.intents })

-- An approval that the tick has given for the attempt of this generation.
abbrev pub is_tick_approval : Intent → ℕ → Bool
is_tick_approval intent generation =
    is_approved intent.status && is_tick intent.approver && intent.preview.generation == generation

abbrev pub withdraw : Intent → Intent
withdraw intent = record intent { status = invalidated }

-- `_retract_stale_tick_approval`: the store afterwards. What cannot be read stays as it is.
unfoldable pub retract_stale_tick_approval : String → ℕ → Store → Store
retract_stale_tick_approval execution_id generation s = elim (read_optional execution_id s) [
  | ok (some intent) ↦
      if is_tick_approval intent generation
      then (write_intent execution_id (withdraw intent) tt s).1
      else s
  | _ ↦ s
]

-- Some attempt was admitted by the event.
unfoldable pub is_spent : String → List Attempt → Bool
unfolding any
is_spent event_id attempts = any (λ (a : Attempt). a.recovery_event == some event_id) attempts

-- The outcomes after which `pending_auto_recovery` lets an approval be used.
abbrev pub is_cut_short : Status → Bool
is_cut_short timed_out = true
is_cut_short interrupted = true
is_cut_short _ = false

unfoldable pub pending_event : ℕ → Intent → Record → Option String
pending_event max_generations intent r = elim (get_last? r.attempts) [
  | none ↦ none
  | some last ↦
      if is_cut_short last.status
        && is_confirmed last.cleanup
        && ltb last.generation max_generations
        && intent.preview.generation == last.generation
        && not (is_spent intent.preview.event_id r.attempts)
      then some intent.preview.event_id
      else none
]

module _ (env : Env) (execution_id : String) where
  unfoldable pub pending_locked : ℕ → Action Store (Option String)
  pending_locked max_generations s =
      and_then (read_optional execution_id s)
        (λ found s. elim found [
          | none ↦ (ok none, s)
          | some intent ↦
              if is_approved intent.status && is_tick intent.approver
              then and_then (load env execution_id s)
                  (λ r s. (ok (pending_event max_generations intent r), s)) s
              else (ok none, s)
        ])
        s

  unfoldable pub pending_auto_recovery : ℕ → Action Store (Option String)
  pending_auto_recovery max_generations = locked env execution_id (pending_locked max_generations)

  unfoldable pub invalidate_locked : String → Action Store Bool
  invalidate_locked event_id s =
      and_then (read_optional execution_id s)
        (λ found s. elim found [
          | none ↦ (ok false, s)
          | some intent ↦
              if is_approved intent.status
                && is_tick intent.approver
                && intent.preview.event_id == event_id
              then write_intent execution_id (withdraw intent) true s
              else (ok false, s)
        ])
        s

  unfoldable pub invalidate_recovery : String → Action Store Bool
  invalidate_recovery event_id = locked env execution_id (invalidate_locked event_id)

-- `recovery_state`, as status, approver, generation and reissues.
unfoldable pub recovery_state : String → Store → Result (Option (IntentStatus × Approver × ℕ × ℕ))
recovery_state execution_id s = do
  found ← read_optional execution_id s
  ok (elim found [
    | none ↦ none
    | some i ↦ some (i.status, i.approver, i.preview.generation, i.reissues)
  ])
