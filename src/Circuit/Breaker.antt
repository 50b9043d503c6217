-- ===== src/Circuit/Breaker.antt =====
-- `CircuitBreaker` of circuit.py. Times are in microseconds; a stored alert keeps its whole seconds.
use Prim.Native.Nat.{◌/◌}
use todo_pipeline_orch.Prelude.{
  ℕ, ◌+◌, ◌*◌, String, Bool, true, false, Option, none, some, List, [], ◌∷◌, ◌&&◌, ◌||◌, not, ◌==◌,
  nat_eq, string_eq, list_eq, ltb, leb, any, all, if◌then◌else◌,
}
use todo_pipeline_orch.Prelude.Text.{codes}
use todo_pipeline_orch.Execution.Text.{is_alnum, is_identifier_char}
use todo_pipeline_orch.Execution.Store.{File, garbage, holds}

pub record Counts : Type 0 where
  pub consecutive_no_progress : ℕ
  -- Whole seconds, as "%Y-%m-%dT%H:%M:%SZ" keeps them.
  pub last_alert_at : Option ℕ

-- The state file, and the alerts sent, the newest first: when, and with which count and detail.
pub record Breaker : Type 0 where
  pub file : Option (File Counts)
  pub sent : List (ℕ × ℕ × String)

pub record Config : Type 0 where
  pub no_progress_threshold : ℕ
  pub alert_dedup_hours : ℕ
  pub slack_channel : String

is_channel_name : List ℕ → Bool
unfolding all
is_channel_name [] = false
is_channel_name (c ∷ cs) = is_alnum c && all is_identifier_char cs

-- `^[#@]?[A-Za-z0-9][A-Za-z0-9._-]*\Z`
is_channel : List ℕ → Bool
unfolding is_channel_name
is_channel [] = false
is_channel (c ∷ cs) =
    if c == b'#' || c == b'@' then is_channel_name cs else is_channel_name (c ∷ cs)

-- `_is_valid_slack_channel`
unfoldable pub is_valid_slack_channel : String → Bool
unfolding is_channel
is_valid_slack_channel channel = is_channel (codes channel)

abbrev pub second : ℕ → ℕ
second now = now / 1000000

-- `_load`, `none` where the file does not decode.
unfoldable pub load_counts : Option (File Counts) → Option Counts
load_counts none = some (record { consecutive_no_progress = 0; last_alert_at = none })
load_counts (some garbage) = none
load_counts (some (holds c)) = some c

-- `_save`
abbrev pub save : Counts → Breaker → Breaker
save c b = record b { file = some (holds c) }

abbrev pub hours : ℕ → ℕ
hours n = n * 3600 * 1000000

-- The last alert is long enough ago.
unfoldable pub dedup_ok : Config → Option ℕ → ℕ → Bool
dedup_ok config none now = true
dedup_ok config (some last) now = not (ltb now (last * 1000000 + hours config.alert_dedup_hours))

-- What follows a count of one more tick without progress.
unfoldable pub note_no_progress : Config → ℕ → String → Counts → Breaker → Breaker
note_no_progress config now detail c b =
    let n = c.consecutive_no_progress + 1 in
    if leb config.no_progress_threshold n
      && dedup_ok config c.last_alert_at now
      && is_valid_slack_channel config.slack_channel
    then record {
      file =
          some (holds (record { consecutive_no_progress = n; last_alert_at = some (second now) }));
      sent = (now, n, detail) ∷ b.sent;
    }
    else save (record c { consecutive_no_progress = n }) b

-- What a caller of `observe` says of a tick.
pub record Observation : Type 0 where
  pub now : ℕ
  pub picked : Bool
  pub counts_as_no_progress : Bool
  pub detail : String

unfoldable pub observe_counts : Config → Observation → Counts → Breaker → Breaker
observe_counts config o c b =
    if o.picked
    then save (record c { consecutive_no_progress = 0 }) b
    else if not o.counts_as_no_progress
    then save c b
    else note_no_progress config o.now o.detail c b

-- `observe`. A file that does not decode raises, and nothing is written.
unfoldable pub observe : Config → Observation → Breaker → Breaker
observe config o b = elim (load_counts b.file) [ none ↦ b | some c ↦ observe_counts config o c b ]

-- The outcomes of a tick, as `observe_from_outcomes` tells them apart.
pub data TickOutcome : Type 0 where
  phase_complete all_complete failed picked_none tick_started other : TickOutcome

-- `text.startswith(prefix)`
starts_with : List ℕ → List ℕ → Bool
starts_with [] cs = true
starts_with (p ∷ ps) [] = false
starts_with (p ∷ ps) (c ∷ cs) = p == c && starts_with ps cs

unfoldable pub classify : String → TickOutcome
unfolding starts_with
classify outcome =
    if outcome == "phase_complete"
    then phase_complete
    else if outcome == "all_phases_complete"
    then all_complete
    else if starts_with (codes "failed_at_phase_") (codes outcome)
    then failed
    else if outcome == "picked_none"
    then picked_none
    else if outcome == "tick_started"
    then tick_started
    else other

-- The file of a tick's outcomes: not there, with no text, or with the outcome of each line.
pub data OutcomesFile : Type 0 where
  missing empty : OutcomesFile
  lines : List String → OutcomesFile

abbrev is_phase_complete : TickOutcome → Bool
is_phase_complete phase_complete = true
is_phase_complete _ = false

abbrev is_all_complete : TickOutcome → Bool
is_all_complete all_complete = true
is_all_complete _ = false

abbrev is_failed : TickOutcome → Bool
is_failed failed = true
is_failed _ = false

abbrev is_picked_none : TickOutcome → Bool
is_picked_none picked_none = true
is_picked_none _ = false

abbrev is_tick_started : TickOutcome → Bool
is_tick_started tick_started = true
is_tick_started _ = false

-- Some line has an outcome of the class: the flag that the single pass sets.
unfoldable pub has : (TickOutcome → Bool) → List String → Bool
unfolding any
has p outcomes = any (λ o. p (classify o)) outcomes

-- What the file says of the tick: progress is `picked` here, since both reset the counter.
abbrev judged : ℕ → Bool → Bool → Observation
judged now progress counts = record {
  now = now;
  picked = progress;
  counts_as_no_progress = counts;
  detail = "";
}

unfoldable pub judge_lines : ℕ → List String → Observation
judge_lines now outcomes =
    let phase = has is_phase_complete outcomes in
    let all_done = has is_all_complete outcomes in
    let failure = has is_failed outcomes in
    let none_picked = has is_picked_none outcomes in
    if has is_tick_started outcomes && not (phase || all_done || failure || none_picked)
    then judged now false true
    else if all_done || phase
    then judged now true false
    else if failure
    then judged now false true
    else judged now false false

unfoldable pub judge : ℕ → OutcomesFile → Observation
judge now missing = judged now false true
judge now empty = judged now false false
judge now (lines outcomes) = judge_lines now outcomes

-- `observe_from_outcomes`
unfoldable pub observe_from_outcomes : Config → ℕ → OutcomesFile → Breaker → Breaker
observe_from_outcomes config now file b = observe config (judge now file) b
