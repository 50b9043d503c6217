-- ===== src/Circuit/Tests.antt =====
-- Runs of the circuit breaker, and its theorems at concrete inputs.
use todo_pipeline_orch.Prelude.{
  ◌*◌, ℕ, String, Bool, true, false, some, List, [], ◌∷◌, ◌≡◌, refl, any, all, filter, map,
}
use todo_pipeline_orch.Circuit.Breaker.{
  Config, Observation, missing, empty, lines, load_counts, is_valid_slack_channel, dedup_ok,
  note_no_progress, observe_counts, observe, classify, has, judge_lines, judge,
  observe_from_outcomes,
}
use todo_pipeline_orch.Circuit.Counting.{
  observe_all, new_breaker, since_progress, stuck, counter, observe_all-counter,
}
use todo_pipeline_orch.Circuit.Alerts.{WellSpaced, observe_all-WellSpaced}

program : Unit {0}
unfolding any all filter load_counts is_valid_slack_channel dedup_ok note_no_progress observe_counts
    observe classify has judge_lines judge observe_from_outcomes observe_all since_progress stuck
    counter
program = tt

abbrev config : Config
config = record { no_progress_threshold = 2; alert_dedup_hours = 1; slack_channel = "#ops" }

abbrev minute : ℕ → Bool → Bool → Observation
minute n picked counts = record {
  now = n * 60000000;
  picked = picked;
  counts_as_no_progress = counts;
  detail = "";
}

-- Progress, and then more than an hour without any.
abbrev ticks : List Observation
ticks =
    minute 0 false true
    ∷ minute 1 true false
    ∷ minute 2 false true
    ∷ minute 3 false true
    ∷ minute 4 false true
    ∷ minute 5 false false
    ∷ minute 70 false true
    ∷ []

counts_four : counter (observe_all config ticks new_breaker) ≡ some 4
unfolding program
counts_four = refl

sends_two :
    map (λ (a : ℕ × ℕ × String). a.1) (observe_all config ticks new_breaker).sent ≡ 4 ∷ 2 ∷ []
unfolding program
sends_two = refl

observe_all-counter_example :
    counter (observe_all config ticks new_breaker) ≡ some (stuck (since_progress ticks))
observe_all-counter_example = observe_all-counter config ticks

observe_all-WellSpaced_example : WellSpaced config (observe_all config ticks new_breaker).sent
observe_all-WellSpaced_example = observe_all-WellSpaced config ticks

-- A tick that only started counts, one that also finished a phase does not.
judges :
    (counter (observe_from_outcomes config 0 (lines ("tick_started" ∷ [])) new_breaker) ≡ some 1)
    × (counter (
          observe_from_outcomes config 0
            (lines ("tick_started" ∷ "failed_at_phase_2" ∷ "phase_complete" ∷ []))
            new_breaker)
        ≡ some 0)
    × (counter (observe_from_outcomes config 0 missing new_breaker) ≡ some 1)
    × (counter (observe_from_outcomes config 0 empty new_breaker) ≡ some 0)
unfolding program
judges = (refl, refl, refl, refl)
