-- ===== src/Circuit/Counting.antt =====
-- What the counter of the circuit breaker counts.
use todo_pipeline_orch.Prelude.{
  ℕ, ◌+◌, String, Bool, false, Option, none, some, List, [], ◌∷◌, ◌≡◌, refl, arith, ◌&&◌, any,
  filter, subst, leb, ap, ◌∙◌, length, if◌then◌else◌, if_ind, inl, inr, Bool-cases,
}
use todo_pipeline_orch.Circuit.Breaker.{
  is_valid_slack_channel, second, Counts, Breaker, Config, Observation, load_counts, dedup_ok,
  note_no_progress, observe_counts, observe,
}

-- A run of the breaker.
unfoldable pub observe_all : Config → List Observation → Breaker → Breaker
observe_all config [] b = b
observe_all config (o ∷ rest) b = observe_all config rest (observe config o b)

-- No file yet, and no alert.
abbrev pub new_breaker : Breaker
new_breaker = record { file = none; sent = [] }

abbrev made_progress : Observation → Bool
made_progress o = o.picked

-- What was observed after the last progress.
unfoldable pub since_progress : List Observation → List Observation
unfolding any
since_progress [] = []
since_progress (o ∷ rest) =
    let later = since_progress rest in
    if any made_progress rest then later else if o.picked then rest else o ∷ rest

-- How many of these count as no progress.
unfoldable pub stuck : List Observation → ℕ
unfolding filter
stuck os = length (filter (λ (o : Observation). o.counts_as_no_progress) os)

-- The counter of a file that decodes.
record Stands (n : ℕ) (b : Breaker) : Type 0 where
  counts : Counts
  loaded : load_counts b.file ≡ some counts
  counted : counts.consecutive_no_progress ≡ n

next : ℕ → Observation → ℕ
next n o = if o.picked then 0 else if o.counts_as_no_progress then n + 1 else n

note_no_progress-Stands :
    (config : Config) (now : ℕ) (detail : String) (c : Counts) (b : Breaker)
    → Stands (c.consecutive_no_progress + 1) (note_no_progress config now detail c b)
unfolding note_no_progress load_counts
note_no_progress-Stands config now detail c b =
    if_ind (Stands (c.consecutive_no_progress + 1))
      (leb config.no_progress_threshold (c.consecutive_no_progress + 1)
        && dedup_ok config c.last_alert_at now
        && is_valid_slack_channel config.slack_channel)
      (λ _. record {
        counts = record {
          consecutive_no_progress = c.consecutive_no_progress + 1;
          last_alert_at = some (second now);
        };
        loaded = refl;
        counted = refl;
      })
      (λ _. record {
        counts = record c { consecutive_no_progress = c.consecutive_no_progress + 1 };
        loaded = refl;
        counted = refl;
      })

observe_counts-Stands :
    (config : Config) (o : Observation) (c : Counts) (b : Breaker)
    → Stands (next c.consecutive_no_progress o) (observe_counts config o c b)
unfolding observe_counts next load_counts
observe_counts-Stands config o c b = elim (Bool-cases o.picked) [
  | inl yes_it ↦
      rw yes_it (record {
        counts = record c { consecutive_no_progress = 0 };
        loaded = refl;
        counted = refl;
      })
  | inr no_it ↦ elim (Bool-cases o.counts_as_no_progress) [
    | inl stuck_it ↦ rw (no_it, stuck_it) (note_no_progress-Stands config o.now o.detail c b)
    | inr idle ↦ rw (no_it, idle) (record { counts = c; loaded = refl; counted = refl })
  ]
]

observe-Stands :
    (config : Config) (o : Observation) (n : ℕ) (b : Breaker)
    → Stands n b
    → Stands (next n o) (observe config o b)
unfolding observe
observe-Stands config o n b h =
    rw (observe, h.loaded)
      (subst (λ k. Stands (next k o) (observe_counts config o h.counts b)) h.counted
        (observe_counts-Stands config o h.counts b))

tally : ℕ → List Observation → ℕ
tally n [] = n
tally n (o ∷ rest) = tally (next n o) rest

observe_all-Stands :
    (config : Config) (os : List Observation) (n : ℕ) (b : Breaker)
    → Stands n b
    → Stands (tally n os) (observe_all config os b)
unfolding observe_all tally
observe_all-Stands config [] n b h = h
observe_all-Stands config (o ∷ rest) n b h =
    observe_all-Stands config rest (next n o) (observe config o b) (observe-Stands config o n b h)

tally-eq :
    (n : ℕ) (os : List Observation)
    → tally n os ≡ (if any made_progress os then stuck (since_progress os) else n + stuck os)
unfolding tally next any since_progress stuck filter
tally-eq n [] = omega arith
tally-eq n (o ∷ rest) = ground (arith, tally-eq (next n o) rest)

since_progress-none :
    (os : List Observation) → any made_progress os ≡ false → since_progress os ≡ os
unfolding any since_progress
since_progress-none [] e = refl
since_progress-none (o ∷ rest) e = ground (arith, e)

tally-zero : (os : List Observation) → tally 0 os ≡ stuck (since_progress os)
tally-zero os = elim (Bool-cases (any made_progress os)) [
  | inl yes_it ↦ ground (arith, tally-eq 0 os, yes_it)
  | inr no_it ↦ ground (arith, tally-eq 0 os, no_it, since_progress-none os no_it)
]

-- The counter that the next tick reads.
unfoldable pub counter : Breaker → Option ℕ
counter b = elim (load_counts b.file) [ none ↦ none | some c ↦ some c.consecutive_no_progress ]

-- After any observations the counter is the number of ticks without progress since the last tick that
-- made progress, whatever the configuration and whether alerts were sent.
pub observe_all-counter :
    (config : Config) (os : List Observation)
    → counter (observe_all config os new_breaker) ≡ some (stuck (since_progress os))
unfolding counter load_counts
observe_all-counter config os =
    let start : Stands 0 new_breaker = record {
      counts = record { consecutive_no_progress = 0; last_alert_at = none };
      loaded = refl;
      counted = refl;
    } in
    let h = observe_all-Stands config os 0 new_breaker start in
    rw (counter, h.loaded) (ap some (h.counted ∙ tally-zero os))
