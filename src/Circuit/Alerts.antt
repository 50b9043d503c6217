-- ===== src/Circuit/Alerts.antt =====
-- When the circuit breaker sends alerts.
use todo_pipeline_orch.Prelude.{
  ℕ, ◌+◌, ◌*◌, ◌≤◌, String, true, Option, none, some, List, [], ◌∷◌, ◌≡◌, refl, arith, not, ◌&&◌,
  if_ind, leb,
}
use todo_pipeline_orch.Circuit.Breaker.{
  Counts, Breaker, Config, Observation, load_counts, second, hours, dedup_ok,
  is_valid_slack_channel, note_no_progress, observe_counts, observe,
}
use todo_pipeline_orch.Circuit.Counting.{observe_all, new_breaker}

-- An alert at `now` after the others: its count is at the threshold, and the last of the others was sent
-- long enough before, as far as its whole seconds tell.
abbrev pub MaySend : Config → ℕ × ℕ × String → List (ℕ × ℕ × String) → Type 0
MaySend config (now, n, detail) [] = config.no_progress_threshold ≤ n
MaySend config (now, n, detail) ((before, _, _) ∷ rest) =
    (config.no_progress_threshold ≤ n)
    × (second before * 1000000 + hours config.alert_dedup_hours ≤ now)

-- Every alert of the log, the newest first, might be sent after those before it.
abbrev pub WellSpaced : Config → List (ℕ × ℕ × String) → Type 0
WellSpaced config [] = Unit
WellSpaced config (alert ∷ rest) = MaySend config alert rest × WellSpaced config rest

-- The stamp of the newest alert.
abbrev newest : List (ℕ × ℕ × String) → Option ℕ
newest [] = none
newest ((now, _, _) ∷ rest) = some (second now)

-- The file decodes and carries the stamp of the newest alert.
record IsStamped (config : Config) (b : Breaker) : Type 0 where
  counts : Counts
  loaded : load_counts b.file ≡ some counts
  stamped : counts.last_alert_at ≡ newest b.sent
  spaced : WellSpaced config b.sent

MaySend-of_guard :
    (config : Config) (now n : ℕ) (detail : String) (last : Option ℕ) (sent : List (ℕ × ℕ × String))
    → leb config.no_progress_threshold n ≡ true
    → dedup_ok config last now ≡ true
    → last ≡ newest sent
    → MaySend config (now, n, detail) sent
unfolding dedup_ok
MaySend-of_guard config now n detail last [] enough apart e = ground (arith, enough)
MaySend-of_guard config now n detail none (x ∷ rest) enough apart e = absurd (cc)
MaySend-of_guard config now n detail (some s) ((before, m, text) ∷ rest) enough apart e =
    (ground (arith, enough), ground (arith, apart, e))

note_no_progress-IsStamped :
    (config : Config) (now : ℕ) (detail : String) (c : Counts) (b : Breaker)
    → c.last_alert_at ≡ newest b.sent
    → WellSpaced config b.sent
    → IsStamped config (note_no_progress config now detail c b)
unfolding note_no_progress load_counts
note_no_progress-IsStamped config now detail c b e spaced =
    let n = c.consecutive_no_progress + 1 in
    if_ind (IsStamped config)
      (leb config.no_progress_threshold n
        && dedup_ok config c.last_alert_at now
        && is_valid_slack_channel config.slack_channel)
      (λ sends. record {
        counts = record { consecutive_no_progress = n; last_alert_at = some (second now) };
        loaded = refl;
        stamped = refl;
        spaced = (
          MaySend-of_guard config now n detail c.last_alert_at b.sent (ground (arith, sends))
              (ground (arith, sends)) e,
          spaced,
        );
      })
      (λ _. record {
        counts = record c { consecutive_no_progress = n };
        loaded = refl;
        stamped = e;
        spaced = spaced;
      })

observe-IsStamped :
    (config : Config) (o : Observation) (b : Breaker)
    → IsStamped config b
    → IsStamped config (observe config o b)
unfolding observe observe_counts load_counts
observe-IsStamped config o b h =
    rw (observe, h.loaded)
      (if_ind (IsStamped config) o.picked
        (λ _. record {
          counts = record h.counts { consecutive_no_progress = 0 };
          loaded = refl;
          stamped = h.stamped;
          spaced = h.spaced;
        })
        (λ _.
          if_ind (IsStamped config) (not o.counts_as_no_progress)
            (λ _. record {
              counts = h.counts;
              loaded = refl;
              stamped = h.stamped;
              spaced = h.spaced;
            })
            (λ _. note_no_progress-IsStamped config o.now o.detail h.counts b h.stamped h.spaced)))

observe_all-IsStamped :
    (config : Config) (os : List Observation) (b : Breaker)
    → IsStamped config b
    → IsStamped config (observe_all config os b)
unfolding observe_all
observe_all-IsStamped config [] b h = h
observe_all-IsStamped config (o ∷ rest) b h =
    observe_all-IsStamped config rest (observe config o b) (observe-IsStamped config o b h)

-- Over any observations every alert has a count at the threshold, and is sent no earlier than the
-- window after the whole second of the alert before it.
pub observe_all-WellSpaced :
    (config : Config) (os : List Observation)
    → WellSpaced config (observe_all config os new_breaker).sent
unfolding load_counts
observe_all-WellSpaced config os =
    let start : IsStamped config new_breaker = record {
      counts = record { consecutive_no_progress = 0; last_alert_at = none };
      loaded = refl;
      stamped = refl;
      spaced = tt;
    } in
    (observe_all-IsStamped config os new_breaker start).spaced
