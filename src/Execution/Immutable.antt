-- ===== src/Execution/Immutable.antt =====
-- What an accepted `update_attempt` cannot change.
use todo_pipeline_orch.Prelude.{
  ℕ, String, true, false, Option, none, some, List, [], ◌∷◌, ap, length, take, list_eq,
  list_beq_iff, ◌≡◌, ◌⊎◌, refl, arith, ◌||◌, not, ◌==◌, Eq, init, get_last?, init-append,
  get_last?-append, option_beq_iff, option_eq, nat_eq,
}
use mathlib.Core.Path.{subst₂}
use todo_pipeline_orch.Effects.{
  ok, require, >>=-eq-ok, require-eq-ok, terminal_immutable, launch_immutable, cgroups_append_only,
  direct_append_only,
}
use todo_pipeline_orch.Prelude.Int.{int_eq}
use todo_pipeline_orch.Execution.Cgroup.{cgroup_eq}
use todo_pipeline_orch.Execution.Env.{Env}
use todo_pipeline_orch.Execution.Types.{
  Attempt, Record, process_eq, is_terminal, status_eq, status_beq_iff,
}
use todo_pipeline_orch.Execution.Store.{Store, load, write}
use todo_pipeline_orch.Execution.Keeps.{locked-eq-ok, and_then-eq-ok}
use todo_pipeline_orch.Execution.Update.{
  Changes, get, launch_kept, keeps_set, extends, update_guard, apply_changes, update_locked,
  update_attempt, update_record,
}
use todo_pipeline_orch.Execution.Transitions.{IsUpdate, updated, update_record-IsUpdate}

-- A value that was there is still there.
abbrev pub Stays : {A : Type 0} → Option A → Option A → Type 0
Stays none new = Unit
Stays (some a) new = new ≡ some a

-- The list goes on from the one that was there.
abbrev pub Grows : {A : Type 0} → List A → List A → Type 0
Grows old new = take (length old) new ≡ old

pub record KeepsEvidence (old new : Attempt) : Type 0 where
  pub generation : new.generation ≡ old.generation
  pub recovery_event : new.recovery_event ≡ old.recovery_event
  pub outcome : (is_terminal old.status ≡ false) ⊎ (new.status ≡ old.status)
  pub exit_code : Stays old.exit_code new.exit_code
  pub exit_signal : Stays old.exit_signal new.exit_signal
  pub started : Stays old.started_monotonic new.started_monotonic
  pub deadline : Stays old.deadline_monotonic new.deadline_monotonic
  pub supervisor : Stays old.supervisor new.supervisor
  pub client_process : Stays old.client_process new.client_process
  pub owned_cgroups : Grows old.owned_cgroups new.owned_cgroups
  pub direct_processes : Grows old.direct_processes new.direct_processes

keeps_set-Stays :
    {A : Type 0} ⦃e : Eq A⦄ (change : Option (Option A)) (old : Option A)
    → keeps_set change old ≡ true
    → Stays old (get change old)
unfolding keeps_set
keeps_set-Stays none none h = tt
keeps_set-Stays none (some a) h = refl
keeps_set-Stays (some new) none h = tt
keeps_set-Stays (some new) (some a) h = (option_beq_iff new (some a)).0 h

take-length : {A : Type 0} (l : List A) → take (length l) l ≡ l
take-length [] = refl
take-length (x ∷ l) = ap (λ t. x ∷ t) (take-length l)

extends-Grows :
    {A : Type 0} ⦃e : Eq A⦄ (change : Option (List A)) (old : List A)
    → extends change old ≡ true
    → Grows old (get change old)
unfolding extends
extends-Grows none old h = take-length old
extends-Grows (some new) old h = (list_beq_iff (take (length old) new) old).0 h

update_guard-KeepsEvidence :
    (c : Changes) (a : Attempt) → update_guard c a ≡ ok tt → KeepsEvidence a (apply_changes c a)
unfolding update_guard apply_changes
update_guard-KeepsEvidence c a e =
    let (_, outcome, e₁) =
      >>=-eq-ok
        (require (not (is_terminal a.status) || get c.status a.status == a.status)
          terminal_immutable)
        _ e in
    let (_, launch, e₂) = >>=-eq-ok (require (launch_kept c a) launch_immutable) _ e₁ in
    let (_, cgroups, direct) =
      >>=-eq-ok (require (extends c.owned_cgroups a.owned_cgroups) cgroups_append_only) _ e₂ in
    let kept : launch_kept c a ≡ true = require-eq-ok _ _ launch in
    record {
      generation = refl;
      recovery_event = refl;
      outcome =
          ground
            (arith, require-eq-ok _ _ outcome, status_beq_iff (get c.status a.status) a.status);
      exit_code = keeps_set-Stays c.exit_code a.exit_code (ground (arith, kept));
      exit_signal = keeps_set-Stays c.exit_signal a.exit_signal (ground (arith, kept));
      started = keeps_set-Stays c.started_monotonic a.started_monotonic (ground (arith, kept));
      deadline = keeps_set-Stays c.deadline_monotonic a.deadline_monotonic (ground (arith, kept));
      supervisor = keeps_set-Stays c.supervisor a.supervisor (ground (arith, kept));
      client_process = keeps_set-Stays c.client_process a.client_process (ground (arith, kept));
      owned_cgroups =
          extends-Grows c.owned_cgroups a.owned_cgroups
            (require-eq-ok _ cgroups_append_only cgroups);
      direct_processes =
          extends-Grows c.direct_processes a.direct_processes
            (require-eq-ok _ direct_append_only direct);
    }

update_attempt-IsUpdate :
    (env : Env) (id : String) (generation : ℕ) (c : Changes) (s : Store) (r r' : Record)
    → load env id s ≡ ok r
    → (update_attempt env id generation c s).0 ≡ ok r'
    → IsUpdate env generation c r r'
unfolding update_attempt update_locked write
update_attempt-IsUpdate env id generation c s r r' l e =
    let (_, ran) = locked-eq-ok env id (update_locked env id generation c) s e in
    let (r₁, l₁, _, e₁) = and_then-eq-ok (load env id s) _ s ran in
    let (r₂, u, _, e₂) = and_then-eq-ok (update_record env generation c r₁) _ s e₁ in
    let same : r₁ ≡ r = ground (arith, l₁, l) in
    let result : r₂ ≡ r' = ground (arith, e₂) in
    subst₂ (IsUpdate env generation c) same result (update_record-IsUpdate env generation c r₁ u)

-- An accepted update of an execution keeps all attempts but the last, the registration and the
-- standing approval; of the last attempt it keeps the generation, the recovery event, the exit code and
-- signal, the start, the deadline, the supervisor and the client process that were recorded, and, if the
-- attempt was terminal, its status; and its control groups and direct processes only grow at the end.
pub update_attempt-KeepsEvidence :
    (env : Env) (id : String) (generation : ℕ) (c : Changes) (s : Store) (r r' : Record)
    (old new : Attempt)
    → load env id s ≡ ok r
    → (update_attempt env id generation c s).0 ≡ ok r'
    → get_last? r.attempts ≡ some old
    → get_last? r'.attempts ≡ some new
    → (init r'.attempts ≡ init r.attempts)
      × (r'.registration ≡ r.registration)
      × (r'.approved_recovery ≡ r.approved_recovery)
      × KeepsEvidence old new
unfolding updated
update_attempt-KeepsEvidence env id generation c s r r' old new l e at at' =
    let u = update_attempt-IsUpdate env id generation c s r r' l e in
    let next = apply_changes c u.last in
    let old_is : u.last ≡ old = ground (arith, u.at, at) in
    let new_is : next ≡ new =
      ground (arith, u.result, get_last?-append (init r.attempts) next, at') in
    (
      rw u.result (init-append (init r.attempts) next),
      rw u.result refl,
      rw u.result refl,
      subst₂ KeepsEvidence old_is new_is (update_guard-KeepsEvidence c u.last u.allowed),
    )
