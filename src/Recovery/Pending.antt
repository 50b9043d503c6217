-- ===== src/Recovery/Pending.antt =====
-- What `pending_auto_recovery` makes of an approval by `auto_approve_resume`.
use todo_pipeline_orch.Prelude.{
  ℕ, ◌<◌, String, Bool, true, false, Option, none, some, ◌≡◌, refl, ap, ◌∙◌, arith, string_eq,
  nat_eq, ==_refl, if◌then◌else◌, inl, inr, get_last?,
}
use mathlib.Core.Path.{subst, subst₂}
use todo_pipeline_orch.Effects.{ok}
use todo_pipeline_orch.Execution.Text.{is_identifier}
use todo_pipeline_orch.Execution.Env.{Env, free}
use todo_pipeline_orch.Execution.Types.{Attempt, Record, is_settled}
use todo_pipeline_orch.Execution.Store.{Store, load, locked}
use todo_pipeline_orch.Execution.Loading.{load-IsLoaded}
use todo_pipeline_orch.Execution.Numbering.{load-generation}
use todo_pipeline_orch.Recovery.Types.{Intent, Mode, Preview, preview_eq}
use todo_pipeline_orch.Recovery.Evidence.{Evidence}
use todo_pipeline_orch.Recovery.Intents.{
  is_event_id, read_optional, write_intent, is_tick_approval, is_spent, is_cut_short, pending_event,
  pending_locked, pending_auto_recovery,
}
use todo_pipeline_orch.Recovery.Reading.{
  read_optional-IsRead, read_optional-write_intent, load-write_intent,
}
use todo_pipeline_orch.Recovery.Auto.{
  Verdict, attempt_refusal, tick_intent, standing, standing_event, auto_approve_resume,
}
use todo_pipeline_orch.Recovery.Outcomes.{
  Outcome, refuses, withdraws, keeps, grants, Ended, stopped, decided, auto_approve_resume-Ended,
}
use todo_pipeline_orch.Recovery.Policy.{attempt_refusal-eq-none}
use todo_pipeline_orch.Recovery.Previews.{
  IsPreviewOf, snapshot-IsPreviewOf, tick_intent-is_intent, get_last?-positive,
}

-- Only the event of an attempt that was cut short is offered again.
abbrev pub offered : Attempt → Option String → Option String
offered a event = if is_cut_short a.status then event else none

module _ (env : Env) (id : String) (limit : ℕ) (s : Store) where
  -- A tick's approval that may be used, or that is of an attempt that was not cut short.
  pending_auto_recovery-eq :
      (i : Intent) (r : Record) (a : Attempt)
      → env.lock id ≡ free
      → read_optional id s ≡ ok (some i)
      → is_tick_approval i a.generation ≡ true
      → load env id s ≡ ok r
      → get_last? r.attempts ≡ some a
      → is_settled a ≡ true
      → a.generation < limit
      → is_spent i.preview.event_id r.attempts ≡ false
      → (pending_auto_recovery env id limit s).0 ≡ ok (offered a (some i.preview.event_id))
  unfolding pending_auto_recovery pending_locked pending_event locked
  pending_auto_recovery-eq i r a lock found granted loaded last settled below fresh =
      let read = read_optional-IsRead id s found in
      rw (read.named, lock, found) (ground (arith, granted, loaded, last, settled, below, fresh))

module _ (env : Env) (evidence : Evidence) (id : String) (limit : ℕ) (mode : Mode) where
  standing_event-eq-some :
      (r : Record) (g : ℕ) (existing : Option Intent) (s : Store) (event : String)
      → standing_event env evidence id limit mode r g existing s ≡ some event
      → (i : Intent) × (existing ≡ some i)
        × (is_tick_approval i g ≡ true)
        × (is_spent i.preview.event_id r.attempts ≡ false)
        × (event ≡ i.preview.event_id)
  unfolding standing_event standing
  standing_event-eq-some r g none s event e = absurd (cc)
  standing_event-eq-some r g (some i) s event e =
      (i, refl, ground (arith, e), ground (arith, e), ground (arith, e))

  -- A new approval that was written over the store.
  granted-pending :
      (r : Record) (a : Attempt) (existing : Option Intent) (preview : Preview) (s : Store) (n : ℕ)
      → env.lock id ≡ free
      → is_identifier id ≡ true
      → is_event_id evidence.token ≡ true
      → is_spent evidence.token r.attempts ≡ false
      → load env id s ≡ ok r
      → get_last? r.attempts ≡ some a
      → attempt_refusal limit a ≡ none
      → IsPreviewOf id evidence.token a.generation preview
      → (pending_auto_recovery env id limit (write_intent id (tick_intent preview n) tt s).1).0
        ≡ ok (offered a (some evidence.token))
  granted-pending r a existing preview s n lock named good fresh loaded last allowed p =
      let (_, settled, below) = attempt_refusal-eq-none limit a allowed in
      let w = tick_intent preview n in
      let positive : 0 < a.generation =
        omega
          (arith, load-generation env id s r a loaded last, get_last?-positive r.attempts a last) in
      subst
        (λ t.
          (pending_auto_recovery env id limit (write_intent id w tt s).1).0
          ≡ ok (offered a (some t)))
        p.of_event
        (pending_auto_recovery-eq env id limit _ w r a lock
          (read_optional-write_intent id w tt s named
            (tick_intent-is_intent id evidence.token a.generation n preview p good positive))
          (rw p.numbered (==_refl a.generation)) (load-write_intent env id id w tt s ∙ loaded) last
          settled below (rw p.of_event fresh))

  Outcome-pending :
      (r : Record) (a : Attempt) (s : Store) (v : Verdict) (s' : Store)
      → env.lock id ≡ free
      → is_event_id evidence.token ≡ true
      → is_spent evidence.token r.attempts ≡ false
      → load env id s ≡ ok r
      → get_last? r.attempts ≡ some a
      → attempt_refusal limit a ≡ none
      → Outcome env evidence id limit mode r a s v s'
      → v.approved ≡ true
      → (pending_auto_recovery env id limit s').0 ≡ ok (offered a v.event_id)
  Outcome-pending r a s v s' lock good fresh loaded last allowed (refuses no_way _) yes_it =
      absurd (cc)
  Outcome-pending r a s v s' lock good fresh loaded last allowed (withdraws no_way _) yes_it =
      absurd (cc)
  Outcome-pending r a s v s' lock good fresh loaded last allowed
        (keeps existing event found _ stands e same) yes_it =
      let (_, settled, below) = attempt_refusal-eq-none limit a allowed in
      let (i, some_i, granted, unspent, is_event) =
        standing_event-eq-some r a.generation existing s event stands in
      rw (same, e, is_event)
        (pending_auto_recovery-eq env id limit s i r a lock (found ∙ ap ok some_i) granted loaded
          last settled below unspent)
  Outcome-pending r a s v s' lock good fresh loaded last allowed
        (grants existing c p found _ taken _ e same) yes_it =
      rw (same, e)
        (granted-pending r a existing p s _ lock (load-IsLoaded env id s loaded).named good fresh
          loaded last allowed
          (snapshot-IsPreviewOf env evidence id mode evidence.token (some c) s r a p loaded last
            taken))

  Ended-pending :
      (s : Store) (r : Record) (a : Attempt) (v : Verdict) (s' : Store)
      → env.lock id ≡ free
      → is_event_id evidence.token ≡ true
      → is_spent evidence.token r.attempts ≡ false
      → load env id s ≡ ok r
      → get_last? r.attempts ≡ some a
      → Ended env evidence id limit mode s v s'
      → v.approved ≡ true
      → (pending_auto_recovery env id limit s').0 ≡ ok (offered a v.event_id)
  Ended-pending s r a v s' lock good fresh loaded last (stopped no_way _) yes_it = absurd (cc)
  Ended-pending s r a v s' lock good fresh loaded last (decided r' a' _ _ (inl no_way) _) yes_it =
      absurd (cc)
  Ended-pending s r a v s' lock good fresh loaded last
        (decided r' a' loaded' last' (inr (allowed, _)) o) yes_it =
      let same_r : r' ≡ r = ground (arith, loaded, loaded') in
      let same_a : a' ≡ a = ground (arith, last, last', same_r) in
      Outcome-pending r a s v s' lock good fresh loaded last
        (subst (λ a. attempt_refusal limit a ≡ none) same_a allowed)
        (subst₂ (λ r a. Outcome env evidence id limit mode r a s v s') same_r same_a o) yes_it

  -- An approval of a record whose last attempt is `a` is pending where the attempt timed out or was
  -- interrupted, and is not where it exited with an invalid result. This is with the lock free and a
  -- token that is an event's and that no attempt was admitted by.
  pub auto_approve_resume-pending :
      (held : Bool) (s : Store) (r : Record) (a : Attempt)
      → env.lock id ≡ free
      → is_event_id evidence.token ≡ true
      → is_spent evidence.token r.attempts ≡ false
      → load env id s ≡ ok r
      → get_last? r.attempts ≡ some a
      → (auto_approve_resume env evidence id limit mode held s).0.approved ≡ true
      → (pending_auto_recovery env id limit
          (auto_approve_resume env evidence id limit mode held s).1).0
        ≡ ok (offered a (auto_approve_resume env evidence id limit mode held s).0.event_id)
  auto_approve_resume-pending held s r a lock good fresh loaded last yes_it =
      Ended-pending s r a _ _ lock good fresh loaded last
        (auto_approve_resume-Ended env evidence id limit mode held s) yes_it
