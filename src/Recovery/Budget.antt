-- ===== src/Recovery/Budget.antt =====
-- How many times the tick may still replace its approval of an attempt.
use todo_pipeline_orch.Prelude.{
  ℕ, ◌≤◌, ◌+◌, ◌-◌, String, Bool, true, false, Option, none, some, ◌≡◌, refl, ap, ◌∙◌, arith, ◌==◌,
  string_eq, nat_eq, ==_refl, ◌&&◌, ltb, if◌then◌else◌, inl, inr, if_ind, Bool-cases, length,
  get_last?,
}
use todo_pipeline_orch.Prelude.Dict.{lookup, lookup-insert}
use todo_pipeline_orch.Effects.{Result, ok, err, Result-cases}
use todo_pipeline_orch.Execution.Text.{is_identifier}
use todo_pipeline_orch.Execution.Env.{Env}
use todo_pipeline_orch.Execution.Types.{Attempt, Record}
use todo_pipeline_orch.Execution.Store.{Store, File, garbage, holds, upgrade, load}
use todo_pipeline_orch.Execution.Keeps.{locked-cases}
use todo_pipeline_orch.Execution.Loading.{load-IsLoaded}
use todo_pipeline_orch.Execution.Numbering.{load-generation, length-clear_direct}
use todo_pipeline_orch.Recovery.Types.{Preview, Intent, is_tick, is_approved}
use todo_pipeline_orch.Recovery.Intents.{
  is_intent, read_file, read_optional, write_intent, withdraw, is_tick_approval,
  retract_stale_tick_approval, invalidate_locked, invalidate_recovery,
}
use todo_pipeline_orch.Recovery.Reading.{read_optional-IsRead, read_optional-write_intent}
use todo_pipeline_orch.Recovery.Auto.{next_reissues, max_reissues, tick_intent}

-- How many the attempt of the generation `g` has left, by what is read of the intent.
unfoldable pub left : ℕ → Result (Option Intent) → ℕ
left g (ok (some i)) =
    if is_tick i.approver && i.preview.generation == g then max_reissues - i.reissues else 4
left g (ok none) = 4
left g (err e) = 0

-- The number of attempts on file.
abbrev pub on_file : Option (File Record) → ℕ
on_file none = 0
on_file (some garbage) = 0
on_file (some (holds r)) = length r.attempts

length-upgrade : (r : Record) → length (upgrade r).attempts ≡ length r.attempts
unfolding upgrade
length-upgrade r = elim (Bool-cases (r.version == 3)) [
  | inl new ↦ rw new refl
  | inr old ↦ rw old (length-clear_direct r.attempts)
]

pub load-on_file :
    (env : Env) (id : String) (s : Store) (r : Record) (a : Attempt)
    → load env id s ≡ ok r
    → get_last? r.attempts ≡ some a
    → a.generation ≡ on_file (lookup id s.records)
load-on_file env id s r a loaded last =
    let l = load-IsLoaded env id s loaded in
    load-generation env id s r a loaded last ∙ (rw (l.stored, l.upgraded) (length-upgrade l.found))

withdraw-is_intent :
    (id : String) (i : Intent) → is_intent id i ≡ true → is_intent id (withdraw i) ≡ true
unfolding is_intent
withdraw-is_intent id i valid = valid

module _ (id : String) (g : ℕ) where
  unfoldable pub budget : Store → ℕ
  budget s = left g (read_optional id s)

  -- A withdrawn intent leaves as much.
  pub budget-withdraw :
      {A : Type 0} (i : Intent) (v : A) (s : Store)
      → read_optional id s ≡ ok (some i)
      → budget (write_intent id (withdraw i) v s).1 ≡ budget s
  unfolding budget left
  budget-withdraw i v s found =
      let read = read_optional-IsRead id s found in
      rw
        (
          read_optional-write_intent id (withdraw i) v s read.named
              (withdraw-is_intent id i read.valid),
          found,
        )
        refl

  pub budget-retract : (h : ℕ) (s : Store) → budget (retract_stale_tick_approval id h s) ≡ budget s
  unfolding retract_stale_tick_approval
  budget-retract h s = elim (Result-cases (read_optional id s)) [
    | inr (e, broken) ↦ rw (retract_stale_tick_approval, broken) refl
    | inl (none, missing) ↦ rw (retract_stale_tick_approval, missing) refl
    | inl (some i, found) ↦
        rw (retract_stale_tick_approval, found)
          (if_ind (λ t. budget t ≡ budget s) (is_tick_approval i h)
            (λ _. budget-withdraw i tt s found) (λ _. refl))
  ]

  pub budget-invalidate :
      (env : Env) (event : String) (s : Store)
      → budget (invalidate_recovery env id event s).1 ≡ budget s
  unfolding invalidate_recovery invalidate_locked
  budget-invalidate env event s = elim (locked-cases env id (invalidate_locked env id event) s) [
    | inr (e, stuck) ↦ rw stuck refl
    | inl ran ↦ rw ran (elim (Result-cases (read_optional id s)) [
      | inr (e, broken) ↦ rw (invalidate_locked, broken) refl
      | inl (none, missing) ↦ rw (invalidate_locked, missing) refl
      | inl (some i, found) ↦
          rw (invalidate_locked, found)
            (if_ind (λ (t : Result Bool × Store). budget t.1 ≡ budget s)
              (is_approved i.status && is_tick i.approver && i.preview.event_id == event)
              (λ _. budget-withdraw i true s found) (λ _. refl))
    ])
  ]

  -- A new approval uses up one.
  pub budget-tick_intent :
      (p : Preview) (n : ℕ) (s : Store)
      → is_identifier id ≡ true
      → p.generation ≡ g
      → budget (write_intent id (tick_intent p n) tt s).1 ≤ max_reissues - n
  unfolding budget left read_optional read_file write_intent
  budget-tick_intent p n s named numbered = elim (Bool-cases (is_intent id (tick_intent p n))) [
    | inl valid ↦ ground (
      arith,
      named,
      valid,
      numbered,
      ==_refl id,
      lookup-insert id id (holds (tick_intent p n)) s.intents,
    )
    | inr wrong ↦
        ground
          (arith, named, wrong, ==_refl id, lookup-insert id id (holds (tick_intent p n)) s.intents)
  ]

  pub budget-next :
      (existing : Option Intent)
      → ltb max_reissues (next_reissues existing g) ≡ false
      → 1 + (max_reissues - next_reissues existing g) ≤ left g (ok existing)
  unfolding next_reissues left
  budget-next none few = omega arith
  budget-next (some i) few = ground (arith, few)

  pub budget-found :
      (s : Store) (existing : Option Intent)
      → read_optional id s ≡ ok existing
      → budget s ≡ left g (ok existing)
  unfolding budget
  budget-found s existing found = ap (left g) found

  left-bound : (found : Result (Option Intent)) → left g found ≤ max_reissues + 1
  unfolding left
  left-bound (err e) = omega arith
  left-bound (ok none) = omega arith
  left-bound (ok (some i)) = ground arith

  pub budget-bound : (s : Store) → budget s ≤ max_reissues + 1
  unfolding budget
  budget-bound s = left-bound (read_optional id s)
