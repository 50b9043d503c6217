-- ===== src/Recovery/Policy.antt =====
-- What an approval by `auto_approve_resume` rests on, and what it leaves to an operator.
use todo_pipeline_orch.Prelude.{
  ℕ, ◌<◌, String, Bool, true, false, none, some, ◌≡◌, ◌∙◌, arith, string_eq, nat_eq, inl, inr,
  get_last?, length,
}
use todo_pipeline_orch.Effects.{ok}
use todo_pipeline_orch.Execution.Env.{Env}
use todo_pipeline_orch.Execution.Types.{Attempt, Record, is_settled}
use todo_pipeline_orch.Execution.Store.{Store, load, assert_worktree_peers_resolved}
use todo_pipeline_orch.Execution.Numbering.{load-generation}
use todo_pipeline_orch.Recovery.Types.{Mode, Intent, is_operator}
use todo_pipeline_orch.Recovery.Evidence.{Evidence}
use todo_pipeline_orch.Recovery.Intents.{read_optional, retract_stale_tick_approval}
use todo_pipeline_orch.Recovery.Auto.{
  Verdict, is_eligible, attempt_refusal, is_operator_pending, auto_approve_resume,
}
use todo_pipeline_orch.Recovery.Outcomes.{
  Outcome, refuses, withdraws, keeps, grants, Ended, stopped, decided, auto_approve_resume-Ended,
}

-- The grounds of an approval of the generation `g`.
pub record IsJustified (env : Env) (id : String) (limit : ℕ) (s : Store) (v : Verdict)
    : Type 0 where
  pub r : Record
  pub a : Attempt
  pub loaded : load env id s ≡ ok r
  pub last : get_last? r.attempts ≡ some a
  pub eligible : is_eligible a ≡ true
  pub settled : is_settled a ≡ true
  pub below : a.generation < limit
  pub counted : v.generation ≡ length r.attempts
  pub peers : assert_worktree_peers_resolved env id s ≡ ok tt

pub attempt_refusal-eq-none :
    (limit : ℕ) (a : Attempt)
    → attempt_refusal limit a ≡ none
    → (is_eligible a ≡ true) × (is_settled a ≡ true) × (a.generation < limit)
unfolding attempt_refusal
attempt_refusal-eq-none limit a e = ground arith

module _ (env : Env) (evidence : Evidence) (id : String) (limit : ℕ) (mode : Mode) (held : Bool)
    (s : Store) where
  Outcome-generation :
      (r : Record) (a : Attempt) (v : Verdict) (s' : Store)
      → Outcome env evidence id limit mode r a s v s'
      → v.approved ≡ true
      → v.generation ≡ a.generation
  Outcome-generation r a v s' (refuses no_way _) yes_it = absurd (cc)
  Outcome-generation r a v s' (withdraws no_way _) yes_it = absurd (cc)
  Outcome-generation r a v s' (keeps _ _ _ _ _ e _) yes_it = rw e
  Outcome-generation r a v s' (grants _ _ _ _ _ _ _ e _) yes_it = rw e

  Ended-IsJustified :
      (v : Verdict) (s' : Store)
      → Ended env evidence id limit mode s v s'
      → v.approved ≡ true
      → IsJustified env id limit s v
  Ended-IsJustified v s' (stopped no_way _) yes_it = absurd (cc)
  Ended-IsJustified v s' (decided r a loaded last (inl no_way) o) yes_it = absurd (cc)
  Ended-IsJustified v s' (decided r a loaded last (inr (allowed, peers)) o) yes_it =
      let (eligible, settled, below) = attempt_refusal-eq-none limit a allowed in
      record {
        r = r;
        a = a;
        loaded = loaded;
        last = last;
        eligible = eligible;
        settled = settled;
        below = below;
        counted = Outcome-generation r a v s' o yes_it ∙ load-generation env id s r a loaded last;
        peers = peers;
      }

  -- An approval is of the last attempt of the record: it timed out, was interrupted, or exited with an
  -- invalid result; it is settled, its generation is below the limit and is the number of attempts so
  -- far, and no other execution of the worktree is unresolved.
  pub auto_approve_resume-IsJustified :
      (auto_approve_resume env evidence id limit mode held s).0.approved ≡ true
      → IsJustified env id limit s (auto_approve_resume env evidence id limit mode held s).0
  auto_approve_resume-IsJustified yes_it =
      Ended-IsJustified _ _ (auto_approve_resume-Ended env evidence id limit mode held s) yes_it

  retract-operator :
      (g : ℕ) (i : Intent)
      → read_optional id s ≡ ok (some i)
      → is_operator i.approver ≡ true
      → retract_stale_tick_approval id g s ≡ s
  unfolding retract_stale_tick_approval
  retract-operator g i found own = rw (found, retract_stale_tick_approval) (ground (arith, own))

  Ended-operator :
      (i : Intent) (v : Verdict) (s' : Store)
      → Ended env evidence id limit mode s v s'
      → read_optional id s ≡ ok (some i)
      → is_operator_pending (some i) ≡ true
      → (v.approved ≡ false) × (s' ≡ s)
  unfolding is_operator_pending
  Ended-operator i v s' (stopped no_way same) found own = (no_way, same)
  Ended-operator i v s' (decided r a _ _ _ (refuses no_way same)) found own = (no_way, same)
  Ended-operator i v s' (decided r a _ _ _ (withdraws no_way same)) found own =
      (no_way, same ∙ retract-operator a.generation i found (ground (arith, own)))
  Ended-operator i v s' (decided r a _ _ _ (keeps j _ found' clear _ _ _)) found own =
      absurd (ground (arith, found, found', clear, own))
  Ended-operator i v s' (decided r a _ _ _ (grants j _ _ found' clear _ _ _ _)) found own =
      absurd (ground (arith, found, found', clear, own))

  -- While an operator's recovery is prepared or approved, the tick approves nothing and changes no
  -- file.
  pub auto_approve_resume-operator :
      (i : Intent)
      → read_optional id s ≡ ok (some i)
      → is_operator_pending (some i) ≡ true
      → ((auto_approve_resume env evidence id limit mode held s).0.approved ≡ false)
        × ((auto_approve_resume env evidence id limit mode held s).1 ≡ s)
  auto_approve_resume-operator i found own =
      Ended-operator i _ _ (auto_approve_resume-Ended env evidence id limit mode held s) found own
