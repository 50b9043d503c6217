-- ===== src/Backlog/Eligible.antt =====
-- Which issues are candidates.
use todo_pipeline_orch.Prelude.{
  true, false, Option, none, some, ◌≡◌, inl, inr, ◌↔◌, refl, arith, nat_eq, string_eq, contains,
  find?, All, Bool-cases,
}
use todo_pipeline_orch.Prelude.Checked.{Checked, ok, err}
use todo_pipeline_orch.Backlog.Types.{PlanCode, PlanSource, Issue, BlockedReason, EligibleTodo}
use todo_pipeline_orch.Backlog.Source.{Files, resolve_plan_source}
use todo_pipeline_orch.Backlog.Compile.{
  triage_pending_labels, Selection, triage_of, later_reason, status_reason, has_one, plan_of,
  judge_issue,
}

-- What the selection asks of an issue.
pub record IsSelectable (s : Selection) (files : Files) (i : Issue) : Type 0 where
  pub opened : i.is_open ≡ true
  pub not_held : contains "tpo:on-hold" i.labels ≡ false
  pub triaged : All (λ l. contains l i.labels ≡ false) triage_pending_labels
  pub unregistered : contains i.number s.active_registrations ≡ false
  pub ready : contains "ready-for-agent" i.labels ≡ true
  pub not_in_flight : contains i.todo_id s.in_flight_ids ≡ false
  pub not_in_progress : contains "tpo:in-progress" i.labels ≡ false
  pub independent : i.blocked_by_open ≡ some 0
  pub planned : s.requires_plan ≡ true → (p : PlanSource) × (resolve_plan_source files i ≡ ok p)
  pub one_branch : has_one i.branch_values ≡ true

triage_none :
    (i : Issue)
    → (triage_of i ≡ none) ↔ All (λ l. contains l i.labels ≡ false) triage_pending_labels
unfolding find?
triage_none i = ground arith

abbrev LaterOk : Selection → Issue → Type 0
LaterOk s i =
    (contains i.number s.active_registrations ≡ false)
    × (contains "ready-for-agent" i.labels ≡ true)
    × (contains i.todo_id s.in_flight_ids ≡ false)
    × (contains "tpo:in-progress" i.labels ≡ false)
    × (i.blocked_by_open ≡ some 0)

later_none : (s : Selection) (i : Issue) → (later_reason s i ≡ none) ↔ LaterOk s i
unfolding later_reason
later_none s i = ground arith

abbrev StatusOk : Selection → Issue → Type 0
StatusOk s i =
    (i.is_open ≡ true)
    × (contains "tpo:on-hold" i.labels ≡ false)
    × (triage_of i ≡ none)
    × (later_reason s i ≡ none)

status_none : (s : Selection) (i : Issue) → (status_reason s i ≡ none) ↔ StatusOk s i
unfolding status_reason
status_none s i = ground arith

plan_of-ok :
    (s : Selection) (files : Files) (i : Issue) {p : Option PlanSource}
    → plan_of s files i ≡ ok p
    → s.requires_plan ≡ true
    → (q : PlanSource) × (resolve_plan_source files i ≡ ok q)
unfolding plan_of
plan_of-ok s files i e needed = on_resolved (resolve_plan_source files i) refl
  where
    on_resolved :
        (r : Checked PlanCode PlanSource)
        → resolve_plan_source files i ≡ r
        → (q : PlanSource) × (resolve_plan_source files i ≡ ok q)
    on_resolved (ok q) r = (q, r)
    on_resolved (err c) r = absurd (cc (rw needed at (rw r at e)))

plan_of-total :
    (s : Selection) (files : Files) (i : Issue)
    → (s.requires_plan ≡ true → (q : PlanSource) × (resolve_plan_source files i ≡ ok q))
    → (p : Option PlanSource) × (plan_of s files i ≡ ok p)
unfolding plan_of
plan_of-total s files i planned = elim (Bool-cases s.requires_plan) [
  | inl needed ↦ let (q, e) = planned needed in (some q, rw needed (rw e refl))
  | inr free ↦ (none, rw free refl)
]

pub judge_issue-ok :
    (s : Selection) (files : Files) (i : Issue) {t : EligibleTodo}
    → judge_issue s files i ≡ ok t
    → IsSelectable s files i × (t.entry ≡ i)
unfolding judge_issue
judge_issue-ok s files i {t} e = on_status (status_reason s i) refl (plan_of s files i) refl
  where
    on_status :
        (r : Option BlockedReason)
        → status_reason s i ≡ r
        → (p : Checked BlockedReason (Option PlanSource)) → plan_of s files i ≡ p
        → IsSelectable s files i × (t.entry ≡ i)
    on_status (some r) a p b = absurd (cc (rw (a, judge_issue) at e))
    on_status none a (err c) b = absurd (cc (rw b at (rw (a, judge_issue) at e)))
    on_status none a (ok p) b =
        let found = rw b at (rw (a, judge_issue) at e) in
        let status = (status_none s i).0 a in
        let later = (later_none s i).0 status.3 in
        let one : has_one i.branch_values ≡ true = ground (arith, found) in
        (
          record {
            opened = status.0;
            not_held = status.1;
            triaged = (triage_none i).0 status.2;
            unregistered = later.0;
            ready = later.1;
            not_in_flight = later.2;
            not_in_progress = later.3;
            independent = later.4;
            planned = plan_of-ok s files i b;
            one_branch = one;
          },
          cc (rw one at found),
        )

pub judge_issue-total :
    (s : Selection) (files : Files) (i : Issue)
    → IsSelectable s files i
    → (t : EligibleTodo) × (judge_issue s files i ≡ ok t) × (t.entry ≡ i)
unfolding judge_issue
judge_issue-total s files i v =
    let later : later_reason s i ≡ none =
      (later_none s i).1
        (v.unregistered, v.ready, v.not_in_flight, v.not_in_progress, v.independent) in
    let status : status_reason s i ≡ none =
      (status_none s i).1 (v.opened, v.not_held, (triage_none i).1 v.triaged, later) in
    let (p, e) = plan_of-total s files i v.planned in
    (record { entry = i; plan = p }, rw (status, judge_issue) (rw e (rw v.one_branch refl)), refl)
