-- ===== src/Backlog/Candidates.antt =====
-- The candidates are the eligible issues, in the order of their numbers, and every other has a reason.
use todo_pipeline_orch.Prelude.{
  List, [], ◌∷◌, ◌++◌, map, ◌≡◌, inl, inr, ◌↔◌, refl, sym, ap, subst, ◌∙◌, nat_eq, string_eq, leb,
  Among, Bool-cases,
}
use mathlib.Core.List.{append_assoc, append-nil}
use todo_pipeline_orch.Prelude.Checked.{Checked, ok, err, Checked-cases}
use todo_pipeline_orch.Backlog.Types.{Issue, BlockedReason, EligibleTodo}
use todo_pipeline_orch.Backlog.Source.{Files}
use todo_pipeline_orch.Backlog.Compile.{
  Selection, judge_issue, insert_issue, sort_issues, EligibilityResult, record_judgement,
  compile_loop, compile_eligible_issues,
}
use todo_pipeline_orch.Backlog.Eligible.{IsSelectable, judge_issue-ok, judge_issue-total}

module _ (s : Selection) (files : Files) where
  -- The candidates among some issues.
  unfoldable pub chosen : List Issue → List EligibleTodo
  chosen [] = []
  chosen (i ∷ rest) = elim (judge_issue s files i) [ ok t ↦ t ∷ chosen rest | err r ↦ chosen rest ]

  module _ (i : Issue) (rest : List Issue) where
    pub chosen-ok :
        {t : EligibleTodo} → judge_issue s files i ≡ ok t → chosen (i ∷ rest) ≡ t ∷ chosen rest
    unfolding chosen
    chosen-ok e = rw (e, chosen) refl

    pub chosen-err :
        {c : BlockedReason} → judge_issue s files i ≡ err c → chosen (i ∷ rest) ≡ chosen rest
    unfolding chosen
    chosen-err e = rw (e, chosen) refl

    pub compile_loop-step :
        (r : EligibilityResult) {v : Checked BlockedReason EligibleTodo}
        → judge_issue s files i ≡ v
        → compile_loop s files (i ∷ rest) r ≡ compile_loop s files rest (record_judgement i v r)
    unfolding compile_loop
    compile_loop-step r e = ap (λ v. compile_loop s files rest (record_judgement i v r)) e

  compile_loop-candidates :
      (issues : List Issue) (r : EligibilityResult)
      → (compile_loop s files issues r).candidates ≡ r.candidates ++ chosen issues
  unfolding compile_loop chosen
  compile_loop-candidates [] r = sym (append-nil r.candidates)
  compile_loop-candidates (i ∷ rest) r = elim (Checked-cases (judge_issue s files i)) [
    | inl (t, e) ↦
        rw (compile_loop-step i rest r e, chosen-ok i rest e)
          (compile_loop-candidates rest (record_judgement i (ok t) r)
            ∙ append_assoc r.candidates (t ∷ []) (chosen rest))
    | inr (c, e) ↦
        rw (compile_loop-step i rest r e, chosen-err i rest e)
          (compile_loop-candidates rest (record_judgement i (err c) r))
  ]

  chosen-Among :
      (i : Issue) (issues : List Issue)
      → Among i (map (λ t. t.entry) (chosen issues))
      → Among i issues × IsSelectable s files i
  unfolding chosen
  chosen-Among i [] m = absurd m
  chosen-Among i (j ∷ rest) m = elim (Checked-cases (judge_issue s files j)) [
    | inr (c, e) ↦
        let (later, held) = chosen-Among i rest (rw (e, chosen) at m) in (inr later, held)
    | inl (t, e) ↦
        let (held, entry) = judge_issue-ok s files j e in
        elim (rw (e, chosen) at m) [
          | inl same ↦ (inl (same ∙ entry), subst (IsSelectable s files) (sym (same ∙ entry)) held)
          | inr there ↦ let (later, ok_i) = chosen-Among i rest there in (inr later, ok_i)
        ]
  ]

  Among-chosen :
      (i : Issue) (issues : List Issue)
      → Among i issues
      → IsSelectable s files i
      → Among i (map (λ t. t.entry) (chosen issues))
  unfolding chosen
  Among-chosen i [] m held = absurd m
  Among-chosen i (j ∷ rest) (inl same) held =
      let (t, e, entry) = judge_issue-total s files j (subst (IsSelectable s files) same held) in
      rw (chosen-ok j rest e) (inl (same ∙ sym entry))
  Among-chosen i (j ∷ rest) (inr there) held = elim (Checked-cases (judge_issue s files j)) [
    | inl (t, e) ↦ rw (chosen-ok j rest e) (inr (Among-chosen i rest there held))
    | inr (c, e) ↦ rw (chosen-err j rest e) (Among-chosen i rest there held)
  ]

insert_issue-Among : (i j : Issue) (l : List Issue) → Among i (insert_issue j l) ↔ Among i (j ∷ l)
unfolding insert_issue
insert_issue-Among i j [] = ((λ m. m), λ m. m)
insert_issue-Among i j (k ∷ rest) = elim (Bool-cases (leb j.number k.number)) [
  | inl e ↦ rw e ((λ m. m), λ m. m)
  | inr e ↦
      let (into, back) = insert_issue-Among i j rest in
      rw e (
        (λ m. elim m [
          | inl here ↦ inr (inl here)
          | inr there ↦ elim (into there) [ inl a ↦ inl a | inr b ↦ inr (inr b) ]
        ]),
        (λ m. elim m [
          | inl a ↦ inr (back (inl a))
          | inr later ↦ elim later [ inl here ↦ inl here | inr b ↦ inr (back (inr b)) ]
        ]),
      )
]

pub sort_issues-Among : (i : Issue) (l : List Issue) → Among i (sort_issues l) ↔ Among i l
unfolding sort_issues
sort_issues-Among i [] = ((λ m. m), λ m. m)
sort_issues-Among i (j ∷ rest) =
    let (into, back) = insert_issue-Among i j (sort_issues rest) in
    let (down, up) = sort_issues-Among i rest in
    (
      (λ m. elim (into m) [ inl a ↦ inl a | inr b ↦ inr (down b) ]),
      (λ m. elim m [ inl a ↦ back (inl a) | inr b ↦ back (inr (up b)) ]),
    )

module _ (s : Selection) (files : Files) (issues : List Issue) where
  abbrev pub candidates_of : List Issue
  candidates_of = map (λ t. t.entry) (compile_eligible_issues s files issues).candidates

  pub chosen-issues : candidates_of ≡ map (λ t. t.entry) (chosen s files (sort_issues issues))
  unfolding compile_eligible_issues
  chosen-issues = ap (map (λ t. t.entry)) (compile_loop-candidates s files (sort_issues issues) _)

  -- An issue is a candidate of `compile_eligible_issues` exactly where it is among the issues, and is open,
  -- not on hold, waits for no triage, has no active registration, is ready, is neither in flight nor labelled
  -- as in progress, depends on no open issue, has a Plan that `resolve_plan_source` accepts where the selection
  -- asks for one, and has one branch.
  pub compile_eligible_issues-Among :
      (i : Issue) → Among i candidates_of ↔ (Among i issues × IsSelectable s files i)
  compile_eligible_issues-Among i = (
    (λ m.
        let (there, held) =
          chosen-Among s files i (sort_issues issues) (subst (Among i) chosen-issues m) in
        ((sort_issues-Among i issues).0 there, held)),
    (λ (there, held).
        subst (Among i) (sym chosen-issues) (
          Among-chosen s files i (sort_issues issues) ((sort_issues-Among i issues).1 there) held)),
  )
