-- ===== src/Backlog/Accounted.antt =====
-- The order of the candidates, and the reasons of the other issues.
use todo_pipeline_orch.Prelude.{
  ◌≤◌, String, none, List, [], ◌∷◌, map, ◌≢◌, ◌⊎◌, inl, inr, sym, ap, subst, arith, nat_eq,
  string_eq, text_iff, leb, Among, All, All-imp, if_ind,
}
use todo_pipeline_orch.Prelude.Dict.{Dict, lookup, insert, lookup-insert}
use todo_pipeline_orch.Prelude.Checked.{ok, err, Checked-cases}
use todo_pipeline_orch.Backlog.Types.{Issue, BlockedReason}
use todo_pipeline_orch.Backlog.Source.{Files}
use todo_pipeline_orch.Backlog.Compile.{
  Selection, judge_issue, insert_issue, sort_issues, EligibilityResult, record_judgement,
  compile_loop, compile_eligible_issues,
}
use todo_pipeline_orch.Backlog.Eligible.{IsSelectable, judge_issue-ok}
use todo_pipeline_orch.Backlog.Candidates.{
  chosen, chosen-ok, chosen-err, compile_loop-step, candidates_of, chosen-issues, sort_issues-Among,
  compile_eligible_issues-Among,
}

abbrev Below : Issue → List Issue → Type 0
Below i l = All (λ j. i.number ≤ j.number) l

-- The numbers of the issues do not fall.
abbrev pub Ascending : List Issue → Type 0
Ascending [] = Unit
Ascending (i ∷ rest) = Below i rest × Ascending rest

insert_issue-Below :
    (k i : Issue) (l : List Issue) → k.number ≤ i.number → Below k l → Below k (insert_issue i l)
unfolding insert_issue
insert_issue-Below k i [] le held = (le, tt)
insert_issue-Below k i (j ∷ rest) le (first, later) =
    if_ind (Below k) (leb i.number j.number) (λ _. (le, (first, later)))
      (λ _. (first, insert_issue-Below k i rest le later))

insert_issue-Ascending : (i : Issue) (l : List Issue) → Ascending l → Ascending (insert_issue i l)
unfolding insert_issue
insert_issue-Ascending i [] held = (tt, tt)
insert_issue-Ascending i (j ∷ rest) (below, later) =
    if_ind Ascending (leb i.number j.number)
      (λ e.
        let le : i.number ≤ j.number = ground (arith, e) in
        (
          (
            le,
            All-imp (λ k. j.number ≤ k.number) (λ k. i.number ≤ k.number)
                (λ k h. omega (arith, le, h)) rest below,
          ),
          (below, later),
        ))
      (λ e. (
        insert_issue-Below j i rest (ground (arith, e)) below,
        insert_issue-Ascending i rest later,
      ))

sort_issues-Ascending : (l : List Issue) → Ascending (sort_issues l)
unfolding sort_issues
sort_issues-Ascending [] = tt
sort_issues-Ascending (i ∷ rest) =
    insert_issue-Ascending i (sort_issues rest) (sort_issues-Ascending rest)

module _ (s : Selection) (files : Files) where
  abbrev entries : List Issue → List Issue
  entries l = map (λ t. t.entry) (chosen s files l)

  chosen-Below : (k : Issue) (l : List Issue) → Below k l → Below k (entries l)
  unfolding chosen
  chosen-Below k [] held = tt
  chosen-Below k (i ∷ rest) (first, later) = elim (Checked-cases (judge_issue s files i)) [
    | inl (t, e) ↦ rw (chosen-ok s files i rest e) (
      subst (λ (j : Issue). k.number ≤ j.number) (sym (judge_issue-ok s files i e).1) first,
      chosen-Below k rest later,
    )
    | inr (c, e) ↦ rw (chosen-err s files i rest e) (chosen-Below k rest later)
  ]

  chosen-Ascending : (l : List Issue) → Ascending l → Ascending (entries l)
  unfolding chosen
  chosen-Ascending [] held = tt
  chosen-Ascending (i ∷ rest) (below, later) = elim (Checked-cases (judge_issue s files i)) [
    | inl (t, e) ↦ rw (chosen-ok s files i rest e) (
      subst (λ (j : Issue). Below j (entries rest)) (sym (judge_issue-ok s files i e).1)
          (chosen-Below i rest below),
      chosen-Ascending rest later,
    )
    | inr (c, e) ↦ rw (chosen-err s files i rest e) (chosen-Ascending rest later)
  ]

  -- The candidates stand in the order of their numbers.
  pub compile_eligible_issues-Ascending :
      (issues : List Issue) → Ascending (candidates_of s files issues)
  compile_eligible_issues-Ascending issues =
      subst Ascending (sym (chosen-issues s files issues))
        (chosen-Ascending (sort_issues issues) (sort_issues-Ascending issues))

  insert-kept :
      (k j : String) (c : BlockedReason) (d : Dict String BlockedReason)
      → lookup k d ≢ none
      → lookup k (insert j c d) ≢ none
  insert-kept k j c d there = ground (arith, lookup-insert k j c d, there)

  -- A reason that is recorded stays.
  compile_loop-kept :
      (k : String) (issues : List Issue) (r : EligibilityResult)
      → lookup k r.blocked_reasons ≢ none
      → lookup k (compile_loop s files issues r).blocked_reasons ≢ none
  unfolding compile_loop
  compile_loop-kept k [] r there = there
  compile_loop-kept k (i ∷ rest) r there = elim (Checked-cases (judge_issue s files i)) [
    | inl (t, e) ↦
        rw (compile_loop-step s files i rest r e)
          (compile_loop-kept k rest (record_judgement i (ok t) r) there)
    | inr (c, e) ↦ rw (compile_loop-step s files i rest r e) (
        compile_loop-kept k rest (record_judgement i (err c) r)
          (insert-kept k i.todo_id c r.blocked_reasons there))
  ]

  compile_loop-accounts :
      (i : Issue) (issues : List Issue) (r : EligibilityResult)
      → Among i issues
      → IsSelectable s files i
        ⊎ (lookup i.todo_id (compile_loop s files issues r).blocked_reasons ≢ none)
  unfolding compile_loop
  compile_loop-accounts i [] r m = absurd m
  compile_loop-accounts i (j ∷ rest) r (inr there) =
      compile_loop-accounts i rest (record_judgement j (judge_issue s files j) r) there
  compile_loop-accounts i (j ∷ rest) r (inl same) = elim (Checked-cases (judge_issue s files j)) [
    | inl (t, e) ↦ inl (subst (IsSelectable s files) (sym same) (judge_issue-ok s files j e).0)
    | inr (c, e) ↦ inr (
        rw (compile_loop-step s files j rest r e) (
          compile_loop-kept i.todo_id rest (record_judgement j (err c) r) (
            ground (
              arith,
              lookup-insert i.todo_id j.todo_id c r.blocked_reasons,
              text_iff i.todo_id j.todo_id,
              ap (λ (k : Issue). k.todo_id) same,
            ))))
  ]

  -- Every issue is a candidate, or has a reason recorded under its id.
  pub compile_eligible_issues-accounts :
      (issues : List Issue) (i : Issue)
      → Among i issues
      → Among i (candidates_of s files issues)
        ⊎ (lookup i.todo_id (compile_eligible_issues s files issues).blocked_reasons ≢ none)
  unfolding compile_eligible_issues
  compile_eligible_issues-accounts issues i m =
      elim (compile_loop-accounts i (sort_issues issues)
        (record { candidates = []; blocked_reasons = [] }) ((sort_issues-Among i issues).1 m)) [
          | inl held ↦ inl ((compile_eligible_issues-Among s files issues i).1 (m, held))
          | inr reason ↦ inr reason
        ]
