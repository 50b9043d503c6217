-- ===== src/WorkerResult/GitTests.antt =====
-- A worktree with one commit after its anchor, and the theorem at it.
use todo_pipeline_orch.Prelude.{
  true, false, some, [], ◌∷◌, ◌≡◌, ◌⊎◌, ◌↔◌, refl, arith, ◌==◌, string_eq, nat_eq, text_iff,
  ==_refl, contains, filter, if◌then◌else◌,
}
use todo_pipeline_orch.Prelude.Text.{sort_names, insert_name}
use todo_pipeline_orch.Prelude.Checked.{ok, err}
use todo_pipeline_orch.Schedule.Phases.{distinct_keys}
use todo_pipeline_orch.WorkerResult.Types.{GitResult}
use todo_pipeline_orch.WorkerResult.Git.{
  Git, unreachable_commit, finish_review_head_mismatch, real_changed_paths, each_real,
  require_real_commits, on_first_parent_mainline, require_mainline, require_files,
  verify_worker_git_topology, require_clean, require_head, verify_worker_git_result, no_commit,
  only_commit, verify_optional_single_commit, finish_fault, verify_finish,
}
use todo_pipeline_orch.WorkerResult.SingleCommit.{
  IsDocumented, nothing_after, verify_optional_single_commit_iff,
}

program : Unit {0}
unfolding filter contains distinct_keys sort_names insert_name real_changed_paths each_real
    require_real_commits on_first_parent_mainline require_mainline require_files
    verify_worker_git_topology require_clean require_head verify_worker_git_result no_commit
    only_commit verify_optional_single_commit finish_fault verify_finish
program = tt

-- Every commit but the root `a` has `a` as its parent; the first-parent line is `b`.
abbrev git : Git
git = record {
  is_commit = λ c. some true;
  is_ancestor = λ a c. some (if a == c then true else a == "a");
  count = λ a c. some (if a == c then 0 else 1);
  parent = λ c. some "a";
  ancestor = λ c n. some "a";
  diff = λ a c. some ("y.py" ∷ "x.py" ∷ []);
  mainline = λ a. some ("b" ∷ []);
  head = some "b";
  is_clean = some true;
}

abbrev report : GitResult
report = record {
  expected_parent_sha = "a";
  resulting_head_sha = "b";
  task_commit_sha = "b";
  changed_files = "x.py" ∷ "y.py" ∷ [];
}

accepts_one : verify_worker_git_result git report "a" 1 ≡ ok tt
unfolding program
accepts_one = refl

-- A commit off the mainline.
side_parent :
    verify_worker_git_topology git
      (record report { resulting_head_sha = "c"; task_commit_sha = "c" })
      "a"
      1
    ≡ err unreachable_commit
unfolding program
side_parent = refl

finish_of_side_parent :
    verify_finish git (record report { resulting_head_sha = "c"; task_commit_sha = "c" }) "a" true
    ≡ err finish_review_head_mismatch
unfolding program
finish_of_side_parent = refl

git-IsDocumented : IsDocumented git
git-IsDocumented = record {
  one_back = λ c. refl;
  parent_descends = λ a c e. ground (arith, e, text_iff a "a", text_iff a c);
  itself = λ a _. (rw (==_refl a) refl, rw (==_refl a) refl);
}

verify_optional_single_commit_iff_example :
    (verify_optional_single_commit git report "a" false ≡ ok tt) ↔ (
      (verify_worker_git_topology git report "a" 1 ≡ ok tt)
      ⊎ (report ≡ nothing_after "a") × (git.is_commit "a" ≡ some true))
verify_optional_single_commit_iff_example =
    verify_optional_single_commit_iff git report "a" git-IsDocumented refl
