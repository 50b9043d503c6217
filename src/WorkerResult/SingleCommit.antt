-- ===== src/WorkerResult/SingleCommit.antt =====
-- The check of an optional commit, against the check of exactly one.
use todo_pipeline_orch.Prelude.{
  String, true, false, some, [], ◌≡◌, ◌⊎◌, ◌↔◌, inl, inr, refl, sym, ap, subst, ◌∙◌, nat_eq,
  string_eq, ==_refl, contains,
}
use todo_pipeline_orch.Prelude.Checked.{ok, Ensures-eq-ok}
use todo_pipeline_orch.Schedule.Phases.{distinct_keys}
use todo_pipeline_orch.WorkerResult.Types.{GitResult}
use todo_pipeline_orch.WorkerResult.Git.{
  Git, require_real_commits, require_mainline, each_real, on_first_parent_mainline,
  verify_worker_git_topology, no_commit, verify_optional_single_commit,
}
use todo_pipeline_orch.WorkerResult.CommitFacts.{
  Strict, Loose, topology-Strict, optional-Loose, topology-ok, optional-one, real_head,
}

-- Documented answers of Git: `c~1` is `c^`; a parent is an ancestor; and a commit is an ancestor of itself,
-- with an empty range.
pub record IsDocumented (git : Git) : Type 0 where
  pub one_back : (c : String) → git.ancestor c 1 ≡ git.parent c
  pub parent_descends : (a c : String) → git.parent c ≡ some a → git.is_ancestor a c ≡ some true
  pub itself :
      (a : String)
      → git.is_commit a ≡ some true
      → (git.is_ancestor a a ≡ some true) × (git.count a a ≡ some 0)

-- A report of no commit after the anchor.
abbrev pub nothing_after : String → GitResult
nothing_after anchor = record {
  expected_parent_sha = anchor;
  resulting_head_sha = anchor;
  task_commit_sha = anchor;
  changed_files = [];
}

optional-nothing :
    (git : Git) (anchor : String)
    → IsDocumented git
    → git.is_commit anchor ≡ some true
    → verify_optional_single_commit git (nothing_after anchor) anchor false ≡ ok tt
unfolding verify_optional_single_commit require_real_commits each_real distinct_keys contains
    require_mainline on_first_parent_mainline no_commit
optional-nothing git anchor laws real =
    rw (==_refl anchor)
      (rw real (rw (laws.itself anchor real).0 (rw (laws.itself anchor real).1 refl)))

-- Where the reported head is the task's commit and Git answers as documented,
-- `verify_optional_single_commit` accepts, without its check of the current worktree, exactly what
-- `verify_worker_git_topology` accepts as one commit after the anchor, and the report of no commit and no
-- file at an anchor that is a commit.
pub verify_optional_single_commit_iff :
    (git : Git) (g : GitResult) (anchor : String)
    → IsDocumented git
    → g.resulting_head_sha ≡ g.task_commit_sha
    → (verify_optional_single_commit git g anchor false ≡ ok tt) ↔ (
        (verify_worker_git_topology git g anchor 1 ≡ ok tt)
        ⊎ (g ≡ nothing_after anchor) × (git.is_commit anchor ≡ some true))
verify_optional_single_commit_iff git g anchor laws same = (into, back)
  where
    into :
        verify_optional_single_commit git g anchor false ≡ ok tt
        → (verify_worker_git_topology git g anchor 1 ≡ ok tt)
          ⊎ (g ≡ nothing_after anchor) × (git.is_commit anchor ≡ some true)
    into e =
        let l : Loose git g anchor =
          Ensures-eq-ok (λ _. Loose git g anchor) (verify_optional_single_commit git g anchor false)
            (optional-Loose git g anchor) e in
        elim l.branch [
          | inl (_, here, no_files) ↦ inr (
            (λ i. record {
              expected_parent_sha = l.expected i;
              resulting_head_sha = here i;
              task_commit_sha = (sym same ∙ here) i;
              changed_files = no_files i;
            }),
            subst (λ (a : String). git.is_commit a ≡ some true) here
                (real_head git g anchor l.real),
          )
          | inr (one, parent, files) ↦ inl (
              topology-ok git g anchor 1 (record {
                expected = l.expected;
                same = same;
                real = l.real;
                counted = l.counted ∙ ap some one;
                start = laws.one_back g.task_commit_sha ∙ parent;
                files = files;
                line = l.line;
              }))
        ]

    back :
        (verify_worker_git_topology git g anchor 1 ≡ ok tt)
          ⊎ (g ≡ nothing_after anchor) × (git.is_commit anchor ≡ some true)
        → verify_optional_single_commit git g anchor false ≡ ok tt
    back (inr (nothing, real)) =
        subst (λ (k : GitResult). verify_optional_single_commit git k anchor false ≡ ok tt)
          (sym nothing) (optional-nothing git anchor laws real)
    back (inl e) =
        let v : Strict git g anchor 1 =
          Ensures-eq-ok (λ _. Strict git g anchor 1) (verify_worker_git_topology git g anchor 1)
            (topology-Strict git g anchor 1) e in
        let parent : git.parent g.task_commit_sha ≡ some anchor =
          sym (laws.one_back g.task_commit_sha) ∙ v.start in
        optional-one git g anchor v
          (subst (λ (c : String). git.is_ancestor anchor c ≡ some true) (sym same)
            (laws.parent_descends anchor g.task_commit_sha parent))
          parent
