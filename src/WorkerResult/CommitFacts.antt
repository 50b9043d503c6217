-- ===== src/WorkerResult/CommitFacts.antt =====
-- What the checks of a worker's commits come to.
use todo_pipeline_orch.Prelude.{
  ℕ, String, true, false, ◌&&◌, ◌||◌, some, List, [], ◌∷◌, ◌≡◌, ◌⊎◌, inl, inr, refl, ap, ◌∙◌, arith,
  ◌==◌, nat_eq, string_eq, text_iff, nat_beq_iff, ==_refl, contains, Option-cases, if◌then◌else◌,
  if_ind, Bool-cases,
}
use todo_pipeline_orch.Prelude.Checked.{
  Checked, ok, Ensures, Ensures-self, Ensures-require, Ensures-bind, Ensures-present, Ensures-imp,
}
use todo_pipeline_orch.Schedule.Phases.{distinct_keys}
use todo_pipeline_orch.WorkerResult.Types.{GitResult}
use todo_pipeline_orch.WorkerResult.Git.{
  GitFault, git_verification_failed, parent_mismatch, head_mismatch, commit_count_mismatch, Git,
  ask, require_real_commits, require_files, require_mainline, each_real, verify_worker_git_topology,
  is_nil_list, no_commit, only_commit, verify_optional_single_commit,
}

module _ (git : Git) (g : GitResult) (anchor : String) where
  abbrev pub reals : Checked GitFault (Unit {0})
  reals = require_real_commits git (g.resulting_head_sha ∷ g.task_commit_sha ∷ [])

  pub record Strict (n : ℕ) : Type 0 where
    pub expected : g.expected_parent_sha ≡ anchor
    pub same : g.resulting_head_sha ≡ g.task_commit_sha
    pub real : reals ≡ ok tt
    pub counted : git.count anchor g.resulting_head_sha ≡ some n
    pub start : git.ancestor g.task_commit_sha n ≡ some anchor
    pub files : require_files git anchor g ≡ ok tt
    pub line : require_mainline git anchor g.resulting_head_sha ≡ ok tt

  pub topology-Strict :
      (n : ℕ) → Ensures (λ _. Strict n) (verify_worker_git_topology git g anchor n)
  unfolding verify_worker_git_topology
  topology-Strict n =
      let P : Unit {0} → Type 0 = λ _. Strict n in
      Ensures-require P (g.expected_parent_sha == anchor) parent_mismatch _ λ a.
        Ensures-require P (g.resulting_head_sha == g.task_commit_sha) head_mismatch _ λ b.
          Ensures-bind (λ u. reals ≡ ok u) P reals _ (Ensures-self reals)
            λ _ c.
              Ensures-bind (λ k. git.count anchor g.resulting_head_sha ≡ some k) P
                (ask (git.count anchor g.resulting_head_sha)) _
                (Ensures-present _ (git.count anchor g.resulting_head_sha) git_verification_failed
                  λ k e. e)
                λ k d. Ensures-require P (k == n) commit_count_mismatch _ λ e.
                  Ensures-bind (λ s. git.ancestor g.task_commit_sha n ≡ some s) P
                    (ask (git.ancestor g.task_commit_sha n)) _
                    (Ensures-present _ (git.ancestor g.task_commit_sha n) git_verification_failed
                      λ s e. e)
                    λ s f. Ensures-require P (s == anchor) parent_mismatch _ λ h.
                      Ensures-bind (λ u. require_files git anchor g ≡ ok u) P
                        (require_files git anchor g) _ (Ensures-self (require_files git anchor g))
                        λ _ i.
                          Ensures-imp (λ u. require_mainline git anchor g.resulting_head_sha ≡ ok u)
                            P (require_mainline git anchor g.resulting_head_sha)
                            (Ensures-self (require_mainline git anchor g.resulting_head_sha))
                            λ _ j. record {
                              expected = (text_iff g.expected_parent_sha anchor).0 a;
                              same = (text_iff g.resulting_head_sha g.task_commit_sha).0 b;
                              real = c;
                              counted = d ∙ ap some ((nat_beq_iff k n).0 e);
                              start = f ∙ ap some ((text_iff s anchor).0 h);
                              files = i;
                              line = j;
                            }

  -- What an optional commit comes to: none, or one whose parent is the anchor.
  abbrev pub NoneOf : ℕ → Type 0
  NoneOf k = (k ≡ 0) × (g.resulting_head_sha ≡ anchor) × (g.changed_files ≡ [])

  abbrev pub OneOf : ℕ → Type 0
  OneOf k =
      (k ≡ 1) × (git.parent g.task_commit_sha ≡ some anchor) × (require_files git anchor g ≡ ok tt)

  pub record Loose : Type 0 where
    pub expected : g.expected_parent_sha ≡ anchor
    pub real : reals ≡ ok tt
    pub descends : git.is_ancestor anchor g.resulting_head_sha ≡ some true
    pub total : ℕ
    pub counted : git.count anchor g.resulting_head_sha ≡ some total
    pub branch : NoneOf total ⊎ OneOf total
    pub line : require_mainline git anchor g.resulting_head_sha ≡ ok tt

  no_files : (l : List String) → is_nil_list l ≡ true → l ≡ []
  no_files [] e = refl
  no_files (x ∷ l) e = absurd (cc)

  branch_of :
      (k : ℕ)
      → (k == 0 || k == 1) ≡ true
      → Ensures
          (λ _. NoneOf k ⊎ OneOf k)
          (if k == 0 then no_commit g anchor else only_commit git g anchor)
  unfolding no_commit only_commit
  branch_of k few =
      let P : Unit {0} → Type 0 = λ _. NoneOf k ⊎ OneOf k in
      if_ind (Ensures P) (k == 0)
        (λ zero. elim (Bool-cases (g.resulting_head_sha == anchor && is_nil_list g.changed_files)) [
          | inl e ↦ rw e (
              inl (
                (nat_beq_iff k 0).0 zero,
                ground (arith, e, text_iff g.resulting_head_sha anchor),
                no_files g.changed_files (ground (arith, e)),
              ))
          | inr e ↦ rw e tt
        ])
        (λ more.
          Ensures-bind (λ s. git.parent g.task_commit_sha ≡ some s) P
            (ask (git.parent g.task_commit_sha)) _
            (Ensures-present _ (git.parent g.task_commit_sha) git_verification_failed λ s e. e)
            λ s f. Ensures-require P (s == anchor) parent_mismatch _ λ h.
              Ensures-imp (λ u. require_files git anchor g ≡ ok u) P (require_files git anchor g)
                (Ensures-self (require_files git anchor g))
                λ _ i. inr (ground (arith, few, more), f ∙ ap some ((text_iff s anchor).0 h), i))

  pub optional-Loose : Ensures (λ _. Loose) (verify_optional_single_commit git g anchor false)
  unfolding verify_optional_single_commit
  optional-Loose =
      let P : Unit {0} → Type 0 = λ _. Loose in
      Ensures-require P (g.expected_parent_sha == anchor) parent_mismatch _ λ a.
        Ensures-bind (λ u. reals ≡ ok u) P reals _ (Ensures-self reals)
          λ _ c.
            Ensures-bind (λ b. git.is_ancestor anchor g.resulting_head_sha ≡ some b) P
              (ask (git.is_ancestor anchor g.resulting_head_sha)) _
              (Ensures-present _ (git.is_ancestor anchor g.resulting_head_sha)
                git_verification_failed λ k e. e)
              λ b d. Ensures-require P b parent_mismatch _ λ yes_b.
                Ensures-bind (λ k. git.count anchor g.resulting_head_sha ≡ some k) P
                  (ask (git.count anchor g.resulting_head_sha)) _
                  (Ensures-present _ (git.count anchor g.resulting_head_sha) git_verification_failed
                    λ k e. e)
                  λ k e. Ensures-require P (k == 0 || k == 1) commit_count_mismatch _ λ few.
                    Ensures-bind (λ _. NoneOf k ⊎ OneOf k) P
                      (if k == 0 then no_commit g anchor else only_commit git g anchor) _
                      (branch_of k few)
                      λ _ branch.
                        Ensures-bind (λ u. require_mainline git anchor g.resulting_head_sha ≡ ok u)
                          P (require_mainline git anchor g.resulting_head_sha) _
                          (Ensures-self (require_mainline git anchor g.resulting_head_sha))
                          λ _ j. record {
                            expected = (text_iff g.expected_parent_sha anchor).0 a;
                            real = c;
                            descends = d ∙ ap some yes_b;
                            total = k;
                            counted = e;
                            branch = branch;
                            line = j;
                          }

  pub topology-ok : (n : ℕ) → Strict n → verify_worker_git_topology git g anchor n ≡ ok tt
  unfolding verify_worker_git_topology
  topology-ok n v = rw ((text_iff g.expected_parent_sha anchor).1 v.expected) (
      rw ((text_iff g.resulting_head_sha g.task_commit_sha).1 v.same) (
        rw v.real (
          rw v.counted (
            rw ((nat_beq_iff n n).1 refl) (rw v.start (rw (==_refl anchor) (rw v.files v.line)))))))

  pub optional-one :
      Strict 1
      → git.is_ancestor anchor g.resulting_head_sha ≡ some true
      → git.parent g.task_commit_sha ≡ some anchor
      → verify_optional_single_commit git g anchor false ≡ ok tt
  unfolding verify_optional_single_commit only_commit
  optional-one v descends parent = rw ((text_iff g.expected_parent_sha anchor).1 v.expected) (
      rw v.real (
        rw descends (rw v.counted (rw parent (rw (==_refl anchor) (rw v.files (rw v.line refl)))))))

  pub real_head : reals ≡ ok tt → git.is_commit g.resulting_head_sha ≡ some true
  unfolding require_real_commits each_real distinct_keys contains
  real_head e = elim (Option-cases (git.is_commit g.resulting_head_sha)) [
    | inl no_answer ↦ absurd (cc (rw (no_answer, require_real_commits) at e))
    | inr (b, answer) ↦ elim (Bool-cases b) [
      | inl yes_b ↦ answer ∙ ap some yes_b
      | inr no_b ↦ absurd (cc (rw no_b at (rw (answer, require_real_commits) at e)))
    ]
  ]
