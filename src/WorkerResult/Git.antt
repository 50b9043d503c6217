-- ===== src/WorkerResult/Git.antt =====
-- The checks of a worker's Git evidence (result_contract.py), over what Git answers of the worktree.
use todo_pipeline_orch.Prelude.{
  ℕ, String, Bool, true, false, not, ◌&&◌, ◌||◌, Option, List, [], ◌∷◌, ◌==◌, nat_eq, string_eq,
  list_eq, filter, contains, if◌then◌else◌,
}
use todo_pipeline_orch.Prelude.Text.{sort_names}
use todo_pipeline_orch.Prelude.Checked.{Checked, ok, err, ◌>>=◌, ◌>>◌, require, present}
use todo_pipeline_orch.Schedule.Phases.{distinct_keys}
use todo_pipeline_orch.WorkerResult.Types.{GitResult}

-- The codes of `ResultContractError` that these checks raise.
pub data GitFault : Type 0 where
  git_verification_failed unknown_commit parent_mismatch head_mismatch commit_count_mismatch :
      GitFault
  changed_files_mismatch unreachable_commit worktree_dirty finish_review_head_mismatch : GitFault

-- What Git answers in the worktree, where it can: whether a name is a commit's; whether one commit is an
-- ancestor of another; how many commits the range between two has; the parent of a commit, and its nth
-- first-parent ancestor; the paths that differ; the first-parent line from a commit to HEAD; HEAD; and
-- whether the status is empty.
pub record Git : Type 0 where
  pub is_commit : String → Option Bool
  pub is_ancestor : String → String → Option Bool
  pub count : String → String → Option ℕ
  pub parent : String → Option String
  pub ancestor : String → ℕ → Option String
  pub diff : String → String → Option (List String)
  pub mainline : String → Option (List String)
  pub head : Option String
  pub is_clean : Option Bool

-- `_git`, `_git_predicate` and `_git_bytes`: no answer is a failure.
abbrev pub ask {ℓ} : {A : Type ℓ} → Option A → Checked GitFault A
ask answer = present answer git_verification_failed

-- `_real_changed_paths`
unfoldable pub real_changed_paths : Git → String → String → Checked GitFault (List String)
unfolding filter
real_changed_paths git first second = do
  raw ← ask (git.diff first second)
  ok (sort_names (filter (λ name. not (name == "")) raw))

-- `_require_real_commits`
unfoldable pub each_real : Git → List String → Checked GitFault (Unit {0})
each_real git [] = ok tt
each_real git (sha ∷ rest) =
    ask (git.is_commit sha) >>= λ real. require real unknown_commit >> each_real git rest

unfoldable pub require_real_commits : Git → List String → Checked GitFault (Unit {0})
unfolding each_real distinct_keys
require_real_commits git shas = each_real git (distinct_keys [] shas)

-- `_on_first_parent_mainline`
unfoldable pub on_first_parent_mainline : Git → String → String → Checked GitFault Bool
unfolding contains
on_first_parent_mainline git anchor commit =
    if commit == anchor
    then ok true
    else ask (git.mainline anchor) >>= λ line. ok (contains commit line)

-- The last check of the topology.
unfoldable pub require_mainline : Git → String → String → Checked GitFault (Unit {0})
require_mainline git anchor commit = do
  on_line ← on_first_parent_mainline git anchor commit
  require on_line unreachable_commit

-- The reported files are those that differ.
unfoldable pub require_files : Git → String → GitResult → Checked GitFault (Unit {0})
require_files git anchor g = do
  changed ← real_changed_paths git anchor g.resulting_head_sha
  require (changed == sort_names g.changed_files) changed_files_mismatch

-- `verify_worker_git_topology`
unfoldable pub verify_worker_git_topology :
    Git → GitResult → String → ℕ → Checked GitFault (Unit {0})
verify_worker_git_topology git g anchor expected_commits = do
  require (g.expected_parent_sha == anchor) parent_mismatch
  require (g.resulting_head_sha == g.task_commit_sha) head_mismatch
  require_real_commits git (g.resulting_head_sha ∷ g.task_commit_sha ∷ [])
  count ← ask (git.count anchor g.resulting_head_sha)
  require (count == expected_commits) commit_count_mismatch
  start ← ask (git.ancestor g.task_commit_sha expected_commits)
  require (start == anchor) parent_mismatch
  require_files git anchor g
  require_mainline git anchor g.resulting_head_sha

-- The worktree is at the reported head, and clean: first its status and then its head.
unfoldable pub require_clean : Git → Checked GitFault (Unit {0})
require_clean git = do clean ← ask git.is_clean; require clean worktree_dirty

unfoldable pub require_head : Git → String → Checked GitFault (Unit {0})
require_head git sha = do head ← ask git.head; require (head == sha) head_mismatch

-- `verify_worker_git_result`
unfoldable pub verify_worker_git_result : Git → GitResult → String → ℕ → Checked GitFault (Unit {0})
verify_worker_git_result git g anchor expected_commits = do
  verify_worker_git_topology git g anchor expected_commits
  require_clean git
  require_head git g.resulting_head_sha

abbrev pub is_nil_list : List String → Bool
is_nil_list [] = true
is_nil_list _ = false

-- What `verify_optional_single_commit` asks of no commit, and of one.
unfoldable pub no_commit : GitResult → String → Checked GitFault (Unit {0})
no_commit g anchor =
    require (g.resulting_head_sha == anchor && is_nil_list g.changed_files) changed_files_mismatch

unfoldable pub only_commit : Git → GitResult → String → Checked GitFault (Unit {0})
only_commit git g anchor = do
  parent ← ask (git.parent g.task_commit_sha)
  require (parent == anchor) parent_mismatch
  require_files git anchor g

-- `verify_optional_single_commit`
unfoldable pub verify_optional_single_commit :
    Git → GitResult → String → Bool → Checked GitFault (Unit {0})
verify_optional_single_commit git g anchor require_current = do
  require (g.expected_parent_sha == anchor) parent_mismatch
  require_real_commits git (g.resulting_head_sha ∷ g.task_commit_sha ∷ [])
  descends ← ask (git.is_ancestor anchor g.resulting_head_sha)
  require descends parent_mismatch
  count ← ask (git.count anchor g.resulting_head_sha)
  require (count == 0 || count == 1) commit_count_mismatch
  if count == 0 then no_commit g anchor else only_commit git g anchor
  require_mainline git anchor g.resulting_head_sha
  if require_current then (require_head git g.resulting_head_sha >> require_clean git) else ok tt

-- A Git that cannot answer keeps its own code.
unfoldable pub finish_fault : GitFault → GitFault
finish_fault git_verification_failed = git_verification_failed
finish_fault _ = finish_review_head_mismatch

-- `_verify_finish` of todos_completion.py
unfoldable pub verify_finish : Git → GitResult → String → Bool → Checked GitFault (Unit {0})
verify_finish git g accepted_head require_current =
    elim (verify_optional_single_commit git g accepted_head require_current) [
      | ok u ↦ ok u
      | err f ↦ err (finish_fault f)
    ]
