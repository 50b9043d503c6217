-- ===== src/Execution/Store.antt =====
-- `ExecutionStore` of agent_execution.py. The store is its files: a record and a recovery intent for
-- an execution id. An operation returns the store as it leaves it, also when it raises.
use Prim.Native.String.{◌++◌ as text_append}
use todo_pipeline_orch.Prelude.{
  String, Option, some, List, [], ◌∷◌, ◌++◌, ◌&&◌, not, ◌==◌, nat_eq, string_eq, option_eq,
  if◌then◌else◌, any, init,
}
use todo_pipeline_orch.Prelude.Dict.{Dict, lookup, insert}
use todo_pipeline_orch.Effects.{
  Result, ok, err, raise, require, ◌>>=◌, ◌>>◌, Action, and_then, lock_contended, lock_unconfirmed,
  invalid_identity, record_unavailable, identity_mismatch, relative_worktree, inside_worktree,
  unresolved_peer, record_too_large, os_error,
}
use todo_pipeline_orch.Execution.Text.{is_identifier}
use todo_pipeline_orch.Execution.Env.{
  Env, free, contended, unavailable, complete, too_large, not_replaced, not_synced,
}
use todo_pipeline_orch.Execution.Types.{Attempt, Record, is_settled}
use todo_pipeline_orch.Execution.Validate.{validate}
use todo_pipeline_orch.Recovery.Types.{Intent}

-- What a file that exists holds: a decoded value, or bytes that do not decode to one.
pub data File (A : Type 0) : Type 0 where
  garbage : File A
  holds : A → File A

pub record Store : Type 0 where
  pub records : Dict String (File Record)
  pub intents : Dict String (File Intent)

abbrev pub clear_direct : List Attempt → List Attempt
clear_direct [] = []
clear_direct (a ∷ rest) = record a { direct_processes = [] } ∷ clear_direct rest

-- A record of an older version, brought up to version 3.
unfoldable pub upgrade : Record → Record
upgrade r =
    if r.version == 3 then r else record r { version = 3; attempts = clear_direct r.attempts }

-- `changes` in place of the last attempt.
abbrev pub replace_last : List Attempt → Attempt → List Attempt
replace_last attempts a = init attempts ++ a ∷ []

module _ (env : Env) where
  -- `_outside_worktree`
  unfoldable pub outside_worktree : String → Result (Unit {0})
  outside_worktree worktree = do
    require (env.is_absolute worktree) relative_worktree
    require (not (env.root_is_inside (env.resolve worktree))) inside_worktree

  unfoldable pub decode : String → Option (File Record) → Result Record
  decode execution_id (some (holds r)) = do
    validate env r
    let r' = upgrade r
    require (r'.execution_id == execution_id) identity_mismatch
    outside_worktree r'.registration.worktree
    ok r'
  decode execution_id _ = raise record_unavailable

  -- `load`. An id that is no identifier names no directory, which reads as an unavailable record.
  unfoldable pub load : String → Store → Result Record
  load execution_id s =
      if is_identifier execution_id
      then decode execution_id (lookup execution_id s.records)
      else raise record_unavailable

  -- `with self.locked(execution_id): body`
  unfoldable pub locked : {A : Type 0} → String → Action Store A → Action Store A
  locked execution_id body s =
      if is_identifier execution_id
      then elim (env.lock execution_id) [
        | free ↦ body s
        | contended ↦ (err lock_contended, s)
        | unavailable ↦ (err lock_unconfirmed, s)
      ]
      else (raise invalid_identity, s)

  -- `worktree_lock_id`
  unfoldable pub worktree_lock_id : String → Store → Result String
  worktree_lock_id execution_id s = do
    r ← load execution_id s
    ok (text_append "worktree-" (env.sha256 (env.resolve r.registration.worktree)))

  -- The loop of `assert_worktree_peers_resolved` over the records of the store.
  unfoldable pub peers_resolved :
      String → String → Store → List (String × File Record) → Result (Unit {0})
  peers_resolved worktree execution_id s [] = ok tt
  peers_resolved worktree execution_id s ((name, file) ∷ rest) =
      let others = peers_resolved worktree execution_id s rest in
      if name == execution_id then others else do
        other ← load name s
        let here = env.resolve other.registration.worktree == worktree
        if here && any (λ a. not (is_settled a)) other.attempts
            then raise unresolved_peer
            else others

  unfoldable pub assert_worktree_peers_resolved : String → Store → Result (Unit {0})
  assert_worktree_peers_resolved execution_id s = do
    r ← load execution_id s
    peers_resolved (env.resolve r.registration.worktree) execution_id s s.records

  -- `with self.worktree_locked(execution_id): body`
  unfoldable pub worktree_locked : {A : Type 0} → String → Action Store A → Action Store A
  worktree_locked execution_id body s =
      and_then (worktree_lock_id execution_id s)
        (λ lock_id.
          locked lock_id
            (λ s. and_then (assert_worktree_peers_resolved execution_id s) (λ _. body) s))
        s

-- `self._write(execution_id, record)`, with the value that the caller returns. The record is replaced
-- before the directory is synced.
unfoldable pub write : {A : Type 0} → Env → String → Record → A → Action Store A
write env execution_id r value s =
    let replaced : Store = record s { records = insert execution_id (holds r) s.records } in
    elim (env.write execution_id) [
      | complete ↦ (ok value, replaced)
      | too_large ↦ (raise record_too_large, s)
      | not_replaced ↦ (err os_error, s)
      | not_synced ↦ (err os_error, replaced)
    ]
