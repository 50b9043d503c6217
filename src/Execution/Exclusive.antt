-- ===== src/Execution/Exclusive.antt =====
-- Where `admit` appends an attempt, and what is then resolved on the worktree.
use todo_pipeline_orch.Prelude.{
  String, true, false, Option, some, List, [], ◌∷◌, ◌≡◌, ◌≢◌, sym, ap, ◌∙◌, arith, ◌==◌, string_eq,
  text_iff, not, ◌&&◌, any, All, init, inl, inr, Bool-cases, if◌then◌else◌, init-append,
}
use todo_pipeline_orch.Prelude.Dict.{lookup, insert}
use todo_pipeline_orch.Effects.{Result, ok, raise, ◌>>=◌, >>=-eq-ok, unresolved_peer}
use todo_pipeline_orch.Execution.Env.{Env, complete}
use todo_pipeline_orch.Execution.Types.{Attempt, Record, is_settled}
use todo_pipeline_orch.Execution.Store.{
  Store, File, holds, load, locked, write, peers_resolved, assert_worktree_peers_resolved,
}
use todo_pipeline_orch.Execution.Loading.{load-IsLoaded}
use todo_pipeline_orch.Execution.Keeps.{locked-eq-ok, worktree_locked-eq-ok, and_then-eq-ok}
use todo_pipeline_orch.Execution.History.{Settled}
use todo_pipeline_orch.Execution.Admission.{
  admit, admit_locked, admission, admitted_record, new_attempt,
}
use todo_pipeline_orch.Execution.Journal.{AllSound, load-IsSound}
use todo_pipeline_orch.Execution.Transitions.{admission-Settled}

All-of_any :
    (xs : List Attempt) → any (λ (a : Attempt). not (is_settled a)) xs ≡ false → All Settled xs
unfolding any
All-of_any [] h = tt
All-of_any (x ∷ xs) h = (ground arith, All-of_any xs (ground arith))

-- The attempts of a record on the worktree are settled, if the loop over the records passed.
peers_resolved-Settled :
    (env : Env) (worktree id : String) (s : Store) (files : List (String × File Record))
    (name : String) (other : Record) (file : File Record)
    → peers_resolved env worktree id s files ≡ ok tt
    → lookup name files ≡ some file
    → load env name s ≡ ok other
    → name ≢ id
    → env.resolve other.registration.worktree ≡ worktree
    → All Settled other.attempts
unfolding lookup peers_resolved
peers_resolved-Settled env worktree id s [] name other file p at l ne w = absurd (cc)
peers_resolved-Settled env worktree id s ((j, f) ∷ rest) name other file p at l ne w =
    elim (Bool-cases (j == id)) [
      | inl own ↦
          peers_resolved-Settled env worktree id s rest name other file (ground (arith, p, own))
            (ground (arith, at, own, ne, text_iff name j, text_iff j id)) l ne w
      | inr foreign ↦ elim (Bool-cases (name == j)) [
        | inl here ↦
            let same : name ≡ j = (text_iff name j).0 here in
            let l' : load env j s ≡ ok other = ap (λ n. load env n s) (sym same) ∙ l in
            All-of_any other.attempts (
              ground (
                arith,
                p,
                foreign,
                l',
                w,
                text_iff (env.resolve other.registration.worktree) worktree,
              ))
        | inr below ↦
            let q : rest_of j ≡ ok tt = ground (arith, p, foreign) in
            let (o, _, e) = >>=-eq-ok (load env j s) _ q in
            peers_resolved-Settled env worktree id s rest name other file (ground (arith, e))
              (ground (arith, at, below)) l ne w
      ]
    ]
  where
    rest_of : String → Result (Unit {0})
    rest_of j = do
      o ← load env j s
      if env.resolve o.registration.worktree == worktree
            && any (λ (a : Attempt). not (is_settled a)) o.attempts
          then raise unresolved_peer
          else peers_resolved env worktree id s rest

-- What `admit` did where it returned `(r, True)`.
pub record IsAdmission (env : Env) (id : String) (event : Option String) (s : Store) (r : Record)
    : Type 0 where
  pub before : Record
  pub loaded : load env id s ≡ ok before
  pub peers : assert_worktree_peers_resolved env id s ≡ ok tt
  pub passed : admission before event ≡ ok true
  pub result : r ≡ admitted_record env before event
  pub after : (admit env id event s).1 ≡ record s { records = insert id (holds r) s.records }

pub admit-IsAdmission :
    (env : Env) (id : String) (event : Option String) (s : Store) (r : Record)
    → (admit env id event s).0 ≡ ok (r, true)
    → IsAdmission env id event s r
unfolding admit admit_locked write
admit-IsAdmission env id event s r e =
    let (peers, outer, ran) =
      worktree_locked-eq-ok env id (locked env id (admit_locked env id event)) s e in
    let (inner, ran') = locked-eq-ok env id (admit_locked env id event) s ran in
    let (before, loaded, at_load, e₁) = and_then-eq-ok (load env id s) _ s ran' in
    let (appends, a, at_check, e₂) = and_then-eq-ok (admission before event) _ s e₁ in
    let yes_it : appends ≡ true = ground (arith, e₂) in
    let result : r ≡ admitted_record env before event = ground (arith, e₂, yes_it) in
    let done : env.write id ≡ complete = ground (arith, e₂, yes_it) in
    record {
      before = before;
      loaded = loaded;
      peers = peers;
      passed = cc;
      result = result;
      after =
          ap (λ p. p.1) (outer ∙ (inner ∙ (at_load ∙ at_check)))
          ∙ ground (arith, yes_it, result, done);
    }

-- Where `admit` appends an attempt to an execution, every attempt of every other readable execution
-- of the same worktree is terminal with confirmed cleanup, and so is every earlier attempt of its own,
-- if the stored histories are sound.
pub admit-Settled :
    (env : Env) (id : String) (event : Option String) (s : Store) (r : Record) (name : String)
    (other : Record)
    → AllSound s
    → (admit env id event s).0 ≡ ok (r, true)
    → load env name s ≡ ok other
    → name ≢ id
    → env.resolve other.registration.worktree ≡ env.resolve r.registration.worktree
    → All Settled other.attempts × All Settled (init r.attempts)
unfolding assert_worktree_peers_resolved admitted_record
admit-Settled env id event s r name other sound e l ne w =
    let a = admit-IsAdmission env id event s r e in
    let (r₁, l₁, passed) = >>=-eq-ok (load env id s) _ a.peers in
    let o = load-IsLoaded env name s l in
    let same : r₁ ≡ a.before = ground (arith, l₁, a.loaded) in
    let here : env.resolve other.registration.worktree ≡ env.resolve r₁.registration.worktree =
      ground (arith, w, a.result, same) in
    (
      peers_resolved-Settled env (env.resolve r₁.registration.worktree) id s s.records name other
          (holds o.found) passed o.stored l ne here,
      rw (a.result, init-append a.before.attempts (new_attempt env a.before event))
          (admission-Settled a.before event a.passed
            (load-IsSound env id s a.before sound a.loaded)),
    )
