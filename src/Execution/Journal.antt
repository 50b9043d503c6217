-- ===== src/Execution/Journal.antt =====
-- The histories of the records, over one operation of the store.
use todo_pipeline_orch.Prelude.{
  ℕ, String, Option, some, ◌≡◌, subst, arith, ◌==◌, string_eq, option_eq, Bool-cases, Option-cases,
  inl, inr, nat_eq,
}
use todo_pipeline_orch.Prelude.Dict.{lookup, insert, lookup-insert}
use todo_pipeline_orch.Effects.{ok, ◌>>◌, Action, and_then, >>=-eq-ok}
use todo_pipeline_orch.Execution.Text.{is_identifier}
use todo_pipeline_orch.Execution.Env.{Env}
use todo_pipeline_orch.Execution.Types.{Registration, registration_eq, Record}
use todo_pipeline_orch.Execution.Validate.{validate}
use todo_pipeline_orch.Execution.Store.{Store, holds, load, write, outside_worktree}
use todo_pipeline_orch.Execution.Loading.{load-IsLoaded}
use todo_pipeline_orch.Execution.Keeps.{
  Keeps, write-cases, and_then-Keeps, and_then_ind, locked-Keeps, worktree_locked-Keeps,
}
use todo_pipeline_orch.Execution.History.{IsSound, upgrade-IsSound}
use todo_pipeline_orch.Execution.Admission.{
  register, register_locked, new_record, pin, admit, admit_locked, admission, admitted_record,
  authorize_retry, authorize_locked, authorized, retry_guard,
}
use todo_pipeline_orch.Execution.Update.{Changes, update_attempt, update_locked, update_record}
use todo_pipeline_orch.Execution.Transitions.{
  admitted_record-IsSound, retry_guard-Unspent, update_record-IsSound,
}

-- The histories of all records of the store are sound.
pub record AllSound (s : Store) : Type 0 where
  pub at : (id : String) (r : Record) → lookup id s.records ≡ some (holds r) → IsSound r

pub load-IsSound :
    (env : Env) (id : String) (s : Store) (r : Record)
    → AllSound s
    → load env id s ≡ ok r
    → IsSound r
load-IsSound env id s r h e =
    let l = load-IsLoaded env id s e in
    rw l.upgraded (upgrade-IsSound l.found (h.at id l.found l.stored))

insert-AllSound :
    (id : String) (r : Record) (s : Store)
    → IsSound r
    → AllSound s
    → AllSound (record s { records = insert id (holds r) s.records })
insert-AllSound id r s k h = record {
  at = λ j x e. elim (Bool-cases (j == id)) [
    | inl same ↦ subst IsSound (ground (arith, lookup-insert j id (holds r) s.records, e)) k
    | inr other ↦ h.at j x (ground (arith, lookup-insert j id (holds r) s.records, e))
  ];
}

write-AllSound :
    {A : Type 0} (env : Env) (id : String) (r : Record) (v : A) (s : Store)
    → IsSound r
    → AllSound s
    → AllSound (write env id r v s).1
write-AllSound env id r v s k h = elim (write-cases env id r v s) [
  | inl replaced ↦ rw replaced (insert-AllSound id r s k h)
  | inr left ↦ rw left h
]

-- A step that reads a record, decides, and writes a record or nothing.
module _ {A : Type 0} (env : Env) (id : String) where
  read_then-AllSound :
      (f : Record → Action Store A)
      → ((r : Record) (s : Store)
          → load env id s ≡ ok r
          → IsSound r
          → AllSound s
          → AllSound (f r s).1)
      → (s : Store) → AllSound s
      → AllSound (and_then (load env id s) f s).1
  read_then-AllSound f k s h =
      and_then_ind AllSound (load env id s) f s (λ r e. k r s e (load-IsSound env id s r h e) h) h

new_record-IsSound :
    (id : String) (registration : Registration) → IsSound (new_record id registration)
unfolding new_record
new_record-IsSound id registration = record { past = tt; distinct = tt; unspent = tt }

module _ (env : Env) (id : String) where
  pub register-AllSound :
      (fields : Registration) (prompt : String) → Keeps AllSound (register env id fields prompt)
  unfolding register register_locked
  register-AllSound fields prompt =
      and_then-Keeps AllSound (outside_worktree env fields.worktree) _ (λ _.
        and_then-Keeps AllSound (validate env (new_record id (pin env fields prompt))) _
          (λ _. locked-Keeps env id AllSound _ (body (pin env fields prompt))))
    where
      body : (r : Registration) → Keeps AllSound (register_locked env id r)
      body r s h = elim (Option-cases (lookup id s.records)) [
        | inl missing ↦
            rw (missing, register_locked)
              (write-AllSound env id (new_record id r) _ s (new_record-IsSound id r) h)
        | inr (f, there) ↦
            rw (there, register_locked)
              (read_then-AllSound env id _
                (λ r' s e sound h. elim (Bool-cases (r'.registration == r)) [
                  | inl same ↦ rw same h
                  | inr drift ↦ rw drift h
                ])
                s h)
      ]

  pub admit-AllSound : (event : Option String) → Keeps AllSound (admit env id event)
  unfolding admit admit_locked
  admit-AllSound event =
      worktree_locked-Keeps env id AllSound _ (locked-Keeps env id AllSound _ body)
    where
      body : Keeps AllSound (admit_locked env id event)
      body = read_then-AllSound env id _ (λ r s e sound h.
          and_then_ind AllSound (admission r event) _ s
            (λ appends q. elim (Bool-cases appends) [
              | inl yes_it ↦ rw yes_it (
                  write-AllSound env id (admitted_record env r event) _ s
                    (admitted_record-IsSound env r event (cc) sound) h)
              | inr no_it ↦ rw no_it h
            ])
            h)

  pub authorize_retry-AllSound :
      (expected : ℕ) (event context : String)
      → Keeps AllSound (authorize_retry env id expected event context)
  unfolding authorize_retry authorize_locked
  authorize_retry-AllSound expected event context s h = elim (Bool-cases (is_identifier event)) [
    | inl good ↦ rw good (locked-Keeps env id AllSound _ body s h)
    | inr bad ↦ rw bad h
  ]
    where
      body : Keeps AllSound (authorize_locked env id expected event context)
      body = read_then-AllSound env id _ (λ r s e sound h.
          and_then_ind AllSound
            (retry_guard r expected event >> validate env (authorized r expected event context)) _ s
            (λ _ q.
              write-AllSound env id (authorized r expected event context) tt s
                (record {
                  past = sound.past;
                  distinct = sound.distinct;
                  unspent =
                      retry_guard-Unspent r expected event
                        (>>=-eq-ok (retry_guard r expected event) _ q).1;
                })
                h)
            h)

  pub update_attempt-AllSound :
      (generation : ℕ) (c : Changes) → Keeps AllSound (update_attempt env id generation c)
  unfolding update_attempt update_locked
  update_attempt-AllSound generation c = locked-Keeps env id AllSound _ (
      read_then-AllSound env id _ (λ r s e sound h.
        and_then_ind AllSound (update_record env generation c r) _ s
          (λ r' q.
            write-AllSound env id r' r' s (update_record-IsSound env generation c r q sound) h)
          h))
