-- ===== src/Execution/Atomic.antt =====
-- What an operation that raises leaves: `_atomic_write` of agent_execution.py replaces the file before
-- it syncs the directory, so an operation may raise with its record in place.
use todo_pipeline_orch.Prelude.{
  ℕ, String, string_eq, Option, none, some, true, ◌≡◌, refl, ◌⊎◌, arith, inl, inr, Bool-cases,
  Option-cases,
}
use todo_pipeline_orch.Prelude.Dict.{lookup, insert}
use todo_pipeline_orch.Effects.{Exception, os_error, ok, ◌>>◌, >>=-eq-ok}
use todo_pipeline_orch.Execution.Text.{is_identifier}
use todo_pipeline_orch.Execution.Env.{Env, Write, complete, too_large, not_replaced, not_synced}
use todo_pipeline_orch.Execution.Types.{Registration, Record}
use todo_pipeline_orch.Execution.Validate.{validate}
use todo_pipeline_orch.Execution.Store.{Store, holds, load, write, outside_worktree}
use todo_pipeline_orch.Execution.Keeps.{
  Leaves, and_then-Leaves, locked-Leaves, worktree_locked-Leaves,
}
use todo_pipeline_orch.Execution.Admission.{
  register, register_locked, new_record, pin, admit, admit_locked, admission, admitted_record,
  authorize_retry, authorize_locked, retry_guard, authorized,
}
use todo_pipeline_orch.Execution.Update.{Changes, update_attempt, update_locked, update_record}
use todo_pipeline_orch.Execution.Runs.{
  Operation, registers, admits, authorizes, updates, perform, raised,
}

-- The execution that an operation writes.
abbrev pub subject : Operation → String
subject (registers id fields prompt) = id
subject (admits id event) = id
subject (authorizes id expected event context) = id
subject (updates id generation changes) = id

-- `r` is the record that the operation makes of the files in `s`: its guard passed on the record that
-- stood there, or, for a registration, there was none.
abbrev pub IsDue : Env → Operation → Store → Record → Type 0
IsDue env (registers id fields prompt) s r =
    (lookup id s.records ≡ none) × (r ≡ new_record id (pin env fields prompt))
IsDue env (admits id event) s r =
    (old : Record) × (load env id s ≡ ok old)
    × (admission old event ≡ ok true)
    × (r ≡ admitted_record env old event)
IsDue env (authorizes id expected event context) s r =
    (old : Record) × (load env id s ≡ ok old)
    × (retry_guard old expected event ≡ ok tt)
    × (r ≡ authorized old expected event context)
IsDue env (updates id generation changes) s r =
    (old : Record) × (load env id s ≡ ok old) × (update_record env generation changes old ≡ ok r)

-- The directory was not synced after a record that satisfies `D` had replaced that of `id`.
pub record IsUnsynced (env : Env) (id : String) (s : Store) (D : Record → Type 0) (e : Exception)
    (s' : Store) : Type 0 where
  pub written : Record
  pub due : D written
  pub unsynced : env.write id ≡ not_synced
  pub error : e ≡ os_error
  pub left : s' ≡ record s { records = insert id (holds written) s.records }

module _ (env : Env) (id : String) (s : Store) where
  write-Leaves :
      {A : Type 0} (D : Record → Type 0) (r : Record) (v : A)
      → D r
      → Leaves (IsUnsynced env id s D) (write env id r v) s
  unfolding write
  write-Leaves D r v d e h = on (env.write id) refl
    where
      on :
          (w : Write)
          → env.write id ≡ w
          → ((write env id r v s).1 ≡ s) ⊎ IsUnsynced env id s D e (write env id r v s).1
      on complete q = absurd (ground (arith, q, h))
      on too_large q = inl (ground (arith, q))
      on not_replaced q = inl (ground (arith, q))
      on not_synced q = inr (record {
        written = r;
        due = d;
        unsynced = q;
        error = ground (arith, q, h);
        left = ground (arith, q);
      })

  register-Leaves :
      (fields : Registration) (prompt : String)
      → Leaves
          (IsUnsynced env id s (IsDue env (registers id fields prompt) s))
          (register env id fields prompt)
          s
  unfolding register register_locked
  register-Leaves fields prompt =
      let P = IsUnsynced env id s (IsDue env (registers id fields prompt) s) in
      let g = pin env fields prompt in
      and_then-Leaves P (outside_worktree env fields.worktree) _ s (λ _ _.
        and_then-Leaves P (validate env (new_record id g)) _ s (λ _ _.
          locked-Leaves env P id (register_locked env id g) s (λ e h.
            elim (Option-cases (lookup id s.records)) [
              | inl missing ↦
                  rw (register_locked, missing)
                    (write-Leaves (IsDue env (registers id fields prompt) s) (new_record id g)
                      (new_record id g) (missing, refl) e (rw (register_locked, missing) at h))
              | inr (file, there) ↦ inl (ground (arith, there))
            ])))

  admit-Leaves :
      (event : Option String)
      → Leaves (IsUnsynced env id s (IsDue env (admits id event) s)) (admit env id event) s
  unfolding admit admit_locked
  admit-Leaves event =
      let P = IsUnsynced env id s (IsDue env (admits id event) s) in
      worktree_locked-Leaves env id P _ s (
        locked-Leaves env P id (admit_locked env id event) s (
          and_then-Leaves P (load env id s) _ s (λ r l.
            and_then-Leaves P (admission r event) _ s (λ appends a e h. elim (Bool-cases appends) [
              | inl yes_it ↦ rw yes_it (
                  write-Leaves (IsDue env (admits id event) s) (admitted_record env r event) _
                    (r, l, cc, refl) e (rw yes_it at h))
              | inr no_it ↦ inl (rw no_it)
            ]))))

  authorize_retry-Leaves :
      (expected : ℕ) (event context : String)
      → Leaves
          (IsUnsynced env id s (IsDue env (authorizes id expected event context) s))
          (authorize_retry env id expected event context)
          s
  unfolding authorize_retry authorize_locked
  authorize_retry-Leaves expected event context e h =
      let D = IsDue env (authorizes id expected event context) s in
      let P = IsUnsynced env id s D in
      elim (Bool-cases (is_identifier event)) [
        | inl good ↦ rw good (
            locked-Leaves env P id (authorize_locked env id expected event context) s
              (and_then-Leaves P (load env id s) _ s (λ r l.
                let r' = authorized r expected event context in
                and_then-Leaves P (retry_guard r expected event >> validate env r') _ s (λ _ q.
                  let (_, passed, _) = >>=-eq-ok (retry_guard r expected event) _ q in
                  write-Leaves D r' tt (r, l, passed, refl))))
              e (rw good at h))
        | inr bad ↦ inl (rw bad)
      ]

  update_attempt-Leaves :
      (generation : ℕ) (c : Changes)
      → Leaves
          (IsUnsynced env id s (IsDue env (updates id generation c) s))
          (update_attempt env id generation c)
          s
  unfolding update_attempt update_locked
  update_attempt-Leaves generation c =
      let D = IsDue env (updates id generation c) s in
      let P = IsUnsynced env id s D in
      locked-Leaves env P id (update_locked env id generation c) s (
        and_then-Leaves P (load env id s) _ s (λ r l.
          and_then-Leaves P (update_record env generation c r) _ s
            (λ r' q. write-Leaves D r' r' (r, l, q))))

-- An operation of the store that raises has written nothing; or the directory was not synced, the
-- operation raised for that, and it left the record that it makes of those files as the execution's,
-- and all else as it was.
pub perform-atomic :
    (env : Env) (o : Operation) (s : Store) (e : Exception)
    → raised env o s ≡ some e
    → (perform env o s ≡ s) ⊎ IsUnsynced env (subject o) s (IsDue env o s) e (perform env o s)
unfolding raised perform
perform-atomic env (registers id fields prompt) s e h =
    register-Leaves env id s fields prompt e (ground (arith, h))
perform-atomic env (admits id event) s e h = admit-Leaves env id s event e (ground (arith, h))
perform-atomic env (authorizes id expected event context) s e h =
    authorize_retry-Leaves env id s expected event context e (ground (arith, h))
perform-atomic env (updates id generation c) s e h =
    update_attempt-Leaves env id s generation c e (ground (arith, h))
