-- ===== src/Schedule/Names.antt =====
-- Roles and the keys of their phases, in definitions that validate_definitions accepts.
use todo_pipeline_orch.Prelude.{
  String, true, false, none, some, List, [], ◌∷◌, ◌≡◌, ◌≢◌, ◌⊎◌, ◌↔◌, refl, sym, ap, ◌∙◌, arith,
  ◌==◌, string_eq, text_iff, find?, find?-All, find?-true, find?-here, find?-past, find?-nil, All,
  if_ind, inl, inr, Bool-cases, Option-cases,
}
use todo_pipeline_orch.Schedule.Phases.{
  Phase, validate_definitions, worker_phases, Registered, has_role, has_key, key_of, role_of,
  role_key, phase_role,
}
use todo_pipeline_orch.Schedule.Order.{worker_phases-All}
use todo_pipeline_orch.Schedule.Roles.{
  KeysDistinct, RolesDistinct, check_phases-keys, check_phases-roles,
}

worker_phases-KeysDistinct : (ps : List Phase) → KeysDistinct ps → KeysDistinct (worker_phases ps)
unfolding worker_phases
worker_phases-KeysDistinct [] h = tt
worker_phases-KeysDistinct (p ∷ rest) (new, apart) =
    if_ind KeysDistinct p.gate
      (λ _. if_ind KeysDistinct p.terminal (λ _. tt) (λ _. worker_phases-KeysDistinct rest apart))
      (λ _. (worker_phases-All _ rest new, worker_phases-KeysDistinct rest apart))

worker_phases-RolesDistinct :
    (ps : List Phase) → RolesDistinct ps → RolesDistinct (worker_phases ps)
unfolding worker_phases
worker_phases-RolesDistinct [] h = tt
worker_phases-RolesDistinct (p ∷ rest) (own, apart) =
    if_ind RolesDistinct p.gate
      (λ _. if_ind RolesDistinct p.terminal (λ _. tt) (λ _. worker_phases-RolesDistinct rest apart))
      (λ _. (kept own, worker_phases-RolesDistinct rest apart))
  where
    kept :
        (p.role ≡ "worker") ⊎ (p.gate ≡ false) × All (λ (q : Phase). q.role ≢ p.role) rest
        → (p.role ≡ "worker")
          ⊎ (p.gate ≡ false) × All (λ (q : Phase). q.role ≢ p.role) (worker_phases rest)
    kept (inl shared) = inl shared
    kept (inr (no_gate, new)) = inr (no_gate, worker_phases-All _ rest new)

differ : (a b : String) → a ≢ b → (b == a) ≡ false
differ a b ne = elim (Bool-cases (b == a)) [
  | inl same ↦ absurd (ne (sym ((text_iff b a).0 same)))
  | inr other ↦ other
]

find-role-key :
    (role : String) (ws : List Phase) (p : Phase)
    → KeysDistinct ws
    → find? (has_role role) ws ≡ some p
    → find? (has_key p.phase_key) ws ≡ some p
find-role-key role [] p h e = absurd (find?-nil (has_role role) e)
find-role-key role (x ∷ ws) p (new, apart) e = elim (Bool-cases (has_role role x)) [
  | inl here ↦
      let same : some x ≡ some p = sym (find?-here (has_role role) x ws here) ∙ e in
      let key_is : has_key p.phase_key x ≡ true =
        (text_iff x.phase_key p.phase_key).1 (ground (arith, same)) in
      find?-here (has_key p.phase_key) x ws key_is ∙ same
  | inr past ↦
      let found = sym (find?-past (has_role role) x ws past) ∙ e in
      let apart_p =
        find?-All (λ (q : Phase). q.phase_key ≢ x.phase_key) (has_role role) ws new found in
      find?-past (has_key p.phase_key) x ws (differ p.phase_key x.phase_key apart_p)
      ∙ find-role-key role ws p apart found
]

find-key-role :
    (key : String) (ws : List Phase) (p : Phase)
    → RolesDistinct ws
    → p.role ≢ "worker"
    → find? (has_key key) ws ≡ some p
    → find? (has_role p.role) ws ≡ some p
find-key-role key [] p h own e = absurd (find?-nil (has_key key) e)
find-key-role key (x ∷ ws) p (head, apart) own e = elim (Bool-cases (has_key key x)) [
  | inl here ↦
      let same : some x ≡ some p = sym (find?-here (has_key key) x ws here) ∙ e in
      let role_is : has_role p.role x ≡ true = (text_iff x.role p.role).1 (ground (arith, same)) in
      find?-here (has_role p.role) x ws role_is ∙ same
  | inr past ↦
      let found = sym (find?-past (has_key key) x ws past) ∙ e in
      find?-past (has_role p.role) x ws (differ p.role x.role (other head found))
      ∙ find-key-role key ws p apart own found
]
  where
    other :
        (x.role ≡ "worker") ⊎ (x.gate ≡ false) × All (λ (q : Phase). q.role ≢ x.role) ws
        → find? (has_key key) ws ≡ some p
        → p.role ≢ x.role
    other (inl shared) found = λ same. own (same ∙ shared)
    other (inr (_, new)) found =
        find?-All (λ (q : Phase). q.role ≢ x.role) (has_key key) ws new found

-- The phases with a worker of accepted definitions.
validate_definitions-Distinct :
    (ps : List Phase)
    → validate_definitions ps ≡ none
    → KeysDistinct (worker_phases ps) × RolesDistinct (worker_phases ps)
unfolding validate_definitions
validate_definitions-Distinct [] e = absurd (cc)
validate_definitions-Distinct (p ∷ rest) e = (
  worker_phases-KeysDistinct (p ∷ rest) (check_phases-keys [] [] (p ∷ rest) e).1,
  worker_phases-RolesDistinct (p ∷ rest) (check_phases-roles [] [] (p ∷ rest) e).1,
)

role_of-key :
    (role key : String) (ws : List Phase)
    → KeysDistinct ws
    → key_of (find? (has_role role) ws) ≡ some key
    → role_of (find? (has_key key) ws) ≡ role
role_of-key role key ws apart e = elim (Option-cases (find? (has_role role) ws)) [
  | inl lacks ↦ absurd (ground (arith, e, lacks))
  | inr (p, found) ↦
      let key_is : p.phase_key ≡ key = ground (arith, e, found) in
      rw (sym key_is, find-role-key role ws p apart found)
        ((text_iff p.role role).0 (find?-true (has_role role) ws found))
]

key_of-role :
    (role key : String) (ws : List Phase)
    → RolesDistinct ws
    → role ≢ "worker"
    → role_of (find? (has_key key) ws) ≡ role
    → key_of (find? (has_role role) ws) ≡ some key
key_of-role role key ws apart own e = elim (Option-cases (find? (has_key key) ws)) [
  | inl lacks ↦ absurd (own (sym (ground (arith, e, lacks))))
  | inr (p, found) ↦
      let role_is : p.role ≡ role = ground (arith, e, found) in
      let own_p : p.role ≢ "worker" = λ q. own (sym role_is ∙ q) in
      rw (sym role_is, find-key-role key ws p apart own_p found)
        (ap some ((text_iff p.phase_key key).0 (find?-true (has_key key) ws found)))
]

no_definitions : validate_definitions [] ≢ none
unfolding validate_definitions
no_definitions e = cc

-- In accepted definitions, for a role of its own: `role_key` gives a key exactly where `phase_role` of
-- that key gives the role.
pub role_key-phase_role :
    (r : Registered) (role key : String)
    → validate_definitions r.phase_definitions ≡ none
    → role ≢ "worker"
    → (role_key r role ≡ some key) ↔ (phase_role r key ≡ role)
unfolding role_key phase_role
role_key-phase_role r role key valid own = go r.phase_definitions refl
  where
    go :
        (ps : List Phase)
        → r.phase_definitions ≡ ps
        → (role_key r role ≡ some key) ↔ (phase_role r key ≡ role)
    go [] e = absurd (no_definitions (rw e at valid))
    go (p ∷ rest) e =
        let (keys, roles) = validate_definitions-Distinct (p ∷ rest) (rw e at valid) in
        rw (role_key, phase_role, e)
          (
            role_of-key role key (worker_phases (p ∷ rest)) keys,
            key_of-role role key (worker_phases (p ∷ rest)) roles own,
          )
