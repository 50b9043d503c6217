-- ===== src/Schedule/Roles.antt =====
-- What validate_definitions has checked of the definitions that it accepts.
use todo_pipeline_orch.Prelude.{
  String, true, false, none, List, [], ◌∷◌, ◌≡◌, ◌≢◌, ◌⊎◌, sym, ◌∙◌, arith, string_eq, text_iff,
  contains, All, All-imp, if◌then◌else◌, inl, inr, Bool-cases,
}
use todo_pipeline_orch.Schedule.Phases.{Phase, is_worker_role, check_phases}

-- The key is none of these.
abbrev pub NewKey : List String → Phase → Type 0
NewKey keys p = contains p.phase_key keys ≡ false

-- No two phases have one key.
abbrev pub KeysDistinct : List Phase → Type 0
KeysDistinct [] = Unit
KeysDistinct (p ∷ rest) = All (λ (q : Phase). q.phase_key ≢ p.phase_key) rest × KeysDistinct rest

-- A phase with a role of its own is no gate, and no other phase has the role.
abbrev pub RolesDistinct : List Phase → Type 0
RolesDistinct [] = Unit
RolesDistinct (p ∷ rest) =
    ((p.role ≡ "worker") ⊎ (p.gate ≡ false) × All (λ (q : Phase). q.role ≢ p.role) rest)
    × RolesDistinct rest

-- What one turn of the loop has checked.
check_phases-cons :
    (keys roles : List String) (p : Phase) (rest : List Phase)
    → check_phases keys roles (p ∷ rest) ≡ none
    → (contains p.phase_key keys ≡ false)
      × ((is_worker_role p ≡ true) ⊎ (p.gate ≡ false) × (contains p.role roles ≡ false))
      × (check_phases (p.phase_key ∷ keys) (if is_worker_role p then roles else p.role ∷ roles) rest
          ≡ none)
unfolding check_phases
check_phases-cons keys roles p rest e = (ground (arith, e), ground (arith, e), ground (arith, e))

not_head :
    (k j : String) (keys : List String)
    → contains k (j ∷ keys) ≡ false
    → (k ≢ j) × (contains k keys ≡ false)
unfolding contains
not_head k j keys e = (λ q. ground (arith, e, (text_iff k j).1 q), ground (arith, e))

-- Of the phases that the loop accepts: their keys are new and distinct.
pub check_phases-keys :
    (keys roles : List String) (ps : List Phase)
    → check_phases keys roles ps ≡ none
    → All (NewKey keys) ps × KeysDistinct ps
check_phases-keys keys roles [] e = (tt, tt)
check_phases-keys keys roles (p ∷ rest) e =
    let (fresh, _, e') = check_phases-cons keys roles p rest e in
    let (new, apart) = check_phases-keys (p.phase_key ∷ keys) _ rest e' in
    (
      (
        fresh,
        All-imp (NewKey (p.phase_key ∷ keys)) (NewKey keys)
            (λ (q : Phase) h. (not_head q.phase_key p.phase_key keys h).1) rest new,
      ),
      (
        All-imp (NewKey (p.phase_key ∷ keys)) (λ (q : Phase). q.phase_key ≢ p.phase_key)
            (λ (q : Phase) h. (not_head q.phase_key p.phase_key keys h).0) rest new,
        apart,
      ),
    )

-- The role is that of any worker, or none of these.
abbrev pub FreeRole : List String → Phase → Type 0
FreeRole roles p = (p.role ≡ "worker") ⊎ (contains p.role roles ≡ false)

FreeRole-tail :
    (r : String) (roles : List String) (q : Phase) → FreeRole (r ∷ roles) q → FreeRole roles q
FreeRole-tail r roles q (inl any_worker) = inl any_worker
FreeRole-tail r roles q (inr new) = inr (not_head q.role r roles new).1

FreeRole-head :
    (r : String) (roles : List String) (q : Phase)
    → r ≢ "worker"
    → FreeRole (r ∷ roles) q
    → q.role ≢ r
FreeRole-head r roles q own (inl any_worker) = λ e. own (sym e ∙ any_worker)
FreeRole-head r roles q own (inr new) = (not_head q.role r roles new).0

own_role :
    (p : Phase) (roles : List String)
    → is_worker_role p ≡ false
    → (is_worker_role p ≡ true) ⊎ (p.gate ≡ false) × (contains p.role roles ≡ false)
    → (p.gate ≡ false) × (contains p.role roles ≡ false)
own_role p roles alone (inl shared) = absurd (ground (arith, alone, shared))
own_role p roles alone (inr own) = own

-- Of the phases that the loop accepts: their own roles are new and distinct.
pub check_phases-roles :
    (keys roles : List String) (ps : List Phase)
    → check_phases keys roles ps ≡ none
    → All (FreeRole roles) ps × RolesDistinct ps
check_phases-roles keys roles [] e = (tt, tt)
check_phases-roles keys roles (p ∷ rest) e =
    let (_, own, e') = check_phases-cons keys roles p rest e in
    elim (Bool-cases (is_worker_role p)) [
      | inl shared ↦
          let role_is = (text_iff p.role "worker").0 shared in
          let (new, apart) = check_phases-roles (p.phase_key ∷ keys) roles rest (rw shared at e') in
          ((inl role_is, new), (inl role_is, apart))
      | inr alone ↦
          let (new, apart) =
            check_phases-roles (p.phase_key ∷ keys) (p.role ∷ roles) rest (rw alone at e') in
          let (no_gate, fresh) = own_role p roles alone own in
          let other : p.role ≢ "worker" =
            λ q. ground (arith, alone, (text_iff p.role "worker").1 q) in
          (
            (
              inr fresh,
              All-imp (FreeRole (p.role ∷ roles)) (FreeRole roles) (FreeRole-tail p.role roles) rest
                  new,
            ),
            (
              inr (
                no_gate,
                All-imp (FreeRole (p.role ∷ roles)) (λ (q : Phase). q.role ≢ p.role)
                    (λ q. FreeRole-head p.role roles q other) rest new,
              ),
              apart,
            ),
          )
    ]
