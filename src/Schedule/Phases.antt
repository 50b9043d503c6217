-- ===== src/Schedule/Phases.antt =====
-- The definitions of the phases and the questions that phase_schedule.py asks of them.
use todo_pipeline_orch.Prelude.{
  ℕ, String, Bool, true, Option, none, some, List, [], ◌∷◌, ◌++◌, ◌&&◌, ◌||◌, not, ◌==◌, nat_eq,
  string_eq, list_eq, option_eq, ltb, contains, find?, if◌then◌else◌,
}
use Prim.Native.String.{◌++◌ as text_append}
use todo_pipeline_orch.Prelude.Text.{codes}
use todo_pipeline_orch.Execution.Text.{is_empty}

-- `Phase`, with the fields that the code reads. The types stand for the checks of the fields' types.
pub record Phase : Type 0 where
  pub phase_key : String
  pub name : String
  pub tools : String
  pub turns : ℕ
  pub timeout : ℕ
  pub terminal : Bool
  pub gate : Bool
  pub kind : Option String
  pub role : String

-- The messages of `ValueError`.
pub data PhaseFault : Type 0 where
  missing_definitions key_not_unique invalid_fields unknown_role role_not_unique : PhaseFault

abbrev pub is_kind : Option String → Bool
is_kind none = true
is_kind (some k) = k == "worker" || k == "controller_gate" || k == "human_gate"

abbrev pub is_worker_role : Phase → Bool
is_worker_role p = p.role == "worker"

abbrev pub is_role : String → Bool
is_role r = r == "worker" || r == "implementation" || r == "review" || r == "delivery"

-- The loop of `validate_definitions`, with the keys and the roles seen so far.
unfoldable pub check_phases : List String → List String → List Phase → Option PhaseFault
check_phases keys roles [] = none
check_phases keys roles (p ∷ rest) =
    let roles' = if is_worker_role p then roles else p.role ∷ roles in
    let later = check_phases (p.phase_key ∷ keys) roles' rest in
    if is_empty p.phase_key || contains p.phase_key keys
    then some key_not_unique
    else if is_empty p.name || not (ltb 0 p.timeout) || not (is_kind p.kind)
    then some invalid_fields
    else if not (is_role p.role)
    then some unknown_role
    else if not (is_worker_role p) && (p.gate || contains p.role roles)
    then some role_not_unique
    else later

-- `validate_definitions`: the fault that it raises, if any.
unfoldable pub validate_definitions : List Phase → Option PhaseFault
validate_definitions [] = some missing_definitions
validate_definitions (p ∷ rest) = check_phases [] [] (p ∷ rest)

-- `worker_phases`
unfoldable pub worker_phases : List Phase → List Phase
worker_phases [] = []
worker_phases (p ∷ rest) =
    let later = worker_phases rest in
    if p.gate then (if p.terminal then [] else later) else p ∷ later

add_code : ℕ → List (List ℕ) → List (List ℕ)
add_code c [] = (c ∷ []) ∷ []
add_code c (w ∷ ws) = (c ∷ w) ∷ ws

-- `tools.split(",")`
unfoldable pub split_commas : List ℕ → List (List ℕ)
unfolding add_code
split_commas [] = [] ∷ []
split_commas (c ∷ cs) =
    let later = split_commas cs in if c == b',' then [] ∷ later else add_code c later

-- `phase_tools`
unfoldable pub phase_tools : Phase → String → String → String
phase_tools p profile prompt_client =
    if profile == "native-sdd"
      && prompt_client == "claude"
      && p.role == "implementation"
      && not (contains (codes "Agent") (split_commas (codes p.tools)))
    then text_append p.tools ",Agent"
    else p.tools

-- What is read of a registration. `step_keys` is `none` where there is no such attribute.
pub record Registered : Type 0 where
  pub phase_definitions : List Phase
  pub step_keys : Option (List String)

abbrev pub has_role : String → Phase → Bool
has_role role p = p.role == role

abbrev pub has_key : String → Phase → Bool
has_key key p = p.phase_key == key

-- The keys of a registration that pins no definitions.
abbrev pub legacy_key : String → Option String
legacy_key role =
    if role == "implementation"
    then some "phase_4_development"
    else if role == "review"
    then some "review:0"
    else if role == "delivery"
    then some "finish"
    else none

abbrev pub key_of : Option Phase → Option String
key_of none = none
key_of (some p) = some p.phase_key

abbrev pub role_of : Option Phase → String
role_of none = "worker"
role_of (some p) = p.role

-- `role_key`
unfoldable pub role_key : Registered → String → Option String
role_key r role = elim r.phase_definitions [
  | [] ↦ legacy_key role
  | p ∷ rest ↦ key_of (find? (has_role role) (worker_phases (p ∷ rest)))
]

-- `phase_role`
unfoldable pub phase_role : Registered → String → String
phase_role r key = elim r.phase_definitions [
  | [] ↦
      if role_key r "implementation" == some key
      then "implementation"
      else if role_key r "review" == some key
      then "review"
      else if role_key r "delivery" == some key
      then "delivery"
      else "worker"
  | p ∷ rest ↦ role_of (find? (has_key key) (worker_phases (p ∷ rest)))
]

-- `tuple(dict.fromkeys(keys))`, the keys of `seen` left out.
unfoldable pub distinct_keys : List String → List String → List String
distinct_keys seen [] = []
distinct_keys seen (k ∷ rest) =
    let fresh = distinct_keys (k ∷ seen) rest in
    let later = distinct_keys seen rest in if contains k seen then later else k ∷ fresh

abbrev pub legacy_steps : Option (List String) → List String
legacy_steps none = "phase_4_development" ∷ []
legacy_steps (some keys) = keys

abbrev pub steps_of : Option (List String) → List String
steps_of none = []
steps_of (some keys) = keys

-- `execution_keys`
unfoldable pub execution_keys : Registered → List String
execution_keys r = elim r.phase_definitions [
  | [] ↦ distinct_keys [] (legacy_steps r.step_keys ++ "review:0" ∷ "finish" ∷ [])
  | p ∷ rest ↦ steps_of r.step_keys
]
