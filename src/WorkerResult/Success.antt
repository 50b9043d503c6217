-- ===== src/WorkerResult/Success.antt =====
-- Which runs of a card succeeded (`_successful_runs`, result_contract.py).
use todo_pipeline_orch.Prelude.{
  String, Bool, true, false, ◌&&◌, ◌||◌, Option, none, some, ◌≡◌, ◌⊎◌, ◌↔◌, inl, inr, refl, sym,
  subst, arith, string_eq, contains, if_ind,
}
use todo_pipeline_orch.Prelude.Dict.{Dict, lookup}
use todo_pipeline_orch.Prelude.Checked.{Ensures, Ensures-bind}
use todo_pipeline_orch.Prelude.Json.{Json, null, bool, int, float, str, arr, obj}
use todo_pipeline_orch.WorkerResult.Text.{equals_number}
use todo_pipeline_orch.WorkerResult.Runs.{good_statuses, in_good, is_null, is_zero, is_successful}

-- A text that names a success is at the key.
abbrev pub NamesSuccess : Option Json → Type 0
NamesSuccess o = (s : String) × (o ≡ some (str s)) × (contains s good_statuses ≡ true)

abbrev pub IsZero : Option Json → Type 0
IsZero o = (v : Json) × (o ≡ some v) × (equals_number v 0 ≡ true)

-- A run that succeeded: its status or its outcome names a success, or it has no status and exits with zero.
abbrev pub Succeeded : Dict String Json → Type 0
Succeeded run =
    NamesSuccess (lookup "status" run)
    ⊎ NamesSuccess (lookup "outcome" run)
    ⊎ ((lookup "status" run ≡ none) ⊎ (lookup "status" run ≡ some null))
      × IsZero (lookup "exit_code" run)

in_good-NamesSuccess : (o : Option Json) → Ensures (λ b. (b ≡ true) ↔ NamesSuccess o) (in_good o)
in_good-NamesSuccess none = ((λ e. absurd (cc)), λ (s, e, h). absurd (cc))
in_good-NamesSuccess (some (str s)) = (
  (λ h. (s, refl, h)),
  λ (t, e, h). let same : s ≡ t = cc in subst (λ x. contains x good_statuses ≡ true) (sym same) h,
)
in_good-NamesSuccess (some null) = ((λ e. absurd (cc)), λ (s, e, h). absurd (cc))
in_good-NamesSuccess (some (bool b)) = ((λ e. absurd (cc)), λ (s, e, h). absurd (cc))
in_good-NamesSuccess (some (int z)) = ((λ e. absurd (cc)), λ (s, e, h). absurd (cc))
in_good-NamesSuccess (some (float z t)) = ((λ e. absurd (cc)), λ (s, e, h). absurd (cc))
in_good-NamesSuccess (some (arr xs)) = tt
in_good-NamesSuccess (some (obj fs)) = tt

is_null_iff : (o : Option Json) → (is_null o ≡ true) ↔ ((o ≡ none) ⊎ (o ≡ some null))
is_null_iff none = ((λ e. inl refl), λ h. refl)
is_null_iff (some null) = ((λ e. inr refl), λ h. refl)
is_null_iff (some (bool b)) =
    ((λ e. absurd (cc)), λ h. elim h [ inl e ↦ absurd (cc) | inr e ↦ absurd (cc) ])
is_null_iff (some (int z)) =
    ((λ e. absurd (cc)), λ h. elim h [ inl e ↦ absurd (cc) | inr e ↦ absurd (cc) ])
is_null_iff (some (float z t)) =
    ((λ e. absurd (cc)), λ h. elim h [ inl e ↦ absurd (cc) | inr e ↦ absurd (cc) ])
is_null_iff (some (str s)) =
    ((λ e. absurd (cc)), λ h. elim h [ inl e ↦ absurd (cc) | inr e ↦ absurd (cc) ])
is_null_iff (some (arr xs)) =
    ((λ e. absurd (cc)), λ h. elim h [ inl e ↦ absurd (cc) | inr e ↦ absurd (cc) ])
is_null_iff (some (obj fs)) =
    ((λ e. absurd (cc)), λ h. elim h [ inl e ↦ absurd (cc) | inr e ↦ absurd (cc) ])

is_zero_iff : (o : Option Json) → (is_zero o ≡ true) ↔ IsZero o
is_zero_iff none = ((λ e. absurd (cc)), λ (v, e, h). absurd (cc))
is_zero_iff (some v) = (
  (λ h. (v, refl, h)),
  λ (w, e, h). let same : v ≡ w = cc in subst (λ x. equals_number x 0 ≡ true) (sym same) h,
)

either-into :
    {O N Z : Type 0} (o n z : Bool)
    → (o ≡ true → O)
    → (n ≡ true → N)
    → (z ≡ true → Z)
    → (o || n && z) ≡ true
    → O ⊎ N × Z
either-into true n z f g h e = inl (f refl)
either-into false true true f g h e = inr (g refl, h refl)
either-into false true false f g h e = absurd (cc)
either-into false false z f g h e = absurd (cc)

either-back :
    {O N Z : Type 0} (o n z : Bool)
    → (O → o ≡ true)
    → (N → n ≡ true)
    → (Z → z ≡ true)
    → O ⊎ N × Z
    → (o || n && z) ≡ true
either-back o n z f g h (inl x) = rw (f x) refl
either-back true n z f g h (inr (y, w)) = refl
either-back false n z f g h (inr (y, w)) = rw (g y, h w) refl

pub is_successful-Succeeded :
    (run : Dict String Json) → Ensures (λ b. (b ≡ true) ↔ Succeeded run) (is_successful run)
unfolding is_successful
is_successful-Succeeded run =
    let Q : Bool → Type 0 = λ b. (b ≡ true) ↔ Succeeded run in
    let (null_into, null_back) = is_null_iff (lookup "status" run) in
    let (zero_into, zero_back) = is_zero_iff (lookup "exit_code" run) in
    Ensures-bind _ Q (in_good (lookup "status" run)) _ (in_good-NamesSuccess (lookup "status" run))
      λ s (into, back).
        if_ind (Ensures Q) s (λ named. ((λ _. inl (into named)), λ _. refl))
          (λ unnamed.
            Ensures-bind _ Q (in_good (lookup "outcome" run)) _
              (in_good-NamesSuccess (lookup "outcome" run))
              λ o (into', back'). (
                (λ e. inr (either-into o _ _ into' null_into zero_into e)),
                (λ h. elim h [
                  | inl named ↦ absurd (ground (arith, back named, unnamed))
                  | inr rest ↦ either-back o _ _ back' null_back zero_back rest
                ]),
              ))
