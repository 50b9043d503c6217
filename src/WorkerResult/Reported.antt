-- ===== src/WorkerResult/Reported.antt =====
-- What an accepted report of the criteria is.
use todo_pipeline_orch.Prelude.{
  String, true, some, List, [], ◌∷◌, ◌≡◌, refl, ◌==◌, nat_eq, string_eq, list_eq, text_iff,
  list_beq_iff, length, inl, inr, Bool-cases, ap, subst, ◌∙◌,
}
use todo_pipeline_orch.Prelude.Dict.{Dict, lookup}
use todo_pipeline_orch.Prelude.Int.{int_eq}
use todo_pipeline_orch.Prelude.Checked.{
  Checked, ok, err, require, map_checked, Ensures, Ensures-require, Ensures-bind, Ensures-present,
}
use todo_pipeline_orch.Prelude.Json.{
  Json, Fields, null, bool, int, float, str, arr, obj, items, dict, same_keys,
}
use todo_pipeline_orch.WorkerResult.Text.{equals_text}
use todo_pipeline_orch.WorkerResult.Types.{ResultCode, invalid_acceptance, key_error}
use todo_pipeline_orch.WorkerResult.Values.{item}
use todo_pipeline_orch.WorkerResult.Sections.{criterion, acceptance}
use todo_pipeline_orch.WorkerResult.Evidence.{Reports}

-- An entry that reports the criterion `c` as passed.
abbrev Passes : Json → String → Type 0
Passes v c =
    (fs : Fields) × (v ≡ obj fs)
    × (lookup "criterion" (dict fs) ≡ some (str c))
    × (lookup "status" (dict fs) ≡ some (str "passed"))

pub equals_text-eq : (v : Json) (t : String) → equals_text v t ≡ true → v ≡ str t
equals_text-eq (str s) t e = ap str ((text_iff s t).0 e)
equals_text-eq null t e = absurd (cc)
equals_text-eq (bool b) t e = absurd (cc)
equals_text-eq (int z) t e = absurd (cc)
equals_text-eq (float z w) t e = absurd (cc)
equals_text-eq (arr xs) t e = absurd (cc)
equals_text-eq (obj fs) t e = absurd (cc)

pub present_item :
    (d : Dict String Json) (key : String) → Ensures (λ v. lookup key d ≡ some v) (item d key)
present_item d key = Ensures-present _ (lookup key d) key_error λ a e. e

criterion-Passes : (v : Json) → Ensures (Passes v) (criterion v)
unfolding criterion
criterion-Passes (obj fs) =
    Ensures-require (Passes (obj fs)) (same_keys (dict fs) ("criterion" ∷ "status" ∷ []))
      invalid_acceptance _
      λ _.
        Ensures-bind _ (Passes (obj fs)) (item (dict fs) "status") _
          (present_item (dict fs) "status")
          λ status a.
            Ensures-require (Passes (obj fs)) (equals_text status "passed") invalid_acceptance _
              λ b.
                Ensures-bind _ (Passes (obj fs)) (item (dict fs) "criterion") _
                  (present_item (dict fs) "criterion")
                  λ text d. on_text text (a ∙ ap some (equals_text-eq status "passed" b)) d
  where
    on_text :
        (text : Json)
        → lookup "status" (dict fs) ≡ some (str "passed")
        → lookup "criterion" (dict fs) ≡ some text
        → Ensures (Passes (obj fs)) (elim text as (λ _. Checked ResultCode String) [
          | str s ↦ ok s
          | _ ↦ err invalid_acceptance
        ])
    on_text (str s) a d = (fs, refl, d, a)
    on_text null a d = tt
    on_text (bool b) a d = tt
    on_text (int z) a d = tt
    on_text (float z t) a d = tt
    on_text (arr xs) a d = tt
    on_text (obj gs) a d = tt
criterion-Passes null = tt
criterion-Passes (bool b) = tt
criterion-Passes (int z) = tt
criterion-Passes (float z t) = tt
criterion-Passes (str s) = tt
criterion-Passes (arr xs) = tt

map_criterion-Reports : (vs : List Json) → Ensures (λ cs. Reports cs vs) (map_checked criterion vs)
unfolding map_checked
map_criterion-Reports [] = tt
map_criterion-Reports (v ∷ vs) =
    Ensures-bind _ (λ cs. Reports cs (v ∷ vs)) (criterion v) _ (criterion-Passes v)
      λ c held.
        Ensures-bind _ (λ cs. Reports cs (v ∷ vs)) (map_checked criterion vs) _
          (map_criterion-Reports vs) λ cs rest. (held, rest)

-- The value is a list that reports the criteria.
abbrev pub ReportsAll : List String → Json → Type 0
ReportsAll cs (arr xs) = Reports cs (items xs)
ReportsAll cs _ = ⊥

pub acceptance-ReportsAll :
    (cs : List String) (v : Json) → Ensures (λ _. ReportsAll cs v) (acceptance cs v)
unfolding acceptance
acceptance-ReportsAll cs (arr xs) =
    Ensures-require (λ _. Reports cs (items xs)) (length (items xs) == length cs) invalid_acceptance
      _
      λ _.
        Ensures-bind _ (λ _. Reports cs (items xs)) (map_checked criterion (items xs)) _
          (map_criterion-Reports (items xs)) λ observed held. on_equal observed held
  where
    on_equal :
        (observed : List String)
        → Reports observed (items xs)
        → Ensures (λ _. Reports cs (items xs)) (require (observed == cs) invalid_acceptance)
    on_equal observed held = elim (Bool-cases (observed == cs)) [
      | inl e ↦
          rw e (
            subst (λ (l : List String). Reports l (items xs)) ((list_beq_iff observed cs).0 e) held)
      | inr e ↦ rw e tt
    ]
acceptance-ReportsAll cs null = tt
acceptance-ReportsAll cs (bool b) = tt
acceptance-ReportsAll cs (int z) = tt
acceptance-ReportsAll cs (float z t) = tt
acceptance-ReportsAll cs (str s) = tt
acceptance-ReportsAll cs (obj fs) = tt
