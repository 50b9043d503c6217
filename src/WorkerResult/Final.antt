-- ===== src/WorkerResult/Final.antt =====
-- Which run of a card `parse_worker_result` reads (result_contract.py).
use todo_pipeline_orch.Prelude.{
  String, Bool, true, false, Option, none, some, List, [], ◌∷◌, ◌++◌, ◌≡◌, ◌≢◌, ◌↔◌, refl, ap,
  subst, string_eq, get_last?, All, if◌then◌else◌,
}
use todo_pipeline_orch.Prelude.Dict.{Dict, lookup}
use todo_pipeline_orch.Prelude.Checked.{
  Checked, Ensures, Ensures-bind, Ensures-present, Ensures-imp, Anything, anything,
}
use todo_pipeline_orch.Prelude.Json.{
  Json, Items, Fields, null, bool, int, float, str, arr, obj, items, dict,
}
use todo_pipeline_orch.WorkerResult.Text.{Library}
use todo_pipeline_orch.WorkerResult.Types.{ResultCode, missing_successful_run}
use todo_pipeline_orch.WorkerResult.Runs.{
  is_successful, successful, final_run, within_bytes, section,
}
use todo_pipeline_orch.WorkerResult.Parse.{published}
use todo_pipeline_orch.WorkerResult.Success.{Succeeded, is_successful-Succeeded}

-- An entry that is no run that succeeded.
abbrev pub Unsuccessful : Json → Type 0
Unsuccessful v = (fs : Fields) → v ≡ obj fs → Succeeded (dict fs) → ⊥

-- The last entry that is a run that succeeded.
pub record IsLast (entries : List Json) (run : Dict String Json) : Type 0 where
  pub before : List Json
  pub fields : Fields
  pub later : List Json
  pub split : entries ≡ before ++ obj fields ∷ later
  pub is_run : run ≡ dict fields
  pub succeeded : Succeeded run
  pub none_later : All Unsuccessful later

abbrev Ends : List Json → Option (Dict String Json) → Type 0
Ends entries none = All Unsuccessful entries
Ends entries (some run) = IsLast entries run

Ends-past :
    (v : Json) (entries : List Json) (o : Option (Dict String Json))
    → (o ≡ none → Unsuccessful v)
    → Ends entries o
    → Ends (v ∷ entries) o
Ends-past v entries none fails held = (fails refl, held)
Ends-past v entries (some run) fails last = record {
  before = v ∷ last.before;
  fields = last.fields;
  later = last.later;
  split = ap (λ (l : List Json). v ∷ l) last.split;
  is_run = last.is_run;
  succeeded = last.succeeded;
  none_later = last.none_later;
}

get_last?-some : {A : Type 0} (x : A) (xs : List A) → get_last? (x ∷ xs) ≢ none
get_last?-some x [] e = cc
get_last?-some x (y ∷ ys) e = get_last?-some y ys e

on_run :
    (fs : Fields) (vs : List Json) (good : Bool) (rest : List (Dict String Json))
    → ((good ≡ true) ↔ Succeeded (dict fs))
    → Ends vs (get_last? rest)
    → Ends (obj fs ∷ vs) (get_last? (if good then dict fs ∷ rest else rest))
on_run fs vs true [] (into, back) held = record {
  before = [];
  fields = fs;
  later = vs;
  split = refl;
  is_run = refl;
  succeeded = into refl;
  none_later = held;
}
on_run fs vs true (r ∷ rs) (into, back) held =
    Ends-past (obj fs) vs (get_last? (r ∷ rs)) (λ e. absurd (get_last?-some r rs e)) held
on_run fs vs false rest (into, back) held =
    Ends-past (obj fs) vs (get_last? rest)
      (λ _ gs e h.
        let same : gs ≡ fs = cc in
        let bad : false ≡ true = back (subst (λ g. Succeeded (dict g)) same h) in absurd (cc))
      held

skipped :
    (v : Json) (vs : List Json)
    → Unsuccessful v
    → (r : Checked ResultCode (List (Dict String Json)))
    → Ensures (λ runs. Ends vs (get_last? runs)) r
    → Ensures (λ runs. Ends (v ∷ vs) (get_last? runs)) r
skipped v vs fails r held =
    Ensures-imp _ _ r held λ runs ends. Ends-past v vs (get_last? runs) (λ _. fails) ends

successful-Ends : (vs : List Json) → Ensures (λ runs. Ends vs (get_last? runs)) (successful vs)
unfolding successful
successful-Ends [] = tt
successful-Ends (obj fs ∷ vs) =
    Ensures-bind _ _ (is_successful (dict fs)) _ (is_successful-Succeeded (dict fs)) λ good iff.
      Ensures-bind _ _ (successful vs) _ (successful-Ends vs)
        λ rest held. on_run fs vs good rest iff held
successful-Ends (null ∷ vs) = skipped (null) vs (λ fs e h. cc) (successful vs) (successful-Ends vs)
successful-Ends (bool b ∷ vs) =
    skipped (bool b) vs (λ fs e h. cc) (successful vs) (successful-Ends vs)
successful-Ends (int z ∷ vs) =
    skipped (int z) vs (λ fs e h. cc) (successful vs) (successful-Ends vs)
successful-Ends (float z t ∷ vs) =
    skipped (float z t) vs (λ fs e h. cc) (successful vs) (successful-Ends vs)
successful-Ends (str s ∷ vs) =
    skipped (str s) vs (λ fs e h. cc) (successful vs) (successful-Ends vs)
successful-Ends (arr xs ∷ vs) =
    skipped (arr xs) vs (λ fs e h. cc) (successful vs) (successful-Ends vs)

-- The run that is read: the last of the payload's runs that succeeded.
pub record IsFinal (envelope run : Dict String Json) : Type 0 where
  pub runs : Items
  pub runs_found : lookup "runs" envelope ≡ some (arr runs)
  pub last : IsLast (items runs) run

final_run-IsFinal : (envelope : Dict String Json) → Ensures (IsFinal envelope) (final_run envelope)
unfolding final_run
final_run-IsFinal envelope = on_runs (lookup "runs" envelope) refl
  where
    on_runs :
        (o : Option Json)
        → lookup "runs" envelope ≡ o
        → Ensures (IsFinal envelope) (final_run envelope)
    on_runs none e = rw (e, final_run) tt
    on_runs (some (arr xs)) e =
        rw (e, final_run)
          (Ensures-bind _ (IsFinal envelope) (successful (items xs)) _ (successful-Ends (items xs))
            λ runs held.
              Ensures-present (IsFinal envelope) (get_last? runs) missing_successful_run λ run last.
                record { runs = xs; runs_found = e; last = subst (Ends (items xs)) last held })
    on_runs (some null) e = rw (e, final_run) tt
    on_runs (some (bool b)) e = rw (e, final_run) tt
    on_runs (some (int z)) e = rw (e, final_run) tt
    on_runs (some (float z t)) e = rw (e, final_run) tt
    on_runs (some (str s)) e = rw (e, final_run) tt
    on_runs (some (obj fs)) e = rw (e, final_run) tt

-- An object at a key.
abbrev pub HasSection : Dict String Json → String → Dict String Json → Type 0
HasSection d key fs = (gs : Fields) × (lookup key d ≡ some (obj gs)) × (fs ≡ dict gs)

section-HasSection :
    (lib : Library) (d : Dict String Json) (key : String)
    → Ensures (HasSection d key) (section lib d key)
unfolding section
section-HasSection lib d key = on_value (lookup key d) refl
  where
    on_value : (o : Option Json) → lookup key d ≡ o → Ensures (HasSection d key) (section lib d key)
    on_value none e = rw (e, section) tt
    on_value (some (obj gs)) e =
        rw (e, section)
          (Ensures-bind Anything (HasSection d key) (within_bytes lib (obj gs)) _
            (anything (within_bytes lib (obj gs))) λ _ _. (gs, e, refl))
    on_value (some null) e = rw (e, section) tt
    on_value (some (bool b)) e = rw (e, section) tt
    on_value (some (int z)) e = rw (e, section) tt
    on_value (some (float z t)) e = rw (e, section) tt
    on_value (some (str s)) e = rw (e, section) tt
    on_value (some (arr xs)) e = rw (e, section) tt

-- The `tpo_result` in the metadata of the final run of a payload.
pub record IsPublished (payload : Json) (raw : Dict String Json) : Type 0 where
  pub envelope : Fields
  pub is_object : payload ≡ obj envelope
  pub run : Dict String Json
  pub final : IsFinal (dict envelope) run
  pub metadata : Dict String Json
  pub has_metadata : HasSection run "metadata" metadata
  pub has_result : HasSection metadata "tpo_result" raw

pub published-IsPublished :
    (lib : Library) (payload : Json) → Ensures (IsPublished payload) (published lib payload)
unfolding published
published-IsPublished lib (obj fs) =
    let Q = IsPublished (obj fs) in
    Ensures-bind _ Q (final_run (dict fs)) _ (final_run-IsFinal (dict fs)) λ run final.
      Ensures-bind _ Q (section lib run "metadata") _ (section-HasSection lib run "metadata")
        λ metadata has_metadata.
          Ensures-imp (HasSection metadata "tpo_result") Q (section lib metadata "tpo_result")
            (section-HasSection lib metadata "tpo_result")
            λ raw has_result. record {
              envelope = fs;
              is_object = refl;
              run = run;
              final = final;
              metadata = metadata;
              has_metadata = has_metadata;
              has_result = has_result;
            }
published-IsPublished lib null = tt
published-IsPublished lib (bool b) = tt
published-IsPublished lib (int z) = tt
published-IsPublished lib (float z t) = tt
published-IsPublished lib (str s) = tt
published-IsPublished lib (arr xs) = tt
