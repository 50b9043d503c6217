-- ===== src/WorkerResult/Delivered.antt =====
-- What accepted evidence of a delivery is.
use todo_pipeline_orch.Prelude.{
  ◌≤◌, true, not, ◌&&◌, Option, none, some, List, [], ◌∷◌, ◌≡◌, arith, ◌==◌, nat_eq, string_eq,
  list_eq, leb, length, All, all,
}
use todo_pipeline_orch.Prelude.Int.{pos, int_eq, int_beq_iff}
use todo_pipeline_orch.Prelude.Checked.{
  Anything, anything, map_checked, Ensures, Ensures-require, Ensures-bind, Ensures-map,
}
use todo_pipeline_orch.Prelude.Json.{Json, null, bool, int, float, str, arr, obj, items, same_keys}
use todo_pipeline_orch.WorkerResult.Text.{Library, is_pull_url}
use todo_pipeline_orch.WorkerResult.Types.{invalid_delivery, CommandResult}
use todo_pipeline_orch.WorkerResult.Values.{mapping, item, bounded_string, command}
use todo_pipeline_orch.WorkerResult.Sections.{
  sha, is_nil, checks, validate_delivery, optional_delivery,
}
use todo_pipeline_orch.WorkerResult.Evidence.{
  IsPassed, IsDelivery, IsOptionalDelivery, sha-is_sha, is_nil-items,
}

all-IsPassed :
    (cs : List CommandResult) → all (λ c. c.exit_code == pos 0) cs ≡ true → All IsPassed cs
unfolding all
all-IsPassed [] e = tt
all-IsPassed (c ∷ cs) e =
    (ground (arith, int_beq_iff c.exit_code (pos 0), e), all-IsPassed cs (ground (arith, e)))

abbrev AreChecks : List CommandResult → Type 0
AreChecks cs = All IsPassed cs × (1 ≤ length cs) × (length cs ≤ 50)

checks-AreChecks : (lib : Library) (v : Json) → Ensures AreChecks (checks lib v)
unfolding checks
checks-AreChecks lib (arr xs) =
    Ensures-require AreChecks (not (is_nil xs) && leb (length (items xs)) 50) invalid_delivery _
      λ a.
        Ensures-bind _ AreChecks (map_checked (command lib) (items xs)) _
          (Ensures-map Anything (command lib) (λ x. anything (command lib x)) (items xs))
          λ cs held.
            Ensures-require AreChecks (all (λ c. c.exit_code == pos 0) cs) invalid_delivery _ λ e. (
              all-IsPassed cs e,
              (let some_item = is_nil-items xs (ground (arith, a)) in
                  omega (arith, held.1, some_item)),
              (let few : length (items xs) ≤ 50 = ground (arith, a) in omega (arith, held.1, few)),
            )
checks-AreChecks lib null = tt
checks-AreChecks lib (bool b) = tt
checks-AreChecks lib (int z) = tt
checks-AreChecks lib (float z t) = tt
checks-AreChecks lib (str s) = tt
checks-AreChecks lib (obj fs) = tt

validate_delivery-IsDelivery :
    (lib : Library) (v : Json) → Ensures (IsDelivery lib) (validate_delivery lib v)
unfolding validate_delivery
validate_delivery-IsDelivery lib v =
    Ensures-bind Anything (IsDelivery lib) (mapping (some v) invalid_delivery) _
      (anything (mapping (some v) invalid_delivery))
      λ d _.
        Ensures-require (IsDelivery lib)
          (same_keys d ("pr_url" ∷ "branch" ∷ "head_sha" ∷ "checks" ∷ [])) invalid_delivery _
          λ _.
            Ensures-bind Anything (IsDelivery lib) (item d "pr_url") _ (anything (item d "pr_url"))
              λ raw_url _.
                Ensures-bind Anything (IsDelivery lib)
                  (bounded_string lib raw_url 1000 invalid_delivery) _
                  (anything (bounded_string lib raw_url 1000 invalid_delivery))
                  λ pr_url _.
                    Ensures-require (IsDelivery lib) (is_pull_url lib.is_decimal pr_url)
                      invalid_delivery _
                      λ url.
                        Ensures-bind Anything (IsDelivery lib) (item d "branch") _
                          (anything (item d "branch"))
                          λ raw_branch _.
                            Ensures-bind Anything (IsDelivery lib)
                              (bounded_string lib raw_branch 256 invalid_delivery) _
                              (anything (bounded_string lib raw_branch 256 invalid_delivery))
                              λ branch _.
                                Ensures-bind _ (IsDelivery lib) (sha d "head_sha" invalid_delivery)
                                  _ (sha-is_sha d "head_sha" invalid_delivery)
                                  λ head b.
                                    Ensures-bind Anything (IsDelivery lib) (item d "checks") _
                                      (anything (item d "checks"))
                                      λ raw_checks _.
                                        Ensures-bind AreChecks (IsDelivery lib)
                                          (checks lib raw_checks) _
                                          (checks-AreChecks lib raw_checks)
                                          λ cs (passed, some_check, few). record {
                                            url = url;
                                            head_sha = b;
                                            all_passed = passed;
                                            some_check = some_check;
                                            few_checks = few;
                                          }

pub optional_delivery-IsOptionalDelivery :
    (lib : Library) (v : Option Json) → Ensures (IsOptionalDelivery lib) (optional_delivery lib v)
unfolding optional_delivery
optional_delivery-IsOptionalDelivery lib none = tt
optional_delivery-IsOptionalDelivery lib (some v) =
    Ensures-bind (IsDelivery lib) (IsOptionalDelivery lib) (validate_delivery lib v) _
      (validate_delivery-IsDelivery lib v) λ d held. held
