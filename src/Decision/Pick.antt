-- ===== src/Decision/Pick.antt =====
-- The gate for the picked TODO in `run_selection` (decision/__init__.py), and the text of each refusal.
use Prim.Native.Char.{code}
use Prim.Native.String.{◌++◌ as text_append}
use todo_pipeline_orch.Prelude.{
  ℕ, String, Bool, false, not, ◌&&◌, ◌||◌, ◌==◌, nat_eq, string_eq, Option, none, some, List, [],
  ◌∷◌, contains, if◌then◌else◌,
}
use todo_pipeline_orch.Prelude.Text.{after, sort_names}
use todo_pipeline_orch.Prelude.Checked.{Checked, ok, err, ◌>>◌, require}
use todo_pipeline_orch.Prelude.Json.{Json, null, str}
use todo_pipeline_orch.Schedule.Phases.{distinct_keys}
use todo_pipeline_orch.Decision.Types.{SelectionContext, Library}

-- `\d+$`, where `$` stands before a line feed at the end too.
unfoldable pub ends_in_digits : (ℕ → Bool) → String → Bool
ends_in_digits p String.[] = false
ends_in_digits p (String.◌∷◌ c String.[]) = p (code c)
ends_in_digits p (String.◌∷◌ c (String.◌∷◌ d s)) =
    p (code c) && ((code d == 0x0a && s == "") || ends_in_digits p (String.◌∷◌ d s))

-- `_TODO_ID_RE.match`
unfoldable pub is_todo_id : (ℕ → Bool) → String → Bool
unfolding after ends_in_digits
is_todo_id p id = elim (after "TODO-" id) [ none ↦ false | some digits ↦ ends_in_digits p digits ]

-- The reasons that a pick is taken back for.
pub data Rejection : Type 0 where
  invalid_pick_shape : Json → Rejection
  pick_not_known pick_not_eligible pick_already_in_flight : String → Rejection

-- What is left of a pick.
unfoldable pub checked_pick :
    Library → SelectionContext → List String → Json → Checked Rejection (Option String)
unfolding is_todo_id contains
checked_pick lib ctx allowed null = ok none
checked_pick lib ctx allowed (str id) = do
  require (is_todo_id lib.is_decimal id) (invalid_pick_shape (str id))
  require (contains id ctx.candidate_ids) (pick_not_known id)
  require (contains id allowed) (pick_not_eligible id)
  require (not (contains id ctx.in_flight)) (pick_already_in_flight id)
  ok (some id)
checked_pick lib ctx allowed other = err (invalid_pick_shape other)

-- The `repr` of a list of ids.
unfoldable pub joined : Library → List String → String
joined lib [] = ""
joined lib (id ∷ []) = lib.repr (str id)
joined lib (id ∷ next ∷ rest) =
    text_append (lib.repr (str id)) (text_append ", " (joined lib (next ∷ rest)))

unfoldable pub list_repr : Library → List String → String
unfolding joined
list_repr lib ids = text_append "[" (text_append (joined lib ids) "]")

-- `sorted(set(ids))`
unfoldable pub sorted_set : List String → List String
unfolding sort_names distinct_keys
sorted_set ids = sort_names (distinct_keys [] ids)

-- The text of a reason.
unfoldable pub reason_text : Library → SelectionContext → List String → Rejection → String
unfolding list_repr sorted_set
reason_text lib ctx allowed (invalid_pick_shape v) =
    text_append "invalid_pick_shape: picked=" (lib.repr v)
reason_text lib ctx allowed (pick_not_known id) = text_append "pick_not_known: picked=" (
    text_append (lib.repr (str id))
      (text_append " known=" (list_repr lib (sorted_set ctx.candidate_ids))))
reason_text lib ctx allowed (pick_not_eligible id) = text_append "pick_not_eligible: picked=" (
    text_append (lib.repr (str id)) (text_append " eligible=" (list_repr lib (sorted_set allowed))))
reason_text lib ctx allowed (pick_already_in_flight id) =
    text_append "pick_already_in_flight: picked=" (lib.repr (str id))

-- `text.rstrip(" |")`
unfoldable pub strip_bars : String → String
strip_bars String.[] = String.[]
strip_bars (String.◌∷◌ c s) =
    let rest = strip_bars s in
    if rest == "" && (code c == b' ' || code c == b'|') then String.[] else String.◌∷◌ c rest
