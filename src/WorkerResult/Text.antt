-- ===== src/WorkerResult/Text.antt =====
-- The tests of texts and of decoded values in result_contract.py.
use Prim.Native.Char.{code}
use todo_pipeline_orch.Prelude.{
  ℕ, ◌+◌, String, Bool, true, false, not, ◌&&◌, ◌||◌, Option, none, some, ◌==◌, nat_eq, string_eq,
  if◌then◌else◌,
}
use todo_pipeline_orch.Prelude.Text.{size, every, after}
use todo_pipeline_orch.Prelude.Int.{pos, int_eq}
use todo_pipeline_orch.Prelude.Json.{Json, bool, int, float, str, arr, obj}
use todo_pipeline_orch.Execution.Text.{is_hex, is_identifier_char}

-- What Python's library answers: `SECRET_RE.search`, `\d` of its regular expressions, and the length of
-- `json.dumps(value, ...).encode()`, which raises for a lone surrogate.
pub record Library : Type 0 where
  pub is_secret : String → Bool
  pub is_decimal : ℕ → Bool
  pub encoded_size : Json → Option ℕ

-- `_SHA_RE`
unfoldable pub is_sha : String → Bool
unfolding every
is_sha s = size s == 40 && every is_hex s

-- What follows the `<` of `_PLACEHOLDER_RE`.
unfoldable pub closes_bracket : String → Bool
closes_bracket String.[] = false
closes_bracket (String.◌∷◌ c String.[]) = code c == b'>'
closes_bracket (String.◌∷◌ c (String.◌∷◌ d s)) =
    not (code c == b'<' || code c == b'>') && closes_bracket (String.◌∷◌ d s)

-- `_PLACEHOLDER_RE.fullmatch`
unfoldable pub is_placeholder : String → Bool
unfolding closes_bracket
is_placeholder String.[] = false
is_placeholder (String.◌∷◌ c s) = code c == b'<' && closes_bracket s

-- `PurePosixPath(name).is_absolute()`
unfoldable pub is_absolute : String → Bool
is_absolute String.[] = false
is_absolute (String.◌∷◌ c s) = code c == b'/'

-- Whether a part of a path is `..`: `n` characters of the part that goes on are read, and `dots` says
-- that these are all dots.
unfoldable pub has_parent : ℕ → Bool → String → Bool
has_parent n dots String.[] = n == 2 && dots
has_parent n dots (String.◌∷◌ c s) =
    let ends = code c == b'/' in
    (ends && n == 2 && dots)
    || has_parent (if ends then 0 else n + 1) (ends || (dots && code c == b'.')) s

unfoldable pub has_backslash : String → Bool
has_backslash String.[] = false
has_backslash (String.◌∷◌ c s) = code c == 0x5c || has_backslash s

-- What follows one character or more of a class.
unfoldable pub after_some : (ℕ → Bool) → String → Option String
after_some p String.[] = none
after_some p (String.◌∷◌ c String.[]) = if p (code c) then some String.[] else none
after_some p (String.◌∷◌ c (String.◌∷◌ d s)) =
    let rest = after_some p (String.◌∷◌ d s) in
    if p (code c) then (if p (code d) then rest else some (String.◌∷◌ d s)) else none

abbrev pub then_skip : Option String → (String → Option String) → Option String
then_skip none f = none
then_skip (some s) f = f s

-- `https://github\.com/[A-Za-z0-9_.-]+/[A-Za-z0-9_.-]+/pull/\d+`
unfoldable pub is_pull_url : (ℕ → Bool) → String → Bool
unfolding after after_some
is_pull_url is_decimal url =
    let owner = then_skip (after "https://github.com/" url) (after_some is_identifier_char) in
    let repo = then_skip (then_skip owner (after "/")) (after_some is_identifier_char) in
    let number = then_skip (then_skip repo (after "/pull/")) (after_some is_decimal) in
    elim number [ none ↦ false | some rest ↦ rest == "" ]

-- `value == n`, where a Boolean is a number.
abbrev pub equals_number : Json → ℕ → Bool
equals_number (int z) n = z == pos n
equals_number (float (some z) t) n = z == pos n
equals_number (bool true) n = n == 1
equals_number (bool false) n = n == 0
equals_number _ n = false

-- `value == text`
abbrev pub equals_text : Json → String → Bool
equals_text (str s) t = s == t
equals_text _ t = false

-- Whether a set can hold the value.
abbrev pub is_hashable : Json → Bool
is_hashable (arr xs) = false
is_hashable (obj fs) = false
is_hashable _ = true
