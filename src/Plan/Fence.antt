-- ===== src/Plan/Fence.antt =====
-- The fenced block of a manifest (plan_manifest.py), over the lines of a document, which the regular
-- expressions take one at a time.
use Prim.Native.Char.{code}
use todo_pipeline_orch.Prelude.{
  ℕ, zero, suc, String, Bool, true, false, ◌&&◌, ◌||◌, Option, none, some, List, [], ◌∷◌, ◌==◌,
  nat_eq, string_eq, if◌then◌else◌,
}
use todo_pipeline_orch.Prelude.Text.{every, after}

abbrev pub is_blank : ℕ → Bool
is_blank c = c == 32 || c == 9

-- `[ \t]*`
unfoldable pub skip_blanks : String → String
skip_blanks String.[] = String.[]
skip_blanks (String.◌∷◌ c s) =
    let rest = skip_blanks s in if is_blank (code c) then rest else String.◌∷◌ c s

-- ` {0,n}` before a backtick.
unfoldable pub skip_spaces : ℕ → String → String
skip_spaces zero s = s
skip_spaces (suc n) String.[] = String.[]
skip_spaces (suc n) (String.◌∷◌ c s) =
    let rest = skip_spaces n s in if code c == 32 then rest else String.◌∷◌ c s

-- `[ \t]*\r?` to the end of the line.
unfoldable pub ends_with_return : String → Bool
ends_with_return String.[] = true
ends_with_return (String.◌∷◌ c s) =
    let rest = ends_with_return s in if is_blank (code c) then rest else code c == 13 && s == ""

abbrev pub marker : String
marker = "```json tpo-plan"

abbrev pub fence : String
fence = "```"

-- `_PSEUDO_MANIFEST_START_RE`
unfoldable pub is_pseudo_start : String → Bool
unfolding every skip_blanks after
is_pseudo_start line = elim (after marker (skip_blanks line)) [
  | none ↦ false
  | some rest ↦ every is_blank rest
]

-- `_MANIFEST_START_RE`
unfoldable pub is_start : String → Bool
unfolding every skip_spaces after
is_start line = elim (after marker (skip_spaces 3 line)) [
  | none ↦ false
  | some rest ↦ every is_blank rest
]

-- The first line of `_MANIFEST_RE`, and the last.
unfoldable pub opens : String → Bool
unfolding ends_with_return skip_spaces after
opens line = elim (after marker (skip_spaces 3 line)) [
  | none ↦ false
  | some rest ↦ ends_with_return rest
]

unfoldable pub closes : String → Bool
unfolding every skip_spaces after
closes line = elim (after fence (skip_spaces 3 line)) [
  | none ↦ false
  | some rest ↦ every is_blank rest
]

-- The lines before the first that closes.
unfoldable pub body_of : List String → Option (List String)
body_of [] = none
body_of (line ∷ lines) =
    let rest = body_of lines in
    if closes line then some [] else elim rest [ none ↦ none | some body ↦ some (line ∷ body) ]

-- `_MANIFEST_RE.findall(document)[0]`, where the pattern is found.
unfoldable pub first_block : List String → Option (List String)
first_block [] = none
first_block (line ∷ lines) =
    let rest = first_block lines in
    if opens line then elim (body_of lines) [ none ↦ rest | some body ↦ some body ] else rest
