-- ===== src/Execution/Text.antt =====
-- The regular expressions of agent_execution.py, as tests on code points.
use todo_pipeline_orch.Prelude.Text.{codes}
use todo_pipeline_orch.Prelude.{
  ℕ, String, Bool, true, false, List, [], ◌∷◌, ◌&&◌, ◌||◌, ◌≡◌, refl, ◌==◌, nat_eq, string_eq, leb,
  length, all,
}

-- `[0-9]`
abbrev pub is_digit : ℕ → Bool
is_digit c = leb b'0' c && leb c b'9'

-- `[0-9a-f]`
abbrev pub is_hex : ℕ → Bool
is_hex c = is_digit c || (leb b'a' c && leb c b'f')

-- `[A-Za-z0-9]`
abbrev pub is_alnum : ℕ → Bool
is_alnum c = is_digit c || (leb b'a' c && leb c b'z') || (leb b'A' c && leb c b'Z')

-- `[A-Za-z0-9_.-]`
abbrev pub is_identifier_char : ℕ → Bool
is_identifier_char c = is_alnum c || c == b'_' || c == b'.' || c == b'-'

is_identifier_codes : List ℕ → Bool
unfolding all
is_identifier_codes [] = false
is_identifier_codes (c ∷ cs) = is_alnum c && all is_identifier_char cs && leb (length cs) 127

-- `_identifier`: the whole text matches `[A-Za-z0-9][A-Za-z0-9_.-]{0,127}`.
unfoldable pub is_identifier : String → Bool
unfolding is_identifier_codes
is_identifier value = is_identifier_codes (codes value)

-- `[0-9a-f]{64}`
unfoldable pub is_sha256 : String → Bool
unfolding all
is_sha256 value = length (codes value) == 64 && all is_hex (codes value)

-- `not value`
abbrev pub is_empty : String → Bool
is_empty value = value == ""

is_identifier_accepts : is_identifier "exec-1.a" ≡ true
unfolding is_identifier
is_identifier_accepts = refl
