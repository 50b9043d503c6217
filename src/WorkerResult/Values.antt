-- ===== src/WorkerResult/Values.antt =====
-- The helpers of result_contract.py that read one decoded value.
use todo_pipeline_orch.Prelude.{
  ℕ, ◌*◌, String, Bool, true, not, ◌&&◌, Option, some, [], ◌∷◌, ◌==◌, nat_eq, string_eq, list_eq,
  leb,
}
use todo_pipeline_orch.Prelude.Text.{size, every}
use todo_pipeline_orch.Prelude.Dict.{Dict, lookup}
use todo_pipeline_orch.Prelude.Int.{ℤ, int_eq}
use todo_pipeline_orch.Prelude.Checked.{Checked, ok, err, ◌>>=◌, ◌>>◌, require, present}
use todo_pipeline_orch.Prelude.Json.{
  Json, Items, Fields, int, str, arr, obj, nil, cons, end, field, dict, same_keys,
}
use todo_pipeline_orch.Plan.Manifest.{is_plain}
use todo_pipeline_orch.WorkerResult.Text.{Library, is_placeholder}
use todo_pipeline_orch.WorkerResult.Types.{
  ResultCode, size_limit, unsafe_metadata, invalid_command, key_error, CommandResult,
}

abbrev pub max_metadata_bytes : ℕ
max_metadata_bytes = 64 * 1024

-- `_mapping`
abbrev pub mapping : Option Json → ResultCode → Checked ResultCode (Dict String Json)
mapping (some (obj fs)) code = ok (dict fs)
mapping _ code = err code

-- `value[key]`
abbrev pub item : Dict String Json → String → Checked ResultCode Json
item d key = present (lookup key d) key_error

-- No control character and no secret, as `_reject_unsafe_strings` and `_bounded_string` test it.
unfoldable pub is_safe_text : Library → String → Bool
unfolding every
is_safe_text lib s = every is_plain s && not (lib.is_secret s)

-- `_reject_unsafe_strings`
unfoldable mutual
  pub is_safe : Library → Json → Bool
  is_safe lib (str s) = is_safe_text lib s
  is_safe lib (arr xs) = are_safe lib xs
  is_safe lib (obj fs) = fields_safe lib fs
  is_safe lib _ = true

  pub are_safe : Library → Items → Bool
  are_safe lib nil = true
  are_safe lib (cons x xs) = is_safe lib x && are_safe lib xs

  pub fields_safe : Library → Fields → Bool
  fields_safe lib end = true
  fields_safe lib (field k v fs) = is_safe_text lib k && is_safe lib v && fields_safe lib fs

-- `_bounded_string`
unfoldable pub bounded_string : Library → Json → ℕ → ResultCode → Checked ResultCode String
bounded_string lib (str s) maximum code = do
  require (leb (size s) maximum) size_limit
  require (not (s == "")) code
  require (is_safe_text lib s) unsafe_metadata
  require (not (is_placeholder s)) code
  ok s
bounded_string lib _ maximum code = err code

abbrev pub integer : Json → Checked ResultCode ℤ
integer (int z) = ok z
integer _ = err invalid_command

-- `_command`
unfoldable pub command : Library → Json → Checked ResultCode CommandResult
command lib value = do
  entry ← mapping (some value) invalid_command
  require (same_keys entry ("command" ∷ "exit_code" ∷ [])) invalid_command
  raw ← item entry "command"
  line ← bounded_string lib raw 500 invalid_command
  raw_exit ← item entry "exit_code"
  exit_code ← integer raw_exit
  ok (record { command = line; exit_code = exit_code })
