-- ===== src/Execution/Cgroup.antt =====
-- `_validate_legacy_cgroup` of agent_execution.py: receipts of records written by old versions.
use Prim.Native.String.{count}
use todo_pipeline_orch.Prelude.{
  ℕ, zero, suc, String, Bool, true, false, Option, none, some, List, [], ◌∷◌, ◌&&◌, ◌||◌, not, ◌≡◌,
  refl, ◌↔◌, arith, Eq, ◌==◌, nat_eq, string_eq, list_eq, option_eq, text_iff, leb, ltb,
  if◌then◌else◌, all, init, get_last?,
}
use todo_pipeline_orch.Prelude.Text.{codes}
use todo_pipeline_orch.Execution.Text.{is_digit, is_hex, is_identifier_char, is_empty}

-- A receipt of version 2 has the two further fields, together; a receipt of version 1 has neither.
pub record Cgroup : Type 0 where
  pub version : ℕ
  pub path : String
  pub device : ℕ
  pub inode : ℕ
  pub boot_id : String
  pub host : String
  pub unit : String
  pub root : Option (ℕ × ℕ)

-- What follows the prefix, if the text starts with it.
strip_prefix : List ℕ → List ℕ → Option (List ℕ)
strip_prefix [] cs = some cs
strip_prefix (p ∷ ps) [] = none
strip_prefix (p ∷ ps) (c ∷ cs) = let rest = strip_prefix ps cs in if p == c then rest else none

drop_digits : List ℕ → List ℕ
drop_digits [] = []
drop_digits (c ∷ cs) = let rest = drop_digits cs in if is_digit c then rest else c ∷ rest

-- At least one digit and then exactly `suffix`, which starts with no digit.
digits_then : List ℕ → List ℕ → Bool
unfolding drop_digits
digits_then suffix [] = false
digits_then suffix (c ∷ cs) = is_digit c && drop_digits cs == suffix

numbered : String → String → List ℕ → Bool
unfolding strip_prefix digits_then
numbered prefix suffix cs = elim (strip_prefix (codes prefix) cs) [
  | none ↦ false
  | some r ↦ digits_then (codes suffix) r
]

push : ℕ → List (List ℕ) → List (List ℕ)
push c [] = (c ∷ []) ∷ []
push c (w ∷ ws) = (c ∷ w) ∷ ws

-- `value.split('/')`
split : List ℕ → List (List ℕ)
unfolding push
split [] = [] ∷ []
split (c ∷ cs) = let rest = split cs in if c == b'/' then [] ∷ rest else push c rest

hex_scope : ℕ → List ℕ → Bool
hex_scope zero cs = cs == codes ".scope"
hex_scope (suc n) [] = false
hex_scope (suc n) (c ∷ cs) = is_hex c && hex_scope n cs

-- `tpo-[0-9a-f]{32}\.scope`
is_unit : String → Bool
unfolding strip_prefix hex_scope
is_unit unit = elim (strip_prefix (codes "tpo-") (codes unit)) [
  | none ↦ false
  | some r ↦ hex_scope 32 r
]

is_part : List ℕ → Bool
unfolding all
is_part cs = not (cs == []) && all (λ c. is_identifier_char c || c == b'@') cs

-- `/sys/fs/cgroup/user\.slice/user-[0-9]+\.slice/user@[0-9]+\.service/(?:[A-Za-z0-9_.@-]+/)*unit`
is_unit_path : String → List (List ℕ) → Bool
unfolding numbered is_part all
is_unit_path unit (root ∷ sys ∷ fs ∷ cgroup ∷ slice ∷ user ∷ service ∷ rest) =
    root == []
    && sys == codes "sys"
    && fs == codes "fs"
    && cgroup == codes "cgroup"
    && slice == codes "user.slice"
    && numbered "user-" ".slice" user
    && numbered "user@" ".service" service
    && all is_part (init rest)
    && get_last? rest == some (codes unit)
is_unit_path unit _ = false

is_root : ℕ → Option (ℕ × ℕ) → Bool
is_root version none = version == 1
is_root version (some (device, inode)) = version == 2 && ltb 0 device && ltb 0 inode

is_bounded_text : String → Bool
is_bounded_text value = not (is_empty value) && leb (count value) 256

unfoldable pub validate_legacy_cgroup : Cgroup → Bool
unfolding is_root is_unit is_unit_path is_bounded_text split all
validate_legacy_cgroup receipt =
    is_root receipt.version receipt.root
    && is_unit receipt.unit
    && all (λ part. not (part == codes ".") && not (part == codes ".."))
        (split (codes receipt.path))
    && is_unit_path receipt.unit (split (codes receipt.path))
    && ltb 0 receipt.device
    && ltb 0 receipt.inode
    && is_bounded_text receipt.boot_id
    && is_bounded_text receipt.host

abbrev scope : Cgroup
scope = record {
  version = 1;
  path =
      "/sys/fs/cgroup/user.slice/user-1000.slice/user@1000.service/app.slice/tpo-0123456789abcdef0123456789abcdef.scope";
  device = 27;
  inode = 9;
  boot_id = "b";
  host = "h";
  unit = "tpo-0123456789abcdef0123456789abcdef.scope";
  root = none;
}

validate_legacy_cgroup_accepts : validate_legacy_cgroup scope ≡ true
unfolding validate_legacy_cgroup
validate_legacy_cgroup_accepts = refl

validate_legacy_cgroup_rejects :
    (validate_legacy_cgroup (record scope { version = 2 }) ≡ false)
    × (validate_legacy_cgroup (record scope { unit = "tpo-0.scope" }) ≡ false)
unfolding validate_legacy_cgroup
validate_legacy_cgroup_rejects = (refl, refl)

abbrev root_beq : Option (ℕ × ℕ) → Option (ℕ × ℕ) → Bool
root_beq none none = true
root_beq (some (a, b)) (some (c, d)) = a == c && b == d
root_beq _ _ = false

root_beq_iff : (r s : Option (ℕ × ℕ)) → (root_beq r s ≡ true) ↔ (r ≡ s)
root_beq_iff none none = ground arith
root_beq_iff none (some s) = ground arith
root_beq_iff (some r) none = ground arith
root_beq_iff (some (a, b)) (some (c, d)) = ground arith

unfoldable pub cgroup_beq : Cgroup → Cgroup → Bool
cgroup_beq a b =
    a.version == b.version
    && a.path == b.path
    && a.device == b.device
    && a.inode == b.inode
    && a.boot_id == b.boot_id
    && a.host == b.host
    && a.unit == b.unit
    && root_beq a.root b.root

pub cgroup_beq_iff : (a b : Cgroup) → (cgroup_beq a b ≡ true) ↔ (a ≡ b)
unfolding cgroup_beq
cgroup_beq_iff a b = ground (
  arith,
  text_iff a.path b.path,
  text_iff a.boot_id b.boot_id,
  text_iff a.host b.host,
  text_iff a.unit b.unit,
  root_beq_iff a.root b.root,
)

instance abbrev pub cgroup_eq : Eq Cgroup
unfolding cgroup_beq
cgroup_eq = record { beq = cgroup_beq; beq_iff = cgroup_beq_iff }
