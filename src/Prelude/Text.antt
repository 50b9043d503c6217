-- ===== src/Prelude/Text.antt =====
-- Python's `str.strip`, and tests of every character of a text.
use Prim.Native.Char.{Char, code}
use Prim.Native.Nat.{Ordering}
use Prim.Native.String.{compare}
use todo_pipeline_orch.Prelude.{
  ℕ, suc, ◌≤◌, String, Bool, true, false, List, [], ◌∷◌, ◌&&◌, ◌||◌, ◌≡◌, refl, arith, ◌==◌, nat_eq,
  leb, ap, Bool-cases, inl, inr, if◌then◌else◌, Option, none, some,
}

-- The code points of a text.
abbrev pub codes : String → List ℕ
codes String.[] = []
codes (String.◌∷◌ c s) = code c ∷ codes s

-- `len(text)`
abbrev pub size : String → ℕ
size String.[] = 0
size (String.◌∷◌ c s) = suc (size s)

-- The characters that `str.strip` removes, which `str.isspace` holds of.
unfoldable pub is_space : ℕ → Bool
is_space c =
    (leb 9 c && leb c 13)
    || (leb 28 c && leb c 32)
    || c == 0x85
    || c == 0xa0
    || c == 0x1680
    || (leb 0x2000 c && leb c 0x200a)
    || c == 0x2028
    || c == 0x2029
    || c == 0x202f
    || c == 0x205f
    || c == 0x3000

unfoldable pub every : (ℕ → Bool) → String → Bool
every p String.[] = true
every p (String.◌∷◌ c s) = p (code c) && every p s

-- What follows a prefix.
unfoldable pub after : String → String → Option String
after String.[] s = some s
after (String.◌∷◌ c p) String.[] = none
after (String.◌∷◌ c p) (String.◌∷◌ d s) = if code c == code d then after p s else none

-- `sorted(names)`
unfoldable pub insert_name : String → List String → List String
insert_name a [] = a ∷ []
insert_name a (b ∷ rest) =
    let later = insert_name a rest in
    elim (compare a b) [ Ordering.gt ↦ b ∷ later | _ ↦ a ∷ b ∷ rest ]

unfoldable pub sort_names : List String → List String
unfolding insert_name
sort_names [] = []
sort_names (a ∷ rest) = insert_name a (sort_names rest)

-- `text.lstrip()`
unfoldable pub lstrip : String → String
lstrip String.[] = String.[]
lstrip (String.◌∷◌ c s) = let rest = lstrip s in if is_space (code c) then rest else String.◌∷◌ c s

-- A character before what is left of the rest, which may be nothing.
abbrev pub keep : Char → String → String
keep c String.[] = if is_space (code c) then String.[] else String.◌∷◌ c String.[]
keep c (String.◌∷◌ d s) = String.◌∷◌ c (String.◌∷◌ d s)

-- `text.rstrip()`
unfoldable pub rstrip : String → String
rstrip String.[] = String.[]
rstrip (String.◌∷◌ c s) = keep c (rstrip s)

unfoldable pub strip : String → String
strip s = rstrip (lstrip s)

size-keep : (c : Char) (s : String) → size (keep c s) ≤ suc (size s)
size-keep c String.[] = elim (Bool-cases (is_space (code c))) [
  | inl e ↦ rw e (omega arith)
  | inr e ↦ rw e (omega arith)
]
size-keep c (String.◌∷◌ d s) = omega arith

size-rstrip : (s : String) → size (rstrip s) ≤ size s
unfolding rstrip
size-rstrip String.[] = omega arith
size-rstrip (String.◌∷◌ c s) = omega (arith, size-keep c (rstrip s), size-rstrip s)

size-lstrip : (s : String) → size (lstrip s) ≤ size s
unfolding lstrip
size-lstrip String.[] = omega arith
size-lstrip (String.◌∷◌ c s) = elim (Bool-cases (is_space (code c))) [
  | inl e ↦ rw e (omega (arith, size-lstrip s))
  | inr e ↦ rw e (omega arith)
]

pub size-strip : (s : String) → size (strip s) ≤ size s
unfolding strip
size-strip s = omega (arith, size-rstrip (lstrip s), size-lstrip s)

module _ (p : ℕ → Bool) where
  every-keep :
      (c : Char) (s : String) → p (code c) ≡ true → every p s ≡ true → every p (keep c s) ≡ true
  unfolding every
  every-keep c String.[] h held = elim (Bool-cases (is_space (code c))) [
    | inl e ↦ rw e refl
    | inr e ↦ rw e (rw h refl)
  ]
  every-keep c (String.◌∷◌ d s) h held = rw h held

  every-rstrip : (s : String) → every p s ≡ true → every p (rstrip s) ≡ true
  unfolding every rstrip
  every-rstrip String.[] h = refl
  every-rstrip (String.◌∷◌ c s) h =
      every-keep c (rstrip s) (ground (arith, h)) (every-rstrip s (ground (arith, h)))

  every-lstrip : (s : String) → every p s ≡ true → every p (lstrip s) ≡ true
  unfolding every lstrip
  every-lstrip String.[] h = refl
  every-lstrip (String.◌∷◌ c s) h = elim (Bool-cases (is_space (code c))) [
    | inl e ↦ rw e (every-lstrip s (ground (arith, h)))
    | inr e ↦ rw e h
  ]

  pub every-strip : (s : String) → every p s ≡ true → every p (strip s) ≡ true
  unfolding strip
  every-strip s h = every-rstrip (lstrip s) (every-lstrip s h)

rstrip-keep : (c : Char) (s : String) → rstrip s ≡ s → rstrip (keep c s) ≡ keep c s
unfolding rstrip
rstrip-keep c String.[] e = elim (Bool-cases (is_space (code c))) [
  | inl h ↦ rw h refl
  | inr h ↦ rw h (rw h refl)
]
rstrip-keep c (String.◌∷◌ d s) e = rw e refl

rstrip_idem : (s : String) → rstrip (rstrip s) ≡ rstrip s
unfolding rstrip
rstrip_idem String.[] = refl
rstrip_idem (String.◌∷◌ c s) = rstrip-keep c (rstrip s) (rstrip_idem s)

lstrip-starts :
    (c : Char) (s : String) → lstrip (String.◌∷◌ c s) ≡ String.◌∷◌ c s → is_space (code c) ≡ false
unfolding lstrip
lstrip-starts c s e = elim (Bool-cases (is_space (code c))) [
  | inl h ↦ absurd (omega (arith, ap size (rw h at e), size-lstrip s))
  | inr h ↦ h
]

lstrip-keep : (c : Char) (s : String) → is_space (code c) ≡ false → lstrip (keep c s) ≡ keep c s
unfolding lstrip
lstrip-keep c String.[] h = rw h (rw h refl)
lstrip-keep c (String.◌∷◌ d s) h = rw h refl

lstrip-rstrip : (s : String) → lstrip s ≡ s → lstrip (rstrip s) ≡ rstrip s
unfolding rstrip
lstrip-rstrip String.[] e = e
lstrip-rstrip (String.◌∷◌ c s) e = lstrip-keep c (rstrip s) (lstrip-starts c s e)

lstrip_idem : (s : String) → lstrip (lstrip s) ≡ lstrip s
unfolding lstrip
lstrip_idem String.[] = refl
lstrip_idem (String.◌∷◌ c s) = elim (Bool-cases (is_space (code c))) [
  | inl h ↦ rw h (lstrip_idem s)
  | inr h ↦ rw h (rw h refl)
]

pub strip_idem : (s : String) → strip (strip s) ≡ strip s
unfolding strip
strip_idem s = rw (lstrip-rstrip (lstrip s) (lstrip_idem s)) (rstrip_idem (lstrip s))
