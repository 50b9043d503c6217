-- ===== src/Prelude/Lists.antt =====
-- Lists measured by native numbers, under the library's names, and predicates by recursion.
use Prim.Native.Nat.{ℕ, zero, suc, ◌+◌}
use mathlib.Core.Path.{◌≡◌, refl, subst}
use mathlib.Core.Bool.{Bool, true, false, ◌&&◌, ◌||◌}
use mathlib.Core.Option.{Option, none, some}
use mathlib.Core.List.{List, [], ◌∷◌, ◌++◌}
use native.Mathlib.Omega.{arith}
use mathlib.Core.Logic.{◌≢◌, ◌⊎◌, inl, inr}
use todo_pipeline_orch.Prelude.Tests.{if◌then◌else◌, Bool-cases}

module _ {ℓ} {A : Type ℓ} where
  abbrev pub length : List A → ℕ
  length [] = 0
  length (x ∷ xs) = suc (length xs)

  pub length-append : (xs ys : List A) → length (xs ++ ys) ≡ length xs + length ys
  length-append [] ys = omega arith
  length-append (x ∷ xs) ys = omega (arith, length-append xs ys)

  abbrev pub take : ℕ → List A → List A
  take zero xs = []
  take (suc n) [] = []
  take (suc n) (x ∷ xs) = x ∷ take n xs

  -- `xs[-1]`, where there is one.
  abbrev pub get_last? : List A → Option A
  get_last? [] = none
  get_last? (x ∷ []) = some x
  get_last? (x ∷ y ∷ xs) = get_last? (y ∷ xs)

  -- Everything but the last item.
  abbrev pub init : List A → List A
  init [] = []
  init (x ∷ []) = []
  init (x ∷ y ∷ xs) = x ∷ init (y ∷ xs)

  pub get_last?-append : (xs : List A) (a : A) → get_last? (xs ++ a ∷ []) ≡ some a
  get_last?-append [] a = refl
  get_last?-append (x ∷ []) a = refl
  get_last?-append (x ∷ y ∷ xs) a = get_last?-append (y ∷ xs) a

  pub init-append : (xs : List A) (a : A) → init (xs ++ a ∷ []) ≡ xs
  init-append [] a = refl
  init-append (x ∷ []) a = refl
  init-append (x ∷ y ∷ xs) a = λ i. x ∷ init-append (y ∷ xs) a i

  -- Python's `any` and `all`.
  unfoldable pub any : (A → Bool) → List A → Bool
  any p [] = false
  any p (x ∷ xs) = p x || any p xs

  unfoldable pub all : (A → Bool) → List A → Bool
  all p [] = true
  all p (x ∷ xs) = p x && all p xs

  -- `[x for x in xs if p x]`.
  unfoldable pub filter : (A → Bool) → List A → List A
  filter p [] = []
  filter p (x ∷ xs) = let rest = filter p xs in if p x then x ∷ rest else rest

  -- `next((x for x in xs if p x), None)`.
  unfoldable pub find? : (A → Bool) → List A → Option A
  find? p [] = none
  find? p (x ∷ xs) = let rest = find? p xs in if p x then some x else rest

module _ {ℓ κ} {A : Type ℓ} (P : A → Type κ) where
  -- What holds of every item.
  abbrev pub All : (items : List A) → Type κ
  All [] = Unit
  All (item ∷ items) = P item × All items

  pub All-append : (front back : List A) → All front → All back → All (front ++ back)
  All-append [] back none_in held = held
  All-append (item ∷ front) back (first, later) held = (first, All-append front back later held)

pub All-imp {ℓ κ μ} :
    {A : Type ℓ} (P : A → Type κ) (Q : A → Type μ) (each : (a : A) → P a → Q a) (items : List A)
    → All P items
    → All Q items
All-imp P Q each [] held = tt
All-imp P Q each (item ∷ items) (first, later) = (each item first, All-imp P Q each items later)

-- What is found is in the list.
pub find?-All {ℓ κ} :
    {A : Type ℓ} (P : A → Type κ) (p : A → Bool) (items : List A) {a : A}
    → All P items
    → find? p items ≡ some a
    → P a
unfolding find?
find?-All P p [] held e = absurd (cc)
find?-All P p (item ∷ items) (first, later) e = elim (Bool-cases (p item)) [
  | inl here ↦ subst P (ground (arith, e, here)) first
  | inr past ↦ find?-All P p items later (ground (arith, e, past))
]

pub find?-true {ℓ} :
    {A : Type ℓ} (p : A → Bool) (items : List A) {a : A} → find? p items ≡ some a → p a ≡ true
unfolding find?
find?-true p [] e = absurd (cc)
find?-true p (item ∷ items) e = elim (Bool-cases (p item)) [
  | inl here ↦ subst (λ b. p b ≡ true) (ground (arith, e, here)) here
  | inr past ↦ find?-true p items (ground (arith, e, past))
]

pub find?-here {ℓ} :
    {A : Type ℓ} (p : A → Bool) (item : A) (items : List A)
    → p item ≡ true
    → find? p (item ∷ items) ≡ some item
unfolding find?
find?-here p item items here = rw here refl

pub find?-past {ℓ} :
    {A : Type ℓ} (p : A → Bool) (item : A) (items : List A)
    → p item ≡ false
    → find? p (item ∷ items) ≡ find? p items
unfolding find?
find?-past p item items past = rw past refl

pub find?-nil {ℓ} : {A : Type ℓ} (p : A → Bool) {a : A} → find? p [] ≢ some a
unfolding find?
find?-nil p e = cc

module _ {A : Type 0} where
  -- The item is in the list.
  abbrev pub Among : A → List A → Type 0
  Among a [] = ⊥
  Among a (x ∷ xs) = (a ≡ x) ⊎ Among a xs
