-- ===== src/Prelude/Checked.antt =====
-- Code that raises errors of its own, as values.
use todo_pipeline_orch.Prelude.{
  ◌⊎◌, inl, inr, Bool, true, false, Option, none, some, List, [], ◌∷◌, ◌≡◌, refl, All, subst, ap,
  suc, length,
}

pub data Checked {ℓ κ} (E : Type ℓ) (A : Type κ) : Type (ℓ ⊔ κ) where
  ok : A → Checked E A
  err : E → Checked E A

module _ {ε ℓ κ} {E : Type ε} {A : Type ℓ} {B : Type κ} where
  infixl 5 ◌>>=◌
  -- An exception skips what comes next.
  abbrev pub ◌>>=◌ : Checked E A → (A → Checked E B) → Checked E B
  err e >>= next = err e
  ok v >>= next = next v

  pub >>=-eq-ok :
      (r : Checked E A) (next : A → Checked E B) {b : B}
      → (r >>= next) ≡ ok b
      → (v : A) × (r ≡ ok v) × (next v ≡ ok b)
  >>=-eq-ok (err e) next h = cc
  >>=-eq-ok (ok v) next h = (v, refl, h)

infixl 5 ◌>>◌
-- One check after another.
abbrev pub ◌>>◌ {ε ℓ} :
    {E : Type ε} {B : Type ℓ} (check : Checked E (Unit {0})) (rest : Checked E B) → Checked E B
check >> rest = check >>= λ _. rest

module _ {ε} {E : Type ε} where
  -- `if not b: raise e`
  abbrev pub require : Bool → E → Checked E (Unit {0})
  require true e = ok tt
  require false e = err e

  pub require-eq-ok : (b : Bool) (e : E) {u : Unit {0}} → require b e ≡ ok u → b ≡ true
  require-eq-ok true e h = refl
  require-eq-ok false e h = cc

  -- What is there, or else an error.
  abbrev pub present {ℓ} : {A : Type ℓ} → Option A → E → Checked E A
  present none e = err e
  present (some a) e = ok a

  -- `tuple(f(x) for x in xs)`, where `f` may raise.
  unfoldable pub map_checked {ℓ κ} :
      {A : Type ℓ} {B : Type κ} → (A → Checked E B) → List A → Checked E (List B)
  map_checked f [] = ok []
  map_checked f (x ∷ xs) = f x >>= λ y. map_checked f xs >>= λ ys. ok (y ∷ ys)

-- `P` holds of what is returned.
abbrev pub Ensures {ε ℓ κ} : {E : Type ε} {A : Type ℓ} → (A → Type κ) → Checked E A → Type κ
Ensures P (ok a) = P a
Ensures P (err e) = Unit

pub Checked-cases {ε ℓ} :
    {E : Type ε} {A : Type ℓ} (r : Checked E A) → ((a : A) × (r ≡ ok a)) ⊎ ((e : E) × (r ≡ err e))
Checked-cases (ok a) = inl (a, refl)
Checked-cases (err e) = inr (e, refl)

pub Ensures-self {ε ℓ} : {E : Type ε} {A : Type ℓ} (r : Checked E A) → Ensures (λ a. r ≡ ok a) r
Ensures-self (ok a) = refl
Ensures-self (err e) = tt

-- A test at the end.
pub Ensures-test {ε κ} :
    {E : Type ε} (P : Unit {0} → Type κ) (b : Bool) (e : E)
    → (b ≡ true → P tt)
    → Ensures P (require b e)
Ensures-test P true e held = held refl
Ensures-test P false e held = tt

module _ {ε ℓ κ} {E : Type ε} {A : Type ℓ} (P : A → Type κ) where
  pub Ensures-eq-ok : (r : Checked E A) {a : A} → Ensures P r → r ≡ ok a → P a
  Ensures-eq-ok r held e = subst (Ensures P) e held

  pub Ensures-require :
      (b : Bool) (e : E) (r : Checked E A) → (b ≡ true → Ensures P r) → Ensures P (require b e >> r)
  Ensures-require true e r held = held refl
  Ensures-require false e r held = tt

  pub Ensures-bind {μ ν} :
      {B : Type μ} (Q : B → Type ν) (m : Checked E A) (f : A → Checked E B)
      → Ensures P m
      → ((a : A) → P a → Ensures Q (f a))
      → Ensures Q (m >>= f)
  Ensures-bind Q (ok a) f held each = each a held
  Ensures-bind Q (err e) f held each = tt

  pub Ensures-imp {ν} :
      (Q : A → Type ν) (r : Checked E A) → Ensures P r → ((a : A) → P a → Q a) → Ensures Q r
  Ensures-imp Q (ok a) held each = each a held
  Ensures-imp Q (err e) held each = tt

  pub Ensures-present :
      (o : Option A) (e : E) → ((a : A) → o ≡ some a → P a) → Ensures P (present o e)
  Ensures-present none e each = tt
  Ensures-present (some a) e each = each a refl

pub Ensures-map {ε ℓ κ μ} :
    {E : Type ε} {A : Type ℓ} {B : Type κ} (P : B → Type μ) (f : A → Checked E B)
    → ((a : A) → Ensures P (f a))
    → (xs : List A) → Ensures (λ ys. All P ys × (length ys ≡ length xs)) (map_checked f xs)
unfolding map_checked
Ensures-map P f each [] = (tt, refl)
Ensures-map P f each (x ∷ xs) = Ensures-bind P _ (f x) _ (each x) λ y held.
    Ensures-bind _ _ (map_checked f xs) _ (Ensures-map P f each xs)
      λ ys rest. ((held, rest.0), ap suc rest.1)

-- A postcondition that says nothing.
abbrev pub Anything {ℓ} : {A : Type ℓ} → A → Type 0
Anything v = Unit

pub anything {ε ℓ} : {E : Type ε} {A : Type ℓ} (r : Checked E A) → Ensures Anything r
anything (ok a) = tt
anything (err e) = tt
