-- ===== src/Prelude/Json.antt =====
-- JSON as Python decodes it, and the tests of its types and keys.
use todo_pipeline_orch.Prelude.{
  String, Bool, Option, List, [], ◌∷◌, ◌&&◌, ◌≡◌, refl, ap, string_eq, contains, map, all, All,
  length, suc,
}
use todo_pipeline_orch.Prelude.Dict.{Dict}
use todo_pipeline_orch.Prelude.Int.{ℤ}
use todo_pipeline_orch.Prelude.Checked.{Checked, ok, map_checked}

mutual
  -- A float has the integer that it equals, where there is one, and its text.
  pub data Json : Type 0 where
    null : Json
    bool : Bool → Json
    int : ℤ → Json
    float : Option ℤ → String → Json
    str : String → Json
    arr : Items → Json
    obj : Fields → Json

  pub data Items : Type 0 where
    nil : Items
    cons : Json → Items → Items

  pub data Fields : Type 0 where
    end : Fields
    field : String → Json → Fields → Fields

abbrev pub items : Items → List Json
items nil = []
items (cons x xs) = x ∷ items xs

abbrev pub array : List Json → Items
array [] = nil
array (x ∷ xs) = cons x (array xs)

abbrev pub dict : Fields → Dict String Json
dict end = []
dict (field k v fs) = (k, v) ∷ dict fs

pub items-array : (xs : List Json) → items (array xs) ≡ xs
items-array [] = refl
items-array (x ∷ xs) = ap (λ (l : List Json). x ∷ l) (items-array xs)

-- `set(d)`
abbrev pub keys : Dict String Json → List String
keys d = map (λ p. p.0) d

-- `set(d) == set(expected)`
unfoldable pub same_keys : Dict String Json → List String → Bool
unfolding contains all
same_keys d expected =
    all (λ k. contains k expected) (keys d) && all (λ k. contains k (keys d)) expected

-- A list that is written item by item, and what reads each item back.
module _ {ε ℓ κ} {E : Type ε} {A : Type ℓ} (f : A → Json) (g : Json → Checked E A)
    (P : A → Type κ) where
  pub map_checked-map :
      (back : (a : A) → P a → g (f a) ≡ ok a) (xs : List A)
      → All P xs
      → map_checked g (items (array (map f xs))) ≡ ok xs
  unfolding map_checked
  map_checked-map back [] held = refl
  map_checked-map back (x ∷ xs) (first, later) =
      rw (back x first) (rw (map_checked-map back xs later) refl)

pub length-array {ℓ} :
    {A : Type ℓ} (f : A → Json) (xs : List A) → length (items (array (map f xs))) ≡ length xs
length-array f [] = refl
length-array f (x ∷ xs) = ap suc (length-array f xs)
