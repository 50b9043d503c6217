-- ===== src/Decision/Rotated.antt =====
-- How many decisions a rotation leaves in the directory.
use todo_pipeline_orch.Prelude.{
  ℕ, zero, suc, ◌-◌, ◌+◌, ◌≤◌, String, Bool, true, not, ◌==◌, ◌&&◌, string_eq, ==_refl, List, [],
  ◌∷◌, ◌++◌, ◌≡◌, refl, sym, ◌∙◌, ap, take, length, leb, map, filter, contains, if◌then◌else◌,
  arith, Bool-cases, inl, inr, subst, text_iff,
}
use todo_pipeline_orch.Prelude.Dict.{Dict}
use todo_pipeline_orch.Prelude.Text.{sort_names, insert_name}
use todo_pipeline_orch.Decision.Store.{
  DecisionStore, listed, without, archive_file, archive_all, rotate_if_needed, ends_with_json,
}

module _ {A : Type 0} where
  -- How many items a test holds of.
  unfoldable pub count : (A → Bool) → List A → ℕ
  count p [] = 0
  count p (x ∷ xs) = if p x then suc (count p xs) else count p xs

  length-filter : (p : A → Bool) (xs : List A) → length (filter p xs) ≡ count p xs
  unfolding filter count
  length-filter p [] = refl
  length-filter p (x ∷ xs) = ground (arith, length-filter p xs)

  count-filter : (p q : A → Bool) (xs : List A) → count q (filter p xs) ≡ count (λ x. p x && q x) xs
  unfolding filter count
  count-filter p q [] = refl
  count-filter p q (x ∷ xs) = ground (arith, count-filter p q xs)

  count-append : (p : A → Bool) (xs ys : List A) → count p (xs ++ ys) ≡ count p xs + count p ys
  unfolding count
  count-append p [] ys = omega arith
  count-append p (x ∷ xs) ys = ground (arith, count-append p xs ys)

  count-length : (p : A → Bool) (xs : List A) → count p xs ≤ length xs
  unfolding count
  count-length p [] = omega arith
  count-length p (x ∷ xs) = ground (arith, count-length p xs)

module _ {A : Type 0} where
  count-ext : (p q : A → Bool) (xs : List A) → ((x : A) → p x ≡ q x) → count p xs ≡ count q xs
  unfolding count
  count-ext p q [] same = refl
  count-ext p q (x ∷ xs) same = ground (arith, same x, count-ext p q xs same)

  abbrev drop : ℕ → List A → List A
  drop zero xs = xs
  drop (suc n) [] = []
  drop (suc n) (x ∷ xs) = drop n xs

  take-drop : (n : ℕ) (xs : List A) → take n xs ++ drop n xs ≡ xs
  take-drop zero xs = refl
  take-drop (suc n) [] = refl
  take-drop (suc n) (x ∷ xs) = ap (λ (l : List A). x ∷ l) (take-drop n xs)

  length-drop : (n : ℕ) (xs : List A) → length (drop n xs) ≡ length xs - n
  length-drop zero xs = omega arith
  length-drop (suc n) [] = omega arith
  length-drop (suc n) (x ∷ xs) = omega (arith, length-drop n xs)

count-insert_name :
    (p : String → Bool) (a : String) (l : List String) → count p (insert_name a l) ≡ count p (a ∷ l)
unfolding count insert_name
count-insert_name p a [] = refl
count-insert_name p a (b ∷ l) = ground (arith, count-insert_name p a l)

count-sort_names : (p : String → Bool) (l : List String) → count p (sort_names l) ≡ count p l
unfolding count sort_names
count-sort_names p [] = refl
count-sort_names p (a ∷ l) =
    ground (arith, count-insert_name p a (sort_names l), count-sort_names p l)

count-without :
    (p : String → Bool) (name : String) (files : Dict String String)
    → count p (map (λ p. p.0) (without name files))
      ≡ count (λ n. not (n == name) && p n) (map (λ p. p.0) files)
unfolding count without
count-without p name [] = refl
count-without p name ((n, t) ∷ files) =
    ground (arith, text_iff name n, text_iff n name, count-without p name files)

-- No item of a list is outside a list that has them all.
count-inside :
    (big xs : List String)
    → ((n : String) → contains n xs ≡ true → contains n big ≡ true)
    → count (λ n. not (contains n big)) xs ≡ 0
unfolding count contains
count-inside big [] held = refl
count-inside big (x ∷ xs) held =
    let here : contains x big ≡ true = held x (rw (==_refl x) refl) in
    rw here (count-inside big xs (λ n e. held n (ground (arith, e))))

count-outside :
    (k : ℕ) (s : List String) → count (λ n. not (contains n (take k s))) s ≤ length s - k
count-outside k s =
    let q : String → Bool = λ n. not (contains n (take k s)) in
    let whole : count q s ≡ count q (take k s) + count q (drop k s) =
      subst (λ l. count q l ≡ count q (take k s) + count q (drop k s)) (take-drop k s)
        (count-append q (take k s) (drop k s)) in
    omega (
      arith,
      whole,
      count-inside (take k s) (take k s) (λ n e. e),
      count-length q (drop k s),
      length-drop k s,
    )

count-archive_all :
    (p : String → Bool) (names : List String) (store : DecisionStore)
    → count p (map (λ p. p.0) (archive_all names store).decisions.hot)
      ≡ count (λ n. not (contains n names) && p n) (map (λ p. p.0) store.decisions.hot)
unfolding archive_all archive_file contains
count-archive_all p [] store = refl
count-archive_all p (name ∷ names) store =
    count-archive_all p names (record {
      decisions = archive_file name store.decisions;
      outcomes = archive_file name store.outcomes;
    })
    ∙ count-without (λ n. not (contains n names) && p n) name store.decisions.hot
    ∙ count-ext _ _ (map (λ p. p.0) store.decisions.hot) (λ n. ground arith)

listed-archive_all :
    (names : List String) (store : DecisionStore)
    → length (listed (archive_all names store).decisions.hot)
      ≡ count (λ n. not (contains n names)) (sort_names (listed store.decisions.hot))
unfolding listed
listed-archive_all names store =
    let q : String → Bool = λ n. not (contains n names) in
    let all_names = map (λ p. p.0) store.decisions.hot in
    length-filter ends_with_json _
    ∙ count-archive_all ends_with_json names store
    ∙ count-ext _ (λ n. ends_with_json n && q n) all_names (λ n. ground arith)
    ∙ sym (count-filter ends_with_json q all_names)
    ∙ sym (count-sort_names q (listed store.decisions.hot))

length-insert_name : (a : String) (l : List String) → length (insert_name a l) ≡ suc (length l)
unfolding insert_name
length-insert_name a [] = refl
length-insert_name a (b ∷ l) = ground (arith, length-insert_name a l)

length-sort_names : (l : List String) → length (sort_names l) ≡ length l
unfolding sort_names
length-sort_names [] = refl
length-sort_names (a ∷ l) = omega (arith, length-insert_name a (sort_names l), length-sort_names l)

-- `rotate_if_needed` leaves at most `hot_cap` decisions in the directory.
pub rotate_if_needed-bound :
    (hot_cap : ℕ) (store : DecisionStore)
    → length (listed (rotate_if_needed hot_cap store).0.decisions.hot) ≤ hot_cap
unfolding rotate_if_needed
rotate_if_needed-bound hot_cap store =
    let decs = sort_names (listed store.decisions.hot) in
    elim (Bool-cases (leb (length decs) hot_cap)) [
      | inl few ↦ rw few (ground (arith, few, length-sort_names (listed store.decisions.hot)))
      | inr many ↦ rw many (
          let k = length decs - hot_cap in
          let left : count (λ n. not (contains n (take k decs))) decs ≤ length decs - k =
            count-outside k decs in
          let over : hot_cap ≤ length decs = ground (arith, many) in
          omega (arith, over, listed-archive_all (take k decs) store, left))
    ]
