-- ===== src/Release/Advance.antt =====
-- Which version a release comes to.
use todo_pipeline_orch.Prelude.{
  Among, ◌≤◌, ◌<◌, Bool, true, false, not, Option, none, some, List, [], ◌∷◌, ◌++◌, map, ap, ◌∙◌,
  ◌≡◌, ◌⊎◌, refl, arith, filter, All, ltb, inl, inr, if◌then◌else◌, if_ind, Bool-cases, subst, sym,
}
use todo_pipeline_orch.Release.Apply.{
  Version, Bump, patch_bump, minor_bump, major_bump, bump_order, Changeset, bump_version, max_bump,
  bumps, is_releasing, ChangesetFile, malformed, parsed, changesets, Project, Outcomes, Applied,
  nothing, raised, released, remove_all, removing, finish, release_at, apply_release, release_bumps,
}

-- The order of versions.
abbrev pub Precedes : Version → Version → Type 0
Precedes v w =
    (v.major < w.major)
    ⊎ (v.major ≡ w.major) × (v.minor < w.minor)
    ⊎ (v.major ≡ w.major) × (v.minor ≡ w.minor) × (v.patch < w.patch)

bump_version-Precedes : (v : Version) (b : Bump) → Precedes v (bump_version v b)
unfolding bump_version
bump_version-Precedes v major_bump = inl (omega arith)
bump_version-Precedes v minor_bump = inr (inl (refl, omega arith))
bump_version-Precedes v patch_bump = inr (inr (refl, refl, omega arith))

-- The bump `b` is that of the largest of `best` and these.
abbrev pub Tops : Bump → List Bump → Type 0
Tops b bs = All (λ c. bump_order c ≤ bump_order b) bs

max_bump-best : (best : Bump) (bs : List Bump) → bump_order best ≤ bump_order (max_bump best bs)
unfolding max_bump
max_bump-best best [] = omega arith
max_bump-best best (b ∷ rest) =
    if_ind (λ m. bump_order best ≤ bump_order (max_bump m rest))
      (ltb (bump_order best) (bump_order b)) (λ lt. let le = max_bump-best b rest in ground arith)
      (λ _. max_bump-best best rest)

max_bump-Tops : (best : Bump) (bs : List Bump) → Tops (max_bump best bs) bs
unfolding max_bump
max_bump-Tops best [] = tt
max_bump-Tops best (b ∷ rest) = (
  if_ind (λ m. bump_order b ≤ bump_order (max_bump m rest)) (ltb (bump_order best) (bump_order b))
      (λ _. max_bump-best b rest) (λ ge. let le = max_bump-best best rest in ground arith),
  max_bump-Tops (if ltb (bump_order best) (bump_order b) then b else best) rest,
)

max_bump-Among : (best : Bump) (bs : List Bump) → Among (max_bump best bs) (best ∷ bs)
unfolding max_bump
max_bump-Among best [] = inl refl
max_bump-Among best (b ∷ rest) =
    if_ind (λ m. Among (max_bump m rest) (best ∷ b ∷ rest)) (ltb (bump_order best) (bump_order b))
      (λ _. inr (max_bump-Among b rest))
      (λ _. elim (max_bump-Among best rest) [ inl e ↦ inl e | inr r ↦ inr (inr r) ])

-- `b` is a largest of these bumps.
abbrev pub Largest : Bump → List Bump → Type 0
Largest b bs = Among b bs × Tops b bs

-- The next version, which comes from a largest of the bumps and is later.
abbrev pub IsNext : Project → List Changeset → Version → Type 0
IsNext p items v =
    ((b : Bump) × Largest b (bumps items) × (v ≡ bump_version p.version b)) × Precedes p.version v

-- A release with a bump advances the version, and heads the changelog with its section.
abbrev pub IsAdvance : Project → List Changeset → Version → List (Version × List Changeset) → Type 0
IsAdvance p items v sections =
    IsNext p items v × (sections ≡ (v, filter is_releasing items) ∷ p.sections)

abbrev pub IsIdle : Project → List Changeset → Version → List (Version × List Changeset) → Type 0
IsIdle p items v sections = (bumps items ≡ []) × (v ≡ p.version) × (sections ≡ p.sections)

-- The files of the last of some changesets, after those before them were removed.
abbrev pub Remains : List Changeset → List ChangesetFile → Type 0
Remains items files =
    (gone : List Changeset) × (left : List Changeset) × (items ≡ gone ++ left)
    × (files ≡ map parsed left)

-- What `apply_release` leaves where it raises after something was written: the version was edited alone, or
-- it is at the removal, with both edits made where there is a bump.
abbrev pub IsPartial : Project → List Changeset → Project → Type 0
IsPartial p items p' =
    (IsNext p items p'.version × (p'.sections ≡ p.sections) × (p'.pending ≡ p.pending))
    ⊎ (IsIdle p items p'.version p'.sections ⊎ IsAdvance p items p'.version p'.sections)
      × Remains items p'.pending

-- What each end of `apply_release` leaves.
abbrev pub IsRelease : Project → Applied × Project → Type 0
IsRelease p (nothing, p') = (p.pending ≡ []) × (p' ≡ p)
IsRelease p (released v, p') =
    (items : List Changeset) × (p.pending ≡ map parsed items)
    × (p'.pending ≡ [])
    × (p'.version ≡ v)
    × (IsIdle p items v p'.sections ⊎ IsAdvance p items v p'.sections)
IsRelease p (raised, p') =
    (p' ≡ p) ⊎ (items : List Changeset) × (p.pending ≡ map parsed items) × IsPartial p items p'

remove_all-Remains :
    (removes : Changeset → Bool) (items : List Changeset)
    → (gone : List Changeset) × (items ≡ gone ++ (remove_all removes items).1)
      × ((remove_all removes items).0 ≡ true → (remove_all removes items).1 ≡ [])
unfolding remove_all
remove_all-Remains removes [] = ([], refl, λ _. refl)
remove_all-Remains removes (c ∷ rest) = elim (Bool-cases (removes c)) [
  | inl works ↦
      let (gone, split, none_left) = remove_all-Remains removes rest in
      rw works (c ∷ gone, ap (λ (l : List Changeset). c ∷ l) split, none_left)
  | inr fails ↦ rw fails ([], refl, λ e. absurd (cc))
]

changesets-eq :
    (files : List ChangesetFile) {items : List Changeset}
    → changesets files ≡ some items
    → files ≡ map parsed items
unfolding changesets
changesets-eq [] {items} e = let same : [] ≡ items = cc in ap (map parsed) same
changesets-eq (malformed path ∷ files) e = absurd (cc)
changesets-eq (parsed c ∷ files) {items} e =
    on_rest (changesets files) (λ l eq. changesets-eq files eq) e
  where
    on_rest :
        (o : Option (List Changeset))
        → ((l : List Changeset) → o ≡ some l → files ≡ map parsed l)
        → elim o as (λ _. Option (List Changeset)) [ none ↦ none | some l ↦ some (c ∷ l) ]
          ≡ some items
        → parsed c ∷ files ≡ map parsed items
    on_rest none rest h = absurd (cc)
    on_rest (some l) rest h =
        let same : c ∷ l ≡ items = cc in
        ap (λ (fs : List ChangesetFile). parsed c ∷ fs) (rest l refl) ∙ ap (map parsed) same

module _ (o : Outcomes) (p : Project) (items : List Changeset)
    (read : p.pending ≡ map parsed items) where
  removing-IsRelease :
      (v : Version) (returns : Bool) (q : Project)
      → q.version ≡ v
      → IsIdle p items q.version q.sections ⊎ IsAdvance p items q.version q.sections
      → IsRelease p (removing o items (if returns then released v else raised) q)
  unfolding removing
  removing-IsRelease v returns q at held =
      let (gone, split, none_left) = remove_all-Remains o.removes items in
      on_ends (remove_all o.removes items).0 (remove_all o.removes items).1 returns gone split
        none_left
    where
      on_ends :
          (all : Bool) (left : List Changeset) (returns : Bool) (gone : List Changeset)
          → items ≡ gone ++ left
          → (all ≡ true → left ≡ [])
          → IsRelease p (
            if all then (if returns then released v else raised) else raised,
            record q { pending = map parsed left },
          )
      on_ends true left true gone split none_left = (
        items,
        read,
        ap (map parsed) (none_left refl),
        at,
        subst (λ w. IsIdle p items w q.sections ⊎ IsAdvance p items w q.sections) at held,
      )
      on_ends true left false gone split none_left =
          inr (items, read, inr (held, (gone, left, split, refl)))
      on_ends false left returns gone split none_left =
          inr (items, read, inr (held, (gone, left, split, refl)))

  release_at-IsRelease :
      (b : Bump)
      → Largest b (bumps items)
      → IsRelease p (release_at o (bump_version p.version b) items p)
  unfolding release_at finish
  release_at-IsRelease b largest =
      let v = bump_version p.version b in
      let next : IsNext p items v = ((b, largest, refl), bump_version-Precedes p.version b) in
      if_ind (IsRelease p) (not o.version_edited) (λ _. inl refl)
        (λ _.
          if_ind (IsRelease p) (not o.changelog_edited)
            (λ _. inr (items, read, inl (next, refl, refl)))
            (λ _.
              if_ind (IsRelease p) o.locked
                (λ _.
                  removing-IsRelease v o.consistent
                    (record p {
                      version = v;
                      sections = (v, filter is_releasing items) ∷ p.sections;
                    })
                    refl (inr (next, refl)))
                (λ _. inr (items, read, inr (inr (next, refl), ([], items, refl, read))))))

  release_bumps-IsRelease :
      (bs : List Bump) → bumps items ≡ bs → IsRelease p (release_bumps o bs items p)
  unfolding release_bumps
  release_bumps-IsRelease [] e =
      removing-IsRelease p.version o.version_read p refl (inl (e, refl, refl))
  release_bumps-IsRelease (b ∷ rest) e =
      if_ind (IsRelease p) o.version_read
        (λ _. release_at-IsRelease (max_bump b rest) (
          subst (Largest (max_bump b rest)) (sym e)
            (max_bump-Among b rest, (max_bump-best b rest, max_bump-Tops b rest))))
        (λ _. inl refl)

-- `apply_release` does nothing where no changeset is pending. Otherwise, where it returns a version, every
-- changeset is well formed and none is left, and the project is at that version: where no changeset has a
-- bump, the version and the changelog stay, and else the version comes from a largest of the bumps, is later
-- than the one before, and heads the changelog with the changesets that have a bump. Where it raises, and an
-- edit that raises writes nothing, it leaves everything as it was; or that next version alone; or what a
-- release leaves, with the last of the changesets, or all or none of them, still there.
pub apply_release-IsRelease : (o : Outcomes) (p : Project) → IsRelease p (apply_release o p)
unfolding apply_release
apply_release-IsRelease o p = on_items (changesets p.pending) refl
  where
    on_items :
        (read : Option (List Changeset))
        → changesets p.pending ≡ read
        → IsRelease p (apply_release o p)
    on_items none e = rw (e, apply_release) (inl refl)
    on_items (some []) e = rw (e, apply_release) (changesets-eq p.pending e, refl)
    on_items (some (c ∷ cs)) e =
        rw (e, apply_release)
          (release_bumps-IsRelease o p (c ∷ cs) (changesets-eq p.pending e) (bumps (c ∷ cs)) refl)
