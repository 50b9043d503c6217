-- ===== src/Release/Apply.antt =====
-- The version, the pending changesets and `apply_release` of release_changesets.py. Versions and
-- changesets are as they are parsed, or refused by the parser, and a section of the changelog is its version
-- and its changesets.
use todo_pipeline_orch.Prelude.{
  ℕ, ◌+◌, String, Bool, true, false, Option, none, some, List, [], ◌∷◌, filter, map, not, ltb,
  if◌then◌else◌,
}

pub record Version : Type 0 where
  pub major : ℕ
  pub minor : ℕ
  pub patch : ℕ

pub data Bump : Type 0 where
  patch_bump minor_bump major_bump : Bump

-- `BUMP_ORDER`
abbrev pub bump_order : Bump → ℕ
bump_order patch_bump = 0
bump_order minor_bump = 1
bump_order major_bump = 2

pub record Changeset : Type 0 where
  pub path : String
  pub bump : Option Bump
  pub summary : String

-- `bump_version`
unfoldable pub bump_version : Version → Bump → Version
bump_version v major_bump = record { major = v.major + 1; minor = 0; patch = 0 }
bump_version v minor_bump = record { major = v.major; minor = v.minor + 1; patch = 0 }
bump_version v patch_bump = record { major = v.major; minor = v.minor; patch = v.patch + 1 }

-- `max(bumps, key=BUMP_ORDER.__getitem__)`, with the largest so far.
unfoldable pub max_bump : Bump → List Bump → Bump
max_bump best [] = best
max_bump best (b ∷ rest) = max_bump (if ltb (bump_order best) (bump_order b) then b else best) rest

-- The bumps of the items that release.
unfoldable pub bumps : List Changeset → List Bump
bumps [] = []
bumps (c ∷ rest) = let later = bumps rest in elim c.bump [ none ↦ later | some b ↦ b ∷ later ]

abbrev pub is_releasing : Changeset → Bool
is_releasing c = elim c.bump [ none ↦ false | some _ ↦ true ]

-- A file under .changeset, which `parse_changeset` reads or raises for.
pub data ChangesetFile : Type 0 where
  malformed : String → ChangesetFile
  parsed : Changeset → ChangesetFile

-- `changesets`: nothing where the parser raises.
unfoldable pub changesets : List ChangesetFile → Option (List Changeset)
changesets [] = some []
changesets (malformed path ∷ files) = none
changesets (parsed c ∷ files) = elim (changesets files) [
  | none ↦ none
  | some items ↦ some (c ∷ items)
]

-- What the release reads and writes: the version of pyproject.toml, the files of the changesets, and the
-- sections of CHANGELOG.md, the newest first.
pub record Project : Type 0 where
  pub version : Version
  pub pending : List ChangesetFile
  pub sections : List (Version × List Changeset)

-- Which steps return, and do not raise: `project_version`, the edits of pyproject.toml and of CHANGELOG.md,
-- `uv lock`, the removal of a changeset, and `check_consistency`. An edit that raises has written nothing.
pub record Outcomes : Type 0 where
  pub version_read : Bool
  pub version_edited : Bool
  pub changelog_edited : Bool
  pub locked : Bool
  pub removes : Changeset → Bool
  pub consistent : Bool

-- How `apply_release` ends: with nothing to release, at a version, or with an exception.
pub data Applied : Type 0 where
  nothing raised : Applied
  released : Version → Applied

-- `for item in items: item.path.unlink()`: whether it came to the end, and what is left.
unfoldable pub remove_all : (Changeset → Bool) → List Changeset → Bool × List Changeset
remove_all removes [] = (true, [])
remove_all removes (c ∷ rest) =
    let later = remove_all removes rest in if removes c then later else (false, c ∷ rest)

-- The removal of the changesets, and how the call ends after it.
unfoldable pub removing : Outcomes → List Changeset → Applied → Project → Applied × Project
unfolding remove_all
removing o items next p =
    let (all, left) = remove_all o.removes items in
    (if all then next else raised, record p { pending = map parsed left })

-- What follows the edits: `uv lock`, the removal, and the check of the lock file and the changelog.
unfoldable pub finish : Outcomes → Version → List Changeset → Project → Applied × Project
unfolding removing
finish o v items p =
    if o.locked
    then removing o items (if o.consistent then released v else raised) p
    else (raised, p)

-- The two edits, one after the other.
unfoldable pub release_at : Outcomes → Version → List Changeset → Project → Applied × Project
unfolding finish filter
release_at o v items p =
    if not o.version_edited
    then (raised, p)
    else if not o.changelog_edited
    then (raised, record p { version = v })
    else finish o v items
        (record p { version = v; sections = (v, filter is_releasing items) ∷ p.sections })

-- What is released of pending changesets with these bumps.
unfoldable pub release_bumps : Outcomes → List Bump → List Changeset → Project → Applied × Project
unfolding removing release_at
release_bumps o [] items p =
    removing o items (if o.version_read then released p.version else raised) p
release_bumps o (b ∷ rest) items p =
    if o.version_read
    then release_at o (bump_version p.version (max_bump b rest)) items p
    else (raised, p)

-- `apply_release`
unfoldable pub apply_release : Outcomes → Project → Applied × Project
unfolding release_bumps changesets bumps
apply_release o p = elim (changesets p.pending) [
  | none ↦ (raised, p)
  | some items ↦ elim items [
    | [] ↦ (nothing, p)
    | c ∷ cs ↦ release_bumps o (bumps (c ∷ cs)) (c ∷ cs) p
  ]
]
