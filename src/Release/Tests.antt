-- ===== src/Release/Tests.antt =====
-- Runs of the release, and its theorem at concrete inputs.
use todo_pipeline_orch.Prelude.{
  ℕ, ◌==◌, string_eq, true, false, none, some, [], ◌∷◌, ◌≡◌, refl, filter,
}
use todo_pipeline_orch.Release.Apply.{
  Version, minor_bump, patch_bump, Changeset, bump_version, max_bump, bumps, Project, released,
  malformed, parsed, changesets, Outcomes, raised, remove_all, removing, finish, release_at,
  release_bumps, apply_release,
}
use todo_pipeline_orch.Release.Advance.{IsRelease, apply_release-IsRelease}

program : Unit {0}
unfolding filter bump_version max_bump bumps changesets remove_all removing finish release_at
    release_bumps apply_release
program = tt

abbrev at : ℕ → ℕ → ℕ → Version
at x y z = record { major = x; minor = y; patch = z }

abbrev first : Changeset
first = record { path = "a.md"; bump = some patch_bump; summary = "Fixed." }

abbrev empty : Changeset
empty = record { path = "b.md"; bump = none; summary = "" }

abbrev last : Changeset
last = record { path = "c.md"; bump = some minor_bump; summary = "Added." }

abbrev project : Project
project = record {
  version = at 1 2 3;
  pending = parsed first ∷ parsed empty ∷ parsed last ∷ [];
  sections = [];
}

-- Every step returns.
abbrev smooth : Outcomes
smooth = record {
  version_read = true;
  version_edited = true;
  changelog_edited = true;
  locked = true;
  removes = λ c. true;
  consistent = true;
}

released_minor : (apply_release smooth project).0 ≡ released (at 1 3 0)
unfolding program
released_minor = refl

-- `uv lock` fails, and the release is run again: a minor version is left out.
bumped_twice :
    (apply_release smooth (apply_release (record smooth { locked = false }) project).1).0
    ≡ released (at 1 4 0)
unfolding program
bumped_twice = refl

-- The second removal raises.
two_left :
    (apply_release (record smooth { removes = λ c. c.path == "a.md" }) project).1.pending
    ≡ parsed empty ∷ parsed last ∷ []
unfolding program
two_left = refl

unchanged :
    apply_release smooth (record project { pending = malformed "x.md" ∷ [] })
    ≡ (raised, record project { pending = malformed "x.md" ∷ [] })
unfolding program
unchanged = refl

apply_release-IsRelease_example : IsRelease project (apply_release smooth project)
apply_release-IsRelease_example = apply_release-IsRelease smooth project
