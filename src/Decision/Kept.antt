-- ===== src/Decision/Kept.antt =====
-- Where a file is found, in its directory or else in the archive, and that a rotation loses none.
use todo_pipeline_orch.Prelude.{
  ℕ, ◌-◌, String, Bool, true, false, ◌==◌, string_eq, text_iff, Option, none, some, List, [], ◌∷◌,
  ◌≡◌, refl, sym, ◌∙◌, ap, take, length, leb, if◌then◌else◌, arith, Bool-cases, Option-cases, inl,
  inr, subst,
}
use todo_pipeline_orch.Prelude.Dict.{Dict, lookup, insert, lookup-insert}
use todo_pipeline_orch.Prelude.Text.{sort_names}
use todo_pipeline_orch.Prelude.Checked.{ok, >>=-eq-ok}
use todo_pipeline_orch.Decision.Types.{HermesSelectionDecision, Library}
use todo_pipeline_orch.Decision.Store.{
  Directory, DecisionStore, exists, link, atomic_write_once, file_name, persist, listed, without,
  put_there, archive_file, archive_all, rotate_if_needed,
}

abbrev pub first_of : Option String → Option String → Option String
first_of (some t) archived = some t
first_of none archived = archived

-- The text that is found under a name: in the directory, or else in the archive.
unfoldable pub find_file : String → Directory → Option String
unfolding lookup
find_file name files = first_of (lookup name files.hot) (lookup name files.archived)

lookup-without :
    (j k : String) (d : Dict String String)
    → lookup j (without k d) ≡ (if j == k then none else lookup j d)
unfolding lookup without
lookup-without j k [] = ground arith
lookup-without j k ((i, t) ∷ d) =
    ground (arith, text_iff k i, text_iff j i, text_iff j k, lookup-without j k d)

moved-first :
    (j name : String) (here : Option String) (hot archived : Dict String String)
    → lookup name hot ≡ here
    → first_of (if j == name then none else lookup j hot) (lookup j (put_there name here archived))
      ≡ first_of (lookup j hot) (lookup j archived)
moved-first j name none hot archived e = elim (Bool-cases (j == name)) [
  | inl same ↦ rw (same, ((text_iff j name).0 same), e) refl
  | inr apart ↦ rw apart refl
]
moved-first j name (some t) hot archived e = elim (Bool-cases (j == name)) [
  | inl same ↦ rw (lookup-insert j name t archived, same, ((text_iff j name).0 same), e) refl
  | inr apart ↦ rw (lookup-insert j name t archived, apart) refl
]

find_file-archive_file :
    (j name : String) (files : Directory)
    → find_file j (archive_file name files) ≡ find_file j files
unfolding find_file archive_file
find_file-archive_file j name files =
    rw (lookup-without j name files.hot) (moved-first j name _ files.hot files.archived refl)

find_file-archive_all :
    (j : String) (names : List String) (store : DecisionStore)
    → (find_file j (archive_all names store).decisions ≡ find_file j store.decisions)
      × (find_file j (archive_all names store).outcomes ≡ find_file j store.outcomes)
unfolding archive_all
find_file-archive_all j [] store = (refl, refl)
find_file-archive_all j (name ∷ names) store =
    let (decided, ended) = find_file-archive_all j names (record {
      decisions = archive_file name store.decisions;
      outcomes = archive_file name store.outcomes;
    }) in
    (
      decided ∙ find_file-archive_file j name store.decisions,
      ended ∙ find_file-archive_file j name store.outcomes,
    )

-- A rotation loses no file: under every name, the decision and the outcome that are found, in the directory or
-- else in the archive, are those that were found before.
pub rotate_if_needed-find_file :
    (hot_cap : ℕ) (store : DecisionStore) (j : String)
    → (find_file j (rotate_if_needed hot_cap store).0.decisions ≡ find_file j store.decisions)
      × (find_file j (rotate_if_needed hot_cap store).0.outcomes ≡ find_file j store.outcomes)
unfolding rotate_if_needed
rotate_if_needed-find_file hot_cap store j =
    let decs = sort_names (listed store.decisions.hot) in
    elim (Bool-cases (leb (length decs) hot_cap)) [
      | inl few ↦ rw few (refl, refl)
      | inr many ↦ rw many (find_file-archive_all j (take (length decs - hot_cap) decs) store)
    ]

if_first :
    (b : Bool) (t : String) (hot archived : Option String)
    → first_of (if b then some t else hot) archived ≡ (if b then some t else first_of hot archived)
if_first true t hot archived = refl
if_first false t hot archived = refl

module _ (name payload : String) where
  -- What is written once was not there, and is found from then on.
  pub atomic_write_once-find_file :
      (files : Directory) {written : Directory}
      → atomic_write_once name payload files ≡ ok written
      → (lookup name files.hot ≡ none)
        × ((j : String)
            → find_file j written ≡ (if j == name then some payload else find_file j files))
  unfolding atomic_write_once link exists find_file
  atomic_write_once-find_file files {written} e = elim (Option-cases (lookup name files.hot)) [
    | inr (t, there) ↦ let bad = (rw (there, exists) at e) in absurd (cc)
    | inl fresh ↦
        let wrote = rw (fresh, exists) at e in
        let same : record { hot = insert name payload files.hot; archived = files.archived }
            ≡ written =
          cc in
        (
          fresh,
          λ j.
              subst
                (λ (w : Directory).
                  find_file j w ≡ (if j == name then some payload else find_file j files))
                same
                (rw (lookup-insert j name payload files.hot, find_file)
                  (if_first (j == name) payload _ _)),
        )
  ]

module _ (lib : Library) (d : HermesSelectionDecision) (store : DecisionStore)
    {written : DecisionStore} (done : persist lib d store ≡ ok written) where
  -- A decision that is persisted was not there, is found from then on, and nothing else changes.
  pub persist-find_file :
      (lookup (file_name d.tick_id) store.decisions.hot ≡ none)
      × ((j : String)
          → find_file j written.decisions ≡ (
              if j == file_name d.tick_id
              then some (lib.to_json d)
              else find_file j store.decisions))
      × (written.outcomes ≡ store.outcomes)
  unfolding persist
  persist-find_file =
      let (w, wrote, e) =
        >>=-eq-ok (atomic_write_once (file_name d.tick_id) (lib.to_json d) store.decisions) _
          done in
      let same : record { decisions = w; outcomes = store.outcomes } ≡ written = cc in
      let (fresh, found) =
        atomic_write_once-find_file (file_name d.tick_id) (lib.to_json d) store.decisions wrote in
      (
        fresh,
        subst
            (λ (st : DecisionStore).
              (j : String)
              → find_file j st.decisions ≡ (
                  if j == file_name d.tick_id
                  then some (lib.to_json d)
                  else find_file j store.decisions))
            same found,
        ap (λ (st : DecisionStore). st.outcomes) (sym same),
      )
