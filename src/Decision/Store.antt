-- ===== src/Decision/Store.antt =====
-- The files of the decisions and of their outcomes (decision/store.py), each once under its name.
use Prim.Native.String.{◌++◌ as text_append}
use todo_pipeline_orch.Prelude.{
  ℕ, ◌-◌, String, Bool, true, false, not, ◌==◌, nat_eq, string_eq, Option, none, some, List, [],
  ◌∷◌, filter, map, take, length, leb, if◌then◌else◌,
}
use todo_pipeline_orch.Prelude.Dict.{Dict, lookup, insert}
use todo_pipeline_orch.Prelude.Text.{sort_names}
use todo_pipeline_orch.Prelude.Checked.{Checked, ok, ◌>>=◌, ◌>>◌, require}
use todo_pipeline_orch.Decision.Types.{HermesSelectionDecision, Library}

-- The files of one directory: those in it, by their names, and those in its `archive`.
pub record Directory : Type 0 where
  pub hot : Dict String String
  pub archived : Dict String String

pub record DecisionStore : Type 0 where
  pub decisions : Directory
  pub outcomes : Directory

pub data StoreFault : Type 0 where
  file_exists : StoreFault

-- `out.exists()`
unfoldable pub exists : String → Dict String String → Bool
exists name files = elim (lookup name files) [ some t ↦ true | none ↦ false ]

-- `os.link(tmp, out)`, after the text is written to `tmp`.
unfoldable pub link : String → String → Dict String String → Checked StoreFault (Dict String String)
unfolding exists insert
link name payload files =
    require (not (exists name files)) file_exists >> ok (insert name payload files)

-- `_atomic_write_once`, where no other writer comes between the test and the link.
unfoldable pub atomic_write_once : String → String → Directory → Checked StoreFault Directory
unfolding exists link
atomic_write_once name payload files = do
  require (not (exists name files.hot)) file_exists
  written ← link name payload files.hot
  ok (record files { hot = written })

-- `f"{tick_id}.json"`
unfoldable pub file_name : String → String
file_name tick_id = text_append tick_id ".json"

unfoldable pub persist :
    Library → HermesSelectionDecision → DecisionStore → Checked StoreFault DecisionStore
unfolding atomic_write_once file_name
persist lib d store = do
  written ← atomic_write_once (file_name d.tick_id) (lib.to_json d) store.decisions
  ok (record store { decisions = written })

-- `append_outcome`, with the text of the outcome.
unfoldable pub append_outcome : String → String → DecisionStore → Checked StoreFault DecisionStore
unfolding atomic_write_once file_name
append_outcome tick_id payload store = do
  written ← atomic_write_once (file_name tick_id) payload store.outcomes
  ok (record store { outcomes = written })

-- `p.suffix == ".json"`, which the bare name `.json` does not have.
unfoldable pub ends_with_json : String → Bool
ends_with_json String.[] = false
ends_with_json (String.◌∷◌ c s) =
    let later = ends_with_json s in if s == ".json" then true else later

unfoldable pub listed : Dict String String → List String
unfolding ends_with_json filter
listed files = filter ends_with_json (map (λ p. p.0) files)

-- The files without those of a name.
unfoldable pub without : String → Dict String String → Dict String String
without name [] = []
without name ((n, t) ∷ files) =
    let rest = without name files in if name == n then rest else (n, t) ∷ rest

abbrev pub put_there : String → Option String → Dict String String → Dict String String
put_there name none files = files
put_there name (some t) files = insert name t files

-- `path.rename(archive / path.name)`, where there is such a file.
unfoldable pub archive_file : String → Directory → Directory
unfolding without lookup insert
archive_file name files = record {
  hot = without name files.hot;
  archived = put_there name (lookup name files.hot) files.archived;
}

unfoldable pub archive_all : List String → DecisionStore → DecisionStore
archive_all [] store = store
archive_all (name ∷ names) store = archive_all names (record {
  decisions = archive_file name store.decisions;
  outcomes = archive_file name store.outcomes;
})

-- `rotate_if_needed`, with the count that it returns.
unfoldable pub rotate_if_needed : ℕ → DecisionStore → DecisionStore × ℕ
unfolding listed sort_names archive_all
rotate_if_needed hot_cap store =
    let decs = sort_names (listed store.decisions.hot) in
    let excess = length decs - hot_cap in
    if leb (length decs) hot_cap then (store, 0) else (archive_all (take excess decs) store, excess)
