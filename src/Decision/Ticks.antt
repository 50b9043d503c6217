-- ===== src/Decision/Ticks.antt =====
-- The operations on the files of the decisions, in any order (decision/).
use todo_pipeline_orch.Prelude.{
  String, Bool, false, ◌==◌, string_eq, List, [], ◌∷◌, ◌≡◌, refl, ◌∙◌, any, arith, inl, inr, ap,
}
use todo_pipeline_orch.Prelude.Dict.{Dict}
use todo_pipeline_orch.Prelude.Checked.{Checked, ok, err, Checked-cases}
use todo_pipeline_orch.Decision.Types.{
  HermesSelectionDecision, SelectionContext, AgentCall, Library,
}
use todo_pipeline_orch.Decision.Store.{
  DecisionStore, StoreFault, file_name, append_outcome, atomic_write_once,
}
use todo_pipeline_orch.Decision.Kept.{find_file}
use todo_pipeline_orch.Decision.Recorded.{record_decision-IsRecorded}
use todo_pipeline_orch.Decision.Selection.{
  SelectionTick, make_decision, record_decision, run_selection, record_no_candidates,
  record_tracker_error,
}

-- The functions that write: the three that record a decision, and `append_outcome`.
pub data DecisionCall : Type 0 where
  select : SelectionTick → SelectionContext → AgentCall → DecisionCall
  no_candidates : SelectionTick → SelectionContext → Dict String String → DecisionCall
  tracker_error : (tick_id now code : String) → DecisionCall
  outcome : (tick_id payload : String) → DecisionCall

-- The store after a function returns; one that raises changes nothing.
abbrev pub stored :
    DecisionStore → Checked StoreFault (HermesSelectionDecision × DecisionStore) → DecisionStore
stored before (ok (d, after)) = after
stored before (err e) = before

abbrev pub stored_outcome : DecisionStore → Checked StoreFault DecisionStore → DecisionStore
stored_outcome before (ok after) = after
stored_outcome before (err e) = before

unfoldable pub operate : Library → DecisionCall → DecisionStore → DecisionStore
unfolding run_selection record_no_candidates record_tracker_error append_outcome
operate lib (select tick ctx call) store = stored store (run_selection lib tick ctx call store)
operate lib (no_candidates tick ctx reasons) store =
    stored store (record_no_candidates lib tick ctx reasons store)
operate lib (tracker_error id now code) store =
    stored store (record_tracker_error lib id now code store)
operate lib (outcome id payload) store = stored_outcome store (append_outcome id payload store)

unfoldable pub operate_all : Library → List DecisionCall → DecisionStore → DecisionStore
unfolding operate
operate_all lib [] store = store
operate_all lib (op ∷ ops) store = operate_all lib ops (operate lib op store)

-- Whether an operation decides for the tick of a file.
abbrev pub decides : String → DecisionCall → Bool
decides name (select tick ctx call) = name == file_name tick.tick_id
decides name (no_candidates tick ctx reasons) = name == file_name tick.tick_id
decides name (tracker_error id now code) = name == file_name id
decides name (outcome id payload) = false

module _ (lib : Library) (name : String) where
  stored-find_file :
      (d : HermesSelectionDecision) (store : DecisionStore)
      → (name == file_name d.tick_id) ≡ false
      → find_file name (stored store (record_decision lib d store)).decisions
        ≡ find_file name store.decisions
  stored-find_file d store apart = elim (Checked-cases (record_decision lib d store)) [
    | inr (e, failed) ↦ rw failed refl
    | inl ((given, after), done) ↦
        rw done ((record_decision-IsRecorded lib d store done).1.decided name ∙ rw apart refl)
  ]

  append_outcome-decisions :
      (id payload : String) (store : DecisionStore)
      → (stored_outcome store (append_outcome id payload store)).decisions ≡ store.decisions
  unfolding append_outcome
  append_outcome-decisions id payload store =
      elim (Checked-cases (atomic_write_once (file_name id) payload store.outcomes)) [
        | inr (e, failed) ↦ rw (failed, append_outcome) refl
        | inl (w, done) ↦ rw (done, append_outcome) refl
      ]

  operate-find_file :
      (op : DecisionCall) (store : DecisionStore)
      → decides name op ≡ false
      → find_file name (operate lib op store).decisions ≡ find_file name store.decisions
  unfolding operate run_selection record_no_candidates record_tracker_error make_decision
  operate-find_file (select tick ctx call) store apart =
      stored-find_file (make_decision lib tick ctx call) store apart
  operate-find_file (no_candidates tick ctx reasons) store apart = stored-find_file _ store apart
  operate-find_file (tracker_error id now code) store apart = stored-find_file _ store apart
  operate-find_file (outcome id payload) store apart =
      ap (find_file name) (append_outcome-decisions id payload store)

  -- The decision of a tick that is found stays, whatever is decided for other ticks, whatever outcomes are
  -- appended, and however often the files are rotated.
  pub operate_all-find_file :
      (ops : List DecisionCall) (store : DecisionStore)
      → any (decides name) ops ≡ false
      → find_file name (operate_all lib ops store).decisions ≡ find_file name store.decisions
  unfolding operate_all any
  operate_all-find_file [] store apart = refl
  operate_all-find_file (op ∷ ops) store apart =
      operate_all-find_file ops (operate lib op store) (ground (arith, apart))
      ∙ operate-find_file op store (ground (arith, apart))
