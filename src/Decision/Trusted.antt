-- ===== src/Decision/Trusted.antt =====
-- What of the agent's answer a decision trusts.
use todo_pipeline_orch.Prelude.{
  sym, Among, String, true, false, not, string_eq, some, List, [], ◌∷◌, ◌≡◌, ◌↔◌, refl, ap, ◌∙◌,
  contains, arith, Bool-cases, inl, inr, subst,
}
use todo_pipeline_orch.Prelude.Checked.{ok, >>=-eq-ok, require-eq-ok, Checked-cases, require}
use todo_pipeline_orch.Prelude.Json.{Json, null, str, bool, int, float, arr, obj}
use todo_pipeline_orch.Decision.Types.{
  HermesSelectionDecision, SelectionContext, AgentCall, Library,
}
use todo_pipeline_orch.Decision.Pick.{is_todo_id, checked_pick}
use todo_pipeline_orch.Decision.Selection.{
  SelectionTick, call_result, allowed_ids, kept_reasons, gated, make_decision, run_selection,
}
use todo_pipeline_orch.Decision.Store.{DecisionStore}
use todo_pipeline_orch.Decision.Recorded.{record_decision-IsRecorded}

-- A TODO that may be picked: its id has the form of one, it is a compiled candidate that the caller holds
-- eligible, and it is not in flight.
pub record IsPick (lib : Library) (ctx : SelectionContext) (allowed : List String) (id : String)
    : Type 0 where
  pub shape : is_todo_id lib.is_decimal id ≡ true
  pub known : contains id ctx.candidate_ids ≡ true
  pub eligible : contains id allowed ≡ true
  pub idle : contains id ctx.in_flight ≡ false

module _ (lib : Library) (ctx : SelectionContext) (allowed : List String) where
  checked_pick-IsPick :
      (v : Json) (id : String)
      → checked_pick lib ctx allowed v ≡ ok (some id)
      → (v ≡ str id) × IsPick lib ctx allowed id
  unfolding checked_pick
  checked_pick-IsPick (str given) id e =
      let (_, shape, e1) = >>=-eq-ok (require (is_todo_id lib.is_decimal given) _) _ e in
      let (_, known, e2) = >>=-eq-ok (require (contains given ctx.candidate_ids) _) _ e1 in
      let (_, eligible, e3) = >>=-eq-ok (require (contains given allowed) _) _ e2 in
      let (_, idle, e4) = >>=-eq-ok (require (not (contains given ctx.in_flight)) _) _ e3 in
      let same : given ≡ id = cc in
      (
        ap str same,
        subst (IsPick lib ctx allowed) same (record {
          shape = require-eq-ok _ _ shape;
          known = require-eq-ok _ _ known;
          eligible = require-eq-ok _ _ eligible;
          idle = ground (arith, require-eq-ok _ _ idle);
        }),
      )
  checked_pick-IsPick null id e = cc
  checked_pick-IsPick (bool b) id e = cc
  checked_pick-IsPick (int n) id e = cc
  checked_pick-IsPick (float n t) id e = cc
  checked_pick-IsPick (arr xs) id e = cc
  checked_pick-IsPick (obj fs) id e = cc

  IsPick-checked_pick :
      (id : String)
      → IsPick lib ctx allowed id
      → checked_pick lib ctx allowed (str id) ≡ ok (some id)
  unfolding checked_pick
  IsPick-checked_pick id p = rw (p.shape) (rw p.known (rw p.eligible (rw p.idle refl)))

entry-eq :
    {id reason i r : String}
    → ◌≡◌ {A = Json × Json} (str id, str reason) (str i, str r)
    → (id ≡ i) × (reason ≡ r)
entry-eq {id} {reason} {i} {r} e =
    let a : str id ≡ str i = ap (λ (p : Json × Json). p.0) e in
    let b : str reason ≡ str r = ap (λ (p : Json × Json). p.1) e in (cc, cc)

-- A reason is kept exactly where it was given, as a text, for an id that is allowed.
kept_reasons-Among :
    (allowed : List String) (reasons : List (Json × Json)) (id reason : String)
    → Among (id, reason) (kept_reasons allowed reasons)
      ↔ (Among (str id, str reason) reasons × (contains id allowed ≡ true))
unfolding kept_reasons
kept_reasons-Among allowed [] id reason = ((λ m. absurd m), λ (m, held). absurd m)
kept_reasons-Among allowed ((str i, str r) ∷ rest) id reason =
    let (into, back) = kept_reasons-Among allowed rest id reason in
    elim (Bool-cases (contains i allowed)) [
      | inl held ↦ rw held (
        (λ m. elim m [
          | inl e ↦
              let a : id ≡ i = ap (λ (p : String × String). p.0) e in
              let b : reason ≡ r = ap (λ (p : String × String). p.1) e in
              (
                inl (λ k. (str (a k), str (b k))),
                subst (λ x. contains x allowed ≡ true) (sym a) held,
              )
          | inr later ↦ let (given, h) = into later in (inr given, h)
        ]),
        (λ (m, h). elim m [
          | inl e ↦ let (a, b) = entry-eq e in inl (λ k. (a k, b k))
          | inr given ↦ inr (back (given, h))
        ]),
      )
      | inr out ↦ rw out (
        (λ m. let (given, h) = into m in (inr given, h)),
        (λ (m, h). elim m [
          | inl e ↦
              let (a, b) = entry-eq e in
              let held : contains i allowed ≡ true = subst (λ x. contains x allowed ≡ true) a h in
              absurd (ground (arith, held, out))
          | inr given ↦ back (given, h)
        ]),
      )
    ]
kept_reasons-Among allowed (other ∷ rest) id reason =
    let (into, back) = kept_reasons-Among allowed rest id reason in
    (
      (λ m. let (given, h) = into m in (inr given, h)),
      (λ (m, h). elim m [
        | inl e ↦
            let a = ap (λ (p : Json × Json). p.0) e in
            let b = ap (λ (p : Json × Json). p.1) e in absurd (cc)
        | inr given ↦ back (given, h)
      ]),
    )

module _ (lib : Library) (tick : SelectionTick) (ctx : SelectionContext) (call : AgentCall) where
  gated_iff :
      (id : String)
      → ((make_decision lib tick ctx call).picked ≡ some id) ↔ (
          ((call_result call).0.picked ≡ str id)
          × IsPick lib ctx (allowed_ids ctx tick.eligible_todo_ids) id)
  unfolding make_decision gated
  gated_iff id =
      let allowed = allowed_ids ctx tick.eligible_todo_ids in
      let v = (call_result call).0.picked in
      (
        (λ e. elim (Checked-cases (checked_pick lib ctx allowed v)) [
          | inl (picked, kept) ↦
              checked_pick-IsPick lib ctx allowed v id (kept ∙ ap ok (rw (kept, gated) at e))
          | inr (r, refused) ↦ let bad = (rw (refused, gated) at e) in absurd (cc)
        ]),
        (λ (given, p). rw (given, gated) (rw (IsPick-checked_pick lib ctx allowed id p) refl)),
      )

  module _ (store : DecisionStore) {d : HermesSelectionDecision} {after : DecisionStore}
      (done : run_selection lib tick ctx call store ≡ ok (d, after)) where
    decided : d ≡ make_decision lib tick ctx call
    unfolding run_selection
    decided = (record_decision-IsRecorded lib (make_decision lib tick ctx call) store done).0

    -- `run_selection` picks a TODO exactly where the agent's answer picks it, its id has the form of one, it is
    -- among the compiled candidates and, where the caller gives these, among the eligible TODOs, and it is not
    -- in flight.
    pub run_selection-IsPick :
        (id : String)
        → (d.picked ≡ some id) ↔ (
            ((call_result call).0.picked ≡ str id)
            × IsPick lib ctx (allowed_ids ctx tick.eligible_todo_ids) id)
    run_selection-IsPick id = rw decided (gated_iff id)

    -- `run_selection` keeps a reason for a TODO exactly where the agent's answer gives this text for it, and it
    -- is among the eligible TODOs or, where the caller gives none, among the compiled candidates.
    pub run_selection-reasons :
        (id reason : String)
        → Among (id, reason) d.blocked_reasons ↔ (
            Among (str id, str reason) (call_result call).0.blocked_reasons
            × (contains id (allowed_ids ctx tick.eligible_todo_ids) ≡ true))
    unfolding make_decision
    run_selection-reasons id reason = rw decided (
        kept_reasons-Among (allowed_ids ctx tick.eligible_todo_ids)
          (call_result call).0.blocked_reasons id reason)
