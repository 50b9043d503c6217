-- ===== src/Execution/History.antt =====
-- The history of an execution: which attempts are over, and which recovery events were spent.
use todo_pipeline_orch.Prelude.{
  String, true, false, Option, none, some, List, [], ◌∷◌, ◌++◌, ◌≡◌, ◌≢◌, refl, subst, arith, ◌==◌,
  string_eq, option_eq, option_beq_iff, any, All, All-append, init, get_last?, init-append,
  Bool-cases, inl, inr, nat_eq,
}
use todo_pipeline_orch.Execution.Types.{Attempt, Approval, Record, is_settled}
use todo_pipeline_orch.Execution.Store.{clear_direct, upgrade, replace_last}

abbrev pub Settled : Attempt → Type 0
Settled a = is_settled a ≡ true

-- No attempt of the list was admitted by the event.
abbrev pub Unspent : String → List Attempt → Type 0
Unspent event attempts = All (λ (a : Attempt). a.recovery_event ≢ some event) attempts

-- The same for an event that may be missing.
abbrev pub UnspentIfAny : Option String → List Attempt → Type 0
UnspentIfAny none attempts = Unit
UnspentIfAny (some event) attempts = Unspent event attempts

abbrev pub approved_event : Option Approval → Option String
approved_event none = none
approved_event (some a) = some a.event_id

pub UnspentIfAny-some :
    (o : Option String) (attempts : List Attempt) {event : String}
    → o ≡ some event
    → UnspentIfAny o attempts
    → Unspent event attempts
UnspentIfAny-some none attempts e h = absurd (cc)
UnspentIfAny-some (some event) attempts e h = subst (λ v. Unspent v attempts) (cc) h

pub UnspentIfAny-nil : (o : Option String) → UnspentIfAny o []
UnspentIfAny-nil none = tt
UnspentIfAny-nil (some event) = tt

-- No two attempts of the list were admitted by one event.
abbrev pub EventsDistinct : List Attempt → Type 0
EventsDistinct [] = Unit
EventsDistinct (a ∷ rest) = UnspentIfAny a.recovery_event rest × EventsDistinct rest

-- Every attempt but the last is over with its cleanup confirmed, no event admitted two attempts, and
-- the approval that stands is of an event that admitted none.
pub record IsSound (r : Record) : Type 0 where
  pub past : All Settled (init r.attempts)
  pub distinct : EventsDistinct r.attempts
  pub unspent : UnspentIfAny (approved_event r.approved_recovery) r.attempts

pub All-of_init {ℓ} :
    {A : Type 0} (P : A → Type ℓ) (xs : List A) (a : A)
    → get_last? xs ≡ some a
    → All P (init xs)
    → P a
    → All P xs
All-of_init P [] a e h p = tt
All-of_init P (x ∷ []) a e h p = (subst P (ground (arith, e)) p, tt)
All-of_init P (x ∷ y ∷ xs) a e h p = (h.0, All-of_init P (y ∷ xs) a e h.1 p)

All-clear_direct :
    (P : Attempt → Type 0)
    → ((a : Attempt) → P a → P (record a { direct_processes = [] }))
    → (xs : List Attempt) → All P xs
    → All P (clear_direct xs)
All-clear_direct P k [] h = tt
All-clear_direct P k (a ∷ xs) h = (k a h.0, All-clear_direct P k xs h.1)

init-clear_direct : (xs : List Attempt) → init (clear_direct xs) ≡ clear_direct (init xs)
init-clear_direct [] = refl
init-clear_direct (a ∷ []) = refl
init-clear_direct (a ∷ b ∷ xs) =
    λ i. record a { direct_processes = [] } ∷ init-clear_direct (b ∷ xs) i

clear_direct-UnspentIfAny :
    (o : Option String) (xs : List Attempt) → UnspentIfAny o xs → UnspentIfAny o (clear_direct xs)
clear_direct-UnspentIfAny none xs u = tt
clear_direct-UnspentIfAny (some event) xs u = All-clear_direct _ (λ a h. h) xs u

clear_direct-EventsDistinct :
    (xs : List Attempt) → EventsDistinct xs → EventsDistinct (clear_direct xs)
clear_direct-EventsDistinct [] d = tt
clear_direct-EventsDistinct (a ∷ xs) d =
    (clear_direct-UnspentIfAny a.recovery_event xs d.0, clear_direct-EventsDistinct xs d.1)

pub upgrade-IsSound : (r : Record) → IsSound r → IsSound (upgrade r)
unfolding upgrade
upgrade-IsSound r h = elim (Bool-cases (r.version == 3)) [
  | inl new ↦ rw new h
  | inr old ↦ rw old (record {
    past =
        rw (init-clear_direct r.attempts)
          (All-clear_direct Settled (λ a p. p) (init r.attempts) h.past);
    distinct = clear_direct-EventsDistinct r.attempts h.distinct;
    unspent = clear_direct-UnspentIfAny (approved_event r.approved_recovery) r.attempts h.unspent;
  })
]

-- One more attempt at the end.
snoc-UnspentIfAny :
    (a new : Attempt) (xs : List Attempt) (o : Option String)
    → a.recovery_event ≡ o
    → UnspentIfAny o xs
    → UnspentIfAny new.recovery_event (a ∷ xs)
    → UnspentIfAny o (xs ++ new ∷ [])
snoc-UnspentIfAny a new xs none e u v = tt
snoc-UnspentIfAny a new xs (some event) e u v =
    All-append _ xs (new ∷ []) u
      (λ same. (UnspentIfAny-some new.recovery_event (a ∷ xs) same v).0 e, tt)

UnspentIfAny-tail :
    (o : Option String) (a : Attempt) (xs : List Attempt)
    → UnspentIfAny o (a ∷ xs)
    → UnspentIfAny o xs
UnspentIfAny-tail none a xs u = tt
UnspentIfAny-tail (some event) a xs u = u.1

pub snoc-EventsDistinct :
    (xs : List Attempt) (new : Attempt)
    → EventsDistinct xs
    → UnspentIfAny new.recovery_event xs
    → EventsDistinct (xs ++ new ∷ [])
snoc-EventsDistinct [] new d u = (UnspentIfAny-nil new.recovery_event, tt)
snoc-EventsDistinct (a ∷ xs) new d u = (
  snoc-UnspentIfAny a new xs a.recovery_event refl d.0 u,
  snoc-EventsDistinct xs new d.1 (UnspentIfAny-tail new.recovery_event a xs u),
)

-- Another last attempt that was admitted by the same event.
module _ (last new : Attempt) (same : new.recovery_event ≡ last.recovery_event) where
  pub replace_last-Unspent :
      (event : String) (xs : List Attempt)
      → get_last? xs ≡ some last
      → Unspent event xs
      → Unspent event (replace_last xs new)
  replace_last-Unspent event [] e u = cc
  replace_last-Unspent event (a ∷ []) e u = (λ p. u.0 (cc p), tt)
  replace_last-Unspent event (a ∷ b ∷ xs) e u = (u.0, replace_last-Unspent event (b ∷ xs) e u.1)

  pub replace_last-UnspentIfAny :
      (o : Option String) (xs : List Attempt)
      → get_last? xs ≡ some last
      → UnspentIfAny o xs
      → UnspentIfAny o (replace_last xs new)
  replace_last-UnspentIfAny none xs e u = tt
  replace_last-UnspentIfAny (some event) xs e u = replace_last-Unspent event xs e u

  pub replace_last-EventsDistinct :
      (xs : List Attempt)
      → get_last? xs ≡ some last
      → EventsDistinct xs
      → EventsDistinct (replace_last xs new)
  replace_last-EventsDistinct [] e d = cc
  replace_last-EventsDistinct (a ∷ []) e d = (UnspentIfAny-nil new.recovery_event, tt)
  replace_last-EventsDistinct (a ∷ b ∷ xs) e d = (
    replace_last-UnspentIfAny a.recovery_event (b ∷ xs) e d.0,
    replace_last-EventsDistinct (b ∷ xs) e d.1,
  )

  pub replace_last-IsSound :
      (r : Record)
      → get_last? r.attempts ≡ some last
      → IsSound r
      → IsSound (record r { attempts = replace_last r.attempts new })
  replace_last-IsSound r e h = record {
    past = rw (init-append (init r.attempts) new) h.past;
    distinct = replace_last-EventsDistinct r.attempts e h.distinct;
    unspent = replace_last-UnspentIfAny (approved_event r.approved_recovery) r.attempts e h.unspent;
  }

-- The code's search for a spent event.
pub Unspent-of_any :
    (event : String) (xs : List Attempt)
    → any (λ (a : Attempt). a.recovery_event == some event) xs ≡ false
    → Unspent event xs
unfolding any
Unspent-of_any event [] h = tt
Unspent-of_any event (a ∷ xs) h = (
  λ e. ground (arith, option_beq_iff a.recovery_event (some event)),
  Unspent-of_any event xs (ground arith),
)
