-- ===== src/Routing/Retiring.antt =====
-- What comes of retiring a phase's cards.
use todo_pipeline_orch.Prelude.{
  String, false, Option, none, some, List, ◌≡◌, refl, ◌∙◌, any, if_ind, inl, inr, Bool-cases,
  nat_eq, string_eq, option_eq,
}
use todo_pipeline_orch.Execution.Env.{Env}
use todo_pipeline_orch.Recovery.Evidence.{Evidence}
use todo_pipeline_orch.Routing.Types.{Board, Card, World, is_live}
use todo_pipeline_orch.Routing.Cards.{
  Route, wait, archive_unconfirmed, Retired, retired, live, unconfirmed, retire_cards, is_none,
  is_none,
}
use todo_pipeline_orch.Routing.Route.{after_retiring}

-- No card was created, and the run is neither blocked nor abandoned anew.
pub record Quiet (w w' : World) : Type 0 where
  pub blocked : w'.blocked ≡ w.blocked
  pub abandoned : w'.abandoned ≡ w.abandoned
  pub issued : w'.issued ≡ w.issued

pub quiet : (w : World) → Quiet w w
quiet w = record { blocked = refl; abandoned = refl; issued = refl }

pub Quiet-trans : (w w₁ w₂ : World) → Quiet w w₁ → Quiet w₁ w₂ → Quiet w w₂
Quiet-trans w w₁ w₂ p q = record {
  blocked = q.blocked ∙ p.blocked;
  abandoned = q.abandoned ∙ p.abandoned;
  issued = q.issued ∙ p.issued;
}

-- No card of the phase is live.
pub record Cleared (board : Board) : Type 0 where
  pub cards : List Card
  pub seen : board.cards ≡ some cards
  pub none_live : any is_live cards ≡ false

abbrev pub RetireEnd : Board → World → Retired × World → Type 0
RetireEnd board w (retired, w') = Quiet w w' × Cleared board
RetireEnd board w (_, w') = Quiet w w'

pub retire_cards-RetireEnd : (board : Board) (w : World) → RetireEnd board w (retire_cards board w)
unfolding retire_cards
retire_cards-RetireEnd board w = go board.cards refl
  where
    go : (c : Option (List Card)) → board.cards ≡ c → RetireEnd board w (retire_cards board w)
    go none e = rw (e, retire_cards) (quiet w)
    go (some cards) e = elim (Bool-cases (any is_live cards)) [
      | inl yes_it ↦ rw (e, retire_cards, yes_it) (quiet w)
      | inr no_it ↦
          rw (e, retire_cards, no_it)
            (if_ind (RetireEnd _ w) (is_none cards)
              (λ _. (quiet w, record { cards = cards; seen = refl; none_live = no_it }))
              (λ _.
                if_ind (RetireEnd _ w) board.archives
                  (λ _. (
                    record { blocked = refl; abandoned = refl; issued = refl },
                    record { cards = cards; seen = refl; none_live = no_it },
                  ))
                  (λ _. record { blocked = refl; abandoned = refl; issued = refl })))
    ]

module _ (env : Env) (evidence : Evidence) (board : Board) (identity key : String) where
  pub after_retiring_ind :
      (P : Route × World → Type 0) (next : World → Route × World) (w : World)
      → ((w' : World) → Quiet w w' → Cleared board → P (next w'))
      → ((w' : World) → Quiet w w' → P (wait, w'))
      → ((w' : World) → Quiet w w' → P (archive_unconfirmed, w'))
      → P (after_retiring env evidence board identity key next w)
  unfolding after_retiring
  after_retiring_ind P next w done waits raises =
      go (retire_cards board w) (retire_cards-RetireEnd board w)
    where
      go :
          (p : Retired × World)
          → RetireEnd board w p
          → P (elim p.0 [
            | retired ↦ next p.1
            | live ↦ (wait, p.1)
            | unconfirmed ↦ (archive_unconfirmed, p.1)
          ])
      go (retired, w') (q, c) = done w' q c
      go (live, w') q = waits w' q
      go (unconfirmed, w') q = raises w' q
