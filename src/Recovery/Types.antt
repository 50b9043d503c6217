-- ===== src/Recovery/Types.antt =====
-- The recovery intent of an execution (agent_recovery.py), one file beside its record.
use todo_pipeline_orch.Prelude.{
  ℕ, String, Bool, true, false, ◌&&◌, ◌≡◌, ◌↔◌, arith, ◌==◌, Eq, nat_eq, string_eq, text_iff,
}

pub data Mode : Type 0 where
  resume recovery_only : Mode

pub data IntentStatus : Type 0 where
  prepared approved consumed invalidated : IntentStatus

pub data Approver : Type 0 where
  operator tick : Approver

-- `preview`. The context is compared as a whole and stands as its JSON text.
pub record Preview : Type 0 where
  pub execution_id : String
  pub event_id : String
  pub generation : ℕ
  pub mode : Mode
  pub registration_sha256 : String
  pub head : String
  pub branch : String
  pub worktree : String
  pub work_sha256 : String
  pub context : String

-- A file without an approver, as operators write it, reads as the operator's with no reissues.
pub record Intent : Type 0 where
  pub status : IntentStatus
  pub approver : Approver
  pub preview : Preview
  pub reissues : ℕ

abbrev pub is_approved : IntentStatus → Bool
is_approved approved = true
is_approved _ = false

abbrev pub is_prepared : IntentStatus → Bool
is_prepared prepared = true
is_prepared _ = false

abbrev pub is_tick : Approver → Bool
is_tick tick = true
is_tick operator = false

abbrev pub is_operator : Approver → Bool
is_operator operator = true
is_operator tick = false

abbrev pub mode_beq : Mode → Mode → Bool
mode_beq resume resume = true
mode_beq recovery_only recovery_only = true
mode_beq _ _ = false

unfoldable pub preview_beq : Preview → Preview → Bool
preview_beq a b =
    a.execution_id == b.execution_id
    && a.event_id == b.event_id
    && a.generation == b.generation
    && mode_beq a.mode b.mode
    && a.registration_sha256 == b.registration_sha256
    && a.head == b.head
    && a.branch == b.branch
    && a.worktree == b.worktree
    && a.work_sha256 == b.work_sha256
    && a.context == b.context

pub preview_beq_iff : (a b : Preview) → (preview_beq a b ≡ true) ↔ (a ≡ b)
unfolding preview_beq
preview_beq_iff a b = ground (
  arith,
  text_iff a.execution_id b.execution_id,
  text_iff a.event_id b.event_id,
  text_iff a.registration_sha256 b.registration_sha256,
  text_iff a.head b.head,
  text_iff a.branch b.branch,
  text_iff a.worktree b.worktree,
  text_iff a.work_sha256 b.work_sha256,
  text_iff a.context b.context,
)

instance abbrev pub preview_eq : Eq Preview
unfolding preview_beq
preview_eq = record { beq = preview_beq; beq_iff = preview_beq_iff }
