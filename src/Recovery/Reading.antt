-- ===== src/Recovery/Reading.antt =====
-- What `read_optional` finds, after a write and without one.
use todo_pipeline_orch.Prelude.{
  String, true, Option, none, some, ◌≡◌, refl, arith, string_eq, ==_refl, inl, inr, Bool-cases,
}
use todo_pipeline_orch.Prelude.Dict.{lookup, lookup-insert}
use todo_pipeline_orch.Effects.{ok}
use todo_pipeline_orch.Execution.Env.{Env}
use todo_pipeline_orch.Execution.Text.{is_identifier}
use todo_pipeline_orch.Execution.Store.{Store, File, garbage, holds, load}
use todo_pipeline_orch.Recovery.Types.{Intent}
use todo_pipeline_orch.Recovery.Intents.{is_intent, read_file, read_optional, write_intent}

pub record IsRead (id : String) (s : Store) (i : Intent) : Type 0 where
  pub named : is_identifier id ≡ true
  pub stored : lookup id s.intents ≡ some (holds i)
  pub valid : is_intent id i ≡ true

read_file-eq-some :
    (id : String) (file : Option (File Intent)) {i : Intent}
    → read_file id file ≡ ok (some i)
    → (file ≡ some (holds i)) × (is_intent id i ≡ true)
unfolding read_file
read_file-eq-some id none e = cc
read_file-eq-some id (some garbage) e = cc
read_file-eq-some id (some (holds j)) e = elim (Bool-cases (is_intent id j)) [
  | inl good ↦ (ground (arith, e, good), ground (arith, e, good))
  | inr bad ↦ absurd (ground (arith, e, bad))
]

pub read_optional-IsRead :
    (id : String) (s : Store) {i : Intent} → read_optional id s ≡ ok (some i) → IsRead id s i
unfolding read_optional
read_optional-IsRead id s e = elim (Bool-cases (is_identifier id)) [
  | inl named ↦
      let (stored, valid) = read_file-eq-some id (lookup id s.intents) (rw named at e) in
      record { named = named; stored = stored; valid = valid }
  | inr other ↦ absurd (ground (arith, e, other))
]

pub read_optional-write_intent :
    {A : Type 0} (id : String) (i : Intent) (v : A) (s : Store)
    → is_identifier id ≡ true
    → is_intent id i ≡ true
    → read_optional id (write_intent id i v s).1 ≡ ok (some i)
unfolding read_optional read_file write_intent
read_optional-write_intent id i v s named valid =
    ground (arith, named, valid, ==_refl id, lookup-insert id id (holds i) s.intents)

-- Records do not change with an intent.
pub load-write_intent :
    {A : Type 0} (env : Env) (j id : String) (i : Intent) (v : A) (s : Store)
    → load env j (write_intent id i v s).1 ≡ load env j s
unfolding load write_intent
load-write_intent env j id i v s = refl
