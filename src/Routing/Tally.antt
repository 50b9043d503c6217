-- ===== src/Routing/Tally.antt =====
-- Unblocks and the markers that stand for them.
use todo_pipeline_orch.Prelude.{
  ◌≤◌, ◌↔◌, list_beq_iff, ℕ, ◌+◌, String, true, false, List, [], ◌∷◌, ◌++◌, ◌≡◌, refl, ap, ◌∙◌,
  arith, any, ◌||◌, if_ind, inl, inr, Bool-cases, nat_eq, string_eq, option_eq, if◌then◌else◌,
}
use todo_pipeline_orch.Execution.Env.{Env}
use todo_pipeline_orch.Routing.Types.{
  Board, Unblock, succeeds, fails, times_out, not_marked, World, Marker, marker_beq, unblock_marker,
}
use todo_pipeline_orch.Routing.Cards.{is_marked, Unblocked, did, did_not, unwritten, unblock_once}

-- How many times the card of the marker was unblocked.
abbrev pub times : Marker → List Marker → ℕ
times m [] = 0
times m (x ∷ xs) = let rest = times m xs in if marker_beq m x then rest + 1 else rest

-- The command had its effect, and no marker tells of it.
abbrev pub unrecorded : Unblock → ℕ
unrecorded succeeds = 0
unrecorded fails = 0
unrecorded times_out = 1
unrecorded not_marked = 1

-- No more unblocks of the marker than there are files of it, one at most, and `n` without a file.
pub record IsTallied (m : Marker) (n : ℕ) (w : World) : Type 0 where
  pub tallied : times m w.unblocked ≤ (if is_marked m w.markers then 1 else 0) + n

pub IsTallied-widen : (m : Marker) (n k : ℕ) (w : World) → n ≤ k → IsTallied m n w → IsTallied m k w
IsTallied-widen m n k w l h = let t = h.tallied in record { tallied = omega (arith, t, l) }

marker_beq_iff : (a b : Marker) → (marker_beq a b ≡ true) ↔ (a ≡ b)
marker_beq_iff a b = ground (arith, list_beq_iff a.safe b.safe, list_beq_iff a.digest b.digest)

times-append :
    (m : Marker) (xs : List Marker) (n : Marker)
    → times m (xs ++ n ∷ []) ≡ times m xs + (if marker_beq m n then 1 else 0)
times-append m [] n = ground arith
times-append m (x ∷ xs) n = ground (arith, times-append m xs n)

-- A change to the files of the run that are no markers.
pub IsTallied-of :
    (m : Marker) (n : ℕ) (w w' : World)
    → w'.markers ≡ w.markers
    → w'.unblocked ≡ w.unblocked
    → IsTallied m n w
    → IsTallied m n w'
IsTallied-of m n w w' same same' h = record { tallied = rw (same, same') h.tallied }

is_marked-cons :
    (m n : Marker) (ms : List Marker) → is_marked m (n ∷ ms) ≡ (marker_beq m n || is_marked m ms)
unfolding is_marked any
is_marked-cons m n ms = refl

new_marker :
    (m n : Marker) (k : ℕ) (ms xs : List Marker)
    → is_marked n ms ≡ false
    → times m xs ≤ (if is_marked m ms then 1 else 0) + k
    → times m (xs ++ n ∷ []) ≤ (if is_marked m (n ∷ ms) then 1 else 0) + k
new_marker m n k ms xs fresh h = elim (Bool-cases (marker_beq m n)) [
  | inr other ↦ rw (times-append m xs n, is_marked-cons m n ms, other) (omega (arith, h))
  | inl same ↦
      let same_m : m ≡ n = (marker_beq_iff m n).0 same in
      let fresh_m : is_marked m ms ≡ false = ap (λ v. is_marked v ms) same_m ∙ fresh in
      let none_yet = rw fresh_m at h in
      rw (times-append m xs n, is_marked-cons m n ms, same) (omega (arith, none_yet))
]

-- An effect without a file of it.
one_more :
    (m n : Marker) (k : ℕ) (w : World)
    → IsTallied m k w
    → IsTallied m (k + 1) (record w { unblocked = w.unblocked ++ n ∷ [] })
one_more m n k w h =
    let t = h.tallied in
    record {
      tallied = rw (times-append m w.unblocked n) (elim (Bool-cases (marker_beq m n)) [
        | inl same ↦ rw same (omega (arith, t))
        | inr other ↦ rw other (omega (arith, t))
      ]);
    }

pub unblock_once-IsTallied :
    (env : Env) (board : Board) (key : String) (g : ℕ) (m : Marker) (n : ℕ) (w : World)
    → IsTallied m n w
    → IsTallied m (n + unrecorded board.unblocks) (unblock_once env board key g w).1
unfolding unblock_once
unblock_once-IsTallied env board key g m n w h =
    if_ind (λ (p : Unblocked × World). IsTallied m (n + unrecorded board.unblocks) p.1)
      (is_marked new w.markers) (λ _. IsTallied-widen m n _ w (omega arith) h)
      (λ fresh. on board.unblocks fresh)
  where
    new : Marker
    new = unblock_marker env key g

    on :
        (u : Unblock)
        → is_marked new w.markers ≡ false
        → IsTallied m
            (n + unrecorded u)
            (elim u as (λ _. Unblocked × World) [
              | succeeds ↦
                  (did, record w { markers = new ∷ w.markers; unblocked = w.unblocked ++ new ∷ [] })
              | fails ↦ (did_not, w)
              | times_out ↦ (did_not, record w { unblocked = w.unblocked ++ new ∷ [] })
              | not_marked ↦ (unwritten, record w { unblocked = w.unblocked ++ new ∷ [] })
            ]).1
    on succeeds fresh =
        let t = new_marker m new n w.markers w.unblocked fresh h.tallied in
        record { tallied = omega (arith, t) }
    on fails fresh = IsTallied-widen m n _ w (omega arith) h
    on times_out fresh = one_more m new n w h
    on not_marked fresh = one_more m new n w h
