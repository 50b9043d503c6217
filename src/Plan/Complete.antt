-- ===== src/Plan/Complete.antt =====
-- A document with a well-formed manifest is accepted.
use todo_pipeline_orch.Prelude.{
  ◌≤◌, String, true, false, some, List, [], ◌∷◌, ◌++◌, ◌≡◌, refl, arith, nat_eq, string_eq, leb,
  All, All-imp, filter, any, all, ap,
}
use todo_pipeline_orch.Prelude.Checked.{ok}
use todo_pipeline_orch.Prelude.Json.{Json, keys, dict}
use todo_pipeline_orch.Plan.Manifest.{PlanManifest, no_repeats}
use todo_pipeline_orch.Plan.Fence.{
  is_pseudo_start, is_start, first_block, opens, closes, body_of, marker, fence,
}
use todo_pipeline_orch.Plan.Document.{Codec, json_value, parse_block, parse_plan_manifest}
use todo_pipeline_orch.Plan.Valid.{IsManifest}
use todo_pipeline_orch.Plan.Written.{manifest_json, parse_value-manifest_json}

-- A line of a document that starts no manifest.
abbrev pub IsOther : String → Type 0
IsOther line = (is_pseudo_start line ≡ false) × (opens line ≡ false)

module _ (rest : List String) where
  filter-others :
      (lines : List String)
      → All (λ l. is_pseudo_start l ≡ false) lines
      → filter is_pseudo_start (lines ++ rest) ≡ filter is_pseudo_start rest
  unfolding filter
  filter-others [] held = refl
  filter-others (l ∷ lines) (first, later) = rw first (filter-others lines later)

  first_block-others :
      (lines : List String) → All IsOther lines → first_block (lines ++ rest) ≡ first_block rest
  unfolding first_block
  first_block-others [] held = refl
  first_block-others (l ∷ lines) (first, later) = rw first.1 (first_block-others lines later)

  any-append :
      (lines : List String) → any is_start rest ≡ true → any is_start (lines ++ rest) ≡ true
  unfolding any
  any-append [] e = e
  any-append (l ∷ lines) e = ground (arith, any-append lines e)

  body_of-append :
      (body : List String)
      → All (λ l. closes l ≡ false) body
      → body_of (body ++ fence ∷ rest) ≡ some body
  unfolding body_of closes
  body_of-append [] held = refl
  body_of-append (l ∷ body) (first, later) = rw first (rw (body_of-append body later) refl)

marker_line :
    (is_pseudo_start marker ≡ true)
    × (is_start marker ≡ true)
    × (opens marker ≡ true)
    × (is_pseudo_start fence ≡ false)
unfolding is_pseudo_start is_start opens
marker_line = (refl, refl, refl, refl)

-- Python's library reads the lines as this value, of objects without duplicate keys.
pub record Reads (c : Codec) (block : List String) (value : Json) : Type 0 where
  pub small : c.utf8_length block ≤ 65536
  pub no_duplicates : all (λ fs. no_repeats (keys (dict fs))) (c.objects block) ≡ true
  pub loaded : c.loads block ≡ some value

parse_block-Reads :
    (c : Codec) (todo : String) (m : PlanManifest) (block : List String)
    → IsManifest todo m
    → Reads c block (manifest_json m)
    → parse_block c todo block ≡ ok (some m)
unfolding parse_block json_value
parse_block-Reads c todo m block v r =
    rw (let e : leb (c.utf8_length block) 65536 ≡ true = (let h = r.small in ground arith) in e)
      (rw r.no_duplicates (rw r.loaded (rw (parse_value-manifest_json todo m v) refl)))

module _ (before body behind : List String) where
  -- The lines of a document with one block.
  abbrev pub written : List String
  written = before ++ (marker ∷ (body ++ (fence ∷ behind)))

  one_marker :
      All IsOther before
      → All (λ l. is_pseudo_start l ≡ false) body
      → All (λ l. is_pseudo_start l ≡ false) behind
      → filter is_pseudo_start written ≡ marker ∷ []
  unfolding filter
  one_marker a b d =
      rw
        (filter-others (marker ∷ (body ++ (fence ∷ behind))) before
          (All-imp IsOther _ (λ l o. o.0) before a))
        (rw marker_line.0 (
          ap (λ (l : List String). marker ∷ l)
            (rw (filter-others (fence ∷ behind) body b) (rw marker_line.3 (ends behind d)))))
    where
      ends :
          (l : List String) → All (λ l. is_pseudo_start l ≡ false) l → filter is_pseudo_start l ≡ []
      ends [] held = refl
      ends (x ∷ l) (first, later) = rw first (ends l later)

  the_block :
      All IsOther before → All (λ l. closes l ≡ false) body → first_block written ≡ some body
  unfolding first_block
  the_block a b =
      rw (first_block-others (marker ∷ (body ++ (fence ∷ behind))) before a)
        (rw marker_line.2 (rw (body_of-append behind body b) refl))

  any_start : any is_start written ≡ true
  unfolding any
  any_start = any-append (marker ∷ (body ++ (fence ∷ behind))) before (rw marker_line.1 refl)

  -- A document with one block, which Python's library reads as the JSON of a well-formed manifest of the
  -- TODO, gives that manifest, where no other line starts a manifest and no line of the block closes it.
  pub parse_plan_manifest-written :
      (c : Codec) (todo : String) (m : PlanManifest)
      → IsManifest todo m
      → Reads c body (manifest_json m)
      → All IsOther before
      → All (λ l. (is_pseudo_start l ≡ false) × (closes l ≡ false)) body
      → All (λ l. is_pseudo_start l ≡ false) behind
      → parse_plan_manifest c todo written ≡ ok (some m)
  unfolding parse_plan_manifest
  parse_plan_manifest-written c todo m v r a b d =
      rw (one_marker a (All-imp _ (λ l. is_pseudo_start l ≡ false) (λ l o. o.0) body b) d) (
        rw any_start (
          rw (the_block a (All-imp _ (λ l. closes l ≡ false) (λ l o. o.1) body b))
            (parse_block-Reads c todo m body v r)))
