-- ===== src/Api/Publish.antt =====
-- The end of `executeRun` (packages/concord-api/src/run.ts): what is published of a run's patches
-- and impacts, which patch each stored impact names, and the run's last status.
pub mod Composed
pub mod Tests
use doc_eng_demo.Prelude.{
  ℕ, zero, suc, ◌≡◌, ◌≢◌, refl, sym, ◌∙◌, String, Bool, true, false, ◌&&◌, ◌||◌, not, Option, none,
  some, List, [], ◌∷◌, ◌++◌, map, filter, find?, any, is_some, Member, ◌==◌, eq_iff, arith,
  Bool-cases, ◌⊎◌, inl, inr, if◌then◌else◌,
}
use doc_eng_demo.Contracts.Records.{
  Text, Evidence, ActionClass, deterministic_regen, editorial_review, unresolved_conflict,
  PatchOrigin, deterministic, RunStatus, partial, completed, failed,
}
use doc_eng_demo.Concord.Types.{DocUnit, FileDiff, Disposition, escalated}
use doc_eng_demo.Concord.Pipeline.{map_get}
use doc_eng_demo.Api.Run.{ImpactRecord, ModelPatchRow}

pub record PublishPatch : Type 0 where
  pub path : String
  pub content : Text
  pub origin : PatchOrigin
  pub evidence : List Evidence

abbrev pub of_diff : FileDiff → PublishPatch
of_diff d = record { path = d.path; content = d.after; origin = deterministic; evidence = [] }

abbrev pub of_row : ModelPatchRow → PublishPatch
of_row p = record { path = p.path; content = p.after; origin = p.origin; evidence = p.evidence }

-- `contentByPath.set(path, …)`
unfoldable pub put_path : PublishPatch → List PublishPatch → List PublishPatch
put_path p [] = p ∷ []
put_path p (q ∷ qs) = if q.path == p.path then p ∷ qs else q ∷ put_path p qs

unfoldable pub put_diffs : List FileDiff → List PublishPatch → List PublishPatch
put_diffs [] held = held
put_diffs (d ∷ ds) held = put_diffs ds (put_path (of_diff d) held)

abbrev pub has_path : String → List PublishPatch → Bool
has_path path held = any (λ q. q.path == path) held

pub record Composition : Type 0 where
  pub patches : List PublishPatch
  pub composition_conflicts : List String

-- One round of the loop over the model's patches: a file that has a patch keeps it.
abbrev pub compose_row : ModelPatchRow → Composition → Composition
compose_row p c =
    if has_path p.path c.patches
    then record c { composition_conflicts = c.composition_conflicts ++ p.path ∷ [] }
    else record c { patches = put_path (of_row p) c.patches }

unfoldable pub compose_rows : List ModelPatchRow → Composition → Composition
compose_rows [] c = c
compose_rows (p ∷ ps) c = compose_rows ps (compose_row p c)

unfoldable pub compose : List FileDiff → List ModelPatchRow → Composition
compose diffs rows =
    compose_rows rows (record { patches = put_diffs diffs []; composition_conflicts = [] })

abbrev is_escalated : Disposition → Bool
is_escalated escalated = true
is_escalated _ = false

abbrev is_for_people : ActionClass → Bool
is_for_people editorial_review = true
is_for_people unresolved_conflict = true
is_for_people _ = false

unfoldable pub is_escalation : ImpactRecord → Bool
is_escalation i =
    is_escalated i.impact.disposition || (not (is_some i.patch_id) && is_for_people i.impact.action)

abbrev take_first : ℕ → List ImpactRecord → List ImpactRecord
take_first zero is = []
take_first (suc n) [] = []
take_first (suc n) (i ∷ is) = i ∷ take_first n is

-- The escalations; of each impact its unit, its action and its explanation are sent.
unfoldable pub escalations : List ImpactRecord → List ImpactRecord
escalations impacts = take_first 20 (filter is_escalation impacts)

abbrev regen_patch_id : List (String × String) → DocUnit → ActionClass → Option String
regen_patch_id patch_ids unit deterministic_regen = elim (map_get (λ r. r.0) unit.path patch_ids) [
  | none ↦ none
  | some r ↦ some r.1
]
regen_patch_id patch_ids unit _ = none

-- `deterministicPatchIdByPath`, of the pairs of path and id in order.
unfoldable pub stored_patch_id :
    List DocUnit → List (String × String) → ImpactRecord → Option String
stored_patch_id units patch_ids i = elim i.patch_id [
  | some id ↦ some id
  | none ↦ elim (map_get (λ u. u.id) i.impact.doc_unit_id units) [
    | none ↦ none
    | some unit ↦ regen_patch_id patch_ids unit i.impact.action
  ]
]

-- The status with which a run ends, and that of a run of which a part throws.
unfoldable pub final_status : Bool → RunStatus
final_status exhausted = if exhausted then partial else completed
