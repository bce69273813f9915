-- ===== src/Api/Setup.antt =====
-- What `executeRun` (packages/concord-api/src/run.ts) does around the pipeline before the model
-- phase: the working copy of a change-lab mutation, the units for the model extraction, and the
-- records that the phase starts from.
pub mod Isolated
pub mod Blocked
pub mod Tests
use doc_eng_demo.Prelude.{
  ℕ, zero, suc, ◌-◌, String, Bool, true, false, ◌&&◌, not, Option, none, some, List, [], ◌∷◌, map,
  filter, find?, any, length, min, leb, ◌==◌, if◌then◌else◌,
}
use doc_eng_demo.Value.{Value}
use doc_eng_demo.Contracts.Records.{Text, FactClaim, ProductTruthSnapshot, ConflictDraft}
use doc_eng_demo.Contracts.Mutations.{AllowedMutation, fact_value, doc_body}
use doc_eng_demo.Concord.Types.{DocUnit, FileDiff, FactProjection}
use doc_eng_demo.Concord.Normalize.{trim}
use doc_eng_demo.Concord.Pipeline.{SourceFile, PipelineOutput}
use doc_eng_demo.Concord.Proposal.{Json}
use doc_eng_demo.Concord.Validate.Patch.{Operations}
use doc_eng_demo.Api.Replace.{replace_first}
use doc_eng_demo.Api.Spend.{SpendState}
use doc_eng_demo.Api.Run.{
  RunInput, RunState, ImpactRecord, ConflictRecord, impact_records, start_phase,
}

-- The snapshot to compare with: the stored one, or the current one where none is stored.
unfoldable pub previous_of :
    Option ProductTruthSnapshot → ProductTruthSnapshot → ProductTruthSnapshot
previous_of none current = current
previous_of (some stored) current = stored

abbrev pub mutated_fact : String → String → Value → FactClaim → FactClaim
mutated_fact started_at key value f =
    if f.key == key then record f { value = value; observed_at = started_at } else f

unfoldable pub effective_current :
    String → Option AllowedMutation → ProductTruthSnapshot → ProductTruthSnapshot
effective_current started_at (some (fact_value key value)) current = record current {
  facts = map (mutated_fact started_at key value) current.facts;
}
effective_current started_at (some (doc_body unit_id body)) current = current
effective_current started_at none current = current

abbrev pub mutated_file : DocUnit → Text → SourceFile → SourceFile
mutated_file unit body f =
    if f.path == unit.path then record f { content = replace_first f.content unit.body body } else f

mutated_files : Option DocUnit → Text → List SourceFile → List SourceFile
mutated_files none body files = files
mutated_files (some unit) body files = map (mutated_file unit body) files

unfoldable pub effective_files :
    (List SourceFile → List DocUnit) → Option AllowedMutation → List SourceFile → List SourceFile
unfolding mutated_files
effective_files parse_estate (some (doc_body unit_id body)) files =
    mutated_files (find? (λ u. u.id == unit_id) (parse_estate files)) body files
effective_files parse_estate (some (fact_value key value)) files = files
effective_files parse_estate none files = files

abbrev pub model_extraction_max_units : ℕ
model_extraction_max_units = 10

-- `unitsNeedingModelExtraction` (packages/concord-core/src/extractors.ts)
unfoldable pub needs_extraction : List FactProjection → DocUnit → Bool
needs_extraction projections unit =
    not unit.generated
    && not (any (λ p. p.doc_unit_id == unit.id) projections)
    && leb 80 (length (trim unit.body))

abbrev pub units_needing_model_extraction : List DocUnit → List FactProjection → List DocUnit
units_needing_model_extraction units projections = filter (needs_extraction projections) units

abbrev first_units : ℕ → List DocUnit → List DocUnit
first_units zero us = []
first_units (suc n) [] = []
first_units (suc n) (u ∷ us) = u ∷ first_units n us

-- The units that are sent; a budget below zero is none.
unfoldable pub selected_units : SpendState → List DocUnit → List FactProjection → List DocUnit
unfolding needs_extraction
selected_units spend units projections =
    first_units (min model_extraction_max_units (spend.max_calls_per_run - spend.calls_this_run))
      (units_needing_model_extraction units projections)

-- What the model phase reads of the run.
pub record Services : Type 0 where
  pub operations : Operations
  pub json : Json

unfoldable pub phase_input :
    Services → List SourceFile → List FactClaim → String → PipelineOutput → RunInput
phase_input services estate facts started_at out = record {
  units = out.units;
  deltas = out.deltas;
  files = estate;
  facts = facts;
  started_at = started_at;
  operations = services.operations;
  json = services.json;
}

unfoldable pub conflict_records : (ℕ → String) → ℕ → List ConflictDraft → List ConflictRecord
conflict_records new_id n [] = []
conflict_records new_id n (d ∷ ds) =
    record { draft = d; id = new_id n } ∷ conflict_records new_id (suc n) ds

-- The new ids of a run, by their number.
pub record NewIds : Type 0 where
  pub of_conflict : ℕ → String
  pub of_impact : ℕ → String

abbrev pub start_records : NewIds → PipelineOutput → List ImpactRecord
start_records ids out =
    impact_records (conflict_records ids.of_conflict 0 out.conflicts) ids.of_impact 0 out.impacts

unfoldable pub start_run : SpendState → NewIds → PipelineOutput → RunState
start_run spend ids out =
    start_phase spend (start_records ids out) (conflict_records ids.of_conflict 0 out.conflicts)
