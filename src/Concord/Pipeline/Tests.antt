-- ===== src/Concord/Pipeline/Tests.antt =====
-- Instances of the properties of the pipeline: a limit rises from 500 to 900 rows, and one page
-- states it, whose unit is the whole file.
use doc_eng_demo.Prelude.{
  ◌≡◌, ◌↔◌, ◌⊎◌, inl, refl, some, [], ◌∷◌, map, Member, false, codes, flat_map, true,
}
use doc_eng_demo.Value.{same_json}
use doc_eng_demo.Contracts.Records.{deterministic_regen, insufficient_evidence, ConflictDraft}
use doc_eng_demo.Concord.Classify.{
  classify, first_rule, is_contested, is_current, is_substitution, is_violation,
}
use doc_eng_demo.Concord.Authority.{
  arbitrate, arbitrate_all, consider, consider_all, disagrees, distinct, expand_claims,
  human_conflicts, lower_conflicts,
}
use doc_eng_demo.Contracts.Facts.{fact_registry, match_fact_key, own_property}
use doc_eng_demo.Concord.Normalize.{ascii_lower, canonical, canonical_scalar, same_canonical, trim}
use doc_eng_demo.Concord.Render.{format_value, replace_span, style_of}
use doc_eng_demo.Concord.Types.{FileDiff, Impact}
use doc_eng_demo.Concord.Pipeline.{
  Stages, PipelineInput, PipelineOutput, visit_all, traced, map_get, projections_of, visit,
  after_classify, PendingFile, run_pipeline, run_rounds, detect_deltas, output_of, context, seed,
  generated_of, impact_of, rendered, patch_step, set_file, pending_file, substitute, seed_files,
}
use doc_eng_demo.Concord.Pipeline.Deltas.{IsChange, detect_deltas_iff}
use doc_eng_demo.Concord.Pipeline.Impacts.{judged, run_context, run_pipeline-impacts}
use doc_eng_demo.Concord.Pipeline.Patches.{IsPatched, run_pipeline-IsPatched}
use doc_eng_demo.Concord.Fixtures.{max_rows, page, page_unit, rows_projection, snapshot, rows_delta}
use doc_eng_demo.Concord.Diff.{make_diff}

abbrev pub stages : Stages
stages = record {
  parse_estate = map (λ f. page_unit f.path f.content);
  run_extractors = λ units facts at terms prior. map (λ u. rows_projection u.id) units;
  check_internal_links = λ units. [];
  missing_coverage = λ facts units. [];
  detect_conflicts = λ facts units. some [];
  run_generators = λ before after files. record { diffs = []; paths = [] };
  other_number = λ t style. codes "NaN";
}

abbrev rows_conflict : ConflictDraft
rows_conflict = record {
  fact_key = max_rows;
  kind = insufficient_evidence;
  claims = [];
  likely_owner = "eng-platform";
}

-- The same stages, of which the last finds a conflict on the key.
abbrev pub conflicted_stages : Stages
conflicted_stages = record stages { detect_conflicts = λ facts units. some (rows_conflict ∷ []) }

abbrev pub input : PipelineInput
input = record {
  previous = snapshot "before" 500;
  current = snapshot "after" 900;
  files = record { path = "docs/limits.mdx"; content = page } ∷ [];
  detected_at = "2026-01-01";
  has_cli = false;
}

detect_deltas_iff_example :
    Member rows_delta (detect_deltas (snapshot "before" 500) (snapshot "after" 900))
    ↔ IsChange (snapshot "before" 500) (snapshot "after" 900) rows_delta
detect_deltas_iff_example =
    detect_deltas_iff (snapshot "before" 500) (snapshot "after" 900) rows_delta

abbrev rows_impact : Impact
rows_impact = impact_of (rows_projection "docs/limits.mdx") rows_delta false deterministic_regen 3

abbrev changed_file : PendingFile
changed_file = record { path = "docs/limits.mdx"; before = page; after = codes "Up to 900 rows." }

abbrev output : PipelineOutput
output =
    output_of stages input [] (record { impacts = rows_impact ∷ []; files = changed_file ∷ [] })

run_ends : run_pipeline stages input ≡ some output
unfolding run_pipeline seed_files visit_all traced detect_deltas map_get same_json projections_of
    visit context after_classify classify first_rule is_violation is_contested arbitrate_all
    distinct expand_claims arbitrate match_fact_key own_property fact_registry consider_all consider
    human_conflicts lower_conflicts disagrees is_current same_canonical canonical_scalar canonical
    is_substitution patch_step substitute replace_span pending_file generated_of set_file rendered
    format_value style_of ascii_lower trim
run_ends = refl

abbrev pub conflicted_output : PipelineOutput
conflicted_output = output_of conflicted_stages input (rows_conflict ∷ []) (record {
  impacts =
      impact_of (rows_projection "docs/limits.mdx") rows_delta true deterministic_regen 3 ∷ [];
  files = [];
})

pub conflicted_run_ends : run_pipeline conflicted_stages input ≡ some conflicted_output
unfolding run_pipeline seed_files visit_all traced detect_deltas map_get same_json projections_of
    visit context after_classify classify first_rule is_violation is_contested arbitrate_all
    distinct expand_claims arbitrate match_fact_key own_property fact_registry consider_all consider
    human_conflicts lower_conflicts disagrees is_current same_canonical canonical_scalar canonical
    is_substitution generated_of
conflicted_run_ends = refl

run_pipeline-impacts_example :
    output.impacts ≡ flat_map (judged (run_context stages input [])) (run_rounds stages input)
unfolding output_of
run_pipeline-impacts_example = run_pipeline-impacts stages input output run_ends

abbrev limits_patch : FileDiff
limits_patch = make_diff "docs/limits.mdx" page (codes "Up to 900 rows.")

patch_listed : Member limits_patch output.patches
unfolding output_of
patch_listed = inl refl

run_pipeline-IsPatched_example :
    (f : PendingFile) × (limits_patch ≡ make_diff f.path f.before f.after)
    × (Member f (seed stages (generated_of stages input).diffs).files
        ⊎ IsPatched (run_context stages input []) (run_rounds stages input) f.path)
unfolding output_of
run_pipeline-IsPatched_example =
    run_pipeline-IsPatched stages input output limits_patch run_ends patch_listed
