-- ===== src/Concord/Validate/Tests.antt =====
-- Instances of the properties of the gates: a page of the estate, a patch of the limit that it
-- states, and mutations of the change lab.
use doc_eng_demo.Prelude.{
  ◌≡◌, refl, String, Bool, true, false, Option, none, some, List, [], ◌∷◌, codes, inl, inr, map,
}
use doc_eng_demo.Value.{num}
use doc_eng_demo.Contracts.Facts.{t1_schema}
use doc_eng_demo.Contracts.Records.{Text, PatchProposal, PatchValidation, EditorialRisk}
use doc_eng_demo.Contracts.Mutations.{AllowedMutation, doc_body}
use doc_eng_demo.Concord.Validate.Path.{path_allowlisted}
use doc_eng_demo.Concord.Validate.Path.Safe.{IsSafePath, path_allowlisted-IsSafePath}
use doc_eng_demo.Concord.Validate.Patch.{ValidatePatchInput, Operations, accepted, validate_patch}
use doc_eng_demo.Concord.Validate.Patch.Gates.{IsValid, validate_patch-IsValid}
use doc_eng_demo.Concord.Validate.Mutation.{validate_mutation, allowed}
use doc_eng_demo.Concord.Validate.Mutation.Closed.{IsAllowed, validate_mutation-IsAllowed}
use doc_eng_demo.Concord.Fixtures.{max_rows, page, page_unit, rows_projection, rows_fact}

abbrev unchanged : Text → Text
unchanged t = t

abbrev limits_path : String
limits_path = "docs-mintlify/limits/csv.mdx"

limits_listed : path_allowlisted unchanged (codes limits_path) ≡ true
unfolding path_allowlisted doc_eng_demo.Prelude.split_on
limits_listed = refl

path_allowlisted-IsSafePath_example : IsSafePath unchanged (codes limits_path)
path_allowlisted-IsSafePath_example =
    path_allowlisted-IsSafePath unchanged (codes limits_path) limits_listed

abbrev operations : Operations
operations = record {
  run_extractors = λ unit facts at. rows_projection unit.id ∷ [];
  sha256_hex = λ t. "";
  nfc = unchanged;
}

abbrev proposal : PatchProposal
proposal = record {
  new_body = codes "Up to 900 rows.";
  evidence =
      record {
        fact_key = max_rows;
        tier = t1_schema;
        locator = "schema";
        value = num 900;
        observed_at = "2026-01-01";
      }
      ∷ [];
  changed_because = "the limit rose";
  editorial_risk = EditorialRisk.none;
  needs_human_because = none;
}

abbrev patch_input : ValidatePatchInput
patch_input = record {
  proposal = proposal;
  unit = page_unit limits_path page;
  facts = rows_fact 900 ∷ [];
  detected_at = "2026-01-01";
}

abbrev validation : PatchValidation
validation = record {
  evidence_resolvable = true;
  introduces_no_new_facts = true;
  respects_editorial_register = true;
  path_allowlisted = true;
  falsification = record { attempted = false; refuted = false; refutation = none };
}

patch_accepted : validate_patch operations patch_input ≡ accepted validation
unfolding validate_patch path_allowlisted doc_eng_demo.Contracts.Facts.match_fact_key
    doc_eng_demo.Contracts.Facts.own_property doc_eng_demo.Contracts.Facts.fact_registry
    doc_eng_demo.Concord.Validate.Patch.body_content_safe doc_eng_demo.Concord.Content.has_tag
    doc_eng_demo.Concord.Content.has_handler doc_eng_demo.Concord.Content.has_javascript_uri
    doc_eng_demo.Concord.Content.has_statement doc_eng_demo.Prelude.split_on
patch_accepted = refl

validate_patch-IsValid_example : IsValid operations patch_input
validate_patch-IsValid_example =
    validate_patch-IsValid operations patch_input validation patch_accepted

abbrev body_edit : AllowedMutation
body_edit = doc_body "limits" (codes "<Note>Up to 900 rows.</Note>")

body_admitted : validate_mutation body_edit ("limits" ∷ []) ≡ some allowed
unfolding validate_mutation doc_eng_demo.Concord.Validate.Mutation.validate_doc_body
    doc_eng_demo.Concord.Validate.Mutation.utf8_length
    doc_eng_demo.Concord.Validate.Mutation.forbidden_content doc_eng_demo.Concord.Content.has_tag
    doc_eng_demo.Concord.Content.has_handler doc_eng_demo.Concord.Content.has_javascript_uri
    doc_eng_demo.Concord.Content.has_braces doc_eng_demo.Concord.Content.has_indented_statement
    doc_eng_demo.Concord.Content.has_foreign_component
body_admitted = refl

validate_mutation-IsAllowed_example : IsAllowed body_edit ("limits" ∷ [])
validate_mutation-IsAllowed_example =
    validate_mutation-IsAllowed body_edit ("limits" ∷ []) body_admitted
