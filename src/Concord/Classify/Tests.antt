-- ===== src/Concord/Classify/Tests.antt =====
-- Instances of the properties of the classification table.
use doc_eng_demo.Prelude.{◌≡◌, ◌≢◌, ◌↔◌, refl, none, some, arith}
use doc_eng_demo.Contracts.Records.{unresolved_conflict}
use doc_eng_demo.Concord.Classify.{
  ClassifyContext, classified, violation, classify, first_rule, is_violation, is_contested,
  is_current, is_substitution,
}
use doc_eng_demo.Concord.Classify.Table.{
  IsDeterministic, IsContested, classify-IsDeterministic, classify-IsContested_iff,
}
use doc_eng_demo.Concord.Fixtures.{
  page, page_unit, rows_projection, rows_delta, settled_arbitration,
}

abbrev rows_context : ClassifyContext
rows_context = record {
  projection = rows_projection "docs/limits.mdx";
  delta = rows_delta;
  unit = page_unit "docs/limits.mdx" page;
  arbitration = some settled_arbitration;
}

-- No claim is authoritative.
abbrev contested_context : ClassifyContext
contested_context = record rows_context {
  arbitration = some (record settled_arbitration { authoritative = none });
}

-- A mechanical value without a span, in a unit that the system owns.
abbrev gap_context : ClassifyContext
gap_context = record rows_context {
  projection = record (rows_projection "docs/limits.mdx") { span = none };
  unit = record (page_unit "docs/limits.mdx" page) { owner = "concord" };
}

classify-IsDeterministic_example : IsDeterministic rows_context 3
unfolding classify first_rule is_violation is_contested is_current
    doc_eng_demo.Concord.Normalize.same_canonical doc_eng_demo.Concord.Normalize.canonical_scalar
    doc_eng_demo.Concord.Normalize.canonical is_substitution
classify-IsDeterministic_example = classify-IsDeterministic rows_context 3 refl

contested_is_no_violation : classify contested_context ≢ violation
unfolding classify first_rule is_violation is_contested
contested_is_no_violation e = ground arith

classify-IsContested_iff_example :
    (classify contested_context ≡ classified unresolved_conflict 1)
    ↔ IsContested contested_context.arbitration
classify-IsContested_iff_example =
    classify-IsContested_iff contested_context contested_is_no_violation
