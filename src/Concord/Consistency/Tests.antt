-- ===== src/Concord/Consistency/Tests.antt =====
-- An instance of the property of the consistency check: the page states 500 rows, the schema 900.
use doc_eng_demo.Prelude.{◌↔◌, ◌∷◌, [], Member}
use doc_eng_demo.Contracts.Facts.{t1_schema, integer, entry}
use doc_eng_demo.Concord.Types.{Finding}
use doc_eng_demo.Concord.Consistency.{consistency_findings, value_finding}
use doc_eng_demo.Concord.Consistency.Findings.{IsInconsistent, consistency_findings_iff}
use doc_eng_demo.Concord.Fixtures.{rows_fact, rows_projection}

abbrev rows_finding : Finding
rows_finding =
    value_finding (rows_projection "docs/limits.mdx") (entry t1_schema integer "eng-platform")

consistency_findings_iff_example :
    Member rows_finding
      (consistency_findings (rows_fact 900 ∷ []) (rows_projection "docs/limits.mdx" ∷ []))
    ↔ IsInconsistent (rows_fact 900 ∷ []) (rows_projection "docs/limits.mdx" ∷ []) rows_finding
consistency_findings_iff_example =
    consistency_findings_iff (rows_fact 900 ∷ []) (rows_projection "docs/limits.mdx" ∷ [])
      rows_finding
