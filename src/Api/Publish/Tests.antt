-- ===== src/Api/Publish/Tests.antt =====
-- An instance of the property of published patches: a deterministic patch of one file, and the
-- model's patch of the same.
use doc_eng_demo.Prelude.{false, true, none, [], ◌∷◌, codes}
use doc_eng_demo.Contracts.Records.{model_grounded}
use doc_eng_demo.Concord.Types.{FileDiff}
use doc_eng_demo.Concord.Fixtures.{page}
use doc_eng_demo.Api.Run.{ModelPatchRow}
use doc_eng_demo.Api.Publish.{compose}
use doc_eng_demo.Api.Publish.Composed.{IsComposed, compose-IsComposed}

abbrev diff : FileDiff
diff = record {
  path = "docs/limits.mdx";
  before = page;
  after = codes "Up to 900 rows.";
  unified = [];
}

abbrev row : ModelPatchRow
row = record {
  id = "pat_1";
  path = "docs/limits.mdx";
  before = page;
  after = codes "Rows: 900.";
  unified = [];
  origin = model_grounded;
  doc_unit_id = "docs/limits.mdx";
  impact_ids = "imp_1" ∷ [];
  evidence = [];
  requires_review = true;
  validation = record {
    evidence_resolvable = true;
    introduces_no_new_facts = true;
    respects_editorial_register = true;
    path_allowlisted = true;
    falsification = record { attempted = false; refuted = false; refutation = none };
  };
  changed_because = "the limit rose";
  needs_human_because = none;
}

compose-IsComposed_example : IsComposed (diff ∷ []) (row ∷ []) (compose (diff ∷ []) (row ∷ []))
compose-IsComposed_example = compose-IsComposed (diff ∷ []) (row ∷ [])
