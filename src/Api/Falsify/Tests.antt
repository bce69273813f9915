-- ===== src/Api/Falsify/Tests.antt =====
-- An instance of the property of falsification: the falsifier does not refute.
use doc_eng_demo.Prelude.{◌≡◌, refl, true, false, some, none, [], ◌∷◌, codes}
use doc_eng_demo.Concord.Types.{Finding, inconsistent_value, FactProjection}
use doc_eng_demo.Concord.Falsify.{needs_falsification, parse_falsifier_response}
use doc_eng_demo.Concord.Fixtures.{max_rows, rows_projection, rows_fact}
use doc_eng_demo.Api.Falsify.{FalsifyInput, Answer, answered, verify_finding, read_answer}
use doc_eng_demo.Api.Falsify.Active.{IsUpheld, verify_finding-IsUpheld}
use doc_eng_demo.Concord.Pipeline.{map_get}

abbrev unsure : FactProjection
unsure = record (rows_projection "docs/limits.mdx") { confidence = 700 }

abbrev finding : Finding
finding = record {
  kind = inconsistent_value;
  fact_key = max_rows;
  doc_unit_id = some "docs/limits.mdx";
  projection_id = some "rows";
  owner = some "eng-platform";
}

abbrev input : FalsifyInput
input = record {
  facts = rows_fact 900 ∷ [];
  projections = unsure ∷ [];
  has_client = true;
  parse = λ t. some (record { refuted = false; refutation = none });
}

abbrev answer : Answer
answer = answered (record {
  stop_reason = some "end_turn";
  content = record { kind = "text"; text = some (codes "{}") } ∷ [];
  usage = record {
    input_tokens = 10;
    output_tokens = 10;
    cache_creation_input_tokens = none;
    cache_read_input_tokens = none;
  };
})

unsure_needs : needs_falsification finding input.projections ≡ true
unfolding needs_falsification map_get
unsure_needs = refl

stays_active : (verify_finding input answer finding).is_active ≡ true
unfolding verify_finding needs_falsification map_get read_answer parse_falsifier_response
stays_active = refl

verify_finding-IsUpheld_example : IsUpheld input answer
verify_finding-IsUpheld_example =
    verify_finding-IsUpheld input answer finding (rows_fact 900) refl unsure_needs refl stays_active
