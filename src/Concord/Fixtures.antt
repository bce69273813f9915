-- ===== src/Concord/Fixtures.antt =====
-- Data for the instances of the properties of packages/concord-core: a limit that rises from 500
-- to 900 rows, and a help page that states it.
use doc_eng_demo.Prelude.{ℕ, String, false, none, some, [], ◌∷◌, codes}
use doc_eng_demo.Value.{null, num, str}
use doc_eng_demo.Contracts.Facts.{t1_schema}
use doc_eng_demo.Contracts.Records.{Text, FactClaim, ProductTruthSnapshot, certain}
use doc_eng_demo.Concord.Types.{
  DocUnit, helpcenter, end_user, friendly_help, FactProjection, mechanical_value, numeric_pattern,
  number, FactDelta,
}
use doc_eng_demo.Concord.Authority.{Arbitration}

abbrev pub max_rows : String
max_rows = "limit.upload.csv.max_rows"

abbrev pub page : Text
page = codes "Up to 500 rows."

abbrev pub page_unit : String → Text → DocUnit
page_unit path body = record {
  id = path;
  surface = helpcenter;
  path = path;
  anchor = none;
  title = "Limits";
  body = body;
  body_sha256 = "";
  audience = end_user;
  editorial_register = friendly_help;
  owner = "product-content";
  generated = false;
  frontmatter = null;
}

abbrev pub rows_projection : String → FactProjection
rows_projection path = record {
  id = "rows";
  fact_key = max_rows;
  doc_unit_id = path;
  mode = mechanical_value;
  asserted_value = str "500";
  span = some (record { start = 6; end = 9 });
  extractor = numeric_pattern;
  confidence = certain;
  detected_at = "2026-01-01";
  normalized_value = some (number 500);
}

abbrev pub rows_fact : ℕ → FactClaim
rows_fact n = record {
  key = max_rows;
  value = num n;
  tier = t1_schema;
  locator = "schema";
  observed_at = "2026-01-01";
  confidence = certain;
}

abbrev pub snapshot : String → ℕ → ProductTruthSnapshot
snapshot id n = record {
  snapshot_id = id;
  generated_at = "2026-01-01";
  relay_contracts_version = "1";
  facts = rows_fact n ∷ [];
}

abbrev pub rows_delta : FactDelta
rows_delta = record {
  fact_key = max_rows;
  from = num 500;
  to = num 900;
  kind = "value_changed";
  tier = t1_schema;
  locator = "schema";
}

abbrev pub settled_arbitration : Arbitration
settled_arbitration = record {
  key = max_rows;
  owner = some "eng-platform";
  authoritative_tier = some t1_schema;
  authoritative =
      some (record { key = max_rows; value = num 900; tier = t1_schema; source = "schema" });
  human_claims = [];
  ignored_temporal = [];
  conflicts = [];
}
