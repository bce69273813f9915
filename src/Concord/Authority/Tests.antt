-- ===== src/Concord/Authority/Tests.antt =====
-- Instances of the properties of the arbitration: two schema claims that differ and one of the
-- configuration.
use doc_eng_demo.Prelude.{String, ◌≡◌, refl, arith, some, List, [], ◌∷◌}
use doc_eng_demo.Value.{num}
use doc_eng_demo.Contracts.Facts.{
  t1_schema, t3_config, integer, entry, FactRegistryEntry, match_fact_key, own_property,
  fact_registry,
}
use doc_eng_demo.Concord.Authority.{TierClaim, arbitrate}
use doc_eng_demo.Concord.Authority.Outcome.{
  IsOutcome, IsContradiction, relevant, arbitrate-IsOutcome,
}

abbrev max_rows : String
max_rows = "limit.upload.csv.max_rows"

abbrev rows_claim : TierClaim
rows_claim = record { key = max_rows; value = num 500; tier = t1_schema; source = "schema" }

abbrev config_claim : TierClaim
config_claim = record { key = max_rows; value = num 900; tier = t3_config; source = "config" }

abbrev rows_entry : FactRegistryEntry
rows_entry = entry t1_schema integer "eng-platform"

rows_registered : match_fact_key max_rows ≡ some rows_entry
unfolding match_fact_key own_property fact_registry
rows_registered = refl

abbrev RowsArbitration : List TierClaim → Type 0
RowsArbitration claims =
    IsOutcome max_rows rows_entry (relevant max_rows claims) (arbitrate max_rows claims)

arbitrate-IsOutcome_example : RowsArbitration (rows_claim ∷ config_claim ∷ [])
arbitrate-IsOutcome_example =
    arbitrate-IsOutcome max_rows rows_entry (rows_claim ∷ config_claim ∷ []) rows_registered

config_contradicts : IsContradiction max_rows rows_entry rows_claim config_claim
unfolding doc_eng_demo.Concord.Normalize.same_normalized
    doc_eng_demo.Concord.Normalize.normalize_for_fact
config_contradicts = record {
  other = λ e. ground arith;
  current = (λ e. ground arith, λ e. ground arith);
  unequal = refl;
}
